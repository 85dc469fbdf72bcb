-- ===== src/Store/Replay/Commit.antt =====
-- The commit of a replay: `commit_load_replay_inner` of crates/hub/src/store/replay.rs.
use acp_hub.Base.{
  ℕ, Bool, false, ◌&&◌, ◌||◌, List, [], ◌∷◌, Option, none, some, String, if◌then◌else◌, leb, ◌==◌,
  string_eq, option_eq, get, contains_key, is_some,
}
use acp_hub.Store.Messages.{MessageRow}
use acp_hub.Store.Replay.{
  JsonSnapshot, UsageSnapshot, Image, ReplayRefresh, ReplayStore, Result, ok, err, conflict,
  conversation_not_found, is_load_replay, update_conversation, with_image, next_generation,
  validate_load_replay_refresh, with_conversations, delete_refresh,
}

-- A snapshot is kept if it was written during the load.
abbrev stamp_of : Option JsonSnapshot → Option String
stamp_of none = none
stamp_of (some j) = some j.updated_at

abbrev usage_stamp : Option UsageSnapshot → Option String
usage_stamp none = none
usage_stamp (some u) = some u.updated_at

-- `updated_at = NULL` is not true in SQL.
abbrev same_stamp : Option String → Option String → Bool
same_stamp (some a) (some b) = a == b
same_stamp _ _ = false

abbrev stamp_before : Option Image → (Image → Option String) → Option String
stamp_before none f = none
stamp_before (some b) f = f b

unfoldable pub static_image : Option Image → Option String → Option String → String → Image → Image
static_image before config_options modes now i = record {
  title = i.title;
  updated_at = i.updated_at;
  session_meta = i.session_meta;
  status = i.status;
  cwd = i.cwd;
  additional_directories = i.additional_directories;
  fts_title = i.fts_title;
  config =
      if is_some config_options || is_some modes
      then some (record {
        config_options = elim config_options [ none ↦ "null" | some json ↦ json ];
        modes = modes;
        updated_at = now;
      })
      else none;
  plan =
      if same_stamp (stamp_of i.plan) (stamp_before before (λ b. stamp_of b.plan))
      then none
      else i.plan;
  commands =
      if same_stamp (stamp_of i.commands) (stamp_before before (λ b. stamp_of b.commands))
      then none
      else i.commands;
  usage =
      if same_stamp (usage_stamp i.usage) (stamp_before before (λ b. usage_stamp b.usage))
      then none
      else i.usage;
}

abbrev pub superseded_row : String → MessageRow → MessageRow
superseded_row load_id m = record {
  id = m.id;
  conv_id = m.conv_id;
  run_id = m.run_id;
  source = m.source;
  current_projection = false;
  message_key = m.message_key;
  superseded_by = some load_id;
  role = m.role;
  kind = m.kind;
  content = m.content;
  body_text = m.body_text;
  seq = m.seq;
  created_at = m.created_at;
}

-- `UPDATE messages SET current_projection = 0, superseded_by_load_id = ? WHERE ..`.
unfoldable pub supersede : (MessageRow → Bool) → String → List MessageRow → List MessageRow
supersede test load_id [] = []
supersede test load_id (m ∷ ms) =
    (if test m then superseded_row load_id m else m) ∷ supersede test load_id ms

-- `WHERE conv_id = ? AND source = 'load_replay' AND current_projection = 1`.
unfoldable pub current_replay : String → MessageRow → Bool
current_replay conv_id m = m.conv_id == conv_id && (is_load_replay m.source && m.current_projection)

-- `.. AND seq <= ?`.
unfoldable pub prior_replay : String → ℕ → MessageRow → Bool
unfolding current_replay
prior_replay conv_id starting_seq m = current_replay conv_id m && leb m.seq starting_seq

abbrev image_of : String → String → ReplayStore → Option Image
image_of conv_id load_id s = elim (get load_id s.before_images) [
  | none ↦ none
  | some b ↦ if b.conv_id == conv_id then some b.image else none
]

-- The static snapshots of a commit, where it has some: the config options and the modes.
unfoldable pub replace_static :
    Option (Option String × Option String) → ReplayRefresh → String → ReplayStore → ReplayStore
unfolding get update_conversation static_image
replace_static none refresh now s = s
replace_static (some (config_options, modes)) refresh now s =
    with_conversations
      (update_conversation refresh.conv_id
        (λ c.
          with_image
            (static_image (image_of refresh.conv_id refresh.load_id s) config_options modes now
              c.image)
            c)
        s.conversations)
      s

-- `commit_load_replay_inner`.
unfoldable pub commit_load_replay_inner :
    ReplayRefresh
    → Option (Option String × Option String)
    → String
    → ReplayStore
    → Result ReplayStore
unfolding validate_load_replay_refresh get replace_static supersede prior_replay update_conversation
    delete_refresh
commit_load_replay_inner refresh static_snapshots now s =
    if validate_load_replay_refresh refresh s
    then (if contains_key refresh.conv_id s.conversations
        then (let t = replace_static static_snapshots refresh now s in
            ok (
              delete_refresh refresh.conv_id refresh.load_id (record {
                conversations = update_conversation refresh.conv_id next_generation t.conversations;
                refreshes = t.refreshes;
                before_images = t.before_images;
                messages =
                    supersede (prior_replay refresh.conv_id refresh.starting_seq) refresh.load_id
                      t.messages;
              })))
        else err (conversation_not_found refresh.conv_id))
    else err (conflict refresh.conv_id)
