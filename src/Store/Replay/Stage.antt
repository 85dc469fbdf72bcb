-- ===== src/Store/Replay/Stage.antt =====
-- A replay that is published at once: `stage_load_replay` of crates/hub/src/store/replay.rs.
pub mod Laws
use acp_hub.Base.{
  ℕ, suc, ◌+◌, Bool, true, false, not, ◌&&◌, ◌||◌, List, [], ◌∷◌, ◌++◌, Option, none, some, String,
  if◌then◌else◌, ltb, leb, eqb, ◌==◌, string_eq, Map, get, contains_key,
}
use acp_hub.Store.Messages.{MessageRow, load_replay, max_message_seq, has_message}
use acp_hub.Store.Replay.{
  Image, Conversation, ReplayStore, Result, ok, err, constraint_failed, update_conversation,
}
use acp_hub.Store.Replay.Commit.{current_replay, supersede}

pub record ReplayedMessage : Type 0 where
  pub id : String
  pub message_key : Option String
  pub role : String
  pub kind : Option String
  pub content : String
  pub body_text : String

abbrev pub replayed_row : String → String → ℕ → ReplayedMessage → MessageRow
replayed_row conv_id now seq m = record {
  id = m.id;
  conv_id = conv_id;
  run_id = none;
  source = load_replay;
  current_projection = true;
  message_key = m.message_key;
  superseded_by = none;
  role = m.role;
  kind = m.kind;
  content = m.content;
  body_text = m.body_text;
  seq = seq;
  created_at = now;
}

-- The rows of the messages, with consecutive numbers behind `seq`.
unfoldable pub replayed_rows : String → String → ℕ → List ReplayedMessage → List MessageRow
replayed_rows conv_id now seq [] = []
replayed_rows conv_id now seq (m ∷ ms) =
    replayed_row conv_id now (seq + 1) m ∷ replayed_rows conv_id now (seq + 1) ms

-- An id that is taken, in the table or by an earlier message.
unfoldable pub repeats_id : List ReplayedMessage → List MessageRow → Bool
unfolding has_message
repeats_id [] table = false
repeats_id (m ∷ ms) table = has_message m.id table || repeats_id ms (replayed_row "" "" 0 m ∷ table)

abbrev pub staged_image : String → Image → Image
staged_image now i = record {
  title = i.title;
  updated_at = now;
  session_meta = i.session_meta;
  status = i.status;
  cwd = i.cwd;
  additional_directories = i.additional_directories;
  fts_title = i.fts_title;
  config = i.config;
  plan = i.plan;
  commands = i.commands;
  usage = i.usage;
}

abbrev staged_conversation : String → Conversation → Conversation
staged_conversation now c = record c {
  image = staged_image now c.image;
  projection_generation = c.projection_generation + 1;
}

abbrev pub no_messages : List ReplayedMessage → Bool
no_messages [] = true
no_messages (m ∷ ms) = false

-- `stage_load_replay`: an insert fails for a missing conversation and for a taken id.
unfoldable pub stage_load_replay :
    String → String → List ReplayedMessage → String → ReplayStore → Result ReplayStore
unfolding supersede current_replay max_message_seq replayed_rows repeats_id update_conversation
stage_load_replay conv_id load_id messages now s =
    if no_messages messages
      || (contains_key conv_id s.conversations && not (repeats_id messages s.messages))
    then ok (record {
      conversations = update_conversation conv_id (staged_conversation now) s.conversations;
      refreshes = s.refreshes;
      before_images = s.before_images;
      messages =
          supersede (current_replay conv_id) load_id s.messages
          ++ replayed_rows conv_id now (max_message_seq conv_id s.messages) messages;
    })
    else err constraint_failed
