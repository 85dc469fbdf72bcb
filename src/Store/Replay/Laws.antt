-- ===== src/Store/Replay/Laws.antt =====
-- What the commit and the rollback of a replay leave.
use acp_hub.Base.{
  ◌≡◌, refl, ap, sym, ◌∙◌, true, false, not, ◌&&◌, Option, none, some, String, arith, Bool-cases,
  Option-cases, inl, inr, ◌==◌, string_eq, ==_refl, get, get-remove, contains_key,
}
use acp_hub.Store.Messages.{where_rows, in_conversation, order_by_seq, messages}
use acp_hub.Store.Replay.{
  RefreshRow, ReplayRefresh, ReplayStore, ok, err, conflict, update_conversation, next_generation,
  validate_load_replay_refresh, delete_refresh, rollback_load_replay,
}
use acp_hub.Store.Replay.Commit.{prior_replay, supersede, replace_static, commit_load_replay_inner}
use acp_hub.Store.Replay.Rows.{where-supersede}

-- A refresh that was deleted is there no more.
pub get-delete_refresh :
    (conv load : String) (s : ReplayStore) (r : RefreshRow)
    → get conv s.refreshes ≡ some r
    → (r.load_id == load) ≡ true
    → get conv (delete_refresh conv load s).refreshes ≡ none
unfolding delete_refresh
get-delete_refresh conv load s r h e =
    let own = ==_refl conv in
    let a = get-remove conv conv s.refreshes in ground (arith, h, e, own, a)

pub same-delete_refresh :
    (conv load : String) (s : ReplayStore)
    → ((delete_refresh conv load s).conversations ≡ s.conversations)
      × ((delete_refresh conv load s).messages ≡ s.messages)
unfolding delete_refresh
same-delete_refresh conv load s = elim (Option-cases (get conv s.refreshes)) [
  | inl e ↦ rw (e, delete_refresh) (refl, refl)
  | inr (r, e) ↦ elim (Bool-cases (r.load_id == load)) [
    | inl f ↦ rw (e, f, delete_refresh) (refl, refl)
    | inr f ↦ rw (e, f, delete_refresh) (refl, refl)
  ]
]

-- Without its marker a refresh is neither committed nor rolled back.
pub refused_lem :
    (refresh : ReplayRefresh) (s : ReplayStore) (snapshots : Option (Option String × Option String))
    (now : String)
    → get refresh.conv_id s.refreshes ≡ none
    → (rollback_load_replay refresh s ≡ err (conflict refresh.conv_id))
      × (commit_load_replay_inner refresh snapshots now s ≡ err (conflict refresh.conv_id))
unfolding rollback_load_replay commit_load_replay_inner validate_load_replay_refresh
refused_lem refresh s snapshots now h = (ground (arith, h), ground (arith, h))

-- The marker of a valid refresh.
pub marker :
    (refresh : ReplayRefresh) (s : ReplayStore)
    → validate_load_replay_refresh refresh s ≡ true
    → (r : RefreshRow) × (get refresh.conv_id s.refreshes ≡ some r)
      × ((r.load_id == refresh.load_id) ≡ true)
unfolding validate_load_replay_refresh
marker refresh s h = elim (Option-cases (get refresh.conv_id s.refreshes)) [
  | inl e ↦ absurd (ground (arith, h, e))
  | inr (r, e) ↦ (r, e, ground (arith, h, e))
]

refreshes-replace_static :
    (snapshots : Option (Option String × Option String)) (refresh : ReplayRefresh) (now : String)
    (s : ReplayStore)
    → ((replace_static snapshots refresh now s).refreshes ≡ s.refreshes)
      × ((replace_static snapshots refresh now s).messages ≡ s.messages)
unfolding replace_static
refreshes-replace_static none refresh now s = (refl, refl)
refreshes-replace_static (some (config_options, modes)) refresh now s = (refl, refl)

-- The store before the marker of a commit goes.
abbrev published :
    ReplayRefresh → Option (Option String × Option String) → String → ReplayStore → ReplayStore
published refresh snapshots now s = record {
  conversations =
      update_conversation refresh.conv_id next_generation
        (replace_static snapshots refresh now s).conversations;
  refreshes = (replace_static snapshots refresh now s).refreshes;
  before_images = (replace_static snapshots refresh now s).before_images;
  messages =
      supersede (prior_replay refresh.conv_id refresh.starting_seq) refresh.load_id
        (replace_static snapshots refresh now s).messages;
}

commit_inv :
    (refresh : ReplayRefresh) (s t : ReplayStore)
    (snapshots : Option (Option String × Option String)) (now : String)
    → commit_load_replay_inner refresh snapshots now s ≡ ok t
    → (validate_load_replay_refresh refresh s ≡ true)
      × (delete_refresh refresh.conv_id refresh.load_id (published refresh snapshots now s) ≡ t)
unfolding commit_load_replay_inner
commit_inv refresh s t snapshots now h =
    elim (Bool-cases (validate_load_replay_refresh refresh s)) [
      | inr wrong ↦ absurd (ground (arith, h, wrong))
      | inl valid ↦ elim (Bool-cases (contains_key refresh.conv_id s.conversations)) [
        | inr missing ↦ absurd (ground (arith, h, valid, missing))
        | inl there ↦ (valid, ground (arith, h, valid, there))
      ]
    ]

-- A commit ends its refresh.
commit_once :
    (refresh : ReplayRefresh) (s t : ReplayStore)
    (snapshots again : Option (Option String × Option String)) (now later : String)
    → commit_load_replay_inner refresh snapshots now s ≡ ok t
    → (rollback_load_replay refresh t ≡ err (conflict refresh.conv_id))
      × (commit_load_replay_inner refresh again later t ≡ err (conflict refresh.conv_id))
commit_once refresh s t snapshots again now later h =
    let (valid, e) = commit_inv refresh s t snapshots now h in
    let (r, f, g) = marker refresh s valid in
    let kept : get refresh.conv_id (published refresh snapshots now s).refreshes ≡ some r =
      ap (get refresh.conv_id) (refreshes-replace_static snapshots refresh now s).0 ∙ f in
    refused_lem refresh t again later (
      ap (λ u. get refresh.conv_id u.refreshes) (sym e)
      ∙ get-delete_refresh refresh.conv_id refresh.load_id (published refresh snapshots now s) r
          kept g)

-- What a commit publishes.
commit_load_replay-messages :
    (refresh : ReplayRefresh) (s t : ReplayStore)
    (snapshots : Option (Option String × Option String)) (now : String)
    → commit_load_replay_inner refresh snapshots now s ≡ ok t
    → messages refresh.conv_id false t.messages
      ≡ order_by_seq (
          where_rows
            (λ m.
              in_conversation refresh.conv_id false m
              && not (prior_replay refresh.conv_id refresh.starting_seq m))
            s.messages)
commit_load_replay-messages refresh s t snapshots now h =
    let (valid, e) = commit_inv refresh s t snapshots now h in
    let table : t.messages
        ≡ supersede (prior_replay refresh.conv_id refresh.starting_seq) refresh.load_id s.messages =
      ap (λ u. u.messages) (sym e)
      ∙ (same-delete_refresh refresh.conv_id refresh.load_id (published refresh snapshots now s)).1
      ∙ ap (supersede (prior_replay refresh.conv_id refresh.starting_seq) refresh.load_id)
          (refreshes-replace_static snapshots refresh now s).1 in
    ap (messages refresh.conv_id false) table
    ∙ (unfold messages in
        ap order_by_seq (
          where-supersede refresh.conv_id (prior_replay refresh.conv_id refresh.starting_seq)
            refresh.load_id s.messages))

-- After a commit the current messages of the conversation are those from before it, without the replayed ones
-- up to the start of the load. The commit ends its refresh: neither a rollback of it nor a second commit has an
-- effect.
pub commit_load_replay_lem :
    (refresh : ReplayRefresh) (s t : ReplayStore)
    (snapshots again : Option (Option String × Option String)) (now later : String)
    → commit_load_replay_inner refresh snapshots now s ≡ ok t
    → (messages refresh.conv_id false t.messages
        ≡ order_by_seq (
            where_rows
              (λ m.
                in_conversation refresh.conv_id false m
                && not (prior_replay refresh.conv_id refresh.starting_seq m))
              s.messages))
      × (rollback_load_replay refresh t ≡ err (conflict refresh.conv_id))
      × (commit_load_replay_inner refresh again later t ≡ err (conflict refresh.conv_id))
commit_load_replay_lem refresh s t snapshots again now later h =
    let ended = commit_once refresh s t snapshots again now later h in
    (commit_load_replay-messages refresh s t snapshots now h, ended.0, ended.1)
