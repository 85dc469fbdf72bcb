-- ===== src/Tests/Replay.antt =====
-- A load of one conversation.
use acp_hub.Base.{
  ℕ, ◌≡◌, refl, Bool, true, false, not, ◌&&◌, [], ◌∷◌, none, some, String, if◌then◌else◌, ◌==◌,
  ◌++◌, string_eq, get, insert, remove, All,
}
use acp_hub.Store.Policy.{bound, writable, open_phase, not_busy, no_outcome}
use acp_hub.Store.Messages.{
  MessageRow, local_turn, load_replay, where_rows, max_message_seq, messages, in_conversation,
  order_by_seq, has_message,
}
use acp_hub.Store.Replay.{
  Image, Conversation, ReplayStore, RefreshRow, BeforeImage, ok, err, conflict, begin_load_replay,
  begin_load_replay_tx, rollback_load_replay, validate_load_replay_refresh, captured_after,
  is_load_replay, has_load, images_conversation, update_conversation, delete_refresh,
}
use acp_hub.Store.Replay.Commit.{
  commit_load_replay_inner, prior_replay, replace_static, supersede, current_replay, superseded_row,
}
use acp_hub.Store.Replay.Laws.{commit_load_replay_lem}
use acp_hub.Store.Replay.Captured.{of_conv}
use acp_hub.Store.Replay.Rollback.{rollback-begin, rolled_back}
use acp_hub.Store.Replay.Recovery.{recover_interrupted_load_replays}
use acp_hub.Store.Replay.Recovery.Laws.{handle, recover-rollback}
use acp_hub.Store.Replay.Stage.{
  ReplayedMessage, stage_load_replay, replayed_rows, replayed_row, repeats_id, staged_image,
}
use acp_hub.Store.Replay.Stage.Laws.{Replays, Tops, stage_load_replay-current}

abbrev message : String → Bool → ℕ → MessageRow
message id replayed s = record {
  id = id;
  conv_id = "c";
  run_id = none;
  source = if replayed then load_replay else local_turn;
  current_projection = true;
  message_key = none;
  superseded_by = none;
  role = "assistant";
  kind = none;
  content = "{}";
  body_text = "hi";
  seq = s;
  created_at = "t0";
}

abbrev image : String → Image
image title = record {
  title = some title;
  updated_at = "t0";
  session_meta = none;
  status = "idle";
  cwd = "/";
  additional_directories = "[]";
  fts_title = some title;
  config = none;
  plan = none;
  commands = none;
  usage = none;
}

abbrev conversation : String → Conversation
conversation title = record {
  image = image title;
  projection_generation = 4;
  agent_id = "a";
  agent_session_id = "s";
  created_at = "t0";
  origin = bound;
  interaction = writable;
  phase = open_phase;
  busy = not_busy;
  last_outcome = no_outcome;
}

abbrev quiet : ReplayStore
quiet = record {
  conversations = ("c", conversation "old") ∷ [];
  refreshes = [];
  before_images = [];
  messages = message "a" true 1 ∷ message "b" false 2 ∷ [];
}

abbrev marker : RefreshRow
marker = record { load_id = "l"; starting_seq = 2; generation_nonce = "n" }

abbrev before : BeforeImage
before = record { conv_id = "c"; conversation_was_present = true; image = image "old" }

abbrev begun : ReplayStore
begun = record {
  conversations = ("c", conversation "old") ∷ [];
  refreshes = ("c", marker) ∷ [];
  before_images = ("l", before) ∷ [];
  messages = message "a" true 1 ∷ message "b" false 2 ∷ [];
}

-- One replayed row was captured, and the title changed.
abbrev loading : ReplayStore
loading = record {
  conversations = ("c", conversation "new") ∷ [];
  refreshes = ("c", marker) ∷ [];
  before_images = ("l", before) ∷ [];
  messages = message "a" true 1 ∷ message "b" false 2 ∷ message "d" true 3 ∷ [];
}

there : get "c" quiet.conversations ≡ some (conversation "old")
unfolding get
there = refl

begins : begin_load_replay "c" "l" "n" quiet ≡ ok (handle "c" marker, begun)
unfolding begin_load_replay begin_load_replay_tx get has_load images_conversation insert
    max_message_seq
begins = refl

new_rows :
    All
      (λ m. captured_after "c" (max_message_seq "c" quiet.messages) m ≡ true)
      (message "d" true 3 ∷ [])
unfolding captured_after max_message_seq
new_rows = (refl, tt)

loaded : get "c" loading.conversations ≡ some (conversation "new")
unfolding get
loaded = refl

new_table :
    where_rows (of_conv "c") loading.messages
    ≡ where_rows (of_conv "c") quiet.messages ++ (message "d" true 3 ∷ [])
unfolding where_rows
new_table = refl

rollback-begin_example :
    (out : ReplayStore) × (rollback_load_replay (handle "c" marker) loading ≡ ok out)
    × (where_rows (of_conv "c") out.messages ≡ where_rows (of_conv "c") quiet.messages)
    × (where_rows (λ m. not (of_conv "c" m)) out.messages
        ≡ where_rows (λ m. not (of_conv "c" m)) loading.messages)
    × (get "c" out.refreshes ≡ none)
    × ((other : String)
        → get other out.conversations ≡ (
            if "c" == other
            then some (
                rolled_back "c" "l" "n" quiet
                  (conversation "old")
                  there
                  (message "d" true 3 ∷ [])
                  (conversation "new"))
            else get other loading.conversations))
rollback-begin_example =
    rollback-begin "c" "l" "n" quiet begun loading (conversation "old") (conversation "new")
      (handle "c" marker) (message "d" true 3 ∷ []) there begins refl refl new_table new_rows loaded

abbrev replayed : ReplayedMessage
replayed = record {
  id = "e";
  message_key = none;
  role = "user";
  kind = none;
  content = "{}";
  body_text = "hi";
}

only : get "l" loading.before_images ≡ some before
unfolding get
only = refl

recover-rollback_example :
    (out : ReplayStore) × (rollback_load_replay (handle "c" marker) loading ≡ ok out)
    × ((recover_interrupted_load_replays loading).conversations ≡ out.conversations)
    × ((recover_interrupted_load_replays loading).messages ≡ out.messages)
    × ((recover_interrupted_load_replays loading).refreshes ≡ [])
    × ((recover_interrupted_load_replays loading).before_images ≡ [])
recover-rollback_example = recover-rollback "c" marker loading before refl only refl

-- The store after the commit of the load.
abbrev after_commit : ReplayStore
after_commit = record {
  conversations =
      ("c", record (conversation "new") { image = image "new"; projection_generation = 5 }) ∷ [];
  refreshes = [];
  before_images = [];
  messages =
      superseded_row "l" (message "a" true 1) ∷ message "b" false 2 ∷ message "d" true 3 ∷ [];
}

commits : commit_load_replay_inner (handle "c" marker) none "t1" loading ≡ ok after_commit
unfolding commit_load_replay_inner get replace_static supersede update_conversation delete_refresh
    prior_replay current_replay validate_load_replay_refresh insert remove
commits = refl

commit_load_replay_lem_example :
    (messages "c" false after_commit.messages
      ≡ order_by_seq (
          where_rows
            (λ m. in_conversation "c" false m && not (prior_replay "c" marker.starting_seq m))
            loading.messages))
    × (rollback_load_replay (handle "c" marker) after_commit ≡ err (conflict "c"))
    × (commit_load_replay_inner (handle "c" marker) none "t2" after_commit ≡ err (conflict "c"))
commit_load_replay_lem_example =
    commit_load_replay_lem (handle "c" marker) loading after_commit none none "t1" "t2" commits

abbrev after_stage : ReplayStore
after_stage = record {
  conversations =
      (
        "c",
        record (conversation "old") {
          image = staged_image "t1" (image "old");
          projection_generation = 5;
        },
      )
      ∷ [];
  refreshes = [];
  before_images = [];
  messages =
      superseded_row "l" (message "a" true 1)
      ∷ message "b" false 2
      ∷ replayed_row "c" "t1" 3 replayed
      ∷ [];
}

stages : stage_load_replay "c" "l" (replayed ∷ []) "t1" quiet ≡ ok after_stage
unfolding stage_load_replay get supersede update_conversation current_replay replayed_rows
    repeats_id max_message_seq has_message insert
stages = refl

stage_load_replay-current_example :
    Replays "c" "t1"
      (max_message_seq "c" quiet.messages)
      (replayed ∷ [])
      (where_rows (current_replay "c") after_stage.messages)
    × Tops "c" (max_message_seq "c" quiet.messages) quiet.messages
    × (where_rows (λ m. not (is_load_replay m.source)) after_stage.messages
        ≡ where_rows (λ m. not (is_load_replay m.source)) quiet.messages)
stage_load_replay-current_example =
    stage_load_replay-current "c" "l" "t1" (replayed ∷ []) quiet after_stage stages
