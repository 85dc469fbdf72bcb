-- ===== src/Store/Lifecycle.antt =====
-- Conversations and runs of the store: crates/hub/src/store/lifecycle.rs. The tables are maps from their
-- primary keys; a column that a CHECK constraint limits to an enumeration holds its values. A failed
-- transaction leaves the store as it was. `now` is what `now_iso()` returns.
pub mod Cancel
pub mod Restart
pub mod Conversations
pub mod Runs
pub mod Tables
pub mod Mirror
pub mod Coherence
pub mod Recovery
pub mod Laws
pub mod Finalize
use acp_hub.Base.{
  ℕ, suc, ◌+◌, ◌≡◌, Bool, true, false, not, ◌&&◌, ◌||◌, List, [], ◌∷◌, map, Option, none, some,
  String, if◌then◌else◌, ◌==◌, string_eq, Map, get, insert, remove, contains_key, is_some,
}
use acp_hub.Store.Policy.{
  ConvOrigin, Interaction, ConvPhase, ConvBusy, LastOutcome, RunStatus, ConvStatus, open_phase,
  closed_phase, deleted_phase, not_busy, busy_running, busy_cancelling, no_outcome,
  outcome_completed, outcome_failed, outcome_cancelled, running, cancelling, completed, cancelled,
  failed, idle, conv_running, conv_cancelling, conv_cancelled, conv_failed, conv_completed, closed,
  deleted, is_busy, is_terminal, mirror_status,
}
use acp_hub.Store.Policy.Text.{conv_busy_str}

-- The columns of `conversations` that these functions read or write.
pub record ConversationRow : Type 0 where
  pub agent_id : String
  pub agent_session_id : String
  pub status : ConvStatus
  pub updated_at : String
  pub origin : ConvOrigin
  pub interaction : Interaction
  pub phase : ConvPhase
  pub busy : ConvBusy
  pub last_outcome : LastOutcome

pub record RunRow : Type 0 where
  pub conv_id : String
  pub status : RunStatus
  pub stop_reason : Option String
  pub started_at : String
  pub ended_at : Option String

pub record Store : Type 0 where
  pub conversations : Map String ConversationRow
  pub runs : Map String RunRow

-- The errors of `HubError` that are returned here; `constraint_failed` is SQLite's.
pub data HubError : Type 0 where
  conversation_busy : String → String → HubError
  conflict : String → HubError
  wrong_conversation : String → String → HubError
  lost_state : String → HubError
  finalize_to_running : HubError
  run_not_found : String → HubError
  not_busy_error : String → HubError
  constraint_failed : HubError

pub data Result {ℓ} (A : Type ℓ) : Type ℓ where
  ok : A → Result A
  err : HubError → Result A

-- `status IN ('running','cancelling')`.
unfoldable pub is_active : RunStatus → Bool
unfolding is_terminal
is_active status = not (is_terminal status)

-- `SELECT EXISTS(SELECT 1 FROM runs WHERE conv_id = ? AND status IN ('running','cancelling'))`.
unfoldable pub has_active_run : String → Map String RunRow → Bool
unfolding is_active
has_active_run conv [] = false
has_active_run conv ((id, r) ∷ runs) =
    (r.conv_id == conv && is_active r.status) || has_active_run conv runs

-- `UPDATE conversations SET .. WHERE id = ?`.
unfoldable pub update_conversation :
    String
    → (ConversationRow → ConversationRow)
    → Map String ConversationRow
    → Map String ConversationRow
update_conversation id change table = elim (get id table) [
  | none ↦ table
  | some row ↦ insert id (change row) table
]

-- `Store::create_run`. The run's conversation must exist, by the foreign key.
unfoldable pub create_run : String → String → String → Store → Store × Result (Unit {0})
unfolding has_active_run is_busy
create_run run_id conv_id now s =
    if has_active_run conv_id s.runs
    then (s, err (conversation_busy conv_id "running"))
    else elim (get conv_id s.conversations) [
      | none ↦ (s, err constraint_failed)
      | some c ↦
          if is_busy c.busy
          then (s, err (conversation_busy conv_id (conv_busy_str c.busy)))
          else if contains_key run_id s.runs
          then (s, err constraint_failed)
          else (
            record s {
              runs =
                  insert run_id
                    (record {
                      conv_id = conv_id;
                      status = running;
                      stop_reason = none;
                      started_at = now;
                      ended_at = none;
                    })
                    s.runs;
              conversations =
                  insert conv_id
                    (record c {
                      busy = busy_running;
                      phase = open_phase;
                      status = conv_running;
                      updated_at = now;
                    })
                    s.conversations;
            },
            ok tt,
          )
    ]

-- The hybrid fields that a finalization writes; the outcome is written where there is one.
unfoldable pub finalized_fields : RunStatus → ConversationRow → ConversationRow
finalized_fields cancelling c = record c {
  busy = busy_cancelling;
  status = conv_cancelling;
  phase = open_phase;
}
finalized_fields running c = record c {
  busy = busy_running;
  status = conv_running;
  phase = open_phase;
}
finalized_fields completed c = record c {
  busy = not_busy;
  last_outcome = outcome_completed;
  status = conv_completed;
  phase = open_phase;
}
finalized_fields cancelled c = record c {
  busy = not_busy;
  last_outcome = outcome_cancelled;
  status = conv_cancelled;
  phase = open_phase;
}
finalized_fields failed c = record c {
  busy = not_busy;
  last_outcome = outcome_failed;
  status = conv_failed;
  phase = open_phase;
}

-- `(status != RunStatus::Cancelling).then(now_iso)`.
abbrev pub ended_time : RunStatus → String → Option String
ended_time cancelling now = none
ended_time running now = some now
ended_time completed now = some now
ended_time cancelled now = some now
ended_time failed now = some now

abbrev pub is_running : RunStatus → Bool
is_running running = true
is_running cancelling = false
is_running completed = false
is_running cancelled = false
is_running failed = false

-- `Store::finalize_run_cas`.
unfoldable pub finalize_run_cas :
    String → String → RunStatus → Option String → String → Store → Store × Result Bool
unfolding is_active update_conversation finalized_fields
finalize_run_cas run_id conv_id status stop_reason now s =
    if is_running status then (s, err finalize_to_running) else elim (get run_id s.runs) [
      | none ↦ (s, ok false)
      | some r ↦
          if not (r.conv_id == conv_id)
          then (s, err (wrong_conversation run_id r.conv_id))
          else if is_active r.status
          then (
            record s {
              runs =
                  insert run_id
                    (record r {
                      status = status;
                      stop_reason = stop_reason;
                      ended_at = ended_time status now;
                    })
                    s.runs;
              conversations =
                  update_conversation conv_id
                    (λ c. record (finalized_fields status c) { updated_at = now }) s.conversations;
            },
            ok true,
          )
          else (s, ok false)
    ]
