-- ===== src/Store/Lifecycle/Conversations.antt =====
-- The operations of crates/hub/src/store/lifecycle.rs that write conversations, and the step of the store
-- under any of its operations. Titles, directories, session metadata and the text index are left out.
use acp_hub.Base.{
  Bool, true, false, [], ◌∷◌, Option, none, some, String, if◌then◌else◌, ◌==◌, string_eq, Map, get,
  insert, remove, contains_key,
}
use acp_hub.Store.Policy.{
  ConvOrigin, Interaction, ConvPhase, ConvBusy, LastOutcome, RunStatus, ConvStatus, open_phase,
  closed_phase, deleted_phase, not_busy, busy_running, busy_cancelling, no_outcome,
  outcome_completed, outcome_failed, outcome_cancelled, idle, conv_running, conv_cancelling,
  conv_cancelled, conv_failed, conv_completed, closed, deleted, is_busy, mirror_status, hub_created,
  bound, imported_list,
}
use acp_hub.Store.Lifecycle.{
  ConversationRow, RunRow, Store, conflict, constraint_failed, Result, ok, err, has_active_run,
  update_conversation, create_run, finalize_run_cas,
}
use acp_hub.Store.Lifecycle.Restart.{recover_interrupted_runs}
use acp_hub.Store.Lifecycle.Cancel.{request_run_cancel_cas, rollback_run_cancel_request_cas}

abbrev changed : String → (ConversationRow → ConversationRow) → Store → Store
changed id change s = record s { conversations = update_conversation id change s.conversations }

unfoldable pub set_conversation_lifecycle :
    String → ConvPhase → ConvBusy → LastOutcome → String → Store → Store
unfolding update_conversation
set_conversation_lifecycle id phase busy last_outcome now s =
    changed id
      (λ c. record c {
        phase = phase;
        busy = busy;
        last_outcome = last_outcome;
        status = mirror_status phase busy last_outcome;
        updated_at = now;
      })
      s

-- A close that keeps the last outcome.
abbrev closed_row : String → ConversationRow → ConversationRow
closed_row now c = record c {
  phase = closed_phase;
  busy = not_busy;
  status = mirror_status closed_phase not_busy c.last_outcome;
  updated_at = now;
}

-- `Store::set_conv_status`.
unfoldable pub set_conv_status : String → ConvStatus → String → Store → Store
unfolding update_conversation set_conversation_lifecycle
set_conv_status id closed now s = changed id (closed_row now) s
set_conv_status id conv_running now s =
    set_conversation_lifecycle id open_phase busy_running no_outcome now s
set_conv_status id conv_cancelling now s =
    set_conversation_lifecycle id open_phase busy_cancelling no_outcome now s
set_conv_status id conv_completed now s =
    set_conversation_lifecycle id open_phase not_busy outcome_completed now s
set_conv_status id conv_failed now s =
    set_conversation_lifecycle id open_phase not_busy outcome_failed now s
set_conv_status id conv_cancelled now s =
    set_conversation_lifecycle id open_phase not_busy outcome_cancelled now s
set_conv_status id deleted now s =
    set_conversation_lifecycle id deleted_phase not_busy no_outcome now s
set_conv_status id idle now s = set_conversation_lifecycle id open_phase not_busy no_outcome now s

-- `Store::close_conversation_local`.
unfoldable pub close_conversation_local : String → Bool → String → Store → Store
unfolding update_conversation
close_conversation_local id true now s =
    changed id
      (λ c. record c {
        phase = closed_phase;
        busy = not_busy;
        last_outcome = outcome_failed;
        status = mirror_status closed_phase not_busy outcome_failed;
        updated_at = now;
      })
      s
close_conversation_local id false now s = changed id (closed_row now) s

abbrev pub stored_busy : Option ConversationRow → Bool
stored_busy none = false
stored_busy (some c) = is_busy c.busy

-- `Store::delete_conversation`, the soft deletion.
unfoldable pub delete_conversation : String → String → Store → Store × Result (Unit {0})
unfolding has_active_run is_busy update_conversation
delete_conversation id now s =
    if has_active_run id s.runs
    then (s, err (conflict id))
    else if stored_busy (get id s.conversations)
    then (s, err (conflict id))
    else (
      changed id
          (λ c. record c {
            phase = deleted_phase;
            busy = not_busy;
            status = deleted;
            updated_at = now;
          })
          s,
      ok tt,
    )

-- `ON DELETE CASCADE` on the runs of a conversation.
unfoldable pub without_conversation : String → Map String RunRow → Map String RunRow
without_conversation id [] = []
without_conversation id ((run_id, r) ∷ runs) =
    let rest = without_conversation id runs in if r.conv_id == id then rest else (run_id, r) ∷ rest

-- `Store::hard_delete_conversation`.
unfoldable pub hard_delete_conversation : String → Store → Store
unfolding without_conversation
hard_delete_conversation id s = record s {
  conversations = remove id s.conversations;
  runs = without_conversation id s.runs;
}

-- `Store::touch_conversation`.
unfoldable pub touch_conversation : String → String → Store → Store
unfolding update_conversation
touch_conversation id now s = changed id (λ c. record c { updated_at = now }) s

abbrev pub promoted : ConvOrigin → ConvOrigin
promoted hub_created = hub_created
promoted bound = bound
promoted imported_list = bound

-- `Store::promote_conversation_bind`, with what `recompute_interaction` returns for the new origin.
unfoldable pub promote_conversation_bind :
    String → (ConvOrigin → Interaction) → String → Store → Store × Result (Unit {0})
promote_conversation_bind id interaction_of now s = elim (get id s.conversations) [
  | none ↦ (s, err constraint_failed)
  | some c ↦ (
    record s {
      conversations =
          insert id
            (record c {
              origin = promoted c.origin;
              interaction = interaction_of (promoted c.origin);
              phase = open_phase;
              status = mirror_status open_phase c.busy c.last_outcome;
              updated_at = now;
            })
            s.conversations;
    },
    ok tt,
  )
]

-- `UNIQUE(agent_id, agent_session_id)`.
unfoldable pub has_session : String → String → Map String ConversationRow → Bool
has_session agent_id session_id [] = false
has_session agent_id session_id ((id, c) ∷ table) =
    let rest = has_session agent_id session_id table in
    if c.agent_id == agent_id
    then (if c.agent_session_id == session_id then true else rest)
    else rest

-- `Store::create_conversation_with_options`, with what `recompute_interaction` returns.
unfoldable pub create_conversation :
    String → String → String → ConvOrigin → Interaction → String → Store → Store × Result (Unit {0})
unfolding has_session
create_conversation id agent_id session_id origin interaction now s =
    if contains_key id s.conversations
    then (s, err constraint_failed)
    else if has_session agent_id session_id s.conversations
    then (s, err constraint_failed)
    else (
      record s {
        conversations =
            insert id
              (record {
                agent_id = agent_id;
                agent_session_id = session_id;
                status = mirror_status open_phase not_busy no_outcome;
                updated_at = now;
                origin = origin;
                interaction = interaction;
                phase = open_phase;
                busy = not_busy;
                last_outcome = no_outcome;
              })
              s.conversations;
      },
      ok tt,
    )

-- The operations of the store, each with its arguments.
pub data Call : Type 0 where
  creates_conversation : String → String → String → ConvOrigin → Interaction → Call
  sets_lifecycle : String → ConvPhase → ConvBusy → LastOutcome → Call
  sets_status : String → ConvStatus → Call
  closes_local : String → Bool → Call
  deletes : String → Call
  hard_deletes : String → Call
  touches : String → Call
  promotes : String → (ConvOrigin → Interaction) → Call
  creates_run : String → String → Call
  finalizes_run : String → String → RunStatus → Option String → Call
  requests_cancel : String → String → Call
  rolls_back_cancel : String → String → Call
  recovers : Call

-- One operation at the time `now`.
unfoldable pub step : String → Store → Call → Store
step now s (creates_conversation id agent_id session_id origin interaction) =
    (create_conversation id agent_id session_id origin interaction now s).0
step now s (sets_lifecycle id phase busy last_outcome) =
    set_conversation_lifecycle id phase busy last_outcome now s
step now s (sets_status id status) = set_conv_status id status now s
step now s (closes_local id was_busy) = close_conversation_local id was_busy now s
step now s (deletes id) = (delete_conversation id now s).0
step now s (hard_deletes id) = hard_delete_conversation id s
step now s (touches id) = touch_conversation id now s
step now s (promotes id interaction_of) = (promote_conversation_bind id interaction_of now s).0
step now s (creates_run run_id conv_id) = (create_run run_id conv_id now s).0
step now s (finalizes_run run_id conv_id status reason) =
    (finalize_run_cas run_id conv_id status reason now s).0
step now s (requests_cancel run_id conv_id) = (request_run_cancel_cas run_id conv_id now s).0
step now s (rolls_back_cancel run_id conv_id) =
    (rollback_run_cancel_request_cas run_id conv_id now s).0
step now s recovers = (recover_interrupted_runs now s).0
