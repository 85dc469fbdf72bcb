-- ===== src/Store/Lifecycle/Cancel.antt =====
-- Cancellation requests and their rollback: `transition_run_cancel_state` and its two callers in
-- crates/hub/src/store/lifecycle.rs.
use acp_hub.Base.{
  Bool, true, false, not, none, some, String, if◌then◌else◌, ◌==◌, string_eq, get, insert,
}
use acp_hub.Store.Policy.{
  ConvBusy, RunStatus, ConvStatus, open_phase, busy_running, busy_cancelling, running, cancelling,
  conv_running, conv_cancelling,
}
use acp_hub.Store.Lifecycle.{Store, Result, ok, err, wrong_conversation, lost_state}

-- The two states between which a cancellation request moves, of a run and of its conversation.
pub data CancelState : Type 0 where
  to_running to_cancelling : CancelState

unfoldable pub run_state : CancelState → RunStatus
run_state to_running = running
run_state to_cancelling = cancelling

unfoldable pub busy_state : CancelState → ConvBusy
busy_state to_running = busy_running
busy_state to_cancelling = busy_cancelling

unfoldable pub conv_state : CancelState → ConvStatus
conv_state to_running = conv_running
conv_state to_cancelling = conv_cancelling

-- `status = ?`, and `busy = ?`.
unfoldable pub has_status : CancelState → RunStatus → Bool
has_status to_running running = true
has_status to_cancelling cancelling = true
has_status _ _ = false

unfoldable pub has_busy : CancelState → ConvBusy → Bool
has_busy to_running busy_running = true
has_busy to_cancelling busy_cancelling = true
has_busy _ _ = false

abbrev no_longer {ℓ} : {A : Type ℓ} → Store → String → Store × Result A
no_longer s conv_id = (s, err (lost_state conv_id))

-- `Store::transition_run_cancel_state`.
unfoldable pub transition_run_cancel_state :
    String → String → CancelState → CancelState → String → Store → Store × Result Bool
unfolding run_state busy_state conv_state has_status has_busy
transition_run_cancel_state run_id conv_id from to now s = elim (get run_id s.runs) [
  | none ↦ (s, ok false)
  | some r ↦
      if not (r.conv_id == conv_id)
      then (s, err (wrong_conversation run_id r.conv_id))
      else if has_status from r.status
      then elim (get conv_id s.conversations) [
        | none ↦ no_longer s conv_id
        | some c ↦
            if has_busy from c.busy
            then (
              record s {
                runs =
                    insert run_id
                      (record r { status = run_state to; stop_reason = none; ended_at = none })
                      s.runs;
                conversations =
                    insert conv_id
                      (record c {
                        busy = busy_state to;
                        status = conv_state to;
                        phase = open_phase;
                        updated_at = now;
                      })
                      s.conversations;
              },
              ok true,
            )
            else no_longer s conv_id
      ]
      else (s, ok false)
]

unfoldable pub request_run_cancel_cas : String → String → String → Store → Store × Result Bool
unfolding transition_run_cancel_state
request_run_cancel_cas run_id conv_id now s =
    transition_run_cancel_state run_id conv_id to_running to_cancelling now s

unfoldable pub rollback_run_cancel_request_cas :
    String → String → String → Store → Store × Result Bool
unfolding transition_run_cancel_state
rollback_run_cancel_request_cas run_id conv_id now s =
    transition_run_cancel_state run_id conv_id to_cancelling to_running now s
