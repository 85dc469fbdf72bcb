-- ===== src/Store/Lifecycle/Restart.antt =====
-- `recover_interrupted_runs` of crates/hub/src/store/lifecycle.rs: what the daemon does with the runs that
-- it finds at its start.
use acp_hub.Base.{
  ℕ, suc, Bool, true, false, ◌||◌, [], ◌∷◌, Option, none, some, String, if◌then◌else◌, string_eq,
  Map,
}
use acp_hub.Store.Policy.{
  ConvStatus, open_phase, not_busy, outcome_failed, failed, conv_running, conv_cancelling,
  conv_failed, is_busy,
}
use acp_hub.Store.Lifecycle.{ConversationRow, RunRow, Store, Result, ok, is_active}

-- `UPDATE .. SET ..` with a condition that all rows are tested for.
unfoldable pub map_rows : {R : Type 0} → (R → R) → Map String R → Map String R
map_rows change [] = []
map_rows change ((id, row) ∷ table) = (id, change row) ∷ map_rows change table

unfoldable pub count_rows : {R : Type 0} → (R → Bool) → Map String R → ℕ
count_rows test [] = 0
count_rows test ((id, row) ∷ table) =
    let rest = count_rows test table in if test row then suc rest else rest

-- `COALESCE(stop_reason, 'daemon_restarted')`.
abbrev restarted : Option String → Option String
restarted none = some "daemon_restarted"
restarted (some reason) = some reason

unfoldable pub recovered_run : String → RunRow → RunRow
unfolding is_active
recovered_run now r =
    if is_active r.status
    then record r { status = failed; stop_reason = restarted r.stop_reason; ended_at = some now }
    else r

-- `status IN ('running','cancelling')` of a conversation.
unfoldable pub is_active_status : ConvStatus → Bool
is_active_status conv_running = true
is_active_status conv_cancelling = true
is_active_status _ = false

unfoldable pub recovered_conversation : String → ConversationRow → ConversationRow
unfolding is_busy is_active_status
recovered_conversation now c =
    if is_busy c.busy || is_active_status c.status
    then record c {
      busy = not_busy;
      last_outcome = outcome_failed;
      status = conv_failed;
      phase = open_phase;
      updated_at = now;
    }
    else c

-- `Store::recover_interrupted_runs`.
unfoldable pub recover_interrupted_runs : String → Store → Store × Result ℕ
unfolding map_rows count_rows recovered_run recovered_conversation is_active
recover_interrupted_runs now s = (
  record s {
    runs = map_rows (recovered_run now) s.runs;
    conversations = map_rows (recovered_conversation now) s.conversations;
  },
  ok (count_rows (λ r. is_active r.status) s.runs),
)
