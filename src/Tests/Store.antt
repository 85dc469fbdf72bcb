-- ===== src/Tests/Store.antt =====
-- The store on a conversation and its run.
use acp_hub.Base.{
  Option, insert, ◌≡◌, refl, arith, [], ◌∷◌, some, none, true, false, String, string_eq, get,
  contains_key, ◌==◌, Bool-cases, inl, inr,
}
use acp_hub.Store.Policy.{
  RunStatus, running, completed, hub_created, writable, open_phase, not_busy, no_outcome, idle,
  is_busy, mirror_status, is_terminal,
}
use acp_hub.Store.Policy.Text.{parse_run_status, parse_iff, run_status_str}
use acp_hub.Store.Lifecycle.{
  is_running, ConversationRow, RunRow, Store, ok, is_active, has_active_run, create_run,
  finalize_run_cas,
}
use acp_hub.Store.Lifecycle.Cancel.{
  request_run_cancel_cas, rollback_run_cancel_request_cas, has_status, to_running, to_cancelling,
}
use acp_hub.Store.Lifecycle.Restart.{recover_interrupted_runs}
use acp_hub.Store.Lifecycle.Conversations.{step, creates_run, requests_cancel}
use acp_hub.Store.Lifecycle.Finalize.{finalize_once}
use acp_hub.Store.Lifecycle.Mirror.{IsMirrored, step-IsMirrored}
use acp_hub.Store.Lifecycle.Coherence.{IsCoherent}
use acp_hub.Store.Lifecycle.Runs.{create_run-IsCoherent}
use acp_hub.Store.Lifecycle.Laws.{requesting, step-IsCoherent, cancel_results, recover_lem}

parse_iff_example : parse_run_status "running" ≡ some running
unfolding run_status_str
parse_iff_example = ((parse_iff "running").5 running).1 refl

abbrev talk : ConversationRow
talk = record {
  agent_id = "a";
  agent_session_id = "s";
  status = idle;
  updated_at = "t0";
  origin = hub_created;
  interaction = writable;
  phase = open_phase;
  busy = not_busy;
  last_outcome = no_outcome;
}

abbrev quiet : Store
quiet = record { conversations = ("c", talk) ∷ []; runs = [] }

quiet-IsCoherent : IsCoherent quiet
unfolding get is_busy
quiet-IsCoherent = record {
  exclusive = λ i j r t h k a b e. cc;
  busy_as_run = λ i r h. absurd cc;
  run_of_busy = λ k c h b. elim (Bool-cases ("c" == k)) [
    | inl same ↦ absurd (ground (arith, h, same, b))
    | inr other ↦ absurd (ground (arith, h, other))
  ];
}

quiet-IsMirrored : IsMirrored quiet
unfolding mirror_status
quiet-IsMirrored = (refl, tt)

abbrev active : Store
active = (create_run "r" "c" "t1" quiet).0

active-IsCoherent : IsCoherent active
active-IsCoherent = create_run-IsCoherent "r" "c" "t1" quiet quiet-IsCoherent

abbrev turn : RunRow
turn = record {
  conv_id = "c";
  status = running;
  stop_reason = none;
  started_at = "t1";
  ended_at = none;
}

active-turn : get "r" active.runs ≡ some turn
unfolding create_run get insert has_active_run
active-turn = refl

step-IsMirrored_example : IsMirrored (step "t2" quiet (creates_run "r" "c"))
step-IsMirrored_example = step-IsMirrored "t2" quiet (creates_run "r" "c") quiet-IsMirrored

step-IsCoherent_example : IsCoherent (step "t2" active (requests_cancel "r" "c"))
step-IsCoherent_example = step-IsCoherent "t2" active (requesting "r" "c") active-IsCoherent

cancel_results_example :
    ((request_run_cancel_cas "r" "c" "t2" active).1 ≡ ok (has_status to_running running))
    × ((rollback_run_cancel_request_cas "r" "c" "t2" active).1
        ≡ ok (has_status to_cancelling running))
cancel_results_example = cancel_results "r" "t2" active turn active-IsCoherent active-turn

abbrev ended : Store
ended = record {
  conversations = ("c", talk) ∷ [];
  runs = ("r", record turn { status = completed; ended_at = some "t2" }) ∷ [];
}

ended-run : get "r" ended.runs ≡ some (record turn { status = completed; ended_at = some "t2" })
unfolding get
ended-run = refl

ended-inactive : is_active completed ≡ false
unfolding is_active is_terminal
ended-inactive = refl

quiet-talk : get "c" quiet.conversations ≡ some talk
unfolding get
quiet-talk = refl

quiet-fresh : contains_key "r" quiet.runs ≡ false
unfolding get
quiet-fresh = refl

recover_lem_example :
    ((i : String) (r : RunRow)
      → get i (recover_interrupted_runs "t2" active).0.runs ≡ some r
      → is_active r.status ≡ false)
    × ((k : String) (c : ConversationRow)
        → get k (recover_interrupted_runs "t2" active).0.conversations ≡ some c
        → is_busy c.busy ≡ false)
recover_lem_example = recover_lem "t2" active

active-completed : (finalize_run_cas "r" "c" completed (some "end_turn") "t3" active).1 ≡ ok true
unfolding finalize_run_cas create_run get insert has_active_run is_active is_terminal
active-completed = refl

finalize_once_example :
    let after = (finalize_run_cas "r" "c" completed (some "end_turn") "t3" active).0 in
    ((r : RunRow) × (get "r" after.runs ≡ some r)
      × (r.status ≡ completed)
      × (r.stop_reason ≡ some "end_turn"))
    × ((other : RunStatus) (why : Option String) (later : String)
        → is_running other ≡ false
        → finalize_run_cas "r" "c" other why later after ≡ (after, ok false))
finalize_once_example =
    finalize_once "r" "c" completed (some "end_turn") "t3" active ended-inactive active-completed
