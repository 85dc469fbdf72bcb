-- ===== src/Tests/Progress.antt =====
-- A create followed by a prompt.
use acp_hub.Base.{◌≤◌, List, [], ◌∷◌, arith}
use acp_hub.Hub.Progress.{daemon_connect, prompt, Entered, new_tracker, finish, run}
use acp_hub.Hub.Progress.Laws.{stages_ms, stages_within_total}

abbrev stages : List Entered
stages =
    record { entered = daemon_connect; closing = 5; marking = 6; reporting = 7 }
    ∷ record { entered = prompt; closing = 3000007; marking = 3000008; reporting = 3000009 }
    ∷ []

stages_within_total_example :
    let timings = (finish 9000000 9000001 9000002 (run (new_tracker 5) stages)).2 in
    stages_ms timings ≤ timings.total_ms
stages_within_total_example =
    stages_within_total 5 stages 9000000 9000001 9000002
      (omega arith, omega arith, omega arith, (omega arith, omega arith, omega arith, tt))
      (omega arith) (omega arith) (omega arith)
