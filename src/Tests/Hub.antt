-- ===== src/Tests/Hub.antt =====
-- The reservations of the hub on a short history.
use acp_hub.Base.{◌≡◌, refl, List, [], ◌∷◌, some, true, false, string_eq, get, insert, All}
use acp_hub.Hub.Operations.{
  Operations, OperationLease, OperationKind, prompt, refresh, close, conflict, reserved,
  reserve_operation, reserve_external_run, Call, reserves, releases, run,
}
use acp_hub.Hub.Operations.Laws.{lease_excludes, spares}
use acp_hub.Hub.Operations.Prompts.{IsSinglePrompt, run-IsSinglePrompt}
use acp_hub.Hub.Sessions.{Identities, SessionIdentityLease, acquire, acquires, drops}
use acp_hub.Hub.Sessions as Sessions
use acp_hub.Hub.Sessions.Laws.{lease_sole}
use acp_hub.Hub.ReplayLocks.{no_locks, take_nth, ReplayPruneGuard}
use acp_hub.Hub.ReplayLocks as ReplayLocks
use acp_hub.Hub.ReplayLocks.Laws.{shared_lock}

abbrev asked : OperationKind
asked = prompt (record { run_id = "r"; agent_session_id = "s"; cancel_requested = false })

abbrev idle_hub : Operations
idle_hub = record { entries = []; next = 4 }

abbrev granted : OperationLease
granted = record { conv_id = "c"; token = 4 }

abbrev others : List Call
others = reserves "c" "b" refresh ∷ reserves "d" "a" asked ∷ releases "d" 5 ∷ releases "c" 3 ∷ []

idle-granted : (reserve_operation "c" "a" asked idle_hub).1 ≡ reserved granted
unfolding reserve_operation get
idle-granted = refl

others-spare : All (λ c. spares granted c ≡ true) others
unfolding spares
others-spare = (refl, (refl, (refl, (refl, tt))))

lease_excludes_example :
    let after = run (reserve_operation "c" "a" asked idle_hub).0 others in
    (get "c" after.entries ≡ some (record { token = 4; agent_id = "a"; kind = asked }))
    × (reserve_operation "c" "z" close after ≡ (after, conflict "c"))
    × (reserve_external_run "c" "z" "q" after ≡ (after, conflict "c"))
lease_excludes_example =
    lease_excludes "c" "a" asked idle_hub granted others idle-granted others-spare "z" "q" close

idle-IsSinglePrompt : IsSinglePrompt idle_hub
unfolding get
idle-IsSinglePrompt = record { single = λ i j a b ha hb pa pb e. cc }

run-IsSinglePrompt_example : IsSinglePrompt (run idle_hub others)
run-IsSinglePrompt_example = run-IsSinglePrompt idle_hub others idle-IsSinglePrompt

abbrev no_sessions : Identities
no_sessions = record { active = []; next = 1 }

abbrev taken : SessionIdentityLease
taken = record { key = ("a", "s"); token = 1 }

abbrev rivals : List Sessions.Call
rivals = acquires "a" "s" "d" ∷ drops (record { key = ("a", "s"); token = 2 }) ∷ []

session-taken : (acquire "a" "s" "c" no_sessions).1 ≡ Sessions.lease taken
unfolding acquire get
session-taken = refl

rivals-spare : All (λ c. Sessions.Laws.spares taken c ≡ true) rivals
unfolding Sessions.Laws.spares
rivals-spare = (refl, (refl, tt))

lease_sole_example :
    let after = Sessions.run (acquire "a" "s" "c" no_sessions).0 rivals in
    ((acquire "a" "s" "z" after).1 ≡ Sessions.conflict "c")
    × ((acquire "a" "s" "z" after).0.active ≡ after.active)
lease_sole_example = lease_sole "a" "s" "c" no_sessions taken rivals session-taken rivals-spare "z"

abbrev exports : List ReplayLocks.Call
exports =
    ReplayLocks.acquires "c"
    ∷ ReplayLocks.acquires "d"
    ∷ ReplayLocks.acquires "c"
    ∷ ReplayLocks.drops 1
    ∷ []

abbrev guard : ReplayPruneGuard
guard = record { conv_id = "c"; replay_lock = 0 }

first-guard : take_nth 0 (ReplayLocks.run no_locks exports).guards ≡ some (guard, guard ∷ [])
unfolding ReplayLocks.run take_nth ReplayLocks.step get insert
first-guard = refl

second-guard : take_nth 1 (ReplayLocks.run no_locks exports).guards ≡ some (guard, guard ∷ [])
unfolding ReplayLocks.run take_nth ReplayLocks.step get insert
second-guard = refl

shared_lock_example : guard.replay_lock ≡ guard.replay_lock
shared_lock_example =
    shared_lock exports 0 1 guard guard (guard ∷ []) (guard ∷ []) first-guard second-guard refl
