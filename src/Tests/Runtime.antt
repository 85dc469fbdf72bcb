-- ===== src/Tests/Runtime.antt =====
-- The leases of two turns of one conversation.
use acp_hub.Base.{◌≡◌, refl, true, false, List, [], ◌∷◌, some, string_eq, get, All}
use acp_hub.Hub.Runtime.{
  live, CacheEntry, RunLease, next_generation, acquire_with, request_cancel, complete, drop, Call,
  takes_generation, acquires_with, requests_cancel, drops, run, new_cache,
}
use acp_hub.Hub.Runtime.Turns.{succeeds}
use acp_hub.Hub.Runtime.Laws.{superseded, lease_settles, spares}

abbrev turn : RunLease
turn = record { conv_id = "c"; generation = 2; completed = false }

abbrev history : List Call
history = requests_cancel turn ∷ acquires_with "d" 3 ∷ drops turn ∷ []

history-spares : All (λ c. spares "c" c ≡ true) history
unfolding spares
history-spares = (refl, (refl, (refl, tt)))

-- The first turn is stored, and the second one is cancelled.
abbrev opening : List Call
opening = acquires_with "c" 2 ∷ requests_cancel turn ∷ []

abbrev cancelled_second : List Call
cancelled_second =
    requests_cancel (record { conv_id = "c"; generation = 3; completed = false })
    ∷ acquires_with "c" 5
    ∷ []

second-succeeds : All (λ c. succeeds "c" (next_generation new_cache).1 c ≡ true) cancelled_second
unfolding succeeds next_generation
second-succeeds = (refl, (refl, tt))

superseded_example :
    let first = next_generation new_cache in
    let second = next_generation (run first.0 opening) in
    let after =
      run (acquire_with "c" second.1 (run second.0 (takes_generation ∷ []))).0 cancelled_second in
    let lease = (acquire_with "c" first.1 first.0).1 in
    (request_cancel lease after ≡ after)
    × ((complete lease after).0 ≡ after)
    × (drop lease after ≡ after)
superseded_example =
    superseded "c" new_cache (next_generation new_cache).0 opening (takes_generation ∷ [])
      cancelled_second second-succeeds

lease_settles_example :
    let number = next_generation new_cache in
    let acquired = acquire_with "c" number.1 (run number.0 (takes_generation ∷ [])) in
    let lease = acquired.1 in
    let after = run acquired.0 history in
    let entry : CacheEntry = record { state = live; generation = number.1 } in
    (get "c" (complete lease after).0.sessions ≡ some entry)
    × (get "c" (drop lease after).sessions ≡ some entry)
lease_settles_example = lease_settles "c" new_cache (takes_generation ∷ []) history history-spares
