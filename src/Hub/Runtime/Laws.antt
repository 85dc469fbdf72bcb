-- ===== src/Hub/Runtime/Laws.antt =====
-- What run leases promise.
use acp_hub.Base.{
  ℕ, ap, ◌≡◌, inl, inr, refl, Bool, true, false, not, List, [], ◌∷◌, some, String, ◌==◌, ==_refl,
  string_eq, get, get-insert, arith, All, Bool-cases,
}
use acp_hub.Hub.Runtime.{
  SessionState, live, cancelling, same_state, CacheEntry, RuntimeCache, transition, insert_session,
  next_generation, acquire_with, request_cancel, complete, drop, Call, takes_generation,
  acquires_with, requests_cancel, completes, drops, step, run,
}
use acp_hub.Hub.Runtime.Turns.{
  InTurn, transition-InTurn, older_transition, succeeds, run-Newer, next_generation-grows,
  get-acquire_with,
}

-- A lease takes its generation, whenever it is stored, and later another lease of the conversation takes its own and is stored. From
-- then on the first lease has no effect any more: whatever was called before, in between and later, with any
-- leases, neither its cancellation nor its completion nor its drop changes the cache. No entry of the
-- conversation that is stored later has the generation of the first lease or an older one.
pub superseded :
    (conv : String) (s start : RuntimeCache) (before between later : List Call)
    → All (λ c. succeeds conv (next_generation s).1 c ≡ true) later
    → let first = next_generation s in
      let second = next_generation (run first.0 before) in
      let after = run (acquire_with conv second.1 (run second.0 between)).0 later in
      let lease = (acquire_with conv first.1 start).1 in
      (request_cancel lease after ≡ after)
      × ((complete lease after).0 ≡ after)
      × (drop lease after ≡ after)
superseded conv s start before between later p =
    let first = next_generation s in
    let second = next_generation (run first.0 before) in
    let stored = (acquire_with conv second.1 (run second.0 between)).0 in
    let v = run-Newer conv first.1 stored later p (record {
      entry = record { state = live; generation = second.1 };
      there = get-acquire_with conv second.1 (run second.0 between);
      later = next_generation-grows s before;
    }) in
    let after = run stored later in
    let stuck : (from to : SessionState) → transition conv from to first.1 after ≡ (after, false) =
      λ from to. older_transition conv from to first.1 after v.entry v.there v.later in
    unfold acquire_with request_cancel complete drop in
    (
      ap (λ (r : RuntimeCache × Bool). r.0) (stuck live cancelling),
      ap (λ (r : RuntimeCache × Bool). r.0) (stuck cancelling live),
      ap (λ (r : RuntimeCache × Bool). r.0) (stuck cancelling live),
    )

-- A call that stores no entry of this conversation.
unfoldable pub spares : String → Call → Bool
spares conv (acquires_with conv_id g) = not (conv_id == conv)
spares conv _ = true

step-InTurn :
    (conv : String) (g : ℕ) (s : RuntimeCache) (c : Call)
    → spares conv c ≡ true
    → InTurn conv g s
    → InTurn conv g (step s c)
unfolding step spares
step-InTurn conv g s takes_generation p v =
    unfold next_generation in
    record { entry = v.entry; there = v.there; of_lease = v.of_lease; turning = v.turning }
step-InTurn conv g s (acquires_with conv_id number) p v =
    let there = v.there in
    let new : CacheEntry = record { state = live; generation = number } in
    record {
      entry = v.entry;
      there =
          unfold acquire_with insert_session in
          ground (arith, there, p, get-insert conv_id conv new s.sessions);
      of_lease = v.of_lease;
      turning = v.turning;
    }
step-InTurn conv g s (requests_cancel lease) p v =
    unfold request_cancel in
    transition-InTurn conv g lease.conv_id live cancelling lease.generation s (inr refl) v
step-InTurn conv g s (completes lease) p v =
    unfold complete in
    transition-InTurn conv g lease.conv_id cancelling live lease.generation s (inl refl) v
step-InTurn conv g s (drops lease) p v = elim (Bool-cases lease.completed) [
  | inl over ↦ rw (over, step, drop) v
  | inr unfinished ↦
      rw (unfinished, step, drop)
        (transition-InTurn conv g lease.conv_id cancelling live lease.generation s (inl refl) v)
]

run-InTurn :
    (conv : String) (g : ℕ) (s : RuntimeCache) (calls : List Call)
    → All (λ c. spares conv c ≡ true) calls
    → InTurn conv g s
    → InTurn conv g (run s calls)
unfolding run
run-InTurn conv g s [] p v = v
run-InTurn conv g s (c ∷ calls) p v =
    run-InTurn conv g (step s c) calls p.1 (step-InTurn conv g s c p.0 v)

settled :
    (conv : String) (g : ℕ) (s : RuntimeCache)
    → InTurn conv g s
    → get conv (transition conv cancelling live g s).0.sessions
      ≡ some (record { state = live; generation = g })
unfolding transition same_state
settled conv g s v =
    let there = v.there in
    let of_lease = v.of_lease in
    elim v.turning [
      | inl is_live ↦ ground (arith, there, of_lease, is_live)
      | inr is_cancelling ↦ ground (
        arith,
        there,
        of_lease,
        is_cancelling,
        ==_refl conv,
        get-insert conv conv (record { state = live; generation = g }) s.sessions,
      )
    ]

-- Once a lease took its generation, and was stored after any calls in between: until another entry of the
-- conversation is stored, whatever is asked for with this lease and any others, the completion of the lease,
-- and its drop without one, leave the conversation live with the generation of the lease.
pub lease_settles :
    (conv : String) (s : RuntimeCache) (between calls : List Call)
    → All (λ c. spares conv c ≡ true) calls
    → let number = next_generation s in
      let acquired = acquire_with conv number.1 (run number.0 between) in
      let lease = acquired.1 in
      let after = run acquired.0 calls in
      let entry : CacheEntry = record { state = live; generation = number.1 } in
      (get conv (complete lease after).0.sessions ≡ some entry)
      × (get conv (drop lease after).sessions ≡ some entry)
lease_settles conv s between calls p =
    let number = next_generation s in
    let stored = (acquire_with conv number.1 (run number.0 between)).0 in
    let start : InTurn conv number.1 stored = record {
      entry = record { state = live; generation = number.1 };
      there = get-acquire_with conv number.1 (run number.0 between);
      of_lease = refl;
      turning = inl refl;
    } in
    let e =
      settled conv number.1 (run stored calls) (run-InTurn conv number.1 stored calls p start) in
    (unfold complete acquire_with in e, unfold drop acquire_with in e)
