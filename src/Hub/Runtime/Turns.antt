-- ===== src/Hub/Runtime/Turns.antt =====
-- The entry of a conversation in the runtime cache, under the calls that leases make.
use acp_hub.Base.{
  ℕ, ltb, ◌||◌, ◌+◌, ◌≤◌, ◌<◌, ◌≡◌, ◌⊎◌, inl, inr, Bool, true, false, not, List, [], ◌∷◌, some,
  String, ◌==◌, ==_iff, ==_refl, string_eq, get, get-insert, arith, All, Option-cases, Bool-cases,
  leb, ◌&&◌,
}
use acp_hub.Hub.Runtime.{
  SessionState, live, cancelling, same_state, CacheEntry, RuntimeCache, transition, insert_session,
  next_generation, acquire_with, request_cancel, complete, drop, Call, takes_generation,
  acquires_with, requests_cancel, completes, drops, step, run,
}

-- The entry of a conversation has this generation, and is live or cancelling.
pub record InTurn (conv : String) (generation : ℕ) (s : RuntimeCache) : Type 0 where
  pub entry : CacheEntry
  pub there : get conv s.sessions ≡ some entry
  pub of_lease : entry.generation ≡ generation
  pub turning : (entry.state ≡ live) ⊎ (entry.state ≡ cancelling)

-- A transition to a state of a turn keeps the turn.
pub transition-InTurn :
    (conv : String) (g : ℕ) (conv_id : String) (from to : SessionState) (generation : ℕ)
    (s : RuntimeCache)
    → (to ≡ live) ⊎ (to ≡ cancelling)
    → InTurn conv g s
    → InTurn conv g (transition conv_id from to generation s).0
unfolding transition
transition-InTurn conv g conv_id from to generation s turn v =
    let there = v.there in
    let of_lease = v.of_lease in
    elim (Option-cases (get conv_id s.sessions)) [
      | inl absent ↦ record {
        entry = v.entry;
        there = ground (arith, absent, there);
        of_lease = v.of_lease;
        turning = v.turning;
      }
      | inr (e, found) ↦
          let moved : CacheEntry = record e { state = to } in
          elim (Bool-cases (same_state e.state from && leb e.generation generation)) [
            | inr refused ↦ record {
              entry = v.entry;
              there = ground (arith, found, refused, there);
              of_lease = v.of_lease;
              turning = v.turning;
            }
            | inl applied ↦ elim (Bool-cases (conv_id == conv)) [
              | inl own ↦ record {
                entry = moved;
                there =
                    ground (arith, found, applied, own, get-insert conv_id conv moved s.sessions);
                of_lease = ground (arith, found, there, of_lease, own, ==_iff conv_id conv);
                turning = turn;
              }
              | inr other ↦ record {
                entry = v.entry;
                there =
                    ground (
                      arith,
                      found,
                      applied,
                      other,
                      there,
                      get-insert conv_id conv moved s.sessions,
                    );
                of_lease = v.of_lease;
                turning = v.turning;
              }
            ]
          ]
    ]

-- A transition that is asked for with an older generation than the entry's does nothing.
pub older_transition :
    (conv : String) (from to : SessionState) (generation : ℕ) (s : RuntimeCache)
    (entry : CacheEntry)
    → get conv s.sessions ≡ some entry
    → generation < entry.generation
    → transition conv from to generation s ≡ (s, false)
unfolding transition
older_transition conv from to generation s entry there older = ground (arith, there, older)

-- A conversation has an entry with a later generation.
pub record Newer (conv : String) (generation : ℕ) (s : RuntimeCache) : Type 0 where
  pub entry : CacheEntry
  pub there : get conv s.sessions ≡ some entry
  pub later : generation < entry.generation

transition-Newer :
    (conv : String) (g : ℕ) (conv_id : String) (from to : SessionState) (generation : ℕ)
    (s : RuntimeCache)
    → Newer conv g s
    → Newer conv g (transition conv_id from to generation s).0
unfolding transition
transition-Newer conv g conv_id from to generation s v =
    let there = v.there in
    let later = v.later in
    elim (Option-cases (get conv_id s.sessions)) [
      | inl absent ↦ record {
        entry = v.entry;
        there = ground (arith, absent, there);
        later = v.later;
      }
      | inr (e, found) ↦
          let moved : CacheEntry = record e { state = to } in
          let next = get-insert conv_id conv moved s.sessions in
          elim (Bool-cases (same_state e.state from && leb e.generation generation)) [
            | inr refused ↦ record {
              entry = v.entry;
              there = ground (arith, found, refused, there);
              later = v.later;
            }
            | inl applied ↦ elim (Bool-cases (conv_id == conv)) [
              | inl own ↦ record {
                entry = moved;
                there = ground (arith, found, applied, own, next);
                later = ground (arith, found, there, later, own, ==_iff conv_id conv);
              }
              | inr other ↦ record {
                entry = v.entry;
                there = ground (arith, found, applied, other, there, next);
                later = v.later;
              }
            ]
          ]
    ]

-- A call that stores no entry of this conversation under the given generation or an older one.
unfoldable pub succeeds : String → ℕ → Call → Bool
succeeds conv generation (acquires_with conv_id g) = not (conv_id == conv) || ltb generation g
succeeds conv generation _ = true

step-Newer :
    (conv : String) (g : ℕ) (s : RuntimeCache) (c : Call)
    → succeeds conv g c ≡ true
    → Newer conv g s
    → Newer conv g (step s c)
unfolding step succeeds
step-Newer conv g s takes_generation p v =
    unfold next_generation in record { entry = v.entry; there = v.there; later = v.later }
step-Newer conv g s (acquires_with conv_id number) p v =
    let there = v.there in
    let new : CacheEntry = record { state = live; generation = number } in
    let next = get-insert conv_id conv new s.sessions in
    elim (Bool-cases (conv_id == conv)) [
      | inl own ↦ record {
        entry = new;
        there = unfold acquire_with insert_session in ground (arith, own, next);
        later = ground (arith, own, p);
      }
      | inr other ↦ record {
        entry = v.entry;
        there = unfold acquire_with insert_session in ground (arith, other, next, there);
        later = v.later;
      }
    ]
step-Newer conv g s (requests_cancel lease) p v =
    unfold request_cancel in
    transition-Newer conv g lease.conv_id live cancelling lease.generation s v
step-Newer conv g s (completes lease) p v =
    unfold complete in transition-Newer conv g lease.conv_id cancelling live lease.generation s v
step-Newer conv g s (drops lease) p v = elim (Bool-cases lease.completed) [
  | inl over ↦ rw (over, step, drop) v
  | inr unfinished ↦
      rw (unfinished, step, drop)
        (transition-Newer conv g lease.conv_id cancelling live lease.generation s v)
]

pub run-Newer :
    (conv : String) (g : ℕ) (s : RuntimeCache) (calls : List Call)
    → All (λ c. succeeds conv g c ≡ true) calls
    → Newer conv g s
    → Newer conv g (run s calls)
unfolding run
run-Newer conv g s [] p v = v
run-Newer conv g s (c ∷ calls) p v =
    run-Newer conv g (step s c) calls p.1 (step-Newer conv g s c p.0 v)

generations_le : (s : RuntimeCache) (c : Call) → s.generations ≤ (step s c).generations
unfolding step next_generation acquire_with insert_session request_cancel complete drop transition
generations_le s takes_generation = omega arith
generations_le s (acquires_with conv_id g) = omega arith
generations_le s (requests_cancel lease) = ground arith
generations_le s (completes lease) = ground arith
generations_le s (drops lease) = ground arith

run-generations_le :
    (s : RuntimeCache) (calls : List Call) → s.generations ≤ (run s calls).generations
unfolding run
run-generations_le s [] = omega arith
run-generations_le s (c ∷ calls) =
    let a = generations_le s c in let b = run-generations_le (step s c) calls in omega arith

-- Numbers that are taken one after the other grow.
pub next_generation-grows :
    (s : RuntimeCache) (calls : List Call)
    → (next_generation s).1 < (next_generation (run (next_generation s).0 calls)).1
unfolding next_generation
next_generation-grows s calls =
    let later = run-generations_le (record s { generations = s.generations + 1 }) calls in
    omega arith

pub get-acquire_with :
    (conv : String) (g : ℕ) (s : RuntimeCache)
    → get conv (acquire_with conv g s).0.sessions ≡ some (record { state = live; generation = g })
unfolding acquire_with insert_session
get-acquire_with conv g s =
    let new : CacheEntry = record { state = live; generation = g } in
    ground (arith, get-insert conv conv new s.sessions, ==_refl conv)
