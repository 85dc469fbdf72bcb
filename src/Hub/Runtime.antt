-- ===== src/Hub/Runtime.antt =====
-- The cache of agent sessions and the leases of runs: `RuntimeCache` and `RunLease` of
-- crates/hub/src/runtime.rs. `with_singleflight` only runs its argument. Generations are below 2^64.
pub mod Turns
pub mod Laws
use acp_hub.Base.{
  ℕ, ◌+◌, Bool, true, false, ◌&&◌, List, [], ◌∷◌, Option, none, some, String, if◌then◌else◌, leb,
  string_eq, Map, get, insert, remove,
}

pub data SessionState : Type 0 where
  connecting live cancelling closed : SessionState

unfoldable pub same_state : SessionState → SessionState → Bool
same_state connecting connecting = true
same_state live live = true
same_state cancelling cancelling = true
same_state closed closed = true
same_state _ _ = false

pub record CacheEntry : Type 0 where
  pub state : SessionState
  pub generation : ℕ

pub record RuntimeCache : Type 0 where
  pub sessions : Map String CacheEntry
  pub generations : ℕ

-- `RuntimeCache::new`.
abbrev pub new_cache : RuntimeCache
new_cache = record { sessions = []; generations = 1 }

-- `RuntimeCache::insert`.
unfoldable pub insert_session : String → SessionState → ℕ → RuntimeCache → RuntimeCache
insert_session conv_id state generation s = record s {
  sessions = insert conv_id (record { state = state; generation = generation }) s.sessions;
}

-- `RuntimeCache::remove`.
unfoldable pub remove_session : String → RuntimeCache → RuntimeCache
remove_session conv_id s = record s { sessions = remove conv_id s.sessions }

-- `RuntimeCache::transition`.
unfoldable pub transition :
    String → SessionState → SessionState → ℕ → RuntimeCache → RuntimeCache × Bool
unfolding same_state
transition conv_id from to generation s = elim (get conv_id s.sessions) [
  | none ↦ (s, false)
  | some entry ↦
      if same_state entry.state from && leb entry.generation generation
      then (record s { sessions = insert conv_id (record entry { state = to }) s.sessions }, true)
      else (s, false)
]

pub record RunLease : Type 0 where
  pub conv_id : String
  pub generation : ℕ
  pub completed : Bool

-- `RuntimeCache::next_generation`: the first step of `RunLease::acquire`.
unfoldable pub next_generation : RuntimeCache → RuntimeCache × ℕ
next_generation s = let g = s.generations + 1 in (record s { generations = g }, g)

-- The second step of `RunLease::acquire`, with the generation that the first gave; other calls may come between
-- them.
unfoldable pub acquire_with : String → ℕ → RuntimeCache → RuntimeCache × RunLease
unfolding insert_session
acquire_with conv_id g s = (
  insert_session conv_id live g s,
  record { conv_id = conv_id; generation = g; completed = false },
)

-- `RunLease::request_cancel`.
unfoldable pub request_cancel : RunLease → RuntimeCache → RuntimeCache
unfolding transition
request_cancel lease s = (transition lease.conv_id live cancelling lease.generation s).0

-- `RunLease::complete`.
unfoldable pub complete : RunLease → RuntimeCache → RuntimeCache × RunLease
unfolding transition
complete lease s = (
  (transition lease.conv_id cancelling live lease.generation s).0,
  record lease { completed = true },
)

-- `RunLease::drop`.
unfoldable pub drop : RunLease → RuntimeCache → RuntimeCache
unfolding transition
drop lease s =
    if lease.completed then s else (transition lease.conv_id cancelling live lease.generation s).0

-- The calls on the cache that leases make, each under one lock.
pub data Call : Type 0 where
  takes_generation : Call
  acquires_with : String → ℕ → Call
  requests_cancel : RunLease → Call
  completes : RunLease → Call
  drops : RunLease → Call

unfoldable pub step : RuntimeCache → Call → RuntimeCache
unfolding next_generation acquire_with request_cancel complete drop
step s takes_generation = (next_generation s).0
step s (acquires_with conv_id g) = (acquire_with conv_id g s).0
step s (requests_cancel lease) = request_cancel lease s
step s (completes lease) = (complete lease s).0
step s (drops lease) = drop lease s

unfoldable pub run : RuntimeCache → List Call → RuntimeCache
run s [] = s
run s (c ∷ calls) = run (step s c) calls
