-- ===== src/Hub/ReplayLocks.antt =====
-- Replay locks: ReplayLockEntry and ReplayPruneGuard, with its `acquire` and `Drop`, of
-- crates/hub/src/hub/state.rs. A lock stands for the `Arc` that holds it, by a number that no other `Arc`
-- has; `guards` are the guards that were acquired and not dropped yet, the newest first.
pub mod Laws
use acp_hub.Base.{
  ℕ, zero, suc, ◌+◌, ◌-◌, Bool, true, false, List, [], ◌∷◌, Option, none, some, String,
  if◌then◌else◌, ◌==◌, string_eq, nat_eq, Map, get, insert, remove, usize_max,
}

pub record ReplayLockEntry : Type 0 where
  pub lock : ℕ
  pub users : ℕ

pub record ReplayPruneGuard : Type 0 where
  pub conv_id : String
  pub replay_lock : ℕ

pub record Locks : Type 0 where
  pub locks : Map String ReplayLockEntry
  pub next : ℕ
  pub guards : List ReplayPruneGuard

-- `locks.entry(conv_id).or_insert_with(..)`.
unfoldable pub entry_for : Option ReplayLockEntry → ℕ → ReplayLockEntry
entry_for none fresh = record { lock = fresh; users = 0 }
entry_for (some entry) fresh = entry

-- `ReplayPruneGuard::acquire`.
unfoldable pub acquire : String → Locks → Locks
unfolding entry_for
acquire conv_id s =
    let entry = entry_for (get conv_id s.locks) s.next in
    record {
      locks = insert conv_id (record { lock = entry.lock; users = suc entry.users }) s.locks;
      next = suc s.next;
      guards = record { conv_id = conv_id; replay_lock = entry.lock } ∷ s.guards;
    }

-- `users -= 1`, in a build without debug assertions.
unfoldable pub decrement : ℕ → ℕ
decrement users = if users == 0 then usize_max else users - 1

-- The map after the `Drop` of a guard.
unfoldable pub drop : ReplayPruneGuard → Map String ReplayLockEntry → Map String ReplayLockEntry
unfolding decrement
drop guard locks = elim (get guard.conv_id locks) [
  | none ↦ locks
  | some entry ↦
      if entry.lock == guard.replay_lock
      then (if decrement entry.users == 0
          then remove guard.conv_id locks
          else insert guard.conv_id (record entry { users = decrement entry.users }) locks)
      else locks
]

-- The element at a position, and the others.
unfoldable pub take_nth {ℓ} : {A : Type ℓ} → ℕ → List A → Option (A × List A)
take_nth n [] = none
take_nth zero (a ∷ xs) = some (a, xs)
take_nth (suc n) (a ∷ xs) = elim (take_nth n xs) [
  | none ↦ none
  | some (b, rest) ↦ some (b, a ∷ rest)
]

-- A guard is acquired, or the guard at a position is dropped.
pub data Call : Type 0 where
  acquires : String → Call
  drops : ℕ → Call

unfoldable pub step : Locks → Call → Locks
unfolding acquire drop take_nth
step s (acquires conv_id) = acquire conv_id s
step s (drops n) = elim (take_nth n s.guards) [
  | none ↦ s
  | some (guard, rest) ↦ record s { locks = drop guard s.locks; guards = rest }
]

unfoldable pub run : Locks → List Call → Locks
run s [] = s
run s (c ∷ calls) = run (step s c) calls

abbrev pub no_locks : Locks
no_locks = record { locks = []; next = 0; guards = [] }
