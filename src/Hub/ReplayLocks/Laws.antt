-- ===== src/Hub/ReplayLocks/Laws.antt =====
-- The guards of a conversation share one lock.
use acp_hub.Base.{
  ℕ, zero, suc, ◌+◌, ◌≤◌, ◌≡◌, refl, Bool, true, not, ◌&&◌, List, [], ◌∷◌, Option, none, some,
  String, if◌then◌else◌, ◌==◌, ==_iff, ==_refl, string_eq, nat_eq, Map, get, get-insert, get-remove,
  arith, Option-cases, inl, inr,
}
use acp_hub.Hub.ReplayLocks.{
  ReplayLockEntry, ReplayPruneGuard, Locks, entry_for, acquire, drop, take_nth, Call, acquires,
  drops, step, run, no_locks, decrement,
}

-- How many elements satisfy a test.
unfoldable pub count : {A : Type 0} → (A → Bool) → List A → ℕ
count p [] = 0
count p (a ∷ xs) = (if p a then 1 else 0) + count p xs

count-take_nth :
    {A : Type 0} (p : A → Bool) (n : ℕ) (xs : List A) {a : A} {rest : List A}
    → take_nth n xs ≡ some (a, rest)
    → count p xs ≡ (if p a then 1 else 0) + count p rest
unfolding count take_nth
count-take_nth p n [] h = cc
count-take_nth p zero (b ∷ xs) h = ground (arith, h)
count-take_nth p (suc n) (b ∷ xs) h = elim (Option-cases (take_nth n xs)) [
  | inl absent ↦ ground (arith, absent, h)
  | inr ((c, others), there) ↦ let e = count-take_nth p n xs there in ground (arith, there, h, e)
]

abbrev of_conv : String → ReplayPruneGuard → Bool
of_conv conv guard = guard.conv_id == conv

-- A guard of the conversation with another lock.
abbrev strange : String → ℕ → ReplayPruneGuard → Bool
strange conv lock guard = guard.conv_id == conv && not (guard.replay_lock == lock)

abbrev users_of : Option ReplayLockEntry → ℕ
users_of none = 0
users_of (some entry) = entry.users

-- An entry counts the guards of its conversation, at least one, which all have its lock; a conversation
-- without an entry has no guard.
pub record IsCounted (s : Locks) : Type 0 where
  pub counted : (conv : String) → users_of (get conv s.locks) ≡ count (of_conv conv) s.guards
  pub live :
      (conv : String) (entry : ReplayLockEntry) → get conv s.locks ≡ some entry → 1 ≤ entry.users
  pub shared :
      (conv : String) (entry : ReplayLockEntry)
      → get conv s.locks ≡ some entry
      → count (strange conv entry.lock) s.guards ≡ 0

count_le :
    {A : Type 0} (p q : A → Bool) (xs : List A)
    → ((a : A) → p a ≡ true → q a ≡ true)
    → count p xs ≤ count q xs
unfolding count
count_le p q [] h = omega arith
count_le p q (a ∷ xs) h = let e = count_le p q xs h in let k = h a in ground (arith, e, k)

strange_le :
    (conv : String) (lock : ℕ) (guards : List ReplayPruneGuard)
    → count (strange conv lock) guards ≤ count (of_conv conv) guards
strange_le conv lock guards =
    count_le (strange conv lock) (of_conv conv) guards (λ guard h. ground (arith, h))

-- What an acquisition starts from, with or without an entry.
entry_for-users :
    (found : Option ReplayLockEntry) (fresh : ℕ) → (entry_for found fresh).users ≡ users_of found
unfolding entry_for
entry_for-users none fresh = refl
entry_for-users (some entry) fresh = refl

entry_for-shared :
    (conv : String) (s : Locks) (fresh : ℕ)
    → IsCounted s
    → count (strange conv (entry_for (get conv s.locks) fresh).lock) s.guards ≡ 0
unfolding entry_for
entry_for-shared conv s fresh v = elim (Option-cases (get conv s.locks)) [
  | inl absent ↦
      let a = strange_le conv fresh s.guards in
      let b = v.counted conv in ground (arith, absent, a, b)
  | inr (entry, there) ↦ let a = v.shared conv entry there in ground (arith, there, a)
]

acquire-IsCounted : (conv_id : String) (s : Locks) → IsCounted s → IsCounted (acquire conv_id s)
unfolding acquire count
acquire-IsCounted conv_id s v =
    let start = entry_for (get conv_id s.locks) s.next in
    let new : ReplayLockEntry = record { lock = start.lock; users = suc start.users } in
    let users = entry_for-users (get conv_id s.locks) s.next in
    let same_lock = entry_for-shared conv_id s s.next v in
    record {
      counted = λ conv. ground (
        arith,
        users,
        v.counted conv,
        v.counted conv_id,
        get-insert conv_id conv new s.locks,
        ==_iff conv_id conv,
      );
      live = λ conv entry h.
          ground
            (arith, h, v.live conv entry, get-insert conv_id conv new s.locks, ==_iff conv_id conv);
      shared = λ conv entry h. ground (
        arith,
        h,
        same_lock,
        v.shared conv entry,
        get-insert conv_id conv new s.locks,
        ==_iff conv_id conv,
        ==_refl start.lock,
      );
    }

-- The entry of a guard that is there.
guard_entry :
    (guard : ReplayPruneGuard) (rest : List ReplayPruneGuard) (n : ℕ) (s : Locks)
    → take_nth n s.guards ≡ some (guard, rest)
    → IsCounted s
    → (entry : ReplayLockEntry) × (get guard.conv_id s.locks ≡ some entry)
      × (entry.lock ≡ guard.replay_lock)
      × (entry.users ≡ suc (count (of_conv guard.conv_id) rest))
guard_entry guard rest n s h v =
    let total = v.counted guard.conv_id in
    let split = count-take_nth (of_conv guard.conv_id) n s.guards h in
    let own = ==_refl guard.conv_id in
    elim (Option-cases (get guard.conv_id s.locks)) [
      | inl absent ↦ absurd (ground (arith, absent, total, split, own))
      | inr (entry, there) ↦
          let a = v.shared guard.conv_id entry there in
          let b = count-take_nth (strange guard.conv_id entry.lock) n s.guards h in
          (
            entry,
            there,
            ground (arith, a, b, own, ==_iff guard.replay_lock entry.lock),
            ground (arith, there, total, split, own),
          )
    ]

get-drop :
    (guard : ReplayPruneGuard) (entry : ReplayLockEntry) (left : ℕ)
    (locks : Map String ReplayLockEntry)
    → get guard.conv_id locks ≡ some entry
    → entry.lock ≡ guard.replay_lock
    → entry.users ≡ suc left
    → (conv : String)
    → get conv (drop guard locks) ≡ (
        if guard.conv_id == conv
        then (if left == 0 then none else some (record { lock = entry.lock; users = left }))
        else get conv locks)
unfolding drop decrement
get-drop guard entry left locks there same users conv = ground (
  arith,
  there,
  same,
  users,
  ==_iff entry.lock guard.replay_lock,
  get-remove guard.conv_id conv locks,
  get-insert guard.conv_id conv (record { lock = entry.lock; users = left }) locks,
)

drop-IsCounted :
    (guard : ReplayPruneGuard) (rest : List ReplayPruneGuard) (n : ℕ) (s : Locks)
    → take_nth n s.guards ≡ some (guard, rest)
    → IsCounted s
    → IsCounted (record s { locks = drop guard s.locks; guards = rest })
drop-IsCounted guard rest n s h v =
    let (entry, there, same, users) = guard_entry guard rest n s h v in
    let left = count (of_conv guard.conv_id) rest in
    record {
      counted = λ conv. ground (
        arith,
        v.counted conv,
        count-take_nth (of_conv conv) n s.guards h,
        get-drop guard entry left s.locks there same users conv,
        ==_iff guard.conv_id conv,
      );
      live = λ conv found e.
          ground
            (arith, e, v.live conv found, get-drop guard entry left s.locks there same users conv);
      shared = λ conv found e.
          let a = count-take_nth (strange conv found.lock) n s.guards h in
          ground (
            arith,
            e,
            a,
            v.shared conv found,
            v.shared guard.conv_id entry there,
            get-drop guard entry left s.locks there same users conv,
            ==_iff guard.conv_id conv,
          );
    }

step-IsCounted : (s : Locks) (c : Call) → IsCounted s → IsCounted (step s c)
unfolding step
step-IsCounted s (acquires conv_id) v = acquire-IsCounted conv_id s v
step-IsCounted s (drops n) v = elim (Option-cases (take_nth n s.guards)) [
  | inl absent ↦ rw (absent, step) v
  | inr ((guard, rest), there) ↦ rw (there, step) (drop-IsCounted guard rest n s there v)
]

start-IsCounted : IsCounted no_locks
unfolding get count
start-IsCounted = record {
  counted = λ conv. refl;
  live = λ conv entry h. cc;
  shared = λ conv entry h. refl;
}

run_from : (s : Locks) (calls : List Call) → IsCounted s → IsCounted (run s calls)
unfolding run
run_from s [] v = v
run_from s (c ∷ calls) v = run_from (step s c) calls (step-IsCounted s c v)

-- From no locks on, however guards are acquired and dropped, a conversation has an entry in the map
-- exactly while it has a guard, and the entry counts its guards.
pub run-IsCounted : (calls : List Call) → IsCounted (run no_locks calls)
run-IsCounted calls = run_from no_locks calls start-IsCounted

-- However guards were acquired and dropped before, two guards of one conversation that are not dropped
-- yet have the same lock, so that whoever holds it excludes the other.
pub shared_lock :
    (calls : List Call) (i j : ℕ) (g h : ReplayPruneGuard)
    (others_g others_h : List ReplayPruneGuard)
    → take_nth i (run no_locks calls).guards ≡ some (g, others_g)
    → take_nth j (run no_locks calls).guards ≡ some (h, others_h)
    → g.conv_id ≡ h.conv_id
    → g.replay_lock ≡ h.replay_lock
shared_lock calls i j g h others_g others_h at_i at_j same =
    let v = run-IsCounted calls in
    let (a, there_a, lock_a, _) = guard_entry g others_g i (run no_locks calls) at_i v in
    let (b, there_b, lock_b, _) = guard_entry h others_h j (run no_locks calls) at_j v in cc
