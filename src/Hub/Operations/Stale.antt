-- ===== src/Hub/Operations/Stale.antt =====
-- A lease that was released says nothing about later operations.
use acp_hub.Base.{
  ◌≤◌, ◌<◌, ◌≡◌, ◌≢◌, List, [], ◌∷◌, some, String, ==_iff, ==_refl, Option-cases, inl, inr,
  string_eq, nat_eq, get, get-insert, get-remove, arith,
}
use acp_hub.Hub.Operations.{
  OperationKind, OperationEntry, Operations, OperationLease, reserved, enter, reserve_operation,
  reserve_external_run, holds, release_operation, Call, reserves, reserves_external, releases, step,
  run, external_run,
}

-- The lease was given before, and its operation is no longer there.
record IsStale (lease : OperationLease) (s : Operations) : Type 0 where
  given : lease.token < s.next
  gone :
      (entry : OperationEntry)
      → get lease.conv_id s.entries ≡ some entry
      → entry.token ≢ lease.token

next_le : (s : Operations) (c : Call) → s.next ≤ (step s c).next
unfolding step reserve_operation reserve_external_run release_operation enter
next_le s (reserves conv_id agent_id kind) = ground arith
next_le s (reserves_external conv_id agent_id run_id) = ground arith
next_le s (releases conv_id token) = ground arith

run-next_le : (s : Operations) (calls : List Call) → s.next ≤ (run s calls).next
unfolding run
run-next_le s [] = omega arith
run-next_le s (c ∷ calls) =
    let a = next_le s c in let b = run-next_le (step s c) calls in omega arith

enter_gone :
    (lease : OperationLease) (conv_id agent_id : String) (kind : OperationKind) (s : Operations)
    → IsStale lease s
    → (entry : OperationEntry)
    → get lease.conv_id (enter conv_id agent_id kind s).entries ≡ some entry
    → entry.token ≢ lease.token
unfolding enter
enter_gone lease conv_id agent_id kind s v entry h =
    let new : OperationEntry = record { token = s.next; agent_id = agent_id; kind = kind } in
    let g = v.given in
    ground (arith, h, g, v.gone entry, get-insert conv_id lease.conv_id new s.entries)

step_gone :
    (lease : OperationLease) (s : Operations) (c : Call)
    → IsStale lease s
    → (entry : OperationEntry) → get lease.conv_id (step s c).entries ≡ some entry
    → entry.token ≢ lease.token
unfolding step
step_gone lease s (reserves conv_id agent_id kind) v entry h =
    unfold reserve_operation in
    ground (arith, h, v.gone entry, enter_gone lease conv_id agent_id kind s v entry)
step_gone lease s (reserves_external conv_id agent_id run_id) v entry h =
    unfold reserve_external_run in
    ground
      (arith, h, v.gone entry, enter_gone lease conv_id agent_id (external_run run_id) s v entry)
step_gone lease s (releases conv_id token) v entry h =
    unfold release_operation in
    ground (arith, h, v.gone entry, get-remove conv_id lease.conv_id s.entries)

run-IsStale :
    (lease : OperationLease) (s : Operations) (calls : List Call)
    → IsStale lease s
    → IsStale lease (run s calls)
unfolding run
run-IsStale lease s [] v = v
run-IsStale lease s (c ∷ calls) v = run-IsStale lease (step s c) calls (record {
  given = (let a = next_le s c in let b = v.given in omega arith);
  gone = step_gone lease s c v;
})

release-IsStale :
    (lease : OperationLease) (s : Operations)
    → lease.token < s.next
    → IsStale lease (release_operation lease.conv_id lease.token s)
release-IsStale lease s h = record {
  given = unfold release_operation in ground arith;
  gone =
      unfold release_operation holds in
      (λ entry h. ground (
        arith,
        h,
        get-remove lease.conv_id lease.conv_id s.entries,
        ==_refl lease.conv_id,
        ==_iff entry.token lease.token,
      ));
}

stale_release :
    (lease : OperationLease) (s : Operations)
    → IsStale lease s
    → release_operation lease.conv_id lease.token s ≡ s
unfolding release_operation holds
stale_release lease s v = elim (Option-cases (get lease.conv_id s.entries)) [
  | inl absent ↦ ground (arith, absent)
  | inr (entry, there) ↦
      let other = v.gone entry there in ground (arith, there, other, ==_iff entry.token lease.token)
]

reserved-given :
    (conv_id agent_id : String) (kind : OperationKind) (s : Operations) (lease : OperationLease)
    → (reserve_operation conv_id agent_id kind s).1 ≡ reserved lease
    → lease.token < (reserve_operation conv_id agent_id kind s).0.next
unfolding reserve_operation enter
reserved-given conv_id agent_id kind s lease h = ground (arith, h)

-- A lease that has been released once never releases anything again, whatever was reserved and released
-- before and after its release, so that a late second release cannot end the operation of another caller.
pub release_once :
    (conv_id agent_id : String) (kind : OperationKind) (s : Operations) (lease : OperationLease)
    (before after : List Call)
    → (reserve_operation conv_id agent_id kind s).1 ≡ reserved lease
    → let first =
        release_operation lease.conv_id lease.token
          (run (reserve_operation conv_id agent_id kind s).0 before) in
      release_operation lease.conv_id lease.token (run first after) ≡ run first after
release_once conv_id agent_id kind s lease before after h =
    let given = reserved-given conv_id agent_id kind s lease h in
    let later = run-next_le (reserve_operation conv_id agent_id kind s).0 before in
    let s' = run (reserve_operation conv_id agent_id kind s).0 before in
    stale_release lease (run (release_operation lease.conv_id lease.token s') after) (
      run-IsStale lease (release_operation lease.conv_id lease.token s') after
        (release-IsStale lease s' (omega arith)))
