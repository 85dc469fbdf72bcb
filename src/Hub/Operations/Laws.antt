-- ===== src/Hub/Operations/Laws.antt =====
-- What operation leases promise, over any sequence of reservations and releases.
use acp_hub.Base.{
  ◌≡◌, sym, subst, ◌∙◌, ap, Bool, true, false, not, ◌&&◌, List, [], ◌∷◌, some, String, ◌==◌, ==_iff,
  string_eq, nat_eq, get, contains_key, get-insert, get-remove, arith, All,
}
use acp_hub.Hub.Operations.{
  OperationKind, OperationEntry, Operations, OperationLease, reserved, conflict, enter,
  reserve_operation, reserve_external_run, holds, release_operation, Call, reserves,
  reserves_external, releases, step, run, external_run,
}

-- A call that is not the release of this lease.
unfoldable pub spares : OperationLease → Call → Bool
spares lease (releases conv token) = not (conv == lease.conv_id && token == lease.token)
spares lease _ = true

enter_other :
    (conv conv_id agent_id : String) (kind : OperationKind) (s : Operations)
    (entry : OperationEntry)
    → get conv s.entries ≡ some entry
    → contains_key conv_id s.entries ≡ false
    → get conv (enter conv_id agent_id kind s).entries ≡ some entry
unfolding enter
enter_other conv conv_id agent_id kind s entry h absent =
    let new : OperationEntry = record { token = s.next; agent_id = agent_id; kind = kind } in
    ground (arith, h, absent, get-insert conv_id conv new s.entries, ==_iff conv_id conv)

step_held :
    (lease : OperationLease) (entry : OperationEntry) (s : Operations) (c : Call)
    → get lease.conv_id s.entries ≡ some entry
    → entry.token ≡ lease.token
    → spares lease c ≡ true
    → get lease.conv_id (step s c).entries ≡ some entry
unfolding step spares
step_held lease entry s (reserves conv_id agent_id kind) h t p =
    let kept = enter_other lease.conv_id conv_id agent_id kind s entry h in
    unfold reserve_operation in ground (arith, h, kept)
step_held lease entry s (reserves_external conv_id agent_id run_id) h t p =
    let kept = enter_other lease.conv_id conv_id agent_id (external_run run_id) s entry h in
    unfold reserve_external_run in ground (arith, h, kept)
step_held lease entry s (releases conv_id token) h t p =
    unfold release_operation holds in
    ground (
      arith,
      h,
      t,
      p,
      get-remove conv_id lease.conv_id s.entries,
      ==_iff conv_id lease.conv_id,
      ==_iff token lease.token,
      ==_iff entry.token token,
    )

run_held :
    (lease : OperationLease) (entry : OperationEntry) (s : Operations) (calls : List Call)
    → get lease.conv_id s.entries ≡ some entry
    → entry.token ≡ lease.token
    → All (λ c. spares lease c ≡ true) calls
    → get lease.conv_id (run s calls).entries ≡ some entry
unfolding run
run_held lease entry s [] h t p = h
run_held lease entry s (c ∷ calls) h t p =
    run_held lease entry (step s c) calls (step_held lease entry s c h t p.0) t p.1

reserved_entry :
    (conv_id agent_id : String) (kind : OperationKind) (s : Operations) (lease : OperationLease)
    → (reserve_operation conv_id agent_id kind s).1 ≡ reserved lease
    → (lease.conv_id ≡ conv_id)
      × (lease.token ≡ s.next)
      × (get lease.conv_id (reserve_operation conv_id agent_id kind s).0.entries
          ≡ some (record { token = s.next; agent_id = agent_id; kind = kind }))
unfolding reserve_operation enter
reserved_entry conv_id agent_id kind s lease h =
    let new : OperationEntry = record { token = s.next; agent_id = agent_id; kind = kind } in
    (
      ground (arith, h),
      ground (arith, h),
      ground
          (arith, h, get-insert conv_id lease.conv_id new s.entries, ==_iff conv_id lease.conv_id),
    )

occupied :
    (conv_id : String) (s : Operations) (entry : OperationEntry)
    → get conv_id s.entries ≡ some entry
    → (agent_id run_id : String) (kind : OperationKind)
    → (reserve_operation conv_id agent_id kind s ≡ (s, conflict conv_id))
      × (reserve_external_run conv_id agent_id run_id s ≡ (s, conflict conv_id))
occupied conv_id s entry h agent_id run_id kind = (
  unfold reserve_operation in ground (arith, h),
  unfold reserve_external_run in ground (arith, h),
)

-- A lease excludes every other operation of its conversation: whatever reservations and releases other
-- callers make, until the lease itself is released its operation stays, and every reservation for the
-- conversation is a conflict.
pub lease_excludes :
    (conv_id agent_id : String) (kind : OperationKind) (s : Operations) (lease : OperationLease)
    (calls : List Call)
    → (reserve_operation conv_id agent_id kind s).1 ≡ reserved lease
    → All (λ c. spares lease c ≡ true) calls
    → (other run_id : String) (other_kind : OperationKind)
    → let after = run (reserve_operation conv_id agent_id kind s).0 calls in
      (get conv_id after.entries
        ≡ some (record { token = lease.token; agent_id = agent_id; kind = kind }))
      × (reserve_operation conv_id other other_kind after ≡ (after, conflict conv_id))
      × (reserve_external_run conv_id other run_id after ≡ (after, conflict conv_id))
lease_excludes conv_id agent_id kind s lease calls h p other run_id other_kind =
    let (same, t, there) = reserved_entry conv_id agent_id kind s lease h in
    let new : OperationEntry = record { token = s.next; agent_id = agent_id; kind = kind } in
    let stays =
      run_held lease new (reserve_operation conv_id agent_id kind s).0 calls there (sym t) p in
    let after = run (reserve_operation conv_id agent_id kind s).0 calls in
    let there_still = subst (λ k. get k after.entries ≡ some new) same stays in
    let (c, d) = occupied conv_id after new there_still other run_id other_kind in
    (
      there_still ∙ ap (λ n. some (record { token = n; agent_id = agent_id; kind = kind })) (sym t),
      c,
      d,
    )
