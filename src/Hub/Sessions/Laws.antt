-- ===== src/Hub/Sessions/Laws.antt =====
-- What a session identity lease promises.
use acp_hub.Base.{
  ◌≡◌, sym, subst, Bool, true, not, ◌&&◌, List, [], ◌∷◌, some, String, ◌==◌, ==_iff, ==_refl,
  pair_eq, string_eq, nat_eq, get, get-insert, get-remove, arith, All, Option-cases, inl, inr,
}
use acp_hub.Hub.Sessions.{
  SessionIdentityKey, SessionIdentityEntry, Identities, SessionIdentityLease, lease, conflict,
  acquire, owns, drop, Call, acquires, drops, step, run,
}

-- A call that is not the drop of this lease.
unfoldable pub spares : SessionIdentityLease → Call → Bool
spares held (drops other) = not (other.key == held.key && other.token == held.token)
spares held (acquires agent_id session_id conv_id) = true

step_held :
    (held : SessionIdentityLease) (entry : SessionIdentityEntry) (s : Identities) (c : Call)
    → get held.key s.active ≡ some entry
    → entry.token ≡ held.token
    → spares held c ≡ true
    → get held.key (step s c).active ≡ some entry
unfolding step spares
step_held held entry s (acquires agent_id session_id conv_id) h t p =
    unfold acquire in
    elim (Option-cases (get (agent_id, session_id) s.active)) [
      | inl absent ↦
          let new : SessionIdentityEntry = record { token = s.next; conv_id = conv_id } in
          ground (
            arith,
            h,
            absent,
            get-insert (agent_id, session_id) held.key new s.active,
            ==_iff {A = SessionIdentityKey} (agent_id, session_id) held.key,
          )
      | inr (taken, there) ↦ ground (arith, h, there)
    ]
step_held held entry s (drops other) h t p =
    unfold drop owns in
    ground (
      arith,
      h,
      t,
      p,
      get-remove other.key held.key s.active,
      ==_iff other.key held.key,
      ==_iff other.token held.token,
      ==_iff entry.token other.token,
    )

run_held :
    (held : SessionIdentityLease) (entry : SessionIdentityEntry) (s : Identities)
    (calls : List Call)
    → get held.key s.active ≡ some entry
    → entry.token ≡ held.token
    → All (λ c. spares held c ≡ true) calls
    → get held.key (run s calls).active ≡ some entry
unfolding run
run_held held entry s [] h t p = h
run_held held entry s (c ∷ calls) h t p =
    run_held held entry (step s c) calls (step_held held entry s c h t p.0) t p.1

taken_entry :
    (agent_id session_id conv_id : String) (s : Identities) (held : SessionIdentityLease)
    → (acquire agent_id session_id conv_id s).1 ≡ lease held
    → (held.key ≡ (agent_id, session_id))
      × (held.token ≡ s.next)
      × (get (agent_id, session_id) (acquire agent_id session_id conv_id s).0.active
          ≡ some (record { token = s.next; conv_id = conv_id }))
unfolding acquire
taken_entry agent_id session_id conv_id s held h =
    elim (Option-cases (get (agent_id, session_id) s.active)) [
      | inl absent ↦
          let new : SessionIdentityEntry = record { token = s.next; conv_id = conv_id } in
          (
            ground (arith, h, absent),
            ground (arith, h, absent),
            ground (
              arith,
              absent,
              get-insert (agent_id, session_id) (agent_id, session_id) new s.active,
              ==_refl {A = SessionIdentityKey} (agent_id, session_id),
            ),
          )
      | inr (taken, there) ↦
          (ground (arith, h, there), ground (arith, h, there), ground (arith, h, there))
    ]

-- A lease of an agent's session is the only one: whatever other callers acquire and drop, until the lease
-- itself is dropped, the session stays with its conversation, and every attempt to acquire it is a
-- conflict that names that conversation.
pub lease_sole :
    (agent_id session_id conv_id : String) (s : Identities) (held : SessionIdentityLease)
    (calls : List Call)
    → (acquire agent_id session_id conv_id s).1 ≡ lease held
    → All (λ c. spares held c ≡ true) calls
    → (other : String)
    → let after = run (acquire agent_id session_id conv_id s).0 calls in
      ((acquire agent_id session_id other after).1 ≡ conflict conv_id)
      × ((acquire agent_id session_id other after).0.active ≡ after.active)
lease_sole agent_id session_id conv_id s held calls h p other =
    let (same, t, there) = taken_entry agent_id session_id conv_id s held h in
    let new : SessionIdentityEntry = record { token = s.next; conv_id = conv_id } in
    let s' = (acquire agent_id session_id conv_id s).0 in
    let stays =
      run_held held new s' calls (subst (λ k. get k s'.active ≡ some new) (sym same) there) (sym t)
        p in
    let still = subst (λ k. get k (run s' calls).active ≡ some new) same stays in
    (unfold acquire in ground (arith, still), unfold acquire in ground (arith, still))
