-- ===== src/Store/Discover/Rows.antt =====
-- The conversations that a discovery reads and writes.
use acp_hub.Base.{
  ◌≡◌, refl, subst, Bool, true, false, ◌&&◌, [], ◌∷◌, Option, some, String, ◌==◌, string_eq, ==_iff,
  Map, insert, All, Bool-cases, inl, inr, arith,
}
use acp_hub.Flow.Json.{Json}
use acp_hub.Store.Policy.{
  ConvOrigin, Interaction, hub_created, bound, imported_list, writable, read_only, mirror_status,
}
use acp_hub.Store.Discover.{MetaJson, DiscoverRow, find_session, recompute_interaction}

-- An imported conversation is read only.
abbrev pub imported_read_only : ConvOrigin → Interaction → Bool
imported_read_only hub_created interaction = true
imported_read_only bound interaction = true
imported_read_only imported_list writable = false
imported_read_only imported_list read_only = true

abbrev pub IsPolicy : String × DiscoverRow → Type 0
IsPolicy (id, c) =
    (c.status ≡ mirror_status c.phase c.busy c.last_outcome)
    × (imported_read_only c.origin c.interaction ≡ true)

pub insert-All :
    (id : String) (c : DiscoverRow) (s : Map String DiscoverRow)
    → IsPolicy (id, c)
    → All IsPolicy s
    → All IsPolicy (insert id c s)
unfolding insert
insert-All id c [] p h = (p, tt)
insert-All id c ((k, d) ∷ more) p h = elim (Bool-cases (k == id)) [
  | inl same ↦ rw same (p, h.1)
  | inr other ↦ rw other (h.0, insert-All id c more p h.1)
]

pub find_session-All :
    (agent session : String) (s : Map String DiscoverRow) (id : String) (c : DiscoverRow)
    → All IsPolicy s
    → find_session agent session s ≡ some (id, c)
    → c.status ≡ mirror_status c.phase c.busy c.last_outcome
unfolding find_session
find_session-All agent session [] id c h e = absurd (ground (arith, e))
find_session-All agent session ((k, d) ∷ more) id c h e =
    elim (Bool-cases (d.agent_id == agent && d.agent_session_id == session)) [
      | inl here ↦
          let same : d ≡ c = ground (arith, e, here) in
          subst (λ (r : DiscoverRow). r.status ≡ mirror_status r.phase r.busy r.last_outcome) same
            h.0.0
      | inr left ↦ find_session-All agent session more id c h.1 (ground (arith, e, left))
    ]

pub find_session_lem :
    (agent session : String) (s : Map String DiscoverRow) (id : String) (c : DiscoverRow)
    → find_session agent session s ≡ some (id, c)
    → (c.agent_id ≡ agent) × (c.agent_session_id ≡ session)
unfolding find_session
find_session_lem agent session [] id c e = absurd (ground (arith, e))
find_session_lem agent session ((k, d) ∷ more) id c e =
    elim (Bool-cases (d.agent_id == agent && d.agent_session_id == session)) [
      | inl here ↦
          let same : d ≡ c = ground (arith, e, here) in
          subst (λ (r : DiscoverRow). (r.agent_id ≡ agent) × (r.agent_session_id ≡ session)) same
            (
              (==_iff d.agent_id agent).0 (ground (arith, here)),
              (==_iff d.agent_session_id session).0 (ground (arith, here)),
            )
      | inr left ↦ find_session_lem agent session more id c (ground (arith, e, left))
    ]

pub recompute_lem :
    {S : Type 0} (x : MetaJson S) (origin : ConvOrigin) (meta : Option (Json S))
    → imported_read_only origin (recompute_interaction x origin meta) ≡ true
unfolding recompute_interaction
recompute_lem x hub_created meta = refl
recompute_lem x bound meta = refl
recompute_lem x imported_list meta = refl
