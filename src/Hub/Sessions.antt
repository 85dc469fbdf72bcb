-- ===== src/Hub/Sessions.antt =====
-- Session identity leases: SessionIdentityEntry, SessionIdentityLease and its `Drop` of
-- crates/hub/src/hub/state.rs. Tokens are numbers; `Uuid::new_v4()` returns the next one, so that no token
-- is returned twice.
pub mod Laws
use acp_hub.Base.{
  ℕ, suc, Bool, List, [], ◌∷◌, Option, none, some, String, if◌then◌else◌, ◌==◌, pair_eq, string_eq,
  nat_eq, Map, get, insert, remove, true, false, ◌&&◌,
}

abbrev pub SessionIdentityKey : Type 0
SessionIdentityKey = String × String

pub record SessionIdentityEntry : Type 0 where
  pub token : ℕ
  pub conv_id : String

-- The map of the identities, and the next token.
pub record Identities : Type 0 where
  pub active : Map SessionIdentityKey SessionIdentityEntry
  pub next : ℕ

pub record SessionIdentityLease : Type 0 where
  pub key : SessionIdentityKey
  pub token : ℕ

pub data Acquired : Type 0 where
  lease : SessionIdentityLease → Acquired
  conflict : String → Acquired

-- `SessionIdentityLease::acquire`.
unfoldable pub acquire : String → String → String → Identities → Identities × Acquired
acquire agent_id agent_session_id conv_id s = elim (get (agent_id, agent_session_id) s.active) [
  | some entry ↦ (record s { next = suc s.next }, conflict entry.conv_id)
  | none ↦ (
    record {
      active =
          insert (agent_id, agent_session_id) (record { token = s.next; conv_id = conv_id })
            s.active;
      next = suc s.next;
    },
    lease (record { key = (agent_id, agent_session_id); token = s.next }),
  )
]

unfoldable pub owns : Option SessionIdentityEntry → ℕ → Bool
owns none token = false
owns (some entry) token = entry.token == token

-- The `Drop` of a `SessionIdentityLease`.
unfoldable pub drop : SessionIdentityLease → Identities → Identities
unfolding owns
drop held s =
    if owns (get held.key s.active) held.token
    then record s { active = remove held.key s.active }
    else s

pub data Call : Type 0 where
  acquires : String → String → String → Call
  drops : SessionIdentityLease → Call

unfoldable pub step : Identities → Call → Identities
unfolding acquire drop
step s (acquires agent_id session_id conv_id) = (acquire agent_id session_id conv_id s).0
step s (drops held) = drop held s

unfoldable pub run : Identities → List Call → Identities
run s [] = s
run s (c ∷ calls) = run (step s c) calls
