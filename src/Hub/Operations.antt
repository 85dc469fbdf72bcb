-- ===== src/Hub/Operations.antt =====
-- Operation leases: OperationKind, OperationEntry, release_operation, reserve_operation and
-- reserve_external_run of crates/hub/src/hub/state.rs. Tokens are numbers; `Uuid::new_v4()` returns the
-- next one, so that no token is returned twice.
pub mod Laws
pub mod Prompts
pub mod Stale
use acp_hub.Base.{
  ℕ, suc, ◌+◌, Bool, true, false, ◌&&◌, ◌||◌, List, [], ◌∷◌, Option, none, some, String,
  if◌then◌else◌, ◌==◌, string_eq, nat_eq, Map, get, insert, remove, contains_key,
}

pub record PromptOperation : Type 0 where
  pub run_id : String
  pub agent_session_id : String
  pub cancel_requested : Bool

pub data OperationKind : Type 0 where
  prompt : PromptOperation → OperationKind
  external_run : String → OperationKind
  refresh delete set_param set_mode close : OperationKind

pub record OperationEntry : Type 0 where
  pub token : ℕ
  pub agent_id : String
  pub kind : OperationKind

-- The operations of the hub, and the next token.
pub record Operations : Type 0 where
  pub entries : Map String OperationEntry
  pub next : ℕ

pub record OperationLease : Type 0 where
  pub conv_id : String
  pub token : ℕ

-- `HubError::Conflict`.
pub data Reservation (A : Type 0) : Type 0 where
  reserved : A → Reservation A
  conflict : String → Reservation A

unfoldable pub is_prompt : OperationKind → Bool
is_prompt (prompt p) = true
is_prompt _ = false

-- `operations.values().any(..)`.
unfoldable pub has_prompt : String → Map String OperationEntry → Bool
has_prompt agent [] = false
has_prompt agent ((conv, entry) ∷ entries) =
    (entry.agent_id == agent && is_prompt entry.kind) || has_prompt agent entries

-- `operations.insert(..)` with a new token.
unfoldable pub enter : String → String → OperationKind → Operations → Operations
enter conv_id agent_id kind s = record {
  entries = insert conv_id (record { token = s.next; agent_id = agent_id; kind = kind }) s.entries;
  next = suc s.next;
}

-- `CoreHub::reserve_operation`.
unfoldable pub reserve_operation :
    String → String → OperationKind → Operations → Operations × Reservation OperationLease
unfolding is_prompt has_prompt enter
reserve_operation conv_id agent_id kind s =
    if contains_key conv_id s.entries
    then (s, conflict conv_id)
    else if is_prompt kind && has_prompt agent_id s.entries
    then (s, conflict conv_id)
    else (enter conv_id agent_id kind s, reserved (record { conv_id = conv_id; token = s.next }))

-- `CoreHub::reserve_external_run`.
unfoldable pub reserve_external_run :
    String → String → String → Operations → Operations × Reservation ℕ
unfolding enter
reserve_external_run conv_id agent_id run_id s =
    if contains_key conv_id s.entries
    then (s, conflict conv_id)
    else (enter conv_id agent_id (external_run run_id) s, reserved s.next)

-- `is_some_and(|entry| entry.token == token)`.
unfoldable pub holds : Option OperationEntry → ℕ → Bool
holds none token = false
holds (some entry) token = entry.token == token

-- `release_operation`, also the `Drop` of an `OperationLease`.
unfoldable pub release_operation : String → ℕ → Operations → Operations
unfolding holds
release_operation conv_id token s =
    if holds (get conv_id s.entries) token
    then record s { entries = remove conv_id s.entries }
    else s

-- The calls, in the order in which they take the lock.
pub data Call : Type 0 where
  reserves : String → String → OperationKind → Call
  reserves_external : String → String → String → Call
  releases : String → ℕ → Call

unfoldable pub step : Operations → Call → Operations
unfolding reserve_operation reserve_external_run release_operation
step s (reserves conv_id agent_id kind) = (reserve_operation conv_id agent_id kind s).0
step s (reserves_external conv_id agent_id run_id) =
    (reserve_external_run conv_id agent_id run_id s).0
step s (releases conv_id token) = release_operation conv_id token s

unfoldable pub run : Operations → List Call → Operations
run s [] = s
run s (c ∷ calls) = run (step s c) calls
