-- ===== src/Flow/Budget.antt =====
-- `FlowBudget` of crates/hub/src/bounded_transport/flow.rs: the frames that one physical leg has
-- admitted and not yet acknowledged. The constants are those of bounded_transport.rs.
pub mod Ledger
pub mod Invariant
pub mod Steps
pub mod Acknowledge
pub mod Admission
pub mod Tokens
use acp_hub.Base.{
  ℕ, suc, ◌≡◌, refl, ◌⊎◌, inl, inr, ◌+◌, ◌-◌, ◌*◌, ◌^◌, Bool, true, false, ◌||◌, List, [], ◌∷◌,
  ◌++◌, Option, none, some, ltb, leb, eqb, ◌&&◌, if◌then◌else◌, saturating_add, usize_max, length,
  Eq, ◌==◌, list_eq, nat_eq, Map, get, insert, remove, contains_key,
}
use acp_hub.Flow.Json.{Bytes, Json}
use acp_hub.Flow.Identity.{
  Externals, Message, Reply, request, notification, response, physical_message_identity,
  notification_identity, response_identity, request_id_text,
}

pub record PhysicalFrame : Type 0 where
  pub token : ℕ
  pub identity : Bytes
  pub bytes : ℕ

pub record FlowBudget (RequestId : Type 0) : Type 0 where
  pub frames : ℕ
  pub bytes : ℕ
  pub partial_bytes : ℕ
  pub requests : Map RequestId PhysicalFrame
  pub notifications : List PhysicalFrame
  pub responses : List PhysicalFrame
  pub next_token : ℕ
  pub max_frames : ℕ
  pub max_bytes : ℕ

abbrev pub max_outstanding_inbound_requests : ℕ
max_outstanding_inbound_requests = 8

abbrev pub max_outstanding_inbound_frames : ℕ
max_outstanding_inbound_frames = 4096

abbrev pub max_outstanding_inbound_bytes : ℕ
max_outstanding_inbound_bytes = 32 * 1024 * 1024

-- The error texts; `missing_match` stands for the panic of an `expect`.
pub data FlowError : Type 0 where
  outstanding_exceeded : ℕ → ℕ → FlowError
  tokens_exhausted : FlowError
  requests_exceeded : FlowError
  duplicate_request : FlowError
  no_reservation : Bytes → FlowError
  no_request_reservation : Bytes → FlowError
  partial_exceeded : ℕ → FlowError
  missing_match : FlowError

pub data Result {ℓ} (A : Type ℓ) : Type ℓ where
  ok : A → Result A
  err : FlowError → Result A

abbrev pub is_ok {ℓ} : {A : Type ℓ} → Result A → Bool
is_ok (ok a) = true
is_ok (err e) = false

pub Result-cases {ℓ} :
    {A : Type ℓ} (r : Result A) → ((a : A) × (r ≡ ok a)) ⊎ ((e : FlowError) × (r ≡ err e))
Result-cases (ok a) = inl (a, refl)
Result-cases (err e) = inr (e, refl)

-- `FlowBudget::default()`.
unfoldable pub default_budget : {RequestId : Type 0} → FlowBudget RequestId
default_budget = record {
  frames = 0;
  bytes = 0;
  partial_bytes = 0;
  requests = [];
  notifications = [];
  responses = [];
  next_token = 1;
  max_frames = max_outstanding_inbound_frames;
  max_bytes = max_outstanding_inbound_bytes;
}

-- `(pending.bytes, pending.token)`, compared as tuples are.
unfoldable pub key_le : PhysicalFrame → PhysicalFrame → Bool
key_le f g = ltb f.bytes g.bytes || (eqb f.bytes g.bytes && leb f.token g.token)

-- The better of a match and the best match behind it.
abbrev better : PhysicalFrame → Option (ℕ × PhysicalFrame) → ℕ × PhysicalFrame
better f none = (0, f)
better f (some (i, g)) = if key_le f g then (0, f) else (suc i, g)

abbrev shift : Option (ℕ × PhysicalFrame) → Option (ℕ × PhysicalFrame)
shift none = none
shift (some (i, g)) = some (suc i, g)

-- `iter().enumerate().filter(identity ==).min_by_key(..)`: the position of the least match, and the
-- first of equal ones.
unfoldable pub min_match : Bytes → List PhysicalFrame → Option (ℕ × PhysicalFrame)
min_match identity [] = none
min_match identity (f ∷ fs) =
    let rest = min_match identity fs in
    if f.identity == identity then some (better f rest) else shift rest

abbrev held_back :
    PhysicalFrame
    → Option (PhysicalFrame × List PhysicalFrame)
    → Option (PhysicalFrame × List PhysicalFrame)
held_back f none = none
held_back f (some (g, fs)) = some (g, f ∷ fs)

-- `VecDeque::remove(position)`.
unfoldable pub remove_at : ℕ → List PhysicalFrame → Option (PhysicalFrame × List PhysicalFrame)
remove_at i [] = none
remove_at ℕ.zero (f ∷ fs) = some (f, fs)
remove_at (suc i) (f ∷ fs) = held_back f (remove_at i fs)

-- The search and the removal of an acknowledgement.
unfoldable pub take_match : Bytes → List PhysicalFrame → Result (PhysicalFrame × List PhysicalFrame)
unfolding min_match remove_at
take_match identity pending = elim (min_match identity pending) [
  | none ↦ err (no_reservation identity)
  | some (position, _) ↦ elim (remove_at position pending) [
    | none ↦ err missing_match
    | some taken ↦ ok taken
  ]
]

module _ {RequestId : Type 0} where
  unfoldable pub release : ℕ → FlowBudget RequestId → FlowBudget RequestId
  release n b = record b { frames = b.frames - 1; bytes = b.bytes - n }

  unfoldable pub reserve_partial :
      ℕ → FlowBudget RequestId → FlowBudget RequestId × Result (Unit {0})
  reserve_partial n b =
      let next = saturating_add b.partial_bytes n in
      if ltb b.max_bytes (saturating_add b.bytes next)
      then (b, err (partial_exceeded b.max_bytes))
      else (record b { partial_bytes = next }, ok tt)

  unfoldable pub release_partial : ℕ → FlowBudget RequestId → FlowBudget RequestId
  release_partial n b = record b { partial_bytes = b.partial_bytes - n }

-- The calls that reach one ledger, in the order in which they take its lock.
pub data Call (RequestId S AcpError : Type 0) : Type 0 where
  tracks : Message RequestId S AcpError → ℕ → Call RequestId S AcpError
  tracks_from_partial : Message RequestId S AcpError → ℕ → Call RequestId S AcpError
  acknowledges_notification : Bytes → Json S → Call RequestId S AcpError
  acknowledges_response : Reply S AcpError → Call RequestId S AcpError
  completes_request : RequestId → Call RequestId S AcpError
  reserves_partial : ℕ → Call RequestId S AcpError
  releases_partial : ℕ → Call RequestId S AcpError

module _ {RequestId S AcpError : Type 0} (x : Externals RequestId S AcpError) where
  unfoldable pub acknowledge_notification :
      Bytes → Json S → FlowBudget RequestId → FlowBudget RequestId × Result PhysicalFrame
  unfolding take_match release
  acknowledge_notification method params b =
      elim (take_match (notification_identity x method params) b.notifications) [
        | ok (frame, rest) ↦ (release frame.bytes (record b { notifications = rest }), ok frame)
        | err e ↦ (b, err e)
      ]

  unfoldable pub acknowledge_response :
      Reply S AcpError → FlowBudget RequestId → FlowBudget RequestId × Result PhysicalFrame
  unfolding take_match release
  acknowledge_response reply b = elim (take_match (response_identity x reply) b.responses) [
    | ok (frame, rest) ↦ (release frame.bytes (record b { responses = rest }), ok frame)
    | err e ↦ (b, err e)
  ]

module _ {RequestId S AcpError : Type 0} ⦃id_eq : Eq RequestId⦄
    (x : Externals RequestId S AcpError) where
  -- The `match` of `track`: where the frame is kept.
  unfoldable pub place :
      Message RequestId S AcpError
      → PhysicalFrame
      → FlowBudget RequestId
      → Result (FlowBudget RequestId)
  place (request id method) frame b =
      if leb max_outstanding_inbound_requests (length b.requests)
      then err requests_exceeded
      else if contains_key id b.requests
      then err duplicate_request
      else ok (record b { requests = insert id frame b.requests })
  place (notification method params) frame b =
      ok (record b { notifications = b.notifications ++ (frame ∷ []) })
  place (response r) frame b = ok (record b { responses = b.responses ++ (frame ∷ []) })

  -- `FlowBudget::track`. The token is spent before the request checks, also where they fail.
  unfoldable pub track :
      Message RequestId S AcpError → ℕ → FlowBudget RequestId → FlowBudget RequestId × Result ℕ
  unfolding place
  track message n b =
      let next_frames = saturating_add b.frames 1 in
      let next_bytes = saturating_add b.bytes n in
      if ltb b.max_frames next_frames || ltb b.max_bytes (saturating_add next_bytes b.partial_bytes)
      then (b, err (outstanding_exceeded b.max_frames b.max_bytes))
      else if eqb b.next_token usize_max
      then (b, err tokens_exhausted)
      else elim (place message
          (record {
            token = b.next_token;
            identity = physical_message_identity x message;
            bytes = n;
          })
          (record b { next_token = b.next_token + 1 })) [
            | ok placed ↦
                (record placed { frames = next_frames; bytes = next_bytes }, ok b.next_token)
            | err e ↦ (record b { next_token = b.next_token + 1 }, err e)
          ]

  unfoldable pub complete_request :
      RequestId → FlowBudget RequestId → FlowBudget RequestId × Result PhysicalFrame
  unfolding release
  complete_request id b = elim (get id b.requests) [
    | none ↦ (b, err (no_request_reservation (request_id_text x id)))
    | some frame ↦ (release frame.bytes (record b { requests = remove id b.requests }), ok frame)
  ]

  -- The body of `InboundFlowControl::track_from_partial` under its lock.
  unfoldable pub track_from_partial :
      Message RequestId S AcpError → ℕ → FlowBudget RequestId → FlowBudget RequestId × Result ℕ
  unfolding release_partial track
  track_from_partial message n b = track message n (release_partial n b)

  unfoldable pub step : FlowBudget RequestId → Call RequestId S AcpError → FlowBudget RequestId
  unfolding track track_from_partial acknowledge_notification acknowledge_response complete_request
      reserve_partial release_partial
  step b (tracks message n) = (track message n b).0
  step b (tracks_from_partial message n) = (track_from_partial message n b).0
  step b (acknowledges_notification method params) = (acknowledge_notification x method params b).0
  step b (acknowledges_response reply) = (acknowledge_response x reply b).0
  step b (completes_request id) = (complete_request id b).0
  step b (reserves_partial n) = (reserve_partial n b).0
  step b (releases_partial n) = release_partial n b

  unfoldable pub run :
      FlowBudget RequestId → List (Call RequestId S AcpError) → FlowBudget RequestId
  run b [] = b
  run b (c ∷ cs) = run (step b c) cs
