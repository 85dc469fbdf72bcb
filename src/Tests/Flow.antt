-- ===== src/Tests/Flow.antt =====
-- The ledger on concrete messages: identifiers, scalars and protocol errors are numbers, and the digest
-- is the identity.
use acp_hub.Base.{
  ◌+◌, arith, ℕ, ◌≡◌, ◌≢◌, refl, List, [], ◌∷◌, none, some, ◌⊎◌, false, true, nat_eq, get, remove,
}
use acp_hub.Flow.Json.{Bytes, Json, scalar, object, field, end}
use acp_hub.Flow.Json.Canonical.{Same, same_object, swap}
use acp_hub.Flow.Identity.{
  Externals, request, notification, response, Response, result_response, ok_reply,
  notification_identity, response_identity, request_id_text, request_identity,
}
use acp_hub.Flow.Identity.Laws.{identity-Same}
use acp_hub.Flow.Budget.{
  PhysicalFrame, FlowBudget, ok, err, is_ok, default_budget, release, track,
  acknowledge_notification, complete_request, Call, tracks, acknowledges_notification,
  completes_request, reserves_partial, run, no_reservation, no_request_reservation, place,
}
use acp_hub.Flow.Budget.Ledger.{frame_of}
use acp_hub.Flow.Budget.Invariant.{IsConsistent}
use acp_hub.Flow.Budget.Steps.{run-default_budget-IsConsistent}
use acp_hub.Flow.Budget.Tokens.{IsFresh, run-default_budget-IsFresh}
use acp_hub.Flow.Budget.Acknowledge.{IsLeastMatch, NoMatch, acknowledge_notification_lem}
use acp_hub.Flow.Budget.Admission.{acknowledge_notification-track, complete_request-track}
use acp_hub.Flow.Partial.{Reserved}
use acp_hub.Flow.Transfer.{transfer, transfer_message, transfer_lem}
use acp_hub.Flow.Control.{
  response_id, is_error, complete_outbound_response, complete_outbound_response_lem,
}

abbrev ext : Externals ℕ ℕ ℕ
ext = record {
  id_json = λ id. some (id ∷ []);
  null_id = 0;
  null_scalar = 0;
  write_scalar = λ s. s ∷ [];
  write_key = λ key. key;
  error_value = scalar;
  sha256 = λ text. text;
}

abbrev params : Json ℕ
params = object (field (97 ∷ []) (scalar 1) (field (98 ∷ []) (scalar 2) end))

abbrev reordered : Json ℕ
reordered = object (field (98 ∷ []) (scalar 2) (field (97 ∷ []) (scalar 1) end))

abbrev method : Bytes
method = 109 ∷ []

abbrev history : List (Call ℕ ℕ ℕ)
history =
    tracks (request 7 method) 10
    ∷ tracks (notification method (some params)) 20
    ∷ reserves_partial 5
    ∷ acknowledges_notification method reordered
    ∷ completes_request 7
    ∷ []

abbrev pending : ℕ → Bytes → ℕ → PhysicalFrame
pending token identity size = record { token = token; identity = identity; bytes = size }

-- A ledger with a request, two notifications of one identity and a response.
abbrev ledger : FlowBudget ℕ
ledger = record {
  frames = 4;
  bytes = 100;
  partial_bytes = 5;
  requests = (7, pending 1 (request_identity ext 7 method) 10) ∷ [];
  notifications =
      pending 2 (notification_identity ext method params) 40
      ∷ pending 3 (notification_identity ext method params) 20
      ∷ [];
  responses = pending 4 (response_identity ext (ok_reply params)) 30 ∷ [];
  next_token = 5;
  max_frames = 4096;
  max_bytes = 33554432;
}

abbrev answer : Response ℕ ℕ ℕ
answer = result_response 9 params

run-default_budget-IsConsistent_example : IsConsistent (run ext default_budget history)
run-default_budget-IsConsistent_example = run-default_budget-IsConsistent ext history

run-default_budget-IsFresh_example : IsFresh (run ext default_budget history)
run-default_budget-IsFresh_example = run-default_budget-IsFresh ext history

params-Same : Same params reordered
params-Same =
    same_object (swap (97 ∷ []) (98 ∷ []) (scalar 1) (scalar 2) end (λ e. ground (arith, e)))

identity-Same_example :
    (notification_identity ext method params ≡ notification_identity ext method reordered)
    × (response_identity ext (ok_reply params) ≡ response_identity ext (ok_reply reordered))
identity-Same_example = identity-Same ext method params-Same

notification_admitted : (track ext (notification method (some params)) 20 ledger).1 ≡ ok 5
unfolding track place
notification_admitted = refl

response_admitted : (track ext (response answer) 20 ledger).1 ≡ ok 5
unfolding track place
response_admitted = refl

request_admitted : (track ext (request 8 method) 20 ledger).1 ≡ ok 5
unfolding track place get
request_admitted = refl

acknowledge_notification-track_example :
    (f : PhysicalFrame) × ((acknowledge_notification ext method reordered
        (track ext (notification method (some params)) 20 ledger).0).1
      ≡ ok f)
    × (f.identity ≡ notification_identity ext method params)
acknowledge_notification-track_example =
    acknowledge_notification-track ext method 20 ledger params-Same notification_admitted

complete_request-track_example :
    let admitted = (track ext (request 8 method) 20 ledger).0 in
    let completed = (complete_request ext 8 admitted).0 in
    ((complete_request ext 8 admitted).1 ≡ ok (frame_of ext (request 8 method) 20 ledger))
    × (is_ok (complete_request ext 8 completed).1 ≡ false)
    × (is_ok (track ext (request 8 method) 30 admitted).1 ≡ false)
complete_request-track_example =
    complete_request-track ext 8 method method 20 30 ledger request_admitted

acknowledge_notification_lem_example :
    let identity = notification_identity ext method params in
    ((acknowledge_notification ext method params ledger ≡ (ledger, err (no_reservation identity)))
      × NoMatch identity ledger.notifications)
    ⊎ ((f : PhysicalFrame) × (rest : List PhysicalFrame) × (acknowledge_notification ext method
            params ledger
          ≡ (release f.bytes (record ledger { notifications = rest }), ok f))
        × IsLeastMatch identity ledger.notifications f rest)
acknowledge_notification_lem_example = acknowledge_notification_lem ext method params ledger

complete_outbound_response_lem_example :
    ((f : PhysicalFrame) × (get 9 ledger.requests ≡ some f)
      × (complete_outbound_response ext (response answer) ledger
          ≡ (release f.bytes (record ledger { requests = remove 9 ledger.requests }), ok tt)))
    ⊎ (get 9 ledger.requests ≡ none)
      × (is_error answer ≡ true)
      × (response_id answer ≡ ext.null_id)
      × (complete_outbound_response ext (response answer) ledger ≡ (ledger, ok tt))
    ⊎ (get 9 ledger.requests ≡ none)
      × ((is_error answer ≡ false) ⊎ (response_id answer ≢ ext.null_id))
      × (complete_outbound_response ext (response answer) ledger
          ≡ (ledger, err (no_request_reservation (request_id_text ext 9))))
unfolding response_id
complete_outbound_response_lem_example = complete_outbound_response_lem ext answer ledger

abbrev reading : Reserved ℕ
reading = record { held = 5; ledger = ledger }

transfer_lem_example :
    let whole = transfer ext (notification method (some params)) reading in
    let part = transfer_message ext (notification method (some params)) 2 reading in
    (whole.1 ≡ ok 5)
    × (whole.0.held ≡ 0)
    × (whole.0.ledger.bytes ≡ 100 + 5)
    × (whole.0.ledger.partial_bytes + 5 ≡ 5)
    × (part.1 ≡ ok 5)
    × (part.0.held + 2 ≡ 5)
    × (part.0.ledger.bytes ≡ 100 + 2)
    × (part.0.ledger.partial_bytes + 2 ≡ 5)
transfer_lem_example =
    transfer_lem ext method (some params) 2 reading (omega arith, omega arith, omega arith)
      (omega arith) (omega arith) (omega arith) (λ e. ground (arith, e))
