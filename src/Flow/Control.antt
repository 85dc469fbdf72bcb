-- ===== src/Flow/Control.antt =====
-- `InboundFlowControl::complete_outbound_response` of crates/hub/src/bounded_transport/flow.rs, under
-- the lock of the ledger. The lock's poisoning and the events of the test ledger are left out.
use acp_hub.Base.{
  ◌≡◌, ◌≢◌, Bool, true, false, not, ◌&&◌, ◌⊎◌, inl, inr, none, some, arith, Eq, ◌==◌, ==_iff,
  if◌then◌else◌, get, contains_key, remove, Option-cases, Bool-cases,
}
use acp_hub.Flow.Identity.{
  Externals, Message, request, notification, response, Response, result_response, error_response,
  request_id_text,
}
use acp_hub.Flow.Budget.{
  FlowBudget, PhysicalFrame, Result, ok, err, complete_request, release, no_request_reservation,
}

module _ {RequestId S AcpError : Type 0} where
  unfoldable pub response_id : Response RequestId S AcpError → RequestId
  response_id (result_response id value) = id
  response_id (error_response id error) = id

  unfoldable pub is_error : Response RequestId S AcpError → Bool
  is_error (result_response id value) = false
  is_error (error_response id error) = true

abbrev discard {ℓ κ} : {A : Type ℓ} {B : Type κ} → A × Result B → A × Result (Unit {0})
discard (a, ok b) = (a, ok tt)
discard (a, err e) = (a, err e)

module _ {RequestId S AcpError : Type 0} ⦃id_eq : Eq RequestId⦄
    (x : Externals RequestId S AcpError) where
  unfoldable pub complete_outbound_response :
      Message RequestId S AcpError → FlowBudget RequestId → FlowBudget RequestId × Result (Unit {0})
  unfolding response_id is_error complete_request
  complete_outbound_response (request id method) b = (b, ok tt)
  complete_outbound_response (notification method params) b = (b, ok tt)
  complete_outbound_response (response r) b =
      if is_error r && (response_id r == x.null_id) && not (contains_key (response_id r) b.requests)
      then (b, ok tt)
      else discard (complete_request x (response_id r) b)

  -- A response that is sent releases the reservation of the request with its id. Without one it is
  -- refused and nothing changes, unless it is an error whose id is null: that is accepted, and nothing
  -- changes. A null id that is reserved is released like any other.
  pub complete_outbound_response_lem :
      (r : Response RequestId S AcpError) (b : FlowBudget RequestId)
      → ((f : PhysicalFrame) × (get (response_id r) b.requests ≡ some f)
          × (complete_outbound_response (response r) b ≡ (
            release f.bytes (record b { requests = remove (response_id r) b.requests }),
            ok tt,
          )))
        ⊎ (get (response_id r) b.requests ≡ none)
          × (is_error r ≡ true)
          × (response_id r ≡ x.null_id)
          × (complete_outbound_response (response r) b ≡ (b, ok tt))
        ⊎ (get (response_id r) b.requests ≡ none)
          × ((is_error r ≡ false) ⊎ (response_id r ≢ x.null_id))
          × (complete_outbound_response (response r) b
              ≡ (b, err (no_request_reservation (request_id_text x (response_id r)))))
  unfolding complete_outbound_response
  complete_outbound_response_lem r b = elim (Option-cases (get (response_id r) b.requests)) [
    | inr (f, e) ↦ inl (f, e, ground (arith, e))
    | inl e ↦ elim (Bool-cases (is_error r)) [
      | inr good ↦ inr (inr (e, inl good, ground (arith, e, good)))
      | inl bad ↦ elim (Bool-cases (response_id r == x.null_id)) [
        | inl same ↦
            let null = (==_iff (response_id r) x.null_id).0 same in
            inr (inl (e, bad, null, ground (arith, e, bad, same)))
        | inr other ↦
            let differs : response_id r ≢ x.null_id =
              λ h. cc (other, (==_iff (response_id r) x.null_id).1 h) in
            inr (inr (e, inr differs, ground (arith, e, bad, other)))
      ]
    ]
  ]
