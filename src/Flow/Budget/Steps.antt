-- ===== src/Flow/Budget/Steps.antt =====
-- Every call keeps the ledger consistent.
use acp_hub.Base.{
  refl, List, [], ◌∷◌, arith, Eq, list_eq, nat_eq, inl, inr, Option-cases, total-remove, get,
  remove-Distinct, length-remove-le,
}
use acp_hub.Flow.Json.{Bytes, Json}
use acp_hub.Flow.Identity.{Externals, Reply, notification_identity, response_identity}
use acp_hub.Flow.Budget.{
  FlowBudget, take_match, acknowledge_notification, acknowledge_response, complete_request,
  Result-cases, track_from_partial, Call, tracks, tracks_from_partial, acknowledges_notification,
  acknowledges_response, completes_request, reserves_partial, releases_partial, step, run,
  default_budget,
}
use acp_hub.Flow.Budget.Ledger.{take_match-weigh}
use acp_hub.Flow.Budget.Invariant.{
  one, size, IsConsistent, track-IsConsistent, release-IsConsistent, reserve_partial-IsConsistent,
  release_partial-IsConsistent, default_budget-IsConsistent,
}

module _ {RequestId S AcpError : Type 0} ⦃id_eq : Eq RequestId⦄
    (x : Externals RequestId S AcpError) where
  acknowledge_notification-IsConsistent :
      (method : Bytes) (params : Json S) (b : FlowBudget RequestId)
      → IsConsistent b
      → IsConsistent (acknowledge_notification x method params b).0
  unfolding acknowledge_notification
  acknowledge_notification-IsConsistent method params b c =
      elim (Result-cases (take_match (notification_identity x method params) b.notifications)) [
        | inl ((f, rest), e) ↦
            let weights = take_match-weigh one (notification_identity x method params) _ e in
            let sizes = take_match-weigh size (notification_identity x method params) _ e in
            rw (e, acknowledge_notification)
              (release-IsConsistent f b _ c refl refl (omega arith) (omega arith) refl refl refl
                refl c.requests_distinct c.requests_bounded)
        | inr (_, e) ↦ rw (e, acknowledge_notification) c
      ]

  acknowledge_response-IsConsistent :
      (reply : Reply S AcpError) (b : FlowBudget RequestId)
      → IsConsistent b
      → IsConsistent (acknowledge_response x reply b).0
  unfolding acknowledge_response
  acknowledge_response-IsConsistent reply b c =
      elim (Result-cases (take_match (response_identity x reply) b.responses)) [
        | inl ((f, rest), e) ↦
            let weights = take_match-weigh one (response_identity x reply) _ e in
            let sizes = take_match-weigh size (response_identity x reply) _ e in
            rw (e, acknowledge_response)
              (release-IsConsistent f b _ c refl refl (omega arith) (omega arith) refl refl refl
                refl c.requests_distinct c.requests_bounded)
        | inr (_, e) ↦ rw (e, acknowledge_response) c
      ]

  complete_request-IsConsistent :
      (id : RequestId) (b : FlowBudget RequestId)
      → IsConsistent b
      → IsConsistent (complete_request x id b).0
  unfolding complete_request
  complete_request-IsConsistent id b c = elim (Option-cases (get id b.requests)) [
    | inl e ↦ rw (e, complete_request) c
    | inr (f, e) ↦
        let weights = total-remove one id f b.requests c.requests_distinct e in
        let sizes = total-remove size id f b.requests c.requests_distinct e in
        rw (e, complete_request)
          (release-IsConsistent f b _ c refl refl (omega arith) (omega arith) refl refl refl refl
            (remove-Distinct id b.requests c.requests_distinct)
            (omega (arith, length-remove-le id b.requests)))
  ]

  -- Every call, whether it succeeds or fails, keeps the counters equal to the number and the bytes of
  -- the frames held, and both, with the bytes of partial frames, within the limits.
  pub step-IsConsistent :
      (b : FlowBudget RequestId) (c : Call RequestId S AcpError)
      → IsConsistent b
      → IsConsistent (step x b c)
  unfolding step track_from_partial
  step-IsConsistent b (tracks message n) v = track-IsConsistent x message n b v
  step-IsConsistent b (tracks_from_partial message n) v =
      track-IsConsistent x message n _ (release_partial-IsConsistent n b v)
  step-IsConsistent b (acknowledges_notification method params) v =
      acknowledge_notification-IsConsistent method params b v
  step-IsConsistent b (acknowledges_response reply) v = acknowledge_response-IsConsistent reply b v
  step-IsConsistent b (completes_request id) v = complete_request-IsConsistent id b v
  step-IsConsistent b (reserves_partial n) v = reserve_partial-IsConsistent n b v
  step-IsConsistent b (releases_partial n) v = release_partial-IsConsistent n b v

  run-IsConsistent :
      (b : FlowBudget RequestId) (cs : List (Call RequestId S AcpError))
      → IsConsistent b
      → IsConsistent (run x b cs)
  unfolding run
  run-IsConsistent b [] v = v
  run-IsConsistent b (c ∷ cs) v = run-IsConsistent (step x b c) cs (step-IsConsistent b c v)

  -- After any sequence of calls on the ledger of a new connection, whether they succeed or fail, the ledger is
  -- consistent: it counts the frames that are outstanding and their bytes, stays within its limits, and holds
  -- at most eight requests, of different ids.
  pub run-default_budget-IsConsistent :
      (cs : List (Call RequestId S AcpError)) → IsConsistent (run x default_budget cs)
  run-default_budget-IsConsistent cs =
      run-IsConsistent default_budget cs default_budget-IsConsistent
