-- ===== src/Flow/Budget/Tokens.antt =====
-- No two frames of a ledger ever carry the same reservation token.
use acp_hub.Base.{
  ℕ, ◌+◌, ◌≤◌, ◌≡◌, List, [], ◌∷◌, arith, Eq, inl, inr, Option-cases, ◌⊎◌, subst, sym, get,
}
use acp_hub.Flow.Json.{Bytes, Json}
use acp_hub.Flow.Identity.{Externals, Message, Reply, notification_identity, response_identity}
use acp_hub.Flow.Budget.{
  PhysicalFrame, FlowBudget, ok, Result-cases, track, acknowledge_notification,
  acknowledge_response, complete_request, take_match, release_partial, reserve_partial,
  track_from_partial, Call, tracks, tracks_from_partial, acknowledges_notification,
  acknowledges_response, completes_request, reserves_partial, releases_partial, step, run,
  default_budget,
}
use acp_hub.Flow.Budget.Ledger.{
  weigh, frame_of, track-inv, track-weigh, acknowledge_notification-weigh,
  acknowledge_response-weigh, complete_request-weigh,
}
use acp_hub.Flow.Budget.Invariant.{
  IsConsistent, default_budget-IsConsistent, has_token, place-keeps, track_err-keeps,
}
use acp_hub.Flow.Budget.Steps.{step-IsConsistent}

-- How many frames of the ledger carry the token `t`: at most one, and none from the next token on.
abbrev pub IsFresh : {RequestId : Type 0} → FlowBudget RequestId → Type 0
IsFresh b = (t : ℕ) → (weigh (has_token t) b ≤ 1) × (b.next_token ≤ t → weigh (has_token t) b ≡ 0)

IsFresh-le :
    {RequestId : Type 0} (b b' : FlowBudget RequestId)
    → IsFresh b
    → ((t : ℕ) → weigh (has_token t) b' ≤ weigh (has_token t) b)
    → b.next_token ≤ b'.next_token
    → IsFresh b'
IsFresh-le b b' v h n t =
    (omega (arith, h t, (v t).0), λ k. omega (arith, h t, (v t).1 (omega arith)))

module _ {RequestId S AcpError : Type 0} ⦃id_eq : Eq RequestId⦄
    (x : Externals RequestId S AcpError) where
  track-IsFresh :
      (message : Message RequestId S AcpError) (n : ℕ) (b : FlowBudget RequestId)
      → IsFresh b
      → IsFresh (track x message n b).0
  track-IsFresh message n b v t = elim (Result-cases (track x message n b).1) [
    | inl (u, e) ↦
        let (placed, p, after, _, _, _, _) = track-inv x message n b e in
        let keeps = place-keeps x message (frame_of x message n b) _ p in
        let next : (track x message n b).0.next_token ≡ b.next_token + 1 = rw after (keeps.1) in
        let w = track-weigh x (has_token t) message n b e in
        let now = v t in (ground (arith, w, now, now.1), ground (arith, w, now, now.1, next))
    | inr (f, e) ↦ elim (track_err-keeps x message n b e) [
      | inl same ↦ rw same (v t)
      | inr (spent, _) ↦ rw spent ((v t).0, λ k. (v t).1 (omega arith))
    ]
  ]

  acknowledge_notification-keeps :
      (method : Bytes) (params : Json S) (b : FlowBudget RequestId)
      → ((acknowledge_notification x method params b).0.next_token ≡ b.next_token)
        × (((acknowledge_notification x method params b).0 ≡ b)
            ⊎ ((f : PhysicalFrame) × ((acknowledge_notification x method params b).1 ≡ ok f)))
  unfolding acknowledge_notification
  acknowledge_notification-keeps method params b =
      elim (Result-cases (take_match (notification_identity x method params) b.notifications)) [
        | inl ((f, rest), e) ↦ (ground (arith, e), inr (f, ground (arith, e)))
        | inr (_, e) ↦ (ground (arith, e), inl (ground (arith, e)))
      ]

  acknowledge_response-keeps :
      (reply : Reply S AcpError) (b : FlowBudget RequestId)
      → ((acknowledge_response x reply b).0.next_token ≡ b.next_token)
        × (((acknowledge_response x reply b).0 ≡ b)
            ⊎ ((f : PhysicalFrame) × ((acknowledge_response x reply b).1 ≡ ok f)))
  unfolding acknowledge_response
  acknowledge_response-keeps reply b =
      elim (Result-cases (take_match (response_identity x reply) b.responses)) [
        | inl ((f, rest), e) ↦ (ground (arith, e), inr (f, ground (arith, e)))
        | inr (_, e) ↦ (ground (arith, e), inl (ground (arith, e)))
      ]

  complete_request-keeps :
      (id : RequestId) (b : FlowBudget RequestId)
      → ((complete_request x id b).0.next_token ≡ b.next_token)
        × (((complete_request x id b).0 ≡ b)
            ⊎ ((f : PhysicalFrame) × ((complete_request x id b).1 ≡ ok f)))
  unfolding complete_request
  complete_request-keeps id b = elim (Option-cases (get id b.requests)) [
    | inl e ↦ (ground (arith, e), inl (ground (arith, e)))
    | inr (f, e) ↦ (ground (arith, e), inr (f, ground (arith, e)))
  ]

  -- A call that changes nothing, or that takes one frame away, keeps the tokens fresh.
  taken-IsFresh :
      (b b' : FlowBudget RequestId)
      → IsFresh b
      → b'.next_token ≡ b.next_token
      → (b' ≡ b)
        ⊎ ((f : PhysicalFrame) × ((t : ℕ)
              → weigh (has_token t) b' + has_token t f ≡ weigh (has_token t) b))
      → IsFresh b'
  taken-IsFresh b b' v n (inl e) = subst IsFresh (sym e) v
  taken-IsFresh b b' v n (inr (f, h)) = IsFresh-le b b' v (λ t. omega (arith, h t)) (omega arith)

  step-IsFresh :
      (b : FlowBudget RequestId) (c : Call RequestId S AcpError)
      → IsConsistent b
      → IsFresh b
      → IsFresh (step x b c)
  unfolding step
  step-IsFresh b (tracks message n) _ v = track-IsFresh message n b v
  step-IsFresh b (tracks_from_partial message n) _ v =
      unfold track_from_partial release_partial in track-IsFresh message n (release_partial n b) v
  step-IsFresh b (acknowledges_notification method params) _ v =
      let (n, e) = acknowledge_notification-keeps method params b in
      taken-IsFresh b _ v n (elim e [
        | inl same ↦ inl same
        | inr (f, found) ↦
            inr (f, λ t. acknowledge_notification-weigh x (has_token t) method params b found)
      ])
  step-IsFresh b (acknowledges_response reply) _ v =
      let (n, e) = acknowledge_response-keeps reply b in
      taken-IsFresh b _ v n (elim e [
        | inl same ↦ inl same
        | inr (f, found) ↦ inr (f, λ t. acknowledge_response-weigh x (has_token t) reply b found)
      ])
  step-IsFresh b (completes_request id) c v =
      let (n, e) = complete_request-keeps id b in
      taken-IsFresh b _ v n (elim e [
        | inl same ↦ inl same
        | inr (f, found) ↦
            inr (f, λ t. complete_request-weigh x (has_token t) id b c.requests_distinct found)
      ])
  step-IsFresh b (reserves_partial n) _ v =
      unfold reserve_partial in λ t. ground (arith, v t, (v t).1)
  step-IsFresh b (releases_partial n) _ v = unfold release_partial in v

  run-IsFresh :
      (b : FlowBudget RequestId) (cs : List (Call RequestId S AcpError))
      → IsConsistent b
      → IsFresh b
      → IsFresh (run x b cs)
  unfolding run
  run-IsFresh b [] c v = v
  run-IsFresh b (k ∷ cs) c v =
      run-IsFresh (step x b k) cs (step-IsConsistent x b k c) (step-IsFresh b k c v)

  -- After any calls on the ledger of a new connection, whether they succeed or fail, no two frames that
  -- it holds carry the same token, and the next token is larger than all of them.
  pub run-default_budget-IsFresh :
      (cs : List (Call RequestId S AcpError)) → IsFresh (run x default_budget cs)
  run-default_budget-IsFresh cs =
      run-IsFresh default_budget cs default_budget-IsConsistent
        (unfold default_budget in λ t. (omega arith, λ h. omega arith))
