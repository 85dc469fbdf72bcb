-- ===== src/Flow/Budget/Admission.antt =====
-- What an admitted frame can count on: it can be acknowledged, and its token is its own.
use acp_hub.Base.{
  ℕ, ◌≡◌, refl, ap, false, [], ◌∷◌, ◌++◌, none, some, arith, Eq, ==_refl, list_eq, nat_eq, inl, inr,
  get, remove, insert, get-insert, get-remove, subst, sym, ◌∙◌,
}
use acp_hub.Flow.Json.{Bytes, Json}
use acp_hub.Flow.Json.Canonical.{Same}
use acp_hub.Flow.Identity.Laws.{identity-Same}
use acp_hub.Flow.Identity.{
  Externals, Response, request, notification, response, notification_identity, response_identity,
  physical_message_identity, params_value, reply_of,
}
use acp_hub.Flow.Budget.{
  PhysicalFrame, FlowBudget, ok, place, track, acknowledge_notification, acknowledge_response,
  complete_request, is_ok,
}
use acp_hub.Flow.Budget.Ledger.{frame_of, track-inv}
use acp_hub.Flow.Budget.Acknowledge.{
  acknowledge_notification_lem, acknowledge_response_lem, NoMatch, NoMatch-append_other,
}

module _ {RequestId S AcpError : Type 0} ⦃id_eq : Eq RequestId⦄
    (x : Externals RequestId S AcpError) where
  track-notifications :
      (method : Bytes) (params : Json S) (n : ℕ) (b : FlowBudget RequestId) {t : ℕ}
      → (track x (notification method (some params)) n b).1 ≡ ok t
      → (track x (notification method (some params)) n b).0.notifications
        ≡ b.notifications ++ (frame_of x (notification method (some params)) n b ∷ [])
  track-notifications method params n b h =
      let (placed, e, after, _, _, _, _) = track-inv x (notification method (some params)) n b h in
      rw after (unfold place in ground (arith, e))

  -- After a notification is admitted, an acknowledgement of the same method succeeds and releases a
  -- frame of its identity, also where the members of its parameters have been reordered.
  pub acknowledge_notification-track :
      (method : Bytes) {v w : Json S} (n : ℕ) (b : FlowBudget RequestId) {t : ℕ}
      → Same v w
      → (track x (notification method (some v)) n b).1 ≡ ok t
      → (f : PhysicalFrame) × ((acknowledge_notification x method w
            (track x (notification method (some v)) n b).0).1
          ≡ ok f)
        × (f.identity ≡ notification_identity x method v)
  acknowledge_notification-track method {v} {w} n b same h =
      let after = (track x (notification method (some v)) n b).0 in
      let renamed = (identity-Same x method same).0 in
      elim (acknowledge_notification_lem x method w after) [
        | inl (e, absent) ↦ absurd (
            NoMatch-append_other (notification_identity x method w) b.notifications
              (frame_of x (notification method (some v)) n b)
              (unfold physical_message_identity params_value in renamed)
              (subst (NoMatch (notification_identity x method w))
                (track-notifications method v n b h) absent))
        | inr (f, rest, e, m) ↦ (f, ap (λ r. r.1) e, m.matches ∙ sym renamed)
      ]

  track-responses :
      (r : Response RequestId S AcpError) (n : ℕ) (b : FlowBudget RequestId) {t : ℕ}
      → (track x (response r) n b).1 ≡ ok t
      → (track x (response r) n b).0.responses ≡ b.responses ++ (frame_of x (response r) n b ∷ [])
  track-responses r n b h =
      let (placed, e, after, _, _, _, _) = track-inv x (response r) n b h in
      rw after (unfold place in ground (arith, e))

  -- After a response is admitted, an acknowledgement of its payload succeeds, whatever its id was, and
  -- releases a frame of its identity.
  pub acknowledge_response-track :
      (r : Response RequestId S AcpError) (n : ℕ) (b : FlowBudget RequestId) {t : ℕ}
      → (track x (response r) n b).1 ≡ ok t
      → (f : PhysicalFrame) × ((acknowledge_response x
            (reply_of x r)
            (track x (response r) n b).0).1
          ≡ ok f)
        × (f.identity ≡ response_identity x (reply_of x r))
  acknowledge_response-track r n b h =
      elim (acknowledge_response_lem x (reply_of x r) (track x (response r) n b).0) [
        | inl (e, absent) ↦ absurd (
            NoMatch-append_other (response_identity x (reply_of x r)) b.responses
              (frame_of x (response r) n b) (unfold physical_message_identity in refl)
              (subst (NoMatch (response_identity x (reply_of x r))) (track-responses r n b h)
                absent))
        | inr (f, rest, e, m) ↦ (f, ap (λ r. r.1) e, m.matches)
      ]

  track-requests :
      (id : RequestId) (method : Bytes) (n : ℕ) (b : FlowBudget RequestId) {t : ℕ}
      → (track x (request id method) n b).1 ≡ ok t
      → ((track x (request id method) n b).0.requests
          ≡ insert id (frame_of x (request id method) n b) b.requests)
        × (get id b.requests ≡ none)
  track-requests id method n b h =
      let (placed, e, after, _, _, _, _) = track-inv x (request id method) n b h in
      rw after (unfold place in (ground (arith, e), ground (arith, e)))

  -- An admitted request is completed once: the first completion releases its own frame, a second one
  -- is refused, and an id that is outstanding is not admitted again.
  pub complete_request-track :
      (id : RequestId) (method other : Bytes) (n m : ℕ) (b : FlowBudget RequestId) {t : ℕ}
      → (track x (request id method) n b).1 ≡ ok t
      → let admitted = (track x (request id method) n b).0 in
        let completed = (complete_request x id admitted).0 in
        ((complete_request x id admitted).1 ≡ ok (frame_of x (request id method) n b))
        × (is_ok (complete_request x id completed).1 ≡ false)
        × (is_ok (track x (request id other) m admitted).1 ≡ false)
  complete_request-track id method other n m b h =
      let frame = frame_of x (request id method) n b in
      let admitted = (track x (request id method) n b).0 in
      let held : get id admitted.requests ≡ some frame =
        rw ((track-requests id method n b h).0, get-insert, ==_refl) refl in
      let gone : get id (remove id admitted.requests) ≡ none = rw (get-remove, ==_refl) refl in
      (
        unfold complete_request in ground (arith, held),
        unfold complete_request in ground (arith, held, gone),
        unfold track place in ground (arith, held),
      )
