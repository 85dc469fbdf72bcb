-- ===== src/Flow/Budget/Ledger.antt =====
-- What each call does to the frames that are held, weighed by any function of a frame.
use acp_hub.Base.{
  ℕ, zero, suc, ◌+◌, ◌≤◌, ◌≡◌, ◌≢◌, List, [], ◌∷◌, ◌++◌, some, arith, Eq, list_eq, nat_eq, inl, inr,
  Option-cases, total, total-insert_new, total-remove, Distinct, get, saturating_add, usize_max,
}
use acp_hub.Flow.Json.{Bytes, Json}
use acp_hub.Flow.Identity.{
  Externals, Message, Reply, request, notification, response, physical_message_identity,
  notification_identity, response_identity,
}
use acp_hub.Flow.Budget.{
  PhysicalFrame, FlowBudget, ok, err, FlowError, min_match, remove_at, take_match, place, track,
  acknowledge_notification, acknowledge_response, complete_request, Result-cases,
}

abbrev pub weigh_all : (PhysicalFrame → ℕ) → List PhysicalFrame → ℕ
weigh_all w [] = 0
weigh_all w (f ∷ fs) = w f + weigh_all w fs

-- The weight of all frames that a ledger holds.
abbrev pub weigh : {RequestId : Type 0} → (PhysicalFrame → ℕ) → FlowBudget RequestId → ℕ
weigh w b = total w b.requests + weigh_all w b.notifications + weigh_all w b.responses

weigh_all-append :
    (w : PhysicalFrame → ℕ) (fs gs : List PhysicalFrame)
    → weigh_all w (fs ++ gs) ≡ weigh_all w fs + weigh_all w gs
weigh_all-append w [] gs = omega arith
weigh_all-append w (f ∷ fs) gs = omega (arith, weigh_all-append w fs gs)

remove_at-weigh :
    (w : PhysicalFrame → ℕ) (i : ℕ) (fs : List PhysicalFrame) {g : PhysicalFrame}
    {gs : List PhysicalFrame}
    → remove_at i fs ≡ some (g, gs)
    → weigh_all w gs + w g ≡ weigh_all w fs
unfolding remove_at
remove_at-weigh w i [] h = cc
remove_at-weigh w zero (f ∷ fs) h = ground arith
remove_at-weigh w (suc i) (f ∷ fs) {g} {gs} h = elim (Option-cases (remove_at i fs)) [
  | inl e ↦ absurd (ground (arith, e))
  | inr (t, e) ↦ ground (arith, remove_at-weigh w i fs e)
]

pub take_match-weigh :
    (w : PhysicalFrame → ℕ) (identity : Bytes) (fs : List PhysicalFrame) {g : PhysicalFrame}
    {gs : List PhysicalFrame}
    → take_match identity fs ≡ ok (g, gs)
    → weigh_all w gs + w g ≡ weigh_all w fs
unfolding take_match
take_match-weigh w identity fs {g} {gs} h = elim (Option-cases (min_match identity fs)) [
  | inl e ↦ absurd (ground (arith, e))
  | inr ((i, f), e) ↦ elim (Option-cases (remove_at i fs)) [
    | inl e' ↦ absurd (ground (arith, e, e'))
    | inr (t, e') ↦ ground (arith, e, remove_at-weigh w i fs e')
  ]
]

-- The frame that `track` makes of a message.
abbrev pub frame_of :
    {RequestId S AcpError : Type 0}
    → Externals RequestId S AcpError
    → Message RequestId S AcpError
    → ℕ
    → FlowBudget RequestId
    → PhysicalFrame
frame_of x message n b = record {
  token = b.next_token;
  identity = physical_message_identity x message;
  bytes = n;
}

module _ {RequestId S AcpError : Type 0} ⦃id_eq : Eq RequestId⦄
    (x : Externals RequestId S AcpError) where
  place-weigh :
      (w : PhysicalFrame → ℕ) (message : Message RequestId S AcpError) (f : PhysicalFrame)
      (b : FlowBudget RequestId) {b' : FlowBudget RequestId}
      → place x message f b ≡ ok b'
      → weigh w b' ≡ weigh w b + w f
  unfolding place
  place-weigh w (request id method) f b h = ground (arith, total-insert_new w id f b.requests)
  place-weigh w (notification method params) f b h =
      ground (arith, weigh_all-append w b.notifications (f ∷ []))
  place-weigh w (response r) f b h = ground (arith, weigh_all-append w b.responses (f ∷ []))

  -- An admission: the checks that it passed, and the ledger that it leaves.
  pub track-inv :
      (message : Message RequestId S AcpError) (n : ℕ) (b : FlowBudget RequestId) {t : ℕ}
      → (track x message n b).1 ≡ ok t
      → (placed : FlowBudget RequestId) × (place x message
            (frame_of x message n b)
            (record b { next_token = b.next_token + 1 })
          ≡ ok placed)
        × ((track x message n b).0 ≡ record placed {
          frames = saturating_add b.frames 1;
          bytes = saturating_add b.bytes n;
        })
        × (t ≡ b.next_token)
        × (saturating_add b.frames 1 ≤ b.max_frames)
        × (saturating_add (saturating_add b.bytes n) b.partial_bytes ≤ b.max_bytes)
        × (b.next_token ≢ usize_max)
  unfolding track
  track-inv message n b h =
      elim (Result-cases
        (place x message (frame_of x message n b) (record b { next_token = b.next_token + 1 }))) [
          | inl (placed, e) ↦ (
            placed,
            e,
            ground (arith, e),
            ground (arith, e),
            ground (arith, e),
            ground (arith, e),
            ground (arith, e),
          )
          | inr (_, e) ↦ absurd (ground (arith, e))
        ]

  pub track-weigh :
      (w : PhysicalFrame → ℕ) (message : Message RequestId S AcpError) (n : ℕ)
      (b : FlowBudget RequestId) {t : ℕ}
      → (track x message n b).1 ≡ ok t
      → weigh w (track x message n b).0 ≡ weigh w b + w (frame_of x message n b)
  track-weigh w message n b h =
      let (placed, e, after, _, _, _, _) = track-inv message n b h in
      rw after (place-weigh w message (frame_of x message n b) _ e)

  pub track_err-weigh :
      (w : PhysicalFrame → ℕ) (message : Message RequestId S AcpError) (n : ℕ)
      (b : FlowBudget RequestId) {e : FlowError}
      → (track x message n b).1 ≡ err e
      → weigh w (track x message n b).0 ≡ weigh w b
  unfolding track
  track_err-weigh w message n b h = ground arith

  pub acknowledge_notification-weigh :
      (w : PhysicalFrame → ℕ) (method : Bytes) (params : Json S) (b : FlowBudget RequestId)
      {f : PhysicalFrame}
      → (acknowledge_notification x method params b).1 ≡ ok f
      → weigh w (acknowledge_notification x method params b).0 + w f ≡ weigh w b
  unfolding acknowledge_notification
  acknowledge_notification-weigh w method params b h =
      elim (Result-cases (take_match (notification_identity x method params) b.notifications)) [
        | inl ((f, rest), e) ↦
            ground (arith, e, take_match-weigh w (notification_identity x method params) _ e)
        | inr (_, e) ↦ absurd (ground (arith, e))
      ]

  pub acknowledge_response-weigh :
      (w : PhysicalFrame → ℕ) (reply : Reply S AcpError) (b : FlowBudget RequestId)
      {f : PhysicalFrame}
      → (acknowledge_response x reply b).1 ≡ ok f
      → weigh w (acknowledge_response x reply b).0 + w f ≡ weigh w b
  unfolding acknowledge_response
  acknowledge_response-weigh w reply b h =
      elim (Result-cases (take_match (response_identity x reply) b.responses)) [
        | inl ((f, rest), e) ↦ ground (arith, e, take_match-weigh w (response_identity x reply) _ e)
        | inr (_, e) ↦ absurd (ground (arith, e))
      ]

  pub complete_request-weigh :
      (w : PhysicalFrame → ℕ) (id : RequestId) (b : FlowBudget RequestId) {f : PhysicalFrame}
      → Distinct b.requests
      → (complete_request x id b).1 ≡ ok f
      → weigh w (complete_request x id b).0 + w f ≡ weigh w b
  unfolding complete_request
  complete_request-weigh w id b d h = elim (Option-cases (get id b.requests)) [
    | inl e ↦ absurd (ground (arith, e))
    | inr (f, e) ↦ ground (arith, e, total-remove w id f b.requests d e)
  ]
