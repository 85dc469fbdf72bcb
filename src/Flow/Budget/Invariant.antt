-- ===== src/Flow/Budget/Invariant.antt =====
-- The counters of a ledger are those of the frames that it holds, and stay within its limits.
use acp_hub.Base.{
  ℕ, ◌+◌, ◌-◌, ◌≤◌, ◌<◌, ◌≡◌, ◌≢◌, arith, Eq, list_eq, nat_eq, ltb, eqb, if◌then◌else◌, inl, inr,
  Bool-cases, ◌⊎◌, Distinct, length, saturating_add, usize_max, insert-Distinct, insert,
  length-insert_new, subst, sym,
}
use acp_hub.Flow.Identity.{Externals, Message, request, notification, response}
use acp_hub.Flow.Budget.{
  PhysicalFrame, FlowBudget, ok, err, FlowError, place, track, Result-cases, reserve_partial,
  release_partial, default_budget, max_outstanding_inbound_requests,
}
use acp_hub.Flow.Budget.Ledger.{weigh, frame_of, track-inv, track-weigh}

abbrev pub one : PhysicalFrame → ℕ
one f = 1

abbrev pub size : PhysicalFrame → ℕ
size f = f.bytes

-- A frame with the token `t`.
abbrev pub has_token : ℕ → PhysicalFrame → ℕ
has_token t f = if eqb f.token t then 1 else 0

pub record IsConsistent {RequestId : Type 0} ⦃id_eq : Eq RequestId⦄ (b : FlowBudget RequestId)
    : Type 0 where
  -- The counters are those of the frames that are held.
  pub frames_counted : b.frames ≡ weigh one b
  pub bytes_counted : b.bytes ≡ weigh size b
  -- The limits hold, and are limits that saturation cannot hide.
  pub frames_bounded : b.frames ≤ b.max_frames
  pub bytes_bounded : b.bytes + b.partial_bytes ≤ b.max_bytes
  pub frames_limit : b.max_frames < usize_max
  pub bytes_limit : b.max_bytes < usize_max
  pub requests_distinct : Distinct b.requests
  pub requests_bounded : length b.requests ≤ max_outstanding_inbound_requests
  pub tokens_limit : b.next_token ≤ usize_max

module _ {RequestId S AcpError : Type 0} ⦃id_eq : Eq RequestId⦄
    (x : Externals RequestId S AcpError) where
  place-requests :
      (message : Message RequestId S AcpError) (f : PhysicalFrame) (b : FlowBudget RequestId)
      {b' : FlowBudget RequestId}
      → Distinct b.requests
      → length b.requests ≤ max_outstanding_inbound_requests
      → place x message f b ≡ ok b'
      → Distinct b'.requests × (length b'.requests ≤ max_outstanding_inbound_requests)
  unfolding place
  place-requests (request id method) f b {b'} d n h =
      let e : b'.requests ≡ insert id f b.requests = ground arith in
      rw e (insert-Distinct id f b.requests d, ground (arith, length-insert_new id f b.requests))
  place-requests (notification method params) f b {b'} d n h =
      let e : b'.requests ≡ b.requests = ground arith in rw e (d, n)
  place-requests (response r) f b {b'} d n h =
      let e : b'.requests ≡ b.requests = ground arith in rw e (d, n)

  pub place-keeps :
      (message : Message RequestId S AcpError) (f : PhysicalFrame) (b : FlowBudget RequestId)
      {b' : FlowBudget RequestId}
      → place x message f b ≡ ok b'
      → (b'.partial_bytes ≡ b.partial_bytes)
        × (b'.next_token ≡ b.next_token)
        × (b'.max_frames ≡ b.max_frames)
        × (b'.max_bytes ≡ b.max_bytes)
  unfolding place
  place-keeps (request id method) f b h = ground arith
  place-keeps (notification method params) f b h = ground arith
  place-keeps (response r) f b h = ground arith

  pub track_err-keeps :
      (message : Message RequestId S AcpError) (n : ℕ) (b : FlowBudget RequestId) {e : FlowError}
      → (track x message n b).1 ≡ err e
      → ((track x message n b).0 ≡ b)
        ⊎ (((track x message n b).0 ≡ record b { next_token = b.next_token + 1 })
            × (b.next_token ≢ usize_max))
  unfolding track
  track_err-keeps message n b h = ground arith

  pub track-IsConsistent :
      (message : Message RequestId S AcpError) (n : ℕ) (b : FlowBudget RequestId)
      → IsConsistent b
      → IsConsistent (track x message n b).0
  track-IsConsistent message n b c = elim (Result-cases (track x message n b).1) [
    | inl (t, e) ↦
        let (placed, p, after, _, frames_fit, bytes_fit, fresh) = track-inv x message n b e in
        let (d, l) =
          place-requests message (frame_of x message n b) _ c.requests_distinct c.requests_bounded
            p in
        let keeps = place-keeps message (frame_of x message n b) _ p in
        let w₁ = track-weigh x one message n b e in
        let w₂ = track-weigh x size message n b e in
        record {
          frames_counted = rw w₁ (rw after (omega arith));
          bytes_counted = rw w₂ (rw after (omega arith));
          frames_bounded = rw after (omega arith);
          bytes_bounded = rw after (omega arith);
          frames_limit = rw after (omega arith);
          bytes_limit = rw after (omega arith);
          requests_distinct = rw after d;
          requests_bounded = rw after l;
          tokens_limit = rw after (omega arith);
        }
    | inr (f, e) ↦ elim (track_err-keeps message n b e) [
      | inl same ↦ subst (λ b'. IsConsistent b') (sym same) c
      | inr (spent, fresh) ↦
          subst (λ b'. IsConsistent b') (sym spent)
            (record {
              frames_counted = c.frames_counted;
              bytes_counted = c.bytes_counted;
              frames_bounded = c.frames_bounded;
              bytes_bounded = c.bytes_bounded;
              frames_limit = c.frames_limit;
              bytes_limit = c.bytes_limit;
              requests_distinct = c.requests_distinct;
              requests_bounded = c.requests_bounded;
              tokens_limit = omega arith;
            })
    ]
  ]

module _ {RequestId : Type 0} ⦃id_eq : Eq RequestId⦄ where
  -- A frame leaves one of the three collections, and the counters follow.
  pub release-IsConsistent :
      (f : PhysicalFrame) (b b' : FlowBudget RequestId)
      → IsConsistent b
      → b'.frames ≡ b.frames - 1
      → b'.bytes ≡ b.bytes - f.bytes
      → weigh one b' + 1 ≡ weigh one b
      → weigh size b' + f.bytes ≡ weigh size b
      → b'.partial_bytes ≡ b.partial_bytes
      → b'.next_token ≡ b.next_token
      → b'.max_frames ≡ b.max_frames
      → b'.max_bytes ≡ b.max_bytes
      → Distinct b'.requests
      → length b'.requests ≤ max_outstanding_inbound_requests
      → IsConsistent b'
  release-IsConsistent f b b' c h₁ h₂ h₃ h₄ h₅ h₆ h₇ h₈ d l = record {
    frames_counted = omega arith;
    bytes_counted = omega arith;
    frames_bounded = omega arith;
    bytes_bounded = omega arith;
    frames_limit = omega arith;
    bytes_limit = omega arith;
    requests_distinct = d;
    requests_bounded = l;
    tokens_limit = omega arith;
  }

  pub reserve_partial-IsConsistent :
      (n : ℕ) (b : FlowBudget RequestId) → IsConsistent b → IsConsistent (reserve_partial n b).0
  unfolding reserve_partial
  reserve_partial-IsConsistent n b c =
      elim (Bool-cases
        (ltb b.max_bytes (saturating_add b.bytes (saturating_add b.partial_bytes n)))) [
          | inl over ↦ rw over c
          | inr fits ↦ rw fits (record {
            frames_counted = c.frames_counted;
            bytes_counted = c.bytes_counted;
            frames_bounded = c.frames_bounded;
            bytes_bounded = ground arith;
            frames_limit = c.frames_limit;
            bytes_limit = c.bytes_limit;
            requests_distinct = c.requests_distinct;
            requests_bounded = c.requests_bounded;
            tokens_limit = c.tokens_limit;
          })
        ]

  pub release_partial-IsConsistent :
      (n : ℕ) (b : FlowBudget RequestId) → IsConsistent b → IsConsistent (release_partial n b)
  unfolding release_partial
  release_partial-IsConsistent n b c = record {
    frames_counted = c.frames_counted;
    bytes_counted = c.bytes_counted;
    frames_bounded = c.frames_bounded;
    bytes_bounded = omega arith;
    frames_limit = c.frames_limit;
    bytes_limit = c.bytes_limit;
    requests_distinct = c.requests_distinct;
    requests_bounded = c.requests_bounded;
    tokens_limit = c.tokens_limit;
  }

  -- The ledger of a new connection.
  pub default_budget-IsConsistent : IsConsistent (default_budget {RequestId = RequestId})
  unfolding default_budget
  default_budget-IsConsistent = omega arith
