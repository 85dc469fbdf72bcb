-- ===== src/Flow/Transfer.antt =====
-- How the bytes of a complete message go from its partial reservation to the ledger:
-- `StdioPartialReservation::transfer` of crates/hub/src/bounded_transport/flow.rs and
-- `PartialReservation::transfer_message` of wire.rs.
use acp_hub.Base.{ℕ, ◌+◌, ◌-◌, ◌≤◌, ◌<◌, ◌≡◌, ◌≢◌, refl, arith, Eq, Option, usize_max}
use acp_hub.Flow.Json.{Bytes, Json}
use acp_hub.Flow.Identity.{Externals, Message, notification}
use acp_hub.Flow.Budget.{Result, ok, track_from_partial, track, place, release_partial}
use acp_hub.Flow.Partial.{Reserved, IsCovered}

module _ {RequestId S AcpError : Type 0} ⦃id_eq : Eq RequestId⦄
    (x : Externals RequestId S AcpError) where
  -- `transfer`.
  unfoldable pub transfer :
      Message RequestId S AcpError → Reserved RequestId → Reserved RequestId × Result ℕ
  unfolding track_from_partial
  transfer message r =
      let (ledger, result) = track_from_partial x message r.held r.ledger in
      (record { held = 0; ledger = ledger }, result)

  -- `transfer_message`, of a part of what is held.
  unfoldable pub transfer_message :
      Message RequestId S AcpError → ℕ → Reserved RequestId → Reserved RequestId × Result ℕ
  unfolding track_from_partial
  transfer_message message n r =
      let (ledger, result) = track_from_partial x message n r.ledger in
      (record { held = r.held - n; ledger = ledger }, result)

  moved :
      (method : Bytes) (params : Option (Json S)) (n : ℕ) (r : Reserved RequestId)
      → IsCovered r
      → n ≤ r.held
      → r.ledger.frames < r.ledger.max_frames
      → r.ledger.max_frames < usize_max
      → r.ledger.next_token ≢ usize_max
      → let result = track_from_partial x (notification method params) n r.ledger in
        (result.1 ≡ ok r.ledger.next_token)
        × (result.0.bytes ≡ r.ledger.bytes + n)
        × (result.0.partial_bytes + n ≡ r.ledger.partial_bytes)
  unfolding track_from_partial track place release_partial
  moved method params n r c le frames limit token =
      let (c₁, c₂, c₃) = c in
      (
        ground (arith, token, frames, limit, c₁, c₂, c₃),
        ground (arith, token, frames, limit, c₁, c₂, c₃),
        ground (arith, token, frames, limit, c₁, c₂, c₃),
      )

  -- A notification whose bytes are reserved is never refused for its bytes: while a frame and a token are
  -- left, it is admitted, with all of what is held or with a part of it, its bytes go from the partial ones
  -- to the outstanding ones, and the sum of both is as it was.
  pub transfer_lem :
      (method : Bytes) (params : Option (Json S)) (n : ℕ) (r : Reserved RequestId)
      → IsCovered r
      → n ≤ r.held
      → r.ledger.frames < r.ledger.max_frames
      → r.ledger.max_frames < usize_max
      → r.ledger.next_token ≢ usize_max
      → let whole = transfer (notification method params) r in
        let part = transfer_message (notification method params) n r in
        (whole.1 ≡ ok r.ledger.next_token)
        × (whole.0.held ≡ 0)
        × (whole.0.ledger.bytes ≡ r.ledger.bytes + r.held)
        × (whole.0.ledger.partial_bytes + r.held ≡ r.ledger.partial_bytes)
        × (part.1 ≡ ok r.ledger.next_token)
        × (part.0.held + n ≡ r.held)
        × (part.0.ledger.bytes ≡ r.ledger.bytes + n)
        × (part.0.ledger.partial_bytes + n ≡ r.ledger.partial_bytes)
  transfer_lem method params n r c le frames limit token =
      let (a₁, a₂, a₃) = moved method params r.held r c (omega arith) frames limit token in
      let (b₁, b₂, b₃) = moved method params n r c le frames limit token in
      (
        unfold transfer in a₁,
        unfold transfer in refl,
        unfold transfer in a₂,
        unfold transfer in a₃,
        unfold transfer_message in b₁,
        unfold transfer_message in (omega arith),
        unfold transfer_message in b₂,
        unfold transfer_message in b₃,
      )
