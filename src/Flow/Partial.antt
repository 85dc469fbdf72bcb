-- ===== src/Flow/Partial.antt =====
-- The reservations of bytes that are read but not yet a frame: `StdioPartialReservation` of
-- crates/hub/src/bounded_transport/flow.rs and `PartialReservation` of bounded_transport/wire.rs. Both
-- hold a number of bytes, and change it together with the ledger.
use acp_hub.Base.{
  ℕ, ◌-◌, ◌≤◌, ◌<◌, ◌+◌, ◌≡◌, arith, ltb, if◌then◌else◌, saturating_add, usize_max, ◌⊎◌, inl, inr,
  Bool-cases,
}
use acp_hub.Flow.Budget.{
  FlowBudget, Result, ok, err, reserve_partial, release_partial, partial_exceeded,
}

-- A reservation and the ledger that it draws on.
pub record Reserved (RequestId : Type 0) : Type 0 where
  pub held : ℕ
  pub ledger : FlowBudget RequestId

module _ {RequestId : Type 0} where
  -- `add`, of both types.
  unfoldable pub add : ℕ → Reserved RequestId → Reserved RequestId × Result (Unit {0})
  unfolding reserve_partial
  add n r =
      let (ledger, result) = reserve_partial n r.ledger in
      elim result [
        | ok _ ↦ (record { held = saturating_add r.held n; ledger = ledger }, ok tt)
        | err e ↦ (record { held = r.held; ledger = ledger }, err e)
      ]

  -- `drop`, of both types.
  unfoldable pub drop : Reserved RequestId → FlowBudget RequestId
  unfolding release_partial
  drop r = release_partial r.held r.ledger

  -- `PartialReservation::retain`.
  unfoldable pub retain : ℕ → Reserved RequestId → Reserved RequestId
  unfolding release_partial
  retain n r =
      if ltb n r.held
      then record { held = n; ledger = release_partial (r.held - n) r.ledger }
      else record r { held = n }

  -- What is held is part of what the ledger counts, and the limit is one that saturation cannot hide.
  abbrev pub IsCovered : Reserved RequestId → Type 0
  IsCovered r =
      (r.held ≤ r.ledger.partial_bytes)
      × (r.ledger.max_bytes < usize_max)
      × (r.ledger.bytes + r.ledger.partial_bytes ≤ r.ledger.max_bytes)

  -- `n` more bytes, held and counted.
  abbrev pub grown : ℕ → Reserved RequestId → Reserved RequestId
  grown n r = record {
    held = r.held + n;
    ledger = record r.ledger { partial_bytes = r.ledger.partial_bytes + n };
  }

  pub add_lem :
      (n : ℕ) (r : Reserved RequestId)
      → IsCovered r
      → ((add n r ≡ (grown n r, ok tt))
          × (r.ledger.bytes + (r.ledger.partial_bytes + n) ≤ r.ledger.max_bytes))
        ⊎ ((add n r ≡ (r, err (partial_exceeded r.ledger.max_bytes)))
            × (r.ledger.max_bytes < r.ledger.bytes + (r.ledger.partial_bytes + n)))
  unfolding add
  add_lem n r c =
      elim (Bool-cases (
        ltb r.ledger.max_bytes
          (saturating_add r.ledger.bytes (saturating_add r.ledger.partial_bytes n)))) [
            | inl over ↦ inr (ground (arith, over), ground (arith, over))
            | inr fits ↦
                let bound : r.ledger.bytes + (r.ledger.partial_bytes + n) ≤ r.ledger.max_bytes =
                  ground (arith, fits) in
                inl (ground (arith, fits, bound), bound)
          ]
