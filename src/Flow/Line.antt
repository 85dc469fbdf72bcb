-- ===== src/Flow/Line.antt =====
-- `read_bounded_line` of crates/hub/src/bounded_transport/flow.rs. The reader is the list of what
-- `fill_buf` returns, whether it fails included; at its end, or at an empty buffer, it is at the end of
-- the stream. UTF-8 validation is a parameter.
mod Rounds
pub mod Sound
pub mod Complete
use acp_hub.Base.{
  ℕ, suc, ◌+◌, ◌*◌, ◌≡◌, refl, Bool, true, false, List, [], ◌∷◌, ◌++◌, Option, none, some, ltb, eqb,
  if◌then◌else◌, length,
}
use acp_hub.Flow.Json.{Bytes}
use acp_hub.Flow.Budget.{FlowBudget, ok, err, FlowError}
use acp_hub.Flow.Partial.{Reserved, add, drop}

abbrev pub max_acp_frame_bytes : ℕ
max_acp_frame_bytes = 32 * 1024 * 1024

pub data Fill : Type 0 where
  filled : Bytes → Fill
  failed : Fill

-- The error cases are those of `io::Error`; `line` keeps the text and its reservation.
pub data Outcome : Type 0 where
  end_of_stream incomplete too_large io_failed not_utf8 : Outcome
  over_budget : FlowError → Outcome
  line : Bytes → ℕ → Outcome

abbrev in_front : ℕ → Option (Bytes × Bytes) → Option (Bytes × Bytes)
in_front c none = none
in_front c (some (before, after)) = some (c ∷ before, after)

-- `buffer.iter().position(|byte| *byte == b'\n')`, as what stands before and behind the newline.
unfoldable pub split_newline : Bytes → Option (Bytes × Bytes)
split_newline [] = none
split_newline (c ∷ cs) = if eqb c 10 then some ([], cs) else in_front c (split_newline cs)

-- A trailing carriage return is popped.
unfoldable pub strip_cr : Bytes → Bytes
strip_cr [] = []
strip_cr (c ∷ []) = if eqb c 13 then [] else c ∷ []
strip_cr (c ∷ d ∷ cs) = c ∷ strip_cr (d ∷ cs)

-- What `consume` leaves of a buffer; an empty rest is refilled.
abbrev pub put_back : Bytes → List Fill → List Fill
put_back [] reader = reader
put_back (c ∷ cs) reader = filled (c ∷ cs) ∷ reader

module _ {RequestId : Type 0} (valid_utf8 : Bytes → Bool) where
  -- An error return drops the reservation.
  abbrev fail :
      Outcome → List Fill → Reserved RequestId → Outcome × List Fill × FlowBudget RequestId
  fail outcome reader r = (outcome, reader, drop r)

  unfoldable pub finish :
      Bytes → List Fill → Reserved RequestId → Outcome × List Fill × FlowBudget RequestId
  finish bytes reader r =
      if valid_utf8 (strip_cr bytes)
      then (line (strip_cr bytes) r.held, reader, r.ledger)
      else fail not_utf8 reader r

  -- The loop, with the bytes read so far.
  unfoldable pub read_loop :
      Bytes → Reserved RequestId → List Fill → Outcome × List Fill × FlowBudget RequestId
  read_loop bytes r [] = elim bytes [ [] ↦ fail end_of_stream [] r | _ ∷ _ ↦ fail incomplete [] r ]
  read_loop bytes r (failed ∷ reader) = fail io_failed reader r
  read_loop bytes r (filled [] ∷ reader) = elim bytes [
    | [] ↦ fail end_of_stream reader r
    | _ ∷ _ ↦ fail incomplete reader r
  ]
  read_loop bytes r (filled (c ∷ cs) ∷ reader) =
      let buffer = c ∷ cs in
      elim (split_newline buffer) [
        | some (before, after) ↦
            if ltb max_acp_frame_bytes (length bytes + length before + 1)
            then fail too_large (filled buffer ∷ reader) r
            else (let (r', result) = add (length before + 1) r in
                elim result [
                  | err e ↦ fail (over_budget e) (filled buffer ∷ reader) r'
                  | ok _ ↦ finish (bytes ++ before) (put_back after reader) r'
                ])
        | none ↦
            if ltb max_acp_frame_bytes (length bytes + length buffer)
            then fail too_large (filled buffer ∷ reader) r
            else (let (r', result) = add (length buffer) r in
                elim result [
                  | err e ↦ fail (over_budget e) (filled buffer ∷ reader) r'
                  | ok _ ↦ read_loop (bytes ++ buffer) r' reader
                ])
      ]

  unfoldable pub read_bounded_line :
      List Fill → FlowBudget RequestId → Outcome × List Fill × FlowBudget RequestId
  unfolding read_loop
  read_bounded_line reader b = read_loop [] (record { held = 0; ledger = b }) reader
