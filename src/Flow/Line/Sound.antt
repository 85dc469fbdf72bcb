-- ===== src/Flow/Line/Sound.antt =====
-- What `read_bounded_line` returns, and what it leaves reserved.
use acp_hub.Base.{
  ℕ, ◌+◌, ◌-◌, ◌≤◌, ◌≡◌, ◌≢◌, refl, ap, sym, ◌∙◌, Bool, true, List, [], ◌∷◌, ◌++◌, none, some, ltb,
  eqb, Eq, length, length-append, All, All-append, arith, Bool-cases, Option-cases, inl, inr,
  append_assoc,
}
use acp_hub.Flow.Json.{Bytes}
use acp_hub.Flow.Budget.{FlowBudget}
use acp_hub.Flow.Budget.Invariant.{IsConsistent}
use acp_hub.Flow.Partial.{Reserved, drop, add_lem, IsCovered, grown}
use acp_hub.Flow.Line.Rounds.{
  last_round-too_large, last_round-over_budget, last_round, round-too_large, round-over_budget,
  round,
}
use acp_hub.Flow.Line.{
  Fill, filled, failed, Outcome, end_of_stream, incomplete, too_large, io_failed, not_utf8,
  over_budget, line, split_newline, strip_cr, put_back, finish, read_loop, read_bounded_line,
  max_acp_frame_bytes,
}

abbrev pub NoNewline : Bytes → Type 0
NoNewline = All (λ c. c ≢ 10)

-- All bytes that the reader still delivers.
abbrev pub bytes_of : List Fill → Bytes
bytes_of [] = []
bytes_of (filled b ∷ reader) = b ++ bytes_of reader
bytes_of (failed ∷ reader) = bytes_of reader

pub split_newline-some :
    (cs : Bytes) {before after : Bytes}
    → split_newline cs ≡ some (before, after)
    → (cs ≡ before ++ (10 ∷ after)) × NoNewline before
unfolding split_newline
split_newline-some [] h = cc
split_newline-some (c ∷ cs) {before} {after} h = elim (Bool-cases (eqb c 10)) [
  | inl hit ↦
      let p : before ≡ [] = ground (arith, hit) in
      let q : after ≡ cs = ground (arith, hit) in
      let k : c ≡ 10 = ground (arith, hit) in rw (p, q, k) (refl, tt)
  | inr miss ↦ elim (Option-cases (split_newline cs)) [
    | inl e ↦ absurd (ground (arith, miss, e))
    | inr ((b, a), e) ↦
        let (joined, first) = split_newline-some cs e in
        let p : before ≡ c ∷ b = ground (arith, miss, e) in
        let q : after ≡ a = ground (arith, miss, e) in
        rw (p, q) (ap (λ t. c ∷ t) joined, (ground (arith, miss), first))
  ]
]

pub split_newline-none : (cs : Bytes) → split_newline cs ≡ none → NoNewline cs
unfolding split_newline
split_newline-none [] h = tt
split_newline-none (c ∷ cs) h = elim (Bool-cases (eqb c 10)) [
  | inl hit ↦ absurd (ground (arith, hit))
  | inr miss ↦ elim (Option-cases (split_newline cs)) [
    | inl e ↦ (ground (arith, miss), split_newline-none cs e)
    | inr ((b, a), e) ↦ absurd (ground (arith, miss, e))
  ]
]

bytes_of-put_back :
    (cs : Bytes) (reader : List Fill) → bytes_of (put_back cs reader) ≡ cs ++ bytes_of reader
bytes_of-put_back [] reader = refl
bytes_of-put_back (c ∷ cs) reader = refl

drop-grown :
    {RequestId : Type 0} (n : ℕ) (r : Reserved RequestId) → IsCovered r → drop (grown n r) ≡ drop r
unfolding drop
drop-grown n r c = ground arith

pub grown-IsCovered :
    {RequestId : Type 0} (n : ℕ) (r : Reserved RequestId)
    → IsCovered r
    → r.ledger.bytes + (r.ledger.partial_bytes + n) ≤ r.ledger.max_bytes
    → IsCovered (grown n r)
grown-IsCovered n r c h = omega arith

-- The line `raw` stood before the first newline; its bytes and the newline are reserved.
pub record IsLine {RequestId : Type 0} (valid_utf8 : Bytes → Bool) (input : Bytes)
    (r : Reserved RequestId) (text : Bytes) (held : ℕ) (rest : List Fill) (b : FlowBudget RequestId)
    : Type 0 where
  pub raw : Bytes
  pub split : input ≡ raw ++ (10 ∷ bytes_of rest)
  pub first : NoNewline raw
  pub stripped : text ≡ strip_cr raw
  pub valid : valid_utf8 text ≡ true
  pub reserved : held ≡ length raw + 1
  pub bounded : held ≤ max_acp_frame_bytes
  pub grows : r.held ≤ held
  pub counted : b ≡ record r.ledger { partial_bytes = r.ledger.partial_bytes + (held - r.held) }

-- Any other outcome drops the reservation.
abbrev pub Ends :
    {RequestId : Type 0}
    → (Bytes → Bool)
    → Bytes
    → Reserved RequestId
    → Outcome × List Fill × FlowBudget RequestId
    → Type 0
Ends valid_utf8 input r (outcome, rest, b) = elim outcome [
  | line text held ↦ IsLine valid_utf8 input r text held rest b
  | _ ↦ b ≡ drop r
]

module _ {RequestId : Type 0} (valid_utf8 : Bytes → Bool) where
  finish-Ends :
      (bytes after : Bytes) (n : ℕ) (reader : List Fill) (r : Reserved RequestId)
      → NoNewline bytes
      → r.held + n ≡ length bytes + 1
      → length bytes + 1 ≤ max_acp_frame_bytes
      → IsCovered r
      → Ends valid_utf8
          (bytes ++ (10 ∷ (after ++ bytes_of reader)))
          r
          (finish valid_utf8 bytes (put_back after reader) (grown n r))
  unfolding finish
  finish-Ends bytes after n reader r first count fits c =
      elim (Bool-cases (valid_utf8 (strip_cr bytes))) [
        | inl valid ↦ rw valid (record {
          raw = bytes;
          split = ap (λ t. bytes ++ (10 ∷ t)) (sym (bytes_of-put_back after reader));
          first = first;
          stripped = refl;
          valid = valid;
          reserved = count;
          bounded = omega arith;
          grows = omega arith;
          counted = ground arith;
        })
        | inr bad ↦ rw bad (drop-grown n r c)
      ]

  -- A later round starts with more bytes and more reserved.
  Ends-grown :
      (input : Bytes) (n : ℕ) (r : Reserved RequestId)
      (res : Outcome × List Fill × FlowBudget RequestId)
      → IsCovered r
      → Ends valid_utf8 input (grown n r) res
      → Ends valid_utf8 input r res
  Ends-grown input n r (line text held, rest, b) c e = record {
    raw = e.raw;
    split = e.split;
    first = e.first;
    stripped = e.stripped;
    valid = e.valid;
    reserved = e.reserved;
    bounded = e.bounded;
    grows = omega (arith, e.grows);
    counted = e.counted ∙ ground (arith, e.grows);
  }
  Ends-grown input n r (end_of_stream, rest, b) c e = e ∙ drop-grown n r c
  Ends-grown input n r (incomplete, rest, b) c e = e ∙ drop-grown n r c
  Ends-grown input n r (too_large, rest, b) c e = e ∙ drop-grown n r c
  Ends-grown input n r (io_failed, rest, b) c e = e ∙ drop-grown n r c
  Ends-grown input n r (not_utf8, rest, b) c e = e ∙ drop-grown n r c
  Ends-grown input n r (over_budget f, rest, b) c e = e ∙ drop-grown n r c

  read_loop-Ends :
      (bytes : Bytes) (r : Reserved RequestId) (reader : List Fill)
      → NoNewline bytes
      → r.held ≡ length bytes
      → IsCovered r
      → Ends valid_utf8 (bytes ++ bytes_of reader) r (read_loop valid_utf8 bytes r reader)
  unfolding read_loop
  read_loop-Ends [] r [] first count c = refl
  read_loop-Ends (_ ∷ _) r [] first count c = refl
  read_loop-Ends bytes r (failed ∷ reader) first count c = refl
  read_loop-Ends [] r (filled [] ∷ reader) first count c = refl
  read_loop-Ends (_ ∷ _) r (filled [] ∷ reader) first count c = refl
  read_loop-Ends bytes r (filled (a ∷ ds) ∷ reader) first count c =
      elim (Option-cases (split_newline (a ∷ ds))) [
        | inr ((before, after), e) ↦
            let (joined, clean) = split_newline-some (a ∷ ds) e in
            let input : bytes ++ ((a ∷ ds) ++ bytes_of reader)
                ≡ (bytes ++ before) ++ (10 ∷ (after ++ bytes_of reader)) =
              ap (λ t. bytes ++ (t ++ bytes_of reader)) joined ∙ simp append_assoc in
            elim (Bool-cases (ltb max_acp_frame_bytes (length bytes + length before + 1))) [
              | inl over ↦ rw (last_round-too_large valid_utf8 bytes r a ds reader e over) refl
              | inr fits ↦ elim (add_lem (length before + 1) r c) [
                | inr (full, _) ↦
                    rw (last_round-over_budget valid_utf8 bytes r a ds reader e fits full) refl
                | inl (room, bound) ↦
                    rw (last_round valid_utf8 bytes r a ds reader e fits room, input)
                      (finish-Ends (bytes ++ before) after (length before + 1) reader r
                        (All-append _ bytes before first clean)
                        (omega (arith, length-append bytes before))
                        (ground (arith, fits, length-append bytes before)) c)
              ]
            ]
        | inl e ↦ elim (Bool-cases (ltb max_acp_frame_bytes (length bytes + length (a ∷ ds)))) [
          | inl over ↦ rw (round-too_large valid_utf8 bytes r a ds reader e over) refl
          | inr fits ↦ elim (add_lem (length (a ∷ ds)) r c) [
            | inr (full, _) ↦ rw (round-over_budget valid_utf8 bytes r a ds reader e fits full) refl
            | inl (room, bound) ↦
                rw
                  (
                    round valid_utf8 bytes r a ds reader e fits room,
                    ← append_assoc bytes (a ∷ ds) (bytes_of reader),
                  )
                  (Ends-grown _ (length (a ∷ ds)) r _ c (
                    read_loop-Ends (bytes ++ (a ∷ ds)) (grown (length (a ∷ ds)) r) reader
                      (All-append _ bytes (a ∷ ds) first (split_newline-none (a ∷ ds) e))
                      (omega (arith, length-append bytes (a ∷ ds)))
                      (grown-IsCovered (length (a ∷ ds)) r c bound)))
          ]
        ]
      ]

  drop_empty : (b : FlowBudget RequestId) → drop (record { held = 0; ledger = b }) ≡ b
  unfolding drop
  drop_empty b = ground arith

  -- A line that is read is what stood before the first newline of the stream, without a carriage return
  -- at its end; it is valid UTF-8, at most `max_acp_frame_bytes` long with its newline, and exactly these
  -- bytes are reserved in the ledger. Every other outcome leaves a consistent ledger as it was, and so does an
  -- empty reservation that is dropped.
  pub read_bounded_line-Ends :
      ⦃id_eq : Eq RequestId⦄ (reader : List Fill) (b : FlowBudget RequestId)
      → IsConsistent b
      → Ends valid_utf8
          (bytes_of reader)
          (record { held = 0; ledger = b })
          (read_bounded_line valid_utf8 reader b)
        × (drop (record { held = 0; ledger = b }) ≡ b)
  unfolding read_bounded_line
  read_bounded_line-Ends reader b c = (
    read_loop-Ends [] (record { held = 0; ledger = b }) reader tt refl (omega arith),
    drop_empty b,
  )
