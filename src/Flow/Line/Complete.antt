-- ===== src/Flow/Line/Complete.antt =====
-- Every acceptable line is read, however the stream is cut into buffers.
use acp_hub.Base.{
  ℕ, ◌+◌, ◌-◌, ◌≤◌, ◌≡◌, ◌≢◌, refl, ap, sym, ◌∙◌, Bool, true, List, [], ◌∷◌, ◌++◌, length,
  length-append, All-append, arith, Option-cases, inl, inr, append_assoc, append-nil, Eq,
}
use acp_hub.Flow.Json.{Bytes}
use acp_hub.Flow.Budget.{FlowBudget}
use acp_hub.Flow.Budget.Invariant.{IsConsistent}
use acp_hub.Flow.Partial.{Reserved, add_lem, IsCovered, grown}
use acp_hub.Flow.Line.Rounds.{last_round, round}
use acp_hub.Flow.Line.{
  Fill, filled, Outcome, line, split_newline, strip_cr, put_back, finish, read_loop,
  read_bounded_line, max_acp_frame_bytes,
}
use acp_hub.Flow.Line.Sound.{NoNewline, split_newline-some, split_newline-none, grown-IsCovered}

tail_eq : {a b : ℕ} {xs ys : Bytes} → (a ∷ xs) ≡ (b ∷ ys) → (a ≡ b) × (xs ≡ ys)
tail_eq h = ground arith

prefix-le : (p q r t : Bytes) → NoNewline p → p ++ q ≡ r ++ (10 ∷ t) → length p ≤ length r
prefix-le [] q r t n h = omega arith
prefix-le (c ∷ p) q [] t n h = absurd (n.0 (tail_eq h).0)
prefix-le (c ∷ p) q (d ∷ r) t n h = omega (arith, prefix-le p q r t n.1 (tail_eq h).1)

first_newline :
    (p q r t : Bytes) → NoNewline p → NoNewline r → p ++ (10 ∷ q) ≡ r ++ (10 ∷ t) → p ≡ r
first_newline [] q [] t n m h = refl
first_newline [] q (d ∷ r) t n m h = absurd (m.0 (sym (tail_eq h).0))
first_newline (c ∷ p) q [] t n m h = absurd (n.0 (tail_eq h).0)
first_newline (c ∷ p) q (d ∷ r) t n m h =
    let ih = first_newline p q r t n.1 m.1 (tail_eq h).1 in let e = (tail_eq h).0 in ground arith

-- A buffer that is not empty, by its first byte and its others.
abbrev pub Buffer : Type 0
Buffer = ℕ × Bytes

abbrev pub fills : List Buffer → List Fill
fills [] = []
fills ((c, cs) ∷ chunks) = filled (c ∷ cs) ∷ fills chunks

abbrev pub joined : List Buffer → Bytes
joined [] = []
joined ((c, cs) ∷ chunks) = (c ∷ cs) ++ joined chunks

abbrev Reads : {RequestId : Type 0} → Bytes → Outcome × List Fill × FlowBudget RequestId → Type 0
Reads raw (outcome, _, _) = outcome ≡ line (strip_cr raw) (length raw + 1)

module _ {RequestId : Type 0} (valid_utf8 : Bytes → Bool) (raw tail : Bytes) (clean : NoNewline raw)
    (valid : valid_utf8 (strip_cr raw) ≡ true) (short : length raw + 1 ≤ max_acp_frame_bytes) where
  finish-Reads :
      (bytes : Bytes) (reader : List Fill) (r : Reserved RequestId)
      → bytes ≡ raw
      → r.held ≡ length raw + 1
      → Reads raw (finish valid_utf8 bytes reader r)
  unfolding finish
  finish-Reads bytes reader r e held = rw (e, valid) (rw held)

  read_loop-Reads :
      (bytes : Bytes) (r : Reserved RequestId) (chunks : List Buffer) (more : List Fill)
      → bytes ++ joined chunks ≡ raw ++ (10 ∷ tail)
      → NoNewline bytes
      → r.held ≡ length bytes
      → IsCovered r
      → r.ledger.bytes + (r.ledger.partial_bytes + (length raw + 1 - r.held)) ≤ r.ledger.max_bytes
      → Reads raw (read_loop valid_utf8 bytes r (fills chunks ++ more))
  read_loop-Reads bytes r [] more h first count c room =
      let whole : bytes ≡ raw ++ (10 ∷ tail) = sym (append-nil bytes) ∙ h in
      let behind = ap length whole ∙ length-append raw (10 ∷ tail) in
      absurd (omega (arith, behind, prefix-le bytes [] raw tail first h))
  read_loop-Reads bytes r ((a, ds) ∷ chunks) more h first count c room =
      elim (Option-cases (split_newline (a ∷ ds))) [
        | inr ((before, after), e) ↦
            let (found, before_clean) = split_newline-some (a ∷ ds) e in
            let all_clean = All-append (λ c. c ≢ 10) bytes before first before_clean in
            let input : (bytes ++ before) ++ (10 ∷ (after ++ joined chunks)) ≡ raw ++ (10 ∷ tail) =
              sym (ap (λ t. bytes ++ (t ++ joined chunks)) found ∙ simp append_assoc) ∙ h in
            let same = first_newline (bytes ++ before) _ raw tail all_clean clean input in
            let lengths : length bytes + length before ≡ length raw =
              sym (length-append bytes before) ∙ ap length same in
            elim (add_lem (length before + 1) r c) [
              | inr (_, over) ↦ absurd (omega arith)
              | inl (grows, _) ↦
                  rw
                    (last_round valid_utf8 bytes r a ds (fills chunks ++ more) e (ground arith)
                      grows)
                    (finish-Reads (bytes ++ before) (put_back after (fills chunks ++ more)) _ same
                      (omega arith))
            ]
        | inl e ↦
            let all_clean =
              All-append (λ c. c ≢ 10) bytes (a ∷ ds) first (split_newline-none (a ∷ ds) e) in
            let input : (bytes ++ (a ∷ ds)) ++ joined chunks ≡ raw ++ (10 ∷ tail) =
              append_assoc bytes (a ∷ ds) (joined chunks) ∙ h in
            let fits = prefix-le (bytes ++ (a ∷ ds)) _ raw tail all_clean input in
            let lengths = length-append bytes (a ∷ ds) in
            elim (add_lem (length (a ∷ ds)) r c) [
              | inr (_, over) ↦ absurd (omega arith)
              | inl (grows, bound) ↦
                  rw (round valid_utf8 bytes r a ds (fills chunks ++ more) e (ground arith) grows) (
                    read_loop-Reads (bytes ++ (a ∷ ds)) (grown (length (a ∷ ds)) r) chunks more
                      input all_clean (omega arith) (grown-IsCovered (length (a ∷ ds)) r c bound)
                      (omega arith))
            ]
      ]

  -- However a stream is cut into buffers, if a line that is short enough, valid UTF-8 and within the
  -- bytes that a consistent ledger has left stands before its first newline, then that line is read, and
  -- its bytes are reserved with those of the newline.
  pub read_bounded_line-Reads :
      ⦃id_eq : Eq RequestId⦄ (chunks : List Buffer) (more : List Fill) (b : FlowBudget RequestId)
      → joined chunks ≡ raw ++ (10 ∷ tail)
      → IsConsistent b
      → b.bytes + (b.partial_bytes + (length raw + 1)) ≤ b.max_bytes
      → (read_bounded_line valid_utf8 (fills chunks ++ more) b).0
        ≡ line (strip_cr raw) (length raw + 1)
  unfolding read_bounded_line
  read_bounded_line-Reads chunks more b h c room =
      read_loop-Reads [] (record { held = 0; ledger = b }) chunks more h tt refl (omega arith)
        (omega arith)
