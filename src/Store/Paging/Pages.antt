-- ===== src/Store/Paging/Pages.antt =====
-- What one page holds of the ordered rows behind its position.
use acp_hub.Base.{
  ℕ, suc, ℤ, pos, le_int, le_int_trans, ◌+◌, ◌≤◌, ◌<◌, ◌≡◌, refl, ap, sym, subst, ◌∙◌, Bool, true,
  false, ◌&&◌, List, [], ◌∷◌, ◌++◌, Option, none, some, String, ltb, leb, arith, All, All-map,
  All-append_left, Bool-cases, inl, inr, length, fun_ext, ◌==◌, string_eq, bool_eq, option_eq,
  int_eq,
}
use acp_hub.Store.Messages.{MessageRow, where_rows, order_by_seq, in_conversation}
use acp_hub.Store.Messages.Order.{
  Ascending, DistinctSeqs, where-order_by_seq, where-where, where_rows-DistinctSeqs,
  order_by_seq-Ascending,
}
use acp_hub.Store.Cursor.{CursorCrypto}
use acp_hub.Store.Paging.{
  Scope, selected, after, take_rows, last_row, row_bytes, budgeted, max_message_page_bytes,
}

-- `UNIQUE(conv_id, seq)`, for one conversation.
abbrev pub IsUnique : String → List MessageRow → Type 0
IsUnique conv table = DistinctSeqs (where_rows (λ m. m.conv_id == conv) table)

-- All rows of a query in their order, and those behind a position.
abbrev pub rows_of : Scope → List MessageRow → List MessageRow
rows_of q table = order_by_seq (where_rows (selected q none) table)

abbrev pub rows_after : Scope → List MessageRow → Option ℤ → List MessageRow
rows_after q table position = order_by_seq (where_rows (selected q position) table)

selected-conversation :
    (q : Scope) (position : Option ℤ) (table : List MessageRow)
    → where_rows (selected q position) (where_rows (λ m. m.conv_id == q.conv_id) table)
      ≡ where_rows (selected q position) table
selected-conversation q position table =
    where-where (selected q position) (λ m. m.conv_id == q.conv_id) table
    ∙ ap (λ test. where_rows test table)
        (fun_ext λ m. unfold selected in_conversation in ground arith)

pub selected-DistinctSeqs :
    (q : Scope) (position : Option ℤ) (table : List MessageRow)
    → IsUnique q.conv_id table
    → DistinctSeqs (where_rows (selected q position) table)
selected-DistinctSeqs q position table u =
    subst DistinctSeqs (selected-conversation q position table) (
      where_rows-DistinctSeqs (selected q position) (where_rows (λ m. m.conv_id == q.conv_id) table)
        u)

pub rows_of-Ascending :
    (q : Scope) (table : List MessageRow) → IsUnique q.conv_id table → Ascending (rows_of q table)
rows_of-Ascending q table u =
    order_by_seq-Ascending (where_rows (selected q none) table)
      (selected-DistinctSeqs q none table u)

-- The rows behind a position are those of all rows that come after it.
pub rows_after_lem :
    (q : Scope) (table : List MessageRow) (position : Option ℤ)
    → IsUnique q.conv_id table
    → rows_after q table position ≡ where_rows (after position) (rows_of q table)
rows_after_lem q table position u =
    let tests : selected q position ≡ (λ m. selected q none m && after position m) =
      fun_ext λ m. unfold selected after in ground arith in
    let both : where_rows (selected q position) table
        ≡ where_rows (after position) (where_rows (selected q none) table) =
      ap (λ test. where_rows test table) tests
      ∙ sym (where-where (after position) (selected q none) table) in
    ap order_by_seq both
    ∙ sym (
        where-order_by_seq (after position) (where_rows (selected q none) table)
          (selected-DistinctSeqs q none table u))

-- The last row of a page is behind the position of the page, and what comes after it is the rest.
module _ (p : MessageRow → Bool) where
  where-none : (ms : List MessageRow) → All (λ m. p m ≡ false) ms → where_rows p ms ≡ []
  unfolding where_rows
  where-none [] h = refl
  where-none (m ∷ ms) h = let a = h.0 in ground (arith, a, where-none ms h.1)

  where-All : (ms : List MessageRow) → All (λ m. p m ≡ true) ms → where_rows p ms ≡ ms
  unfolding where_rows
  where-All [] h = refl
  where-All (m ∷ ms) h = let a = h.0 in ground (arith, a, where-All ms h.1)

after_seq_lem : (k : ℕ) (m : MessageRow) → after (some (pos k)) m ≡ ltb k m.seq
unfolding after
after_seq_lem k m = ground arith

pub last_row-All :
    (P : MessageRow → Type 0) (items : List MessageRow) (last : MessageRow)
    → All P items
    → last_row items ≡ some last
    → P last
unfolding last_row
last_row-All P [] last h e = cc
last_row-All P (m ∷ []) last h e = let same : m ≡ last = ground (arith, e) in subst P same h.0
last_row-All P (m ∷ n ∷ ms) last h e = last_row-All P (n ∷ ms) last h.1 e

pub where-kept :
    (p : MessageRow → Bool) (ms : List MessageRow) → All (λ m. p m ≡ true) (where_rows p ms)
unfolding where_rows
where-kept p [] = tt
where-kept p (m ∷ ms) = elim (Bool-cases (p m)) [
  | inl kept ↦ rw kept (kept, where-kept p ms)
  | inr left ↦ rw left (where-kept p ms)
]

-- Behind the last row of a front part of ascending rows stands the rest.
pub after_last :
    (items rest : List MessageRow) (last : MessageRow)
    → Ascending (items ++ rest)
    → last_row items ≡ some last
    → where_rows (after (some (pos last.seq))) (items ++ rest) ≡ rest
unfolding last_row where_rows
after_last [] rest last h e = cc
after_last (m ∷ []) rest last h e =
    let same : m ≡ last = ground (arith, e) in
    let behind =
      where-All (after (some (pos last.seq))) rest
        (All-map (λ k lt. after_seq_lem last.seq k ∙ (ground (arith, lt, same))) rest h.0) in
    let own = after_seq_lem last.seq m in ground (arith, behind, own, same)
after_last (m ∷ n ∷ ms) rest last h e =
    let lt =
      last_row-All (λ k. m.seq < k.seq) (n ∷ ms) last
        (All-append_left (λ k. m.seq < k.seq) (n ∷ ms) rest h.0) e in
    let own = after_seq_lem last.seq m in
    let ih = after_last (n ∷ ms) rest last h.1 e in (ground (arith, lt, own)) ∙ ih

-- A row that comes after a later position comes after an earlier one.
pub after_trans :
    (position : Option ℤ) (last m : MessageRow)
    → after position last ≡ true
    → after (some (pos last.seq)) m ≡ true
    → after position m ≡ true
unfolding after
after_trans none last m h k = refl
after_trans (some z) last m h k = elim (Bool-cases (le_int (pos m.seq) z)) [
  | inr behind ↦ ground (arith, behind)
  | inl before ↦
      let le : le_int (pos last.seq) (pos m.seq) ≡ true = ground (arith, k) in
      let wrong = le_int_trans (pos last.seq) (pos m.seq) z le before in
      absurd (ground (arith, wrong, h))
]

-- A front part of the rows, and the rest.
pub record IsFront (items rows : List MessageRow) : Type 0 where
  pub rest : List MessageRow
  pub split : items ++ rest ≡ rows

pub take_rows-IsFront : (n : ℕ) (rows : List MessageRow) → IsFront (take_rows n rows) rows
unfolding take_rows
take_rows-IsFront ℕ.zero rows = record { rest = rows; split = refl }
take_rows-IsFront (ℕ.suc n) [] = record { rest = []; split = refl }
take_rows-IsFront (ℕ.suc n) (m ∷ rows) =
    let f = take_rows-IsFront n rows in record { rest = f.rest; split = ap (λ ms. m ∷ ms) f.split }

module _ (x : CursorCrypto) (octets : String → ℕ) where
  -- Beyond the budget nothing is taken any more.
  budgeted-over :
      (sum : ℕ) (rows : List MessageRow)
      → max_message_page_bytes < sum
      → budgeted x octets sum rows ≡ []
  unfolding budgeted
  budgeted-over sum [] h = refl
  budgeted-over sum (m ∷ rows) h =
      let ih = budgeted-over (sum + row_bytes x octets m) rows (omega arith) in
      ground (arith, ih, h)

  pub budgeted-IsFront :
      (sum : ℕ) (rows : List MessageRow) → IsFront (budgeted x octets sum rows) rows
  unfolding budgeted
  budgeted-IsFront sum [] = record { rest = []; split = refl }
  budgeted-IsFront sum (m ∷ rows) =
      elim (Bool-cases (leb (sum + row_bytes x octets m) max_message_page_bytes)) [
        | inl fits ↦
            let f = budgeted-IsFront (sum + row_bytes x octets m) rows in
            record { rest = f.rest; split = rw fits (ap (λ ms. m ∷ ms) f.split) }
        | inr over ↦
            let e = budgeted-over (sum + row_bytes x octets m) rows (ground (arith, over)) in
            record { rest = m ∷ rows; split = rw (over, e) refl }
      ]

  -- The bytes of a page.
  unfoldable pub bytes_of_rows : List MessageRow → ℕ
  bytes_of_rows [] = 0
  bytes_of_rows (m ∷ ms) = row_bytes x octets m + bytes_of_rows ms

  pub budgeted-bytes :
      (sum : ℕ) (rows : List MessageRow)
      → sum ≤ max_message_page_bytes
      → sum + bytes_of_rows (budgeted x octets sum rows) ≤ max_message_page_bytes
  unfolding budgeted bytes_of_rows
  budgeted-bytes sum [] h = omega (arith, h)
  budgeted-bytes sum (m ∷ rows) h =
      elim (Bool-cases (leb (sum + row_bytes x octets m) max_message_page_bytes)) [
        | inl fits ↦
            let ih = budgeted-bytes (sum + row_bytes x octets m) rows (ground (arith, fits)) in
            rw fits (omega (arith, ih))
        | inr over ↦
            let e = budgeted-over (sum + row_bytes x octets m) rows (ground (arith, over)) in
            rw (over, e) (omega (arith, h))
      ]

-- All rows make one page, if they are not too many and not too large.
module _ (x : CursorCrypto) (octets : String → ℕ) where
  pub whole_page :
      (n sum : ℕ) (rows : List MessageRow)
      → length rows ≤ n
      → sum + bytes_of_rows x octets rows ≤ max_message_page_bytes
      → budgeted x octets sum (take_rows n rows) ≡ rows
  unfolding budgeted take_rows bytes_of_rows
  whole_page ℕ.zero sum [] h k = refl
  whole_page (suc n) sum [] h k = refl
  whole_page ℕ.zero sum (m ∷ rows) h k = absurd (omega (arith, h))
  whole_page (suc n) sum (m ∷ rows) h k =
      let ih =
        whole_page n (sum + row_bytes x octets m) rows (omega (arith, h)) (omega (arith, k)) in
      ground (arith, ih, k)

  pub length-page-le :
      (n sum : ℕ) (rows : List MessageRow) → length (budgeted x octets sum (take_rows n rows)) ≤ n
  unfolding budgeted take_rows
  length-page-le ℕ.zero sum rows = omega arith
  length-page-le (suc n) sum [] = omega arith
  length-page-le (suc n) sum (m ∷ rows) =
      let ih = length-page-le n (sum + row_bytes x octets m) rows in ground (arith, ih)

-- The last row of a front part of the rows behind a position comes after it.
pub last_behind :
    (s : Scope) (table : List MessageRow) (position : Option ℤ) (items rest : List MessageRow)
    (last : MessageRow)
    → IsUnique s.conv_id table
    → items ++ rest ≡ rows_after s table position
    → last_row items ≡ some last
    → after position last ≡ true
last_behind s table position items rest last u split e =
    let kept : All (λ m. after position m ≡ true) (items ++ rest) =
      subst (All (λ m. after position m ≡ true)) (sym (split ∙ rows_after_lem s table position u))
        (where-kept (after position) (rows_of s table)) in
    last_row-All (λ m. after position m ≡ true) items last
      (All-append_left (λ m. after position m ≡ true) items rest kept) e

-- What stands behind the last row of a front part of the rows behind a position.
pub rest_lem :
    (s : Scope) (table : List MessageRow) (position : Option ℤ) (items rest : List MessageRow)
    (last : MessageRow)
    → IsUnique s.conv_id table
    → items ++ rest ≡ rows_after s table position
    → last_row items ≡ some last
    → rest ≡ rows_after s table (some (pos last.seq))
rest_lem s table position items rest last u split e =
    let whole = rows_of s table in
    let here = rows_after_lem s table position u in
    let there = rows_after_lem s table (some (pos last.seq)) u in
    let grows : Ascending (items ++ rest) = subst Ascending (sym split) (
      order_by_seq-Ascending (where_rows (selected s position) table)
        (selected-DistinctSeqs s position table u)) in
    let behind = last_behind s table position items rest last u split e in
    let tests : (λ m. after position m && after (some (pos last.seq)) m)
        ≡ after (some (pos last.seq)) =
      fun_ext λ m. let t = after_trans position last m behind in ground (arith, t) in
    sym (after_last items rest last grows e)
    ∙ ap (where_rows (after (some (pos last.seq)))) (split ∙ here)
    ∙ where-where (after (some (pos last.seq))) (after position) whole
    ∙ ap (λ test. where_rows test whole) tests
    ∙ sym there
