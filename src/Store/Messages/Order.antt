-- ===== src/Store/Messages/Order.antt =====
-- Selecting and ordering rows.
use acp_hub.Base.{
  suc, ◌<◌, ◌≡◌, ◌≢◌, refl, Bool, ◌&&◌, List, [], ◌∷◌, if◌then◌else◌, leb, arith, All, All-map,
  Bool-cases, inl, inr, length,
}
use acp_hub.Store.Messages.{MessageRow, where_rows, insert_row, order_by_seq, count_of}

-- The numbers of the rows grow.
abbrev pub Ascending : List MessageRow → Type 0
Ascending [] = Unit
Ascending (m ∷ ms) = All (λ n. m.seq < n.seq) ms × Ascending ms

-- No two rows have the same number.
abbrev pub DistinctSeqs : List MessageRow → Type 0
DistinctSeqs [] = Unit
DistinctSeqs (m ∷ ms) = All (λ n. m.seq ≢ n.seq) ms × DistinctSeqs ms

module _ (P : MessageRow → Type 0) where
  pub where_rows-All :
      (test : MessageRow → Bool) (ms : List MessageRow) → All P ms → All P (where_rows test ms)
  unfolding where_rows
  where_rows-All test [] h = tt
  where_rows-All test (m ∷ ms) h = elim (Bool-cases (test m)) [
    | inl kept ↦ rw kept (h.0, where_rows-All test ms h.1)
    | inr left ↦ rw left (where_rows-All test ms h.1)
  ]

  insert_row-All :
      (m : MessageRow) (ns : List MessageRow) → P m → All P ns → All P (insert_row m ns)
  unfolding insert_row
  insert_row-All m [] p h = (p, tt)
  insert_row-All m (n ∷ ns) p h = elim (Bool-cases (leb m.seq n.seq)) [
    | inl le ↦ rw le (p, h)
    | inr gt ↦ rw gt (h.0, insert_row-All m ns p h.1)
  ]

  pub order_by_seq-All : (ms : List MessageRow) → All P ms → All P (order_by_seq ms)
  unfolding order_by_seq
  order_by_seq-All [] h = tt
  order_by_seq-All (m ∷ ms) h = insert_row-All m (order_by_seq ms) h.0 (order_by_seq-All ms h.1)

pub where_rows-DistinctSeqs :
    (test : MessageRow → Bool) (ms : List MessageRow)
    → DistinctSeqs ms
    → DistinctSeqs (where_rows test ms)
unfolding where_rows
where_rows-DistinctSeqs test [] h = tt
where_rows-DistinctSeqs test (m ∷ ms) h = elim (Bool-cases (test m)) [
  | inl kept ↦
      rw kept (where_rows-All (λ n. m.seq ≢ n.seq) test ms h.0, where_rows-DistinctSeqs test ms h.1)
  | inr left ↦ rw left (where_rows-DistinctSeqs test ms h.1)
]

insert_row-Ascending :
    (m : MessageRow) (ns : List MessageRow)
    → All (λ n. m.seq ≢ n.seq) ns
    → Ascending ns
    → Ascending (insert_row m ns)
unfolding insert_row
insert_row-Ascending m [] d h = (tt, tt)
insert_row-Ascending m (n ∷ ns) d h = elim (Bool-cases (leb m.seq n.seq)) [
  | inl le ↦
      let lt : m.seq < n.seq = let e = d.0 in ground (arith, le, e) in
      rw le ((lt, All-map (λ k p. omega arith) ns h.0), h)
  | inr gt ↦
      let lt : n.seq < m.seq = ground (arith, gt) in
      rw gt (insert_row-All (λ k. n.seq < k.seq) m ns lt h.0, insert_row-Ascending m ns d.1 h.1)
]

pub order_by_seq-Ascending : (ms : List MessageRow) → DistinctSeqs ms → Ascending (order_by_seq ms)
unfolding order_by_seq
order_by_seq-Ascending [] d = tt
order_by_seq-Ascending (m ∷ ms) d =
    insert_row-Ascending m (order_by_seq ms) (order_by_seq-All (λ n. m.seq ≢ n.seq) ms d.0)
      (order_by_seq-Ascending ms d.1)

-- A row in front of rows with larger numbers.
insert_row-first :
    (m : MessageRow) (ns : List MessageRow) → All (λ n. m.seq < n.seq) ns → insert_row m ns ≡ m ∷ ns
unfolding insert_row
insert_row-first m [] h = refl
insert_row-first m (n ∷ ns) h = let lt = h.0 in ground (arith, lt)

where-insert_row :
    (test : MessageRow → Bool) (m : MessageRow) (ns : List MessageRow)
    → Ascending ns
    → All (λ n. m.seq ≢ n.seq) ns
    → where_rows test (insert_row m ns)
      ≡ (if test m then insert_row m (where_rows test ns) else where_rows test ns)
unfolding insert_row where_rows
where-insert_row test m [] h d = ground arith
where-insert_row test m (n ∷ ns) h d = elim (Bool-cases (leb m.seq n.seq)) [
  | inr gt ↦ let ih = where-insert_row test m ns h.1 d.1 in ground (arith, gt, ih)
  | inl le ↦
      let lt : m.seq < n.seq = let e = d.0 in ground (arith, le, e) in
      let front =
        insert_row-first m (where_rows test ns)
          (where_rows-All (λ k. m.seq < k.seq) test ns (All-map (λ k p. omega arith) ns h.0)) in
      ground (arith, le, front)
]

-- Rows can be selected before or after they are ordered.
pub where-order_by_seq :
    (test : MessageRow → Bool) (ms : List MessageRow)
    → DistinctSeqs ms
    → where_rows test (order_by_seq ms) ≡ order_by_seq (where_rows test ms)
unfolding order_by_seq where_rows
where-order_by_seq test [] d = refl
where-order_by_seq test (m ∷ ms) d =
    let a =
      where-insert_row test m (order_by_seq ms) (order_by_seq-Ascending ms d.1)
        (order_by_seq-All (λ n. m.seq ≢ n.seq) ms d.0) in
    let ih = where-order_by_seq test ms d.1 in ground (arith, a, ih)

insert_row-count :
    (m : MessageRow) (ns : List MessageRow) → count_of (insert_row m ns) ≡ suc (count_of ns)
unfolding insert_row count_of
insert_row-count m [] = refl
insert_row-count m (n ∷ ns) = ground (arith, insert_row-count m ns)

pub order_by_seq-count : (ms : List MessageRow) → count_of (order_by_seq ms) ≡ count_of ms
unfolding order_by_seq count_of
order_by_seq-count [] = refl
order_by_seq-count (m ∷ ms) =
    omega (arith, insert_row-count m (order_by_seq ms), order_by_seq-count ms)

pub count-length {ℓ} : {A : Type ℓ} (xs : List A) → count_of xs ≡ length xs
unfolding count_of
count-length [] = refl
count-length (x ∷ xs) = omega (arith, count-length xs)

pub where-where :
    (p q : MessageRow → Bool) (ms : List MessageRow)
    → where_rows p (where_rows q ms) ≡ where_rows (λ m. q m && p m) ms
unfolding where_rows
where-where p q [] = refl
where-where p q (m ∷ ms) = let ih = where-where p q ms in ground (arith, ih)
