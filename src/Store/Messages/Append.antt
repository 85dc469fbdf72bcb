-- ===== src/Store/Messages/Append.antt =====
-- A new message comes last in its conversation, and no number is given twice.
use acp_hub.Base.{
  ◌+◌, ◌≤◌, ◌<◌, ◌≡◌, ◌≢◌, refl, ap, sym, subst, ◌∙◌, Bool, true, false, ◌&&◌, List, [], ◌∷◌, ◌++◌,
  String, if◌then◌else◌, arith, All, All-append, append-nil, ◌⊎◌, All-map, Bool-cases, inl, inr,
  ◌==◌, string_eq, ==_iff, Map, contains_key,
}
use acp_hub.Store.Messages.{
  MessageRow, NewMessage, where_rows, insert_row, order_by_seq, in_conversation, messages,
  max_message_seq, has_message, refers, new_row, append_message,
}
use acp_hub.Store.Messages.Order.{DistinctSeqs}

-- Every number of a conversation is at most its largest.
pub max_message_seq-All :
    (conv : String) (table : List MessageRow)
    → All (λ m. (m.conv_id == conv) ≡ true → m.seq ≤ max_message_seq conv table) table
unfolding max_message_seq
max_message_seq-All conv [] = tt
max_message_seq-All conv (m ∷ ms) = (
  λ own. ground (arith, own),
  All-map (λ k le own. let h = le own in ground (arith, h)) ms (max_message_seq-All conv ms),
)

where_rows-kept :
    (P : MessageRow → Type 0) (test : MessageRow → Bool) (ms : List MessageRow)
    → All (λ m. test m ≡ true → P m) ms
    → All P (where_rows test ms)
unfolding where_rows
where_rows-kept P test [] h = tt
where_rows-kept P test (m ∷ ms) h = elim (Bool-cases (test m)) [
  | inl kept ↦ rw kept (h.0 kept, where_rows-kept P test ms h.1)
  | inr left ↦ rw left (where_rows-kept P test ms h.1)
]

-- The numbers of a conversation are below the next one.
where-below :
    (test : MessageRow → Bool) (conv : String) (table : List MessageRow)
    → ((m : MessageRow) → test m ≡ true → (m.conv_id == conv) ≡ true)
    → All (λ m. m.seq < max_message_seq conv table + 1) (where_rows test table)
where-below test conv table own =
    where_rows-kept (λ m. m.seq < max_message_seq conv table + 1) test table
      (All-map (λ m le h. let a = own m h in let b = le a in omega (arith, b)) table
        (max_message_seq-All conv table))

pub where_rows-append :
    (test : MessageRow → Bool) (xs ys : List MessageRow)
    → where_rows test (xs ++ ys) ≡ where_rows test xs ++ where_rows test ys
unfolding where_rows
where_rows-append test [] ys = refl
where_rows-append test (x ∷ xs) ys = let ih = where_rows-append test xs ys in ground (arith, ih)

insert_row-last :
    (m n : MessageRow) (ms : List MessageRow)
    → m.seq < n.seq
    → insert_row m (ms ++ (n ∷ [])) ≡ insert_row m ms ++ (n ∷ [])
unfolding insert_row
insert_row-last m n [] lt = ground (arith, lt)
insert_row-last m n (k ∷ ms) lt = let ih = insert_row-last m n ms lt in ground (arith, ih)

order_by_seq-last :
    (n : MessageRow) (ms : List MessageRow)
    → All (λ m. m.seq < n.seq) ms
    → order_by_seq (ms ++ (n ∷ [])) ≡ order_by_seq ms ++ (n ∷ [])
unfolding order_by_seq
order_by_seq-last n [] h = unfold insert_row in refl
order_by_seq-last n (m ∷ ms) h =
    ap (insert_row m) (order_by_seq-last n ms h.1) ∙ insert_row-last m n (order_by_seq ms) h.0

DistinctSeqs-last :
    (n : MessageRow) (ms : List MessageRow)
    → All (λ m. m.seq < n.seq) ms
    → DistinctSeqs ms
    → DistinctSeqs (ms ++ (n ∷ []))
DistinctSeqs-last n [] h d = (tt, tt)
DistinctSeqs-last n (m ∷ ms) h d =
    let lt = h.0 in
    (
      All-append (λ k. m.seq ≢ k.seq) ms (n ∷ []) d.0 ((λ e. omega (arith, lt, e)), tt),
      DistinctSeqs-last n ms h.1 d.1,
    )

module _ {ℓ κ} {C : Type ℓ} {R : Type κ} (conversations : Map String C) (runs : Map String R)
    (m : NewMessage) (now : String) (table : List MessageRow) where
  abbrev pub new : MessageRow
  new = new_row m (max_message_seq m.conv_id table + 1) now

  append_message_cases :
      ((append_message conversations runs m now table).0 ≡ table)
      ⊎ ((append_message conversations runs m now table).0 ≡ table ++ (new ∷ []))
  unfolding append_message
  append_message_cases = elim (Bool-cases (has_message m.id table)) [
    | inl known ↦ inl (ground (arith, known))
    | inr fresh ↦ elim (Bool-cases (contains_key m.conv_id conversations && refers m.run_id runs)) [
      | inl right ↦ inr (ground (arith, fresh, right))
      | inr wrong ↦ inl (ground (arith, fresh, wrong))
    ]
  ]

  -- The rows of a conversation with the new one.
  with_new :
      (conv : String)
      → DistinctSeqs (where_rows (λ k. k.conv_id == conv) table)
      → DistinctSeqs (
          where_rows (λ k. k.conv_id == conv) table
          ++ where_rows (λ k. k.conv_id == conv) (new ∷ []))
  with_new conv d = elim (Bool-cases (m.conv_id == conv)) [
    | inl own ↦
        let kept : where_rows (λ k. k.conv_id == conv) (new ∷ []) ≡ new ∷ [] =
          unfold where_rows in ground (arith, own) in
        let same = (==_iff m.conv_id conv).0 own in
        let below =
          where-below (λ k. k.conv_id == conv) m.conv_id table
            (λ k h. subst (λ c. (k.conv_id == c) ≡ true) (sym same) h) in
        rw kept (DistinctSeqs-last new (where_rows (λ k. k.conv_id == conv) table) below d)
    | inr other ↦
        let left : where_rows (λ k. k.conv_id == conv) (new ∷ []) ≡ [] =
          unfold where_rows in ground (arith, other) in
        rw left
          (subst DistinctSeqs (sym (append-nil (where_rows (λ k. k.conv_id == conv) table))) d)
  ]

  -- Where the new row stands in the order of a conversation.
  placed :
      (conv : String) (audit : Bool)
      → order_by_seq (
          where_rows (in_conversation conv audit) table
          ++ where_rows (in_conversation conv audit) (new ∷ []))
        ≡ order_by_seq (where_rows (in_conversation conv audit) table)
          ++ (if m.conv_id == conv then new ∷ [] else [])
  placed conv audit = elim (Bool-cases (m.conv_id == conv)) [
    | inl own ↦
        let kept : where_rows (in_conversation conv audit) (new ∷ []) ≡ new ∷ [] =
          unfold where_rows in_conversation in ground (arith, own) in
        let same = (==_iff m.conv_id conv).0 own in
        let below = where-below (in_conversation conv audit) m.conv_id table (λ k h.
          let e : (k.conv_id == conv) ≡ true = unfold in_conversation in ground (arith, h) in
          subst (λ c. (k.conv_id == c) ≡ true) (sym same) e) in
        rw (own, kept) (order_by_seq-last new (where_rows (in_conversation conv audit) table) below)
    | inr other ↦
        let left : where_rows (in_conversation conv audit) (new ∷ []) ≡ [] =
          unfold where_rows in_conversation in ground (arith, other) in
        rw (other, left)
          (ap order_by_seq (append-nil (where_rows (in_conversation conv audit) table))
            ∙ sym (append-nil (order_by_seq (where_rows (in_conversation conv audit) table))))
  ]

  -- The messages of each conversation after an append.
  append_message-messages :
      (conv : String) (audit : Bool)
      → has_message m.id table ≡ false
      → contains_key m.conv_id conversations ≡ true
      → refers m.run_id runs ≡ true
      → messages conv audit (append_message conversations runs m now table).0
        ≡ messages conv audit table ++ (if m.conv_id == conv then new ∷ [] else [])
  append_message-messages conv audit fresh there ran =
      let result : (append_message conversations runs m now table).0 ≡ table ++ (new ∷ []) =
        unfold append_message in ground (arith, fresh, there, ran) in
      ap (messages conv audit) result
      ∙ (unfold messages in
          ap order_by_seq (where_rows-append (in_conversation conv audit) table (new ∷ []))
          ∙ placed conv audit)

  -- No branch of an append gives two messages of a conversation the same number.
  append_message-IsUnique :
      (conv : String)
      → DistinctSeqs (where_rows (λ k. k.conv_id == conv) table)
      → DistinctSeqs
          (where_rows (λ k. k.conv_id == conv) (append_message conversations runs m now table).0)
  append_message-IsUnique conv d = elim append_message_cases [
    | inl same ↦ subst (λ t. DistinctSeqs (where_rows (λ k. k.conv_id == conv) t)) (sym same) d
    | inr longer ↦
        subst (λ t. DistinctSeqs (where_rows (λ k. k.conv_id == conv) t)) (sym longer)
          (subst DistinctSeqs (sym (where_rows-append (λ k. k.conv_id == conv) table (new ∷ [])))
            (with_new conv d))
  ]

  -- A new message of a conversation and a run that exist comes last among the messages of its conversation,
  -- with or without those of the audit, the messages of other conversations stay as they are, and the numbers
  -- in a conversation stay distinct.
  pub append_message_lem :
      (conv : String) (audit : Bool)
      → has_message m.id table ≡ false
      → contains_key m.conv_id conversations ≡ true
      → refers m.run_id runs ≡ true
      → DistinctSeqs (where_rows (λ k. k.conv_id == conv) table)
      → (messages conv audit (append_message conversations runs m now table).0
          ≡ messages conv audit table ++ (if m.conv_id == conv then new ∷ [] else []))
        × DistinctSeqs
            (where_rows (λ k. k.conv_id == conv) (append_message conversations runs m now table).0)
  append_message_lem conv audit fresh there ran d =
      (append_message-messages conv audit fresh there ran, append_message-IsUnique conv d)
