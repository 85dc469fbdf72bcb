-- ===== src/Store/Paging/Walk.antt =====
-- The pages of a query, one after the other, are its rows.
use acp_hub.Base.{
  ℕ, suc, ℤ, pos, ◌≤◌, ◌<◌, ◌≡◌, refl, ap, sym, subst, ◌∙◌, false, ◌&&◌, List, [], ◌∷◌, ◌++◌,
  Option, none, some, String, ltb, eqb, min, arith, All, append_assoc, length-append, Bool-cases,
  inl, inr, ◌⊎◌, length, string_eq, bool_eq, option_eq, int_eq,
}
use acp_hub.Store.Messages.{MessageRow, where_rows, order_by_seq, count_of}
use acp_hub.Store.Messages.Order.{order_by_seq-count, count-length}
use acp_hub.Store.Cursor.{CursorCrypto, encode_message_cursor}
use acp_hub.Store.Paging.{
  MessagePageQuery, MessagePage, page, scope_of, selected, take_rows, drop_rows, last_row,
  row_bytes, budgeted, max_message_page_bytes, max_message_page_rows, continuation, next_cursor_of,
  next_offset_of, page_at,
}
use acp_hub.Store.Paging.Pages.{
  IsUnique, IsFront, rows_after, rest_lem, budgeted-IsFront, take_rows-IsFront,
}

last_row-some :
    (m : MessageRow) (ms : List MessageRow) → (last : MessageRow) × (last_row (m ∷ ms) ≡ some last)
unfolding last_row
last_row-some m [] = (m, refl)
last_row-some m (n ∷ ms) = last_row-some n ms

count-zero : (ms : List MessageRow) → count_of ms ≡ 0 → ms ≡ []
unfolding count_of
count-zero [] h = refl
count-zero (m ∷ ms) h = absurd (omega arith)

length-zero : (ms : List MessageRow) → length ms ≡ 0 → ms ≡ []
length-zero [] h = refl
length-zero (m ∷ ms) h = absurd (omega arith)

module _ (x : CursorCrypto) (octets : String → ℕ) where
  -- A page of the rows that a scope has: its rows are the first ones, and its cursor is there exactly if
  -- there are more, which are the rows behind its last one.
  pub record IsPage (q : MessagePageQuery) (generation : ℕ) (table rows : List MessageRow)
      (pg : MessagePage) : Type 0 where
    pub rest : List MessageRow
    pub taken : pg.items ≡ budgeted x octets 0 (take_rows (min q.limit max_message_page_rows) rows)
    pub split : pg.items ++ rest ≡ rows
    pub continued :
        ((rest ≡ []) × (pg.next_cursor ≡ none))
        ⊎ ((last : MessageRow) × (last_row pg.items ≡ some last)
            × (pg.next_cursor
                ≡ some (encode_message_cursor x (continuation x octets q generation last.seq)))
            × (rest ≡ rows_after (scope_of q) table (some (pos last.seq)))
            × (length rest < length rows)
            × (0 < length rest))

  -- The items of a page at a position, without an offset.
  abbrev items_at : MessagePageQuery → List MessageRow → Option ℤ → List MessageRow
  items_at q table position =
      budgeted x octets 0
        (take_rows (min q.limit max_message_page_rows) (rows_after (scope_of q) table position))

  items_at-IsFront :
      (q : MessagePageQuery) (table : List MessageRow) (position : Option ℤ)
      → IsFront (items_at q table position) (rows_after (scope_of q) table position)
  items_at-IsFront q table position =
      let rows = rows_after (scope_of q) table position in
      let f = take_rows-IsFront (min q.limit max_message_page_rows) rows in
      let g = budgeted-IsFront x octets 0 (take_rows (min q.limit max_message_page_rows) rows) in
      record {
        rest = g.rest ++ f.rest;
        split =
            sym (append_assoc (items_at q table position) g.rest f.rest)
            ∙ ap (λ ms. ms ++ f.rest) g.split
            ∙ f.split;
      }

  -- A page of rows that fit is not empty.
  page_progress :
      (n : ℕ) (rows : List MessageRow)
      → 0 < n
      → All (λ m. row_bytes x octets m ≤ max_message_page_bytes) rows
      → budgeted x octets 0 (take_rows n rows) ≡ []
      → rows ≡ []
  unfolding budgeted take_rows
  page_progress n [] h f e = refl
  page_progress ℕ.zero (m ∷ rows) h f e = absurd (omega (arith, h))
  page_progress (suc n) (m ∷ rows) h f e = let fits = f.0 in absurd (ground (arith, fits, e))

  continued_at :
      (q : MessagePageQuery) (generation : ℕ) (table : List MessageRow) (position : Option ℤ)
      (items rest : List MessageRow)
      → IsUnique q.conv_id table
      → items ++ rest ≡ rows_after (scope_of q) table position
      → (items ≡ [] → rest ≡ [])
      → ((rest ≡ []) × (next_cursor_of x octets q generation table items ≡ none))
        ⊎ ((last : MessageRow) × (last_row items ≡ some last)
            × (next_cursor_of x octets q generation table items
                ≡ some (encode_message_cursor x (continuation x octets q generation last.seq)))
            × (rest ≡ rows_after (scope_of q) table (some (pos last.seq)))
            × (length rest < length (rows_after (scope_of q) table position))
            × (0 < length rest))
  unfolding next_cursor_of
  continued_at q generation table position [] rest u split stop =
      inl (stop refl, unfold last_row in refl)
  continued_at q generation table position (m ∷ items) rest u split stop =
      let (last, e) = last_row-some m items in
      let behind = rest_lem (scope_of q) table position (m ∷ items) rest last u split e in
      let counted : count_of (where_rows (selected (scope_of q) (some (pos last.seq))) table)
          ≡ length rest =
        sym (order_by_seq-count (where_rows (selected (scope_of q) (some (pos last.seq))) table))
        ∙ count-length (rows_after (scope_of q) table (some (pos last.seq)))
        ∙ ap length (sym behind) in
      let shorter = length-append (m ∷ items) rest in
      let sizes = ap length split in
      elim (Bool-cases (eqb (length rest) 0)) [
        | inl over ↦ inl (length-zero rest (ground (arith, over)), ground (arith, e, counted, over))
        | inr more ↦
            inr
              (last, e, ground (arith, e, counted, more), behind, omega arith, ground (arith, more))
      ]

  -- A page at a position, of a query without an offset, over rows that fit a page each.
  pub page_at_lem :
      (q : MessagePageQuery) (generation : ℕ) (table : List MessageRow) (position : Option ℤ)
      → IsUnique q.conv_id table
      → q.offset ≡ 0
      → 0 < q.limit
      → All
          (λ m. row_bytes x octets m ≤ max_message_page_bytes)
          (rows_after (scope_of q) table position)
      → (pg : MessagePage) × (page_at x octets q generation table position ≡ page pg)
        × IsPage q generation table (rows_after (scope_of q) table position) pg
  unfolding page_at
  page_at_lem q generation table position u offset limit fits =
      let items = items_at q table position in
      let front = items_at-IsFront q table position in
      let rows = where_rows (selected (scope_of q) position) table in
      let total = count_of (where_rows (selected (scope_of q) q.after_seq) table) in
      let drop : drop_rows q.offset (order_by_seq rows) ≡ order_by_seq rows =
        subst (λ n. drop_rows n (order_by_seq rows) ≡ order_by_seq rows) (sym offset)
          (unfold drop_rows in refl) in
      let stop =
        page_progress (min q.limit max_message_page_rows) (order_by_seq rows)
          (ground (arith, limit)) fits in
      let guard : (eqb (count_of items) 0 && ltb q.offset (count_of rows)) ≡ false =
        elim (Bool-cases (eqb (count_of items) 0)) [
          | inr more ↦ ground (arith, more)
          | inl empty ↦
              let sizes = ap length (stop (count-zero items (ground (arith, empty)))) in
              let counts = order_by_seq-count rows in
              let measured = count-length (order_by_seq rows) in
              ground (arith, empty, sizes, counts, measured)
        ] in
      let pg : MessagePage = record {
        items = items;
        next_cursor = next_cursor_of x octets q generation table items;
        next_offset = next_offset_of x octets q total items;
        total = total;
      } in
      (
        pg,
        ground (arith, drop, guard, offset),
        record {
          rest = front.rest;
          taken = refl;
          split = front.split;
          continued =
              continued_at q generation table position items front.rest u front.split
                (λ e. sym (ap (λ ms. ms ++ front.rest) e) ∙ front.split ∙ stop e);
        },
      )
