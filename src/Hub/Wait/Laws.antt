-- ===== src/Hub/Wait/Laws.antt =====
-- What a wait reads of the new rows of a run, in one page and in several.
use acp_hub.Base.{
  ℕ, suc, ℤ, pos, le_int, max_int, le-max_int_right, ◌≤◌, ◌<◌, ◌^◌, ◌≡◌, ◌≢◌, refl, ap, sym, subst,
  ◌∙◌, true, false, List, [], ◌∷◌, ◌++◌, Option, none, some, String, if◌then◌else◌, leb, arith, All,
  All-append_left, inl, inr, ◌==◌, string_eq, ==_iff, bool_eq, option_eq, int_eq, get, Bool-cases,
  length, length-append,
}
use acp_hub.Flow.Json.{Bytes}
use acp_hub.Store.Messages.{MessageRow}
use acp_hub.Store.Cursor.{CursorCrypto, encode_message_cursor}
use acp_hub.Store.Paging.{
  MessagePage, page, failed, foreign_cursor, check_cursor, position_of, budgeted, take_rows,
  max_message_page_bytes, Projection, messages_page_query, last_row, after,
}
use acp_hub.Store.Paging.Pages.{
  IsUnique, last_row-All, rows_after, last_behind, bytes_of_rows, whole_page, length-page-le,
}
use acp_hub.Store.Paging.Walk.{IsPage}
use acp_hub.Store.Paging.Continue.{
  query, FitsPage, run_scope, Readable, page_lem, next_payload, decoded,
}
use acp_hub.Hub.Wait.{run_rows, page_failed, highest, page_loop, page_run_rows}

last-highest :
    (z : ℤ) (ms : List MessageRow) (last : MessageRow)
    → last_row ms ≡ some last
    → le_int (pos last.seq) (highest z ms) ≡ true
unfolding highest last_row
last-highest z [] last e = cc
last-highest z (m ∷ []) last e =
    let same : m ≡ last = ground (arith, e) in
    subst (λ k. le_int (pos k.seq) (max_int z (pos m.seq)) ≡ true) same
      (le-max_int_right z (pos m.seq))
last-highest z (m ∷ n ∷ ms) last e = last-highest (max_int z (pos m.seq)) (n ∷ ms) last e

-- A page with a row behind the start moves the sequence number.
highest-moves :
    (start : ℤ) (ms : List MessageRow) (last : MessageRow)
    → last_row ms ≡ some last
    → after (some start) last ≡ true
    → highest start ms ≢ start
unfolding after
highest-moves start ms last e behind same =
    let le = subst (λ z. le_int (pos last.seq) z ≡ true) same (last-highest start ms last e) in
    ground (arith, le, behind)

module _ (x : CursorCrypto) (octets : String → ℕ) (conv_id run_id : String) (start : ℤ)
    (generation : ℕ) (proj : Projection)
    (readable : Readable x octets (run_scope conv_id run_id) (some start) 200 generation)
    (there : get conv_id proj.generations ≡ some generation)
    (unique : IsUnique conv_id proj.table) where
  abbrev rows_of_run : List MessageRow
  rows_of_run = rows_after (run_scope conv_id run_id) proj.table (some start)

  -- The cursor of the first query does not belong to a query with another start.
  foreign :
      (seq : ℤ) (k : ℕ)
      → seq ≢ start
      → k < 2 ^ 63
      → messages_page_query x octets
          (query (run_scope conv_id run_id) (some seq) 200 (
            some (
              encode_message_cursor x
                (next_payload x octets (run_scope conv_id run_id) (some start) 200 generation k))))
          proj
        ≡ failed foreign_cursor
  unfolding messages_page_query position_of check_cursor
  foreign seq k moved small =
      let a =
        decoded x octets (run_scope conv_id run_id) (some start) 200 generation readable k small in
      let b : (some start == some seq) ≡ false = elim (Bool-cases (some start == some seq)) [
        | inr differs ↦ differs
        | inl equal ↦
            let same = (==_iff (some start) (some seq)).0 equal in
            absurd (moved (ground (arith, same)))
      ] in
      ground (arith, there, a, b)

  loop_last :
      (fuel : ℕ) (cursor : Option Bytes) (seq : ℤ) (out : List MessageRow) (pg : MessagePage)
      → messages_page_query x octets (query (run_scope conv_id run_id) (some seq) 200 cursor) proj
        ≡ page pg
      → pg.next_cursor ≡ none
      → page_loop x octets (suc fuel) (run_scope conv_id run_id) cursor seq out proj
        ≡ run_rows (out ++ pg.items)
  unfolding page_loop
  loop_last fuel cursor seq out pg e final = ground (arith, e, final)

  loop_next :
      (fuel : ℕ) (cursor : Option Bytes) (next : Bytes) (seq : ℤ) (out : List MessageRow)
      (pg : MessagePage)
      → messages_page_query x octets (query (run_scope conv_id run_id) (some seq) 200 cursor) proj
        ≡ page pg
      → pg.next_cursor ≡ some next
      → page_loop x octets (suc fuel) (run_scope conv_id run_id) cursor seq out proj
        ≡ page_loop x octets fuel
            (run_scope conv_id run_id)
            (some next)
            (highest seq pg.items)
            (out ++ pg.items)
            proj
  unfolding page_loop
  loop_next fuel cursor next seq out pg e more = ground (arith, e, more)

  loop_failed :
      (fuel : ℕ) (cursor : Option Bytes) (seq : ℤ) (out : List MessageRow)
      → messages_page_query x octets (query (run_scope conv_id run_id) (some seq) 200 cursor) proj
        ≡ failed foreign_cursor
      → page_loop x octets (suc fuel) (run_scope conv_id run_id) cursor seq out proj
        ≡ page_failed foreign_cursor
  unfolding page_loop
  loop_failed fuel cursor seq out e = ground (arith, e)

  continued_lem :
      (fuel : ℕ) (pg : MessagePage)
      → messages_page_query x octets (query (run_scope conv_id run_id) (some start) 200 none) proj
        ≡ page pg
      → IsPage x octets
          (query (run_scope conv_id run_id) (some start) 200 none)
          generation
          proj.table
          rows_of_run
          pg
      → All (FitsPage x octets) rows_of_run
      → 200 < length rows_of_run
      → page_run_rows x octets (suc (suc fuel)) conv_id run_id start proj
        ≡ page_failed foreign_cursor
  unfolding page_run_rows
  continued_lem fuel pg e shown fits many =
      let sizes = length-append pg.items shown.rest in
      let parts = ap length shown.split in
      let bound = length-page-le x octets 200 0 rows_of_run in
      let taken : length pg.items ≡ length (budgeted x octets 0 (take_rows 200 rows_of_run)) =
        ap length shown.taken in
      elim shown.continued [
        | inl (over, _) ↦
            let empty : length shown.rest ≡ 0 = ap length over in
            absurd (omega (arith, empty, sizes, parts, bound, taken, many))
        | inr (last, at, next, behind, _, _) ↦
            let later =
              last_behind (run_scope conv_id run_id) proj.table (some start) pg.items shown.rest
                last unique shown.split at in
            let small =
              (last_row-All (FitsPage x octets) pg.items last
                (All-append_left (FitsPage x octets) pg.items shown.rest
                  (subst (All (FitsPage x octets)) (sym shown.split) fits))
                at).1 in
            loop_next (suc fuel) none
              (encode_message_cursor x (
                next_payload x octets (run_scope conv_id run_id) (some start) 200 generation
                  last.seq))
              start [] pg e next
            ∙ loop_failed fuel
                (some (
                  encode_message_cursor x (
                    next_payload x octets (run_scope conv_id run_id) (some start) 200 generation
                      last.seq)))
                (highest start pg.items) pg.items
                (foreign (highest start pg.items) last.seq
                  (highest-moves start pg.items last at later) small)
      ]

  whole_lem :
      (fuel : ℕ) (pg : MessagePage)
      → messages_page_query x octets (query (run_scope conv_id run_id) (some start) 200 none) proj
        ≡ page pg
      → IsPage x octets
          (query (run_scope conv_id run_id) (some start) 200 none)
          generation
          proj.table
          rows_of_run
          pg
      → length rows_of_run ≤ 200
      → bytes_of_rows x octets rows_of_run ≤ max_message_page_bytes
      → page_run_rows x octets (suc fuel) conv_id run_id start proj ≡ run_rows rows_of_run
  unfolding page_run_rows
  whole_lem fuel pg e shown few small =
      let all_rows : pg.items ≡ rows_of_run =
        shown.taken ∙ whole_page x octets 200 0 rows_of_run few (omega (arith, small)) in
      let sizes = length-append pg.items shown.rest in
      let parts = ap length shown.split in
      let measured = ap length all_rows in
      elim shown.continued [
        | inl (over, final) ↦ loop_last fuel none start [] pg e final ∙ ap run_rows all_rows
        | inr (last, at, next, behind, shorter, more) ↦
            absurd (omega (arith, sizes, parts, measured, more))
      ]

  -- The rows of a run that fit one page.
  page_run_rows-whole :
      (fuel : ℕ)
      → All (FitsPage x octets) rows_of_run
      → length rows_of_run ≤ 200
      → bytes_of_rows x octets rows_of_run ≤ max_message_page_bytes
      → page_run_rows x octets (suc fuel) conv_id run_id start proj ≡ run_rows rows_of_run
  page_run_rows-whole fuel fits few small =
      let (pg, e, shown) =
        page_lem x octets (run_scope conv_id run_id) (some start) 200 generation proj none
          (some start) readable there unique (omega arith) fits (inl (refl, refl)) in
      whole_lem fuel pg e shown few small

  -- The rows of a run that need a second page.
  page_run_rows-continued :
      (fuel : ℕ)
      → All (FitsPage x octets) rows_of_run
      → 200 < length rows_of_run
      → page_run_rows x octets (suc (suc fuel)) conv_id run_id start proj
        ≡ page_failed foreign_cursor
  page_run_rows-continued fuel fits many =
      let (pg, e, shown) =
        page_lem x octets (run_scope conv_id run_id) (some start) 200 generation proj none
          (some start) readable there unique (omega arith) fits (inl (refl, refl)) in
      continued_lem fuel pg e shown fits many

  -- In a conversation that is there, whose messages have distinct numbers, where the cursors of the query are
  -- read back as they were written, and the rows of the run have numbers of SQLite and fit a page, each and
  -- together: with fuel for two pages, `page_run_rows` gives all rows of the run behind the start, in order, if
  -- these are at most 200. If there are more, it fails, since its second query has another start than the cursor
  -- of the first.
  pub page_run_rows_lem :
      (fuel : ℕ)
      → All (FitsPage x octets) rows_of_run
      → bytes_of_rows x octets rows_of_run ≤ max_message_page_bytes
      → page_run_rows x octets (suc (suc fuel)) conv_id run_id start proj ≡ (
          if leb (length rows_of_run) 200 then run_rows rows_of_run else page_failed foreign_cursor)
  page_run_rows_lem fuel fits small = elim (Bool-cases (leb (length rows_of_run) 200)) [
    | inl few ↦ rw few (page_run_rows-whole (suc fuel) fits (ground (arith, few)) small)
    | inr many ↦ rw many (page_run_rows-continued fuel fits (ground (arith, many)))
  ]
