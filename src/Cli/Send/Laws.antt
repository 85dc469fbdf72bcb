-- ===== src/Cli/Send/Laws.antt =====
-- The loop over the pages of a run ends, with all its rows.
use acp_hub.Base.{
  ℕ, suc, ℤ, pos, le_int, le_int_trans, ◌<◌, ◌^◌, ◌≡◌, refl, ap, sym, subst, ◌∙◌, Bool, true, false,
  List, [], ◌∷◌, ◌++◌, Option, none, some, String, eqb, arith, All, All-append_left, inl, inr, ◌==◌,
  string_eq, ==_iff, bool_eq, option_eq, int_eq, list_eq, nat_eq, get, Bool-cases, length,
  append-nil, append_assoc, All-append_right,
}
use acp_hub.Flow.Json.{Bytes}
use acp_hub.Store.Messages.{MessageRow, count_of}
use acp_hub.Store.Cursor.{
  CursorCrypto, payload, Decoded, encode_message_cursor, decode_message_cursor,
}
use acp_hub.Store.Paging.{MessagePage, page, Projection, messages_page_query, after}
use acp_hub.Store.Paging.Pages.{IsUnique, last_row-All, rows_after, last_behind}
use acp_hub.Store.Paging.Walk.{IsPage}
use acp_hub.Store.Paging.Continue.{
  query, FitsPage, run_scope, Resumes, Readable, page_lem, outside, after-outside, next_payload,
  decoded,
}
use acp_hub.Store.Transcript.{ViewMessage, Reading, send_run, merge_transcript_with}
use acp_hub.Store.Transcript.Laws.{Covers, merge_transcript_with-send_run}
use acp_hub.Cli.Send.{
  OutputLine, collected, printed, collect_pages, emit_items, emit_merged_send_view,
  emit_new_message_pages,
}
use acp_hub.Cli.Send.Shown.{Printed, emit_items-Printed}

-- A row behind a key of a query is behind the start of the query.
after-up :
    (start : ℤ) (k : ℕ) (last : MessageRow)
    → outside (some start) k ≡ false
    → after (some (pos k)) last ≡ true
    → after (some start) last ≡ true
unfolding after
after-up start k last inside at = elim (Bool-cases (le_int (pos last.seq) start)) [
  | inr later ↦ ground (arith, later)
  | inl before ↦
      let le : le_int (pos k) (pos last.seq) ≡ true = ground (arith, at) in
      let wrong = le_int_trans (pos k) (pos last.seq) start le before in
      absurd (ground (arith, wrong, inside))
]

key_of : Decoded → ℤ
key_of (payload p) = p.last_key
key_of _ = pos 0

module _ (x : CursorCrypto) (octets : String → ℕ) (conv_id run_id : String) (start : ℤ)
    (generation : ℕ) (proj : Projection)
    (readable : Readable x octets (run_scope conv_id run_id) (some start) 200 generation)
    (there : get conv_id proj.generations ≡ some generation)
    (unique : IsUnique conv_id proj.table) where
  abbrev remaining : Option ℤ → List MessageRow
  remaining position = rows_after (run_scope conv_id run_id) proj.table position

  abbrev cursor_at : ℕ → Bytes
  cursor_at k =
      encode_message_cursor x
        (next_payload x octets (run_scope conv_id run_id) (some start) 200 generation k)

  -- Cursors at different keys differ.
  cursor_inj : (k l : ℕ) → k < 2 ^ 63 → l < 2 ^ 63 → cursor_at k ≡ cursor_at l → k ≡ l
  unfolding key_of
  cursor_inj k l few less e =
      let a =
        decoded x octets (run_scope conv_id run_id) (some start) 200 generation readable k few in
      let b =
        decoded x octets (run_scope conv_id run_id) (some start) 200 generation readable l less in
      let same : pos k ≡ pos l = ap key_of (sym a ∙ ap (decode_message_cursor x) e ∙ b) in
      ground (arith, same)

  count-nil : (ms : List MessageRow) → count_of ms ≡ 0 → ms ≡ []
  unfolding count_of
  count-nil [] h = refl
  count-nil (m ∷ ms) h = absurd (omega arith)

  -- The loop at its last page.
  final_page :
      (fuel : ℕ) (cursor : Option Bytes) (rows : List MessageRow) (pg : MessagePage)
      → messages_page_query x octets (query (run_scope conv_id run_id) (some start) 200 cursor) proj
        ≡ page pg
      → pg.next_cursor ≡ none
      → collect_pages x octets (suc fuel) conv_id run_id start cursor rows proj
        ≡ collected (rows ++ pg.items)
  unfolding collect_pages
  final_page fuel cursor rows pg e final = elim (Bool-cases (eqb (count_of pg.items) 0)) [
    | inl empty ↦
        let none_left : pg.items ≡ [] = count-nil pg.items (ground (arith, empty)) in
        let same : rows ++ pg.items ≡ rows = ap (λ ms. rows ++ ms) none_left ∙ append-nil rows in
        rw (same) (ground (arith, e, final, empty))
    | inr more ↦ ground (arith, e, final, more)
  ]

  -- The loop at a page that is continued.
  next_page :
      (fuel : ℕ) (cursor : Option Bytes) (next : Bytes) (rows : List MessageRow) (pg : MessagePage)
      → messages_page_query x octets (query (run_scope conv_id run_id) (some start) 200 cursor) proj
        ≡ page pg
      → pg.next_cursor ≡ some next
      → (some next == cursor) ≡ false
      → collect_pages x octets (suc fuel) conv_id run_id start cursor rows proj
        ≡ collect_pages x octets fuel conv_id run_id start (some next) (rows ++ pg.items) proj
  unfolding collect_pages
  next_page fuel cursor next rows pg e more differs = ground (arith, e, more, differs)

  -- The cursor of the next page is another one.
  advances :
      (cursor : Option Bytes) (position : Option ℤ) (last : MessageRow)
      → Resumes x octets (run_scope conv_id run_id) (some start) 200 generation cursor position
      → after position last ≡ true
      → last.seq < 2 ^ 63
      → (some (cursor_at last.seq) == cursor) ≡ false
  unfolding after
  advances cursor position last (inl (e, f)) behind small = rw e refl
  advances cursor position last (inr (k, e, f, inside, few)) behind small =
      elim (Bool-cases (some (cursor_at last.seq) == cursor)) [
        | inr differs ↦ differs
        | inl same ↦
            let own : some (cursor_at last.seq) ≡ cursor =
              (==_iff (some (cursor_at last.seq)) cursor).0 same in
            let keys = cursor_inj last.seq k small few (ground (arith, own, e)) in
            absurd (ground (arith, keys, behind, f))
      ]

  -- The loop with this much fuel ends with all rows that remain.
  abbrev Collects : ℕ → Type 0
  Collects fuel =
      (cursor : Option Bytes) (position : Option ℤ) (rows : List MessageRow)
      → Resumes x octets (run_scope conv_id run_id) (some start) 200 generation cursor position
      → All (FitsPage x octets) (remaining position)
      → length (remaining position) < fuel
      → collect_pages x octets fuel conv_id run_id start cursor rows proj
        ≡ collected (rows ++ remaining position)

  -- A row behind the position is not outside of the query.
  last_inside :
      (cursor : Option Bytes) (position : Option ℤ) (last : MessageRow)
      → Resumes x octets (run_scope conv_id run_id) (some start) 200 generation cursor position
      → after position last ≡ true
      → outside (some start) last.seq ≡ false
  last_inside cursor position last (inl (e, f)) behind =
      after-outside (some start) last (subst (λ p. after p last ≡ true) f behind)
  last_inside cursor position last (inr (k, e, f, inside, few)) behind =
      let at : after (some (pos k)) last ≡ true = subst (λ p. after p last ≡ true) f behind in
      after-outside (some start) last (after-up start k last inside at)

  -- What follows a page.
  collect_rest :
      (fuel : ℕ)
      → Collects fuel
      → (cursor : Option Bytes) (position : Option ℤ) (rows : List MessageRow)
      → Resumes x octets (run_scope conv_id run_id) (some start) 200 generation cursor position
      → All (FitsPage x octets) (remaining position)
      → length (remaining position) < suc fuel
      → (pg : MessagePage)
      → messages_page_query x octets (query (run_scope conv_id run_id) (some start) 200 cursor) proj
        ≡ page pg
      → IsPage x octets
          (query (run_scope conv_id run_id) (some start) 200 none)
          generation
          proj.table
          (remaining position)
          pg
      → collect_pages x octets (suc fuel) conv_id run_id start cursor rows proj
        ≡ collected (rows ++ remaining position)
  collect_rest fuel again cursor position rows resumes fits less pg e shown = elim shown.continued [
    | inl (over, final) ↦
        let all_rows : pg.items ≡ remaining position =
          sym (append-nil pg.items) ∙ ap (λ ms. pg.items ++ ms) (sym over) ∙ shown.split in
        final_page fuel cursor rows pg e final ∙ ap (λ ms. collected (rows ++ ms)) all_rows
    | inr (last, at, next, behind, shorter, _) ↦
        let later =
          last_behind (run_scope conv_id run_id) proj.table position pg.items shown.rest last unique
            shown.split at in
        let small =
          (last_row-All (FitsPage x octets) pg.items last
            (All-append_left (FitsPage x octets) pg.items shown.rest
              (subst (All (FitsPage x octets)) (sym shown.split) fits))
            at).1 in
        let step =
          next_page fuel cursor (cursor_at last.seq) rows pg e next
            (advances cursor position last resumes later small) in
        let left : All (FitsPage x octets) (remaining (some (pos last.seq))) =
          subst (All (FitsPage x octets)) behind (
            All-append_right (FitsPage x octets) pg.items shown.rest
              (subst (All (FitsPage x octets)) (sym shown.split) fits)) in
        let inside = last_inside cursor position last resumes later in
        let sizes = ap length behind in
        step
        ∙ again (some (cursor_at last.seq)) (some (pos last.seq)) (rows ++ pg.items)
            (inr (last.seq, refl, refl, inside, small)) left (omega (arith, sizes, shorter, less))
        ∙ ap collected (
            append_assoc rows pg.items (remaining (some (pos last.seq)))
            ∙ ap (λ ms. rows ++ (pg.items ++ ms)) (sym behind)
            ∙ ap (λ ms. rows ++ ms) shown.split)
  ]

  collect_pages_lem : (fuel : ℕ) → Collects fuel
  collect_pages_lem ℕ.zero cursor position rows resumes fits less = absurd (omega (arith, less))
  collect_pages_lem (suc fuel) cursor position rows resumes fits less =
      let (pg, e, shown) =
        page_lem x octets (run_scope conv_id run_id) (some start) 200 generation proj cursor
          position readable there unique (omega arith) fits resumes in
      collect_rest fuel (collect_pages_lem fuel) cursor position rows resumes fits less pg e shown

  emit_collected :
      {S : Type 0} (reading : Reading S) (fuel : ℕ) (json_output : Bool) (rows : List MessageRow)
      → collect_pages x octets fuel conv_id run_id start none [] proj ≡ collected rows
      → emit_new_message_pages x octets reading fuel conv_id run_id start json_output proj
        ≡ printed (emit_merged_send_view reading rows json_output)
  unfolding emit_new_message_pages
  emit_collected reading fuel json_output rows e = ground (arith, e)

  -- In a conversation that is there, whose messages have distinct numbers, where the cursors of the query are
  -- read back as they were written and each row of the run fits a page and has a number of SQLite: with more
  -- fuel than there are rows, `emit_new_message_pages` ends. Items of a transcript stand for all rows of the run
  -- behind the start, in order, and their lines are printed in order: the item in JSON mode, its line for people
  -- otherwise, perhaps behind an empty line for a tool call. Left out are exactly the items with the role of a
  -- user, those whose body is nothing but space, and, for people, those without a line.
  pub emit_new_message_pages_lem :
      {S : Type 0} (reading : Reading S) (fuel : ℕ) (json_output : Bool)
      → All (FitsPage x octets) (remaining (some start))
      → length (remaining (some start)) < fuel
      → (items : List ViewMessage) × (out : List OutputLine) × (emit_new_message_pages x octets
            reading fuel conv_id run_id start json_output proj
          ≡ printed out)
        × Covers reading items (remaining (some start)) []
        × Printed json_output items out
  unfolding emit_merged_send_view
  emit_new_message_pages_lem reading fuel json_output fits less =
      let rows = remaining (some start) in
      let e = collect_pages_lem fuel none (some start) [] (inl (refl, refl)) fits less in
      let items = (merge_transcript_with reading rows send_run).items in
      (
        items,
        emit_items json_output false items,
        emit_collected reading fuel json_output rows e,
        (merge_transcript_with-send_run reading rows).1,
        emit_items-Printed json_output false items,
      )
