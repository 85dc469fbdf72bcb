-- ===== src/Store/Paging/Continue.antt =====
-- A query that is continued with the cursor of its last page.
use acp_hub.Base.{
  ℕ, ℤ, pos, le_int, All-map, ◌≤◌, ◌<◌, ◌^◌, ◌≡◌, refl, Bool, true, false, Option, none, some,
  String, arith, All, inl, inr, ◌⊎◌, string_eq, ==_refl, bool_eq, option_eq, int_eq, Option-cases,
  get,
}
use acp_hub.Flow.Json.{Bytes}
use acp_hub.Store.Messages.{MessageRow}
use acp_hub.Store.Cursor.{
  MessageCursorPayload, CursorCrypto, payload, encode_message_cursor, decode_message_cursor,
}
use acp_hub.Store.Cursor.Laws.{IsReadable, decode-encode}
use acp_hub.Store.Paging.{
  MessagePageQuery, MessagePage, page, Scope, after, row_bytes, max_message_page_bytes,
  continuation, position_of, check_cursor, Projection, messages_page_query,
}
use acp_hub.Store.Paging.Pages.{IsUnique, rows_after}
use acp_hub.Store.Paging.Walk.{IsPage, page_at_lem}

-- A query without an offset.
abbrev pub query : Scope → Option ℤ → ℕ → Option Bytes → MessagePageQuery
query s start limit cursor = record {
  conv_id = s.conv_id;
  include_audit = s.include_audit;
  run_id = s.run_id;
  after_seq = start;
  cursor = cursor;
  limit = limit;
  offset = 0;
}

-- The visible rows of a run.
abbrev pub run_scope : String → String → Scope
run_scope conv_id run_id = record { conv_id = conv_id; include_audit = false; run_id = some run_id }

-- Where a key lies outside of a query.
abbrev pub outside : Option ℤ → ℕ → Bool
outside none k = false
outside (some z) k = le_int (pos k) z

pub after-outside :
    (start : Option ℤ) (m : MessageRow) → after start m ≡ true → outside start m.seq ≡ false
unfolding after
after-outside none m h = refl
after-outside (some z) m h = ground (arith, h)

-- A row that fits a page, with a sequence number of SQLite.
abbrev pub FitsPage : CursorCrypto → (String → ℕ) → MessageRow → Type 0
FitsPage x octets m = (row_bytes x octets m ≤ max_message_page_bytes) × (m.seq < 2 ^ 63)

module _ (x : CursorCrypto) (octets : String → ℕ) (s : Scope) (start : Option ℤ)
    (limit generation : ℕ) where
  abbrev pub next_payload : ℕ → MessageCursorPayload
  next_payload k = continuation x octets (query s start limit none) generation k

  -- A cursor of this query, or none, and the position that it stands for.
  abbrev pub Resumes : Option Bytes → Option ℤ → Type 0
  Resumes cursor position =
      ((cursor ≡ none) × (position ≡ start))
      ⊎ ((k : ℕ) × (cursor ≡ some (encode_message_cursor x (next_payload k)))
          × (position ≡ some (pos k))
          × (outside start k ≡ false)
          × (k < 2 ^ 63))

  abbrev pub Readable : Type 0
  Readable = (k : ℕ) → k < 2 ^ 63 → IsReadable x (next_payload k)

  pub decoded :
      Readable
      → (k : ℕ) → k < 2 ^ 63
      → decode_message_cursor x (encode_message_cursor x (next_payload k))
        ≡ payload (next_payload k)
  decoded readable k small = decode-encode x (next_payload k) (readable k small) refl refl refl refl

  check_lem :
      (cursor : Option Bytes) (k : ℕ)
      → outside start k ≡ false
      → check_cursor (query s start limit cursor) generation (next_payload k) ≡ page (some (pos k))
  unfolding check_cursor
  check_lem cursor k inside =
      let a = ==_refl s.conv_id in
      let b = ==_refl s.include_audit in
      let c = ==_refl s.run_id in
      let d = ==_refl start in
      elim (Option-cases start) [
        | inl e ↦ ground (arith, a, b, c, d, e)
        | inr (z, e) ↦ ground (arith, a, b, c, d, e, inside)
      ]

  pub position_lem :
      (cursor : Option Bytes) (position : Option ℤ)
      → Readable
      → Resumes cursor position
      → position_of x octets (query s start limit cursor) generation ≡ page position
  unfolding position_of
  position_lem cursor position readable (inl (e, f)) = rw (e, f) refl
  position_lem cursor position readable (inr (k, e, f, inside, small)) =
      rw (e, f)
        (let a = decoded readable k small in
          let b = check_lem (some (encode_message_cursor x (next_payload k))) k inside in
          ground (arith, a, b))

  -- The page of such a query, in a conversation that is there.
  pub page_lem :
      (proj : Projection) (cursor : Option Bytes) (position : Option ℤ)
      → Readable
      → get s.conv_id proj.generations ≡ some generation
      → IsUnique s.conv_id proj.table
      → 0 < limit
      → All (FitsPage x octets) (rows_after s proj.table position)
      → Resumes cursor position
      → (pg : MessagePage) × (messages_page_query x octets (query s start limit cursor) proj
          ≡ page pg)
        × IsPage x octets
            (query s start limit none)
            generation
            proj.table
            (rows_after s proj.table position)
            pg
  unfolding messages_page_query
  page_lem proj cursor position readable there u positive fits resumes =
      let (pg, e, shown) =
        page_at_lem x octets (query s start limit cursor) generation proj.table position u refl
          positive (All-map (λ m fit. fit.0) (rows_after s proj.table position) fits) in
      let at = position_lem cursor position readable resumes in
      (
        pg,
        ground (arith, there, positive, at, e),
        record {
          rest = shown.rest;
          taken = shown.taken;
          split = shown.split;
          continued = shown.continued;
        },
      )
