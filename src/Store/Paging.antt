-- ===== src/Store/Paging.antt =====
-- Pages of messages: `messages_page_query` of crates/hub/src/store/paging.rs. `octets` is the number of
-- bytes of a text in UTF-8.
pub mod Pages
pub mod Walk
pub mod Continue
use acp_hub.Base.{
  ℕ, ℤ, pos, negsuc, le_int, ◌+◌, ◌-◌, ◌*◌, ◌^◌, min, Bool, true, false, not, ◌&&◌, ◌||◌, List, [],
  ◌∷◌, Option, none, some, String, if◌then◌else◌, ltb, leb, eqb, saturating_add, ◌==◌, string_eq,
  option_eq, int_eq, bool_eq, Map, get, is_some,
}
use acp_hub.Flow.Json.{Bytes}
use acp_hub.Store.Messages.{MessageRow, where_rows, order_by_seq, count_of, in_conversation}
use acp_hub.Store.Cursor.{
  MessageCursorPayload, CursorCrypto, CursorError, payload, refused, encode_message_cursor,
  decode_message_cursor, message_cursor_version, message_cursor_filter,
}

abbrev pub max_message_page_rows : ℕ
max_message_page_rows = 500

abbrev pub max_message_page_bytes : ℕ
max_message_page_bytes = 8 * 1024 * 1024

pub record MessagePage : Type 0 where
  pub items : List MessageRow
  pub next_cursor : Option Bytes
  pub next_offset : Option ℕ
  pub total : ℕ

pub record MessagePageQuery : Type 0 where
  pub conv_id : String
  pub include_audit : Bool
  pub run_id : Option String
  pub after_seq : Option ℤ
  pub cursor : Option Bytes
  pub limit : ℕ
  pub offset : ℕ

-- The rows that a query is about.
pub record Scope : Type 0 where
  pub conv_id : String
  pub include_audit : Bool
  pub run_id : Option String

abbrev pub scope_of : MessagePageQuery → Scope
scope_of q = record { conv_id = q.conv_id; include_audit = q.include_audit; run_id = q.run_id }

-- `HubError`, with the error texts as constructors.
pub data PageError : Type 0 where
  zero_limit : PageError
  offset_with_cursor : PageError
  conversation_not_found : String → PageError
  invalid_cursor : CursorError → PageError
  foreign_cursor : PageError
  stale_cursor : String → ℤ → ℕ → PageError
  key_outside : PageError
  row_exceeds_page : ℕ → PageError

pub data Paged {ℓ} (A : Type ℓ) : Type ℓ where
  page : A → Paged A
  failed : PageError → Paged A

-- The columns of `conversations` and `messages` that a page reads.
pub record Projection : Type 0 where
  pub generations : Map String ℕ
  pub table : List MessageRow

-- `? IS NULL OR run_id = ?`.
unfoldable pub of_run : Option String → MessageRow → Bool
of_run none m = true
of_run (some run) m = m.run_id == some run

-- `? IS NULL OR seq > ?`.
unfoldable pub after : Option ℤ → MessageRow → Bool
after none m = true
after (some z) m = not (le_int (pos m.seq) z)

-- The rows of a query behind a position.
unfoldable pub selected : Scope → Option ℤ → MessageRow → Bool
unfolding in_conversation of_run after
selected q position m =
    in_conversation q.conv_id q.include_audit m && (of_run q.run_id m && after position m)

unfoldable pub take_rows {ℓ} : {A : Type ℓ} → ℕ → List A → List A
take_rows ℕ.zero xs = []
take_rows (ℕ.suc n) [] = []
take_rows (ℕ.suc n) (a ∷ xs) = a ∷ take_rows n xs

unfoldable pub drop_rows {ℓ} : {A : Type ℓ} → ℕ → List A → List A
drop_rows ℕ.zero xs = xs
drop_rows (ℕ.suc n) [] = []
drop_rows (ℕ.suc n) (a ∷ xs) = drop_rows n xs

-- `items.last()`.
unfoldable pub last_row : List MessageRow → Option MessageRow
last_row [] = none
last_row (m ∷ []) = some m
last_row (m ∷ n ∷ ms) = last_row (n ∷ ms)

-- The position that a decoded cursor continues from, after the checks against the query.
unfoldable pub check_cursor : MessagePageQuery → ℕ → MessageCursorPayload → Paged (Option ℤ)
check_cursor q generation p =
    if not (p.conversation == q.conv_id)
      || (not (p.include_audit == q.include_audit)
          || (not (p.run_id == q.run_id) || not (p.start_after_seq == q.after_seq)))
    then failed foreign_cursor
    else if not (p.generation == pos generation)
    then failed (stale_cursor q.conv_id p.generation generation)
    else elim q.after_seq [
      | none ↦ page (some p.last_key)
      | some start ↦ if le_int p.last_key start then failed key_outside else page (some p.last_key)
    ]

module _ (x : CursorCrypto) (octets : String → ℕ) where
  unfoldable pub row_bytes : MessageRow → ℕ
  row_bytes m = octets m.content + octets m.body_text + 512

  -- `WHERE cumulative_bytes <= ?`, with the sum of the rows before.
  unfoldable pub budgeted : ℕ → List MessageRow → List MessageRow
  unfolding row_bytes
  budgeted sum [] = []
  budgeted sum (m ∷ ms) =
      let rest = budgeted (sum + row_bytes m) ms in
      if leb (sum + row_bytes m) max_message_page_bytes then m ∷ rest else rest

  unfoldable pub position_of : MessagePageQuery → ℕ → Paged (Option ℤ)
  unfolding check_cursor
  position_of q generation = elim q.cursor [
    | none ↦ page q.after_seq
    | some cursor ↦ elim (decode_message_cursor x cursor) [
      | refused e ↦ failed (invalid_cursor e)
      | payload p ↦ check_cursor q generation p
    ]
  ]

  -- The payload of a continuation.
  abbrev pub continuation : MessagePageQuery → ℕ → ℕ → MessageCursorPayload
  continuation q generation last = record {
    version = message_cursor_version;
    conversation = q.conv_id;
    generation = pos generation;
    last_key = pos last;
    include_audit = q.include_audit;
    run_id = q.run_id;
    start_after_seq = q.after_seq;
    filter = message_cursor_filter;
  }

  -- `has_more` and `next_cursor`.
  unfoldable pub next_cursor_of :
      MessagePageQuery → ℕ → List MessageRow → List MessageRow → Option Bytes
  unfolding last_row selected where_rows count_of
  next_cursor_of q generation table items = elim (last_row items) [
    | none ↦ none
    | some last ↦
        if eqb (count_of (where_rows (selected (scope_of q) (some (pos last.seq))) table)) 0
        then none
        else some (encode_message_cursor x (continuation q generation last.seq))
  ]

  unfoldable pub next_offset_of : MessagePageQuery → ℕ → List MessageRow → Option ℕ
  unfolding count_of
  next_offset_of q total items =
      let consumed = saturating_add q.offset (count_of items) in
      if is_some q.cursor then none else if ltb consumed total then some consumed else none

  -- The page behind a position, in a conversation of this generation.
  unfoldable pub page_at : MessagePageQuery → ℕ → List MessageRow → Option ℤ → Paged MessagePage
  unfolding selected where_rows order_by_seq count_of take_rows drop_rows budgeted next_cursor_of
      next_offset_of
  page_at q generation table position =
      let total = count_of (where_rows (selected (scope_of q) q.after_seq) table) in
      let rows = where_rows (selected (scope_of q) position) table in
      let items =
        budgeted 0 (
          take_rows (min q.limit max_message_page_rows) (drop_rows q.offset (order_by_seq rows))) in
      if leb (2 ^ 63) q.offset
      then page (record { items = []; next_cursor = none; next_offset = none; total = total })
      else if eqb (count_of items) 0 && ltb q.offset (count_of rows)
      then failed (row_exceeds_page q.offset)
      else page (record {
        items = items;
        next_cursor = next_cursor_of q generation table items;
        next_offset = next_offset_of q total items;
        total = total;
      })

  -- `Store::messages_page_query`.
  unfoldable pub messages_page_query : MessagePageQuery → Projection → Paged MessagePage
  unfolding position_of page_at
  messages_page_query q s =
      if eqb q.limit 0
      then failed zero_limit
      else if is_some q.cursor && not (eqb q.offset 0)
      then failed offset_with_cursor
      else elim (get q.conv_id s.generations) [
        | none ↦ failed (conversation_not_found q.conv_id)
        | some generation ↦ elim (position_of q generation) [
          | failed e ↦ failed e
          | page position ↦ page_at q generation s.table position
        ]
      ]
