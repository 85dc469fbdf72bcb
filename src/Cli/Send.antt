-- ===== src/Cli/Send.antt =====
-- The pages that `emit_new_message_pages` of crates/cli/src/commands.rs collects after a turn, from a store
-- that does not change meanwhile, and what `emit_merged_send_view` prints of them. What the daemon answers is read
-- as it was written, and the JSON of an item is the item.
pub mod Shown
pub mod Laws
use acp_hub.Base.{
  ℕ, ℤ, Bool, true, false, not, ◌&&◌, List, [], ◌∷◌, ◌++◌, Option, none, some, String,
  if◌then◌else◌, eqb, ◌==◌, list_eq, nat_eq, option_eq, string_eq, is_some,
}
use acp_hub.Flow.Json.{Bytes}
use acp_hub.Store.Messages.{MessageRow, count_of}
use acp_hub.Store.Transcript.{
  ViewMessage, is_toolish, is_thought, Reading, send_run, merge_transcript_with,
}
use acp_hub.Store.Transcript.Bodies.{
  Text, is_empty, is_whitespace, trim_start, trim_end, trim_matches,
}
use acp_hub.Cli.Lines.{format_human_transcript_line}
use acp_hub.Store.Cursor.{CursorCrypto}
use acp_hub.Store.Paging.{
  Scope, MessagePage, PageError, page, failed, Projection, messages_page_query,
}
use acp_hub.Store.Paging.Continue.{query, run_scope}

-- The rows of the pages, and the error where there is one.
pub data Collected : Type 0 where
  collected : List MessageRow → Collected
  not_advancing : List MessageRow → Collected
  page_failed : PageError → Collected
  out_of_fuel : Collected

-- A line on standard output: an item as JSON, or a text.
pub data OutputLine : Type 0 where
  json_item : ViewMessage → OutputLine
  text_line : Text → OutputLine

-- What is printed, and the error where there is one.
pub data Emitted : Type 0 where
  printed : List OutputLine → Emitted
  stopped : List OutputLine → Emitted
  emit_failed : PageError → Emitted
  emit_out_of_fuel : Emitted

-- The loop of `emit_merged_send_view`, with `prev_was_plain_reply`.
unfoldable pub emit_items : Bool → Bool → List ViewMessage → List OutputLine
unfolding trim_start trim_end format_human_transcript_line is_toolish is_thought
emit_items json_output prev_was_plain_reply [] = []
emit_items json_output prev_was_plain_reply (item ∷ items) =
    let next = emit_items json_output prev_was_plain_reply items in
    let line = format_human_transcript_line item.role item.kind item.body_text in
    let is_tool = is_toolish item.kind in
    let after = emit_items json_output (not is_tool && not (is_thought item.kind)) items in
    if item.role == "user"
    then next
    else if is_empty (trim_matches is_whitespace item.body_text)
    then next
    else if json_output
    then json_item item ∷ next
    else if is_empty line
    then next
    else if is_tool && prev_was_plain_reply
    then text_line [] ∷ text_line line ∷ after
    else text_line line ∷ after

-- `emit_merged_send_view`.
unfoldable pub emit_merged_send_view :
    {S : Type 0} → Reading S → List MessageRow → Bool → List OutputLine
unfolding emit_items merge_transcript_with
emit_merged_send_view reading rows json_output =
    emit_items json_output false (merge_transcript_with reading rows send_run).items

module _ (x : CursorCrypto) (octets : String → ℕ) where
  -- The loop, with the cursor and the rows so far.
  unfoldable pub collect_pages :
      ℕ → String → String → ℤ → Option Bytes → List MessageRow → Projection → Collected
  unfolding messages_page_query count_of
  collect_pages ℕ.zero conv_id run_id after_seq cursor rows s = out_of_fuel
  collect_pages (ℕ.suc fuel) conv_id run_id after_seq cursor rows s =
      elim (messages_page_query x octets
        (query (run_scope conv_id run_id) (some after_seq) 200 cursor) s) [
          | failed e ↦ page_failed e
          | page pg ↦
              if is_some pg.next_cursor && pg.next_cursor == cursor
              then not_advancing rows
              else if eqb (count_of pg.items) 0 && not (is_some pg.next_cursor)
              then collected rows
              else elim pg.next_cursor [
                | none ↦ collected (rows ++ pg.items)
                | some next ↦
                    collect_pages fuel conv_id run_id after_seq (some next) (rows ++ pg.items) s
              ]
        ]

  -- `emit_new_message_pages`.
  unfoldable pub emit_new_message_pages :
      {S : Type 0} → Reading S → ℕ → String → String → ℤ → Bool → Projection → Emitted
  unfolding collect_pages emit_merged_send_view
  emit_new_message_pages reading fuel conv_id run_id after_seq json_output s =
      elim (collect_pages fuel conv_id run_id after_seq none [] s) [
        | collected rows ↦ printed (emit_merged_send_view reading rows json_output)
        | not_advancing rows ↦ stopped (emit_merged_send_view reading rows json_output)
        | page_failed e ↦ emit_failed e
        | out_of_fuel ↦ emit_out_of_fuel
      ]
