-- ===== src/Tests/Transcript.antt =====
-- Transcripts of a few rows.
use acp_hub.Base.{
  ℕ, ◌≡◌, refl, true, false, not, List, [], ◌∷◌, Option, none, some, String, eqb, ◌⊎◌, length,
}
use acp_hub.Flow.Json.{object, end}
use acp_hub.Store.Messages.{MessageRow, local_turn}
use acp_hub.Store.Transcript.{
  is_thought, is_toolish, Reading, TranscriptView, show_default, send_run, merge_transcript_with,
  exceeded,
}
use acp_hub.Store.Transcript.Bodies.{
  Text, strip_lower_prefix, clean_body_line, kept_words, keeps_word, trim_start, trim_end,
  drop_prefixes, to_ascii_lowercase, split_loop, lowercase, is_mark, join, is_whitespace,
  clean_body, clean_lines, lines_loop, collapse_blanks, take_chars, truncate_chars, utf8_len,
}
use acp_hub.Flow.Identity.{codes}
use acp_hub.Store.Transcript.Compact.{
  compact_human_body, human_tool_title_from_body, title_of, find, starts_with, drop_chars,
  single_line, spaced, title_words, keeps_title_word, contains, looks_like_id, count_chars,
}
use acp_hub.Store.Transcript.Laws.{
  Covers, view_bytes, Bounded, merged_total, merge_transcript_with_lem,
  merge_transcript_with-send_run,
}
use acp_hub.Store.Transcript.Filters.{apply_show_view_filters}
use acp_hub.Store.Transcript.Filters.Laws.{Filtered, first_of, apply_show_view_filters-Filtered}

abbrev reading : Reading String
reading = record { chars = λ s. 104 ∷ 105 ∷ []; parse = λ s. object end; as_str = λ s. some s }

abbrev said : ℕ → String → Option String → MessageRow
said s role kind = record {
  id = "m";
  conv_id = "c";
  run_id = some "r";
  source = local_turn;
  current_projection = true;
  message_key = none;
  superseded_by = none;
  role = role;
  kind = kind;
  content = "{}";
  body_text = "hi";
  seq = s;
  created_at = "t0";
}

abbrev turn : List MessageRow
turn =
    said 1 "user" none
    ∷ said 2 "assistant" (some "thought")
    ∷ said 3 "assistant" (some "thought")
    ∷ said 4 "assistant" (some "message")
    ∷ said 5 "assistant" none
    ∷ []

merge_transcript_with_lem_example :
    ((rest : List MessageRow) × Covers reading
        (merge_transcript_with reading turn show_default).items
        turn
        rest
      × ((merge_transcript_with reading turn show_default).truncated ≡ not (eqb (length rest) 0))
      × ((rest ≡ [])
          ⊎ (exceeded show_default
                (merge_transcript_with reading turn show_default).view_count
                (view_bytes reading 0 (merge_transcript_with reading turn show_default).items)
              ≡ true)))
    × Bounded show_default.max_view_nodes
        (merge_transcript_with reading turn show_default).view_count
merge_transcript_with_lem_example = merge_transcript_with_lem reading turn show_default

merge_transcript_with-send_run_example :
    ((merge_transcript_with reading turn send_run).truncated ≡ false)
    × Covers reading (merge_transcript_with reading turn send_run).items turn []
    × (merged_total reading (merge_transcript_with reading turn send_run).items ≡ length turn)
merge_transcript_with-send_run_example = merge_transcript_with-send_run reading turn

abbrev shown : TranscriptView
shown = record {
  items =
      record {
        seq = 1;
        role = "user";
        kind = none;
        body_text = 104 ∷ 105 ∷ [];
        source = "local_turn";
        merged_count = 1;
      }
      ∷ [];
  truncated = false;
  raw_count = 1;
  view_count = 1;
}

apply_show_view_filters-Filtered_example :
    Filtered true
      (first_of (some 1) none)
      (some 1)
      (apply_show_view_filters reading shown ("user" ∷ []) true (some 1) none (some 1))
apply_show_view_filters-Filtered_example =
    apply_show_view_filters-Filtered reading shown ("user" ∷ []) true (some 1) none (some 1) refl

-- "Content type text Hi".
abbrev vendor_line : Text
vendor_line =
    67 ∷ 111 ∷ 110 ∷ 116 ∷ 101 ∷ 110 ∷ 116 ∷ 32 ∷ 116 ∷ 121 ∷ 112 ∷ 101 ∷ 32 ∷ 116 ∷ 101 ∷ 120 ∷ 116
    ∷ 32 ∷ 72 ∷ 105 ∷ []

-- A line of prose, "Content types", loses the front of its second word.
prose :
    clean_body_line (67 ∷ 111 ∷ 110 ∷ 116 ∷ 101 ∷ 110 ∷ 116 ∷ 32 ∷ 116 ∷ 121 ∷ 112 ∷ 101 ∷ 115 ∷ [])
    ≡ 115 ∷ []
unfolding clean_body_line trim_start trim_end drop_prefixes strip_lower_prefix to_ascii_lowercase
    split_loop kept_words keeps_word lowercase is_mark join is_whitespace
prose = refl

-- "Title Read a kind x" is shown by its title.
titled : compact_human_body (some "tool_call") (codes "Title Read a kind x") ≡ codes "Read a"
unfolding compact_human_body is_thought is_toolish clean_body clean_lines clean_body_line lines_loop
    collapse_blanks trim_start trim_end drop_prefixes strip_lower_prefix to_ascii_lowercase
    split_loop kept_words keeps_word lowercase is_mark join is_whitespace human_tool_title_from_body
    title_of find starts_with take_chars drop_chars truncate_chars single_line spaced title_words
    keeps_title_word contains looks_like_id count_chars utf8_len
titled = refl
