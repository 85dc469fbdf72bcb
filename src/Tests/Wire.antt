-- ===== src/Tests/Wire.antt =====
-- The readers on concrete bytes; every text counts as UTF-8.
use acp_hub.Base.{
  ℕ, ◌+◌, ◌≤◌, ◌≡◌, refl, List, [], ◌∷◌, ◌++◌, none, length, Bool, true, nat_eq, arith, ◌≢◌, All,
}
use acp_hub.Flow.Json.{Bytes}
use acp_hub.Flow.Budget.{FlowBudget, default_budget}
use acp_hub.Flow.Budget.Invariant.{default_budget-IsConsistent}
use acp_hub.Flow.Partial.{drop}
use acp_hub.Flow.Line.{Fill, filled, failed, line, strip_cr, read_bounded_line}
use acp_hub.Flow.Line.Sound.{Ends, bytes_of, read_bounded_line-Ends}
use acp_hub.Flow.Line.Complete.{Buffer, fills, read_bounded_line-Reads}
use acp_hub.Flow.Sse.{push, empty, buffered_len}
use acp_hub.Flow.Sse.Chunks.{joined, push_chunks}
use acp_hub.Flow.Sse.Stream.{
  write_stream, write_lines, payloads, FitsEvent, push_chunks-write_stream,
}
use acp_hub.Flow.Sse.Bounds.{Within, push-Within}

abbrev any_text : Bytes → Bool
any_text text = true

abbrev start : FlowBudget ℕ
start = default_budget

abbrev reader : List Fill
reader = filled (104 ∷ []) ∷ filled (105 ∷ 13 ∷ 10 ∷ 33 ∷ []) ∷ failed ∷ []

read_bounded_line-Ends_example :
    Ends any_text
      (bytes_of reader)
      (record { held = 0; ledger = start })
      (read_bounded_line any_text reader start)
    × (drop (record { held = 0; ledger = start }) ≡ start)
read_bounded_line-Ends_example =
    read_bounded_line-Ends any_text reader start default_budget-IsConsistent

abbrev buffers : List Buffer
buffers = (104, []) ∷ (105, 13 ∷ 10 ∷ 33 ∷ []) ∷ []

start-room : start.bytes + (start.partial_bytes + 4) ≤ start.max_bytes
unfolding default_budget
start-room = omega arith

text-clean : All (λ (c : ℕ). c ≢ 10) (104 ∷ 105 ∷ 13 ∷ [])
text-clean = (λ e. ground (arith, e), (λ e. ground (arith, e), (λ e. ground (arith, e), tt)))

read_bounded_line-Reads_example :
    (read_bounded_line any_text (fills buffers ++ (failed ∷ [])) start).0
    ≡ line (strip_cr (104 ∷ 105 ∷ 13 ∷ [])) 4
read_bounded_line-Reads_example =
    read_bounded_line-Reads any_text (104 ∷ 105 ∷ 13 ∷ []) (33 ∷ []) text-clean refl (omega arith)
      buffers (failed ∷ []) start refl default_budget-IsConsistent start-room

-- `data: a`, an empty line, and `data:`.
abbrev event : Bytes
event = 100 ∷ 97 ∷ 116 ∷ 97 ∷ 58 ∷ 32 ∷ 97 ∷ 10 ∷ []

-- An event of one line and one of two, cut inside of a line and before an end.
abbrev cut_stream : List Bytes
cut_stream =
    (100 ∷ 97 ∷ [])
    ∷ (116 ∷ 97 ∷ 58 ∷ 32 ∷ 97 ∷ 10 ∷ 10 ∷ 100 ∷ 97 ∷ 116 ∷ 97 ∷ 58 ∷ 32 ∷ 98 ∷ [])
    ∷ (10 ∷ 100 ∷ 97 ∷ 116 ∷ 97 ∷ 58 ∷ 32 ∷ 99 ∷ 10 ∷ 10 ∷ [])
    ∷ []

abbrev two_events : List (List Bytes)
two_events = ((97 ∷ []) ∷ []) ∷ ((98 ∷ []) ∷ (99 ∷ []) ∷ []) ∷ []

written : joined cut_stream ≡ write_stream two_events
unfolding write_stream write_lines
written = refl

two_events-FitsEvent : All FitsEvent two_events
two_events-FitsEvent = (
  ((λ e. cc), ((((omega arith, omega arith), tt), omega arith), tt), omega arith),
  (
    (
      (λ e. cc),
      (
        (((omega arith, omega arith), tt), omega arith),
        ((((omega arith, omega arith), tt), omega arith), tt),
      ),
      omega arith,
    ),
    tt,
  ),
)

push_chunks-write_stream_example : push_chunks empty cut_stream ≡ (payloads two_events, empty, none)
push_chunks-write_stream_example =
    push_chunks-write_stream two_events cut_stream two_events-FitsEvent written

push-Within_example : Within (buffered_len empty + length event) (push empty event)
push-Within_example = push-Within empty event (omega arith, omega arith)
