-- ===== src/Flow/Sse.antt =====
-- `SseDecoder` of crates/hub/src/bounded_transport/wire.rs: server-sent events, from bytes that arrive
-- in any chunks. The lengths are below 2^63, so that the saturating sums of the code are sums.
pub mod Chunks
pub mod Bounds
pub mod Stream
use acp_hub.Base.{
  ℕ, suc, ◌+◌, ◌≡◌, refl, Bool, true, false, List, [], ◌∷◌, ◌++◌, Option, none, some, ltb, leb, eqb,
  if◌then◌else◌, length,
}
use acp_hub.Flow.Json.{Bytes}
use acp_hub.Flow.Identity.{codes}
use acp_hub.Flow.Line.{max_acp_frame_bytes, strip_cr}

pub record SseDecoder : Type 0 where
  pub line : Bytes
  pub data_bytes : Bytes

-- `SseDecoder::default()`.
abbrev pub empty : SseDecoder
empty = record { line = []; data_bytes = [] }

pub data SseError : Type 0 where
  line_exceeded event_exceeded : SseError

pub data Decoded : Type 0 where
  events : List Bytes → Decoded
  refused : SseError → Decoded

unfoldable pub buffered_len : SseDecoder → ℕ
buffered_len d = length d.line + length d.data_bytes

unfoldable pub strip_prefix : Bytes → Bytes → Option Bytes
strip_prefix [] bytes = some bytes
strip_prefix (p ∷ ps) [] = none
strip_prefix (p ∷ ps) (c ∷ cs) = if eqb c p then strip_prefix ps cs else none

abbrev or_else : Bytes → Option Bytes → Bytes
or_else bytes none = bytes
or_else bytes (some rest) = rest

-- A trailing newline is popped.
unfoldable pub strip_newline : Bytes → Bytes
strip_newline [] = []
strip_newline (c ∷ []) = if eqb c 10 then [] else c ∷ []
strip_newline (c ∷ d ∷ cs) = c ∷ strip_newline (d ∷ cs)

-- The event that an empty line ends.
unfoldable pub dispatch : Bytes → SseDecoder → SseDecoder × Decoded
unfolding strip_newline
dispatch [] d = (d, events [])
dispatch (c ∷ cs) d = (record d { data_bytes = [] }, events (strip_newline (c ∷ cs) ∷ []))

-- A value and a newline go to the data of the event, if they fit.
unfoldable pub append_value : Bytes → SseDecoder → SseDecoder × Decoded
append_value value d =
    if ltb max_acp_frame_bytes (length d.data_bytes + length value + 1)
    then (d, refused event_exceeded)
    else (record d { data_bytes = d.data_bytes ++ (value ++ (10 ∷ [])) }, events [])

-- A field line: only `data` is kept, without one space in front.
unfoldable pub field_line : Bytes → SseDecoder → SseDecoder × Decoded
unfolding strip_prefix append_value
field_line line d = elim (strip_prefix (codes "data:") line) [
  | none ↦ (d, events [])
  | some rest ↦ append_value (or_else rest (strip_prefix (b' ' ∷ []) rest)) d
]

unfoldable pub consume_line : Bytes → SseDecoder → SseDecoder × Decoded
unfolding dispatch field_line
consume_line [] d = dispatch d.data_bytes d
consume_line (c ∷ cs) d = field_line (c ∷ cs) d

-- The body of the loop over a chunk.
unfoldable pub push_byte : ℕ → SseDecoder → SseDecoder × Decoded
unfolding consume_line strip_cr
push_byte c d =
    if eqb c 10
    then consume_line (strip_cr d.line) (record d { line = [] })
    else if leb max_acp_frame_bytes (length d.line)
    then (d, refused line_exceeded)
    else (record d { line = d.line ++ (c ∷ []) }, events [])

-- The loop, with the events so far; an error returns at once.
unfoldable pub push_loop : List Bytes → SseDecoder → Bytes → SseDecoder × Decoded
push_loop done d [] = (d, events done)
push_loop done d (c ∷ cs) =
    let (d', result) = push_byte c d in
    elim result [ refused e ↦ (d', refused e) | events more ↦ push_loop (done ++ more) d' cs ]

unfoldable pub push : SseDecoder → Bytes → SseDecoder × Decoded
unfolding push_loop
push d chunk = push_loop [] d chunk
