-- ===== src/Flow/Sse/Bounds.antt =====
-- What the decoder buffers is bounded, and never more than it was given.
use acp_hub.Base.{
  ℕ, ◌+◌, ◌≤◌, ◌<◌, ◌≡◌, refl, sym, ap, subst, ◌∙◌, List, [], ◌∷◌, ◌++◌, some, length,
  length-append, All, All-append, arith, Bool-cases, Option-cases, inl, inr, eqb, leb, ltb,
}
use acp_hub.Flow.Json.{Bytes}
use acp_hub.Flow.Identity.{codes}
use acp_hub.Flow.Line.{max_acp_frame_bytes, strip_cr}
use acp_hub.Flow.Sse.{
  append_value, SseDecoder, Decoded, events, refused, buffered_len, strip_prefix, strip_newline,
  dispatch, field_line, consume_line, push_byte, push_loop, push, or_else,
}
use acp_hub.Flow.Sse.Chunks.{Decoded-cases, push_loop-cons, push_loop-refused}

length-strip_cr-le : (bytes : Bytes) → length (strip_cr bytes) ≤ length bytes
unfolding strip_cr
length-strip_cr-le [] = omega arith
length-strip_cr-le (c ∷ []) = ground arith
length-strip_cr-le (c ∷ d ∷ cs) = omega (arith, length-strip_cr-le (d ∷ cs))

length-strip_newline-le : (bytes : Bytes) → length (strip_newline bytes) ≤ length bytes
unfolding strip_newline
length-strip_newline-le [] = omega arith
length-strip_newline-le (c ∷ []) = ground arith
length-strip_newline-le (c ∷ d ∷ cs) = omega (arith, length-strip_newline-le (d ∷ cs))

length-strip_prefix :
    (p bytes : Bytes) {rest : Bytes}
    → strip_prefix p bytes ≡ some rest
    → length rest + length p ≡ length bytes
unfolding strip_prefix
length-strip_prefix [] bytes h = ground arith
length-strip_prefix (p ∷ ps) [] h = cc
length-strip_prefix (p ∷ ps) (c ∷ cs) h = elim (Bool-cases (eqb c p)) [
  | inl same ↦ let ih = length-strip_prefix ps cs (sym (rw same) ∙ h) in omega (arith, ih)
  | inr other ↦ absurd (ground (arith, other))
]

-- The bytes of some events.
abbrev pub payload_bytes : List Bytes → ℕ
payload_bytes [] = 0
payload_bytes (e ∷ es) = length e + payload_bytes es

pub payload_bytes-append :
    (es fs : List Bytes) → payload_bytes (es ++ fs) ≡ payload_bytes es + payload_bytes fs
payload_bytes-append [] fs = omega arith
payload_bytes-append (e ∷ es) fs = omega (arith, payload_bytes-append es fs)

-- The limits of a decoder.
abbrev pub IsBounded : SseDecoder → Type 0
IsBounded d = (length d.line ≤ max_acp_frame_bytes) × (length d.data_bytes ≤ max_acp_frame_bytes)

abbrev pub events_of : Decoded → List Bytes
events_of (events es) = es
events_of (refused e) = []

-- What a part of the decoder returns, if the decoder and its input had at most `n` bytes.
pub record Within (n : ℕ) (p : SseDecoder × Decoded) : Type 0 where
  pub bounded : IsBounded p.0
  pub sized : buffered_len p.0 + payload_bytes (events_of p.1) ≤ n
  pub short : All (λ e. length e ≤ max_acp_frame_bytes) (events_of p.1)

dispatch-Within :
    (bytes : Bytes) (d : SseDecoder)
    → bytes ≡ d.data_bytes
    → IsBounded d
    → Within (buffered_len d) (dispatch bytes d)
unfolding dispatch buffered_len
dispatch-Within [] d h b = record { bounded = b; sized = omega arith; short = tt }
dispatch-Within (c ∷ cs) d h b =
    let shorter = length-strip_newline-le (c ∷ cs) in
    let same = ap length h in
    record { bounded = omega arith; sized = omega arith; short = (omega arith, tt) }

append_value-Within :
    (value : Bytes) (d : SseDecoder) (n : ℕ)
    → IsBounded d
    → length value < n
    → Within (buffered_len d + n) (append_value value d)
unfolding append_value buffered_len
append_value-Within value d n b h =
    let grown = length-append d.data_bytes (value ++ (10 ∷ [])) in
    let more = length-append value (10 ∷ []) in
    elim (Bool-cases (ltb max_acp_frame_bytes (length d.data_bytes + length value + 1))) [
      | inl over ↦ rw (over, append_value) (record { bounded = b; sized = omega arith; short = tt })
      | inr fits ↦
          let room : length d.data_bytes + length value + 1 ≤ max_acp_frame_bytes =
            ground (arith, fits) in
          rw (fits, append_value)
            (record { bounded = (b.0, omega arith); sized = omega arith; short = tt })
    ]

value-le : (rest : Bytes) → length (or_else rest (strip_prefix (b' ' ∷ []) rest)) ≤ length rest
value-le rest = elim (Option-cases (strip_prefix (b' ' ∷ []) rest)) [
  | inl e ↦ rw e (omega arith)
  | inr (value, e) ↦ rw e (omega (arith, length-strip_prefix (b' ' ∷ []) rest e))
]

field_line-Within :
    (line : Bytes) (d : SseDecoder)
    → IsBounded d
    → Within (buffered_len d + length line) (field_line line d)
unfolding field_line
field_line-Within line d b = elim (Option-cases (strip_prefix (codes "data:") line)) [
  | inl e ↦ rw (e, field_line) (record { bounded = b; sized = omega arith; short = tt })
  | inr (rest, e) ↦
      rw (e, field_line)
        (append_value-Within (or_else rest (strip_prefix (b' ' ∷ []) rest)) d (length line) b
          (omega (arith, value-le rest, length-strip_prefix (codes "data:") line e)))
]

-- A smaller bound is a bound.
Within-le : {m n : ℕ} (r : SseDecoder × Decoded) → m ≤ n → Within m r → Within n r
Within-le r h w = record { bounded = w.bounded; sized = omega (arith, w.sized); short = w.short }

consume_line-Within :
    (line : Bytes) (d : SseDecoder)
    → IsBounded d
    → Within (buffered_len d + length line) (consume_line line d)
unfolding consume_line
consume_line-Within [] d b =
    Within-le (dispatch d.data_bytes d) (omega arith) (dispatch-Within d.data_bytes d refl b)
consume_line-Within (c ∷ cs) d b = field_line-Within (c ∷ cs) d b

push_byte-Within :
    (c : ℕ) (d : SseDecoder) → IsBounded d → Within (buffered_len d + 1) (push_byte c d)
unfolding push_byte buffered_len
push_byte-Within c d b = elim (Bool-cases (eqb c 10)) [
  | inl newline ↦
      rw (newline, push_byte)
        (Within-le (consume_line (strip_cr d.line) (record d { line = [] }))
          (omega (arith, length-strip_cr-le d.line))
          (consume_line-Within (strip_cr d.line) (record d { line = [] }) (omega arith)))
  | inr other ↦ elim (Bool-cases (leb max_acp_frame_bytes (length d.line))) [
    | inl full ↦
        rw (other, full, push_byte) (record { bounded = b; sized = omega arith; short = tt })
    | inr room ↦
        let grown = length-append d.line (c ∷ []) in
        let fits : length d.line < max_acp_frame_bytes = ground (arith, room) in
        rw (other, room, push_byte)
          (record { bounded = (omega arith, b.1); sized = omega arith; short = tt })
  ]
]

push_loop-Within :
    (n : ℕ) (done : List Bytes) (d : SseDecoder) (cs : Bytes)
    → IsBounded d
    → buffered_len d + payload_bytes done ≤ n
    → All (λ e. length e ≤ max_acp_frame_bytes) done
    → Within (n + length cs) (push_loop done d cs)
unfolding push_loop
push_loop-Within n done d [] b w a = record { bounded = b; sized = omega arith; short = a }
push_loop-Within n done d (c ∷ cs) b w a =
    let one = push_byte-Within c d b in
    elim (Decoded-cases (push_byte c d).1) [
      | inr (e, h) ↦
          let nothing = ap events_of h in
          rw (push_loop-refused done d c cs h)
            (record { bounded = one.bounded; sized = omega (arith, one.sized); short = tt })
      | inl (more, h) ↦
          let same = ap events_of h in
          let sized = ap payload_bytes same in
          rw (push_loop-cons done d c cs h) (
            Within-le _ (omega arith) (
              push_loop-Within (n + 1) (done ++ more) (push_byte c d).0 cs one.bounded
                (omega (arith, payload_bytes-append done more, one.sized))
                (All-append _ done more a (subst (All _) same one.short))))
    ]

-- From a bounded decoder, a chunk leaves a bounded one, also where it is refused; each event is at most
-- `max_acp_frame_bytes` long; and what is buffered and the events together are no longer than what was
-- buffered and the chunk.
pub push-Within :
    (d : SseDecoder) (chunk : Bytes)
    → IsBounded d
    → Within (buffered_len d + length chunk) (push d chunk)
unfolding push
push-Within d chunk b = push_loop-Within (buffered_len d) [] d chunk b (omega arith) tt
