-- ===== src/Flow/Sse/Stream.antt =====
-- What the decoder makes of a stream of events that a server writes.
use acp_hub.Base.{
  ℕ, ◌+◌, ◌≤◌, ◌≡◌, ◌≢◌, refl, sym, ap, ◌∙◌, List, [], ◌∷◌, ◌++◌, none, append-nil, append_assoc,
  length, length-append, All, All-map, All-append, arith,
}
use acp_hub.Flow.Json.{Bytes}
use acp_hub.Flow.Identity.{codes}
use acp_hub.Flow.Line.{max_acp_frame_bytes, strip_cr}
use acp_hub.Flow.Sse.{
  SseDecoder, Decoded, empty, events, push_byte, push_loop, push, consume_line, field_line,
  append_value, dispatch, strip_prefix, strip_newline,
}
use acp_hub.Flow.Sse.Chunks.{
  behind, joined, push_loop-cons, push_loop-behind, push_chunks, push_chunks-joined,
}

-- An event as a server writes it: a field `data` for each line, and an empty line.
abbrev pub write_line : Bytes → Bytes
write_line text = codes "data: " ++ (text ++ (10 ∷ []))

unfoldable pub write_lines : List Bytes → Bytes
write_lines [] = []
write_lines (l ∷ ls) = write_line l ++ write_lines ls

abbrev pub write_event : List Bytes → Bytes
write_event ls = write_lines ls ++ (10 ∷ [])

unfoldable pub write_stream : List (List Bytes) → Bytes
write_stream [] = []
write_stream (e ∷ es) = write_event e ++ write_stream es

-- The payload of an event: its lines with line breaks between them.
unfoldable pub payload : List Bytes → Bytes
payload [] = []
payload (l ∷ []) = l
payload (l ∷ m ∷ ls) = l ++ (10 ∷ payload (m ∷ ls))

abbrev pub payloads : List (List Bytes) → List Bytes
payloads [] = []
payloads (e ∷ es) = payload e ∷ payloads es

-- A line without the bytes that end one, which fits the frame limit with its field name.
abbrev pub FitsLine : Bytes → Type 0
FitsLine l = All (λ c. (c ≢ 10) × (c ≢ 13)) l × (length l + 6 ≤ max_acp_frame_bytes)

-- The bytes of the lines, each with its end.
abbrev pub lines_len : List Bytes → ℕ
lines_len [] = 0
lines_len (l ∷ ls) = length l + 1 + lines_len ls

abbrev pub FitsEvent : List Bytes → Type 0
FitsEvent ls = (ls ≢ []) × All FitsLine ls × (lines_len ls ≤ max_acp_frame_bytes)

-- Bytes inside of a line are kept.
push_loop-inside :
    (line body cs rest : Bytes)
    → All (λ c. c ≢ 10) cs
    → length line + length cs ≤ max_acp_frame_bytes
    → push_loop [] (record { line = line; data_bytes = body }) (cs ++ rest)
      ≡ push_loop [] (record { line = line ++ cs; data_bytes = body }) rest
push_loop-inside line body [] rest h fits =
    ap (λ k. push_loop [] (record { line = k; data_bytes = body }) rest) (sym (append-nil line))
push_loop-inside line body (c ∷ cs) rest h fits =
    let d : SseDecoder = record { line = line; data_bytes = body } in
    let d' : SseDecoder = record { line = line ++ (c ∷ []); data_bytes = body } in
    let inside = h.0 in
    let kept : push_byte c d ≡ (d', events []) = unfold push_byte in ground (arith, inside, fits) in
    let sizes = length-append line (c ∷ []) in
    push_loop-cons [] d c (cs ++ rest) (ap (λ (r : SseDecoder × Decoded). r.1) kept)
    ∙ ap (λ (r : SseDecoder × Decoded). push_loop [] r.0 (cs ++ rest)) kept
    ∙ push_loop-inside (line ++ (c ∷ [])) body cs rest h.1 (omega (arith, sizes, fits))
    ∙ ap (λ k. push_loop [] (record { line = k; data_bytes = body }) rest)
        (append_assoc line (c ∷ []) cs)

strip_cr-same : (bytes : Bytes) → All (λ c. c ≢ 13) bytes → strip_cr bytes ≡ bytes
unfolding strip_cr
strip_cr-same [] h = refl
strip_cr-same (c ∷ []) h = let a = h.0 in ground (arith, a)
strip_cr-same (c ∷ d ∷ cs) h = ap (λ k. c ∷ k) (strip_cr-same (d ∷ cs) h.1)

-- The end of a line of an event.
push_loop-line_end :
    (l body rest : Bytes)
    → FitsLine l
    → length body + length l + 1 ≤ max_acp_frame_bytes
    → push_loop [] (record { line = codes "data: " ++ l; data_bytes = body }) (10 ∷ rest)
      ≡ push_loop [] (record { line = []; data_bytes = body ++ (l ++ (10 ∷ [])) }) rest
push_loop-line_end l body rest fits room =
    let d : SseDecoder = record { line = codes "data: " ++ l; data_bytes = body } in
    let d' : SseDecoder = record { line = []; data_bytes = body ++ (l ++ (10 ∷ [])) } in
    let same = strip_cr-same (codes "data: " ++ l) (
      All-append (λ c. c ≢ 13) (codes "data: ") l
        (omega arith, (omega arith, (omega arith, (omega arith, (omega arith, (omega arith, tt))))))
        (All-map (λ c (h : (c ≢ 10) × (c ≢ 13)). h.1) l fits.0)) in
    let taken : append_value l (record { line = []; data_bytes = body }) ≡ (d', events []) =
      unfold append_value in ground (arith, room) in
    let field : consume_line (codes "data: " ++ l) (record { line = []; data_bytes = body })
        ≡ (d', events []) =
      unfold consume_line field_line strip_prefix in taken in
    let ended : push_byte 10 d ≡ (d', events []) =
      unfold push_byte in
      (ap (λ k. consume_line k (record { line = []; data_bytes = body })) same ∙ field) in
    push_loop-cons [] d 10 rest (ap (λ (r : SseDecoder × Decoded). r.1) ended)
    ∙ ap (λ (r : SseDecoder × Decoded). push_loop [] r.0 rest) ended

write_line-append : (l rest : Bytes) → write_line l ++ rest ≡ (codes "data: " ++ l) ++ (10 ∷ rest)
write_line-append l rest =
    append_assoc (codes "data: ") (l ++ (10 ∷ [])) rest
    ∙ ap (λ k. codes "data: " ++ k) (append_assoc l (10 ∷ []) rest)
    ∙ sym (append_assoc (codes "data: ") l (10 ∷ rest))

push_loop-line :
    (l body rest : Bytes)
    → FitsLine l
    → length body + length l + 1 ≤ max_acp_frame_bytes
    → push_loop [] (record { line = []; data_bytes = body }) (write_line l ++ rest)
      ≡ push_loop [] (record { line = []; data_bytes = body ++ (l ++ (10 ∷ [])) }) rest
push_loop-line l body rest fits room =
    let start : SseDecoder = record { line = []; data_bytes = body } in
    let sizes = length-append (codes "data: ") l in
    let whole = fits.1 in
    let clean =
      All-append (λ c. c ≢ 10) (codes "data: ") l
        (omega arith, (omega arith, (omega arith, (omega arith, (omega arith, (omega arith, tt))))))
        (All-map (λ c (h : (c ≢ 10) × (c ≢ 13)). h.0) l fits.0) in
    ap (push_loop [] start) (write_line-append l rest)
    ∙ push_loop-inside [] body (codes "data: " ++ l) (10 ∷ rest) clean (omega (arith, sizes, whole))
    ∙ push_loop-line_end l body rest fits room

-- The lines of an event, each with its end.
abbrev ended_lines : List Bytes → Bytes
ended_lines [] = []
ended_lines (l ∷ ls) = (l ++ (10 ∷ [])) ++ ended_lines ls

push_loop-lines :
    (ls : List Bytes) (body rest : Bytes)
    → All FitsLine ls
    → length body + lines_len ls ≤ max_acp_frame_bytes
    → push_loop [] (record { line = []; data_bytes = body }) (write_lines ls ++ rest)
      ≡ push_loop [] (record { line = []; data_bytes = body ++ ended_lines ls }) rest
unfolding write_lines
push_loop-lines [] body rest h room =
    ap (λ k. push_loop [] (record { line = []; data_bytes = k }) rest) (sym (append-nil body))
push_loop-lines (l ∷ ls) body rest h room =
    let start : SseDecoder = record { line = []; data_bytes = body } in
    let a = length-append l (10 ∷ []) in
    let b = length-append body (l ++ (10 ∷ [])) in
    ap (push_loop [] start) (append_assoc (write_line l) (write_lines ls) rest)
    ∙ push_loop-line l body (write_lines ls ++ rest) h.0 (omega (arith, room))
    ∙ push_loop-lines ls (body ++ (l ++ (10 ∷ []))) rest h.1 (omega (arith, room, a, b))
    ∙ ap (λ k. push_loop [] (record { line = []; data_bytes = k }) rest)
        (append_assoc body (l ++ (10 ∷ [])) (ended_lines ls))

ended_lines-payload :
    (l : Bytes) (ls : List Bytes) → ended_lines (l ∷ ls) ≡ payload (l ∷ ls) ++ (10 ∷ [])
unfolding payload
ended_lines-payload l [] = append-nil (l ++ (10 ∷ []))
ended_lines-payload l (m ∷ ls) =
    ap (λ k. (l ++ (10 ∷ [])) ++ k) (ended_lines-payload m ls)
    ∙ append_assoc l (10 ∷ []) (payload (m ∷ ls) ++ (10 ∷ []))
    ∙ sym (append_assoc l (10 ∷ payload (m ∷ ls)) (10 ∷ []))

strip_newline-end : (xs : Bytes) → strip_newline (xs ++ (10 ∷ [])) ≡ xs
unfolding strip_newline
strip_newline-end [] = refl
strip_newline-end (c ∷ []) = refl
strip_newline-end (c ∷ d ∷ cs) = ap (λ k. c ∷ k) (strip_newline-end (d ∷ cs))

dispatch-end :
    (xs : Bytes) (d : SseDecoder)
    → dispatch (xs ++ (10 ∷ [])) d ≡ (record d { data_bytes = [] }, events (xs ∷ []))
unfolding dispatch
dispatch-end [] d = unfold strip_newline in refl
dispatch-end (c ∷ cs) d =
    ap (λ k. (record d { data_bytes = [] }, events (k ∷ []))) (strip_newline-end (c ∷ cs))

-- The empty line of an event.
push_loop-blank :
    (xs rest : Bytes)
    → push_loop [] (record { line = []; data_bytes = xs ++ (10 ∷ []) }) (10 ∷ rest)
      ≡ behind (xs ∷ []) (push_loop [] empty rest)
push_loop-blank xs rest =
    let d : SseDecoder = record { line = []; data_bytes = xs ++ (10 ∷ []) } in
    let ended : push_byte 10 d ≡ (empty, events (xs ∷ [])) =
      unfold push_byte strip_cr consume_line in dispatch-end xs d in
    push_loop-cons [] d 10 rest (ap (λ (r : SseDecoder × Decoded). r.1) ended)
    ∙ ap (λ (r : SseDecoder × Decoded). push_loop (xs ∷ []) r.0 rest) ended
    ∙ push_loop-behind (xs ∷ []) empty rest

push_loop-event :
    (ls : List Bytes) (rest : Bytes)
    → FitsEvent ls
    → push_loop [] empty (write_event ls ++ rest)
      ≡ behind (payload ls ∷ []) (push_loop [] empty rest)
push_loop-event [] rest h = absurd (h.0 refl)
push_loop-event (l ∷ ls) rest h =
    let room = h.2 in
    ap (push_loop [] empty) (append_assoc (write_lines (l ∷ ls)) (10 ∷ []) rest)
    ∙ push_loop-lines (l ∷ ls) [] (10 ∷ rest) h.1 (omega (arith, room))
    ∙ ap (λ k. push_loop [] (record { line = []; data_bytes = k }) (10 ∷ rest))
        (ended_lines-payload l ls)
    ∙ push_loop-blank (payload (l ∷ ls)) rest

push-write_stream :
    (es : List (List Bytes))
    → All FitsEvent es
    → push empty (write_stream es) ≡ (empty, events (payloads es))
unfolding push write_stream
push-write_stream [] h = unfold push_loop in refl
push-write_stream (e ∷ es) h =
    push_loop-event e (write_stream es) h.0
    ∙ ap (behind (payload e ∷ [])) (unfold push in push-write_stream es h.1)

-- Events are written with a field `data` for each line and an empty line at the end. Each has a line, no line
-- has a byte that ends one, and the lines and events fit the frame limit. However the stream is cut into chunks,
-- the decoder returns exactly the payloads, in order: the lines of each event with line breaks between them.
-- There is no error, and nothing is left in the decoder.
pub push_chunks-write_stream :
    (es : List (List Bytes)) (chunks : List Bytes)
    → All FitsEvent es
    → joined chunks ≡ write_stream es
    → push_chunks empty chunks ≡ (payloads es, empty, none)
push_chunks-write_stream es chunks h cut =
    push_chunks-joined empty empty chunks (payloads es)
      (ap (push empty) cut ∙ push-write_stream es h)
