-- ===== src/Flow/Sse/Chunks.antt =====
-- The decoder on chunks that follow each other.
use acp_hub.Base.{
  ℕ, ◌≡◌, refl, sym, ap, ◌∙◌, List, [], ◌∷◌, ◌++◌, append-nil, append_assoc, ◌⊎◌, inl, inr, Option,
  none, some, arith,
}
use acp_hub.Flow.Json.{Bytes}
use acp_hub.Flow.Sse.{SseDecoder, Decoded, SseError, events, refused, push_byte, push_loop, push}

pub Decoded-cases :
    (r : Decoded) → ((es : List Bytes) × (r ≡ events es)) ⊎ ((e : SseError) × (r ≡ refused e))
Decoded-cases (events es) = inl (es, refl)
Decoded-cases (refused e) = inr (e, refl)

-- A result with earlier events in front.
abbrev pub behind : List Bytes → SseDecoder × Decoded → SseDecoder × Decoded
behind es (d, refused e) = (d, refused e)
behind es (d, events fs) = (d, events (es ++ fs))

-- One chunk after another: the events of both, or the first error.
abbrev pub and_then :
    SseDecoder × Decoded → (SseDecoder → SseDecoder × Decoded) → SseDecoder × Decoded
and_then (d, refused e) k = (d, refused e)
and_then (d, events es) k = behind es (k d)

-- What earlier chunks gave, in front of the rest.
abbrev ahead :
    SseDecoder × Decoded
    → (SseDecoder → List Bytes × SseDecoder × Option SseError)
    → List Bytes × SseDecoder × Option SseError
ahead (d, refused e) k = ([], d, some e)
ahead (d, events es) k = let (more, d', end) = k d in (es ++ more, d', end)

-- The decoder on one chunk after another, as `read_sse` pushes them: the events that were returned until the
-- end or an error, the decoder, and the error.
unfoldable pub push_chunks : SseDecoder → List Bytes → List Bytes × SseDecoder × Option SseError
unfolding push
push_chunks d [] = ([], d, none)
push_chunks d (chunk ∷ chunks) = ahead (push d chunk) (λ d'. push_chunks d' chunks)

pub push_loop-cons :
    (done : List Bytes) (d : SseDecoder) (c : ℕ) (cs : Bytes) {more : List Bytes}
    → (push_byte c d).1 ≡ events more
    → push_loop done d (c ∷ cs) ≡ push_loop (done ++ more) (push_byte c d).0 cs
unfolding push_loop
push_loop-cons done d c cs h = rw (h, push_loop)

pub push_loop-refused :
    (done : List Bytes) (d : SseDecoder) (c : ℕ) (cs : Bytes) {e : SseError}
    → (push_byte c d).1 ≡ refused e
    → push_loop done d (c ∷ cs) ≡ ((push_byte c d).0, refused e)
unfolding push_loop
push_loop-refused done d c cs h = rw (h, push_loop)

behind-behind :
    (es fs : List Bytes) (r : SseDecoder × Decoded) → behind es (behind fs r) ≡ behind (es ++ fs) r
behind-behind es fs (d, refused e) = refl
behind-behind es fs (d, events gs) = rw append_assoc

behind-and_then :
    (es : List Bytes) (r : SseDecoder × Decoded) (k : SseDecoder → SseDecoder × Decoded)
    → behind es (and_then r k) ≡ and_then (behind es r) k
behind-and_then es (d, refused e) k = refl
behind-and_then es (d, events fs) k = behind-behind es fs (k d)

-- The events so far stand in front of the others.
pub push_loop-behind :
    (done : List Bytes) (d : SseDecoder) (cs : Bytes)
    → push_loop done d cs ≡ behind done (push_loop [] d cs)
unfolding push_loop
push_loop-behind done d [] = rw append-nil
push_loop-behind done d (c ∷ cs) = elim (Decoded-cases (push_byte c d).1) [
  | inr (e, h) ↦ rw (push_loop-refused done d c cs h, push_loop-refused [] d c cs h) refl
  | inl (more, h) ↦
      rw (push_loop-cons done d c cs h, push_loop-cons [] d c cs h)
        (push_loop-behind (done ++ more) (push_byte c d).0 cs
          ∙ sym (behind-behind done more (push_loop [] (push_byte c d).0 cs))
          ∙ ap (behind done) (sym (push_loop-behind more (push_byte c d).0 cs)))
]

pub push-append :
    (d : SseDecoder) (xs ys : Bytes)
    → push_loop [] d (xs ++ ys) ≡ and_then (push_loop [] d xs) (λ d'. push_loop [] d' ys)
unfolding push_loop
push-append d [] ys = push_loop-behind [] d ys
push-append d (c ∷ xs) ys = elim (Decoded-cases (push_byte c d).1) [
  | inr (e, h) ↦ rw (push_loop-refused [] d c (xs ++ ys) h, push_loop-refused [] d c xs h) refl
  | inl (more, h) ↦
      rw
        (
          push_loop-cons [] d c (xs ++ ys) h,
          push_loop-cons [] d c xs h,
          push_loop-behind more (push_byte c d).0 (xs ++ ys),
          push_loop-behind more (push_byte c d).0 xs,
          push-append (push_byte c d).0 xs ys,
        )
        (behind-and_then more (push_loop [] (push_byte c d).0 xs) _)
]

-- The bytes of chunks.
abbrev pub joined : List Bytes → Bytes
joined [] = []
joined (chunk ∷ chunks) = chunk ++ joined chunks

behind-inv :
    (es fs : List Bytes) (r : SseDecoder × Decoded) (d : SseDecoder)
    → behind es r ≡ (d, events fs)
    → (more : List Bytes) × (r ≡ (d, events more)) × (es ++ more ≡ fs)
behind-inv es fs (d', refused e) d h = absurd (ground (arith, h))
behind-inv es fs (d', events more) d h =
    let same : d' ≡ d = ground (arith, h) in
    (more, ap (λ k. (k, events more)) same, ground (arith, h))

-- What one push of all the bytes gives, without an error, the chunks give.
pub push_chunks-joined :
    (d d' : SseDecoder) (chunks : List Bytes) (es : List Bytes)
    → push d (joined chunks) ≡ (d', events es)
    → push_chunks d chunks ≡ (es, d', none)
unfolding push push_chunks
push_chunks-joined d d' [] es h = unfold push_loop in ground (arith, h)
push_chunks-joined d d' (chunk ∷ chunks) es h =
    let split = sym (push-append d chunk (joined chunks)) ∙ h in
    elim (Decoded-cases (push_loop [] d chunk).1) [
      | inr (e, refuses) ↦
          let r : push_loop [] d chunk ≡ ((push_loop [] d chunk).0, refused e) =
            ap (λ k. ((push_loop [] d chunk).0, k)) refuses in
          let wrong =
            ap (λ k. and_then k (λ k'. push_loop [] k' (joined chunks))) (sym r) ∙ split in
          absurd (ground (arith, wrong))
      | inl (first, returns) ↦
          let next = (push_loop [] d chunk).0 in
          let r : push_loop [] d chunk ≡ (next, events first) =
            ap (λ k. ((push_loop [] d chunk).0, k)) returns in
          let (more, after, all) =
            behind-inv first es (push_loop [] next (joined chunks)) d'
              (ap (λ k. and_then k (λ k'. push_loop [] k' (joined chunks))) (sym r) ∙ split) in
          let rest = push_chunks-joined next d' chunks more (unfold push in after) in
          ap (λ k. ahead k (λ k'. push_chunks k' chunks)) r
          ∙ ap (λ (k : List Bytes × SseDecoder × Option SseError). (first ++ k.0, k.1, k.2)) rest
          ∙ ap (λ k. (k, d', none)) all
    ]
