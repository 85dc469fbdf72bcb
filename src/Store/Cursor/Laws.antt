-- ===== src/Store/Cursor/Laws.antt =====
-- A cursor is read back as the position that it was written for, and only signed payloads are read.
use acp_hub.Base.{
  ◌≤◌, ◌≡◌, refl, sym, ap, subst, ◌∙◌, true, false, [], ◌∷◌, ◌++◌, some, length, length-append,
  arith, Option-cases, inl, inr, ==_refl, ==_iff, ◌==◌, list_eq, nat_eq, string_eq, is_negative,
}
use acp_hub.Flow.Json.{Bytes}
use acp_hub.Store.Cursor.{
  MessageCursorPayload, CursorCrypto, payload, has_dot, split_once, check_payload, check_signature,
  decode_parts, encode_message_cursor, decode_message_cursor, max_message_cursor_bytes,
  message_cursor_version, message_cursor_filter,
}

-- What the crates promise for the payloads that are written here.
pub record IsReadable (x : CursorCrypto) (p : MessageCursorPayload) : Type 0 where
  pub parsed : x.from_slice (x.to_vec p) ≡ some p
  pub decoded : (text : Bytes) → x.decode (x.encode text) ≡ some text
  pub without_dot : (text : Bytes) → has_dot (x.encode text) ≡ false
  pub short : length (encode_message_cursor x p) ≤ max_message_cursor_bytes

split_once-append :
    (before after : Bytes)
    → has_dot before ≡ false
    → split_once (before ++ (46 ∷ after)) ≡ some (before, after)
unfolding split_once has_dot
split_once-append [] after h = refl
split_once-append (c ∷ before) after h =
    let ih = split_once-append before after in ground (arith, h, ih)

-- The two parts of a cursor that was written here.
decode_parts_lem :
    (x : CursorCrypto) (p : MessageCursorPayload)
    → IsReadable x p
    → p.version ≡ message_cursor_version
    → p.filter ≡ message_cursor_filter
    → is_negative p.last_key ≡ false
    → is_negative p.generation ≡ false
    → decode_parts x (x.encode (x.to_vec p)) (x.encode (x.signature (x.to_vec p))) ≡ payload p
unfolding decode_parts check_signature check_payload
decode_parts_lem x p v version filter key generation =
    let text = x.to_vec p in
    let a = v.decoded text in
    let b = v.decoded (x.signature text) in
    let c = v.parsed in
    let d = (==_iff p.filter message_cursor_filter).1 filter in
    ground (arith, a, b, c, d, ==_refl (x.signature text), version, filter, key, generation)

-- A payload of this version and filter that stands at a position is read back from its cursor, if the
-- crates read what they write and the cursor is short enough.
pub decode-encode :
    (x : CursorCrypto) (p : MessageCursorPayload)
    → IsReadable x p
    → p.version ≡ message_cursor_version
    → p.filter ≡ message_cursor_filter
    → is_negative p.last_key ≡ false
    → is_negative p.generation ≡ false
    → decode_message_cursor x (encode_message_cursor x p) ≡ payload p
unfolding decode_message_cursor encode_message_cursor
decode-encode x p v version filter key generation =
    let text = x.to_vec p in
    let a = split_once-append (x.encode text) (x.encode (x.signature text)) (v.without_dot text) in
    let b = v.without_dot (x.signature text) in
    let c = v.short in
    let d = decode_parts_lem x p v version filter key generation in
    let e = length-append (x.encode text) (46 ∷ x.encode (x.signature text)) in
    ground (arith, a, b, c, d, e)

check_payload-inv :
    (q p : MessageCursorPayload)
    → check_payload q ≡ payload p
    → (q ≡ p)
      × (p.version ≡ message_cursor_version)
      × (p.filter ≡ message_cursor_filter)
      × (is_negative p.last_key ≡ false)
unfolding check_payload
check_payload-inv q p h =
    let e = ==_iff q.filter message_cursor_filter in
    let same : q ≡ p = ground (arith, h) in
    (
      same,
      ground (arith, h, same),
      subst (λ (r : MessageCursorPayload). r.filter ≡ message_cursor_filter) same
          (ground (arith, h, e)),
      subst (λ (r : MessageCursorPayload). is_negative r.last_key ≡ false) same (ground (arith, h)),
    )

-- What is read from a cursor was signed with the key of the store, has this version and filter, and its
-- last key is not negative.
pub decode_authentic :
    (x : CursorCrypto) (cursor : Bytes) (p : MessageCursorPayload)
    → decode_message_cursor x cursor ≡ payload p
    → (text : Bytes) × (coded : Bytes) × (signed : Bytes) × (split_once cursor
        ≡ some (coded, signed))
      × (x.decode coded ≡ some text)
      × (x.decode signed ≡ some (x.signature text))
      × (x.from_slice text ≡ some p)
      × (p.version ≡ message_cursor_version)
      × (p.filter ≡ message_cursor_filter)
      × (is_negative p.last_key ≡ false)
unfolding decode_message_cursor decode_parts check_signature
decode_authentic x cursor p h = elim (Option-cases (split_once cursor)) [
  | inl e ↦ absurd (ground (arith, h, e))
  | inr ((coded, signed), e) ↦ elim (Option-cases (x.decode coded)) [
    | inl f ↦ absurd (ground (arith, h, e, f))
    | inr (text, f) ↦ elim (Option-cases (x.decode signed)) [
      | inl g ↦ absurd (ground (arith, h, e, f, g))
      | inr (found, g) ↦ elim (Option-cases (x.from_slice text)) [
        | inl k ↦ absurd (ground (arith, h, e, f, g, k))
        | inr (q, k) ↦
            let right : (x.signature text == found) ≡ true = ground (arith, h, e, f, g, k) in
            let same = (==_iff (x.signature text) found).0 right in
            let checked : check_payload q ≡ payload p = ground (arith, h, e, f, g, k) in
            let (eq, version, filter, key) = check_payload-inv q p checked in
            (
              text,
              coded,
              signed,
              e,
              f,
              g ∙ ap some (sym same),
              k ∙ ap some eq,
              version,
              filter,
              key,
            )
      ]
    ]
  ]
]
