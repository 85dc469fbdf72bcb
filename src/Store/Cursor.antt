-- ===== src/Store/Cursor.antt =====
-- Continuation cursors of message pages: `MessageCursorPayload`, `encode_message_cursor` and
-- `decode_message_cursor` of crates/hub/src/store.rs. A cursor is a list of bytes. JSON, base64 and the
-- HMAC under the persisted key are the fields of `CursorCrypto`.
pub mod Laws
use acp_hub.Base.{
  ℕ, ℤ, pos, negsuc, is_negative, Bool, true, false, not, ◌&&◌, ◌||◌, List, [], ◌∷◌, ◌++◌, Option,
  none, some, String, if◌then◌else◌, ltb, leb, eqb, length, ◌==◌, string_eq, list_eq, nat_eq,
}
use acp_hub.Flow.Json.{Bytes}

pub record MessageCursorPayload : Type 0 where
  pub version : ℕ
  pub conversation : String
  pub generation : ℤ
  pub last_key : ℤ
  pub include_audit : Bool
  pub run_id : Option String
  pub start_after_seq : Option ℤ
  pub filter : String

-- What the code takes from other crates.
pub record CursorCrypto : Type 0 where
  -- `serde_json::to_vec` and `serde_json::from_slice`.
  pub to_vec : MessageCursorPayload → Bytes
  pub from_slice : Bytes → Option MessageCursorPayload
  -- `URL_SAFE_NO_PAD.encode` and `.decode`.
  pub encode : Bytes → Bytes
  pub decode : Bytes → Option Bytes
  -- The HMAC under the key of this store.
  pub signature : Bytes → Bytes

abbrev pub max_message_cursor_bytes : ℕ
max_message_cursor_bytes = 4096

abbrev pub message_cursor_version : ℕ
message_cursor_version = 1

abbrev pub message_cursor_filter : String
message_cursor_filter = "messages"

pub data CursorError : Type 0 where
  malformed authentication_failed malformed_payload unsupported invalid_position : CursorError

pub data Decoded : Type 0 where
  payload : MessageCursorPayload → Decoded
  refused : CursorError → Decoded

abbrev dot : ℕ
dot = 46

unfoldable pub has_dot : Bytes → Bool
has_dot [] = false
has_dot (c ∷ cs) = eqb c dot || has_dot cs

abbrev in_front : ℕ → Option (Bytes × Bytes) → Option (Bytes × Bytes)
in_front c none = none
in_front c (some (before, after)) = some (c ∷ before, after)

-- `split_once('.')`.
unfoldable pub split_once : Bytes → Option (Bytes × Bytes)
split_once [] = none
split_once (c ∷ cs) = if eqb c dot then some ([], cs) else in_front c (split_once cs)

-- The checks of an authenticated payload.
unfoldable pub check_payload : MessageCursorPayload → Decoded
check_payload p =
    if not (eqb p.version message_cursor_version) || not (p.filter == message_cursor_filter)
    then refused unsupported
    else if is_negative p.last_key || is_negative p.generation
    then refused invalid_position
    else payload p

module _ (x : CursorCrypto) where
  unfoldable pub encode_message_cursor : MessageCursorPayload → Bytes
  encode_message_cursor p = x.encode (x.to_vec p) ++ (dot ∷ x.encode (x.signature (x.to_vec p)))

  -- A payload and a signature, decoded.
  unfoldable pub check_signature : Bytes → Bytes → Decoded
  unfolding check_payload
  check_signature text signature =
      if x.signature text == signature
      then elim (x.from_slice text) [ none ↦ refused malformed_payload | some p ↦ check_payload p ]
      else refused authentication_failed

  unfoldable pub decode_parts : Bytes → Bytes → Decoded
  unfolding check_signature
  decode_parts text signature = elim (x.decode text) [
    | none ↦ refused malformed
    | some text' ↦ elim (x.decode signature) [
      | none ↦ refused malformed
      | some signature' ↦ check_signature text' signature'
    ]
  ]

  unfoldable pub decode_message_cursor : Bytes → Decoded
  unfolding split_once has_dot decode_parts
  decode_message_cursor cursor =
      if eqb (length cursor) 0 || ltb max_message_cursor_bytes (length cursor)
      then refused malformed
      else elim (split_once cursor) [
        | none ↦ refused malformed
        | some (text, signature) ↦
            if has_dot signature then refused malformed else decode_parts text signature
      ]
