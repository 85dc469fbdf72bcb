-- ===== src/Flow/Identity.antt =====
-- The messages of a leg and their semantic identities: `physical_message_identity` and the functions
-- below it in crates/hub/src/bounded_transport/flow.rs. SHA-256, the serializers of serde_json and
-- the identifiers of the protocol crate are the fields of `Externals`.
pub mod Laws
use acp_hub.Base.{
  ℕ, ◌+◌, ◌-◌, ◌/◌, ◌%◌, List, [], ◌∷◌, ◌++◌, Option, none, some, ltb, if◌then◌else◌,
}
use acp_hub.Flow.Json.{Bytes, Json, scalar, write_canonical_json}
use Prim.Native.Char.{code}
use Prim.Native.String.{String}

-- The bytes of an ASCII literal.
abbrev pub codes : String → Bytes
codes String.[] = []
codes (String.◌∷◌ letter rest) = code letter ∷ codes rest

-- What the code takes from other crates.
pub record Externals (RequestId S AcpError : Type 0) : Type 0 where
  -- `serde_json::to_string(id)`, `none` where it fails.
  pub id_json : RequestId → Option Bytes
  pub null_id : RequestId
  pub null_scalar : S
  -- `serde_json::to_writer` of a scalar, and of a key.
  pub write_scalar : S → Bytes
  pub write_key : Bytes → Bytes
  -- `serde_json::to_value(error)`.
  pub error_value : AcpError → Json S
  pub sha256 : Bytes → Bytes

-- `Result<serde_json::Value, AcpError>`.
pub data Reply (S AcpError : Type 0) : Type 0 where
  ok_reply : Json S → Reply S AcpError
  err_reply : AcpError → Reply S AcpError

-- `RpcResponse`.
pub data Response (RequestId S AcpError : Type 0) : Type 0 where
  result_response : RequestId → Json S → Response RequestId S AcpError
  error_response : RequestId → AcpError → Response RequestId S AcpError

-- `RawJsonRpcMessage`, with the parts that the ledger reads.
pub data Message (RequestId S AcpError : Type 0) : Type 0 where
  request : RequestId → Bytes → Message RequestId S AcpError
  notification : Bytes → Option (Json S) → Message RequestId S AcpError
  response : Response RequestId S AcpError → Message RequestId S AcpError

-- A digit of `{byte:02x}`.
unfoldable pub hex_digit : ℕ → ℕ
hex_digit d = if ltb d 10 then b'0' + d else b'a' + (d - 10)

unfoldable pub hex_digest : Bytes → Bytes
hex_digest [] = []
hex_digest (b ∷ bs) = hex_digit (b / 16) ∷ hex_digit (b % 16) ∷ hex_digest bs

module _ {RequestId S AcpError : Type 0} (x : Externals RequestId S AcpError) where
  unfoldable pub canonical : Json S → Bytes
  canonical = write_canonical_json x.write_scalar x.write_key

  unfoldable pub request_id_text : RequestId → Bytes
  request_id_text id = elim (x.id_json id) [ none ↦ codes "<invalid-id>" | some text ↦ text ]

  unfoldable pub request_identity : RequestId → Bytes → Bytes
  request_identity id method = codes "request:" ++ (request_id_text id ++ (b':' ∷ method))

  unfoldable pub notification_identity : Bytes → Json S → Bytes
  notification_identity method params =
      let hashed = codes "notification" ++ (0 ∷ (method ++ (0 ∷ canonical params))) in
      codes "notification:" ++ (method ++ (codes ":sha256:" ++ hex_digest (x.sha256 hashed)))

  unfoldable pub reply_kind : Reply S AcpError → Bytes
  reply_kind (ok_reply value) = codes "result"
  reply_kind (err_reply error) = codes "error"

  unfoldable pub reply_value : Reply S AcpError → Json S
  reply_value (ok_reply value) = value
  reply_value (err_reply error) = x.error_value error

  unfoldable pub response_identity : Reply S AcpError → Bytes
  response_identity reply =
      let hashed = reply_kind reply ++ (0 ∷ canonical (reply_value reply)) in
      codes "response:" ++ (reply_kind reply ++ (codes ":sha256:" ++ hex_digest (x.sha256 hashed)))

  unfoldable pub params_value : Option (Json S) → Json S
  params_value none = scalar x.null_scalar
  params_value (some params) = params

  unfoldable pub reply_of : Response RequestId S AcpError → Reply S AcpError
  reply_of (result_response id value) = ok_reply value
  reply_of (error_response id error) = err_reply error

  unfoldable pub physical_message_identity : Message RequestId S AcpError → Bytes
  physical_message_identity (request id method) = request_identity id method
  physical_message_identity (notification method params) =
      notification_identity method (params_value params)
  physical_message_identity (response r) = response_identity (reply_of r)
