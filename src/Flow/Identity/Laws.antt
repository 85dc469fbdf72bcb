-- ===== src/Flow/Identity/Laws.antt =====
-- Identities survive a proxy that reorders object members.
use acp_hub.Base.{◌≡◌}
use acp_hub.Flow.Json.{Bytes, Json}
use acp_hub.Flow.Json.Canonical.{Same, write_canonical_json-Same}
use acp_hub.Flow.Identity.{
  Externals, ok_reply, canonical, notification_identity, response_identity, reply_value, reply_kind,
}

module _ {RequestId S AcpError : Type 0} (x : Externals RequestId S AcpError) where
  -- Parameters that differ in the order of object members only, at any depth, give a notification of
  -- the same method the same identity, and a result the same response identity.
  pub identity-Same :
      (method : Bytes) {v w : Json S}
      → Same v w
      → (notification_identity x method v ≡ notification_identity x method w)
        × (response_identity x (ok_reply v) ≡ response_identity x (ok_reply w))
  unfolding notification_identity response_identity canonical reply_value reply_kind
  identity-Same method h =
      let e = write_canonical_json-Same x.write_scalar x.write_key h in (rw e, rw e)
