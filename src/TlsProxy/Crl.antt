-- ===== src/TlsProxy/Crl.antt =====
-- The reader of the revocation list: tls-proxy/crl.go, and the hook that tls-proxy/mtls.go installs
-- on the TLS handshake. The set of serials is a list; only membership is asked of it.
pub mod Lookup
use ai_scan_interceptor.Base.{
  ℕ, Bool, true, false, ◌||◌, Option, none, some, List, [], ◌∷◌, if◌then◌else◌, Bytes, same, any,
  length, File, missing, unreadable, empty, malformed, holds,
}
use ai_scan_interceptor.TlsProxy.Serial.{normalize_serial_hex, text16}

-- `revokedRecord`
pub record RevokedRecord : Type 0 where
  pub serial_hex : Bytes
  pub subject : Bytes
  pub revoked_at : ℕ

-- `revokedFileSchema`
pub record RevokedFile : Type 0 where
  pub version : ℕ
  pub revoked : List RevokedRecord

-- `RevokedStore`
pub record RevokedStore : Type 0 where
  pub serials : List Bytes
  pub loaded_at : ℕ

-- a lookup in the map
unfoldable pub member : Bytes → List Bytes → Bool
member k serials = any (λ s. same s k) serials

-- `NewEmptyRevokedStore`
unfoldable pub new_empty : RevokedStore
new_empty = record { serials = []; loaded_at = 0 }

-- what the handshake hook returns
pub data Verdict : Type 0 where
  accepted no_peer_certificate parse_error revoked : Verdict

module _ (lower_runes : Bytes → Bytes) where
  -- the loop over `schema.Revoked`
  unfoldable pub collect : List RevokedRecord → List Bytes
  collect [] = []
  collect (r ∷ rs) =
      let k = normalize_serial_hex lower_runes r.serial_hex in
      let next = collect rs in if same k [] then next else k ∷ next

  -- `reloadFrom` at time `now`: the new store and whether it succeeded
  unfoldable pub reload_from : ℕ → File RevokedFile → RevokedStore → RevokedStore × Bool
  unfolding collect
  reload_from now missing s = (record { serials = []; loaded_at = now }, true)
  reload_from now unreadable s = (s, false)
  reload_from now empty s = (record { serials = []; loaded_at = now }, true)
  reload_from now malformed s = (s, false)
  reload_from now (holds f) s = (record { serials = collect f.revoked; loaded_at = now }, true)

  -- `LoadRevokedStore`
  unfoldable pub load_revoked_store : ℕ → File RevokedFile → Option RevokedStore
  unfolding reload_from new_empty
  load_revoked_store now file =
      let (s, done) = reload_from now file new_empty in if done then some s else none

  -- `IsRevoked`
  unfoldable pub is_revoked : RevokedStore → ℕ → Bool
  unfolding member
  is_revoked s serial = member (normalize_serial_hex lower_runes (text16 serial)) s.serials

  -- `IsRevokedHex`
  unfoldable pub is_revoked_hex : RevokedStore → Bytes → Bool
  unfolding member
  is_revoked_hex s serial_hex = member (normalize_serial_hex lower_runes serial_hex) s.serials

  -- The hook of `makeRevocationVerifier`. A certificate is its serial; `raw` is the first of the raw
  -- certificates, if there is one, and its serial, if it parses.
  unfoldable pub verify_peer : RevokedStore → List (List ℕ) → Option (Option ℕ) → Verdict
  unfolding is_revoked
  verify_peer s ((leaf ∷ chain) ∷ chains) raw = if is_revoked s leaf then revoked else accepted
  verify_peer s _ none = no_peer_certificate
  verify_peer s _ (some none) = parse_error
  verify_peer s _ (some (some leaf)) = if is_revoked s leaf then revoked else accepted
