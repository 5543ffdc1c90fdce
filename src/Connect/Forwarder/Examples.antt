-- ===== src/Connect/Forwarder/Examples.antt =====
-- A device with a revoked certificate, serial 0xab12.
use ai_scan_interceptor.Base.{◌≡◌, refl, true, false, none, some, [], ◌∷◌, Bytes, codes, same}
use ai_scan_interceptor.Strings.{trim_space, trim_prefix, without_byte, to_lower, trim_left_byte}
use ai_scan_interceptor.TlsProxy.Serial.{text16, normalize_serial_hex}
use ai_scan_interceptor.TlsProxy.Crl.{RevokedStore, is_revoked, member, verify_peer}
use ai_scan_interceptor.Connect.Forwarder.{Forwarder, handle}
use ai_scan_interceptor.Connect.Forwarder.FailClose.{is_spliced, reached_with, handle-revoked}

abbrev keep_runes : Bytes → Bytes
keep_runes s = s

abbrev one_revoked : RevokedStore
one_revoked = record { serials = codes "ab12" ∷ []; loaded_at = 5 }

abbrev closing : Forwarder
closing = record { interceptor_host_port = codes "proxy:3128"; fail_close = true }

device_revoked : is_revoked keep_runes one_revoked 0xab12 ≡ true
unfolding is_revoked member normalize_serial_hex text16 same trim_space trim_prefix without_byte
    to_lower trim_left_byte
device_revoked = refl

handle-revoked_example :
    is_spliced (
      handle closing
        (some (codes "CONNECT"))
        (reached_with true true true
          (verify_peer keep_runes one_revoked ((0xab12 ∷ []) ∷ []) none)
          (some 200))
        true
        true)
    ≡ false
handle-revoked_example =
    handle-revoked keep_runes one_revoked 0xab12 none closing (some (codes "CONNECT")) true true
      true true true (some 200) device_revoked refl
