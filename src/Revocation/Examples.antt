-- ===== src/Revocation/Examples.antt =====
-- One registered device, with certificate serial 0xab12.
use ai_scan_interceptor.Base.{
  ◌≡◌, refl, true, false, none, some, [], ◌∷◌, Bytes, codes, same, find_key, has_key, inr, holds,
  arith, All, ◌≢◌,
}
use ai_scan_interceptor.Strings.{trim_space, trim_prefix, without_byte, to_lower, trim_left_byte}
use ai_scan_interceptor.TlsProxy.Serial.{text16, normalize_serial_hex}
use ai_scan_interceptor.TlsProxy.Crl.{new_empty}
use ai_scan_interceptor.Webui.CrlStore.{CrlStore, serial_of}
use ai_scan_interceptor.Webui.DeviceStore.{Device, DeviceStore, id_of, revoke, unrevoke}
use ai_scan_interceptor.Webui.Login.{method_post}
use ai_scan_interceptor.Webui.Devices.{status, handle_device_by_id}
use ai_scan_interceptor.Revocation.Page.{revoke_path, handle_device_by_id-refuses}
use ai_scan_interceptor.Revocation.{
  proxy_refuses, crl_file, revoke_reaches_proxy, unrevoke_reaches_proxy,
}

abbrev keep_runes : Bytes → Bytes
keep_runes s = s

abbrev laptop : Device
laptop = record {
  device_id = codes "d-1";
  subject = codes "alice@laptop";
  org = codes "acme";
  serial_hex = codes "ab12";
  issued_at = 10;
  expires_at = 20;
  revoked = false;
  revoked_at = none;
  last_seen = none;
}

abbrev crl_store : CrlStore
crl_store = record { entries = []; disk = holds (record { version = 1; revoked = [] }) }

abbrev registry : DeviceStore
registry = record { devices = []; disk = holds (laptop ∷ []); crl = some crl_store }

serial_text : text16 0xab12 ≡ codes "ab12"
unfolding text16
serial_text = refl

normalized : normalize_serial_hex keep_runes (codes " 0x00:AB-12 ") ≡ codes "ab12"
unfolding normalize_serial_hex same trim_space trim_prefix without_byte to_lower trim_left_byte
normalized = refl

found : find_key id_of (codes "d-1") (laptop ∷ []) ≡ some laptop
unfolding find_key same
found = refl

revoke_reaches_proxy_example :
    ((revoke keep_runes 11 true 12 true (codes "d-1") registry).1 ≡ none)
    × (proxy_refuses keep_runes 13 new_empty
          (crl_file keep_runes (revoke keep_runes 11 true 12 true (codes "d-1") registry).0)
          0xab12
        ≡ true)
revoke_reaches_proxy_example =
    revoke_reaches_proxy keep_runes 13 0xab12 (codes "d-1") registry (laptop ∷ []) laptop crl_store
      new_empty refl found (unfold text16 in refl) refl refl 11 12 0xab12

abbrev revoked_list : CrlStore
revoked_list = record {
  entries = record { serial_hex = codes "ab12"; subject = []; revoked_at = 11 } ∷ [];
  disk = holds (record {
    version = 1;
    revoked = record { serial_hex = codes "ab12"; subject = []; revoked_at = 11 } ∷ [];
  });
}

abbrev revoked_registry : DeviceStore
revoked_registry = record registry { crl = some revoked_list }

no_other : has_key serial_of (codes "ab12") [] ≡ false
unfolding has_key
no_other = refl

unrevoke_reaches_proxy_example :
    proxy_refuses keep_runes 13 new_empty
      (crl_file keep_runes (unrevoke keep_runes true true (codes "d-1") revoked_registry).0)
      0xab12
    ≡ false
unrevoke_reaches_proxy_example =
    unrevoke_reaches_proxy keep_runes 13 0xab12 (codes "d-1") revoked_registry (laptop ∷ []) laptop
      revoked_list new_empty refl found (unfold text16 in refl) refl refl 0xab12 (no_other, tt)
      ((omega arith, inr (omega arith)), tt)

no_slash : All (λ c. c ≢ b'/') (codes "d-1")
no_slash = ground arith

id_given : same (codes "d-1") [] ≡ false
unfolding same
id_given = refl

handle_device_by_id-refuses_example :
    let out =
      handle_device_by_id keep_runes 11 true 12 true method_post
        (revoke_path (codes "d-1"))
        registry in
    (out.1 ≡ status 204)
    × (proxy_refuses keep_runes 13 new_empty (crl_file keep_runes out.0) 0xab12 ≡ true)
handle_device_by_id-refuses_example =
    handle_device_by_id-refuses keep_runes 13 0xab12 (codes "d-1") registry (laptop ∷ []) laptop
      crl_store new_empty 11 12 0xab12 id_given no_slash refl found (unfold text16 in refl) refl
      refl
