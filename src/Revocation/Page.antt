-- ===== src/Revocation/Page.antt =====
-- The revocation of a device by its page in the dashboard, up to the TLS handshake.
use ai_scan_interceptor.Base.{
  ℕ, ◌≡◌, ◌≢◌, refl, ap, true, false, ◌||◌, ◌==◌, some, List, [], ◌∷◌, ◌++◌, Bytes, codes, same,
  All, find_key, holds, take-append_exact,
}
use ai_scan_interceptor.Strings.{trim_prefix, has_prefix}
use ai_scan_interceptor.TlsProxy.Serial.{text16}
use ai_scan_interceptor.TlsProxy.Crl.{RevokedStore}
use ai_scan_interceptor.Webui.CrlStore.{CrlStore}
use ai_scan_interceptor.Webui.CrlStore.Laws.{IsSynced}
use ai_scan_interceptor.Webui.DeviceStore
use ai_scan_interceptor.Webui.DeviceStore.{Device, DeviceStore, id_of, revoke}
use ai_scan_interceptor.Webui.Login.{method_post}
use ai_scan_interceptor.Webui.Devices.{
  status, split_path, device_path, device_by_id, revoke_status, handle_device_by_id,
}
use ai_scan_interceptor.Revocation.{proxy_refuses, crl_file, revoke_reaches_proxy}
use ai_scan_interceptor.Strings.Places.{index_byte-append, drop-append_suc}

-- the path of the page that revokes a device
abbrev pub revoke_path : Bytes → Bytes
revoke_path id = codes "/api/devices/" ++ (id ++ b'/' ∷ codes "revoke")

path-parts :
    (id : Bytes) → All (λ c. c ≢ b'/') id → device_path (revoke_path id) ≡ (id, codes "revoke")
unfolding device_path split_path trim_prefix has_prefix
path-parts id h =
    rw
      (
        index_byte-append b'/' id (codes "revoke") h,
        take-append_exact id (b'/' ∷ codes "revoke"),
        drop-append_suc b'/' id (codes "revoke"),
      )
      refl

routed :
    (call : Bytes → DeviceStore → DeviceStore.Outcome) (id : Bytes) (s : DeviceStore)
    → same id [] ≡ false
    → device_by_id call method_post (id, codes "revoke") s
      ≡ ((call id s).0, revoke_status (call id s).1)
unfolding device_by_id same
routed call id s h = rw h refl

-- A device is on record with the serial that tls-proxy wrote for its certificate, under an identifier
-- that is not empty and has no slash; the revocation list is in step with its file, and all writes
-- succeed. Then a POST to the device's page `revoke` is answered 204, and once tls-proxy has read
-- the file again it refuses that certificate, and any other exactly if it would have before.
pub handle_device_by_id-refuses :
    (lower_runes : Bytes → Bytes) (at n : ℕ) (id : Bytes) (s : DeviceStore) (ds : List Device)
    (d : Device) (c : CrlStore) (p : RevokedStore) (now crl_now m : ℕ)
    → same id [] ≡ false
    → All (λ x. x ≢ b'/') id
    → s.disk ≡ holds ds
    → find_key id_of id ds ≡ some d
    → d.serial_hex ≡ text16 n
    → s.crl ≡ some c
    → IsSynced c
    → let out =
        handle_device_by_id lower_runes now true crl_now true method_post (revoke_path id) s in
      (out.1 ≡ status 204)
      × (proxy_refuses lower_runes at p (crl_file lower_runes out.0) m
          ≡ (n == m || proxy_refuses lower_runes at p (crl_file lower_runes s) m))
unfolding handle_device_by_id revoke_status
handle_device_by_id-refuses lower_runes at n id s ds d c p now crl_now m ne slash stored found
      serial wired synced =
    let (e, r) =
      revoke_reaches_proxy lower_runes at n id s ds d c p stored found serial wired synced now
        crl_now m in
    rw (path-parts id slash, routed (revoke lower_runes now true crl_now true) id s ne)
      (ap revoke_status e, r)
