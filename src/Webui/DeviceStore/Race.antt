-- ===== src/Webui/DeviceStore/Race.antt =====
-- The dashboard's read-modify-write of the registry takes no lock, while tls-proxy appends to the
-- same file under one. Here the append falls between the dashboard's read and its write.
use ai_scan_interceptor.Base.{
  ℕ, ◌≡◌, refl, Bool, true, false, none, some, List, [], ◌∷◌, ◌++◌, arith, Bytes, find_key, has_key,
  update_key, has_key-update_key, find_key-none, holds, ap, ◌∙◌,
}
use ai_scan_interceptor.TlsProxy.DeviceStore.{acquired, append_device}
use ai_scan_interceptor.Webui.CrlStore
use ai_scan_interceptor.Webui.DeviceStore.{
  Device, DeviceStore, device_not_found, id_of, reload, save, mark_revoked, revoke_found, revoke,
}
use ai_scan_interceptor.Webui.DeviceStore.Frame.{sync_crl-devices}

-- an append under the lock, to a file that holds other devices
append-written :
    (ds : List Device) (b : Device)
    → has_key id_of b.device_id ds ≡ false
    → append_device acquired true b (holds ds) ≡ (holds (ds ++ b ∷ []), none)
unfolding append_device
append-written ds b h = ground arith

read-devices :
    (s : DeviceStore) (ds : List Device)
    → s.disk ≡ holds ds
    → (reload s).0 ≡ record s { devices = ds }
unfolding reload
read-devices s ds e = ground (arith, e)

-- the dashboard's memory after its read, with the file after the append
abbrev between : Device → List Device → DeviceStore → DeviceStore
between b ds s = record s { devices = ds; disk = (append_device acquired true b s.disk).0 }

module _ (lower_runes : Bytes → Bytes) where
  -- the write of a revocation replaces whatever the file holds by then
  found-writes :
      (now crl_now : ℕ) (crl_saved : Bool) (id : Bytes) (a : Device) (s : DeviceStore)
      → a.revoked ≡ false
      → (revoke_found lower_runes now true crl_now crl_saved id (some a) s).0.disk
        ≡ holds (update_key id_of id (mark_revoked now) s.devices)
  unfolding revoke_found save
  found-writes now crl_now crl_saved id a s h =
      let marked = update_key id_of id (mark_revoked now) s.devices in
      let call = CrlStore.add lower_runes crl_now crl_saved a.serial_hex a.subject in
      let after =
        sync_crl-devices call a.serial_hex (record s { devices = marked; disk = holds marked }) in
      ground (arith, h, after)

  -- a device that the file does not hold cannot be revoked
  missing-refused :
      (now crl_now : ℕ) (saved crl_saved : Bool) (id : Bytes) (ds : List Device) (s : DeviceStore)
      → s.disk ≡ holds ds
      → find_key id_of id ds ≡ none
      → (revoke lower_runes now saved crl_now crl_saved id s).1 ≡ some device_not_found
  unfolding revoke
  missing-refused now crl_now saved crl_saved id ds s h e = ground (arith, h, e)

  -- The dashboard revokes the valid device `a`, and `b`, whose identifier is new, is enrolled
  -- between the dashboard's read and its write. The append reports success and the file holds
  -- `b`; after the dashboard's write the file does not, and a revocation of `b` in the dashboard
  -- then fails as the device is not found.
  pub revoke-loses_append :
      (now crl_now : ℕ) (crl_saved : Bool) (a b : Device) (ds : List Device) (s : DeviceStore)
      (later crl_later : ℕ) (saved' crl_saved' : Bool)
      → s.disk ≡ holds ds
      → find_key id_of a.device_id ds ≡ some a
      → a.revoked ≡ false
      → has_key id_of b.device_id ds ≡ false
      → let read = (reload s).0 in
        let appended = append_device acquired true b read.disk in
        let written =
          revoke_found lower_runes now true crl_now crl_saved a.device_id
            (find_key id_of a.device_id read.devices)
            (record read { disk = appended.0 }) in
        (appended ≡ (holds (ds ++ b ∷ []), none))
        × (written.0.disk ≡ holds (update_key id_of a.device_id (mark_revoked now) ds))
        × ((revoke lower_runes later saved' crl_later crl_saved' b.device_id written.0).1
            ≡ some device_not_found)
  revoke-loses_append now crl_now crl_saved a b ds s later crl_later saved' crl_saved' e found valid
        new =
      rw (read-devices s ds e) (
        rw found (
          ap (append_device acquired true b) e ∙ append-written ds b new,
          found-writes now crl_now crl_saved a.device_id a (between b ds s) valid,
          missing-refused later crl_later saved' crl_saved' b.device_id
              (update_key id_of a.device_id (mark_revoked now) ds)
              (revoke_found lower_runes now true crl_now crl_saved a.device_id (some a)
                (between b ds s)).0
              (found-writes now crl_now crl_saved a.device_id a (between b ds s) valid)
              (find_key-none id_of b.device_id (update_key id_of a.device_id (mark_revoked now) ds)
                (has_key-update_key id_of (mark_revoked now) (λ d. refl) a.device_id b.device_id ds
                  ∙ new)),
        ))
