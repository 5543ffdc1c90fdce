-- ===== src/Webui/DeviceStore/Frame.antt =====
-- What `Revoke` and `UnRevoke` leave of the registry, whatever becomes of the writes.
use mathlib.Core.Option
use ai_scan_interceptor.Base.{
  ℕ, ◌≡◌, ◌≢◌, refl, Bool, true, false, some, List, [], arith, if◌then◌else◌, Bytes, same, find_key,
  update_key, find_key-update_key, find_key-update_key_ne, holds,
}
use ai_scan_interceptor.Webui.CrlStore
use ai_scan_interceptor.Webui.CrlStore.{CrlStore}
use ai_scan_interceptor.Webui.DeviceStore.{
  Device, DeviceStore, crl_update_failed, id_of, get_by_id, mark_revoked, sync_crl, revoke,
  unrevoke,
}

pub sync_crl-devices :
    (call : CrlStore → CrlStore × CrlStore.Status) (serial : Bytes) (s : DeviceStore)
    → ((sync_crl call serial s).0.devices ≡ s.devices) × ((sync_crl call serial s).0.disk ≡ s.disk)
unfolding sync_crl
sync_crl-devices call serial s = ground arith

module _ (lower_runes : Bytes → Bytes) (now crl_now : ℕ) (saved crl_saved : Bool) (id : Bytes)
    (s : DeviceStore) (ds : List Device) (d : Device) (stored : s.disk ≡ holds ds)
    (found : find_key id_of id ds ≡ some d) where
  revoke-devices :
      (revoke lower_runes now saved crl_now crl_saved id s).0.devices
      ≡ (if d.revoked then ds else update_key id_of id (mark_revoked now) ds)
  unfolding revoke
  revoke-devices = ground (arith, stored, found)

  -- the device as `Revoke` leaves it
  abbrev marked : Device
  marked = if d.revoked then d else mark_revoked now d

  marked_fields : (marked.revoked ≡ true) × (marked.serial_hex ≡ d.serial_hex)
  marked_fields = ground arith

  revoked_device :
      get_by_id id (revoke lower_runes now saved crl_now crl_saved id s).0 ≡ some marked
  unfolding get_by_id
  revoked_device =
      rw revoke-devices
        (ground (arith, found, find_key-update_key id_of (mark_revoked now) (λ a. refl) id ds))

  -- `Revoke` of a device that the file holds marks it and keeps its serial, and no other device
  -- changes, whatever becomes of the writes.
  pub revoke_marks :
      (j : Bytes)
      → j ≢ id
      → let t = (revoke lower_runes now saved crl_now crl_saved id s).0 in
        ((e : Device) × (get_by_id id t ≡ some e)
          × (e.revoked ≡ true)
          × (e.serial_hex ≡ d.serial_hex))
        × (get_by_id j t ≡ find_key id_of j ds)
  unfolding get_by_id
  revoke_marks j h = (
    (marked, unfold get_by_id in revoked_device, marked_fields.0, marked_fields.1),
    rw revoke-devices
        (ground (arith, find_key-update_key_ne id_of (mark_revoked now) (λ a. refl) id j ds h)),
  )

module _ (lower_runes : Bytes → Bytes) (id : Bytes) (s : DeviceStore) (ds : List Device)
    (d : Device) (c : CrlStore) (stored : s.disk ≡ holds ds) (found : find_key id_of id ds ≡ some d)
    (named : same d.serial_hex [] ≡ false) (wired : s.crl ≡ some c) where
  -- Once the device's record is saved, `Revoke` is `Add` on the revocation list.
  pub revoke-crl :
      (now crl_now : ℕ) (crl_saved : Bool)
      → let t = revoke lower_runes now true crl_now crl_saved id s in
        let u = CrlStore.add lower_runes crl_now crl_saved d.serial_hex d.subject c in
        (t.0.crl ≡ some u.0) × (t.1 ≡ Option.map crl_update_failed u.1)
  unfolding revoke
  revoke-crl now crl_now crl_saved = ground (arith, stored, found, named, wired)

  -- Once the device's record is saved, `UnRevoke` is `Remove` on the revocation list.
  pub unrevoke-crl :
      (crl_saved : Bool)
      → let t = unrevoke lower_runes true crl_saved id s in
        let u = CrlStore.remove lower_runes crl_saved d.serial_hex c in
        (t.0.crl ≡ some u.0) × (t.1 ≡ Option.map crl_update_failed u.1)
  unfolding unrevoke
  unrevoke-crl crl_saved = ground (arith, stored, found, named, wired)
