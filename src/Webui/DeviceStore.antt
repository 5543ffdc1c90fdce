-- ===== src/Webui/DeviceStore.antt =====
-- The device registry of the dashboard: webui/devicestore.go, with the revocation list that
-- `SetCRL` wires to it. Time and the outcome of each write are arguments.
pub mod Frame
pub mod Race
use mathlib.Core.Option
use ai_scan_interceptor.Base.{
  ℕ, Bool, true, false, Option, none, some, List, [], ◌∷◌, ◌++◌, if◌then◌else◌, Bytes, same,
  find_key, has_key, update_key, File, missing, unreadable, empty, malformed, holds, write_file,
}
use ai_scan_interceptor.Webui.CrlStore
use ai_scan_interceptor.Webui.CrlStore.{CrlStore, CrlError}

-- `Device`; tls-proxy/devicestore.go has the same record
pub record Device : Type 0 where
  pub device_id : Bytes
  pub subject : Bytes
  pub org : Bytes
  pub serial_hex : Bytes
  pub issued_at : ℕ
  pub expires_at : ℕ
  pub revoked : Bool
  pub revoked_at : Option ℕ
  pub last_seen : Option ℕ

abbrev pub id_of : Device → Bytes
id_of d = d.device_id

pub record DeviceStore : Type 0 where
  pub devices : List Device
  pub disk : File (List Device)
  pub crl : Option CrlStore

pub data DeviceError : Type 0 where
  read_failed parse_failed write_failed id_exists device_not_found : DeviceError
  crl_update_failed : CrlError → DeviceError

abbrev pub Status : Type 0
Status = Option DeviceError

-- what an operation leaves, and its `error`
abbrev pub Outcome : Type 0
Outcome = DeviceStore × Status

-- `if err != nil { return err }`
abbrev pub and_then : Outcome → (DeviceStore → Outcome) → Outcome
and_then (s, some e) k = (s, some e)
and_then (s, none) k = k s

-- `load` and `newDeviceStore`, where only a missing file may fail to load
unfoldable pub load : File (List Device) → Option (List Device)
load empty = some []
load (holds ds) = some ds
load _ = none

unfoldable pub new_device_store : File (List Device) → Option DeviceStore
unfolding load
new_device_store missing = some (record { devices = []; disk = missing; crl = none })
new_device_store disk =
    Option.map (λ ds. record { devices = ds; disk = disk; crl = none }) (load disk)

-- `reloadUnlocked`
unfoldable pub reload : DeviceStore → Outcome
reload s = elim s.disk [
  | missing ↦ (record s { devices = [] }, none)
  | unreadable ↦ (s, some read_failed)
  | empty ↦ (record s { devices = [] }, none)
  | malformed ↦ (s, some parse_failed)
  | holds ds ↦ (record s { devices = ds }, none)
]

-- `saveUnlocked`
unfoldable pub save : Bool → DeviceStore → Outcome
save saved s = (
  record s { disk = write_file saved s.devices s.disk },
  if saved then none else some write_failed,
)

-- `SetCRL`
unfoldable pub set_crl : CrlStore → DeviceStore → DeviceStore
set_crl c s = record s { crl = some c }

-- `List` and `GetByID`
unfoldable pub list : DeviceStore → List Device
list s = s.devices

unfoldable pub get_by_id : Bytes → DeviceStore → Option Device
get_by_id id s = find_key id_of id s.devices

-- `Add`
unfoldable pub add : Bool → Device → DeviceStore → Outcome
unfolding save
add saved d s = and_then (reload s) λ t.
    if has_key id_of d.device_id t.devices
    then (t, some id_exists)
    else save saved (record t { devices = t.devices ++ d ∷ [] })

-- `found.Revoked = true; found.RevokedAt = &now`, and its inverse in `UnRevoke`
abbrev pub mark_revoked : ℕ → Device → Device
mark_revoked now d = record d { revoked = true; revoked_at = some now }

abbrev pub mark_valid : Device → Device
mark_valid d = record d { revoked = false; revoked_at = none }

-- the call of the revocation list after the device's own record is saved
pub sync_crl : (CrlStore → CrlStore × CrlStore.Status) → Bytes → DeviceStore → Outcome
sync_crl call serial s = elim s.crl [
  | none ↦ (s, none)
  | some c ↦
      if same serial []
      then (s, none)
      else let (c', e) = call c in (record s { crl = some c' }, Option.map crl_update_failed e)
]

module _ (lower_runes : Bytes → Bytes) where
  pub revoke_found : ℕ → Bool → ℕ → Bool → Bytes → Option Device → DeviceStore → Outcome
  unfolding save sync_crl
  revoke_found now saved crl_now crl_saved id none s = (s, some device_not_found)
  revoke_found now saved crl_now crl_saved id (some d) s =
      and_then
        (if d.revoked
          then (s, none)
          else save saved (record s { devices = update_key id_of id (mark_revoked now) s.devices }))
        (sync_crl (CrlStore.add lower_runes crl_now crl_saved d.serial_hex d.subject) d.serial_hex)

  -- `Revoke`
  unfoldable pub revoke : ℕ → Bool → ℕ → Bool → Bytes → DeviceStore → Outcome
  unfolding revoke_found reload
  revoke now saved crl_now crl_saved id s =
      and_then (reload s)
        λ t. revoke_found now saved crl_now crl_saved id (find_key id_of id t.devices) t

  unrevoke_found : Bool → Bool → Bytes → Option Device → DeviceStore → Outcome
  unfolding save sync_crl
  unrevoke_found saved crl_saved id none s = (s, some device_not_found)
  unrevoke_found saved crl_saved id (some d) s =
      and_then
        (if d.revoked
          then save saved (record s { devices = update_key id_of id mark_valid s.devices })
          else (s, none))
        (sync_crl (CrlStore.remove lower_runes crl_saved d.serial_hex) d.serial_hex)

  -- `UnRevoke`
  unfoldable pub unrevoke : Bool → Bool → Bytes → DeviceStore → Outcome
  unfolding unrevoke_found reload
  unrevoke saved crl_saved id s =
      and_then (reload s) λ t. unrevoke_found saved crl_saved id (find_key id_of id t.devices) t

-- `TouchLastSeen`
unfoldable pub touch_last_seen : Bool → Bytes → ℕ → DeviceStore → Outcome
unfolding save
touch_last_seen saved id t s = and_then (reload s) λ u.
    if has_key id_of id u.devices
    then save saved (record u {
      devices = update_key id_of id (λ d. record d { last_seen = some t }) u.devices;
    })
    else (u, some device_not_found)
