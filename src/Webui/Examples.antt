-- ===== src/Webui/Examples.antt =====
-- Small stores of the dashboard. `keep` stands for Unicode lower case, a text for its own hash.
use ai_scan_interceptor.Base.{
  ◌≡◌, refl, true, false, none, some, [], ◌∷◌, Bytes, codes, same, find_key, has_key, holds,
  missing, pos, negsuc, update_key,
}
use ai_scan_interceptor.Strings.{trim_space, trim_prefix, without_byte, to_lower}
use ai_scan_interceptor.TlsProxy.DeviceStore.{acquired, append_device}
use ai_scan_interceptor.Webui.CrlStore
use ai_scan_interceptor.Webui.CrlStore.{CrlStore, normalize_serial, write_failed, serial_of}
use ai_scan_interceptor.Webui.CrlStore.Retry.{Retry, retries, add-retry_lost}
use ai_scan_interceptor.Webui.DeviceStore
use ai_scan_interceptor.Webui.DeviceStore.{Device, DeviceStore, id_of, revoke, get_by_id}
use ai_scan_interceptor.Webui.DeviceStore.Race.{revoke-loses_append}
use ai_scan_interceptor.Webui.EnrollTokens
use ai_scan_interceptor.Webui.EnrollTokens.{EnrollTokenStore, CreateOptions}
use ai_scan_interceptor.Webui.EnrollTokens.Failure.{create-retry}

abbrev keep : Bytes → Bytes
keep s = s

abbrev no_crl : CrlStore
no_crl = record { entries = []; disk = missing }

serial_given : same (normalize_serial keep (codes "0xAB:12")) [] ≡ false
unfolding normalize_serial same trim_space to_lower trim_prefix without_byte
serial_given = refl

serial_new : has_key serial_of (normalize_serial keep (codes "0xAB:12")) [] ≡ false
unfolding has_key
serial_new = refl

abbrev one_retry : Retry
one_retry = record { now = 6; saved = true; subject = [] }

add-retry_lost_example :
    let first = CrlStore.add keep 5 false (codes "0xAB:12") [] no_crl in
    let again = retries keep (codes "0xAB:12") (one_retry ∷ one_retry ∷ []) first.0 in
    (first.1 ≡ some write_failed) × (again.1 ≡ true) × (again.0.disk ≡ missing)
add-retry_lost_example =
    add-retry_lost keep 5 (codes "0xAB:12") [] (one_retry ∷ one_retry ∷ []) no_crl serial_given
      serial_new

abbrev laptop : Device
laptop = record {
  device_id = codes "d-1";
  subject = codes "alice@laptop";
  org = codes "acme";
  serial_hex = codes "ab12";
  issued_at = 10;
  expires_at = 20;
  revoked = false;
  revoked_at = none;
  last_seen = none;
}

abbrev registry : DeviceStore
registry = record { devices = []; disk = holds (laptop ∷ []); crl = none }

laptop_found : find_key id_of (codes "d-1") (laptop ∷ []) ≡ some laptop
unfolding find_key same
laptop_found = refl

abbrev phone : Device
phone = record laptop { device_id = codes "d-2"; serial_hex = codes "cd34" }

phone_new : has_key id_of (codes "d-2") (laptop ∷ []) ≡ false
unfolding has_key same
phone_new = refl

revoke-loses_append_example :
    let read = (DeviceStore.reload registry).0 in
    let appended = append_device acquired true phone read.disk in
    let written =
      DeviceStore.revoke_found keep 11 true 12 true
        (codes "d-1")
        (find_key id_of (codes "d-1") read.devices)
        (record read { disk = appended.0 }) in
    (appended ≡ (holds (laptop ∷ phone ∷ []), none))
    × (written.0.disk
        ≡ holds (update_key id_of (codes "d-1") (DeviceStore.mark_revoked 11) (laptop ∷ [])))
    × ((revoke keep 20 true 21 true (codes "d-2") written.0).1 ≡ some DeviceStore.device_not_found)
revoke-loses_append_example =
    revoke-loses_append keep 11 12 true laptop phone (laptop ∷ []) registry 20 21 true true refl
      laptop_found refl phone_new

abbrev no_tokens : EnrollTokenStore
no_tokens = record { tokens = []; disk = missing }

-- zero hours and minus one uses ask for the defaults
abbrev defaults : CreateOptions
defaults = record {
  description = codes "laptop";
  expires_in_hours = pos 0;
  max_uses = negsuc 0;
  created_by = codes "admin";
}

default_failed :
    (EnrollTokens.create keep acquired false 100 (codes "t1") (codes "secret") defaults no_tokens).1
    ≡ some EnrollTokens.write_failed
unfolding EnrollTokens.create
default_failed = refl

create-retry_example :
    let first =
      EnrollTokens.create keep acquired false 100
        (codes "t1")
        (codes "secret")
        defaults
        no_tokens in
    let again =
      EnrollTokens.create keep acquired true 101 (codes "t2") (codes "other") defaults first.0 in
    let alone =
      EnrollTokens.create keep acquired true 101 (codes "t2") (codes "other") defaults no_tokens in
    (again.0.disk ≡ alone.0.disk) × (again.1 ≡ alone.1)
create-retry_example =
    create-retry keep acquired false 100 (codes "t1") (codes "secret") defaults acquired true 101
      (codes "t2") (codes "other") defaults no_tokens EnrollTokens.write_failed default_failed
