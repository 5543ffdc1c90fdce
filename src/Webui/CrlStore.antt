-- ===== src/Webui/CrlStore.antt =====
-- The writer of the revocation list: webui/crlstore.go. A store is its list in memory together
-- with its file. Time and the outcome of each write (`saved`) are arguments. An entry in memory and
-- in the file is the record that tls-proxy reads.
pub mod Laws
pub mod Retry
use ai_scan_interceptor.Base.{
  ℕ, ◌≡◌, Bool, true, false, Option, none, some, List, [], ◌∷◌, ◌++◌, if◌then◌else◌, Bytes, codes,
  same, find_key, has_key, remove_key, File, missing, unreadable, empty, malformed, holds,
  write_file,
}
use ai_scan_interceptor.Strings.{trim_space, trim_prefix, without_byte, to_lower}
use ai_scan_interceptor.TlsProxy.Crl.{RevokedRecord, RevokedFile}

-- `crlSchemaVersion`
abbrev pub schema_version : ℕ
schema_version = 1

pub record CrlStore : Type 0 where
  pub entries : List RevokedRecord
  pub disk : File RevokedFile

pub data CrlError : Type 0 where
  serial_empty not_exist read_failed parse_failed write_failed : CrlError

-- a Go `error`: `none` is nil
abbrev pub Status : Type 0
Status = Option CrlError

abbrev pub serial_of : RevokedRecord → Bytes
serial_of r = r.serial_hex

-- `load`
unfoldable pub load : CrlStore → CrlStore × Status
load s = elim s.disk [
  | missing ↦ (s, some not_exist)
  | unreadable ↦ (s, some read_failed)
  | empty ↦ (s, none)
  | malformed ↦ (s, some parse_failed)
  | holds f ↦ (record s { entries = f.revoked }, none)
]

-- `newCRLStore` and `Reload`: a missing file is no error
tolerate : CrlStore × Status → CrlStore × Status
tolerate (s, some not_exist) = (s, none)
tolerate (s, e) = (s, e)

unfoldable pub new_crl_store : File RevokedFile → CrlStore × Status
unfolding load tolerate
new_crl_store file = tolerate (load (record { entries = []; disk = file }))

unfoldable pub reload : CrlStore → CrlStore × Status
unfolding load tolerate
reload s = tolerate (load s)

-- `saveUnlocked`
unfoldable pub save : Bool → CrlStore → CrlStore × Status
save saved s = (
  record s {
    disk = write_file saved (record { version = schema_version; revoked = s.entries }) s.disk;
  },
  if saved then none else some write_failed,
)

module _ (lower_runes : Bytes → Bytes) where
  -- `normalizeSerial`
  unfoldable pub normalize_serial : Bytes → Bytes
  normalize_serial s =
      without_byte b' '
        (without_byte b':' (trim_prefix (to_lower lower_runes (trim_space s)) (codes "0x")))

  -- `Add`
  unfoldable pub add : ℕ → Bool → Bytes → Bytes → CrlStore → CrlStore × Status
  unfolding save
  add now saved serial subject s =
      let k = normalize_serial serial in
      if same k []
      then (s, some serial_empty)
      else if has_key serial_of k s.entries
      then (s, none)
      else save saved (record s {
        entries = s.entries ++ record { serial_hex = k; subject = subject; revoked_at = now } ∷ [];
      })

  -- `Remove`
  unfoldable pub remove : Bool → Bytes → CrlStore → CrlStore × Status
  unfolding save
  remove saved serial s =
      let k = normalize_serial serial in
      if same k []
      then (s, some serial_empty)
      else if has_key serial_of k s.entries
      then save saved (record s { entries = remove_key serial_of k s.entries })
      else (s, none)

  -- `Has`
  unfoldable pub has : Bytes → CrlStore → Bool
  has serial s =
      let k = normalize_serial serial in if same k [] then false else has_key serial_of k s.entries

-- `List`
unfoldable pub list : CrlStore → List RevokedRecord
list s = s.entries
