-- ===== src/TlsProxy/Enroll.antt =====
-- The enrollment endpoint: tls-proxy/enroll.go. Time, the outcome of locks and writes, the parsed
-- request and what the cryptographic library returns are arguments. Time 0 is Go's zero time.
pub mod Once
pub mod Issue
pub mod Retry
use ai_scan_interceptor.Base.{
  ℕ, suc, ◌+◌, Bool, true, false, not, ◌&&◌, ◌||◌, Option, none, some, List, [], ◌∷◌, ◌++◌,
  if◌then◌else◌, ltb, ◌==◌, Bytes, codes, same, find_key, update_key, File, missing, unreadable,
  empty, malformed, holds, write_file,
}
use ai_scan_interceptor.Strings.{trim_space}
use ai_scan_interceptor.TlsProxy.Serial.{text16, normalize_serial_hex}
use ai_scan_interceptor.Webui.DeviceStore.{Device}
use ai_scan_interceptor.TlsProxy.DeviceStore.{
  LockOutcome, acquired, timed_out, lock_error, AppendError, flock_timeout, append_device,
}

-- `enrollToken`
pub record EnrollToken : Type 0 where
  pub token : Bytes
  pub org_id : Bytes
  pub user : Bytes
  pub expires_at : ℕ
  pub consumed_at : ℕ
  pub used_count : ℕ

abbrev pub token_of : EnrollToken → Bytes
token_of t = t.token

pub data EnrollError : Type 0 where
  lock_timeout lock_failed read_failed already_consumed expired not_found persist_failed :
      EnrollError

pub data Result {ℓ} (A : Type ℓ) : Type ℓ where
  ok : A → Result A
  err : EnrollError → Result A

-- `readTokenStore`
unfoldable pub read_token_store : File (List EnrollToken) → Option (List EnrollToken)
read_token_store missing = some []
read_token_store unreadable = none
read_token_store empty = some []
read_token_store malformed = none
read_token_store (holds ts) = some ts

-- `t.ConsumedAt = now; t.UsedCount++`
abbrev pub mark_consumed : ℕ → EnrollToken → EnrollToken
mark_consumed now t = record t { consumed_at = now; used_count = t.used_count + 1 }

consume_found :
    ℕ
    → Bool
    → Bytes
    → List EnrollToken
    → Option EnrollToken
    → File (List EnrollToken)
    → File (List EnrollToken) × Result EnrollToken
consume_found now saved token ts none file = (file, err not_found)
consume_found now saved token ts (some t) file =
    if not (t.consumed_at == 0)
    then (file, err already_consumed)
    else if not (t.expires_at == 0) && ltb t.expires_at now
    then (file, err expired)
    else (
      write_file saved (update_key token_of token (mark_consumed now) ts) file,
      if saved then ok (mark_consumed now t) else err persist_failed,
    )

consume_locked :
    ℕ
    → Bool
    → Bytes
    → Option (List EnrollToken)
    → File (List EnrollToken)
    → File (List EnrollToken) × Result EnrollToken
unfolding consume_found
consume_locked now saved token none file = (file, err read_failed)
consume_locked now saved token (some ts) file =
    consume_found now saved token ts (find_key token_of token ts) file

-- `consumeEnrollToken`
unfoldable pub consume :
    LockOutcome
    → ℕ
    → Bool
    → Bytes
    → File (List EnrollToken)
    → File (List EnrollToken) × Result EnrollToken
unfolding consume_locked read_token_store
consume acquired now saved token file = consume_locked now saved token (read_token_store file) file
consume timed_out now saved token file = (file, err lock_timeout)
consume lock_error now saved token file = (file, err lock_failed)

-- the subject and the check of a parsed certificate request
pub record Csr : Type 0 where
  pub common_name : Bytes
  pub signature_valid : Bool

-- `pickCommonName`
unfoldable pub pick_common_name : EnrollToken → Csr → Bytes
pick_common_name t csr =
    if same t.user []
    then (let cn = trim_space csr.common_name in if same cn [] then codes "unknown@unknown" else cn)
    else t.user

-- `enrollRequest`; `csr` is also what the parser makes of the text
pub record EnrollRequest : Type 0 where
  pub csr_text : Bytes
  pub csr : Option Csr
  pub enrollment_token : Bytes

-- what the environment decides during one request
pub record Env : Type 0 where
  pub is_post : Bool
  pub body : Option EnrollRequest
  pub tokens_lock : LockOutcome
  pub tokens_saved : Bool
  pub now : ℕ
  pub not_after : ℕ
  pub issued_serial : Option ℕ
  pub has_devices_file : Bool
  pub device_id : Option Bytes
  pub devices_lock : LockOutcome
  pub devices_saved : Bool

-- the two shared files
pub record Files : Type 0 where
  pub tokens : File (List EnrollToken)
  pub devices : File (List Device)

-- an issued certificate
pub record Certificate : Type 0 where
  pub common_name : Bytes
  pub organization : Bytes
  pub serial : ℕ
  pub not_after : ℕ

-- an HTTP status with the error text left out
pub data Response : Type 0 where
  status : ℕ → Response
  issued : Certificate → Response

-- only a busy token file is worth a retry
abbrev pub refusal_code : EnrollError → ℕ
refusal_code lock_timeout = 503
refusal_code _ = 401

module _ (lower_runes : Bytes → Bytes) where
  -- the record of `persistDevice`
  abbrev pub new_device : Env → Certificate → Bytes → Device
  new_device e c id = record {
    device_id = id;
    subject = c.common_name;
    org = c.organization;
    serial_hex = normalize_serial_hex lower_runes (text16 c.serial);
    issued_at = e.now;
    expires_at = e.not_after;
    revoked = false;
    revoked_at = none;
    last_seen = none;
  }

  -- `persistDevice`
  persist_device : Env → Certificate → File (List Device) → File (List Device) × Option AppendError
  persist_device e c file =
      if e.has_devices_file
      then elim e.device_id [
        | none ↦ (file, some AppendError.persist_error)
        | some id ↦ append_device e.devices_lock e.devices_saved (new_device e c id) file
      ]
      else (file, none)

  -- only a lock timeout of the registry withholds the certificate
  answer : Certificate → Option AppendError → Response
  answer c (some flock_timeout) = status 503
  answer c _ = issued c

  -- the certificate that `signCSR` makes for the token's identity
  abbrev pub certify : Env → Csr → EnrollToken → ℕ → Certificate
  certify e csr t n = record {
    common_name = pick_common_name t csr;
    organization = t.org_id;
    serial = n;
    not_after = e.not_after;
  }

  issue_signed : Env → Certificate → Files → Files × Response
  unfolding persist_device answer
  issue_signed e c f =
      let (devices, r) = persist_device e c f.devices in
      (record f { devices = devices }, answer c r)

  -- the rest of the handler once the token is consumed
  issue : Env → Csr → EnrollToken → Option ℕ → Files → Files × Response
  unfolding issue_signed
  issue e csr t none f = (f, status 500)
  issue e csr t (some n) f = issue_signed e (certify e csr t n) f

  -- the token's outcome decides
  after_consume : Env → Csr → Result EnrollToken → Files → Files × Response
  unfolding issue
  after_consume e csr (err x) f = (f, status (refusal_code x))
  after_consume e csr (ok t) f = issue e csr t e.issued_serial f

  enroll_csr : Env → EnrollRequest → Option Csr → Files → Files × Response
  unfolding after_consume
  enroll_csr e r none f = (f, status 400)
  enroll_csr e r (some csr) f =
      if csr.signature_valid
      then (let (tokens, out) =
            consume e.tokens_lock e.now e.tokens_saved r.enrollment_token f.tokens in
          after_consume e csr out (record f { tokens = tokens }))
      else (f, status 400)

  enroll_body : Env → Option EnrollRequest → Files → Files × Response
  unfolding enroll_csr
  enroll_body e none f = (f, status 400)
  enroll_body e (some r) f =
      if same (trim_space r.csr_text) [] || same (trim_space r.enrollment_token) []
      then (f, status 400)
      else enroll_csr e r r.csr f

  -- `handleEnroll`
  unfoldable pub handle_enroll : Env → Files → Files × Response
  unfolding enroll_body
  handle_enroll e f = if e.is_post then enroll_body e e.body f else (f, status 405)
