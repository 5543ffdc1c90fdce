-- ===== src/Webui/Devices.antt =====
-- The pages on devices, enrollment tokens and revoked serials: webui/handler.go, on the stores of
-- Webui.DeviceStore, Webui.EnrollTokens and Webui.CrlStore. Each runs behind `requireAdmin`. Time,
-- random values and the outcomes of writes and locks are arguments, as for the stores.
use ai_scan_interceptor.Base.{
  ℕ, suc, Bool, true, false, ◌&&◌, ◌||◌, Option, none, some, List, [], if◌then◌else◌, Bytes, codes,
  same, take, drop, is_some, ℤ,
}
use ai_scan_interceptor.Strings.{trim_prefix, index_byte}
use ai_scan_interceptor.TlsProxy.Crl.{RevokedRecord}
use ai_scan_interceptor.TlsProxy.DeviceStore.{LockOutcome}
use ai_scan_interceptor.Webui.CrlStore
use ai_scan_interceptor.Webui.CrlStore.{CrlStore}
use ai_scan_interceptor.Webui.DeviceStore
use ai_scan_interceptor.Webui.DeviceStore.{Device, DeviceStore, DeviceError, device_not_found}
use ai_scan_interceptor.Webui.EnrollTokens
use ai_scan_interceptor.Webui.EnrollTokens.{
  EnrollToken, EnrollTokenStore, TokenError, token_not_found, CreateOptions,
}
use ai_scan_interceptor.Webui.Login.{is_post, Method, method_get, method_post, method_delete}

-- a page: a status without a body, or the value that is shown with 200 or 201
pub data Page {ℓ} (A : Type ℓ) : Type ℓ where
  status : ℕ → Page A
  shown : A → Page A

-- `handleRevoked`; an error of the reload leaves the list in memory
unfoldable pub handle_revoked : Method → CrlStore → CrlStore × Page (List RevokedRecord)
handle_revoked method_get c = let t = (CrlStore.reload c).0 in (t, shown (CrlStore.list t))
handle_revoked _ c = (c, status 405)

-- `store.load()`, whose errors only are logged: what is not read stays as it is in memory
refreshed : Option (List Device) → DeviceStore → DeviceStore
refreshed none s = s
refreshed (some ds) s = record s { devices = ds }

unfoldable pub refresh : DeviceStore → DeviceStore
unfolding refreshed DeviceStore.load
refresh s = refreshed (DeviceStore.load s.disk) s

-- `handleDevices`
unfoldable pub handle_devices : Method → DeviceStore → DeviceStore × Page (List Device)
unfolding refresh
handle_devices method_get s = (refresh s, shown (DeviceStore.list (refresh s)))
handle_devices _ s = (s, status 405)

-- `{id}` and what follows the first slash after it
unfoldable pub split_path : Bytes → Option ℕ → Bytes × Bytes
split_path rest none = (rest, [])
split_path rest (some i) = (take i rest, drop (suc i) rest)

unfoldable pub device_path : Bytes → Bytes × Bytes
unfolding split_path trim_prefix index_byte
device_path path =
    let rest = trim_prefix path (codes "/api/devices/") in split_path rest (index_byte rest b'/')

device_page : Option Device → Page Device
device_page none = status 404
device_page (some d) = shown d

-- the answer to a revocation
unfoldable pub revoke_status : DeviceStore.Status → Page Device
revoke_status none = status 204
revoke_status (some device_not_found) = status 404
revoke_status (some e) = status 500

is_get : Method → Bool
is_get method_get = true
is_get _ = false

-- `handleDeviceByID`, with the revocation at hand
unfoldable pub device_by_id :
    (Bytes → DeviceStore → DeviceStore.Outcome)
    → Method
    → Bytes × Bytes
    → DeviceStore
    → DeviceStore × Page Device
unfolding device_page refresh revoke_status is_get
device_by_id revoke method (id, sub) s =
    let (t, e) = revoke id s in
    if same id []
    then (s, status 400)
    else if same sub [] && is_get method
    then (refresh s, device_page (DeviceStore.get_by_id id (refresh s)))
    else if same sub (codes "revoke") && is_post method
    then (t, revoke_status e)
    else (s, status 405)

unfoldable pub handle_device_by_id :
    (Bytes → Bytes) → ℕ → Bool → ℕ → Bool → Method → Bytes → DeviceStore → DeviceStore × Page Device
unfolding device_by_id device_path
handle_device_by_id lower_runes now saved crl_now crl_saved method path s =
    device_by_id (DeviceStore.revoke lower_runes now saved crl_now crl_saved) method
      (device_path path) s

-- the body of a POST to `/api/enroll-tokens`
pub record TokenRequest : Type 0 where
  pub description : Bytes
  pub expires_in_hours : ℤ
  pub max_uses : ℤ

-- what `handleEnrollTokens` answers: the list, the plaintext of a new token, or a status
pub data TokenPage : Type 0 where
  token_status : ℕ → TokenPage
  tokens_listed : List EnrollToken → TokenPage
  token_created : Bytes → TokenPage

created : Bytes → EnrollTokens.Outcome → EnrollTokenStore × TokenPage
created plaintext (s, none) = (s, token_created plaintext)
created plaintext (s, some e) = (s, token_status 400)

post_token :
    (Bytes → Bytes)
    → LockOutcome
    → Bool
    → ℕ
    → Bytes
    → Bytes
    → Bytes
    → Option TokenRequest
    → EnrollTokenStore
    → EnrollTokenStore × TokenPage
unfolding created EnrollTokens.create
post_token hash_token lock saved now id plaintext actor none s = (s, token_status 400)
post_token hash_token lock saved now id plaintext actor (some r) s = created plaintext (
    EnrollTokens.create hash_token lock saved now id plaintext
      (record {
        description = r.description;
        expires_in_hours = r.expires_in_hours;
        max_uses = r.max_uses;
        created_by = actor;
      })
      s)

-- `handleEnrollTokens`; an error of the reload leaves the tokens in memory
unfoldable pub handle_enroll_tokens :
    (Bytes → Bytes)
    → LockOutcome
    → Bool
    → ℕ
    → Bytes
    → Bytes
    → Bytes
    → Method
    → Option TokenRequest
    → EnrollTokenStore
    → EnrollTokenStore × TokenPage
unfolding post_token EnrollTokens.reload_locked
handle_enroll_tokens hash_token lock saved now id plaintext actor method_get r s =
    let t = (EnrollTokens.reload_locked lock s).0 in (t, tokens_listed (EnrollTokens.list t))
handle_enroll_tokens hash_token lock saved now id plaintext actor method_post r s =
    post_token hash_token lock saved now id plaintext actor r s
handle_enroll_tokens hash_token lock saved now id plaintext actor _ r s = (s, token_status 405)

revoked_page : EnrollTokens.Status → TokenPage
revoked_page none = token_status 204
revoked_page (some token_not_found) = token_status 404
revoked_page (some e) = token_status 500

-- `handleEnrollTokenByID`
unfoldable pub handle_enroll_token_by_id :
    LockOutcome → ℕ → Bool → Method → Bytes → EnrollTokenStore → EnrollTokenStore × TokenPage
unfolding trim_prefix index_byte revoked_page
handle_enroll_token_by_id lock now saved method_delete path s =
    let id = trim_prefix path (codes "/api/enroll-tokens/") in
    let (t, e) = EnrollTokens.revoke lock now saved id s in
    if same id [] || is_some (index_byte id b'/')
    then (s, token_status 400)
    else (t, revoked_page e)
handle_enroll_token_by_id lock now saved method path s =
    let id = trim_prefix path (codes "/api/enroll-tokens/") in
    if same id [] || is_some (index_byte id b'/')
    then (s, token_status 400)
    else (s, token_status 405)
