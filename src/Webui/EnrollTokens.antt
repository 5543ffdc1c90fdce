-- ===== src/Webui/EnrollTokens.antt =====
-- The enrollment tokens of the dashboard: webui/enrolltoken.go, under the lock of
-- webui/filelock.go. Time, in seconds, the random plaintext and identifier, the hash function and
-- the outcomes of the lock and of the write are arguments.
pub mod Limits
pub mod Failure
use ai_scan_interceptor.Base.{
  ℕ, ◌+◌, ◌*◌, Bool, true, false, Option, none, some, List, [], ◌∷◌, ◌++◌, if◌then◌else◌, ltb,
  Bytes, same, length, take, find_key, update_key, remove_key, has_key, File, missing, unreadable,
  empty, malformed, holds, write_file, ℤ, positive_or,
}
use ai_scan_interceptor.TlsProxy.DeviceStore.{LockOutcome, acquired, timed_out, lock_error}

-- `EnrollToken`
pub record EnrollToken : Type 0 where
  pub id : Bytes
  pub description : Bytes
  pub token_hash : Bytes
  pub created_at : ℕ
  pub created_by : Bytes
  pub expires_at : ℕ
  pub max_uses : ℕ
  pub used_count : ℕ
  pub revoked : Bool
  pub revoked_at : Option ℕ

abbrev pub token_id : EnrollToken → Bytes
token_id t = t.id

-- `EnrollTokenStore` and its file
pub record EnrollTokenStore : Type 0 where
  pub tokens : List EnrollToken
  pub disk : File (List EnrollToken)

pub data TokenError : Type 0 where
  hours_too_large uses_too_large lock_timeout lock_failed : TokenError
  read_failed parse_failed write_failed token_not_found : TokenError

abbrev pub Status : Type 0
Status = Option TokenError

abbrev pub Outcome : Type 0
Outcome = EnrollTokenStore × Status

-- `if err != nil { return err }`
abbrev pub and_then : Outcome → (EnrollTokenStore → Outcome) → Outcome
and_then (s, some e) k = (s, some e)
and_then (s, none) k = k s

-- `load`
load : File (List EnrollToken) → EnrollTokenStore → Outcome
load missing s = (s, some read_failed)
load unreadable s = (s, some read_failed)
load empty s = (record s { tokens = [] }, none)
load malformed s = (s, some parse_failed)
load (holds ts) s = (record s { tokens = ts }, none)

-- `newEnrollTokenStore`; a missing file is an empty store
unfoldable pub new_enroll_token_store : File (List EnrollToken) → Option EnrollTokenStore
unfolding load
new_enroll_token_store missing = some (record { tokens = []; disk = missing })
new_enroll_token_store disk = elim (load disk (record { tokens = []; disk = disk })).1 [
  | none ↦ some (load disk (record { tokens = []; disk = disk })).0
  | some e ↦ none
]

reload_file : File (List EnrollToken) → EnrollTokenStore → Outcome
reload_file missing s = (record s { tokens = [] }, none)
reload_file unreadable s = (s, some read_failed)
reload_file empty s = (record s { tokens = [] }, none)
reload_file malformed s = (s, some parse_failed)
reload_file (holds ts) s = (record s { tokens = ts }, none)

-- `reloadFromDiskUnlocked`
unfoldable pub reload : EnrollTokenStore → Outcome
unfolding reload_file
reload s = reload_file s.disk s

-- `saveUnlocked`
unfoldable pub save : Bool → EnrollTokenStore → Outcome
save saved s = (
  record s { disk = write_file saved s.tokens s.disk },
  if saved then none else some write_failed,
)

-- `WithFlock`
unfoldable pub with_flock : LockOutcome → (EnrollTokenStore → Outcome) → EnrollTokenStore → Outcome
with_flock acquired body s = body s
with_flock timed_out body s = (s, some lock_timeout)
with_flock lock_error body s = (s, some lock_failed)

-- `CreateOptions`
pub record CreateOptions : Type 0 where
  pub description : Bytes
  pub expires_in_hours : ℤ
  pub max_uses : ℤ
  pub created_by : Bytes

-- the record that `Create` makes
abbrev pub new_token : (Bytes → Bytes) → ℕ → Bytes → Bytes → CreateOptions → EnrollToken
new_token hash_token now id plaintext opt = record {
  id = id;
  description = opt.description;
  token_hash = hash_token plaintext;
  created_at = now;
  created_by = opt.created_by;
  expires_at = now + positive_or 24 opt.expires_in_hours * 3600;
  max_uses = positive_or 1 opt.max_uses;
  used_count = 0;
  revoked = false;
  revoked_at = none;
}

-- the append, undone in memory when the write fails
append_token : Bool → EnrollToken → EnrollTokenStore → Outcome
append_token true t s =
    let ts = s.tokens ++ t ∷ [] in (record s { tokens = ts; disk = holds ts }, none)
append_token false t s =
    let ts = s.tokens ++ t ∷ [] in
    (record s { tokens = take (length s.tokens) ts }, some write_failed)

create_checked : LockOutcome → Bool → EnrollToken → EnrollTokenStore → Outcome
unfolding with_flock reload append_token
create_checked lock saved t s = with_flock lock (λ u. and_then (reload u) (append_token saved t)) s

-- `Create`, whose result is the new record when there is no error
unfoldable pub create :
    (Bytes → Bytes)
    → LockOutcome
    → Bool
    → ℕ
    → Bytes
    → Bytes
    → CreateOptions
    → EnrollTokenStore
    → Outcome
unfolding create_checked
create hash_token lock saved now id plaintext opt s =
    if ltb 720 (positive_or 24 opt.expires_in_hours)
    then (s, some hours_too_large)
    else if ltb 1000 (positive_or 1 opt.max_uses)
    then (s, some uses_too_large)
    else create_checked lock saved (new_token hash_token now id plaintext opt) s

-- `List` and `GetByID`
unfoldable pub list : EnrollTokenStore → List EnrollToken
list s = s.tokens

unfoldable pub get_by_id : Bytes → EnrollTokenStore → Option EnrollToken
get_by_id id s = find_key token_id id s.tokens

-- `Reload`
unfoldable pub reload_locked : LockOutcome → EnrollTokenStore → Outcome
unfolding with_flock reload
reload_locked lock s = with_flock lock reload s

-- `t.Revoked = true; t.RevokedAt = &now`
abbrev pub mark_revoked : ℕ → EnrollToken → EnrollToken
mark_revoked now t = record t { revoked = true; revoked_at = some now }

revoke_found : ℕ → Bool → Bytes → Option EnrollToken → EnrollTokenStore → Outcome
unfolding save
revoke_found now saved id none s = (s, some token_not_found)
revoke_found now saved id (some t) s =
    if t.revoked
    then (s, none)
    else save saved (record s { tokens = update_key token_id id (mark_revoked now) s.tokens })

-- `Revoke`
unfoldable pub revoke : LockOutcome → ℕ → Bool → Bytes → EnrollTokenStore → Outcome
unfolding with_flock reload revoke_found
revoke lock now saved id s =
    with_flock lock
      (λ u. and_then (reload u) λ v. revoke_found now saved id (find_key token_id id v.tokens) v) s

-- `Delete`
unfoldable pub delete : LockOutcome → Bool → Bytes → EnrollTokenStore → Outcome
unfolding with_flock reload save
delete lock saved id s =
    with_flock lock
      (λ u. and_then (reload u) λ v.
        if has_key token_id id v.tokens
        then save saved (record v { tokens = remove_key token_id id v.tokens })
        else (v, some token_not_found))
      s
