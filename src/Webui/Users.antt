-- ===== src/Webui/Users.antt =====
-- The users of the dashboard: webui/auth.go. The list stands for the map in the order of its
-- iteration. Time, in seconds with 0 for Go's zero time, generated identifiers, bcrypt and the
-- outcome of each write are arguments.
pub mod Lockout
pub mod Roles
use ai_scan_interceptor.Base.{
  ℕ, suc, ◌+◌, Bool, true, false, not, ◌&&◌, ◌||◌, Option, none, some, List, [], ◌∷◌, ◌++◌, map,
  if◌then◌else◌, ltb, leb, Bytes, codes, same, length, find_key, has_key, update_key, remove_key,
  File, missing, unreadable, empty, malformed, holds, WriteResult, is_written, overwrite_file,
}

abbrev pub role_admin : Bytes
role_admin = codes "admin"

abbrev pub role_user : Bytes
role_user = codes "user"

abbrev pub min_password_len : ℕ
min_password_len = 12

-- `User`
pub record User : Type 0 where
  pub id : Bytes
  pub username : Bytes
  pub password_hash : Bytes
  pub role : Bytes
  pub created_at : ℕ
  pub updated_at : ℕ
  pub failed_logins : ℕ
  pub locked_until : ℕ

abbrev pub id_of : User → Bytes
id_of u = u.id

abbrev pub name_of : User → Bytes
name_of u = u.username

-- `UserStore` and its file
pub record UserStore : Type 0 where
  pub users : List User
  pub disk : File (List User)

pub data UserError : Type 0 where
  password_too_short invalid_role bcrypt_failed username_exists user_not_found : UserError
  read_failed parse_failed write_failed : UserError

abbrev pub Status : Type 0
Status = Option UserError

abbrev pub Outcome : Type 0
Outcome = UserStore × Status

-- `s.users[u.ID] = u`
put : User → List User → List User
put u us = if has_key id_of u.id us then update_key id_of u.id (λ v. u) us else us ++ u ∷ []

put_all : List User → List User → List User
unfolding put
put_all [] us = us
put_all (u ∷ vs) us = put_all vs (put u us)

-- what the `json:"-"` tags leave of a user
abbrev pub persisted : User → User
persisted u = record u { failed_logins = 0; locked_until = 0 }

-- `saveUnlocked`
unfoldable pub save : WriteResult → UserStore → Outcome
save saved s = (
  record s { disk = overwrite_file saved (map persisted s.users) s.disk },
  if is_written saved then none else some write_failed,
)

-- `load`, for the file's content
load : File (List User) → Option (List User)
unfolding put_all
load (holds us) = some (put_all us [])
load _ = none

-- `createDefaultAdmin`, which ends the program when the write fails
create_default_admin : WriteResult → User → UserStore → Option UserStore
unfolding save put
create_default_admin saved admin s =
    if is_written saved then some (save saved (record s { users = put admin s.users })).0 else none

-- `len(s.users) == 0` after loading
ensure_admin : WriteResult → User → UserStore → Option UserStore
unfolding create_default_admin
ensure_admin saved admin s = elim s.users [
  | [] ↦ create_default_admin saved admin s
  | u ∷ us ↦ some s
]

-- `newUserStore`; only a missing file may fail to load
unfoldable pub new_user_store : WriteResult → User → File (List User) → Option UserStore
unfolding load ensure_admin
new_user_store saved admin missing =
    ensure_admin saved admin (record { users = []; disk = missing })
new_user_store saved admin disk = elim (load disk) [
  | none ↦ none
  | some us ↦ ensure_admin saved admin (record { users = us; disk = disk })
]

-- what `Authenticate` returns; the two failures of credentials have one message
pub data AuthResult : Type 0 where
  unknown_user wrong_password account_locked : AuthResult
  authenticated : User → AuthResult

-- `found.FailedLogins++`, and the lock from the tenth failure on
abbrev pub count_failure : ℕ → User → User
count_failure later u =
    let n = suc u.failed_logins in
    if leb 10 n
    then record u { failed_logins = n; locked_until = later + 1800 }
    else record u { failed_logins = n }

abbrev pub clear_failures : User → User
clear_failures u = record u { failed_logins = 0 }

module _ (compare_hash : Bytes → Bytes → Bool) where
  authenticate_found : ℕ → ℕ → Bytes → Bytes → Option User → UserStore → UserStore × AuthResult
  authenticate_found now later username password none s = (s, unknown_user)
  authenticate_found now later username password (some u) s =
      if ltb now u.locked_until
      then (s, account_locked)
      else if compare_hash u.password_hash password
      then (
        record s { users = update_key name_of username clear_failures s.users },
        authenticated (clear_failures u),
      )
      else (
        record s { users = update_key name_of username (count_failure later) s.users },
        wrong_password,
      )

  -- `Authenticate`, which reads the clock at `now` and, on a failure, at `later`
  unfoldable pub authenticate : ℕ → ℕ → Bytes → Bytes → UserStore → UserStore × AuthResult
  unfolding authenticate_found
  authenticate now later username password s =
      authenticate_found now later username password (find_key name_of username s.users) s

-- `GetByID`
unfoldable pub get_by_id : Bytes → UserStore → Option User
get_by_id id s = find_key id_of id s.users

-- `role != RoleAdmin && role != RoleUser`, negated
unfoldable pub is_role : Bytes → Bool
is_role role = same role role_admin || same role role_user

-- the record that `Create` makes
abbrev pub new_user : ℕ → Bytes → Bytes → Bytes → Bytes → User
new_user now id username hash role = record {
  id = id;
  username = username;
  password_hash = hash;
  role = role;
  created_at = now;
  updated_at = now;
  failed_logins = 0;
  locked_until = 0;
}

create_hashed : ℕ → WriteResult → Bytes → Bytes → Bytes → Option Bytes → UserStore → Outcome
unfolding save put
create_hashed now saved id username role none s = (s, some bcrypt_failed)
create_hashed now saved id username role (some h) s =
    if has_key name_of username s.users
    then (s, some username_exists)
    else save saved (record s { users = put (new_user now id username h role) s.users })

-- `s.users[id]` changed in place, then saved
change_user : WriteResult → Bytes → (User → User) → UserStore → Outcome
unfolding save
change_user saved id f s =
    if has_key id_of id s.users
    then save saved (record s { users = update_key id_of id f s.users })
    else (s, some user_not_found)

-- `UpdateRole`
unfoldable pub update_role : ℕ → WriteResult → Bytes → Bytes → UserStore → Outcome
unfolding change_user is_role
update_role now saved id role s =
    if is_role role
    then change_user saved id (λ u. record u { role = role; updated_at = now }) s
    else (s, some invalid_role)

module _ (generate : Bytes → Option Bytes) where
  -- `Create`
  unfoldable pub create : ℕ → WriteResult → Bytes → Bytes → Bytes → Bytes → UserStore → Outcome
  unfolding create_hashed is_role
  create now saved id username password role s =
      if ltb (length password) min_password_len
      then (s, some password_too_short)
      else if is_role role
      then create_hashed now saved id username role (generate password) s
      else (s, some invalid_role)

  update_hash : ℕ → WriteResult → Bytes → Option Bytes → UserStore → Outcome
  unfolding change_user
  update_hash now saved id none s = (s, some bcrypt_failed)
  update_hash now saved id (some h) s =
      change_user saved id (λ u. record u { password_hash = h; updated_at = now }) s

  -- `UpdatePassword`
  unfoldable pub update_password : ℕ → WriteResult → Bytes → Bytes → UserStore → Outcome
  unfolding update_hash
  update_password now saved id password s =
      if ltb (length password) min_password_len
      then (s, some password_too_short)
      else update_hash now saved id (generate password) s

-- `Delete`
unfoldable pub delete : WriteResult → Bytes → UserStore → Outcome
unfolding save
delete saved id s =
    if has_key id_of id s.users
    then save saved (record s { users = remove_key id_of id s.users })
    else (s, some user_not_found)

abbrev pub unlock : User → User
unlock u = record u { failed_logins = 0; locked_until = 0 }

-- `UnlockUser` and `UnlockUserByName`
unfoldable pub unlock_user : Bytes → UserStore → Outcome
unlock_user id s =
    if has_key id_of id s.users
    then (record s { users = update_key id_of id unlock s.users }, none)
    else (s, some user_not_found)

unfoldable pub unlock_user_by_name : Bytes → UserStore → Outcome
unlock_user_by_name username s =
    if has_key name_of username s.users
    then (record s { users = update_key name_of username unlock s.users }, none)
    else (s, some user_not_found)

-- `ok && u.Role == RoleAdmin`, for the result of `GetByID`
abbrev pub is_admin : Option User → Bool
is_admin none = false
is_admin (some u) = same u.role role_admin

count_admins : List User → ℕ
count_admins [] = 0
count_admins (u ∷ us) =
    let rest = count_admins us in if same u.role role_admin then suc rest else rest

-- `AdminCount`
unfoldable pub admin_count : UserStore → ℕ
unfolding count_admins
admin_count s = count_admins s.users
