-- ===== src/Webui/Users/Roles.antt =====
-- Which operations on users keep an administrator.
use ai_scan_interceptor.Base.{
  ℕ, ◌≡◌, ◌≢◌, refl, Bool, true, WriteResult, Option, none, some, List, [], ◌∷◌, arith, Bytes, same,
  same_iff, find_key, update_key, remove_key,
}
use ai_scan_interceptor.Webui.Users
use ai_scan_interceptor.Webui.Users.{
  User, UserStore, UserError, id_of, role_admin, is_role, save, change_user, update_role,
  update_hash, update_password, unlock, unlock_user, min_password_len, is_admin,
}

abbrev pub admin_in : Bytes → UserStore → Bool
admin_in id s = is_admin (find_key id_of id s.users)

-- a change of one user keeps the administrators that it keeps itself
changed-admin :
    (f : User → User) (k id : Bytes) (us : List User)
    → ((u : User) → (f u).id ≡ u.id)
    → ((u : User) → k ≡ id → is_admin (some u) ≡ true → is_admin (some (f u)) ≡ true)
    → is_admin (find_key id_of k us) ≡ true
    → is_admin (find_key id_of k (update_key id_of id f us)) ≡ true
unfolding find_key update_key
changed-admin f k id [] keeps good h = h
changed-admin f k id (u ∷ us) keeps good h =
    ground (
      arith,
      keeps u,
      good u,
      same_iff u.id k,
      same_iff u.id id,
      changed-admin f k id us keeps good,
    )

removed-admin :
    (k id : Bytes) (us : List User)
    → k ≢ id
    → is_admin (find_key id_of k us) ≡ true
    → is_admin (find_key id_of k (remove_key id_of id us)) ≡ true
unfolding find_key remove_key
removed-admin k id [] n h = h
removed-admin k id (u ∷ us) n h =
    ground (arith, same_iff u.id k, same_iff u.id id, removed-admin k id us n)

change_user-admin :
    (saved : WriteResult) (f : User → User) (k id : Bytes) (s : UserStore)
    → ((u : User) → (f u).id ≡ u.id)
    → ((u : User) → k ≡ id → is_admin (some u) ≡ true → is_admin (some (f u)) ≡ true)
    → admin_in k s ≡ true
    → admin_in k (change_user saved id f s).0 ≡ true
unfolding change_user save
change_user-admin saved f k id s keeps good h =
    ground (arith, changed-admin f k id s.users keeps good h)

update_hash-admin :
    (generate : Bytes → Option Bytes) (now : ℕ) (saved : WriteResult) (k id : Bytes)
    (o : Option Bytes) (s : UserStore)
    → admin_in k s ≡ true
    → admin_in k (update_hash generate now saved id o s).0 ≡ true
unfolding update_hash
update_hash-admin generate now saved k id none s h = h
update_hash-admin generate now saved k id (some p) s h =
    change_user-admin saved (λ u. record u { password_hash = p; updated_at = now }) k id s
      (λ u. refl) (λ u q w. w) h

pub update_password-admin :
    (generate : Bytes → Option Bytes) (now : ℕ) (saved : WriteResult) (k id p : Bytes)
    (s : UserStore)
    → admin_in k s ≡ true
    → admin_in k (update_password generate now saved id p s).0 ≡ true
unfolding update_password
update_password-admin generate now saved k id p s h =
    ground (arith, update_hash-admin generate now saved k id (generate p) s h)

pub update_role-admin :
    (now : ℕ) (saved : WriteResult) (k id role : Bytes) (s : UserStore)
    → (k ≡ id → same role role_admin ≡ true)
    → admin_in k s ≡ true
    → admin_in k (update_role now saved id role s).0 ≡ true
unfolding update_role
update_role-admin now saved k id role s good h = ground (
  arith,
  change_user-admin saved (λ u. record u { role = role; updated_at = now }) k id s (λ u. refl)
      (λ u q w. good q) h,
)

pub delete-admin :
    (saved : WriteResult) (k id : Bytes) (s : UserStore)
    → k ≢ id
    → admin_in k s ≡ true
    → admin_in k (Users.delete saved id s).0 ≡ true
unfolding Users.delete save
delete-admin saved k id s n h = ground (arith, removed-admin k id s.users n h)

pub unlock_user-admin :
    (k id : Bytes) (s : UserStore) → admin_in k s ≡ true → admin_in k (unlock_user id s).0 ≡ true
unfolding unlock_user
unlock_user-admin k id s h =
    ground (arith, changed-admin unlock k id s.users (λ u. refl) (λ u q w. w) h)
