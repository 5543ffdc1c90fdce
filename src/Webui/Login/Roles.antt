-- ===== src/Webui/Login/Roles.antt =====
-- What user management leaves of an administrator.
use ai_scan_interceptor.Base.{ℕ, ◌≡◌, refl, true, Option, none, some, arith, Bytes, codes, same_iff}
use ai_scan_interceptor.Strings.{trim_prefix}
use ai_scan_interceptor.Webui.Users
use ai_scan_interceptor.Webui.Users.{
  User, UserStore, UserError, id_of, role_admin, update_role, update_password, unlock_user,
  is_admin,
}
use ai_scan_interceptor.Webui.Login.{
  App, Method, method_get, method_post, method_put, method_delete, method_other, UserEnv,
  UserRequest, drop_sessions, finish, put_password, put_role, delete_user, user_route,
  handle_user_by_id, split_path,
}
use ai_scan_interceptor.Webui.Sessions.{Session}
use ai_scan_interceptor.Webui.Users.Roles.{
  admin_in, update_password-admin, update_role-admin, delete-admin, unlock_user-admin,
}

-- answering adds nothing to what the operation did
finish-users :
    (code : ℕ) (after : App → App) (o : Users.Outcome) (a : App)
    → ((b : App) → (after b).users ≡ b.users)
    → (finish code after o a).0.users ≡ o.0
unfolding finish
finish-users code after (users, some e) a same_users = refl
finish-users code after (users, none) a same_users = same_users (record a { users = users })

put_password-admin :
    (e : UserEnv) (o : Option Bytes) (actor : Session) (id : Bytes) (a : App)
    → admin_in actor.user_id a.users ≡ true
    → admin_in actor.user_id (put_password e o actor id a).0.users ≡ true
unfolding put_password
put_password-admin e none actor id a h = ground arith
put_password-admin e (some p) actor id a h = ground (
  arith,
  finish-users 400 (drop_sessions id) (update_password e.generate e.now e.saved id p a.users) a
      (λ b. refl),
  update_password-admin e.generate e.now e.saved actor.user_id id p a.users h,
)

put_role-admin :
    (e : UserEnv) (o : Option Bytes) (actor : Session) (id : Bytes) (a : App)
    → admin_in actor.user_id a.users ≡ true
    → admin_in actor.user_id (put_role e o actor id a).0.users ≡ true
unfolding put_role
put_role-admin e none actor id a h = h
put_role-admin e (some r) actor id a h = ground (
  arith,
  same_iff actor.user_id id,
  finish-users 400 (drop_sessions id) (update_role e.now e.saved id r a.users) a (λ b. refl),
  update_role-admin e.now e.saved actor.user_id id r a.users,
)

delete_user-admin :
    (e : UserEnv) (actor : Session) (id : Bytes) (a : App)
    → admin_in actor.user_id a.users ≡ true
    → admin_in actor.user_id (delete_user e actor id a).0.users ≡ true
unfolding delete_user
delete_user-admin e actor id a h = ground (
  arith,
  same_iff actor.user_id id,
  finish-users 404 (drop_sessions id) (Users.delete e.saved id a.users) a (λ b. refl),
  delete-admin e.saved actor.user_id id a.users,
)

unlock-admin :
    (k id : Bytes) (a : App)
    → admin_in k a.users ≡ true
    → admin_in k (finish 404 (λ b. b) (unlock_user id a.users) a).0.users ≡ true
unlock-admin k id a h =
    rw (finish-users 404 (λ b. b) (unlock_user id a.users) a (λ b. refl))
      (unlock_user-admin k id a.users h)

user_route-admin :
    (e : UserEnv) (r : UserRequest) (actor : Session) (id sub : Bytes) (m : Method) (a : App)
    → admin_in actor.user_id a.users ≡ true
    → admin_in actor.user_id (user_route e r actor id sub m a).0.users ≡ true
unfolding user_route
user_route-admin e r actor id sub method_get a h = h
user_route-admin e r actor id sub method_post a h =
    ground (arith, unlock-admin actor.user_id id a h)
user_route-admin e r actor id sub method_put a h =
    ground
      (arith, put_password-admin e r.password actor id a h, put_role-admin e r.role actor id a h)
user_route-admin e r actor id sub method_delete a h =
    ground (arith, delete_user-admin e actor id a h)
user_route-admin e r actor id sub method_other a h = h

-- An administrator of the user store who manages users, whatever the request and whether the
-- write succeeds, is still in the store and an administrator after it.
pub handle_user_by_id-admin :
    (e : UserEnv) (r : UserRequest) (actor : Session) (a : App)
    → is_admin (Users.get_by_id actor.user_id a.users) ≡ true
    → is_admin (Users.get_by_id actor.user_id (handle_user_by_id e r actor a).0.users) ≡ true
unfolding handle_user_by_id Users.get_by_id
handle_user_by_id-admin e r actor a h =
    let p = split_path (trim_prefix r.path (codes "/api/users/")) in
    ground (arith, user_route-admin e r actor p.0 p.1 r.method a h)
