-- ===== src/Webui/Login/Access.antt =====
-- Who reaches a handler, and which sessions outlive a change of their user.
use ai_scan_interceptor.Base.{
  ℕ, ◌≤◌, ◌≡◌, ◌≢◌, ◌⊎◌, inl, inr, refl, false, Option, none, some, arith, if◌then◌else◌, Bytes,
  codes, same, same→eq, find_key, has_key, Bool-cases,
}
use ai_scan_interceptor.Strings.{trim_prefix}
use ai_scan_interceptor.Webui.Users
use ai_scan_interceptor.Webui.Users.{role_admin, update_password, update_role}
use ai_scan_interceptor.Webui.Sessions.{Session, token_of}
use ai_scan_interceptor.Webui.Sessions.Expiry.{get-cases, user_of, delete_by_user_id-none}
use ai_scan_interceptor.Webui.Login.{
  App, Response, status, auth_session, require_auth, require_admin, Method, method_get, method_post,
  method_put, method_delete, method_other, UserEnv, UserRequest, drop_sessions, is_post, finish,
  put_password, put_role, delete_user, user_route, handle_user_by_id, split_path,
}

-- The handler did not run and no user changed, or it ran for a stored, live session of an
-- administrator.
unfoldable pub IsGuarded :
    ℕ → Option Bytes → (Session → App → App × Response) → App → App × Response → Type 0
IsGuarded now cookie next a out =
    ((out.0.users ≡ a.users)
      × (out.0.limits ≡ a.limits)
      × ((out.1 ≡ status 401) ⊎ (out.1 ≡ status 403)))
    ⊎ ((token : Bytes) × (s : Session) × (cookie ≡ some token)
        × (find_key token_of token a.sessions ≡ some s)
        × (now ≤ s.expires_at)
        × (s.role ≡ role_admin)
        × (out ≡ next s a))

admin_only : (Session → App → App × Response) → Session → App → App × Response
admin_only next s b = if same s.role role_admin then next s b else (b, status 403)

admin_only-IsGuarded :
    (now : ℕ) (token : Bytes) (next : Session → App → App × Response) (a : App) (s : Session)
    → find_key token_of token a.sessions ≡ some s
    → now ≤ s.expires_at
    → IsGuarded now (some token) next a (admin_only next s a)
unfolding IsGuarded admin_only
admin_only-IsGuarded now token next a s e h = elim (Bool-cases (same s.role role_admin)) [
  | inl admin ↦ inr (token, s, refl, e, h, same→eq s.role role_admin admin, rw admin refl)
  | inr denied ↦ inl (rw denied (refl, refl, inr refl))
]

-- Whether a request has a cookie or not: an administrators' handler runs only for a cookie whose
-- session is stored, not expired and an administrator's, on the state as it was; else the answer is
-- 401 or 403, and neither a user nor a limit on logins changes.
pub require_admin-IsGuarded :
    (now : ℕ) (cookie : Option Bytes) (next : Session → App → App × Response) (a : App)
    → IsGuarded now cookie next a (require_admin now cookie next a)
unfolding require_admin require_auth auth_session admin_only IsGuarded
require_admin-IsGuarded now none next a = inl (refl, refl, inl refl)
require_admin-IsGuarded now (some token) next a = elim (get-cases now token a.sessions) [
  | inl gone ↦ rw gone (inl (refl, refl, inl refl))
  | inr (s, e, h, got) ↦ rw got (admin_only-IsGuarded now token next a s e h)
]

-- a request that is done leaves no session of the user it changed
finish-none :
    (code : ℕ) (id : Bytes) (o : Users.Outcome) (a : App)
    → code ≢ 204
    → (finish code (drop_sessions id) o a).1 ≡ status 204
    → has_key user_of id (finish code (drop_sessions id) o a).0.sessions ≡ false
unfolding finish
finish-none code id (users, some e) a n w = ground arith
finish-none code id (users, none) a n w = delete_by_user_id-none id a.sessions

password-none :
    (e : UserEnv) (o : Option Bytes) (actor : Session) (id : Bytes) (a : App)
    → (put_password e o actor id a).1 ≡ status 204
    → has_key user_of id (put_password e o actor id a).0.sessions ≡ false
unfolding put_password
password-none e none actor id a w = ground arith
password-none e (some p) actor id a w = ground (
  arith,
  finish-none 400 id (update_password e.generate e.now e.saved id p a.users) a (λ n. omega arith),
)

role-none :
    (e : UserEnv) (o : Option Bytes) (actor : Session) (id : Bytes) (a : App)
    → (put_role e o actor id a).1 ≡ status 204
    → has_key user_of id (put_role e o actor id a).0.sessions ≡ false
unfolding put_role
role-none e none actor id a w = ground arith
role-none e (some r) actor id a w =
    ground (arith, finish-none 400 id (update_role e.now e.saved id r a.users) a (λ n. omega arith))

delete-none :
    (e : UserEnv) (actor : Session) (id : Bytes) (a : App)
    → (delete_user e actor id a).1 ≡ status 204
    → has_key user_of id (delete_user e actor id a).0.sessions ≡ false
unfolding delete_user
delete-none e actor id a w =
    ground (arith, finish-none 404 id (Users.delete e.saved id a.users) a (λ n. omega arith))

route-none :
    (e : UserEnv) (r : UserRequest) (actor : Session) (id sub : Bytes) (m : Method) (a : App)
    → is_post m ≡ false
    → (user_route e r actor id sub m a).1 ≡ status 204
    → has_key user_of id (user_route e r actor id sub m a).0.sessions ≡ false
unfolding user_route
route-none e r actor id sub method_get a n w = ground arith
route-none e r actor id sub method_post a n w = cc
route-none e r actor id sub method_put a n w =
    ground (arith, password-none e r.password actor id a, role-none e r.role actor id a)
route-none e r actor id sub method_delete a n w = ground (arith, delete-none e actor id a)
route-none e r actor id sub method_other a n w = ground arith

-- A request about a user, by any method but POST, that is answered 204 (a change of password or
-- role, or a deletion) leaves no session of that user.
pub handle_user_by_id-none :
    (e : UserEnv) (r : UserRequest) (actor : Session) (a : App)
    → is_post r.method ≡ false
    → (handle_user_by_id e r actor a).1 ≡ status 204
    → has_key user_of
        (split_path (trim_prefix r.path (codes "/api/users/"))).0
        (handle_user_by_id e r actor a).0.sessions
      ≡ false
unfolding handle_user_by_id
handle_user_by_id-none e r actor a n w =
    let p = split_path (trim_prefix r.path (codes "/api/users/")) in
    ground (arith, route-none e r actor p.0 p.1 r.method a n)
