-- ===== src/Webui/Login.antt =====
-- Authentication and user management of the dashboard: webui/handler.go. Requests come decoded;
-- each reading of the clock, generated tokens and identifiers, bcrypt and the outcome of each write
-- are arguments. Bodies and logs are left out of the responses.
pub mod Logins
pub mod Roles
pub mod Access
pub mod Examples
use ai_scan_interceptor.Base.{
  ℕ, suc, ◌+◌, Bool, true, false, not, ◌&&◌, ◌||◌, Option, none, some, List, [], ◌∷◌, ◌++◌,
  if◌then◌else◌, ltb, leb, Bytes, WriteResult, codes, same, take, drop,
}
use ai_scan_interceptor.Strings.{trim_prefix, index_byte}
use ai_scan_interceptor.Webui.Users
use ai_scan_interceptor.Webui.Users.{
  User, UserStore, UserError, AuthResult, unknown_user, wrong_password, account_locked,
  authenticated, authenticate, role_admin, unlock_user, update_password, update_role, admin_count,
  is_admin,
}
use ai_scan_interceptor.Webui.Sessions
use ai_scan_interceptor.Webui.Sessions.{Session, delete_by_user_id}
use ai_scan_interceptor.Webui.RateLimit.{
  RateBucket, allow, record_failure, record_success, clear_all,
}

-- the user store and the globals `globalSessions` and `loginRateLimiter`
pub record App : Type 0 where
  pub users : UserStore
  pub sessions : List Session
  pub limits : List RateBucket

pub data Method : Type 0 where
  method_get method_post method_put method_delete method_other : Method

abbrev pub is_post : Method → Bool
is_post method_post = true
is_post _ = false

pub data Response : Type 0 where
  status : ℕ → Response
  session_cookie : Bytes → Response

auth_session : Option Session → (Session → App → App × Response) → App → App × Response
auth_session none next a = (a, status 401)
auth_session (some s) next a = next s a

-- `requireAuth`; the session stands for the request's context
unfoldable pub require_auth :
    ℕ → Option Bytes → (Session → App → App × Response) → App → App × Response
unfolding auth_session
require_auth now none next a = (a, status 401)
require_auth now (some token) next a =
    let (sessions, s) = Sessions.get now token a.sessions in
    auth_session s next (record a { sessions = sessions })

-- `requireAdmin`
unfoldable pub require_admin :
    ℕ → Option Bytes → (Session → App → App × Response) → App → App × Response
unfolding require_auth
require_admin now cookie next a =
    require_auth now cookie (λ s b. if same s.role role_admin then next s b else (b, status 403)) a

-- `handleLogout`
unfoldable pub handle_logout : Method → Session → App → App × Response
handle_logout m s a =
    if is_post m
    then (record a { sessions = Sessions.delete s.token a.sessions }, status 204)
    else (a, status 405)

-- the handler of `/api/auth/rate-limits`
unfoldable pub handle_rate_limits : Method → Session → App → App × Response
handle_rate_limits method_delete s a = (record a { limits = clear_all a.limits }, status 204)
handle_rate_limits _ s a = (a, status 405)

-- the decoded body of `POST /api/users`
pub record NewUser : Type 0 where
  pub username : Bytes
  pub password : Bytes
  pub role : Bytes

-- the status of an operation's error, or 204 once it is done
finish : ℕ → (App → App) → Users.Outcome → App → App × Response
finish code after (users, some e) a = (record a { users = users }, status code)
finish code after (users, none) a = (after (record a { users = users }), status 204)

abbrev pub drop_sessions : Bytes → App → App
drop_sessions id a = record a { sessions = delete_by_user_id id a.sessions }

created : Users.Outcome → App → App × Response
created (users, some e) a = (record a { users = users }, status 400)
created (users, none) a = (record a { users = users }, status 201)

-- what the environment gives a user operation
pub record UserEnv : Type 0 where
  pub now : ℕ
  pub saved : WriteResult
  pub generate : Bytes → Option Bytes
  pub new_id : Bytes

create_user : UserEnv → Option NewUser → App → App × Response
unfolding created
create_user e none a = (a, status 400)
create_user e (some u) a =
    if same u.username []
    then (a, status 400)
    else created
        (Users.create e.generate e.now e.saved e.new_id u.username u.password u.role a.users) a

-- `handleUsers`
unfoldable pub handle_users : UserEnv → Method → Option NewUser → Session → App → App × Response
unfolding create_user
handle_users e method_get body actor a = (a, status 200)
handle_users e method_post body actor a = create_user e body a
handle_users e _ body actor a = (a, status 405)

-- the request of `/api/users/`, its body decoded as either form
pub record UserRequest : Type 0 where
  pub method : Method
  pub path : Bytes
  pub password : Option Bytes
  pub role : Option Bytes

-- the identifier and what follows the first slash, or nothing
abbrev pub split_path : Bytes → Bytes × Bytes
split_path rest = elim (index_byte rest 47) [
  | none ↦ (rest, [])
  | some n ↦ (take n rest, drop (suc n) rest)
]

put_password : UserEnv → Option Bytes → Session → Bytes → App → App × Response
unfolding finish
put_password e body actor id a =
    if not (same actor.role role_admin) && not (same actor.user_id id)
    then (a, status 403)
    else elim body [
      | none ↦ (a, status 400)
      | some p ↦
          finish 400 (drop_sessions id) (update_password e.generate e.now e.saved id p a.users) a
    ]

put_role : UserEnv → Option Bytes → Session → Bytes → App → App × Response
unfolding finish
put_role e none actor id a = (a, status 400)
put_role e (some role) actor id a =
    if same actor.user_id id && not (same role role_admin)
    then (a, status 400)
    else finish 400 (drop_sessions id) (update_role e.now e.saved id role a.users) a

delete_user : UserEnv → Session → Bytes → App → App × Response
unfolding finish
delete_user e actor id a =
    if same actor.user_id id
    then (a, status 400)
    else if is_admin (Users.get_by_id id a.users) && leb (admin_count a.users) 1
    then (a, status 400)
    else finish 404 (drop_sessions id) (Users.delete e.saved id a.users) a

user_route : UserEnv → UserRequest → Session → Bytes → Bytes → Method → App → App × Response
unfolding put_password put_role delete_user finish
user_route e r actor id sub method_post a =
    if same sub (codes "unlock")
    then finish 404 (λ b. b) (unlock_user id a.users) a
    else (a, status 405)
user_route e r actor id sub method_put a =
    if same sub (codes "password")
    then put_password e r.password actor id a
    else if same sub []
    then put_role e r.role actor id a
    else (a, status 405)
user_route e r actor id sub method_delete a =
    if same sub [] then delete_user e actor id a else (a, status 405)
user_route e r actor id sub _ a = (a, status 405)

-- `handleUserByID`
unfoldable pub handle_user_by_id : UserEnv → UserRequest → Session → App → App × Response
unfolding user_route
handle_user_by_id e r actor a =
    let (id, sub) = split_path (trim_prefix r.path (codes "/api/users/")) in
    if same id [] then (a, status 400) else user_route e r actor id sub r.method a
