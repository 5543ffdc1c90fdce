-- ===== src/Webui/Login/Examples.antt =====
-- One administrator, one other session, and wrong passwords from one address.
use ai_scan_interceptor.Base.{
  WriteResult, ℕ, ◌-◌, ◌≤◌, ◌<◌, ◌≡◌, refl, true, false, none, some, List, [], ◌∷◌, suc, arith,
  codes, same, find_key, has_key, missing, update_key,
}
use ai_scan_interceptor.Strings.{trim_prefix, has_prefix, index_byte}
use ai_scan_interceptor.Webui.Users
use ai_scan_interceptor.Webui.Users.{User, UserStore, is_admin, name_of}
use ai_scan_interceptor.Webui.Users.Lockout.{Attempt, guesses, guesses-le, IsWrongGuess}
use ai_scan_interceptor.Webui.Sessions.{Session}
use ai_scan_interceptor.Webui.Sessions.Expiry.{user_of}
use ai_scan_interceptor.Webui.RateLimit.{ip_of, allow, record_failure}
use ai_scan_interceptor.Webui.Login.{
  App, method_post, method_put, status, UserEnv, UserRequest, handle_user_by_id, require_admin,
  handle_logout, split_path,
}
use ai_scan_interceptor.Webui.Login.Roles.{handle_user_by_id-admin}
use ai_scan_interceptor.Webui.Login.Access.{
  IsGuarded, require_admin-IsGuarded, handle_user_by_id-none,
}
use ai_scan_interceptor.Webui.Login.Logins.{
  World, LoginRequest, Event, arrives, checks, concludes, step,
}
use ai_scan_interceptor.Webui.Login.Logins.Flights.{is_granted, is_unauthorized, in_flight}
use ai_scan_interceptor.Webui.Login.Logins.Guesses.{responses, IsCrowd, rejections-le}

-- three wrong guesses at an account that has failed eight times
abbrev alice : User
alice = record {
  id = codes "u1";
  username = codes "alice";
  password_hash = codes "correct horse";
  role = codes "admin";
  created_at = 0;
  updated_at = 0;
  failed_logins = 8;
  locked_until = 0;
}

abbrev users : UserStore
users = record { users = alice ∷ []; disk = missing }

abbrev guess : ℕ → Attempt
guess now = record { now = now; later = now; username = codes "alice"; password = codes "x" }

abbrev three_guesses : List Attempt
three_guesses = guess 1000 ∷ guess 1001 ∷ guess 1002 ∷ []

alice_found : find_key name_of (codes "alice") (alice ∷ []) ≡ some alice
unfolding find_key same
alice_found = refl

is_wrong :
    (now : ℕ)
    → 1000 ≤ now
    → now < 2800
    → IsWrongGuess same 1000 (codes "alice") (codes "correct horse") (guess now)
unfolding IsWrongGuess same
is_wrong now h h' = (h, h', λ e. refl)

guesses-le_example : guesses same (codes "alice") three_guesses users ≤ suc (9 - 8)
guesses-le_example = guesses-le same 1000 (codes "alice") three_guesses users alice alice_found (
  is_wrong 1000 (omega arith) (omega arith),
  (is_wrong 1001 (omega arith) (omega arith), (is_wrong 1002 (omega arith) (omega arith), tt)),
)

-- the same as the dashboard sees it, from one address
abbrev session : Session
session = record {
  token = codes "t";
  user_id = codes "u1";
  username = codes "alice";
  role = codes "admin";
  expires_at = 5000;
}

abbrev bob_session : Session
bob_session = record session { token = codes "b"; user_id = codes "u2"; role = codes "user" }

abbrev app : App
app = record { users = users; sessions = session ∷ bob_session ∷ []; limits = [] }

abbrev world : World
world = record { app = app; flights = [] }

abbrev bad_login : LoginRequest
bad_login = record {
  method = method_post;
  ip = codes "10.0.0.7";
  body = some (record { username = codes "alice"; password = codes "x" });
}

-- two logins at once: both are let in before either is checked
abbrev two_logins : List Event
two_logins =
    arrives 1000 bad_login
    ∷ arrives 1000 bad_login
    ∷ checks 1001 1001 0
    ∷ checks 1001 1001 1
    ∷ concludes 1002 1002 [] 1
    ∷ concludes 1002 1002 [] 0
    ∷ []

no_bucket : find_key ip_of (codes "10.0.0.7") [] ≡ none
unfolding find_key
no_bucket = refl

none_granted : responses same is_granted (codes "10.0.0.7") two_logins world ≡ 0
unfolding responses find_key same update_key step allow Users.authenticate record_failure
none_granted = refl

nobody_waits : in_flight (codes "10.0.0.7") [] ≡ 0
unfolding in_flight
nobody_waits = refl

two_at_once : IsCrowd same 2 (codes "10.0.0.7") two_logins world
unfolding IsCrowd in_flight find_key same update_key step allow Users.authenticate record_failure
two_at_once = (
  omega arith,
  (omega arith, (omega arith, (omega arith, (omega arith, (omega arith, omega arith))))),
)

rejections-le_example : responses same is_unauthorized (codes "10.0.0.7") two_logins world ≤ 6
rejections-le_example =
    rejections-le same 2 1000 (codes "10.0.0.7") two_logins world
      (
        (omega arith, omega arith),
        (
          (omega arith, omega arith),
          (tt, (tt, ((omega arith, omega arith), ((omega arith, omega arith), tt)))),
        ),
      )
      no_bucket nobody_waits two_at_once none_granted

abbrev env : UserEnv
env = record { now = 1000; saved = WriteResult.written; generate = some; new_id = codes "u3" }

-- a demotion of the administrator by itself
abbrev demotion : UserRequest
demotion = record {
  method = method_put;
  path = codes "/api/users/u1";
  password = none;
  role = some (codes "user");
}

alice_admin : is_admin (Users.get_by_id (codes "u1") users) ≡ true
unfolding Users.get_by_id find_key same
alice_admin = refl

handle_user_by_id-admin_example :
    is_admin (Users.get_by_id (codes "u1") (handle_user_by_id env demotion session app).0.users)
    ≡ true
handle_user_by_id-admin_example = handle_user_by_id-admin env demotion session app alice_admin

require_admin-IsGuarded_example :
    IsGuarded 1000
      (some (codes "b"))
      (handle_logout method_post)
      app
      (require_admin 1000 (some (codes "b")) (handle_logout method_post) app)
require_admin-IsGuarded_example =
    require_admin-IsGuarded 1000 (some (codes "b")) (handle_logout method_post) app

-- a new password for the administrator, set by itself
abbrev new_password : UserRequest
new_password = record {
  method = method_put;
  path = codes "/api/users/u1/password";
  password = some (codes "battery staple");
  role = none;
}

password_set : (handle_user_by_id env new_password session app).1 ≡ status 204
unfolding handle_user_by_id index_byte trim_prefix has_prefix same find_key has_key
    Users.update_password
password_set = refl

handle_user_by_id-none_example :
    has_key user_of
      (split_path (trim_prefix (codes "/api/users/u1/password") (codes "/api/users/"))).0
      (handle_user_by_id env new_password session app).0.sessions
    ≡ false
handle_user_by_id-none_example =
    handle_user_by_id-none env new_password session app refl password_set
