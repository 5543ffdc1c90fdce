-- ===== src/Webui/Login/Logins.antt =====
-- Logins: `handleLogin` of webui/handler.go. The handler takes the limiter's lock for `Allow`, then the
-- lock of the users for `Authenticate`, in which bcrypt runs, then the limiter's again. Other requests
-- run in between, so a request moves in three steps, and the steps of all requests come in any order.
-- The last step is `RecordFailure`, or `RecordSuccess` with the new session.
pub mod Flights
pub mod Moves
pub mod Guesses
use ai_scan_interceptor.Base.{
  ℕ, suc, zero, Bool, true, false, not, ◌&&◌, ◌||◌, Option, none, some, List, [], ◌∷◌,
  if◌then◌else◌, Bytes, same,
}
use ai_scan_interceptor.Webui.Users.{
  UserStore, AuthResult, unknown_user, wrong_password, account_locked, authenticated, authenticate,
}
use ai_scan_interceptor.Webui.Sessions
use ai_scan_interceptor.Webui.RateLimit.{allow, record_failure, record_success}
use ai_scan_interceptor.Webui.Login.{App, Method, is_post, Response, status, session_cookie}

pub record Credentials : Type 0 where
  pub username : Bytes
  pub password : Bytes

pub record LoginRequest : Type 0 where
  pub method : Method
  pub ip : Bytes
  pub body : Option Credentials

-- how far a request is: `Allow` let it in, or `Authenticate` returned
pub data Stage : Type 0 where
  admitted : Stage
  judged : AuthResult → Stage

-- a request on its way through the handler
pub record Flight : Type 0 where
  pub request : LoginRequest
  pub stage : Stage

-- the dashboard with the logins under way, the latest first
pub record World : Type 0 where
  pub app : App
  pub flights : List Flight

-- the next step, with its readings of the clock: a request arrives, or the one at a place is checked
-- or is answered
pub data Event : Type 0 where
  arrives : ℕ → LoginRequest → Event
  checks : ℕ → ℕ → ℕ → Event
  concludes : ℕ → ℕ → Bytes → ℕ → Event

-- an answer, with the address that it goes to
abbrev pub Reply : Type 0
Reply = Option (Bytes × Response)

pub flight_at : ℕ → List Flight → Option Flight
flight_at i [] = none
flight_at zero (f ∷ fs) = some f
flight_at (suc i) (f ∷ fs) = flight_at i fs

pub without_at : ℕ → List Flight → List Flight
without_at i [] = []
without_at zero (f ∷ fs) = fs
without_at (suc i) (f ∷ fs) = f ∷ without_at i fs

pub judge_at : ℕ → AuthResult → List Flight → List Flight
judge_at i r [] = []
judge_at zero r (f ∷ fs) = record f { stage = judged r } ∷ fs
judge_at (suc i) r (f ∷ fs) = f ∷ judge_at i r fs

-- from the start of the handler to `Allow`
pub arrive : ℕ → LoginRequest → World → World × Reply
arrive at_allow r w =
    if is_post r.method
    then (let (limits, allowed) = allow at_allow r.ip w.app.limits in
        if allowed
        then (
          record {
            app = record w.app { limits = limits };
            flights = record { request = r; stage = admitted } ∷ w.flights;
          },
          none,
        )
        else (record w { app = record w.app { limits = limits } }, some (r.ip, status 429)))
    else (w, some (r.ip, status 405))

abbrev lacks_credentials : Credentials → Bool
lacks_credentials c = same c.username [] || same c.password []

-- `RecordFailure` and the answer 401
reject : ℕ → Bytes → App → App × Response
reject at_limit ip a = (record a { limits = record_failure at_limit ip a.limits }, status 401)

-- what follows `Authenticate`
finish_login : ℕ → ℕ → Bytes → Bytes → AuthResult → App → App × Response
unfolding reject
finish_login at_limit at_session token ip (authenticated u) a = (
  record a {
    limits = record_success ip a.limits;
    sessions = Sessions.create at_session token u a.sessions;
  },
  session_cookie token,
)
finish_login at_limit at_session token ip _ a = reject at_limit ip a

-- the request at a place is answered
answered : ℕ → Bytes → App × Response → World → World × Reply
unfolding without_at
answered i ip (a, r) w = (record { app = a; flights = without_at i w.flights }, some (ip, r))

conclude_stage : ℕ → ℕ → Bytes → ℕ → Bytes → Stage → Option Credentials → World → World × Reply
unfolding finish_login answered
conclude_stage at_limit at_session token i ip (judged r) body w =
    answered i ip (finish_login at_limit at_session token ip r w.app) w
conclude_stage at_limit at_session token i ip admitted none w = answered i ip (w.app, status 400) w
conclude_stage at_limit at_session token i ip admitted (some c) w =
    if lacks_credentials c then answered i ip (reject at_limit ip w.app) w else (w, none)

-- the rest of the handler; a request that still has to be checked is not answered
pub conclude : ℕ → ℕ → Bytes → ℕ → Option Flight → World → World × Reply
unfolding conclude_stage
conclude at_limit at_session token i none w = (w, none)
conclude at_limit at_session token i (some f) w =
    conclude_stage at_limit at_session token i f.request.ip f.stage f.request.body w

module _ (compare_hash : Bytes → Bytes → Bool) where
  check_stage : ℕ → ℕ → ℕ → Stage → Option Credentials → World → World
  unfolding judge_at
  check_stage at_lock at_failure i (judged r) body w = w
  check_stage at_lock at_failure i admitted none w = w
  check_stage at_lock at_failure i admitted (some c) w =
      if lacks_credentials c
      then w
      else (let (users, r) =
            authenticate compare_hash at_lock at_failure c.username c.password w.app.users in
          record { app = record w.app { users = users }; flights = judge_at i r w.flights })

  -- `Authenticate`, for a request with credentials that has not been checked
  check : ℕ → ℕ → ℕ → Option Flight → World → World
  unfolding check_stage
  check at_lock at_failure i none w = w
  check at_lock at_failure i (some f) w = check_stage at_lock at_failure i f.stage f.request.body w

  -- one step of `handleLogin`
  unfoldable pub step : Event → World → World × Reply
  unfolding arrive check conclude flight_at
  step (arrives at_allow r) w = arrive at_allow r w
  step (checks at_lock at_failure i) w =
      (check at_lock at_failure i (flight_at i w.flights) w, none)
  step (concludes at_limit at_session token i) w =
      conclude at_limit at_session token i (flight_at i w.flights) w
