-- ===== src/Webui/Login/Logins/Moves.antt =====
-- What one step of the logins makes of the count of failures of one address.
use ai_scan_interceptor.Base.{
  ℕ, suc, ◌+◌, ◌≤◌, ◌<◌, ◌≡◌, ◌≢◌, ◌⊎◌, inl, inr, refl, sym, true, false, Option, none, some, List,
  arith, Bytes, same, same_iff, same_refl, same→eq, find_key, Bool-cases, if-case,
}
use ai_scan_interceptor.Webui.Users.{
  AuthResult, unknown_user, wrong_password, account_locked, authenticated,
}
use ai_scan_interceptor.Webui.RateLimit.{ip_of, allow}
use ai_scan_interceptor.Webui.RateLimit.Window.{
  Counts, allow-Counts, failure-Counts, allow-other, failure-other, success-other,
}
use ai_scan_interceptor.Webui.Login.{App, Response, status, is_post}
use ai_scan_interceptor.Webui.Login.Logins.{
  LoginRequest, Credentials, Stage, admitted, judged, Flight, World, Reply, flight_at, without_at,
  arrive, lacks_credentials, reject, finish_login, answered, conclude_stage, conclude,
}
use ai_scan_interceptor.Webui.Login.Logins.Flights.{
  is_unauthorized, is_granted, in_flight, in_flight-without_at, IsBounded, Moved, Counts-transport,
}

-- the request at a place of the list is answered
answered-Moved :
    (m end n i : ℕ) (f : Flight) (a : App) (r : Response) (w : World)
    → flight_at i w.flights ≡ some f
    → n + in_flight f.request.ip w.flights ≤ 4 + m
    → ((is_unauthorized r ≡ false) × Counts end n f.request.ip a.limits)
      ⊎ Counts end (suc n) f.request.ip a.limits
      ⊎ (is_granted r ≡ true)
    → Moved m end n f.request.ip (answered i f.request.ip (a, r) w)
unfolding Moved answered IsBounded
answered-Moved m end n i f a r w e b c =
    let k = f.request.ip in
    let here : same k k ≡ true = same_refl k in
    let fewer : in_flight k w.flights ≡ suc (in_flight k (without_at i w.flights)) =
      ground (arith, in_flight-without_at k i f w.flights e) in
    elim c [
      | inl (u, d) ↦ inl (ground arith, (d, omega arith))
      | inr (inl d) ↦ inr (inl (d, omega arith))
      | inr (inr g) ↦ inr (inr (ground arith))
    ]

-- an answer to another address
answered-other :
    (m end n : ℕ) (k : Bytes) (i : ℕ) (f : Flight) (a : App) (r : Response) (w : World)
    → flight_at i w.flights ≡ some f
    → same f.request.ip k ≡ false
    → find_key ip_of k a.limits ≡ find_key ip_of k w.app.limits
    → IsBounded m end n k w
    → Moved m end n k (answered i f.request.ip (a, r) w)
unfolding Moved answered IsBounded
answered-other m end n k i f a r w e other l b =
    let same_count : in_flight k w.flights ≡ in_flight k (without_at i w.flights) =
      ground (arith, in_flight-without_at k i f w.flights e) in
    inl (ground arith, (Counts-transport end n k w.app.limits a.limits l b.0, omega arith))

reject-Counts :
    (end n at_limit : ℕ) (k : Bytes) (a : App)
    → at_limit ≤ end
    → end ≤ at_limit + 900
    → Counts end n k a.limits
    → let out = reject at_limit k a in
      ((is_unauthorized out.1 ≡ false) × Counts end n k out.0.limits)
      ⊎ Counts end (suc n) k out.0.limits
      ⊎ (is_granted out.1 ≡ true)
unfolding reject Counts
reject-Counts end n t k a h h' c = inr (inl (inr (failure-Counts end t n k a.limits h h' c)))

reject-other :
    (at_limit : ℕ) (j k : Bytes) (a : App)
    → k ≢ j
    → find_key ip_of k (reject at_limit j a).0.limits ≡ find_key ip_of k a.limits
unfolding reject
reject-other t j k a h = failure-other t j k a.limits h

finish-Counts :
    (end n at_limit at_session : ℕ) (token k : Bytes) (r : AuthResult) (a : App)
    → at_limit ≤ end
    → end ≤ at_limit + 900
    → Counts end n k a.limits
    → let out = finish_login at_limit at_session token k r a in
      ((is_unauthorized out.1 ≡ false) × Counts end n k out.0.limits)
      ⊎ Counts end (suc n) k out.0.limits
      ⊎ (is_granted out.1 ≡ true)
unfolding finish_login
finish-Counts end n t t' token k unknown_user a h h' c = reject-Counts end n t k a h h' c
finish-Counts end n t t' token k wrong_password a h h' c = reject-Counts end n t k a h h' c
finish-Counts end n t t' token k account_locked a h h' c = reject-Counts end n t k a h h' c
finish-Counts end n t t' token k (authenticated u) a h h' c = inr (inr refl)

finish-other :
    (at_limit at_session : ℕ) (token j k : Bytes) (r : AuthResult) (a : App)
    → k ≢ j
    → find_key ip_of k (finish_login at_limit at_session token j r a).0.limits
      ≡ find_key ip_of k a.limits
unfolding finish_login
finish-other t t' token j k unknown_user a h = reject-other t j k a h
finish-other t t' token j k wrong_password a h = reject-other t j k a h
finish-other t t' token j k account_locked a h = reject-other t j k a h
finish-other t t' token j k (authenticated u) a h = success-other j k a.limits h

pub stays-Moved :
    (m end n : ℕ) (k : Bytes) (w : World) → IsBounded m end n k w → Moved m end n k (w, none)
unfolding Moved
stays-Moved m end n k w b = inl (refl, b)

conclude-mine :
    (m end n at_limit at_session : ℕ) (token : Bytes) (i : ℕ) (f : Flight) (w : World) (s : Stage)
    (body : Option Credentials)
    → at_limit ≤ end
    → end ≤ at_limit + 900
    → flight_at i w.flights ≡ some f
    → IsBounded m end n f.request.ip w
    → Moved m end n f.request.ip (conclude_stage at_limit at_session token i f.request.ip s body w)
unfolding conclude_stage IsBounded
conclude-mine m end n t t' token i f w (judged r) body h h' e b =
    let out = finish_login t t' token f.request.ip r w.app in
    answered-Moved m end n i f out.0 out.1 w e b.1
      (finish-Counts end n t t' token f.request.ip r w.app h h' b.0)
conclude-mine m end n t t' token i f w admitted none h h' e b =
    answered-Moved m end n i f w.app (status 400) w e b.1 (inl (refl, b.0))
conclude-mine m end n t t' token i f w admitted (some c) h h' e b =
    if-case (Moved m end n f.request.ip) (lacks_credentials c)
      (answered i f.request.ip (reject t f.request.ip w.app) w) (w, none)
      (λ x.
        answered-Moved m end n i f (reject t f.request.ip w.app).0 (status 401) w e b.1
          (reject-Counts end n t f.request.ip w.app h h' b.0))
      (λ x. stays-Moved m end n f.request.ip w b)

conclude-other :
    (m end n at_limit at_session : ℕ) (token k : Bytes) (i : ℕ) (f : Flight) (w : World) (s : Stage)
    (body : Option Credentials)
    → flight_at i w.flights ≡ some f
    → same f.request.ip k ≡ false
    → k ≢ f.request.ip
    → IsBounded m end n k w
    → Moved m end n k (conclude_stage at_limit at_session token i f.request.ip s body w)
unfolding conclude_stage
conclude-other m end n t t' token k i f w (judged r) body e o h b =
    let out = finish_login t t' token f.request.ip r w.app in
    answered-other m end n k i f out.0 out.1 w e o
      (finish-other t t' token f.request.ip k r w.app h) b
conclude-other m end n t t' token k i f w admitted none e o h b =
    answered-other m end n k i f w.app (status 400) w e o refl b
conclude-other m end n t t' token k i f w admitted (some c) e o h b =
    if-case (Moved m end n k) (lacks_credentials c)
      (answered i f.request.ip (reject t f.request.ip w.app) w) (w, none)
      (λ x.
        answered-other m end n k i f (reject t f.request.ip w.app).0 (status 401) w e o
          (reject-other t f.request.ip k w.app h) b)
      (λ x. stays-Moved m end n k w b)

pub conclude-Moved :
    (m end n at_limit at_session : ℕ) (token k : Bytes) (i : ℕ) (o : Option Flight) (w : World)
    → at_limit ≤ end
    → end ≤ at_limit + 900
    → flight_at i w.flights ≡ o
    → IsBounded m end n k w
    → Moved m end n k (conclude at_limit at_session token i o w)
unfolding conclude
conclude-Moved m end n t t' token k i none w h h' e b = stays-Moved m end n k w b
conclude-Moved m end n t t' token k i (some f) w h h' e b =
    elim (Bool-cases (same f.request.ip k)) [
      | inl mine ↦
          let is_k = same→eq f.request.ip k mine in
          rw (sym is_k)
            (conclude-mine m end n t t' token i f w f.stage f.request.body h h' e (rw is_k b))
      | inr other ↦
          conclude-other m end n t t' token k i f w f.stage f.request.body e other
            (λ x. ground (arith, same_iff f.request.ip k, sym x)) b
    ]

-- a request arrives from the address, or from another one
arrive-mine :
    (m end n at_allow : ℕ) (r : LoginRequest) (w : World)
    → at_allow ≤ end
    → end ≤ at_allow + 900
    → IsBounded m end n r.ip w
    → in_flight r.ip (arrive at_allow r w).0.flights ≤ m
    → Moved m end n r.ip (arrive at_allow r w)
unfolding arrive Moved IsBounded Counts in_flight
arrive-mine m end n t r w h h' b crowd =
    let k = r.ip in
    let out = allow t k w.app.limits in
    let gate = allow-Counts end t n k w.app.limits h h' b.0 in
    let here : same k k ≡ true = same_refl k in
    elim (Bool-cases (is_post r.method)) [
      | inr get ↦ rw get (inl (ground arith, b))
      | inl post ↦ elim (Bool-cases out.1) [
        | inl let_in ↦
            let few : n < 5 = gate.1 let_in in
            rw post (rw let_in (inl (refl, (inr gate.0, ground arith))))
        | inr denied ↦ rw post (rw denied (inl (ground arith, (inr gate.0, b.1))))
      ]
    ]

arrive-other :
    (m end n at_allow : ℕ) (k : Bytes) (r : LoginRequest) (w : World)
    → same r.ip k ≡ false
    → k ≢ r.ip
    → IsBounded m end n k w
    → Moved m end n k (arrive at_allow r w)
unfolding arrive Moved IsBounded in_flight
arrive-other m end n t k r w o h b =
    let out = allow t r.ip w.app.limits in
    let kept =
      Counts-transport end n k w.app.limits out.0 (allow-other t r.ip k w.app.limits h) b.0 in
    elim (Bool-cases (is_post r.method)) [
      | inr get ↦ rw get (inl (ground arith, b))
      | inl post ↦ elim (Bool-cases out.1) [
        | inl let_in ↦ rw post (rw let_in (inl (refl, (kept, ground arith))))
        | inr denied ↦ rw post (rw denied (inl (ground arith, (kept, b.1))))
      ]
    ]

Moved-same :
    (m end n : ℕ) (j k : Bytes) (out : World × Reply)
    → j ≡ k
    → Moved m end n j out
    → Moved m end n k out
Moved-same m end n j k out e h = rw (sym e) h

IsBounded-same :
    (m end n : ℕ) (j k : Bytes) (w : World) → j ≡ k → IsBounded m end n j w → IsBounded m end n k w
IsBounded-same m end n j k w e h = rw (sym e) h

crowd-same :
    (m : ℕ) (j k : Bytes) (fs : List Flight) → j ≡ k → in_flight j fs ≤ m → in_flight k fs ≤ m
crowd-same m j k fs e h = rw (sym e) h

pub arrive-Moved :
    (m end n at_allow : ℕ) (k : Bytes) (r : LoginRequest) (w : World)
    → at_allow ≤ end
    → end ≤ at_allow + 900
    → IsBounded m end n k w
    → in_flight k (arrive at_allow r w).0.flights ≤ m
    → Moved m end n k (arrive at_allow r w)
arrive-Moved m end n t k r w h h' b crowd = elim (Bool-cases (same r.ip k)) [
  | inl mine ↦
      let is_k = same→eq r.ip k mine in
      Moved-same m end n r.ip k (arrive t r w) is_k (
        arrive-mine m end n t r w h h' (IsBounded-same m end n k r.ip w (sym is_k) b)
          (crowd-same m k r.ip (arrive t r w).0.flights (sym is_k) crowd))
  | inr other ↦ arrive-other m end n t k r w other (λ x. ground (arith, same_iff r.ip k, sym x)) b
]
