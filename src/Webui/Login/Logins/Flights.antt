-- ===== src/Webui/Login/Logins/Flights.antt =====
-- The logins of one address under way, and the failures that the limiter counts for it.
use ai_scan_interceptor.Base.{
  ℕ, zero, suc, ◌+◌, ◌≤◌, ◌≡◌, ◌⊎◌, inl, inr, refl, ◌∙◌, Bool, true, false, ◌&&◌, none, some, List,
  [], ◌∷◌, arith, if◌then◌else◌, ◌==◌, Bytes, same, find_key,
}
use ai_scan_interceptor.Webui.Users.{AuthResult}
use ai_scan_interceptor.Webui.RateLimit.{RateBucket, ip_of}
use ai_scan_interceptor.Webui.RateLimit.Window.{IsOpen, Counts}
use ai_scan_interceptor.Webui.Login.{Response, status, session_cookie}
use ai_scan_interceptor.Webui.Login.Logins.{Flight, World, Reply, flight_at, without_at, judge_at}

abbrev pub is_unauthorized : Response → Bool
is_unauthorized (status n) = n == 401
is_unauthorized (session_cookie t) = false

abbrev pub is_granted : Response → Bool
is_granted (status n) = false
is_granted (session_cookie t) = true

-- a reply of one kind to the address
abbrev pub replies : (Response → Bool) → Bytes → Reply → Bool
replies kind k none = false
replies kind k (some (ip, r)) = same ip k && kind r

-- how many requests of the address are under way
unfoldable pub in_flight : Bytes → List Flight → ℕ
in_flight k [] = 0
in_flight k (f ∷ fs) = if same f.request.ip k then suc (in_flight k fs) else in_flight k fs

pub in_flight-judge_at :
    (k : Bytes) (i : ℕ) (r : AuthResult) (fs : List Flight)
    → in_flight k (judge_at i r fs) ≡ in_flight k fs
unfolding in_flight judge_at
in_flight-judge_at k i r [] = refl
in_flight-judge_at k zero r (f ∷ fs) = refl
in_flight-judge_at k (suc i) r (f ∷ fs) = ground (arith, in_flight-judge_at k i r fs)

pub in_flight-without_at :
    (k : Bytes) (i : ℕ) (f : Flight) (fs : List Flight)
    → flight_at i fs ≡ some f
    → in_flight k fs ≡ (
        if same f.request.ip k
        then suc (in_flight k (without_at i fs))
        else in_flight k (without_at i fs))
unfolding in_flight without_at flight_at
in_flight-without_at k i f [] e = cc
in_flight-without_at k zero f (g ∷ fs) e = ground arith
in_flight-without_at k (suc i) f (g ∷ fs) e = ground (arith, in_flight-without_at k i f fs e)

-- The failures that are counted, and the requests under way, which may still fail.
unfoldable pub IsBounded : ℕ → ℕ → ℕ → Bytes → World → Type 0
IsBounded m end n k w = Counts end n k w.app.limits × (n + in_flight k w.flights ≤ 4 + m)

-- what a step comes to: no 401 for the address, or one that is counted, or a login that succeeds
unfoldable pub Moved : ℕ → ℕ → ℕ → Bytes → World × Reply → Type 0
Moved m end n k (w, r) =
    ((replies is_unauthorized k r ≡ false) × IsBounded m end n k w)
    ⊎ IsBounded m end (suc n) k w
    ⊎ (replies is_granted k r ≡ true)

pub Counts-transport :
    (end n : ℕ) (k : Bytes) (bs cs : List RateBucket)
    → find_key ip_of k cs ≡ find_key ip_of k bs
    → Counts end n k bs
    → Counts end n k cs
unfolding Counts IsOpen
Counts-transport end n k bs cs e (inl (h, z)) = inl (e ∙ h, z)
Counts-transport end n k bs cs e (inr (b, h, r, f)) = inr (b, e ∙ h, r, f)
