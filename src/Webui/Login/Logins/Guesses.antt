-- ===== src/Webui/Login/Logins/Guesses.antt =====
-- How many logins from one address fail before it is turned away.
use ai_scan_interceptor.Base.{
  ℕ, suc, ◌+◌, ◌≤◌, ◌≡◌, inl, inr, refl, Bool, Option, none, some, List, [], ◌∷◌, arith,
  if◌then◌else◌, Bytes, find_key, All, if-case,
}
use ai_scan_interceptor.Webui.Users.{authenticate}
use ai_scan_interceptor.Webui.RateLimit.{ip_of}
use ai_scan_interceptor.Webui.RateLimit.Window.{Counts}
use ai_scan_interceptor.Webui.Login.{Response}
use ai_scan_interceptor.Webui.Login.Logins.{
  Credentials, Stage, admitted, judged, Flight, World, Event, arrives, checks, concludes, flight_at,
  judge_at, lacks_credentials, check_stage, check, step,
}
use ai_scan_interceptor.Webui.Login.Logins.Flights.{
  is_unauthorized, is_granted, replies, in_flight, in_flight-judge_at, IsBounded, Moved,
}
use ai_scan_interceptor.Webui.Login.Logins.Moves.{stays-Moved, conclude-Moved, arrive-Moved}

module _ (compare_hash : Bytes → Bytes → Bool) where
  stage-IsBounded :
      (m end n at_lock at_failure : ℕ) (k : Bytes) (i : ℕ) (s : Stage) (body : Option Credentials)
      (w : World)
      → IsBounded m end n k w
      → IsBounded m end n k (check_stage compare_hash at_lock at_failure i s body w)
  unfolding check_stage IsBounded
  stage-IsBounded m end n t t' k i (judged r) body w b = b
  stage-IsBounded m end n t t' k i admitted none w b = b
  stage-IsBounded m end n t t' k i admitted (some c) w b =
      let out = authenticate compare_hash t t' c.username c.password w.app.users in
      if-case (IsBounded m end n k) (lacks_credentials c) w
        (record { app = record w.app { users = out.0 }; flights = judge_at i out.1 w.flights })
        (λ x. b) (λ x. (b.0, ground (arith, in_flight-judge_at k i out.1 w.flights)))

  -- a check touches no limit and lets no request out
  check-IsBounded :
      (m end n at_lock at_failure : ℕ) (k : Bytes) (i : ℕ) (o : Option Flight) (w : World)
      → IsBounded m end n k w
      → IsBounded m end n k (check compare_hash at_lock at_failure i o w)
  unfolding check
  check-IsBounded m end n t t' k i none w b = b
  check-IsBounded m end n t t' k i (some f) w b =
      stage-IsBounded m end n t t' k i f.stage f.request.body w b

  -- The event's clock stays in the fifteen minutes from `start`.
  abbrev pub IsWithin : ℕ → Event → Type 0
  IsWithin start (arrives t r) = (start ≤ t) × (t ≤ start + 900)
  IsWithin start (checks t t' i) = Unit
  IsWithin start (concludes t t' token i) = (start ≤ t) × (t ≤ start + 900)

  step-Moved :
      (m start n : ℕ) (k : Bytes) (e : Event) (w : World)
      → IsWithin start e
      → IsBounded m (start + 900) n k w
      → in_flight k (step compare_hash e w).0.flights ≤ m
      → Moved m (start + 900) n k (step compare_hash e w)
  unfolding step
  step-Moved m start n k (arrives t r) w h b crowd =
      arrive-Moved m (start + 900) n t k r w h.1 (omega arith) b crowd
  step-Moved m start n k (checks t t' i) w h b crowd =
      stays-Moved m (start + 900) n k (check compare_hash t t' i (flight_at i w.flights) w)
        (check-IsBounded m (start + 900) n t t' k i (flight_at i w.flights) w b)
  step-Moved m start n k (concludes t t' token i) w h b crowd =
      conclude-Moved m (start + 900) n t t' token k i (flight_at i w.flights) w h.1 (omega arith)
        refl b

  -- how many requests of the address get one kind of response in a history
  unfoldable pub responses : (Response → Bool) → Bytes → List Event → World → ℕ
  responses kind k [] w = 0
  responses kind k (e ∷ es) w =
      let rest = responses kind k es (step compare_hash e w).0 in
      if replies kind k (step compare_hash e w).1 then suc rest else rest

  -- At no time are more than `m` requests of the address under way.
  unfoldable pub IsCrowd : ℕ → Bytes → List Event → World → Type 0
  IsCrowd m k [] w = in_flight k w.flights ≤ m
  IsCrowd m k (e ∷ es) w = (in_flight k w.flights ≤ m) × IsCrowd m k es (step compare_hash e w).0

  crowd-now :
      (m : ℕ) (k : Bytes) (es : List Event) (w : World)
      → IsCrowd m k es w
      → in_flight k w.flights ≤ m
  unfolding IsCrowd
  crowd-now m k [] w c = c
  crowd-now m k (e ∷ es) w c = c.0

  rejections-bound :
      (m start n : ℕ) (k : Bytes) (es : List Event) (w : World)
      → All (IsWithin start) es
      → IsBounded m (start + 900) n k w
      → IsCrowd m k es w
      → responses is_granted k es w ≡ 0
      → n + responses is_unauthorized k es w ≤ 4 + m
  unfolding responses IsCrowd Moved IsBounded
  rejections-bound m start n k [] w h b c g = omega (arith, b.1)
  rejections-bound m start n k (e ∷ es) w h b c g =
      let next = (step compare_hash e w).0 in
      elim (step-Moved m start n k e w h.0 b (crowd-now m k es next c.1)) [
        | inl (kept, b') ↦ ground (arith, rejections-bound m start n k es next h.1 b' c.1)
        | inr (inl b') ↦ ground (arith, rejections-bound m start (suc n) k es next h.1 b' c.1)
        | inr (inr granted) ↦ ground arith
      ]

  -- In the fifteen minutes from `start`, however the steps of all logins interleave: if no login from
  -- an address succeeds, and never more than `m` of its requests are under way at once between
  -- `Allow` and their answer, at most `4 + m` of its requests are answered 401, so at most five if
  -- they come one after the other. At the start the address has no bucket and no request under way.
  -- Requests from other addresses, whatever they do, make no difference.
  pub rejections-le :
      (m start : ℕ) (k : Bytes) (es : List Event) (w : World)
      → All (IsWithin start) es
      → find_key ip_of k w.app.limits ≡ none
      → in_flight k w.flights ≡ 0
      → IsCrowd m k es w
      → responses is_granted k es w ≡ 0
      → responses is_unauthorized k es w ≤ 4 + m
  unfolding Counts IsBounded
  rejections-le m start k es w h e z c g =
      let bound = rejections-bound m start 0 k es w h (inl (e, refl), omega arith) c g in
      omega arith
