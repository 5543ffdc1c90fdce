-- ===== src/Webui/RateLimit/Window.antt =====
-- One address's bucket while its window is open.
use ai_scan_interceptor.Base.{
  ℕ, suc, ◌+◌, ◌≤◌, ◌<◌, ◌≡◌, ◌≢◌, refl, sym, ap, ◌⊎◌, inl, inr, ltb→lt, find_key-key, true, false,
  Option, none, some, List, [], ◌∷◌, arith, ltb, Bytes, same_iff, same_refl, find_key,
  find_key-remove_key_ne,
}
use ai_scan_interceptor.Webui.RateLimit.{
  RateBucket, ip_of, put, allow_found, allow, failure_found, record_failure, record_success,
}

find-put : (b : RateBucket) (bs : List RateBucket) → find_key ip_of b.ip (put b bs) ≡ some b
unfolding put find_key
find-put b [] = ground (arith, same_refl b.ip)
find-put b (c ∷ bs) = ground (arith, same_refl b.ip, find-put b bs)

find-put_ne :
    (b : RateBucket) (k : Bytes) (bs : List RateBucket)
    → k ≢ b.ip
    → find_key ip_of k (put b bs) ≡ find_key ip_of k bs
unfolding put find_key
find-put_ne b k [] h = ground (arith, same_iff b.ip k)
find-put_ne b k (c ∷ bs) h =
    ground (arith, same_iff b.ip k, same_iff c.ip k, same_iff c.ip b.ip, find-put_ne b k bs h)

-- The address has a bucket with `n` failures, in a window that lasts until `end` at least.
unfoldable pub IsOpen : ℕ → ℕ → Bytes → List RateBucket → Type 0
IsOpen end n k bs =
    (b : RateBucket) × (find_key ip_of k bs ≡ some b) × (end ≤ b.reset_at) × (b.failures ≡ n)

-- It has such a bucket, or none and no failure is counted.
unfoldable pub Counts : ℕ → ℕ → Bytes → List RateBucket → Type 0
Counts end n k bs = ((find_key ip_of k bs ≡ none) × (n ≡ 0)) ⊎ IsOpen end n k bs

allow-fresh :
    (end now : ℕ) (k : Bytes) (bs : List RateBucket)
    → end ≤ now + 900
    → find_key ip_of k bs ≡ none
    → IsOpen end 0 k (allow now k bs).0
unfolding allow allow_found IsOpen
allow-fresh end now k bs h e =
    let b : RateBucket = record { ip = k; failures = 0; reset_at = now + 900 } in
    rw e (b, find-put b bs, h, refl)

allow-open :
    (end now n : ℕ) (k : Bytes) (bs : List RateBucket)
    → now ≤ end
    → IsOpen end n k bs
    → allow now k bs ≡ (bs, ltb n 5)
unfolding allow allow_found IsOpen
allow-open end now n k bs h (b, e, r, f) =
    let open_now : ltb b.reset_at now ≡ false = ground arith in rw e (rw open_now (rw f refl))

-- In the window `Allow` keeps the count, and lets the address in below five failures.
pub allow-Counts :
    (end now n : ℕ) (k : Bytes) (bs : List RateBucket)
    → now ≤ end
    → end ≤ now + 900
    → Counts end n k bs
    → IsOpen end n k (allow now k bs).0 × ((allow now k bs).1 ≡ true → n < 5)
unfolding Counts
allow-Counts end now n k bs h h' (inl (e, z)) =
    (rw z (allow-fresh end now k bs h' e), λ w. omega arith)
allow-Counts end now n k bs h h' (inr o) = rw (allow-open end now n k bs h o) (o, λ w. ltb→lt n 5 w)

-- A failure adds one to the count.
failure-IsOpen :
    (end now n : ℕ) (k : Bytes) (bs : List RateBucket)
    → now ≤ end
    → IsOpen end n k bs
    → IsOpen end (suc n) k (record_failure now k bs)
unfolding record_failure failure_found IsOpen
failure-IsOpen end now n k bs h (b, e, r, f) =
    let open_now : ltb b.reset_at now ≡ false = ground arith in
    let c : RateBucket = record b { failures = suc b.failures } in
    let same_ip : b.ip ≡ k = find_key-key ip_of k bs b e in
    let found : find_key ip_of k (put c bs) ≡ some c = rw (sym same_ip) (find-put c bs) in
    rw e (rw open_now (c, found, r, ap suc f))

pub failure-Counts :
    (end now n : ℕ) (k : Bytes) (bs : List RateBucket)
    → now ≤ end
    → end ≤ now + 900
    → Counts end n k bs
    → IsOpen end (suc n) k (record_failure now k bs)
unfolding Counts record_failure failure_found IsOpen
failure-Counts end now n k bs h h' (inl (e, z)) =
    let b : RateBucket = record { ip = k; failures = 1; reset_at = now + 900 } in
    rw e (b, find-put b bs, h', rw z refl)
failure-Counts end now n k bs h h' (inr o) = failure-IsOpen end now n k bs h o

allow_found-other :
    (now : ℕ) (j k : Bytes) (o : Option RateBucket) (bs : List RateBucket)
    → k ≢ j
    → find_key ip_of k (allow_found now j o bs).0 ≡ find_key ip_of k bs
unfolding allow_found
allow_found-other now j k none bs h =
    find-put_ne (record { ip = j; failures = 0; reset_at = now + 900 }) k bs h
allow_found-other now j k (some b) bs h =
    ground (arith, find-put_ne (record { ip = j; failures = 0; reset_at = now + 900 }) k bs h)

failure_found-other :
    (now : ℕ) (j k : Bytes) (o : Option RateBucket) (bs : List RateBucket)
    → o ≡ find_key ip_of j bs
    → k ≢ j
    → find_key ip_of k (failure_found now j o bs) ≡ find_key ip_of k bs
unfolding failure_found
failure_found-other now j k none bs e h =
    find-put_ne (record { ip = j; failures = 1; reset_at = now + 900 }) k bs h
failure_found-other now j k (some b) bs e h =
    let same_ip : b.ip ≡ j = find_key-key ip_of j bs b (sym e) in
    ground (
      arith,
      find-put_ne (record { ip = j; failures = 1; reset_at = now + 900 }) k bs h,
      find-put_ne (record b { failures = suc b.failures }) k bs,
    )

-- What is done for another address does not show.
pub allow-other :
    (now : ℕ) (j k : Bytes) (bs : List RateBucket)
    → k ≢ j
    → find_key ip_of k (allow now j bs).0 ≡ find_key ip_of k bs
unfolding allow
allow-other now j k bs h = allow_found-other now j k (find_key ip_of j bs) bs h

pub failure-other :
    (now : ℕ) (j k : Bytes) (bs : List RateBucket)
    → k ≢ j
    → find_key ip_of k (record_failure now j bs) ≡ find_key ip_of k bs
unfolding record_failure
failure-other now j k bs h = failure_found-other now j k (find_key ip_of j bs) bs refl h

pub success-other :
    (j k : Bytes) (bs : List RateBucket)
    → k ≢ j
    → find_key ip_of k (record_success j bs) ≡ find_key ip_of k bs
unfolding record_success
success-other j k bs h = find_key-remove_key_ne ip_of j k bs h
