-- ===== src/Webui/RateLimit.antt =====
-- The limit on failed logins by address: `rateLimiter` of webui/auth.go. Time is in seconds.
pub mod Window
use ai_scan_interceptor.Base.{
  ℕ, suc, ◌+◌, Bool, true, false, Option, none, some, List, [], ◌∷◌, ◌++◌, if◌then◌else◌, ltb,
  Bytes, same, find_key, has_key, update_key, remove_key,
}

-- `rateLimitWindow` and `rateLimitMaxTries`
abbrev pub rate_limit_window : ℕ
rate_limit_window = 900

abbrev pub rate_limit_max_tries : ℕ
rate_limit_max_tries = 5

-- `rateBucket` and its key
pub record RateBucket : Type 0 where
  pub ip : Bytes
  pub failures : ℕ
  pub reset_at : ℕ

abbrev pub ip_of : RateBucket → Bytes
ip_of b = b.ip

-- `rl.buckets[ip] = b`
unfoldable pub put : RateBucket → List RateBucket → List RateBucket
put b [] = b ∷ []
put b (c ∷ bs) = if same c.ip b.ip then b ∷ bs else c ∷ put b bs

abbrev fresh_bucket : Bytes → ℕ → ℕ → RateBucket
fresh_bucket ip n now = record { ip = ip; failures = n; reset_at = now + rate_limit_window }

allow_found : ℕ → Bytes → Option RateBucket → List RateBucket → List RateBucket × Bool
unfolding put
allow_found now ip none bs = (put (fresh_bucket ip 0 now) bs, true)
allow_found now ip (some b) bs =
    if ltb b.reset_at now
    then (put (fresh_bucket ip 0 now) bs, true)
    else (bs, ltb b.failures rate_limit_max_tries)

-- `Allow`
unfoldable pub allow : ℕ → Bytes → List RateBucket → List RateBucket × Bool
unfolding allow_found
allow now ip bs = allow_found now ip (find_key ip_of ip bs) bs

failure_found : ℕ → Bytes → Option RateBucket → List RateBucket → List RateBucket
unfolding put
failure_found now ip none bs = put (fresh_bucket ip 1 now) bs
failure_found now ip (some b) bs =
    if ltb b.reset_at now
    then put (fresh_bucket ip 1 now) bs
    else put (record b { failures = suc b.failures }) bs

-- `RecordFailure`
unfoldable pub record_failure : ℕ → Bytes → List RateBucket → List RateBucket
unfolding failure_found
record_failure now ip bs = failure_found now ip (find_key ip_of ip bs) bs

-- `RecordSuccess` and `ClearIP`
unfoldable pub record_success : Bytes → List RateBucket → List RateBucket
record_success ip bs = remove_key ip_of ip bs

-- `ClearAll`
unfoldable pub clear_all : List RateBucket → List RateBucket
clear_all bs = []
