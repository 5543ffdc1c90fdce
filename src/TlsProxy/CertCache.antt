-- ===== src/TlsProxy/CertCache.antt =====
-- The certificates that the proxy shows for the hosts it intercepts: `issueCert` and the cache of
-- tls-proxy/main.go. Times are seconds; whether the key and the signature were made is an argument.
use ai_scan_interceptor.Base.{
  ℕ, ◌+◌, ◌-◌, ◌*◌, ◌≤◌, ◌<◌, ◌≡◌, refl, Bool, true, false, Option, none, some, List, [], ◌∷◌,
  arith, if◌then◌else◌, ltb, Bytes, All, All-imp, same, same→eq, find_key, if-case, ◌∙◌,
}

-- what matters of the certificate that is issued
pub record HostCert : Type 0 where
  pub host : Bytes
  pub not_before : ℕ
  pub not_after : ℕ

-- `certEntry`, with its key; the latest of a host stands first
pub record CertEntry : Type 0 where
  pub host : Bytes
  pub cert : HostCert
  pub exp : ℕ

abbrev host_of : CertEntry → Bytes
host_of e = e.host

-- `issueCert`
unfoldable pub issue_cert : ℕ → Bool → Bytes → Option HostCert
issue_cert now signed host =
    if signed
    then some (record { host = host; not_before = now - 60; not_after = now + 24 * 3600 })
    else none

store : ℕ → Bytes → Option HostCert → List CertEntry → Option HostCert × List CertEntry
store now host none cache = (none, cache)
store now host (some c) cache =
    (some c, record { host = host; cert = c; exp = now + 12 * 3600 } ∷ cache)

cached : ℕ → Option CertEntry → Option HostCert
cached now none = none
cached now (some e) = if ltb now e.exp then some e.cert else none

get_or : ℕ → Bool → Bytes → Option HostCert → List CertEntry → Option HostCert × List CertEntry
unfolding store issue_cert
get_or now signed host (some c) cache = (some c, cache)
get_or now signed host none cache = store now host (issue_cert now signed host) cache

-- `get`
unfoldable pub get_cert : ℕ → Bool → Bytes → List CertEntry → Option HostCert × List CertEntry
unfolding get_or cached
get_cert now signed host cache =
    get_or now signed host (cached now (find_key host_of host cache)) cache

-- an entry whose certificate is valid from `now` or earlier and as long as the entry is used, and for
-- its host
abbrev pub IsSound : ℕ → CertEntry → Type 0
IsSound now e = (e.cert.not_before ≤ now) × (e.exp ≤ e.cert.not_after) × (e.cert.host ≡ e.host)

-- a certificate for a host that is valid at a time, if there is one
abbrev pub IsValidFor : ℕ → Bytes → Option HostCert → Type 0
IsValidFor now host none = Unit
IsValidFor now host (some c) = (c.not_before ≤ now) × (now < c.not_after) × (c.host ≡ host)

find-IsValidFor :
    (now : ℕ) (host : Bytes) (cache : List CertEntry)
    → All (IsSound now) cache
    → IsValidFor now host (cached now (find_key host_of host cache))
unfolding find_key cached
find-IsValidFor now host [] h = tt
find-IsValidFor now host (e ∷ es) h =
    if-case (λ o. IsValidFor now host (cached now o)) (same e.host host) (some e)
      (find_key host_of host es)
      (λ s.
        if-case (IsValidFor now host) (ltb now e.exp) (some e.cert) none
          (λ l. (h.0.0, ground (arith, h.0.1), h.0.2 ∙ same→eq e.host host s)) (λ l. tt))
      (λ s. find-IsValidFor now host es h.1)

get_or-IsSound :
    (now : ℕ) (signed : Bool) (host : Bytes) (o : Option HostCert) (cache : List CertEntry)
    → IsValidFor now host o
    → All (IsSound now) cache
    → IsValidFor now host (get_or now signed host o cache).0
      × All (IsSound now) (get_or now signed host o cache).1
unfolding get_or store issue_cert
get_or-IsSound now signed host (some c) cache v h = (v, h)
get_or-IsSound now true host none cache v h =
    ((omega arith, omega arith, refl), ((omega arith, omega arith, refl), h))
get_or-IsSound now false host none cache v h = (tt, h)

-- A certificate that the cache gives is valid at the time, neither too early nor too late, and for
-- the host, if the cache was sound at an earlier time; and the cache is sound then: every
-- certificate in it is valid already, and no entry outlives its certificate.
pub get_cert-IsSound :
    (before now : ℕ) (signed : Bool) (host : Bytes) (cache : List CertEntry)
    → before ≤ now
    → All (IsSound before) cache
    → IsValidFor now host (get_cert now signed host cache).0
      × All (IsSound now) (get_cert now signed host cache).1
unfolding get_cert
get_cert-IsSound before now signed host cache le h =
    let sound : All (IsSound now) cache =
      All-imp (IsSound before) (IsSound now) (λ e s. (omega arith, s.1, s.2)) cache h in
    get_or-IsSound now signed host (cached now (find_key host_of host cache)) cache
      (find-IsValidFor now host cache sound) sound
