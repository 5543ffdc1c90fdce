-- ===== src/Icap/Hostname.antt =====
-- Names of clients by reverse DNS, cached for five minutes: icap-server/icap/hostname.go. The names
-- that the resolver gives for an address, none on an error, are an argument. An entry of the cache
-- hides those behind it.
use ai_scan_interceptor.Base.{
  ℕ, suc, ◌+◌, ◌-◌, Bool, ◌||◌, Option, none, some, List, [], ◌∷◌, ltb, Bytes, codes, same,
  if◌then◌else◌, find_key, length, take,
}
use ai_scan_interceptor.Strings.{has_suffix, index_byte, contains}

-- `hostnameCacheEntry`, with its key
pub record HostnameEntry : Type 0 where
  pub ip : Bytes
  pub name : Bytes
  pub expires : ℕ

abbrev ip_of : HostnameEntry → Bytes
ip_of e = e.ip

-- the first label of a name; a name that begins with a dot is kept
label_at : Bytes → Option ℕ → Bytes
label_at fqdn (some (suc i)) = take (suc i) fqdn
label_at fqdn _ = fqdn

-- strings.TrimSuffix(s, ".")
without_dot : Bytes → Bytes
unfolding has_suffix
without_dot s = if has_suffix s (codes ".") then take (length s - 1) s else s

unless_container : Bytes → Bytes
unfolding contains
unless_container name = if contains name (codes "ai-scan-interceptor-") then [] else name

-- the name that an answer of the resolver gives
unfoldable pub short_name : List Bytes → Bytes
unfolding label_at without_dot unless_container index_byte
short_name [] = []
short_name (n ∷ ns) = unless_container (label_at (without_dot n) (index_byte (without_dot n) b'.'))

-- the entry of an address, unless it has expired
fresh : ℕ → Option HostnameEntry → Option Bytes
fresh now none = none
fresh now (some e) = if ltb now e.expires then some e.name else none

resolve : ℕ → List Bytes → Bytes → Option Bytes → List HostnameEntry → Bytes × List HostnameEntry
unfolding short_name
resolve now names ip (some name) cache = (name, cache)
resolve now names ip none cache =
    (short_name names, record { ip = ip; name = short_name names; expires = now + 300 } ∷ cache)

is_local : Bytes → Bool
is_local ip = same ip [] || same ip (codes "127.0.0.1") || same ip (codes "::1")

-- `lookupHostname`, with the cache that it leaves
unfoldable pub lookup_hostname :
    ℕ → List Bytes → Bytes → List HostnameEntry → Bytes × List HostnameEntry
unfolding is_local resolve fresh
lookup_hostname now names ip cache =
    if is_local ip
    then ([], cache)
    else resolve now names ip (fresh now (find_key ip_of ip cache)) cache
