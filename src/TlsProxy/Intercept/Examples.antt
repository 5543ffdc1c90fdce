-- ===== src/TlsProxy/Intercept/Examples.antt =====
-- The theorems on interception and on the cached certificates, at one request.
use ai_scan_interceptor.Base.{
  refl, true, false, Option, none, some, [], ◌∷◌, arith, Bytes, codes, All,
}
use ai_scan_interceptor.Icap.Detect.{Result}
use ai_scan_interceptor.Icap.Identity.{ip_only}
use ai_scan_interceptor.Icap.Handler.{HttpRequest}
use ai_scan_interceptor.TlsProxy.CertCache.{
  CertEntry, get_cert, IsSound, IsValidFor, get_cert-IsSound,
}
use ai_scan_interceptor.TlsProxy.Intercept.{Client, client_of, intercept_loop, kept_alive}
use ai_scan_interceptor.TlsProxy.Intercept.Agreement.{IsAllowed, intercept_loop-IsAllowed}

abbrev a_report : Result
a_report = record {
  service = codes "Claude";
  prompt = codes "my key";
  triggered = true;
  severity = codes "medium";
  rule_matches = [];
  is_file_upload = false;
}

abbrev find_always : Bytes → Bytes → Bytes → Bytes → Option Result
find_always host path method body = some a_report

abbrev redact : Bytes → Bytes → Bytes → Bytes
redact body host path = codes "my [REDACTED]"

abbrev a_request : HttpRequest
a_request = record {
  host = codes "claude.ai";
  path = codes "/api/";
  method = codes "POST";
  body = codes "my key";
  client_ip = codes "10.0.0.7:4711";
  identity = ([], ip_only);
}

abbrev a_client : Client
a_client = client_of (codes "10.0.0.9:5120") (codes "alice") [] []

intercept_loop-IsAllowed_example : All (IsAllowed find_always redact a_client none true) (
    intercept_loop find_always redact a_client none
      ((a_request, kept_alive) ∷ (a_request, kept_alive) ∷ []))
intercept_loop-IsAllowed_example =
    intercept_loop-IsAllowed find_always redact a_client none true
      ((a_request, kept_alive) ∷ (a_request, kept_alive) ∷ [])

abbrev an_entry : CertEntry
an_entry = record {
  host = codes "claude.ai";
  cert = record { host = codes "claude.ai"; not_before = 0; not_after = 86400 };
  exp = 43200;
}

get_cert-IsSound_example :
    IsValidFor 50000 (codes "claude.ai") (get_cert 50000 true (codes "claude.ai") (an_entry ∷ [])).0
    × All (IsSound 50000) (get_cert 50000 true (codes "claude.ai") (an_entry ∷ [])).1
get_cert-IsSound_example =
    get_cert-IsSound 40000 50000 true (codes "claude.ai") (an_entry ∷ []) (omega arith)
      ((omega arith, omega arith, refl), tt)
