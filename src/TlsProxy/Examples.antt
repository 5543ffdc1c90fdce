-- ===== src/TlsProxy/Examples.antt =====
-- One token, one request. `keep` stands for Unicode lower case.
use ai_scan_interceptor.Base.{
  ℕ, ◌≤◌, ◌≡◌, ◌≢◌, refl, true, some, [], ◌∷◌, arith, Bytes, codes, same, find_key, has_key, holds,
  missing,
}
use ai_scan_interceptor.Strings.{trim_space}
use ai_scan_interceptor.TlsProxy.DeviceStore.{acquired, timed_out, append_device}
use ai_scan_interceptor.TlsProxy.Enroll.{
  EnrollToken, Csr, EnrollRequest, Env, Files, Certificate, status, issued, consume,
  pick_common_name, handle_enroll,
}
use ai_scan_interceptor.TlsProxy.Enroll.Once.{Attempt, successes, successes-le-one}
use ai_scan_interceptor.TlsProxy.Enroll.Issue.{IsGranted, handle_enroll-IsGranted}
use ai_scan_interceptor.TlsProxy.Enroll.Retry.{after_all, registry_busy-loses_token}

abbrev keep : Bytes → Bytes
keep s = s

abbrev token : EnrollToken
token = record {
  token = codes "tok";
  org_id = codes "acme";
  user = codes "alice";
  expires_at = 0;
  consumed_at = 0;
  used_count = 0;
}

abbrev files : Files
files = record { tokens = holds (token ∷ []); devices = missing }

abbrev try_token : ℕ → Attempt
try_token now = record { lock = acquired; now = now; saved = true; token = codes "tok" }

successes-le-one_example :
    successes (codes "tok") (try_token 7 ∷ try_token 8 ∷ []) (holds (token ∷ [])) ≤ 1
successes-le-one_example =
    successes-le-one (codes "tok") (try_token 7 ∷ try_token 8 ∷ []) (holds (token ∷ []))
      (omega arith, (omega arith, tt))

abbrev csr : Csr
csr = record { common_name = codes "mallory"; signature_valid = true }

abbrev request : EnrollRequest
request = record { csr_text = codes "pem"; csr = some csr; enrollment_token = codes "tok" }

abbrev env : Env
env = record {
  is_post = true;
  body = some request;
  tokens_lock = acquired;
  tokens_saved = true;
  now = 7;
  not_after = 99;
  issued_serial = some 171;
  has_devices_file = true;
  device_id = some (codes "d-1");
  devices_lock = acquired;
  devices_saved = true;
}

abbrev alice_certificate : Certificate
alice_certificate = record {
  common_name = codes "alice";
  organization = codes "acme";
  serial = 171;
  not_after = 99;
}

certificate_issued : (handle_enroll keep env files).1 ≡ issued alice_certificate
unfolding handle_enroll consume append_device pick_common_name same find_key trim_space has_key
certificate_issued = refl

handle_enroll-IsGranted_example : IsGranted keep env files alice_certificate
handle_enroll-IsGranted_example =
    handle_enroll-IsGranted keep env files alice_certificate certificate_issued

abbrev busy : Env
busy = record env { devices_lock = timed_out }

registry_busy : (handle_enroll keep busy files).1 ≡ status 503
unfolding handle_enroll consume append_device pick_common_name same find_key trim_space
registry_busy = refl

registry_busy-loses_token_example :
    (handle_enroll keep env (after_all keep (busy ∷ env ∷ []) (handle_enroll keep busy files).0)).1
    ≢ issued alice_certificate
registry_busy-loses_token_example =
    registry_busy-loses_token keep busy env request request (busy ∷ env ∷ []) files
      alice_certificate (omega arith) (omega arith, (omega arith, tt)) refl refl refl refl
      registry_busy
