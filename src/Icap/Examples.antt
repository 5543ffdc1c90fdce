-- ===== src/Icap/Examples.antt =====
-- One rule for AWS keys, one request to ChatGPT, and a stand-in for Go's regexp package that finds
-- its pattern as plain text.
use mathlib.Core.Option
use ai_scan_interceptor.Base.{
  ℕ, ◌+◌, ◌≤◌, ◌≡◌, refl, Bool, true, false, Option, none, some, List, [], ◌∷◌, Bytes, codes, same,
  length, All, drop, missing, find_key,
}
use ai_scan_interceptor.Strings.{index, has_prefix, has_suffix, before_last, trim_space}
use ai_scan_interceptor.Icap.Policy.{Config, get_mode, mode_mask}
use ai_scan_interceptor.Icap.Rules.{AlertRule, RuleEntry, RuleMatch}
use ai_scan_interceptor.Icap.Services.{
  Extractor, ServiceRule, extract_open_ai, find_rule, host_matches,
}
use ai_scan_interceptor.Icap.Detect.{Result, detect, is_inspected}
use ai_scan_interceptor.Icap.Detect.Reports.{IsReported, detect-IsReported}
use ai_scan_interceptor.Icap.Identity.{ip_only}
use ai_scan_interceptor.Icap.Handler.{LogEntry, HttpRequest, serve_reqmod}
use ai_scan_interceptor.Icap.Handler.Enforcement.{is_blocked, is_masked, serve_reqmod-entry}

find_plain : Bytes → Bytes → Option (ℕ × ℕ)
find_plain p s = Option.map (λ i. (i, i + length p)) (index s p)

-- the path tests of the table start with an anchor
abbrev match_path : Bytes → Bytes → Bool
match_path p s = has_prefix s (drop 1 p)

abbrev keep : Bytes → Bytes
keep s = s

abbrev no_names : Bytes → Bytes → List Bytes
no_names boundary body = []

abbrev no_text : Bytes → Option Bytes
no_text body = none

abbrev whole_body : Extractor → Bytes → Option Bytes
whole_body e body = some body

abbrev aws_rule : AlertRule
aws_rule = record {
  id = codes "CRED-003";
  severity = codes "critical";
  description = codes "AWS Access Key ID";
  pattern = codes "AKIA";
  negative_context = [];
  scan_body = true;
  mask_body = true;
  mask_replacement = [];
}

abbrev chat_gpt : ServiceRule
chat_gpt = record {
  name = codes "ChatGPT";
  hosts = codes "api.openai.com" ∷ codes "chatgpt.com" ∷ [];
  path_regex = codes "^/v1/chat/completions";
  extract = extract_open_ai;
}

post_inspected : is_inspected (codes "POST") ≡ true
unfolding is_inspected same
post_inspected = refl

chat_gpt_found :
    find_rule match_path (codes "chatgpt.com") (codes "/v1/chat/completions") ≡ some chat_gpt
unfolding find_rule host_matches has_prefix has_suffix same before_last
chat_gpt_found = refl

key_not_blank : same (trim_space (codes "my AKIA key")) [] ≡ false
unfolding trim_space same
key_not_blank = refl

detect-IsReported_example :
    (out : Result) × (detect find_plain match_path keep no_names no_text whole_body
        (aws_rule ∷ [])
        (codes "chatgpt.com")
        (codes "/v1/chat/completions")
        (codes "POST")
        (codes "my AKIA key")
      ≡ some out)
    × (out.service ≡ codes "ChatGPT")
    × All
        (IsReported find_plain match_path keep no_names no_text whole_body
          (codes "my AKIA key")
          out)
        (aws_rule ∷ [])
    × (length out.prompt ≤ 4111)
detect-IsReported_example =
    detect-IsReported find_plain match_path keep no_names no_text whole_body (aws_rule ∷ [])
      (codes "chatgpt.com") (codes "/v1/chat/completions") (codes "POST") (codes "my AKIA key")
      (codes "my AKIA key") chat_gpt post_inspected chat_gpt_found refl key_not_blank

-- one enabled rule, and one that does not compile
abbrev aws_entry : RuleEntry
aws_entry = record {
  id = codes "CRED-003";
  source = codes "builtin";
  enabled = true;
  severity = codes "critical";
  description = codes "AWS Access Key ID";
  pattern = codes "AKIA";
  negative_context = [];
  mask_body = true;
  mask_replacement = [];
}

-- the empty text stands for a pattern that does not compile
abbrev is_nonempty : Bytes → Bool
is_nonempty [] = false
is_nonempty (c ∷ s) = true

abbrev a_match : Bytes → RuleMatch
a_match severity = record { rule_id = []; severity = severity; description = []; excerpt = [] }

-- an upload to a service whose mode is "mask"
abbrev masking : Config
masking = record {
  data_policy = record { global_mode = codes "mask"; service_modes = []; updated_at = 0 };
  disk = missing;
}

abbrev upload : Result
upload = record {
  service = codes "Claude";
  prompt = codes "key";
  triggered = true;
  severity = codes "high";
  rule_matches = a_match (codes "high") ∷ [];
  is_file_upload = true;
}

abbrev upload_request : HttpRequest
upload_request = record {
  host = codes "claude.ai";
  path = codes "/api/";
  method = codes "POST";
  body = codes "--x";
  client_ip = codes "10.0.0.7:4711";
  identity = ([], ip_only);
}

abbrev always_upload : Bytes → Bytes → Bytes → Bytes → Option Result
always_upload host path method body = some upload

abbrev redact : Bytes → Bytes → Bytes → Bytes
redact body host path = codes "[REDACTED]"

body_given : same (codes "--x") [] ≡ false
unfolding same
body_given = refl

masking_mode : get_mode (codes "Claude") masking ≡ mode_mask
unfolding get_mode find_key
masking_mode = refl

serve_reqmod-entry_example :
    let out = serve_reqmod always_upload redact (some masking) true (some upload_request) in
    (e : LogEntry) × (out.logged ≡ e ∷ [])
    × (out.exported ≡ e ∷ [])
    × (same e.action (codes "blocked") ≡ is_blocked out.answer)
    × (same e.action (codes "masked") ≡ is_masked out.answer)
    × (same e.action (codes "passed") ≡ false)
serve_reqmod-entry_example =
    serve_reqmod-entry always_upload redact (some masking) true upload_request upload body_given
      refl
