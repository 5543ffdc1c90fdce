-- ===== src/Icap/Detect.antt =====
-- The decision on one request: icap-server/detection/detector.go. The parameters are Go's regexp
-- package, Unicode lower case, the file names and the text of a multipart body, and the extractors
-- of patterns.go.
pub mod Reports
use ai_scan_interceptor.Base.{
  ℕ, ◌+◌, Bool, true, false, not, ◌&&◌, ◌||◌, Option, none, some, List, [], ◌∷◌, ◌++◌,
  if◌then◌else◌, ltb, Bytes, codes, same, length, take, drop, is_some,
}
use ai_scan_interceptor.Strings.{trim_space, has_prefix, index}
use ai_scan_interceptor.Icap.Rules.{AlertRule, RuleMatch, scan, compute_severity, slice, at_most}
use ai_scan_interceptor.Icap.Services.{
  Extractor, ServiceRule, find_rule, known_ai_service_name, is_known_ai_host,
}
use ai_scan_interceptor.Icap.Filename.{FilenameHit, check_sensitive_filename}

-- `Result`
pub record Result : Type 0 where
  pub service : Bytes
  pub prompt : Bytes
  pub triggered : Bool
  pub severity : Bytes
  pub rule_matches : List RuleMatch
  pub is_file_upload : Bool

-- `maxPromptLen`, and the UTF-8 text "… [truncated]"
abbrev pub max_prompt_len : ℕ
max_prompt_len = 4096

abbrev pub truncated : Bytes
truncated = 226 ∷ 128 ∷ 166 ∷ codes " [truncated]"

unfoldable pub limit_prompt : Bytes → Bytes
limit_prompt p = if ltb max_prompt_len (length p) then take max_prompt_len p ++ truncated else p

-- `len(body) > 2 && body[0] == '-' && body[1] == '-'`
unfoldable pub is_multipart : Bytes → Bool
is_multipart body = ltb 2 (length body) && has_prefix body (codes "--")

contrib_at : Bytes → Option ℕ → Option Bytes
contrib_at text none = none
contrib_at text (some n) = some (slice text n (at_most (length text) (n + 80)))

-- `extractGeminiContribRef`; a reference found is never empty
unfoldable pub extract_gemini_contrib_ref : Bytes → Option Bytes
unfolding contrib_at
extract_gemini_contrib_ref text = contrib_at text (index text (codes "/contrib_service/"))

-- the matches of the two screenings after the rules
abbrev pub filename_matches : Option FilenameHit → List RuleMatch
filename_matches none = []
filename_matches (some f) =
    record {
      rule_id = f.rule_id;
      severity = codes "high";
      description = f.desc;
      excerpt = f.filename;
    }
    ∷ []

abbrev pub contrib_matches : Option Bytes → List RuleMatch
contrib_matches none = []
contrib_matches (some ref) =
    record {
      rule_id = codes "FILE-009";
      severity = codes "high";
      description = codes "Gemini file attachment (content encrypted/opaque; cannot be scanned)";
      excerpt = ref;
    }
    ∷ []

-- some rule matched: every place that sets `Triggered` adds a match, and no other does
abbrev pub is_triggered : List RuleMatch → Bool
is_triggered [] = false
is_triggered (m ∷ ms) = true

-- the end of both functions
unfoldable pub report : Bytes → Bytes → Bool → List RuleMatch → Result
report service prompt upload ms = record {
  service = service;
  prompt = limit_prompt prompt;
  triggered = is_triggered ms;
  severity = compute_severity ms;
  rule_matches = ms;
  is_file_upload = upload;
}

-- the three methods that `Detect` inspects
unfoldable pub is_inspected : Bytes → Bool
is_inspected method =
    same method (codes "POST") || same method (codes "PUT") || same method (codes "PATCH")

module _ (find_string_index : Bytes → Bytes → Option (ℕ × ℕ)) (match_string : Bytes → Bytes → Bool)
    (lower_runes : Bytes → Bytes) (file_names : Bytes → Bytes → List Bytes)
    (extract_multipart_file : Bytes → Option Bytes)
    (extract_with : Extractor → Bytes → Option Bytes) where
  -- the matches of one prompt, in the order of their checks
  unfoldable pub prompt_matches : List AlertRule → Bytes → Bool → Bytes → Bytes → List RuleMatch
  prompt_matches active service upload prompt body =
      scan find_string_index match_string active prompt
      ++ ((if upload
            then filename_matches (check_sensitive_filename lower_runes file_names body)
            else [])
          ++ (if same service (codes "Gemini-Web")
              then contrib_matches (extract_gemini_contrib_ref prompt)
              else []))

  -- a Gemini reference counts as an upload
  abbrev pub is_upload : Bytes → Bool → Bytes → Bool
  is_upload service upload prompt =
      upload || (same service (codes "Gemini-Web") && is_some (extract_gemini_contrib_ref prompt))

  unfoldable pub detect_prompt :
      List AlertRule → Bytes → Bool → Bytes → Option Bytes → Option Result
  unfolding report prompt_matches
  detect_prompt active service upload body none = none
  detect_prompt active service upload body (some prompt) =
      if same (trim_space prompt) []
      then none
      else some (
          report service prompt (is_upload service upload prompt)
            (prompt_matches active service upload prompt body))

  -- the text of the file parts, unless it is blank
  abbrev pub upload_text : Option Bytes → Bytes
  upload_text none = []
  upload_text (some text) = if same (trim_space text) [] then [] else text

  -- the prompt that stands for an upload
  abbrev pub upload_prompt : Option FilenameHit → Bytes → Bytes
  upload_prompt none text = text
  upload_prompt (some f) text = codes "[file: " ++ f.filename ++ codes "]"

  unfoldable pub upload_report : List AlertRule → Bytes → Option FilenameHit → Bytes → Option Result
  unfolding report
  upload_report active service hit text =
      if same (upload_prompt hit text) []
      then none
      else some (
          report service (upload_prompt hit text) true (
            filename_matches hit
            ++ (if same text [] then [] else scan find_string_index match_string active text)))

  -- `detectMultipartUpload`
  unfoldable pub detect_multipart_upload : List AlertRule → Bytes → Bytes → Option Result
  unfolding upload_report
  detect_multipart_upload active host body =
      upload_report active (known_ai_service_name host)
        (check_sensitive_filename lower_runes file_names body)
        (upload_text (extract_multipart_file body))

  unfoldable pub detect_service :
      List AlertRule → Bytes → Bool → Bytes → Option ServiceRule → Option Result
  unfolding detect_prompt detect_multipart_upload
  detect_service active host upload body none =
      if upload && is_known_ai_host host then detect_multipart_upload active host body else none
  detect_service active host upload body (some r) =
      detect_prompt active r.name upload body (extract_with r.extract body)

  -- `Detect`
  unfoldable pub detect : List AlertRule → Bytes → Bytes → Bytes → Bytes → Option Result
  unfolding detect_service
  detect active host path method body =
      if is_inspected method
      then detect_service active host (is_multipart body) body (find_rule match_string host path)
      else none
