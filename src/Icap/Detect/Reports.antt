-- ===== src/Icap/Detect/Reports.antt =====
-- What `Detect` reports of a prompt.
use ai_scan_interceptor.Base.{
  ℕ, ◌+◌, ◌≤◌, ◌≡◌, refl, Bool, true, false, Option, some, List, [], ◌∷◌, ◌++◌, arith,
  if◌then◌else◌, ltb, Bytes, codes, same, length, take, All, length-append, length-take-le, All-imp,
  if-case,
}
use ai_scan_interceptor.Strings.{trim_space}
use ai_scan_interceptor.Icap.Rules.{AlertRule, RuleMatch, scan, severity_order, compute_severity}
use ai_scan_interceptor.Icap.Rules.Severity.{compute_severity-All}
use ai_scan_interceptor.Icap.Rules.Hits.{IsCovered, scan-IsCovered}
use ai_scan_interceptor.Icap.Services.{Extractor, ServiceRule, find_rule}
use ai_scan_interceptor.Icap.Filename.{check_sensitive_filename}
use ai_scan_interceptor.Icap.Detect.{
  Result, limit_prompt, truncated, filename_matches, contrib_matches, extract_gemini_contrib_ref,
  report, is_inspected, is_multipart, prompt_matches, is_triggered, is_upload, detect_prompt,
  detect_service, detect,
}

limited-length :
    (n : ℕ) (tail p : Bytes)
    → length (if ltb n (length p) then take n p ++ tail else p) ≤ n + length tail
limited-length n tail p =
    if-case (λ x. length x ≤ n + length tail) (ltb n (length p)) (take n p ++ tail) p
      (λ w. omega (arith, length-append (take n p) tail, length-take-le n p)) (λ w. ground arith)

limit_prompt-length : (p : Bytes) → length (limit_prompt p) ≤ 4111
unfolding limit_prompt
limit_prompt-length p = limited-length 4096 truncated p

All-append-left : (P : RuleMatch → Type 0) (xs ys : List RuleMatch) → All P (xs ++ ys) → All P xs
All-append-left P [] ys h = tt
All-append-left P (x ∷ xs) ys h = (h.0, All-append-left P xs ys h.1)

below-triggered :
    (n : ℕ) (ms : List RuleMatch)
    → All (λ m. severity_order m.severity ≤ n) ms
    → All (λ m. (is_triggered ms ≡ true) × (severity_order m.severity ≤ n)) ms
below-triggered n [] h = tt
below-triggered n (m ∷ ms) h = (
  (refl, h.0),
  All-imp (λ x. severity_order x.severity ≤ n)
      (λ x. (true ≡ true) × (severity_order x.severity ≤ n)) (λ x w. (refl, w)) ms h.1,
)

module _ (find_string_index : Bytes → Bytes → Option (ℕ × ℕ)) (match_string : Bytes → Bytes → Bool)
    (lower_runes : Bytes → Bytes) (file_names : Bytes → Bytes → List Bytes)
    (extract_multipart_file : Bytes → Option Bytes)
    (extract_with : Extractor → Bytes → Option Bytes) where
  -- The report covers a rule: the rule misses the text, or the report is triggered and at least as
  -- severe as the rule.
  abbrev pub IsReported : Bytes → Result → AlertRule → Type 0
  IsReported text out r =
      IsCovered find_string_index match_string out.triggered (severity_order out.severity) text r

  append-reported :
      (active : List AlertRule) (prompt : Bytes) (others : List RuleMatch)
      → let ms = scan find_string_index match_string active prompt ++ others in
        All
          (IsCovered find_string_index match_string
            (is_triggered ms)
            (severity_order (compute_severity ms))
            prompt)
          active
  append-reported active prompt others =
      let found = scan find_string_index match_string active prompt in
      let ms = found ++ others in
      let n = severity_order (compute_severity ms) in
      scan-IsCovered find_string_index match_string (is_triggered ms) n prompt active (
        All-append-left (λ m. (is_triggered ms ≡ true) × (severity_order m.severity ≤ n)) found
          others (below-triggered n ms (compute_severity-All ms)))

  matches-reported :
      (active : List AlertRule) (name : Bytes) (upload : Bool) (prompt body : Bytes)
      → let ms =
          prompt_matches find_string_index match_string lower_runes file_names
            extract_multipart_file extract_with active name upload prompt body in
        All
          (IsCovered find_string_index match_string
            (is_triggered ms)
            (severity_order (compute_severity ms))
            prompt)
          active
  unfolding prompt_matches
  matches-reported active name upload prompt body = append-reported active prompt (
      (if upload
        then filename_matches (check_sensitive_filename lower_runes file_names body)
        else [])
      ++ (if same name (codes "Gemini-Web")
          then contrib_matches (extract_gemini_contrib_ref prompt)
          else []))

  -- A request to a known service, by an inspected method and with a prompt that is not blank, is
  -- reported under the service's name. Every active rule misses the prompt, or the report is
  -- triggered and at least as severe as the rule; and the prompt that the report keeps is 4111
  -- bytes long at most, however long the one that was scanned.
  pub detect-IsReported :
      (active : List AlertRule) (host path method body prompt : Bytes) (s : ServiceRule)
      → is_inspected method ≡ true
      → find_rule match_string host path ≡ some s
      → extract_with s.extract body ≡ some prompt
      → same (trim_space prompt) [] ≡ false
      → (out : Result) × (detect find_string_index match_string lower_runes file_names
            extract_multipart_file extract_with active host path method body
          ≡ some out)
        × (out.service ≡ s.name)
        × All (IsReported prompt out) active
        × (length out.prompt ≤ 4111)
  unfolding detect detect_service detect_prompt report prompt_matches
  detect-IsReported active host path method body prompt s i f e n =
      let ms =
        prompt_matches find_string_index match_string lower_runes file_names extract_multipart_file
          extract_with active s.name (is_multipart body) prompt body in
      (
        report s.name prompt
            (is_upload find_string_index match_string lower_runes file_names extract_multipart_file
              extract_with s.name (is_multipart body) prompt)
            ms,
        rw i (rw f (rw e (rw n refl))),
        refl,
        matches-reported active s.name (is_multipart body) prompt body,
        limit_prompt-length prompt,
      )
