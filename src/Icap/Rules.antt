-- ===== src/Icap/Rules.antt =====
-- Alert rules: icap-server/detection/rules.go and rules_store.go. A regular expression is its
-- source text; whether it compiles and where it first matches come from Go's regexp package.
pub mod Severity
pub mod Compile
pub mod Hits
use ai_scan_interceptor.Base.{
  ℕ, suc, ◌+◌, ◌-◌, Bool, true, false, not, ◌&&◌, ◌||◌, Option, none, some, List, [], ◌∷◌,
  if◌then◌else◌, ltb, leb, Bytes, codes, same, length, take, drop, any,
}
use ai_scan_interceptor.Strings.{trim_space}

-- `RuleMatch`
pub record RuleMatch : Type 0 where
  pub rule_id : Bytes
  pub severity : Bytes
  pub description : Bytes
  pub excerpt : Bytes

-- `alertRule`
pub record AlertRule : Type 0 where
  pub id : Bytes
  pub severity : Bytes
  pub description : Bytes
  pub pattern : Bytes
  pub negative_context : List Bytes
  pub scan_body : Bool
  pub mask_body : Bool
  pub mask_replacement : Bytes

-- `RuleEntry`
pub record RuleEntry : Type 0 where
  pub id : Bytes
  pub source : Bytes
  pub enabled : Bool
  pub severity : Bytes
  pub description : Bytes
  pub pattern : Bytes
  pub negative_context : List Bytes
  pub mask_body : Bool
  pub mask_replacement : Bytes

-- `text[from:to]`
abbrev pub slice : Bytes → ℕ → ℕ → Bytes
slice s from to = drop from (take to s)

-- `if end > n { end = n }`
abbrev pub at_most : ℕ → ℕ → ℕ
at_most n end = if ltb n end then n else end

-- the text up to `n` bytes around a match; a start below 0 is 0
abbrev pub around : ℕ → Bytes → ℕ → ℕ → Bytes
around n text from to = slice text (from - n) (at_most (length text) (to + n))

module _ (find_string_index : Bytes → Bytes → Option (ℕ × ℕ))
    (match_string : Bytes → Bytes → Bool) where
  match_found : AlertRule → Bytes → Option (ℕ × ℕ) → Option Bytes
  match_found r text none = none
  match_found r text (some (from, to)) =
      if any (λ neg. match_string neg (around 150 text from to)) r.negative_context
      then none
      else some (trim_space (around 20 text from to))

  -- `match`, which gives the excerpt of a hit
  unfoldable pub match_rule : AlertRule → Bytes → Option Bytes
  unfolding match_found
  match_rule r text = match_found r text (find_string_index r.pattern text)

  add_match : AlertRule → Option Bytes → List RuleMatch → List RuleMatch
  add_match r none ms = ms
  add_match r (some excerpt) ms =
      record {
        rule_id = r.id;
        severity = r.severity;
        description = r.description;
        excerpt = excerpt;
      }
      ∷ ms

  -- the loop over the active rules
  unfoldable pub scan : List AlertRule → Bytes → List RuleMatch
  unfolding add_match
  scan [] text = []
  scan (r ∷ rs) text = add_match r (match_rule r text) (scan rs text)

-- `severityOrder`, 0 for any other text
unfoldable pub severity_order : Bytes → ℕ
severity_order s =
    if same s (codes "critical")
    then 4
    else if same s (codes "high")
    then 3
    else if same s (codes "medium")
    then 2
    else if same s (codes "low")
    then 1
    else 0

-- `highestSeverity`
unfoldable pub highest_severity : Bytes → Bytes → Bytes
highest_severity a b = if leb (severity_order b) (severity_order a) then a else b

-- `computeSeverity`, whose loop starts from `sev`
unfoldable pub compute_severity_from : Bytes → List RuleMatch → Bytes
compute_severity_from sev [] = sev
compute_severity_from sev (m ∷ ms) = compute_severity_from (highest_severity sev m.severity) ms

unfoldable pub compute_severity : List RuleMatch → Bytes
unfolding compute_severity_from
compute_severity ms = compute_severity_from [] ms

module _ (compiles : Bytes → Bool) where
  -- the negative contexts that compile
  compile_contexts : List Bytes → List Bytes
  compile_contexts [] = []
  compile_contexts (c ∷ cs) =
      let rest = compile_contexts cs in if compiles c then c ∷ rest else rest

  -- the rule of one entry
  compile_entry : RuleEntry → AlertRule
  unfolding compile_contexts
  compile_entry e = record {
    id = e.id;
    severity = e.severity;
    description = e.description;
    pattern = e.pattern;
    negative_context = compile_contexts e.negative_context;
    scan_body = false;
    mask_body = e.mask_body;
    mask_replacement = e.mask_replacement;
  }

  -- `EntriesToAlertRules`
  unfoldable pub entries_to_alert_rules : List RuleEntry → List AlertRule
  unfolding compile_entry
  entries_to_alert_rules [] = []
  entries_to_alert_rules (e ∷ es) =
      let rest = entries_to_alert_rules es in
      if e.enabled && compiles e.pattern then compile_entry e ∷ rest else rest
