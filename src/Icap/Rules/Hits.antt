-- ===== src/Icap/Rules/Hits.antt =====
-- What the scan keeps of the rules that hit.
use ai_scan_interceptor.Base.{
  ℕ, ◌≤◌, ◌≡◌, ◌⊎◌, inl, inr, refl, Bool, true, Option, none, some, List, [], ◌∷◌, Bytes, All,
}
use ai_scan_interceptor.Icap.Rules.{
  AlertRule, RuleMatch, match_rule, add_match, scan, severity_order,
}

module _ (find_string_index : Bytes → Bytes → Option (ℕ × ℕ)) (match_string : Bytes → Bytes → Bool)
    (t : Bool) (n : ℕ) (text : Bytes) where
  abbrev hit : AlertRule → Option Bytes
  hit r = match_rule find_string_index match_string r text

  -- The rule misses the text, or the report is triggered and at least as severe.
  abbrev pub IsCovered : AlertRule → Type 0
  IsCovered r = (hit r ≡ none) ⊎ ((t ≡ true) × (severity_order r.severity ≤ n))

  abbrev pub IsBelow : RuleMatch → Type 0
  IsBelow m = (t ≡ true) × (severity_order m.severity ≤ n)

  IsCovered-step :
      (r : AlertRule) (o : Option Bytes) (ms : List RuleMatch)
      → hit r ≡ o
      → All IsBelow (add_match find_string_index match_string r o ms)
      → IsCovered r × All IsBelow ms
  unfolding add_match
  IsCovered-step r none ms e h = (inl e, h)
  IsCovered-step r (some x) ms e h = (inr h.0, h.1)

  pub scan-IsCovered :
      (rs : List AlertRule)
      → All IsBelow (scan find_string_index match_string rs text)
      → All IsCovered rs
  unfolding scan
  scan-IsCovered [] h = tt
  scan-IsCovered (r ∷ rs) h =
      let step = IsCovered-step r (hit r) (scan find_string_index match_string rs text) refl h in
      (step.0, scan-IsCovered rs step.1)
