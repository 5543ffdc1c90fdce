-- ===== src/Icap/Rules/Compile.antt =====
-- Which rules of the file become active.
use ai_scan_interceptor.Base.{
  ◌≡◌, refl, Bool, true, false, ◌&&◌, ap, List, [], ◌∷◌, ◌++◌, if◌then◌else◌, arith, Bytes, all,
}
use ai_scan_interceptor.Icap.Rules.{
  AlertRule, RuleEntry, compile_contexts, compile_entry, entries_to_alert_rules,
}

if-ap :
    (b : Bool) (y a : AlertRule) (xs zs : List AlertRule)
    → zs ≡ xs ++ a ∷ []
    → (if b then y ∷ zs else zs) ≡ (if b then y ∷ xs else xs) ++ a ∷ []
if-ap true y a xs zs h = ap (λ l. y ∷ l) h
if-ap false y a xs zs h = h

module _ (compiles : Bytes → Bool) where
  -- the active rule that an entry of the file stands for: its negative contexts are those that
  -- compile, in their order
  select : List Bytes → List Bytes
  select [] = []
  select (c ∷ cs) = if compiles c then c ∷ select cs else select cs

  pub active_rule : RuleEntry → AlertRule
  active_rule e = record {
    id = e.id;
    severity = e.severity;
    description = e.description;
    pattern = e.pattern;
    negative_context = select e.negative_context;
    scan_body = false;
    mask_body = e.mask_body;
    mask_replacement = e.mask_replacement;
  }

  contexts-select : (cs : List Bytes) → compile_contexts compiles cs ≡ select cs
  unfolding compile_contexts select
  contexts-select [] = refl
  contexts-select (c ∷ cs) = ground (arith, contexts-select cs)

  -- An entry at the end of the file that is enabled and compiles is the last active rule.
  pub entries_to_alert_rules-last :
      (es : List RuleEntry) (e : RuleEntry)
      → e.enabled ≡ true
      → compiles e.pattern ≡ true
      → entries_to_alert_rules compiles (es ++ e ∷ [])
        ≡ entries_to_alert_rules compiles es ++ active_rule e ∷ []
  unfolding entries_to_alert_rules compile_entry active_rule
  entries_to_alert_rules-last [] e h c = rw h (rw c (rw (contexts-select e.negative_context) refl))
  entries_to_alert_rules-last (x ∷ es) e h c =
      if-ap (x.enabled && compiles x.pattern) (compile_entry compiles x) (active_rule e)
        (entries_to_alert_rules compiles es) (entries_to_alert_rules compiles (es ++ e ∷ []))
        (entries_to_alert_rules-last es e h c)

  contexts-all : (cs : List Bytes) → all compiles (compile_contexts compiles cs) ≡ true
  unfolding compile_contexts
  contexts-all [] = refl
  contexts-all (c ∷ cs) = ground (arith, contexts-all cs)

  -- Every expression of an active rule compiles.
  pub entries_to_alert_rules-all :
      (es : List RuleEntry)
      → all
          (λ r. compiles r.pattern && all compiles r.negative_context)
          (entries_to_alert_rules compiles es)
        ≡ true
  unfolding entries_to_alert_rules compile_entry
  entries_to_alert_rules-all [] = refl
  entries_to_alert_rules-all (e ∷ es) =
      ground (arith, entries_to_alert_rules-all es, contexts-all e.negative_context)
