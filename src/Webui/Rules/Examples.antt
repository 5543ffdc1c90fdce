-- ===== src/Webui/Rules/Examples.antt =====
-- One rule in the file, with a replacement text. Every pattern compiles but the empty one.
use ai_scan_interceptor.Base.{
  ◌≡◌, refl, Bool, true, false, some, [], ◌∷◌, Bytes, codes, same, has_key, find_key, holds,
  WriteResult,
}
use ai_scan_interceptor.Strings.{trim_prefix}
use ai_scan_interceptor.Icap.Rules
use ai_scan_interceptor.Webui.Login.{method_post, method_put}
use ai_scan_interceptor.Webui.Rules.{RuleEntry, RulesFile, handle_rules, handle_rule_by_id}
use ai_scan_interceptor.Webui.Rules.Kept.{IsKeyed}
use ai_scan_interceptor.Webui.Rules.Active.{IsActive, handle_rules-IsActive}
use ai_scan_interceptor.Webui.Rules.Replacement.{
  HasNoReplacement, handle_rule_by_id-HasNoReplacement,
}

abbrev is_nonempty : Bytes → Bool
is_nonempty [] = false
is_nonempty (c ∷ s) = true

abbrev stored : Rules.RuleEntry
stored = record {
  id = codes "CRED-101";
  source = codes "builtin";
  enabled = true;
  severity = codes "high";
  description = codes "Credential key-value assignment";
  pattern = codes "password";
  negative_context = [];
  mask_body = true;
  mask_replacement = codes "[X]";
}

abbrev file : RulesFile
file = holds (stored ∷ [])

abbrev custom : RuleEntry
custom = record {
  id = codes "C-1";
  source = [];
  enabled = true;
  severity = codes "low";
  description = [];
  pattern = codes "project";
  negative_context = codes "sample" ∷ [] ∷ [];
  mask_body = true;
}

file-IsKeyed : IsKeyed file
unfolding has_key
file-IsKeyed = (refl, tt)

rule_added : (handle_rules is_nonempty WriteResult.written method_post (some custom) file).1 ≡ 201
unfolding handle_rules has_key same
rule_added = refl

rule_replaced :
    (handle_rule_by_id is_nonempty WriteResult.written
      (codes "/api/rules/CRED-101")
      method_put
      (some custom)
      file).1
    ≡ 204
unfolding handle_rule_by_id find_key same trim_prefix
rule_replaced = refl

handle_rules-IsActive_example :
    IsActive is_nonempty
      (record custom { source = codes "custom" })
      (handle_rules is_nonempty WriteResult.written method_post (some custom) file).0
handle_rules-IsActive_example =
    handle_rules-IsActive is_nonempty WriteResult.written custom file refl rule_added

handle_rule_by_id-HasNoReplacement_example :
    HasNoReplacement
      (handle_rule_by_id is_nonempty WriteResult.written
        (codes "/api/rules/CRED-101")
        method_put
        (some custom)
        file).0
handle_rule_by_id-HasNoReplacement_example =
    handle_rule_by_id-HasNoReplacement is_nonempty WriteResult.written (codes "/api/rules/CRED-101")
      method_put (some custom) file rule_replaced
