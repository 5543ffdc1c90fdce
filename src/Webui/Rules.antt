-- ===== src/Webui/Rules.antt =====
-- The rules pages of the dashboard: webui/handler.go. The file holds the entries that the ICAP
-- server reads; the dashboard's own record has one field less. A regular expression is its source
-- text, and whether it compiles is an argument, as is the outcome of each write.
pub mod Kept
pub mod Active
pub mod Replacement
pub mod Examples
use ai_scan_interceptor.Base.{
  ℕ, Bool, true, false, not, ◌&&◌, ◌||◌, Option, none, some, List, [], ◌∷◌, ◌++◌, map,
  if◌then◌else◌, Bytes, codes, same, find_key, has_key, update_key, File, missing, unreadable,
  empty, malformed, holds, WriteResult, is_written, overwrite_file,
}
use ai_scan_interceptor.Strings.{trim_prefix}
use ai_scan_interceptor.Icap.Rules
use ai_scan_interceptor.Webui.Login.{
  Method, method_get, method_post, method_put, method_delete, is_post,
}

-- `RuleEntry`
pub record RuleEntry : Type 0 where
  pub id : Bytes
  pub source : Bytes
  pub enabled : Bool
  pub severity : Bytes
  pub description : Bytes
  pub pattern : Bytes
  pub negative_context : List Bytes
  pub mask_body : Bool

abbrev pub rule_id : RuleEntry → Bytes
rule_id r = r.id

-- decoding drops the replacement, and encoding leaves it out
abbrev pub decoded : Rules.RuleEntry → RuleEntry
decoded r = record {
  id = r.id;
  source = r.source;
  enabled = r.enabled;
  severity = r.severity;
  description = r.description;
  pattern = r.pattern;
  negative_context = r.negative_context;
  mask_body = r.mask_body;
}

abbrev pub encoded : RuleEntry → Rules.RuleEntry
encoded r = record {
  id = r.id;
  source = r.source;
  enabled = r.enabled;
  severity = r.severity;
  description = r.description;
  pattern = r.pattern;
  negative_context = r.negative_context;
  mask_body = r.mask_body;
  mask_replacement = [];
}

abbrev pub RulesFile : Type 0
RulesFile = File (List Rules.RuleEntry)

-- `readRules`; an empty file is no JSON
unfoldable pub read_rules : RulesFile → Option (List RuleEntry)
read_rules missing = some []
read_rules (holds rs) = some (map decoded rs)
read_rules _ = none

-- `writeRules`, with the status of the handlers for its outcome
unfoldable pub write_rules : ℕ → WriteResult → List RuleEntry → RulesFile → RulesFile × ℕ
write_rules code saved rs file =
    (overwrite_file saved (map encoded rs) file, if is_written saved then code else 500)

-- `validRuleSeverities`
unfoldable pub is_severity : Bytes → Bool
is_severity s =
    same s (codes "critical")
    || same s (codes "high")
    || same s (codes "medium")
    || same s (codes "low")

-- every rule but those of the identifier
unfoldable pub without : Bytes → List RuleEntry → List RuleEntry
without id [] = []
without id (r ∷ rs) = let rest = without id rs in if same r.id id then rest else r ∷ rest

delete_from : WriteResult → Bytes → Option (List RuleEntry) → RulesFile → RulesFile × ℕ
unfolding write_rules
delete_from saved id none file = (file, 500)
delete_from saved id (some rs) file =
    if has_key rule_id id rs then write_rules 204 saved (without id rs) file else (file, 404)

module _ (compiles : Bytes → Bool) where
  -- `validateNewRule` finds nothing to object to
  unfoldable pub is_valid_new : RuleEntry → List RuleEntry → Bool
  unfolding is_severity
  is_valid_new r existing =
      not (same r.id [])
      && is_severity r.severity
      && compiles r.pattern
      && not (has_key rule_id r.id existing)

  add_to : WriteResult → RuleEntry → Option (List RuleEntry) → RulesFile → RulesFile × ℕ
  unfolding write_rules is_valid_new
  add_to saved r none file = (file, 500)
  add_to saved r (some rs) file =
      if is_valid_new r rs then write_rules 201 saved (rs ++ r ∷ []) file else (file, 400)

  -- `handleRules`; a new rule is always custom
  unfoldable pub handle_rules : WriteResult → Method → Option RuleEntry → RulesFile → RulesFile × ℕ
  unfolding add_to read_rules
  handle_rules saved method_get body file =
      (file, elim (read_rules file) [ none ↦ 500 | some rs ↦ 200 ])
  handle_rules saved method_post none file = (file, 400)
  handle_rules saved method_post (some r) file =
      add_to saved (record r { source = codes "custom" }) (read_rules file) file
  handle_rules saved _ body file = (file, 405)

  replace_found :
      WriteResult → RuleEntry → Option RuleEntry → List RuleEntry → RulesFile → RulesFile × ℕ
  unfolding write_rules is_severity
  replace_found saved r none rs file = (file, 404)
  replace_found saved r (some old) rs file =
      if not (compiles r.pattern) || (not (same r.severity []) && not (is_severity r.severity))
      then (file, 400)
      else write_rules 204 saved
          (update_key rule_id old.id (λ x. record r { id = old.id; source = old.source }) rs) file

  replace_in : WriteResult → Bytes → RuleEntry → Option (List RuleEntry) → RulesFile → RulesFile × ℕ
  unfolding replace_found
  replace_in saved id r none file = (file, 500)
  replace_in saved id r (some rs) file = replace_found saved r (find_key rule_id id rs) rs file

  rule_route : WriteResult → Bytes → Method → Option RuleEntry → RulesFile → RulesFile × ℕ
  unfolding replace_in delete_from read_rules
  rule_route saved id method_put none file = (file, 400)
  rule_route saved id method_put (some r) file = replace_in saved id r (read_rules file) file
  rule_route saved id method_delete body file = delete_from saved id (read_rules file) file
  rule_route saved id _ body file = (file, 405)

  -- `handleRuleByID`
  unfoldable pub handle_rule_by_id :
      WriteResult → Bytes → Method → Option RuleEntry → RulesFile → RulesFile × ℕ
  unfolding rule_route
  handle_rule_by_id saved path method body file =
      let id = trim_prefix path (codes "/api/rules/") in
      if same id [] then (file, 400) else rule_route saved id method body file

-- `handleRulesReset`, with the built-in entries as an argument
unfoldable pub handle_rules_reset :
    WriteResult → List RuleEntry → Method → RulesFile → RulesFile × ℕ
unfolding write_rules
handle_rules_reset saved builtin m file =
    if is_post m then write_rules 204 saved builtin file else (file, 405)
