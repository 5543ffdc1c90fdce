-- ===== src/Webui/Rules/Replacement.antt =====
-- What the dashboard's record of a rule loses.
use ai_scan_interceptor.Base.{
  ℕ, ◌≡◌, ◌≢◌, refl, Bool, true, false, not, ◌&&◌, ◌||◌, Option, none, some, List, [], ◌∷◌, map,
  arith, if◌then◌else◌, Bytes, codes, same, find_key, has_key, update_key, holds, WriteResult, all,
}
use ai_scan_interceptor.Strings.{trim_prefix}
use ai_scan_interceptor.Icap.Rules
use ai_scan_interceptor.Webui.Login.{
  Method, method_get, method_post, method_put, method_delete, method_other,
}
use ai_scan_interceptor.Webui.Rules.{
  RuleEntry, rule_id, encoded, RulesFile, read_rules, write_rules, is_severity, without,
  delete_from, replace_found, replace_in, rule_route, handle_rule_by_id,
}

-- The file holds rules, and none has a replacement text.
unfoldable pub HasNoReplacement : RulesFile → Type 0
HasNoReplacement file =
    (rs : List Rules.RuleEntry) × (file ≡ holds rs)
    × (all (λ r. same r.mask_replacement []) rs ≡ true)

-- nothing that the dashboard writes has a replacement
encoded-all : (rs : List RuleEntry) → all (λ r. same r.mask_replacement []) (map encoded rs) ≡ true
unfolding same
encoded-all [] = refl
encoded-all (r ∷ rs) = encoded-all rs

write-HasNoReplacement :
    (saved : WriteResult) (rs : List RuleEntry) (file : RulesFile)
    → (write_rules 204 saved rs file).1 ≡ 204
    → HasNoReplacement (write_rules 204 saved rs file).0
unfolding write_rules HasNoReplacement
write-HasNoReplacement WriteResult.written rs file w = (map encoded rs, refl, encoded-all rs)
write-HasNoReplacement WriteResult.not_opened rs file w = ground arith
write-HasNoReplacement WriteResult.truncated rs file w = ground arith
write-HasNoReplacement WriteResult.torn rs file w = ground arith
write-HasNoReplacement WriteResult.close_failed rs file w = ground arith

-- the same behind a test that answers otherwise
tested-HasNoReplacement :
    (b : Bool) (saved : WriteResult) (code : ℕ) (rs : List RuleEntry) (file : RulesFile)
    → code ≢ 204
    → (if b then write_rules 204 saved rs file else (file, code)).1 ≡ 204
    → HasNoReplacement (if b then write_rules 204 saved rs file else (file, code)).0
tested-HasNoReplacement true saved code rs file n w = write-HasNoReplacement saved rs file w
tested-HasNoReplacement false saved code rs file n w = ground arith

refused-HasNoReplacement :
    (b : Bool) (saved : WriteResult) (rs : List RuleEntry) (file : RulesFile)
    → (if b then (file, 400) else write_rules 204 saved rs file).1 ≡ 204
    → HasNoReplacement (if b then (file, 400) else write_rules 204 saved rs file).0
refused-HasNoReplacement true saved rs file w = ground arith
refused-HasNoReplacement false saved rs file w = write-HasNoReplacement saved rs file w

delete_from-HasNoReplacement :
    (saved : WriteResult) (id : Bytes) (o : Option (List RuleEntry)) (file : RulesFile)
    → (delete_from saved id o file).1 ≡ 204
    → HasNoReplacement (delete_from saved id o file).0
unfolding delete_from
delete_from-HasNoReplacement saved id none file w = ground arith
delete_from-HasNoReplacement saved id (some rs) file w =
    tested-HasNoReplacement (has_key rule_id id rs) saved 404 (without id rs) file
      (λ e. omega arith) w

module _ (compiles : Bytes → Bool) where
  replace_found-HasNoReplacement :
      (saved : WriteResult) (r : RuleEntry) (o : Option RuleEntry) (rs : List RuleEntry)
      (file : RulesFile)
      → (replace_found compiles saved r o rs file).1 ≡ 204
      → HasNoReplacement (replace_found compiles saved r o rs file).0
  unfolding replace_found
  replace_found-HasNoReplacement saved r none rs file w = ground arith
  replace_found-HasNoReplacement saved r (some old) rs file w =
      refused-HasNoReplacement
        (not (compiles r.pattern) || (not (same r.severity []) && not (is_severity r.severity)))
        saved (update_key rule_id old.id (λ x. record r { id = old.id; source = old.source }) rs)
        file w

  replace_in-HasNoReplacement :
      (saved : WriteResult) (id : Bytes) (r : RuleEntry) (o : Option (List RuleEntry))
      (file : RulesFile)
      → (replace_in compiles saved id r o file).1 ≡ 204
      → HasNoReplacement (replace_in compiles saved id r o file).0
  unfolding replace_in
  replace_in-HasNoReplacement saved id r none file w = ground arith
  replace_in-HasNoReplacement saved id r (some rs) file w =
      replace_found-HasNoReplacement saved r (find_key rule_id id rs) rs file w

  route-HasNoReplacement :
      (saved : WriteResult) (id : Bytes) (m : Method) (body : Option RuleEntry) (file : RulesFile)
      → (rule_route compiles saved id m body file).1 ≡ 204
      → HasNoReplacement (rule_route compiles saved id m body file).0
  unfolding rule_route
  route-HasNoReplacement saved id method_get body file w = ground arith
  route-HasNoReplacement saved id method_post body file w = ground arith
  route-HasNoReplacement saved id method_put none file w = ground arith
  route-HasNoReplacement saved id method_put (some r) file w =
      replace_in-HasNoReplacement saved id r (read_rules file) file w
  route-HasNoReplacement saved id method_delete body file w =
      delete_from-HasNoReplacement saved id (read_rules file) file w
  route-HasNoReplacement saved id method_other body file w = ground arith

  -- Once one rule is replaced or deleted with answer 204, no rule of the file has a replacement
  -- text any more, whatever the file held.
  pub handle_rule_by_id-HasNoReplacement :
      (saved : WriteResult) (path : Bytes) (m : Method) (body : Option RuleEntry) (file : RulesFile)
      → (handle_rule_by_id compiles saved path m body file).1 ≡ 204
      → HasNoReplacement (handle_rule_by_id compiles saved path m body file).0
  unfolding handle_rule_by_id
  handle_rule_by_id-HasNoReplacement saved path m body file w =
      let id = trim_prefix path (codes "/api/rules/") in
      ground (arith, route-HasNoReplacement saved id m body file)
