-- ===== src/Webui/Rules/Kept.antt =====
-- The identifiers in the file under the rules pages.
use ai_scan_interceptor.Base.{
  ℕ, ◌≡◌, ◌∙◌, refl, Bool, true, false, not, ◌&&◌, ◌||◌, Option, none, some, List, [], ◌∷◌, ◌++◌,
  map, arith, Bytes, codes, same, same_iff, find_key, has_key, update_key, Distinct,
  append-Distinct, missing, unreadable, empty, malformed, holds, WriteResult, if-case,
}
use ai_scan_interceptor.Strings.{trim_prefix}
use ai_scan_interceptor.Icap.Rules
use ai_scan_interceptor.Webui.Login.{
  Method, method_get, method_post, method_put, method_delete, method_other,
}
use ai_scan_interceptor.Webui.Rules.{
  RuleEntry, rule_id, decoded, encoded, RulesFile, read_rules, write_rules, is_severity, without,
  delete_from, is_valid_new, add_to, handle_rules, replace_found, replace_in, rule_route,
  handle_rule_by_id,
}

abbrev pub entry_id : Rules.RuleEntry → Bytes
entry_id r = r.id

-- The identifiers in the file are distinct.
abbrev pub IsKeyed : RulesFile → Type 0
IsKeyed (holds rs) = Distinct entry_id rs
IsKeyed _ = Unit

-- coding keeps identifiers
has_key-decoded :
    (k : Bytes) (rs : List Rules.RuleEntry)
    → has_key rule_id k (map decoded rs) ≡ has_key entry_id k rs
unfolding has_key
has_key-decoded k [] = refl
has_key-decoded k (r ∷ rs) = ground (arith, has_key-decoded k rs)

has_key-encoded :
    (k : Bytes) (rs : List RuleEntry) → has_key entry_id k (map encoded rs) ≡ has_key rule_id k rs
unfolding has_key
has_key-encoded k [] = refl
has_key-encoded k (r ∷ rs) = ground (arith, has_key-encoded k rs)

decoded-Distinct :
    (rs : List Rules.RuleEntry) → Distinct entry_id rs → Distinct rule_id (map decoded rs)
decoded-Distinct [] d = tt
decoded-Distinct (r ∷ rs) d = (has_key-decoded r.id rs ∙ d.0, decoded-Distinct rs d.1)

encoded-Distinct : (rs : List RuleEntry) → Distinct rule_id rs → Distinct entry_id (map encoded rs)
encoded-Distinct [] d = tt
encoded-Distinct (r ∷ rs) d = (has_key-encoded r.id rs ∙ d.0, encoded-Distinct rs d.1)

has_key-without :
    (k id : Bytes) (rs : List RuleEntry)
    → has_key rule_id k rs ≡ false
    → has_key rule_id k (without id rs) ≡ false
unfolding has_key without
has_key-without k id [] h = refl
has_key-without k id (r ∷ rs) h = ground (arith, has_key-without k id rs)

without-Distinct :
    (id : Bytes) (rs : List RuleEntry) → Distinct rule_id rs → Distinct rule_id (without id rs)
unfolding without
without-Distinct id [] d = tt
without-Distinct id (r ∷ rs) d =
    ground (arith, without-Distinct id rs d.1, has_key-without r.id id rs)

write-IsKeyed :
    (code : ℕ) (saved : WriteResult) (rs : List RuleEntry) (file : RulesFile)
    → IsKeyed file
    → Distinct rule_id rs
    → IsKeyed (write_rules code saved rs file).0
unfolding write_rules
write-IsKeyed code WriteResult.written rs file h d = encoded-Distinct rs d
write-IsKeyed code WriteResult.not_opened rs file h d = h
write-IsKeyed code WriteResult.truncated rs file h d = tt
write-IsKeyed code WriteResult.torn rs file h d = tt
write-IsKeyed code WriteResult.close_failed rs file h d = encoded-Distinct rs d

-- a rule replaced by one with its identifier
has_key-replaced :
    (j k : Bytes) (r : RuleEntry) (rs : List RuleEntry)
    → r.id ≡ k
    → has_key rule_id j (update_key rule_id k (λ x. r) rs) ≡ has_key rule_id j rs
unfolding has_key update_key
has_key-replaced j k r [] e = refl
has_key-replaced j k r (x ∷ rs) e =
    ground (arith, has_key-replaced j k r rs e, same_iff x.id k, same_iff r.id j, same_iff x.id j)

replaced-Distinct :
    (k : Bytes) (r : RuleEntry) (rs : List RuleEntry)
    → r.id ≡ k
    → Distinct rule_id rs
    → Distinct rule_id (update_key rule_id k (λ x. r) rs)
unfolding update_key
replaced-Distinct k r [] e d = tt
replaced-Distinct k r (x ∷ rs) e d = ground (
  arith,
  replaced-Distinct k r rs e d.1,
  has_key-replaced x.id k r rs e,
  same_iff x.id k,
  same_iff r.id k,
)

-- The rules that were read are distinct.
abbrev IsDistinctRead : Option (List RuleEntry) → Type 0
IsDistinctRead none = Unit
IsDistinctRead (some rs) = Distinct rule_id rs

read-IsDistinctRead : (file : RulesFile) → IsKeyed file → IsDistinctRead (read_rules file)
unfolding read_rules
read-IsDistinctRead missing h = tt
read-IsDistinctRead unreadable h = tt
read-IsDistinctRead empty h = tt
read-IsDistinctRead malformed h = tt
read-IsDistinctRead (holds rs) h = decoded-Distinct rs h

delete_from-IsKeyed :
    (saved : WriteResult) (id : Bytes) (o : Option (List RuleEntry)) (file : RulesFile)
    → IsKeyed file
    → IsDistinctRead o
    → IsKeyed (delete_from saved id o file).0
unfolding delete_from
delete_from-IsKeyed saved id none file h d = h
delete_from-IsKeyed saved id (some rs) file h d =
    if-case (λ x. IsKeyed x.0) (has_key rule_id id rs) (write_rules 204 saved (without id rs) file)
      (file, 404) (λ w. write-IsKeyed 204 saved (without id rs) file h (without-Distinct id rs d))
      (λ w. h)

module _ (compiles : Bytes → Bool) where
  is_valid_new-id :
      (r : RuleEntry) (rs : List RuleEntry)
      → is_valid_new compiles r rs ≡ true
      → has_key rule_id r.id rs ≡ false
  unfolding is_valid_new
  is_valid_new-id r rs h = ground arith

  add_to-IsKeyed :
      (saved : WriteResult) (r : RuleEntry) (o : Option (List RuleEntry)) (file : RulesFile)
      → IsKeyed file
      → IsDistinctRead o
      → IsKeyed (add_to compiles saved r o file).0
  unfolding add_to
  add_to-IsKeyed saved r none file h d = h
  add_to-IsKeyed saved r (some rs) file h d =
      if-case (λ x. IsKeyed x.0) (is_valid_new compiles r rs)
        (write_rules 201 saved (rs ++ r ∷ []) file) (file, 400)
        (λ w.
          write-IsKeyed 201 saved (rs ++ r ∷ []) file h
            (append-Distinct rule_id rs r d (is_valid_new-id r rs w)))
        (λ w. h)

  -- Adding a rule keeps the identifiers in the file distinct, whatever the request.
  pub handle_rules-IsKeyed :
      (saved : WriteResult) (m : Method) (body : Option RuleEntry) (file : RulesFile)
      → IsKeyed file
      → IsKeyed (handle_rules compiles saved m body file).0
  unfolding handle_rules
  handle_rules-IsKeyed saved method_get body file h = h
  handle_rules-IsKeyed saved method_post none file h = h
  handle_rules-IsKeyed saved method_post (some r) file h =
      add_to-IsKeyed saved (record r { source = codes "custom" }) (read_rules file) file h
        (read-IsDistinctRead file h)
  handle_rules-IsKeyed saved method_put body file h = h
  handle_rules-IsKeyed saved method_delete body file h = h
  handle_rules-IsKeyed saved method_other body file h = h

  replace_found-IsKeyed :
      (saved : WriteResult) (r : RuleEntry) (o : Option RuleEntry) (rs : List RuleEntry)
      (file : RulesFile)
      → IsKeyed file
      → Distinct rule_id rs
      → IsKeyed (replace_found compiles saved r o rs file).0
  unfolding replace_found
  replace_found-IsKeyed saved r none rs file h d = h
  replace_found-IsKeyed saved r (some old) rs file h d =
      if-case (λ x. IsKeyed x.0)
        (not (compiles r.pattern) || (not (same r.severity []) && not (is_severity r.severity)))
        (file, 400)
        (write_rules 204 saved
          (update_key rule_id old.id (λ x. record r { id = old.id; source = old.source }) rs) file)
        (λ w. h)
        (λ w.
          write-IsKeyed 204 saved _ file h
            (replaced-Distinct old.id (record r { id = old.id; source = old.source }) rs refl d))

  replace_in-IsKeyed :
      (saved : WriteResult) (id : Bytes) (r : RuleEntry) (o : Option (List RuleEntry))
      (file : RulesFile)
      → IsKeyed file
      → IsDistinctRead o
      → IsKeyed (replace_in compiles saved id r o file).0
  unfolding replace_in
  replace_in-IsKeyed saved id r none file h d = h
  replace_in-IsKeyed saved id r (some rs) file h d =
      replace_found-IsKeyed saved r (find_key rule_id id rs) rs file h d

  route-IsKeyed :
      (saved : WriteResult) (id : Bytes) (m : Method) (body : Option RuleEntry) (file : RulesFile)
      → IsKeyed file
      → IsKeyed (rule_route compiles saved id m body file).0
  unfolding rule_route
  route-IsKeyed saved id method_get body file h = h
  route-IsKeyed saved id method_post body file h = h
  route-IsKeyed saved id method_put none file h = h
  route-IsKeyed saved id method_put (some r) file h =
      replace_in-IsKeyed saved id r (read_rules file) file h (read-IsDistinctRead file h)
  route-IsKeyed saved id method_delete body file h =
      delete_from-IsKeyed saved id (read_rules file) file h (read-IsDistinctRead file h)
  route-IsKeyed saved id method_other body file h = h

  -- Replacing and deleting a rule keep the identifiers in the file distinct, whatever the request:
  -- a replacement cannot take another rule's identifier.
  pub handle_rule_by_id-IsKeyed :
      (saved : WriteResult) (path : Bytes) (m : Method) (body : Option RuleEntry) (file : RulesFile)
      → IsKeyed file
      → IsKeyed (handle_rule_by_id compiles saved path m body file).0
  unfolding handle_rule_by_id
  handle_rule_by_id-IsKeyed saved path m body file h =
      let id = trim_prefix path (codes "/api/rules/") in
      if-case (λ x. IsKeyed x.0) (same id []) (file, 400) (rule_route compiles saved id m body file)
        (λ w. h) (λ w. route-IsKeyed saved id m body file h)
