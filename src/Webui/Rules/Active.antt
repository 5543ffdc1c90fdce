-- ===== src/Webui/Rules/Active.antt =====
-- From a rule added in the dashboard to the rules of the ICAP server.
use ai_scan_interceptor.Base.{
  ◌≡◌, ap, refl, Bool, true, false, Option, none, some, List, [], ◌∷◌, ◌++◌, map, arith,
  if◌then◌else◌, Bytes, codes, holds, WriteResult,
}
use ai_scan_interceptor.Icap.Rules
use ai_scan_interceptor.Icap.Rules.Compile.{active_rule, entries_to_alert_rules-last}
use ai_scan_interceptor.Webui.Login.{method_post}
use ai_scan_interceptor.Webui.Rules.{
  RuleEntry, encoded, RulesFile, read_rules, write_rules, is_valid_new, add_to, handle_rules,
}

-- the entry of the file for a rule of the dashboard
pub entry_of : RuleEntry → Rules.RuleEntry
entry_of r = record {
  id = r.id;
  source = r.source;
  enabled = r.enabled;
  severity = r.severity;
  description = r.description;
  pattern = r.pattern;
  negative_context = r.negative_context;
  mask_body = r.mask_body;
  mask_replacement = [];
}

written-last :
    (rs : List RuleEntry) (r : RuleEntry)
    → map encoded (rs ++ r ∷ []) ≡ map encoded rs ++ entry_of r ∷ []
unfolding entry_of
written-last [] r = refl
written-last (x ∷ rs) r = ap (λ l. encoded x ∷ l) (written-last rs r)

module _ (compiles : Bytes → Bool) where
  is_valid_new-compiles :
      (r : RuleEntry) (rs : List RuleEntry)
      → is_valid_new compiles r rs ≡ true
      → compiles r.pattern ≡ true
  unfolding is_valid_new
  is_valid_new-compiles r rs h = ground arith

  -- The file ends with the rule's entry, and its active rule is the last one of the ICAP server.
  unfoldable pub IsActive : RuleEntry → RulesFile → Type 0
  IsActive r file =
      (old : List Rules.RuleEntry) × (file ≡ holds (old ++ entry_of r ∷ []))
      × (Rules.entries_to_alert_rules compiles (old ++ entry_of r ∷ [])
          ≡ Rules.entries_to_alert_rules compiles old ++ active_rule compiles (entry_of r) ∷ [])

  write-IsActive :
      (saved : WriteResult) (r : RuleEntry) (rs : List RuleEntry) (file : RulesFile)
      → r.enabled ≡ true
      → is_valid_new compiles r rs ≡ true
      → (write_rules 201 saved (rs ++ r ∷ []) file).1 ≡ 201
      → IsActive r (write_rules 201 saved (rs ++ r ∷ []) file).0
  unfolding write_rules IsActive entry_of
  write-IsActive WriteResult.written r rs file e v w = (
    map encoded rs,
    ap (λ l. holds l) (written-last rs r),
    entries_to_alert_rules-last compiles (map encoded rs) (entry_of r) e
        (is_valid_new-compiles r rs v),
  )
  write-IsActive WriteResult.not_opened r rs file e v w = ground arith
  write-IsActive WriteResult.truncated r rs file e v w = ground arith
  write-IsActive WriteResult.torn r rs file e v w = ground arith
  write-IsActive WriteResult.close_failed r rs file e v w = ground arith

  added-IsActive :
      (saved : WriteResult) (r : RuleEntry) (rs : List RuleEntry) (file : RulesFile)
      → r.enabled ≡ true
      → (b : Bool) → is_valid_new compiles r rs ≡ b
      → (if b then write_rules 201 saved (rs ++ r ∷ []) file else (file, 400)).1 ≡ 201
      → IsActive r (if b then write_rules 201 saved (rs ++ r ∷ []) file else (file, 400)).0
  added-IsActive saved r rs file e true v w = write-IsActive saved r rs file e v w
  added-IsActive saved r rs file e false v w = ground arith

  add_to-IsActive :
      (saved : WriteResult) (r : RuleEntry) (o : Option (List RuleEntry)) (file : RulesFile)
      → r.enabled ≡ true
      → (add_to compiles saved r o file).1 ≡ 201
      → IsActive r (add_to compiles saved r o file).0
  unfolding add_to
  add_to-IsActive saved r none file e w = ground arith
  add_to-IsActive saved r (some rs) file e w =
      added-IsActive saved r rs file e (is_valid_new compiles r rs) refl w

  -- A rule that is added enabled and answered 201 is at the end of the file, custom, with all the
  -- fields that were sent and no replacement text. Once the ICAP server reads the file, its last
  -- active rule is that one: the same pattern, severity, description and masking, and those of its
  -- negative contexts that compile.
  pub handle_rules-IsActive :
      (saved : WriteResult) (r : RuleEntry) (file : RulesFile)
      → r.enabled ≡ true
      → (handle_rules compiles saved method_post (some r) file).1 ≡ 201
      → IsActive
          (record r { source = codes "custom" })
          (handle_rules compiles saved method_post (some r) file).0
  unfolding handle_rules
  handle_rules-IsActive saved r file e w =
      add_to-IsActive saved (record r { source = codes "custom" }) (read_rules file) file e w
