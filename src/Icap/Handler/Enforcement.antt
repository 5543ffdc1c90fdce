-- ===== src/Icap/Handler/Enforcement.antt =====
-- What the policy makes of a request with sensitive content.
use ai_scan_interceptor.Base.{
  ◌≡◌, ◌⊎◌, inl, inr, refl, sym, Bool, true, false, not, Option, some, [], ◌∷◌, if◌then◌else◌,
  Bytes, codes, same, Bool-cases,
}
use ai_scan_interceptor.Icap.Policy.{Config, get_mode, mode_block, mode_mask, mode_monitor}
use ai_scan_interceptor.Icap.Detect.{Result}
use ai_scan_interceptor.Icap.Handler.{
  Answer, no_modification, blocked, masked, LogEntry, HttpRequest, mode_of, effective_mode,
  action_of, entry_of, answer_triggered, enforce, serve_result, serve_reqmod,
}

abbrev pub is_blocked : Answer → Bool
is_blocked no_modification = false
is_blocked blocked = true
is_blocked (masked b) = false

abbrev pub is_masked : Answer → Bool
is_masked no_modification = false
is_masked blocked = false
is_masked (masked b) = true

-- the action's text tells the answer, whatever the tests of the mode give
tests-answer :
    (b m n : Bool) (body : Bytes)
    → let action =
        if b
        then codes "blocked"
        else if m
        then codes "masked"
        else if n
        then codes "monitored"
        else codes "warned" in
      let answer = if b then blocked else if m then masked body else no_modification in
      (same action (codes "blocked") ≡ is_blocked answer)
      × (same action (codes "masked") ≡ is_masked answer)
      × (same action (codes "passed") ≡ false)
unfolding same
tests-answer true m n body = (refl, refl, refl)
tests-answer false true n body = (refl, refl, refl)
tests-answer false false true body = (refl, refl, refl)
tests-answer false false false body = (refl, refl, refl)

action-answer :
    (triggered : Bool) (mode body : Bytes)
    → let answer = if triggered then answer_triggered mode body else no_modification in
      (same (action_of triggered mode) (codes "blocked") ≡ is_blocked answer)
      × (same (action_of triggered mode) (codes "masked") ≡ is_masked answer)
      × (same (action_of triggered mode) (codes "passed") ≡ not triggered)
unfolding action_of answer_triggered same
action-answer false mode body = (refl, refl, refl)
action-answer true mode body =
    tests-answer (same mode mode_block) (same mode mode_mask) (same mode mode_monitor) body

-- the answer under a mode that blocks or masks
mode-enforced :
    (c : Config) (r : Result) (body : Bytes)
    → r.triggered ≡ true
    → (get_mode r.service c ≡ mode_block) ⊎ (get_mode r.service c ≡ mode_mask)
    → (answer_triggered (effective_mode (some c) r) body ≡ blocked)
      ⊎ ((answer_triggered (effective_mode (some c) r) body ≡ masked body)
          × (r.is_file_upload ≡ false))
unfolding answer_triggered effective_mode mode_of same
mode-enforced c r body t m = elim (Bool-cases r.is_file_upload) [
  | inl up ↦ inl (elim m [ inl w ↦ rw t (rw w (rw up refl)) | inr w ↦ rw t (rw w (rw up refl)) ])
  | inr no_file ↦ elim m [
    | inl w ↦ inl (rw t (rw w (rw no_file refl)))
    | inr w ↦ inr (rw t (rw w (rw no_file refl)), no_file)
  ]
]

-- the same, with the test of `Triggered` before it
triggered-enforced :
    (c : Config) (r : Result) (body : Bytes)
    → r.triggered ≡ true
    → (b : Bool) → true ≡ b
    → (get_mode r.service c ≡ mode_block) ⊎ (get_mode r.service c ≡ mode_mask)
    → let answer =
        if b then answer_triggered (effective_mode (some c) r) body else no_modification in
      (answer ≡ blocked) ⊎ ((answer ≡ masked body) × (r.is_file_upload ≡ false))
triggered-enforced c r body t true e m = mode-enforced c r body t m
triggered-enforced c r body t false e m = cc

-- the answer under the mode "block"
mode-blocked :
    (c : Config) (r : Result) (body : Bytes)
    → r.triggered ≡ true
    → get_mode r.service c ≡ mode_block
    → answer_triggered (effective_mode (some c) r) body ≡ blocked
unfolding answer_triggered effective_mode mode_of same
mode-blocked c r body t w = elim (Bool-cases r.is_file_upload) [
  | inl up ↦ rw t (rw w (rw up refl))
  | inr no_file ↦ rw t (rw w (rw no_file refl))
]

triggered-blocked :
    (c : Config) (r : Result) (body : Bytes)
    → r.triggered ≡ true
    → (b : Bool) → true ≡ b
    → get_mode r.service c ≡ mode_block
    → (if b then answer_triggered (effective_mode (some c) r) body else no_modification) ≡ blocked
triggered-blocked c r body t true e w = mode-blocked c r body t w
triggered-blocked c r body t false e w = cc

module _ (detect : Bytes → Bytes → Bytes → Bytes → Option Result)
    (mask_sensitive_for_service : Bytes → Bytes → Bytes → Bytes) where
  -- a request that `Detect` reports goes to the policy
  detected :
      (policy : Option Config) (has_siem : Bool) (q : HttpRequest) (r : Result)
      → same q.body [] ≡ false
      → detect q.host q.path q.method q.body ≡ some r
      → serve_reqmod detect mask_sensitive_for_service policy has_siem (some q)
        ≡ enforce detect mask_sensitive_for_service has_siem q (effective_mode policy r) r
  unfolding serve_reqmod serve_result
  detected policy has_siem q r n e = rw n (rw e refl)

  -- A request that has a body and that `Detect` reports is logged once. The entry is also the
  -- one exported, if there is an exporter, and its action says what was answered: "blocked" for
  -- a refusal, "masked" for a changed body, "passed" exactly if nothing was triggered.
  pub serve_reqmod-entry :
      (policy : Option Config) (has_siem : Bool) (q : HttpRequest) (r : Result)
      → same q.body [] ≡ false
      → detect q.host q.path q.method q.body ≡ some r
      → let out = serve_reqmod detect mask_sensitive_for_service policy has_siem (some q) in
        (e : LogEntry) × (out.logged ≡ e ∷ [])
        × (out.exported ≡ (if has_siem then e ∷ [] else []))
        × (same e.action (codes "blocked") ≡ is_blocked out.answer)
        × (same e.action (codes "masked") ≡ is_masked out.answer)
        × (same e.action (codes "passed") ≡ not r.triggered)
  unfolding enforce
  serve_reqmod-entry policy has_siem q r n e =
      let mode = effective_mode policy r in
      let told = action-answer r.triggered mode (mask_sensitive_for_service q.body q.host q.path) in
      rw (detected policy has_siem q r n e) (entry_of q r mode, refl, refl, told.0, told.1, told.2)

  -- Where the service's mode is "block" or "mask", a request that has a body and that `Detect`
  -- reports as triggered is refused, or answered with the body that masking returns; an upload is
  -- refused.
  pub serve_reqmod-enforced :
      (c : Config) (has_siem : Bool) (q : HttpRequest) (r : Result)
      → same q.body [] ≡ false
      → detect q.host q.path q.method q.body ≡ some r
      → r.triggered ≡ true
      → (get_mode r.service c ≡ mode_block) ⊎ (get_mode r.service c ≡ mode_mask)
      → let out = serve_reqmod detect mask_sensitive_for_service (some c) has_siem (some q) in
        (out.answer ≡ blocked)
        ⊎ ((out.answer ≡ masked (mask_sensitive_for_service q.body q.host q.path))
            × (r.is_file_upload ≡ false))
  unfolding enforce
  serve_reqmod-enforced c has_siem q r n e t m = rw (detected (some c) has_siem q r n e) (
      triggered-enforced c r (mask_sensitive_for_service q.body q.host q.path) t r.triggered (sym t)
        m)

  -- Where the mode is "block", such a request is refused.
  pub serve_reqmod-blocked :
      (c : Config) (has_siem : Bool) (q : HttpRequest) (r : Result)
      → same q.body [] ≡ false
      → detect q.host q.path q.method q.body ≡ some r
      → r.triggered ≡ true
      → get_mode r.service c ≡ mode_block
      → (serve_reqmod detect mask_sensitive_for_service (some c) has_siem (some q)).answer ≡ blocked
  unfolding enforce
  serve_reqmod-blocked c has_siem q r n e t w = rw (detected (some c) has_siem q r n e) (
      triggered-blocked c r (mask_sensitive_for_service q.body q.host q.path) t r.triggered (sym t)
        w)
