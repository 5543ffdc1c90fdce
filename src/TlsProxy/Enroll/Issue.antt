-- ===== src/TlsProxy/Enroll/Issue.antt =====
-- What an enrollment leaves behind.
use mathlib.Core.Option
use ai_scan_interceptor.Base.{
  ℕ, ◌≤◌, ◌≡◌, ◌≢◌, ◌⊎◌, inl, inr, refl, [], codes, same, same_iff, same→eq, Bool, true, false,
  Option, none, some, List, arith, Bool-cases, Bytes, find_key, File, ap, sym,
}
use ai_scan_interceptor.Strings.{trim_space}
use ai_scan_interceptor.TlsProxy.DeviceStore.{
  LockOutcome, acquired, timed_out, lock_error, AppendError, flock_timeout,
}
use ai_scan_interceptor.TlsProxy.Enroll.{
  EnrollToken, Result, ok, err, token_of, mark_consumed, read_token_store, consume_found,
  consume_locked, consume, Csr, pick_common_name, EnrollRequest, Env, Files, Certificate, certify,
  issued, persist_device, answer, issue, issue_signed, after_consume, enroll_csr, enroll_body,
  handle_enroll,
}

-- What an accepted token was.
unfoldable pub IsFresh : ℕ → EnrollToken → Type 0
IsFresh now t = (t.consumed_at ≡ 0) × ((t.expires_at ≡ 0) ⊎ (now ≤ t.expires_at))

found-IsFresh :
    (now : ℕ) (saved : Bool) (k : Bytes) (ts : List EnrollToken) (o : Option EnrollToken)
    (file : File (List EnrollToken)) (t : EnrollToken)
    → (consume_found now saved k ts o file).1 ≡ ok t
    → (u : EnrollToken) × (o ≡ some u) × (t ≡ mark_consumed now u) × IsFresh now u
unfolding consume_found IsFresh
found-IsFresh now saved k ts none file t e = cc
found-IsFresh now true k ts (some u) file t e =
    (u, refl, ground arith, (ground arith, ground arith))
found-IsFresh now false k ts (some u) file t e =
    (u, refl, ground arith, (ground arith, ground arith))

locked-IsFresh :
    (now : ℕ) (saved : Bool) (k : Bytes) (o : Option (List EnrollToken))
    (file : File (List EnrollToken)) (t : EnrollToken)
    → (consume_locked now saved k o file).1 ≡ ok t
    → (u : EnrollToken) × (Option.map (find_key token_of k) o ≡ some (some u))
      × (t ≡ mark_consumed now u)
      × IsFresh now u
unfolding consume_locked
locked-IsFresh now saved k none file t e = cc
locked-IsFresh now saved k (some ts) file t e =
    let (u, w, m, fresh) = found-IsFresh now saved k ts (find_key token_of k ts) file t e in
    (u, ap some w, m, fresh)

accepted-acquired :
    (lock : LockOutcome) (now : ℕ) (saved : Bool) (k : Bytes) (file : File (List EnrollToken))
    (t : EnrollToken)
    → (consume lock now saved k file).1 ≡ ok t
    → lock ≡ acquired
unfolding consume
accepted-acquired acquired now saved k file t e = refl
accepted-acquired timed_out now saved k file t e = cc
accepted-acquired lock_error now saved k file t e = cc

-- Only a lock that is held, on a file that holds the token unused and unexpired, accepts it.
pub consume-IsFresh :
    (lock : LockOutcome) (now : ℕ) (saved : Bool) (k : Bytes) (file : File (List EnrollToken))
    (t : EnrollToken)
    → (consume lock now saved k file).1 ≡ ok t
    → (u : EnrollToken) × (Option.map (find_key token_of k) (read_token_store file) ≡ some (some u))
      × (t ≡ mark_consumed now u)
      × IsFresh now u
unfolding consume
consume-IsFresh acquired now saved k file t e =
    locked-IsFresh now saved k (read_token_store file) file t e
consume-IsFresh timed_out now saved k file t e = cc
consume-IsFresh lock_error now saved k file t e = cc

-- The certificate bears the token's organisation, and the token's user; only for a token without a
-- user it bears the trimmed name that the request claims, or else a placeholder.
pub Names : EnrollToken → Csr → Certificate → Type 0
Names t csr c =
    (c.organization ≡ t.org_id)
    × (((t.user ≢ []) × (c.common_name ≡ t.user))
        ⊎ ((t.user ≡ [])
            × (trim_space csr.common_name ≢ [])
            × (c.common_name ≡ trim_space csr.common_name))
        ⊎ ((t.user ≡ [])
            × (trim_space csr.common_name ≡ [])
            × (c.common_name ≡ codes "unknown@unknown")))

pick-Names :
    (t : EnrollToken) (csr : Csr) (c : Certificate)
    → c.organization ≡ t.org_id
    → c.common_name ≡ pick_common_name t csr
    → Names t csr c
unfolding Names pick_common_name
pick-Names t csr c o n = elim (Bool-cases (same t.user [])) [
  | inr user ↦ (o, inl (ground (arith, same_iff t.user []), ground arith))
  | inl no_user ↦ elim (Bool-cases (same (trim_space csr.common_name) [])) [
    | inr cn ↦ (
      o,
      inr (
          inl (
            same→eq t.user [] no_user,
            ground (arith, same_iff (trim_space csr.common_name) []),
            ground arith,
          )),
    )
    | inl no_cn ↦ (
      o,
      inr (
          inr (
            same→eq t.user [] no_user,
            same→eq (trim_space csr.common_name) [] no_cn,
            ground arith,
          )),
    )
  ]
]

Names-mark_consumed :
    (now : ℕ) (t u : EnrollToken) (csr : Csr) (c : Certificate)
    → t ≡ mark_consumed now u
    → Names t csr c
    → Names u csr c
unfolding Names
Names-mark_consumed now t u csr c m n =
    let o : t.org_id ≡ u.org_id = ap (λ x. x.org_id) m in
    let w : t.user ≡ u.user = ap (λ x. x.user) m in rw (sym o) (rw (sym w) n)

module _ (lower_runes : Bytes → Bytes) where
  -- what a certificate tells of the request and of the token file
  unfoldable pub IsGranted : Env → Files → Certificate → Type 0
  IsGranted e f c =
      (r : EnrollRequest) × (csr : Csr) × (u : EnrollToken) × (e.is_post ≡ true)
      × (e.body ≡ some r)
      × (r.csr ≡ some csr)
      × (csr.signature_valid ≡ true)
      × (e.tokens_lock ≡ acquired)
      × (Option.map (find_key token_of r.enrollment_token) (read_token_store f.tokens)
          ≡ some (some u))
      × IsFresh e.now u
      × Names u csr c

  answer-issued :
      (c d : Certificate) (o : Option AppendError) → answer lower_runes c o ≡ issued d → c ≡ d
  unfolding answer
  answer-issued c d none w = cc
  answer-issued c d (some flock_timeout) w = cc
  answer-issued c d (some AppendError.flock_failed) w = cc
  answer-issued c d (some AppendError.read_error) w = cc
  answer-issued c d (some AppendError.id_exists) w = cc
  answer-issued c d (some AppendError.persist_error) w = cc

  issue-issued :
      (e : Env) (csr : Csr) (t : EnrollToken) (o : Option ℕ) (f : Files) (c : Certificate)
      → (issue lower_runes e csr t o f).1 ≡ issued c
      → Names t csr c
  unfolding issue issue_signed Names
  issue-issued e csr t none f c w = cc
  issue-issued e csr t (some n) f c w =
      let same_c =
        answer-issued (certify lower_runes e csr t n) c
          (persist_device lower_runes e (certify lower_runes e csr t n) f.devices).1 w in
      pick-Names t csr c (ap (λ d. d.organization) (sym same_c))
        (ap (λ d. d.common_name) (sym same_c))

  after_consume-issued :
      (e : Env) (csr : Csr) (out : Result EnrollToken) (f : Files) (c : Certificate)
      → (after_consume lower_runes e csr out f).1 ≡ issued c
      → (t : EnrollToken) × (out ≡ ok t) × Names t csr c
  unfolding after_consume
  after_consume-issued e csr (ok t) f c w = (t, refl, issue-issued e csr t e.issued_serial f c w)
  after_consume-issued e csr (err x) f c w = cc

  csr-IsGranted :
      (e : Env) (r : EnrollRequest) (o : Option Csr) (f : Files) (c : Certificate)
      → e.is_post ≡ true
      → e.body ≡ some r
      → r.csr ≡ o
      → (enroll_csr lower_runes e r o f).1 ≡ issued c
      → IsGranted e f c
  unfolding enroll_csr IsGranted
  csr-IsGranted e r none f c p b q w = cc
  csr-IsGranted e r (some csr) f c p b q w =
      let v : csr.signature_valid ≡ true = ground arith in
      let (t, is_t, n) =
        after_consume-issued e csr
          (consume e.tokens_lock e.now e.tokens_saved r.enrollment_token f.tokens).1
          (record f {
            tokens = (consume e.tokens_lock e.now e.tokens_saved r.enrollment_token f.tokens).0;
          })
          c (ground arith) in
      let (u, has_u, is_u, fresh) =
        consume-IsFresh e.tokens_lock e.now e.tokens_saved r.enrollment_token f.tokens t is_t in
      (
        r,
        csr,
        u,
        p,
        b,
        q,
        v,
        accepted-acquired e.tokens_lock e.now e.tokens_saved r.enrollment_token f.tokens t is_t,
        has_u,
        fresh,
        Names-mark_consumed e.now t u csr c is_u n,
      )

  body-IsGranted :
      (e : Env) (o : Option EnrollRequest) (f : Files) (c : Certificate)
      → e.is_post ≡ true
      → e.body ≡ o
      → (enroll_body lower_runes e o f).1 ≡ issued c
      → IsGranted e f c
  unfolding enroll_body
  body-IsGranted e none f c p b w = cc
  body-IsGranted e (some r) f c p b w = csr-IsGranted e r r.csr f c p b refl (ground arith)

  -- A certificate is issued only to a POST with a well-signed request, for a token that the file
  -- holds unused and unexpired; its organisation is the token's, and its name is the token's user. Only
  -- for a token without a user it is the trimmed name that the request claims, or else a placeholder.
  pub handle_enroll-IsGranted :
      (e : Env) (f : Files) (c : Certificate)
      → (handle_enroll lower_runes e f).1 ≡ issued c
      → IsGranted e f c
  unfolding handle_enroll
  handle_enroll-IsGranted e f c w = elim (Bool-cases e.is_post) [
    | inl p ↦ body-IsGranted e e.body f c p refl (ground arith)
    | inr p ↦ ground arith
  ]
