-- ===== src/TlsProxy/Enroll/Retry.antt =====
-- The retry that a busy device registry asks for.
use mathlib.Core.Option
use ai_scan_interceptor.Base.{
  ℕ, ◌<◌, ◌≡◌, ◌≢◌, inl, inr, refl, Bool, true, false, Option, none, some, List, [], ◌∷◌, All,
  arith, Bytes, find_key, File, ap, sym, ◌∙◌, Bool-cases,
}
use ai_scan_interceptor.TlsProxy.DeviceStore.{LockOutcome, acquired, timed_out, lock_error}
use ai_scan_interceptor.TlsProxy.Enroll.{
  EnrollToken, EnrollError, Result, ok, err, lock_timeout, token_of, read_token_store,
  consume_found, consume_locked, consume, Csr, EnrollRequest, Env, Files, Certificate, status,
  issued, issue, issue_signed, refusal_code, already_consumed, after_consume, enroll_csr,
  enroll_body, handle_enroll,
}
use ai_scan_interceptor.TlsProxy.Enroll.Once.{
  spent_in, spent_token, is_spent, is_ok, accepted-spent, spent-consume,
}
use ai_scan_interceptor.TlsProxy.Enroll.Issue.{handle_enroll-IsGranted, IsFresh, IsGranted}

-- a lock that is held does not time out
found-timeout :
    (now : ℕ) (saved : Bool) (k : Bytes) (ts : List EnrollToken) (o : Option EnrollToken)
    (file : File (List EnrollToken))
    → (consume_found now saved k ts o file).1 ≢ err lock_timeout
unfolding consume_found
found-timeout now saved k ts none file w = cc
found-timeout now true k ts (some t) file w = ground arith
found-timeout now false k ts (some t) file w = ground arith

held-timeout :
    (now : ℕ) (saved : Bool) (k : Bytes) (o : Option (List EnrollToken))
    (file : File (List EnrollToken))
    → (consume_locked now saved k o file).1 ≢ err lock_timeout
unfolding consume_locked
held-timeout now saved k none file w = cc
held-timeout now saved k (some ts) file w =
    found-timeout now saved k ts (find_key token_of k ts) file w

consume-timeout :
    (lock : LockOutcome) (now : ℕ) (saved : Bool) (k : Bytes) (file : File (List EnrollToken))
    → lock ≡ acquired
    → (consume lock now saved k file).1 ≢ err lock_timeout
unfolding consume
consume-timeout acquired now saved k file h = held-timeout now saved k (read_token_store file) file
consume-timeout timed_out now saved k file h = cc
consume-timeout lock_error now saved k file h = cc

ok-status : (x : EnrollError) → x ≢ lock_timeout → refusal_code x ≢ 503
ok-status lock_timeout h = λ e. h refl
ok-status EnrollError.lock_failed h = omega arith
ok-status EnrollError.read_failed h = omega arith
ok-status already_consumed h = omega arith
ok-status EnrollError.expired h = omega arith
ok-status EnrollError.not_found h = omega arith
ok-status EnrollError.persist_failed h = omega arith

unspent_lem :
    (k : Bytes) (u : EnrollToken) (now : ℕ) (o : Option (List EnrollToken))
    → Option.map (find_key token_of k) o ≡ some (some u)
    → IsFresh now u
    → spent_in k o ≡ false
unfolding spent_in spent_token IsFresh
unspent_lem k u now none e fresh = refl
unspent_lem k u now (some ts) e fresh =
    let w : find_key token_of k ts ≡ some u = ground arith in ground arith

unspent :
    (k : Bytes) (u : EnrollToken) (now : ℕ) (file : File (List EnrollToken))
    → Option.map (find_key token_of k) (read_token_store file) ≡ some (some u)
    → IsFresh now u
    → is_spent k file ≡ false
unfolding is_spent
unspent k u now file e fresh = unspent_lem k u now (read_token_store file) e fresh

module _ (lower_runes : Bytes → Bytes) where
  busy-ok :
      (e : Env) (csr : Csr) (out : Result EnrollToken) (f : Files)
      → out ≢ err lock_timeout
      → (after_consume lower_runes e csr out f).1 ≡ status 503
      → is_ok out ≡ true
  unfolding after_consume
  busy-ok e csr (ok t) f h w = refl
  busy-ok e csr (err x) f h w = ground (arith, ok-status x)

  issue-tokens :
      (e : Env) (csr : Csr) (t : EnrollToken) (o : Option ℕ) (f : Files)
      → (issue lower_runes e csr t o f).0.tokens ≡ f.tokens
  unfolding issue issue_signed
  issue-tokens e csr t none f = refl
  issue-tokens e csr t (some n) f = refl

  after_consume-tokens :
      (e : Env) (csr : Csr) (out : Result EnrollToken) (f : Files)
      → (after_consume lower_runes e csr out f).0.tokens ≡ f.tokens
  unfolding after_consume
  after_consume-tokens e csr (ok t) f = issue-tokens e csr t e.issued_serial f
  after_consume-tokens e csr (err x) f = refl

  csr-spent :
      (e : Env) (r : EnrollRequest) (o : Option Csr) (f : Files)
      → 0 < e.now
      → e.tokens_lock ≡ acquired
      → (enroll_csr lower_runes e r o f).1 ≡ status 503
      → is_spent r.enrollment_token (enroll_csr lower_runes e r o f).0.tokens ≡ true
  unfolding enroll_csr
  csr-spent e r none f h l w = ground arith
  csr-spent e r (some csr) f h l w = ground (
    arith,
    accepted-spent e.tokens_lock e.now e.tokens_saved r.enrollment_token f.tokens h,
    consume-timeout e.tokens_lock e.now e.tokens_saved r.enrollment_token f.tokens l,
    busy-ok e csr (consume e.tokens_lock e.now e.tokens_saved r.enrollment_token f.tokens).1
        (record f {
          tokens = (consume e.tokens_lock e.now e.tokens_saved r.enrollment_token f.tokens).0;
        }),
    after_consume-tokens e csr
        (consume e.tokens_lock e.now e.tokens_saved r.enrollment_token f.tokens).1
        (record f {
          tokens = (consume e.tokens_lock e.now e.tokens_saved r.enrollment_token f.tokens).0;
        }),
  )

  body-spent :
      (e : Env) (o : Option EnrollRequest) (r : EnrollRequest) (f : Files)
      → 0 < e.now
      → e.tokens_lock ≡ acquired
      → o ≡ some r
      → (enroll_body lower_runes e o f).1 ≡ status 503
      → is_spent r.enrollment_token (enroll_body lower_runes e o f).0.tokens ≡ true
  unfolding enroll_body
  body-spent e none r f h l q w = cc
  body-spent e (some r') r f h l q w = ground (arith, csr-spent e r r.csr f h l)

  handle_enroll-spent :
      (e : Env) (r : EnrollRequest) (f : Files)
      → 0 < e.now
      → e.tokens_lock ≡ acquired
      → e.body ≡ some r
      → (handle_enroll lower_runes e f).1 ≡ status 503
      → is_spent r.enrollment_token (handle_enroll lower_runes e f).0.tokens ≡ true
  unfolding handle_enroll
  handle_enroll-spent e r f h l q w = elim (Bool-cases e.is_post) [
    | inl p ↦ ground (arith, body-spent e e.body r f h l q)
    | inr p ↦ ground arith
  ]

  granted-unspent :
      (e : Env) (r : EnrollRequest) (f : Files) (c : Certificate)
      → e.body ≡ some r
      → IsGranted lower_runes e f c
      → is_spent r.enrollment_token f.tokens ≡ false
  unfolding IsGranted
  granted-unspent e r f c b (r1, csr, u, p, b1, q, v, l, has_u, fresh, n) =
      let same_r : r1 ≡ r = ground arith in
      unspent r.enrollment_token u e.now f.tokens
        (ap (λ x. Option.map (find_key token_of x.enrollment_token) (read_token_store f.tokens))
            (sym same_r)
          ∙ has_u)
        fresh

  -- a spent token stays spent, whatever request comes
  csr-keeps :
      (e : Env) (r : EnrollRequest) (o : Option Csr) (k : Bytes) (f : Files)
      → 0 < e.now
      → is_spent k f.tokens ≡ true
      → is_spent k (enroll_csr lower_runes e r o f).0.tokens ≡ true
  unfolding enroll_csr
  csr-keeps e r none k f h w = w
  csr-keeps e r (some csr) k f h w =
      let out = consume e.tokens_lock e.now e.tokens_saved r.enrollment_token f.tokens in
      ground (
        arith,
        spent-consume e.tokens_lock e.now e.tokens_saved r.enrollment_token k f.tokens h w,
        after_consume-tokens e csr out.1 (record f { tokens = out.0 }),
      )

  body-keeps :
      (e : Env) (o : Option EnrollRequest) (k : Bytes) (f : Files)
      → 0 < e.now
      → is_spent k f.tokens ≡ true
      → is_spent k (enroll_body lower_runes e o f).0.tokens ≡ true
  unfolding enroll_body
  body-keeps e none k f h w = w
  body-keeps e (some r) k f h w = ground (arith, csr-keeps e r r.csr k f h w)

  enroll-keeps :
      (e : Env) (k : Bytes) (f : Files)
      → 0 < e.now
      → is_spent k f.tokens ≡ true
      → is_spent k (handle_enroll lower_runes e f).0.tokens ≡ true
  unfolding handle_enroll
  enroll-keeps e k f h w = ground (arith, body-keeps e e.body k f h w)

  -- the files after a history of requests
  pub after_all : List Env → Files → Files
  after_all [] f = f
  after_all (e ∷ es) f = after_all es (handle_enroll lower_runes e f).0

  -- The request's clock does not stand at Go's zero time.
  abbrev pub HasTime : Env → Type 0
  HasTime e = 0 < e.now

  after_all-keeps :
      (es : List Env) (k : Bytes) (f : Files)
      → All HasTime es
      → is_spent k f.tokens ≡ true
      → is_spent k (after_all es f).tokens ≡ true
  unfolding after_all
  after_all-keeps [] k f h w = w
  after_all-keeps (e ∷ es) k f h w =
      after_all-keeps es k (handle_enroll lower_runes e f).0 h.1 (enroll-keeps e k f h.0 w)

  -- A 503 for a busy device registry comes after the token is spent: no later request with the same
  -- token gets a certificate, whatever enrollment requests come between, with whatever tokens,
  -- locks and writes, if no clock stands at Go's zero time and nothing else writes the token file.
  pub registry_busy-loses_token :
      (e e' : Env) (r r' : EnrollRequest) (between : List Env) (f : Files) (c : Certificate)
      → 0 < e.now
      → All HasTime between
      → e.body ≡ some r
      → e'.body ≡ some r'
      → r'.enrollment_token ≡ r.enrollment_token
      → e.tokens_lock ≡ acquired
      → (handle_enroll lower_runes e f).1 ≡ status 503
      → (handle_enroll lower_runes e' (after_all between (handle_enroll lower_runes e f).0)).1
        ≢ issued c
  registry_busy-loses_token e e' r r' between f c h hs b b' k l w again =
      let later = after_all between (handle_enroll lower_runes e f).0 in
      let spent =
        after_all-keeps between r.enrollment_token (handle_enroll lower_runes e f).0 hs
          (handle_enroll-spent e r f h l b w) in
      let unspent' =
        granted-unspent e' r' later c b' (handle_enroll-IsGranted lower_runes e' later c again) in
      ground arith
