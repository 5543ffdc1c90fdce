-- ===== src/TlsProxy/Enroll/Once.antt =====
-- How often a token is accepted.
use ai_scan_interceptor.Base.{
  ℕ, suc, ◌≤◌, ◌<◌, ◌≡◌, refl, Bool, true, false, not, ◌&&◌, Option, none, some, List, [], ◌∷◌,
  arith, if◌then◌else◌, ◌==◌, Bytes, same, same_iff, find_key, update_key, find_key-update_key,
  find_key-update_key_ne, File, missing, unreadable, empty, malformed, holds, All,
}
use ai_scan_interceptor.TlsProxy.DeviceStore.{LockOutcome, acquired, timed_out, lock_error}
use ai_scan_interceptor.TlsProxy.Enroll.{
  EnrollToken, Result, ok, err, token_of, mark_consumed, read_token_store, consume_found,
  consume_locked, consume,
}

unfoldable pub spent_token : Option EnrollToken → Bool
spent_token none = false
spent_token (some t) = not (t.consumed_at == 0)

unfoldable pub spent_in : Bytes → Option (List EnrollToken) → Bool
spent_in k none = false
spent_in k (some ts) = spent_token (find_key token_of k ts)

-- The file holds the token, marked as consumed.
unfoldable pub is_spent : Bytes → File (List EnrollToken) → Bool
unfolding spent_in
is_spent k file = spent_in k (read_token_store file)

-- one request: what the lock, the clock and the disk do, and the token presented
pub record Attempt : Type 0 where
  pub lock : LockOutcome
  pub now : ℕ
  pub saved : Bool
  pub token : Bytes

abbrev pub attempt :
    Attempt → File (List EnrollToken) → File (List EnrollToken) × Result EnrollToken
attempt a file = consume a.lock a.now a.saved a.token file

abbrev pub is_ok : Result EnrollToken → Bool
is_ok (ok t) = true
is_ok (err e) = false

-- Marking one token leaves the spent ones spent.
spent-update :
    (j k : Bytes) (now : ℕ) (ts : List EnrollToken)
    → 0 < now
    → spent_token (find_key token_of k ts) ≡ true
    → spent_token (find_key token_of k (update_key token_of j (mark_consumed now) ts)) ≡ true
unfolding spent_token
spent-update j k now ts h e = ground (
  arith,
  same_iff k j,
  find_key-update_key token_of (mark_consumed now) (λ t. refl) k ts,
  find_key-update_key_ne token_of (mark_consumed now) (λ t. refl) j k ts,
)

spent-found :
    (now : ℕ) (saved : Bool) (j k : Bytes) (ts : List EnrollToken) (o : Option EnrollToken)
    (file : File (List EnrollToken))
    → 0 < now
    → spent_token (find_key token_of k ts) ≡ true
    → is_spent k file ≡ true
    → is_spent k (consume_found now saved j ts o file).0 ≡ true
unfolding consume_found is_spent read_token_store
spent-found now saved j k ts none file h e w = w
spent-found now saved j k ts (some t) file h e w = ground (arith, spent-update j k now ts h e)

pub spent-consume :
    (lock : LockOutcome) (now : ℕ) (saved : Bool) (j k : Bytes) (file : File (List EnrollToken))
    → 0 < now
    → is_spent k file ≡ true
    → is_spent k (consume lock now saved j file).0 ≡ true
unfolding consume is_spent find_key
spent-consume acquired now saved j k missing h e = cc
spent-consume acquired now saved j k unreadable h e = cc
spent-consume acquired now saved j k empty h e = cc
spent-consume acquired now saved j k malformed h e = cc
spent-consume acquired now saved j k (holds ts) h e =
    spent-found now saved j k ts (find_key token_of j ts) (holds ts) h e e
spent-consume timed_out now saved j k file h e = e
spent-consume lock_error now saved j k file h e = e

-- A spent token is refused.
spent-refused_found :
    (now : ℕ) (saved : Bool) (k : Bytes) (ts : List EnrollToken) (o : Option EnrollToken)
    (file : File (List EnrollToken))
    → spent_token o ≡ true
    → is_ok (consume_found now saved k ts o file).1 ≡ false
unfolding consume_found spent_token
spent-refused_found now saved k ts none file e = cc
spent-refused_found now saved k ts (some t) file e = ground arith

consume_locked-refused :
    (now : ℕ) (saved : Bool) (k : Bytes) (o : Option (List EnrollToken))
    (file : File (List EnrollToken))
    → spent_in k o ≡ true
    → is_ok (consume_locked now saved k o file).1 ≡ false
unfolding consume_locked spent_in
consume_locked-refused now saved k none file e = refl
consume_locked-refused now saved k (some ts) file e =
    spent-refused_found now saved k ts (find_key token_of k ts) file e

pub spent-refused :
    (lock : LockOutcome) (now : ℕ) (saved : Bool) (k : Bytes) (file : File (List EnrollToken))
    → is_spent k file ≡ true
    → is_ok (consume lock now saved k file).1 ≡ false
unfolding consume is_spent
spent-refused acquired now saved k file e =
    consume_locked-refused now saved k (read_token_store file) file e
spent-refused timed_out now saved k file e = refl
spent-refused lock_error now saved k file e = refl

-- An accepted token is marked on disk.
accepted-writes :
    (now : ℕ) (k : Bytes) (saved : Bool) (ts : List EnrollToken) (t : EnrollToken)
    (file : File (List EnrollToken))
    → is_ok (consume_found now saved k ts (some t) file).1 ≡ true
    → (consume_found now saved k ts (some t) file).0
      ≡ holds (update_key token_of k (mark_consumed now) ts)
unfolding consume_found
accepted-writes now k true ts t file e = ground arith
accepted-writes now k false ts t file e = ground arith

marked-spent :
    (now : ℕ) (k : Bytes) (ts : List EnrollToken) (t : EnrollToken)
    → 0 < now
    → some t ≡ find_key token_of k ts
    → is_spent k (holds (update_key token_of k (mark_consumed now) ts)) ≡ true
unfolding is_spent read_token_store spent_token
marked-spent now k ts t h w =
    ground (arith, find_key-update_key token_of (mark_consumed now) (λ t. refl) k ts)

-- An accepted token is spent.
accepted-spent_found :
    (now : ℕ) (k : Bytes) (saved : Bool) (ts : List EnrollToken) (o : Option EnrollToken)
    (file : File (List EnrollToken))
    → 0 < now
    → o ≡ find_key token_of k ts
    → is_ok (consume_found now saved k ts o file).1 ≡ true
    → is_spent k (consume_found now saved k ts o file).0 ≡ true
unfolding consume_found
accepted-spent_found now k saved ts none file h w e = cc
accepted-spent_found now k saved ts (some t) file h w e =
    rw (accepted-writes now k saved ts t file e) (marked-spent now k ts t h w)

consume_locked-spent :
    (now : ℕ) (saved : Bool) (k : Bytes) (o : Option (List EnrollToken))
    (file : File (List EnrollToken))
    → 0 < now
    → is_ok (consume_locked now saved k o file).1 ≡ true
    → is_spent k (consume_locked now saved k o file).0 ≡ true
unfolding consume_locked
consume_locked-spent now saved k none file h e = cc
consume_locked-spent now saved k (some ts) file h e =
    accepted-spent_found now k saved ts (find_key token_of k ts) file h refl e

pub accepted-spent :
    (lock : LockOutcome) (now : ℕ) (saved : Bool) (k : Bytes) (file : File (List EnrollToken))
    → 0 < now
    → is_ok (consume lock now saved k file).1 ≡ true
    → is_spent k (consume lock now saved k file).0 ≡ true
unfolding consume
accepted-spent acquired now saved k file h e =
    consume_locked-spent now saved k (read_token_store file) file h e
accepted-spent timed_out now saved k file h e = cc
accepted-spent lock_error now saved k file h e = cc

-- how many requests of a history succeed with the token
pub successes : Bytes → List Attempt → File (List EnrollToken) → ℕ
successes k [] file = 0
successes k (a ∷ l) file =
    let rest = successes k l (attempt a file).0 in
    if same a.token k && is_ok (attempt a file).1 then suc rest else rest

abbrev pub IsTimed : Attempt → Type 0
IsTimed a = 0 < a.now

spent-successes :
    (k : Bytes) (l : List Attempt) (file : File (List EnrollToken))
    → All IsTimed l
    → is_spent k file ≡ true
    → successes k l file ≡ 0
unfolding successes
spent-successes k [] file h e = refl
spent-successes k (a ∷ l) file h e = ground (
  arith,
  same_iff a.token k,
  spent-refused a.lock a.now a.saved k file e,
  spent-consume a.lock a.now a.saved a.token k file h.0 e,
  spent-successes k l (attempt a file).0 h.1,
)

-- Whatever the file, the locks, the writes and the other tokens, at most one request of a history
-- enrolls with a given token, if the clock does not stand at Go's zero time.
pub successes-le-one :
    (k : Bytes) (l : List Attempt) (file : File (List EnrollToken))
    → All IsTimed l
    → successes k l file ≤ 1
unfolding successes
successes-le-one k [] file h = omega arith
successes-le-one k (a ∷ l) file h = ground (
  arith,
  same_iff a.token k,
  successes-le-one k l (attempt a file).0 h.1,
  accepted-spent a.lock a.now a.saved k file h.0,
  spent-successes k l (attempt a file).0 h.1,
)
