-- ===== src/Webui/Users/Lockout.antt =====
-- How many guesses at one password the lock of an account lets through.
use ai_scan_interceptor.Base.{
  ℕ, suc, ◌+◌, ◌-◌, ◌≤◌, ◌<◌, ◌≡◌, ◌≢◌, ◌⊎◌, inl, inr, refl, sym, Bool, true, false, ◌&&◌, Option,
  none, some, List, [], ◌∷◌, arith, if◌then◌else◌, ltb, Bytes, same, same→eq, same_iff, lt→ltb,
  ltb→lt, Bool-cases, find_key, find_key-update_key, find_key-update_key_ne, All, All-imp, ◌∙◌,
}
use ai_scan_interceptor.Webui.Users.{
  User, UserStore, AuthResult, unknown_user, wrong_password, account_locked, authenticated, name_of,
  count_failure, clear_failures, authenticate_found, authenticate,
}

-- one call of `Authenticate`
pub record Attempt : Type 0 where
  pub now : ℕ
  pub later : ℕ
  pub username : Bytes
  pub password : Bytes

-- The password was compared with the account's.
abbrev pub is_compared : AuthResult → Bool
is_compared unknown_user = false
is_compared wrong_password = true
is_compared account_locked = false
is_compared (authenticated u) = true

count_failure-name : (later : ℕ) (u : User) → (count_failure later u).username ≡ u.username
count_failure-name later u = ground arith

-- what a failure leaves: one more failure, and a lock from the tenth on
count_failure-state :
    (later : ℕ) (u : User)
    → ((count_failure later u).failed_logins ≡ suc u.failed_logins)
      × ((count_failure later u).password_hash ≡ u.password_hash)
      × (((10 ≤ suc u.failed_logins) × ((count_failure later u).locked_until ≡ later + 1800))
          ⊎ (suc u.failed_logins < 10))
count_failure-state later u = ground arith

sym_ne : (a b : Bytes) → (b ≡ a → a ≡ b) × (a ≡ b → b ≡ a)
sym_ne a b = (sym, sym)

module _ (compare_hash : Bytes → Bytes → Bool) where
  abbrev pub attempt : Attempt → UserStore → UserStore × AuthResult
  attempt a s = authenticate compare_hash a.now a.later a.username a.password s

  -- how many attempts of a history compare a password with the account's
  pub guesses : Bytes → List Attempt → UserStore → ℕ
  guesses k [] s = 0
  guesses k (a ∷ l) s =
      let rest = guesses k l (attempt a s).0 in
      if same a.username k && is_compared (attempt a s).1 then suc rest else rest

  found-other :
      (now later : ℕ) (j k p : Bytes) (o : Option User) (s : UserStore)
      → k ≢ j
      → find_key name_of k (authenticate_found compare_hash now later j p o s).0.users
        ≡ find_key name_of k s.users
  unfolding authenticate_found
  found-other now later j k p none s n = refl
  found-other now later j k p (some u) s n = ground (
    arith,
    find_key-update_key_ne name_of clear_failures (λ v. refl) j k s.users n,
    find_key-update_key_ne name_of (count_failure later) (count_failure-name later) j k s.users n,
  )

  -- an attempt on another account
  attempt-other :
      (a : Attempt) (k : Bytes) (s : UserStore)
      → k ≢ a.username
      → find_key name_of k (attempt a s).0.users ≡ find_key name_of k s.users
  unfolding authenticate
  attempt-other a k s n =
      found-other a.now a.later a.username k a.password (find_key name_of a.username s.users) s n

  -- an attempt on a locked account
  attempt-locked :
      (a : Attempt) (s : UserStore) (u : User)
      → find_key name_of a.username s.users ≡ some u
      → a.now < u.locked_until
      → attempt a s ≡ (s, account_locked)
  unfolding authenticate authenticate_found
  attempt-locked a s u e h = rw e (rw (lt→ltb a.now u.locked_until h) refl)

  -- a wrong guess
  attempt-wrong :
      (a : Attempt) (s : UserStore) (u : User)
      → find_key name_of a.username s.users ≡ some u
      → u.locked_until ≤ a.now
      → compare_hash u.password_hash a.password ≡ false
      → find_key name_of a.username (attempt a s).0.users ≡ some (count_failure a.later u)
  unfolding authenticate authenticate_found
  attempt-wrong a s u e h w = ground (
    arith,
    find_key-update_key name_of (count_failure a.later) (count_failure-name a.later) a.username
        s.users,
  )

  -- the same step seen from an account that may or may not be the attempt's
  locked-step :
      (k : Bytes) (a : Attempt) (s : UserStore) (u : User)
      → find_key name_of k s.users ≡ some u
      → a.now < u.locked_until
      → (find_key name_of k (attempt a s).0.users ≡ some u)
        × ((same a.username k && is_compared (attempt a s).1) ≡ false)
  locked-step k a s u e h =
      ground (
        arith,
        same_iff a.username k,
        attempt-locked a s u,
        attempt-other a k s,
        sym_ne a.username k,
      )

  -- no password is compared while the lock holds
  locked-guesses :
      (k : Bytes) (until : ℕ) (l : List Attempt) (s : UserStore) (u : User)
      → find_key name_of k s.users ≡ some u
      → until ≤ u.locked_until
      → All (λ a. a.now < until) l
      → guesses k l s ≡ 0
  unfolding guesses
  locked-guesses k until [] s u e b h = refl
  locked-guesses k until (a ∷ l) s u e b h =
      let now_locked : a.now < u.locked_until = omega arith in
      let step = locked-step k a s u e now_locked in
      ground (arith, locked-guesses k until l (attempt a s).0 u step.0 b h.1)

  -- Within thirty minutes of `start`, an attempt on `k` is a wrong guess.
  unfoldable pub IsWrongGuess : ℕ → Bytes → Bytes → Attempt → Type 0
  IsWrongGuess start k hash a =
      (start ≤ a.later)
      × (a.now < start + 1800)
      × (a.username ≡ k → compare_hash hash a.password ≡ false)

  wrong-step :
      (k : Bytes) (a : Attempt) (s : UserStore) (u : User)
      → a.username ≡ k
      → find_key name_of k s.users ≡ some u
      → u.locked_until ≤ a.now
      → compare_hash u.password_hash a.password ≡ false
      → find_key name_of k (attempt a s).0.users ≡ some (count_failure a.later u)
  wrong-step k a s u q e h w = ground (arith, attempt-wrong a s u)

  -- the account after the first attempt decides the rest
  first-wrong :
      (start : ℕ) (k : Bytes) (a : Attempt) (l : List Attempt) (s : UserStore) (u : User)
      → start ≤ a.later
      → All (λ b. b.now < start + 1800) l
      → find_key name_of k s.users ≡ some (count_failure a.later u)
      → 9 ≤ u.failed_logins
      → guesses k l s ≡ 0
  first-wrong start k a l s u h within e n =
      let state = count_failure-state a.later u in
      let locked : start + 1800 ≤ (count_failure a.later u).locked_until = ground arith in
      locked-guesses k (start + 1800) l s (count_failure a.later u) e locked within

  -- An attempt leaves the account and counts nothing, or it is a wrong guess.
  step-cases :
      (start : ℕ) (k hash : Bytes) (a : Attempt) (s : UserStore) (u : User)
      → find_key name_of k s.users ≡ some u
      → u.password_hash ≡ hash
      → IsWrongGuess start k hash a
      → ((find_key name_of k (attempt a s).0.users ≡ some u)
          × ((same a.username k && is_compared (attempt a s).1) ≡ false))
        ⊎ (find_key name_of k (attempt a s).0.users ≡ some (count_failure a.later u))
  unfolding IsWrongGuess
  step-cases start k hash a s u e q h = elim (Bool-cases (same a.username k)) [
    | inr other ↦ inl (
      ground (arith, same_iff a.username k, attempt-other a k s, sym_ne a.username k),
      ground arith,
    )
    | inl mine ↦ elim (Bool-cases (ltb a.now u.locked_until)) [
      | inl locked ↦ inl (locked-step k a s u e (ltb→lt a.now u.locked_until locked))
      | inr open_now ↦ inr (
          wrong-step k a s u (same→eq a.username k mine) e (ground arith)
            (rw q (h.2 (same→eq a.username k mine))))
    ]
  ]

  guesses-bound :
      (start : ℕ) (k hash : Bytes) (l : List Attempt) (s : UserStore) (u : User)
      → find_key name_of k s.users ≡ some u
      → u.password_hash ≡ hash
      → All (IsWrongGuess start k hash) l
      → guesses k l s ≤ suc (9 - u.failed_logins)
  unfolding guesses IsWrongGuess
  guesses-bound start k hash [] s u e q h = omega arith
  guesses-bound start k hash (a ∷ l) s u e q h = elim (step-cases start k hash a s u e q h.0) [
    | inl (kept, uncounted) ↦
        let rest = guesses-bound start k hash l (attempt a s).0 u kept q h.1 in rw uncounted rest
    | inr counted ↦
        let state = count_failure-state a.later u in
        let within =
          All-imp (IsWrongGuess start k hash) (λ b. b.now < start + 1800) (λ b w. w.1) l h.1 in
        let rest =
          guesses-bound start k hash l (attempt a s).0 (count_failure a.later u) counted
            (state.1 ∙ q) h.1 in
        ground (arith, first-wrong start k a l (attempt a s).0 u h.0.0 within counted)
  ]

  -- Within thirty minutes, wrong guesses at an account that has failed `n` times before are
  -- compared with its password `10 - n` times at most, and once at most if `n` is ten or more;
  -- whatever attempts on other accounts come between.
  pub guesses-le :
      (start : ℕ) (k : Bytes) (l : List Attempt) (s : UserStore) (u : User)
      → find_key name_of k s.users ≡ some u
      → All (IsWrongGuess start k u.password_hash) l
      → guesses k l s ≤ suc (9 - u.failed_logins)
  guesses-le start k l s u e h = guesses-bound start k u.password_hash l s u e refl h
