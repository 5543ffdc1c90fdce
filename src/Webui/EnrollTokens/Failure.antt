-- ===== src/Webui/EnrollTokens/Failure.antt =====
-- What a failed creation leaves behind.
use ai_scan_interceptor.Base.{
  ℕ, ◌≡◌, refl, sym, ap, ◌∙◌, Bool, true, false, none, some, List, [], ◌∷◌, arith, Bytes, File,
  holds, missing, unreadable, empty, malformed, take-append_exact,
}
use ai_scan_interceptor.TlsProxy.DeviceStore.{LockOutcome, acquired, timed_out, lock_error}
use ai_scan_interceptor.Webui.EnrollTokens.{
  EnrollToken, EnrollTokenStore, CreateOptions, and_then, new_token, reload_file, reload,
  append_token, create_checked, create, Outcome, with_flock, TokenError,
}

-- a failed append is undone
append_token-undone :
    (saved : Bool) (t : EnrollToken) (s : EnrollTokenStore) (e : TokenError)
    → (append_token saved t s).1 ≡ some e
    → (append_token saved t s).0 ≡ s
unfolding append_token
append_token-undone true t s e w = cc
append_token-undone false t s e w = rw (take-append_exact s.tokens (t ∷ [])) refl

reload_file-disk :
    (file : File (List EnrollToken)) (s : EnrollTokenStore) → (reload_file file s).0.disk ≡ s.disk
unfolding reload_file
reload_file-disk missing s = refl
reload_file-disk unreadable s = refl
reload_file-disk empty s = refl
reload_file-disk malformed s = refl
reload_file-disk (holds ts) s = refl

reload-disk : (s : EnrollTokenStore) → (reload s).0.disk ≡ s.disk
unfolding reload
reload-disk s = reload_file-disk s.disk s

-- a failed step after a reload leaves the file
and_then-undone :
    (saved : Bool) (t : EnrollToken) (o : Outcome) (file : File (List EnrollToken)) (e : TokenError)
    → o.0.disk ≡ file
    → (and_then o (append_token saved t)).1 ≡ some e
    → (and_then o (append_token saved t)).0.disk ≡ file
and_then-undone saved t (s, none) file e h w =
    ap (λ u. u.disk) (append_token-undone saved t s e w) ∙ h
and_then-undone saved t (s, some x) file e h w = h

checked-undone :
    (lock : LockOutcome) (saved : Bool) (t : EnrollToken) (s : EnrollTokenStore) (e : TokenError)
    → (create_checked lock saved t s).1 ≡ some e
    → (create_checked lock saved t s).0.disk ≡ s.disk
unfolding create_checked with_flock
checked-undone acquired saved t s e w =
    and_then-undone saved t (reload s) s.disk e (reload-disk s) w
checked-undone timed_out saved t s e w = refl
checked-undone lock_error saved t s e w = refl

-- Two stores on the same file create alike, but for what they keep in memory on an error.
append_token-alike :
    (saved : Bool) (t : EnrollToken) (ts : List EnrollToken) (s u : EnrollTokenStore)
    → s.disk ≡ u.disk
    → ((append_token saved t (record s { tokens = ts })).0.disk
        ≡ (append_token saved t (record u { tokens = ts })).0.disk)
      × ((append_token saved t (record s { tokens = ts })).1
          ≡ (append_token saved t (record u { tokens = ts })).1)
unfolding append_token
append_token-alike true t ts s u h = (refl, refl)
append_token-alike false t ts s u h = (h, refl)

reload-alike :
    (saved : Bool) (t : EnrollToken) (file : File (List EnrollToken)) (s u : EnrollTokenStore)
    → s.disk ≡ u.disk
    → let a = and_then (reload_file file s) (append_token saved t) in
      let b = and_then (reload_file file u) (append_token saved t) in
      (a.0.disk ≡ b.0.disk) × (a.1 ≡ b.1)
unfolding reload_file
reload-alike saved t missing s u h = append_token-alike saved t [] s u h
reload-alike saved t unreadable s u h = (h, refl)
reload-alike saved t empty s u h = append_token-alike saved t [] s u h
reload-alike saved t malformed s u h = (h, refl)
reload-alike saved t (holds ts) s u h = append_token-alike saved t ts s u h

checked-alike :
    (lock : LockOutcome) (saved : Bool) (t : EnrollToken) (s u : EnrollTokenStore)
    → s.disk ≡ u.disk
    → ((create_checked lock saved t s).0.disk ≡ (create_checked lock saved t u).0.disk)
      × ((create_checked lock saved t s).1 ≡ (create_checked lock saved t u).1)
unfolding create_checked with_flock reload
checked-alike acquired saved t s u h =
    let at_file : (f : File (List EnrollToken))
        → s.disk ≡ f
        → f ≡ u.disk
        → let a = and_then (reload_file s.disk s) (append_token saved t) in
          let b = and_then (reload_file f u) (append_token saved t) in
          (a.0.disk ≡ b.0.disk) × (a.1 ≡ b.1) =
      λ f e d. rw (sym e) (reload-alike saved t s.disk s u h) in
    at_file u.disk h refl
checked-alike timed_out saved t s u h = (h, refl)
checked-alike lock_error saved t s u h = (h, refl)

module _ (hash_token : Bytes → Bytes) where
  -- A failed `Create` leaves the token file.
  pub create-undone :
      (lock : LockOutcome) (saved : Bool) (now : ℕ) (id plaintext : Bytes) (opt : CreateOptions)
      (s : EnrollTokenStore) (e : TokenError)
      → (create hash_token lock saved now id plaintext opt s).1 ≡ some e
      → (create hash_token lock saved now id plaintext opt s).0.disk ≡ s.disk
  unfolding create
  create-undone lock saved now id plaintext opt s e w =
      ground (arith, checked-undone lock saved (new_token hash_token now id plaintext opt) s e)

  create-alike :
      (lock : LockOutcome) (saved : Bool) (now : ℕ) (id plaintext : Bytes) (opt : CreateOptions)
      (s u : EnrollTokenStore)
      → s.disk ≡ u.disk
      → let a = create hash_token lock saved now id plaintext opt s in
        let b = create hash_token lock saved now id plaintext opt u in
        (a.0.disk ≡ b.0.disk) × (a.1 ≡ b.1)
  unfolding create
  create-alike lock saved now id plaintext opt s u h =
      ground (arith, checked-alike lock saved (new_token hash_token now id plaintext opt) s u h)

  -- A retry after a failed `Create` writes the same file and reports the same as it would have
  -- without the failure, whatever the two requests ask for.
  pub create-retry :
      (lock : LockOutcome) (saved : Bool) (now : ℕ) (id plaintext : Bytes) (opt : CreateOptions)
      (lock' : LockOutcome) (saved' : Bool) (now' : ℕ) (id' plaintext' : Bytes)
      (opt' : CreateOptions) (s : EnrollTokenStore) (e : TokenError)
      → (create hash_token lock saved now id plaintext opt s).1 ≡ some e
      → let first = create hash_token lock saved now id plaintext opt s in
        let again = create hash_token lock' saved' now' id' plaintext' opt' first.0 in
        let alone = create hash_token lock' saved' now' id' plaintext' opt' s in
        (again.0.disk ≡ alone.0.disk) × (again.1 ≡ alone.1)
  create-retry lock saved now id plaintext opt lock' saved' now' id' plaintext' opt' s e w =
      create-alike lock' saved' now' id' plaintext' opt'
        (create hash_token lock saved now id plaintext opt s).0 s
        (create-undone lock saved now id plaintext opt s e w)
