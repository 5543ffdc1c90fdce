-- ===== src/Webui/CrlStore/Retry.antt =====
-- What becomes of an entry whose write failed, when `Add` is called again.
use ai_scan_interceptor.Base.{
  ℕ, ◌≡◌, refl, Bool, true, false, not, ◌&&◌, none, some, is_some, List, [], ◌∷◌, ◌++◌, arith,
  Bytes, same, same_refl, has_key, has_key-append,
}
use ai_scan_interceptor.TlsProxy.Crl.{RevokedRecord}
use ai_scan_interceptor.Webui.CrlStore.{
  CrlStore, write_failed, serial_of, normalize_serial, save, add,
}

-- one more call of `Add`
pub record Retry : Type 0 where
  pub now : ℕ
  pub saved : Bool
  pub subject : Bytes

module _ (lower_runes : Bytes → Bytes) where
  -- The retries of a serial, one after the other: whether each reports success, and the store.
  pub retries : Bytes → List Retry → CrlStore → CrlStore × Bool
  retries serial [] s = (s, true)
  retries serial (r ∷ rs) s =
      let (t, status) = add lower_runes r.now r.saved serial r.subject s in
      let (u, rest) = retries serial rs t in (u, not (is_some status) && rest)

  add-present :
      (now : ℕ) (saved : Bool) (serial subject : Bytes) (s : CrlStore)
      → same (normalize_serial lower_runes serial) [] ≡ false
      → has_key serial_of (normalize_serial lower_runes serial) s.entries ≡ true
      → add lower_runes now saved serial subject s ≡ (s, none)
  unfolding add
  add-present now saved serial subject s h k = rw h (rw k refl)

  retries-present :
      (serial : Bytes) (rs : List Retry) (s : CrlStore)
      → same (normalize_serial lower_runes serial) [] ≡ false
      → has_key serial_of (normalize_serial lower_runes serial) s.entries ≡ true
      → retries serial rs s ≡ (s, true)
  unfolding retries
  retries-present serial [] s h k = refl
  retries-present serial (r ∷ rs) s h k =
      rw (add-present r.now r.saved serial r.subject s h k)
        (rw (retries-present serial rs s h k) refl)

  -- Where the write of a new serial fails, `Add` reports it and leaves the file. However often `Add`
  -- is then called again for the same serial, with nothing in between, each call reports success and
  -- still leaves the file, though its write could succeed.
  pub add-retry_lost :
      (now : ℕ) (serial subject : Bytes) (rs : List Retry) (s : CrlStore)
      → same (normalize_serial lower_runes serial) [] ≡ false
      → has_key serial_of (normalize_serial lower_runes serial) s.entries ≡ false
      → let first = add lower_runes now false serial subject s in
        let again = retries serial rs first.0 in
        (first.1 ≡ some write_failed) × (again.1 ≡ true) × (again.0.disk ≡ s.disk)
  unfolding add save has_key
  add-retry_lost now serial subject rs s h k =
      let key = normalize_serial lower_runes serial in
      let entry : RevokedRecord = record {
        serial_hex = key;
        subject = subject;
        revoked_at = now;
      } in
      let there : has_key serial_of key (s.entries ++ entry ∷ []) ≡ true =
        ground (arith, same_refl key, has_key-append serial_of key s.entries (entry ∷ [])) in
      let first : add lower_runes now false serial subject s
          ≡ (record s { entries = s.entries ++ entry ∷ [] }, some write_failed) =
        rw h (rw k refl) in
      let kept =
        retries-present serial rs (record s { entries = s.entries ++ entry ∷ [] }) h there in
      rw first (refl, rw kept refl, rw kept refl)
