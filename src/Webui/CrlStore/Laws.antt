-- ===== src/Webui/CrlStore/Laws.antt =====
-- What `Add` and `Remove` do to the list and to the file.
use ai_scan_interceptor.Base.{
  ℕ, ◌≡◌, inl, Bool, true, false, not, ◌&&◌, ◌||◌, [], ◌∷◌, arith, Bytes, same, same_iff, has_key,
  has_key-append, has_key-remove_key_ne, has_key-remove_key_self, remove_key-Distinct,
  append-Distinct, Distinct, holds, All, All-imp,
}
use ai_scan_interceptor.Strings.Plain.{without_byte-none, trim_space-plain, to_lower-plain}
use ai_scan_interceptor.TlsProxy.Serial.Text16.{IsHexDigit}
use ai_scan_interceptor.TlsProxy.Serial.Canonical.{
  hex-IsPlain, hex-IsLower, hex_ne, hex_ne_colon, no_prefix,
}
use ai_scan_interceptor.TlsProxy.Crl.{RevokedRecord}
use ai_scan_interceptor.Webui.CrlStore.{
  CrlStore, schema_version, serial_of, normalize_serial, save, add, remove, has,
}

-- The serials in memory are distinct and not empty.
abbrev pub IsClean : CrlStore → Type 0
IsClean s = Distinct serial_of s.entries × (has_key serial_of [] s.entries ≡ false)

-- The file is what the store would write.
abbrev pub IsSynced : CrlStore → Type 0
IsSynced s = s.disk ≡ holds (record { version = schema_version; revoked = s.entries })

last_key : (r : RevokedRecord) → has_key serial_of [] (r ∷ []) ≡ same r.serial_hex []
unfolding has_key
last_key r = ground arith

module _ (lower_runes : Bytes → Bytes) where
  -- Hexadecimal digits in lower case are their own normal form on this side too.
  pub normalize_serial-hex : (s : Bytes) → All IsHexDigit s → normalize_serial lower_runes s ≡ s
  unfolding normalize_serial
  normalize_serial-hex s h = rw (
    trim_space-plain s (All-imp _ _ hex-IsPlain s h),
    to_lower-plain lower_runes s (All-imp _ _ hex-IsLower s h),
    no_prefix b'x' s (inl (omega arith)) h,
    without_byte-none b':' s (All-imp _ _ hex_ne_colon s h),
    without_byte-none b' ' s (All-imp _ _ (hex_ne b' ' (omega arith)) s h),
  )

  module _ (now : ℕ) (saved : Bool) (serial subject : Bytes) (s : CrlStore) where
    -- After `Add` of a serial whose normal form is not empty the list holds exactly what it held
    -- and the serial, whether the write succeeds or not.
    pub has-add :
        (j : Bytes)
        → same (normalize_serial lower_runes serial) [] ≡ false
        → has lower_runes j (add lower_runes now saved serial subject s).0 ≡ (
            same (normalize_serial lower_runes serial) (normalize_serial lower_runes j)
            || has lower_runes j s)
    unfolding has add save has_key
    has-add j h =
        let k = normalize_serial lower_runes serial in
        let i = normalize_serial lower_runes j in
        ground (
          arith,
          has_key-append serial_of i s.entries
              (record { serial_hex = k; subject = subject; revoked_at = now } ∷ []),
          same_iff k i,
          same_iff i [],
          same_iff k [],
        )

    -- `Add` keeps the serials distinct and not empty.
    pub add-IsClean : IsClean s → IsClean (add lower_runes now saved serial subject s).0
    unfolding add save
    add-IsClean c =
        let k = normalize_serial lower_runes serial in
        let r : RevokedRecord = record { serial_hex = k; subject = subject; revoked_at = now } in
        ground (
          arith,
          append-Distinct serial_of s.entries r c.0,
          has_key-append serial_of [] s.entries (r ∷ []),
          last_key r,
        )

  module _ (saved : Bool) (serial : Bytes) (s : CrlStore) where
    -- After `Remove` the list holds exactly what it held less the serial, if its serials are
    -- distinct and not empty.
    pub has-remove :
        (j : Bytes)
        → IsClean s
        → has lower_runes j (remove lower_runes saved serial s).0 ≡ (
            not (same (normalize_serial lower_runes serial) (normalize_serial lower_runes j))
            && has lower_runes j s)
    unfolding has remove save
    has-remove j c =
        let k = normalize_serial lower_runes serial in
        let i = normalize_serial lower_runes j in
        ground (
          arith,
          has_key-remove_key_ne serial_of k i s.entries,
          has_key-remove_key_self serial_of k s.entries c.0,
          same_iff k i,
          same_iff i [],
          same_iff k [],
        )

    pub remove-Distinct :
        Distinct serial_of s.entries
        → Distinct serial_of (remove lower_runes saved serial s).0.entries
    unfolding remove save
    remove-Distinct d =
        ground
          (arith, remove_key-Distinct serial_of (normalize_serial lower_runes serial) s.entries d)

  -- A store whose writes succeed stays in step with its file.
  pub add-IsSynced :
      (now : ℕ) (serial subject : Bytes) (s : CrlStore)
      → IsSynced s
      → IsSynced (add lower_runes now true serial subject s).0
  unfolding add save
  add-IsSynced now serial subject s h = ground arith

  pub remove-IsSynced :
      (serial : Bytes) (s : CrlStore) → IsSynced s → IsSynced (remove lower_runes true serial s).0
  unfolding remove save
  remove-IsSynced serial s h = ground arith
