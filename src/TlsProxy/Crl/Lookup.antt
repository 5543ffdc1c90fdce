-- ===== src/TlsProxy/Crl/Lookup.antt =====
-- What a lookup finds after a reload.
use ai_scan_interceptor.Base.{
  ℕ, ◌≡◌, refl, Bool, false, ◌||◌, ◌++◌, List, [], ◌∷◌, arith, Bytes, same, same_iff, any, holds,
}
use ai_scan_interceptor.TlsProxy.Serial.{normalize_serial_hex, text16}
use ai_scan_interceptor.TlsProxy.Serial.Canonical.{normalize-text16, text16-nonempty}
use ai_scan_interceptor.TlsProxy.Crl.{
  RevokedRecord, RevokedFile, RevokedStore, member, collect, reload_from, is_revoked,
}

pub member-append :
    (k : Bytes) (xs ys : List Bytes) → member k (xs ++ ys) ≡ (member k xs || member k ys)
unfolding member
member-append k [] ys = refl
member-append k (x ∷ xs) ys = ground (arith, member-append k xs ys)

module _ (lower_runes : Bytes → Bytes) where
  -- some record of the list has the normal form
  abbrev pub listed : Bytes → List RevokedRecord → Bool
  listed k = any (λ r. same (normalize_serial_hex lower_runes r.serial_hex) k)

  pub member-collect :
      (k : Bytes) (rs : List RevokedRecord)
      → same k [] ≡ false
      → member k (collect lower_runes rs) ≡ listed k rs
  unfolding member collect
  member-collect k [] h = refl
  member-collect k (r ∷ rs) h = ground (
    arith,
    member-collect k rs h,
    same_iff (normalize_serial_hex lower_runes r.serial_hex) [],
    same_iff (normalize_serial_hex lower_runes r.serial_hex) k,
    same_iff k [],
  )

  -- After a reload of a well-formed file a certificate is revoked exactly when the normal form of some
  -- record of the file is the text of its serial.
  pub is_revoked-reload :
      (now serial : ℕ) (f : RevokedFile) (s : RevokedStore)
      → is_revoked lower_runes (reload_from lower_runes now (holds f) s).0 serial
        ≡ listed (text16 serial) f.revoked
  unfolding is_revoked reload_from
  is_revoked-reload now serial f s =
      rw (normalize-text16 lower_runes serial)
        (member-collect (text16 serial) f.revoked (text16-nonempty serial))
