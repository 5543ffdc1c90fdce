-- ===== src/Revocation.antt =====
-- From the dashboard's revoke button to the TLS handshake: webui/devicestore.go writes the list
-- through webui/crlstore.go, and tls-proxy/crl.go reads it.
pub mod Page
pub mod Examples
use ai_scan_interceptor.Base.{
  ℕ, ◌≡◌, ◌≢◌, ◌⊎◌, inl, inr, refl, ap, sym, ◌∙◌, Bool, true, false, not, ◌&&◌, ◌||◌, ◌==◌, Option,
  none, some, List, [], ◌∷◌, ◌++◌, arith, if◌then◌else◌, Bytes, same, same_iff, any, find_key,
  has_key, has_key-remove_key_ne, has_key-remove_key_self, remove_key, Distinct, File, holds,
  missing, All, ==_iff, Bool-cases,
}
use ai_scan_interceptor.TlsProxy.Serial.{normalize_serial_hex, text16}
use ai_scan_interceptor.TlsProxy.Serial.Text16.{text16-All, text16_injective}
use ai_scan_interceptor.TlsProxy.Serial.Canonical.{
  IsCanonical, normalize-canonical, normalize-text16, text16-nonempty,
}
use ai_scan_interceptor.TlsProxy.Crl.{
  RevokedRecord, RevokedFile, RevokedStore, reload_from, is_revoked,
}
use ai_scan_interceptor.TlsProxy.Crl.Lookup.{listed, is_revoked-reload}
use ai_scan_interceptor.Webui.CrlStore
use ai_scan_interceptor.Webui.CrlStore.{CrlStore, serial_of, normalize_serial}
use ai_scan_interceptor.Webui.CrlStore.Laws.{
  IsSynced, normalize_serial-hex, add-IsSynced, remove-IsSynced,
}
use ai_scan_interceptor.Webui.DeviceStore.Frame.{revoke-crl, unrevoke-crl}
use ai_scan_interceptor.Webui.DeviceStore.{Device, DeviceStore, id_of, revoke, unrevoke}

same-text16 : (m n : ℕ) → same (text16 n) (text16 m) ≡ (n == m)
same-text16 m n =
    ground (arith, same_iff (text16 n) (text16 m), text16_injective n m, ap text16 {x = n} {y = m})

module _ (lower_runes : Bytes → Bytes) where
  listed-append :
      (k : Bytes) (rs : List RevokedRecord) (r : RevokedRecord)
      → listed lower_runes k (rs ++ r ∷ [])
        ≡ (listed lower_runes k rs || same (normalize_serial_hex lower_runes r.serial_hex) k)
  listed-append k [] r = ground arith
  listed-append k (x ∷ xs) r = ground (arith, listed-append k xs r)

  has-listed :
      (n : ℕ) (rs : List RevokedRecord)
      → has_key serial_of (text16 n) rs ≡ true
      → listed lower_runes (text16 n) rs ≡ true
  unfolding has_key
  has-listed n [] h = h
  has-listed n (r ∷ rs) h = ground (
    arith,
    has-listed n rs,
    same_iff r.serial_hex (text16 n),
    normalize-text16 lower_runes n,
    same_iff (normalize_serial_hex lower_runes r.serial_hex) (text16 n),
  )

  -- the proxy's answer for a certificate after it has read a file
  pub proxy_refuses : ℕ → RevokedStore → File RevokedFile → ℕ → Bool
  proxy_refuses now p file m = is_revoked lower_runes (reload_from lower_runes now file p).0 m

  record_text : ℕ → Bytes → ℕ → RevokedRecord
  record_text n subject now = record { serial_hex = text16 n; subject = subject; revoked_at = now }

  refuses-synced :
      (at m : ℕ) (p : RevokedStore) (c : CrlStore)
      → IsSynced c
      → proxy_refuses at p c.disk m ≡ listed lower_runes (text16 m) c.entries
  unfolding proxy_refuses
  refuses-synced at m p c h = rw h (is_revoked-reload lower_runes at m _ p)

  entries-add :
      (now n : ℕ) (subject : Bytes) (c : CrlStore)
      → (CrlStore.add lower_runes now true (text16 n) subject c).0.entries ≡ (
          if has_key serial_of (text16 n) c.entries
          then c.entries
          else c.entries ++ record_text n subject now ∷ [])
  unfolding CrlStore.add CrlStore.save record_text
  entries-add now n subject c =
      rw (normalize_serial-hex lower_runes (text16 n) (text16-All n), text16-nonempty n)
        (ground arith)

  listed-add :
      (now n m : ℕ) (subject : Bytes) (rs : List RevokedRecord)
      → listed lower_runes
          (text16 m)
          (if has_key serial_of (text16 n) rs then rs else rs ++ record_text n subject now ∷ [])
        ≡ (n == m || listed lower_runes (text16 m) rs)
  unfolding record_text
  listed-add now n m subject rs = ground (
    arith,
    listed-append (text16 m) rs (record_text n subject now),
    has-listed n rs,
    normalize-text16 lower_runes n,
    same-text16 m n,
    ap text16 {x = n} {y = m},
  )

  -- One more `Add` by the dashboard: the proxy refuses that serial, and the others as before.
  refuses-add :
      (now at n m : ℕ) (subject : Bytes) (p : RevokedStore) (c : CrlStore)
      → IsSynced c
      → proxy_refuses at p (CrlStore.add lower_runes now true (text16 n) subject c).0.disk m
        ≡ (n == m || proxy_refuses at p c.disk m)
  refuses-add now at n m subject p c h =
      rw
        (
          refuses-synced at m p _ (add-IsSynced lower_runes now (text16 n) subject c h),
          entries-add now n subject c,
          refuses-synced at m p c h,
        )
        (listed-add now n m subject c.entries)

  -- the file of the revocation list that a device store writes to
  abbrev pub crl_file : DeviceStore → File RevokedFile
  crl_file s = elim s.crl [ none ↦ missing | some c ↦ c.disk ]

  add-status :
      (now n : ℕ) (subject : Bytes) (c : CrlStore)
      → (CrlStore.add lower_runes now true (text16 n) subject c).1 ≡ none
  unfolding CrlStore.add CrlStore.save
  add-status now n subject c =
      rw (normalize_serial-hex lower_runes (text16 n) (text16-All n), text16-nonempty n)
        (ground arith)

  listed-has_key :
      (m : ℕ) (rs : List RevokedRecord)
      → All (λ r. IsCanonical r.serial_hex) rs
      → listed lower_runes (text16 m) rs ≡ has_key serial_of (text16 m) rs
  unfolding has_key
  listed-has_key m [] h = refl
  listed-has_key m (r ∷ rs) h =
      rw (normalize-canonical lower_runes r.serial_hex h.0.0 h.0.1, listed-has_key m rs h.1)

  remove_key-All :
      (k : Bytes) (rs : List RevokedRecord)
      → All (λ r. IsCanonical r.serial_hex) rs
      → All (λ r. IsCanonical r.serial_hex) (remove_key serial_of k rs)
  unfolding remove_key
  remove_key-All k [] h = tt
  remove_key-All k (r ∷ rs) h = elim (Bool-cases (same r.serial_hex k)) [
    | inl e ↦ rw e h.1
    | inr e ↦ rw e (h.0, remove_key-All k rs h.1)
  ]

  remove_key-absent :
      (k : Bytes) (rs : List RevokedRecord)
      → has_key serial_of k rs ≡ false
      → remove_key serial_of k rs ≡ rs
  unfolding remove_key has_key
  remove_key-absent k [] h = refl
  remove_key-absent k (r ∷ rs) h = ground (arith, remove_key-absent k rs)

  entries-remove :
      (n : ℕ) (c : CrlStore)
      → (CrlStore.remove lower_runes true (text16 n) c).0.entries
        ≡ remove_key serial_of (text16 n) c.entries
  unfolding CrlStore.remove CrlStore.save
  entries-remove n c =
      rw (normalize_serial-hex lower_runes (text16 n) (text16-All n), text16-nonempty n)
        (ground (arith, remove_key-absent (text16 n) c.entries))

  has_key-removed :
      (n m : ℕ) (rs : List RevokedRecord)
      → Distinct serial_of rs
      → has_key serial_of (text16 m) (remove_key serial_of (text16 n) rs)
        ≡ (not (n == m) && has_key serial_of (text16 m) rs)
  has_key-removed n m rs h = ground (
    arith,
    has_key-remove_key_ne serial_of (text16 n) (text16 m) rs,
    has_key-remove_key_self serial_of (text16 n) rs h,
    text16_injective m n,
    ap text16 {x = n} {y = m},
  )

  -- A `Remove` by the dashboard: the proxy accepts that serial again, and the others as before.
  refuses-remove :
      (at n m : ℕ) (p : RevokedStore) (c : CrlStore)
      → IsSynced c
      → Distinct serial_of c.entries
      → All (λ r. IsCanonical r.serial_hex) c.entries
      → proxy_refuses at p (CrlStore.remove lower_runes true (text16 n) c).0.disk m
        ≡ (not (n == m) && proxy_refuses at p c.disk m)
  refuses-remove at n m p c h d k =
      rw
        (
          refuses-synced at m p _ (remove-IsSynced lower_runes (text16 n) c h),
          entries-remove n c,
          listed-has_key m _ (remove_key-All (text16 n) c.entries k),
          refuses-synced at m p c h,
          listed-has_key m c.entries k,
        )
        (has_key-removed n m c.entries d)

  module _ (at n : ℕ) (id : Bytes) (s : DeviceStore) (ds : List Device) (d : Device) (c : CrlStore)
      (p : RevokedStore) (stored : s.disk ≡ holds ds) (found : find_key id_of id ds ≡ some d)
      (serial : d.serial_hex ≡ text16 n) (wired : s.crl ≡ some c) (synced : IsSynced c) where
    named : same d.serial_hex [] ≡ false
    named = rw serial (text16-nonempty n)

    file_wired : (t : DeviceStore) (c' : CrlStore) → t.crl ≡ some c' → crl_file t ≡ c'.disk
    file_wired t c' e = ground arith

    -- A device is on record with the serial that tls-proxy wrote for its certificate, the revocation
    -- list is in step with its file, and all writes succeed. Then the dashboard's `Revoke` reports
    -- success, and once tls-proxy has read the file again it refuses that certificate, and refuses any
    -- other exactly if it would have refused it before.
    pub revoke_reaches_proxy :
        (now crl_now m : ℕ)
        → let t = revoke lower_runes now true crl_now true id s in
          (t.1 ≡ none)
          × (proxy_refuses at p (crl_file t.0) m ≡ (n == m || proxy_refuses at p (crl_file s) m))
    revoke_reaches_proxy now crl_now m =
        let (e, r) = revoke-crl lower_runes id s ds d c stored found named wired now crl_now true in
        (
          r ∙ rw serial (rw (add-status crl_now n d.subject c)),
          rw
              (
                file_wired (revoke lower_runes now true crl_now true id s).0
                    (CrlStore.add lower_runes crl_now true d.serial_hex d.subject c).0 e,
                file_wired s c wired,
                serial,
              )
              (refuses-add crl_now at n m d.subject p c synced),
        )

    -- The same for `UnRevoke`: the certificate is accepted again and no other answer changes, if the
    -- list's serials are distinct and in canonical form.
    pub unrevoke_reaches_proxy :
        (m : ℕ)
        → Distinct serial_of c.entries
        → All (λ r. IsCanonical r.serial_hex) c.entries
        → proxy_refuses at p (crl_file (unrevoke lower_runes true true id s).0) m
          ≡ (not (n == m) && proxy_refuses at p (crl_file s) m)
    unrevoke_reaches_proxy m e k =
        let (w, r) = unrevoke-crl lower_runes id s ds d c stored found named wired true in
        rw
          (
            file_wired (unrevoke lower_runes true true id s).0
                (CrlStore.remove lower_runes true d.serial_hex c).0 w,
            file_wired s c wired,
            serial,
          )
          (refuses-remove at n m p c synced e k)
