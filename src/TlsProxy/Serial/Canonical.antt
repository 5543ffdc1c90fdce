-- ===== src/TlsProxy/Serial/Canonical.antt =====
-- What `normalizeSerialHex` returns: a canonical text, and the text of a serial as it is.
use ai_scan_interceptor.Base.{
  ℕ, ◌<◌, ◌≡◌, ◌≢◌, ◌⊎◌, inl, inr, refl, ap, sym, ◌∙◌, true, false, [], ◌∷◌, arith, ltb, Bytes,
  codes, same, same_iff, All, All-imp, all, Bool-cases, map,
}
use ai_scan_interceptor.Strings.{
  trim_space, trim_prefix, without_byte, trim_left_byte, to_lower, lower_byte,
}
use ai_scan_interceptor.Strings.Plain.{
  IsPlain, IsLower, without_byte-none, trim_space-plain, to_lower-plain,
}
use ai_scan_interceptor.TlsProxy.Serial.{
  is_hex, pad_even_len, hex_decodes, strip_separators, strip_zeros, normalize_serial_hex, text16,
}
use ai_scan_interceptor.TlsProxy.Serial.Text16.{IsHexDigit, IsStripped, text16-All, text16_shape}

pub hex-IsPlain : (c : ℕ) → IsHexDigit c → IsPlain c
hex-IsPlain c h = omega arith

pub hex-IsLower : (c : ℕ) → IsHexDigit c → IsLower c
hex-IsLower c h = omega arith

pub hex_ne : (b : ℕ) → b < b'0' → (c : ℕ) → IsHexDigit c → c ≢ b
hex_ne b k c h = omega arith

pub hex_ne_colon : (c : ℕ) → IsHexDigit c → c ≢ b':'
hex_ne_colon c h = omega arith

-- A text of hexadecimal digits begins with neither `0x` nor `0X`.
pub no_prefix :
    (x : ℕ) (s : Bytes)
    → b'f' < x ⊎ (x ≡ b'X')
    → All IsHexDigit s
    → trim_prefix s (b'0' ∷ x ∷ []) ≡ s
unfolding trim_prefix
no_prefix x [] k h = refl
no_prefix x (c ∷ []) k h = ground arith
no_prefix x (c ∷ d ∷ s) k h = ground arith

strip_separators-hex : (s : Bytes) → All IsHexDigit s → strip_separators s ≡ s
unfolding strip_separators
strip_separators-hex s h = rw (
  trim_space-plain s (All-imp _ _ hex-IsPlain s h),
  no_prefix b'x' s (inl (omega arith)) h,
  no_prefix b'X' s (inr refl) h,
  without_byte-none b':' s (All-imp _ _ hex_ne_colon s h),
  without_byte-none b'-' s (All-imp _ _ (hex_ne b'-' (omega arith)) s h),
  without_byte-none b' ' s (All-imp _ _ (hex_ne b' ' (omega arith)) s h),
)

all_hex : (s : Bytes) → All IsHexDigit s → all is_hex s ≡ true
unfolding is_hex
all_hex [] h = refl
all_hex (c ∷ s) h = ground (arith, all_hex s h.1)

pad-decodes : (s : Bytes) → All IsHexDigit s → hex_decodes (pad_even_len s) ≡ true
unfolding hex_decodes pad_even_len
pad-decodes s h = ground (arith, all_hex s h)

strip_zeros-zero : strip_zeros (codes "0") ≡ codes "0"
unfolding strip_zeros trim_left_byte same
strip_zeros-zero = refl

strip_zeros-stripped : (s : Bytes) → IsStripped s → strip_zeros s ≡ s
unfolding strip_zeros trim_left_byte same
strip_zeros-stripped [] h = elim h [ ]
strip_zeros-stripped (c ∷ s) h = ground arith

strip_zeros-canonical : (s : Bytes) → (s ≡ codes "0") ⊎ IsStripped s → strip_zeros s ≡ s
strip_zeros-canonical s (inl e) = ap strip_zeros e ∙ strip_zeros-zero ∙ sym e
strip_zeros-canonical s (inr h) = strip_zeros-stripped s h

nonempty : (s : Bytes) → (s ≡ codes "0") ⊎ IsStripped s → same s [] ≡ false
unfolding same
nonempty [] (inl e) = cc
nonempty [] (inr h) = elim h [ ]
nonempty (c ∷ s) h = refl

-- The canonical texts: hexadecimal digits in lower case, with no leading zero but in "0".
abbrev pub IsCanonical : Bytes → Type 0
IsCanonical s = All IsHexDigit s × ((s ≡ codes "0") ⊎ IsStripped s)

trim_zeros-All : (s : Bytes) → All IsHexDigit s → All IsHexDigit (trim_left_byte b'0' s)
unfolding trim_left_byte
trim_zeros-All [] h = tt
trim_zeros-All (c ∷ s) h = ground (arith, trim_zeros-All s h.1)

trim_zeros-shape : (s : Bytes) → (trim_left_byte b'0' s ≡ []) ⊎ IsStripped (trim_left_byte b'0' s)
unfolding trim_left_byte
trim_zeros-shape [] = inl refl
trim_zeros-shape (c ∷ s) = ground (arith, trim_zeros-shape s)

strip_zeros-IsCanonical : (s : Bytes) → All IsHexDigit s → IsCanonical (strip_zeros s)
unfolding strip_zeros
strip_zeros-IsCanonical s h = elim (Bool-cases (same (trim_left_byte b'0' s) [])) [
  | inl e ↦ rw e (omega arith, inl refl)
  | inr e ↦ rw e (
    trim_zeros-All s h,
    elim (trim_zeros-shape s) [ inl z ↦ absurd (empty_ne _ z e) | inr z ↦ inr z ],
  )
]
  where
    empty_ne : (t : Bytes) → t ≡ [] → same t [] ≢ false
    empty_ne t z e = cc ((same_iff t []).1 z)

lower_digits : (c : ℕ) → is_hex c ≡ true → IsHexDigit (lower_byte c)
unfolding is_hex lower_byte
lower_digits c h = ground arith

hex_ascii : (s : Bytes) → all is_hex s ≡ true → all (λ c. ltb c 128) s ≡ true
unfolding is_hex
hex_ascii [] h = refl
hex_ascii (c ∷ s) h = ground (arith, hex_ascii s)

map-lower-All : (s : Bytes) → all is_hex s ≡ true → All IsHexDigit (map lower_byte s)
map-lower-All [] h = tt
map-lower-All (c ∷ s) h = ground (arith, map-lower-All s, lower_digits c)

decodes_all : (s : Bytes) → hex_decodes (pad_even_len s) ≡ true → all is_hex s ≡ true
unfolding hex_decodes pad_even_len
decodes_all s h = ground arith

module _ (lower_runes : Bytes → Bytes) where
  -- A canonical text is its own normal form.
  pub normalize-canonical :
      (s : Bytes)
      → All IsHexDigit s
      → (s ≡ codes "0") ⊎ IsStripped s
      → normalize_serial_hex lower_runes s ≡ s
  unfolding normalize_serial_hex
  normalize-canonical s h k =
      rw
        (
          strip_separators-hex s h,
          nonempty s k,
          pad-decodes s h,
          to_lower-plain lower_runes s (All-imp _ _ hex-IsLower s h),
        )
        (strip_zeros-canonical s k)

  to_lower-hex : (s : Bytes) → all is_hex s ≡ true → All IsHexDigit (to_lower lower_runes s)
  unfolding to_lower
  to_lower-hex s h = rw (hex_ascii s h) (map-lower-All s h)

  -- Whatever the text, the normal form is empty or canonical.
  pub normalize-IsCanonical :
      (s : Bytes)
      → (normalize_serial_hex lower_runes s ≡ []) ⊎ IsCanonical (normalize_serial_hex lower_runes s)
  unfolding normalize_serial_hex
  normalize-IsCanonical s = elim (Bool-cases (same (strip_separators s) [])) [
    | inl e ↦ inl (rw e)
    | inr e ↦ rw e (elim (Bool-cases (hex_decodes (pad_even_len (strip_separators s)))) [
      | inl d ↦ rw d (
          inr (
            strip_zeros-IsCanonical (to_lower lower_runes (strip_separators s))
              (to_lower-hex (strip_separators s) (decodes_all (strip_separators s) d))))
      | inr d ↦ inl (rw d)
    ])
  ]

  normalize-nil : normalize_serial_hex lower_runes [] ≡ []
  unfolding normalize_serial_hex strip_separators same without_byte trim_prefix trim_space
  normalize-nil = refl

  -- Normalising twice is normalising once.
  pub normalize_idem :
      (s : Bytes)
      → normalize_serial_hex lower_runes (normalize_serial_hex lower_runes s)
        ≡ normalize_serial_hex lower_runes s
  normalize_idem s = elim (normalize-IsCanonical s) [
    | inl e ↦ rw e normalize-nil
    | inr c ↦ normalize-canonical _ c.0 c.1
  ]

  pub normalize-text16 : (n : ℕ) → normalize_serial_hex lower_runes (text16 n) ≡ text16 n
  normalize-text16 n = normalize-canonical (text16 n) (text16-All n) (text16_shape n)

pub text16-nonempty : (n : ℕ) → same (text16 n) [] ≡ false
text16-nonempty n = nonempty (text16 n) (text16_shape n)
