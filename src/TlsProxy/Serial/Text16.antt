-- ===== src/TlsProxy/Serial/Text16.antt =====
-- `Text(16)` writes a number in canonical form, and no two numbers alike.
use ai_scan_interceptor.Base.{
  ℕ, zero, suc, ◌+◌, ◌-◌, ◌*◌, ◌/◌, ◌%◌, ◌≤◌, ◌<◌, ◌≡◌, ◌≢◌, ◌⊎◌, inl, inr, refl, ap, sym, ◌∙◌, [],
  ◌∷◌, arith, ltb, ◌==◌, Bytes, codes, All, if◌then◌else◌, Bool-cases,
}
use native.Mathlib.Decide.{dec_lt}
use ai_scan_interceptor.TlsProxy.Serial.{hex_digit, digits16, text16}

-- a lowercase hexadecimal digit
abbrev pub IsHexDigit : ℕ → Type 0
IsHexDigit c = ((b'0' ≤ c) × (c ≤ b'9')) ⊎ ((b'a' ≤ c) × (c ≤ b'f'))

digit_value : ℕ → ℕ
digit_value c = if ltb c b'a' then c - b'0' else c - b'a' + 10

-- the number that digits spell behind `v`
value16 : ℕ → Bytes → ℕ
value16 v [] = v
value16 v (c ∷ s) = value16 (v * 16 + digit_value c) s

value-digit : (d : ℕ) → d < 16 → digit_value (hex_digit d) ≡ d
unfolding digit_value hex_digit
value-digit d h = ground arith

hex_digit-IsHexDigit : (d : ℕ) → d < 16 → IsHexDigit (hex_digit d)
unfolding hex_digit
hex_digit-IsHexDigit d h = ground arith

last_digit : (n : ℕ) → n / 16 * 16 + digit_value (hex_digit (n % 16)) ≡ n
last_digit n = omega (arith, value-digit (n % 16) (omega arith))

value_step : (n : ℕ) (acc : Bytes) → value16 (n / 16) (hex_digit (n % 16) ∷ acc) ≡ value16 n acc
unfolding value16
value_step n acc = ap (λ m. value16 m acc) (last_digit n)

value-digits16 : (f n : ℕ) (acc : Bytes) → n ≤ f → value16 0 (digits16 f n acc) ≡ value16 n acc
unfolding digits16
value-digits16 zero n acc h = ap (λ m. value16 m acc) (omega arith)
value-digits16 (suc f) n acc h =
    ground (arith, value-digits16 f (n / 16) (hex_digit (n % 16) ∷ acc), value_step n acc)

value-text16 : (n : ℕ) → value16 0 (text16 n) ≡ n
unfolding text16 value16 digit_value
value-text16 n = ground (arith, value-digits16 n n [])

-- Two serials with the same text are the same serial.
pub text16_injective : (m n : ℕ) → text16 m ≡ text16 n → m ≡ n
text16_injective m n e = sym (value-text16 m) ∙ ap (value16 0) e ∙ value-text16 n

digits16-All : (f n : ℕ) (acc : Bytes) → All IsHexDigit acc → All IsHexDigit (digits16 f n acc)
unfolding digits16
digits16-All zero n acc h = h
digits16-All (suc f) n acc h = ground (
  arith,
  digits16-All f (n / 16) (hex_digit (n % 16) ∷ acc),
  hex_digit-IsHexDigit (n % 16) (omega arith),
)

pub text16-All : (n : ℕ) → All IsHexDigit (text16 n)
unfolding text16
text16-All n = ground (arith, digits16-All n n [])

-- no digit 0 in front
abbrev pub IsStripped : Bytes → Type 0
IsStripped [] = ⊥
IsStripped (c ∷ s) = c ≢ b'0'

digits16_step :
    (f n : ℕ) (acc : Bytes)
    → 0 < n
    → digits16 (suc f) n acc ≡ digits16 f (n / 16) (hex_digit (n % 16) ∷ acc)
unfolding digits16
digits16_step f n acc h = ground arith

quotient_zero : (n : ℕ) → n < 16 → n / 16 ≡ 0
quotient_zero n h = omega arith

digits16-zero : (f : ℕ) (acc : Bytes) → digits16 f 0 acc ≡ acc
unfolding digits16
digits16-zero zero acc = refl
digits16-zero (suc f) acc = refl

last-IsStripped : (n : ℕ) (acc : Bytes) → 0 < n → n < 16 → IsStripped (hex_digit (n % 16) ∷ acc)
unfolding hex_digit
last-IsStripped n acc h k = ground arith

digits16-IsStripped : (f n : ℕ) (acc : Bytes) → 0 < n → n ≤ f → IsStripped (digits16 f n acc)
digits16-IsStripped zero n acc h k = absurd (omega arith)
digits16-IsStripped (suc f) n acc h k = rw (digits16_step f n acc h) (elim (dec_lt n 16) [
  | yes small ↦ rw (quotient_zero n small, digits16-zero) (last-IsStripped n acc h small)
  | no large ↦ digits16-IsStripped f (n / 16) _ (omega arith) (omega arith)
])

pub text16_shape : (n : ℕ) → (text16 n ≡ codes "0") ⊎ IsStripped (text16 n)
unfolding text16
text16_shape n = elim (Bool-cases (n == 0)) [
  | inl e ↦ inl (rw e)
  | inr e ↦ inr (rw e (digits16-IsStripped n n [] (ground arith) (omega arith)))
]
