-- ===== src/Strings/Numbers.antt =====
-- Numbers as text: strconv.ParseInt(s, base, 64) and strconv.Atoi of Go's library, and the verbs %d
-- and %x of a natural number.
use mathlib.Core.Logic.{◌⊎◌, inl, inr}
use mathlib.Core.List.{cons-ne-nil}
use ai_scan_interceptor.Base.{
  ℕ, zero, suc, ◌+◌, ◌-◌, ◌*◌, ◌/◌, ◌%◌, ◌^◌, ◌≤◌, ◌<◌, ◌≡◌, ◌≢◌, refl, ap, sym, ◌∙◌, Bool, true,
  false, ◌&&◌, [], ◌∷◌, arith, ltb, leb, ◌==◌, Bool-cases, Bytes, codes, All, if◌then◌else◌, ℤ, pos,
  negsuc,
}

-- a digit's value, or one too large for any base
digit_value : ℕ → ℕ
digit_value c =
    if leb b'0' c && leb c b'9'
    then c - b'0'
    else if leb b'a' c && leb c b'z'
    then c - b'a' + 10
    else if leb b'A' c && leb c b'Z'
    then c - b'A' + 10
    else 255

-- what ParseUint makes of the digits
pub data Unsigned : Type 0 where
  bad_syntax out_of_range : Unsigned
  magnitude : ℕ → Unsigned

-- the loop of ParseUint, which stops at the first digit that is bad or leads past 64 bits
unfoldable pub digits_value : ℕ → ℕ → Bytes → Unsigned
unfolding digit_value
digits_value base v [] = magnitude v
digits_value base v (c ∷ s) =
    let rest = digits_value base (v * base + digit_value c) s in
    if leb base (digit_value c)
    then bad_syntax
    else if leb (2 ^ 64) (v * base + digit_value c)
    then out_of_range
    else rest

unfoldable pub parse_uint : ℕ → Bytes → Unsigned
unfolding digits_value
parse_uint base [] = bad_syntax
parse_uint base (c ∷ s) = digits_value base 0 (c ∷ s)

-- the number and the error of ParseInt
pub data ParsedInt : Type 0 where
  not_a_number : ParsedInt
  clamped parsed : ℤ → ParsedInt

abbrev pub negative : ℕ → ℤ
negative zero = pos 0
negative (suc n) = negsuc n

signed : Bool → Unsigned → ParsedInt
signed neg bad_syntax = not_a_number
signed false out_of_range = clamped (pos (2 ^ 63 - 1))
signed true out_of_range = clamped (negative (2 ^ 63))
signed false (magnitude v) = if leb (2 ^ 63) v then clamped (pos (2 ^ 63 - 1)) else parsed (pos v)
signed true (magnitude v) =
    if ltb (2 ^ 63) v then clamped (negative (2 ^ 63)) else parsed (negative v)

-- strconv.ParseInt(s, base, 64)
unfoldable pub parse_int : ℕ → Bytes → ParsedInt
unfolding signed parse_uint
parse_int base [] = not_a_number
parse_int base (c ∷ s) =
    if c == b'-'
    then signed true (parse_uint base s)
    else if c == b'+'
    then signed false (parse_uint base s)
    else signed false (parse_uint base (c ∷ s))

-- the first result of strconv.Atoi, whatever its error
unfoldable pub value_of : ParsedInt → ℤ
value_of not_a_number = pos 0
value_of (clamped z) = z
value_of (parsed z) = z

unfoldable pub atoi_value : Bytes → ℤ
unfolding parse_int value_of
atoi_value s = value_of (parse_int 10 s)

digit_char : ℕ → ℕ
digit_char d = if ltb d 10 then b'0' + d else b'a' + (d - 10)

-- the digits of `n` before `acc`; the fuel `n` is enough, as each round divides `n`
digits_from : ℕ → ℕ → ℕ → Bytes → Bytes
unfolding digit_char
digits_from base zero n acc = acc
digits_from base (suc f) n acc =
    let rest = digits_from base f (n / base) (digit_char (n % base) ∷ acc) in
    if n == 0 then acc else rest

-- %d for base 10 and %x for base 16
unfoldable pub text : ℕ → ℕ → Bytes
unfolding digits_from
text base n = if n == 0 then codes "0" else digits_from base n n []

-- the two bases in use
abbrev pub IsBase : ℕ → Type 0
IsBase base = (base ≡ 10) ⊎ (base ≡ 16)

-- a character that begins and ends the text of a number
abbrev pub IsDigit : ℕ → Type 0
IsDigit c = ((b'0' ≤ c) × (c ≤ b'9')) ⊎ ((b'a' ≤ c) × (c ≤ b'f'))

value-char : (d : ℕ) → d < 16 → digit_value (digit_char d) ≡ d
unfolding digit_value digit_char
value-char d h = ground arith

char-IsDigit : (d : ℕ) → d < 16 → IsDigit (digit_char d)
unfolding digit_char
char-IsDigit d h = ground arith

remainder_lt : (base n : ℕ) → IsBase base → (n % base < base) × (n % base < 16)
remainder_lt base n (inl e) = rw e (omega arith, omega arith)
remainder_lt base n (inr e) = rw e (omega arith, omega arith)

recombine : (base n : ℕ) → IsBase base → n / base * base + n % base ≡ n
recombine base n (inl e) = rw e (omega arith)
recombine base n (inr e) = rw e (omega arith)

quotient_le : (base n f : ℕ) → IsBase base → n ≤ suc f → n / base ≤ f
quotient_le base n f (inl e) h = rw e (omega arith)
quotient_le base n f (inr e) h = rw e (omega arith)

value_step :
    (base n : ℕ) (acc : Bytes)
    → IsBase base
    → n < 2 ^ 64
    → digits_value base (n / base) (digit_char (n % base) ∷ acc) ≡ digits_value base n acc
unfolding digits_value
value_step base n acc b h =
    let r = remainder_lt base n b in
    rw (value-char (n % base) r.1, recombine base n b) (ground (arith, r.0))

value-digits :
    (base f n : ℕ) (acc : Bytes)
    → IsBase base
    → n ≤ f
    → n < 2 ^ 64
    → digits_value base 0 (digits_from base f n acc) ≡ digits_value base n acc
unfolding digits_from
value-digits base zero n acc b h k = ap (λ m. digits_value base m acc) (omega arith)
value-digits base (suc f) n acc b h k = ground (
  arith,
  value-digits base f (n / base) (digit_char (n % base) ∷ acc) b (quotient_le base n f b h),
  value_step base n acc b k,
  recombine base n b,
)

digits_from-All :
    (base f n : ℕ) (acc : Bytes)
    → IsBase base
    → All IsDigit acc
    → All IsDigit (digits_from base f n acc)
unfolding digits_from
digits_from-All base zero n acc b h = h
digits_from-All base (suc f) n acc b h = ground (
  arith,
  digits_from-All base f (n / base) (digit_char (n % base) ∷ acc) b,
  char-IsDigit (n % base) (remainder_lt base n b).1,
)

pub text-All : (base n : ℕ) → IsBase base → All IsDigit (text base n)
unfolding text
text-All base n b = ground (arith, digits_from-All base n n [] b tt)

text-value :
    (base n : ℕ) → IsBase base → n < 2 ^ 64 → digits_value base 0 (text base n) ≡ magnitude n
unfolding text digits_value digit_value
text-value base n b h = elim (Bool-cases (n == 0)) [
  | inl e ↦ elim b [
    | inl ten ↦ rw (ten, e) (ground arith)
    | inr sixteen ↦ rw (sixteen, e) (ground arith)
  ]
  | inr e ↦ rw e (value-digits base n n [] b (omega arith) h)
]

magnitude_of : Unsigned → ℕ
magnitude_of bad_syntax = 0
magnitude_of out_of_range = 0
magnitude_of (magnitude v) = v

text-zero : (base : ℕ) → text base 0 ≡ codes "0"
unfolding text
text-zero base = refl

pub text-ne_nil : (base n : ℕ) → IsBase base → n < 2 ^ 64 → text base n ≢ []
unfolding digits_value magnitude_of
text-ne_nil base n b h e =
    let v : 0 ≡ n = ap magnitude_of (ap (digits_value base 0) (sym e) ∙ text-value base n b h) in
    cons-ne-nil b'0' [] (sym (text-zero base) ∙ ap (text base) v ∙ e)

parse_uint-digits : (base : ℕ) (s : Bytes) → s ≢ [] → parse_uint base s ≡ digits_value base 0 s
unfolding parse_uint
parse_uint-digits base [] ne = absurd (ne refl)
parse_uint-digits base (c ∷ s) ne = refl

-- the text of a number begins with a digit, so it has no sign
parse_int-digits :
    (base : ℕ) (s : Bytes)
    → All IsDigit s
    → s ≢ []
    → parse_int base s ≡ signed false (digits_value base 0 s)
unfolding parse_int parse_uint
parse_int-digits base [] h ne = absurd (ne refl)
parse_int-digits base (c ∷ s) h ne = ground (arith, h.0)

-- A printed number is read back.
pub parse_int-text :
    (base n : ℕ) → IsBase base → n < 2 ^ 63 → parse_int base (text base n) ≡ parsed (pos n)
unfolding signed
parse_int-text base n b h =
    rw
      (
        parse_int-digits base (text base n) (text-All base n b)
            (text-ne_nil base n b (omega arith)),
        text-value base n b (omega arith),
      )
      (ground arith)

pub atoi_value-text : (n : ℕ) → n < 2 ^ 63 → atoi_value (text 10 n) ≡ pos n
unfolding atoi_value value_of
atoi_value-text n h = rw (parse_int-text 10 n (inl refl) h) refl

pub parse_int-minus :
    (base n : ℕ)
    → IsBase base
    → n < 2 ^ 63
    → parse_int base (b'-' ∷ text base n) ≡ parsed (negative n)
unfolding parse_int signed
parse_int-minus base n b h =
    rw
      (
        parse_uint-digits base (text base n) (text-ne_nil base n b (omega arith)),
        text-value base n b (omega arith),
      )
      (ground arith)
