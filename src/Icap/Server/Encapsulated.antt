-- ===== src/Icap/Server/Encapsulated.antt =====
-- What `parseEncapsulated` reads from the header of a REQMOD message.
use mathlib.Core.List.{append_assoc, append-nil, reverse-append, reverse-reverse}
use ai_scan_interceptor.Base.{
  ℕ, ◌^◌, ◌<◌, ◌≡◌, ◌≢◌, refl, ap, sym, ◌∙◌, inl, true, [], ◌∷◌, ◌++◌, reverse, All-reverse, arith,
  Bytes, codes, same, All, All-imp, All-append, pos,
}
use ai_scan_interceptor.Strings.{trim_space, split, split_at, split2, index_byte}
use ai_scan_interceptor.Strings.Plain.{IsPlain, trim_space-plain}
use ai_scan_interceptor.Strings.Numbers.{IsDigit, text, text-All, text-ne_nil, atoi_value-text}
use ai_scan_interceptor.Strings.Lines.{
  trim_space-blank, plain-IsTrimmed, PlainHead, PlainHead-append, HasNoNewline, plain-HasNoNewline,
}
use ai_scan_interceptor.Icap.Server.{
  parse_encapsulated, encapsulated_parts, encapsulated_pair, encapsulated_value,
}

-- the value of the header for `n` bytes of headers and a body, and for a message without a body
abbrev pub encapsulated_body : ℕ → Bytes
encapsulated_body n = codes "req-hdr=0, req-body=" ++ text 10 n

plain-PlainHead : (s : Bytes) → All IsPlain s → s ≢ [] → PlainHead s
plain-PlainHead [] h ne = absurd (ne refl)
plain-PlainHead (c ∷ s) h ne = h.0

reverse-ne_nil : (s : Bytes) → s ≢ [] → reverse s ≢ []
reverse-ne_nil s ne e = ne (sym (reverse-reverse s) ∙ ap reverse e)

-- without a separator, the last part is what was gathered
split_at-none : (b : ℕ) (s cur : Bytes) → All (λ c. c ≢ b) s → split_at b s cur ≡ (cur ++ s) ∷ []
unfolding split_at
split_at-none b [] cur h = ap (λ x. x ∷ []) (sym (append-nil cur))
split_at-none b (c ∷ s) cur h =
    ground (arith, split_at-none b s (cur ++ c ∷ []) h.1, append_assoc cur (c ∷ []) s)

digits_lack : (b : ℕ) (n : ℕ) → (b < b'0') → All (λ c. c ≢ b) (text 10 n)
digits_lack b n h =
    All-imp IsDigit (λ c. c ≢ b) (λ c k. ground arith) (text 10 n) (text-All 10 n (inl refl))

digits-IsPlain : (n : ℕ) → All IsPlain (text 10 n)
digits-IsPlain n =
    All-imp IsDigit IsPlain (λ c k. ground arith) (text 10 n) (text-All 10 n (inl refl))

body_part : (n : ℕ) → All IsPlain (codes "req-body=" ++ text 10 n)
body_part n = All-append IsPlain (codes "req-body=") (text 10 n) (ground arith) (digits-IsPlain n)

trim_part : (n : ℕ) → trim_space (codes " req-body=" ++ text 10 n) ≡ codes "req-body=" ++ text 10 n
trim_part n =
    trim_space-blank (codes "req-body=" ++ text 10 n)
      (plain-IsTrimmed (codes "req-body=" ++ text 10 n) (body_part n))

split_body :
    (n : ℕ)
    → split (encapsulated_body n) b',' ≡ codes "req-hdr=0" ∷ (codes " req-body=" ++ text 10 n) ∷ []
unfolding split split_at
split_body n =
    rw (split_at-none b',' (text 10 n) (codes " req-body=") (digits_lack b',' n (omega arith))) refl

pub parse_encapsulated-body :
    (n : ℕ) → n < 2 ^ 63 → parse_encapsulated (encapsulated_body n) ≡ (pos n, true)
unfolding parse_encapsulated encapsulated_parts encapsulated_pair encapsulated_value split2
    index_byte same trim_space
parse_encapsulated-body n h =
    rw
      (
        split_body n,
        trim_part n,
        trim_space-plain (text 10 n) (digits-IsPlain n),
        atoi_value-text n h,
      )
      refl

pub encapsulated_body-no_newline : (n : ℕ) → HasNoNewline (encapsulated_body n)
encapsulated_body-no_newline n =
    All-append (λ c. c ≢ 10) (codes "req-hdr=0, req-body=") (text 10 n) (ground arith)
      (plain-HasNoNewline (text 10 n) (digits-IsPlain n))

pub encapsulated_body-last : (n : ℕ) → n < 2 ^ 63 → PlainHead (reverse (encapsulated_body n))
encapsulated_body-last n h = rw (reverse-append (codes "req-hdr=0, req-body=") (text 10 n)) (
    PlainHead-append (reverse (text 10 n)) (reverse (codes "req-hdr=0, req-body=")) (
      plain-PlainHead (reverse (text 10 n)) (All-reverse IsPlain (text 10 n) (digits-IsPlain n))
        (reverse-ne_nil (text 10 n) (text-ne_nil 10 n (inl refl) (omega arith)))))
