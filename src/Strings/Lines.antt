-- ===== src/Strings/Lines.antt =====
-- Lines of a byte stream: bufio.Reader's ReadString('\n'), and trimming of what a line holds.
use mathlib.Core.List.{reverse-append, reverse-reverse}
use ai_scan_interceptor.Base.{
  ℕ, ◌≤◌, ◌<◌, ◌≡◌, ◌≢◌, refl, ap, sym, Option, none, some, [], ◌∷◌, ◌++◌, reverse, arith, ◌==◌,
  Bytes, All, All-imp, All-reverse, if◌then◌else◌, length,
}
use ai_scan_interceptor.Strings.{trim_from, blank_width, blank_width_rev, trim_space}
use ai_scan_interceptor.Strings.Plain.{IsPlain}

consed : ℕ → Option (Bytes × Bytes) → Option (Bytes × Bytes)
consed c none = none
consed c (some (line, rest)) = some (c ∷ line, rest)

-- `r.ReadString('\n')`: the line with its end, and what follows; or none, with the stream used up
unfoldable pub read_line : Bytes → Option (Bytes × Bytes)
unfolding consed
read_line [] = none
read_line (c ∷ s) = let more = consed c (read_line s) in if c == 10 then some (10 ∷ [], s) else more

rest_of : Option (Bytes × Bytes) → Bytes
rest_of none = []
rest_of (some (line, rest)) = rest

-- `r.ReadString('\n')` with its results dropped
unfoldable pub skip_line : Bytes → Bytes
unfolding read_line rest_of
skip_line s = rest_of (read_line s)

-- the end of a line
abbrev pub crlf : Bytes
crlf = 13 ∷ 10 ∷ []

abbrev pub HasNoNewline : Bytes → Type 0
HasNoNewline = All (λ c. c ≢ 10)

-- a text that begins, and one that begins and ends, with a visible ASCII byte, if it has any
abbrev StartsPlain : Bytes → Type 0
StartsPlain [] = Unit
StartsPlain (c ∷ s) = IsPlain c

abbrev pub IsTrimmed : Bytes → Type 0
IsTrimmed s = StartsPlain s × StartsPlain (reverse s)

-- a text that is not empty and begins with a visible ASCII byte
abbrev pub PlainHead : Bytes → Type 0
PlainHead [] = ⊥
PlainHead (c ∷ s) = IsPlain c

head-StartsPlain : (s : Bytes) → PlainHead s → StartsPlain s
head-StartsPlain [] h = tt
head-StartsPlain (c ∷ s) h = h

pub PlainHead-append : (s t : Bytes) → PlainHead s → PlainHead (s ++ t)
PlainHead-append [] t h = absurd h
PlainHead-append (c ∷ s) t h = h

-- what is trimmed because both its ends are
pub joined-IsTrimmed :
    (s m t : Bytes) → PlainHead s → PlainHead (reverse t) → IsTrimmed (s ++ (m ++ t))
joined-IsTrimmed s m t h k = (
  head-StartsPlain (s ++ (m ++ t)) (PlainHead-append s (m ++ t) h),
  rw (reverse-append s (m ++ t), reverse-append m t)
      (head-StartsPlain ((reverse t ++ reverse m) ++ reverse s) (
        PlainHead-append (reverse t ++ reverse m) (reverse s)
          (PlainHead-append (reverse t) (reverse m) k))),
)

pub read_line-append :
    (s rest : Bytes) → HasNoNewline s → read_line (s ++ (crlf ++ rest)) ≡ some (s ++ crlf, rest)
unfolding read_line consed
read_line-append [] rest h = refl
read_line-append (c ∷ s) rest h = ground (arith, read_line-append s rest h.1)

pub skip_line-crlf : (rest : Bytes) → skip_line (crlf ++ rest) ≡ rest
unfolding skip_line read_line rest_of consed
skip_line-crlf rest = refl

-- a line is at least its end
consed-length :
    (c : ℕ) (o : Option (Bytes × Bytes)) (n : ℕ)
    → length (rest_of o) ≤ n
    → length (rest_of (consed c o)) ≤ n
unfolding rest_of consed
consed-length c none n h = h
consed-length c (some (line, rest)) n h = h

rest_eq :
    (s line rest : Bytes) → read_line s ≡ some (line, rest) → length rest ≡ length (skip_line s)
unfolding skip_line rest_of
rest_eq s line rest e = sym (ap (λ o. length (rest_of o)) e)

skip_line_step :
    (c : ℕ) (s : Bytes) → length (skip_line s) ≤ length s → length (skip_line (c ∷ s)) ≤ length s
unfolding skip_line read_line rest_of
skip_line_step c s h = ground (arith, consed-length c (read_line s) (length s) h)

pub skip_line-le : (s : Bytes) → length (skip_line s) ≤ length s
unfolding skip_line read_line rest_of
skip_line-le [] = omega arith
skip_line-le (c ∷ s) = omega (arith, skip_line_step c s (skip_line-le s))

trim_front : (s : Bytes) → StartsPlain s → trim_from blank_width 0 s ≡ s
unfolding trim_from blank_width
trim_front [] h = refl
trim_front (c ∷ []) h = ground arith
trim_front (c ∷ d ∷ []) h = ground arith
trim_front (c ∷ d ∷ e ∷ s) h = ground arith

trim_back : (s : Bytes) → StartsPlain s → trim_from blank_width_rev 0 s ≡ s
unfolding trim_from blank_width_rev
trim_back [] h = refl
trim_back (c ∷ []) h = ground arith
trim_back (c ∷ d ∷ []) h = ground arith
trim_back (c ∷ d ∷ e ∷ s) h = ground arith

front_blank : (s : Bytes) → StartsPlain s → trim_from blank_width 0 (32 ∷ s) ≡ s
unfolding trim_from blank_width
front_blank [] h = refl
front_blank (c ∷ []) h = trim_front (c ∷ []) h
front_blank (c ∷ d ∷ s) h = trim_front (c ∷ d ∷ s) h

back_return : (s : Bytes) → StartsPlain s → trim_from blank_width_rev 0 (13 ∷ s) ≡ s
unfolding trim_from blank_width_rev
back_return [] h = refl
back_return (c ∷ []) h = trim_back (c ∷ []) h
back_return (c ∷ d ∷ s) h = trim_back (c ∷ d ∷ s) h

back_crlf : (s : Bytes) → StartsPlain s → trim_from blank_width_rev 0 (10 ∷ 13 ∷ s) ≡ s
unfolding trim_from blank_width_rev
back_crlf [] h = refl
back_crlf (c ∷ s) h = back_return (c ∷ s) h

pub trim_space-trimmed : (s : Bytes) → IsTrimmed s → trim_space s ≡ s
unfolding trim_space
trim_space-trimmed s h = rw (trim_front s h.0, trim_back (reverse s) h.1) (reverse-reverse s)

pub trim_space-blank : (s : Bytes) → IsTrimmed s → trim_space (32 ∷ s) ≡ s
unfolding trim_space
trim_space-blank s h = rw (front_blank s h.0, trim_back (reverse s) h.1) (reverse-reverse s)

-- Trimming a line drops its end.
pub trim_space-crlf : (s : Bytes) → IsTrimmed s → trim_space (s ++ crlf) ≡ s
unfolding trim_space trim_from blank_width blank_width_rev
trim_space-crlf [] h = refl
trim_space-crlf (c ∷ s) h =
    rw
      (trim_front (c ∷ s ++ crlf) h.0, reverse-append (c ∷ s) crlf, back_crlf (reverse (c ∷ s)) h.1)
      (reverse-reverse (c ∷ s))

-- A line read leaves less to read.
pub read_line-lt : (s line rest : Bytes) → read_line s ≡ some (line, rest) → length rest < length s
unfolding read_line
read_line-lt [] line rest e = cc
read_line-lt (c ∷ s) line rest e =
    omega (arith, skip_line_step c s (skip_line-le s), rest_eq (c ∷ s) line rest e)

plain-StartsPlain : (s : Bytes) → All IsPlain s → StartsPlain s
plain-StartsPlain [] h = tt
plain-StartsPlain (c ∷ s) h = h.0

pub plain-IsTrimmed : (s : Bytes) → All IsPlain s → IsTrimmed s
plain-IsTrimmed s h =
    (plain-StartsPlain s h, plain-StartsPlain (reverse s) (All-reverse IsPlain s h))

pub plain-HasNoNewline : (s : Bytes) → All IsPlain s → HasNoNewline s
plain-HasNoNewline s = All-imp IsPlain (λ c. c ≢ 10) (λ c h. omega arith) s

pub field-IsTrimmed : (s : Bytes) → PlainHead s → PlainHead (reverse s) → IsTrimmed s
field-IsTrimmed s h k = (head-StartsPlain s h, head-StartsPlain (reverse s) k)
