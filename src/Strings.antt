-- ===== src/Strings.antt =====
-- What the program uses of Go's package `strings`, over byte sequences. An index of -1 is `none`.
-- `to_lower` follows the library: bytes for ASCII text, else the library's mapping of code points,
-- which is the argument `lower_runes`.
pub mod Plain
pub mod Numbers
pub mod Lines
pub mod Places
pub mod Blank
use ai_scan_interceptor.Base.{
  ℕ, zero, suc, ◌+◌, ◌-◌, ◌≡◌, refl, Bool, true, false, ◌&&◌, ◌||◌, Option, none, some, List, [],
  ◌∷◌, ◌++◌, map, reverse, arith, ltb, leb, ◌==◌, if◌then◌else◌, Bytes, codes, same, length, take,
  drop, any, all, is_some,
}
use mathlib.Core.Option

-- strings.HasPrefix(s, p)
unfoldable pub has_prefix : Bytes → Bytes → Bool
has_prefix s [] = true
has_prefix [] (d ∷ p) = false
has_prefix (c ∷ s) (d ∷ p) = c == d && has_prefix s p

-- strings.HasSuffix(s, t)
unfoldable pub has_suffix : Bytes → Bytes → Bool
unfolding same
has_suffix s t = leb (length t) (length s) && same (drop (length s - length t) s) t

-- strings.TrimPrefix(s, p)
unfoldable pub trim_prefix : Bytes → Bytes → Bytes
unfolding has_prefix
trim_prefix s p = if has_prefix s p then drop (length p) s else s

-- strings.CutPrefix(s, p)
unfoldable pub cut_prefix : Bytes → Bytes → Option Bytes
unfolding has_prefix
cut_prefix s p = if has_prefix s p then some (drop (length p) s) else none

-- strings.Index(s, t)
unfoldable pub index : Bytes → Bytes → Option ℕ
unfolding has_prefix
index [] t = if has_prefix [] t then some 0 else none
index (c ∷ s) t = if has_prefix (c ∷ s) t then some 0 else Option.map suc (index s t)

-- strings.LastIndex(s, t)
unfoldable pub last_index : Bytes → Bytes → Option ℕ
unfolding has_prefix
last_index [] t = if has_prefix [] t then some 0 else none
last_index (c ∷ s) t = elim (last_index s t) [
  | some i ↦ some (suc i)
  | none ↦ if has_prefix (c ∷ s) t then some 0 else none
]

-- strings.Contains(s, t)
unfoldable pub contains : Bytes → Bytes → Bool
unfolding index
contains s t = is_some (index s t)

-- strings.IndexByte(s, b)
unfoldable pub index_byte : Bytes → ℕ → Option ℕ
index_byte [] b = none
index_byte (c ∷ s) b = if c == b then some 0 else Option.map suc (index_byte s b)

-- strings.LastIndexByte(s, b)
unfoldable pub last_index_byte : Bytes → ℕ → Option ℕ
last_index_byte [] b = none
last_index_byte (c ∷ s) b = elim (last_index_byte s b) [
  | some i ↦ some (suc i)
  | none ↦ if c == b then some 0 else none
]

-- strings.ReplaceAll(s, string(b), "")
unfoldable pub without_byte : ℕ → Bytes → Bytes
without_byte b [] = []
without_byte b (c ∷ s) = let rest = without_byte b s in if c == b then rest else c ∷ rest

-- strings.TrimLeft(s, string(b))
unfoldable pub trim_left_byte : ℕ → Bytes → Bytes
trim_left_byte b [] = []
trim_left_byte b (c ∷ s) = if c == b then trim_left_byte b s else c ∷ s

-- The width in bytes of the blank that a text begins with, 0 if it begins with none. The blanks are
-- Unicode's: six ASCII bytes, U+0085, U+00A0, U+1680, U+2000 to U+200A, U+2028, U+2029, U+202F,
-- U+205F and U+3000.
is_ascii_blank : ℕ → Bool
is_ascii_blank c = (leb 9 c && leb c 13) || c == 32

is_blank2 : ℕ → ℕ → Bool
is_blank2 c d = c == 0xC2 && (d == 0x85 || d == 0xA0)

is_blank3 : ℕ → ℕ → ℕ → Bool
is_blank3 c d e =
    (c == 0xE1 && d == 0x9A && e == 0x80)
    || (c == 0xE2
        && ((d == 0x80 && ((leb 0x80 e && leb e 0x8A) || e == 0xA8 || e == 0xA9 || e == 0xAF))
            || (d == 0x81 && e == 0x9F)))
    || (c == 0xE3 && d == 0x80 && e == 0x80)

blank_width : Bytes → ℕ
unfolding is_ascii_blank is_blank2 is_blank3
blank_width [] = 0
blank_width (c ∷ []) = if is_ascii_blank c then 1 else 0
blank_width (c ∷ d ∷ []) = if is_ascii_blank c then 1 else if is_blank2 c d then 2 else 0
blank_width (c ∷ d ∷ e ∷ s) =
    if is_ascii_blank c then 1 else if is_blank2 c d then 2 else if is_blank3 c d e then 3 else 0

-- the same of a reversed text
blank_width_rev : Bytes → ℕ
unfolding is_ascii_blank is_blank2 is_blank3
blank_width_rev [] = 0
blank_width_rev (c ∷ []) = if is_ascii_blank c then 1 else 0
blank_width_rev (d ∷ c ∷ []) = if is_ascii_blank d then 1 else if is_blank2 c d then 2 else 0
blank_width_rev (e ∷ d ∷ c ∷ s) =
    if is_ascii_blank e then 1 else if is_blank2 d e then 2 else if is_blank3 c d e then 3 else 0

-- skips `n` bytes, then the blanks that follow
trim_from : (Bytes → ℕ) → ℕ → Bytes → Bytes
trim_from width n [] = []
trim_from width (suc n) (c ∷ s) = trim_from width n s
trim_from width zero (c ∷ s) =
    let w = width (c ∷ s) in let rest = trim_from width (w - 1) s in if w == 0 then c ∷ s else rest

-- strings.TrimSpace(s)
unfoldable pub trim_space : Bytes → Bytes
unfolding trim_from blank_width blank_width_rev
trim_space s = reverse (trim_from blank_width_rev 0 (reverse (trim_from blank_width 0 s)))

-- strings.ToLower(s)
unfoldable pub lower_byte : ℕ → ℕ
lower_byte c = if leb b'A' c && leb c b'Z' then c + 32 else c

unfoldable pub to_lower : (Bytes → Bytes) → Bytes → Bytes
unfolding lower_byte
to_lower lower_runes s = if all (λ c. ltb c 128) s then map lower_byte s else lower_runes s

unfoldable pub cut_at : Bytes → Option ℕ → Bytes
cut_at s none = s
cut_at s (some i) = take i s

-- the part before the last byte `b`, or all: `if idx := LastIndexByte(s, b); idx >= 0 { s = s[:idx] }`
unfoldable pub before_last : Bytes → ℕ → Bytes
unfolding last_index_byte cut_at
before_last s b = cut_at s (last_index_byte s b)

-- strings.Split(s, string(b)): the parts between the bytes `b`, at least one
unfoldable pub split_at : ℕ → Bytes → Bytes → List Bytes
split_at b [] cur = cur ∷ []
split_at b (c ∷ s) cur =
    let cut = cur ∷ split_at b s [] in
    let more = split_at b s (cur ++ c ∷ []) in if c == b then cut else more

unfoldable pub split : Bytes → ℕ → List Bytes
unfolding split_at
split s b = split_at b s []

-- strings.SplitN(s, string(b), n) for n = 2 and n = 3
split2_at : Bytes → Option ℕ → List Bytes
split2_at s none = s ∷ []
split2_at s (some i) = take i s ∷ drop (suc i) s ∷ []

unfoldable pub split2 : Bytes → ℕ → List Bytes
unfolding split2_at index_byte
split2 s b = split2_at s (index_byte s b)

split3_at : Bytes → ℕ → Option ℕ → List Bytes
unfolding split2
split3_at s b none = s ∷ []
split3_at s b (some i) = take i s ∷ split2 (drop (suc i) s) b

unfoldable pub split3 : Bytes → ℕ → List Bytes
unfolding split3_at index_byte
split3 s b = split3_at s b (index_byte s b)

-- strings.Join(parts, sep)
unfoldable pub join : List Bytes → Bytes → Bytes
join [] sep = []
join (p ∷ []) sep = p
join (p ∷ q ∷ ps) sep = p ++ (sep ++ join (q ∷ ps) sep)
