-- ===== src/Strings/Plain.antt =====
-- The functions of `Strings` on plain text: visible ASCII bytes, as in identifiers and serials.
use mathlib.Core.List.{reverse-reverse}
use ai_scan_interceptor.Base.{
  ℕ, ◌≤◌, ◌<◌, ◌≡◌, ◌≢◌, ◌⊎◌, refl, true, [], ◌∷◌, map, reverse, arith, ltb, Bytes, All,
  All-reverse, all,
}
use ai_scan_interceptor.Strings.{
  without_byte, trim_from, blank_width, blank_width_rev, trim_space, to_lower, lower_byte,
}

-- visible ASCII
abbrev pub IsPlain : ℕ → Type 0
IsPlain c = (33 ≤ c) × (c < 127)

-- visible ASCII, and no capital letter
abbrev pub IsLower : ℕ → Type 0
IsLower c = (33 ≤ c) × (c < 127) × ((c < b'A') ⊎ (b'Z' < c))

pub without_byte-none : (b : ℕ) (s : Bytes) → All (λ c. c ≢ b) s → without_byte b s ≡ s
unfolding without_byte
without_byte-none b [] h = refl
without_byte-none b (c ∷ s) h = ground (arith, without_byte-none b s h.1)

-- A byte that was taken out is nowhere in the result.
pub without_byte-lacks : (b : ℕ) (s : Bytes) → All (λ c. c ≢ b) (without_byte b s)
unfolding without_byte
without_byte-lacks b [] = tt
without_byte-lacks b (c ∷ s) = ground (arith, without_byte-lacks b s)

width-plain : (c : ℕ) (s : Bytes) → IsPlain c → blank_width (c ∷ s) ≡ 0
unfolding blank_width
width-plain c [] h = ground arith
width-plain c (d ∷ []) h = ground arith
width-plain c (d ∷ e ∷ s) h = ground arith

width_rev-plain : (c : ℕ) (s : Bytes) → All IsPlain (c ∷ s) → blank_width_rev (c ∷ s) ≡ 0
unfolding blank_width_rev
width_rev-plain c [] h = ground arith
width_rev-plain c (d ∷ []) h = ground arith
width_rev-plain c (d ∷ e ∷ s) h = ground arith

trim_from-plain : (s : Bytes) → All IsPlain s → trim_from blank_width 0 s ≡ s
unfolding trim_from
trim_from-plain [] h = refl
trim_from-plain (c ∷ s) h = ground (arith, width-plain c s h.0)

trim_from_rev-plain : (s : Bytes) → All IsPlain s → trim_from blank_width_rev 0 s ≡ s
unfolding trim_from
trim_from_rev-plain [] h = refl
trim_from_rev-plain (c ∷ s) h = ground (arith, width_rev-plain c s h)

pub trim_space-plain : (s : Bytes) → All IsPlain s → trim_space s ≡ s
unfolding trim_space
trim_space-plain s h =
    rw (trim_from-plain s h, trim_from_rev-plain (reverse s) (All-reverse IsPlain s h))
      (reverse-reverse s)

lower_all-ascii : (s : Bytes) → All IsLower s → all (λ c. ltb c 128) s ≡ true
lower_all-ascii [] h = refl
lower_all-ascii (c ∷ s) h = ground (arith, lower_all-ascii s h.1)

map-lower_byte : (s : Bytes) → All IsLower s → map lower_byte s ≡ s
unfolding lower_byte
map-lower_byte [] h = refl
map-lower_byte (c ∷ s) h = ground (arith, map-lower_byte s h.1)

pub to_lower-plain : (f : Bytes → Bytes) (s : Bytes) → All IsLower s → to_lower f s ≡ s
unfolding to_lower
to_lower-plain f s h = rw (lower_all-ascii s h, map-lower_byte s h)
