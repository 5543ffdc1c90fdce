-- ===== src/Strings/Blank.antt =====
-- Texts that are not blank, for strings.TrimSpace.
use mathlib.Core.List.{reverse-cons}
use ai_scan_interceptor.Base.{
  ℕ, zero, suc, ◌-◌, ◌≤◌, ◌≡◌, refl, false, [], ◌∷◌, ◌++◌, arith, Bytes, length, reverse, if-case,
  ◌==◌, same,
}
use ai_scan_interceptor.Strings.{trim_from, blank_width, blank_width_rev, trim_space}

-- no blank reaches over the bracket at the end
width-le : (c : ℕ) (s : Bytes) → blank_width_rev (c ∷ (s ++ 91 ∷ [])) ≤ suc (length s)
unfolding blank_width_rev
width-le c [] = ground arith
width-le c (d ∷ []) = ground arith
width-le c (d ∷ e ∷ []) = ground arith
width-le c (d ∷ e ∷ f ∷ s) = ground arith

front-bracket : (s : Bytes) → trim_from blank_width 0 (91 ∷ s) ≡ 91 ∷ s
unfolding trim_from blank_width
front-bracket [] = refl
front-bracket (c ∷ []) = refl
front-bracket (c ∷ d ∷ s) = refl

back-bracket :
    (s : Bytes) (n : ℕ)
    → n ≤ length s
    → same (trim_from blank_width_rev n (s ++ 91 ∷ [])) [] ≡ false
unfolding trim_from same blank_width_rev
back-bracket [] zero h = refl
back-bracket [] (suc n) h = ground arith
back-bracket (c ∷ s) (suc n) h = back-bracket s n (omega arith)
back-bracket (c ∷ s) zero h =
    let w = blank_width_rev (c ∷ (s ++ 91 ∷ [])) in
    let ih = back-bracket s (w - 1) (omega (arith, width-le c s)) in
    if-case (λ t. same t [] ≡ false) (w == 0) (c ∷ (s ++ 91 ∷ []))
      (trim_from blank_width_rev (w - 1) (s ++ 91 ∷ [])) (λ e. refl) (λ e. ih)

snoc-same : (s : Bytes) (c : ℕ) → same (s ++ c ∷ []) [] ≡ false
unfolding same
snoc-same [] c = refl
snoc-same (d ∷ s) c = refl

reverse-same : (s : Bytes) → same s [] ≡ false → same (reverse s) [] ≡ false
unfolding same
reverse-same [] h = h
reverse-same (c ∷ s) h = rw (reverse-cons c s) (snoc-same (reverse s) c)

pub trim_space-bracket : (s : Bytes) → same (trim_space (91 ∷ s)) [] ≡ false
unfolding trim_space
trim_space-bracket s =
    rw (front-bracket s, reverse-cons 91 s)
      (reverse-same (trim_from blank_width_rev 0 (reverse s ++ 91 ∷ []))
        (back-bracket (reverse s) 0 (omega arith)))
