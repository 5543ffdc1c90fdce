-- ===== src/Icap/Extract/Strip.antt =====
-- What `stripSystemTags` leaves of a text.
use ai_scan_interceptor.Base.{
  ℕ, zero, suc, ◌+◌, ◌-◌, ◌<◌, ◌≡◌, refl, ap, Bool, true, false, Option, none, some, [], ◌∷◌, ◌++◌,
  arith, if◌then◌else◌, Bytes, codes, length, take, drop, length-append, length-take-le,
  take-append_exact, drop-append_exact, is_some,
}
use mathlib.Core.Option
use mathlib.Core.Option.{some-injective}
use ai_scan_interceptor.Strings.{has_prefix, index, contains}
use ai_scan_interceptor.Icap.Extract.{after_close, after_open, strip_loop, strip_tag}

has_prefix-take : (i : ℕ) (s t : Bytes) → has_prefix s t ≡ false → has_prefix (take i s) t ≡ false
unfolding has_prefix
has_prefix-take zero s [] h = h
has_prefix-take zero s (d ∷ t) h = refl
has_prefix-take (suc i) [] t h = h
has_prefix-take (suc i) (c ∷ s) [] h = h
has_prefix-take (suc i) (c ∷ s) (d ∷ t) h = ground (arith, has_prefix-take i s t)

step_found :
    (b : Bool) (o : Option ℕ) (i : ℕ)
    → (if b then some 0 else Option.map suc o) ≡ some (suc i)
    → (b ≡ false) × (o ≡ some i)
step_found true o i e = absurd (omega (arith, some-injective 0 (suc i) e))
step_found false none i e = cc
step_found false (some j) i e = (refl, ap some (omega (arith, some-injective (suc j) (suc i) e)))

step_none :
    (b : Bool) (o : Option ℕ)
    → b ≡ false
    → o ≡ none
    → (if b then some 0 else Option.map suc o) ≡ none
step_none b o e f = rw (e, f) refl

-- what stands before the first place of a text does not hold it
index-take : (s t : Bytes) (d i : ℕ) → index s (d ∷ t) ≡ some i → index (take i s) (d ∷ t) ≡ none
unfolding index has_prefix
index-take [] t d i e = cc
index-take (c ∷ s) t d zero e = refl
index-take (c ∷ s) t d (suc i) e =
    let both = step_found (has_prefix (c ∷ s) (d ∷ t)) (index s (d ∷ t)) i e in
    step_none (has_prefix (take (suc i) (c ∷ s)) (d ∷ t)) (index (take i s) (d ∷ t))
      (has_prefix-take (suc i) (c ∷ s) (d ∷ t) both.0) (index-take s t d i both.1)

index-lt : (s t : Bytes) (d i : ℕ) → index s (d ∷ t) ≡ some i → i < length s
unfolding index has_prefix
index-lt [] t d i e = cc
index-lt (c ∷ s) t d zero e = omega arith
index-lt (c ∷ s) t d (suc i) e =
    omega
      (arith, index-lt s t d i (step_found (has_prefix (c ∷ s) (d ∷ t)) (index s (d ∷ t)) i e).1)

length-drop : (n : ℕ) (s : Bytes) → length (drop n s) ≡ length s - n
length-drop zero s = omega arith
length-drop (suc n) [] = omega arith
length-drop (suc n) (c ∷ s) = omega (arith, length-drop n s)

-- cutting a block out leaves a shorter text
cut_shorter :
    (s : Bytes) (start stop n : ℕ)
    → start < length s
    → length (take start s ++ drop (start + stop + suc n) s) < length s
cut_shorter s start stop n h = omega (
  arith,
  length-append (take start s) (drop (start + stop + suc n) s),
  length-take-le start s,
  length-drop (start + stop + suc n) s,
)

close-gone :
    (next : Bytes → Bytes) (s t : Bytes) (d start n : ℕ) (o : Option ℕ)
    → index s (d ∷ t) ≡ some start
    → ((u : Bytes) → length u < length s → index (next u) (d ∷ t) ≡ none)
    → index (after_close next s start (suc n) o) (d ∷ t) ≡ none
unfolding after_close
close-gone next s t d start n none e ih = index-take s t d start e
close-gone next s t d start n (some stop) e ih =
    ih (take start s ++ drop (start + stop + suc n) s)
      (cut_shorter s start stop n (index-lt s t d start e))

open-gone :
    (next : Bytes → Bytes) (closing s t : Bytes) (c d : ℕ) (o : Option ℕ)
    → index s (d ∷ t) ≡ o
    → ((u : Bytes) → length u < length s → index (next u) (d ∷ t) ≡ none)
    → index (after_open next (c ∷ closing) s o) (d ∷ t) ≡ none
unfolding after_open
open-gone next closing s t c d none e ih = e
open-gone next closing s t c d (some start) e ih =
    close-gone next s t d start (length closing) (index (drop start s) (c ∷ closing)) e ih

loop-gone :
    (f c d : ℕ) (closing s t : Bytes)
    → length s < f
    → index (strip_loop f (d ∷ t) (c ∷ closing) s) (d ∷ t) ≡ none
unfolding strip_loop
loop-gone zero c d closing s t h = absurd (omega arith)
loop-gone (suc f) c d closing s t h =
    open-gone (λ u. strip_loop f (d ∷ t) (c ∷ closing) u) closing s t c d (index s (d ∷ t)) refl
      λ u l. loop-gone f c d closing u t (omega arith)

-- The loop over a tag ends with none of its opening tags left in the text.
pub strip_tag-lacks :
    (tag s : Bytes) → contains (strip_tag tag s) (codes "<" ++ (tag ++ codes ">")) ≡ false
unfolding strip_tag contains
strip_tag-lacks tag s = ap is_some (
    loop-gone (suc (length s)) b'<' b'<' (b'/' ∷ (tag ++ codes ">")) s (tag ++ codes ">")
      (omega arith))

-- The text after an opening tag that is never closed is dropped, and so no rule sees it.
pub strip_tag-drops_tail :
    (tag pre tail : Bytes)
    → index (pre ++ (codes "<" ++ (tag ++ (codes ">" ++ tail)))) (codes "<" ++ (tag ++ codes ">"))
      ≡ some (length pre)
    → index (codes "<" ++ (tag ++ (codes ">" ++ tail))) (codes "</" ++ (tag ++ codes ">")) ≡ none
    → strip_tag tag (pre ++ (codes "<" ++ (tag ++ (codes ">" ++ tail)))) ≡ pre
unfolding strip_tag strip_loop after_open after_close
strip_tag-drops_tail tag pre tail e f =
    rw (e, drop-append_exact pre (codes "<" ++ (tag ++ (codes ">" ++ tail))), f)
      (take-append_exact pre (codes "<" ++ (tag ++ (codes ">" ++ tail))))
