-- ===== src/Icap/Extract/Gather.antt =====
-- The texts that `gatherStrings` collects from a JSON value.
use mathlib.Core.List.{append_assoc, append-nil}
use ai_scan_interceptor.Base.{
  ℕ, ◌≡◌, refl, ap, sym, ◌∙◌, Bool, true, false, List, [], ◌∷◌, ◌++◌, if◌then◌else◌, arith, leb,
  Bytes, length,
}
use ai_scan_interceptor.Icap.Json.{
  Json, null, boolean, number, string, array, object, Items, nil, cons, Fields, end, field, strings,
  item_strings, field_strings,
}
use ai_scan_interceptor.Icap.Extract.{gather_strings, gather_items, gather_fields}

-- the texts of at least `n` bytes
unfoldable pub long : ℕ → List Bytes → List Bytes
long n [] = []
long n (s ∷ ss) = if leb n (length s) then s ∷ long n ss else long n ss

long-append : (n : ℕ) (xs ys : List Bytes) → long n (xs ++ ys) ≡ long n xs ++ long n ys
unfolding long
long-append n [] ys = refl
long-append n (x ∷ xs) ys = ground (arith, long-append n xs ys)

-- one value, then the rest
then_rest :
    (n : ℕ) (out xs ys : List Bytes) → (out ++ long n xs) ++ long n ys ≡ out ++ long n (xs ++ ys)
then_rest n out xs ys =
    append_assoc out (long n xs) (long n ys) ∙ ap (λ z. out ++ z) (sym (long-append n xs ys))

one-long :
    (b : Bool) (s : Bytes) (out : List Bytes)
    → (if b then out ++ s ∷ [] else out) ≡ out ++ (if b then s ∷ [] else [])
one-long true s out = refl
one-long false s out = sym (append-nil out)

mutual
  unfolding gather_strings strings long

  gather_any :
      (n : ℕ) (j : Json) (out : List Bytes) → gather_strings n j out ≡ out ++ long n (strings j)
  gather_any n null out = sym (append-nil out)
  gather_any n (boolean b) out = sym (append-nil out)
  gather_any n (number x) out = sym (append-nil out)
  gather_any n (string s) out = one-long (leb n (length s)) s out
  gather_any n (array xs) out = gather_all n xs out
  gather_any n (object fs) out = gather_values n fs out

  gather_all :
      (n : ℕ) (xs : Items) (out : List Bytes)
      → gather_items n xs out ≡ out ++ long n (item_strings xs)
  gather_all n nil out = sym (append-nil out)
  gather_all n (cons x xs) out =
      gather_all n xs (gather_strings n x out)
      ∙ ap (λ o. o ++ long n (item_strings xs)) (gather_any n x out)
      ∙ then_rest n out (strings x) (item_strings xs)

  gather_values :
      (n : ℕ) (fs : Fields) (out : List Bytes)
      → gather_fields n fs out ≡ out ++ long n (field_strings fs)
  gather_values n end out = sym (append-nil out)
  gather_values n (field k x fs) out =
      gather_values n fs (gather_strings n x out)
      ∙ ap (λ o. o ++ long n (field_strings fs)) (gather_any n x out)
      ∙ then_rest n out (strings x) (field_strings fs)

-- What is collected from a JSON value is every string in it, at any depth, of at least `n` bytes, in
-- their order, and nothing else. A string of just `n` bytes counts, though the source's comment says
-- "longer than".
pub gather_strings-long : (n : ℕ) (j : Json) → gather_strings n j [] ≡ long n (strings j)
gather_strings-long n j = gather_any n j []
