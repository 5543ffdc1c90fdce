-- ===== src/Base/Keyed.antt =====
-- The loops of the stores over a slice of records with a string key: find the first record of a
-- key, change it, drop it. Each store gives its key.
use mathlib.Core.Path.{◌≡◌, refl}
use mathlib.Core.Logic.{◌≢◌}
use mathlib.Core.Bool.{Bool, true, false, ◌||◌}
use mathlib.Core.List.{List, [], ◌∷◌, ◌++◌}
use mathlib.Core.Option
use mathlib.Core.Option.{Option, none, some}
use native.Mathlib.Omega.{arith}
use ai_scan_interceptor.Base.Tests.{if◌then◌else◌}
use ai_scan_interceptor.Base.Text.{Bytes, same, same_iff}

module _ {ℓ} {A : Type ℓ} (key : A → Bytes) where
  unfoldable pub find_key : Bytes → List A → Option A
  find_key k [] = none
  find_key k (x ∷ xs) = if same (key x) k then some x else find_key k xs

  unfoldable pub has_key : Bytes → List A → Bool
  has_key k [] = false
  has_key k (x ∷ xs) = same (key x) k || has_key k xs

  -- changes the first record of the key
  unfoldable pub update_key : Bytes → (A → A) → List A → List A
  update_key k f [] = []
  update_key k f (x ∷ xs) = if same (key x) k then f x ∷ xs else x ∷ update_key k f xs

  -- drops the first record of the key
  unfoldable pub remove_key : Bytes → List A → List A
  remove_key k [] = []
  remove_key k (x ∷ xs) = if same (key x) k then xs else x ∷ remove_key k xs

  -- no two records share a key
  abbrev pub Distinct : List A → Type 0
  Distinct [] = Unit
  Distinct (x ∷ xs) = (has_key (key x) xs ≡ false) × Distinct xs

  pub has_key-append :
      (k : Bytes) (xs ys : List A) → has_key k (xs ++ ys) ≡ (has_key k xs || has_key k ys)
  unfolding has_key
  has_key-append k [] ys = refl
  has_key-append k (x ∷ xs) ys = ground (arith, has_key-append k xs ys)

  pub find_key-append :
      (k : Bytes) (xs ys : List A) → has_key k xs ≡ false → find_key k (xs ++ ys) ≡ find_key k ys
  unfolding has_key find_key
  find_key-append k [] ys h = refl
  find_key-append k (x ∷ xs) ys h = ground (arith, find_key-append k xs ys)

  pub find_key-none : (k : Bytes) (xs : List A) → has_key k xs ≡ false → find_key k xs ≡ none
  unfolding has_key find_key
  find_key-none k [] h = refl
  find_key-none k (x ∷ xs) h = ground (arith, find_key-none k xs)

  pub find_key-has_key :
      (k : Bytes) (xs : List A) (x : A) → find_key k xs ≡ some x → has_key k xs ≡ true
  unfolding has_key find_key
  find_key-has_key k [] x h = cc
  find_key-has_key k (y ∷ ys) x h = ground (arith, find_key-has_key k ys x)

  pub find_key-key : (k : Bytes) (xs : List A) (x : A) → find_key k xs ≡ some x → key x ≡ k
  unfolding find_key
  find_key-key k [] x h = cc
  find_key-key k (y ∷ ys) x h = ground (arith, find_key-key k ys x, same_iff (key y) k)

  pub has_key-remove_key_ne :
      (k j : Bytes) (xs : List A) → j ≢ k → has_key j (remove_key k xs) ≡ has_key j xs
  unfolding has_key remove_key
  has_key-remove_key_ne k j [] h = refl
  has_key-remove_key_ne k j (x ∷ xs) h =
      ground (arith, has_key-remove_key_ne k j xs h, same_iff (key x) k, same_iff (key x) j)

  pub find_key-remove_key_ne :
      (k j : Bytes) (xs : List A) → j ≢ k → find_key j (remove_key k xs) ≡ find_key j xs
  unfolding find_key remove_key
  find_key-remove_key_ne k j [] h = refl
  find_key-remove_key_ne k j (x ∷ xs) h =
      ground (arith, find_key-remove_key_ne k j xs h, same_iff (key x) k, same_iff (key x) j)

  pub has_key-remove_key_self :
      (k : Bytes) (xs : List A) → Distinct xs → has_key k (remove_key k xs) ≡ false
  unfolding has_key remove_key
  has_key-remove_key_self k [] d = refl
  has_key-remove_key_self k (x ∷ xs) d =
      ground (arith, has_key-remove_key_self k xs d.1, same_iff (key x) k)

  pub remove_key-Distinct : (k : Bytes) (xs : List A) → Distinct xs → Distinct (remove_key k xs)
  unfolding remove_key has_key
  remove_key-Distinct k [] d = tt
  remove_key-Distinct k (x ∷ xs) d =
      ground (
        arith,
        remove_key-Distinct k xs d.1,
        has_key-remove_key_ne k (key x) xs,
        same_iff (key x) k,
      )

  pub append-Distinct :
      (xs : List A) (y : A) → Distinct xs → has_key (key y) xs ≡ false → Distinct (xs ++ y ∷ [])
  unfolding has_key
  append-Distinct [] y d h = (refl, tt)
  append-Distinct (x ∷ xs) y d h = ground (
    arith,
    append-Distinct xs y d.1,
    has_key-append (key x) xs (y ∷ []),
    same_iff (key x) (key y),
    same_iff (key y) (key x),
  )

  -- A change that keeps the key keeps all keys, and shows at its key only.
  module _ (f : A → A) (keeps : (a : A) → key (f a) ≡ key a) where
    pub has_key-update_key :
        (k j : Bytes) (xs : List A) → has_key j (update_key k f xs) ≡ has_key j xs
    unfolding has_key update_key
    has_key-update_key k j [] = refl
    has_key-update_key k j (x ∷ xs) = ground (arith, has_key-update_key k j xs, keeps x)

    pub find_key-update_key :
        (k : Bytes) (xs : List A) → find_key k (update_key k f xs) ≡ Option.map f (find_key k xs)
    unfolding find_key update_key
    find_key-update_key k [] = refl
    find_key-update_key k (x ∷ xs) = ground (arith, find_key-update_key k xs, keeps x)

    pub find_key-update_key_ne :
        (k j : Bytes) (xs : List A) → j ≢ k → find_key j (update_key k f xs) ≡ find_key j xs
    unfolding find_key update_key
    find_key-update_key_ne k j [] h = refl
    find_key-update_key_ne k j (x ∷ xs) h =
        ground
          (arith, find_key-update_key_ne k j xs h, keeps x, same_iff (key x) k, same_iff (key x) j)

    pub update_key-Distinct : (k : Bytes) (xs : List A) → Distinct xs → Distinct (update_key k f xs)
    unfolding update_key
    update_key-Distinct k [] d = tt
    update_key-Distinct k (x ∷ xs) d =
        ground (arith, update_key-Distinct k xs d.1, has_key-update_key k (key x) xs, keeps x)
