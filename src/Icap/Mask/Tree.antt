-- ===== src/Icap/Mask/Tree.antt =====
-- `maskAny` on a JSON value: every string is masked, nothing else changes, and the result says
-- whether there was a change.
use ai_scan_interceptor.Base.{
  ◌≡◌, refl, ap, sym, ◌∙◌, Bool, true, false, not, ◌||◌, List, [], ◌∷◌, ◌++◌, if◌then◌else◌, arith,
  Bytes, same, same→eq, any,
}
use ai_scan_interceptor.Icap.Rules.{AlertRule}
use ai_scan_interceptor.Icap.Json.{
  Json, null, boolean, number, string, array, object, Items, nil, cons, Fields, end, field, strings,
  item_strings, field_strings, map_strings, map_items, map_fields,
}
use ai_scan_interceptor.Icap.Mask.{mask_sensitive, mask_any, mask_items, mask_fields}

pub any-append : (p : Bytes → Bool) (xs ys : List Bytes) → any p (xs ++ ys) ≡ (any p xs || any p ys)
any-append p [] ys = refl
any-append p (x ∷ xs) ys = ground (arith, any-append p xs ys)

or_false : (a b : Bool) → (a || b) ≡ false → (a ≡ false) × (b ≡ false)
or_false a b h = ground arith

module _ (replace_all : Bytes → Bytes → Bytes → Bytes) (active : List AlertRule) where
  abbrev pub hide : Bytes → Bytes
  hide = mask_sensitive replace_all active

  -- the text is changed
  abbrev pub is_changed : Bytes → Bool
  is_changed s = not (same (hide s) s)

  -- what a test of a change leaves
  abbrev pick : Bool → Json → Json → Json × Bool
  pick b new old = if b then (new, true) else (old, false)

  pick-same : (b : Bool) (new old : Json) → (pick b new old).1 ≡ false → (pick b new old).0 ≡ old
  pick-same true new old h = cc
  pick-same false new old h = refl

  pick-flag : (b : Bool) (new old : Json) → (pick b new old).1 ≡ b
  pick-flag true new old = refl
  pick-flag false new old = refl

  pick-new : (b : Bool) (new old : Json) → (b ≡ false → new ≡ old) → (pick b new old).0 ≡ new
  pick-new true new old h = refl
  pick-new false new old h = sym (h refl)

  unchanged-eq : (s : Bytes) → is_changed s ≡ false → hide s ≡ s
  unchanged-eq s h = same→eq (hide s) s (ground arith)

  -- where nothing changed, the value is the old one
  keep :
      (old new : Json) (changed : Bool)
      → (changed ≡ false → new ≡ old)
      → (if changed then new else old) ≡ new
  keep old new true h = refl
  keep old new false h = sym (h refl)

  mutual
    unfolding mask_any

    pub any-same :
        (j : Json)
        → (mask_any replace_all active j).1 ≡ false
        → (mask_any replace_all active j).0 ≡ j
    any-same null h = refl
    any-same (boolean b) h = refl
    any-same (number n) h = refl
    any-same (string s) h = pick-same (is_changed s) (string (hide s)) (string s) h
    any-same (array xs) h = ap array (items-same xs h)
    any-same (object fs) h = ap object (fields-same fs h)

    items-same :
        (xs : Items)
        → (mask_items replace_all active xs).1 ≡ false
        → (mask_items replace_all active xs).0 ≡ xs
    items-same nil h = refl
    items-same (cons x xs) h =
        let both =
          or_false (mask_any replace_all active x).1 (mask_items replace_all active xs).1 h in
        rw both.0 (ap (cons x) (items-same xs both.1))

    fields-same :
        (fs : Fields)
        → (mask_fields replace_all active fs).1 ≡ false
        → (mask_fields replace_all active fs).0 ≡ fs
    fields-same end h = refl
    fields-same (field k x fs) h =
        let both =
          or_false (mask_any replace_all active x).1 (mask_fields replace_all active fs).1 h in
        rw both.0 (ap (field k x) (fields-same fs both.1))

  mutual
    unfolding mask_any map_strings

    pub any-tree : (j : Json) → (mask_any replace_all active j).0 ≡ map_strings hide j
    any-tree null = refl
    any-tree (boolean b) = refl
    any-tree (number n) = refl
    any-tree (string s) =
        pick-new (is_changed s) (string (hide s)) (string s) λ e. ap string (unchanged-eq s e)
    any-tree (array xs) = ap array (items-tree xs)
    any-tree (object fs) = ap object (fields-tree fs)

    items-tree : (xs : Items) → (mask_items replace_all active xs).0 ≡ map_items hide xs
    items-tree nil = refl
    items-tree (cons x xs) =
        rw
          (
            keep x (mask_any replace_all active x).0 (mask_any replace_all active x).1 (any-same x),
            any-tree x,
          )
          (ap (cons (map_strings hide x)) (items-tree xs))

    fields-tree : (fs : Fields) → (mask_fields replace_all active fs).0 ≡ map_fields hide fs
    fields-tree end = refl
    fields-tree (field k x fs) =
        rw
          (
            keep x (mask_any replace_all active x).0 (mask_any replace_all active x).1 (any-same x),
            any-tree x,
          )
          (ap (field k (map_strings hide x)) (fields-tree fs))

  mutual
    unfolding mask_any strings

    any-flag : (j : Json) → (mask_any replace_all active j).1 ≡ any is_changed (strings j)
    any-flag null = refl
    any-flag (boolean b) = refl
    any-flag (number n) = refl
    any-flag (string s) = pick-flag (is_changed s) (string (hide s)) (string s) ∙ ground arith
    any-flag (array xs) = items-flag xs
    any-flag (object fs) = fields-flag fs

    items-flag :
        (xs : Items) → (mask_items replace_all active xs).1 ≡ any is_changed (item_strings xs)
    items-flag nil = refl
    items-flag (cons x xs) =
        rw (any-append is_changed (strings x) (item_strings xs), any-flag x, items-flag xs) refl

    fields-flag :
        (fs : Fields) → (mask_fields replace_all active fs).1 ≡ any is_changed (field_strings fs)
    fields-flag end = refl
    fields-flag (field k x fs) =
        rw (any-append is_changed (strings x) (field_strings fs), any-flag x, fields-flag fs) refl

  -- Masking a JSON value replaces every string in it by the masked one and keeps the rest, keys
  -- included; it reports a change exactly if masking changes one of the strings.
  pub mask_any-map_strings :
      (j : Json)
      → ((mask_any replace_all active j).0 ≡ map_strings hide j)
        × ((mask_any replace_all active j).1 ≡ any is_changed (strings j))
  mask_any-map_strings j = (any-tree j, any-flag j)
