-- ===== src/Icap/Mask/Body.antt =====
-- Masked bodies: what a JSON body means after masking, and a multipart body that has no part.
use ai_scan_interceptor.Base.{
  suc, ◌-◌, ◌≡◌, ◌≢◌, refl, ap, sym, ◌∙◌, Bool, true, false, Option, some, List, [], ◌∷◌, ◌++◌,
  arith, ltb, Bytes, All, codes, same_refl, length, take, drop, length-append, take-append_exact,
  drop-append_exact,
}
use ai_scan_interceptor.Strings.{has_prefix}
use ai_scan_interceptor.Strings.Places.{index-crlf}
use ai_scan_interceptor.Strings.Lines.{crlf}
use ai_scan_interceptor.Icap.Rules.{AlertRule}
use ai_scan_interceptor.Icap.Json.{Json, map_strings}
use ai_scan_interceptor.Icap.Mask.{
  mask_any, without_newline, encoded_or, masked_tree, mask_decoded, mask_json_strings, Parts,
  no_more, write_parts, unless_empty, split_body, mask_multipart_body,
}
use ai_scan_interceptor.Icap.Mask.Tree.{any-same, any-tree, hide}

less_one : (text : Bytes) → length (text ++ 10 ∷ []) - 1 ≡ length text
less_one text = omega (arith, length-append text (10 ∷ []))

module _ (replace_all : Bytes → Bytes → Bytes → Bytes) (active : List AlertRule)
    (decode : Bytes → Option Json) (encode : Json → Option Bytes) where
  newline-drop : (text : Bytes) → drop (length (text ++ 10 ∷ []) - 1) (text ++ 10 ∷ []) ≡ 10 ∷ []
  newline-drop text = rw (less_one text) (drop-append_exact text (10 ∷ []))

  newline-take : (text : Bytes) → take (length (text ++ 10 ∷ []) - 1) (text ++ 10 ∷ []) ≡ text
  newline-take text = rw (less_one text) (take-append_exact text (10 ∷ []))

  without_newline-append :
      (text : Bytes) → without_newline replace_all active decode encode (text ++ 10 ∷ []) ≡ text
  unfolding without_newline
  without_newline-append text =
      rw (newline-drop text, newline-take text, same_refl (10 ∷ []))
        (ground (arith, length-append text (10 ∷ [])))

  tree_case :
      (body text : Bytes) (j : Json) (p : Json × Bool)
      → decode body ≡ some j
      → (p.1 ≡ false → j ≡ map_strings (hide replace_all active) j)
      → p.0 ≡ map_strings (hide replace_all active) j
      → encode (map_strings (hide replace_all active) j) ≡ some (text ++ 10 ∷ [])
      → decode text ≡ some (map_strings (hide replace_all active) j)
      → decode (masked_tree replace_all active decode encode body p)
        ≡ some (map_strings (hide replace_all active) j)
  unfolding masked_tree encoded_or
  tree_case body text j (k, false) d s t e r = d ∙ ap some (s refl)
  tree_case body text j (k, true) d s t e r = rw (t, e, without_newline-append text) r

  -- Masking a body that holds a JSON value leaves a body that holds the value with every string
  -- masked, provided that the encoder writes that value as a text, ended by a line break, which the
  -- decoder reads back.
  pub mask_json_strings-decodes :
      (body text : Bytes) (j : Json)
      → decode body ≡ some j
      → encode (map_strings (hide replace_all active) j) ≡ some (text ++ 10 ∷ [])
      → decode text ≡ some (map_strings (hide replace_all active) j)
      → decode (mask_json_strings replace_all active decode encode body)
        ≡ some (map_strings (hide replace_all active) j)
  unfolding mask_json_strings mask_decoded
  mask_json_strings-decodes body text j d e r = rw d (
      tree_case body text j (mask_any replace_all active j) d
        (λ s. sym (any-same replace_all active j s) ∙ any-tree replace_all active j)
        (any-tree replace_all active j) e r)

long_enough : (boundary : Bytes) → boundary ≢ [] → ltb (suc (suc (length boundary))) 3 ≡ false
long_enough [] ne = absurd (ne refl)
long_enough (c ∷ s) ne = ground arith

module _ (replace_all : Bytes → Bytes → Bytes → Bytes) (active : List AlertRule)
    (parts_of : Bytes → Bytes → Parts) where
  -- Where Go's reader finds no part in a body that begins like a multipart body, the body is
  -- replaced by the closing boundary alone: the rest of it is lost, and there is no fallback to the
  -- masking of its bytes.
  pub mask_multipart_body-no_more :
      (boundary tail : Bytes)
      → boundary ≢ []
      → All (λ c. c ≢ 13) boundary
      → parts_of boundary (codes "--" ++ (boundary ++ (crlf ++ tail))) ≡ no_more
      → mask_multipart_body replace_all active parts_of (codes "--" ++ (boundary ++ (crlf ++ tail)))
        ≡ crlf ++ (codes "--" ++ (boundary ++ (codes "--" ++ crlf)))
  unfolding mask_multipart_body split_body unless_empty write_parts has_prefix
  mask_multipart_body-no_more boundary tail ne h e =
      rw
        (
          index-crlf (codes "--" ++ boundary) tail (omega arith, (omega arith, h)),
          take-append_exact boundary (crlf ++ tail),
          long_enough boundary ne,
          e,
        )
        (ground arith)
