-- ===== src/Icap/Extract/Bodies/Kept.antt =====
-- What the prompt of a chat keeps of its messages.
use mathlib.Core.List.{append_assoc, append-nil}
use ai_scan_interceptor.Base.{
  ◌≡◌, refl, sym, ap, ◌∙◌, Bool, true, false, some, List, [], ◌∷◌, ◌++◌, if◌then◌else◌, Bytes,
  codes, All, same,
}
use ai_scan_interceptor.Strings.{join, trim_space}
use ai_scan_interceptor.Strings.Blank.{trim_space-bracket}
use ai_scan_interceptor.Icap.Extract.{ChatMessage, Decoders, tagged, newline, some_or_empty}
use ai_scan_interceptor.Icap.Extract.Bodies.{
  extract_string_or_parts, is_user_or_system, chat_texts, joined_chat, extract_open_ai_body,
}

moved : (x sep pre rest t : Bytes) → rest ≡ pre ++ t → x ++ (sep ++ rest) ≡ (x ++ (sep ++ pre)) ++ t
moved x sep pre rest t h = simp (h, append_assoc)

join-has :
    (xs ys : List Bytes) (t sep : Bytes)
    → (pre post : Bytes) × (join (xs ++ t ∷ ys) sep ≡ pre ++ (t ++ post))
unfolding join
join-has [] [] t sep = ([], [], sym (append-nil t))
join-has [] (y ∷ ys) t sep = ([], sep ++ join (y ∷ ys) sep, refl)
join-has (x ∷ []) ys t sep =
    let (pre, post, e) = join-has [] ys t sep in
    (x ++ (sep ++ pre), post, moved x sep pre (join (t ∷ ys) sep) (t ++ post) e)
join-has (x ∷ y ∷ xs) ys t sep =
    let (pre, post, e) = join-has (y ∷ xs) ys t sep in
    (x ++ (sep ++ pre), post, moved x sep pre (join (y ∷ (xs ++ t ∷ ys)) sep) (t ++ post) e)

grown :
    (c e : Bool) (x t : Bytes) (rest xs ys : List Bytes)
    → rest ≡ xs ++ t ∷ ys
    → (zs : List Bytes) × ((if c then (if e then rest else x ∷ rest) else rest) ≡ zs ++ t ∷ ys)
grown false e x t rest xs ys h = (xs, h)
grown true true x t rest xs ys h = (xs, h)
grown true false x t rest xs ys h = (x ∷ xs, ap (λ r. x ∷ r) h)

-- a text that is not blank since it starts with a bracket
IsTagged : Bytes → Type 0
IsTagged t = (rest : Bytes) × (t ≡ 91 ∷ rest)

grown-IsTagged :
    (c e : Bool) (x : Bytes) (rest : List Bytes)
    → IsTagged x
    → All IsTagged rest
    → All IsTagged (if c then (if e then rest else x ∷ rest) else rest)
grown-IsTagged false e x rest t h = h
grown-IsTagged true true x rest t h = h
grown-IsTagged true false x rest t h = (t, h)

join-IsTagged :
    (xs ys : List Bytes) (t sep : Bytes)
    → All IsTagged (xs ++ t ∷ ys)
    → IsTagged (join (xs ++ t ∷ ys) sep)
unfolding join IsTagged
join-IsTagged [] [] t sep h = h.0
join-IsTagged [] (y ∷ ys) t sep h =
    (h.0.0 ++ (sep ++ join (y ∷ ys) sep), ap (λ p. p ++ (sep ++ join (y ∷ ys) sep)) h.0.1)
join-IsTagged (x ∷ []) ys t sep h =
    (h.0.0 ++ (sep ++ join (t ∷ ys) sep), ap (λ p. p ++ (sep ++ join (t ∷ ys) sep)) h.0.1)
join-IsTagged (x ∷ y ∷ xs) ys t sep h =
    let rest = sep ++ join (y ∷ (xs ++ t ∷ ys)) sep in (h.0.0 ++ rest, ap (λ p. p ++ rest) h.0.1)

tagged-given : (p : Bytes) → IsTagged p → same (trim_space p) [] ≡ false
unfolding IsTagged
tagged-given p h = rw h.1 (trim_space-bracket h.0)

module _ (d : Decoders) where
  chat_texts-has :
      (before after : List ChatMessage) (m : ChatMessage) (text : Bytes)
      → is_user_or_system d m.role ≡ true
      → extract_string_or_parts d m.content ≡ some text
      → same text [] ≡ false
      → (xs ys : List Bytes) × (chat_texts d (before ++ m ∷ after) ≡ xs ++ tagged m.role text ∷ ys)
  unfolding chat_texts
  chat_texts-has [] after m text r e n = ([], chat_texts d after, rw r (rw e (rw n refl)))
  chat_texts-has (b ∷ before) after m text r e n =
      let (xs, ys, h) = chat_texts-has before after m text r e n in
      let (zs, g) =
        grown (is_user_or_system d b.role)
          (same (some_or_empty (extract_string_or_parts d b.content)) [])
          (tagged b.role (some_or_empty (extract_string_or_parts d b.content))) (tagged m.role text)
          (chat_texts d (before ++ m ∷ after)) xs ys h in
      (zs, ys, g)

  chat_texts-IsTagged : (ms : List ChatMessage) → All IsTagged (chat_texts d ms)
  unfolding chat_texts IsTagged
  chat_texts-IsTagged [] = tt
  chat_texts-IsTagged (m ∷ ms) =
      let text = some_or_empty (extract_string_or_parts d m.content) in
      grown-IsTagged (is_user_or_system d m.role) (same text []) (tagged m.role text)
        (chat_texts d ms) (m.role ++ (codes "] " ++ text), refl) (chat_texts-IsTagged ms)

  -- A chat message of a user or of the system, wherever it stands in a body that decodes to a list
  -- of messages: its text, if not empty, is in the extracted prompt, whole and under its role, and
  -- the prompt is not blank.
  pub extract_open_ai_body-has :
      (body text : Bytes) (before after : List ChatMessage) (m : ChatMessage)
      → d.chat_messages body ≡ some (before ++ m ∷ after)
      → is_user_or_system d m.role ≡ true
      → extract_string_or_parts d m.content ≡ some text
      → same text [] ≡ false
      → (prompt pre post : Bytes) × (extract_open_ai_body d body ≡ some prompt)
        × (prompt ≡ pre ++ (tagged m.role text ++ post))
        × (same (trim_space prompt) [] ≡ false)
  unfolding extract_open_ai_body joined_chat
  extract_open_ai_body-has body text before after m b r e n =
      let (xs, ys, h) = chat_texts-has before after m text r e n in
      let (pre, post, j) = join-has xs ys (tagged m.role text) newline in
      (
        join (chat_texts d (before ++ m ∷ after)) newline,
        pre,
        post,
        ap (joined_chat d) b,
        ap (λ ts. join ts newline) h ∙ j,
        tagged-given (join (chat_texts d (before ++ m ∷ after)) newline) (
            rw h (
              join-IsTagged xs ys (tagged m.role text) newline
                (rw (sym h) (chat_texts-IsTagged (before ++ m ∷ after))))),
      )
