-- ===== src/Icap/Chats.antt =====
-- From a message of a chat to the answer of the ICAP server: the extractors of Icap.Extract, the
-- detection of Icap.Detect and the handler of Icap.Handler put together.
pub mod Examples
use mathlib.Core.List.{append_assoc}
use ai_scan_interceptor.Base.{
  ℕ, ◌≡◌, ◌≢◌, ◌⊎◌, inl, inr, sym, ◌∙◌, Bool, true, false, Option, none, some, List, [], ◌∷◌, ◌++◌,
  Bytes, same, All, codes,
}
use ai_scan_interceptor.Strings.{trim_space}
use ai_scan_interceptor.Icap.Policy.{Config, get_mode, mode_block, mode_mask}
use ai_scan_interceptor.Icap.Rules.{AlertRule, match_rule}
use ai_scan_interceptor.Icap.Services.{ServiceRule, extract_open_ai, find_rule}
use ai_scan_interceptor.Icap.Extract.{ChatMessage, Decoders, tagged}
use ai_scan_interceptor.Icap.Extract.Bodies.{
  extract_string_or_parts, is_user_or_system, extract_open_ai_body, extract_multipart_file,
  extract_with,
}
use ai_scan_interceptor.Icap.Extract.Bodies.Kept.{extract_open_ai_body-has}
use ai_scan_interceptor.Icap.Detect.{Result, detect, is_inspected}
use ai_scan_interceptor.Icap.Detect.Reports.{IsReported, detect-IsReported}
use ai_scan_interceptor.Icap.Handler.{blocked, masked, HttpRequest, serve_reqmod}
use ai_scan_interceptor.Icap.Handler.Enforcement.{serve_reqmod-enforced, serve_reqmod-blocked}

All-at :
    (P : AlertRule → Type 0) (before after : List AlertRule) (r : AlertRule)
    → All P (before ++ r ∷ after)
    → P r
All-at P [] after r h = h.0
All-at P (b ∷ before) after r h = All-at P before after r h.1

-- the text within its line
tagged-inner :
    (role text pre post : Bytes)
    → pre ++ (tagged role text ++ post)
      ≡ (pre ++ (codes "[" ++ (role ++ codes "] "))) ++ (text ++ post)
tagged-inner role text pre post = simp (append_assoc)

-- The rule matches every text that has `text` in it.
abbrev pub IsFoundIn :
    (Bytes → Bytes → Option (ℕ × ℕ)) → (Bytes → Bytes → Bool) → Bytes → AlertRule → Type 0
IsFoundIn find_string_index match_string text r =
    (pre post : Bytes) → match_rule find_string_index match_string r (pre ++ (text ++ post)) ≢ none

module _ (find_string_index : Bytes → Bytes → Option (ℕ × ℕ)) (match_string : Bytes → Bytes → Bool)
    (lower_runes : Bytes → Bytes) (file_names : Bytes → Bytes → List Bytes) (d : Decoders) where
  -- `Detect` with the extractors of patterns.go
  abbrev pub detect_chat : List AlertRule → Bytes → Bytes → Bytes → Bytes → Option Result
  detect_chat active host path method body =
      detect find_string_index match_string lower_runes file_names (extract_multipart_file d)
        (extract_with d) active host path method body

  detect_chat-triggered :
      (q : HttpRequest) (s : ServiceRule) (prompt text pre post : Bytes)
      (rules more : List AlertRule) (r : AlertRule)
      → is_inspected q.method ≡ true
      → find_rule match_string q.host q.path ≡ some s
      → extract_with d s.extract q.body ≡ some prompt
      → same (trim_space prompt) [] ≡ false
      → prompt ≡ pre ++ (text ++ post)
      → IsFoundIn find_string_index match_string text r
      → (out : Result) × (detect_chat (rules ++ r ∷ more) q.host q.path q.method q.body ≡ some out)
        × (out.service ≡ s.name)
        × (out.triggered ≡ true)
  detect_chat-triggered q s prompt text pre post rules more r i f e n p found =
      let (out, a, b, c, l) =
        detect-IsReported find_string_index match_string lower_runes file_names
          (extract_multipart_file d) (extract_with d) (rules ++ r ∷ more) q.host q.path q.method
          q.body prompt s i f e n in
      let reported =
        All-at
          (IsReported find_string_index match_string lower_runes file_names
            (extract_multipart_file d) (extract_with d) prompt out)
          rules more r c in
      (
        out,
        a,
        b,
        elim reported [ inl miss ↦ absurd (found pre post (rw (sym p) miss)) | inr hit ↦ hit.0 ],
      )

  -- A chat request by an inspected method to a service of OpenAI's format, whose body Go decodes to
  -- messages, one of them of a user or of the system and with a text that is not empty. Some active
  -- rule matches every text that has this one in it; that leaves out a rule that the text around it
  -- can silence, by a negative context or an anchor. Then, whatever the other messages and the other
  -- rules are: under the mode "block" the request is refused, and under "mask" it is refused or
  -- answered with the body that `MaskSensitiveForService` returns for it, whatever that is.
  pub serve_reqmod-chat :
      (mask_sensitive_for_service : Bytes → Bytes → Bytes → Bytes) (c : Config) (has_siem : Bool)
      (q : HttpRequest) (s : ServiceRule) (rules more : List AlertRule) (r : AlertRule)
      (before after : List ChatMessage) (m : ChatMessage) (text : Bytes)
      → same q.body [] ≡ false
      → is_inspected q.method ≡ true
      → find_rule match_string q.host q.path ≡ some s
      → s.extract ≡ extract_open_ai
      → d.chat_messages q.body ≡ some (before ++ m ∷ after)
      → is_user_or_system d m.role ≡ true
      → extract_string_or_parts d m.content ≡ some text
      → same text [] ≡ false
      → IsFoundIn find_string_index match_string text r
      → (get_mode s.name c ≡ mode_block) ⊎ (get_mode s.name c ≡ mode_mask)
      → let out =
          serve_reqmod
            (detect_chat (rules ++ r ∷ more))
            mask_sensitive_for_service
            (some c)
            has_siem
            (some q) in
        ((get_mode s.name c ≡ mode_block) × (out.answer ≡ blocked))
        ⊎ ((get_mode s.name c ≡ mode_mask)
            × ((out.answer ≡ blocked)
                ⊎ (out.answer ≡ masked (mask_sensitive_for_service q.body q.host q.path))))
  unfolding extract_with
  serve_reqmod-chat mask c has_siem q s rules more r before after m text nb i f x b u e nt found
        mode =
      let (prompt, pre, post, p, l, n) =
        extract_open_ai_body-has d q.body text before after m b u e nt in
      let (out, a, name, t) =
        detect_chat-triggered q s prompt text (pre ++ (codes "[" ++ (m.role ++ codes "] "))) post
          rules more r i f (rw x p) n (l ∙ tagged-inner m.role text pre post) found in
      let detect_all = detect_chat (rules ++ r ∷ more) in
      elim mode [
        | inl w ↦ inl (w, serve_reqmod-blocked detect_all mask c has_siem q out nb a t (rw name w))
        | inr w ↦ inr (
          w,
          elim (serve_reqmod-enforced detect_all mask c has_siem q out nb a t (inr (rw name w))) [
            | inl z ↦ inl z
            | inr z ↦ inr z.0
          ],
        )
      ]
