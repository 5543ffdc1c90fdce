-- ===== src/Icap/Extract/Bodies.antt =====
-- The extractors of icap-server/detection/patterns.go, one for each format of a body.
pub mod Kept
use ai_scan_interceptor.Base.{
  ℕ, Bool, not, ◌&&◌, ◌||◌, Option, none, some, List, [], ◌∷◌, ◌++◌, if◌then◌else◌, ltb, Bytes,
  codes, same, take, drop,
}
use ai_scan_interceptor.Strings.{has_prefix, contains, index, trim_space, trim_prefix, cut_at, join}
use ai_scan_interceptor.Strings.Lines.{crlf}
use ai_scan_interceptor.Icap.Services.{
  Extractor, extract_open_ai, extract_chat_gpt_web, extract_claude, extract_anthropic_api,
  extract_gemini, extract_gemini_web,
}
use ai_scan_interceptor.Icap.Detect.{is_multipart}
use ai_scan_interceptor.Icap.Extract.{
  ChatMessage, WebMessage, TypedText, ClaudeMessage, ContentPart, AnthropicRequest, FilePart,
  Decoders, newline, with_text, some_or_empty, strip_system_tags, joined_some,
}
use ai_scan_interceptor.Icap.Extract.Gemini.{extract_gemini_body, extract_gemini_web_body}

module _ (d : Decoders) where
  -- the text of one part; a document counts if its text is inline
  source_text : Option TypedText → Bytes
  source_text none = []
  source_text (some src) = if same src.kind (codes "text") then src.text else []

  part_text : ContentPart → Bytes
  unfolding source_text
  part_text p =
      if same p.kind (codes "text") || same p.kind []
      then p.text
      else if same p.kind (codes "document") && not (same p.source [])
      then source_text (d.document_source p.source)
      else []

  part_texts : List ContentPart → List Bytes
  unfolding part_text
  part_texts [] = []
  part_texts (p ∷ ps) = if same (part_text p) [] then part_texts ps else part_text p ∷ part_texts ps

  joined_parts : Option (List ContentPart) → Option Bytes
  unfolding part_texts join
  joined_parts none = none
  joined_parts (some ps) = some (join (part_texts ps) (codes " "))

  string_or : Bytes → Option Bytes → Option Bytes
  unfolding joined_parts
  string_or raw (some s) = some s
  string_or raw none = joined_parts (d.content_parts raw)

  -- `extractStringOrParts`
  unfoldable pub extract_string_or_parts : Bytes → Option Bytes
  unfolding string_or
  extract_string_or_parts raw = string_or raw (d.json_string raw)

  unfoldable pub is_user_or_system : Bytes → Bool
  is_user_or_system role = same role (codes "user") || same role (codes "system")

  is_user_or_human : Bytes → Bool
  is_user_or_human role = same role (codes "user") || same role (codes "human")

  chat_texts : List ChatMessage → List Bytes
  unfolding extract_string_or_parts is_user_or_system
  chat_texts [] = []
  chat_texts (m ∷ ms) =
      if is_user_or_system m.role
      then with_text m.role (some_or_empty (extract_string_or_parts m.content)) (chat_texts ms)
      else chat_texts ms

  joined_chat : Option (List ChatMessage) → Option Bytes
  unfolding chat_texts join
  joined_chat none = none
  joined_chat (some ms) = some (join (chat_texts ms) newline)

  -- `extractOpenAI`
  unfoldable pub extract_open_ai_body : Bytes → Option Bytes
  unfolding joined_chat
  extract_open_ai_body body = joined_chat (d.chat_messages body)

  web_texts : List WebMessage → List Bytes
  unfolding is_user_or_system join
  web_texts [] = []
  web_texts (m ∷ ms) =
      if is_user_or_system m.role
      then with_text m.role (join m.parts (codes " ")) (web_texts ms)
      else web_texts ms

  web_or : Bytes → List Bytes → Option Bytes
  unfolding extract_open_ai_body join
  web_or body [] = extract_open_ai_body body
  web_or body (t ∷ ts) = some (join (t ∷ ts) newline)

  web_decoded : Bytes → Option (List WebMessage) → Option Bytes
  unfolding web_or web_texts
  web_decoded body none = extract_open_ai_body body
  web_decoded body (some ms) = web_or body (web_texts ms)

  -- `extractChatGPTWeb`
  unfoldable pub extract_chat_gpt_web_body : Bytes → Option Bytes
  unfolding web_decoded
  extract_chat_gpt_web_body body = web_decoded body (d.web_messages body)

  is_text_part : FilePart → Bool
  is_text_part p =
      has_prefix p.content_type (codes "text/")
      || (not (same p.file_name [])
          && (same p.content_type [] || contains p.content_type (codes "octet-stream")))

  file_texts : List FilePart → List Bytes
  unfolding is_text_part
  file_texts [] = []
  file_texts (p ∷ ps) =
      if is_text_part p && not (same p.content []) then p.content ∷ file_texts ps else file_texts ps

  -- some text, or an error if there is none
  multipart_at : Bytes → Option ℕ → Option Bytes
  unfolding joined_some file_texts
  multipart_at body none = none
  multipart_at body (some line_end) =
      if ltb line_end 3 || not (has_prefix body (codes "--"))
      then none
      else joined_some (file_texts (d.file_parts (drop 2 (take line_end body)) body))

  -- `extractMultipartFile`
  unfoldable pub extract_multipart_file : Bytes → Option Bytes
  unfolding multipart_at index
  extract_multipart_file body = multipart_at body (index body crlf)

  content_texts : Bytes → List TypedText → List Bytes → List Bytes
  content_texts role [] rest = rest
  content_texts role (c ∷ cs) rest =
      if same c.kind (codes "text")
      then with_text role c.text (content_texts role cs rest)
      else content_texts role cs rest

  claude_texts : List ClaudeMessage → List Bytes
  unfolding content_texts is_user_or_human
  claude_texts [] = []
  claude_texts (m ∷ ms) =
      if is_user_or_human m.role
      then content_texts m.role m.content (claude_texts ms)
      else claude_texts ms

  decoded_claude : Option (List ClaudeMessage) → List Bytes
  unfolding claude_texts
  decoded_claude none = []
  decoded_claude (some ms) = claude_texts ms

  -- the legacy format: the text between the two speakers' names
  legacy_prompt : Option Bytes → Option Bytes
  unfolding trim_prefix index cut_at
  legacy_prompt none = none
  legacy_prompt (some prompt) =
      let p = trim_prefix prompt (10 ∷ 10 ∷ codes "Human: ") in
      if same prompt []
      then none
      else some (trim_space (cut_at p (index p (10 ∷ 10 ∷ codes "Assistant:"))))

  claude_or : Bytes → List Bytes → Option Bytes
  unfolding legacy_prompt join
  claude_or body [] = legacy_prompt (d.prompt_field body)
  claude_or body (t ∷ ts) = some (join (t ∷ ts) newline)

  -- `extractClaude`
  unfoldable pub extract_claude_body : Bytes → Option Bytes
  unfolding claude_or decoded_claude extract_multipart_file is_multipart
  extract_claude_body body =
      if is_multipart body
      then extract_multipart_file body
      else claude_or body (decoded_claude (d.claude_messages body))

  -- the text of the last message of a user that has one, or else `last`
  last_user_text : List ChatMessage → Bytes → Bytes
  unfolding extract_string_or_parts is_user_or_human
  last_user_text [] last = last
  last_user_text (m ∷ ms) last =
      let text = some_or_empty (extract_string_or_parts m.content) in
      last_user_text ms (if is_user_or_human m.role && not (same text []) then text else last)

  system_texts : Bytes → List Bytes
  unfolding extract_string_or_parts
  system_texts raw =
      let sys = some_or_empty (extract_string_or_parts raw) in
      if same raw [] || has_prefix sys (codes "x-anthropic-billing-header:")
      then []
      else with_text (codes "system") sys []

  user_texts : Bytes → List Bytes
  unfolding strip_system_tags
  user_texts text =
      if same text [] then [] else with_text (codes "user") (strip_system_tags text) []

  joined_anthropic : Option AnthropicRequest → Option Bytes
  unfolding system_texts user_texts last_user_text join
  joined_anthropic none = none
  joined_anthropic (some r) =
      some (join (system_texts r.system ++ user_texts (last_user_text r.messages [])) newline)

  -- `extractAnthropicAPI`
  unfoldable pub extract_anthropic_api_body : Bytes → Option Bytes
  unfolding joined_anthropic
  extract_anthropic_api_body body = joined_anthropic (d.anthropic_request body)

  -- the call of the `Extract` field
  unfoldable pub extract_with : Extractor → Bytes → Option Bytes
  unfolding extract_open_ai_body extract_chat_gpt_web_body extract_claude_body extract_gemini_body
  extract_with extract_open_ai = extract_open_ai_body
  extract_with extract_chat_gpt_web = extract_chat_gpt_web_body
  extract_with extract_claude = extract_claude_body
  extract_with extract_anthropic_api = extract_anthropic_api_body
  extract_with extract_gemini = extract_gemini_body d
  extract_with extract_gemini_web = extract_gemini_web_body d
