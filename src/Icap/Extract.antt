-- ===== src/Icap/Extract.antt =====
-- The prompts of requests: the extractors of icap-server/detection/patterns.go. What encoding/json,
-- net/url and mime/multipart make of a body is the record `Decoders`, with one operation for each
-- Go type that a body is decoded into; `none` stands for an error.
pub mod Strip
pub mod Bodies
pub mod Gemini
pub mod Gather
pub mod Examples
use ai_scan_interceptor.Base.{
  ℕ, zero, suc, ◌+◌, Bool, true, false, not, ◌&&◌, ◌||◌, Option, none, some, List, [], ◌∷◌, ◌++◌,
  if◌then◌else◌, ltb, leb, Bytes, codes, same, length, take, drop,
}
use ai_scan_interceptor.Strings.{has_prefix, contains, index, trim_space, trim_prefix, cut_at, join}
use ai_scan_interceptor.Strings.Lines.{crlf}
use ai_scan_interceptor.Icap.Services.{
  Extractor, extract_open_ai, extract_chat_gpt_web, extract_claude, extract_anthropic_api,
  extract_gemini, extract_gemini_web,
}
use ai_scan_interceptor.Icap.Detect.{is_multipart}
use ai_scan_interceptor.Icap.Json.{
  Json, null, boolean, number, string, array, object, Items, nil, cons, Fields, end, field,
}

-- the Go types that bodies are decoded into; `content` and `source` are raw JSON
pub record ChatMessage : Type 0 where
  pub role : Bytes
  pub content : Bytes

pub record WebMessage : Type 0 where
  pub role : Bytes
  pub parts : List Bytes

pub record TypedText : Type 0 where
  pub kind : Bytes
  pub text : Bytes

pub record ClaudeMessage : Type 0 where
  pub role : Bytes
  pub content : List TypedText

pub record GeminiContent : Type 0 where
  pub role : Bytes
  pub parts : List Bytes

pub record ContentPart : Type 0 where
  pub kind : Bytes
  pub text : Bytes
  pub source : Bytes

pub record AnthropicRequest : Type 0 where
  pub system : Bytes
  pub messages : List ChatMessage

pub record FilePart : Type 0 where
  pub content_type : Bytes
  pub file_name : Bytes
  pub content : Bytes

pub record Decoders : Type 0 where
  pub chat_messages : Bytes → Option (List ChatMessage)
  pub web_messages : Bytes → Option (List WebMessage)
  pub claude_messages : Bytes → Option (List ClaudeMessage)
  pub prompt_field : Bytes → Option Bytes
  pub gemini_contents : Bytes → Option (List GeminiContent)
  pub anthropic_request : Bytes → Option AnthropicRequest
  pub content_parts : Bytes → Option (List ContentPart)
  pub document_source : Bytes → Option TypedText
  pub json_string : Bytes → Option Bytes
  pub json_values : Bytes → Option (List Bytes)
  pub json_value_lists : Bytes → Option (List (List Bytes))
  pub json_any : Bytes → Option Json
  pub form_field : Bytes → Bytes → Option Bytes
  pub file_parts : Bytes → Bytes → List FilePart

-- `[role] text`, and the texts one after the other
abbrev pub tagged : Bytes → Bytes → Bytes
tagged role text = codes "[" ++ (role ++ (codes "] " ++ text))

abbrev pub newline : Bytes
newline = 10 ∷ []

-- `texts = append(texts, text)` unless the text is empty
abbrev pub with_text : Bytes → Bytes → List Bytes → List Bytes
with_text role text rest = if same text [] then rest else tagged role text ∷ rest

abbrev pub some_or_empty : Option Bytes → Bytes
some_or_empty none = []
some_or_empty (some s) = s

-- the loop over one tag: a block is cut out, and a tag that is not closed cuts all that follows
after_close : (Bytes → Bytes) → Bytes → ℕ → ℕ → Option ℕ → Bytes
after_close next s start close_len none = take start s
after_close next s start close_len (some stop) =
    next (take start s ++ drop (start + stop + close_len) s)

after_open : (Bytes → Bytes) → Bytes → Bytes → Option ℕ → Bytes
unfolding after_close index
after_open next closing s none = s
after_open next closing s (some start) =
    after_close next s start (length closing) (index (drop start s) closing)

unfoldable pub strip_loop : ℕ → Bytes → Bytes → Bytes → Bytes
unfolding after_open index
strip_loop zero opening closing s = s
strip_loop (suc f) opening closing s =
    after_open (λ t. strip_loop f opening closing t) closing s (index s opening)

-- each round shortens the text, so its length is enough fuel
unfoldable pub strip_tag : Bytes → Bytes → Bytes
unfolding strip_loop
strip_tag tag s =
    strip_loop (suc (length s)) (codes "<" ++ (tag ++ codes ">")) (codes "</" ++ (tag ++ codes ">"))
      s

-- `stripSystemTags`
unfoldable pub strip_system_tags : Bytes → Bytes
unfolding strip_tag
strip_system_tags s =
    trim_space (strip_tag (codes "system") (strip_tag (codes "system-reminder") s))

-- `gatherStrings`
unfoldable mutual
  pub gather_strings : ℕ → Json → List Bytes → List Bytes
  gather_strings min_len null out = out
  gather_strings min_len (boolean b) out = out
  gather_strings min_len (number n) out = out
  gather_strings min_len (string s) out = if leb min_len (length s) then out ++ s ∷ [] else out
  gather_strings min_len (array xs) out = gather_items min_len xs out
  gather_strings min_len (object fs) out = gather_fields min_len fs out

  pub gather_items : ℕ → Items → List Bytes → List Bytes
  gather_items min_len nil out = out
  gather_items min_len (cons x xs) out = gather_items min_len xs (gather_strings min_len x out)

  pub gather_fields : ℕ → Fields → List Bytes → List Bytes
  gather_fields min_len end out = out
  gather_fields min_len (field k x fs) out = gather_fields min_len fs (gather_strings min_len x out)

unfoldable pub joined_some : List Bytes → Option Bytes
unfolding join
joined_some [] = none
joined_some (t ∷ ts) = some (join (t ∷ ts) newline)
