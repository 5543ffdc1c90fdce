-- ===== src/Icap/Chats/Examples.antt =====
-- One rule for AWS keys, one chat with such a key, and a stand-in for Go's regexp package that finds
-- its pattern as plain text.
use mathlib.Core.Option
use ai_scan_interceptor.Base.{
  ℕ, suc, ◌+◌, ◌≡◌, ◌≢◌, ◌⊎◌, inl, refl, Bool, true, false, if◌then◌else◌, Option, none, some, List,
  [], ◌∷◌, ◌++◌, Bytes, codes, same, length, drop, missing, find_key,
}
use ai_scan_interceptor.Strings.{index, has_prefix, has_suffix, before_last, without_byte}
use ai_scan_interceptor.Icap.Policy.{Config, get_mode, mode_block, mode_mask}
use ai_scan_interceptor.Icap.Rules.{AlertRule, match_rule}
use ai_scan_interceptor.Icap.Services.{ServiceRule, extract_open_ai, find_rule, host_matches}
use ai_scan_interceptor.Icap.Extract.{ChatMessage, Decoders}
use ai_scan_interceptor.Icap.Extract.Bodies.{extract_string_or_parts, is_user_or_system}
use ai_scan_interceptor.Icap.Detect.{is_inspected}
use ai_scan_interceptor.Icap.Identity.{ip_only}
use ai_scan_interceptor.Icap.Handler.{blocked, masked, HttpRequest, serve_reqmod}
use ai_scan_interceptor.Icap.Chats.{detect_chat, IsFoundIn, serve_reqmod-chat}

find_plain : Bytes → Bytes → Option (ℕ × ℕ)
find_plain p s = Option.map (λ i. (i, i + length p)) (index s p)

-- the path tests of the table start with an anchor
abbrev match_path : Bytes → Bytes → Bool
match_path p s = has_prefix s (drop 1 p)

abbrev keep : Bytes → Bytes
keep s = s

abbrev no_names : Bytes → Bytes → List Bytes
no_names boundary body = []

abbrev aws_rule : AlertRule
aws_rule = record {
  id = codes "CRED-003";
  severity = codes "critical";
  description = codes "AWS Access Key ID";
  pattern = codes "AKIA";
  negative_context = [];
  scan_body = true;
  mask_body = true;
  mask_replacement = [];
}

abbrev chat_gpt : ServiceRule
chat_gpt = record {
  name = codes "ChatGPT";
  hosts = codes "api.openai.com" ∷ codes "chatgpt.com" ∷ [];
  path_regex = codes "^/v1/chat/completions";
  extract = extract_open_ai;
}

-- a chat of a system message and a user's message, whose contents are JSON strings
abbrev greeting : ChatMessage
greeting = record { role = codes "system"; content = codes "\"hi\"" }

abbrev question : ChatMessage
question = record { role = codes "user"; content = codes "\"AKIA key\"" }

abbrev decoders : Decoders
decoders = record {
  chat_messages = λ body. some (greeting ∷ question ∷ []);
  web_messages = λ body. none;
  claude_messages = λ body. none;
  prompt_field = λ body. none;
  gemini_contents = λ body. none;
  anthropic_request = λ body. none;
  content_parts = λ raw. none;
  document_source = λ raw. none;
  json_string = λ raw. some (without_byte 34 raw);
  json_values = λ raw. none;
  json_value_lists = λ raw. none;
  json_any = λ raw. none;
  form_field = λ name body. none;
  file_parts = λ boundary body. [];
}

asked : extract_string_or_parts decoders question.content ≡ some (codes "AKIA key")
unfolding extract_string_or_parts without_byte
asked = refl

user_counts : is_user_or_system decoders (codes "user") ≡ true
unfolding is_user_or_system same
user_counts = refl

key_given : same (codes "AKIA key") [] ≡ false
unfolding same
key_given = refl

abbrev blocking : Config
blocking = record {
  data_policy = record { global_mode = codes "block"; service_modes = []; updated_at = 0 };
  disk = missing;
}

abbrev chat_request : HttpRequest
chat_request = record {
  host = codes "chatgpt.com";
  path = codes "/v1/chat/completions";
  method = codes "POST";
  body = codes "{}";
  client_ip = codes "10.0.0.7:4711";
  identity = ([], ip_only);
}

body_given : same (codes "{}") [] ≡ false
unfolding same
body_given = refl

post_inspected : is_inspected (codes "POST") ≡ true
unfolding is_inspected same
post_inspected = refl

chat_gpt_found :
    find_rule match_path (codes "chatgpt.com") (codes "/v1/chat/completions") ≡ some chat_gpt
unfolding find_rule host_matches has_prefix has_suffix same before_last
chat_gpt_found = refl

blocking_mode : get_mode (codes "ChatGPT") blocking ≡ mode_block
unfolding get_mode find_key
blocking_mode = refl

later_found : (b : Bool) (o : Option ℕ) → o ≢ none → (if b then some 0 else Option.map suc o) ≢ none
later_found true o h = λ e. cc
later_found false none h = h
later_found false (some i) h = λ e. cc

key_found : (pre post : Bytes) → index (pre ++ (codes "AKIA key" ++ post)) (codes "AKIA") ≢ none
unfolding index has_prefix
key_found [] post = λ e. cc
key_found (c ∷ pre) post =
    later_found (has_prefix (c ∷ (pre ++ (codes "AKIA key" ++ post))) (codes "AKIA"))
      (index (pre ++ (codes "AKIA key" ++ post)) (codes "AKIA")) (key_found pre post)

hit_of :
    (text : Bytes) (o : Option ℕ)
    → index text (codes "AKIA") ≡ o
    → o ≢ none
    → match_rule find_plain match_path aws_rule text ≢ none
unfolding find_plain match_rule
hit_of text none e h = absurd (h refl)
hit_of text (some i) e h = rw e (λ x. cc)

rule_found : IsFoundIn find_plain match_path (codes "AKIA key") aws_rule
rule_found pre post =
    hit_of (pre ++ (codes "AKIA key" ++ post))
      (index (pre ++ (codes "AKIA key" ++ post)) (codes "AKIA")) refl (key_found pre post)

serve_reqmod-chat_example :
    let out =
      serve_reqmod
        (detect_chat find_plain match_path keep no_names decoders (aws_rule ∷ []))
        (λ body host path. body)
        (some blocking)
        true
        (some chat_request) in
    ((get_mode (codes "ChatGPT") blocking ≡ mode_block) × (out.answer ≡ blocked))
    ⊎ ((get_mode (codes "ChatGPT") blocking ≡ mode_mask)
        × ((out.answer ≡ blocked) ⊎ (out.answer ≡ masked (codes "{}"))))
serve_reqmod-chat_example =
    serve_reqmod-chat find_plain match_path keep no_names decoders (λ body host path. body) blocking
      true chat_request chat_gpt [] [] aws_rule (greeting ∷ []) [] question (codes "AKIA key")
      body_given post_inspected chat_gpt_found refl refl user_counts asked key_given rule_found
      (inl blocking_mode)
