-- ===== src/Icap/Services.antt =====
-- The table of AI services: icap-server/detection/patterns.go, and the names of hosts in
-- detector.go. Regular expressions are their source text.
pub mod Ports
use ai_scan_interceptor.Base.{
  ℕ, Bool, true, false, not, ◌&&◌, ◌||◌, Option, none, some, List, [], ◌∷◌, if◌then◌else◌, Bytes,
  codes, same, any, drop,
}
use ai_scan_interceptor.Strings.{has_prefix, has_suffix, before_last}

-- the functions of the `Extract` field
pub data Extractor : Type 0 where
  extract_open_ai extract_chat_gpt_web extract_claude : Extractor
  extract_anthropic_api extract_gemini extract_gemini_web : Extractor

-- `serviceRule`
pub record ServiceRule : Type 0 where
  pub name : Bytes
  pub hosts : List Bytes
  pub path_regex : Bytes
  pub extract : Extractor

abbrev service : Bytes → List Bytes → Bytes → Extractor → ServiceRule
service name hosts path extract = record {
  name = name;
  hosts = hosts;
  path_regex = path;
  extract = extract;
}

-- `rules`
unfoldable pub rules : List ServiceRule
rules =
    service (codes "ChatGPT") (codes "api.openai.com" ∷ codes "chatgpt.com" ∷ [])
      (codes "^/v1/chat/completions") extract_open_ai
    ∷ service (codes "ChatGPT-Web") (codes "chatgpt.com" ∷ []) (codes "^/backend-api/conversation")
        extract_chat_gpt_web
    ∷ service (codes "Claude") (codes "claude.ai" ∷ codes "api.anthropic.com" ∷ []) (codes "^/api/")
        extract_claude
    ∷ service (codes "Claude-API") (codes "api.anthropic.com" ∷ []) (codes "^/v1/")
        extract_anthropic_api
    ∷ service (codes "Claude-Web") (codes "a-api.anthropic.com" ∷ []) (codes "^/v1/")
        extract_anthropic_api
    ∷ service (codes "Gemini")
        (codes "generativelanguage.googleapis.com" ∷ codes "gemini.google.com" ∷ [])
        (codes "/(?:v1beta|v1)/models/[^/:]+[/:](?:generateContent|streamGenerateContent)")
        extract_gemini
    ∷ service (codes "Gemini-Web") (codes "gemini.google.com" ∷ [])
        (codes "/_/BardChatUi/data/.*StreamGenerate") extract_gemini_web
    ∷ service (codes "GitHub-Copilot") (codes "api.githubcopilot.com" ∷ [])
        (codes "^/chat/completions") extract_open_ai
    ∷ service (codes "Azure-OpenAI") (codes "*.openai.azure.com" ∷ [])
        (codes "/openai/deployments/[^/]+/chat/completions") extract_open_ai
    ∷ []

-- a host of the table, which may start with a wildcard
unfoldable pub host_matches : Bytes → Bytes → Bool
host_matches host h = if has_prefix h (codes "*.") then has_suffix host (drop 1 h) else same h host

module _ (match_string : Bytes → Bytes → Bool) where
  -- the loop of `findRule`
  unfoldable pub find_in : List ServiceRule → Bytes → Bytes → Option ServiceRule
  find_in [] host path = none
  find_in (r ∷ rs) host path =
      if any (λ h. host_matches host h && match_string r.path_regex path) r.hosts
      then some r
      else find_in rs host path

  -- `findRule`, where 58 is a colon
  unfoldable pub find_rule : Bytes → Bytes → Option ServiceRule
  unfolding find_in rules
  find_rule host path = find_in rules (before_last host 58) path

name_in : List ServiceRule → Bytes → Option Bytes
unfolding host_matches
name_in [] host = none
name_in (r ∷ rs) host = if any (host_matches host) r.hosts then some r.name else name_in rs host

name_or : Option Bytes → Bytes → Bytes
name_or (some n) host = n
name_or none host =
    if has_suffix host (codes ".googleapis.com")
    then codes "Gemini"
    else if has_suffix host (codes ".openai.com")
    then codes "ChatGPT"
    else if has_suffix host (codes ".anthropic.com")
    then codes "Claude-API"
    else if has_suffix host (codes ".microsoft.com") || has_suffix host (codes ".bing.com")
    then codes "Copilot"
    else codes "Unknown"

-- `knownAIServiceName`
unfoldable pub known_ai_service_name : Bytes → Bytes
unfolding name_in name_or rules
known_ai_service_name host = let h = before_last host 58 in name_or (name_in rules h) h

-- `isKnownAIHost`, which drops a port before the call that drops one again
unfoldable pub is_known_ai_host : Bytes → Bool
unfolding known_ai_service_name
is_known_ai_host host = not (same (known_ai_service_name (before_last host 58)) (codes "Unknown"))
