-- ===== src/Icap/Mask/Examples.antt =====
-- The theorems on masking, at small bodies.
use ai_scan_interceptor.Base.{
  ℕ, ◌≡◌, refl, Bool, true, false, Option, none, some, List, [], ◌∷◌, ◌++◌, Bytes, codes, same, any,
  missing, if◌then◌else◌,
}
use ai_scan_interceptor.Icap.Policy.{Config}
use ai_scan_interceptor.Icap.Rules.{AlertRule}
use ai_scan_interceptor.Icap.Services.{Extractor}
use ai_scan_interceptor.Icap.Identity.{ip_only}
use ai_scan_interceptor.Icap.Handler.{HttpRequest}
use ai_scan_interceptor.Icap.Json.{
  Json, null, string, array, object, nil, cons, end, field, strings, map_strings,
}
use ai_scan_interceptor.Icap.Mask.{mask_sensitive, mask_any, mask_json_strings}
use ai_scan_interceptor.Icap.Mask.Tree.{hide, is_changed, mask_any-map_strings}
use ai_scan_interceptor.Icap.Mask.Body.{mask_json_strings-decodes}

-- a regular expression that matches all of one text
abbrev replace_all : Bytes → Bytes → Bytes → Bytes
replace_all pattern repl text = if same text pattern then repl else text

abbrev key_rule : AlertRule
key_rule = record {
  id = codes "KEY";
  severity = codes "high";
  description = [];
  pattern = codes "key";
  negative_context = [];
  scan_body = true;
  mask_body = true;
  mask_replacement = [];
}

abbrev tree : Json
tree = object (field (codes "prompt") (array (cons (string (codes "key")) (cons null nil))) end)

abbrev hidden_tree : Json
hidden_tree =
    object (field (codes "prompt") (array (cons (string (codes "[REDACTED]")) (cons null nil))) end)

mask_any-map_strings_example :
    ((mask_any replace_all (key_rule ∷ []) tree).0
      ≡ map_strings (hide replace_all (key_rule ∷ [])) tree)
    × ((mask_any replace_all (key_rule ∷ []) tree).1
        ≡ any (is_changed replace_all (key_rule ∷ [])) (strings tree))
mask_any-map_strings_example = mask_any-map_strings replace_all (key_rule ∷ []) tree

-- a decoder and an encoder of the two trees
abbrev decode : Bytes → Option Json
decode text =
    if same text (codes "old")
    then some tree
    else if same text (codes "new")
    then some hidden_tree
    else none

abbrev encode : Json → Option Bytes
encode j = some (codes "new" ++ 10 ∷ [])

old_decodes : decode (codes "old") ≡ some tree
unfolding same
old_decodes = refl

new_decodes : decode (codes "new") ≡ some (map_strings (hide replace_all (key_rule ∷ [])) tree)
unfolding same map_strings mask_sensitive
new_decodes = refl

mask_json_strings-decodes_example :
    decode (mask_json_strings replace_all (key_rule ∷ []) decode encode (codes "old"))
    ≡ some (map_strings (hide replace_all (key_rule ∷ [])) tree)
mask_json_strings-decodes_example =
    mask_json_strings-decodes replace_all (key_rule ∷ []) decode encode (codes "old") (codes "new")
      tree old_decodes refl new_decodes

abbrev nowhere : Bytes → Bytes → Option (ℕ × ℕ)
nowhere pattern text = none

abbrev no_match : Bytes → Bytes → Bool
no_match pattern text = false

abbrev unchanged : Bytes → Bytes
unchanged s = s

abbrev no_names : Bytes → Bytes → List Bytes
no_names boundary body = []

abbrev all_text : Bytes → Option Bytes
all_text body = some body

abbrev extract_all : Extractor → Bytes → Option Bytes
extract_all e body = some body

abbrev redact : Bytes → Bytes → Bytes → Bytes
redact body host path = codes "[REDACTED]"

abbrev upload_request : HttpRequest
upload_request = record {
  host = codes "claude.ai";
  path = codes "/upload";
  method = codes "POST";
  body = codes "--b";
  client_ip = codes "10.0.0.7:4711";
  identity = ([], ip_only);
}

-- a policy that masks everywhere
abbrev masking : Config
masking = record {
  data_policy = record { global_mode = codes "mask"; service_modes = []; updated_at = 0 };
  disk = missing;
}
