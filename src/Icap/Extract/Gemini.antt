-- ===== src/Icap/Extract/Gemini.antt =====
-- The extractors of icap-server/detection/patterns.go for the bodies of Google's services.
use ai_scan_interceptor.Base.{Option, none, some, List, [], ◌∷◌, if◌then◌else◌, Bytes, codes, same}
use ai_scan_interceptor.Strings.{join}
use ai_scan_interceptor.Icap.Json.{Json}
use ai_scan_interceptor.Icap.Extract.{
  GeminiContent, Decoders, newline, with_text, joined_some, gather_strings,
}

module _ (d : Decoders) where
  role_texts : Bytes → List Bytes → List Bytes → List Bytes
  role_texts role [] rest = rest
  role_texts role (p ∷ ps) rest = with_text role p (role_texts role ps rest)

  gemini_texts : List GeminiContent → List Bytes
  unfolding role_texts
  gemini_texts [] = []
  gemini_texts (c ∷ cs) =
      role_texts (if same c.role [] then codes "user" else c.role) c.parts (gemini_texts cs)

  joined_gemini : Option (List GeminiContent) → Option Bytes
  unfolding gemini_texts join
  joined_gemini none = none
  joined_gemini (some cs) = some (join (gemini_texts cs) newline)

  -- `extractGemini`
  unfoldable pub extract_gemini_body : Bytes → Option Bytes
  unfolding joined_gemini
  extract_gemini_body body = joined_gemini (d.gemini_contents body)

  nested_payload : Option (List (List Bytes)) → Option Bytes
  nested_payload (some ((id ∷ payload ∷ more) ∷ lists)) = d.json_string payload
  nested_payload _ = none

  flat_payload : Bytes → Option Bytes → Option Bytes
  unfolding nested_payload
  flat_payload first (some payload) = some payload
  flat_payload first none = nested_payload (d.json_value_lists first)

  outer_payload : Option (List Bytes) → Option Bytes
  unfolding flat_payload
  outer_payload (some (first ∷ second ∷ more)) = flat_payload first (d.json_string second)
  outer_payload _ = none

  -- `extractGeminiPayloadStr`
  unfoldable pub extract_gemini_payload_str : Bytes → Option Bytes
  unfolding outer_payload
  extract_gemini_payload_str f_req = outer_payload (d.json_values f_req)

  gathered : Option Json → Option Bytes
  unfolding gather_strings joined_some
  gathered none = none
  gathered (some j) = joined_some (gather_strings 10 j [])

  payload_text : Option Bytes → Option Bytes
  unfolding gathered
  payload_text none = none
  payload_text (some payload) = gathered (d.json_any payload)

  request_text : Option Bytes → Option Bytes
  unfolding payload_text extract_gemini_payload_str
  request_text none = none
  request_text (some f_req) =
      if same f_req [] then none else payload_text (extract_gemini_payload_str f_req)

  -- `extractGeminiWeb`
  unfoldable pub extract_gemini_web_body : Bytes → Option Bytes
  unfolding request_text
  extract_gemini_web_body body = request_text (d.form_field (codes "f.req") body)
