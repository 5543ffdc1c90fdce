-- ===== src/Icap/Mask.antt =====
-- Masking of what the alert rules find: icap-server/detection/mask.go. The parameters are the
-- replacement of Go's regexp package, its decoder and encoder of JSON (`none` stands for an error),
-- its parser of form values and its reader of multipart bodies.
pub mod Tree
pub mod Body
pub mod Examples
use ai_scan_interceptor.Base.{
  ℕ, zero, suc, ◌+◌, ◌-◌, Bool, true, false, not, ◌&&◌, ◌||◌, Option, none, some, List, [], ◌∷◌,
  ◌++◌, if◌then◌else◌, ltb, leb, ◌==◌, Bytes, codes, same, length, take, drop, reverse,
}
use ai_scan_interceptor.Strings.{has_prefix, contains, index}
use ai_scan_interceptor.Strings.Lines.{crlf}
use ai_scan_interceptor.Icap.Rules.{AlertRule}
use ai_scan_interceptor.Icap.Services.{ServiceRule, find_rule}
use ai_scan_interceptor.Icap.Detect.{is_multipart}
use ai_scan_interceptor.Icap.Json.{
  Json, null, boolean, number, string, array, object, Items, nil, cons, Fields, end, field,
}

-- a part of a multipart body: what its header holds in the order of one iteration, and its data
pub record Part : Type 0 where
  pub content_type : Bytes
  pub file_name : Bytes
  pub header : List (Bytes × Bytes)
  pub content : Bytes

-- what the reader gives: a part, an error while a part is read, or the end
pub data Parts : Type 0 where
  no_more broken : Parts
  part : Part → Parts → Parts

-- `[REDACTED]`, unless the rule has a replacement
abbrev replacement : AlertRule → Bytes
replacement r = if same r.mask_replacement [] then codes "[REDACTED]" else r.mask_replacement

module _ (replace_all : Bytes → Bytes → Bytes → Bytes) where
  -- `applyMaskPatterns`, and `MaskSensitive`, which does the same to the bytes of a body
  unfoldable pub mask_sensitive : List AlertRule → Bytes → Bytes
  mask_sensitive [] text = text
  mask_sensitive (r ∷ rs) text =
      mask_sensitive rs (if r.mask_body then replace_all r.pattern (replacement r) text else text)

  module _ (active : List AlertRule) where
    -- `maskAny`: the value it leaves, and whether it made a change
    unfoldable mutual
      unfolding mask_sensitive

      pub mask_any : Json → Json × Bool
      mask_any null = (null, false)
      mask_any (boolean b) = (boolean b, false)
      mask_any (number n) = (number n, false)
      mask_any (string s) =
          let hidden = mask_sensitive active s in
          if not (same hidden s) then (string hidden, true) else (string s, false)
      mask_any (array xs) = let (ys, changed) = mask_items xs in (array ys, changed)
      mask_any (object fs) = let (gs, changed) = mask_fields fs in (object gs, changed)

      pub mask_items : Items → Items × Bool
      mask_items nil = (nil, false)
      mask_items (cons x xs) =
          let (y, one) = mask_any x in
          let (ys, rest) = mask_items xs in (cons (if one then y else x) ys, one || rest)

      pub mask_fields : Fields → Fields × Bool
      mask_fields end = (end, false)
      mask_fields (field k x fs) =
          let (y, one) = mask_any x in
          let (gs, rest) = mask_fields fs in (field k (if one then y else x) gs, one || rest)

    -- `maskMultipartBody`: text parts are masked, the others and all headers are kept
    is_text : Part → Bool
    is_text p =
        has_prefix p.content_type (codes "text/")
        || (not (same p.file_name [])
            && (same p.content_type [] || contains p.content_type (codes "octet-stream")))

    write_header : List (Bytes × Bytes) → Bytes
    write_header [] = crlf
    write_header ((k, v) ∷ hs) = k ++ (codes ": " ++ (v ++ (crlf ++ write_header hs)))

    write_part : Bytes → Bool → Part → Bytes
    unfolding is_text write_header
    write_part boundary is_first p =
        (if is_first then [] else crlf)
        ++ (codes "--"
            ++ (boundary
                ++ (crlf
                    ++ (write_header p.header
                        ++ (if is_text p then mask_sensitive active p.content else p.content)))))

    write_parts : Bytes → Bytes → Bool → Parts → Option Bytes
    unfolding write_part
    write_parts boundary out is_first no_more =
        some (out ++ (crlf ++ (codes "--" ++ (boundary ++ (codes "--" ++ crlf)))))
    write_parts boundary out is_first broken = none
    write_parts boundary out is_first (part p ps) =
        write_parts boundary (out ++ write_part boundary is_first p) false ps

    -- a body that is not empty, or else the raw one masked
    unless_empty : Bytes → Option Bytes → Bytes
    unless_empty body none = mask_sensitive active body
    unless_empty body (some out) = if length out == 0 then mask_sensitive active body else out

    module _ (parts_of : Bytes → Bytes → Parts) where
      split_body : Bytes → Option ℕ → Bytes
      unfolding unless_empty write_parts
      split_body body none = mask_sensitive active body
      split_body body (some line_end) =
          let boundary = drop 2 (take line_end body) in
          if ltb line_end 3 || not (has_prefix body (codes "--"))
          then mask_sensitive active body
          else unless_empty body (write_parts boundary [] true (parts_of boundary body))

      unfoldable pub mask_multipart_body : Bytes → Bytes
      unfolding split_body index
      mask_multipart_body body = split_body body (index body crlf)

    module _ (decode : Bytes → Option Json) (encode : Json → Option Bytes) where
      -- without the line break that the encoder appends
      without_newline : Bytes → Bytes
      without_newline text =
          if leb 1 (length text) && same (drop (length text - 1) text) (10 ∷ [])
          then take (length text - 1) text
          else text

      encoded_or : Bytes → Option Bytes → Bytes
      unfolding without_newline
      encoded_or body none = body
      encoded_or body (some text) = without_newline text

      masked_tree : Bytes → Json × Bool → Bytes
      unfolding encoded_or
      masked_tree body (j, changed) = if not changed then body else encoded_or body (encode j)

      mask_decoded : Bytes → Option Json → Bytes
      unfolding masked_tree mask_any
      mask_decoded body none = mask_sensitive active body
      mask_decoded body (some j) = masked_tree body (mask_any j)

      -- `maskJSONStrings`
      unfoldable pub mask_json_strings : Bytes → Bytes
      unfolding mask_decoded
      mask_json_strings body = mask_decoded body (decode body)

      module _ {V : Type 0} (parse_query : Bytes → Option V) (get : V → Bytes → Bytes)
          (set : V → Bytes → Bytes → V) (encode_values : V → Bytes) where
        masked_form : Bytes → V → Bytes → Bytes
        unfolding mask_json_strings
        masked_form body values f_req =
            let hidden = mask_json_strings f_req in
            if same f_req []
            then body
            else if same hidden f_req
            then body
            else encode_values (set values (codes "f.req") hidden)

        mask_values : Bytes → Option V → Bytes
        unfolding masked_form
        mask_values body none = body
        mask_values body (some values) = masked_form body values (get values (codes "f.req"))

        -- `maskGeminiWebBody`
        unfoldable pub mask_gemini_web_body : Bytes → Bytes
        unfolding mask_values
        mask_gemini_web_body body = mask_values body (parse_query body)

        module _ (parts_of : Bytes → Bytes → Parts) (match_string : Bytes → Bytes → Bool) where
          mask_routed : Bytes → Option ServiceRule → Bytes
          unfolding mask_gemini_web_body mask_json_strings
          mask_routed body none = mask_sensitive active body
          mask_routed body (some r) =
              if same r.name (codes "Gemini-Web")
              then mask_gemini_web_body body
              else mask_json_strings body

          -- `MaskSensitiveForService`
          unfoldable pub mask_sensitive_for_service : Bytes → Bytes → Bytes → Bytes
          unfolding mask_routed mask_multipart_body find_rule is_multipart
          mask_sensitive_for_service body host path =
              if is_multipart body
              then mask_multipart_body parts_of body
              else mask_routed body (find_rule match_string host path)
