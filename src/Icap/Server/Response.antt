-- ===== src/Icap/Server/Response.antt =====
-- What the ICAP server writes: the responses of icap-server/icap/server.go, `ServeRESPMOD` of
-- response_handler.go, and the loop over the requests of a connection. `none` stands for a panic.
use ai_scan_interceptor.Base.{
  ℕ, suc, ◌+◌, Option, none, some, List, [], ◌∷◌, ◌++◌, ltb, Bytes, codes, same, if◌then◌else◌,
  length, take, drop,
}
use ai_scan_interceptor.Strings.{to_lower, index, last_index}
use ai_scan_interceptor.Strings.Numbers.{text}
use ai_scan_interceptor.Strings.Lines.{crlf}
use ai_scan_interceptor.Icap.Chunks.{encode_body}
use ai_scan_interceptor.Icap.Handler.{Answer, no_modification, blocked, masked}
use ai_scan_interceptor.Icap.Server.{icap_version, Request}

-- lines with their ends, and a blank one
abbrev lines : List Bytes → Bytes
lines [] = crlf
lines (l ∷ ls) = l ++ (crlf ++ lines ls)

-- `isTag` in a header, with its quotes
abbrev is_tag : Bytes
is_tag = codes "ISTag: " ++ (34 ∷ codes "AI-SCAN-1.0") ++ (34 ∷ [])

-- `WriteNoModification`
unfoldable pub write_no_modification : Bytes
write_no_modification = lines ((icap_version ++ codes " 204 No Modifications Needed") ∷ is_tag ∷ [])

-- `writeOptions`
unfoldable pub write_options : Bytes
write_options = lines (
    (icap_version ++ codes " 200 OK")
    ∷ codes "Methods: REQMOD, RESPMOD"
    ∷ codes "Service: AI-Scan-Interceptor/1.0"
    ∷ is_tag
    ∷ codes "Max-Connections: 100"
    ∷ codes "Options-TTL: 3600"
    ∷ codes "Allow: 204"
    ∷ [])

-- the default case of `serve`
abbrev pub write_not_allowed : Bytes
write_not_allowed = lines ((icap_version ++ codes " 405 Method Not Allowed") ∷ [])

-- the ICAP header of a response that encapsulates `len` bytes of headers and a body
icap_header : Bytes → Bytes → ℕ → Bytes
unfolding text
icap_header hdr body len = lines (
    (icap_version ++ codes " 200 OK")
    ∷ is_tag
    ∷ (codes "Encapsulated: " ++ (hdr ++ (codes "=0, " ++ (body ++ (codes "=" ++ text 10 len)))))
    ∷ [])

-- {"error":"Request blocked by AI governance policy"}
abbrev block_body : Bytes
block_body =
    b'{'
    ∷ 34
    ∷ (codes "error"
        ++ (34 ∷ b':' ∷ 34 ∷ (codes "Request blocked by AI governance policy" ++ (34 ∷ b'}' ∷ []))))

block_headers : Bytes
unfolding text
block_headers = lines (
    codes "HTTP/1.1 403 Forbidden"
    ∷ codes "Content-Type: application/json"
    ∷ (codes "Content-Length: " ++ text 10 (length block_body))
    ∷ [])

-- `WriteBlock`
unfoldable pub write_block : Bytes
unfolding block_headers icap_header encode_body
write_block =
    icap_header (codes "res-hdr") (codes "res-body") (length block_headers)
    ++ (block_headers ++ encode_body block_body)

unfoldable pub content_length_line : ℕ → Bytes
unfolding text
content_length_line n = codes "Content-Length: " ++ text 10 n

unfoldable pub insert_length : Bytes → ℕ → Option ℕ → Bytes
unfolding content_length_line
insert_length s n none = s
insert_length s n (some terminator) =
    take (terminator + 2) s ++ (content_length_line n ++ (crlf ++ crlf))

-- at the end of the line that begins at `start`, if it has one
unfoldable pub replace_length : Bytes → ℕ → ℕ → Option ℕ → Bytes
unfolding content_length_line insert_length last_index
replace_length s n start none = insert_length s n (last_index s (crlf ++ crlf))
replace_length s n start (some end) =
    take start s ++ (content_length_line n ++ drop (start + end) s)

unfoldable pub length_at : Bytes → ℕ → Option ℕ → Option Bytes
unfolding replace_length insert_length index last_index
length_at s n none = some (insert_length s n (last_index s (crlf ++ crlf)))
length_at s n (some i) =
    if ltb (length s) (suc i)
    then none
    else some (replace_length s n (suc i) (index (drop (suc i) s) crlf))

masked_response : Bytes → Option Bytes → Option Bytes
unfolding icap_header encode_body
masked_response body none = none
masked_response body (some hdr) =
    some
      (icap_header (codes "req-hdr") (codes "req-body") (length hdr) ++ (hdr ++ encode_body body))

without_raw : {Q : Type 0} → (Q → ℕ → Bytes) → Bytes → Option Q → Option Bytes
unfolding masked_response write_no_modification
without_raw rebuild body none = some write_no_modification
without_raw rebuild body (some q) = masked_response body (some (rebuild q (length body)))

module _ (lower_runes : Bytes → Bytes) where
  -- `rawUpdateContentLength`; the position is found in the text in lower case
  unfoldable pub raw_update_content_length : Bytes → ℕ → Option Bytes
  unfolding length_at to_lower index
  raw_update_content_length headers n =
      length_at headers n (index (to_lower lower_runes headers) (10 ∷ codes "content-length:"))

  module _ {Q R : Type 0} (rebuild : Q → ℕ → Bytes) where
    -- `WriteMasked`; `rebuild` is the header that Go's http package prints of a parsed request, with
    -- the length of the new body
    unfoldable pub write_masked : Request Q R → Bytes → Option Bytes
    unfolding without_raw masked_response raw_update_content_length
    write_masked req body =
        if same req.raw_http_headers []
        then without_raw rebuild body req.http_request
        else masked_response body (raw_update_content_length req.raw_http_headers (length body))

    -- the answer of `ServeREQMOD` as bytes
    unfoldable pub write_answer : Request Q R → Answer → Option Bytes
    unfolding write_no_modification write_block write_masked
    write_answer req no_modification = some write_no_modification
    write_answer req blocked = some write_block
    write_answer req (masked body) = write_masked req body
