-- ===== src/Icap/Server/RoundTrip.antt =====
-- A message that a client writes is read back by `readRequest`.
use ai_scan_interceptor.Base.{
  ℕ, suc, ◌^◌, ◌≤◌, ◌<◌, ◌≡◌, refl, true, false, Option, List, [], ◌∷◌, ◌++◌, arith, Bytes, codes,
  same, same_refl, All, All-append, pos, length, length-append, find_key,
}
use ai_scan_interceptor.Strings.{to_lower, lower_byte}
use ai_scan_interceptor.Strings.Plain.{IsPlain}
use ai_scan_interceptor.Strings.Lines.{crlf}
use ai_scan_interceptor.Icap.Chunks.{done, max_body_size}
use ai_scan_interceptor.Icap.Chunks.RoundTrip.{
  IsChunk, encode_chunks, joined, read_chunked-encode_chunks,
}
use ai_scan_interceptor.Icap.Server.{
  icap_version, Header, get_header, value_or, and_then, read_body, parsed_request, read_sections,
  after_headers, after_start, read_request,
}
use ai_scan_interceptor.Icap.Server.Encapsulated.{
  encapsulated_body, parse_encapsulated-body, encapsulated_body-no_newline, encapsulated_body-last,
}
use ai_scan_interceptor.Icap.Server.Fields.{
  IsHeader, header_lines, stored_header, stored, read_headers-lines, lines_le, start_line, IsWord,
  split3-start_line, read_start-line, read_head-exact,
}

abbrev pub encapsulated_header : Bytes → Header
encapsulated_header head = record {
  name = codes "Encapsulated";
  value = encapsulated_body (length head);
}

-- What a client writes for a request with a body: the start line, its headers, the header that tells
-- the length of the HTTP headers, these headers, the body in chunks, and then `rest`.
unfoldable pub wire : Bytes → Bytes → List Header → Bytes → List Bytes → Bytes → Bytes
unfolding start_line header_lines encode_chunks
wire m u hs head cs rest =
    start_line m u
    ++ (crlf
        ++ (header_lines (hs ++ encapsulated_header head ∷ [])
            ++ (crlf ++ (head ++ (encode_chunks cs ++ rest)))))

encapsulated-IsHeader : (head : Bytes) → length head < 2 ^ 63 → IsHeader (encapsulated_header head)
encapsulated-IsHeader head h = (
  ground arith,
  (
    encapsulated_body-no_newline (length head),
    (omega arith, omega arith),
    encapsulated_body-last (length head) h,
  ),
)

-- a message in the limits
abbrev pub IsMessage : ℕ → Bytes → Bytes → List Header → Bytes → List Bytes → Type 0
IsMessage max_alloc m u hs head cs =
    (IsWord m × (same m (codes "OPTIONS") ≡ false) × All IsPlain u)
    × (All IsHeader hs × (length head ≤ max_alloc) × (length head < 2 ^ 63))
    × (All IsChunk cs × (length (joined cs) ≤ max_body_size))

module _ (lower_runes : Bytes → Bytes) (max_alloc : ℕ) {Q R : Type 0}
    (parse_http_request : Bytes → Option Q) (parse_http_response : Bytes → Option R) where
  sections-wire :
      (m u : Bytes) (hs : List Header) (head : Bytes) (cs : List Bytes) (rest : Bytes)
      → length head ≤ max_alloc
      → All IsChunk cs
      → length (joined cs) ≤ max_body_size
      → read_sections lower_runes max_alloc parse_http_request parse_http_response m u hs
          (pos (length head), true)
          (head ++ (encode_chunks cs ++ rest))
        ≡ done
            (parsed_request lower_runes max_alloc parse_http_request parse_http_response m u hs head
              (joined cs))
            rest
  unfolding read_sections read_body and_then
  sections-wire m u hs head cs rest h k l =
      rw
        (
          read_head-exact max_alloc head (encode_chunks cs ++ rest) h,
          read_chunked-encode_chunks cs rest k l,
        )
        refl

  stored-append :
      (hs : List Header) (h : Header) (acc : List Header)
      → stored lower_runes (hs ++ h ∷ []) acc
        ≡ stored_header lower_runes h ∷ stored lower_runes hs acc
  stored-append [] h acc = refl
  stored-append (x ∷ hs) h acc = stored-append hs h (stored_header lower_runes x ∷ acc)

  -- the headers that a message leaves in the request
  abbrev pub kept : List Header → Bytes → List Header
  kept hs head = stored_header lower_runes (encapsulated_header head) ∷ stored lower_runes hs []

  encapsulated_found :
      (hs : List Header) (head : Bytes)
      → get_header (codes "encapsulated") (kept hs head) ≡ encapsulated_body (length head)
  unfolding get_header value_or find_key to_lower lower_byte same
  encapsulated_found hs head = refl

  headers-wire :
      (m u : Bytes) (hs : List Header) (head : Bytes) (cs : List Bytes) (rest : Bytes)
      → IsMessage max_alloc m u hs head cs
      → after_headers lower_runes max_alloc parse_http_request parse_http_response m u
          (kept hs head)
          (head ++ (encode_chunks cs ++ rest))
        ≡ done
            (parsed_request lower_runes max_alloc parse_http_request parse_http_response m u
              (kept hs head)
              head
              (joined cs))
            rest
  unfolding after_headers
  headers-wire m u hs head cs rest h =
      rw (h.0.1, encapsulated_found hs head, parse_encapsulated-body (length head) h.1.2)
        (sections-wire m u (kept hs head) head cs rest h.1.1 h.2.0 h.2.1)

  -- A message in the limits is read as the client meant it: the method and the address, its headers,
  -- the bytes of the HTTP headers with what Go's parser makes of them, and the body put together
  -- from its chunks. What follows the message is left.
  pub read_request-wire :
      (m u : Bytes) (hs : List Header) (head : Bytes) (cs : List Bytes) (rest : Bytes)
      → IsMessage max_alloc m u hs head cs
      → read_request lower_runes max_alloc parse_http_request parse_http_response
          (wire m u hs head cs rest)
        ≡ done
            (parsed_request lower_runes max_alloc parse_http_request parse_http_response m u
              (kept hs head)
              head
              (joined cs))
            rest
  unfolding read_request wire after_start and_then
  read_request-wire m u hs head cs rest h =
      let all = hs ++ encapsulated_header head ∷ [] in
      let sent = head ++ (encode_chunks cs ++ rest) in
      let t = header_lines all ++ (crlf ++ sent) in
      rw
        (
          read_start-line (length (start_line m u ++ (crlf ++ t))) m u t h.0.0 h.0.2,
          split3-start_line m u h.0.0 h.0.2,
          same_refl icap_version,
          read_headers-lines lower_runes (suc (length t)) all [] sent
              (omega
                (arith, lines_le lower_runes all, length-append (header_lines all) (crlf ++ sent)))
              (All-append IsHeader hs (encapsulated_header head ∷ []) h.1.0
                (encapsulated-IsHeader head h.1.2, tt)),
          stored-append hs (encapsulated_header head) [],
        )
        (headers-wire m u hs head cs rest h)
