-- ===== src/Icap/Server.antt =====
-- Requests on an ICAP connection: `readRequest`, `parseEncapsulated` and `serve` of
-- icap-server/icap/server.go. The parameters are Unicode lower case, the largest slice that the
-- runtime can allocate, Go's parsers of HTTP messages with their types, and the two handlers.
pub mod Response
pub mod Encapsulated
pub mod Enforced
pub mod Examples
pub mod ContentLength
pub mod Fields
pub mod RoundTrip
pub mod Serving
pub mod Termination
use ai_scan_interceptor.Base.{
  ℕ, zero, suc, Bool, true, false, not, ◌&&◌, ◌||◌, Option, none, some, List, [], ◌∷◌, ◌++◌, ltb,
  ◌==◌, Bytes, codes, same, if◌then◌else◌, length, take, drop, find_key, ℤ, pos, negsuc,
}
use ai_scan_interceptor.Strings.{trim_space, to_lower, index_byte, split, split2, split3}
use ai_scan_interceptor.Strings.Numbers.{atoi_value}
use ai_scan_interceptor.Strings.Lines.{read_line}
use ai_scan_interceptor.Icap.Chunks.{
  Read, done, failed, panicked, out_of_fuel, ReadError, end_of_stream, bad_start_line, short_header,
  read_chunked,
}

abbrev pub icap_version : Bytes
icap_version = codes "ICAP/1.0"

-- an entry of `Headers`; the latest of a name stands first
pub record Header : Type 0 where
  pub name : Bytes
  pub value : Bytes

abbrev pub name_of : Header → Bytes
name_of h = h.name

unfoldable pub value_or : Option Header → Bytes
value_or none = []
value_or (some h) = h.value

-- `req.Headers[k]`, empty if there is none
unfoldable pub get_header : Bytes → List Header → Bytes
unfolding value_or
get_header k hs = value_or (find_key name_of k hs)

-- `Request`
pub record Request (Q R : Type 0) : Type 0 where
  pub method : Bytes
  pub url : Bytes
  pub headers : List Header
  pub http_request : Option Q
  pub http_response : Option R
  pub http_body : Bytes
  pub raw_http_headers : Bytes

-- a section of the encapsulated header: what it makes of the length and the body of those before
encapsulated_value : Bytes → ℤ → ℤ × Bool → ℤ × Bool
encapsulated_value key val before =
    if same key (codes "req-body") || same key (codes "res-body")
    then (val, true)
    else if same key (codes "null-body")
    then (val, false)
    else before

encapsulated_pair : List Bytes → ℤ × Bool → ℤ × Bool
unfolding encapsulated_value
encapsulated_pair (k ∷ v ∷ []) before =
    encapsulated_value (trim_space k) (atoi_value (trim_space v)) before
encapsulated_pair _ before = before

encapsulated_parts : List Bytes → ℤ × Bool → ℤ × Bool
unfolding encapsulated_pair
encapsulated_parts [] before = before
encapsulated_parts (p ∷ ps) before =
    encapsulated_parts ps (encapsulated_pair (split2 (trim_space p) b'=') before)

-- `parseEncapsulated`
unfoldable pub parse_encapsulated : Bytes → ℤ × Bool
unfolding encapsulated_parts
parse_encapsulated s = encapsulated_parts (split s b',') (pos 0, false)

-- `v, err := read(r); if err != nil { return }`
unfoldable pub and_then : {A B : Type 0} → Read A → (A → Bytes → Read B) → Read B
and_then (done a s) next = next a s
and_then (failed e) next = failed e
and_then panicked next = panicked
and_then out_of_fuel next = out_of_fuel

-- the start line; blank lines before it are skipped
unless_blank : (Bytes → Read Bytes) → Bool → Bytes → Bytes → Read Bytes
unless_blank next true line rest = next rest
unless_blank next false line rest = done line rest

start_round : (Bytes → Read Bytes) → Option (Bytes × Bytes) → Read Bytes
unfolding unless_blank
start_round next none = failed end_of_stream
start_round next (some (line, rest)) =
    unless_blank next (same (trim_space line) []) (trim_space line) rest

unfoldable pub read_start : ℕ → Bytes → Read Bytes
unfolding start_round
read_start zero s = out_of_fuel
read_start (suc f) s = start_round (λ t. read_start f t) (read_line s)

module _ (lower_runes : Bytes → Bytes) where
  -- a line without a name is ignored
  header_at : Bytes → Option ℕ → List Header → List Header
  header_at line (some (suc i)) hs =
      record {
        name = to_lower lower_runes (trim_space (take (suc i) line));
        value = trim_space (drop (suc (suc i)) line);
      }
      ∷ hs
  header_at line _ hs = hs

  unfoldable pub add_header : Bytes → List Header → List Header
  unfolding header_at
  add_header line hs = header_at line (index_byte line b':') hs

  -- the headers up to a blank line
  unless_end :
      (List Header → Bytes → Read (List Header))
      → Bool
      → Bytes
      → Bytes
      → List Header
      → Read (List Header)
  unfolding add_header
  unless_end next true line rest hs = done hs rest
  unless_end next false line rest hs = next (add_header line hs) rest

  header_round :
      (List Header → Bytes → Read (List Header))
      → Option (Bytes × Bytes)
      → List Header
      → Read (List Header)
  unfolding unless_end
  header_round next none hs = failed end_of_stream
  header_round next (some (line, rest)) hs =
      unless_end next (same (trim_space line) []) (trim_space line) rest hs

  unfoldable pub read_headers : ℕ → List Header → Bytes → Read (List Header)
  unfolding header_round
  read_headers zero hs s = out_of_fuel
  read_headers (suc f) hs s = header_round (λ h t. read_headers f h t) (read_line s) hs

-- the header section, whose length the peer gives
unfoldable pub read_head : ℕ → ℤ → Bytes → Read Bytes
read_head max_alloc (pos n) s =
    if n == 0
    then done [] s
    else if ltb max_alloc n
    then panicked
    else if ltb (length s) n
    then failed short_header
    else done (take n s) (drop n s)
read_head max_alloc (negsuc n) s = done [] s

-- the body section
unfoldable pub read_body : Bool → Bytes → Read Bytes
read_body true s = read_chunked s
read_body false s = done [] s

module _ (lower_runes : Bytes → Bytes) (max_alloc : ℕ) {Q R : Type 0}
    (parse_http_request : Bytes → Option Q) (parse_http_response : Bytes → Option R) where
  -- a request without encapsulated sections
  abbrev pub bare : Bytes → Bytes → List Header → Request Q R
  bare m u hs = record {
    method = m;
    url = u;
    headers = hs;
    http_request = none;
    http_response = none;
    http_body = [];
    raw_http_headers = [];
  }

  abbrev pub parsed_request : Bytes → Bytes → List Header → Bytes → Bytes → Request Q R
  parsed_request m u hs head body =
      let is_response = same m (codes "RESPMOD") in
      let is_empty = same head [] in
      record {
        method = m;
        url = u;
        headers = hs;
        http_request = if is_empty || is_response then none else parse_http_request head;
        http_response = if not is_empty && is_response then parse_http_response head else none;
        http_body = body;
        raw_http_headers = head;
      }

  unfoldable pub read_sections : Bytes → Bytes → List Header → ℤ × Bool → Bytes → Read (Request Q R)
  unfolding and_then read_head read_body
  read_sections m u hs (head_len, has_body) s = and_then (read_head max_alloc head_len s) λ head s₁.
      and_then (read_body has_body s₁) λ body s₂. done (parsed_request m u hs head body) s₂

  unfoldable pub after_headers : Bytes → Bytes → List Header → Bytes → Read (Request Q R)
  unfolding read_sections get_header parse_encapsulated
  after_headers m u hs s =
      if same m (codes "OPTIONS")
      then done (bare m u hs) s
      else read_sections m u hs (parse_encapsulated (get_header (codes "encapsulated") hs)) s

  unfoldable pub after_start : List Bytes → Bytes → Read (Request Q R)
  unfolding after_headers read_headers and_then
  after_start (m ∷ u ∷ v ∷ []) s =
      if same v icap_version
      then and_then (read_headers lower_runes (suc (length s)) [] s) (after_headers m u)
      else failed bad_start_line
  after_start _ s = failed bad_start_line

  -- `readRequest`; each round of its loops reads a line, so the fuel is enough
  unfoldable pub read_request : Bytes → Read (Request Q R)
  unfolding after_start read_start and_then
  read_request s =
      and_then (read_start (suc (length s)) s) λ line t. after_start (split3 line b' ') t
