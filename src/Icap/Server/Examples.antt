-- ===== src/Icap/Server/Examples.antt =====
-- The theorems on the ICAP protocol, at a request of a few bytes.
use ai_scan_interceptor.Base.{
  ℕ, ◌≡◌, ◌≢◌, ◌⊎◌, inr, refl, true, false, Option, none, some, List, [], ◌∷◌, ◌++◌, arith, Bytes,
  codes, same, find_key, missing,
}
use ai_scan_interceptor.Strings.Numbers.{text}
use ai_scan_interceptor.Strings.Lines.{crlf}
use ai_scan_interceptor.Icap.Policy.{Config, get_mode, mode_mask}
use ai_scan_interceptor.Icap.Detect.{Result}
use ai_scan_interceptor.Icap.Chunks.{panicked, done, read_chunked}
use ai_scan_interceptor.Icap.Chunks.Bounds.{ReadFits, read_chunked-ReadFits}
use ai_scan_interceptor.Icap.Chunks.Negative.{read_chunked-panics}
use ai_scan_interceptor.Icap.Chunks.RoundTrip.{joined}
use ai_scan_interceptor.Icap.Server.{Header, Request, parsed_request, read_request}
use ai_scan_interceptor.Icap.Server.Response.{write_block, write_masked}
use ai_scan_interceptor.Icap.Server.Serving.{HttpMessage, serve, starved}
use ai_scan_interceptor.Icap.Server.RoundTrip.{IsMessage, wire, kept, read_request-wire}
use ai_scan_interceptor.Icap.Server.Termination.{serve_ends}
use ai_scan_interceptor.Icap.Server.Enforced.{first, prompt_handler, received, serve-enforced}

abbrev unchanged : Bytes → Bytes
unchanged s = s

abbrev a_message : HttpMessage
a_message = record {
  method = codes "POST";
  host = codes "claude.ai";
  path = codes "/api/";
  cert_subject = [];
  authorization = [];
}

abbrev parse_any : Bytes → Option HttpMessage
parse_any head = some a_message

abbrev no_response : Bytes → Option ℕ
no_response head = none

abbrev client_ip : Header
client_ip = record { name = codes "X-Client-IP"; value = codes "10.0.0.7" }

abbrev two_chunks : List Bytes
two_chunks = codes "my " ∷ codes "key" ∷ []

abbrev head_bytes : Bytes
head_bytes = codes "POST /api/ HTTP/1.1" ++ (crlf ++ crlf)

in_limits :
    IsMessage 4096 (codes "REQMOD") (codes "icap://s/r") (client_ip ∷ []) head_bytes two_chunks
unfolding same
in_limits = ground arith

abbrev a_report : Result
a_report = record {
  service = codes "Claude";
  prompt = codes "my key";
  triggered = true;
  severity = codes "high";
  rule_matches = [];
  is_file_upload = false;
}

abbrev find_key_word : Bytes → Bytes → Bytes → Bytes → Option Result
find_key_word host path method body = some a_report

abbrev redact : Bytes → Bytes → Bytes → Bytes
redact body host path = codes "my [REDACTED]"

abbrev no_name : Bytes → Bytes
no_name ip = []

abbrev no_decoding : Bytes → Option Bytes
no_decoding s = none

abbrev rebuild : HttpMessage → ℕ → Bytes
rebuild q n = []

abbrev masking : Config
masking = record {
  data_policy = record { global_mode = codes "mask"; service_modes = []; updated_at = 0 };
  disk = missing;
}

given : (same head_bytes [] ≡ false) × (same (joined two_chunks) [] ≡ false)
unfolding same
given = (refl, refl)

masking_mode : get_mode (codes "Claude") masking ≡ mode_mask
unfolding get_mode find_key
masking_mode = refl

serve-enforced_example :
    let session =
      serve
        (prompt_handler unchanged find_key_word redact no_name no_decoding no_decoding rebuild
          (some masking)
          false
          (codes "10.0.0.7:4711"))
        none
        (read_request unchanged 4096 parse_any no_response)
        (wire (codes "REQMOD") (codes "icap://s/r") (client_ip ∷ []) head_bytes two_chunks []) in
    (first session.written ≡ some write_block)
    ⊎ ((first session.written
          ≡ write_masked unchanged rebuild
              (received unchanged find_key_word redact no_name no_decoding no_decoding rebuild 4096
                parse_any no_response none
                (codes "icap://s/r")
                (client_ip ∷ [])
                head_bytes
                two_chunks)
              (codes "my [REDACTED]"))
        × (false ≡ false))
serve-enforced_example =
    serve-enforced unchanged find_key_word redact no_name no_decoding no_decoding rebuild 4096
      parse_any no_response none masking false (codes "10.0.0.7:4711") (codes "icap://s/r")
      (client_ip ∷ []) head_bytes two_chunks [] a_message a_report in_limits given.0 refl given.1
      refl refl (inr masking_mode)

read_request-wire_example :
    read_request unchanged 4096 parse_any no_response (
      wire
        (codes "REQMOD")
        (codes "icap://s/r")
        (client_ip ∷ [])
        head_bytes
        two_chunks
        (codes "next"))
    ≡ done
        (parsed_request unchanged 4096 parse_any no_response
          (codes "REQMOD")
          (codes "icap://s/r")
          (kept unchanged 4096 parse_any no_response (client_ip ∷ []) head_bytes)
          head_bytes
          (codes "my key"))
        (codes "next")
read_request-wire_example =
    read_request-wire unchanged 4096 parse_any no_response (codes "REQMOD") (codes "icap://s/r")
      (client_ip ∷ []) head_bytes two_chunks (codes "next") in_limits

abbrev no_answer : Request HttpMessage ℕ → Option Bytes
no_answer req = none

serve_ends_example :
    (serve no_answer none
      (read_request unchanged 4096 parse_any no_response)
      (codes "REQMOD / ICAP/1.0" ++ (crlf ++ crlf))).ending
    ≢ starved
serve_ends_example =
    serve_ends unchanged 4096 parse_any no_response no_answer none
      (codes "REQMOD / ICAP/1.0" ++ (crlf ++ crlf))

read_chunked-ReadFits_example :
    ReadFits 8 (read_chunked (codes "3" ++ (crlf ++ codes "key" ++ crlf)))
read_chunked-ReadFits_example = read_chunked-ReadFits (codes "3" ++ (crlf ++ codes "key" ++ crlf))

read_chunked-panics_example :
    read_chunked (b'-' ∷ (text 16 5 ++ (crlf ++ codes "hello"))) ≡ panicked
read_chunked-panics_example = read_chunked-panics 4 (codes "hello") (omega arith)
