-- ===== src/Icap/Server/Enforced.antt =====
-- From the bytes of a client to the bytes of the answer: `serve` with the handler of prompts.
use ai_scan_interceptor.Base.{
  ℕ, ◌≡◌, refl, ap, ◌∙◌, ◌⊎◌, inl, inr, Bool, true, false, Option, none, some, List, [], ◌∷◌, Bytes,
  codes, same,
}
use ai_scan_interceptor.Icap.Policy.{Config, get_mode, mode_block, mode_mask}
use ai_scan_interceptor.Icap.Detect.{Result}
use ai_scan_interceptor.Icap.Identity.{extract_user_id}
use ai_scan_interceptor.Icap.Handler.{Answer, blocked, masked, HttpRequest, serve_reqmod}
use ai_scan_interceptor.Icap.Handler.Enforcement.{serve_reqmod-enforced}
use ai_scan_interceptor.Icap.Chunks.{Read}
use ai_scan_interceptor.Icap.Chunks.RoundTrip.{joined}
use ai_scan_interceptor.Icap.Server.{Header, Request, get_header, parsed_request, read_request}
use ai_scan_interceptor.Icap.Server.Response.{write_answer, write_block, write_masked}
use ai_scan_interceptor.Icap.Server.Serving.{
  HttpMessage, Session, and_rest, respond, after_read, serve_requests, serve,
}
use ai_scan_interceptor.Icap.Server.RoundTrip.{IsMessage, wire, kept, read_request-wire}

-- the first response of a connection, or none if the process panics before it
abbrev pub first : List Bytes → Option Bytes
first [] = none
first (b ∷ bs) = some b

first-rest : (o : Option Bytes) (s : Session) → first (and_rest o s).written ≡ o
first-rest none s = refl
first-rest (some b) s = refl

module _ (lower_runes : Bytes → Bytes) (detect : Bytes → Bytes → Bytes → Bytes → Option Result)
    (mask_sensitive_for_service : Bytes → Bytes → Bytes → Bytes) (hostname_of : Bytes → Bytes)
    (decode : Bytes → Option Bytes) (sub_claim : Bytes → Option Bytes) {R : Type 0}
    (rebuild : HttpMessage → ℕ → Bytes) where
  abbrev pub prompt_message : Bytes → Request HttpMessage R → HttpMessage → HttpRequest
  prompt_message client_ip req q = record {
    host = q.host;
    path = q.path;
    method = q.method;
    body = req.http_body;
    client_ip = client_ip;
    identity =
        extract_user_id decode sub_claim q.cert_subject
          (hostname_of (get_header (codes "x-client-ip") req.headers)) q.authorization;
  }

  abbrev pub prompt_request :
      Bytes → Request HttpMessage R → Option HttpMessage → Option HttpRequest
  prompt_request client_ip req none = none
  prompt_request client_ip req (some q) = some (prompt_message client_ip req q)

  -- the bytes that `ServeREQMOD` writes
  unfoldable pub prompt_handler :
      Option Config → Bool → Bytes → Request HttpMessage R → Option Bytes
  unfolding write_answer
  prompt_handler policy has_siem client_ip req =
      write_answer lower_runes rebuild req
        (serve_reqmod detect mask_sensitive_for_service policy has_siem
          (prompt_request client_ip req req.http_request)).answer

  module _ (max_alloc : ℕ) (parse_http_request : Bytes → Option HttpMessage)
      (parse_http_response : Bytes → Option R)
      (respmod_handler : Option (Request HttpMessage R → Bytes)) where
    abbrev read : Bytes → Read (Request HttpMessage R)
    read = read_request lower_runes max_alloc parse_http_request parse_http_response

    -- the request that a client's message is read as
    abbrev pub received : Bytes → List Header → Bytes → List Bytes → Request HttpMessage R
    received u hs head cs =
        parsed_request lower_runes max_alloc parse_http_request parse_http_response (codes "REQMOD")
          u (kept lower_runes max_alloc parse_http_request parse_http_response hs head) head
          (joined cs)

    -- The first response to a message is what the handler makes of the request as it is read.
    first-response :
        (handler : Request HttpMessage R → Option Bytes) (u : Bytes) (hs : List Header)
        (head : Bytes) (cs : List Bytes) (rest : Bytes)
        → IsMessage max_alloc (codes "REQMOD") u hs head cs
        → first
            (serve handler respmod_handler read (wire (codes "REQMOD") u hs head cs rest)).written
          ≡ handler (received u hs head cs)
    unfolding serve serve_requests after_read respond same
    first-response handler u hs head cs rest h =
        rw
          (read_request-wire lower_runes max_alloc parse_http_request parse_http_response
            (codes "REQMOD") u hs head cs rest h)
          (first-rest (handler (received u hs head cs)) _)

    received-parsed :
        (u : Bytes) (hs : List Header) (head : Bytes) (cs : List Bytes) (q : HttpMessage)
        → same head [] ≡ false
        → parse_http_request head ≡ some q
        → (received u hs head cs).http_request ≡ some q
    unfolding same
    received-parsed u hs head cs q h e = rw (h, e) refl

    answered :
        (c : Config) (has_siem : Bool) (client_ip u : Bytes) (hs : List Header) (head : Bytes)
        (cs : List Bytes) (rest : Bytes) (q : HttpMessage) (a : Answer)
        → IsMessage max_alloc (codes "REQMOD") u hs head cs
        → (received u hs head cs).http_request ≡ some q
        → (serve_reqmod detect mask_sensitive_for_service
            (some c)
            has_siem
            (some (prompt_message client_ip (received u hs head cs) q))).answer
          ≡ a
        → first
            (serve
              (prompt_handler (some c) has_siem client_ip)
              respmod_handler
              read
              (wire (codes "REQMOD") u hs head cs rest)).written
          ≡ write_answer lower_runes rebuild (received u hs head cs) a
    unfolding prompt_handler
    answered c has_siem client_ip u hs head cs rest q a h e f =
        first-response (prompt_handler (some c) has_siem client_ip) u hs head cs rest h
        ∙ ap
            (λ o.
              write_answer lower_runes rebuild (received u hs head cs)
                (serve_reqmod detect mask_sensitive_for_service (some c) has_siem
                  (prompt_request client_ip (received u hs head cs) o)).answer)
            e
        ∙ ap (write_answer lower_runes rebuild (received u hs head cs)) f

    -- A client's REQMOD message within the limits, whose HTTP headers Go parses and whose body is
    -- not empty and is reported as triggered, for a service with the mode "block" or "mask": the
    -- first bytes that the server writes are the refusal, or, if it is no upload, the request with
    -- the masked body.
    pub serve-enforced :
        (c : Config) (has_siem : Bool) (client_ip u : Bytes) (hs : List Header) (head : Bytes)
        (cs : List Bytes) (rest : Bytes) (q : HttpMessage) (r : Result)
        → IsMessage max_alloc (codes "REQMOD") u hs head cs
        → same head [] ≡ false
        → parse_http_request head ≡ some q
        → same (joined cs) [] ≡ false
        → detect q.host q.path q.method (joined cs) ≡ some r
        → r.triggered ≡ true
        → (get_mode r.service c ≡ mode_block) ⊎ (get_mode r.service c ≡ mode_mask)
        → let session =
            serve
              (prompt_handler (some c) has_siem client_ip)
              respmod_handler
              read
              (wire (codes "REQMOD") u hs head cs rest) in
          (first session.written ≡ some write_block)
          ⊎ ((first session.written
                ≡ write_masked lower_runes rebuild
                    (received u hs head cs)
                    (mask_sensitive_for_service (joined cs) q.host q.path))
              × (r.is_file_upload ≡ false))
    unfolding write_answer
    serve-enforced c has_siem client_ip u hs head cs rest q r m n e b d t mode =
        let p = received-parsed u hs head cs q n e in
        elim (serve_reqmod-enforced detect mask_sensitive_for_service c has_siem
          (prompt_message client_ip (received u hs head cs) q) r b d t mode) [
            | inl refused ↦
                inl (answered c has_siem client_ip u hs head cs rest q blocked m p refused)
            | inr (hidden, no_file) ↦ inr (
              answered c has_siem client_ip u hs head cs rest q
                  (masked (mask_sensitive_for_service (joined cs) q.host q.path)) m p hidden,
              no_file,
            )
          ]
