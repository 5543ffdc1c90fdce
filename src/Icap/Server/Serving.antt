-- ===== src/Icap/Server/Serving.antt =====
-- The loop over the requests of one connection: `serve` of icap-server/icap/server.go, with the two
-- handlers of handler.go and response_handler.go.
use ai_scan_interceptor.Base.{
  ℕ, zero, suc, Bool, not, ◌||◌, Option, none, some, List, [], ◌∷◌, ◌++◌, ltb, Bytes, codes, same,
  if◌then◌else◌, length, take,
}
use ai_scan_interceptor.Icap.Chunks.{Read, done, failed, panicked, out_of_fuel, ReadError}
use ai_scan_interceptor.Icap.Server.{Request}
use ai_scan_interceptor.Icap.Server.Response.{
  write_no_modification, write_options, write_not_allowed,
}

-- what the handlers read of an `*http.Request`, and of the one behind an `*http.Response`
pub record HttpMessage : Type 0 where
  pub method : Bytes
  pub host : Bytes
  pub path : Bytes
  pub cert_subject : Bytes
  pub authorization : Bytes

pub record Origin : Type 0 where
  pub host : Bytes
  pub path : Bytes

-- what `ServeRESPMOD` logs, without its time
pub record ResponseEntry : Type 0 where
  pub host : Bytes
  pub path : Bytes
  pub prompt : Bytes
  pub client_ip : Bytes

-- `truncate`
unfoldable pub truncate : Bytes → ℕ → Bytes
truncate s n = if ltb n (length s) then take n s ++ codes "..." else s

-- how a connection ends; `starved` is no outcome of the program
pub data Ending : Type 0 where
  closed : ReadError → Ending
  crash starved : Ending

-- what happens on a connection: what is written for each request, and the end
pub record Session : Type 0 where
  pub written : List Bytes
  pub ending : Ending

abbrev pub ends : Ending → Session
ends e = record { written = []; ending = e }

-- a handler's response, then the rest; a panic of the handler ends the process
abbrev pub and_rest : Option Bytes → Session → Session
and_rest none rest = ends crash
and_rest (some response) rest = record { written = response ∷ rest.written; ending = rest.ending }

origin_of : Option (Option Origin) → Origin
origin_of (some (some o)) = o
origin_of _ = record { host = []; path = [] }

abbrev Respmod : Type 0
Respmod = Option Origin

-- `ServeRESPMOD`: the response is always passed on; what masking changes is logged, if there is a
-- logger
module _ (mask_sensitive : Bytes → Bytes) {Q : Type 0} where
  unfoldable pub serve_respmod : Bool → Bytes → Request Q Respmod → Bytes × List ResponseEntry
  unfolding truncate origin_of write_no_modification
  serve_respmod has_logger client_ip req =
      if same req.http_body []
        || same req.http_body (mask_sensitive req.http_body)
        || not has_logger
      then (write_no_modification, [])
      else (
        write_no_modification,
        record {
          host = (origin_of req.http_response).host;
          path = (origin_of req.http_response).path;
          prompt = truncate req.http_body 512;
          client_ip = client_ip;
        }
            ∷ [],
      )

module _ {Q R : Type 0} (handler : Request Q R → Option Bytes)
    (respmod_handler : Option (Request Q R → Bytes)) where
  respond_respmod : Option (Request Q R → Bytes) → Request Q R → Bytes
  unfolding write_no_modification
  respond_respmod none req = write_no_modification
  respond_respmod (some h) req = h req

  -- the switch on the method
  unfoldable pub respond : Request Q R → Option Bytes
  unfolding respond_respmod write_options
  respond req =
      if same req.method (codes "OPTIONS")
      then some write_options
      else if same req.method (codes "REQMOD")
      then handler req
      else if same req.method (codes "RESPMOD")
      then some (respond_respmod respmod_handler req)
      else some write_not_allowed

  module _ (read : Bytes → Read (Request Q R)) where
    unfoldable pub after_read : (Bytes → Session) → Read (Request Q R) → Session
    unfolding respond
    after_read next (done req rest) = and_rest (respond req) (next rest)
    after_read next (failed e) = ends (closed e)
    after_read next panicked = ends crash
    after_read next out_of_fuel = ends starved

    unfoldable pub serve_requests : ℕ → Bytes → Session
    unfolding after_read
    serve_requests zero s = ends starved
    serve_requests (suc f) s = after_read (λ t. serve_requests f t) (read s)

    -- `serve`, with `readRequest` as `read`; each request has a line, so the fuel is enough
    unfoldable pub serve : Bytes → Session
    unfolding serve_requests
    serve s = serve_requests (suc (length s)) s
