-- ===== src/TlsProxy/Intercept.antt =====
-- The interception of TLS connections: `handleConn`, `interceptTLS` and `inspectRequest` of
-- tls-proxy/main.go. The parameters are Unicode lower case, Go's split of a host and a port, its
-- base64 decoder, detection and masking. TLS and HTTP are Go's: a connection is the requests that
-- are read from it, each with what becomes of its forwarding.
pub mod Agreement
pub mod Examples
use ai_scan_interceptor.Base.{
  ℕ, Bool, true, false, not, ◌&&◌, ◌||◌, Option, none, some, List, [], ◌∷◌, ◌++◌, map,
  if◌then◌else◌, Bytes, codes, same, any, take, drop,
}
use ai_scan_interceptor.Strings.{trim_space, to_lower, cut_prefix, split, index_byte, cut_at}
use ai_scan_interceptor.Icap.Policy.{
  Config, get_mode, mode_warn, mode_block, mode_mask, mode_monitor,
}
use ai_scan_interceptor.Icap.Rules.{RuleMatch}
use ai_scan_interceptor.Icap.Detect.{Result}
use ai_scan_interceptor.Icap.Identity.{IdentitySource, mtls_cert, reverse_dns, ip_only, no_source}
use ai_scan_interceptor.Icap.Handler.{HttpRequest, LogEntry}

-- the loop of `getEnvSlice`: the parts of a list that are not blank
env_parts : List Bytes → List Bytes
env_parts [] = []
env_parts (p ∷ ps) = if same (trim_space p) [] then env_parts ps else trim_space p ∷ env_parts ps

-- `getEnvSlice`, with the variable's value
unfoldable pub env_slice : Bytes → List Bytes → List Bytes
unfolding env_parts
env_slice v fallback = if same v [] then fallback else env_parts (split v b',')

-- `defaultInterceptHosts`
abbrev pub default_intercept_hosts : List Bytes
default_intercept_hosts =
    codes "api.anthropic.com" ∷ codes "a-api.anthropic.com" ∷ codes "claude.ai" ∷ []

-- `jwtSub` is not called here: an identity is the certificate's, the host name's or the proxy user's
unfoldable pub resolve_identity : Bytes → Bytes → Bytes → Bytes × IdentitySource
resolve_identity user_host hostname proxy_user =
    if not (same user_host [])
    then (user_host, mtls_cert)
    else if not (same hostname [])
    then (hostname, reverse_dns)
    else if not (same proxy_user [])
    then (proxy_user, no_source)
    else ([], ip_only)

decoded_user : Option Bytes → Bytes
unfolding cut_at index_byte
decoded_user none = []
decoded_user (some credentials) = cut_at credentials (index_byte credentials b':')

-- what `handleConn` does with a request
pub data Route : Type 0 where
  forward_plain : Route
  intercept : Bytes → Bytes → Route
  tunnel : Bytes → Route

-- what `interceptTLS` does with one request: `delivered` is the body that is forwarded, or none for
-- the answer 403 that ends the connection
pub record Decision : Type 0 where
  pub delivered : Option Bytes
  pub logged : List LogEntry
  pub notified : List LogEntry

-- what becomes of the outbound request: an error answered 502, or a response that is passed on,
-- after which the connection goes on or ends
pub data Forwarding : Type 0 where
  bad_gateway last_response kept_alive : Forwarding

-- a body as it was sent to the origin for a request
pub record Sent : Type 0 where
  pub request : HttpRequest
  pub sent_body : Bytes

module _ (lower_runes : Bytes → Bytes) (host_part : Bytes → Option Bytes)
    (decode64 : Bytes → Option Bytes) where
  abbrev or_whole : Bytes → Option Bytes → Bytes
  or_whole host_port none = host_port
  or_whole host_port (some h) = h

  -- `bareHost`
  unfoldable pub bare_host : Bytes → Bytes
  bare_host host_port = or_whole host_port (host_part host_port)

  basic_user : Option Bytes → Bytes
  unfolding decoded_user
  basic_user none = []
  basic_user (some credentials) = decoded_user (decode64 credentials)

  -- `extractProxyUser`
  unfoldable pub extract_proxy_user : Bytes → Bytes
  unfolding basic_user
  extract_proxy_user auth_header = basic_user (cut_prefix auth_header (codes "Basic "))

  -- the hosts of the set are in lower case
  unfoldable pub intercept_set : List Bytes → List Bytes
  unfolding to_lower
  intercept_set hosts = map (to_lower lower_runes) hosts

  -- `handleConn`, by the request's method, address and `Proxy-Authorization`
  unfoldable pub handle_conn : List Bytes → Bytes → Bytes → Bytes → Route
  unfolding bare_host extract_proxy_user to_lower
  handle_conn hosts method host_port proxy_auth =
      if not (same method (codes "CONNECT"))
      then forward_plain
      else if any (λ h. same h (to_lower lower_runes (bare_host host_port))) hosts
      then intercept host_port (extract_proxy_user proxy_auth)
      else tunnel proxy_auth

-- who made the requests of an intercepted connection: the remote address of the raw connection, and
-- the identity that is resolved once, before the loop
pub record Client : Type 0 where
  pub remote_addr : Bytes
  pub user_id : Bytes
  pub identity_source : IdentitySource

-- the start of `interceptTLS`, from the certificate's identity, the host name of the address and the
-- user of the proxy's authentication
unfoldable pub client_of : Bytes → Bytes → Bytes → Bytes → Client
unfolding resolve_identity
client_of remote_addr user_host hostname proxy_user =
    let (user_id, source) = resolve_identity user_host hostname proxy_user in
    record { remote_addr = remote_addr; user_id = user_id; identity_source = source }

module _ (detect : Bytes → Bytes → Bytes → Bytes → Option Result)
    (mask_sensitive_for_service : Bytes → Bytes → Bytes → Bytes) (client : Client) where
  -- the entry of `inspectRequest`, whose action the caller sets
  unfoldable pub entry_with : HttpRequest → Result → Bytes → LogEntry
  entry_with q r action = record {
    service = r.service;
    host = q.host;
    path = q.path;
    prompt = r.prompt;
    triggered = r.triggered;
    severity = r.severity;
    rule_ids = map (λ m. m.rule_id ++ codes ":" ++ m.description) r.rule_matches;
    client_ip = client.remote_addr;
    user_id = client.user_id;
    identity_source = client.identity_source;
    action = action;
  }

  -- `inspectRequest`
  unfoldable pub inspect_request : HttpRequest → Option Result
  inspect_request q = if same q.body [] then none else detect q.host q.path q.method q.body

  unfoldable pub policy_mode : Option Config → Bytes → Bytes
  policy_mode none service = mode_warn
  policy_mode (some c) service = get_mode service c

  unfoldable pub escalated : Result → Bytes → Bytes
  escalated r mode =
      if r.is_file_upload && r.triggered && same mode mode_mask then mode_block else mode

  -- the two switches on the mode
  unfoldable pub decide : HttpRequest → Result → Bytes → Decision
  unfolding entry_with
  decide q r mode =
      if not r.triggered
      then record {
        delivered = some q.body;
        logged = entry_with q r (codes "passed") ∷ [];
        notified = [];
      }
      else if same mode mode_block
      then record {
        delivered = none;
        logged = entry_with q r (codes "blocked") ∷ [];
        notified = [];
      }
      else if same mode mode_mask
      then record {
        delivered = some (mask_sensitive_for_service q.body q.host q.path);
        logged = entry_with q r (codes "masked") ∷ [];
        notified = [];
      }
      else if same mode mode_monitor
      then record {
        delivered = some q.body;
        logged = entry_with q r (codes "monitored") ∷ [];
        notified = [];
      }
      else record {
        delivered = some q.body;
        logged = entry_with q r (codes "warned") ∷ [];
        notified = entry_with q r (codes "warned") ∷ [];
      }

  unfoldable pub apply_policy : Option Config → HttpRequest → Option Result → Decision
  unfolding decide escalated policy_mode
  apply_policy policy q none = record { delivered = some q.body; logged = []; notified = [] }
  apply_policy policy q (some r) = decide q r (escalated r (policy_mode policy r.service))

  -- one round of the loop of `interceptTLS`, up to the outbound request
  unfoldable pub intercept_request : Option Config → HttpRequest → Decision
  unfolding apply_policy inspect_request
  intercept_request policy q = apply_policy policy q (inspect_request q)

  -- `rest` is what the later requests of the connection send, if it goes on
  unfoldable pub sent_with : HttpRequest → Forwarding → List Sent → Option Bytes → List Sent
  sent_with q f rest none = []
  sent_with q kept_alive rest (some b) = record { request = q; sent_body = b } ∷ rest
  sent_with q _ rest (some b) = record { request = q; sent_body = b } ∷ []

  -- the loop of `interceptTLS`: what is sent to the origin
  unfoldable pub intercept_loop : Option Config → List (HttpRequest × Forwarding) → List Sent
  unfolding intercept_request sent_with
  intercept_loop policy [] = []
  intercept_loop policy ((q, f) ∷ rounds) =
      sent_with q f (intercept_loop policy rounds) (intercept_request policy q).delivered
