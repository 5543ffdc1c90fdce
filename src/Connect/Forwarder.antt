-- ===== src/Connect/Forwarder.antt =====
-- The local proxy of the agent: connect/proxy/forwarder.go. Dialling, the TLS handshake and the
-- answer of the Interceptor, and Go's parsing of addresses, are arguments.
pub mod FailClose
pub mod Examples
use ai_scan_interceptor.Base.{
  ℕ, Bool, true, false, not, ◌&&◌, ◌||◌, Option, none, some, List, [], ◌∷◌, ◌++◌, if◌then◌else◌,
  ◌==◌, Bytes, codes, same, is_some,
}
use ai_scan_interceptor.Strings.{contains}
use ai_scan_interceptor.Strings.Lines.{crlf}

-- the settings of a `Forwarder` that its handler uses
pub record Forwarder : Type 0 where
  pub interceptor_host_port : Bytes
  pub fail_close : Bool

with_port : Bytes → Option Bytes
unfolding contains
with_port host =
    if same host []
    then none
    else if contains host (codes ":")
    then some host
    else some (host ++ codes ":3128")

-- `hostPortFromURL`, with the host that `url.Parse` finds
unfoldable pub host_port_from_url : Option Bytes → Option Bytes
unfolding with_port
host_port_from_url none = none
host_port_from_url (some host) = with_port host

-- `serverNameOf`, with the host that `net.SplitHostPort` finds
unfoldable pub server_name_of : Bytes → Option Bytes → Bytes
server_name_of host_port none = host_port
server_name_of host_port (some h) = h

-- how far the Interceptor is reached: the connection, the mTLS handshake, the inner CONNECT, and the
-- status of its response
pub record Reached : Type 0 where
  pub dialed : Bool
  pub shaken : Bool
  pub written : Bool
  pub response : Option ℕ

is_ok : Option ℕ → Bool
is_ok none = false
is_ok (some code) = code == 200

-- `dialUpstream` succeeds
unfoldable pub dial_upstream : Reached → Bool
unfolding is_ok
dial_upstream r = r.dialed && r.shaken && r.written && is_ok r.response

-- the request that is written to the Interceptor
unfoldable pub inner_connect : Bytes → Bytes
inner_connect target =
    codes "CONNECT "
    ++ (target
        ++ (codes " HTTP/1.1"
            ++ (crlf
                ++ (codes "Host: "
                    ++ (target
                        ++ (crlf
                            ++ (codes "User-Agent: ai-scan-connect/0.1" ++ (crlf ++ crlf))))))))

pub data Peer : Type 0 where
  interceptor origin : Peer

-- what `handle` leaves: nothing for a request that cannot be read, an error status, or the client's
-- connection joined to a peer
pub data Handled : Type 0 where
  dropped : Handled
  refused : ℕ → Handled
  spliced : Peer → Handled

-- the 200 to the client, whose failure ends the connection
joined_to : Peer → Bool → Handled
joined_to peer client_alive = if client_alive then spliced peer else dropped

fall_back : Bool → Bool → Bool → Handled
unfolding joined_to
fall_back fail_close origin_dialed client_alive =
    if fail_close
    then refused 503
    else if origin_dialed
    then joined_to origin client_alive
    else refused 502

-- `handle`, with the method that is read, if any
unfoldable pub handle : Forwarder → Option Bytes → Reached → Bool → Bool → Handled
unfolding fall_back joined_to dial_upstream
handle f none r origin_dialed client_alive = dropped
handle f (some method) r origin_dialed client_alive =
    if not (same method (codes "CONNECT"))
    then refused 405
    else if dial_upstream r
    then joined_to interceptor client_alive
    else fall_back f.fail_close origin_dialed client_alive
