-- ===== src/Connect/Forwarder/FailClose.antt =====
-- The agent and the Interceptor's check of revoked certificates.
use ai_scan_interceptor.Base.{
  ℕ, ◌≡◌, refl, Bool, true, false, not, ◌&&◌, Option, none, some, if◌then◌else◌, Bytes, codes, same,
  [], ◌∷◌, arith,
}
use ai_scan_interceptor.TlsProxy.Crl.{
  RevokedStore, Verdict, accepted, no_peer_certificate, parse_error, revoked, is_revoked,
  verify_peer,
}
use ai_scan_interceptor.Connect.Forwarder.{
  Forwarder, Reached, dial_upstream, interceptor, Handled, dropped, refused, spliced, fall_back,
  is_ok, joined_to, handle,
}

-- the handshake goes on
abbrev pub is_accepted : Verdict → Bool
is_accepted accepted = true
is_accepted no_peer_certificate = false
is_accepted parse_error = false
is_accepted revoked = false

-- How far the Interceptor is reached when its hook decides the handshake: it answers nothing on a
-- connection that it refuses. In TLS 1.3 the client may see that only when it waits for the answer.
abbrev pub reached_with : Bool → Bool → Bool → Verdict → Option ℕ → Reached
reached_with dialed shaken written v response = record {
  dialed = dialed;
  shaken = shaken;
  written = written;
  response = if is_accepted v then response else none;
}

-- the client's connection is joined to no peer
abbrev pub is_spliced : Handled → Bool
is_spliced dropped = false
is_spliced (refused code) = false
is_spliced (spliced p) = true

revoked-verdict :
    (lower_runes : Bytes → Bytes) (s : RevokedStore) (leaf : ℕ) (raw : Option (Option ℕ))
    → is_revoked lower_runes s leaf ≡ true
    → is_accepted (verify_peer lower_runes s ((leaf ∷ []) ∷ []) raw) ≡ false
unfolding verify_peer
revoked-verdict lower_runes s leaf raw h = rw h refl

no_answer : (a b c : Bool) → (a && b && c && false) ≡ false
no_answer a b c = ground arith

closed_down :
    (connect ok client_alive : Bool)
    → ok ≡ false
    → is_spliced (
        if connect
        then refused 405
        else if ok
        then joined_to interceptor client_alive
        else refused 503)
      ≡ false
closed_down true ok client_alive h = refl
closed_down false ok client_alive h = rw h refl

-- With `fail_close`, a request of a device whose certificate is revoked is joined to no peer,
-- neither the Interceptor nor the origin.
pub handle-revoked :
    (lower_runes : Bytes → Bytes) (s : RevokedStore) (leaf : ℕ) (raw : Option (Option ℕ))
    (f : Forwarder) (method : Option Bytes)
    (dialed shaken written origin_dialed client_alive : Bool) (response : Option ℕ)
    → is_revoked lower_runes s leaf ≡ true
    → f.fail_close ≡ true
    → is_spliced (
        handle f method
          (reached_with dialed shaken written
            (verify_peer lower_runes s ((leaf ∷ []) ∷ []) raw)
            response)
          origin_dialed
          client_alive)
      ≡ false
unfolding handle dial_upstream fall_back is_ok
handle-revoked lower_runes s leaf raw f none dialed shaken written origin_dialed client_alive
      response h k =
    refl
handle-revoked lower_runes s leaf raw f (some method) dialed shaken written origin_dialed
      client_alive response h k =
    rw (revoked-verdict lower_runes s leaf raw h, k)
      (closed_down (not (same method (codes "CONNECT"))) (dialed && shaken && written && false)
        client_alive (no_answer dialed shaken written))
