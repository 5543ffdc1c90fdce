-- ===== src/TlsProxy/Intercept/Agreement.antt =====
-- The decisions of the TLS proxy and of the ICAP server, side by side.
use ai_scan_interceptor.Base.{
  ◌≡◌, refl, sym, Bool, Option, none, some, List, [], ◌∷◌, map, if◌then◌else◌, Bytes, same, All,
  Bool-cases, inl, inr,
}
use ai_scan_interceptor.Icap.Policy.{Config, mode_block, mode_mask, mode_monitor}
use ai_scan_interceptor.Icap.Detect.{Result}
use ai_scan_interceptor.Icap.Identity.{ip_only}
use ai_scan_interceptor.Icap.Handler.{
  Answer, no_modification, blocked, masked, HttpRequest, LogEntry, Outcome, should_notify, mode_of,
  effective_mode, action_of, answer_triggered, notifies, enforce, serve_result, serve_reqmod,
}
use ai_scan_interceptor.TlsProxy.Intercept.{
  Client, Decision, entry_with, inspect_request, policy_mode, escalated, decide, apply_policy,
  intercept_request, Forwarding, bad_gateway, last_response, kept_alive, Sent, sent_with,
  intercept_loop,
}

-- the body that an answer of the ICAP server lets through
abbrev pub delivered_by : Answer → Bytes → Option Bytes
delivered_by no_modification body = some body
delivered_by blocked body = none
delivered_by (masked b) body = some b

-- the entries whose severity the ICAP server reports
abbrev pub severe : List LogEntry → List LogEntry
severe [] = []
severe (e ∷ es) = if should_notify e.severity then e ∷ severe es else severe es

-- an entry without the address and the identity of the client
abbrev pub unsigned : LogEntry → LogEntry
unsigned e = record e { client_ip = []; user_id = []; identity_source = ip_only }

module _ (detect : Bytes → Bytes → Bytes → Bytes → Option Result)
    (mask_sensitive_for_service : Bytes → Bytes → Bytes → Bytes) (client : Client) where
  -- The two decide alike: the same body goes on, the entries that are logged are the same but for
  -- who made the request, and so are those that the ICAP server notifies and the severe ones of the
  -- proxy.
  abbrev pub Agree : HttpRequest → Decision → Outcome → Type 0
  Agree q d o =
      (d.delivered ≡ delivered_by o.answer q.body)
      × (map unsigned d.logged ≡ map unsigned o.logged)
      × (map unsigned (severe d.notified) ≡ map unsigned o.notified)

  decide-Agree :
      (has_siem : Bool) (q : HttpRequest) (r : Result) (mode : Bytes)
      → Agree q
          (decide detect mask_sensitive_for_service client q r mode)
          (enforce detect mask_sensitive_for_service has_siem q mode r)
  unfolding decide enforce action_of answer_triggered notifies entry_with
  decide-Agree has_siem q r mode = elim (Bool-cases r.triggered) [
    | inl t ↦ elim (Bool-cases (same mode mode_block)) [
      | inl b ↦ rw t (rw b (refl, refl, refl))
      | inr b ↦ elim (Bool-cases (same mode mode_mask)) [
        | inl m ↦ rw t (rw b (rw m (refl, refl, refl)))
        | inr m ↦ elim (Bool-cases (same mode mode_monitor)) [
          | inl n ↦ rw t (rw b (rw m (rw n (refl, refl, refl))))
          | inr n ↦ rw t (
              rw b (
                rw m (
                  rw n (
                    refl,
                    refl,
                    elim (Bool-cases (should_notify r.severity)) [
                      | inl high ↦ rw high refl
                      | inr low ↦ rw low refl
                    ],
                  ))))
        ]
      ]
    ]
    | inr t ↦ rw t (refl, refl, refl)
  ]

  mode-same :
      (policy : Option Config) (r : Result)
      → escalated detect mask_sensitive_for_service client r
          (policy_mode detect mask_sensitive_for_service client policy r.service)
        ≡ effective_mode policy r
  unfolding escalated policy_mode effective_mode mode_of
  mode-same none r = refl
  mode-same (some c) r = refl

  result-Agree :
      (policy : Option Config) (has_siem : Bool) (q : HttpRequest) (o : Option Result)
      → Agree q
          (apply_policy detect mask_sensitive_for_service client policy q o)
          (serve_result detect mask_sensitive_for_service policy has_siem q o)
  unfolding apply_policy serve_result
  result-Agree policy has_siem q none = (refl, refl, refl)
  result-Agree policy has_siem q (some r) =
      rw (mode-same policy r) (decide-Agree has_siem q r (effective_mode policy r))

  pub intercept_request-Agree :
      (policy : Option Config) (has_siem : Bool) (q : HttpRequest)
      → Agree q
          (intercept_request detect mask_sensitive_for_service client policy q)
          (serve_reqmod detect mask_sensitive_for_service policy has_siem (some q))
  unfolding intercept_request inspect_request serve_reqmod
  intercept_request-Agree policy has_siem q = elim (Bool-cases (same q.body [])) [
    | inl e ↦ rw e (result-Agree policy has_siem q none)
    | inr e ↦ rw e (result-Agree policy has_siem q (detect q.host q.path q.method q.body))
  ]

  -- what was sent for a request is what the ICAP server would let through
  abbrev pub IsAllowed : Option Config → Bool → Sent → Type 0
  IsAllowed policy has_siem s =
      delivered_by
        (serve_reqmod detect mask_sensitive_for_service policy has_siem (some s.request)).answer
        s.request.body
      ≡ some s.sent_body

  sent-IsAllowed :
      (policy : Option Config) (has_siem : Bool) (q : HttpRequest) (f : Forwarding)
      (rest : List Sent) (o : Option Bytes)
      → delivered_by
          (serve_reqmod detect mask_sensitive_for_service policy has_siem (some q)).answer
          q.body
        ≡ o
      → All (IsAllowed policy has_siem) rest
      → All
          (IsAllowed policy has_siem)
          (sent_with detect mask_sensitive_for_service client q f rest o)
  unfolding sent_with
  sent-IsAllowed policy has_siem q f rest none e h = tt
  sent-IsAllowed policy has_siem q bad_gateway rest (some b) e h = (e, tt)
  sent-IsAllowed policy has_siem q last_response rest (some b) e h = (e, tt)
  sent-IsAllowed policy has_siem q kept_alive rest (some b) e h = (e, h)

  -- Whatever requests a client makes on an intercepted connection, each body that is sent to the
  -- origin is what the policy lets through for its request.
  pub intercept_loop-IsAllowed :
      (policy : Option Config) (has_siem : Bool) (rounds : List (HttpRequest × Forwarding))
      → All
          (IsAllowed policy has_siem)
          (intercept_loop detect mask_sensitive_for_service client policy rounds)
  unfolding intercept_loop
  intercept_loop-IsAllowed policy has_siem [] = tt
  intercept_loop-IsAllowed policy has_siem ((q, f) ∷ rounds) =
      sent-IsAllowed policy has_siem q f
        (intercept_loop detect mask_sensitive_for_service client policy rounds)
        (intercept_request detect mask_sensitive_for_service client policy q).delivered
        (sym (intercept_request-Agree policy has_siem q).0)
        (intercept_loop-IsAllowed policy has_siem rounds)
