-- ===== src/Icap/Handler.antt =====
-- The handler of one REQMOD request: icap-server/icap/handler.go. What `Detect` found, the mode and
-- the masked body are arguments; the result is the answer with the entries that were logged,
-- exported and sent as notifications.
pub mod Enforcement
pub mod Uploads
use ai_scan_interceptor.Base.{
  ℕ, Bool, true, false, not, ◌&&◌, ◌||◌, Option, none, some, List, [], ◌∷◌, ◌++◌, map,
  if◌then◌else◌, Bytes, codes, same,
}
use ai_scan_interceptor.Icap.Policy.{
  Config, get_mode, mode_warn, mode_block, mode_mask, mode_monitor,
}
use ai_scan_interceptor.Icap.Rules.{RuleMatch, AlertRule}
use ai_scan_interceptor.Icap.Detect.{Result}
use ai_scan_interceptor.Icap.Identity.{IdentitySource}

-- `WriteNoModification`, `WriteBlock` and `WriteMasked`
pub data Answer : Type 0 where
  no_modification blocked : Answer
  masked : Bytes → Answer

-- `storage.LogEntry`, without its time
pub record LogEntry : Type 0 where
  pub service : Bytes
  pub host : Bytes
  pub path : Bytes
  pub prompt : Bytes
  pub triggered : Bool
  pub severity : Bytes
  pub rule_ids : List Bytes
  pub client_ip : Bytes
  pub user_id : Bytes
  pub identity_source : IdentitySource
  pub action : Bytes

-- the encapsulated request with what was read from its headers and the connection
pub record HttpRequest : Type 0 where
  pub host : Bytes
  pub path : Bytes
  pub method : Bytes
  pub body : Bytes
  pub client_ip : Bytes
  pub identity : Bytes × IdentitySource

-- what one request leads to; `exported` is for the optional SIEM
pub record Outcome : Type 0 where
  pub answer : Answer
  pub logged : List LogEntry
  pub exported : List LogEntry
  pub notified : List LogEntry

abbrev pub pass : Outcome
pass = record { answer = no_modification; logged = []; exported = []; notified = [] }

-- `shouldNotify`
unfoldable pub should_notify : Bytes → Bool
should_notify severity = same severity (codes "critical") || same severity (codes "high")

unfoldable pub mode_of : Option Config → Bytes → Bytes
mode_of none service = mode_warn
mode_of (some c) service = get_mode service c

-- the mode, with masking turned into blocking for uploads
unfoldable pub effective_mode : Option Config → Result → Bytes
unfolding mode_of
effective_mode policy r =
    let mode = mode_of policy r.service in
    if r.is_file_upload && r.triggered && same mode mode_mask then mode_block else mode

-- `entry.Action`
unfoldable pub action_of : Bool → Bytes → Bytes
action_of triggered mode =
    if not triggered
    then codes "passed"
    else if same mode mode_block
    then codes "blocked"
    else if same mode mode_mask
    then codes "masked"
    else if same mode mode_monitor
    then codes "monitored"
    else codes "warned"

abbrev pub entry_of : HttpRequest → Result → Bytes → LogEntry
entry_of q r mode = record {
  service = r.service;
  host = q.host;
  path = q.path;
  prompt = r.prompt;
  triggered = r.triggered;
  severity = r.severity;
  rule_ids = map (λ m. m.rule_id ++ codes ":" ++ m.description) r.rule_matches;
  client_ip = q.client_ip;
  user_id = q.identity.0;
  identity_source = q.identity.1;
  action = action_of r.triggered mode;
}

-- the switch on the mode of a triggered request
unfoldable pub answer_triggered : Bytes → Bytes → Answer
answer_triggered mode masked_body =
    if same mode mode_block
    then blocked
    else if same mode mode_mask
    then masked masked_body
    else no_modification

-- the case of warn and of any unknown mode
unfoldable pub notifies : Result → Bytes → Bool
notifies r mode =
    r.triggered
    && not (same mode mode_block)
    && not (same mode mode_mask)
    && not (same mode mode_monitor)
    && should_notify r.severity

module _ (detect : Bytes → Bytes → Bytes → Bytes → Option Result)
    (mask_sensitive_for_service : Bytes → Bytes → Bytes → Bytes) where
  unfoldable pub enforce : Bool → HttpRequest → Bytes → Result → Outcome
  unfolding answer_triggered notifies action_of
  enforce has_siem q mode r =
      let e = entry_of q r mode in
      record {
        answer =
            if r.triggered
            then answer_triggered mode (mask_sensitive_for_service q.body q.host q.path)
            else no_modification;
        logged = e ∷ [];
        exported = if has_siem then e ∷ [] else [];
        notified = if notifies r mode then e ∷ [] else [];
      }

  unfoldable pub serve_result : Option Config → Bool → HttpRequest → Option Result → Outcome
  unfolding enforce
  serve_result policy has_siem q none = pass
  serve_result policy has_siem q (some r) = enforce has_siem q (effective_mode policy r) r

  -- `ServeREQMOD`
  unfoldable pub serve_reqmod : Option Config → Bool → Option HttpRequest → Outcome
  unfolding serve_result
  serve_reqmod policy has_siem none = pass
  serve_reqmod policy has_siem (some q) =
      if same q.body []
      then pass
      else serve_result policy has_siem q (detect q.host q.path q.method q.body)
