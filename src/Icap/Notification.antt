-- ===== src/Icap/Notification.antt =====
-- Alerts by Slack and by email: icap-server/notification/notifier.go, email.go and fileconfig.go,
-- which the ICAP server and tls-proxy share. Sending is Go's http and smtp packages: the model says
-- what is sent where, or that the goroutine panics, which ends the process.
pub mod Dynamic
pub mod Examples
use ai_scan_interceptor.Base.{
  ℕ, Bool, true, false, ◌&&◌, ◌||◌, Option, none, some, List, [], ◌∷◌, ◌++◌, if◌then◌else◌, ltb,
  ◌==◌, Bytes, codes, same, length, take, File, missing, unreadable, empty, malformed, holds,
}
use ai_scan_interceptor.Strings.{join}
use ai_scan_interceptor.Strings.Lines.{crlf}

pub record EmailConfig : Type 0 where
  pub host : Bytes
  pub port : Bytes
  pub user : Bytes
  pub password : Bytes
  pub sender : Bytes
  pub recipients : List Bytes

-- `FileConfig`, the settings of notification.json
pub record FileConfig : Type 0 where
  pub slack_webhook_url : Bytes
  pub smtp_host : Bytes
  pub smtp_port : Bytes
  pub smtp_user : Bytes
  pub smtp_pass : Bytes
  pub smtp_from : Bytes
  pub alert_email_to : List Bytes

-- `tryLoad`; what cannot be read leaves the settings as they are
unfoldable pub try_load : File FileConfig → FileConfig → FileConfig
try_load (holds c) old = c
try_load _ old = old

-- `Notifier`; an `EmailNotifier` is its settings
pub record Notifier : Type 0 where
  pub webhook_url : Bytes
  pub email : Option EmailConfig
  pub file : Option FileConfig
  pub env_webhook : Bytes
  pub env_email : EmailConfig

-- `NewEmailNotifier`
unfoldable pub new_email_notifier : EmailConfig → Option EmailConfig
new_email_notifier c = elim c.recipients [
  | [] ↦ none
  | ◌∷◌ r rs ↦ if same c.host [] then none else some c
]

abbrev no_email : EmailConfig
no_email = record { host = []; port = []; user = []; password = []; sender = []; recipients = [] }

-- `NewNotifier` and `NewDynamicNotifier`
unfoldable pub new_notifier : Bytes → Option EmailConfig → Notifier
new_notifier webhook email = record {
  webhook_url = webhook;
  email = email;
  file = none;
  env_webhook = [];
  env_email = no_email;
}

unfoldable pub new_dynamic_notifier : FileConfig → EmailConfig → Bytes → Notifier
new_dynamic_notifier file env_email env_webhook = record {
  webhook_url = [];
  email = none;
  file = some file;
  env_webhook = env_webhook;
  env_email = env_email;
}

-- `firstNonEmpty` and `nonEmptySlice`
unfoldable pub first_non_empty : List Bytes → Bytes
first_non_empty [] = []
first_non_empty (v ∷ vs) = if same v [] then first_non_empty vs else v

unfoldable pub non_empty_slice : List Bytes → List Bytes → List Bytes
non_empty_slice [] b = b
non_empty_slice (x ∷ xs) b = x ∷ xs

-- the settings of the file, each one that is empty from the environment
unfoldable pub merged : FileConfig → EmailConfig → EmailConfig
unfolding first_non_empty non_empty_slice
merged c env = record {
  host = first_non_empty (c.smtp_host ∷ env.host ∷ []);
  port = first_non_empty (c.smtp_port ∷ env.port ∷ codes "587" ∷ []);
  user = first_non_empty (c.smtp_user ∷ env.user ∷ []);
  password = first_non_empty (c.smtp_pass ∷ env.password ∷ []);
  sender = first_non_empty (c.smtp_from ∷ env.sender ∷ []);
  recipients = non_empty_slice c.alert_email_to env.recipients;
}

unfoldable pub resolve_file : Notifier → Option FileConfig → Bytes × Option EmailConfig
unfolding merged new_email_notifier
resolve_file n none = (n.webhook_url, n.email)
resolve_file n (some c) = (
  if same c.slack_webhook_url [] then n.env_webhook else c.slack_webhook_url,
  new_email_notifier (merged c n.env_email),
)

-- `resolveConfig`
unfoldable pub resolve_config : Notifier → Bytes × Option EmailConfig
unfolding resolve_file
resolve_config n = resolve_file n n.file

-- what one alert leads to: a post to a webhook, an email by some settings, or a panic
pub data Delivery : Type 0 where
  posted : Bytes → Delivery
  emailed : EmailConfig → Delivery
  panicked : Delivery

-- `sendEmail`, which takes the notifier's own email settings
unfoldable pub send_email : Option EmailConfig → Delivery
send_email none = panicked
send_email (some c) = emailed c

unfoldable pub deliveries : Option EmailConfig → Bytes × Option EmailConfig → List Delivery
unfolding send_email
deliveries own (webhook, none) = if same webhook [] then [] else posted webhook ∷ []
deliveries own (webhook, some c) =
    if same webhook [] then send_email own ∷ [] else posted webhook ∷ send_email own ∷ []

-- `Send`
unfoldable pub send : Notifier → List Delivery
unfolding deliveries resolve_config
send n = deliveries n.email (resolve_config n)

-- `buildMIME`, with the date as Go prints it
unfoldable pub build_mime : Bytes → Bytes → List Bytes → Bytes → Bytes → Bytes
unfolding join
build_mime date sender recipients subject body =
    codes "From: "
    ++ (sender
        ++ (crlf
            ++ (codes "To: "
                ++ (join recipients (codes ", ")
                    ++ (crlf
                        ++ (codes "Subject: "
                            ++ (subject
                                ++ (crlf
                                    ++ (codes "Date: "
                                        ++ (date
                                            ++ (crlf
                                                ++ (codes "MIME-Version: 1.0"
                                                    ++ (crlf
                                                        ++ (codes
                                                            "Content-Type: text/plain; charset=UTF-8"
                                                            ++ (crlf
                                                            ++ (crlf ++ body))))))))))))))))
