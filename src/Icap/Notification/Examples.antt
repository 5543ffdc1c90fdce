-- ===== src/Icap/Notification/Examples.antt =====
-- A notifier whose file names a mail server and a recipient.
use ai_scan_interceptor.Base.{◌≡◌, refl, true, some, [], ◌∷◌, codes, same}
use ai_scan_interceptor.Icap.Notification.{
  EmailConfig, FileConfig, new_email_notifier, new_dynamic_notifier, merged, first_non_empty,
  non_empty_slice, send,
}
use ai_scan_interceptor.Icap.Notification.Dynamic.{has_panic, send-panics}

abbrev file : FileConfig
file = record {
  slack_webhook_url = [];
  smtp_host = codes "mail";
  smtp_port = [];
  smtp_user = [];
  smtp_pass = [];
  smtp_from = codes "alerts@acme";
  alert_email_to = codes "ops@acme" ∷ [];
}

abbrev no_settings : EmailConfig
no_settings = record {
  host = [];
  port = [];
  user = [];
  password = [];
  sender = [];
  recipients = [];
}

abbrev resolved : EmailConfig
resolved = record {
  host = codes "mail";
  port = codes "587";
  user = [];
  password = [];
  sender = codes "alerts@acme";
  recipients = codes "ops@acme" ∷ [];
}

mail_is_set : new_email_notifier (merged file no_settings) ≡ some resolved
unfolding new_email_notifier merged first_non_empty non_empty_slice same
mail_is_set = refl

send-panics_example : has_panic (send (new_dynamic_notifier file no_settings [])) ≡ true
send-panics_example = send-panics file no_settings [] resolved mail_is_set
