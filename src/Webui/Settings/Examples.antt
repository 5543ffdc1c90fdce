-- ===== src/Webui/Settings/Examples.antt =====
-- Settings with a password, shown and sent back.
use ai_scan_interceptor.Base.{WriteResult, ◌≡◌, refl, false, some, [], ◌∷◌, codes, same, missing}
use ai_scan_interceptor.Icap.Notification.{FileConfig, try_load}
use ai_scan_interceptor.Webui.Login.{method_put}
use ai_scan_interceptor.Webui.Settings.{
  NotificationStore, get_masked, settings_status, handle_notification_settings,
}
use ai_scan_interceptor.Webui.Settings.Masked.{handle_notification_settings-masked}

abbrev mail_settings : FileConfig
mail_settings = record {
  slack_webhook_url = [];
  smtp_host = codes "mail";
  smtp_port = codes "587";
  smtp_user = codes "alerts";
  smtp_pass = codes "secret";
  smtp_from = codes "alerts@acme";
  alert_email_to = codes "ops@acme" ∷ [];
}

abbrev a_store : NotificationStore
a_store = record { settings = mail_settings; disk = missing }

port_given : same (codes "587") [] ≡ false
unfolding same
port_given = refl

handle_notification_settings-masked_example :
    let out =
      handle_notification_settings WriteResult.written method_put
        (some (get_masked a_store))
        a_store in
    (out.0.settings ≡ mail_settings)
    × (try_load out.0.disk mail_settings ≡ mail_settings)
    × (out.1 ≡ settings_status 204)
handle_notification_settings-masked_example =
    handle_notification_settings-masked a_store mail_settings port_given
