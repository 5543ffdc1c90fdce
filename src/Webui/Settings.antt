-- ===== src/Webui/Settings.antt =====
-- The settings pages: webui/notificationsettings.go, webui/logsettings.go and their handlers in
-- webui/handler.go. The notification settings are in the file that the notifier of
-- icap-server/notification/ reads. Times are seconds; the outcome of each write is an argument.
pub mod Masked
pub mod Examples
use ai_scan_interceptor.Base.{
  ℕ, ◌-◌, ◌*◌, Bool, true, false, Option, none, some, List, [], ◌∷◌, if◌then◌else◌, ltb, Bytes,
  codes, same, File, missing, unreadable, empty, malformed, holds, WriteResult, is_written,
  overwrite_file, ℤ, pos, negsuc,
}
use ai_scan_interceptor.Icap.Notification.{FileConfig}
use ai_scan_interceptor.Webui.Login.{
  Method, method_get, method_post, method_put, method_delete, method_other,
}

-- `NotificationSettingsStore` and its file
pub record NotificationStore : Type 0 where
  pub settings : FileConfig
  pub disk : File FileConfig

-- `passwordMask`
abbrev pub password_mask : Bytes
password_mask = codes "***"

abbrev fresh_settings : FileConfig
fresh_settings = record {
  slack_webhook_url = [];
  smtp_host = [];
  smtp_port = codes "587";
  smtp_user = [];
  smtp_pass = [];
  smtp_from = [];
  alert_email_to = [];
}

-- `newNotificationSettingsStore`
unfoldable pub new_notification_store : File FileConfig → Option NotificationStore
new_notification_store missing = some (record { settings = fresh_settings; disk = missing })
new_notification_store (holds n) = some (record { settings = n; disk = holds n })
new_notification_store _ = none

-- `GetMasked`
unfoldable pub get_masked : NotificationStore → FileConfig
get_masked st =
    if same st.settings.smtp_pass []
    then st.settings
    else record st.settings { smtp_pass = password_mask }

with_port : FileConfig → FileConfig
with_port n = if same n.smtp_port [] then record n { smtp_port = codes "587" } else n

with_password : Bytes → FileConfig → FileConfig
with_password old n = if same n.smtp_pass password_mask then record n { smtp_pass = old } else n

-- the settings that `Set` stores
unfoldable pub settled : NotificationStore → FileConfig → FileConfig
unfolding with_port with_password
settled st n = with_password st.settings.smtp_pass (with_port n)

-- `Set`, and whether the write succeeded
unfoldable pub set_notification :
    WriteResult → FileConfig → NotificationStore → NotificationStore × Bool
unfolding settled
set_notification saved n st = (
  record { settings = settled st n; disk = overwrite_file saved (settled st n) st.disk },
  is_written saved,
)

-- a page: the settings that are shown, or a status
pub data SettingsPage {ℓ} (A : Type ℓ) : Type ℓ where
  settings_status : ℕ → SettingsPage A
  settings_shown : A → SettingsPage A

saved_page : {A : Type 0} → Bool → SettingsPage A
saved_page true = settings_status 204
saved_page false = settings_status 500

-- `handleNotificationSettings`, with the decoded body
unfoldable pub handle_notification_settings :
    WriteResult
    → Method
    → Option FileConfig
    → NotificationStore
    → NotificationStore × SettingsPage FileConfig
unfolding get_masked set_notification saved_page
handle_notification_settings saved method_get n st = (st, settings_shown (get_masked st))
handle_notification_settings saved method_put none st = (st, settings_status 400)
handle_notification_settings saved method_put (some n) st =
    let (t, ok) = set_notification saved n st in (t, saved_page ok)
handle_notification_settings saved _ n st = (st, settings_status 405)

-- `LogSettingsStore`, whose settings are the days that logs are kept, and its file
pub record LogSettingsStore : Type 0 where
  pub retention_days : ℤ
  pub disk : File ℤ

-- `newLogSettingsStore`; a file that is empty is malformed
unfoldable pub new_log_settings : File ℤ → Option LogSettingsStore
new_log_settings missing = some (record { retention_days = pos 30; disk = missing })
new_log_settings (holds d) = some (record { retention_days = d; disk = holds d })
new_log_settings _ = none

-- the days that `Set` stores
unfoldable pub clamped_days : ℤ → ℤ
clamped_days (negsuc n) = pos 1
clamped_days (pos n) = if ltb n 1 then pos 1 else if ltb 3650 n then pos 3650 else pos n

unfoldable pub set_log_settings : WriteResult → ℤ → LogSettingsStore → LogSettingsStore × Bool
unfolding clamped_days
set_log_settings saved d st = (
  record { retention_days = clamped_days d; disk = overwrite_file saved (clamped_days d) st.disk },
  is_written saved,
)

-- `handleLogSettings`
unfoldable pub handle_log_settings :
    WriteResult → Method → Option ℤ → LogSettingsStore → LogSettingsStore × SettingsPage ℤ
unfolding set_log_settings saved_page
handle_log_settings saved method_get d st = (st, settings_shown st.retention_days)
handle_log_settings saved method_put none st = (st, settings_status 400)
handle_log_settings saved method_put (some d) st =
    let (t, ok) = set_log_settings saved d st in (t, saved_page ok)
handle_log_settings saved _ d st = (st, settings_status 405)

-- a log file, with the time of its last change, none if it cannot be read, and whether a removal
-- succeeds
pub record LogFile : Type 0 where
  pub name : Bytes
  pub modified : Option ℕ
  pub removable : Bool

is_older : ℕ → Option ℕ → Bool
is_older cutoff none = false
is_older cutoff (some t) = ltb t cutoff

-- one round of `RunLogCleanup` over the files, with the time before which files are old
unfoldable pub cleanup : ℕ → List LogFile → List LogFile
unfolding is_older
cleanup cutoff [] = []
cleanup cutoff (f ∷ fs) =
    let rest = cleanup cutoff fs in
    if is_older cutoff f.modified then (if f.removable then rest else f ∷ rest) else f ∷ rest
