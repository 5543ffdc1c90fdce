-- ===== src/Webui/Settings/Masked.antt =====
-- What becomes of the settings that the page shows when they are sent back.
use ai_scan_interceptor.Base.{
  WriteResult, ◌≡◌, refl, Bool, true, false, some, [], if◌then◌else◌, same, Bool-cases, inl, inr,
}
use ai_scan_interceptor.Icap.Notification.{FileConfig, try_load}
use ai_scan_interceptor.Webui.Login.{method_put}
use ai_scan_interceptor.Webui.Settings.{
  NotificationStore, password_mask, get_masked, with_port, with_password, saved_page, settled,
  set_notification, settings_status, handle_notification_settings,
}

either : (b : Bool) (n : FileConfig) → (if b then n else n) ≡ n
either true n = refl
either false n = refl

password-kept :
    (st : NotificationStore) → with_password st.settings.smtp_pass (get_masked st) ≡ st.settings
unfolding with_password get_masked same
password-kept st = elim (Bool-cases (same st.settings.smtp_pass [])) [
  | inl e ↦ rw e (either (same st.settings.smtp_pass password_mask) st.settings)
  | inr e ↦ rw e refl
]

port-kept :
    (st : NotificationStore)
    → same st.settings.smtp_port [] ≡ false
    → with_port (get_masked st) ≡ get_masked st
unfolding with_port get_masked
port-kept st h = elim (Bool-cases (same st.settings.smtp_pass [])) [
  | inl e ↦ rw e (rw h refl)
  | inr e ↦ rw e (rw h refl)
]

settled-masked :
    (st : NotificationStore)
    → same st.settings.smtp_port [] ≡ false
    → settled st (get_masked st) ≡ st.settings
unfolding settled
settled-masked st h = rw (port-kept st h) (password-kept st)

-- Where a port is set and the write succeeds, sending back the settings that the page shows, whose
-- password is masked, is answered 204 and keeps every setting, the password included: in the store,
-- and in the file, where the notifiers of the ICAP server and the proxy read them.
pub handle_notification_settings-masked :
    (st : NotificationStore) (old : FileConfig)
    → same st.settings.smtp_port [] ≡ false
    → let out =
        handle_notification_settings WriteResult.written method_put (some (get_masked st)) st in
      (out.0.settings ≡ st.settings)
      × (try_load out.0.disk old ≡ st.settings)
      × (out.1 ≡ settings_status 204)
unfolding handle_notification_settings set_notification try_load saved_page
handle_notification_settings-masked st old h = (settled-masked st h, settled-masked st h, refl)
