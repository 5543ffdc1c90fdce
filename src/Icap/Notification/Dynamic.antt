-- ===== src/Icap/Notification/Dynamic.antt =====
-- The email of a notifier whose settings come from the file.
use ai_scan_interceptor.Base.{
  ◌≡◌, refl, Bool, true, false, Option, none, some, List, [], ◌∷◌, Bytes, same, Bool-cases, inl,
  inr,
}
use ai_scan_interceptor.Icap.Notification.{
  EmailConfig, FileConfig, new_email_notifier, new_dynamic_notifier, merged, resolve_file,
  resolve_config, Delivery, panicked, send_email, deliveries, send,
}

pub has_panic : List Delivery → Bool
has_panic [] = false
has_panic (panicked ∷ ds) = true
has_panic (d ∷ ds) = has_panic ds

deliveries-panic :
    (c : EmailConfig) (p : Bytes × Option EmailConfig)
    → p.1 ≡ some c
    → has_panic (deliveries none p) ≡ true
unfolding deliveries send_email has_panic
deliveries-panic c (webhook, none) e = cc
deliveries-panic c (webhook, some x) e = elim (Bool-cases (same webhook [])) [
  | inl w ↦ rw w refl
  | inr w ↦ rw w refl
]

-- A notifier with settings from the file whose resolved settings name a server and a recipient: an
-- alert makes the process panic, since the email is sent by settings that such a notifier lacks.
pub send-panics :
    (file : FileConfig) (env : EmailConfig) (webhook : Bytes) (c : EmailConfig)
    → new_email_notifier (merged file env) ≡ some c
    → has_panic (send (new_dynamic_notifier file env webhook)) ≡ true
unfolding send resolve_config resolve_file new_dynamic_notifier
send-panics file env webhook c e =
    deliveries-panic c (resolve_config (new_dynamic_notifier file env webhook)) e
