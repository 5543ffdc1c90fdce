-- ===== src/Webui/PolicyPage.antt =====
-- The policy page of the dashboard: `handlePolicy` of webui/handler.go, on the file that the ICAP
-- server reloads. Time and the outcome of the write are arguments; the body comes decoded.
pub mod Reload
pub mod Examples
use ai_scan_interceptor.Base.{
  ℕ, Bool, true, false, not, ◌&&◌, ◌||◌, Option, none, some, List, [], ◌∷◌, if◌then◌else◌, Bytes,
  codes, same, all, File, missing, unreadable, holds, WriteResult, is_written, overwrite_file,
}
use ai_scan_interceptor.Icap.Policy.{Policy, ServiceMode}
use ai_scan_interceptor.Webui.Login.{Method, method_get, method_put}

-- `validModes`
unfoldable pub is_mode : Bytes → Bool
is_mode m =
    same m (codes "monitor")
    || same m (codes "warn")
    || same m (codes "block")
    || same m (codes "mask")

-- the body of a PUT
pub record PolicyRequest : Type 0 where
  pub global_mode : Bytes
  pub service_modes : List ServiceMode

unfoldable pub is_valid_request : PolicyRequest → Bool
unfolding is_mode
is_valid_request r = is_mode r.global_mode && all (λ m. is_mode m.mode) r.service_modes

put_policy : ℕ → WriteResult → PolicyRequest → File Policy → File Policy × ℕ
unfolding is_valid_request
put_policy now saved r file =
    if is_valid_request r
    then (
      overwrite_file saved
          (record {
            global_mode = r.global_mode;
            service_modes = r.service_modes;
            updated_at = now;
          })
          file,
      if is_written saved then 204 else 500,
    )
    else (file, 400)

read_status : File Policy → ℕ
read_status unreadable = 500
read_status _ = 200

-- `handlePolicy`; reading sends the file as it is, or a default if it is missing
unfoldable pub handle_policy :
    ℕ → WriteResult → Method → Option PolicyRequest → File Policy → File Policy × ℕ
unfolding put_policy read_status
handle_policy now saved method_get body file = (file, read_status file)
handle_policy now saved method_put none file = (file, 400)
handle_policy now saved method_put (some r) file = put_policy now saved r file
handle_policy now saved _ body file = (file, 405)
