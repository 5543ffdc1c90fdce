-- ===== src/Webui/PolicyPage/Reload.antt =====
-- From a policy set in the dashboard to the mode of the ICAP server.
use ai_scan_interceptor.Base.{
  ℕ, ◌≡◌, ap, ◌∙◌, true, Option, none, some, List, [], ◌∷◌, arith, Bytes, all, find_key, File,
  holds, WriteResult,
}
use ai_scan_interceptor.Icap.Policy.{Policy, ServiceMode, Config, service_of, get_mode, reload_tick}
use ai_scan_interceptor.Webui.Login.{method_put}
use ai_scan_interceptor.Webui.PolicyPage.{
  PolicyRequest, is_mode, is_valid_request, put_policy, handle_policy,
}

-- the mode that a request asks for a service: its own entry, or the global one
mode_or : Bytes → Option ServiceMode → Bytes
mode_or global none = global
mode_or global (some m) = m.mode

pub requested : PolicyRequest → Bytes → Bytes
unfolding mode_or
requested r service = mode_or r.global_mode (find_key service_of service r.service_modes)

-- an entry found in a valid list is valid
found-is_mode :
    (global service : Bytes) (ms : List ServiceMode)
    → is_mode global ≡ true
    → all (λ m. is_mode m.mode) ms ≡ true
    → is_mode (mode_or global (find_key service_of service ms)) ≡ true
unfolding find_key mode_or
found-is_mode global service [] g h = g
found-is_mode global service (m ∷ ms) g h = ground (arith, found-is_mode global service ms g)

valid-requested :
    (r : PolicyRequest) (service : Bytes)
    → is_valid_request r ≡ true
    → is_mode (requested r service) ≡ true
unfolding is_valid_request requested
valid-requested r service h = ground (arith, found-is_mode r.global_mode service r.service_modes)

put-written :
    (now : ℕ) (saved : WriteResult) (r : PolicyRequest) (file : File Policy)
    → (put_policy now saved r file).1 ≡ 204
    → (is_valid_request r ≡ true)
      × ((put_policy now saved r file).0
          ≡ holds (record {
            global_mode = r.global_mode;
            service_modes = r.service_modes;
            updated_at = now;
          }))
unfolding put_policy
put-written now WriteResult.written r file w = ground arith
put-written now WriteResult.not_opened r file w = ground arith
put-written now WriteResult.truncated r file w = ground arith
put-written now WriteResult.torn r file w = ground arith
put-written now WriteResult.close_failed r file w = ground arith

reloaded-mode :
    (now : ℕ) (r : PolicyRequest) (service : Bytes) (c : Config)
    → get_mode service (
        reload_tick (record c {
          disk = holds (record {
            global_mode = r.global_mode;
            service_modes = r.service_modes;
            updated_at = now;
          });
        }))
      ≡ requested r service
unfolding get_mode reload_tick requested mode_or
reloaded-mode now r service c = ground arith

-- After a policy is answered 204 and one tick of the ICAP server's reloader on that file, whatever
-- policy the server had before, the mode of a service is the one that the request gives it, or else
-- the request's global mode; and it is one of the four modes.
pub handle_policy-get_mode :
    (now : ℕ) (saved : WriteResult) (r : PolicyRequest) (file : File Policy) (c : Config)
    (service : Bytes)
    → (handle_policy now saved method_put (some r) file).1 ≡ 204
    → let after =
        reload_tick (record c { disk = (handle_policy now saved method_put (some r) file).0 }) in
      (get_mode service after ≡ requested r service) × (is_mode (get_mode service after) ≡ true)
unfolding handle_policy
handle_policy-get_mode now saved r file c service w =
    let done = put-written now saved r file w in
    let mode =
      ap (λ f. get_mode service (reload_tick (record c { disk = f }))) done.1
      ∙ reloaded-mode now r service c in
    (mode, ap is_mode mode ∙ valid-requested r service done.0)
