-- ===== src/Webui/PolicyPage/Examples.antt =====
-- A policy that masks everywhere but blocks one service.
use ai_scan_interceptor.Base.{WriteResult, ◌≡◌, refl, true, some, [], ◌∷◌, codes, same, missing}
use ai_scan_interceptor.Icap.Policy.{Config, get_mode, reload_tick}
use ai_scan_interceptor.Webui.Login.{method_put}
use ai_scan_interceptor.Webui.PolicyPage.{PolicyRequest, is_mode, handle_policy}
use ai_scan_interceptor.Webui.PolicyPage.Reload.{requested, handle_policy-get_mode}

abbrev request : PolicyRequest
request = record {
  global_mode = codes "mask";
  service_modes = record { service = codes "Claude"; mode = codes "block" } ∷ [];
}

abbrev server : Config
server = record {
  data_policy = record { global_mode = codes "monitor"; service_modes = []; updated_at = 0 };
  disk = missing;
}

policy_put : (handle_policy 5 WriteResult.written method_put (some request) missing).1 ≡ 204
unfolding handle_policy same
policy_put = refl

handle_policy-get_mode_example :
    let after = reload_tick (record server {
      disk = (handle_policy 5 WriteResult.written method_put (some request) missing).0;
    }) in
    (get_mode (codes "Claude") after ≡ requested request (codes "Claude"))
    × (is_mode (get_mode (codes "Claude") after) ≡ true)
handle_policy-get_mode_example =
    handle_policy-get_mode 5 WriteResult.written request missing server (codes "Claude") policy_put
