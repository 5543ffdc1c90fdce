-- ===== src/Icap/Policy.antt =====
-- The enforcement policy: icap-server/policy/config.go. Time and the outcome of the write are
-- arguments.
use ai_scan_interceptor.Base.{
  ℕ, Bool, Option, none, some, List, [], Bytes, codes, find_key, File, missing, holds, WriteResult,
  is_written, overwrite_file,
}

abbrev pub mode_monitor : Bytes
mode_monitor = codes "monitor"

abbrev pub mode_warn : Bytes
mode_warn = codes "warn"

abbrev pub mode_block : Bytes
mode_block = codes "block"

abbrev pub mode_mask : Bytes
mode_mask = codes "mask"

-- an entry of `ServiceModes`
pub record ServiceMode : Type 0 where
  pub service : Bytes
  pub mode : Bytes

abbrev pub service_of : ServiceMode → Bytes
service_of m = m.service

-- `Policy`
pub record Policy : Type 0 where
  pub global_mode : Bytes
  pub service_modes : List ServiceMode
  pub updated_at : ℕ

-- `Config` and its file
pub record Config : Type 0 where
  pub data_policy : Policy
  pub disk : File Policy

abbrev pub default_policy : ℕ → Policy
default_policy now = record { global_mode = mode_monitor; service_modes = []; updated_at = now }

-- `Load`; a default that cannot be written is used all the same
unfoldable pub load_config : ℕ → WriteResult → File Policy → Option Config
load_config now saved missing = some (record {
  data_policy = default_policy now;
  disk = overwrite_file saved (default_policy now) missing;
})
load_config now saved (holds p) = some (record { data_policy = p; disk = holds p })
load_config now saved _ = none

mode_found : Bytes → Option ServiceMode → Bytes
mode_found global none = global
mode_found global (some m) = m.mode

-- `GetMode`
unfoldable pub get_mode : Bytes → Config → Bytes
unfolding mode_found
get_mode service c =
    mode_found c.data_policy.global_mode (find_key service_of service c.data_policy.service_modes)

-- `Set`, and whether it returned no error
unfoldable pub set_policy : ℕ → WriteResult → Policy → Config → Config × Bool
set_policy now saved p c =
    let q = record p { updated_at = now } in
    (record c { data_policy = q; disk = overwrite_file saved q c.disk }, is_written saved)

-- one tick of `StartReloader`
unfoldable pub reload_tick : Config → Config
reload_tick c = elim c.disk [ holds p ↦ record c { data_policy = p } | _ ↦ c ]
