-- ===== src/TlsProxy/DeviceStore.antt =====
-- The append to the device registry: tls-proxy/devicestore.go, under the lock of
-- tls-proxy/filelock.go. The outcome of the lock and of the write are arguments.
use ai_scan_interceptor.Base.{
  Bool, Option, none, some, List, [], ◌∷◌, ◌++◌, if◌then◌else◌, has_key, File, missing, unreadable,
  empty, malformed, holds, write_file,
}
use ai_scan_interceptor.Webui.DeviceStore.{Device, id_of}

-- what `WithFlock` comes to before it runs its function
pub data LockOutcome : Type 0 where
  acquired timed_out lock_error : LockOutcome

pub data AppendError : Type 0 where
  flock_timeout flock_failed read_error id_exists persist_error : AppendError

-- `readDevicesFile`
unfoldable pub read_devices_file : File (List Device) → Option (List Device)
read_devices_file missing = some []
read_devices_file unreadable = none
read_devices_file empty = some []
read_devices_file malformed = none
read_devices_file (holds ds) = some ds

append_locked :
    Bool
    → Device
    → Option (List Device)
    → File (List Device)
    → File (List Device) × Option AppendError
append_locked saved d none file = (file, some read_error)
append_locked saved d (some ds) file =
    if has_key id_of d.device_id ds
    then (file, some id_exists)
    else (write_file saved (ds ++ d ∷ []) file, if saved then none else some persist_error)

-- `appendDevice`
unfoldable pub append_device :
    LockOutcome → Bool → Device → File (List Device) → File (List Device) × Option AppendError
unfolding append_locked read_devices_file
append_device acquired saved d file = append_locked saved d (read_devices_file file) file
append_device timed_out saved d file = (file, some flock_timeout)
append_device lock_error saved d file = (file, some flock_failed)
