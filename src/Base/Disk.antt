-- ===== src/Base/Disk.antt =====
-- A JSON file of the configuration folder, as `os.ReadFile` and `json.Unmarshal` show it.
use mathlib.Core.Bool.{Bool, true, false}

-- `unreadable` is a read error other than "not exist"; `malformed` does not decode to the type.
pub data File {ℓ} (A : Type ℓ) : Type ℓ where
  missing unreadable empty malformed : File A
  holds : A → File A

-- How os.WriteFile ends. It truncates the file before it writes: a failure leaves the file as it was
-- only if it could not be opened; else it is empty, torn in the middle, or whole but reported as an
-- error by the close.
pub data WriteResult : Type 0 where
  written not_opened truncated torn close_failed : WriteResult

-- no error is returned
abbrev pub is_written : WriteResult → Bool
is_written written = true
is_written _ = false

-- What os.WriteFile leaves on disk. The programs write indented JSON objects and arrays, whose proper
-- beginnings do not decode.
abbrev pub overwrite_file {ℓ} : {A : Type ℓ} → WriteResult → A → File A → File A
overwrite_file written a old = holds a
overwrite_file not_opened a old = old
overwrite_file truncated a old = empty
overwrite_file torn a old = malformed
overwrite_file close_failed a old = holds a

-- What a write to a temporary file leaves on disk, which is renamed over the file only once it is
-- complete: when all system calls succeed, and when one fails.
abbrev pub write_file {ℓ} : {A : Type ℓ} → Bool → A → File A → File A
write_file true a old = holds a
write_file false a old = old
