-- ===== src/Icap/Handler/Uploads.antt =====
-- What becomes of uploads: requests with a multipart body.
use ai_scan_interceptor.Base.{
  ℕ, ◌≡◌, Bool, true, Option, none, some, List, ◌&&◌, ◌||◌, if◌then◌else◌, Bytes, same,
}
use ai_scan_interceptor.Icap.Policy.{Config, mode_block, mode_mask}
use ai_scan_interceptor.Icap.Rules.{AlertRule}
use ai_scan_interceptor.Icap.Services.{Extractor}
use ai_scan_interceptor.Icap.Detect.{Result, detect}
use ai_scan_interceptor.Icap.Handler.{Answer, no_modification, blocked, mode_of}

IsUploadOnly : Option Result → Type 0
IsUploadOnly none = Unit
IsUploadOnly (some r) = r.is_file_upload ≡ true

-- The mode refuses what triggers, where other requests are refused or masked.
abbrev pub is_enforcing : Bytes → Bool
is_enforcing mode = same mode mode_block || same mode mode_mask

-- the answer to an upload: refused under such a mode if it triggered, else passed on as it is
abbrev pub upload_answer : Option Config → Option Result → Answer
upload_answer policy none = no_modification
upload_answer policy (some r) =
    if r.triggered && is_enforcing (mode_of policy r.service) then blocked else no_modification

module _ (find_string_index : Bytes → Bytes → Option (ℕ × ℕ)) (match_string : Bytes → Bytes → Bool)
    (lower_runes : Bytes → Bytes) (file_names : Bytes → Bytes → List Bytes)
    (extract_multipart_file : Bytes → Option Bytes)
    (extract_with : Extractor → Bytes → Option Bytes) where
  module _ (mask_sensitive_for_service : Bytes → Bytes → Bytes → Bytes)
      (active : List AlertRule) where
    abbrev pub detect_active : Bytes → Bytes → Bytes → Bytes → Option Result
    detect_active =
        detect find_string_index match_string lower_runes file_names extract_multipart_file
          extract_with active
