-- ===== src/Icap/Filename.antt =====
-- Screening of uploaded file names: icap-server/detection/patterns.go. The parts' file names come
-- from Go's mime/multipart.
use ai_scan_interceptor.Base.{
  ℕ, Bool, true, false, Option, none, some, List, [], ◌∷◌, if◌then◌else◌, ltb, Bytes, codes, same,
  take, drop,
}
use ai_scan_interceptor.Strings.{has_suffix, index, to_lower}

-- an entry of `sensitiveFilenameRules`
pub record FilenameRule : Type 0 where
  pub suffix : Bytes
  pub exact : Bool
  pub rule_id : Bytes
  pub desc : Bytes

abbrev file_rule : Bytes → Bool → Bytes → Bytes → FilenameRule
file_rule suffix exact rule_id desc = record {
  suffix = suffix;
  exact = exact;
  rule_id = rule_id;
  desc = desc;
}

-- `sensitiveFilenameRules`
unfoldable pub sensitive_filename_rules : List FilenameRule
sensitive_filename_rules =
    file_rule (codes "id_rsa") true (codes "FILE-001") (codes "SSH private key file")
    ∷ file_rule (codes "id_ed25519") true (codes "FILE-001") (codes "SSH private key file")
    ∷ file_rule (codes "id_ecdsa") true (codes "FILE-001") (codes "SSH private key file")
    ∷ file_rule (codes "id_dsa") true (codes "FILE-001") (codes "SSH private key file")
    ∷ file_rule (codes ".env") false (codes "FILE-002") (codes "Environment variables file (.env)")
    ∷ file_rule (codes ".pem") false (codes "FILE-003") (codes "PEM certificate or key file")
    ∷ file_rule (codes ".key") false (codes "FILE-003") (codes "Private key file")
    ∷ file_rule (codes ".p12") false (codes "FILE-003") (codes "PKCS12 certificate bundle")
    ∷ file_rule (codes ".pfx") false (codes "FILE-003") (codes "PKCS12 certificate bundle")
    ∷ file_rule (codes ".jks") false (codes "FILE-003") (codes "Java KeyStore file")
    ∷ file_rule (codes ".p8") false (codes "FILE-003") (codes "PKCS8 private key file")
    ∷ file_rule (codes "credentials") true (codes "FILE-004") (codes "Cloud credentials file")
    ∷ file_rule (codes "credentials.json") true (codes "FILE-004") (codes "Cloud credentials JSON")
    ∷ file_rule (codes "credentials.csv") true (codes "FILE-004") (codes "Cloud credentials CSV")
    ∷ file_rule (codes "service-account.json") true (codes "FILE-005")
        (codes "GCP service account key")
    ∷ file_rule (codes "serviceaccount.json") true (codes "FILE-005")
        (codes "GCP service account key")
    ∷ file_rule (codes ".tfvars") false (codes "FILE-006")
        (codes "Terraform variables file (may contain secrets)")
    ∷ file_rule (codes "secrets.yaml") true (codes "FILE-007") (codes "Kubernetes secrets manifest")
    ∷ file_rule (codes "secrets.yml") true (codes "FILE-007") (codes "Kubernetes secrets manifest")
    ∷ file_rule (codes "kubeconfig") true (codes "FILE-008")
        (codes "Kubernetes kubeconfig with credentials")
    ∷ file_rule (codes ".kubeconfig") false (codes "FILE-008")
        (codes "Kubernetes kubeconfig with credentials")
    ∷ []

-- one step of the inner loop
unfoldable pub rule_applies : Bytes → FilenameRule → Bool
rule_applies lower r = if r.exact then same lower r.suffix else has_suffix lower r.suffix

-- the inner loop
unfoldable pub first_rule : Bytes → List FilenameRule → Option FilenameRule
first_rule lower [] = none
first_rule lower (r ∷ rs) = if rule_applies lower r then some r else first_rule lower rs

-- a hit: the name, the rule and its description
pub record FilenameHit : Type 0 where
  pub filename : Bytes
  pub rule_id : Bytes
  pub desc : Bytes

hit_or : Bytes → Option FilenameRule → Option FilenameHit → Option FilenameHit
hit_or f (some r) rest = some (record { filename = f; rule_id = r.rule_id; desc = r.desc })
hit_or f none rest = rest

module _ (lower_runes : Bytes → Bytes) where
  -- the loop over the parts' names, which skips empty ones
  unfoldable pub check_names : List Bytes → Option FilenameHit
  unfolding hit_or first_rule sensitive_filename_rules
  check_names [] = none
  check_names (f ∷ fs) =
      let rest = check_names fs in
      if same f []
      then rest
      else hit_or f (first_rule (to_lower lower_runes f) sensitive_filename_rules) rest

  check_boundary : (Bytes → Bytes → List Bytes) → Bytes → Option ℕ → Option FilenameHit
  unfolding check_names
  check_boundary file_names body none = none
  check_boundary file_names body (some n) =
      if ltb n 3 then none else check_names (file_names (drop 2 (take n body)) body)

  -- `checkSensitiveFilename`; `file_names` reads a body with its boundary
  unfoldable pub check_sensitive_filename :
      (Bytes → Bytes → List Bytes) → Bytes → Option FilenameHit
  unfolding check_boundary
  check_sensitive_filename file_names body =
      check_boundary file_names body (index body (13 ∷ 10 ∷ []))
