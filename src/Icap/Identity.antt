-- ===== src/Icap/Identity.antt =====
-- The identity of a request's user: icap-server/icap/handler.go. `decode` is what Go's base64
-- package makes of a token's payload, `sub_claim` what encoding/json reads from it.
use ai_scan_interceptor.Base.{Option, none, some, List, [], ◌∷◌, if◌then◌else◌, Bytes, codes, same}
use ai_scan_interceptor.Strings.{trim_space, cut_prefix, split3}

-- the texts of `IdentitySource`; `no_source` is the empty one, which only the TLS proxy writes
pub data IdentitySource : Type 0 where
  mtls_cert reverse_dns jwt_sub ip_only no_source : IdentitySource

abbrev or_empty : Option Bytes → Bytes
or_empty none = []
or_empty (some s) = s

module _ (decode : Bytes → Option Bytes) (sub_claim : Bytes → Option Bytes) where
  claim_of : Option Bytes → Bytes
  claim_of none = []
  claim_of (some payload) = or_empty (sub_claim payload)

  -- the middle one of three parts
  sub_of : List Bytes → Bytes
  unfolding claim_of
  sub_of (header ∷ payload ∷ signature ∷ []) = claim_of (decode payload)
  sub_of _ = []

  bearer : Option Bytes → Bytes
  unfolding sub_of
  bearer none = []
  bearer (some token) = if same token [] then [] else sub_of (split3 token 46)

  -- `jwtSub`
  unfoldable pub jwt_subject : Bytes → Bytes
  unfolding bearer
  jwt_subject auth_header = bearer (cut_prefix auth_header (codes "Bearer "))

  -- `extractUserID`
  unfoldable pub extract_user_id : Bytes → Bytes → Bytes → Bytes × IdentitySource
  extract_user_id cert_subject hostname auth_header =
      let cert = trim_space cert_subject in
      let sub = jwt_subject auth_header in
      if same cert []
      then (if same hostname []
          then (if same sub [] then ([], ip_only) else (sub, jwt_sub))
          else (hostname, reverse_dns))
      else (cert, mtls_cert)
