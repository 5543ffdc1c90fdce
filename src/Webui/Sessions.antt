-- ===== src/Webui/Sessions.antt =====
-- The login sessions: `SessionStore` of webui/auth.go. The list stands for the map of tokens. Time
-- is in seconds.
pub mod Expiry
use ai_scan_interceptor.Base.{
  ℕ, ◌+◌, Bool, true, false, Option, none, some, List, [], ◌∷◌, ◌++◌, if◌then◌else◌, ltb, Bytes,
  same, find_key, has_key, update_key, remove_key,
}
use ai_scan_interceptor.Webui.Users.{User}

-- `sessionTTL`
abbrev pub session_ttl : ℕ
session_ttl = 28800

-- `Session`
pub record Session : Type 0 where
  pub token : Bytes
  pub user_id : Bytes
  pub username : Bytes
  pub role : Bytes
  pub expires_at : ℕ

abbrev pub token_of : Session → Bytes
token_of s = s.token

abbrev pub new_session : ℕ → Bytes → User → Session
new_session now token u = record {
  token = token;
  user_id = u.id;
  username = u.username;
  role = u.role;
  expires_at = now + session_ttl;
}

-- `Create`, with the generated token
unfoldable pub create : ℕ → Bytes → User → List Session → List Session
create now token u ss =
    if has_key token_of token ss
    then update_key token_of token (λ s. new_session now token u) ss
    else ss ++ new_session now token u ∷ []

-- `Delete`
unfoldable pub delete : Bytes → List Session → List Session
delete token ss = remove_key token_of token ss

get_found : ℕ → Bytes → Option Session → List Session → List Session × Option Session
unfolding delete
get_found now token none ss = (ss, none)
get_found now token (some s) ss =
    if ltb s.expires_at now then (delete token ss, none) else (ss, some s)

-- `Get`, which drops an expired session
unfoldable pub get : ℕ → Bytes → List Session → List Session × Option Session
unfolding get_found
get now token ss = get_found now token (find_key token_of token ss) ss

-- `DeleteByUserID`
unfoldable pub delete_by_user_id : Bytes → List Session → List Session
delete_by_user_id id [] = []
delete_by_user_id id (s ∷ ss) =
    let rest = delete_by_user_id id ss in if same s.user_id id then rest else s ∷ rest
