-- ===== src/Webui/Sessions/Expiry.antt =====
-- What `Get` gives, and what `DeleteByUserID` leaves.
use ai_scan_interceptor.Base.{
  ℕ, ◌≤◌, ◌≡◌, ◌⊎◌, inl, inr, refl, false, Option, none, some, List, [], ◌∷◌, arith, ltb, Bytes,
  same, same_iff, find_key, has_key, Bool-cases,
}
use ai_scan_interceptor.Webui.Sessions.{Session, token_of, get_found, get, delete_by_user_id}

live-cases :
    (now : ℕ) (token : Bytes) (s : Session) (ss : List Session)
    → find_key token_of token ss ≡ some s
    → ((get_found now token (some s) ss).1 ≡ none)
      ⊎ ((u : Session) × (find_key token_of token ss ≡ some u)
          × (now ≤ u.expires_at)
          × (get_found now token (some s) ss ≡ (ss, some u)))
unfolding get_found
live-cases now token s ss e = elim (Bool-cases (ltb s.expires_at now)) [
  | inl expired ↦ inl (rw expired refl)
  | inr live ↦ inr (s, e, ground arith, rw live refl)
]

found-cases :
    (now : ℕ) (token : Bytes) (o : Option Session) (ss : List Session)
    → find_key token_of token ss ≡ o
    → ((get_found now token o ss).1 ≡ none)
      ⊎ ((s : Session) × (find_key token_of token ss ≡ some s)
          × (now ≤ s.expires_at)
          × (get_found now token o ss ≡ (ss, some s)))
unfolding get_found
found-cases now token none ss e = inl refl
found-cases now token (some s) ss e = live-cases now token s ss e

-- A session that `Get` gives is stored and not expired, and the store is left as it is.
pub get-cases :
    (now : ℕ) (token : Bytes) (ss : List Session)
    → ((get now token ss).1 ≡ none)
      ⊎ ((s : Session) × (find_key token_of token ss ≡ some s)
          × (now ≤ s.expires_at)
          × (get now token ss ≡ (ss, some s)))
unfolding get
get-cases now token ss = found-cases now token (find_key token_of token ss) ss refl

abbrev pub user_of : Session → Bytes
user_of s = s.user_id

-- No session of the user is left.
pub delete_by_user_id-none :
    (id : Bytes) (ss : List Session) → has_key user_of id (delete_by_user_id id ss) ≡ false
unfolding delete_by_user_id has_key
delete_by_user_id-none id [] = refl
delete_by_user_id-none id (s ∷ ss) = ground (arith, delete_by_user_id-none id ss)

-- The sessions of the others are left.
pub delete_by_user_id-other :
    (id k : Bytes) (ss : List Session)
    → same id k ≡ false
    → has_key user_of k (delete_by_user_id id ss) ≡ has_key user_of k ss
unfolding delete_by_user_id has_key
delete_by_user_id-other id k [] h = refl
delete_by_user_id-other id k (s ∷ ss) h = ground (
  arith,
  delete_by_user_id-other id k ss h,
  same_iff s.user_id id,
  same_iff id k,
  same_iff s.user_id k,
)
