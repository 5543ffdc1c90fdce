-- ===== src/Icap/Services/Ports.antt =====
-- A port in the host makes no difference to the table.
use ai_scan_interceptor.Base.{
  ℕ, ◌≡◌, ◌∙◌, ap, refl, Bool, true, not, none, some, [], ◌∷◌, ◌++◌, arith, ◌==◌, Bytes, all,
  length, take-append_exact,
}
use ai_scan_interceptor.Strings.{last_index_byte, cut_at, before_last}
use ai_scan_interceptor.Icap.Services.{find_rule, known_ai_service_name}

-- The text has no byte `b`.
abbrev pub lacks : ℕ → Bytes → Bool
lacks b s = all (λ c. not (c == b)) s

last_index-none : (b : ℕ) (s : Bytes) → lacks b s ≡ true → last_index_byte s b ≡ none
unfolding last_index_byte
last_index-none b [] h = refl
last_index-none b (c ∷ s) h = ground (arith, last_index-none b s)

last_index-append :
    (b : ℕ) (s t : Bytes) → lacks b t ≡ true → last_index_byte (s ++ b ∷ t) b ≡ some (length s)
unfolding last_index_byte
last_index-append b [] t h = ground (arith, last_index-none b t)
last_index-append b (c ∷ s) t h = rw (last_index-append b s t h) refl

before_last-append : (b : ℕ) (s t : Bytes) → lacks b t ≡ true → before_last (s ++ b ∷ t) b ≡ s
unfolding before_last cut_at
before_last-append b s t h =
    ap (cut_at (s ++ b ∷ t)) (last_index-append b s t h) ∙ take-append_exact s (b ∷ t)

before_last-lacks : (b : ℕ) (s : Bytes) → lacks b s ≡ true → before_last s b ≡ s
unfolding before_last cut_at
before_last-lacks b s h = ap (cut_at s) (last_index-none b s h)

-- The rule of a host without colons is the rule of that host with a port, and so is the name of
-- the service.
pub find_rule-port :
    (match_string : Bytes → Bytes → Bool) (host port path : Bytes)
    → lacks 58 host ≡ true
    → lacks 58 port ≡ true
    → (find_rule match_string (host ++ 58 ∷ port) path ≡ find_rule match_string host path)
      × (known_ai_service_name (host ++ 58 ∷ port) ≡ known_ai_service_name host)
unfolding find_rule known_ai_service_name
find_rule-port match_string host port path h p =
    rw (before_last-append 58 host port p) (rw (before_last-lacks 58 host h) (refl, refl))
