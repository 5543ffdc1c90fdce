-- ===== src/Strings/Places.antt =====
-- Where a text or a byte first stands in a text that is put together around it.
use ai_scan_interceptor.Base.{
  ℕ, suc, ◌≡◌, ◌≢◌, refl, some, [], ◌∷◌, ◌++◌, arith, Bytes, All, length, drop,
}
use ai_scan_interceptor.Strings.{has_prefix, index, index_byte}
use ai_scan_interceptor.Strings.Lines.{crlf}

pub index-crlf :
    (line post : Bytes)
    → All (λ c. c ≢ 13) line
    → index (line ++ (crlf ++ post)) crlf ≡ some (length line)
unfolding index has_prefix
index-crlf [] post h = refl
index-crlf (c ∷ line) post h = ground (arith, index-crlf line post h.1)

pub index_byte-append :
    (b : ℕ) (s t : Bytes) → All (λ c. c ≢ b) s → index_byte (s ++ b ∷ t) b ≡ some (length s)
unfolding index_byte
index_byte-append b [] t h = ground arith
index_byte-append b (c ∷ s) t h = ground (arith, index_byte-append b s t h.1)

pub drop-append_suc : (c : ℕ) (s t : Bytes) → drop (suc (length s)) (s ++ c ∷ t) ≡ t
drop-append_suc c [] t = refl
drop-append_suc c (d ∷ s) t = drop-append_suc c s t
