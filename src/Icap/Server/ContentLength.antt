-- ===== src/Icap/Server/ContentLength.antt =====
-- The rewritten header block of a masked request.
use mathlib.Core.List.{append_assoc}
use ai_scan_interceptor.Base.{
  ℕ, suc, ◌+◌, ◌≡◌, ◌≢◌, refl, ap, sym, ◌∙◌, false, some, [], ◌∷◌, ◌++◌, arith, ltb, Bytes, codes,
  All, length, take, drop, length-append, drop-append_exact,
}
use ai_scan_interceptor.Strings.{index, to_lower}
use ai_scan_interceptor.Strings.Numbers.{text}
use ai_scan_interceptor.Strings.Places.{index-crlf}
use ai_scan_interceptor.Strings.Lines.{crlf}
use ai_scan_interceptor.Icap.Server.Response.{
  content_length_line, replace_length, length_at, raw_update_content_length,
}

drop_at : (k : ℕ) (s t : Bytes) → k ≡ length s → drop k (s ++ t) ≡ t
drop_at k s t e = rw e (drop-append_exact s t)

drop-before : (pre s : Bytes) → drop (suc (length pre)) (pre ++ 10 ∷ s) ≡ s
drop-before [] s = refl
drop-before (c ∷ pre) s = drop-before pre s

take-before : (pre s : Bytes) → take (suc (length pre)) (pre ++ 10 ∷ s) ≡ pre ++ 10 ∷ []
take-before [] s = refl
take-before (c ∷ pre) s = ap (◌∷◌ c) (take-before pre s)

drop-line :
    (pre line s : Bytes) → drop (suc (length pre) + length line) (pre ++ 10 ∷ (line ++ s)) ≡ s
drop-line pre line s =
    ap (drop (suc (length pre) + length line)) (sym (append_assoc pre (10 ∷ line) s))
    ∙ drop_at (suc (length pre) + length line) (pre ++ 10 ∷ line) s
        (omega (arith, length-append pre (10 ∷ line)))

start_le : (pre s : Bytes) → ltb (length (pre ++ 10 ∷ s)) (suc (length pre)) ≡ false
start_le pre s = ground (arith, length-append pre (10 ∷ s))

-- Where the first line of the block that begins with `Content-Length:`, in any case, is `line` and
-- ends with a line break, it is replaced by the new length, and the rest is kept.
pub raw_update-replaces :
    (lower_runes : Bytes → Bytes) (pre line post : Bytes) (n : ℕ)
    → let block = pre ++ 10 ∷ (line ++ (crlf ++ post)) in
      index (to_lower lower_runes block) (10 ∷ codes "content-length:") ≡ some (length pre)
      → All (λ c. c ≢ 13) line
      → raw_update_content_length lower_runes block n
        ≡ some ((pre ++ 10 ∷ []) ++ ((codes "Content-Length: " ++ text 10 n) ++ (crlf ++ post)))
unfolding raw_update_content_length length_at replace_length content_length_line
raw_update-replaces lower_runes pre line post n e h =
    rw
      (
        e,
        start_le pre (line ++ (crlf ++ post)),
        drop-before pre (line ++ (crlf ++ post)),
        index-crlf line post h,
        take-before pre (line ++ (crlf ++ post)),
        drop-line pre line (crlf ++ post),
      )
      refl
