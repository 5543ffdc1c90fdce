-- ===== src/Icap/Chunks/Bounds.antt =====
-- Bounds on what a chunked body can hold, and the end of the loop that reads it.
use ai_scan_interceptor.Base.{
  ℕ, zero, suc, ◌+◌, ◌≤◌, ◌<◌, ◌≡◌, refl, Option, none, some, [], ◌∷◌, ◌++◌, arith, ltb, Bytes,
  if-case, length, drop, length-append, length-take-le, pos, negsuc,
}
use ai_scan_interceptor.Strings.Numbers.{ParsedInt, not_a_number, clamped, parsed}
use ai_scan_interceptor.Strings.Lines.{read_line, read_line-lt, skip_line-le}
use ai_scan_interceptor.Icap.Chunks.{
  max_body_size, Read, done, failed, panicked, out_of_fuel, Round, last, chunk, stopped, crashed,
  read_data, sized_round, chunk_size, line_round, round, after_round, read_chunks, read_chunked,
}

-- What a round ensures: what a chunk adds keeps the body in its limit, and fewer than `n` bytes are
-- left.
RoundFits : ℕ → ℕ → Round → Type 0
RoundFits len n (last rest) = length rest < n
RoundFits len n (chunk bytes rest) = (len + length bytes ≤ max_body_size) × (length rest < n)
RoundFits len n (stopped e) = Unit
RoundFits len n crashed = Unit

pub length-drop-le : (n : ℕ) (s : Bytes) → length (drop n s) ≤ length s
length-drop-le zero s = omega arith
length-drop-le (suc n) [] = omega arith
length-drop-le (suc n) (c ∷ s) = omega (arith, length-drop-le n s)

data-Fits :
    (len size n : ℕ) (s : Bytes)
    → length s < n
    → len + size ≤ max_body_size
    → RoundFits len n (read_data size s)
unfolding read_data RoundFits
data-Fits len size n s k h =
    if-case (RoundFits len n) (ltb (length s) size) _ _ (λ e. tt)
      λ e. (
        omega (arith, h, length-take-le size s),
        omega (arith, skip_line-le (drop size s), length-drop-le size s),
      )

sized-Fits :
    (len n : ℕ) (s : Bytes) (p : ParsedInt) → length s < n → RoundFits len n (sized_round len s p)
unfolding sized_round RoundFits
sized-Fits len n s not_a_number k = tt
sized-Fits len n s (clamped z) k = tt
sized-Fits len n s (parsed (negsuc m)) k = tt
sized-Fits len n s (parsed (pos size)) k = ground (arith, data-Fits len size n s k, skip_line-le s)

line-Fits :
    (len n : ℕ) (o : Option (Bytes × Bytes))
    → ((line rest : Bytes) → o ≡ some (line, rest) → length rest < n)
    → RoundFits len n (line_round len o)
unfolding line_round RoundFits
line-Fits len n none k = tt
line-Fits len n (some (line, s)) k = sized-Fits len n s (chunk_size line) (k line s refl)

round-Fits : (len : ℕ) (s : Bytes) → RoundFits len (length s) (round len s)
unfolding round
round-Fits len s = line-Fits len (length s) (read_line s) (read_line-lt s)

-- the body is within the limit, at most `n` bytes are left, and the fuel was enough
abbrev pub ReadFits : ℕ → Read Bytes → Type 0
ReadFits n (done body rest) = (length body ≤ max_body_size) × (length rest ≤ n)
ReadFits n (failed e) = Unit
ReadFits n panicked = Unit
ReadFits n out_of_fuel = ⊥

after-Fits :
    (next : Bytes → Bytes → Read Bytes) (buf : Bytes) (m n : ℕ) (r : Round)
    → length buf ≤ max_body_size
    → m ≤ n
    → RoundFits (length buf) m r
    → ((b t : Bytes) → length b ≤ max_body_size → length t < m → ReadFits n (next b t))
    → ReadFits n (after_round next buf r)
unfolding after_round RoundFits
after-Fits next buf m n (last rest) h l k ih = (h, omega arith)
after-Fits next buf m n (chunk bytes rest) h l k ih =
    ih (buf ++ bytes) rest (omega (arith, k, length-append buf bytes)) k.1
after-Fits next buf m n (stopped e) h l k ih = tt
after-Fits next buf m n crashed h l k ih = tt

read_chunks-Fits :
    (f n : ℕ) (buf s : Bytes)
    → length s < f
    → length s ≤ n
    → length buf ≤ max_body_size
    → ReadFits n (read_chunks f buf s)
unfolding read_chunks
read_chunks-Fits zero n buf s k l h = absurd (omega arith)
read_chunks-Fits (suc f) n buf s k l h =
    after-Fits (λ b t. read_chunks f b t) buf (length s) n (round (length buf) s) h l
      (round-Fits (length buf) s)
      λ b t hb ht. read_chunks-Fits f n b t (omega arith) (omega arith) hb

-- Whatever the peer sends, the loop that reads a chunked body ends: with an error, a panic, or a
-- body of at most 32 MB, and then it leaves no more than what was sent.
pub read_chunked-ReadFits : (s : Bytes) → ReadFits (length s) (read_chunked s)
unfolding read_chunked
read_chunked-ReadFits s =
    read_chunks-Fits (suc (length s)) (length s) [] s (omega arith) (omega arith) (omega arith)
