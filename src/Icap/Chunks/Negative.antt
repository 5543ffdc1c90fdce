-- ===== src/Icap/Chunks/Negative.antt =====
-- What `readChunked` makes of a negative chunk size.
use ai_scan_interceptor.Base.{
  ℕ, suc, ◌^◌, ◌<◌, ◌≡◌, refl, ◌∙◌, inr, none, Bytes, ◌∷◌, ◌++◌, arith, All,
}
use ai_scan_interceptor.Strings.{index_byte}
use ai_scan_interceptor.Strings.Plain.{IsPlain}
use ai_scan_interceptor.Strings.Numbers.{parsed, negative, text, text-All, parse_int-minus}
use ai_scan_interceptor.Strings.Lines.{crlf, read_line-append, plain-HasNoNewline}
use ai_scan_interceptor.Icap.Chunks.{
  panicked, crashed, sized_round, chunk_size, line_round, round, after_round, read_chunks,
  read_chunked,
}
use ai_scan_interceptor.Icap.Chunks.RoundTrip.{chunk_size-line, no_semicolon, size-IsPlain}

minus-IsPlain : (n : ℕ) → All IsPlain (b'-' ∷ text 16 n)
minus-IsPlain n = ((omega arith, omega arith), size-IsPlain n)

minus_no_semicolon : (n : ℕ) → index_byte (b'-' ∷ text 16 n) b';' ≡ none
unfolding index_byte
minus_no_semicolon n = ground (arith, no_semicolon (text 16 n) (text-All 16 n (inr refl)))

minus_line : (n : ℕ) → n < 2 ^ 63 → chunk_size ((b'-' ∷ text 16 n) ++ crlf) ≡ parsed (negative n)
minus_line n h =
    chunk_size-line (b'-' ∷ text 16 n) (minus-IsPlain n) (minus_no_semicolon n)
    ∙ parse_int-minus 16 n (inr refl) h

round_minus :
    (len n : ℕ) (rest : Bytes)
    → suc n < 2 ^ 63
    → round len (b'-' ∷ (text 16 (suc n) ++ (crlf ++ rest))) ≡ crashed
unfolding round line_round sized_round
round_minus len n rest h =
    rw
      (
        read_line-append (b'-' ∷ text 16 (suc n)) rest
            (plain-HasNoNewline (b'-' ∷ text 16 (suc n)) (minus-IsPlain (suc n))),
        minus_line (suc n) h,
      )
      refl

-- A body whose first chunk has a negative size, such as `-5`, makes the server panic.
pub read_chunked-panics :
    (n : ℕ) (rest : Bytes)
    → suc n < 2 ^ 63
    → read_chunked (b'-' ∷ (text 16 (suc n) ++ (crlf ++ rest))) ≡ panicked
unfolding read_chunked read_chunks after_round
read_chunked-panics n rest h = rw (round_minus 0 n rest h) refl
