-- ===== src/Icap/Chunks/RoundTrip.antt =====
-- A chunked body is read back: what `readChunked` makes of any sequence of chunks within the limits,
-- and of the body that the server writes.
use mathlib.Core.List.{append_assoc, append-nil}
use ai_scan_interceptor.Base.{
  ℕ, zero, suc, ◌+◌, ◌^◌, ◌≤◌, ◌<◌, ◌≡◌, refl, sym, ap, ◌∙◌, none, List, [], ◌∷◌, ◌++◌, arith, inr,
  Bytes, All, All-imp, length, length-append, take-append_exact, drop-append_exact, pos,
}
use ai_scan_interceptor.Strings.{index_byte, cut_at}
use ai_scan_interceptor.Strings.Plain.{IsPlain, trim_space-plain}
use ai_scan_interceptor.Strings.Numbers.{IsDigit, parsed, text, text-All, parse_int, parse_int-text}
use ai_scan_interceptor.Strings.Lines.{
  crlf, read_line-append, skip_line-crlf, trim_space-crlf, plain-IsTrimmed, plain-HasNoNewline,
}
use ai_scan_interceptor.Icap.Chunks.{
  max_body_size, max_chunk_size, done, chunk, read_data, sized_round, chunk_size, line_round, round,
  after_round, read_chunks, read_chunked, encode_chunk, last_chunk, encode_body,
}

digit-IsPlain : (c : ℕ) → IsDigit c → IsPlain c
digit-IsPlain c h = ground arith

pub size-IsPlain : (n : ℕ) → All IsPlain (text 16 n)
size-IsPlain n = All-imp IsDigit IsPlain digit-IsPlain (text 16 n) (text-All 16 n (inr refl))

pub no_semicolon : (s : Bytes) → All IsDigit s → index_byte s b';' ≡ none
unfolding index_byte
no_semicolon [] h = refl
no_semicolon (c ∷ s) h = ground (arith, no_semicolon s h.1)

-- what is read from the line of a size without extensions
pub chunk_size-line :
    (s : Bytes) → All IsPlain s → index_byte s b';' ≡ none → chunk_size (s ++ crlf) ≡ parse_int 16 s
unfolding chunk_size cut_at
chunk_size-line s h e = rw (trim_space-crlf s (plain-IsTrimmed s h), e, trim_space-plain s h) refl

size_line : (n : ℕ) → n < 2 ^ 63 → chunk_size (text 16 n ++ crlf) ≡ parsed (pos n)
size_line n h =
    chunk_size-line (text 16 n) (size-IsPlain n)
      (no_semicolon (text 16 n) (text-All 16 n (inr refl)))
    ∙ parse_int-text 16 n (inr refl) h

-- a chunk's bytes, from the left
chunk_bytes :
    (c rest : Bytes)
    → encode_chunk c ++ rest ≡ text 16 (length c) ++ (crlf ++ (c ++ (crlf ++ rest)))
unfolding encode_chunk
chunk_bytes c rest =
    let size = text 16 (length c) in
    append_assoc size (crlf ++ (c ++ crlf)) rest
    ∙ ap (λ z. size ++ (crlf ++ z)) (append_assoc c crlf rest)

data_back : (c rest : Bytes) → read_data (length c) (c ++ (crlf ++ rest)) ≡ chunk c rest
unfolding read_data
data_back c rest =
    rw (take-append_exact c (crlf ++ rest), drop-append_exact c (crlf ++ rest), skip_line-crlf rest)
      (ground (arith, length-append c (crlf ++ rest)))

-- a round on a chunk in the limits
round_chunk :
    (len : ℕ) (c rest : Bytes)
    → 0 < length c
    → length c ≤ max_chunk_size
    → len + length c ≤ max_body_size
    → round len (encode_chunk c ++ rest) ≡ chunk c rest
unfolding round line_round sized_round
round_chunk len c rest h k m =
    rw
      (
        chunk_bytes c rest,
        read_line-append (text 16 (length c)) (c ++ (crlf ++ rest))
            (plain-HasNoNewline (text 16 (length c)) (size-IsPlain (length c))),
        size_line (length c) (omega arith),
      )
      (ground (arith, data_back c rest))

unfoldable pub encode_chunks : List Bytes → Bytes
encode_chunks [] = last_chunk
encode_chunks (c ∷ cs) = encode_chunk c ++ encode_chunks cs

abbrev pub joined : List Bytes → Bytes
joined [] = []
joined (c ∷ cs) = c ++ joined cs

-- a chunk that the server takes
abbrev pub IsChunk : Bytes → Type 0
IsChunk c = (0 < length c) × (length c ≤ max_chunk_size)

-- fuel for the chunks is fuel for the loop
read_encoded :
    (f : ℕ) (buf : Bytes) (cs : List Bytes) (rest : Bytes)
    → length cs < f
    → All IsChunk cs
    → length buf + length (joined cs) ≤ max_body_size
    → read_chunks f buf (encode_chunks cs ++ rest) ≡ done (buf ++ joined cs) rest
unfolding read_chunks encode_chunks after_round
read_encoded zero buf cs rest k h m = absurd (omega arith)
read_encoded (suc f) buf [] rest k h m = ap (λ b. done b rest) (sym (append-nil buf))
read_encoded (suc f) buf (c ∷ cs) rest k h m =
    rw
      (
        append_assoc (encode_chunk c) (encode_chunks cs) rest,
        round_chunk (length buf) c (encode_chunks cs ++ rest) h.0.0 h.0.1
            (omega (arith, m, length-append c (joined cs))),
      )
      (read_encoded f (buf ++ c) cs rest (omega arith) h.1
          (omega (arith, m, length-append c (joined cs), length-append buf c))
        ∙ ap (λ b. done b rest) (append_assoc buf c (joined cs)))

-- every chunk has a byte at least
chunks_le : (cs : List Bytes) → All IsChunk cs → length cs ≤ length (encode_chunks cs)
unfolding encode_chunks encode_chunk
chunks_le [] h = omega arith
chunks_le (c ∷ cs) h = omega (
  arith,
  chunks_le cs h.1,
  length-append (encode_chunk c) (encode_chunks cs),
  length-append (text 16 (length c)) (crlf ++ (c ++ crlf)),
)

-- Whatever the peer splits a body into, chunks of at most 16 MB of a body of at most 32 MB: the
-- server reads the body back, and leaves what follows it.
pub read_chunked-encode_chunks :
    (cs : List Bytes) (rest : Bytes)
    → All IsChunk cs
    → length (joined cs) ≤ max_body_size
    → read_chunked (encode_chunks cs ++ rest) ≡ done (joined cs) rest
unfolding read_chunked
read_chunked-encode_chunks cs rest h m =
    read_encoded (suc (length (encode_chunks cs ++ rest))) [] cs rest
      (omega (arith, chunks_le cs h, length-append (encode_chunks cs) rest)) h (omega (arith, m))

-- The body that the server writes is read back by a reader of chunked bodies, unless it is empty.
pub read_chunked-encode_body :
    (body rest : Bytes) → IsChunk body → read_chunked (encode_body body ++ rest) ≡ done body rest
unfolding encode_body encode_chunks
read_chunked-encode_body body rest h =
    read_chunked-encode_chunks (body ∷ []) rest (h, tt) (omega (arith, h, length-append body []))
    ∙ ap (λ b. done b rest) (append-nil body)
