-- ===== src/Icap/Chunks.antt =====
-- Chunked bodies on an ICAP connection: `readChunked` of icap-server/icap/server.go, and the one
-- chunk with its end that `WriteBlock` and `WriteMasked` write. A connection's reader is the bytes
-- that are still to come, up to its end.
pub mod Bounds
pub mod RoundTrip
pub mod Negative
use ai_scan_interceptor.Base.{
  ℕ, zero, suc, ◌+◌, ◌-◌, ◌*◌, ◌^◌, Bool, true, false, ◌||◌, Option, none, some, List, [], ◌∷◌,
  ◌++◌, arith, ltb, ◌==◌, Bytes, codes, same, if◌then◌else◌, length, take, drop, ℤ, pos, negsuc,
}
use ai_scan_interceptor.Strings.{trim_space, index_byte, cut_at}
use ai_scan_interceptor.Strings.Numbers.{ParsedInt, not_a_number, clamped, parsed, parse_int, text}
use ai_scan_interceptor.Strings.Lines.{read_line, skip_line, crlf}

-- `maxChunkSize` and `maxBodySize`
abbrev pub max_chunk_size : ℕ
max_chunk_size = 16 * 2 ^ 20

abbrev pub max_body_size : ℕ
max_body_size = 32 * 2 ^ 20

-- the errors of the readers, in the order of the source
pub data ReadError : Type 0 where
  end_of_stream bad_start_line short_header no_chunk_size bad_chunk_size : ReadError
  chunk_too_large body_too_large short_chunk : ReadError

-- What a reader does: a value with the bytes left, an error, or a panic, which ends the process.
-- `out_of_fuel` is no outcome of the program.
pub data Read {ℓ} (A : Type ℓ) : Type ℓ where
  done : A → Bytes → Read A
  failed : ReadError → Read A
  panicked out_of_fuel : Read A

-- one round of the loop: the last chunk, a chunk with its data, or the end of the loop otherwise
pub data Round : Type 0 where
  last : Bytes → Round
  chunk : Bytes → Bytes → Round
  stopped : ReadError → Round
  crashed : Round

-- the size in a chunk's first line, without its extensions
unfoldable pub chunk_size : Bytes → ParsedInt
unfolding index_byte cut_at trim_space parse_int
chunk_size line =
    let size_line = trim_space line in
    parse_int 16 (trim_space (cut_at size_line (index_byte size_line b';')))

-- `io.ReadFull` and the end of the chunk's last line
unfoldable pub read_data : ℕ → Bytes → Round
unfolding skip_line
read_data size s =
    if ltb (length s) size
    then stopped short_chunk
    else chunk (take size s) (skip_line (drop size s))

-- the tests of the size; making a slice of negative length is a panic
unfoldable pub sized_round : ℕ → Bytes → ParsedInt → Round
unfolding read_data skip_line
sized_round len s not_a_number = stopped bad_chunk_size
sized_round len s (clamped z) = stopped bad_chunk_size
sized_round len s (parsed (negsuc n)) = crashed
sized_round len s (parsed (pos size)) =
    if size == 0
    then last (skip_line s)
    else if ltb max_chunk_size size
    then stopped chunk_too_large
    else if ltb max_body_size (len + size)
    then stopped body_too_large
    else read_data size s

unfoldable pub line_round : ℕ → Option (Bytes × Bytes) → Round
unfolding sized_round chunk_size
line_round len none = stopped no_chunk_size
line_round len (some (line, s)) = sized_round len s (chunk_size line)

-- `len` bytes are read already
unfoldable pub round : ℕ → Bytes → Round
unfolding line_round read_line
round len s = line_round len (read_line s)

-- what follows a round; `next` is the loop from the next one
unfoldable pub after_round : (Bytes → Bytes → Read Bytes) → Bytes → Round → Read Bytes
after_round next buf (last rest) = done buf rest
after_round next buf (chunk bytes rest) = next (buf ++ bytes) rest
after_round next buf (stopped e) = failed e
after_round next buf crashed = panicked

-- the loop, with what it has read in `buf`
unfoldable pub read_chunks : ℕ → Bytes → Bytes → Read Bytes
unfolding round after_round
read_chunks zero buf s = out_of_fuel
read_chunks (suc f) buf s = after_round (λ b t. read_chunks f b t) buf (round (length buf) s)

-- `readChunked`; each round reads a line, so the fuel is enough
unfoldable pub read_chunked : Bytes → Read Bytes
unfolding read_chunks
read_chunked s = read_chunks (suc (length s)) [] s

-- one chunk, and the end of a body
unfoldable pub encode_chunk : Bytes → Bytes
unfolding text
encode_chunk bytes = text 16 (length bytes) ++ (crlf ++ (bytes ++ crlf))

abbrev pub last_chunk : Bytes
last_chunk = codes "0" ++ (crlf ++ crlf)

-- what `WriteBlock` and `WriteMasked` write after the headers
unfoldable pub encode_body : Bytes → Bytes
unfolding encode_chunk
encode_body body = encode_chunk body ++ last_chunk
