-- ===== src/Icap/Server/Fields.antt =====
-- The start line and the headers that a client writes are read back.
use mathlib.Core.List.{append_assoc}
use ai_scan_interceptor.Base.{
  ℕ, zero, suc, ◌≤◌, ◌<◌, ◌≡◌, ◌≢◌, refl, ap, sym, ◌∙◌, false, some, List, [], ◌∷◌, ◌++◌, reverse,
  arith, Bytes, codes, same, All, All-imp, All-append, pos, length, length-append,
  take-append_exact, drop-append_exact,
}
use ai_scan_interceptor.Strings.{trim_space, split2, split3, to_lower}
use ai_scan_interceptor.Strings.Plain.{IsPlain, trim_space-plain}
use ai_scan_interceptor.Strings.Places.{index_byte-append, drop-append_suc}
use ai_scan_interceptor.Strings.Lines.{
  crlf, HasNoNewline, PlainHead, read_line, read_line-append, trim_space-crlf, trim_space-blank,
  joined-IsTrimmed, plain-HasNoNewline, IsTrimmed, field-IsTrimmed,
}
use ai_scan_interceptor.Icap.Chunks.{done}
use ai_scan_interceptor.Icap.Server.{
  icap_version, Header, unless_blank, start_round, read_start, header_at, add_header, unless_end,
  header_round, read_headers, read_head,
}

-- a header as a client writes it
abbrev pub IsHeader : Header → Type 0
IsHeader h =
    (All (λ c. IsPlain c × (c ≢ b':')) h.name × PlainHead h.name)
    × (HasNoNewline h.value × PlainHead h.value × PlainHead (reverse h.value))

header_line : Header → Bytes
header_line h = h.name ++ (codes ": " ++ h.value)

unfoldable pub header_lines : List Header → Bytes
unfolding header_line
header_lines [] = []
header_lines (h ∷ hs) = header_line h ++ (crlf ++ header_lines hs)

head-ne : (s t : Bytes) → PlainHead s → same (s ++ t) [] ≡ false
unfolding same
head-ne [] t h = absurd h
head-ne (c ∷ s) t h = refl

module _ (lower_runes : Bytes → Bytes) where
  -- what is kept of a header
  abbrev pub stored_header : Header → Header
  stored_header h = record { name = to_lower lower_runes h.name; value = h.value }

  abbrev pub stored : List Header → List Header → List Header
  stored [] acc = acc
  stored (h ∷ hs) acc = stored hs (stored_header h ∷ acc)

  header_at-line :
      (name value : Bytes) (acc : List Header)
      → IsHeader (record { name = name; value = value })
      → header_at lower_runes (name ++ (codes ": " ++ value)) (some (length name)) acc
        ≡ stored_header (record { name = name; value = value }) ∷ acc
  unfolding header_at
  header_at-line [] value acc h = absurd h.0.1
  header_at-line (c ∷ name) value acc h =
      rw
        (
          take-append_exact (c ∷ name) (codes ": " ++ value),
          drop-append_suc b':' (c ∷ name) (32 ∷ value),
          trim_space-blank value (field-IsTrimmed value h.1.1 h.1.2),
          trim_space-plain (c ∷ name) (All-imp _ IsPlain (λ x p. p.0) (c ∷ name) h.0.0),
        )
        refl

  add_header-line :
      (h : Header) (acc : List Header)
      → IsHeader h
      → add_header lower_runes (header_line h) acc ≡ stored_header h ∷ acc
  unfolding add_header header_line
  add_header-line h acc k =
      rw
        (index_byte-append b':' h.name (32 ∷ h.value)
          (All-imp _ (λ c. c ≢ b':') (λ x p. p.1) h.name k.0.0))
        (header_at-line h.name h.value acc k)

  line-ne : (h : Header) → IsHeader h → same (header_line h) [] ≡ false
  unfolding header_line
  line-ne h k = head-ne h.name (codes ": " ++ h.value) k.0.1

  line_no_newline : (h : Header) → IsHeader h → HasNoNewline (header_line h)
  unfolding header_line
  line_no_newline h k =
      All-append (λ c. c ≢ 10) h.name (codes ": " ++ h.value)
        (plain-HasNoNewline h.name (All-imp _ IsPlain (λ x p. p.0) h.name k.0.0))
        (omega arith, (omega arith, k.1.0))

  line-IsTrimmed : (h : Header) → IsHeader h → IsTrimmed (header_line h)
  unfolding header_line
  line-IsTrimmed h k = joined-IsTrimmed h.name (codes ": ") h.value k.0.1 k.1.2

  -- the headers, up to the blank line
  pub read_headers-lines :
      (f : ℕ) (hs acc : List Header) (rest : Bytes)
      → length hs < f
      → All IsHeader hs
      → read_headers lower_runes f acc (header_lines hs ++ (crlf ++ rest))
        ≡ done (stored hs acc) rest
  unfolding read_headers header_lines header_round unless_end read_line trim_space same
  read_headers-lines zero hs acc rest k h = absurd (omega arith)
  read_headers-lines (suc f) [] acc rest k h = refl
  read_headers-lines (suc f) (x ∷ hs) acc rest k h =
      rw
        (
          append_assoc (header_line x) (crlf ++ header_lines hs) (crlf ++ rest),
          read_line-append (header_line x) (header_lines hs ++ (crlf ++ rest))
              (line_no_newline x h.0),
          trim_space-crlf (header_line x) (line-IsTrimmed x h.0),
          line-ne x h.0,
          add_header-line x acc h.0,
        )
        (read_headers-lines f hs (stored_header x ∷ acc) rest (omega arith) h.1)

  -- every header is at least a byte
  pub lines_le : (hs : List Header) → length hs ≤ length (header_lines hs)
  unfolding header_lines
  lines_le [] = omega arith
  lines_le (h ∷ hs) =
      omega (arith, lines_le hs, length-append (header_line h) (crlf ++ header_lines hs))

-- the start line
unfoldable pub start_line : Bytes → Bytes → Bytes
start_line m u = m ++ (32 ∷ (u ++ (32 ∷ icap_version)))

-- a method or an address
abbrev pub IsWord : Bytes → Type 0
IsWord s = PlainHead s × All IsPlain s

word_no_blank : (s : Bytes) → All IsPlain s → All (λ c. c ≢ 32) s
word_no_blank s = All-imp IsPlain (λ c. c ≢ 32) (λ c h. omega arith) s

split3-append : (b : ℕ) (s t : Bytes) → All (λ c. c ≢ b) s → split3 (s ++ b ∷ t) b ≡ s ∷ split2 t b
unfolding split3
split3-append b s t h =
    rw (index_byte-append b s t h, take-append_exact s (b ∷ t), drop-append_suc b s t) refl

split2-append : (b : ℕ) (s t : Bytes) → All (λ c. c ≢ b) s → split2 (s ++ b ∷ t) b ≡ s ∷ t ∷ []
unfolding split2
split2-append b s t h =
    rw (index_byte-append b s t h, take-append_exact s (b ∷ t), drop-append_suc b s t) refl

pub split3-start_line :
    (m u : Bytes)
    → IsWord m
    → All IsPlain u
    → split3 (start_line m u) 32 ≡ m ∷ u ∷ icap_version ∷ []
unfolding start_line
split3-start_line m u h k =
    split3-append 32 m (u ++ (32 ∷ icap_version)) (word_no_blank m h.1)
    ∙ ap (◌∷◌ m) (split2-append 32 u icap_version (word_no_blank u k))

start-ne : (m u : Bytes) → IsWord m → same (start_line m u) [] ≡ false
unfolding start_line
start-ne m u h = head-ne m (32 ∷ (u ++ (32 ∷ icap_version))) h.0

assoc_blank : (u v : Bytes) → u ++ (32 ∷ v) ≡ (u ++ 32 ∷ []) ++ v
assoc_blank u v = sym (append_assoc u (32 ∷ []) v)

start-IsTrimmed : (m u : Bytes) → IsWord m → IsTrimmed (start_line m u)
unfolding start_line
start-IsTrimmed m u h =
    rw (assoc_blank u icap_version)
      (joined-IsTrimmed m (32 ∷ (u ++ 32 ∷ [])) icap_version h.0 (omega arith, omega arith))

start_no_newline : (m u : Bytes) → IsWord m → All IsPlain u → HasNoNewline (start_line m u)
unfolding start_line
start_no_newline m u h k =
    All-append (λ c. c ≢ 10) m (32 ∷ (u ++ (32 ∷ icap_version))) (plain-HasNoNewline m h.1)
      (
        omega arith,
        All-append (λ c. c ≢ 10) u (32 ∷ icap_version) (plain-HasNoNewline u k) (ground arith),
      )

pub read_start-line :
    (f : ℕ) (m u rest : Bytes)
    → IsWord m
    → All IsPlain u
    → read_start (suc f) (start_line m u ++ (crlf ++ rest)) ≡ done (start_line m u) rest
unfolding read_start start_round unless_blank
read_start-line f m u rest h k =
    rw
      (
        read_line-append (start_line m u) rest (start_no_newline m u h k),
        trim_space-crlf (start_line m u) (start-IsTrimmed m u h),
        start-ne m u h,
      )
      refl

pub read_head-exact :
    (max_alloc : ℕ) (head rest : Bytes)
    → length head ≤ max_alloc
    → read_head max_alloc (pos (length head)) (head ++ rest) ≡ done head rest
unfolding read_head
read_head-exact max_alloc [] rest h = refl
read_head-exact max_alloc (c ∷ head) rest h =
    rw (take-append_exact (c ∷ head) rest, drop-append_exact (c ∷ head) rest)
      (ground (arith, length-append (c ∷ head) rest))
