-- ===== src/Icap/Server/Termination.antt =====
-- The loops over a connection end: each request that is read has at least a line.
use ai_scan_interceptor.Base.{
  ℕ, zero, suc, ◌≤◌, ◌<◌, ◌≡◌, ◌≢◌, refl, Bool, true, false, Option, none, some, List, [], ◌∷◌,
  arith, Bytes, length, ℤ, pos, negsuc, codes, same, if-case,
}
use ai_scan_interceptor.Strings.{split3, trim_space}
use ai_scan_interceptor.Strings.Lines.{read_line, read_line-lt}
use ai_scan_interceptor.Icap.Chunks.{Read, done, failed, panicked, out_of_fuel, read_chunked}
use ai_scan_interceptor.Icap.Chunks.Bounds.{ReadFits, read_chunked-ReadFits, length-drop-le}
use ai_scan_interceptor.Icap.Server.{
  Request, Header, and_then, unless_blank, start_round, read_start, unless_end, header_round,
  read_headers, add_header, read_head, read_body, read_sections, after_headers, after_start,
  read_request, parse_encapsulated, get_header, icap_version,
}
use ai_scan_interceptor.Icap.Server.Serving.{
  Session, starved, respond, and_rest, after_read, serve_requests, serve,
}

-- fewer than `n` bytes are left, and the fuel was enough
abbrev pub Below {ℓ} : {A : Type ℓ} → ℕ → Read A → Type 0
Below n (done a rest) = length rest < n
Below n (failed e) = Unit
Below n panicked = Unit
Below n out_of_fuel = ⊥

and_then-Below :
    {A B : Type 0} (n : ℕ) (r : Read A) (next : A → Bytes → Read B)
    → Below n r
    → ((a : A) (s : Bytes) → length s < n → Below n (next a s))
    → Below n (and_then r next)
unfolding and_then
and_then-Below n (done a s) next h k = k a s h
and_then-Below n (failed e) next h k = tt
and_then-Below n panicked next h k = tt
and_then-Below n out_of_fuel next h k = h

unless_blank-Below :
    (n : ℕ) (next : Bytes → Read Bytes) (b : Bool) (line rest : Bytes)
    → length rest < n
    → Below n (next rest)
    → Below n (unless_blank next b line rest)
unfolding unless_blank
unless_blank-Below n next true line rest h k = k
unless_blank-Below n next false line rest h k = h

-- a round reads from at most `n` bytes
start_round-Below :
    (m n : ℕ) (next : Bytes → Read Bytes) (o : Option (Bytes × Bytes))
    → m ≤ n
    → ((line rest : Bytes) → o ≡ some (line, rest) → length rest < m)
    → ((rest : Bytes) → length rest < m → Below n (next rest))
    → Below n (start_round next o)
unfolding start_round
start_round-Below m n next none l h k = tt
start_round-Below m n next (some (line, rest)) l h k =
    unless_blank-Below n next (same (trim_space line) []) (trim_space line) rest
      (omega (arith, h line rest refl)) (k rest (h line rest refl))

read_start-Below : (f n : ℕ) (s : Bytes) → length s < f → length s ≤ n → Below n (read_start f s)
unfolding read_start
read_start-Below zero n s h k = absurd (omega arith)
read_start-Below (suc f) n s h k =
    start_round-Below (length s) n (λ t. read_start f t) (read_line s) k (read_line-lt s)
      λ rest l. read_start-Below f n rest (omega arith) (omega arith)

read_head-Below :
    (max_alloc n : ℕ) (z : ℤ) (s : Bytes) → length s < n → Below n (read_head max_alloc z s)
unfolding read_head
read_head-Below max_alloc n (pos m) s h = ground (arith, length-drop-le m s)
read_head-Below max_alloc n (negsuc m) s h = h

fits-Below : (m n : ℕ) (r : Read Bytes) → m < n → ReadFits m r → Below n r
fits-Below m n (done body rest) h k = omega (arith, k)
fits-Below m n (failed e) h k = tt
fits-Below m n panicked h k = tt
fits-Below m n out_of_fuel h k = k

read_body-Below : (n : ℕ) (b : Bool) (s : Bytes) → length s < n → Below n (read_body b s)
unfolding read_body
read_body-Below n true s h = fits-Below (length s) n (read_chunked s) h (read_chunked-ReadFits s)
read_body-Below n false s h = h

module _ (lower_runes : Bytes → Bytes) where
  unless_end-Below :
      (n : ℕ) (next : List Header → Bytes → Read (List Header)) (b : Bool) (line rest : Bytes)
      (hs : List Header)
      → length rest < n
      → ((h : List Header) → Below n (next h rest))
      → Below n (unless_end lower_runes next b line rest hs)
  unfolding unless_end
  unless_end-Below n next true line rest hs h k = h
  unless_end-Below n next false line rest hs h k = k (add_header lower_runes line hs)

  header_round-Below :
      (m n : ℕ) (next : List Header → Bytes → Read (List Header)) (o : Option (Bytes × Bytes))
      (hs : List Header)
      → m ≤ n
      → ((line rest : Bytes) → o ≡ some (line, rest) → length rest < m)
      → ((h : List Header) (rest : Bytes) → length rest < m → Below n (next h rest))
      → Below n (header_round lower_runes next o hs)
  unfolding header_round
  header_round-Below m n next none hs l h k = tt
  header_round-Below m n next (some (line, rest)) hs l h k =
      unless_end-Below n next (same (trim_space line) []) (trim_space line) rest hs
        (omega (arith, h line rest refl)) λ x. k x rest (h line rest refl)

  read_headers-Below :
      (f n : ℕ) (hs : List Header) (s : Bytes)
      → length s < f
      → length s ≤ n
      → Below n (read_headers lower_runes f hs s)
  unfolding read_headers
  read_headers-Below zero n hs s h k = absurd (omega arith)
  read_headers-Below (suc f) n hs s h k =
      header_round-Below (length s) n (λ x t. read_headers lower_runes f x t) (read_line s) hs k
        (read_line-lt s) λ x rest l. read_headers-Below f n x rest (omega arith) (omega arith)

  module _ (max_alloc : ℕ) {Q R : Type 0} (parse_http_request : Bytes → Option Q)
      (parse_http_response : Bytes → Option R) where
    sections-Below :
        (n : ℕ) (m u : Bytes) (hs : List Header) (e : ℤ × Bool) (s : Bytes)
        → length s < n
        → Below n
            (read_sections lower_runes max_alloc parse_http_request parse_http_response m u hs e s)
    unfolding read_sections
    sections-Below n m u hs (z, b) s h =
        and_then-Below n (read_head max_alloc z s) _ (read_head-Below max_alloc n z s h)
          λ head s₁ h₁.
            and_then-Below n (read_body b s₁) _ (read_body-Below n b s₁ h₁) λ body s₂ h₂. h₂

    headers-Below :
        (n : ℕ) (m u : Bytes) (hs : List Header) (s : Bytes)
        → length s < n
        → Below n
            (after_headers lower_runes max_alloc parse_http_request parse_http_response m u hs s)
    unfolding after_headers
    headers-Below n m u hs s h =
        if-case (Below n) (same m (codes "OPTIONS")) _ _ (λ e. h)
          λ e.
            sections-Below n m u hs (parse_encapsulated (get_header (codes "encapsulated") hs)) s h

    start-Below :
        (n : ℕ) (parts : List Bytes) (s : Bytes)
        → length s < n
        → Below n (after_start lower_runes max_alloc parse_http_request parse_http_response parts s)
    unfolding after_start
    start-Below n [] s h = tt
    start-Below n (m ∷ []) s h = tt
    start-Below n (m ∷ u ∷ []) s h = tt
    start-Below n (m ∷ u ∷ v ∷ []) s h =
        if-case (Below n) (same v icap_version) _ _
          (λ e.
            and_then-Below n (read_headers lower_runes (suc (length s)) [] s) _
              (read_headers-Below (suc (length s)) n [] s (omega arith) (omega arith))
              λ hs t. headers-Below n m u hs t)
          (λ e. tt)
    start-Below n (m ∷ u ∷ v ∷ w ∷ ps) s h = tt

    -- Reading a request ends, whatever the peer sends, and a request that is read leaves fewer bytes
    -- than there were.
    pub read_request-Below :
        (s : Bytes)
        → Below
            (length s)
            (read_request lower_runes max_alloc parse_http_request parse_http_response s)
    unfolding read_request
    read_request-Below s =
        and_then-Below (length s) (read_start (suc (length s)) s) _
          (read_start-Below (suc (length s)) (length s) s (omega arith) (omega arith))
          λ line t h. start-Below (length s) (split3 line b' ') t h

and_rest-ne :
    (o : Option Bytes) (rest : Session) → rest.ending ≢ starved → (and_rest o rest).ending ≢ starved
and_rest-ne none rest h e = cc
and_rest-ne (some response) rest h e = h e

module _ {Q R : Type 0} (handler : Request Q R → Option Bytes)
    (respmod_handler : Option (Request Q R → Bytes)) (read : Bytes → Read (Request Q R)) where
  after_read-ne :
      (n : ℕ) (next : Bytes → Session) (r : Read (Request Q R))
      → Below n r
      → ((t : Bytes) → length t < n → (next t).ending ≢ starved)
      → (after_read handler respmod_handler read next r).ending ≢ starved
  unfolding after_read
  after_read-ne n next (done req rest) h k x =
      and_rest-ne (respond handler respmod_handler req) (next rest) (k rest h) x
  after_read-ne n next (failed e) h k x = cc
  after_read-ne n next panicked h k x = cc
  after_read-ne n next out_of_fuel h k x = absurd h

  serve_requests-ne :
      ((s : Bytes) → Below (length s) (read s))
      → (f : ℕ) (s : Bytes) → length s < f
      → (serve_requests handler respmod_handler read f s).ending ≢ starved
  unfolding serve_requests
  serve_requests-ne below zero s h = absurd (omega arith)
  serve_requests-ne below (suc f) s h =
      after_read-ne (length s) (λ t. serve_requests handler respmod_handler read f t) (read s)
        (below s) λ t l. serve_requests-ne below f t (omega arith)

-- Whatever the peer sends and the handlers do, serving a connection ends: with an error of the
-- reader, or with a panic.
pub serve_ends :
    {Q R : Type 0} (lower_runes : Bytes → Bytes) (max_alloc : ℕ)
    (parse_http_request : Bytes → Option Q) (parse_http_response : Bytes → Option R)
    (handler : Request Q R → Option Bytes) (respmod_handler : Option (Request Q R → Bytes))
    (s : Bytes)
    → (serve handler respmod_handler
        (read_request lower_runes max_alloc parse_http_request parse_http_response)
        s).ending
      ≢ starved
unfolding serve
serve_ends lower_runes max_alloc parse_http_request parse_http_response handler respmod_handler s =
    serve_requests-ne handler respmod_handler
      (read_request lower_runes max_alloc parse_http_request parse_http_response)
      (read_request-Below lower_runes max_alloc parse_http_request parse_http_response)
      (suc (length s)) s (omega arith)
