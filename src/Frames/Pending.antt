-- ===== src/Frames/Pending.antt =====
-- engine/src/main.cc: the state of the parser between two reads, and what comes next from it.
use poker_epoll.Base.{
  ℕ, zero, suc, ◌+◌, ◌-◌, ◌%◌, ◌≤◌, ◌<◌, ◌≡◌, ◌⊎◌, inl, inr, refl, ap, sym, ◌∙◌, List, [], ◌∷◌,
  ◌++◌, none, some, Bool-cases, length, length-append, take, drop, ltb, leb, done, arith,
}
use poker_epoll.Frames.{Input, u32_size, ntohl, frame_end, read_header, read_body, try_parse_frame}
use poker_epoll.Frames.RoundTrip.{idle}

-- The header has not been read, or it is the one in front of the buffer.
abbrev pub IsPending : Input → Type 0
IsPending c =
    ((c.in_size ≡ 0) × (c.in_off ≡ 0))
    ⊎ ((c.in_off ≡ 4) × (c.in_size ≡ ntohl c.buffer) × (4 ≤ length c.buffer))

-- The header in front announces a length that overflows the 32 bits of the sum.
abbrev pub Overflows : Input → Type 0
Overflows c = (4 ≤ length c.buffer) × (u32_size ≤ ntohl c.buffer + 4)

-- The input with its header read.
abbrev pub opened : List ℕ → Input
opened bytes = record { buffer = bytes; in_off = 4; in_size = ntohl bytes }

header_short : (c : Input) → IsPending c → length c.buffer < 4 → read_header c ≡ none
unfolding read_header
header_short c p short = ground (arith, p)

header_there :
    (c : Input) → IsPending c → 4 ≤ length c.buffer → read_header c ≡ some (opened c.buffer)
unfolding read_header
header_there c p there = ground (arith, p)

-- From such a state, the parser waits for more and keeps every byte, or takes a message and four bytes
-- or more with it; or the header in front overflows.
pub data Next (c : Input) : Type 0 where
  waits :
      (c' : Input)
      → try_parse_frame c ≡ done (none, c')
      → IsPending c'
      → c'.buffer ≡ c.buffer
      → Next c
  takes :
      (msg rest : List ℕ)
      → try_parse_frame c ≡ done (some msg, idle rest)
      → 4 ≤ length c.buffer
      → 4 + ntohl c.buffer ≤ length c.buffer
      → length rest < length c.buffer
      → Next c
  overflows : Overflows c → Next c

length-drop : (n : ℕ) (xs : List ℕ) → length (drop n xs) ≡ length xs - n
length-drop zero xs = omega arith
length-drop (suc n) [] = omega arith
length-drop (suc n) (x ∷ xs) = omega (arith, length-drop n xs)

body_waits :
    (bytes : List ℕ)
    → length bytes < 4 + ntohl bytes
    → ntohl bytes + 4 < u32_size
    → read_body (opened bytes) ≡ done (none, opened bytes)
unfolding read_body frame_end
body_waits bytes short small =
    let whole : (4 + ntohl bytes) % u32_size ≡ 4 + ntohl bytes = omega arith in
    ground (arith, whole)

body_there :
    (bytes : List ℕ)
    → 4 + ntohl bytes ≤ length bytes
    → ntohl bytes + 4 < u32_size
    → read_body (opened bytes)
      ≡ done (some (take (ntohl bytes) (drop 4 bytes)), idle (drop (4 + ntohl bytes) bytes))
unfolding read_body frame_end
body_there bytes long small =
    let whole : (4 + ntohl bytes) % u32_size ≡ 4 + ntohl bytes = omega arith in
    ground (arith, whole, ap {A = ℕ} (λ i. drop i bytes) whole)

-- It does not matter whether the header has been read.
pub pending-idle : (c : Input) → IsPending c → try_parse_frame c ≡ try_parse_frame (idle c.buffer)
unfolding try_parse_frame
pending-idle c (inl (no_size, no_off)) =
    ap (λ (n : ℕ). try_parse_frame (record c { in_size = n })) no_size
    ∙ ap (λ (n : ℕ). try_parse_frame (record { buffer = c.buffer; in_off = n; in_size = 0 })) no_off
pending-idle c (inr (off, size, long)) =
    let here = header_there c (inr (off, size, long)) long in
    let there = header_there (idle c.buffer) (inl (refl, refl)) long in
    rw (try_parse_frame, here, there) refl

pub next_lem : (c : Input) → IsPending c → Next c
unfolding try_parse_frame
next_lem c p = elim (Bool-cases (ltb (length c.buffer) 4)) [
  | inl short ↦ waits c (rw (try_parse_frame, header_short c p (ground arith)) refl) p refl
  | inr there ↦
      let long : 4 ≤ length c.buffer = ground arith in
      elim (Bool-cases (leb u32_size (ntohl c.buffer + 4))) [
        | inl over ↦ overflows (long, ground arith)
        | inr small ↦ elim (Bool-cases (ltb (length c.buffer) (4 + ntohl c.buffer))) [
          | inl wait ↦
              waits (opened c.buffer)
                (rw (try_parse_frame, header_there c p long)
                  (body_waits c.buffer (ground arith) (ground arith)))
                (inr (refl, refl, long)) refl
          | inr whole ↦
              takes (take (ntohl c.buffer) (drop 4 c.buffer)) (drop (4 + ntohl c.buffer) c.buffer)
                (rw (try_parse_frame, header_there c p long)
                  (body_there c.buffer (ground arith) (ground arith)))
                long (ground arith) (omega (arith, length-drop (4 + ntohl c.buffer) c.buffer, long))
        ]
      ]
]

pub ntohl-append : (b more : List ℕ) → 4 ≤ length b → ntohl (b ++ more) ≡ ntohl b
unfolding ntohl
ntohl-append [] more h = absurd (omega (arith, h))
ntohl-append (x ∷ []) more h = absurd (omega (arith, h))
ntohl-append (x ∷ y ∷ []) more h = absurd (omega (arith, h))
ntohl-append (x ∷ y ∷ z ∷ []) more h = absurd (omega (arith, h))
ntohl-append (x ∷ y ∷ z ∷ w ∷ b) more h = refl

-- More bytes do not change what the parser has read.
pub grown-IsPending :
    (c : Input) (chunk : List ℕ) → IsPending c → IsPending (record c { buffer = c.buffer ++ chunk })
grown-IsPending c chunk (inl fresh) = inl fresh
grown-IsPending c chunk (inr (off, size, long)) = inr (
  off,
  size ∙ sym (ntohl-append c.buffer chunk long),
  omega (arith, length-append c.buffer chunk, long),
)
