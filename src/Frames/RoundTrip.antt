-- ===== src/Frames/RoundTrip.antt =====
-- engine/src/main.cc: what the parser makes of whole frames, of parts of frames, and of a length that
-- overflows the 32 bits of the sum.
use mathlib.Core.List.{append_assoc}
use poker_epoll.Base.{
  ℕ, suc, ◌+◌, ◌-◌, ◌%◌, ◌≤◌, ◌<◌, ◌≡◌, refl, ap, List, [], ◌∷◌, ◌++◌, none, some, length,
  length-append, take, drop, done, fault, arith,
}
use poker_epoll.Frames.{
  Input, u32_size, ntohl, htonl, frame_end, read_header, read_body, try_parse_frame, frame,
}

abbrev pub idle : List ℕ → Input
idle bytes = record { buffer = bytes; in_off = 0; in_size = 0 }

pub ntohl-htonl : (n : ℕ) (rest : List ℕ) → n < u32_size → ntohl (htonl n ++ rest) ≡ n
unfolding ntohl htonl
ntohl-htonl n rest h = omega arith

pub length-htonl : (n : ℕ) (rest : List ℕ) → length (htonl n ++ rest) ≡ 4 + length rest
unfolding htonl
length-htonl n rest = omega arith

pub take-append : (xs ys : List ℕ) → take (length xs) (xs ++ ys) ≡ xs
take-append [] ys = refl
take-append (x ∷ xs) ys = ap (◌∷◌ x) (take-append xs ys)

pub drop-append : (xs ys : List ℕ) → drop (length xs) (xs ++ ys) ≡ ys
drop-append [] ys = refl
drop-append (x ∷ xs) ys = drop-append xs ys

drop_header : (n d k : ℕ) (xs : List ℕ) → k ≡ 4 + d → drop k (htonl n ++ xs) ≡ drop d xs
unfolding htonl
drop_header n d k xs e = let e' : k ≡ suc (suc (suc (suc d))) = omega arith in rw e' refl

-- The header of a frame, read.
header_lem :
    (n : ℕ) (bytes : List ℕ)
    → n < u32_size
    → read_header (idle (htonl n ++ bytes))
      ≡ some (record { buffer = htonl n ++ bytes; in_off = 4; in_size = n })
unfolding read_header
header_lem n bytes h = ground (arith, ntohl-htonl n bytes h, length-htonl n bytes)

-- The body of a frame that is there, read.
body_lem :
    (msg rest : List ℕ)
    → length msg + 4 < u32_size
    → read_body
        (record { buffer = htonl (length msg) ++ (msg ++ rest); in_off = 4; in_size = length msg })
      ≡ done (some msg, idle rest)
unfolding read_body frame_end
body_lem msg rest h =
    let n : ℕ = length msg in
    let e_end : (4 + n) % u32_size ≡ 4 + n = omega arith in
    let e_length : length (htonl n ++ (msg ++ rest)) ≡ 4 + (n + length rest) =
      omega (arith, length-htonl n (msg ++ rest), length-append msg rest) in
    ground (
      arith,
      e_end,
      e_length,
      ap {A = ℕ} (λ i. drop i (htonl n ++ (msg ++ rest))) e_end,
      drop_header n n (4 + n) (msg ++ rest) refl,
      drop_header n 0 4 (msg ++ rest) refl,
      drop-append msg rest,
      take-append msg rest,
    )

-- A whole frame, with whatever follows it, gives the message, and the parser is ready for the next,
-- where the length and the four bytes of the header fit in 32 bits.
pub try_parse_frame-frame :
    (msg rest : List ℕ)
    → length msg + 4 < u32_size
    → try_parse_frame (idle (frame msg ++ rest)) ≡ done (some msg, idle rest)
unfolding try_parse_frame frame
try_parse_frame-frame msg rest h =
    let e : length msg % u32_size ≡ length msg = omega arith in
    rw
      (
        e,
        append_assoc (htonl (length msg)) msg rest,
        try_parse_frame,
        header_lem (length msg) (msg ++ rest) (omega arith),
      )
      (body_lem msg rest h)

-- A prefix of a frame, with its header, is never taken for a message: no message comes, and no byte
-- is lost, where the length and the four bytes of the header fit in 32 bits.
pub try_parse_frame-part :
    (n : ℕ) (bytes : List ℕ)
    → length bytes < n
    → n + 4 < u32_size
    → try_parse_frame (idle (htonl n ++ bytes))
      ≡ done (none, record { buffer = htonl n ++ bytes; in_off = 4; in_size = n })
unfolding try_parse_frame read_body frame_end
try_parse_frame-part n bytes short small =
    let e_end : (4 + n) % u32_size ≡ 4 + n = omega arith in
    rw (try_parse_frame, header_lem n bytes (omega arith))
      (ground (arith, e_end, length-htonl n bytes))

-- The bug: a length of at least 2^32 - 4 makes the sum of offset and size overflow, the test passes,
-- and the parser reads past the end of the buffer, whatever the bytes are that follow the header,
-- as long as they are fewer than the length.
pub try_parse_frame_overflow :
    (n : ℕ) (bytes : List ℕ)
    → u32_size ≤ n + 4
    → n < u32_size
    → length bytes < n
    → try_parse_frame (idle (htonl n ++ bytes)) ≡ fault
unfolding try_parse_frame read_body frame_end
try_parse_frame_overflow n bytes over small short =
    let e_end : (4 + n) % u32_size ≡ 4 + n - u32_size = omega arith in
    rw (try_parse_frame, header_lem n bytes small) (ground (arith, e_end, length-htonl n bytes))
