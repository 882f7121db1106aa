-- ===== src/Frames.antt =====
-- engine/src/main.cc, `try_parse_frame`: the framing of the input of a connection. A message is sent
-- as its length in four bytes, the most significant first, and its bytes (`publish_msg` of
-- engine/src/server.cc writes the same). Bytes are numbers below 256; `in_off` and `in_size` are
-- `uint32_t`, and so is their sum.
pub mod RoundTrip
pub mod Pending
pub mod Streaming
use poker_epoll.Base.{
  ℕ, zero, suc, ◌>>=◌, ◌+◌, ◌*◌, ◌/◌, ◌%◌, ◌^◌, List, [], ◌∷◌, ◌++◌, Option, none, some, Bool, true,
  false, length, take, drop, get_or, Outcome, done, fault, ltb, ◌==◌, if◌then◌else◌,
}

abbrev pub u32_size : ℕ
u32_size = 2 ^ 32

-- The part of a `Conn` that the parser changes.
pub record Input : Type 0 where
  pub buffer : List ℕ
  pub in_off : ℕ
  pub in_size : ℕ

-- `ntohl` of the four bytes in front.
unfoldable pub ntohl : List ℕ → ℕ
ntohl bytes =
    get_or bytes 0 0 * 2 ^ 24
    + get_or bytes 1 0 * 2 ^ 16
    + get_or bytes 2 0 * 2 ^ 8
    + get_or bytes 3 0

-- `htonl` of a length, as the bytes that stand in memory.
unfoldable pub htonl : ℕ → List ℕ
htonl n = n / 2 ^ 24 % 256 ∷ n / 2 ^ 16 % 256 ∷ n / 2 ^ 8 % 256 ∷ n % 256 ∷ []

-- `in_off + in_size`, in 32 bits.
unfoldable pub frame_end : Input → ℕ
frame_end c = (c.in_off + c.in_size) % u32_size

-- Step 1: none where the four bytes of the header are not there yet.
unfoldable pub read_header : Input → Option Input
read_header c =
    if c.in_size == 0
    then (if ltb (length c.buffer) 4
        then none
        else some (record c { in_size = ntohl c.buffer; in_off = 4 }))
    else some c

-- Step 2: the message, if it is there. `out_msg.assign` reads past the end of the buffer where the
-- buffer is shorter than the offset and the size together, which is not defined.
unfoldable pub read_body : Input → Outcome (Option (List ℕ) × Input)
read_body c =
    if ltb (length c.buffer) (frame_end c)
    then done (none, c)
    else if ltb (length c.buffer) (c.in_off + c.in_size)
    then fault
    else done (
      some (take c.in_size (drop c.in_off c.buffer)),
      record { buffer = drop (frame_end c) c.buffer; in_off = 0; in_size = 0 },
    )

unfoldable pub try_parse_frame : Input → Outcome (Option (List ℕ) × Input)
try_parse_frame c = elim (read_header c) [ none ↦ done (none, c) | some c' ↦ read_body c' ]

-- `publish_msg`: what is appended to the output for a message.
unfoldable pub frame : List ℕ → List ℕ
frame msg = htonl (length msg % u32_size) ++ msg

-- The messages that the loop around `try_parse_frame` takes from the input, with what is left.
unfoldable pub take_messages : ℕ → Input → Outcome (List (List ℕ) × Input)
take_messages zero c = fault
take_messages (suc fuel) c = try_parse_frame c >>= (λ r. elim r.0 [
  | none ↦ done ([], r.1)
  | some msg ↦ take_messages fuel r.1 >>= (λ q. done (msg ∷ q.0, q.1))
])

-- The messages that come out of the read loop, where `read` returns one chunk after the other.
unfoldable pub feed : List (List ℕ) → Input → Outcome (List (List ℕ) × Input)
feed [] c = done ([], c)
feed (chunk ∷ chunks) c =
    let bytes = c.buffer ++ chunk in
    take_messages (suc (length bytes)) (record c { buffer = bytes })
    >>= (λ r. feed chunks r.1 >>= (λ q. done (r.0 ++ q.0, q.1)))
