-- ===== src/Server/Loop.antt =====
-- engine/src/main.cc: what the loop does with a new connection, with a message, and with what `read` and
-- `write` return for a client. `epoll_wait`, `accept`, `read` and `write` are given as what they return.
use poker_epoll.Base.{
  ℕ, zero, suc, List, [], ◌∷◌, ◌++◌, drop, length, Option, none, some, lookup, insert, Outcome,
  done, fault, ◌>>=◌, Expected, value, unexpected, Bool, true, false, if◌then◌else◌,
}
use poker_epoll.Rules.{PlayerId}
use poker_epoll.Errors.{Error, of_game, invalid_action}
use poker_epoll.Frames.{try_parse_frame}
use poker_epoll.Table.{Event}
use poker_epoll.Server.{Server, ServerEnv, TableId, one_event, events, error}
use poker_epoll.Server.Publishing.{update_interest, push_one, push_table}
use poker_epoll.Server.Connections.{handle_connect, handle_close}
use poker_epoll.Server.Hands.{maybe_start_hand, apply_action}

abbrev pub tell_started : ServerEnv → TableId → Option (List Event) × Server → Server
tell_started env tid (none, s) = s
tell_started env tid (some evs, s) = push_table env tid (events evs) s

-- A hand is started where it can be, and the table is told.
unfoldable pub go_on_playing : ServerEnv → TableId → Server → Outcome Server
go_on_playing env tid s = maybe_start_hand env tid s >>= (λ r. done (tell_started env tid r))

-- What is sent for a new connection.
unfoldable pub greet : ServerEnv → PlayerId × Expected Error Event × Server → Outcome Server
greet env (pid, res, s) = elim (lookup pid s.connections) [
  | none ↦ fault
  | some conn ↦ elim res [
    | unexpected e ↦ push_one env pid (error e) s
    | value ev ↦ go_on_playing env conn.table_id (push_table env conn.table_id (one_event ev) s)
  ]
]

-- A connection that `accept` returned.
unfoldable pub accept_client : ServerEnv → ℕ → Server → Outcome Server
accept_client env cfd s = greet env (handle_connect env cfd s)

-- What is sent for an action.
unfoldable pub answer : ServerEnv → PlayerId → Expected Error (List Event) × Server → Outcome Server
answer env pid (unexpected e, s) = push_one env pid (error e) s
answer env pid (value evs, s) = elim (lookup pid s.connections) [
  | none ↦ fault
  | some conn ↦ go_on_playing env conn.table_id (push_table env conn.table_id (events evs) s)
]

unfoldable pub handle_message : ServerEnv → PlayerId → List ℕ → Server → Outcome Server
handle_message env pid msg s = elim (env.parse msg) [
  | none ↦ push_one env pid (error (of_game invalid_action)) s
  | some action ↦ apply_action env action pid s >>= answer env pid
]

-- `try_parse_frame` at the connection of a player.
unfoldable pub next_message : PlayerId → Server → Outcome (Option (List ℕ) × Server)
next_message pid s = elim (lookup pid s.connections) [
  | none ↦ fault
  | some conn ↦ try_parse_frame conn.input >>= (λ r.
      done (r.0, record s { connections = insert pid (record conn { input = r.1 }) s.connections }))
]

-- The loop over the messages that are there.
unfoldable pub message_loop : ℕ → ServerEnv → PlayerId → Server → Outcome Server
message_loop zero env pid s = fault
message_loop (suc fuel) env pid s = next_message pid s >>= (λ r. elim r.0 [
  | none ↦ done r.1
  | some msg ↦ handle_message env pid msg r.1 >>= (λ s'. message_loop fuel env pid s')
])

-- What `read` returns: bytes, the end of the input, that there is nothing now, or another error. Where a
-- list of returns ends with bytes, the call after it returns that there is nothing now.
pub data ReadResult : Type 0 where
  bytes : List ℕ → ReadResult
  end_of_input : ReadResult
  would_block : ReadResult
  read_error : ReadResult

-- The bytes are appended to the input, and the messages are handled.
unfoldable pub receive : ServerEnv → PlayerId → List ℕ → Server → Outcome Server
receive env pid chunk s = elim (lookup pid s.connections) [
  | none ↦ fault
  | some conn ↦
      let input = record conn.input { buffer = conn.input.buffer ++ chunk } in
      message_loop (suc (length input.buffer)) env pid
        (record s { connections = insert pid (record conn { input = input }) s.connections })
]

-- The read loop, over what the calls of `read` return; whether the connection is still there.
unfoldable pub read_loop : ServerEnv → PlayerId → List ReadResult → Server → Outcome (Bool × Server)
read_loop env pid [] s = done (true, s)
read_loop env pid (would_block ∷ rest) s = done (true, s)
read_loop env pid (end_of_input ∷ rest) s = done (false, handle_close pid s)
read_loop env pid (read_error ∷ rest) s = done (false, handle_close pid s)
read_loop env pid (bytes chunk ∷ rest) s =
    receive env pid chunk s >>= (λ s'. read_loop env pid rest s')

-- What the calls of `write` return, one after the other: how many bytes were written, and what the calls
-- after that return; that no more can be written now; or an error. As long as there is something to go
-- out, the loop calls again, so a sequence ends with one of the last two; a socket that takes no byte
-- for ever without saying so is no such sequence.
pub data WriteResults : Type 0 where
  full : WriteResults
  write_error : WriteResults
  written : ℕ → WriteResults → WriteResults

-- Bytes that were written are taken from what is to go out.
unfoldable pub wrote : PlayerId → ℕ → Server → Server
wrote pid n s = elim (lookup pid s.connections) [
  | none ↦ s
  | some conn ↦ record s {
    connections = insert pid (record conn { out = drop n conn.out }) s.connections;
  }
]

-- The test of the write loop: the next call is made as long as there is something to go out.
abbrev pub while_out : PlayerId → Server → Outcome (Bool × Server) → Outcome (Bool × Server)
while_out pid s next = elim (lookup pid s.connections) [
  | none ↦ fault
  | some conn ↦ elim conn.out [ [] ↦ done (true, s) | b ∷ more ↦ next ]
]

-- The write loop, over what the calls of `write` return; whether the connection is still there.
unfoldable pub write_loop : PlayerId → WriteResults → Server → Outcome (Bool × Server)
write_loop pid full s = while_out pid s (done (true, s))
write_loop pid write_error s = while_out pid s (done (false, handle_close pid s))
write_loop pid (written n rest) s = while_out pid s (write_loop pid rest (wrote pid n s))

-- The interest mask: a connection that is dead is closed, whatever is still to go out; epoll is asked for
-- the others what they need.
unfoldable pub finish : PlayerId → Bool × Server → Outcome Server
finish pid (false, s) = done s
finish pid (true, s) = elim (lookup pid s.connections) [
  | none ↦ fault
  | some conn ↦ done (
      if conn.is_dead
      then handle_close pid s
      else record s { connections = insert pid (update_interest conn) s.connections })
]

unfoldable pub read_part :
    ServerEnv → PlayerId → Option (List ReadResult) → Server → Outcome (Bool × Server)
read_part env pid none s = done (true, s)
read_part env pid (some reads) s = read_loop env pid reads s

unfoldable pub write_part : PlayerId → Option WriteResults → Bool × Server → Outcome (Bool × Server)
write_part pid writes (false, s) = done (false, s)
write_part pid none (true, s) = done (true, s)
write_part pid (some writes) (true, s) = write_loop pid writes s

-- One event of a client: its socket can be read, or written, or both.
unfoldable pub client_event :
    ServerEnv → PlayerId → Option (List ReadResult) → Option WriteResults → Server → Outcome Server
client_event env pid reads writes s =
    (read_part env pid reads s >>= write_part pid writes) >>= finish pid
