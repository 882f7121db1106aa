-- ===== src/Server/Invariant/Reading.antt =====
-- engine/src/main.cc, the read loop: it ends and keeps the invariant of the server, or comes upon one of
-- the two things that bring the server down.
pub mod Loops
pub mod Events
use poker_epoll.Base.{
  ℕ, zero, suc, ◌+◌, ◌*◌, ◌<◌, ◌≡◌, ◌≢◌, refl, ap, sym, subst, ◌∙◌, ◌⊎◌, List, [], ◌∷◌, ◌++◌,
  Option, none, some, Bool, true, false, Map, lookup, lookup-insert, has_key, insert, arith,
  u64_size, length, Outcome, done, fault, ◌>>=◌, Returns, Returns-done, Returns-map, Option-cases,
  Bool-cases, inl, inr,
}
use poker_epoll.Rules.{PlayerId, buy_in}
use poker_epoll.Frames.{Input, try_parse_frame}
use poker_epoll.Frames.RoundTrip.{idle}
use poker_epoll.Frames.Pending.{
  IsPending, Overflows, Next, waits, takes, overflows, next_lem, grown-IsPending,
}
use poker_epoll.Table.Environment.{IsLawful}
use poker_epoll.Server.{Conn, Server, ServerEnv, TableId}
use poker_epoll.Server.Connections.{handle_close}
use poker_epoll.Server.Loop.{
  handle_message, next_message, message_loop, receive, read_loop, ReadResult, bytes, end_of_input,
  would_block, read_error,
}
use poker_epoll.Server.Invariant.{IsServer}
use poker_epoll.Server.Invariant.Comings.{handle_close-IsServer}
use poker_epoll.Server.Invariant.Traffic.{
  AllHear, insert-AllHear, SameSeat, rewritten-IsServer, insert-IsRewritten,
}
use poker_epoll.Server.Invariant.Handling.{Carries, Carries-has_key}
use poker_epoll.Server.Invariant.Replies.{Strands, handle_message-Carries}

-- The server with other input at a connection.
abbrev pub with_input : PlayerId → Conn → Input → Server → Server
with_input pid conn c s = record s {
  connections = insert pid (record conn { input = c }) s.connections;
}

-- The loop over the messages comes, from this server on, to a header whose length overflows, or to a message
-- with which it goes down: after its action a hand is started at a table whose engine is gone or whose button
-- has left.
pub data MessageDown (env : ServerEnv) (pid : PlayerId) : Server → Type 0 where
  overflowed :
      {s : Server} (conn : Conn)
      → lookup pid s.connections ≡ some conn
      → Overflows conn.input
      → MessageDown env pid s
  stranded :
      {s s1 : Server} (msg : List ℕ)
      → next_message pid s ≡ done (some msg, s1)
      → Strands env pid msg s1
      → handle_message env pid msg s1 ≡ fault
      → MessageDown env pid s
  handled :
      {s s1 s2 : Server} (msg : List ℕ)
      → next_message pid s ≡ done (some msg, s1)
      → handle_message env pid msg s1 ≡ done s2
      → MessageDown env pid s2
      → MessageDown env pid s

-- The read loop comes there, from this server on, with what the calls of `read` return.
pub data ReadDown (env : ServerEnv) (pid : PlayerId) : List ReadResult → Server → Type 0 where
  in_chunk :
      {s : Server} (conn : Conn) (chunk : List ℕ) (rest : List ReadResult)
      → lookup pid s.connections ≡ some conn
      → MessageDown env pid
          (with_input pid conn (record conn.input { buffer = conn.input.buffer ++ chunk }) s)
      → ReadDown env pid (bytes chunk ∷ rest) s
  after_chunk :
      {s s1 : Server} (chunk : List ℕ) (rest : List ReadResult)
      → receive env pid chunk s ≡ done s1
      → ReadDown env pid rest s1
      → ReadDown env pid (bytes chunk ∷ rest) s

-- The server during an event of the player, from what it was before: it is in order, the counters are
-- what they were, the others who were connected still are, and ask epoll for what they need if they did.
pub record Around (pid : PlayerId) (before s : Server) : Type 0 where
  pub server : IsServer s
  pub next : s.next_player_id ≡ before.next_player_id
  pub tables : s.next_table_id ≡ before.next_table_id
  pub others :
      (p : PlayerId)
      → p ≢ pid
      → has_key p before.connections ≡ true
      → has_key p s.connections ≡ true
  pub hears : AllHear none before.connections → AllHear (some pid) s.connections

-- Besides, the parser of the connection of the player is in a state between two reads.
pub record Listens (pid : PlayerId) (before s : Server) : Type 0 where
  pub around : Around pid before s
  pub conn : Conn
  pub known : lookup pid s.connections ≡ some conn
  pub pending : IsPending conn.input

pub insert_kept :
    (p pid : PlayerId) (conn : Conn) (m : Map Conn)
    → has_key p m ≡ true
    → has_key p (insert pid conn m) ≡ true
insert_kept p pid conn m h = ground (arith, lookup-insert p pid conn m, h)

-- The connection of the player is written anew, at the same seat.
pub seat_kept :
    (pid : PlayerId) (before s : Server) (conn conn' : Conn)
    → Around pid before s
    → lookup pid s.connections ≡ some conn
    → SameSeat conn conn'
    → Around pid before (record s { connections = insert pid conn' s.connections })
seat_kept pid before s conn conn' a known same = record {
  server = rewritten-IsServer s (insert pid conn' s.connections) a.server (
      insert-IsRewritten SameSeat s.connections pid conn conn'
        (λ d. record { player_id = refl; table_id = refl; is_dead = refl; pending = λ q. q })
        a.server.unique known same);
  next = a.next;
  tables = a.tables;
  others = λ p other h. insert_kept p pid conn' s.connections (a.others p other h);
  hears = λ h. insert-AllHear (some pid) s.connections pid conn' (inl refl) (a.hears h);
}

pub with_input-Listens :
    (pid : PlayerId) (before s : Server) (conn : Conn) (c : Input)
    → Around pid before s
    → lookup pid s.connections ≡ some conn
    → IsPending c
    → Listens pid before (with_input pid conn c s)
with_input-Listens pid before s conn c a known p = record {
  around =
      seat_kept pid before s conn (record conn { input = c }) a known
        (record { player_id = refl; table_id = refl; is_dead = refl; pending = λ q. p });
  conn = record conn { input = c };
  known = ground (arith, lookup-insert pid pid (record conn { input = c }) s.connections);
  pending = p;
}

-- What is sent and answered in an event of the player.
pub Carries-Around :
    (pid : PlayerId) (before s s' : Server)
    → Around pid before s
    → Carries (some pid) s s'
    → Around pid before s'
Carries-Around pid before s s' a c = record {
  server = c.server;
  next = c.next_player ∙ a.next;
  tables = c.next_table ∙ a.tables;
  others = λ p other h. Carries-has_key (some pid) s s' c p (a.others p other h);
  hears = λ h. c.hears (a.hears h);
}

pub ran_message :
    (pid : PlayerId) (s : Server) (conn : Conn) (r : Option (List ℕ)) (c : Input)
    → lookup pid s.connections ≡ some conn
    → try_parse_frame conn.input ≡ done (r, c)
    → next_message pid s ≡ done (r, with_input pid conn c s)
unfolding next_message
ran_message pid s conn r c known ran = rw (known, next_message) (rw ran refl)
