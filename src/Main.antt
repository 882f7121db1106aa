-- ===== src/Main.antt =====
-- engine/src/main.cc: `main`, from the opening of the sockets to the end, over what the calls of the
-- system return. Epoll keeps for a descriptor a union of a descriptor and a pointer.
pub mod Steps
pub mod Batches
pub mod Runs
use Prim.Native.String.{String, ◌++◌ as joined}
use poker_epoll.Base.{
  ℕ, List, [], ◌∷◌, ◌++◌, map, Map, Option, none, some, lookup, Bool, true, false, not, ◌%◌, ◌^◌,
  ◌==◌, if◌then◌else◌, Outcome, done, fault, ◌>>=◌,
}
use poker_epoll.Rules.{PlayerId}
use poker_epoll.Messages.{ProtoAction, action_not_set, proto_fold, proto_bet}
use poker_epoll.Server.{Conn, Server, ServerEnv, new_server}
use poker_epoll.Server.Loop.{accept_client, client_event, ReadResult, WriteResults}

-- The text of an action, for the log; `std::to_string` is a parameter.
unfoldable pub action_to_string : (ℕ → String) → ProtoAction → String
action_to_string to_string proto_fold = "fold"
action_to_string to_string (proto_bet amount) = joined "bet " (to_string amount)
action_to_string to_string action_not_set = "unknown"

-- What the program uses besides: where in memory the connection of a player is.
pub record MainEnv : Type 0 where
  pub of_server : ServerEnv
  pub address : PlayerId → ℕ

-- The server, its descriptors, and what `main` and `~Server` have closed.
pub record Process : Type 0 where
  pub server : Server
  pub epfd : ℕ
  pub listenfd : ℕ
  pub closed : List ℕ

-- What `accept` returns: a descriptor, that there is nothing now, or another error. Where a list of returns
-- ends with a descriptor, the call after it returns that there is nothing now.
pub data AcceptResult : Type 0 where
  accepted : ℕ → AcceptResult
  nothing_now : AcceptResult
  accept_error : AcceptResult

-- The union `e.data`: a descriptor, or a pointer to the connection of a player.
pub data EventData : Type 0 where
  descriptor : ℕ → EventData
  pointer : PlayerId → EventData

-- An event of epoll: `EPOLLERR` or `EPOLLHUP`, `EPOLLIN`, `EPOLLOUT`, the union, and what the calls on
-- its socket return.
pub record EpollEvent : Type 0 where
  pub is_broken : Bool
  pub is_input : Bool
  pub is_output : Bool
  pub about : EventData
  pub accepts : List AcceptResult
  pub reads : List ReadResult
  pub writes : WriteResults

-- `e.data.fd`: of a pointer, the lower half.
unfoldable pub data_fd : MainEnv → EventData → ℕ
data_fd env (descriptor fd) = fd
data_fd env (pointer pid) = env.address pid % 2 ^ 32

-- The error path.
unfoldable pub error_path : MainEnv → EpollEvent → Process → Process
error_path env e p =
    let fd = data_fd env e.about in
    if fd == p.listenfd then p else record p { closed = fd ∷ p.closed }

-- The loop over the new connections.
unfoldable pub accept_loop : ServerEnv → List AcceptResult → Server → Outcome Server
accept_loop env [] s = done s
accept_loop env (nothing_now ∷ rest) s = done s
accept_loop env (accept_error ∷ rest) s = done s
accept_loop env (accepted cfd ∷ rest) s = accept_client env cfd s >>= accept_loop env rest

abbrev pub when : {A : Type 0} → Bool → A → Option A
when b a = if b then some a else none

-- An event of a client: the pointer is followed, to a connection that is there.
unfoldable pub client_socket : ServerEnv → EpollEvent → EventData → Server → Outcome Server
client_socket env e (descriptor fd) s = fault
client_socket env e (pointer pid) s = elim (lookup pid s.connections) [
  | none ↦ fault
  | some conn ↦ client_event env pid (when e.is_input e.reads) (when e.is_output e.writes) s
]

-- The body of the loop over the events.
unfoldable pub handle_event : MainEnv → EpollEvent → Process → Outcome Process
handle_event env e p =
    if e.is_broken
    then done (error_path env e p)
    else ((if data_fd env e.about == p.listenfd
          then accept_loop env.of_server e.accepts p.server
          else client_socket env.of_server e e.about p.server)
        >>= (λ s. done (record p { server = s })))

-- The loop over the events of a batch.
unfoldable pub handle_batch : MainEnv → List EpollEvent → Process → Outcome Process
handle_batch env [] p = done p
handle_batch env (e ∷ rest) p = handle_event env e p >>= handle_batch env rest

-- `Server::~Server`
unfoldable pub shut_down : Process → Process
shut_down p = record p {
  closed = p.listenfd ∷ p.epfd ∷ map (λ (e : ℕ × Conn). e.1.fd) p.server.connections ++ p.closed;
}

-- What `epoll_wait` returns: events, at most 64 of them, that a signal came, or another error.
pub data WaitResult : Type 0 where
  batch : List EpollEvent → WaitResult
  interrupted : WaitResult
  wait_error : WaitResult

-- How the program ends: by `exit(1)`, which destroys nothing, or by the end of `main`.
pub data Exit : Type 0 where
  exit_1 : Exit
  returned : Exit

-- The event loop, over what the calls of `epoll_wait` return until `g_stop` is set.
unfoldable pub event_loop : MainEnv → List WaitResult → Process → Outcome (Exit × Process)
event_loop env [] p = done (returned, shut_down p)
event_loop env (interrupted ∷ rest) p = event_loop env rest p
event_loop env (wait_error ∷ rest) p = done (exit_1, p)
event_loop env (batch events ∷ rest) p = handle_batch env events p >>= event_loop env rest

-- What the calls return that open the sockets; nothing for a failure.
pub record Opening : Type 0 where
  pub socket : Option ℕ
  pub is_bound : Bool
  pub is_listening : Bool
  pub epoll : Option ℕ

-- The descriptors for epoll and for new connections.
unfoldable pub open_sockets : Opening → Option (ℕ × ℕ)
open_sockets o = elim o.socket [
  | none ↦ none
  | some listenfd ↦
      if not o.is_bound
      then none
      else if not o.is_listening
      then none
      else (elim o.epoll [ none ↦ none | some epfd ↦ some (epfd, listenfd) ])
]

abbrev pub started_at : ℕ × ℕ → Process
started_at (epfd, listenfd) = record {
  server = new_server;
  epfd = epfd;
  listenfd = listenfd;
  closed = [];
}

-- The whole program; before the server is there nothing is closed.
unfoldable pub run_main : MainEnv → Opening → List WaitResult → Outcome (Exit × Option Process)
run_main env o waits = elim (open_sockets o) [
  | none ↦ done (exit_1, none)
  | some fds ↦ event_loop env waits (started_at fds) >>= (λ r. done (r.0, some r.1))
]
