-- ===== src/Server.antt =====
-- engine/src/server.h: the state of the server. A connection keeps its file descriptor, the bytes that
-- came in and those that are to go out; epoll and the sockets themselves are not part of the state.
pub mod Publishing
pub mod Privacy
pub mod Connections
pub mod Hands
pub mod Loop
pub mod Invariant
use poker_epoll.Base.{ℕ, List, [], Option, Bool, true, false, Map}
use poker_epoll.Rules.{PlayerId}
use poker_epoll.Errors.{Error}
use poker_epoll.Messages.{ProtoAction, Response}
use poker_epoll.Frames.{Input}
use poker_epoll.Table.{Table, Event}
use poker_epoll.Table.Environment.{Env}

abbrev pub TableId : Type 0
TableId = ℕ

-- What came in, with `in_off` and `in_size`, is an `Input`.
pub record Conn : Type 0 where
  pub fd : ℕ
  pub input : Input
  pub out : List ℕ
  -- Whether epoll was asked to tell when the socket can be written (`EPOLLOUT`).
  pub wants_write : Bool
  pub table_id : TableId
  pub player_id : PlayerId
  pub is_dead : Bool

-- `Conn::Conn`
abbrev pub new_conn : ℕ → PlayerId → Conn
new_conn cfd id = record {
  fd = cfd;
  input = record { buffer = []; in_off = 0; in_size = 0 };
  out = [];
  wants_write = false;
  table_id = 0;
  player_id = id;
  is_dead = true;
}

pub data Outbound : Type 0 where
  one_event : Event → Outbound
  events : List Event → Outbound
  error : Error → Outbound

pub record Server : Type 0 where
  pub connections : Map Conn
  pub tables : Map Table
  pub next_player_id : PlayerId
  pub next_table_id : TableId

-- The connection once it is registered, for reading and for writing.
abbrev pub registered : ℕ → PlayerId → Conn
registered cfd id = record (new_conn cfd id) { wants_write = true }

-- `Server::Server`
unfoldable pub new_server : Server
new_server = record { connections = []; tables = []; next_player_id = 1; next_table_id = 1 }

-- What the server uses and the repository does not implement: the environment of its tables,
-- `SerializeToString` and `ParseFromString` of protobuf, and the order in which `tables_` is iterated.
pub record ServerEnv : Type 0 where
  pub at_tables : Env
  pub serialize : Response → List ℕ
  pub parse : List ℕ → Option ProtoAction
  pub tables_order : Map Table → Map Table
