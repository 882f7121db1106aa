-- ===== src/Server/Publishing.antt =====
-- engine/src/server.cc: which messages go to which connection. They are appended to what is to go out.
use poker_epoll.Base.{
  ℕ, List, [], ◌∷◌, ◌++◌, map, Option, none, some, Bool, true, false, keep_if, Map, lookup, insert,
  Outcome, done, fault, ◌==◌, if◌then◌else◌,
}
use poker_epoll.Rules.{PlayerId}
use poker_epoll.Messages.{Response, ServerMessage, event_message, error_message}
use poker_epoll.Translate.{to_proto_event, to_proto_error}
use poker_epoll.Frames.{frame}
use poker_epoll.Table.{Event, dealt_hole}
use poker_epoll.Server.{Conn, Server, ServerEnv, TableId, Outbound, one_event, events, error}

unfoldable pub publish_msg : List ℕ → Conn → Conn
publish_msg msg conn = record conn { out = conn.out ++ frame msg }

-- `append_event`, to an empty response.
abbrev pub message_of : Event → ServerMessage
message_of ev = event_message (to_proto_event ev)

unfoldable pub event_visible_to : Event → Conn → Bool
event_visible_to (dealt_hole who hole) conn = who == conn.player_id
event_visible_to ev conn = true

unfoldable pub make_response : Outbound → Response
make_response (events evs) = map message_of evs
make_response (one_event ev) = message_of ev ∷ []
make_response (error e) = error_message (to_proto_error e) ∷ []

-- `publish` to one connection.
unfoldable pub publish_one : ServerEnv → Outbound → Conn → Conn
publish_one env out conn = publish_msg (env.serialize (make_response out)) conn

-- What `publish` to several connections sends to one of them: nothing, or one response. An error is
-- dropped, and so is a response without events.
unfoldable pub response_for : Outbound → Conn → Option Response
response_for (error e) conn = none
response_for (one_event ev) conn =
    if event_visible_to ev conn then some (message_of ev ∷ []) else none
response_for (events evs) conn = elim (keep_if (λ ev. event_visible_to ev conn) evs) [
  | [] ↦ none
  | ev ∷ rest ↦ some (map message_of (ev ∷ rest))
]

unfoldable pub deliver : ServerEnv → Outbound → Conn → Conn
deliver env out conn = elim (response_for out conn) [
  | none ↦ conn
  | some res ↦ publish_msg (env.serialize res) conn
]

-- `Server::push_one`: a missing connection is a null pointer, which is dereferenced.
unfoldable pub push_one : ServerEnv → PlayerId → Outbound → Server → Outcome Server
push_one env id out s = elim (lookup id s.connections) [
  | none ↦ fault
  | some conn ↦ done (record s { connections = insert id (publish_one env out conn) s.connections })
]

-- `update_interest`: epoll is asked to tell when the socket can be written if there is something to go out.
unfoldable pub update_interest : Conn → Conn
update_interest conn = record conn { wants_write = elim conn.out [ [] ↦ false | b ∷ more ↦ true ] }

-- The connections with the table, each with what is done to it, and the others as they are. Each of
-- them is changed by itself, so the order in which `get_table_conns` collects them does not matter.
unfoldable pub at_table_conns : TableId → (Conn → Conn) → Map Conn → Map Conn
at_table_conns id change [] = []
at_table_conns id change ((pid, conn) ∷ rest) =
    (pid, if conn.table_id == id then change conn else conn) ∷ at_table_conns id change rest

-- `Server::push_table`: what is published, and the interest of every connection of the table.
unfoldable pub push_table : ServerEnv → TableId → Outbound → Server → Server
push_table env id out s = record s {
  connections = at_table_conns id (λ conn. update_interest (deliver env out conn)) s.connections;
}
