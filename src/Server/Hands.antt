-- ===== src/Server/Hands.antt =====
-- engine/src/server.cc: hands that are started, and actions that are applied.
use poker_epoll.Base.{
  List, Option, none, some, lookup, insert, Outcome, done, fault, ◌>>=◌, Expected, value,
  unexpected, ◌==◌, if◌then◌else◌,
}
use poker_epoll.Rules.{PlayerId}
use poker_epoll.Errors.{Error, GameError, of_server, of_game, illegal_action}
use poker_epoll.Messages.{ProtoAction}
use poker_epoll.Translate.{from_proto_action}
use poker_epoll.Table.{Table, Event, Action}
use poker_epoll.Table.Seats.{can_start_hand}
use poker_epoll.Table.Hands.{handle_new_hand}
use poker_epoll.Table.Actions.{on_action}
use poker_epoll.Server.{Server, ServerEnv, TableId}

-- The events of a table or an error, and the server after them.
abbrev pub ServerReply : Type 0
ServerReply = Outcome (Expected Error (List Event) × Server)

abbrev pub widen_game : {A : Type 0} → Expected GameError A → Expected Error A
widen_game (value a) = value a
widen_game (unexpected e) = unexpected (of_game e)

-- A table's reply, with the table put back.
abbrev pub put_back : TableId → Server → Expected GameError (List Event) × Table → ServerReply
put_back id s (res, t) = done (widen_game res, record s { tables = insert id t s.tables })

-- `Server::start_hand`
unfoldable pub start_hand : ServerEnv → TableId → Server → ServerReply
start_hand env id s = elim (lookup id s.tables) [
  | none ↦ done (unexpected (of_server illegal_action), s)
  | some t ↦ handle_new_hand env.at_tables t >>= put_back id s
]

-- The events of a hand that was started.
abbrev pub started : Expected Error (List Event) → Option (List Event)
started (value evs) = some evs
started (unexpected e) = none

-- `Server::maybe_start_hand`
unfoldable pub maybe_start_hand :
    ServerEnv → TableId → Server → Outcome (Option (List Event) × Server)
maybe_start_hand env id s = elim (lookup id s.tables) [
  | none ↦ done (none, s)
  | some t ↦
      if can_start_hand t
      then (handle_new_hand env.at_tables t >>= put_back id s) >>= (λ r. done (started r.0, r.1))
      else done (none, s)
]

-- An action at a table; there is none for the identifier 0.
unfoldable pub act_at : ServerEnv → Action → TableId → Server → ServerReply
act_at env action tid s =
    if tid == 0
    then done (unexpected (of_server illegal_action), s)
    else elim (lookup tid s.tables) [
      | none ↦ done (unexpected (of_server illegal_action), s)
      | some t ↦ on_action env.at_tables action t >>= put_back tid s
    ]

-- `Server::apply_action`: `.at` throws where the player has no connection.
unfoldable pub apply_action : ServerEnv → ProtoAction → PlayerId → Server → ServerReply
apply_action env a id s = elim (from_proto_action a id) [
  | unexpected e ↦ done (unexpected (of_game e), s)
  | value action ↦ elim (lookup id s.connections) [
    | none ↦ fault
    | some conn ↦ act_at env action conn.table_id s
  ]
]
