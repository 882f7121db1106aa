-- ===== src/Server/Connections.antt =====
-- engine/src/server.cc: who connects, and who goes.
use poker_epoll.Base.{
  ℕ, [], ◌∷◌, length, none, some, Bool, true, false, not, Map, lookup, lookup_or, insert, erase,
  touch, add64, ltb, Expected, value, unexpected, ◌==◌, if◌then◌else◌,
}
use poker_epoll.Rules.{PlayerId}
use poker_epoll.Errors.{Error, PlayerMgmtError, of_server, of_player_mgmt, too_many_clients}
use poker_epoll.Table.{dangling, Table, Event, new_table}
use poker_epoll.Table.Seats.{has_open_seat, add_player, remove_player}
use poker_epoll.Server.{Server, ServerEnv, TableId, registered}

abbrev pub max_connections : ℕ
max_connections = 102

-- The loop for a table with an open seat; 0 is the identifier of no table.
unfoldable pub first_open : Map Table → TableId
first_open [] = 0
first_open ((id, table) ∷ rest) = if has_open_seat table then id else first_open rest

-- The table that is found, or a new one: its reference `rng_` is to a local variable, which is gone when
-- `find_table` returns.
unfoldable pub find_table : ServerEnv → Server → TableId × Table × Server
find_table env s =
    let tid = first_open (env.tables_order s.tables) in
    elim (lookup tid s.tables) [
      | some t ↦ (tid, t, s)
      | none ↦ (
        s.next_table_id,
        lookup_or s.next_table_id (new_table dangling) s.tables,
        record s {
          next_table_id = add64 s.next_table_id 1;
          tables = touch s.next_table_id (new_table dangling) s.tables;
        },
      )
    ]

abbrev pub succeeds : {E A : Type 0} → Expected E A → Bool
succeeds (value a) = true
succeeds (unexpected e) = false

abbrev pub widen : {A : Type 0} → Expected PlayerMgmtError A → Expected Error A
widen (value a) = value a
widen (unexpected e) = unexpected (of_player_mgmt e)

-- The player is seated at the table that was found, or the error is returned.
unfoldable pub seat_player : ℕ → PlayerId → TableId × Table × Server → Expected Error Event × Server
seat_player cfd pid (tid, t, s) =
    let (res, t') = add_player pid t in
    (
      widen res,
      record s {
        tables = insert tid t' s.tables;
        connections =
            insert pid
              (record (registered cfd pid) { table_id = tid; is_dead = not (succeeds res) })
              s.connections;
      },
    )

-- `Server::handle_connect`: the new player, what became of them, and the server.
unfoldable pub handle_connect : ServerEnv → ℕ → Server → PlayerId × Expected Error Event × Server
handle_connect env cfd s =
    let pid = s.next_player_id in
    let connected = record s {
      next_player_id = add64 pid 1;
      connections = insert pid (registered cfd pid) s.connections;
    } in
    if ltb max_connections (length connected.connections)
    then (pid, unexpected (of_server too_many_clients), connected)
    else (let (res, s') = seat_player cfd pid (find_table env connected) in (pid, res, s'))

-- The table after `remove_player`, whose events nobody is sent.
unfoldable pub leave_table : PlayerId → TableId → Server → Server
leave_table id tid s = if tid == 0 then s else elim (lookup tid s.tables) [
  | none ↦ s
  | some t ↦ record s { tables = insert tid (remove_player id t).1 s.tables }
]

-- `Server::handle_close`
unfoldable pub handle_close : PlayerId → Server → Server
handle_close id s = elim (lookup id s.connections) [
  | none ↦ s
  | some conn ↦ leave_table id conn.table_id (record s { connections = erase id s.connections })
]
