-- ===== src/Server/Invariant/Comings.antt =====
-- engine/src/server.cc, `handle_close`: the invariant of the server is kept.
use mathlib.Core.Path.{subst₂}
use poker_epoll.Base.{
  ◌≡◌, ap, sym, ◌∙◌, ◌≢◌, some, true, Map, lookup, has_key, insert, erase, lookup-insert,
  insert_cases, arith, ◌==◌, Option-cases, Bool-cases, inl, inr, eq_of_==,
}
use poker_epoll.Rules.{PlayerId}
use poker_epoll.Players.Seating.{Unique, lookup-erase, erase-Unique, insert-Unique}
use poker_epoll.Table.{Table}
use poker_epoll.Table.Seats.{remove_player}
use poker_epoll.Server.{Conn, Server, TableId}
use poker_epoll.Server.Connections.{handle_close, leave_table}
use poker_epoll.Server.Invariant.{IsServer, IsRoom, IsConnected, HasSeat}
use poker_epoll.Server.Invariant.Rooms.{Departs, remove_player-Departs}

-- Who was connected still is, when the connection of another player is gone.
stays-IsConnected :
    (connections : Map Conn) (id pid : PlayerId) (tid : TableId)
    → Unique connections
    → pid ≢ id
    → IsConnected connections pid tid
    → IsConnected (erase id connections) pid tid
stays-IsConnected connections id pid tid u other (conn, e, at) =
    (conn, ground (arith, lookup-erase pid id connections u), at)

module _ (s : Server) (v : IsServer s) (id : PlayerId) (conn : Conn)
    (known : lookup id s.connections ≡ some conn) where
  -- The player who goes has no seat at any other table.
  elsewhere :
      (k : TableId) (u : Table)
      → lookup k s.tables ≡ some u
      → conn.table_id ≢ k
      → (pid : PlayerId) → has_key pid u.players.index ≡ true
      → pid ≢ id
  elsewhere k u e away pid seat same =
      let (c, found, at) = (v.rooms k u e).connected pid seat in
      away (ground (arith, known, found, at, ap (λ i. lookup i s.connections) same))

  other-IsRoom :
      (k : TableId) (u : Table)
      → lookup k s.tables ≡ some u
      → conn.table_id ≢ k
      → IsRoom (erase id s.connections) s.next_player_id s.next_table_id k u
  other-IsRoom k u e away =
      let room = v.rooms k u e in
      record {
        numbered = room.numbered;
        issued = room.issued;
        in_order = room.in_order;
        funded = room.funded;
        connected = λ pid seat.
            stays-IsConnected s.connections id pid k v.unique (elsewhere k u e away pid seat)
              (room.connected pid seat);
      }

  keyed_after :
      (pid : PlayerId) (c : Conn)
      → lookup pid (erase id s.connections) ≡ some c
      → (pid ≢ id) × (lookup pid s.connections ≡ some c)
  keyed_after pid c e = ground (arith, lookup-erase pid id s.connections v.unique)

  -- The connection had no table, or a table that is not there.
  no_table-IsServer :
      ((t : Table) → lookup conn.table_id s.tables ≢ some t)
      → IsServer (record s { connections = erase id s.connections })
  no_table-IsServer nowhere = record {
    unique = erase-Unique id s.connections v.unique;
    tables_unique = v.tables_unique;
    counted = v.counted;
    keyed = λ pid c e. v.keyed pid c (keyed_after pid c e).1;
    pending = λ pid c e. v.pending pid c (keyed_after pid c e).1;
    rooms = λ k u e. other-IsRoom k u e (λ same. nowhere u (ap (λ i. lookup i s.tables) same ∙ e));
    alive = λ pid c e living. v.alive pid c (keyed_after pid c e).1 living;
  }

  -- The table that the player leaves.
  left_table-IsServer :
      (t : Table)
      → lookup conn.table_id s.tables ≡ some t
      → IsServer (record s {
        connections = erase id s.connections;
        tables = insert conn.table_id (remove_player id t).1 s.tables;
      })
  left_table-IsServer t at = record {
    unique = erase-Unique id s.connections v.unique;
    tables_unique = insert-Unique conn.table_id t' s.tables v.tables_unique;
    counted = v.counted;
    keyed = λ pid c e. v.keyed pid c (keyed_after pid c e).1;
    pending = λ pid c e. v.pending pid c (keyed_after pid c e).1;
    rooms = λ k u e. elim (insert_cases k conn.table_id t' u s.tables e) [
      | inl (here, same) ↦
          subst₂ (IsRoom (erase id s.connections) s.next_player_id s.next_table_id) (sym here) same
            left_room
      | inr (away, other) ↦ other-IsRoom k u other (λ same. away (sym same))
    ];
    alive = λ pid c e living.
        let (other, before) = keyed_after pid c e in
        keeps_seat pid c other (v.alive pid c before living);
  }
    where
      t' : Table
      t' = (remove_player id t).1

      room : IsRoom s.connections s.next_player_id s.next_table_id conn.table_id t
      room = v.rooms conn.table_id t at

      departs : Departs id t t'
      departs = remove_player-Departs id t room.in_order

      left_room : IsRoom (erase id s.connections) s.next_player_id s.next_table_id conn.table_id t'
      left_room = record {
        numbered = room.numbered;
        issued = room.issued;
        in_order = departs.in_order;
        funded = omega (arith, room.funded, departs.kept_funds);
        connected = λ pid seat.
            let (other, before) = departs.only pid seat in
            stays-IsConnected s.connections id pid conn.table_id v.unique other
              (room.connected pid before);
      }

      keeps_seat :
          (pid : PlayerId) (c : Conn)
          → pid ≢ id
          → HasSeat s.tables c.table_id pid
          → HasSeat (insert conn.table_id t' s.tables) c.table_id pid
      keeps_seat pid c other (u, e, seat) = elim (Bool-cases (c.table_id == conn.table_id)) [
        | inl here ↦ (
          t',
          ground (arith, lookup-insert c.table_id conn.table_id t' s.tables),
          departs.others pid other (
              ground (
                arith,
                at,
                e,
                seat,
                ap (λ i. lookup i s.tables) (eq_of_== c.table_id conn.table_id here),
              )),
        )
        | inr away ↦
            (u, ground (arith, lookup-insert c.table_id conn.table_id t' s.tables, e), seat)
      ]

-- Whoever goes, connected or not, the invariant of the server is kept.
pub handle_close-IsServer : (id : PlayerId) (s : Server) → IsServer s → IsServer (handle_close id s)
unfolding handle_close leave_table
handle_close-IsServer id s v = elim (Option-cases (lookup id s.connections)) [
  | inl unknown ↦ rw (unknown, handle_close) v
  | inr (conn, known) ↦
      rw (known, handle_close)
        (elim (Bool-cases (conn.table_id == 0)) [
          | inl nowhere ↦ rw nowhere (
              no_table-IsServer s v id conn known
                (λ t e. ground (arith, (v.rooms conn.table_id t e).numbered)))
          | inr somewhere ↦ rw somewhere (elim (Option-cases (lookup conn.table_id s.tables)) [
            | inl closed ↦ rw closed (no_table-IsServer s v id conn known (λ t e. ground arith))
            | inr (t, at) ↦ rw at (left_table-IsServer s v id conn known t at)
          ])
        ])
]
