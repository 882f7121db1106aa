-- ===== src/Server/Invariant/Connecting/Seated.antt =====
-- engine/src/server.cc, `handle_connect`: the new player gets a seat, or is told why not.
use mathlib.Core.Path.{subst₂}
use poker_epoll.Base.{
  ℕ, ◌+◌, ◌<◌, ◌≡◌, refl, ap, sym, subst, ◌∙◌, some, Bool, false, not, length, lookup, insert,
  lookup-insert, insert_cases, arith, u64_size, ltb, ◌==◌, Bool-cases, inl, inr, eq_of_==,
}
use poker_epoll.Rules.{PlayerId}
use poker_epoll.Players.Seating.{insert-Unique}
use poker_epoll.Frames.Pending.{IsPending}
use poker_epoll.Table.{Table}
use poker_epoll.Table.Seats.{add_player}
use poker_epoll.Server.{Conn, Server, ServerEnv, TableId, registered}
use poker_epoll.Server.Connections.{handle_connect, seat_player, max_connections, succeeds}
use poker_epoll.Server.Invariant.{IsServer, IsRoom, HasSeat}
use poker_epoll.Server.Invariant.Rooms.{Arrives, add_player-Arrives}
use poker_epoll.Server.Invariant.Connecting.{plugged_in, plugged_in-IsServer, still-IsConnected}
use poker_epoll.Server.Invariant.Connecting.Opening.{IsFound, find_table-IsFound}

-- The connection of the new player, once the table has answered.
abbrev answered : ℕ → PlayerId → TableId → Bool → Conn
answered cfd pid tid seated = record (registered cfd pid) { table_id = tid; is_dead = not seated }

module _ (cfd id : ℕ) (tid : TableId) (t : Table) (s : Server)
    (found : IsFound id (tid, t, s)) where
  seat_player-IsServer : IsServer (seat_player cfd id (tid, t, s)).1
  unfolding seat_player
  seat_player-IsServer = record {
    unique = insert-Unique id conn s.connections v.unique;
    tables_unique = insert-Unique tid t' s.tables v.tables_unique;
    counted = v.counted;
    keyed = λ p c e. elim (insert_cases p id conn c s.connections e) [
      | inl (here, same) ↦
          (ap (λ (d : Conn). d.player_id) (sym same) ∙ sym here, omega (arith, here, found.next))
      | inr (away, other) ↦ v.keyed p c other
    ];
    pending = λ p c e. elim (insert_cases p id conn c s.connections e) [
      | inl (here, same) ↦ subst (λ (d : Conn). IsPending d.input) same (inl (refl, refl))
      | inr (away, other) ↦ v.pending p c other
    ];
    rooms = λ k u e. elim (insert_cases k tid t' u s.tables e) [
      | inl (here, same) ↦
          subst₂ (IsRoom (insert id conn s.connections) s.next_player_id s.next_table_id) (sym here)
            same joined
      | inr (away, other) ↦ elsewhere k u other
    ];
    alive = λ p c e living. elim (insert_cases p id conn c s.connections e) [
      | inl (here, same) ↦
          subst₂ (λ (d : Conn) (q : PlayerId). HasSeat (insert tid t' s.tables) d.table_id q) same
            (sym here) (newcomer (ap (λ (d : Conn). d.is_dead) same ∙ living))
      | inr (away, other) ↦ keeps_seat p c (v.alive p c other living)
    ];
  }
    where
      v : IsServer s
      v = found.server

      t' : Table
      t' = (add_player id t).1

      conn : Conn
      conn = answered cfd id tid (succeeds (add_player id t).0)

      room : IsRoom s.connections s.next_player_id s.next_table_id tid t
      room = v.rooms tid t found.at

      arrives : Arrives id t t' (succeeds (add_player id t).0)
      arrives = add_player-Arrives id t room.in_order (found.strange tid t found.at)

      joined : IsRoom (insert id conn s.connections) s.next_player_id s.next_table_id tid t'
      joined = record {
        numbered = room.numbered;
        issued = room.issued;
        in_order = arrives.in_order;
        funded = omega (arith, arrives.brought, found.modest, found.next);
        connected = λ p seat. elim (Bool-cases (p == id)) [
          | inl new ↦ (conn, ground (arith, lookup-insert p id conn s.connections), refl)
          | inr old ↦ elim (arrives.only p seat) [
            | inl new ↦ absurd (ground arith)
            | inr before ↦
                still-IsConnected s.connections id p conn tid (λ same. ground arith)
                  (room.connected p before)
          ]
        ];
      }

      elsewhere :
          (k : TableId) (u : Table)
          → lookup k s.tables ≡ some u
          → IsRoom (insert id conn s.connections) s.next_player_id s.next_table_id k u
      elsewhere k u e =
          let other = v.rooms k u e in
          record {
            numbered = other.numbered;
            issued = other.issued;
            in_order = other.in_order;
            funded = other.funded;
            connected = λ p seat.
                still-IsConnected s.connections id p conn k
                  (λ same.
                    ground
                      (arith, found.strange k u e, seat, ap (λ i. lookup i u.players.index) same))
                  (other.connected p seat);
          }

      keeps_seat :
          (p : PlayerId) (c : Conn)
          → HasSeat s.tables c.table_id p
          → HasSeat (insert tid t' s.tables) c.table_id p
      keeps_seat p c (u, e, seat) = elim (Bool-cases (c.table_id == tid)) [
        | inl here ↦ (
          t',
          ground (arith, lookup-insert c.table_id tid t' s.tables),
          arrives.others p (
              ground (
                arith,
                found.at,
                e,
                seat,
                ap (λ i. lookup i s.tables) (eq_of_== c.table_id tid here),
              )),
        )
        | inr away ↦ (u, ground (arith, lookup-insert c.table_id tid t' s.tables, e), seat)
      ]

      newcomer :
          not (succeeds (add_player id t).0) ≡ false → HasSeat (insert tid t' s.tables) tid id
      newcomer seated =
          (t', ground (arith, lookup-insert tid tid t' s.tables), arrives.itself (ground arith))

-- Whoever connects, seated, refused by the table or by the server, the invariant of the server is kept, as
-- long as the identifiers do not wrap around.
pub handle_connect-IsServer :
    (env : ServerEnv) (s : Server) (cfd : ℕ)
    → IsServer s
    → s.next_player_id + 1 < u64_size
    → s.next_table_id + 1 < u64_size
    → IsServer (handle_connect env cfd s).2
unfolding handle_connect
handle_connect-IsServer env s cfd v ids tables =
    elim (Bool-cases (ltb max_connections (length (plugged_in cfd s).connections))) [
      | inl full ↦ rw (full, handle_connect) (plugged_in-IsServer s v cfd ids)
      | inr free ↦
          rw (free, handle_connect)
            (seat_player-IsServer cfd s.next_player_id _ _ _
              (find_table-IsFound env s v cfd ids tables))
    ]
