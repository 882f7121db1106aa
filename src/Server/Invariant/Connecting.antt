-- ===== src/Server/Invariant/Connecting.antt =====
-- engine/src/server.cc, `handle_connect`: the invariant of the server is kept.
pub mod Joining
pub mod Opening
pub mod Places
pub mod Seated
use mathlib.Core.Path.{subst₂}
use poker_epoll.Base.{
  ℕ, suc, ◌+◌, ◌*◌, ◌≤◌, ◌<◌, ◌≡◌, refl, ap, sym, subst, ◌∙◌, ◌≢◌, ◌⊎◌, List, [], ◌∷◌, Option, none,
  some, Bool, true, false, not, length, Map, lookup, lookup_or, has_key, insert, touch,
  lookup-insert, insert_cases, arith, add64, add64_exact, u64_size, ltb, ◌==◌, if◌then◌else◌,
  Expected, value, unexpected, Option-cases, Bool-cases, inl, inr, eq_of_==,
}
use poker_epoll.Rules.{PlayerId, buy_in}
use poker_epoll.Players.{new_manager}
use poker_epoll.Players.Seating.{Unique, insert-Unique}
use poker_epoll.Players.Seating.Changes.{new_manager-IsSeated}
use poker_epoll.Frames.Pending.{IsPending}
use poker_epoll.Table.{Table, new_table}
use poker_epoll.Table.Invariant.Settling.{IsTable}
use poker_epoll.Table.Seats.{add_player}
use poker_epoll.Server.{Conn, Server, ServerEnv, TableId, registered}
use poker_epoll.Server.Connections.{
  handle_connect, find_table, first_open, seat_player, max_connections, succeeds,
}
use poker_epoll.Server.Invariant.{IsServer, IsRoom, IsConnected, HasSeat, funds}
use poker_epoll.Server.Invariant.Rooms.{Arrives, add_player-Arrives}

pub still-IsConnected :
    (connections : Map Conn) (id pid : PlayerId) (conn : Conn) (tid : TableId)
    → pid ≢ id
    → IsConnected connections pid tid
    → IsConnected (insert id conn connections) pid tid
still-IsConnected connections id pid conn tid other (c, e, at) =
    (c, ground (arith, lookup-insert pid id conn connections), at)

-- The connection with the identifier `next_player_id` is there, and the identifier is used up.
abbrev pub plugged_in : ℕ → Server → Server
plugged_in cfd s = record s {
  next_player_id = add64 s.next_player_id 1;
  connections = insert s.next_player_id (registered cfd s.next_player_id) s.connections;
}

module _ (s : Server) (v : IsServer s) (cfd : ℕ)
    (room_for_id : s.next_player_id + 1 < u64_size) where
  pub nobody_yet : (conn : Conn) → lookup s.next_player_id s.connections ≢ some conn
  nobody_yet conn e = omega (arith, (v.keyed s.next_player_id conn e).1)

  -- Nobody with the new identifier has a seat.
  pub stranger :
      (tid : TableId) (t : Table)
      → lookup tid s.tables ≡ some t
      → lookup s.next_player_id t.players.index ≡ none
  stranger tid t e = elim (Option-cases (lookup s.next_player_id t.players.index)) [
    | inl unknown ↦ unknown
    | inr (seat, known) ↦
        let (c, found, at) = (v.rooms tid t e).connected s.next_player_id (ground arith) in
        absurd (nobody_yet c found)
  ]

  pub plugged_in-IsServer : IsServer (plugged_in cfd s)
  plugged_in-IsServer =
      let next : add64 s.next_player_id 1 ≡ s.next_player_id + 1 =
        add64_exact s.next_player_id 1 room_for_id in
      record {
        unique =
            insert-Unique s.next_player_id (registered cfd s.next_player_id) s.connections v.unique;
        tables_unique = v.tables_unique;
        counted = v.counted;
        keyed = λ p c e.
            elim (insert_cases p s.next_player_id (registered cfd s.next_player_id) c s.connections
              e) [
                | inl (here, same) ↦ (
                  ap (λ (d : Conn). d.player_id) (sym same) ∙ sym here,
                  omega (arith, next, here),
                )
                | inr (away, other) ↦
                    ((v.keyed p c other).0, omega (arith, next, (v.keyed p c other).1))
              ];
        pending = λ p c e.
            elim (insert_cases p s.next_player_id (registered cfd s.next_player_id) c s.connections
              e) [
                | inl (here, same) ↦ subst (λ (d : Conn). IsPending d.input) same (inl (refl, refl))
                | inr (away, other) ↦ v.pending p c other
              ];
        rooms = λ tid t e.
            let room = v.rooms tid t e in
            record {
              numbered = room.numbered;
              issued = room.issued;
              in_order = room.in_order;
              funded = omega (arith, room.funded, next);
              connected = λ p seat.
                  still-IsConnected s.connections s.next_player_id p
                    (registered cfd s.next_player_id) tid
                    (λ same.
                      ground
                        (arith, stranger tid t e, seat, ap (λ i. lookup i t.players.index) same))
                    (room.connected p seat);
            };
        alive = λ p c e living.
            elim (insert_cases p s.next_player_id (registered cfd s.next_player_id) c s.connections
              e) [
                | inl (here, same) ↦ absurd (ground (arith, ap (λ (d : Conn). d.is_dead) same))
                | inr (away, other) ↦ v.alive p c other living
              ];
      }
