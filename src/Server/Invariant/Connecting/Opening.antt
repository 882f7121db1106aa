-- ===== src/Server/Invariant/Connecting/Opening.antt =====
-- engine/src/server.cc, `handle_connect`: the search for a table, and a new table.
use poker_epoll.Base.{
  ℕ, ◌+◌, ◌*◌, ◌≤◌, ◌<◌, ◌≡◌, refl, ap, sym, subst, ◌≢◌, none, some, true, lookup, lookup_or,
  has_key, insert, touch, lookup-insert, insert_cases, arith, add64, add64_exact, u64_size,
  Option-cases, inl, inr,
}
use poker_epoll.Rules.{PlayerId, buy_in}
use poker_epoll.Players.{new_manager}
use poker_epoll.Players.Seating.Changes.{new_manager-IsSeated}
use poker_epoll.Players.Seating.{insert-Unique}
use poker_epoll.Table.{Engine, dangling, Table, new_table}
use poker_epoll.Table.Invariant.Settling.{IsTable}
use poker_epoll.Server.{Conn, Server, ServerEnv, TableId}
use poker_epoll.Server.Connections.{find_table, first_open}
use poker_epoll.Server.Invariant.{IsServer, IsRoom, HasSeat, funds}
use poker_epoll.Server.Invariant.Connecting.{plugged_in, stranger, plugged_in-IsServer}

new_table-IsTable : (rng : Engine) → IsTable (new_table rng) × (funds (new_table rng) ≡ 0)
unfolding new_table new_manager
new_table-IsTable rng = ((new_manager-IsSeated, omega arith), refl)

blank_seats : (rng : Engine) (p : ℕ) → has_key p (new_table rng).players.index ≢ true
unfolding new_table new_manager
blank_seats rng p e = cc

-- A table without players is opened.
abbrev opened : Engine → Server → Server
opened rng s = record s {
  next_table_id = add64 s.next_table_id 1;
  tables = insert s.next_table_id (new_table rng) s.tables;
}

module _ (s : Server) (v : IsServer s) (rng : Engine)
    (room_for_table : s.next_table_id + 1 < u64_size) where
  unissued : lookup s.next_table_id s.tables ≡ none
  unissued = elim (Option-cases (lookup s.next_table_id s.tables)) [
    | inl nowhere ↦ nowhere
    | inr (t, there) ↦ absurd (omega (arith, (v.rooms s.next_table_id t there).issued))
  ]

  opened-IsServer : IsServer (opened rng s)
  opened-IsServer =
      let next : add64 s.next_table_id 1 ≡ s.next_table_id + 1 =
        add64_exact s.next_table_id 1 room_for_table in
      let (blank, no_chips) = new_table-IsTable rng in
      record {
        unique = v.unique;
        tables_unique = insert-Unique s.next_table_id (new_table rng) s.tables v.tables_unique;
        counted = omega (arith, next);
        keyed = v.keyed;
        pending = v.pending;
        rooms = λ tid t e. elim (insert_cases tid s.next_table_id (new_table rng) t s.tables e) [
          | inl (here, same) ↦
              subst (IsRoom s.connections s.next_player_id (add64 s.next_table_id 1) tid) same
                (record {
                  numbered = omega (arith, here, v.counted);
                  issued = omega (arith, here, next);
                  in_order = blank;
                  funded = omega (arith, no_chips);
                  connected = λ p seat. absurd (blank_seats rng p seat);
                })
          | inr (away, other) ↦ later tid t next (v.rooms tid t other)
        ];
        alive = λ p c e living. still_seated p c (v.alive p c e living);
      }
    where
      later :
          (tid : TableId) (t : Table)
          → add64 s.next_table_id 1 ≡ s.next_table_id + 1
          → IsRoom s.connections s.next_player_id s.next_table_id tid t
          → IsRoom s.connections s.next_player_id (add64 s.next_table_id 1) tid t
      later tid t next room = record {
        numbered = room.numbered;
        issued = omega (arith, room.issued, next);
        in_order = room.in_order;
        funded = room.funded;
        connected = room.connected;
      }

      still_seated :
          (p : PlayerId) (c : Conn)
          → HasSeat s.tables c.table_id p
          → HasSeat (insert s.next_table_id (new_table rng) s.tables) c.table_id p
      still_seated p c (t, e, seat) = (
        t,
        ground (
          arith,
          lookup-insert c.table_id s.next_table_id (new_table rng) s.tables,
          e,
          unissued,
          λ (q : c.table_id ≡ s.next_table_id). ap (λ i. lookup i s.tables) q,
        ),
        seat,
      )

-- What the search for a table comes to: a table of a server that is in order, at which the new player
-- has no seat yet, and which can take one more buy-in.
pub record IsFound (id : PlayerId) (r : TableId × Table × Server) : Type 0 where
  pub server : IsServer r.2
  pub next : r.2.next_player_id ≡ id + 1
  pub at : lookup r.0 r.2.tables ≡ some r.1
  pub modest : funds r.1 ≤ buy_in * id
  pub strange :
      (tid : TableId) (t : Table)
      → lookup tid r.2.tables ≡ some t
      → lookup id t.players.index ≡ none

module _ (env : ServerEnv) (s : Server) (v : IsServer s) (cfd : ℕ)
    (room_for_id : s.next_player_id + 1 < u64_size)
    (room_for_table : s.next_table_id + 1 < u64_size) where
  -- Nobody with the new identifier has a seat, at a new table either.
  stranger_there :
      (tid : TableId) (t : Table)
      → lookup tid (opened dangling s).tables ≡ some t
      → lookup s.next_player_id t.players.index ≡ none
  unfolding new_table new_manager
  stranger_there tid t e =
      elim (insert_cases tid s.next_table_id (new_table dangling) t s.tables e) [
        | inl (here, same) ↦ ap (λ (u : Table). lookup s.next_player_id u.players.index) (sym same)
        | inr (away, other) ↦ stranger s v cfd room_for_id tid t other
      ]

  pub find_table-IsFound : IsFound s.next_player_id (find_table env (plugged_in cfd s))
  unfolding find_table
  find_table-IsFound =
      let next_player : add64 s.next_player_id 1 ≡ s.next_player_id + 1 =
        add64_exact s.next_player_id 1 room_for_id in
      let tid = first_open (env.tables_order s.tables) in
      let u = plugged_in-IsServer s v cfd room_for_id in
      elim (Option-cases (lookup tid s.tables)) [
        | inr (t, known) ↦
            rw (known, find_table)
              (record {
                server = u;
                next = next_player;
                at = known;
                modest = (v.rooms tid t known).funded;
                strange = stranger s v cfd room_for_id;
              })
        | inl closed ↦
            let new = unissued s v dangling room_for_table in
            rw (closed, find_table)
              (rw (new, lookup_or, touch)
                (record {
                  server = opened-IsServer (plugged_in cfd s) u dangling room_for_table;
                  next = next_player;
                  at = ground (
                    arith,
                    lookup-insert s.next_table_id s.next_table_id (new_table dangling) s.tables,
                  );
                  modest = omega (arith, (new_table-IsTable dangling).1);
                  strange = stranger_there;
                }))
      ]
