-- ===== src/Server/Invariant/Connecting/Places.antt =====
-- engine/src/server.cc, `handle_connect`: who is given a seat, and where.
use poker_epoll.Base.{
  ℕ, suc, ◌≤◌, ◌<◌, ◌≡◌, refl, ap, sym, ◌∙◌, ◌⊎◌, List, [], ◌∷◌, none, some, true, false, not,
  length, Map, lookup, lookup_or, has_key, insert, lookup-insert, arith, ltb, ◌==◌, Expected, value,
  unexpected, Option-cases, Bool-cases, inl, inr,
}
use poker_epoll.Rules.{PlayerId}
use poker_epoll.Errors.{Error, of_server, too_many_clients}
use poker_epoll.Players as Manager
use poker_epoll.Players.{num_players, new_manager}
use poker_epoll.Players.Seating.{Unique, length-insert_new}
use poker_epoll.Table.{Engine, dangling, Table, Event, new_table, player_added}
use poker_epoll.Table.Seats.{has_open_seat, add_player}
use poker_epoll.Server.{Conn, Server, ServerEnv, TableId, registered}
use poker_epoll.Server.Connections.{
  handle_connect, find_table, first_open, seat_player, max_connections, succeeds, widen,
}
use poker_epoll.Server.Invariant.{IsServer, HasSeat}
use poker_epoll.Server.Invariant.Connecting.{plugged_in}

-- An iteration over a map has its entries, each once.
abbrev pub Iterates : (Map Table → Map Table) → Type 0
Iterates order =
    (m : Map Table)
    → Unique m
    → Unique (order m) × ((k : TableId) → lookup k (order m) ≡ lookup k m)

lookup_later :
    (k id : TableId) (table t : Table) (rest : Map Table)
    → lookup id rest ≡ none
    → lookup k rest ≡ some t
    → lookup k ((id, table) ∷ rest) ≡ some t
lookup_later k id table t rest fresh found =
    ground (arith, fresh, found, λ (q : k ≡ id). ap (λ i. lookup i rest) q)

-- The loop finds a table with an open seat, if there is one.
first_open_cases :
    (m : Map Table)
    → Unique m
    → ((t : Table) × (lookup (first_open m) m ≡ some t) × (has_open_seat t ≡ true))
      ⊎ ((first_open m ≡ 0)
          × ((k : TableId) (t : Table) → lookup k m ≡ some t → has_open_seat t ≡ false))
unfolding first_open
first_open_cases [] u = inr (refl, λ k t e. absurd (ground (arith, e)))
first_open_cases ((id, table) ∷ rest) (fresh, u) = elim (Bool-cases (has_open_seat table)) [
  | inl free ↦
      let first : first_open ((id, table) ∷ rest) ≡ id = rw free refl in
      inl (table, ap (λ k. lookup k ((id, table) ∷ rest)) first ∙ ground arith, free)
  | inr full ↦ elim (first_open_cases rest u) [
    | inl (t, found, free) ↦
        let first : first_open ((id, table) ∷ rest) ≡ first_open rest = rw full refl in
        inl (
          t,
          ap (λ k. lookup k ((id, table) ∷ rest)) first
              ∙ lookup_later (first_open rest) id table t rest fresh found,
          free,
        )
    | inr (nowhere, all_full) ↦ inr (
      rw full nowhere,
      λ k t e. elim (Bool-cases (k == id)) [
        | inl here ↦ ground (arith, e, full)
        | inr away ↦ all_full k t (ground (arith, e))
      ],
    )
  ]
]

-- A table with an open seat takes the player.
add_player-seats :
    (id : PlayerId) (t : Table)
    → has_open_seat t ≡ true
    → ((add_player id t).0 ≡ value (player_added id))
      × (has_key id (add_player id t).1.players.index ≡ true)
unfolding has_open_seat num_players add_player Manager.add_player
add_player-seats id t free = takes t.players.open_seats refl
  where
    takes :
        (open_seats : List ℕ)
        → t.players.open_seats ≡ open_seats
        → ((add_player id t).0 ≡ value (player_added id))
          × (has_key id (add_player id t).1.players.index ≡ true)
    takes [] e = absurd (ground (arith, free, e))
    takes (seat ∷ rest) e = rw e (refl, ground (arith, lookup-insert id id seat t.players.index))

-- A table with an open seat that was there, or a new one if no other has any.
abbrev pub IsChoice : Server → TableId → Type 0
IsChoice s tid =
    ((t : Table) × (lookup tid s.tables ≡ some t) × (has_open_seat t ≡ true))
    ⊎ ((tid ≡ s.next_table_id)
        × ((k : TableId) (t : Table) → lookup k s.tables ≡ some t → has_open_seat t ≡ false))

-- What the search comes to.
abbrev Chosen : Server → TableId × Table × Server → Type 0
Chosen s (tid, t, s') = (has_open_seat t ≡ true) × IsChoice s tid

new_table_open : (rng : Engine) → has_open_seat (new_table rng) ≡ true
unfolding has_open_seat num_players new_table new_manager
new_table_open rng = refl

find_table-Chosen :
    (env : ServerEnv) (s : Server)
    → IsServer s
    → Iterates env.tables_order
    → (cfd : ℕ) → Chosen s (find_table env (plugged_in cfd s))
unfolding find_table
find_table-Chosen env s v order cfd =
    let (u, same) = order s.tables v.tables_unique in
    let tid = first_open (env.tables_order s.tables) in
    elim (first_open_cases (env.tables_order s.tables) u) [
      | inl (t, found, free) ↦
          let known : lookup tid s.tables ≡ some t = sym (same tid) ∙ found in
          rw (known, find_table) (free, inl (t, known, free))
      | inr (nowhere, all_full) ↦
          let closed : lookup tid s.tables ≡ none =
            ap (λ k. lookup k s.tables) nowhere ∙ no_table_0 in
          let unused : lookup s.next_table_id s.tables ≡ none = not_issued in
          rw (closed, find_table)
            (rw (unused, lookup_or)
              (new_table_open dangling, inr (refl, λ k t e. all_full k t (same k ∙ e))))
    ]
  where
    no_table_0 : lookup 0 s.tables ≡ none
    no_table_0 = elim (Option-cases (lookup 0 s.tables)) [
      | inl nowhere ↦ nowhere
      | inr (t, there) ↦ absurd (omega (arith, (v.rooms 0 t there).numbered))
    ]

    not_issued : lookup s.next_table_id s.tables ≡ none
    not_issued = elim (Option-cases (lookup s.next_table_id s.tables)) [
      | inl nowhere ↦ nowhere
      | inr (t, there) ↦ absurd (omega (arith, (v.rooms s.next_table_id t there).issued))
    ]

-- The new player, with a seat at a table that was chosen.
pub record Placed (s : Server) (r : PlayerId × Expected Error Event × Server) : Type 0 where
  pub reply : r.1 ≡ value (player_added s.next_player_id)
  pub conn : Conn
  pub connected : lookup s.next_player_id r.2.connections ≡ some conn
  pub alive : conn.is_dead ≡ false
  pub seat : HasSeat r.2.tables conn.table_id s.next_player_id
  pub choice : IsChoice s conn.table_id

-- The new player is turned away, and no table is touched.
pub record TurnedAway (s : Server) (r : PlayerId × Expected Error Event × Server) : Type 0 where
  pub reply : r.1 ≡ unexpected (of_server too_many_clients)
  pub conn : Conn
  pub connected : lookup s.next_player_id r.2.connections ≡ some conn
  pub dead : conn.is_dead ≡ true
  pub same_tables : r.2.tables ≡ s.tables

inserted : {V : Type 0} (k : ℕ) (e : V) (m : Map V) → lookup k (insert k e m) ≡ some e
inserted k e m = ground (arith, lookup-insert k k e m)

seat_player-Placed :
    (cfd : ℕ) (s : Server) (r : TableId × Table × Server)
    → Chosen s r
    → let placed = seat_player cfd s.next_player_id r in
      Placed s (s.next_player_id, placed.0, placed.1)
unfolding seat_player
seat_player-Placed cfd s (tid, t, s') (free, choice) =
    let id = s.next_player_id in
    let (reply, sits) = add_player-seats id t free in
    record {
      reply = ap widen reply;
      conn = record (registered cfd id) {
        table_id = tid;
        is_dead = not (succeeds (add_player id t).0);
      };
      connected = inserted id _ s'.connections;
      alive = ap (λ res. not (succeeds res)) reply;
      seat = ((add_player id t).1, inserted tid (add_player id t).1 s'.tables, sits);
      choice = choice;
    }

-- Whoever connects to a server in order, where an iteration over the tables has each of them once: below the
-- limit the new player is told that they were added, and is connected to a table with a seat there, one that
-- was there with an open seat, or a new one if no table had any; at the limit the new player is turned
-- away with that error, and no table is touched.
pub handle_connect-Placed :
    (env : ServerEnv) (cfd : ℕ) (s : Server)
    → IsServer s
    → Iterates env.tables_order
    → ((length s.connections < max_connections) × Placed s (handle_connect env cfd s))
      ⊎ ((max_connections ≤ length s.connections) × TurnedAway s (handle_connect env cfd s))
unfolding handle_connect
handle_connect-Placed env cfd s v order =
    let id = s.next_player_id in
    let fresh : lookup id s.connections ≡ none = newcomer in
    let one_more : length (plugged_in cfd s).connections ≡ suc (length s.connections) =
      length-insert_new id (registered cfd id) s.connections fresh in
    elim (Bool-cases (ltb max_connections (length (plugged_in cfd s).connections))) [
      | inl full ↦ inr (
        ground (arith, full, one_more),
        rw (full, handle_connect)
            (record {
              reply = refl;
              conn = registered cfd id;
              connected = inserted id (registered cfd id) s.connections;
              dead = refl;
              same_tables = refl;
            }),
      )
      | inr free ↦ inl (
        ground (arith, free, one_more),
        rw (free, handle_connect)
            (seat_player-Placed cfd s (find_table env (plugged_in cfd s))
              (find_table-Chosen env s v order cfd)),
      )
    ]
  where
    newcomer : lookup s.next_player_id s.connections ≡ none
    newcomer = elim (Option-cases (lookup s.next_player_id s.connections)) [
      | inl nobody ↦ nobody
      | inr (conn, known) ↦ absurd (omega (arith, (v.keyed s.next_player_id conn known).1))
    ]
