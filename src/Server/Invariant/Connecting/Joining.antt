-- ===== src/Server/Invariant/Connecting/Joining.antt =====
-- engine/src/server.cc, `handle_connect`: the connection that is new, and those that were there.
use poker_epoll.Base.{
  ℕ, ◌+◌, ◌≤◌, ◌≡◌, ◌≢◌, refl, ap, ◌∙◌, none, some, true, Map, lookup, lookup-insert, has_key,
  insert, arith, add64, Option-cases, Bool-cases, inl, inr, ltb, length, sym, ◌==◌, eq_of_==,
}
use poker_epoll.Rules.{PlayerId}
use poker_epoll.Server.{Conn, Server, ServerEnv, registered}
use poker_epoll.Server.Connections.{
  handle_connect, find_table, first_open, seat_player, max_connections,
}
use poker_epoll.Server.Invariant.Connecting.{plugged_in}
use poker_epoll.Server.Invariant.Traffic.{AllHear}

-- The player is connected and epoll is asked to tell when its socket can be written; the others
-- are as they were.
pub record Joins (pid : PlayerId) (m m' : Map Conn) : Type 0 where
  pub conn : Conn
  pub here : lookup pid m' ≡ some conn
  pub asks : conn.wants_write ≡ true
  pub others : (p : PlayerId) → p ≢ pid → lookup p m' ≡ lookup p m

insert-Joins :
    (pid : PlayerId) (m m' : Map Conn) (conn : Conn)
    → ((p : PlayerId) → p ≢ pid → lookup p m' ≡ lookup p m)
    → conn.wants_write ≡ true
    → Joins pid m (insert pid conn m')
insert-Joins pid m m' conn same asks = record {
  conn = conn;
  here = ground (arith, lookup-insert pid pid conn m');
  asks = asks;
  others = λ p other. ground (arith, lookup-insert p pid conn m', other) ∙ same p other;
}

pub Joins-AllHear :
    (pid : PlayerId) (m m' : Map Conn) → Joins pid m m' → AllHear none m → AllHear none m'
Joins-AllHear pid m m' j h p c e away = elim (Bool-cases (p == pid)) [
  | inl new ↦
      let same : j.conn ≡ c =
        ground (arith, j.here, e, ap (λ i. lookup i m') (eq_of_== p pid new)) in
      inr (ap (λ (d : Conn). d.wants_write) (sym same) ∙ j.asks)
  | inr old ↦ h p c (sym (j.others p (λ k. ground (arith, k))) ∙ e) away
]

pub Joins-has_key :
    (pid : PlayerId) (m m' : Map Conn)
    → Joins pid m m'
    → (p : PlayerId) → has_key p m ≡ true
    → has_key p m' ≡ true
Joins-has_key pid m m' j p h = elim (Bool-cases (p == pid)) [
  | inl new ↦ ground (arith, j.here, ap (λ i. lookup i m') (eq_of_== p pid new))
  | inr old ↦ ground (arith, j.others p (λ k. ground (arith, k)), h)
]

-- The server after the search for a table, but for its tables, is the server before.
find_table-connections :
    (env : ServerEnv) (s : Server)
    → ((find_table env s).2.connections ≡ s.connections)
      × ((find_table env s).2.next_player_id ≡ s.next_player_id)
      × ((find_table env s).2.next_table_id ≤ s.next_table_id + 1)
unfolding find_table add64
find_table-connections env s =
    elim (Option-cases (lookup (first_open (env.tables_order s.tables)) s.tables)) [
      | inl closed ↦ rw (closed, find_table) (refl, refl, omega arith)
      | inr (t, known) ↦ rw (known, find_table) (refl, refl, omega arith)
    ]

-- The player who has connected.
pub record IsNew (env : ServerEnv) (cfd : ℕ) (s : Server) : Type 0 where
  pub name : (handle_connect env cfd s).0 ≡ s.next_player_id
  pub joins : Joins s.next_player_id s.connections (handle_connect env cfd s).2.connections
  pub next_player : (handle_connect env cfd s).2.next_player_id ≡ add64 s.next_player_id 1
  pub next_table : (handle_connect env cfd s).2.next_table_id ≤ s.next_table_id + 1

pub handle_connect-IsNew : (env : ServerEnv) (cfd : ℕ) (s : Server) → IsNew env cfd s
unfolding handle_connect seat_player
handle_connect-IsNew env cfd s =
    let pid = s.next_player_id in
    let plugged =
      insert-Joins pid s.connections s.connections (registered cfd pid) (λ p other. refl) refl in
    elim (Bool-cases (ltb max_connections (length (plugged_in cfd s).connections))) [
      | inl full ↦ record {
        name = rw (full, handle_connect) refl;
        joins = rw (full, handle_connect) plugged;
        next_player = rw (full, handle_connect) refl;
        next_table = rw (full, handle_connect) (omega arith);
      }
      | inr free ↦
          let (same, next, one_more) = find_table-connections env (plugged_in cfd s) in
          record {
            name = rw (free, handle_connect) refl;
            joins =
                rw (free, handle_connect)
                  (insert-Joins pid s.connections _ _
                    (λ p other. ap (lookup p) same ∙ plugged.others p other) refl);
            next_player = rw (free, handle_connect) next;
            next_table = rw (free, handle_connect) one_more;
          }
    ]
