-- ===== src/Server/Invariant.antt =====
-- The invariant of the server of engine/src/server.cc: its tables are in order, whoever is at a table
-- has a connection to it, and no chips come from anywhere but a buy-in.
pub mod Actions
pub mod Comings
pub mod Connecting
pub mod Engines
pub mod Handling
pub mod Pushes
pub mod Reading
pub mod Replies
pub mod Rooms
pub mod Running
pub mod Traffic
pub mod Writing
use mathlib.Core.Path.{subst₂}
use poker_epoll.Base.{
  sym, insert_cases, ℕ, ◌+◌, ◌*◌, ◌≤◌, ◌<◌, ◌≡◌, refl, ap, ◌∙◌, ◌≢◌, Option, none, some, Bool, true,
  false, length, Map, lookup, has_key, insert, lookup-insert, ◌==◌, if◌then◌else◌, arith,
  Option-cases, Bool-cases, inl, inr,
}
use poker_epoll.Rules.{PlayerId, Chips, buy_in}
use poker_epoll.Players.Seating.{Unique, insert-Unique}
use poker_epoll.Frames.Pending.{IsPending}
use poker_epoll.Table.{Table}
use poker_epoll.Table.Invariant.{money}
use poker_epoll.Table.Invariant.Settling.{IsTable, Settles}
use poker_epoll.Table.Invariant.NewHands.{Deals}
use poker_epoll.Server.{Conn, Server, TableId}

-- The chips of a table, with those that its players will bring.
abbrev pub funds : Table → Chips
funds t = money t + buy_in * length t.players.holding

-- The player has a connection, and its table is `tid`.
abbrev pub IsConnected : Map Conn → PlayerId → TableId → Type 0
IsConnected connections pid tid =
    (conn : Conn) × (lookup pid connections ≡ some conn) × (conn.table_id ≡ tid)

-- The table is there, and the player has a seat at it.
abbrev pub HasSeat : Map Table → TableId → PlayerId → Type 0
HasSeat tables tid pid =
    (t : Table) × (lookup tid tables ≡ some t) × (has_key pid t.players.index ≡ true)

-- A table of the server is in order. Every buy-in is the buy-in of one who has connected, and who has
-- a seat is connected to the table.
pub record IsRoom (connections : Map Conn) (next_player : PlayerId) (next_table tid : TableId)
    (t : Table) : Type 0 where
  pub numbered : 0 < tid
  pub issued : tid < next_table
  pub in_order : IsTable t
  pub funded : funds t ≤ buy_in * next_player
  pub connected :
      (pid : PlayerId) → has_key pid t.players.index ≡ true → IsConnected connections pid tid

pub record IsServer (s : Server) : Type 0 where
  pub unique : Unique s.connections
  pub tables_unique : Unique s.tables
  pub counted : 0 < s.next_table_id
  pub keyed :
      (pid : PlayerId) (conn : Conn)
      → lookup pid s.connections ≡ some conn
      → (conn.player_id ≡ pid) × (pid < s.next_player_id)
  -- The parser of every connection is in a state between two reads.
  pub pending :
      (pid : PlayerId) (conn : Conn) → lookup pid s.connections ≡ some conn → IsPending conn.input
  pub rooms :
      (tid : TableId) (t : Table)
      → lookup tid s.tables ≡ some t
      → IsRoom s.connections s.next_player_id s.next_table_id tid t
  -- A connection that is alive has a seat.
  pub alive :
      (pid : PlayerId) (conn : Conn)
      → lookup pid s.connections ≡ some conn
      → conn.is_dead ≡ false
      → HasSeat s.tables conn.table_id pid

-- What a hand makes of a table: it is in order, its seats are given out as before, and no chips come
-- from anywhere.
pub record Advances (t t' : Table) : Type 0 where
  pub table : IsTable t'
  pub same_index : t'.players.index ≡ t.players.index
  pub kept_funds : funds t' ≤ funds t

pub Settles-Advances : (t t' : Table) → Settles t t' → Advances t t'
Settles-Advances t t' s = record {
  table = s.table;
  same_index = s.players.same_index;
  kept_funds =
      let same : length t'.players.holding ≡ length t.players.holding =
        ap {B = ℕ} (λ ids. length ids) s.players.same_holding in
      omega (arith, s.made_none, same);
}

pub Deals-Advances : (t t' : Table) → Deals t t' → Advances t t'
Deals-Advances t t' d = record {
  table = d.table;
  same_index = d.same_index;
  kept_funds = d.bought_in;
}

-- A seat at a table is a seat after a table was put back that gives out the same seats.
seat_stays :
    (tables : Map Table) (tid k : TableId) (t t' : Table) (pid : PlayerId)
    → lookup tid tables ≡ some t
    → t'.players.index ≡ t.players.index
    → HasSeat tables k pid
    → HasSeat (insert tid t' tables) k pid
seat_stays tables tid k t t' pid known same (u, e, seat) = elim (Bool-cases (k == tid)) [
  | inl here ↦ (
    t',
    ground (arith, lookup-insert k tid t' tables),
    ground (arith, known, e, ap (has_key pid) same, λ (q : k ≡ tid). ap (λ i. lookup i tables) q),
  )
  | inr away ↦ (u, ground (arith, lookup-insert k tid t' tables, e), seat)
]

-- A table that a hand has advanced is put back.
pub put_back-IsServer :
    (s : Server) (tid : TableId) (t t' : Table)
    → IsServer s
    → lookup tid s.tables ≡ some t
    → Advances t t'
    → IsServer (record s { tables = insert tid t' s.tables })
put_back-IsServer s tid t t' v known a = record {
  unique = v.unique;
  tables_unique = insert-Unique tid t' s.tables v.tables_unique;
  counted = v.counted;
  keyed = v.keyed;
  pending = v.pending;
  rooms = λ k u e. elim (insert_cases k tid t' u s.tables e) [
    | inl (here, same) ↦
        subst₂ (IsRoom s.connections s.next_player_id s.next_table_id) (sym here) same advanced
    | inr (away, other) ↦ v.rooms k u other
  ];
  alive = λ pid conn e living.
      seat_stays s.tables tid conn.table_id t t' pid known a.same_index (v.alive pid conn e living);
}
  where
    room : IsRoom s.connections s.next_player_id s.next_table_id tid t
    room = v.rooms tid t known

    advanced : IsRoom s.connections s.next_player_id s.next_table_id tid t'
    advanced = record {
      numbered = room.numbered;
      issued = room.issued;
      in_order = a.table;
      funded = omega (arith, room.funded, a.kept_funds);
      connected = λ pid seat. room.connected pid (ap (has_key pid) (sym a.same_index) ∙ seat);
    }
