-- ===== src/Server/Invariant/Rooms.antt =====
-- engine/src/server.cc: what it does to a table that somebody comes or goes.
use poker_epoll.Base.{
  ℕ, ◌+◌, ◌≤◌, ◌≡◌, refl, ap, sym, subst, ◌∙◌, ◌≢◌, ◌⊎◌, List, [], ◌∷◌, ◌++◌, none, some, Bool,
  true, length, length-append, lookup, lookup-insert, has_key, contains, arith, erase, insert,
  Expected, value, unexpected, Option-cases, Bool-cases, inl, inr,
}
use poker_epoll.Rules.{PlayerId, buy_in}
use poker_epoll.Players as Manager
use poker_epoll.Players.{PlayerManager, give_up_seat, drop_first, take_seat}
use poker_epoll.Players.Seating.{lookup-erase}
use poker_epoll.Errors.{PlayerMgmtError, not_enough_seats}
use poker_epoll.Table.{Table, Event, player_added}
use poker_epoll.Table.Seats.{add_player, remove_player}
use poker_epoll.Table.Invariant.{money}
use poker_epoll.Table.Invariant.Settling.{IsTable, IsTableWith-IsSeated}
use poker_epoll.Table.Invariant.Arrivals.{
  remove_player-Leaves, add_player-IsTable, table_left, stranger-remains,
}
use poker_epoll.Server.Connections.{succeeds}
use poker_epoll.Server.Invariant.{funds}

pub record Departs (id : PlayerId) (t t' : Table) : Type 0 where
  pub in_order : IsTable t'
  pub kept_funds : funds t' ≤ funds t
  pub only :
      (pid : PlayerId)
      → has_key pid t'.players.index ≡ true
      → (pid ≢ id) × (has_key pid t.players.index ≡ true)
  pub others :
      (pid : PlayerId)
      → pid ≢ id
      → has_key pid t.players.index ≡ true
      → has_key pid t'.players.index ≡ true

length-drop_first : (id : PlayerId) (ids : List PlayerId) → length (drop_first id ids) ≤ length ids
length-drop_first id [] = omega arith
length-drop_first id (x ∷ ids) = ground (arith, length-drop_first id ids)

give_up_seat-index :
    (m : PlayerManager) (id seat : ℕ)
    → ((give_up_seat id seat m).index ≡ erase id m.index)
      × (length (give_up_seat id seat m).holding ≤ length m.holding)
give_up_seat-index m id seat = elim (Bool-cases (contains id m.holding)) [
  | inl held ↦ rw held (refl, length-drop_first id m.holding)
  | inr sat ↦ rw sat (refl, omega arith)
]

pub remove_player-Departs :
    (id : PlayerId) (t : Table) → IsTable t → Departs id t (remove_player id t).1
remove_player-Departs id t v =
    let (in_order, fewer) = remove_player-Leaves id t v in
    elim (Option-cases (lookup id t.players.index)) [
      | inl unknown ↦ subst (Departs id t) (sym (stranger-remains id t unknown)) (record {
        in_order = v;
        kept_funds = omega arith;
        only = λ pid seat.
            ((λ same. ground (arith, unknown, ap (λ i. lookup i t.players.index) same)), seat);
        others = λ pid other seat. seat;
      })
      | inr (seat, known) ↦ gone in_order fewer seat known
    ]
  where
    gone :
        IsTable (remove_player id t).1
        → money (remove_player id t).1 ≤ money t
        → (seat : ℕ) → lookup id t.players.index ≡ some seat
        → Departs id t (remove_player id t).1
    gone in_order fewer seat known =
        let e = table_left id seat t t.hand_state known refl in
        let seating = IsTableWith-IsSeated t.players t.hand_state v in
        let (index, shorter) = give_up_seat-index t.players id seat in
        let e_players : (remove_player id t).1.players ≡ give_up_seat id seat t.players =
          ap (λ u. u.players) e in
        let e_index = ap (λ (m : PlayerManager). m.index) e_players ∙ index in
        let e_holding : length (remove_player id t).1.players.holding
            ≡ length (give_up_seat id seat t.players).holding =
          ap {B = ℕ} (λ (m : PlayerManager). length m.holding) e_players in
        record {
          in_order = in_order;
          kept_funds = omega (arith, fewer, e_holding, shorter);
          only = λ pid here.
              let at =
                ap (lookup pid) e_index ∙ lookup-erase pid id t.players.index seating.unique in
              (ground (arith, at), ground (arith, at));
          others = λ pid other here.
              let at =
                ap (lookup pid) e_index ∙ lookup-erase pid id t.players.index seating.unique in
              ground (arith, at);
        }

pub record Arrives (id : PlayerId) (t t' : Table) (seated : Bool) : Type 0 where
  pub in_order : IsTable t'
  pub brought : funds t' ≤ funds t + buy_in
  pub only :
      (pid : PlayerId)
      → has_key pid t'.players.index ≡ true
      → (pid ≡ id) ⊎ (has_key pid t.players.index ≡ true)
  pub others :
      (pid : PlayerId) → has_key pid t.players.index ≡ true → has_key pid t'.players.index ≡ true
  pub itself : seated ≡ true → has_key id t'.players.index ≡ true

table_full :
    (id : PlayerId) (t : Table)
    → t.players.open_seats ≡ []
    → add_player id t ≡ (unexpected not_enough_seats, t)
unfolding add_player Manager.add_player
table_full id t e = ground (arith, e)

-- The table at which the player has got a seat, and is held.
abbrev with_player : PlayerId → ℕ → List ℕ → Table → Table
with_player id seat rest t = record t {
  players = record t.players {
    open_seats = rest;
    holding = t.players.holding ++ id ∷ [];
    index = insert id seat t.players.index;
  };
}

table_open :
    (id seat : ℕ) (rest : List ℕ) (t : Table)
    → t.players.open_seats ≡ seat ∷ rest
    → add_player id t ≡ (value (player_added id), with_player id seat rest t)
unfolding add_player Manager.add_player
table_open id seat rest t e = ground (arith, e)

abbrev Arrived : PlayerId → Table → Expected PlayerMgmtError Event × Table → Type 0
Arrived id t r = Arrives id t r.1 (succeeds r.0)

-- Whoever comes to a table that is in order leaves it in order, with one buy-in more at most; the
-- seats of the others stay, and one who was told so has a seat.
pub add_player-Arrives :
    (id : PlayerId) (t : Table)
    → IsTable t
    → lookup id t.players.index ≡ none
    → Arrived id t (add_player id t)
add_player-Arrives id t v fresh = arrive t.players.open_seats refl
  where
    arrive : (seats : List ℕ) → t.players.open_seats ≡ seats → Arrived id t (add_player id t)
    arrive [] e = subst (Arrived id t) (sym (table_full id t e)) (record {
      in_order = v;
      brought = omega arith;
      only = λ pid here. inr here;
      others = λ pid here. here;
      itself = λ h. cc;
    })
    arrive (seat ∷ rest) e =
        let ok = table_open id seat rest t e in
        subst (Arrived id t) (sym ok) (record {
          in_order =
              subst (λ (r : Expected PlayerMgmtError Event × Table). IsTable r.1) ok
                (add_player-IsTable id t v fresh);
          brought = omega (arith, length-append t.players.holding (id ∷ []));
          only = λ pid here. ground (arith, lookup-insert pid id seat t.players.index);
          others = λ pid here. ground (arith, lookup-insert pid id seat t.players.index);
          itself = λ h. ground (arith, lookup-insert id id seat t.players.index);
        })
