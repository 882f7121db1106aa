-- ===== src/Players.antt =====
-- engine/src/player.cc and engine/src/player_manager.cc: the players of a table and their seats.
-- A seat number indexes `seats`; writing past its end changes nothing here, and the invariant of
-- Players/Seating excludes it.
pub mod Seating
pub mod Purses
pub mod BuyIns
use poker_epoll.Base.{
  ℕ, zero, suc, ◌+◌, ◌-◌, List, [], ◌∷◌, ◌++◌, Option, none, some, Bool, true, false, not, length,
  get_elem?, set, replicate, contains, Map, lookup, lookup_or, touch, insert, erase, Outcome, done,
  fault, Expected, value, unexpected, ◌>>=◌, leb, ◌==◌, if◌then◌else◌, add64, sub64,
}
use poker_epoll.Rules.{PlayerId, Chips, buy_in, max_players}
use poker_epoll.Errors.{PlayerMgmtError, not_enough_seats, invalid_id, no_players}

pub record Player : Type 0 where
  pub id : PlayerId
  pub purse : Chips

-- `Player::Player`
abbrev pub new_player : PlayerId → Player
new_player id = record { id = id; purse = 0 }

unfoldable pub sufficient_chips : Chips → Player → Bool
sufficient_chips bet p = leb bet p.purse

-- `Player::add_chips`
unfoldable pub add_chips : Chips → Player → Player
add_chips chips p = record p { purse = add64 p.purse chips }

-- `Player::place_bet`
unfoldable pub take_chips : Chips → Player → Player
take_chips bet p = record p { purse = sub64 p.purse bet }

pub record PlayerManager : Type 0 where
  pub seats : List (Option Player)
  pub open_seats : List ℕ
  pub index : Map ℕ
  pub holding : List PlayerId

-- `std::iota`
abbrev pub iota : ℕ → ℕ → List ℕ
iota start zero = []
iota start (suc n) = start ∷ iota (start + 1) n

unfoldable pub new_manager : PlayerManager
new_manager = record {
  seats = replicate max_players none;
  open_seats = iota 0 max_players;
  index = [];
  holding = [];
}

abbrev pub take_seat :
    PlayerId → List ℕ → PlayerManager → Expected PlayerMgmtError (Unit {0}) × PlayerManager
take_seat id [] m = (unexpected not_enough_seats, m)
take_seat id (seat ∷ rest) m = (
  value tt,
  record m { open_seats = rest; holding = m.holding ++ id ∷ []; index = insert id seat m.index },
)

unfoldable pub add_player :
    PlayerId → PlayerManager → Expected PlayerMgmtError (Unit {0}) × PlayerManager
add_player id m = take_seat id m.open_seats m

-- `erase` of the first occurrence that `std::find` gives.
abbrev pub drop_first : PlayerId → List PlayerId → List PlayerId
drop_first id [] = []
drop_first id (x ∷ xs) = if x == id then xs else x ∷ drop_first id xs

abbrev pub give_up_seat : PlayerId → ℕ → PlayerManager → PlayerManager
give_up_seat id seat m =
    if contains id m.holding
    then record m {
      holding = drop_first id m.holding;
      open_seats = m.open_seats ++ seat ∷ [];
      index = erase id m.index;
    }
    else record m {
      seats = set m.seats seat none;
      open_seats = m.open_seats ++ seat ∷ [];
      index = erase id m.index;
    }

unfoldable pub remove_player :
    PlayerId → PlayerManager → Expected PlayerMgmtError (Unit {0}) × PlayerManager
remove_player id m = elim (lookup id m.index) [
  | none ↦ (unexpected invalid_id, m)
  | some seat ↦ (value tt, give_up_seat id seat m)
]

-- One round of `seat_held_players`: the front of `holding` sits down with the buy-in.
unfoldable pub seat_one : PlayerId → List PlayerId → PlayerManager → PlayerManager
unfolding add_chips
seat_one id rest m = record m {
  holding = rest;
  seats = set m.seats (lookup_or id 0 m.index) (some (add_chips buy_in (new_player id)));
  index = touch id 0 m.index;
}

unfoldable pub seat_all : List PlayerId → PlayerManager → PlayerManager
unfolding seat_one
seat_all [] m = m
seat_all (id ∷ rest) m = seat_all rest (seat_one id rest m)

unfoldable pub seat_held_players : PlayerManager → PlayerManager
unfolding seat_all
seat_held_players m = seat_all m.holding m

unfoldable pub first_seated : List (Option Player) → Expected PlayerMgmtError PlayerId
first_seated [] = unexpected no_players
first_seated (none ∷ seats) = first_seated seats
first_seated (some p ∷ seats) = value p.id

unfoldable pub get_first_player : PlayerManager → Expected PlayerMgmtError PlayerId
unfolding first_seated
get_first_player m = first_seated m.seats

-- The occupant of a seat; none for an empty seat.
abbrev pub occupant : List (Option Player) → ℕ → Option Player
occupant seats i = elim (get_elem? seats i) [ none ↦ none | some o ↦ o ]

-- The loop of `next_player`: `rounds` seats are left to check, and the next one is at `it`.
unfoldable pub next_from : List (Option Player) → PlayerId → ℕ → ℕ → PlayerId
next_from seats p zero it = p
next_from seats p (suc rounds) it =
    let j = if it == length seats then 0 else it in
    let rest = next_from seats p rounds (j + 1) in
    elim (occupant seats j) [ some q ↦ q.id | none ↦ rest ]

unfoldable pub next_player : PlayerId → PlayerManager → Expected PlayerMgmtError PlayerId
unfolding next_from
next_player p m = elim (lookup p m.index) [
  | none ↦ unexpected invalid_id
  | some seat ↦ value (next_from m.seats p (length m.seats) (seat + 1))
]

-- The loop of `active_cycle_from`, on fuel: without fuel the loop does not end.
unfoldable pub cycle_loop :
    ℕ
    → PlayerId
    → PlayerManager
    → Expected PlayerMgmtError PlayerId
    → List PlayerId
    → Outcome (List PlayerId)
unfolding next_player
cycle_loop zero start m nxt ordered = fault
cycle_loop (suc fuel) start m (unexpected e) ordered = done ordered
cycle_loop (suc fuel) start m (value p) ordered =
    let rest = cycle_loop fuel start m (next_player p m) (ordered ++ p ∷ []) in
    if p == start then done ordered else rest

-- One round for each seat, and one for the test that ends the loop.
unfoldable pub active_cycle_from : PlayerId → PlayerManager → Outcome (List PlayerId)
unfolding cycle_loop next_player
active_cycle_from start m = elim (lookup start m.index) [
  | none ↦ done []
  | some seat ↦
      if length m.seats == 0
      then done []
      else cycle_loop (length m.seats + 1) start m (next_player start m) (start ∷ [])
]

unfoldable pub num_players : PlayerManager → ℕ
num_players m = max_players - length m.open_seats

-- The player that `seats_[index_.at(id)]` finds, if it finds one.
abbrev pub seated : PlayerId → PlayerManager → Option Player
seated id m = elim (lookup id m.index) [ none ↦ none | some seat ↦ occupant m.seats seat ]

unfoldable pub is_sat : PlayerId → PlayerManager → Bool
is_sat id m = elim (seated id m) [ none ↦ false | some p ↦ true ]

unfoldable pub get_chips : PlayerId → PlayerManager → Outcome Chips
get_chips id m = elim (seated id m) [ none ↦ fault | some p ↦ done p.purse ]

unfoldable pub has_enough_chips : PlayerId → Chips → PlayerManager → Outcome Bool
unfolding sufficient_chips
has_enough_chips id bet m = elim (seated id m) [
  | none ↦ fault
  | some p ↦ done (sufficient_chips bet p)
]

-- The player `id` replaced by another value.
abbrev pub update_player : PlayerId → Player → PlayerManager → PlayerManager
update_player id p m = record m { seats = set m.seats (lookup_or id 0 m.index) (some p) }

unfoldable pub place_bet : PlayerId → Chips → PlayerManager → Outcome PlayerManager
unfolding take_chips
place_bet id bet m = elim (seated id m) [
  | none ↦ fault
  | some p ↦ done (update_player id (take_chips bet p) m)
]

unfoldable pub award_chips : PlayerId → Chips → PlayerManager → Outcome PlayerManager
unfolding add_chips
award_chips id amount m = elim (seated id m) [
  | none ↦ fault
  | some p ↦ done (update_player id (add_chips amount p) m)
]
