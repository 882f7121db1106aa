-- ===== src/Tests/Tables.antt =====
-- The tables, hands and environments of the tests, and that they satisfy the hypotheses.
use mathlib.Core.List.Perm
use poker_epoll.Base.{
  sym, ◌∙◌, done, sub64, ◌+◌, ◌≡◌, refl, List, [], ◌∷◌, map, sum, none, some, add64, lookup, arith,
  subst,
}
use poker_epoll.Cards.{Card, Rank, Suit}
use poker_epoll.Players as Manager
use poker_epoll.Players.Purses.{place_bet_lem}
use poker_epoll.Players.{
  place_bet, take_chips, Player, PlayerManager, new_manager, seat_held_players, is_sat, add_chips,
}
use poker_epoll.Players.Seating.{IsSeated}
use poker_epoll.Players.Seating.Changes.{
  new_manager-IsSeated, add_player-IsSeated, seat_held_players-IsSeated,
}
use poker_epoll.Table.{Table, HandState, PlayerState, Phase, live}
use poker_epoll.Table.Environment.{Env, IsLawful}
use poker_epoll.Table.Invariant.{IsHand}
use poker_epoll.Cards.Deck.{fresh}

-- Nothing is shuffled, a hand's rank is the sum of its characters, and maps keep their order.
abbrev pub plain : Env
plain = record {
  shuffler = λ g cards. (cards, g + 1);
  evaluate_cards = λ texts. sum (map sum texts);
  committed_order = λ m. m;
  holes_order = λ m. m;
}

pub plain-IsLawful : IsLawful plain
plain-IsLawful = record {
  shuffler_perm = λ g cards. Perm.refl cards;
  committed_perm = λ m. Perm.refl m;
  holes_perm = λ m. Perm.refl m;
}

-- Two players at the table, 1 and 2, with the chips they bought in for.
abbrev pub two_players : PlayerManager
two_players = record {
  seats =
      some (record { id = 1; purse = 1000 })
      ∷ some (record { id = 2; purse = 1000 })
      ∷ none
      ∷ none
      ∷ none
      ∷ none
      ∷ none
      ∷ none
      ∷ none
      ∷ none
      ∷ [];
  open_seats = 2 ∷ 3 ∷ 4 ∷ 5 ∷ 6 ∷ 7 ∷ 8 ∷ 9 ∷ [];
  index = (1, 0) ∷ (2, 1) ∷ [];
  holding = [];
}

-- They came one after the other, and were seated together.
abbrev pub one_held : PlayerManager
one_held = (Manager.add_player 1 new_manager).1

abbrev pub two_held : PlayerManager
two_held = (Manager.add_player 2 one_held).1

two_unknown : lookup 2 one_held.index ≡ none
unfolding Manager.add_player new_manager
two_unknown = refl

one_unknown : lookup 1 new_manager.index ≡ none
unfolding new_manager
one_unknown = refl

pub two_held-IsSeated : IsSeated two_held
two_held-IsSeated =
    add_player-IsSeated 2 one_held
      (add_player-IsSeated 1 new_manager new_manager-IsSeated one_unknown) two_unknown

two_held_seated : seat_held_players two_held ≡ two_players
unfolding Manager.add_player new_manager seat_held_players add_chips add64
two_held_seated = refl

pub two_players-IsSeated : IsSeated two_players
two_players-IsSeated =
    subst IsSeated two_held_seated (seat_held_players-IsSeated two_held two_held-IsSeated).0

abbrev pub board : List Card
board =
    record { rank = Rank.two; suit = Suit.clubs }
    ∷ record { rank = Rank.nine; suit = Suit.hearts }
    ∷ record { rank = Rank.ten; suit = Suit.spades }
    ∷ record { rank = Rank.four; suit = Suit.clubs }
    ∷ record { rank = Rank.six; suit = Suit.diamonds }
    ∷ []

abbrev pub hole_of_1 : List Card
hole_of_1 =
    record { rank = Rank.ace; suit = Suit.clubs }
    ∷ record { rank = Rank.ace; suit = Suit.hearts }
    ∷ []

abbrev pub hole_of_2 : List Card
hole_of_2 =
    record { rank = Rank.three; suit = Suit.clubs }
    ∷ record { rank = Rank.five; suit = Suit.hearts }
    ∷ []

-- The blinds are posted, and player 1 is to act.
abbrev pub after_blinds : HandState
after_blinds = record {
  phase = Phase.preflop;
  button = 1;
  active_bets = (1, 5) ∷ (2, 10) ∷ [];
  committed = (1, 5) ∷ (2, 10) ∷ [];
  previous_bet = 10;
  min_raise = 10;
  table_cards = board;
  player_holes = (1, hole_of_1) ∷ (2, hole_of_2) ∷ [];
  turn_queue = 1 ∷ 2 ∷ [];
  participants = 1 ∷ 2 ∷ [];
  player_state = (1, PlayerState.active) ∷ (2, PlayerState.active) ∷ [];
}

pub after_blinds-IsHand : IsHand two_players after_blinds
unfolding is_sat
after_blinds-IsHand = record {
  seating = two_players-IsSeated;
  entries = (refl, (refl, tt));
  bet_entries = (refl, (refl, tt));
  backed = λ id h. ground arith;
  in_play = λ id h. ground arith;
  covered = λ id. ground arith;
  solvent = omega arith;
}

abbrev pub heads_up : Table
heads_up = record {
  deck = fresh;
  rng = live 0;
  players = two_players;
  button = 1;
  hand_state = some after_blinds;
}

-- Player 2 is the last in the queue.
abbrev pub one_to_act : Table
one_to_act = record heads_up { hand_state = some (record after_blinds { turn_queue = 2 ∷ [] }) }

-- Nobody is in the queue.
abbrev pub stuck : Table
stuck = record heads_up { hand_state = some (record after_blinds { turn_queue = [] }) }

-- Player 1 has lost everything.
abbrev pub broke : PlayerManager
broke = record two_players {
  seats =
      some (record { id = 1; purse = 0 })
      ∷ some (record { id = 2; purse = 1000 })
      ∷ none
      ∷ none
      ∷ none
      ∷ none
      ∷ none
      ∷ none
      ∷ none
      ∷ none
      ∷ [];
}

lost_all : place_bet 1 1000 two_players ≡ done broke
unfolding place_bet take_chips sub64
lost_all = refl

pub broke-IsSeated : IsSeated broke
broke-IsSeated =
    let (m', placed, r) =
      place_bet_lem two_players 1 (record { id = 1; purse = 1000 }) two_players-IsSeated refl 1000
        (omega arith) (omega arith) in
    let e : m' ≡ broke = done_same m' broke (sym placed ∙ lost_all) in subst IsSeated e r.seating
  where
    done_same : (m n : PlayerManager) → done m ≡ done n → m ≡ n
    done_same m n e = cc

-- The player who had the button, 7, has left.
abbrev pub no_button : Table
no_button = record heads_up { button = 7; hand_state = none }
