-- ===== src/Table/Streets.antt =====
-- engine/src/table.cc: from one street to the next, and the rest of the board at once.
pub mod Opening
pub mod Queue
pub mod Reveal
use poker_epoll.Base.{
  ℕ, zero, suc, ◌+◌, List, [], ◌∷◌, ◌++◌, map, take, get_or, Option, none, some, Map, Outcome, done,
  fault, Expected, value, unexpected,
}
use poker_epoll.Rules.{PlayerId, Chips, flop_size, big_blind}
use poker_epoll.Errors.{GameError, invalid_action}
use poker_epoll.Cards.{Card, blank_card}
use poker_epoll.Table.{
  Phase, holding, preflop, flop, turn, river, showdown, HandState, Event, phase_advanced,
  dealt_flop, dealt_street,
}
use poker_epoll.Table.Turns.{prune_turn_queue, first_active_after, build_turn_queue, announce}

-- The two switches over the phase: none where the source returns.
unfoldable pub next_phase : Phase → Option Phase
next_phase preflop = some flop
next_phase flop = some turn
next_phase turn = some river
next_phase river = none
next_phase showdown = none
next_phase holding = none

-- The events for the phase that begins, with its cards of the board.
unfoldable pub street_events : Phase → List Card → List Event
street_events flop board = phase_advanced flop ∷ dealt_flop (take flop_size board) ∷ []
street_events turn board =
    phase_advanced turn ∷ dealt_street (get_or board flop_size blank_card) ∷ []
street_events river board =
    phase_advanced river ∷ dealt_street (get_or board (flop_size + 1) blank_card) ∷ []
street_events next board = phase_advanced next ∷ []

abbrev pub clear_bets : Map Chips → Map Chips
clear_bets m = map (λ e. (e.0, 0)) m

-- The hand with the bets of the last street put away.
unfoldable pub open_street : Phase → HandState → HandState
open_street next h = record h {
  phase = next;
  active_bets = clear_bets h.active_bets;
  previous_bet = 0;
  min_raise = big_blind;
}

-- The queue of the new street: from the first active player after the button.
unfoldable pub seat_street : HandState → HandState
seat_street h = elim (first_active_after h.button h) [
  | none ↦ prune_turn_queue (record h { turn_queue = [] })
  | some start ↦ prune_turn_queue (record h { turn_queue = build_turn_queue start h })
]

-- `Table::handle_new_street`
unfoldable pub handle_new_street : HandState → Expected GameError (List Event) × HandState
handle_new_street h = elim (next_phase h.phase) [
  | none ↦ (unexpected invalid_action, h)
  | some next ↦
      let h' = seat_street (open_street next h) in
      (value (announce h'.turn_queue (street_events next h.table_cards)), h')
]

-- The loop of `reveal_remaining_board`, on fuel: without fuel it does not end.
unfoldable pub reveal_loop : ℕ → List Event → HandState → Outcome (List Event × HandState)
reveal_loop zero events h = fault
reveal_loop (suc fuel) events h = elim (next_phase h.phase) [
  | none ↦ done (events, h)
  | some next ↦
      reveal_loop fuel (events ++ street_events next h.table_cards) (record h { phase = next })
]

unfoldable pub reveal_remaining_board : List Event → HandState → Outcome (List Event × HandState)
reveal_remaining_board events h = reveal_loop 4 events h
