-- ===== src/Tests.antt =====
-- Concrete tables and runs: the witnesses of the theorems, and tests.
pub mod Tables
pub mod Servers
pub mod Programs
pub mod Hands
use poker_epoll.Base.{
  take, drop, lookup, ◌≢◌, ℕ, zero, suc, ◌+◌, ◌-◌, ◌≡◌, ◌<◌, ◌≤◌, refl, List, [], ◌∷◌, ◌++◌, All,
  length, keep_if, none, some, Bool, true, false, total, Outcome, done, fault, Expected, value,
  unexpected, Returns, arith, ◌==◌, Map, u64_size,
}
use poker_epoll.Players as Manager
use poker_epoll.Players.{
  Player, PlayerManager, place_bet, active_cycle_from, seat_held_players, is_sat,
}
use poker_epoll.Players.Seating.{IsSeated}
use poker_epoll.Players.Seating.Changes.{
  add_player-IsSeated, remove_player-IsSeated, seat_held_players-IsSeated,
}
use poker_epoll.Players.Seating.Rounds.{active_cycle_from_lem, sitters}
use poker_epoll.Players.Purses.{purses, Repursed, place_bet_lem, award_chips_lem}
use poker_epoll.Table.{live, Table, Action, Round, HandState, SidePot, PlayerState, Phase}
use poker_epoll.Table.Bets.Broke.{handle_bet_broke}
use poker_epoll.Table.Hands.Button.{handle_new_hand_button}
use poker_epoll.Table.Hands.{handle_new_hand}
use poker_epoll.Errors.{bet_too_low}
use poker_epoll.Players.{num_players}
use poker_epoll.Table.Invariant.Arrivals.{Leaves, remove_player-Leaves, add_player-IsTable}
use poker_epoll.Table.Invariant.Blinds.{post_blind-Keeps}
use poker_epoll.Table.Hands.Dealing.{handed, deal_cards_lem}
use poker_epoll.Table.Hands.{deal_cards}
use poker_epoll.Table.Bets.{post_blind}
use poker_epoll.Table.Seats.{add_player}
use poker_epoll.Cards.{Rank, Suit}
use poker_epoll.Cards.Deck.{fresh}
use poker_epoll.Table.Pots.{build_side_pots, total_committed}
use poker_epoll.Table.Pots.Layers.{pot_sum}
use poker_epoll.Table.Pots.Stakes.{stake, total_up_to}
use poker_epoll.Table.Pots.Sums.{pot_sum-build_side_pots, total_committed_lem}
use poker_epoll.Table.Pots.Fairness.{stake-build_side_pots}
use poker_epoll.Table.Showdown.{winners, distribute_side_pots, pay_pots}
use poker_epoll.Table.Showdown.Winners.{winners_lem, winners_some, unbeaten, strength}
use poker_epoll.Table.Showdown.Payments.{Paid, payable_sum, pay_pots-Paid}
use poker_epoll.Table.Streets.{reveal_remaining_board}
use poker_epoll.Table.Streets.Reveal.{reveal_remaining_board_lem, told_from}
use poker_epoll.Table.Bets.{handle_bet, handle_fold, handle_timeout}
use poker_epoll.Table.Invariant.{IsHand}
use poker_epoll.Table.Showdown.Shares.{Gains, won_by}
use poker_epoll.Table.Turns.{build_turn_queue, is_active}
use poker_epoll.Table.Turns.Rings.{build_turn_queue_lem}
use poker_epoll.Table.Invariant.Distribution.{
  distribute_side_pots-Gains, distribute_side_pots-Paid, unpaid,
}
use poker_epoll.Table.Invariant.Bets.{Handles, handle_fold-Keeps, handle_timeout-Handles}
use poker_epoll.Table.Invariant.Keeping.{Keeps}
use poker_epoll.Table.Actions.{on_action}
use poker_epoll.Table.Seats.{remove_player}
use poker_epoll.Table.Stalls.{
  new_hand, IsStalled, Call, join, leave, play, calls, calls-Stalled, remove_player-stalls,
}
use poker_epoll.Frames.{htonl, frame, try_parse_frame}
use poker_epoll.Frames.RoundTrip.{
  idle, try_parse_frame-frame, try_parse_frame-part, try_parse_frame_overflow,
}
use poker_epoll.Table.Invariant.Actions.{on_action-Settles}
use poker_epoll.Table.Invariant.Settling.{Settles, IsTable}
use poker_epoll.Table.Invariant.Wagers.{Wagered, handle_bet-Wagers}
use poker_epoll.Tests.Tables.{
  hole_of_1, hole_of_2, broke, broke-IsSeated, no_button, plain, plain-IsLawful, one_held, two_held,
  two_held-IsSeated, two_players, two_players-IsSeated, after_blinds, after_blinds-IsHand, heads_up,
  one_to_act, stuck,
}

on_action-Settles_example :
    Returns (λ s. Settles heads_up s.1) (on_action plain (Action.bet 1 40) heads_up)
on_action-Settles_example =
    on_action-Settles plain (Action.bet 1 40) heads_up plain-IsLawful after_blinds-IsHand

abbrev round : Round
round = record { players = two_players; hand = after_blinds }

handle_bet-Wagers_example :
    Returns
      (λ s. Keeps round s.1 × Wagered 1 (record { id = 1; purse = 1000 }) 40 round s)
      (handle_bet 1 40 round)
handle_bet-Wagers_example =
    handle_bet-Wagers two_players after_blinds 1 (record { id = 1; purse = 1000 }) 40
      after_blinds-IsHand refl refl

distribute_side_pots-Paid_example :
    (pots : List SidePot) × (build_side_pots plain after_blinds ≡ done pots)
    × Paid two_players (payable_sum pots) (distribute_side_pots plain after_blinds [] two_players)
    × (payable_sum pots + unpaid pots ≡ total after_blinds.committed)
distribute_side_pots-Paid_example =
    distribute_side_pots-Paid two_players after_blinds after_blinds-IsHand plain [] plain-IsLawful

stake-build_side_pots_example :
    (pots : List SidePot) × (build_side_pots plain after_blinds ≡ done pots)
    × (stake 1 pots ≡ total_up_to 5 after_blinds.committed)
stake-build_side_pots_example =
    stake-build_side_pots plain plain-IsLawful after_blinds 1 5 (refl, (refl, tt)) (omega arith)
      refl (omega arith) refl

pot_sum-build_side_pots_example :
    (pots : List SidePot) × (build_side_pots plain after_blinds ≡ done pots)
    × (pot_sum pots ≡ total after_blinds.committed)
pot_sum-build_side_pots_example =
    pot_sum-build_side_pots plain plain-IsLawful after_blinds (omega arith)

winners_lem_example :
    winners plain after_blinds (1 ∷ 2 ∷ [])
    ≡ done (
        keep_if
          (λ x. unbeaten (strength plain after_blinds) (strength plain after_blinds x) (1 ∷ 2 ∷ []))
          (1 ∷ 2 ∷ []))
winners_lem_example = winners_lem plain after_blinds (1 ∷ 2 ∷ []) (refl, (refl, tt))

one_sat : is_sat 1 two_players ≡ true
unfolding is_sat
one_sat = refl

two_sat : is_sat 2 two_players ≡ true
unfolding is_sat
two_sat = refl

reveal_remaining_board_lem_example :
    reveal_remaining_board [] after_blinds
    ≡ done (
      []
          ++ told_from Phase.preflop
              (record { rank = Rank.two; suit = Suit.clubs })
              (record { rank = Rank.nine; suit = Suit.hearts })
              (record { rank = Rank.ten; suit = Suit.spades })
              (record { rank = Rank.four; suit = Suit.clubs })
              (record { rank = Rank.six; suit = Suit.diamonds }),
      record after_blinds { phase = Phase.river },
    )
reveal_remaining_board_lem_example =
    reveal_remaining_board_lem [] after_blinds (record { rank = Rank.two; suit = Suit.clubs })
      (record { rank = Rank.nine; suit = Suit.hearts })
      (record { rank = Rank.ten; suit = Suit.spades })
      (record { rank = Rank.four; suit = Suit.clubs })
      (record { rank = Rank.six; suit = Suit.diamonds }) refl

active_cycle_from_lem_example : active_cycle_from 2 two_players ≡ done (2 ∷ 1 ∷ [])
active_cycle_from_lem_example = active_cycle_from_lem two_players 2 1 two_players-IsSeated refl

add_player-IsSeated_example : IsSeated (Manager.add_player 7 two_players).1
add_player-IsSeated_example = add_player-IsSeated 7 two_players two_players-IsSeated refl

remove_player-IsSeated_example : IsSeated (Manager.remove_player 1 two_held).1
remove_player-IsSeated_example = remove_player-IsSeated 1 two_held two_held-IsSeated

seat_held_players-IsSeated_example :
    IsSeated (seat_held_players two_held) × ((seat_held_players two_held).holding ≡ [])
seat_held_players-IsSeated_example = seat_held_players-IsSeated two_held two_held-IsSeated

place_bet_lem_example :
    (m' : PlayerManager) × (place_bet 1 40 two_players ≡ done m')
    × Repursed two_players m' (record { id = 1; purse = 1000 }) 960
place_bet_lem_example =
    place_bet_lem two_players 1 (record { id = 1; purse = 1000 }) two_players-IsSeated refl 40
      (omega arith) (omega arith)

remove_player-stalls_example : IsStalled (remove_player 2 one_to_act).1
remove_player-stalls_example =
    remove_player-stalls 2 1 one_to_act (record after_blinds { turn_queue = 2 ∷ [] }) refl refl refl

calls-Stalled_example :
    Returns IsStalled
      (calls plain (play (Action.timeout 1) ∷ join 3 ∷ new_hand ∷ leave 1 ∷ []) stuck)
calls-Stalled_example =
    calls-Stalled plain (play (Action.timeout 1) ∷ join 3 ∷ new_hand ∷ leave 1 ∷ []) stuck
      ((λ e. cc), ((λ e. cc), ((λ e. cc), ((λ e. cc), tt))))
      (record after_blinds { turn_queue = [] }, refl, refl)

try_parse_frame_overflow_example : try_parse_frame (idle (htonl 4294967295 ++ 8 ∷ [])) ≡ fault
try_parse_frame_overflow_example =
    try_parse_frame_overflow 4294967295 (8 ∷ []) (omega arith) (omega arith) (omega arith)

handle_bet_broke_example :
    (h : HandState) × (handle_bet 1 40 (record { players = broke; hand = after_blinds })
      ≡ done (unexpected bet_too_low, record { players = broke; hand = h }))
    × (lookup 1 h.player_state ≡ some PlayerState.all_in)
handle_bet_broke_example =
    handle_bet_broke (record { players = broke; hand = after_blinds }) 1
      (record { id = 1; purse = 0 }) 40 broke-IsSeated refl refl (omega arith) (omega arith)

two_are_many : 2 ≤ num_players two_players
unfolding num_players
two_are_many = omega arith

handle_new_hand_button_example : handle_new_hand plain no_button ≡ fault
handle_new_hand_button_example =
    handle_new_hand_button plain no_button two_players-IsSeated refl two_are_many (omega arith) refl

remove_player-Leaves_example : Leaves heads_up (remove_player 1 heads_up).1
remove_player-Leaves_example = remove_player-Leaves 1 heads_up after_blinds-IsHand

add_player-IsTable_example : IsTable (add_player 3 heads_up).1
add_player-IsTable_example = add_player-IsTable 3 heads_up after_blinds-IsHand refl

deal_cards_lem_example :
    deal_cards plain 1 (1 ∷ 2 ∷ []) (live 0) fresh
    ≡ done (
      handed (1 ∷ 2 ∷ []) [] fresh.cards,
      take 5 (drop 4 fresh.cards),
      record { cards = fresh.cards; next = 9 },
      live 1,
    )
deal_cards_lem_example = deal_cards_lem plain 1 1 (2 ∷ []) 0 fresh (omega arith)

distribute_side_pots-Gains_example :
    (pots : List SidePot) × (build_side_pots plain after_blinds ≡ done pots)
    × Returns
        (λ r. Gains two_players (won_by plain after_blinds pots) r.1)
        (distribute_side_pots plain after_blinds [] two_players)
distribute_side_pots-Gains_example =
    distribute_side_pots-Gains two_players after_blinds after_blinds-IsHand plain [] plain-IsLawful

build_turn_queue_lem_example :
    build_turn_queue 2 after_blinds
    ≡ keep_if (is_active after_blinds.player_state) ((2 ∷ []) ++ 1 ∷ [])
build_turn_queue_lem_example = build_turn_queue_lem after_blinds (1 ∷ []) [] 2 refl refl
