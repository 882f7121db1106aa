-- ===== src/Tests/Hands.antt =====
-- A concrete hand: the witnesses of the theorems about refusals and about how long a hand takes.
use poker_epoll.Base.{◌+◌, ◌≤◌, ◌≡◌, refl, List, done, add64, value, Returns, arith}
use poker_epoll.Table.{Table, Action, Event}
use poker_epoll.Table.Turns.{prune_turn_queue, active_players_in_hand}
use poker_epoll.Table.Bets.{handle_fold}
use poker_epoll.Players as Manager
use poker_epoll.Table.Pots.{total_committed, add_all}
use poker_epoll.Table.Showdown.{award_chips}
use poker_epoll.Table.Actions.{
  handle, conclude, settle, settle_among, win_uncontested, act, dispatch, on_action,
}
use poker_epoll.Table.Descent.{weight}
use poker_epoll.Table.Descent.Play.{over, accepts, Plays-bounded}
use poker_epoll.Table.Refusals.{error_of, refusal}
use poker_epoll.Table.Refusals.Replies.{on_action-refusal}
use poker_epoll.Tests.Tables.{
  plain, plain-IsLawful, two_players, after_blinds, after_blinds-IsHand, heads_up,
}

on_action-refusal_example :
    Returns
      (λ s. error_of s.0 ≡ refusal (Action.bet 1 7) heads_up)
      (on_action plain (Action.bet 1 7) heads_up)
on_action-refusal_example =
    on_action-refusal plain (Action.bet 1 7) heads_up plain-IsLawful after_blinds-IsHand
      (λ h e. ground (arith, e))

-- The first player folds.
folded :
    (events : List Event) × (t : Table) × (on_action plain (Action.fold 1) heads_up
      ≡ done (value events, t))
unfolding on_action dispatch act handle handle_fold conclude settle settle_among win_uncontested
    prune_turn_queue active_players_in_hand award_chips total_committed add_all add64 Manager.is_sat
    Manager.award_chips Manager.get_chips
folded = (_, _, refl)

Plays-bounded_example : 1 ≤ weight (record { players = two_players; hand = after_blinds }) + 1
Plays-bounded_example =
    Plays-bounded plain folded.1 1 heads_up after_blinds plain-IsLawful after_blinds-IsHand refl
      (accepts (Action.fold 1) folded.0 folded.2 over)
