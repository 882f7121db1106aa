-- ===== src/Table/Closing.antt =====
-- engine/src/table.cc: the ends of a hand that `on_action` and `handle_new_hand` share.
use poker_epoll.Base.{List, none, Outcome, done, Expected, value, ◌>>=◌}
use poker_epoll.Errors.{GameError}
use poker_epoll.Players.{PlayerManager}
use poker_epoll.Table.{Table, Round, Event}
use poker_epoll.Table.Environment.{Env}
use poker_epoll.Table.Showdown.{distribute_side_pots}
use poker_epoll.Table.Streets.{reveal_remaining_board}

-- The reply that a table gives, and the table after it.
abbrev pub Reply : Type 0
Reply = Outcome (Expected GameError (List Event) × Table)

-- The table after a hand, which `hand_state_.reset()` ends.
abbrev pub close_hand : Table → List Event × PlayerManager → Reply
close_hand t (events, players) =
    done (value events, record t { players = players; hand_state = none })

-- Nobody is left to act: the rest of the board is shown, and the pots are paid.
unfoldable pub run_out : Env → List Event → Round → Table → Reply
run_out env response r t = do
  (shown, h) ← reveal_remaining_board response r.hand
  paid ← distribute_side_pots env h shown r.players
  close_hand t paid
