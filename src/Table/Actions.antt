-- ===== src/Table/Actions.antt =====
-- engine/src/table.cc: `Table::on_action`, and the end of a hand.
use poker_epoll.Base.{
  List, [], ◌∷◌, ◌++◌, Option, none, some, Bool, true, false, not, ◌||◌, Outcome, done, Expected,
  value, unexpected, ◌>>=◌, ◌==◌, if◌then◌else◌,
}
use poker_epoll.Rules.{PlayerId}
use poker_epoll.Errors.{GameError, invalid_action, no_such_player, out_of_turn}
use poker_epoll.Players.{is_sat}
use poker_epoll.Table.{Table, Round, HandState, Phase, river, Action, fold, bet, timeout, Event}
use poker_epoll.Table.Environment.{Env}
use poker_epoll.Table.Turns.{prune_turn_queue, active_players_in_hand, is_active, advance_turn}
use poker_epoll.Table.Bets.{handle_bet, handle_fold, handle_timeout}
use poker_epoll.Table.Pots.{total_committed}
use poker_epoll.Table.Showdown.{award_chips, distribute_side_pots}
use poker_epoll.Table.Closing.{Reply, close_hand, run_out}
use poker_epoll.Table.Streets.{handle_new_street}

abbrev pub actor : Action → PlayerId
actor (fold id) = id
actor (bet id amount) = id
actor (timeout id) = id

-- The overloads of `Table::handle`.
unfoldable pub handle : Action → Round → Outcome (Expected GameError (List Event) × Round)
handle (fold id) r = done (handle_fold id r)
handle (bet id amount) r = handle_bet id amount r
handle (timeout id) r = handle_timeout id r

abbrev pub any_active : HandState → List PlayerId → Bool
any_active h [] = false
any_active h (id ∷ ids) = is_active h.player_state id || any_active h ids

abbrev pub is_river : Phase → Bool
is_river river = true
is_river p = false

-- The reply with the events of the new street, or its error.
unfoldable pub after_street : List Event → Table → Expected GameError (List Event) → Reply
after_street response t (unexpected e) = done (unexpected e, t)
after_street response t (value events) = done (value (response ++ events), t)

-- The queue is empty: the hand ends, or the next street begins.
unfoldable pub end_street : Env → List PlayerId → List Event → Round → Table → Reply
end_street env remaining response r t =
    if not (any_active r.hand remaining)
    then run_out env response r t
    else if is_river r.hand.phase
    then (distribute_side_pots env r.hand response r.players >>= close_hand t)
    else (let (res, h) = handle_new_street r.hand in
        after_street response (record t { players = r.players; hand_state = some h }) res)

-- The hand goes on: the end of the street, or the next player's turn.
unfoldable pub go_on : Env → List PlayerId → List Event → Round → Table → Reply
go_on env remaining response r t = elim r.hand.turn_queue [
  | [] ↦ end_street env remaining response r t
  | x ∷ xs ↦
      let (events, h) = advance_turn response r.hand in
      done (value events, record t { players = r.players; hand_state = some h })
]

-- One player is left in the hand, and takes everything.
unfoldable pub win_uncontested : Env → PlayerId → List Event → Round → Table → Reply
win_uncontested env winner response r t =
    award_chips winner (total_committed env r.hand) response r.players >>= close_hand t

-- By how many players are left.
unfoldable pub settle_among : Env → List PlayerId → List Event → Round → Table → Reply
settle_among env [] response r t = go_on env [] response r t
settle_among env (winner ∷ []) response r t = win_uncontested env winner response r t
settle_among env (x ∷ y ∷ ids) response r t = go_on env (x ∷ y ∷ ids) response r t

-- What `on_action` does after an action was accepted.
unfoldable pub settle : Env → List Event → Round → Table → Reply
settle env response r t =
    let h = prune_turn_queue r.hand in
    settle_among env (active_players_in_hand h) response (record r { hand = h }) t

-- A refused action leaves what its handler has written; an accepted one goes on.
unfoldable pub conclude : Env → Table → Expected GameError (List Event) × Round → Reply
conclude env t (unexpected e, r) =
    done (unexpected e, record t { players = r.players; hand_state = some r.hand })
conclude env t (value response, r) = settle env response r t

-- The action against the queue, which was pruned.
unfoldable pub act : Env → Action → List PlayerId → HandState → Table → Reply
act env a [] h t = done (unexpected invalid_action, record t { hand_state = some h })
act env a (front ∷ queue) h t =
    if not (actor a == front)
    then done (unexpected out_of_turn, record t { hand_state = some h })
    else (handle a (record { players = t.players; hand = h }) >>= conclude env t)

-- The action against the hand in progress, if there is one.
unfoldable pub dispatch : Env → Action → Option HandState → Table → Reply
dispatch env a none t = done (unexpected invalid_action, t)
dispatch env a (some h) t =
    if not (is_sat (actor a) t.players)
    then done (unexpected no_such_player, t)
    else (let h' = prune_turn_queue h in act env a h'.turn_queue h' t)

-- `Table::on_action`
unfoldable pub on_action : Env → Action → Table → Reply
on_action env a t = dispatch env a t.hand_state t
