-- ===== src/Table/Seats.antt =====
-- engine/src/table.cc: players who come and go.
use poker_epoll.Base.{
  List, [], ◌∷◌, ◌++◌, none, some, Bool, true, false, not, ◌&&◌, insert, Expected, value,
  unexpected, ltb, leb, ◌==◌, if◌then◌else◌,
}
use poker_epoll.Rules.{PlayerId, max_players}
use poker_epoll.Errors.{PlayerMgmtError}
use poker_epoll.Players as Manager
use poker_epoll.Players.{num_players}
use poker_epoll.Table.{Table, HandState, left, Event, player_added, player_removed}
use poker_epoll.Table.Turns.{prune_turn_queue, announce}
use poker_epoll.Table.Hands.{hand_in_progress}

unfoldable pub has_open_seat : Table → Bool
has_open_seat t = ltb (num_players t.players) max_players

unfoldable pub can_start_hand : Table → Bool
can_start_hand t = not (hand_in_progress t) && leb 2 (num_players t.players)

-- `Table::add_player`
unfoldable pub add_player : PlayerId → Table → Expected PlayerMgmtError Event × Table
add_player id t =
    let (res, players) = Manager.add_player id t.players in
    (
      elim res [ value u ↦ value (player_added id) | unexpected e ↦ unexpected e ],
      record t { players = players },
    )

-- The loop over the queue: what stays of it, and whether the front went.
unfoldable pub filter_queue : PlayerId → List PlayerId → List PlayerId → Bool → List PlayerId × Bool
filter_queue id [] updated removed_front = (updated, removed_front)
filter_queue id (cur ∷ queue) updated removed_front =
    if cur == id
    then filter_queue id queue updated (elim updated [ [] ↦ true | x ∷ xs ↦ removed_front ])
    else filter_queue id queue (updated ++ cur ∷ []) removed_front

-- What `remove_player` does to a hand in progress.
unfoldable pub leave_hand : PlayerId → HandState → List Event × HandState
leave_hand id h =
    let (updated, removed_front) = filter_queue id h.turn_queue [] false in
    let gone = record h { player_state = insert id left h.player_state; turn_queue = updated } in
    if removed_front
    then (let pruned = prune_turn_queue gone in
        (announce pruned.turn_queue (player_removed id ∷ []), pruned))
    else (player_removed id ∷ [], gone)

-- `Table::remove_player`
unfoldable pub remove_player : PlayerId → Table → Expected PlayerMgmtError (List Event) × Table
remove_player id t =
    let (res, players) = Manager.remove_player id t.players in
    elim res [
      | unexpected e ↦ (unexpected e, record t { players = players })
      | value u ↦ elim t.hand_state [
        | none ↦ (value (player_removed id ∷ []), record t { players = players })
        | some h ↦
            let (events, h') = leave_hand id h in
            (value events, record t { players = players; hand_state = some h' })
      ]
    ]
