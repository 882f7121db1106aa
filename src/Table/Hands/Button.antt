-- ===== src/Table/Hands/Button.antt =====
-- engine/src/table.cc, `handle_new_hand`: the button of the last hand has left.
use poker_epoll.Base.{
  ℕ, ◌≤◌, ◌≡◌, refl, ap, ◌≢◌, List, [], ◌∷◌, none, true, lookup, has_key, contains, fault, arith,
  ◌∙◌,
}
use poker_epoll.Rules.{PlayerId}
use poker_epoll.Players.{
  PlayerManager, num_players, seat_one, seat_all, seat_held_players, next_player,
}
use poker_epoll.Table.{Table}
use poker_epoll.Table.Environment.{Env}
use poker_epoll.Table.Hands.{handle_new_hand, hand_in_progress, next_button}
use poker_epoll.Players.Seating.{IsSeated}

-- Who is held and known gets the seat that the index has; the index stays.
same_index :
    (ids : List PlayerId) (m : PlayerManager)
    → ((id : ℕ) → contains id ids ≡ true → has_key id m.index ≡ true)
    → (seat_all ids m).index ≡ m.index
unfolding seat_all seat_one
same_index [] m known = refl
same_index (id ∷ ids) m known =
    let e : (seat_one id ids m).index ≡ m.index = ground (arith, known id) in
    same_index ids (seat_one id ids m) (λ j h. ground (arith, known j, ap (λ i. has_key j i) e)) ∙ e

-- Between two hands, when the player with the button has left and two others or more are at the
-- table, a new hand dereferences an error.
pub handle_new_hand_button :
    (env : Env) (t : Table)
    → IsSeated t.players
    → t.hand_state ≡ none
    → 2 ≤ num_players t.players
    → t.button ≢ 0
    → lookup t.button t.players.index ≡ none
    → handle_new_hand env t ≡ fault
unfolding handle_new_hand hand_in_progress next_button next_player seat_held_players
handle_new_hand_button env t v idle many some_button gone =
    let e : (seat_all t.players.holding t.players).index ≡ t.players.index =
      same_index t.players.holding t.players v.held_known in
    let still : lookup t.button (seat_all t.players.holding t.players).index ≡ none =
      ap (lookup t.button) e ∙ gone in
    ground (arith, still, idle)
