-- ===== src/Players/BuyIns.antt =====
-- engine/src/player_manager.cc, `seat_held_players`: everybody who was held sits down with the buy-in,
-- and the seats that were given out stay as they are.
use poker_epoll.Base.{
  ℕ, ◌+◌, ◌*◌, ◌≡◌, refl, ap, ◌∙◌, List, [], ◌∷◌, Option, some, true, length, contains, lookup,
  add64, arith, Option-cases, inl, inr,
}
use poker_epoll.Rules.{PlayerId, buy_in}
use poker_epoll.Players.{
  Player, PlayerManager, seat_one, seat_all, seat_held_players, add_chips, new_player,
}
use poker_epoll.Players.Seating.{IsSeated}
use poker_epoll.Players.Seating.Changes.{seat_one-known, seat_one-IsSeated, seat_bound}
use poker_epoll.Players.Purses.{purses, purse_sum-set}

seat_one-purses :
    (m : PlayerManager) (id seat : ℕ) (rest : List PlayerId)
    → IsSeated m
    → m.holding ≡ id ∷ rest
    → lookup id m.index ≡ some seat
    → (purses (seat_one id rest m) ≡ purses m + buy_in) × ((seat_one id rest m).index ≡ m.index)
unfolding add_chips add64
seat_one-purses m id seat rest v held known =
    let newcomer : Option Player = some (add_chips buy_in (new_player id)) in
    let here : contains id m.holding ≡ true = ground (arith, ap (contains id) held) in
    rw (seat_one-known m id seat rest known) (
      ground (
        arith,
        here,
        v.placed id seat known,
        purse_sum-set m.seats seat newcomer (seat_bound m id seat v known),
      ),
      refl,
    )

seat_all-purses :
    (ids : List PlayerId) (m : PlayerManager)
    → IsSeated m
    → m.holding ≡ ids
    → (purses (seat_all ids m) ≡ purses m + buy_in * length ids)
      × ((seat_all ids m).index ≡ m.index)
unfolding seat_all
seat_all-purses [] m v e = (omega arith, refl)
seat_all-purses (id ∷ ids) m v e = elim (Option-cases (lookup id m.index)) [
  | inl unknown ↦ absurd (ground (arith, v.held_known id))
  | inr (seat, known) ↦
      let (paid, index) = seat_one-purses m id seat ids v e known in
      let (all, same) =
        seat_all-purses ids (seat_one id ids m) (seat_one-IsSeated m id seat ids v e known)
          (unfold seat_one in refl) in
      (omega (arith, paid, all), same ∙ index)
]

-- Everybody who was held brings the buy-in, nobody else's purse changes, and nobody's seat.
pub seat_held_players-purses :
    (m : PlayerManager)
    → IsSeated m
    → (purses (seat_held_players m) ≡ purses m + buy_in * length m.holding)
      × ((seat_held_players m).index ≡ m.index)
unfolding seat_held_players
seat_held_players-purses m v = seat_all-purses m.holding m v refl
