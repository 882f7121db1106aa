-- ===== src/Table/Hands/Engines.antt =====
-- engine/src/table.cc, `handle_new_hand` and `deal_cards`: a new hand at a table whose generator, which
-- `rng_` refers to, is gone.
use poker_epoll.Base.{
  ℕ, zero, suc, subst, sym, false, ltb, ◌+◌, ◌≤◌, ◌<◌, ◌≡◌, refl, ap, ◌≢◌, ◌⊎◌, inl, inr, List, [],
  ◌∷◌, Option, none, some, true, length, length-append, take, drop, contains, lookup, has_key, Map,
  fault, ◌==◌, arith, Option-cases, Bool-cases,
}
use poker_epoll.Rules.{PlayerId}
use poker_epoll.Players.{Player, PlayerManager, occupant, num_players, seat_held_players}
use poker_epoll.Players.BuyIns.{seat_held_players-purses}
use poker_epoll.Players.Seating.{IsSeated, Unique, sitter}
use poker_epoll.Players.Seating.Changes.{seat_held_players-IsSeated}
use poker_epoll.Players.Seating.Rounds.{sitters}
use poker_epoll.Players.Seating.Sitters.{others_from, sitters-occupant}
use poker_epoll.Table.{Table, dangling}
use poker_epoll.Table.Environment.{Env}
use poker_epoll.Table.Hands.{handle_new_hand, hand_in_progress, deal_hand, deal_cards}
use poker_epoll.Table.Hands.Button.{handle_new_hand_button}
use poker_epoll.Table.Hands.Positions.{next_button_sits, participants_lem}

some_length : (id : PlayerId) (ids : List PlayerId) → contains id ids ≡ true → 0 < length ids
some_length id [] h = cc
some_length id (x ∷ ids) h = omega arith

occupied :
    (seats : List (Option Player)) (s id : ℕ)
    → sitter seats s ≡ some id
    → 0 < length (sitters seats)
occupied seats s id at_s = elim (Option-cases (occupant seats s)) [
  | inl nobody ↦ absurd (ground (arith, at_s))
  | inr (p, sits) ↦ some_length p.id (sitters seats) (sitters-occupant seats s p sits)
]

-- Whoever sits elsewhere is on one of the two stretches of seats around the seat `k`.
elsewhere :
    (seats : List (Option Player)) (k s id : ℕ)
    → sitter seats s ≡ some id
    → s ≢ k
    → 0 < length (sitters (drop (suc k) seats)) + length (sitters (take k seats))
elsewhere [] k s id at_s other = cc
elsewhere (x ∷ seats) zero zero id at_s other = absurd (other refl)
elsewhere (x ∷ seats) zero (suc s) id at_s other = omega (arith, occupied seats s id at_s)
elsewhere (none ∷ seats) (suc k) zero id at_s other = cc
elsewhere (some p ∷ seats) (suc k) zero id at_s other = omega arith
elsewhere (none ∷ seats) (suc k) (suc s) id at_s other = elsewhere seats k s id at_s (ground arith)
elsewhere (some p ∷ seats) (suc k) (suc s) id at_s other = omega arith

another :
    (index : Map ℕ) (b : PlayerId)
    → Unique index
    → 2 ≤ length index
    → (id : PlayerId) × (seat : ℕ) × (lookup id index ≡ some seat) × (id ≢ b)
another [] b u many = elim many [ ]
another ((i, x) ∷ []) b u many = absurd (omega (arith, many))
another ((i, x) ∷ (j, y) ∷ index) b (fresh, u) many = elim (Bool-cases (i == b)) [
  | inl same ↦ (j, y, ground (arith), ground (arith))
  | inr other ↦ (i, x, ground (arith), ground (arith))
]

-- With two players or more who all sit, the player with the button has company.
company :
    (m : PlayerManager) (b k : ℕ)
    → IsSeated m
    → m.holding ≡ []
    → 2 ≤ num_players m
    → sitter m.seats k ≡ some b
    → 0 < length (others_from k m.seats)
unfolding num_players
company m b k v all_seated many at_k =
    let (id, seat, known, other) = another m.index b v.unique (omega (arith, v.accounted, many)) in
    let sits : sitter m.seats seat ≡ some id =
      ground (arith, v.placed id seat known, ap (contains id) all_seated) in
    let apart : seat ≢ k = λ same. ground (arith, same, sits, at_k) in
    omega (
      arith,
      elsewhere m.seats k seat id sits apart,
      length-append (sitters (drop (suc k) m.seats)) (sitters (take k m.seats)),
    )

-- As many players are at the table after those who were held have sat down.
pub still_many :
    (m m' : PlayerManager)
    → IsSeated m
    → IsSeated m'
    → m'.index ≡ m.index
    → 2 ≤ num_players m
    → 2 ≤ num_players m'
unfolding num_players
still_many m m' v v' e two =
    let same : length m'.index ≡ length m.index = ap (λ i. length i) e in
    omega (arith, v.accounted, v'.accounted, same)

pub no_engine :
    (env : Env) (t : Table) (b : PlayerId) (others : List PlayerId)
    → t.rng ≡ dangling
    → deal_hand env (b ∷ others) t ≡ fault
unfolding deal_hand deal_cards
no_engine env t b others gone = rw gone refl

-- The player who had the button has left, or the button is nobody's or is still at the table.
button_cases :
    (button : PlayerId) (index : Map ℕ)
    → ((button ≢ 0) × (lookup button index ≡ none)) ⊎ ((button ≡ 0) ⊎ (has_key button index ≡ true))
button_cases button index = elim (Bool-cases (button == 0)) [
  | inl new ↦ inr (inl (ground arith))
  | inr old ↦ elim (Option-cases (lookup button index)) [
    | inl gone ↦ inl (ground arith, gone)
    | inr (seat, known) ↦ inr (inr (ground arith))
  ]
]

-- Between two hands, when two players or more are at the table and the engine that `rng_` refers to is
-- gone, a new hand is not defined, whoever has the button.
pub handle_new_hand_engine :
    (env : Env) (t : Table)
    → IsSeated t.players
    → t.hand_state ≡ none
    → 2 ≤ num_players t.players
    → t.rng ≡ dangling
    → handle_new_hand env t ≡ fault
unfolding handle_new_hand hand_in_progress
handle_new_hand_engine env t seating idle many gone = elim (button_cases t.button t.players.index) [
  | inl left ↦ handle_new_hand_button env t seating idle many left.0 left.1
  | inr choice ↦
      let players = seat_held_players t.players in
      let (sits, nobody_held) = seat_held_players-IsSeated t.players seating in
      let (brought, index) = seat_held_players-purses t.players seating in
      let many' = still_many t.players players seating sits index many in
      let (b, k, found, at_k) =
        next_button_sits players sits nobody_held t.button many'
          (subst (λ i. (t.button ≡ 0) ⊎ (has_key t.button i ≡ true)) (sym index) choice) in
      let (cycle, few) = participants_lem players sits b k at_k in
      let some_others = company players b k sits nobody_held many' at_k in
      let enough : ltb (length (b ∷ others_from k players.seats)) 2 ≡ false =
        ground (arith, some_others) in
      let two : ltb (num_players t.players) 2 ≡ false = ground (arith, many) in
      rw (two, idle, handle_new_hand)
        (rw (found, cycle, enough)
          (no_engine env (record t { players = players; button = b; hand_state = none }) b
            (others_from k players.seats) gone))
]
