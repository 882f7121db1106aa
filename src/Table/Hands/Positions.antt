-- ===== src/Table/Hands/Positions.antt =====
-- engine/src/table.cc, `handle_new_hand`: the button, the participants and who posts the blinds.
use native.Mathlib.Nat.{mod-lt}
use poker_epoll.Base.{
  ℕ, zero, suc, ◌+◌, ◌%◌, ◌≤◌, ◌<◌, ◌≡◌, refl, ap, ◌⊎◌, inl, inr, List, [], ◌∷◌, Option, none, some,
  true, length, get_or, contains, lookup, has_key, Map, done, value, ◌==◌, if◌then◌else◌, arith,
  Option-cases, Bool-cases,
}
use poker_epoll.Rules.{PlayerId, max_players}
use poker_epoll.Players.{
  Player, PlayerManager, occupant, num_players, first_seated, get_first_player, next_from,
  next_player, active_cycle_from,
}
use poker_epoll.Players.Seating.{IsSeated, sitter}
use poker_epoll.Players.Seating.Changes.{seat_bound}
use poker_epoll.Players.Seating.Rounds.{sitters, active_cycle_from_lem}
use poker_epoll.Players.Seating.Sitters.{
  contains-sitters, sitters-occupant, others_from, length-others_from,
}
use poker_epoll.Table.Hands.{next_button, positions}

next_from_cases :
    (seats : List (Option Player)) (p : PlayerId) (n it : ℕ)
    → (next_from seats p n it ≡ p) ⊎ (contains (next_from seats p n it) (sitters seats) ≡ true)
unfolding next_from
next_from_cases seats p zero it = inl refl
next_from_cases seats p (suc n) it =
    let j = if it == length seats then 0 else it in
    elim (Option-cases (occupant seats j)) [
      | inl nobody ↦ rw (nobody, next_from) (next_from_cases seats p n (j + 1))
      | inr (q, sits) ↦ rw (sits, next_from) (inr (sitters-occupant seats j q sits))
    ]

first_seated_found :
    (id : PlayerId) (seats : List (Option Player))
    → contains id (sitters seats) ≡ true
    → (b : PlayerId) × (first_seated seats ≡ value b) × (contains b (sitters seats) ≡ true)
unfolding first_seated
first_seated_found id [] h = cc
first_seated_found id (none ∷ seats) h = first_seated_found id seats h
first_seated_found id (some p ∷ seats) h = (p.id, refl, ground arith)

module _ (m : PlayerManager) (v : IsSeated m) (all_seated : m.holding ≡ []) where
  -- With nobody held, whoever is at the table sits.
  known_sits : (id seat : ℕ) → lookup id m.index ≡ some seat → sitter m.seats seat ≡ some id
  known_sits id seat known = ground (arith, v.placed id seat known, ap (contains id) all_seated)

  somebody :
      (index : Map ℕ)
      → m.index ≡ index
      → 2 ≤ num_players m
      → (id : PlayerId) × (seat : ℕ) × (lookup id m.index ≡ some seat)
  unfolding num_players
  somebody [] e many = absurd (ground (arith, v.accounted, ap {B = ℕ} (λ (i : Map ℕ). length i) e))
  somebody ((id, seat) ∷ index) e many = (id, seat, rw e (ground arith))

  some_sitter : 2 ≤ num_players m → (id : PlayerId) × (contains id (sitters m.seats) ≡ true)
  some_sitter many =
      let (id, seat, known) = somebody m.index refl many in
      elim (Option-cases (occupant m.seats seat)) [
        | inl nobody ↦ absurd (ground (arith, known_sits id seat known))
        | inr (p, sits) ↦ (p.id, sitters-occupant m.seats seat p sits)
      ]

  -- With two players or more, and a button that is new or still at the table, there is a next button,
  -- and that player sits.
  pub next_button_sits :
      (button : PlayerId)
      → 2 ≤ num_players m
      → (button ≡ 0) ⊎ (has_key button m.index ≡ true)
      → (b : PlayerId) × (k : ℕ) × (next_button button m ≡ done b) × (sitter m.seats k ≡ some b)
  unfolding next_button get_first_player next_player
  next_button_sits button many choice = elim (Bool-cases (button == 0)) [
    | inl new ↦
        let (id, here) = some_sitter many in
        let (b, found, sits) = first_seated_found id m.seats here in
        let (k, at_k) = contains-sitters b m.seats sits in (b, k, ground (arith, found), at_k)
    | inr old ↦ elim (Option-cases (lookup button m.index)) [
      | inl gone ↦ absurd (ground arith)
      | inr (seat, known) ↦
          let b = next_from m.seats button (length m.seats) (seat + 1) in
          elim (next_from_cases m.seats button (length m.seats) (seat + 1)) [
            | inl same ↦
                (b, seat, ground (arith, known), ground (arith, known_sits button seat known, same))
            | inr sits ↦
                let (k, at_k) = contains-sitters b m.seats sits in
                (b, k, ground (arith, known), at_k)
          ]
    ]
  ]

-- The participants of a hand: the button first, all of them seated, and at most as many as seats.
pub participants_lem :
    (m : PlayerManager) (v : IsSeated m) (b k : ℕ)
    → sitter m.seats k ≡ some b
    → (active_cycle_from b m ≡ done (b ∷ others_from k m.seats))
      × (length (others_from k m.seats) < max_players)
participants_lem m v b k at_k = (
  active_cycle_from_lem m b k v at_k,
  omega
      (arith, v.seats_length, length-others_from k m.seats (seat_bound m b k v (v.owned k b at_k))),
)

get_or-contains : (ps : List PlayerId) (i : ℕ) → i < length ps → contains (get_or ps i 0) ps ≡ true
get_or-contains [] i h = elim h [ ]
get_or-contains (x ∷ ps) zero h = ground arith
get_or-contains (x ∷ ps) (suc i) h = ground (arith, get_or-contains ps i (omega arith))

-- The blinds are posted by participants.
pub positions_inside :
    (ps : List PlayerId)
    → 2 ≤ length ps
    → (contains (positions ps).0 ps ≡ true) × (contains (positions ps).1 ps ≡ true)
positions_inside ps two = elim (Bool-cases (length ps == 2)) [
  | inl heads_up ↦
      rw heads_up
        (get_or-contains ps 0 (omega (arith, two)), get_or-contains ps 1 (omega (arith, two)))
  | inr more ↦ rw more (
    get_or-contains ps (1 % length ps) (mod-lt 1 (omega (arith, two))),
    get_or-contains ps (2 % length ps) (mod-lt 2 (omega (arith, two))),
  )
]
