-- ===== src/Players/Seating/Rounds.antt =====
-- engine/src/player_manager.cc: `next_player` and `active_cycle_from` go round the table.
use mathlib.Core.List.{append_assoc, append-nil}
use native.Mathlib.Numerals.{add-one}
use poker_epoll.Base.{
  ℕ, zero, suc, ◌+◌, ◌-◌, ◌≤◌, ◌<◌, ◌≡◌, refl, ap, ◌≢◌, ◌⊎◌, inl, inr, List, [], ◌∷◌, ◌++◌, Option,
  none, some, length, get_elem?, take, drop, lookup, done, value, ◌==◌, if◌then◌else◌, arith,
  Option-cases,
}
use poker_epoll.Rules.{PlayerId}
use poker_epoll.Players.{
  Player, PlayerManager, occupant, next_from, next_player, cycle_loop, active_cycle_from,
}
use poker_epoll.Players.Seating.{IsSeated, sitter}
use poker_epoll.Players.Seating.Changes.{seat_bound}

-- The players on a stretch of seats, in the order of the seats.
abbrev pub sitters : List (Option Player) → List PlayerId
sitters [] = []
sitters (none ∷ seats) = sitters seats
sitters (some p ∷ seats) = p.id ∷ sitters seats

abbrev with_sitter : Option Player → List PlayerId → List PlayerId
with_sitter none ids = ids
with_sitter (some p) ids = p.id ∷ ids

-- The seat at which the loop looks.
abbrev wrap : ℕ → ℕ → ℕ
wrap n it = if it == n then 0 else it

-- The players on the next `n` seats from `it`, round the table.
walk : List (Option Player) → ℕ → ℕ → List PlayerId
walk seats zero it = []
walk seats (suc n) it =
    with_sitter (occupant seats (wrap (length seats) it))
      (walk seats n (wrap (length seats) it + 1))

-- After `n` seats, and not before, the seat `k` comes.
abbrev Reaches : ℕ → ℕ → ℕ → ℕ → Type 0
Reaches k size zero it = wrap size it ≡ k
Reaches k size (suc n) it = (wrap size it ≢ k) × Reaches k size n (wrap size it + 1)

reaches_lem :
    (k size n it : ℕ)
    → k < size
    → it ≤ size
    → (wrap size it + n ≡ k) ⊎ ((wrap size it + n ≡ size + k) × (k < wrap size it))
    → Reaches k size n it
reaches_lem k size zero it h b c = ground arith
reaches_lem k size (suc n) it h b c =
    (ground arith, reaches_lem k size n (wrap size it + 1) h (ground arith) (ground arith))

Reaches-round : (k size : ℕ) → k < size → Reaches k size (size - 1) (k + 1)
Reaches-round k size h = reaches_lem k size (size - 1) (k + 1) h (omega arith) (ground arith)

module _ (m : PlayerManager) (start k : ℕ) (v : IsSeated m)
    (at_k : sitter m.seats k ≡ some start) where
  abbrev size : ℕ
  size = length m.seats

  loop_lem :
      (n it p fuel rounds : ℕ) (acc : List PlayerId)
      → Reaches k size n it
      → n < fuel
      → n < rounds
      → n < size
      → cycle_loop fuel start m (value (next_from m.seats p rounds it)) acc
        ≡ done (acc ++ walk m.seats n it)
  unfolding cycle_loop next_from walk next_player
  loop_lem zero it p zero rounds acc h f r b = elim f [ ]
  loop_lem zero it p (suc fuel) zero acc h f r b = elim r [ ]
  loop_lem zero it p (suc fuel) (suc rounds) acc h f r b = ground (arith, append-nil acc)
  loop_lem (suc n) it p zero rounds acc h f r b = elim f [ ]
  loop_lem (suc n) it p (suc fuel) zero acc h f r b = elim r [ ]
  loop_lem (suc n) it p (suc fuel) (suc rounds) acc h f r b =
      elim (Option-cases (occupant m.seats (wrap size it))) [
        | inl nobody ↦
            rw (nobody, next_from)
              (loop_lem n (wrap size it + 1) p (suc fuel) rounds acc h.1 (omega arith) (omega arith)
                (omega arith))
        | inr (q, sits) ↦
            let known : lookup q.id m.index ≡ some (wrap size it) =
              v.owned (wrap size it) q.id (rw sits) in
            ground (
              arith,
              known,
              v.owned k start at_k,
              h.0,
              loop_lem n (wrap size it + 1) q.id fuel size (acc ++ q.id ∷ []) h.1 (omega arith)
                  (omega arith) (omega arith),
              append_assoc acc (q.id ∷ []) (walk m.seats n (wrap size it + 1)),
            )
      ]

drop_step :
    (seats : List (Option Player)) (j : ℕ)
    → j < length seats
    → (o : Option Player) × (get_elem? seats j ≡ some o) × (drop j seats ≡ o ∷ drop (suc j) seats)
drop_step [] j h = elim h [ ]
drop_step (o ∷ seats) zero h = (o, refl, refl)
drop_step (o ∷ seats) (suc j) h = drop_step seats j (omega arith)

take_all : (n : ℕ) (seats : List (Option Player)) → length seats ≤ n → take n seats ≡ seats
take_all zero [] h = refl
take_all zero (o ∷ seats) h = absurd (omega arith)
take_all (suc n) [] h = refl
take_all (suc n) (o ∷ seats) h = ap (◌∷◌ o) (take_all n seats (omega arith))

length-drop : (n : ℕ) (seats : List (Option Player)) → length (drop n seats) ≡ length seats - n
length-drop zero seats = omega arith
length-drop (suc n) [] = omega arith
length-drop (suc n) (o ∷ seats) = omega (arith, length-drop n seats)

sitters-cons :
    (o : Option Player) (seats : List (Option Player))
    → sitters (o ∷ seats) ≡ with_sitter o (sitters seats)
sitters-cons none seats = refl
sitters-cons (some p) seats = refl

module _ (seats : List (Option Player)) where
  walk_straight :
      (n j : ℕ) → j + n ≤ length seats → walk seats n j ≡ sitters (take n (drop j seats))
  unfolding walk
  walk_straight zero j h = refl
  walk_straight (suc n) j h =
      let (o, at_j, dropped) = drop_step seats j (omega arith) in
      ground (
        arith,
        at_j,
        dropped,
        walk_straight n (suc j) (omega arith),
        ap {A = ℕ} (λ i. walk seats n i) (add-one j),
        sitters-cons o (take n (drop (suc j) seats)),
      )

  walk-add :
      (n a b j : ℕ)
      → n ≡ a + b
      → j + a ≤ length seats
      → walk seats n j ≡ walk seats a j ++ walk seats b (j + a)
  unfolding walk
  walk-add n zero b j e h = ground arith
  walk-add zero (suc a) b j e h = absurd (omega arith)
  walk-add (suc n) (suc a) b j e h =
      let (o, at_j, dropped) = drop_step seats j (omega arith) in
      ground (arith, at_j, walk-add n a b (j + 1) (omega arith) (omega arith))

  walk_wrap : (n : ℕ) → 0 < length seats → walk seats n (length seats) ≡ walk seats n 0
  unfolding walk
  walk_wrap zero h = refl
  walk_wrap (suc n) h = ground arith

  -- The seats after `k`, and then those before it.
  walk_round :
      (k : ℕ)
      → k < length seats
      → walk seats (length seats - 1) (k + 1)
        ≡ sitters (drop (suc k) seats) ++ sitters (take k seats)
  walk_round k h =
      let after = length seats - suc k in
      let split : walk seats (length seats - 1) (suc k)
          ≡ walk seats after (suc k) ++ walk seats k (suc k + after) =
        walk-add (length seats - 1) after k (suc k) (omega arith) (omega arith) in
      let e : suc k + after ≡ length seats = omega arith in
      ground (
        arith,
        split,
        add-one k,
        ap {A = ℕ} (λ i. walk seats k i) e,
        ap {A = ℕ} (λ i. walk seats (length seats - 1) i) (add-one k),
        walk_straight after (suc k) (omega arith),
        walk_wrap k (omega arith),
        walk_straight k 0 (omega arith),
        take_all after (drop (suc k) seats) (omega (arith, length-drop (suc k) seats)),
      )

-- From a player at seat `k`, the cycle lists that player, the players on the seats after theirs and
-- those on the seats before, each once, and the loop ends.
pub active_cycle_from_lem :
    (m : PlayerManager) (start k : ℕ)
    → IsSeated m
    → sitter m.seats k ≡ some start
    → active_cycle_from start m
      ≡ done (start ∷ sitters (drop (suc k) m.seats) ++ sitters (take k m.seats))
unfolding active_cycle_from next_player
active_cycle_from_lem m start k v at_k =
    let bound : k < length m.seats = seat_bound m start k v (v.owned k start at_k) in
    ground (
      arith,
      v.owned k start at_k,
      bound,
      loop_lem m start k v at_k (length m.seats - 1) (k + 1) start (length m.seats + 1)
          (length m.seats) (start ∷ []) (Reaches-round k (length m.seats) bound) (omega arith)
          (omega arith) (omega arith),
      walk_round m.seats k bound,
    )
