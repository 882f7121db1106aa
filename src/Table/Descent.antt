-- ===== src/Table/Descent.antt =====
-- engine/src/table.cc: why a hand comes to its end. What is left of a hand is measured by the chips in the
-- purses, the streets that are to come, and the players who are to act.
pub mod Bets
pub mod Settling
pub mod Actions
pub mod Play
use native.Mathlib.Nat.{mul-le-mul_right}
use poker_epoll.Base.{
  ℕ, zero, suc, ◌+◌, ◌*◌, ◌≤◌, ◌<◌, ◌≡◌, ap, List, [], ◌∷◌, length, Bool, true, false, keep_if,
  arith, Bool-cases, inl, inr, Map,
}
use poker_epoll.Rules.{PlayerId, max_players}
use poker_epoll.Players.Purses.{purses}
use poker_epoll.Table.{
  HandState, Round, PlayerState, Phase, preflop, flop, turn, river, showdown, holding,
}
use poker_epoll.Table.Turns.{is_active, prune, ring}

abbrev pub streets_left : Phase → ℕ
streets_left preflop = 3
streets_left flop = 2
streets_left turn = 1
streets_left river = 0
streets_left showdown = 0
streets_left holding = 0

-- No queue of the hand is longer.
abbrev pub longest : HandState → ℕ
longest h = length h.participants + max_players

-- The chips in the purses, and the streets to come.
abbrev pub supply : Round → ℕ
supply r = purses r.players + streets_left r.hand.phase

abbrev pub weight : Round → ℕ
weight r = supply r * (longest r.hand + 1) + length r.hand.turn_queue

-- The hand is nearer to its end: the queue is shorter, or there is less to be played for.
pub data Lowers (r r' : Round) : Type 0 where
  shorter :
      supply r' ≤ supply r → length r'.hand.turn_queue < length r.hand.turn_queue → Lowers r r'
  poorer : supply r' < supply r → length r'.hand.turn_queue ≤ longest r.hand → Lowers r r'

-- The hand is not further from its end.
pub record Rests (r r' : Round) : Type 0 where
  pub kept : supply r' ≤ supply r
  pub queue : length r'.hand.turn_queue ≤ length r.hand.turn_queue

pub Lowers-Rests : (r s t : Round) → Lowers r s → Rests s t → Lowers r t
Lowers-Rests r s t (shorter a b) k = shorter (omega (arith, a, k.kept)) (omega (arith, b, k.queue))
Lowers-Rests r s t (poorer a b) k = poorer (omega (arith, a, k.kept)) (omega (arith, b, k.queue))

pub Rests-Lowers :
    (r s t : Round)
    → s.hand.participants ≡ r.hand.participants
    → Rests r s
    → Lowers s t
    → Lowers r t
Rests-Lowers r s t same k (shorter a b) =
    shorter (omega (arith, a, k.kept)) (omega (arith, b, k.queue))
Rests-Lowers r s t same k (poorer a b) =
    let e : length s.hand.participants ≡ length r.hand.participants =
      ap (λ (ids : List PlayerId). length ids) same in
    poorer (omega (arith, a, k.kept)) (omega (arith, b, e))

pub Lowers-supply : (r s : Round) → Lowers r s → supply s ≤ supply r
Lowers-supply r s (shorter a b) = a
Lowers-supply r s (poorer a b) = omega (arith, a)

-- A new street: there is less to be played for, whatever queue comes, if it is not too long.
pub Lowers-poorer :
    (r s t : Round)
    → Lowers r s
    → supply t < supply s
    → length t.hand.turn_queue ≤ longest r.hand
    → Lowers r t
Lowers-poorer r s t l less q = poorer (omega (arith, Lowers-supply r s l, less)) q

weight_same :
    (r s : Round)
    → s.hand.participants ≡ r.hand.participants
    → weight s ≡ supply s * (longest r.hand + 1) + length s.hand.turn_queue
weight_same r s same =
    ap
      (λ (ids : List PlayerId).
        supply s * (length ids + max_players + 1) + length s.hand.turn_queue)
      same

pub Lowers-weight :
    (r s : Round) → s.hand.participants ≡ r.hand.participants → Lowers r s → weight s < weight r
Lowers-weight r s same l = fall l
  where
    as_long : weight s ≡ supply s * (longest r.hand + 1) + length s.hand.turn_queue
    as_long = weight_same r s same

    fall : Lowers r s → weight s < weight r
    fall (shorter a b) = omega (arith, as_long, mul-le-mul_right (longest r.hand + 1) a, b)
    fall (poorer a b) = omega (arith, as_long, mul-le-mul_right (longest r.hand + 1) a, b)

pub Rests-weight :
    (r s : Round) → s.hand.participants ≡ r.hand.participants → Rests r s → weight s ≤ weight r
Rests-weight r s same k =
    omega (arith, weight_same r s same, mul-le-mul_right (longest r.hand + 1) k.kept, k.queue)

pub length-keep_if : {A : Type 0} (p : A → Bool) (xs : List A) → length (keep_if p xs) ≤ length xs
length-keep_if p [] = omega arith
length-keep_if p (x ∷ xs) = elim (Bool-cases (p x)) [
  | inl kept ↦ rw kept (omega (arith, length-keep_if p xs))
  | inr dropped ↦ rw dropped (omega (arith, length-keep_if p xs))
]

pub length-prune :
    (states : Map PlayerState) (q : List PlayerId) → length (prune states q) ≤ length q
unfolding prune
length-prune states [] = omega arith
length-prune states (id ∷ q) = elim (Bool-cases (is_active states id)) [
  | inl here ↦ rw here (omega arith)
  | inr gone ↦ rw gone (omega (arith, length-prune states q))
]

pub length-ring :
    (ids : List PlayerId) (offset rounds i : ℕ) → length (ring ids offset rounds i) ≡ rounds
unfolding ring
length-ring ids offset zero i = omega arith
length-ring ids offset (suc rounds) i = omega (arith, length-ring ids offset rounds (i + 1))
