-- ===== src/Players/Seating/Sitters.antt =====
-- engine/src/player_manager.cc: whom the walks over the seats come to. All of them sit at the table,
-- and there are no more of them than seats.
use poker_epoll.Base.{
  ℕ, zero, suc, ◌+◌, ◌≤◌, ◌<◌, ◌≡◌, inl, inr, List, [], ◌∷◌, ◌++◌, Option, none, some, true, length,
  length-append, take, drop, contains, ◌==◌, arith, Bool-cases,
}
use poker_epoll.Rules.{PlayerId}
use poker_epoll.Players.{Player, PlayerManager, occupant, is_sat}
use poker_epoll.Players.Seating.{IsSeated, sitter, contains-append}
use poker_epoll.Players.Seating.Rounds.{sitters}

pub contains-sitters :
    (id : PlayerId) (seats : List (Option Player))
    → contains id (sitters seats) ≡ true
    → (s : ℕ) × (sitter seats s ≡ some id)
contains-sitters id [] h = cc
contains-sitters id (none ∷ seats) h = let (s, e) = contains-sitters id seats h in (suc s, e)
contains-sitters id (some p ∷ seats) h = elim (Bool-cases (p.id == id)) [
  | inl here ↦ (zero, ground arith)
  | inr there ↦ let (s, e) = contains-sitters id seats (ground arith) in (suc s, e)
]

pub sitters-occupant :
    (seats : List (Option Player)) (s : ℕ) (p : Player)
    → occupant seats s ≡ some p
    → contains p.id (sitters seats) ≡ true
sitters-occupant [] s p e = cc
sitters-occupant (none ∷ seats) zero p e = cc
sitters-occupant (some q ∷ seats) zero p e = ground arith
sitters-occupant (none ∷ seats) (suc s) p e = sitters-occupant seats s p e
sitters-occupant (some q ∷ seats) (suc s) p e = ground (arith, sitters-occupant seats s p e)

contains-drop :
    (id : PlayerId) (n : ℕ) (seats : List (Option Player))
    → contains id (sitters (drop n seats)) ≡ true
    → contains id (sitters seats) ≡ true
contains-drop id zero seats h = h
contains-drop id (suc n) [] h = cc
contains-drop id (suc n) (none ∷ seats) h = contains-drop id n seats h
contains-drop id (suc n) (some p ∷ seats) h = ground (arith, contains-drop id n seats h)

contains-take :
    (id : PlayerId) (n : ℕ) (seats : List (Option Player))
    → contains id (sitters (take n seats)) ≡ true
    → contains id (sitters seats) ≡ true
contains-take id zero seats h = cc
contains-take id (suc n) [] h = cc
contains-take id (suc n) (none ∷ seats) h = contains-take id n seats h
contains-take id (suc n) (some p ∷ seats) h = ground (arith, contains-take id n seats)

-- The players whom a cycle from seat `k` lists after the first.
abbrev pub others_from : ℕ → List (Option Player) → List PlayerId
others_from k seats = sitters (drop (suc k) seats) ++ sitters (take k seats)

contains-others_from :
    (id : PlayerId) (k : ℕ) (seats : List (Option Player))
    → contains id (others_from k seats) ≡ true
    → contains id (sitters seats) ≡ true
contains-others_from id k seats h = ground (
  arith,
  contains-append id (sitters (drop (suc k) seats)) (sitters (take k seats)),
  contains-drop id (suc k) seats,
  contains-take id k seats,
)

length-sitters : (seats : List (Option Player)) → length (sitters seats) ≤ length seats
length-sitters [] = omega arith
length-sitters (none ∷ seats) = omega (arith, length-sitters seats)
length-sitters (some p ∷ seats) = omega (arith, length-sitters seats)

length-around :
    (k : ℕ) (seats : List (Option Player))
    → k < length seats
    → length (sitters (drop (suc k) seats)) + length (sitters (take k seats)) < length seats
length-around k [] h = elim h [ ]
length-around zero (o ∷ seats) h = omega (arith, length-sitters seats)
length-around (suc k) (none ∷ seats) h = omega (arith, length-around k seats (omega arith))
length-around (suc k) (some p ∷ seats) h = omega (arith, length-around k seats (omega arith))

pub length-others_from :
    (k : ℕ) (seats : List (Option Player))
    → k < length seats
    → length (others_from k seats) < length seats
length-others_from k seats h = omega (
  arith,
  length-append (sitters (drop (suc k) seats)) (sitters (take k seats)),
  length-around k seats h,
)

module _ (m : PlayerManager) (v : IsSeated m) where
  pub sitter_sat : (id s : ℕ) → sitter m.seats s ≡ some id → is_sat id m ≡ true
  unfolding is_sat
  sitter_sat id s e = ground (arith, v.owned s id e)

  pub contains-sitters_sat :
      (id : PlayerId) → contains id (sitters m.seats) ≡ true → is_sat id m ≡ true
  contains-sitters_sat id h = let (s, e) = contains-sitters id m.seats h in sitter_sat id s e

  pub others_sat :
      (id : PlayerId) (k : ℕ) → contains id (others_from k m.seats) ≡ true → is_sat id m ≡ true
  others_sat id k h = contains-sitters_sat id (contains-others_from id k m.seats h)
