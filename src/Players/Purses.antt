-- ===== src/Players/Purses.antt =====
-- engine/src/player_manager.cc: the chips of the seated players. What a bet takes from a purse and
-- what an award adds, over a manager that satisfies the invariant of the seats.
use poker_epoll.Base.{
  ℕ, zero, suc, ◌+◌, ◌-◌, ◌≤◌, ◌<◌, ◌≡◌, refl, ap, ◌∙◌, List, [], ◌∷◌, Option, none, some, true,
  length, set, lookup, done, u64_size, add64_exact, sub64_exact, ◌==◌, if◌then◌else◌, arith,
  Option-cases, inl, inr, length-set,
}
use poker_epoll.Rules.{PlayerId, Chips}
use poker_epoll.Players.{
  Player, PlayerManager, occupant, seated, update_player, place_bet, award_chips, get_chips, is_sat,
}
use poker_epoll.Players.Seating.{IsSeated, sitter-set}
use poker_epoll.Players.Seating.Changes.{seat_bound}

abbrev pub purse_of : Option Player → Chips
purse_of none = 0
purse_of (some p) = p.purse

abbrev pub purse_sum : List (Option Player) → Chips
purse_sum [] = 0
purse_sum (o ∷ seats) = purse_of o + purse_sum seats

-- All chips in the purses of a table.
abbrev pub purses : PlayerManager → Chips
purses m = purse_sum m.seats

pub purse_sum-set :
    (seats : List (Option Player)) (s : ℕ) (o : Option Player)
    → s < length seats
    → purse_sum (set seats s o) + purse_of (occupant seats s) ≡ purse_sum seats + purse_of o
purse_sum-set [] s o h = elim h [ ]
purse_sum-set (x ∷ seats) zero o h = ground arith
purse_sum-set (x ∷ seats) (suc s) o h = ground (arith, purse_sum-set seats s o)

pub occupant-set :
    (seats : List (Option Player)) (s t : ℕ) (v : Option Player)
    → s < length seats
    → occupant (set seats s v) t ≡ (if t == s then v else occupant seats t)
occupant-set [] s t v h = elim h [ ]
occupant-set (x ∷ seats) zero zero v h = refl
occupant-set (x ∷ seats) zero (suc t) v h = ground arith
occupant-set (x ∷ seats) (suc s) zero v h = ground arith
occupant-set (x ∷ seats) (suc s) (suc t) v h = ground (arith, occupant-set seats s t v)

pub seated_seat :
    (m : PlayerManager) (id : PlayerId) (p : Player)
    → seated id m ≡ some p
    → (s : ℕ) × (lookup id m.index ≡ some s) × (occupant m.seats s ≡ some p)
seated_seat m id p e = elim (Option-cases (lookup id m.index)) [
  | inl unknown ↦ absurd (ground arith)
  | inr (s, known) ↦ (s, known, ground arith)
]

-- The player that the index leads to has the identifier that was asked for.
pub seated_id :
    (m : PlayerManager) (id : PlayerId) (p : Player) → IsSeated m → seated id m ≡ some p → p.id ≡ id
seated_id m id p v e =
    let (s, known, sits) = seated_seat m id p e in ground (arith, v.placed id s known)

-- `m'` is `m` with another purse for the player `p`.
pub record Repursed (m m' : PlayerManager) (p : Player) (purse : Chips) : Type 0 where
  pub seating : IsSeated m'
  pub same_index : m'.index ≡ m.index
  pub same_open : m'.open_seats ≡ m.open_seats
  pub same_holding : m'.holding ≡ m.holding
  pub balance : purses m' + p.purse ≡ purses m + purse
  pub others :
      (j : PlayerId)
      → seated j m' ≡ (if j == p.id then some (record p { purse = purse }) else seated j m)

update_at :
    (id s : ℕ) (q : Player) (m : PlayerManager)
    → lookup id m.index ≡ some s
    → update_player id q m ≡ record m { seats = set m.seats s (some q) }
update_at id s q m known = ground arith

module _ (m : PlayerManager) (id : PlayerId) (p : Player) (v : IsSeated m)
    (e : seated id m ≡ some p) where
  update-Repursed :
      (purse : Chips) → Repursed m (update_player id (record p { purse = purse }) m) p purse
  update-Repursed purse =
      let (s, known, sits) = seated_seat m id p e in
      let bound : s < length m.seats = seat_bound m id s v known in
      let e_id : p.id ≡ id = seated_id m id p v e in
      let new : Option Player = some (record p { purse = purse }) in
      rw (update_at id s (record p { purse = purse }) m known) (record {
        seating = record {
          seats_length = ground (arith, v.seats_length, length-set m.seats s new);
          once = v.once;
          accounted = v.accounted;
          unique = v.unique;
          held_once = v.held_once;
          held_known = v.held_known;
          placed = λ j t h. ground (arith, v.placed j t h, sitter-set m.seats s t new bound);
          vacant = λ t h. ground (arith, v.vacant t h, sitter-set m.seats s t new bound);
          owned = λ t j h. ground (arith, v.owned t j, sitter-set m.seats s t new bound);
        };
        same_index = refl;
        same_open = refl;
        same_holding = refl;
        balance = ground (arith, purse_sum-set m.seats s new bound);
        others = λ j. elim (Option-cases (lookup j m.index)) [
          | inl unknown ↦ ground (arith, v.placed id s known)
          | inr (t, known_j) ↦
              ground (
                arith,
                v.placed id s known,
                v.placed j t known_j,
                occupant-set m.seats s t new bound,
              )
        ];
      })

  -- A bet that the purse covers is taken from it exactly.
  pub place_bet_lem :
      (amount : Chips)
      → amount ≤ p.purse
      → p.purse < u64_size
      → (m' : PlayerManager) × (place_bet id amount m ≡ done m')
        × Repursed m m' p (p.purse - amount)
  unfolding place_bet
  place_bet_lem amount covers small = (
    update_player id (record p { purse = p.purse - amount }) m,
    ground (arith, sub64_exact p.purse amount covers small),
    update-Repursed (p.purse - amount),
  )

  -- An award that does not overflow is added to the purse exactly.
  pub award_chips_lem :
      (amount : Chips)
      → p.purse + amount < u64_size
      → (m' : PlayerManager) × (award_chips id amount m ≡ done m')
        × Repursed m m' p (p.purse + amount)
  unfolding award_chips
  award_chips_lem amount small = (
    update_player id (record p { purse = p.purse + amount }) m,
    ground (arith, add64_exact p.purse amount small),
    update-Repursed (p.purse + amount),
  )

  pub get_chips_lem : get_chips id m ≡ done p.purse
  unfolding get_chips
  get_chips_lem = ground arith

  pub is_sat_lem : is_sat id m ≡ true
  unfolding is_sat
  is_sat_lem = ground arith

  pub purse-le-purses : p.purse ≤ purses m
  purse-le-purses =
      let (s, known, sits) = seated_seat m id p e in
      ground (arith, purse_sum-set m.seats s none (seat_bound m id s v known))

-- `m'` has the players and the seats of `m`; only purses may differ.
pub record Kept (m m' : PlayerManager) : Type 0 where
  pub seating : IsSeated m'
  pub same_index : m'.index ≡ m.index
  pub same_open : m'.open_seats ≡ m.open_seats
  pub same_holding : m'.holding ≡ m.holding
  pub sat : (j : PlayerId) → is_sat j m' ≡ is_sat j m

pub Kept-refl : (m : PlayerManager) → IsSeated m → Kept m m
Kept-refl m v = record {
  seating = v;
  same_index = refl;
  same_open = refl;
  same_holding = refl;
  sat = λ j. refl;
}

pub Kept-trans : {l m n : PlayerManager} → Kept l m → Kept m n → Kept l n
Kept-trans h k = record {
  seating = k.seating;
  same_index = k.same_index ∙ h.same_index;
  same_open = k.same_open ∙ h.same_open;
  same_holding = k.same_holding ∙ h.same_holding;
  sat = λ j. k.sat j ∙ h.sat j;
}

pub Repursed-Kept :
    (m m' : PlayerManager) (id : PlayerId) (p : Player) (purse : Chips)
    → seated id m ≡ some p
    → p.id ≡ id
    → Repursed m m' p purse
    → Kept m m'
unfolding is_sat
Repursed-Kept m m' id p purse e e_id r = record {
  seating = r.seating;
  same_index = r.same_index;
  same_open = r.same_open;
  same_holding = r.same_holding;
  sat = λ j. ground (arith, r.others j, λ (q : j ≡ id). ap (λ i. seated i m) q);
}

-- A player who is seated has a purse.
pub sat_player :
    (m : PlayerManager) (id : PlayerId) → is_sat id m ≡ true → (p : Player) × (seated id m ≡ some p)
unfolding is_sat
sat_player m id h = elim (Option-cases (seated id m)) [
  | inl nobody ↦ absurd (ground arith)
  | inr found ↦ found
]

module _ (m : PlayerManager) (id : PlayerId) (v : IsSeated m) (sat : is_sat id m ≡ true) where
  -- An award that does not overflow goes through, and adds to the chips of the table.
  pub award_Kept :
      (amount : Chips)
      → purses m + amount < u64_size
      → (m' : PlayerManager) × (award_chips id amount m ≡ done m')
        × Kept m m'
        × (purses m' ≡ purses m + amount)
  award_Kept amount small =
      let (p, e) = sat_player m id sat in
      let (m', awarded, r) =
        award_chips_lem m id p v e amount (omega (arith, purse-le-purses m id p v e)) in
      (
        m',
        awarded,
        Repursed-Kept m m' id p (p.purse + amount) e (seated_id m id p v e) r,
        omega (arith, r.balance),
      )

  pub get_chips_total : (c : Chips) × (get_chips id m ≡ done c) × (c ≤ purses m)
  get_chips_total =
      let (p, e) = sat_player m id sat in
      (p.purse, get_chips_lem m id p v e, purse-le-purses m id p v e)
