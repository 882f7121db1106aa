-- ===== src/Table/Showdown/Payments.antt =====
-- engine/src/table.cc, `distribute_side_pots`: the pots are paid out in full.
use native.Mathlib.Nat.{div-add-mod', mod-lt}
use poker_epoll.Base.{
  All-keep_if, ℕ, suc, ◌+◌, ◌-◌, ◌*◌, ◌/◌, ◌%◌, ◌<◌, ◌≡◌, refl, ap, ◌∙◌, List, [], ◌∷◌, ◌++◌, All,
  length, keep_if, contains, Bool, true, Outcome, done, ltb, ◌==◌, min, arith, u64_size,
  if◌then◌else◌, Bool-cases, inl, inr, subst, eq_of_==,
}
use poker_epoll.Rules.{PlayerId, Chips}
use poker_epoll.Players.{PlayerManager, is_sat}
use poker_epoll.Players.Seating.{IsSeated}
use poker_epoll.Players.Purses.{purses, Kept, Kept-refl, Kept-trans, award_Kept, get_chips_total}
use poker_epoll.Table.{HandState, SidePot, Event, won_pot, player_chips}
use poker_epoll.Table.Environment.{Env}
use poker_epoll.Table.Showdown.{award_chips, pay_loop, pay_winners, pay_pot, pay_pots}
use poker_epoll.Table.Showdown.Winners.{HasHole, winners_some}

-- The run ends with these chips on the table, and with the same players.
abbrev pub Paid : PlayerManager → Chips → Outcome (List Event × PlayerManager) → Type 0
Paid m amount out =
    (events : List Event) × (m' : PlayerManager) × (out ≡ done (events, m'))
    × Kept m m'
    × (purses m' ≡ purses m + amount)

pub award_chips-Paid :
    (id : PlayerId) (amount : Chips) (events : List Event) (m : PlayerManager)
    → IsSeated m
    → is_sat id m ≡ true
    → purses m + amount < u64_size
    → Paid m amount (award_chips id amount events m)
unfolding award_chips
award_chips-Paid id amount events m v sat small = elim (Bool-cases (amount == 0)) [
  | inl nothing ↦ (events, m, rw (nothing, award_chips), Kept-refl m v, ground arith)
  | inr something ↦
      let (m', awarded, kept, total) = award_Kept m id v sat amount small in
      let (c, chips, bound) = get_chips_total m' id kept.seating (kept.sat id ∙ sat) in
      (
        events ++ won_pot id amount ∷ player_chips id c ∷ [],
        m',
        rw (something, award_chips, awarded, chips),
        kept,
        total,
      )
]

pub payout_split :
    (share remainder n : ℕ)
    → (if ltb 0 remainder then share + 1 else share) + (share * n + min (remainder - 1) n)
      ≡ share * suc n + min remainder (suc n)
payout_split share remainder n = ground arith

pub still_sat :
    (m m' : PlayerManager) (ids : List PlayerId)
    → Kept m m'
    → All (λ id. is_sat id m ≡ true) ids
    → All (λ id. is_sat id m' ≡ true) ids
still_sat m m' [] kept h = tt
still_sat m m' (id ∷ ids) kept h = (kept.sat id ∙ h.0, still_sat m m' ids kept h.1)

-- Each of the players gets the share, and the first `remainder` of them one chip more.
pay_loop-Paid :
    (share remainder : Chips) (ids : List PlayerId) (events : List Event) (m : PlayerManager)
    → IsSeated m
    → All (λ id. is_sat id m ≡ true) ids
    → purses m + share * length ids + min remainder (length ids) < u64_size
    → Paid m
        (share * length ids + min remainder (length ids))
        (pay_loop share remainder ids events m)
unfolding pay_loop
pay_loop-Paid share remainder [] events m v sat small =
    (events, m, refl, Kept-refl m v, omega arith)
pay_loop-Paid share remainder (id ∷ ids) events m v sat small =
    let n : ℕ = length ids in
    let payout : ℕ = if ltb 0 remainder then share + 1 else share in
    let all : payout + (share * n + min (remainder - 1) n) ≡ share * suc n + min remainder (suc n) =
      ground (arith, payout_split share remainder n) in
    let (events', m', first, kept, total) =
      award_chips-Paid id payout events m v sat.0 (omega (arith, all)) in
    let (events'', m'', others, kept', total') =
      pay_loop-Paid share (remainder - 1) ids events' m' kept.seating
        (still_sat m m' ids kept sat.1) (omega (arith, all)) in
    (events'', m'', rw (first, others), Kept-trans kept kept', omega (arith, all))

pub shares_total : (a k : ℕ) → (a / suc k) * suc k + min (a % suc k) (suc k) ≡ a
shares_total a k = omega (arith, div-add-mod' a (suc k), mod-lt a {m = suc k} (omega arith))

pub pay_winners-Paid :
    (id : PlayerId) (ids : List PlayerId) (amount : Chips) (events : List Event) (m : PlayerManager)
    → IsSeated m
    → All (λ id. is_sat id m ≡ true) (id ∷ ids)
    → purses m + amount < u64_size
    → Paid m amount (pay_winners (id ∷ ids) amount events m)
unfolding pay_winners
pay_winners-Paid id ids amount events m v sat small =
    let n : ℕ = length (id ∷ ids) in
    let all : (amount / n) * n + min (amount % n) n ≡ amount = shares_total amount (length ids) in
    let (events', m', paid, kept, total) =
      pay_loop-Paid (amount / n) (amount % n) (id ∷ ids) events m v sat (omega (arith, all)) in
    (events', m', paid, kept, omega (arith, all))

-- What the loop over the pots needs of each eligible player.
abbrev pub InHand : HandState → PlayerManager → PlayerId → Type 0
InHand h m id = HasHole h id × (is_sat id m ≡ true) × (contains id h.participants ≡ true)

-- A pot for which somebody is eligible is paid in full; any other stays unpaid.
abbrev pub payable : SidePot → Chips
payable pot = elim pot.eligible [ [] ↦ 0 | id ∷ ids ↦ pot.amount ]

-- A property of every element, at one that is found.
pub All-contains :
    (P : PlayerId → Type 0) (y : PlayerId) (xs : List PlayerId)
    → All P xs
    → contains y xs ≡ true
    → P y
All-contains P y [] a h = cc
All-contains P y (x ∷ xs) a h = elim (Bool-cases (x == y)) [
  | inl here ↦ subst P (eq_of_== x y here) a.0
  | inr there ↦ All-contains P y xs a.1 (ground arith)
]

pub contains-kept :
    (p : PlayerId → Bool) (y : PlayerId) (xs : List PlayerId)
    → p y ≡ true
    → contains y xs ≡ true
    → contains y (keep_if p xs) ≡ true
contains-kept p y [] h k = k
contains-kept p y (x ∷ xs) h k = ground (arith, contains-kept p y xs h, λ (q : x ≡ y). ap p q)

-- The winners in the order of the table: there is one, and all are seated.
pay_ordered-Paid :
    (h : HandState) (w : PlayerId) (ws : List PlayerId) (amount : Chips) (events : List Event)
    (m : PlayerManager)
    → IsSeated m
    → ((y : PlayerId) → contains y (w ∷ ws) ≡ true → InHand h m y)
    → purses m + amount < u64_size
    → Paid m amount
        (pay_winners (keep_if (λ y. contains y (w ∷ ws)) h.participants) amount events m)
pay_ordered-Paid h w ws amount events m v ok small =
    go (keep_if (λ y. contains y (w ∷ ws)) h.participants)
      (contains-kept (λ y. contains y (w ∷ ws)) w h.participants first (ok w first).2)
      (All-keep_if (λ y. is_sat y m ≡ true) (λ y. contains y (w ∷ ws)) h.participants
        (λ y k. (ok y k).1))
  where
    first : contains w (w ∷ ws) ≡ true
    first = ground arith

    go :
        (ordered : List PlayerId)
        → contains w ordered ≡ true
        → All (λ y. is_sat y m ≡ true) ordered
        → Paid m amount (pay_winners ordered amount events m)
    go [] c a = cc
    go (id ∷ ids) c a = pay_winners-Paid id ids amount events m v a small

pub pay_pot-Paid :
    (env : Env) (h : HandState) (amount : Chips) (eligible : List PlayerId) (events : List Event)
    (m : PlayerManager)
    → IsSeated m
    → All (InHand h m) eligible
    → purses m + payable (record { amount = amount; eligible = eligible }) < u64_size
    → Paid m
        (payable (record { amount = amount; eligible = eligible }))
        (pay_pot env h (record { amount = amount; eligible = eligible }) events m)
unfolding pay_pot
pay_pot-Paid env h amount [] events m v ok small = (events, m, refl, Kept-refl m v, omega arith)
pay_pot-Paid env h amount (x ∷ rest) events m v ok small =
    let (w, ws, won, inside) = winners_some env h x rest (holes (x ∷ rest) ok) in
    rw won (
      pay_ordered-Paid h w ws amount events m v
        (λ y k. All-contains (InHand h m) y (x ∷ rest) ok (inside y k)) small)
  where
    holes : (xs : List PlayerId) → All (InHand h m) xs → All (HasHole h) xs
    holes [] a = tt
    holes (y ∷ ys) a = (a.0.0, holes ys a.1)

pub still_in :
    (h : HandState) (m m' : PlayerManager) (ids : List PlayerId)
    → Kept m m'
    → All (InHand h m) ids
    → All (InHand h m') ids
still_in h m m' [] kept a = tt
still_in h m m' (y ∷ ys) kept a = ((a.0.0, kept.sat y ∙ a.0.1, a.0.2), still_in h m m' ys kept a.1)

pub still_in_pots :
    (h : HandState) (m m' : PlayerManager) (pots : List SidePot)
    → Kept m m'
    → All (λ pot. All (InHand h m) pot.eligible) pots
    → All (λ pot. All (InHand h m') pot.eligible) pots
still_in_pots h m m' [] kept a = tt
still_in_pots h m m' (pot ∷ pots) kept a =
    (still_in h m m' pot.eligible kept a.0, still_in_pots h m m' pots kept a.1)

abbrev pub payable_sum : List SidePot → Chips
payable_sum [] = 0
payable_sum (pot ∷ pots) = payable pot + payable_sum pots

-- The loop over the pots pays every pot for which somebody is eligible, and nothing else.
pub pay_pots-Paid :
    (env : Env) (h : HandState) (pots : List SidePot) (events : List Event) (m : PlayerManager)
    → IsSeated m
    → All (λ pot. All (InHand h m) pot.eligible) pots
    → purses m + payable_sum pots < u64_size
    → Paid m (payable_sum pots) (pay_pots env h pots events m)
unfolding pay_pots
pay_pots-Paid env h [] events m v ok small = (events, m, refl, Kept-refl m v, omega arith)
pay_pots-Paid env h (pot ∷ pots) events m v ok small =
    let (events', m', first, kept, total) =
      pay_pot-Paid env h pot.amount pot.eligible events m v ok.0 (omega arith) in
    let (events'', m'', others, kept', total') =
      pay_pots-Paid env h pots events' m' kept.seating (still_in_pots h m m' pots kept ok.1)
        (omega arith) in
    (events'', m'', rw (first, others), Kept-trans kept kept', omega arith)
