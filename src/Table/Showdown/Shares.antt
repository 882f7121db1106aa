-- ===== src/Table/Showdown/Shares.antt =====
-- engine/src/table.cc, `distribute_side_pots`: what each player gets of the pots, to the chip.
use poker_epoll.Base.{
  All-keep_if, ℕ, suc, ◌+◌, ◌-◌, ◌*◌, ◌/◌, ◌%◌, ◌<◌, ◌≡◌, refl, ap, sym, subst, ◌∙◌, List, [], ◌∷◌,
  All, length, keep_if, contains, Bool, true, false, Option, none, some, Returns, Returns-map, ltb,
  ◌==◌, min, arith, u64_size, if◌then◌else◌, Bool-cases, inl, inr, eq_of_==,
}
use poker_epoll.Rules.{PlayerId, Chips}
use poker_epoll.Players.{Player, PlayerManager, is_sat, seated}
use poker_epoll.Players.Seating.{IsSeated}
use poker_epoll.Players.Purses.{
  purses, Repursed, Repursed-Kept, award_chips_lem, purse-le-purses, seated_id, sat_player,
  get_chips_total,
}
use poker_epoll.Table.{HandState, SidePot, Event}
use poker_epoll.Table.Environment.{Env}
use poker_epoll.Table.Showdown.{award_chips, pay_loop, pay_winners, pay_pot, pay_pots}
use poker_epoll.Table.Showdown.Payments.{
  award_chips-Paid, payout_split, still_sat, shares_total, payable, payable_sum, InHand,
  contains-kept, still_in_pots, pay_pot-Paid, All-contains,
}
use poker_epoll.Table.Showdown.Winners.{HasHole, winners_lem, winners_some, unbeaten, strength}

-- The player with more chips in the purse.
abbrev gains : Option Player → Chips → Option Player
gains none amount = none
gains (some p) amount = some (record p { purse = p.purse + amount })

-- Every player of `m` has in `m'` as many chips more as `won` says, and nothing else has changed.
abbrev pub Gains : PlayerManager → (PlayerId → Chips) → PlayerManager → Type 0
Gains m won m' = (j : PlayerId) → seated j m' ≡ gains (seated j m) (won j)

gains_none : (o : Option Player) → gains o 0 ≡ o
gains_none none = refl
gains_none (some p) = ap (λ (n : ℕ). some (record p { purse = n })) (omega arith)

gains-gains : (o : Option Player) (a b : Chips) → gains (gains o a) b ≡ gains o (a + b)
gains-gains none a b = refl
gains-gains (some p) a b = ap (λ (n : ℕ). some (record p { purse = n })) (omega arith)

Gains-trans :
    (m m' m'' : PlayerManager) (f g : PlayerId → Chips)
    → Gains m f m'
    → Gains m' g m''
    → Gains m (λ j. f j + g j) m''
Gains-trans m m' m'' f g h k j =
    (k j ∙ ap (λ o. gains o (g j)) (h j)) ∙ gains-gains (seated j m) (f j) (g j)

-- The player alone has more.
Repursed-Gains :
    (m m' : PlayerManager) (id : PlayerId) (p : Player) (amount : Chips)
    → seated id m ≡ some p
    → p.id ≡ id
    → Repursed m m' p (p.purse + amount)
    → Gains m (λ j. if j == id then amount else 0) m'
Repursed-Gains m m' id p amount e e_id r j = elim (Bool-cases (j == id)) [
  | inl here ↦
      let known : seated j m ≡ some p = ap (λ i. seated i m) (eq_of_== j id here) ∙ e in
      let mine : j == p.id ≡ true = ground (arith, e_id) in
      let at : seated j m' ≡ some (record p { purse = p.purse + amount }) =
        r.others j
        ∙ ap (λ (b : Bool). if b then some (record p { purse = p.purse + amount }) else seated j m)
            mine in
      rw here (at ∙ sym (ap (λ o. gains o amount) known))
  | inr away ↦
      let not_mine : j == p.id ≡ false = ground (arith, e_id) in
      let at : seated j m' ≡ seated j m =
        r.others j
        ∙ ap (λ (b : Bool). if b then some (record p { purse = p.purse + amount }) else seated j m)
            not_mine in
      rw away (at ∙ sym (gains_none (seated j m)))
]

award_chips-Gains :
    (id : PlayerId) (amount : Chips) (events : List Event) (m : PlayerManager)
    → IsSeated m
    → is_sat id m ≡ true
    → purses m + amount < u64_size
    → Returns
        (λ r. Gains m (λ j. if j == id then amount else 0) r.1)
        (award_chips id amount events m)
unfolding award_chips
award_chips-Gains id amount events m v sat small = elim (Bool-cases (amount == 0)) [
  | inl nothing ↦
      rw (nothing, award_chips)
        (λ j. sym (ap (λ n. gains (seated j m) n) (ground arith) ∙ gains_none (seated j m)))
  | inr something ↦
      let (p, e) = sat_player m id sat in
      let e_id = seated_id m id p v e in
      let (m', awarded, r) =
        award_chips_lem m id p v e amount (omega (arith, purse-le-purses m id p v e)) in
      let kept = Repursed-Kept m m' id p (p.purse + amount) e e_id r in
      let (c, chips, bound) = get_chips_total m' id kept.seating (kept.sat id ∙ sat) in
      rw (something, award_chips, awarded, chips) (Repursed-Gains m m' id p amount e e_id r)
]

-- What a player gets when the first `remainder` of the players get one chip more than the share.
abbrev pub share_of : PlayerId → Chips → Chips → List PlayerId → Chips
share_of j share remainder [] = 0
share_of j share remainder (id ∷ ids) =
    (if j == id then (if ltb 0 remainder then share + 1 else share) else 0)
    + share_of j share (remainder - 1) ids

pay_loop-Gains :
    (share remainder : Chips) (ids : List PlayerId) (events : List Event) (m : PlayerManager)
    → IsSeated m
    → All (λ id. is_sat id m ≡ true) ids
    → purses m + share * length ids + min remainder (length ids) < u64_size
    → Returns
        (λ r. Gains m (λ j. share_of j share remainder ids) r.1)
        (pay_loop share remainder ids events m)
unfolding pay_loop
pay_loop-Gains share remainder [] events m v sat small = λ j. sym (gains_none (seated j m))
pay_loop-Gains share remainder (id ∷ ids) events m v sat small =
    let n : ℕ = length ids in
    let payout : ℕ = if ltb 0 remainder then share + 1 else share in
    let all : payout + (share * n + min (remainder - 1) n) ≡ share * suc n + min remainder (suc n) =
      ground (arith, payout_split share remainder n) in
    let room : purses m + payout < u64_size = omega (arith, all) in
    let (events', m', first, kept, total) = award_chips-Paid id payout events m v sat.0 room in
    let won =
      subst (Returns (λ r. Gains m (λ j. if j == id then payout else 0) r.1)) first
        (award_chips-Gains id payout events m v sat.0 room) in
    rw first (
      Returns-map _ _ (pay_loop share (remainder - 1) ids events' m')
        (pay_loop-Gains share (remainder - 1) ids events' m' kept.seating
          (still_sat m m' ids kept sat.1) (omega (arith, all)))
        (λ r later. Gains-trans m m' r.1 _ _ won later))

-- What a player gets of an amount that the players share in their order.
abbrev pub part_of : PlayerId → Chips → List PlayerId → Chips
part_of j amount ids = share_of j (amount / length ids) (amount % length ids) ids

pay_winners-Gains :
    (id : PlayerId) (ids : List PlayerId) (amount : Chips) (events : List Event) (m : PlayerManager)
    → IsSeated m
    → All (λ id. is_sat id m ≡ true) (id ∷ ids)
    → purses m + amount < u64_size
    → Returns
        (λ r. Gains m (λ j. part_of j amount (id ∷ ids)) r.1)
        (pay_winners (id ∷ ids) amount events m)
unfolding pay_winners
pay_winners-Gains id ids amount events m v sat small =
    pay_loop-Gains (amount / suc (length ids)) (amount % suc (length ids)) (id ∷ ids) events m v sat
      (omega (arith, shares_total amount (length ids)))

-- Those among the eligible players whom no eligible player beats, in the order of the table.
abbrev pub best_of : Env → HandState → List PlayerId → List PlayerId
best_of env h eligible =
    keep_if
      (λ id.
        contains id (keep_if (λ x. unbeaten (strength env h) (strength env h x) eligible) eligible))
      h.participants

-- What a player gets of the pots: of each pot, a part if the player is among the best of it.
abbrev pub won_by : Env → HandState → List SidePot → PlayerId → Chips
won_by env h [] j = 0
won_by env h (pot ∷ pots) j =
    part_of j pot.amount (best_of env h pot.eligible) + won_by env h pots j

keep_none : (ids : List PlayerId) → keep_if (λ id. contains id []) ids ≡ []
keep_none [] = refl
keep_none (id ∷ ids) = keep_none ids

-- The winners in the order of the table: there is one, and all are seated.
pay_ordered-Gains :
    (h : HandState) (w : PlayerId) (ws : List PlayerId) (amount : Chips) (events : List Event)
    (m : PlayerManager)
    → IsSeated m
    → ((y : PlayerId) → contains y (w ∷ ws) ≡ true → InHand h m y)
    → purses m + amount < u64_size
    → Returns
        (λ r.
          Gains m (λ j. part_of j amount (keep_if (λ y. contains y (w ∷ ws)) h.participants)) r.1)
        (pay_winners (keep_if (λ y. contains y (w ∷ ws)) h.participants) amount events m)
pay_ordered-Gains h w ws amount events m v ok small =
    go (keep_if (λ y. contains y (w ∷ ws)) h.participants)
      (contains-kept (λ y. contains y (w ∷ ws)) w h.participants first (ok w first).2)
      (All-keep_if (λ y. is_sat y m ≡ true) (λ y. contains y (w ∷ ws)) h.participants
        (λ y k. (ok y k).1))
  where
    first : contains w (w ∷ ws) ≡ true
    first = ground arith

    go :
        (ordered : List PlayerId)
        → contains w ordered ≡ true
        → All (λ y. is_sat y m ≡ true) ordered
        → Returns
            (λ r. Gains m (λ j. part_of j amount ordered) r.1)
            (pay_winners ordered amount events m)
    go [] c a = cc
    go (id ∷ ids) c a = pay_winners-Gains id ids amount events m v a small

pay_pot-Gains :
    (env : Env) (h : HandState) (amount : Chips) (eligible : List PlayerId) (events : List Event)
    (m : PlayerManager)
    → IsSeated m
    → All (InHand h m) eligible
    → purses m + payable (record { amount = amount; eligible = eligible }) < u64_size
    → Returns
        (λ r. Gains m (λ j. part_of j amount (best_of env h eligible)) r.1)
        (pay_pot env h (record { amount = amount; eligible = eligible }) events m)
unfolding pay_pot
pay_pot-Gains env h amount [] events m v ok small =
    rw (keep_none h.participants) (λ j. sym (gains_none (seated j m)))
pay_pot-Gains env h amount (x ∷ rest) events m v ok small =
    let (w, ws, won, inside) = winners_some env h x rest (holes (x ∷ rest) ok) in
    let best = winners_lem env h (x ∷ rest) (holes (x ∷ rest) ok) in
    let same : w ∷ ws
        ≡ keep_if (λ y. unbeaten (strength env h) (strength env h y) (x ∷ rest)) (x ∷ rest) =
      cc in
    rw won (
      subst
        (λ b.
          Returns
            (λ r. Gains m (λ j. part_of j amount (keep_if (λ y. contains y b) h.participants)) r.1)
            (pay_winners (keep_if (λ y. contains y (w ∷ ws)) h.participants) amount events m))
        same
        (pay_ordered-Gains h w ws amount events m v
          (λ y k. All-contains (InHand h m) y (x ∷ rest) ok (inside y k)) small))
  where
    holes : (xs : List PlayerId) → All (InHand h m) xs → All (HasHole h) xs
    holes [] a = tt
    holes (y ∷ ys) a = (a.0.0, holes ys a.1)

-- Where the eligible players are seated with hole cards and the chips do not overflow, every player's purse
-- gains exactly the parts that the player has of the pots: a pot is shared evenly among the eligible
-- players whom no eligible player beats, and the odd chips go to the first of them at the table. Nothing
-- else changes about any player.
pub pay_pots-Gains :
    (env : Env) (h : HandState) (pots : List SidePot) (events : List Event) (m : PlayerManager)
    → IsSeated m
    → All (λ pot. All (InHand h m) pot.eligible) pots
    → purses m + payable_sum pots < u64_size
    → Returns (λ r. Gains m (won_by env h pots) r.1) (pay_pots env h pots events m)
unfolding pay_pots
pay_pots-Gains env h [] events m v ok small = λ j. sym (gains_none (seated j m))
pay_pots-Gains env h (pot ∷ pots) events m v ok small =
    let room : purses m + payable pot < u64_size = omega (arith, small) in
    let (events', m', first, kept, total) =
      pay_pot-Paid env h pot.amount pot.eligible events m v ok.0 room in
    let won =
      subst (Returns (λ r. Gains m (λ j. part_of j pot.amount (best_of env h pot.eligible)) r.1))
        first (pay_pot-Gains env h pot.amount pot.eligible events m v ok.0 room) in
    rw first (
      Returns-map _ _ (pay_pots env h pots events' m')
        (pay_pots-Gains env h pots events' m' kept.seating (still_in_pots h m m' pots kept ok.1)
          (omega (arith, small, total)))
        (λ r later. Gains-trans m m' r.1 _ _ won later))
