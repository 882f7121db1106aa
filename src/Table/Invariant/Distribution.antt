-- ===== src/Table/Invariant/Distribution.antt =====
-- engine/src/table.cc, `distribute_side_pots`: at a showdown nothing fails, and the chips that were
-- put in go to purses, but for the pots for which nobody is eligible.
use poker_epoll.Base.{
  All-keep_if, ◌+◌, ◌≡◌, refl, subst, List, [], ◌∷◌, ◌++◌, All, All-append, Returns, Map, lookup,
  total, done, ltb, arith, if◌then◌else◌, Option-cases, Bool-cases, inl, inr,
}
use poker_epoll.Rules.{PlayerId, Chips}
use poker_epoll.Players.{PlayerManager}
use poker_epoll.Table.{HandState, SidePot, Event, showdown_hand}
use poker_epoll.Table.Environment.{Env, IsLawful}
use poker_epoll.Table.Turns.{is_live}
use poker_epoll.Table.Pots.{layer_pot, contributions, build_side_pots, ids}
use poker_epoll.Table.Pots.Layers.{layers, pot_sum, pot_sum-layers}
use poker_epoll.Table.Pots.Sums.{
  build_side_pots-eq-layers, contributions-Ascending, total-contributions,
}
use poker_epoll.Table.Showdown.{show_hands, distribute_side_pots}
use poker_epoll.Table.Showdown.Payments.{InHand, Paid, payable_sum, pay_pots-Paid}
use poker_epoll.Table.Showdown.Shares.{Gains, won_by, pay_pots-Gains}
use poker_epoll.Table.Invariant.{IsHand}

-- The chips of the pots for which nobody is eligible.
abbrev pub unpaid : List SidePot → Chips
unpaid [] = 0
unpaid (pot ∷ pots) = (elim pot.eligible [ [] ↦ pot.amount | id ∷ ids ↦ 0 ]) + unpaid pots

pub payable-unpaid : (pots : List SidePot) → payable_sum pots + unpaid pots ≡ pot_sum pots
payable-unpaid [] = refl
payable-unpaid (pot ∷ pots) = ground (arith, payable-unpaid pots)

module _ (m : PlayerManager) (h : HandState) (v : IsHand m h) where
  show_hands-done :
      (ids : List PlayerId) (events : List Event)
      → (shown : List Event) × (show_hands h ids events ≡ done shown)
  unfolding show_hands
  show_hands-done [] events = (events, refl)
  show_hands-done (id ∷ ids) events = elim (Bool-cases (is_live h.player_state id)) [
    | inr out ↦ let (shown, e) = show_hands-done ids events in (shown, rw (out, show_hands) e)
    | inl live ↦ elim (Option-cases (lookup id h.player_holes)) [
      | inl missing ↦ absurd (ground (arith, v.in_play id live))
      | inr (hole, known) ↦
          let (shown, e) = show_hands-done ids (events ++ showdown_hand id hole ∷ []) in
          (shown, rw (live, known, show_hands) e)
    ]
  ]

  layer_pot-InHand :
      (previous level : Chips) (remaining : List PlayerId)
      → All
          (λ pot. All (InHand h m) pot.eligible)
          (layer_pot h.player_state previous level remaining)
  unfolding layer_pot
  layer_pot-InHand previous level remaining =
      ground (arith, All-keep_if (InHand h m) (is_live h.player_state) remaining v.in_play)

  layers-InHand :
      (previous : Chips) (c : Map Chips)
      → All (λ pot. All (InHand h m) pot.eligible) (layers h.player_state previous c)
  unfolding layers
  layers-InHand previous [] = tt
  layers-InHand previous ((id, level) ∷ rest) =
      All-append (λ pot. All (InHand h m) pot.eligible)
        (layer_pot h.player_state previous level (id ∷ ids rest))
        (layers h.player_state (if ltb previous level then level else previous) rest)
        (layer_pot-InHand previous level (id ∷ ids rest))
        (layers-InHand (if ltb previous level then level else previous) rest)

  -- A showdown goes through, and its chips are accounted for: what the purses gain, with the pots
  -- for which nobody is eligible, is what was put in.
  pub distribute_side_pots-Paid :
      (env : Env) (events : List Event)
      → IsLawful env
      → (pots : List SidePot) × (build_side_pots env h ≡ done pots)
        × Paid m (payable_sum pots) (distribute_side_pots env h events m)
        × (payable_sum pots + unpaid pots ≡ total h.committed)
  unfolding distribute_side_pots
  distribute_side_pots-Paid env events lawful =
      let pots = layers h.player_state 0 (contributions env h) in
      let built = build_side_pots-eq-layers env lawful h in
      let all : payable_sum pots + unpaid pots ≡ total h.committed = omega (
        arith,
        payable-unpaid pots,
        total-contributions env lawful h,
        v.solvent,
        pot_sum-layers h.player_state 0 (contributions env h) (contributions-Ascending env lawful h)
            (omega (arith, total-contributions env lawful h, v.solvent)),
      ) in
      let (shown, e) = show_hands-done h.participants events in
      let (events', m', paid, kept, sum) =
        pay_pots-Paid env h pots shown m v.seating (layers-InHand 0 (contributions env h))
          (omega (arith, all, v.solvent)) in
      (pots, built, (events', m', rw (e, built) paid, kept, sum), all)

  -- The pots that are built are for players who are in the hand.
  pots_InHand :
      (env : Env)
      → IsLawful env
      → (pots : List SidePot) → build_side_pots env h ≡ done pots
      → All (λ pot. All (InHand h m) pot.eligible) pots
  pots_InHand env lawful pots built =
      let e = build_side_pots-eq-layers env lawful h in
      let same : layers h.player_state 0 (contributions env h) ≡ pots = cc in
      subst (All (λ pot. All (InHand h m) pot.eligible)) same
        (layers-InHand 0 (contributions env h))

  -- In a hand that satisfies the invariant, a showdown ends, and every player's purse gains exactly the parts
  -- that the player has of the pots that build_side_pots makes: a pot is shared evenly among the
  -- eligible players whom no eligible player beats, the odd chips go to the first of them at the table, and
  -- nothing else changes about any player.
  pub distribute_side_pots-Gains :
      (env : Env) (events : List Event)
      → IsLawful env
      → (pots : List SidePot) × (build_side_pots env h ≡ done pots)
        × Returns (λ r. Gains m (won_by env h pots) r.1) (distribute_side_pots env h events m)
  unfolding distribute_side_pots
  distribute_side_pots-Gains env events lawful =
      let (pots, built, paid, all) = distribute_side_pots-Paid env events lawful in
      let (shown, e) = show_hands-done h.participants events in
      (
        pots,
        built,
        rw (e, built)
            (pay_pots-Gains env h pots shown m v.seating (pots_InHand env lawful pots built)
              (omega (arith, all, v.solvent))),
      )
