-- ===== src/Table/Pots/Fairness.antt =====
-- engine/src/table.cc, `build_side_pots`: the stake of a player, over the map of what was committed,
-- whatever the order in which the map is iterated.
use mathlib.Core.List.{Permᴰ}
use mathlib.Core.List.Perm
use mathlib.Core.Path.{subst₂}
use mathlib.Core.Logic.{∥∥₁_elim}
use native.Mathlib.Nat.{ℕ_set}
use poker_epoll.Base.{
  ℕ, ◌<◌, ◌≡◌, refl, ◌∙◌, List, [], ◌∷◌, none, some, true, Map, lookup, total, done, leb, arith,
  u64_size, sym, subst, Bool-cases, inl, inr,
}
use poker_epoll.Rules.{PlayerId, Chips}
use poker_epoll.Players.Seating.{Unique}
use poker_epoll.Table.{HandState, SidePot}
use poker_epoll.Table.Environment.{Env, IsLawful}
use poker_epoll.Table.Turns.{is_live}
use poker_epoll.Table.Pots.{
  insert_by_amount, sort_by_amount, positive, contributions, build_side_pots,
}
use poker_epoll.Table.Pots.Layers.{layers}
use poker_epoll.Table.Pots.Sums.{
  build_side_pots-eq-layers, contributions-Ascending, total-contributions,
}
use poker_epoll.Table.Pots.Stakes.{stake, stake-layers, total_up_to}

-- Two maps with the same entries.
record Agree (m n : Map Chips) : Type 0 where
  unique : Unique n
  found : (k : ℕ) → lookup k m ≡ lookup k n
  capped : (a : Chips) → total_up_to a m ≡ total_up_to a n

Agree-refl : (m : Map Chips) → Unique m → Agree m m
Agree-refl m u = record { unique = u; found = λ k. refl; capped = λ a. refl }

Agree-trans : {l m n : Map Chips} → Agree l m → Agree m n → Agree l n
Agree-trans h k = record {
  unique = k.unique;
  found = λ i. h.found i ∙ k.found i;
  capped = λ a. h.capped a ∙ k.capped a;
}

Agree-cons :
    (e : PlayerId × Chips) {m n : Map Chips} → Unique (e ∷ m) → Agree m n → Agree (e ∷ m) (e ∷ n)
Agree-cons e u h = record {
  unique = (sym (h.found e.0) ∙ u.0, h.unique);
  found = λ i. ground (arith, h.found i);
  capped = λ a. omega (arith, h.capped a);
}

Agree-swap :
    (d e : PlayerId × Chips) (m : Map Chips) → Unique (d ∷ e ∷ m) → Agree (d ∷ e ∷ m) (e ∷ d ∷ m)
Agree-swap d e m u = record {
  unique = ground (arith, u);
  found = λ i. ground (arith, u);
  capped = λ a. omega arith;
}

Agree-permᴰ : (m n : Map Chips) → Permᴰ m n → Unique m → Agree m n
Agree-permᴰ _ _ Permᴰ.nil u = Agree-refl [] u
Agree-permᴰ _ _ (Permᴰ.cons {a = d} {l₁ = m} {l₂ = n} e p) u =
    subst (λ x. Agree (d ∷ m) (x ∷ n)) e (Agree-cons d u (Agree-permᴰ m n p u.1))
Agree-permᴰ _ _ (Permᴰ.swap {a = a} {b = b} {l = l} e f) u =
    subst₂ (λ x y. Agree (a ∷ b ∷ l) (x ∷ y ∷ l)) f e (Agree-swap a b l u)
Agree-permᴰ _ _ (Permᴰ.trans {l₁ = l} {l₂ = m} {l₃ = n} p q) u =
    let h = Agree-permᴰ l m p u in Agree-trans h (Agree-permᴰ m n q h.unique)

insert_by_amount-Agree :
    (e : PlayerId × Chips) (c : Map Chips) → Unique (e ∷ c) → Agree (e ∷ c) (insert_by_amount e c)
unfolding insert_by_amount
insert_by_amount-Agree e [] u = Agree-refl (e ∷ []) u
insert_by_amount-Agree e (x ∷ c) u = elim (Bool-cases (leb e.1 x.1)) [
  | inl before ↦ rw before (Agree-refl (e ∷ x ∷ c) u)
  | inr after ↦
      let swapped = Agree-swap e x c u in
      rw after (
        Agree-trans swapped
          (Agree-cons x swapped.unique (insert_by_amount-Agree e c swapped.unique.1)))
]

sort_by_amount-Agree : (c : Map Chips) → Unique c → Agree c (sort_by_amount c)
unfolding sort_by_amount
sort_by_amount-Agree [] u = Agree-refl [] u
sort_by_amount-Agree (x ∷ c) u =
    let sorted = Agree-cons x u (sort_by_amount-Agree c u.1) in
    Agree-trans sorted (insert_by_amount-Agree x (sort_by_amount c) sorted.unique)

positive-none : (id : PlayerId) (c : Map Chips) → lookup id c ≡ none → lookup id (positive c) ≡ none
positive-none id [] h = refl
positive-none id (e ∷ c) h = ground (arith, positive-none id c)

positive-Unique : (c : Map Chips) → Unique c → Unique (positive c)
positive-Unique [] u = tt
positive-Unique (e ∷ c) u = ground (arith, positive-Unique c u.1, positive-none e.0 c u.0)

lookup-positive :
    (id : PlayerId) (a : Chips) (c : Map Chips)
    → 0 < a
    → lookup id c ≡ some a
    → lookup id (positive c) ≡ some a
lookup-positive id a [] h e = cc
lookup-positive id a (x ∷ c) h e = ground (arith, lookup-positive id a c h)

total_up_to-positive : (a : Chips) (c : Map Chips) → total_up_to a (positive c) ≡ total_up_to a c
total_up_to-positive a [] = refl
total_up_to-positive a (e ∷ c) = ground (arith, total_up_to-positive a c)

module _ (env : Env) (lawful : IsLawful env) (h : HandState) (id : PlayerId) (a : Chips) where
  stake_ordered :
      Unique h.committed
      → total h.committed < u64_size
      → lookup id h.committed ≡ some a
      → 0 < a
      → is_live h.player_state id ≡ true
      → Permᴰ h.committed (env.committed_order h.committed)
      → stake id (layers h.player_state 0 (contributions env h)) ≡ total_up_to a h.committed
  unfolding contributions
  stake_ordered u small e pos live p =
      let order = env.committed_order h.committed in
      let visited = Agree-permᴰ h.committed order p u in
      let sorted = sort_by_amount-Agree (positive order) (positive-Unique order visited.unique) in
      let known : lookup id (contributions env h) ≡ some a =
        sym (sorted.found id) ∙ lookup-positive id a order pos (sym (visited.found id) ∙ e) in
      omega (
        arith,
        stake-layers h.player_state id 0 a (contributions env h) live sorted.unique
            (contributions-Ascending env lawful h) (omega (arith, total-contributions env lawful h))
            known,
        sorted.capped a,
        total_up_to-positive a order,
        visited.capped a,
      )

  -- In the pots that `build_side_pots` makes, a player who is still in and has put chips in can win
  -- from every player, and from the player's own chips, what was put in up to the player's own
  -- contribution: no more, and nothing less. No player is entered twice, and the chips do not
  -- overflow.
  pub stake-build_side_pots :
      Unique h.committed
      → total h.committed < u64_size
      → lookup id h.committed ≡ some a
      → 0 < a
      → is_live h.player_state id ≡ true
      → (pots : List SidePot) × (build_side_pots env h ≡ done pots)
        × (stake id pots ≡ total_up_to a h.committed)
  stake-build_side_pots u small e pos live = (
    layers h.player_state 0 (contributions env h),
    build_side_pots-eq-layers env lawful h,
    ∥∥₁_elim (Perm.symm (lawful.committed_perm h.committed)) (ℕ_set _ _)
        (stake_ordered u small e pos live),
  )
