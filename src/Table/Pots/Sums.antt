-- ===== src/Table/Pots/Sums.antt =====
-- engine/src/table.cc, `build_side_pots` and `total_committed`: whatever order the map is iterated
-- in, the chips that were put in are the chips of the pots.
use mathlib.Core.List.{Perm, Permᴰ}
use mathlib.Core.Logic.{∥∥₁_elim}
use native.Mathlib.Nat.{ℕ_set}
use poker_epoll.Base.{
  ℕ, ◌+◌, ◌≤◌, ◌<◌, ◌≡◌, refl, ap, ◌∙◌, List, [], ◌∷◌, Map, total, done, arith, u64_size,
  add64_exact,
}
use poker_epoll.Rules.{PlayerId, Chips}
use poker_epoll.Table.{HandState, SidePot}
use poker_epoll.Table.Environment.{Env, IsLawful}
use poker_epoll.Table.Pots.{
  insert_by_amount, sort_by_amount, positive, contributions, build_side_pots, add_all,
  total_committed,
}
use poker_epoll.Table.Pots.Layers.{layers, pots_loop-eq-layers, pot_sum, Ascending, pot_sum-layers}

total-permᴰ : (m n : Map Chips) → Permᴰ m n → total m ≡ total n
total-permᴰ _ _ Permᴰ.nil = refl
total-permᴰ _ _ (Permᴰ.cons {l₁ = m} {l₂ = n} e p) =
    let h = ap {B = ℕ} (λ (x : ℕ × Chips). x.1) e in omega (arith, h, total-permᴰ m n p)
total-permᴰ _ _ (Permᴰ.swap e f) =
    let h = ap {B = ℕ} (λ (x : ℕ × Chips). x.1) e in
    let k = ap {B = ℕ} (λ (x : ℕ × Chips). x.1) f in omega (arith, h, k)
total-permᴰ _ _ (Permᴰ.trans {l₁ = l} {l₂ = m} {l₃ = n} p q) = total-permᴰ l m p ∙ total-permᴰ m n q

pub total-perm : (m n : Map Chips) → Perm m n → total m ≡ total n
total-perm m n p = ∥∥₁_elim p (ℕ_set _ _) (total-permᴰ m n)

total-insert_by_amount :
    (e : PlayerId × Chips) (c : Map Chips) → total (insert_by_amount e c) ≡ e.1 + total c
unfolding insert_by_amount
total-insert_by_amount e [] = refl
total-insert_by_amount e (x ∷ c) = ground (arith, total-insert_by_amount e c)

total-sort_by_amount : (c : Map Chips) → total (sort_by_amount c) ≡ total c
unfolding sort_by_amount
total-sort_by_amount [] = refl
total-sort_by_amount (x ∷ c) =
    omega (arith, total-insert_by_amount x (sort_by_amount c), total-sort_by_amount c)

total-positive : (c : Map Chips) → total (positive c) ≡ total c
total-positive [] = refl
total-positive (x ∷ c) = ground (arith, total-positive c)

insert_by_amount-Ascending :
    (low : Chips) (e : PlayerId × Chips) (c : Map Chips)
    → low ≤ e.1
    → Ascending low c
    → Ascending low (insert_by_amount e c)
unfolding insert_by_amount
insert_by_amount-Ascending low e [] h k = (h, tt)
insert_by_amount-Ascending low e (x ∷ c) h k = ground (arith, insert_by_amount-Ascending x.1 e c)

sort_by_amount-Ascending : (c : Map Chips) → Ascending 0 (sort_by_amount c)
unfolding sort_by_amount
sort_by_amount-Ascending [] = tt
sort_by_amount-Ascending (x ∷ c) =
    insert_by_amount-Ascending 0 x (sort_by_amount c) (omega arith) (sort_by_amount-Ascending c)

module _ (env : Env) (lawful : IsLawful env) (h : HandState) where
  pub total-contributions : total (contributions env h) ≡ total h.committed
  unfolding contributions
  total-contributions =
      total-sort_by_amount (positive (env.committed_order h.committed))
      ∙ total-positive (env.committed_order h.committed)
      ∙ total-perm _ _ (lawful.committed_perm h.committed)

  pub contributions-Ascending : Ascending 0 (contributions env h)
  unfolding contributions
  contributions-Ascending = sort_by_amount-Ascending (positive (env.committed_order h.committed))

  -- The loops of `build_side_pots` end: they give the layers of the sorted contributions.
  pub build_side_pots-eq-layers :
      build_side_pots env h ≡ done (layers h.player_state 0 (contributions env h))
  unfolding build_side_pots
  build_side_pots-eq-layers =
      pots_loop-eq-layers _ h.player_state 0 (contributions env h) (omega arith)

  -- The loops end, and the pots hold what was committed, where that does not overflow.
  pub pot_sum-build_side_pots :
      total h.committed < u64_size
      → (pots : List SidePot) × (build_side_pots env h ≡ done pots)
        × (pot_sum pots ≡ total h.committed)
  pot_sum-build_side_pots small = (
    layers h.player_state 0 (contributions env h),
    build_side_pots-eq-layers,
    omega (
      arith,
      total-contributions,
      pot_sum-layers h.player_state 0 (contributions env h) contributions-Ascending
          (omega (arith, total-contributions)),
    ),
  )

add_all-eq :
    (acc : Chips) (m : Map Chips) → acc + total m < u64_size → add_all acc m ≡ acc + total m
unfolding add_all
add_all-eq acc [] h = omega arith
add_all-eq acc ((id, amount) ∷ m) h =
    ground (arith, add64_exact acc amount, add_all-eq (acc + amount) m)

-- The sum over the map, in any order.
pub total_committed_lem :
    (env : Env) (h : HandState)
    → IsLawful env
    → total h.committed < u64_size
    → total_committed env h ≡ total h.committed
unfolding total_committed
total_committed_lem env h lawful small =
    let e = total-perm _ _ (lawful.committed_perm h.committed) in
    omega (arith, e, add_all-eq 0 (env.committed_order h.committed) (omega (arith, e)))
