-- ===== src/Table/Pots/Stakes.antt =====
-- engine/src/table.cc, `build_side_pots`: what one player can win. The pots for which a player is
-- eligible hold, from every player, what that player put in up to the player's own contribution.
use poker_epoll.Base.{
  ℕ, suc, ◌+◌, ◌-◌, ◌*◌, ◌≤◌, ◌<◌, ◌≡◌, refl, ap, ◌∙◌, List, [], ◌∷◌, ◌++◌, length, none, some,
  Bool, true, false, Map, lookup, total, contains, keep_if, ◌==◌, min, arith, Bool-cases, inl, inr,
  u64_size, mul64_exact, if◌then◌else◌,
}
use poker_epoll.Rules.{PlayerId, Chips}
use poker_epoll.Players.Seating.{Unique}
use poker_epoll.Table.{PlayerState, SidePot}
use poker_epoll.Table.Turns.{is_live}
use poker_epoll.Table.Pots.{ids, layer_pot}
use poker_epoll.Table.Pots.Layers.{
  layers, Ascending, Ascending-total, layer_area, higher, length-ids,
}

-- The chips of the pots for which `id` is eligible.
abbrev pub stake : PlayerId → List SidePot → Chips
stake id [] = 0
stake id (p ∷ pots) = (if contains id p.eligible then p.amount else 0) + stake id pots

-- What every entry holds up to `a`, in all.
abbrev pub total_up_to : Chips → Map Chips → Chips
total_up_to a [] = 0
total_up_to a ((id, amount) ∷ m) = min amount a + total_up_to a m

stake-append :
    (id : PlayerId) (ps qs : List SidePot) → stake id (ps ++ qs) ≡ stake id ps + stake id qs
stake-append id [] qs = omega arith
stake-append id (p ∷ ps) qs = omega (arith, stake-append id ps qs)

contains-keep_if :
    (p : PlayerId → Bool) (id : PlayerId) (xs : List PlayerId)
    → p id ≡ true
    → contains id (keep_if p xs) ≡ contains id xs
contains-keep_if p id [] h = refl
contains-keep_if p id (x ∷ xs) h =
    ground (arith, contains-keep_if p id xs h, λ (q : x ≡ id). ap p q)

contains-ids-none :
    (id : PlayerId) (c : Map Chips) → lookup id c ≡ none → contains id (ids c) ≡ false
contains-ids-none id [] h = refl
contains-ids-none id (e ∷ c) h = ground (arith, contains-ids-none id c)

contains-ids-some :
    (id : PlayerId) (a : Chips) (c : Map Chips) → lookup id c ≡ some a → contains id (ids c) ≡ true
contains-ids-some id a [] h = cc
contains-ids-some id a (e ∷ c) h = ground (arith, contains-ids-some id a c)

not-contains-keep_if :
    (p : PlayerId → Bool) (id : PlayerId) (xs : List PlayerId)
    → contains id xs ≡ false
    → contains id (keep_if p xs) ≡ false
not-contains-keep_if p id [] h = refl
not-contains-keep_if p id (x ∷ xs) h = ground (arith, not-contains-keep_if p id xs)

total_up_to_low :
    (a low : Chips) (c : Map Chips) → a ≤ low → Ascending low c → total_up_to a c ≡ a * length c
total_up_to_low a low [] l h = omega arith
total_up_to_low a low ((k, level) ∷ rest) l h =
    grind (arith, total_up_to_low a level rest (omega arith) h.1)

Ascending-lookup :
    (low a : Chips) (id : PlayerId) (c : Map Chips)
    → Ascending low c
    → lookup id c ≡ some a
    → low ≤ a
Ascending-lookup low a id [] h e = cc
Ascending-lookup low a id ((k, level) ∷ rest) h e =
    ground (arith, Ascending-lookup level a id rest h.1)

module _ (states : Map PlayerState) (id : PlayerId) where
  stake-layer_pot_in :
      (previous level : Chips) (remaining : List PlayerId)
      → contains id (keep_if (is_live states) remaining) ≡ true
      → (level - previous) * length remaining < u64_size
      → stake id (layer_pot states previous level remaining) ≡ (level - previous) * length remaining
  unfolding layer_pot
  stake-layer_pot_in previous level remaining h b =
      ground (arith, mul64_exact (level - previous) (length remaining) b)

  stake-layer_pot_out :
      (previous level : Chips) (remaining : List PlayerId)
      → contains id (keep_if (is_live states) remaining) ≡ false
      → stake id (layer_pot states previous level remaining) ≡ 0
  unfolding layer_pot
  stake-layer_pot_out previous level remaining h = ground arith

  pub stake-layers_out :
      (previous : Chips) (c : Map Chips)
      → lookup id c ≡ none
      → stake id (layers states previous c) ≡ 0
  unfolding layers
  stake-layers_out previous [] h = refl
  stake-layers_out previous ((k, level) ∷ rest) h =
      let gone : contains id (keep_if (is_live states) (k ∷ ids rest)) ≡ false =
        not-contains-keep_if (is_live states) id (k ∷ ids rest)
          (contains-ids-none id ((k, level) ∷ rest) h) in
      omega (
        arith,
        stake-append id (layer_pot states previous level (k ∷ ids rest))
            (layers states (higher previous level) rest),
        stake-layer_pot_out previous level (k ∷ ids rest) gone,
        stake-layers_out (higher previous level) rest (ground arith),
      )

  pub stake-layers :
      (previous a : Chips) (c : Map Chips)
      → is_live states id ≡ true
      → Unique c
      → Ascending previous c
      → total c < u64_size
      → lookup id c ≡ some a
      → stake id (layers states previous c) + previous * length c ≡ total_up_to a c
  unfolding layers
  stake-layers previous a [] live u h b e = cc
  stake-layers previous a ((k, level) ∷ rest) live u h b e =
      let e_level : higher previous level ≡ level = ground arith in
      let e_length : length (k ∷ ids rest) ≡ suc (length rest) = ap suc (length-ids rest) in
      let small : (level - previous) * suc (length rest) < u64_size =
        omega
          (arith, layer_area previous level (length rest) h.0, Ascending-total level rest h.1) in
      let inside : contains id (keep_if (is_live states) (k ∷ ids rest)) ≡ true =
        contains-keep_if (is_live states) id (k ∷ ids rest) live
        ∙ contains-ids-some id a ((k, level) ∷ rest) e in
      let first : stake id (layer_pot states previous level (k ∷ ids rest))
          ≡ (level - previous) * suc (length rest) =
        rw (← e_length)
          (stake-layer_pot_in previous level (k ∷ ids rest) inside (rw e_length small)) in
      rw e_level (elim (Bool-cases (id == k)) [
        | inl own ↦
            let e_a : level ≡ a = ground arith in
            let alone : lookup id rest ≡ none = ground (arith, u) in
            omega (
              arith,
              e_a,
              first,
              layer_area previous level (length rest) h.0,
              stake-append id (layer_pot states previous level (k ∷ ids rest))
                  (layers states level rest),
              stake-layers_out level rest alone,
              total_up_to_low a level rest (omega arith) h.1,
              ap {B = ℕ} (λ (t : ℕ). t * length rest) e_a,
            )
        | inr other ↦
            let later : lookup id rest ≡ some a = ground arith in
            omega (
              arith,
              first,
              layer_area previous level (length rest) h.0,
              stake-append id (layer_pot states previous level (k ∷ ids rest))
                  (layers states level rest),
              stake-layers level a rest live u.1 h.1 (omega arith) later,
              Ascending-lookup level a id rest h.1 later,
            )
      ])
