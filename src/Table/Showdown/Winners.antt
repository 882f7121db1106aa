-- ===== src/Table/Showdown/Winners.antt =====
-- engine/src/table.cc, `distribute_side_pots`: the loop that finds the winners of a pot.
use mathlib.Core.List.{append_assoc, append-nil}
use poker_epoll.Base.{
  ℕ, ◌≤◌, ◌≡◌, refl, ap, sym, contains, ◌∙◌, List, [], ◌∷◌, ◌++◌, All, keep_if, none, some, Bool,
  true, false, ◌&&◌, lookup, has_key, done, ltb, leb, ◌==◌, min, arith, if◌then◌else◌, Bool-cases,
  inl, inr,
}
use poker_epoll.Rules.{PlayerId}
use poker_epoll.Table.{HandState}
use poker_epoll.Table.Environment.{Env}
use poker_epoll.Table.Showdown.{rank_best_of_seven, hand_rank, better, winners_loop, winners}

-- The rank of a player's hand; less is better.
unfoldable pub strength : Env → HandState → PlayerId → ℕ
strength env h id = elim (lookup id h.player_holes) [
  | none ↦ 0
  | some hole ↦ rank_best_of_seven env (hole ++ h.table_cards)
]

-- The players who have hole cards.
abbrev pub HasHole : HandState → PlayerId → Type 0
HasHole h id = has_key id h.player_holes ≡ true

hand_rank-strength :
    (env : Env) (h : HandState) (id : PlayerId)
    → HasHole h id
    → hand_rank env h id ≡ done (strength env h id)
unfolding hand_rank strength
hand_rank-strength env h id k = ground arith

module _ (r : PlayerId → ℕ) where
  -- No player of the list has a better hand than `rank`.
  abbrev pub unbeaten : ℕ → List PlayerId → Bool
  unbeaten rank [] = true
  unbeaten rank (x ∷ xs) = leb rank (r x) && unbeaten rank xs

  lowest : ℕ → List PlayerId → ℕ
  lowest best [] = best
  lowest best (x ∷ xs) = lowest (min best (r x)) xs

  lowest-le : (best : ℕ) (xs : List PlayerId) → lowest best xs ≤ best
  unfolding lowest
  lowest-le best [] = omega arith
  lowest-le best (x ∷ xs) = omega (arith, lowest-le (min best (r x)) xs)

  lowest_at : (a b : ℕ) (xs : List PlayerId) → a ≡ b → lowest a xs ≡ lowest b xs
  lowest_at a b xs e = ap (λ c. lowest c xs) e

  lowest-All : (best : ℕ) (xs : List PlayerId) → All (λ x. lowest best xs ≤ r x) xs
  unfolding lowest
  lowest-All best [] = tt
  lowest-All best (x ∷ xs) =
      (omega (arith, lowest-le (min best (r x)) xs), lowest-All (min best (r x)) xs)

  lowest-reached :
      (best : ℕ) (xs : List PlayerId)
      → keep_if (λ x. r x == lowest best xs) xs ≡ []
      → lowest best xs ≡ best
  unfolding lowest
  lowest-reached best xs e = reached best (lowest best xs) xs refl e
    where
      reached :
          (b low : ℕ) (ys : List PlayerId)
          → lowest b ys ≡ low
          → keep_if (λ x. r x == low) ys ≡ []
          → low ≡ b
      reached b low [] q e = sym q
      reached b low (y ∷ ys) q e = ground (arith, reached (min b (r y)) low ys q)

  unbeaten-lowest :
      (rank best : ℕ) (xs : List PlayerId)
      → (leb rank best && unbeaten rank xs) ≡ leb rank (lowest best xs)
  unfolding lowest
  unbeaten-lowest rank best [] = ground arith
  unbeaten-lowest rank best (x ∷ xs) = ground (arith, unbeaten-lowest rank (min best (r x)) xs)

  keep_lowest :
      (low : ℕ) (test : ℕ → Bool) (xs : List PlayerId)
      → ((rank : ℕ) → test rank ≡ leb rank low)
      → All (λ x. low ≤ r x) xs
      → keep_if (λ x. r x == low) xs ≡ keep_if (λ x. test (r x)) xs
  keep_lowest low test [] h all = refl
  keep_lowest low test (x ∷ xs) h all = ground (arith, h (r x), keep_lowest low test xs h all.1)

pub contains-keep_if_sub :
    (p : PlayerId → Bool) (y : PlayerId) (xs : List PlayerId)
    → contains y (keep_if p xs) ≡ true
    → contains y xs ≡ true
contains-keep_if_sub p y [] h = h
contains-keep_if_sub p y (x ∷ xs) h = ground (arith, contains-keep_if_sub p y xs)

module _ (id w : PlayerId) (ws : List PlayerId) (rank best : ℕ) where
  better_less : ltb rank best ≡ true → better id rank (w ∷ ws, best) ≡ (id ∷ [], rank)
  unfolding better
  better_less h = rw h

  better_same :
      ltb rank best ≡ false
      → (rank == best) ≡ true
      → better id rank (w ∷ ws, best) ≡ (w ∷ ws ++ id ∷ [], best)
  unfolding better
  better_same h k = rw (h, k)

  better_other :
      ltb rank best ≡ false
      → (rank == best) ≡ false
      → better id rank (w ∷ ws, best) ≡ (w ∷ ws, best)
  unfolding better
  better_other h k = rw (h, k)

module _ (env : Env) (h : HandState) where
  -- What the loop makes of a list, once `low` is the lowest rank of all.
  abbrev leaders : ℕ → ℕ → List PlayerId → List PlayerId → List PlayerId
  leaders low best ws rest =
      (if best == low then ws else []) ++ keep_if (λ x. strength env h x == low) rest

  winners_loop_lem :
      (rest : List PlayerId) (w : PlayerId) (ws : List PlayerId) (best low : ℕ)
      → lowest (strength env h) best rest ≡ low
      → All (HasHole h) rest
      → winners_loop env h rest (w ∷ ws, best) ≡ done (leaders low best (w ∷ ws) rest)
  unfolding winners_loop lowest
  winners_loop_lem [] w ws best low e k = ground (arith, append-nil (w ∷ ws))
  winners_loop_lem (x ∷ rest) w ws best low e k =
      let r : ℕ = strength env h x in
      let below = lowest-le (strength env h) (min best r) rest in
      rw (hand_rank-strength env h x k.0) (elim (Bool-cases (ltb r best)) [
        | inl less ↦ rw (better_less x w ws r best less) (
            ground (
              arith,
              e,
              below,
              lowest_at (strength env h) (min best r) r rest,
              winners_loop_lem rest x [] r low,
            ))
        | inr more ↦ elim (Bool-cases (r == best)) [
          | inl same ↦ rw (better_same x w ws r best more same) (
              ground (
                arith,
                e,
                below,
                lowest_at (strength env h) (min best r) best rest,
                winners_loop_lem rest w (ws ++ x ∷ []) best low,
                append_assoc (w ∷ ws) (x ∷ []) (keep_if (λ y. strength env h y == low) rest),
              ))
          | inr other ↦ rw (better_other x w ws r best more other) (
              ground (
                arith,
                e,
                below,
                lowest_at (strength env h) (min best r) best rest,
                winners_loop_lem rest w ws best low,
              ))
        ]
      ])

  abbrev low_of : PlayerId → List PlayerId → ℕ
  low_of x rest = lowest (strength env h) (strength env h x) rest

  winners_low :
      (x : PlayerId) (rest : List PlayerId)
      → All (HasHole h) (x ∷ rest)
      → winners env h (x ∷ rest)
        ≡ done (keep_if (λ y. strength env h y == low_of x rest) (x ∷ rest))
  unfolding winners winners_loop better
  winners_low x rest k =
      rw
        (
          hand_rank-strength env h x k.0,
          winners_loop_lem rest x [] (strength env h x) (low_of x rest) refl k.1,
        )
        (ground arith)

  -- The winners of a pot are the eligible players whom no eligible player beats, all of them and
  -- nobody else, in the order of the list.
  pub winners_lem :
      (eligible : List PlayerId)
      → All (HasHole h) eligible
      → winners env h eligible
        ≡ done (keep_if (λ x. unbeaten (strength env h) (strength env h x) eligible) eligible)
  unfolding winners winners_loop
  winners_lem [] k = refl
  winners_lem (x ∷ rest) k =
      let s = strength env h in
      winners_low x rest k
      ∙ ap done (
          keep_lowest s (low_of x rest) (λ rank. unbeaten s rank (x ∷ rest)) (x ∷ rest)
            (λ rank. unbeaten-lowest s rank (s x) rest)
            (lowest-le s (s x) rest, lowest-All s (s x) rest))

  -- There is a winner, and every winner is eligible.
  pub winners_some :
      (x : PlayerId) (rest : List PlayerId)
      → All (HasHole h) (x ∷ rest)
      → (w : PlayerId) × (ws : List PlayerId) × (winners env h (x ∷ rest) ≡ done (w ∷ ws))
        × ((y : PlayerId) → contains y (w ∷ ws) ≡ true → contains y (x ∷ rest) ≡ true)
  winners_some x rest k = go (keep_if (λ y. strength env h y == low_of x rest) (x ∷ rest)) refl
    where
      go :
          (found : List PlayerId)
          → keep_if (λ y. strength env h y == low_of x rest) (x ∷ rest) ≡ found
          → (w : PlayerId) × (ws : List PlayerId) × (winners env h (x ∷ rest) ≡ done (w ∷ ws))
            × ((y : PlayerId) → contains y (w ∷ ws) ≡ true → contains y (x ∷ rest) ≡ true)
      go [] e = absurd (ground (arith, e, lowest-reached (strength env h) (strength env h x) rest))
      go (w ∷ ws) e = (
        w,
        ws,
        winners_low x rest k ∙ ap done e,
        λ y q. contains-keep_if_sub (λ z. strength env h z == low_of x rest) y (x ∷ rest) (rw e q),
      )
