-- ===== src/Table/Pots.antt =====
-- engine/src/table.cc: the chips that were put in, layered into side pots.
pub mod Layers
pub mod Sums
pub mod Stakes
pub mod Fairness
use poker_epoll.Base.{
  ℕ, zero, suc, ◌+◌, ◌-◌, List, [], ◌∷◌, ◌++◌, map, length, keep_if, Bool, Map, Outcome, done,
  fault, ◌>>=◌, ltb, leb, ◌==◌, if◌then◌else◌, add64, mul64,
}
use poker_epoll.Rules.{PlayerId, Chips}
use poker_epoll.Players.{drop_first}
use poker_epoll.Table.{HandState, PlayerState, SidePot}
use poker_epoll.Table.Environment.{Env}
use poker_epoll.Table.Turns.{is_live}

-- `std::sort` by amount. It is not stable; the entries come in an order that the environment
-- chooses, so every sorted order that it may give is among the results.
unfoldable pub insert_by_amount : PlayerId × Chips → Map Chips → Map Chips
insert_by_amount e [] = e ∷ []
insert_by_amount e (x ∷ xs) = if leb e.1 x.1 then e ∷ x ∷ xs else x ∷ insert_by_amount e xs

unfoldable pub sort_by_amount : Map Chips → Map Chips
sort_by_amount [] = []
sort_by_amount (x ∷ xs) = insert_by_amount x (sort_by_amount xs)

-- `contributions`, before it is sorted.
abbrev pub positive : Map Chips → Map Chips
positive m = keep_if (λ e. ltb 0 e.1) m

abbrev pub ids : Map Chips → List PlayerId
ids m = map (λ e. e.0) m

-- The inner loop: pass over the contributions of this level, and strike their players off.
unfoldable pub strike_level : Chips → Map Chips → List PlayerId → Map Chips × List PlayerId
strike_level level [] remaining = ([], remaining)
strike_level level ((id, amount) ∷ rest) remaining =
    let next = strike_level level rest (drop_first id remaining) in
    if amount == level then next else ((id, amount) ∷ rest, remaining)

-- The pot of one level, if the level lies above the one before.
unfoldable pub layer_pot : Map PlayerState → Chips → Chips → List PlayerId → List SidePot
layer_pot states previous level remaining =
    if ltb previous level
    then (let layer = mul64 (level - previous) (length remaining) in
        if ltb 0 layer
        then record { amount = layer; eligible = keep_if (is_live states) remaining } ∷ []
        else [])
    else []

-- The outer loop, on fuel: without fuel it does not end. `contributions` starts at `idx`.
unfoldable pub pots_loop :
    ℕ → Map PlayerState → Chips → Map Chips → List PlayerId → Outcome (List SidePot)
pots_loop fuel states previous [] remaining = done []
pots_loop zero states previous ((id, level) ∷ rest) remaining = fault
pots_loop (suc fuel) states previous ((id, level) ∷ rest) remaining =
    let (rest', remaining') = strike_level level ((id, level) ∷ rest) remaining in
    pots_loop fuel states (if ltb previous level then level else previous) rest' remaining'
    >>= λ pots. done (layer_pot states previous level remaining ++ pots)

unfoldable pub contributions : Env → HandState → Map Chips
contributions env h = sort_by_amount (positive (env.committed_order h.committed))

-- `Table::build_side_pots`
unfoldable pub build_side_pots : Env → HandState → Outcome (List SidePot)
build_side_pots env h =
    let c = contributions env h in pots_loop (length c) h.player_state 0 c (ids c)

unfoldable pub add_all : Chips → Map Chips → Chips
add_all acc [] = acc
add_all acc ((id, amount) ∷ m) = add_all (add64 acc amount) m

-- `Table::total_committed`
unfoldable pub total_committed : Env → HandState → Chips
total_committed env h = add_all 0 (env.committed_order h.committed)
