-- ===== src/Table/Showdown.antt =====
-- engine/src/table.cc and engine/src/hand_evaluator.cc: showing the hands and paying the pots.
pub mod Winners
pub mod Payments
pub mod Shares
use poker_epoll.Base.{
  ℕ, zero, suc, ◌+◌, ◌-◌, ◌/◌, ◌%◌, List, [], ◌∷◌, ◌++◌, map, length, contains, keep_if, Option,
  none, some, Bool, true, false, Map, lookup, Outcome, done, fault, ◌>>=◌, ltb, leb, ◌==◌,
  if◌then◌else◌, u64_size,
}
use poker_epoll.Rules.{PlayerId, Chips}
use poker_epoll.Cards.{Card, to_string}
use poker_epoll.Players as Manager
use poker_epoll.Players.{PlayerManager, get_chips}
use poker_epoll.Table.{
  HandState, Round, PlayerState, SidePot, Event, won_pot, player_chips, showdown_hand,
}
use poker_epoll.Table.Environment.{Env}
use poker_epoll.Table.Turns.{is_live, active_players_in_hand}
use poker_epoll.Table.Pots.{build_side_pots}

-- `poker::rank_best_of_seven`
unfoldable pub rank_best_of_seven : Env → List Card → ℕ
rank_best_of_seven env cards = env.evaluate_cards (map to_string cards)

-- `Table::hand_rank`: `.at` throws where the player has no hole cards.
unfoldable pub hand_rank : Env → HandState → PlayerId → Outcome ℕ
hand_rank env h id = elim (lookup id h.player_holes) [
  | none ↦ fault
  | some hole ↦ done (rank_best_of_seven env (hole ++ h.table_cards))
]

-- `Table::award_chips`
unfoldable pub award_chips :
    PlayerId → Chips → List Event → PlayerManager → Outcome (List Event × PlayerManager)
award_chips id amount events players = elim (amount == 0) [
  | true ↦ done (events, players)
  | false ↦ do
    paid ← Manager.award_chips id amount players
    left ← get_chips id paid
    done (events ++ won_pot id amount ∷ player_chips id left ∷ [], paid)
]

-- The loop that shows the hands of the players who are still in.
unfoldable pub show_hands : HandState → List PlayerId → List Event → Outcome (List Event)
show_hands h [] events = done events
show_hands h (id ∷ rest) events = elim (is_live h.player_state id) [
  | false ↦ show_hands h rest events
  | true ↦ elim (lookup id h.player_holes) [
    | none ↦ fault
    | some hole ↦ show_hands h rest (events ++ showdown_hand id hole ∷ [])
  ]
]

-- The winners so far after one more rank, and the best rank so far.
unfoldable pub better : PlayerId → ℕ → List PlayerId × ℕ → List PlayerId × ℕ
better id rank ([], best) = (id ∷ [], rank)
better id rank (w ∷ ws, best) =
    if ltb rank best
    then (id ∷ [], rank)
    else if rank == best
    then (w ∷ ws ++ id ∷ [], best)
    else (w ∷ ws, best)

unfoldable pub winners_loop :
    Env → HandState → List PlayerId → List PlayerId × ℕ → Outcome (List PlayerId)
winners_loop env h [] (winners, best) = done winners
winners_loop env h (id ∷ rest) s =
    hand_rank env h id >>= λ rank. winners_loop env h rest (better id rank s)

-- `best` starts at the largest `uint64_t`.
unfoldable pub winners : Env → HandState → List PlayerId → Outcome (List PlayerId)
winners env h eligible = winners_loop env h eligible ([], u64_size - 1)

-- The payouts of one pot: the first `remainder` of the players get one chip more.
unfoldable pub pay_loop :
    Chips
    → Chips
    → List PlayerId
    → List Event
    → PlayerManager
    → Outcome (List Event × PlayerManager)
pay_loop share remainder [] events players = done (events, players)
pay_loop share remainder (id ∷ rest) events players =
    award_chips id (if ltb 0 remainder then share + 1 else share) events players >>= λ paid.
    pay_loop share (remainder - 1) rest paid.0 paid.1

-- The winners of a pot in the order of the table, who share it; dividing by none of them is a fault.
unfoldable pub pay_winners :
    List PlayerId → Chips → List Event → PlayerManager → Outcome (List Event × PlayerManager)
pay_winners [] amount events players = fault
pay_winners (id ∷ rest) amount events players =
    let n = length (id ∷ rest) in pay_loop (amount / n) (amount % n) (id ∷ rest) events players

-- One round of the loop over the pots; a pot for which nobody is eligible is passed over.
unfoldable pub pay_pot :
    Env → HandState → SidePot → List Event → PlayerManager → Outcome (List Event × PlayerManager)
pay_pot env h pot events players = elim pot.eligible [
  | [] ↦ done (events, players)
  | e ∷ es ↦ do
    best ← winners env h (e ∷ es)
    elim best [
      | [] ↦ done (events, players)
      | w ∷ ws ↦
          pay_winners (keep_if (λ id. contains id (w ∷ ws)) h.participants) pot.amount events
            players
    ]
]

unfoldable pub pay_pots :
    Env
    → HandState
    → List SidePot
    → List Event
    → PlayerManager
    → Outcome (List Event × PlayerManager)
pay_pots env h [] events players = done (events, players)
pay_pots env h (pot ∷ pots) events players =
    pay_pot env h pot events players >>= λ paid. pay_pots env h pots paid.0 paid.1

-- `Table::distribute_side_pots`
unfoldable pub distribute_side_pots :
    Env → HandState → List Event → PlayerManager → Outcome (List Event × PlayerManager)
distribute_side_pots env h events players = do
  shown ← show_hands h h.participants events
  pots ← build_side_pots env h
  pay_pots env h pots shown players
