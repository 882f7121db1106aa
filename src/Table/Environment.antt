-- ===== src/Table/Environment.antt =====
-- What a table uses and the repository does not implement: the shuffle of the C++ library, the
-- evaluation of seven cards by phevaluator, and the order in which `std::unordered_map` is iterated.
use poker_epoll.Base.{ℕ, List, Map}
use poker_epoll.Rules.{Chips}
use poker_epoll.Cards.{Card}
use poker_epoll.Cards.Deck.{Shuffler}
use mathlib.Core.List.{Perm}

pub record Env : Type 0 where
  pub shuffler : Shuffler
  -- phevaluator::EvaluateCards on the texts of the cards, as the number behind `value()`.
  pub evaluate_cards : List (List ℕ) → ℕ
  pub committed_order : Map Chips → Map Chips
  pub holes_order : Map (List Card) → Map (List Card)

-- A shuffle rearranges the cards, and an iteration visits every entry once.
pub record IsLawful (env : Env) : Type 0 where
  pub shuffler_perm : (g : ℕ) (cards : List Card) → Perm (env.shuffler g cards).0 cards
  pub committed_perm : (m : Map Chips) → Perm (env.committed_order m) m
  pub holes_perm : (m : Map (List Card)) → Perm (env.holes_order m) m
