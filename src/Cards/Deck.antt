-- ===== src/Cards/Deck.antt =====
-- engine/src/deck.h: the deck, and dealing from it. The engine of random numbers and
-- `std::ranges::shuffle` are a parameter, which takes the state of the engine as a number.
use poker_epoll.Base.{
  Outcome, done, fault, ◌++◌, ℕ, ◌+◌, List, [], ◌∷◌, map, take, drop, Expected, value, unexpected,
  ltb, ◌==◌, if◌then◌else◌,
}
use poker_epoll.Rules.{deck_size, hole_size, board_size}
use mathlib.Core.List.{flat_map}
use poker_epoll.Cards.{Card, to_string, ranks, suits}

-- `kCardIdMap`: the card of rank r and suit s stands at s * 13 + r.
unfoldable pub card_id_map : List Card
card_id_map = flat_map (λ s. map (λ r. record { rank = r; suit = s }) ranks) suits

pub record Deck : Type 0 where
  pub cards : List Card
  pub next : ℕ

pub data DealError : Type 0 where
  invalid_amount out_of_cards : DealError

-- A new deck, and `Deck::reset`.
unfoldable pub fresh : Deck
fresh = record { cards = card_id_map; next = 0 }

-- A shuffle of a list of cards, from one state of the engine to the next.
abbrev pub Shuffler : Type 0
Shuffler = ℕ → List Card → List Card × ℕ

unfoldable pub shuffle : Shuffler → ℕ → Deck → Deck × ℕ
shuffle sh rng d = let (cards, rng') = sh rng d.cards in (record { cards = cards; next = 0 }, rng')

-- `Deck::deal<N>`.
unfoldable pub deal : ℕ → Deck → Expected DealError (List Card) × Deck
deal n d =
    if d.next == deck_size
    then (unexpected out_of_cards, d)
    else if ltb deck_size (d.next + n)
    then (unexpected invalid_amount, d)
    else (value (take n (drop d.next d.cards)), record d { next = d.next + n })

unfoldable pub deal_hole : Deck → Expected DealError (List Card) × Deck
unfolding deal
deal_hole d = deal hole_size d

unfoldable pub deal_board : Deck → Expected DealError (List Card) × Deck
unfolding deal
deal_board d = deal board_size d

-- The texts of the cards after the first, each behind a space.
unfoldable pub space_fold : List ℕ → List Card → List ℕ
space_fold text [] = text
space_fold text (c ∷ cards) = space_fold (text ++ 32 ∷ to_string c) cards

-- `Deck::to_string`: the cards that remain. Where none does, it reads past the end of the array.
unfoldable pub deck_to_string : Deck → Outcome (List ℕ)
deck_to_string d = elim (drop d.next d.cards) [
  | [] ↦ fault
  | c ∷ rest ↦ done (space_fold (to_string c) rest)
]
