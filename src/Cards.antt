-- ===== src/Cards.antt =====
-- engine/src/cards.h: ranks, suits and cards. Characters are their codes.
pub mod Deck
use mathlib.Core.List.{flat_map}
use poker_epoll.Base.{ℕ, suc, ◌+◌, List, [], ◌∷◌, map, get_or}

pub data Rank : Type 0 where
  two three four five six seven eight nine ten jack queen king ace : Rank

pub data Suit : Type 0 where
  clubs diamonds hearts spades : Suit

pub record Card : Type 0 where
  pub rank : Rank
  pub suit : Suit

-- The ranks and the suits in the order of their enumerators.
abbrev pub ranks : List Rank
ranks =
    two ∷ three ∷ four ∷ five ∷ six ∷ seven ∷ eight ∷ nine ∷ ten ∷ jack ∷ queen ∷ king ∷ ace ∷ []

abbrev pub suits : List Suit
suits = clubs ∷ diamonds ∷ hearts ∷ spades ∷ []

-- `std::to_underlying` of a rank.
unfoldable pub to_underlying : Rank → ℕ
to_underlying two = 0
to_underlying three = 1
to_underlying four = 2
to_underlying five = 3
to_underlying six = 4
to_underlying seven = 5
to_underlying eight = 6
to_underlying nine = 7
to_underlying ten = 8
to_underlying jack = 9
to_underlying queen = 10
to_underlying king = 11
to_underlying ace = 12

unfoldable pub suit_to_char : Suit → ℕ
suit_to_char clubs = b'c'
suit_to_char diamonds = b'd'
suit_to_char hearts = b'h'
suit_to_char spades = b's'

unfoldable pub rank_to_char : Rank → ℕ
unfolding to_underlying
rank_to_char ten = b'T'
rank_to_char jack = b'J'
rank_to_char queen = b'Q'
rank_to_char king = b'K'
rank_to_char ace = b'A'
rank_to_char r = to_underlying r + b'2'

-- `Card::to_string`: the characters of the text.
unfoldable pub to_string : Card → List ℕ
unfolding suit_to_char rank_to_char
to_string c = rank_to_char c.rank ∷ suit_to_char c.suit ∷ []

-- `Card{}`, which fills an array before it is written.
abbrev pub blank_card : Card
blank_card = record { rank = two; suit = clubs }
