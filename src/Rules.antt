-- ===== src/Rules.antt =====
-- engine/src/poker_rules.h: the sizes and the stakes, and engine/src/player.h's identifiers.
-- Chips and player identifiers are `uint64_t`: numbers, whose arithmetic wraps where it is done.
use poker_epoll.Base.{ℕ}

abbrev pub PlayerId : Type 0
PlayerId = ℕ

abbrev pub Chips : Type 0
Chips = ℕ

abbrev pub hole_size : ℕ
hole_size = 2

abbrev pub flop_size : ℕ
flop_size = 3

abbrev pub board_size : ℕ
board_size = 5

abbrev pub deck_size : ℕ
deck_size = 52

abbrev pub max_players : ℕ
max_players = 10

abbrev pub buy_in : Chips
buy_in = 1000

abbrev pub big_blind : Chips
big_blind = 10

abbrev pub small_blind : Chips
small_blind = 5
