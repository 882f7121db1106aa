-- ===== src/Errors/Texts.antt =====
-- engine/src/errors.h, `to_string`: the text of an error, as the logs show it, tells which error it is.
use Prim.Native.String.{String}
use text.Mathlib.Text.{◌==◌ as str_eq}
use poker_epoll.Base.{◌≡◌, refl, Option, none, some, List, [], ◌∷◌, if◌then◌else◌}
use poker_epoll.Errors.{
  Error, of_server, of_game, of_player_mgmt, to_string_error, unspecified, too_many_clients,
  all_tables_full, illegal_action, invalid_action, hand_in_play, not_enough_players,
  insufficient_funds, bet_too_low, out_of_turn, no_such_player, not_enough_seats, invalid_id,
  player_not_found, no_players,
}

-- The texts, and the error that each of them is for.
abbrev texts : List (String × Error)
texts =
    ("too_many_clients", of_server too_many_clients)
    ∷ ("all_tables_full", of_server all_tables_full)
    ∷ ("illegal_action", of_server illegal_action)
    ∷ ("unspecified_server_error", of_server unspecified)
    ∷ ("invalid_action", of_game invalid_action)
    ∷ ("hand_in_play", of_game hand_in_play)
    ∷ ("not_enough_players", of_game not_enough_players)
    ∷ ("insufficient_funds", of_game insufficient_funds)
    ∷ ("bet_too_low", of_game bet_too_low)
    ∷ ("out_of_turn", of_game out_of_turn)
    ∷ ("no_such_player", of_game no_such_player)
    ∷ ("not_enough_seats", of_player_mgmt not_enough_seats)
    ∷ ("invalid_id", of_player_mgmt invalid_id)
    ∷ ("player_not_found", of_player_mgmt player_not_found)
    ∷ ("no_players", of_player_mgmt no_players)
    ∷ []

-- The error that stands first under a text.
abbrev find_text : String → List (String × Error) → Option Error
find_text s [] = none
find_text s ((text, e) ∷ rest) = if str_eq text s then some e else find_text s rest

-- The error that a text names.
pub error_named : String → Option Error
error_named s = find_text s texts

-- The text of every error is the one that is listed for it, and names that error and no other, across
-- the three families.
pub error_named-to_string_error : (e : Error) → error_named (to_string_error e) ≡ some e
unfolding to_string_error error_named
error_named-to_string_error (of_server unspecified) = refl
error_named-to_string_error (of_server too_many_clients) = refl
error_named-to_string_error (of_server all_tables_full) = refl
error_named-to_string_error (of_server illegal_action) = refl
error_named-to_string_error (of_game invalid_action) = refl
error_named-to_string_error (of_game hand_in_play) = refl
error_named-to_string_error (of_game not_enough_players) = refl
error_named-to_string_error (of_game insufficient_funds) = refl
error_named-to_string_error (of_game bet_too_low) = refl
error_named-to_string_error (of_game out_of_turn) = refl
error_named-to_string_error (of_game no_such_player) = refl
error_named-to_string_error (of_player_mgmt not_enough_seats) = refl
error_named-to_string_error (of_player_mgmt invalid_id) = refl
error_named-to_string_error (of_player_mgmt player_not_found) = refl
error_named-to_string_error (of_player_mgmt no_players) = refl
