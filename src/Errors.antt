-- ===== src/Errors.antt =====
-- engine/src/errors.h: the errors of the server, of a table and of its player manager, and their texts.
pub mod Texts
use Prim.Native.String.{String}

pub data ServerError : Type 0 where
  unspecified too_many_clients all_tables_full illegal_action : ServerError

pub data GameError : Type 0 where
  invalid_action hand_in_play not_enough_players insufficient_funds : GameError
  bet_too_low out_of_turn no_such_player : GameError

pub data PlayerMgmtError : Type 0 where
  not_enough_seats invalid_id player_not_found no_players : PlayerMgmtError

-- `std::variant<ServerError, GameError, PlayerMgmtError>`
pub data Error : Type 0 where
  of_server : ServerError → Error
  of_game : GameError → Error
  of_player_mgmt : PlayerMgmtError → Error

unfoldable pub to_string_server_error : ServerError → String
to_string_server_error too_many_clients = "too_many_clients"
to_string_server_error all_tables_full = "all_tables_full"
to_string_server_error illegal_action = "illegal_action"
to_string_server_error unspecified = "unspecified_server_error"

unfoldable pub to_string_game_error : GameError → String
to_string_game_error invalid_action = "invalid_action"
to_string_game_error hand_in_play = "hand_in_play"
to_string_game_error not_enough_players = "not_enough_players"
to_string_game_error insufficient_funds = "insufficient_funds"
to_string_game_error bet_too_low = "bet_too_low"
to_string_game_error out_of_turn = "out_of_turn"
to_string_game_error no_such_player = "no_such_player"

unfoldable pub to_string_player_mgmt_error : PlayerMgmtError → String
to_string_player_mgmt_error not_enough_seats = "not_enough_seats"
to_string_player_mgmt_error invalid_id = "invalid_id"
to_string_player_mgmt_error player_not_found = "player_not_found"
to_string_player_mgmt_error no_players = "no_players"

unfoldable pub to_string_error : Error → String
unfolding to_string_server_error to_string_game_error to_string_player_mgmt_error
to_string_error (of_server e) = to_string_server_error e
to_string_error (of_game e) = to_string_game_error e
to_string_error (of_player_mgmt e) = to_string_player_mgmt_error e
