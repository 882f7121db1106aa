-- ===== src/Translate.antt =====
-- engine/src/proto_translate.cc: events and errors to messages, and actions from them.
pub mod Reading
use poker_epoll.Base.{ℕ, List, map, Expected, value, unexpected}
use poker_epoll.Rules.{PlayerId}
use poker_epoll.Errors.{
  ServerError, GameError, PlayerMgmtError, Error, of_server, of_game, of_player_mgmt, unspecified,
  too_many_clients, all_tables_full, illegal_action, invalid_action, hand_in_play,
  not_enough_players, insufficient_funds, bet_too_low, out_of_turn, no_such_player,
  not_enough_seats, invalid_id, player_not_found, no_players,
}
use poker_epoll.Cards.{
  Rank, Suit, Card, two, three, four, five, six, seven, eight, nine, ten, jack, queen, king, ace,
  clubs, diamonds, hearts, spades,
}
use poker_epoll.Table.{
  Phase, holding, preflop, flop, turn, river, showdown, Event, player_added, player_removed,
  bet_placed, turn_advanced, phase_advanced, won_pot, player_chips, hand_started, dealt_hole,
  dealt_flop, dealt_street, showdown_hand, Action, fold, bet,
}
use poker_epoll.Messages.{
  ProtoRank, ProtoSuit, ProtoCard, ProtoPhase, ProtoServerError, ProtoPlayerMgmtError,
  ProtoGameError, ProtoError, ProtoEvent, ProtoAction, ServerMessage, rank_unspecified, rank_two,
  rank_three, rank_four, rank_five, rank_six, rank_seven, rank_eight, rank_nine, rank_ten,
  rank_jack, rank_queen, rank_king, rank_ace, suit_unspecified, suit_clubs, suit_diamonds,
  suit_hearts, suit_spades, phase_unspecified, phase_holding, phase_preflop, phase_flop, phase_turn,
  phase_river, phase_showdown, servererror_unspecified, servererror_too_many_clients,
  servererror_all_tables_full, servererror_illegal_action, playermgmterror_unspecified,
  playermgmterror_notenoughseats, playermgmterror_invalidid, playermgmterror_playernotfound,
  playermgmterror_noplayers, gameerror_unspecified, gameerror_invalidaction, gameerror_handinplay,
  gameerror_notenoughplayers, gameerror_insufficientfunds, gameerror_bettoolow, gameerror_outofturn,
  gameerror_nosuchplayer, error_not_set, player_mgmt_error, game_error, server_error, event_not_set,
  proto_player_added, proto_player_removed, proto_bet_placed, proto_turn_advanced,
  proto_phase_advanced, proto_won_pot, proto_player_chips, proto_hand_started, proto_dealt_hole,
  proto_dealt_flop, proto_dealt_street, proto_showdown_hand, action_not_set, proto_fold, proto_bet,
  event_message, error_message, Response,
}

unfoldable pub to_proto_server_error : ServerError → ProtoServerError
to_proto_server_error too_many_clients = servererror_too_many_clients
to_proto_server_error all_tables_full = servererror_all_tables_full
to_proto_server_error illegal_action = servererror_illegal_action
to_proto_server_error unspecified = servererror_unspecified

unfoldable pub to_proto_player_mgmt_error : PlayerMgmtError → ProtoPlayerMgmtError
to_proto_player_mgmt_error not_enough_seats = playermgmterror_notenoughseats
to_proto_player_mgmt_error invalid_id = playermgmterror_invalidid
to_proto_player_mgmt_error player_not_found = playermgmterror_playernotfound
to_proto_player_mgmt_error no_players = playermgmterror_noplayers

unfoldable pub to_proto_game_error : GameError → ProtoGameError
to_proto_game_error invalid_action = gameerror_invalidaction
to_proto_game_error hand_in_play = gameerror_handinplay
to_proto_game_error not_enough_players = gameerror_notenoughplayers
to_proto_game_error insufficient_funds = gameerror_insufficientfunds
to_proto_game_error bet_too_low = gameerror_bettoolow
to_proto_game_error out_of_turn = gameerror_outofturn
to_proto_game_error no_such_player = gameerror_nosuchplayer

unfoldable pub to_proto_phase : Phase → ProtoPhase
to_proto_phase holding = phase_holding
to_proto_phase preflop = phase_preflop
to_proto_phase flop = phase_flop
to_proto_phase turn = phase_turn
to_proto_phase river = phase_river
to_proto_phase showdown = phase_showdown

unfoldable pub to_proto_rank : Rank → ProtoRank
to_proto_rank two = rank_two
to_proto_rank three = rank_three
to_proto_rank four = rank_four
to_proto_rank five = rank_five
to_proto_rank six = rank_six
to_proto_rank seven = rank_seven
to_proto_rank eight = rank_eight
to_proto_rank nine = rank_nine
to_proto_rank ten = rank_ten
to_proto_rank jack = rank_jack
to_proto_rank queen = rank_queen
to_proto_rank king = rank_king
to_proto_rank ace = rank_ace

unfoldable pub to_proto_suit : Suit → ProtoSuit
to_proto_suit clubs = suit_clubs
to_proto_suit diamonds = suit_diamonds
to_proto_suit hearts = suit_hearts
to_proto_suit spades = suit_spades

unfoldable pub to_proto_card : Card → ProtoCard
to_proto_card c = record { proto_rank = to_proto_rank c.rank; proto_suit = to_proto_suit c.suit }

-- Whoever sends an action acts for themselves: the identifier is the connection's.
unfoldable pub from_proto_action : ProtoAction → PlayerId → Expected GameError Action
from_proto_action proto_fold id = value (fold id)
from_proto_action (proto_bet amount) id = value (bet id amount)
from_proto_action action_not_set id = unexpected invalid_action

unfoldable pub to_proto_error : Error → ProtoError
to_proto_error (of_server e) = server_error (to_proto_server_error e)
to_proto_error (of_player_mgmt e) = player_mgmt_error (to_proto_player_mgmt_error e)
to_proto_error (of_game e) = game_error (to_proto_game_error e)

unfoldable pub to_proto_event : Event → ProtoEvent
to_proto_event (player_added who) = proto_player_added who
to_proto_event (player_removed who) = proto_player_removed who
to_proto_event (bet_placed who amount) = proto_bet_placed who amount
to_proto_event (turn_advanced next) = proto_turn_advanced next
to_proto_event (phase_advanced next) = proto_phase_advanced (to_proto_phase next)
to_proto_event (won_pot who amount) = proto_won_pot who amount
to_proto_event (player_chips who chips) = proto_player_chips who chips
to_proto_event hand_started = proto_hand_started
to_proto_event (dealt_hole who hole) = proto_dealt_hole who (map to_proto_card hole)
to_proto_event (dealt_flop cards) = proto_dealt_flop (map to_proto_card cards)
to_proto_event (dealt_street street) = proto_dealt_street (to_proto_card street)
to_proto_event (showdown_hand who hole) = proto_showdown_hand who (map to_proto_card hole)
