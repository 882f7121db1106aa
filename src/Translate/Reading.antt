-- ===== src/Translate/Reading.antt =====
-- engine/src/proto_translate.cc: what a client reads in a message is the event, or the error, that was
-- translated.
use poker_epoll.Base.{Option, none, some, ◌≡◌, refl, [], ◌∷◌, List, map}
use poker_epoll.Errors.{
  Error, of_server, of_game, of_player_mgmt, unspecified, too_many_clients, all_tables_full,
  illegal_action, invalid_action, hand_in_play, not_enough_players, insufficient_funds, bet_too_low,
  out_of_turn, no_such_player, not_enough_seats, invalid_id, player_not_found, no_players,
}
use poker_epoll.Cards.{
  Rank, Suit, Card, two, three, four, five, six, seven, eight, nine, ten, jack, queen, king, ace,
  clubs, diamonds, hearts, spades,
}
use poker_epoll.Table.{
  Phase, holding, preflop, flop, turn, river, showdown, Event, player_added, player_removed,
  bet_placed, turn_advanced, phase_advanced, won_pot, player_chips, hand_started, dealt_hole,
  dealt_flop, dealt_street, showdown_hand,
}
use poker_epoll.Messages.{
  ProtoRank, ProtoSuit, ProtoCard, ProtoPhase, ProtoError, ProtoEvent, rank_unspecified, rank_two,
  rank_three, rank_four, rank_five, rank_six, rank_seven, rank_eight, rank_nine, rank_ten,
  rank_jack, rank_queen, rank_king, rank_ace, suit_unspecified, suit_clubs, suit_diamonds,
  suit_hearts, suit_spades, phase_unspecified, phase_holding, phase_preflop, phase_flop, phase_turn,
  phase_river, phase_showdown, servererror_unspecified, servererror_too_many_clients,
  servererror_all_tables_full, servererror_illegal_action, playermgmterror_unspecified,
  playermgmterror_notenoughseats, playermgmterror_invalidid, playermgmterror_playernotfound,
  playermgmterror_noplayers, gameerror_unspecified, gameerror_invalidaction, gameerror_handinplay,
  gameerror_notenoughplayers, gameerror_insufficientfunds, gameerror_bettoolow, gameerror_outofturn,
  gameerror_nosuchplayer, error_not_set, player_mgmt_error, game_error, server_error, event_not_set,
  proto_player_added, proto_player_removed, proto_bet_placed, proto_turn_advanced,
  proto_phase_advanced, proto_won_pot, proto_player_chips, proto_hand_started, proto_dealt_hole,
  proto_dealt_flop, proto_dealt_street, proto_showdown_hand,
}
use poker_epoll.Translate.{
  to_proto_event, to_proto_error, to_proto_card, to_proto_rank, to_proto_suit, to_proto_phase,
  to_proto_server_error, to_proto_player_mgmt_error, to_proto_game_error,
}

-- What a client makes of the values; an unspecified one is none.
abbrev pub read_rank : ProtoRank → Option Rank
read_rank rank_two = some two
read_rank rank_three = some three
read_rank rank_four = some four
read_rank rank_five = some five
read_rank rank_six = some six
read_rank rank_seven = some seven
read_rank rank_eight = some eight
read_rank rank_nine = some nine
read_rank rank_ten = some ten
read_rank rank_jack = some jack
read_rank rank_queen = some queen
read_rank rank_king = some king
read_rank rank_ace = some ace
read_rank rank_unspecified = none

abbrev pub read_suit : ProtoSuit → Option Suit
read_suit suit_clubs = some clubs
read_suit suit_diamonds = some diamonds
read_suit suit_hearts = some hearts
read_suit suit_spades = some spades
read_suit suit_unspecified = none

abbrev pub read_phase : ProtoPhase → Option Phase
read_phase phase_holding = some holding
read_phase phase_preflop = some preflop
read_phase phase_flop = some flop
read_phase phase_turn = some turn
read_phase phase_river = some river
read_phase phase_showdown = some showdown
read_phase phase_unspecified = none

-- Both of two readings.
abbrev both {ℓ κ μ} :
    {A : Type ℓ} {B : Type κ} {C : Type μ} → (A → B → C) → Option A → Option B → Option C
both f (some a) (some b) = some (f a b)
both f (some a) none = none
both f none b = none

abbrev apply {ℓ κ} : {A : Type ℓ} {B : Type κ} → (A → B) → Option A → Option B
apply f (some a) = some (f a)
apply f none = none

abbrev pub read_card : ProtoCard → Option Card
read_card c =
    both (λ r s. record { rank = r; suit = s }) (read_rank c.proto_rank) (read_suit c.proto_suit)

abbrev pub read_cards : List ProtoCard → Option (List Card)
read_cards [] = some []
read_cards (c ∷ cs) = both (◌∷◌) (read_card c) (read_cards cs)

abbrev pub read_event : ProtoEvent → Option Event
read_event event_not_set = none
read_event (proto_player_added who) = some (player_added who)
read_event (proto_player_removed who) = some (player_removed who)
read_event (proto_bet_placed who amount) = some (bet_placed who amount)
read_event (proto_turn_advanced next) = some (turn_advanced next)
read_event (proto_phase_advanced next) = apply phase_advanced (read_phase next)
read_event (proto_won_pot who amount) = some (won_pot who amount)
read_event (proto_player_chips who chips) = some (player_chips who chips)
read_event proto_hand_started = some hand_started
read_event (proto_dealt_hole who hole) = apply (dealt_hole who) (read_cards hole)
read_event (proto_dealt_flop cards) = apply dealt_flop (read_cards cards)
read_event (proto_dealt_street street) = apply dealt_street (read_card street)
read_event (proto_showdown_hand who hole) = apply (showdown_hand who) (read_cards hole)

abbrev pub read_error : ProtoError → Option Error
read_error error_not_set = none
read_error (server_error servererror_unspecified) = some (of_server unspecified)
read_error (server_error servererror_too_many_clients) = some (of_server too_many_clients)
read_error (server_error servererror_all_tables_full) = some (of_server all_tables_full)
read_error (server_error servererror_illegal_action) = some (of_server illegal_action)
read_error (game_error gameerror_unspecified) = none
read_error (game_error gameerror_invalidaction) = some (of_game invalid_action)
read_error (game_error gameerror_handinplay) = some (of_game hand_in_play)
read_error (game_error gameerror_notenoughplayers) = some (of_game not_enough_players)
read_error (game_error gameerror_insufficientfunds) = some (of_game insufficient_funds)
read_error (game_error gameerror_bettoolow) = some (of_game bet_too_low)
read_error (game_error gameerror_outofturn) = some (of_game out_of_turn)
read_error (game_error gameerror_nosuchplayer) = some (of_game no_such_player)
read_error (player_mgmt_error playermgmterror_unspecified) = none
read_error (player_mgmt_error playermgmterror_notenoughseats) =
    some (of_player_mgmt not_enough_seats)
read_error (player_mgmt_error playermgmterror_invalidid) = some (of_player_mgmt invalid_id)
read_error (player_mgmt_error playermgmterror_playernotfound) =
    some (of_player_mgmt player_not_found)
read_error (player_mgmt_error playermgmterror_noplayers) = some (of_player_mgmt no_players)

read_rank-to_proto_rank : (r : Rank) → read_rank (to_proto_rank r) ≡ some r
unfolding to_proto_rank
read_rank-to_proto_rank two = refl
read_rank-to_proto_rank three = refl
read_rank-to_proto_rank four = refl
read_rank-to_proto_rank five = refl
read_rank-to_proto_rank six = refl
read_rank-to_proto_rank seven = refl
read_rank-to_proto_rank eight = refl
read_rank-to_proto_rank nine = refl
read_rank-to_proto_rank ten = refl
read_rank-to_proto_rank jack = refl
read_rank-to_proto_rank queen = refl
read_rank-to_proto_rank king = refl
read_rank-to_proto_rank ace = refl

read_suit-to_proto_suit : (s : Suit) → read_suit (to_proto_suit s) ≡ some s
unfolding to_proto_suit
read_suit-to_proto_suit clubs = refl
read_suit-to_proto_suit diamonds = refl
read_suit-to_proto_suit hearts = refl
read_suit-to_proto_suit spades = refl

read_phase-to_proto_phase : (p : Phase) → read_phase (to_proto_phase p) ≡ some p
unfolding to_proto_phase
read_phase-to_proto_phase holding = refl
read_phase-to_proto_phase preflop = refl
read_phase-to_proto_phase flop = refl
read_phase-to_proto_phase turn = refl
read_phase-to_proto_phase river = refl
read_phase-to_proto_phase showdown = refl

read_card-to_proto_card : (c : Card) → read_card (to_proto_card c) ≡ some c
unfolding to_proto_card
read_card-to_proto_card c = rw (read_rank-to_proto_rank c.rank, read_suit-to_proto_suit c.suit) refl

read_cards-map : (cs : List Card) → read_cards (map to_proto_card cs) ≡ some cs
read_cards-map [] = refl
read_cards-map (c ∷ cs) = rw (read_card-to_proto_card c, read_cards-map cs) refl

-- A client that reads the message of an event gets the event, cards and amounts included.
pub read_event-to_proto_event : (ev : Event) → read_event (to_proto_event ev) ≡ some ev
unfolding to_proto_event
read_event-to_proto_event (player_added who) = refl
read_event-to_proto_event (player_removed who) = refl
read_event-to_proto_event (bet_placed who amount) = refl
read_event-to_proto_event (turn_advanced next) = refl
read_event-to_proto_event (won_pot who amount) = refl
read_event-to_proto_event (player_chips who chips) = refl
read_event-to_proto_event hand_started = refl
read_event-to_proto_event (phase_advanced next) = rw (read_phase-to_proto_phase next) refl
read_event-to_proto_event (dealt_hole who hole) = rw (read_cards-map hole) refl
read_event-to_proto_event (dealt_flop cards) = rw (read_cards-map cards) refl
read_event-to_proto_event (dealt_street street) = rw (read_card-to_proto_card street) refl
read_event-to_proto_event (showdown_hand who hole) = rw (read_cards-map hole) refl

-- A client that reads the message of an error gets the error.
pub read_error-to_proto_error : (e : Error) → read_error (to_proto_error e) ≡ some e
unfolding to_proto_error to_proto_server_error to_proto_game_error to_proto_player_mgmt_error
read_error-to_proto_error (of_server too_many_clients) = refl
read_error-to_proto_error (of_server all_tables_full) = refl
read_error-to_proto_error (of_server illegal_action) = refl
read_error-to_proto_error (of_server unspecified) = refl
read_error-to_proto_error (of_game invalid_action) = refl
read_error-to_proto_error (of_game hand_in_play) = refl
read_error-to_proto_error (of_game not_enough_players) = refl
read_error-to_proto_error (of_game insufficient_funds) = refl
read_error-to_proto_error (of_game bet_too_low) = refl
read_error-to_proto_error (of_game out_of_turn) = refl
read_error-to_proto_error (of_game no_such_player) = refl
read_error-to_proto_error (of_player_mgmt not_enough_seats) = refl
read_error-to_proto_error (of_player_mgmt invalid_id) = refl
read_error-to_proto_error (of_player_mgmt player_not_found) = refl
read_error-to_proto_error (of_player_mgmt no_players) = refl
