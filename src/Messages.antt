-- ===== src/Messages.antt =====
-- proto/poker/v1/*.proto: the messages of the wire. An enumeration has its unspecified value, a `oneof`
-- may be unset, and a repeated field is a list.
use poker_epoll.Base.{ℕ, List}

pub data ProtoRank : Type 0 where
  rank_unspecified rank_two rank_three rank_four rank_five rank_six rank_seven rank_eight rank_nine
        rank_ten rank_jack rank_queen rank_king rank_ace :
      ProtoRank

pub data ProtoSuit : Type 0 where
  suit_unspecified suit_clubs suit_diamonds suit_hearts suit_spades : ProtoSuit

pub record ProtoCard : Type 0 where
  pub proto_rank : ProtoRank
  pub proto_suit : ProtoSuit

pub data ProtoPhase : Type 0 where
  phase_unspecified phase_holding phase_preflop phase_flop phase_turn phase_river phase_showdown :
      ProtoPhase

pub data ProtoServerError : Type 0 where
  servererror_unspecified servererror_too_many_clients servererror_all_tables_full
        servererror_illegal_action :
      ProtoServerError

pub data ProtoPlayerMgmtError : Type 0 where
  playermgmterror_unspecified playermgmterror_notenoughseats playermgmterror_invalidid
        playermgmterror_playernotfound playermgmterror_noplayers :
      ProtoPlayerMgmtError

pub data ProtoGameError : Type 0 where
  gameerror_unspecified gameerror_invalidaction gameerror_handinplay gameerror_notenoughplayers
        gameerror_insufficientfunds gameerror_bettoolow gameerror_outofturn gameerror_nosuchplayer :
      ProtoGameError

pub data ProtoError : Type 0 where
  error_not_set : ProtoError
  player_mgmt_error : ProtoPlayerMgmtError → ProtoError
  game_error : ProtoGameError → ProtoError
  server_error : ProtoServerError → ProtoError

pub data ProtoEvent : Type 0 where
  event_not_set : ProtoEvent
  proto_player_added proto_player_removed : ℕ → ProtoEvent
  proto_bet_placed : ℕ → ℕ → ProtoEvent
  proto_turn_advanced : ℕ → ProtoEvent
  proto_phase_advanced : ProtoPhase → ProtoEvent
  proto_won_pot proto_player_chips : ℕ → ℕ → ProtoEvent
  proto_hand_started : ProtoEvent
  proto_dealt_hole : ℕ → List ProtoCard → ProtoEvent
  proto_dealt_flop : List ProtoCard → ProtoEvent
  proto_dealt_street : ProtoCard → ProtoEvent
  proto_showdown_hand : ℕ → List ProtoCard → ProtoEvent

pub data ProtoAction : Type 0 where
  action_not_set proto_fold : ProtoAction
  proto_bet : ℕ → ProtoAction

pub data ServerMessage : Type 0 where
  event_message : ProtoEvent → ServerMessage
  error_message : ProtoError → ServerMessage

-- `Response`, by its messages.
abbrev pub Response : Type 0
Response = List ServerMessage
