-- ===== src/Table.antt =====
-- engine/src/table.h: the types of a table and of the hand that is played at it. The children hold
-- the methods of engine/src/table.cc.
pub mod Environment
pub mod Turns
pub mod Bets
pub mod Pots
pub mod Showdown
pub mod Streets
pub mod Closing
pub mod Hands
pub mod Seats
pub mod Actions
pub mod Invariant
pub mod Stalls
pub mod Descent
pub mod Refusals
use poker_epoll.Base.{ℕ, List, [], Option, none, Map}
use poker_epoll.Rules.{PlayerId, Chips}
use poker_epoll.Cards.{Card}
use poker_epoll.Cards.Deck.{Deck, fresh}
use poker_epoll.Players.{PlayerManager, new_manager}

pub data Phase : Type 0 where
  holding preflop flop turn river showdown : Phase

pub data Event : Type 0 where
  player_added player_removed : PlayerId → Event
  bet_placed : PlayerId → Chips → Event
  turn_advanced : PlayerId → Event
  phase_advanced : Phase → Event
  won_pot player_chips : PlayerId → Chips → Event
  hand_started : Event
  dealt_hole : PlayerId → List Card → Event
  dealt_flop : List Card → Event
  dealt_street : Card → Event
  showdown_hand : PlayerId → List Card → Event

pub record SidePot : Type 0 where
  pub amount : Chips
  pub eligible : List PlayerId

pub data Action : Type 0 where
  fold : PlayerId → Action
  bet : PlayerId → Chips → Action
  timeout : PlayerId → Action

pub data PlayerState : Type 0 where
  active all_in folded broke left : PlayerState

pub record HandState : Type 0 where
  pub phase : Phase
  pub button : PlayerId
  pub active_bets : Map Chips
  pub committed : Map Chips
  pub previous_bet : Chips
  pub min_raise : Chips
  pub table_cards : List Card
  pub player_holes : Map (List Card)
  pub turn_queue : List PlayerId
  pub participants : List PlayerId
  pub player_state : Map PlayerState

-- The part of a table that the betting changes: its players, and the hand behind `hand_state_->`.
pub record Round : Type 0 where
  pub players : PlayerManager
  pub hand : HandState

-- What the reference `rng_` refers to: an engine of random numbers with its state, or an engine that is
-- gone.
pub data Engine : Type 0 where
  live : ℕ → Engine
  dangling : Engine

pub record Table : Type 0 where
  pub deck : Deck
  pub rng : Engine
  pub players : PlayerManager
  pub button : PlayerId
  pub hand_state : Option HandState

-- `Table::Table`
unfoldable pub new_table : Engine → Table
new_table rng = record {
  deck = fresh;
  rng = rng;
  players = new_manager;
  button = 0;
  hand_state = none;
}
