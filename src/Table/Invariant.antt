-- ===== src/Table/Invariant.antt =====
-- The invariant of a hand in progress, over the players of its table, and the chips of a table. The
-- children prove of the methods of engine/src/table.cc that they keep it.
pub mod Distribution
pub mod Keeping
pub mod Settling
pub mod Streets
pub mod Wagers
pub mod Bets
pub mod Actions
pub mod Arrivals
pub mod Blinds
pub mod Opening
pub mod NewHands
use poker_epoll.Base.{
  ℕ, ◌+◌, ◌≤◌, ◌<◌, ◌≡◌, true, contains, has_key, lookup_or, total, u64_size, Option, none, some,
}
use poker_epoll.Rules.{PlayerId, Chips}
use poker_epoll.Players.{PlayerManager, is_sat}
use poker_epoll.Players.Seating.{IsSeated, Unique}
use poker_epoll.Players.Purses.{purses}
use poker_epoll.Table.{HandState, Table}
use poker_epoll.Table.Turns.{is_live}
use poker_epoll.Table.Showdown.Payments.{InHand}

pub record IsHand (m : PlayerManager) (h : HandState) : Type 0 where
  pub seating : IsSeated m
  pub entries : Unique h.committed
  pub bet_entries : Unique h.active_bets
  -- Only participants put chips in.
  pub backed : (id : PlayerId) → has_key id h.committed ≡ true → contains id h.participants ≡ true
  -- Who is active or all in is a participant, is seated and has hole cards.
  pub in_play : (id : PlayerId) → is_live h.player_state id ≡ true → InHand h m id
  -- The bets of this street are part of what was put in.
  pub covered : (id : PlayerId) → lookup_or id 0 h.active_bets ≤ lookup_or id 0 h.committed
  -- No sum of chips overflows.
  pub solvent : purses m + total h.committed < u64_size

-- The chips on the table: in the purses, and put in.
abbrev pub in_pot : Option HandState → Chips
in_pot none = 0
in_pot (some h) = total h.committed

abbrev pub money : Table → Chips
money t = purses t.players + in_pot t.hand_state
