-- ===== src/Table/Streets/Opening.antt =====
-- engine/src/table.cc, `handle_new_street`: what the next street starts with.
use poker_epoll.Base.{
  ◌≡◌, List, [], ◌∷◌, ◌++◌, Option, none, some, lookup_or, has_key, keep_if, Expected, unexpected,
  value,
}
use poker_epoll.Rules.{PlayerId, big_blind}
use poker_epoll.Cards.{Card}
use poker_epoll.Errors.{GameError, invalid_action}
use poker_epoll.Players.Seating.{Distinct}
use poker_epoll.Table.{
  Phase, preflop, flop, turn, river, HandState, Event, phase_advanced, dealt_flop, dealt_street,
  turn_advanced,
}
use poker_epoll.Table.Turns.{is_active}

-- The phase after each phase that has one.
abbrev pub street_after : Phase → Option Phase
street_after preflop = some flop
street_after flop = some turn
street_after turn = some river
street_after p = none

-- The event for the first of those in turn.
abbrev pub turn_of : List PlayerId → List Event
turn_of [] = []
turn_of (id ∷ ids) = turn_advanced id ∷ []

-- The hand `h'` has the new phase, no bets in front of those who had an entry, nothing to call, the big
-- blind as the least raise, and the queue; all else is as in `h`.
pub record StartsStreet (p : Phase) (queue : List PlayerId) (h h' : HandState) : Type 0 where
  pub rest : h' ≡ record h {
    phase = p;
    active_bets = h'.active_bets;
    previous_bet = 0;
    min_raise = big_blind;
    turn_queue = queue;
  }
  pub put_away : (j : PlayerId) → lookup_or j 0 h'.active_bets ≡ 0
  pub entries : (j : PlayerId) → has_key j h'.active_bets ≡ has_key j h.active_bets

-- The street is refused where there is none, and started elsewhere.
abbrev pub Opened :
    Option Phase
    → List Event
    → List PlayerId
    → HandState
    → Expected GameError (List Event) × HandState
    → Type 0
Opened none cards queue h res = res ≡ (unexpected invalid_action, h)
Opened (some p) cards queue h res =
    (res.0 ≡ value (phase_advanced p ∷ cards ++ turn_of queue)) × StartsStreet p queue h res.1

-- What the street after a phase shows.
abbrev pub shown_after : Phase → Card → Card → Card → Card → Card → List Event
shown_after preflop a b c d e = dealt_flop (a ∷ b ∷ c ∷ []) ∷ []
shown_after flop a b c d e = dealt_street d ∷ []
shown_after turn a b c d e = dealt_street e ∷ []
shown_after p a b c d e = []

module _ (h : HandState) (before after : List PlayerId)
    (cut : h.participants ≡ before ++ h.button ∷ after) (once : Distinct h.participants)
    (a b c d e : Card) (board : h.table_cards ≡ a ∷ b ∷ c ∷ d ∷ e ∷ []) where
  abbrev queue : List PlayerId
  queue = keep_if (is_active h.player_state) (after ++ (before ++ h.button ∷ []))
