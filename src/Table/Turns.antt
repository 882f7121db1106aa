-- ===== src/Table/Turns.antt =====
-- engine/src/table.cc: who acts next. The queue and the rings over the participants.
pub mod Rings
use poker_epoll.Base.{
  ℕ, zero, suc, ◌+◌, ◌%◌, List, [], ◌∷◌, ◌++◌, Option, none, some, Bool, true, false, length,
  get_or, keep_if, Map, lookup, ◌==◌, if◌then◌else◌,
}
use poker_epoll.Rules.{PlayerId}
use poker_epoll.Table.{HandState, PlayerState, active, all_in, Event, turn_advanced}

-- `it != end() && it->second == PlayerState::active`
abbrev pub is_active : Map PlayerState → PlayerId → Bool
is_active states id = elim (lookup id states) [
  | none ↦ false
  | some s ↦ elim s [ active ↦ true | _ ↦ false ]
]

-- The same for `active` or `all_in`.
abbrev pub is_live : Map PlayerState → PlayerId → Bool
is_live states id = elim (lookup id states) [
  | none ↦ false
  | some s ↦ elim s [ active ↦ true | all_in ↦ true | _ ↦ false ]
]

-- The loop of `prune_turn_queue`: pop until an active player stands in front.
unfoldable pub prune : Map PlayerState → List PlayerId → List PlayerId
prune states [] = []
prune states (id ∷ queue) = if is_active states id then id ∷ queue else prune states queue

unfoldable pub prune_turn_queue : HandState → HandState
unfolding prune
prune_turn_queue h = record h { turn_queue = prune h.player_state h.turn_queue }

-- `std::find` and `std::distance`.
unfoldable pub offset_of : PlayerId → List PlayerId → Option ℕ
offset_of id [] = none
offset_of id (x ∷ xs) =
    if x == id then some 0 else elim (offset_of id xs) [ none ↦ none | some i ↦ some (suc i) ]

-- The players at the offsets i, …, i + rounds - 1 from `offset`, round the table.
unfoldable pub ring : List PlayerId → ℕ → ℕ → ℕ → List PlayerId
ring participants offset zero i = []
ring participants offset (suc rounds) i =
    get_or participants ((offset + i) % length participants) 0
    ∷ ring participants offset rounds (i + 1)

unfoldable pub build_turn_queue : PlayerId → HandState → List PlayerId
unfolding offset_of ring
build_turn_queue start h = elim (offset_of start h.participants) [
  | none ↦ []
  | some offset ↦
      keep_if (is_active h.player_state) (ring h.participants offset (length h.participants) 0)
]

unfoldable pub first_active : Map PlayerState → List PlayerId → Option PlayerId
first_active states [] = none
first_active states (id ∷ ids) = if is_active states id then some id else first_active states ids

unfoldable pub first_active_after : PlayerId → HandState → Option PlayerId
unfolding offset_of ring first_active
first_active_after start h = elim (offset_of start h.participants) [
  | none ↦ none
  | some offset ↦ first_active h.player_state (ring h.participants offset (length h.participants) 1)
]

unfoldable pub active_players_in_hand : HandState → List PlayerId
active_players_in_hand h = keep_if (is_live h.player_state) h.participants

-- The event for the front of the queue, if there is one.
abbrev pub announce : List PlayerId → List Event → List Event
announce [] events = events
announce (id ∷ queue) events = events ++ turn_advanced id ∷ []

-- `Table::advance_turn`
unfoldable pub advance_turn : List Event → HandState → List Event × HandState
unfolding prune_turn_queue
advance_turn events h = let h' = prune_turn_queue h in (announce h'.turn_queue events, h')
