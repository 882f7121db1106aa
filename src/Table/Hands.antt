-- ===== src/Table/Hands.antt =====
-- engine/src/table.cc: dealing the cards and starting a hand.
pub mod Button
pub mod Dealing
pub mod Engines
pub mod Positions
use poker_epoll.Base.{
  ℕ, ◌%◌, List, [], ◌∷◌, ◌++◌, map, length, get_or, none, some, Bool, true, false, Map, insert,
  Outcome, done, fault, Expected, value, unexpected, ◌>>=◌, ltb, ◌==◌, if◌then◌else◌,
}
use poker_epoll.Rules.{PlayerId, big_blind, small_blind}
use poker_epoll.Errors.{hand_in_play, not_enough_players}
use poker_epoll.Cards.{Card}
use poker_epoll.Cards.Deck.{Deck, shuffle, deal_hole, deal_board}
use poker_epoll.Players.{
  PlayerManager, num_players, seat_held_players, get_first_player, next_player, active_cycle_from,
  get_chips,
}
use poker_epoll.Table.{
  preflop, HandState, active, Round, Engine, live, dangling, Table, Event, hand_started,
  phase_advanced, player_chips, dealt_hole, turn_advanced,
}
use poker_epoll.Table.Environment.{Env}
use poker_epoll.Table.Turns.{prune_turn_queue, build_turn_queue}
use poker_epoll.Table.Bets.{post_blind}
use poker_epoll.Table.Closing.{Reply, run_out}

-- `Table::hand_in_progress`
unfoldable pub hand_in_progress : Table → Bool
hand_in_progress t = elim t.hand_state [ none ↦ false | some h ↦ true ]

-- `*e` of a `std::expected`, which is not defined for an error.
abbrev pub deref : {E A : Type 0} → Expected E A → Outcome A
deref (value a) = done a
deref (unexpected e) = fault

-- The holes, one after the other.
unfoldable pub deal_holes :
    List PlayerId → Map (List Card) → Deck → Outcome (Map (List Card) × Deck)
deal_holes [] holes d = done (holes, d)
deal_holes (id ∷ ids) holes d =
    let (res, d') = deal_hole d in deref res >>= λ hole. deal_holes ids (insert id hole holes) d'

-- `Table::deal_cards`: to the button, to the participants after the first, and to the board.
-- The shuffle is the first use of the engine, and is not defined for one that is gone.
unfoldable pub deal_cards :
    Env
    → PlayerId
    → List PlayerId
    → Engine
    → Deck
    → Outcome (Map (List Card) × List Card × Deck × Engine)
deal_cards env button [] rng d = fault
deal_cards env button (first ∷ others) dangling d = fault
deal_cards env button (first ∷ others) (live rng) d = do
  let (shuffled, rng') = shuffle env.shuffler rng d
  (holes, d') ← deal_holes (button ∷ others) [] shuffled
  let (res, d'') = deal_board d'
  board ← deref res
  done (holes, board, d'', live rng')

-- `m[id] = v` for each of the players.
abbrev pub insert_all {ℓ} : {V : Type ℓ} → V → List PlayerId → Map V → Map V
insert_all v [] m = m
insert_all v (id ∷ ids) m = insert_all v ids (insert id v m)

-- The hand as `handle_new_hand` fills it in, before the blinds.
unfoldable pub first_hand : PlayerId → List PlayerId → Map (List Card) → List Card → HandState
first_hand button participants holes board = record {
  phase = preflop;
  button = button;
  active_bets = insert_all 0 participants [];
  committed = insert_all 0 participants [];
  previous_bet = 0;
  min_raise = big_blind;
  table_cards = board;
  player_holes = holes;
  turn_queue = [];
  participants = participants;
  player_state = insert_all active participants [];
}

unfoldable pub chip_events : PlayerManager → List PlayerId → Outcome (List Event)
chip_events players [] = done []
chip_events players (id ∷ ids) = do
  chips ← get_chips id players
  rest ← chip_events players ids
  done (player_chips id chips ∷ rest)

-- Who posts the small and the big blind, and who acts first.
abbrev pub positions : List PlayerId → PlayerId × PlayerId × PlayerId
positions ps =
    if length ps == 2
    then (get_or ps 0 0, get_or ps 1 0, get_or ps 0 0)
    else (get_or ps (1 % length ps) 0, get_or ps (2 % length ps) 0, get_or ps (3 % length ps) 0)

-- Both blinds, and the queue of the first street.
unfoldable pub post_blinds : List Event → Round → Outcome (List Event × Round)
post_blinds events r = do
  let (sb, bb, first) = positions r.hand.participants
  (events', r') ← post_blind sb small_blind events r
  (events'', r'') ← post_blind bb big_blind events' r'
  done (
    events'',
    record r'' { hand = record r''.hand { turn_queue = build_turn_queue first r''.hand } },
  )

-- The hand after the blinds: the first turn, or the showdown if nobody can act.
unfoldable pub open_hand : Env → Table → List Event × Round → Reply
open_hand env t (events, r) =
    let h = prune_turn_queue r.hand in
    elim h.turn_queue [
      | [] ↦ run_out env events (record r { hand = h }) t
      | first ∷ queue ↦ done (
        value (events ++ turn_advanced first ∷ []),
        record t { players = r.players; hand_state = some h },
      )
    ]

-- The hand that is dealt to two participants or more; `t` has its button and its players.
unfoldable pub deal_hand : Env → List PlayerId → Table → Reply
deal_hand env participants t = do
  (holes, board, deck, rng) ← deal_cards env t.button participants t.rng t.deck
  chips ← chip_events t.players participants
  let events =
      hand_started ∷ phase_advanced preflop ∷ chips
      ++ map (λ e. dealt_hole e.0 e.1) (env.holes_order holes)
  let hand = first_hand t.button participants holes board
  blinds ← post_blinds events (record { players = t.players; hand = hand })
  open_hand env (record t { deck = deck; rng = rng }) blinds

-- The next button: the first player of the table, or the one after the last button. The result is
-- dereferenced without a test.
unfoldable pub next_button : PlayerId → PlayerManager → Outcome PlayerId
next_button button players =
    if button == 0 then deref (get_first_player players) else deref (next_player button players)

-- `Table::handle_new_hand`
unfoldable pub handle_new_hand : Env → Table → Reply
handle_new_hand env t =
    if ltb (num_players t.players) 2
    then done (unexpected not_enough_players, t)
    else if hand_in_progress t
    then done (unexpected hand_in_play, t)
    else (do
      let players = seat_held_players t.players
      button ← next_button t.button players
      participants ← active_cycle_from button players
      let seated = record t { players = players; button = button; hand_state = none }
      if ltb (length participants) 2
          then done (unexpected not_enough_players, seated)
          else deal_hand env participants seated)
