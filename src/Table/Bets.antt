-- ===== src/Table/Bets.antt =====
-- engine/src/table.cc: blinds, and the handlers of a bet, a fold and a timeout.
pub mod Broke
use mathlib.Core.List.{tail}
use poker_epoll.Base.{
  ◌-◌, List, [], ◌∷◌, ◌++◌, Bool, true, false, not, ◌&&◌, Map, lookup_or, touch, insert, erase,
  Outcome, done, Expected, value, unexpected, ◌>>=◌, ltb, leb, ◌==◌, if◌then◌else◌, add64, keep_if,
  min, max,
}
use poker_epoll.Rules.{PlayerId, Chips}
use poker_epoll.Errors.{GameError, bet_too_low}
use poker_epoll.Players.{get_chips, place_bet, active_cycle_from}
use poker_epoll.Table.{
  HandState, Round, PlayerState, all_in, folded, Event, bet_placed, player_chips,
}
use poker_epoll.Table.Turns.{is_active}

unfoldable pub post_blind : PlayerId → Chips → List Event → Round → Outcome (List Event × Round)
post_blind id amount events r = do
  chips ← get_chips id r.players
  elim (chips == 0) [
    | true ↦ done (
      events,
      record r { hand = record r.hand { player_state = insert id all_in r.hand.player_state } },
    )
    | false ↦ do
      let blind = min amount chips
      let states =
          if leb chips blind then insert id all_in r.hand.player_state else r.hand.player_state
      players ← place_bet id blind r.players
      let current = add64 (lookup_or id 0 r.hand.active_bets) blind
      left ← get_chips id players
      done (
        events ++ bet_placed id blind ∷ player_chips id left ∷ [],
        record {
          players = players;
          hand = record r.hand {
            player_state = states;
            committed = insert id (add64 (lookup_or id 0 r.hand.committed) blind) r.hand.committed;
            active_bets = insert id current r.hand.active_bets;
            previous_bet = max r.hand.previous_bet current;
          };
        },
      )
  ]

-- What the tests of `handle(const Bet&)` make of a bet.
pub data Verdict : Type 0 where
  too_low : Verdict
  accepted : Bool → Verdict

-- `bet` is the amount after it was cut to the purse, and `total` what the player would then have
-- in front of them; `accepted` says whether the bet is a raise.
unfoldable pub verdict : Chips → Chips → Chips → Chips → Chips → Bool → Verdict
verdict previous current min_raise bet total is_all_in =
    if bet == 0 && ltb current previous
    then too_low
    else if not (ltb 0 bet)
    then accepted false
    else if ltb total previous && not is_all_in
    then too_low
    else if not (ltb previous total)
    then accepted false
    else if ltb (total - previous) min_raise && not is_all_in
    then too_low
    else accepted (leb min_raise (total - previous))

-- The queue after a raise: the others that are active, in the order of the seats.
unfoldable pub requeue : PlayerId → Map PlayerState → List PlayerId → List PlayerId
requeue id states ring = keep_if (λ x. not (x == id) && is_active states x) ring

-- The bookkeeping of an accepted bet, on the hand alone.
unfoldable pub record_bet : PlayerId → Chips → Chips → Chips → HandState → HandState
record_bet id amount total previous h = record h {
  turn_queue = tail h.turn_queue;
  committed = insert id (add64 (lookup_or id 0 h.committed) amount) h.committed;
  previous_bet = max previous total;
  active_bets = insert id total h.active_bets;
}

unfoldable pub accept_bet :
    PlayerId
    → Chips
    → Chips
    → Chips
    → Bool
    → Round
    → Outcome (Expected GameError (List Event) × Round)
accept_bet id amount total previous is_raise r = do
  players ← place_bet id amount r.players
  let h = record_bet id amount total previous r.hand
  hand ← elim is_raise [
    | false ↦ done h
    | true ↦ do
      ring ← active_cycle_from id players
      done (record h { min_raise = total - previous; turn_queue = requeue id h.player_state ring })
  ]
  left ← get_chips id players
  done (
    value (bet_placed id amount ∷ player_chips id left ∷ []),
    record { players = players; hand = hand },
  )

-- A bet of the whole purse or more is all in; this is noted before the bet is judged.
unfoldable pub is_all_in_bet : Chips → Chips → Bool
is_all_in_bet amount chips = leb chips amount && ltb 0 amount

-- The hand as the tests see it: the read of `active_bets[id]` has made an entry.
unfoldable pub mark_bet : PlayerId → Bool → HandState → HandState
mark_bet id is_all_in h = record h {
  active_bets = touch id 0 h.active_bets;
  player_state = if is_all_in then insert id all_in h.player_state else h.player_state;
}

-- What follows from the verdict, on the marked hand.
unfoldable pub judge :
    Verdict
    → PlayerId
    → Chips
    → Chips
    → Chips
    → Round
    → Outcome (Expected GameError (List Event) × Round)
judge too_low id bet total previous marked = done (unexpected bet_too_low, marked)
judge (accepted is_raise) id bet total previous marked =
    accept_bet id bet total previous is_raise marked

-- `Table::handle(const Bet &b)`
unfoldable pub handle_bet :
    PlayerId → Chips → Round → Outcome (Expected GameError (List Event) × Round)
handle_bet id amount r = do
  chips ← get_chips id r.players
  let is_all_in = is_all_in_bet amount chips
  let bet = if is_all_in then chips else amount
  let previous = r.hand.previous_bet
  let current = lookup_or id 0 r.hand.active_bets
  let total = add64 current bet
  judge (verdict previous current r.hand.min_raise bet total is_all_in) id bet total previous
      (record r { hand = mark_bet id is_all_in r.hand })

-- `Table::handle(const Fold &f)`
unfoldable pub handle_fold : PlayerId → Round → Expected GameError (List Event) × Round
handle_fold id r = (
  value [],
  record r {
    hand = record r.hand {
      turn_queue = tail r.hand.turn_queue;
      player_state = insert id folded r.hand.player_state;
      active_bets = erase id r.hand.active_bets;
    };
  },
)

-- `Table::handle(const Timeout &t)`
unfoldable pub handle_timeout : PlayerId → Round → Outcome (Expected GameError (List Event) × Round)
handle_timeout id r =
    let touched = record r {
      hand = record r.hand { active_bets = touch id 0 r.hand.active_bets };
    } in
    elim (ltb (lookup_or id 0 r.hand.active_bets) r.hand.previous_bet) [
      | true ↦ done (handle_fold id touched)
      | false ↦ handle_bet id 0 touched
    ]
