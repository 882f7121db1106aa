-- ===== src/Table/Refusals.antt =====
-- engine/src/table.cc, `on_action`: when an action is refused, and with which error, said apart from
-- the order of the tests in the code.
pub mod Replies
use poker_epoll.Base.{
  ℕ, ◌+◌, ◌≤◌, ◌<◌, ◌≡◌, refl, ap, sym, subst, ◌∙◌, List, [], ◌∷◌, Option, none, some, Bool, true,
  false, not, ◌&&◌, ◌||◌, min, lookup_or, touch, Outcome, done, fault, ◌>>=◌, Returns, Returns-done,
  Returns-map, Expected, value, unexpected, ltb, leb, ◌==◌, arith, add64, if◌then◌else◌, Bool-cases,
  Option-cases, inl, inr,
}
use poker_epoll.Rules.{PlayerId, Chips}
use poker_epoll.Errors.{GameError, invalid_action, no_such_player, out_of_turn, bet_too_low}
use poker_epoll.Players.{Player, PlayerManager, seated, is_sat}
use poker_epoll.Players.Purses.{get_chips_lem, sat_player}
use poker_epoll.Table.{
  Table, HandState, Round, Phase, preflop, flop, turn, river, showdown, holding, Action, fold, bet,
  timeout, Event,
}
use poker_epoll.Table.Environment.{Env, IsLawful}
use poker_epoll.Table.Turns.{is_live, is_active, first_active}
use poker_epoll.Table.Bets.{
  Verdict, too_low, accepted, verdict, record_bet, accept_bet, is_all_in_bet, mark_bet, judge,
  handle_bet, handle_fold, handle_timeout,
}
use poker_epoll.Table.Actions.{actor, handle}
use poker_epoll.Table.Invariant.{IsHand}
use poker_epoll.Table.Invariant.Keeping.{Keeps, lookup_or-touch}
use poker_epoll.Table.Invariant.Bets.{
  place_in_hand, small_bet, mark_bet-Keeps, mark_live, mark_bets, touch-Keeps, handle_bet-judge,
  cut_covered,
}

abbrev pub error_of : {A : Type 0} → Expected GameError A → Option GameError
error_of (value a) = none
error_of (unexpected e) = some e

abbrev pub purse_of : PlayerId → PlayerManager → Chips
purse_of id m = elim (seated id m) [ none ↦ 0 | some p ↦ p.purse ]

-- A bet is too low: it is nothing while the player is behind, or it is not the whole purse and it does not
-- reach what is to be called, or it raises that by less than the least raise.
abbrev pub is_too_low : Chips → Chips → Chips → Chips → Chips → Bool
is_too_low amount purse current previous min_raise =
    let cut = min amount purse in
    (cut == 0 && ltb current previous)
    || (ltb 0 cut
        && ltb cut purse
        && (ltb (current + cut) previous
            || (ltb previous (current + cut) && ltb (current + cut) (previous + min_raise))))

-- What is wrong with an action of the player whose turn it is.
abbrev pub own_refusal : Action → PlayerManager → HandState → Option GameError
own_refusal (fold id) m h = none
own_refusal (timeout id) m h = none
own_refusal (bet id amount) m h =
    if is_too_low amount (purse_of id m) (lookup_or id 0 h.active_bets) h.previous_bet h.min_raise
    then some bet_too_low
    else none

-- What is wrong with an action at a table: there is no hand, the player is not at the table, nobody is to act,
-- it is the turn of another player, or the bet is too low.
abbrev pub refusal_with : Action → PlayerManager → Option HandState → Option GameError
refusal_with a m none = some invalid_action
refusal_with a m (some h) =
    if not (is_sat (actor a) m)
    then some no_such_player
    else elim (first_active h.player_state h.turn_queue) [
      | none ↦ some invalid_action
      | some front ↦ if actor a == front then own_refusal a m h else some out_of_turn
    ]

abbrev pub refusal : Action → Table → Option GameError
refusal a t = refusal_with a t.players t.hand_state

abbrev is_low : Verdict → Bool
is_low too_low = true
is_low (accepted b) = false

-- The tests of the code come to the same.
is_low-verdict :
    (amount purse current previous min_raise : Chips)
    → let b = is_all_in_bet amount purse in
      let cut : Chips = if b then purse else amount in
      is_low (verdict previous current min_raise cut (current + cut) b)
      ≡ is_too_low amount purse current previous min_raise
unfolding verdict is_all_in_bet
is_low-verdict amount purse current previous min_raise = ground arith

-- What the handlers reply, and that they stay on the street.
abbrev pub Replies : HandState → Option GameError → Expected GameError (List Event) × Round → Type 0
Replies h e s = (error_of s.0 ≡ e) × (s.1.hand.phase ≡ h.phase)

module _ (m : PlayerManager) (h : HandState) (v : IsHand m h) (id : PlayerId)
    (live : is_live h.player_state id ≡ true) where
  accept_bet-Replies :
      (p : Player) (amount previous : Chips) (is_raise : Bool)
      → seated id m ≡ some p
      → amount ≤ p.purse
      → Returns (Replies h none) (
          accept_bet id amount
            (add64 (lookup_or id 0 h.active_bets) amount)
            previous
            is_raise
            (record { players = m; hand = h }))
  unfolding accept_bet record_bet
  accept_bet-Replies p amount previous false e covers =
      let (m', left, ring, placed, chips, cycle, keeps, paid, short, repursed) =
        place_in_hand m h v id live p amount previous e covers in
      rw (placed, chips) (refl, refl)
  accept_bet-Replies p amount previous true e covers =
      let (m', left, ring, placed, chips, cycle, keeps, paid, short, repursed) =
        place_in_hand m h v id live p amount previous e covers in
      rw (placed, cycle, chips) (refl, refl)

module _ (m : PlayerManager) (h : HandState) (v : IsHand m h) (id : PlayerId)
    (live : is_live h.player_state id ≡ true) where
  judge-Replies :
      (vd : Verdict) (p : Player) (b : Bool) (cut previous : Chips)
      → seated id m ≡ some p
      → cut ≤ p.purse
      → Returns (Replies h (if is_low vd then some bet_too_low else none)) (
          judge vd id cut
            (add64 (lookup_or id 0 h.active_bets) cut)
            previous
            (record { players = m; hand = mark_bet id b h }))
  unfolding judge mark_bet
  judge-Replies too_low p b cut previous e covers = (refl, refl)
  judge-Replies (accepted is_raise) p b cut previous e covers =
      let marked = mark_bet-Keeps m h v id live b in
      subst
        (λ c. Returns (Replies h none) (
          accept_bet id cut (add64 c cut) previous is_raise
            (record { players = m; hand = mark_bet id b h })))
        (mark_bets m h v id live b)
        (accept_bet-Replies m (mark_bet id b h) marked.hand id (mark_live m h v id live b) p cut
          previous is_raise e covers)

  handle_bet-Replies :
      (amount : Chips)
      → Returns
          (Replies h (own_refusal (bet id amount) m h))
          (handle_bet id amount (record { players = m; hand = h }))
  handle_bet-Replies amount =
      let (p, e) = sat_player m id (v.in_play id live).1 in
      let b = is_all_in_bet amount p.purse in
      let cut : Chips = if b then p.purse else amount in
      let current = lookup_or id 0 h.active_bets in
      let (in_pot, exact, small) = small_bet m h v id live p cut e (cut_covered amount p.purse) in
      let vd = verdict h.previous_bet current h.min_raise cut (add64 current cut) b in
      let low : is_low vd ≡ is_too_low amount (purse_of id m) current h.previous_bet h.min_raise =
        ap (λ total. is_low (verdict h.previous_bet current h.min_raise cut total b)) exact
        ∙ is_low-verdict amount p.purse current h.previous_bet h.min_raise
        ∙ ap
            (λ (o : Option Player).
              is_too_low amount (elim o [ none ↦ 0 | some q ↦ q.purse ]) current h.previous_bet
                h.min_raise)
            (sym e) in
      rw (handle_bet-judge m h id amount p.purse (get_chips_lem m id p v.seating e)) (
        Returns-map (Replies h (if is_low vd then some bet_too_low else none))
          (Replies h (own_refusal (bet id amount) m h)) _
          (judge-Replies vd p b cut h.previous_bet e (cut_covered amount p.purse))
          (λ s (reply, street).
            (reply ∙ ap (λ (l : Bool). if l then some bet_too_low else none) low, street)))

-- A timeout folds a player who is behind, and checks otherwise; a check of nobody who is behind is accepted.
check_accepted :
    (m : PlayerManager) (h : HandState) (id : PlayerId)
    → ltb (lookup_or id 0 h.active_bets) h.previous_bet ≡ false
    → own_refusal (bet id 0) m h ≡ none
check_accepted m h id even = ground (arith, even)

pub handle-Replies :
    (a : Action) (m : PlayerManager) (h : HandState)
    → IsHand m h
    → is_live h.player_state (actor a) ≡ true
    → Returns (Replies h (own_refusal a m h)) (handle a (record { players = m; hand = h }))
unfolding handle handle_fold handle_timeout
handle-Replies (fold id) m h v live = (refl, refl)
handle-Replies (bet id amount) m h v live = handle_bet-Replies m h v id live amount
handle-Replies (timeout id) m h v live =
    let touched : HandState = record h { active_bets = touch id 0 h.active_bets } in
    let same : lookup_or id 0 touched.active_bets ≡ lookup_or id 0 h.active_bets =
      lookup_or-touch id id h.active_bets in
    elim (Bool-cases (ltb (lookup_or id 0 h.active_bets) h.previous_bet)) [
      | inl behind ↦ rw (behind, handle_timeout) (refl, refl)
      | inr even ↦
          rw (even, handle_timeout)
            (Returns-map (Replies touched (own_refusal (bet id 0) m touched)) (Replies h none)
              (handle_bet id 0 (record { players = m; hand = touched }))
              (handle_bet-Replies m touched (touch-Keeps m h v id).hand id live 0)
              (λ s (reply, street). (reply ∙ check_accepted m touched id (rw same even), street)))
    ]
