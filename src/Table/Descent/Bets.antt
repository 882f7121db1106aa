-- ===== src/Table/Descent/Bets.antt =====
-- engine/src/table.cc: a fold, a bet or a timeout that is accepted brings the hand nearer to its end, and
-- one that is refused does not bring it further from there.
use mathlib.Core.List.{tail}
use poker_epoll.Base.{
  ◌≤◌, ◌<◌, ◌≡◌, refl, ap, subst, List, [], ◌∷◌, some, Bool, true, false, lookup_or, touch, length,
  Returns, Returns-map, Expected, value, unexpected, ltb, arith, add64, if◌then◌else◌, Bool-cases,
  inl, inr,
}
use poker_epoll.Rules.{PlayerId, Chips}
use poker_epoll.Errors.{GameError}
use poker_epoll.Players.{Player, PlayerManager, seated}
use poker_epoll.Players.Purses.{get_chips_lem, sat_player}
use poker_epoll.Table.{HandState, Round, Event}
use poker_epoll.Table.Turns.{is_live}
use poker_epoll.Table.Bets.{
  Verdict, too_low, accepted, verdict, requeue, record_bet, accept_bet, is_all_in_bet, mark_bet,
  judge, handle_bet, handle_fold, handle_timeout,
}
use poker_epoll.Table.Invariant.{IsHand}
use poker_epoll.Table.Invariant.Bets.{
  place_in_hand, mark_bet-Keeps, mark_live, mark_bets, touch-Keeps, handle_bet-judge, cut_covered,
}
use poker_epoll.Table.Descent.{Lowers, shorter, poorer, Rests, Rests-Lowers, length-keep_if}

-- What an action makes of the round, by whether it is accepted.
abbrev pub Steps : Round → Expected GameError (List Event) × Round → Type 0
Steps r (value events, s) = Lowers r s
Steps r (unexpected e, s) = Rests r s

tail_shorter : (q : List PlayerId) → 0 < length q → length (tail q) < length q
tail_shorter [] h = absurd (omega (arith, h))
tail_shorter (x ∷ q) h = omega arith

pub handle_fold-Steps :
    (id : PlayerId) (r : Round) → 0 < length r.hand.turn_queue → Steps r (handle_fold id r)
unfolding handle_fold
handle_fold-Steps id r h = shorter (omega arith) (tail_shorter r.hand.turn_queue h)

pub Steps-after :
    (r s : Round) (out : Expected GameError (List Event) × Round)
    → s.hand.participants ≡ r.hand.participants
    → Rests r s
    → Steps s out
    → Steps r out
Steps-after r s (value events, t) same k l = Rests-Lowers r s t same k l
Steps-after r s (unexpected e, t) same k l = record {
  kept = omega (arith, k.kept, l.kept);
  queue = omega (arith, k.queue, l.queue);
}

-- Only a bet of some chips is a raise.
raise_pays :
    (previous current min_raise bet total : Chips) (b : Bool)
    → verdict previous current min_raise bet total b ≡ accepted true
    → 0 < bet
unfolding verdict
raise_pays previous current min_raise bet total b e = ground (arith, e)

module _ (m : PlayerManager) (h : HandState) (v : IsHand m h) (id : PlayerId)
    (live : is_live h.player_state id ≡ true) (waits : 0 < length h.turn_queue) where
  accept_bet-Lowers :
      (p : Player) (amount previous : Chips) (is_raise : Bool)
      → seated id m ≡ some p
      → amount ≤ p.purse
      → (is_raise ≡ true → 0 < amount)
      → Returns (Steps (record { players = m; hand = h })) (
          accept_bet id amount
            (add64 (lookup_or id 0 h.active_bets) amount)
            previous
            is_raise
            (record { players = m; hand = h }))
  unfolding accept_bet record_bet
  accept_bet-Lowers p amount previous false e covers pays =
      let (m', left, ring, placed, chips, cycle, keeps, paid, short, repursed) =
        place_in_hand m h v id live p amount previous e covers in
      rw (placed, chips) (shorter (omega (arith, paid)) (tail_shorter h.turn_queue waits))
  accept_bet-Lowers p amount previous true e covers pays =
      let (m', left, ring, placed, chips, cycle, keeps, paid, short, repursed) =
        place_in_hand m h v id live p amount previous e covers in
      rw (placed, cycle, chips)
        (unfold requeue in
          poorer (omega (arith, paid, pays refl)) (omega (arith, length-keep_if _ ring, short)))

-- The hand with the bet marked, or with the entry that a read makes, has the same queue, purses and street.
same_queue :
    (m : PlayerManager) (h h' : HandState)
    → h'.turn_queue ≡ h.turn_queue
    → h'.phase ≡ h.phase
    → Rests (record { players = m; hand = h }) (record { players = m; hand = h' })
same_queue m h h' e_queue e_phase = record {
  kept = rw e_phase (omega arith);
  queue = rw e_queue (omega arith);
}

module _ (m : PlayerManager) (h : HandState) (v : IsHand m h) (id : PlayerId)
    (live : is_live h.player_state id ≡ true) (waits : 0 < length h.turn_queue) where
  judge-Steps :
      (vd : Verdict) (p : Player) (b : Bool) (cut previous : Chips)
      → seated id m ≡ some p
      → cut ≤ p.purse
      → (vd ≡ accepted true → 0 < cut)
      → Returns (Steps (record { players = m; hand = h })) (
          judge vd id cut
            (add64 (lookup_or id 0 h.active_bets) cut)
            previous
            (record { players = m; hand = mark_bet id b h }))
  unfolding judge mark_bet
  judge-Steps too_low p b cut previous e covers pays = same_queue m h (mark_bet id b h) refl refl
  judge-Steps (accepted is_raise) p b cut previous e covers pays =
      let marked = mark_bet-Keeps m h v id live b in
      let r : Round = record { players = m; hand = h } in
      let s : Round = record { players = m; hand = mark_bet id b h } in
      Returns-map (Steps s) (Steps r) _
        (subst (λ c. Returns (Steps s) (accept_bet id cut (add64 c cut) previous is_raise s))
          (mark_bets m h v id live b)
          (accept_bet-Lowers m (mark_bet id b h) marked.hand id (mark_live m h v id live b) waits p
            cut previous is_raise e covers (λ raise. pays (ap (λ i. accepted i) raise))))
        (λ out. Steps-after r s out refl (same_queue m h (mark_bet id b h) refl refl))

  pub handle_bet-Steps :
      (amount : Chips)
      → Returns
          (Steps (record { players = m; hand = h }))
          (handle_bet id amount (record { players = m; hand = h }))
  handle_bet-Steps amount =
      let (p, e) = sat_player m id (v.in_play id live).1 in
      let b = is_all_in_bet amount p.purse in
      rw (handle_bet-judge m h id amount p.purse (get_chips_lem m id p v.seating e)) (
        judge-Steps _ p b (if b then p.purse else amount) h.previous_bet e
          (cut_covered amount p.purse) (raise_pays _ _ _ _ _ b))

pub handle_timeout-Steps :
    (m : PlayerManager) (h : HandState)
    → IsHand m h
    → (id : PlayerId) → is_live h.player_state id ≡ true
    → 0 < length h.turn_queue
    → Returns
        (Steps (record { players = m; hand = h }))
        (handle_timeout id (record { players = m; hand = h }))
unfolding handle_timeout
handle_timeout-Steps m h v id live waits =
    let touched : HandState = record h { active_bets = touch id 0 h.active_bets } in
    let r : Round = record { players = m; hand = h } in
    let s : Round = record { players = m; hand = touched } in
    let rests = same_queue m h touched refl refl in
    elim (Bool-cases (ltb (lookup_or id 0 h.active_bets) h.previous_bet)) [
      | inl behind ↦
          rw (behind, handle_timeout)
            (Steps-after r s (handle_fold id s) refl rests (handle_fold-Steps id s waits))
      | inr even ↦
          rw (even, handle_timeout)
            (Returns-map (Steps s) (Steps r) (handle_bet id 0 s)
              (handle_bet-Steps m touched (touch-Keeps m h v id).hand id live waits 0)
              (λ out. Steps-after r s out refl rests))
    ]
