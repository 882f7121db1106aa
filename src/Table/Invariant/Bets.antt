-- ===== src/Table/Invariant/Bets.antt =====
-- engine/src/table.cc: bets, blinds, folds and timeouts keep the invariant of the hand, move chips
-- from a purse into the hand, and never fail.
use poker_epoll.Base.{
  ◌+◌, ◌-◌, ◌≤◌, ◌<◌, ◌≡◌, refl, ap, ◌∙◌, subst, List, some, Bool, true, false, lookup_or, insert,
  touch, lookup-insert, lookup_or-le-total, Outcome, done, fault, Returns, Expected, ltb, arith,
  u64_size, add64, add64_exact, if◌then◌else◌, Bool-cases, inl, inr, length,
}
use poker_epoll.Rules.{PlayerId, Chips, max_players}
use poker_epoll.Errors.{GameError}
use poker_epoll.Players.{
  Player, PlayerManager, seated, is_sat, place_bet, get_chips, active_cycle_from,
}
use poker_epoll.Players.Seating.{IsSeated, insert-Unique, erase-Unique, lookup-erase, sitter, id_of}
use poker_epoll.Players.Seating.Changes.{seat_bound}
use poker_epoll.Players.Seating.Sitters.{length-others_from}
use poker_epoll.Players.Seating.Rounds.{active_cycle_from_lem}
use poker_epoll.Players.Purses.{
  Repursed, place_bet_lem, get_chips_lem, get_chips_total, seated_id, seated_seat, sat_player,
  purse-le-purses, purses,
}
use poker_epoll.Table.{HandState, Round, all_in, folded, Event}
use poker_epoll.Table.Turns.{is_live}
use poker_epoll.Table.Bets.{
  Verdict, too_low, accepted, verdict, record_bet, accept_bet, is_all_in_bet, mark_bet, judge,
  handle_bet, handle_fold, handle_timeout,
}
use poker_epoll.Table.Invariant.{IsHand}
use poker_epoll.Table.Invariant.Keeping.{
  Keeps, put_in-Keeps, relabel-Keeps, Keeps-trans, is_live-insert, lookup_or-touch,
}

-- The handler ends, and keeps the invariant and the chips, whether it accepts or refuses.
abbrev pub Handles : Round → Outcome (Expected GameError (List Event) × Round) → Type 0
Handles r out = Returns (λ s. Keeps r s.1) out

module _ (m : PlayerManager) (h : HandState) (v : IsHand m h) (id : PlayerId)
    (live : is_live h.player_state id ≡ true) where
  pub mark_bet-Keeps :
      (b : Bool)
      → Keeps (record { players = m; hand = h }) (record { players = m; hand = mark_bet id b h })
  unfolding mark_bet
  mark_bet-Keeps b =
      relabel-Keeps m h (mark_bet id b h) v refl refl refl
        (ground (arith, v.bet_entries, insert-Unique id 0 h.active_bets v.bet_entries))
        (λ j. omega (arith, lookup_or-touch j id h.active_bets))
        (λ j k. ground (arith, is_live-insert h.player_state id j all_in live))

  -- `Table::handle(const Fold &f)`: a fold of a player who is still in keeps the invariant and the
  -- chips, and with them the participants and the seats.
  pub handle_fold-Keeps :
      Keeps (record { players = m; hand = h }) (handle_fold id (record { players = m; hand = h })).1
  unfolding handle_fold
  handle_fold-Keeps =
      relabel-Keeps m h _ v refl refl refl (erase-Unique id h.active_bets v.bet_entries)
        (λ j. ground (arith, lookup-erase j id h.active_bets v.bet_entries))
        (λ j k. is_live-insert h.player_state id j folded live k)

-- The ring of the seats from a seated player is found, and is no longer than the table.
cycle_done :
    (m : PlayerManager) (id : PlayerId)
    → IsSeated m
    → is_sat id m ≡ true
    → (ring : List PlayerId) × (active_cycle_from id m ≡ done ring) × (length ring ≤ max_players)
cycle_done m id v sat =
    let (p, e) = sat_player m id sat in
    let (s, known, sits) = seated_seat m id p e in
    let at_s : sitter m.seats s ≡ some id =
      ap (λ o. id_of o) sits ∙ ap some (seated_id m id p v e) in
    let bound : s < length m.seats = seat_bound m id s v known in
    (
      _,
      active_cycle_from_lem m id s v at_s,
      omega (arith, length-others_from s m.seats bound, v.seats_length),
    )

module _ (m : PlayerManager) (h : HandState) (v : IsHand m h) (id : PlayerId)
    (live : is_live h.player_state id ≡ true) where
  pub small_bet :
      (p : Player) (amount : Chips)
      → seated id m ≡ some p
      → amount ≤ p.purse
      → (add64 (lookup_or id 0 h.committed) amount ≡ lookup_or id 0 h.committed + amount)
        × (add64 (lookup_or id 0 h.active_bets) amount ≡ lookup_or id 0 h.active_bets + amount)
        × (p.purse < u64_size)
  small_bet p amount e covers =
      let a = lookup_or-le-total id h.committed in
      let b = purse-le-purses m id p v.seating e in
      let c = v.covered id in
      (
        add64_exact (lookup_or id 0 h.committed) amount (omega (arith, a, b, v.solvent)),
        add64_exact (lookup_or id 0 h.active_bets) amount (omega (arith, a, b, c, v.solvent)),
        omega (arith, a, b, v.solvent),
      )

  -- The steps of an accepted bet, each of which succeeds.
  pub place_in_hand :
      (p : Player) (amount previous : Chips)
      → seated id m ≡ some p
      → amount ≤ p.purse
      → let h' = record_bet id amount (add64 (lookup_or id 0 h.active_bets) amount) previous h in
        (m' : PlayerManager) × (left : Chips) × (ring : List PlayerId) × (place_bet id amount m
          ≡ done m')
        × (get_chips id m' ≡ done left)
        × (active_cycle_from id m' ≡ done ring)
        × Keeps (record { players = m; hand = h }) (record { players = m'; hand = h' })
        × (purses m' + amount ≡ purses m)
        × (length ring ≤ max_players)
        × Repursed m m' p (p.purse - amount)
  place_in_hand p amount previous e covers =
      let (e_committed, e_bets, small) = small_bet p amount e covers in
      let (m', placed, repursed) = place_bet_lem m id p v.seating e amount covers small in
      let h' = record_bet id amount (add64 (lookup_or id 0 h.active_bets) amount) previous h in
      let keeps : Keeps (record { players = m; hand = h }) (record { players = m'; hand = h' }) =
        unfold record_bet in
        put_in-Keeps m m' h h' id p amount v e covers repursed (v.in_play id live).2
          (ap (λ c. insert id c h.committed) e_committed)
          (ap (λ c. insert id c h.active_bets) e_bets) refl refl (λ j k. k) in
      let sat : is_sat id m' ≡ true = keeps.players.sat id ∙ (v.in_play id live).1 in
      let (ring, cycle, short) = cycle_done m' id keeps.players.seating sat in
      let (left, chips, bound) = get_chips_total m' id keeps.players.seating sat in
      let paid : purses m' + amount ≡ purses m = omega (arith, repursed.balance, covers) in
      (m', left, ring, placed, chips, cycle, keeps, paid, short, repursed)

  -- An accepted bet that the purse covers.
  accept_bet-Handles :
      (p : Player) (amount previous : Chips) (is_raise : Bool)
      → seated id m ≡ some p
      → amount ≤ p.purse
      → Handles
          (record { players = m; hand = h })
          (accept_bet id amount
            (add64 (lookup_or id 0 h.active_bets) amount)
            previous
            is_raise
            (record { players = m; hand = h }))
  unfolding accept_bet
  accept_bet-Handles p amount previous false e covers =
      let (m', left, ring, placed, chips, cycle, keeps, paid, short, repursed) =
        place_in_hand p amount previous e covers in
      rw (placed, chips) keeps
  accept_bet-Handles p amount previous true e covers =
      let (m', left, ring, placed, chips, cycle, keeps, paid, short, repursed) =
        place_in_hand p amount previous e covers in
      rw (placed, cycle, chips)
        (Keeps-trans keeps (
          relabel-Keeps m' _ _ keeps.hand refl refl refl keeps.hand.bet_entries (λ j. omega arith)
            (λ j k. k)))

pub cut_covered :
    (amount chips : Chips) → (if is_all_in_bet amount chips then chips else amount) ≤ chips
unfolding is_all_in_bet
cut_covered amount chips = ground arith

pub Handles-after :
    {r s : Round} (out : Outcome (Expected GameError (List Event) × Round))
    → Keeps r s
    → Handles s out
    → Handles r out
Handles-after (done (res, t)) k h = Keeps-trans k h
Handles-after fault k h = h

pub handle_bet-judge :
    (m : PlayerManager) (h : HandState) (id : PlayerId) (amount chips : Chips)
    → get_chips id m ≡ done chips
    → let b = is_all_in_bet amount chips in
      let cut : Chips = if b then chips else amount in
      let total = add64 (lookup_or id 0 h.active_bets) cut in
      handle_bet id amount (record { players = m; hand = h })
      ≡ judge
          (verdict h.previous_bet (lookup_or id 0 h.active_bets) h.min_raise cut total b)
          id
          cut
          total
          h.previous_bet
          (record { players = m; hand = mark_bet id b h })
unfolding handle_bet
handle_bet-judge m h id amount chips e = rw (e, handle_bet) refl

module _ (m : PlayerManager) (h : HandState) (v : IsHand m h) (id : PlayerId)
    (live : is_live h.player_state id ≡ true) where
  pub mark_live : (b : Bool) → is_live (mark_bet id b h).player_state id ≡ true
  unfolding mark_bet
  mark_live b = ground (arith, lookup-insert id id all_in h.player_state)

  pub mark_bets :
      (b : Bool) → lookup_or id 0 (mark_bet id b h).active_bets ≡ lookup_or id 0 h.active_bets
  unfolding mark_bet
  mark_bets b = lookup_or-touch id id h.active_bets

  judge-Handles :
      (vd : Verdict) (p : Player) (b : Bool) (cut previous : Chips)
      → seated id m ≡ some p
      → cut ≤ p.purse
      → Handles
          (record { players = m; hand = h })
          (judge vd id cut
            (add64 (lookup_or id 0 h.active_bets) cut)
            previous
            (record { players = m; hand = mark_bet id b h }))
  unfolding judge
  judge-Handles too_low p b cut previous e covers = mark_bet-Keeps m h v id live b
  judge-Handles (accepted is_raise) p b cut previous e covers =
      let marked = mark_bet-Keeps m h v id live b in
      Handles-after _ marked (
        subst
          (λ c.
            Handles (record { players = m; hand = mark_bet id b h })
              (accept_bet id cut (add64 c cut) previous is_raise
                (record { players = m; hand = mark_bet id b h })))
          (mark_bets b)
          (accept_bet-Handles m (mark_bet id b h) marked.hand id (mark_live b) p cut previous
            is_raise e covers))

-- `Table::handle(const Bet &b)`: a bet of a player who is still in ends, refused or accepted, for
-- any amount. It keeps the invariant, and chips only move from the purse into the hand.
pub handle_bet-Handles :
    (m : PlayerManager) (h : HandState) (id : PlayerId) (amount : Chips)
    → IsHand m h
    → is_live h.player_state id ≡ true
    → Handles
        (record { players = m; hand = h })
        (handle_bet id amount (record { players = m; hand = h }))
handle_bet-Handles m h id amount v live =
    let (p, e) = sat_player m id (v.in_play id live).1 in
    let b = is_all_in_bet amount p.purse in
    rw (handle_bet-judge m h id amount p.purse (get_chips_lem m id p v.seating e)) (
      judge-Handles m h v id live _ p b (if b then p.purse else amount) h.previous_bet e
        (cut_covered amount p.purse))

pub touch-Keeps :
    (m : PlayerManager) (h : HandState) (v : IsHand m h) (id : PlayerId)
    → Keeps
        (record { players = m; hand = h })
        (record { players = m; hand = record h { active_bets = touch id 0 h.active_bets } })
touch-Keeps m h v id =
    relabel-Keeps m h _ v refl refl refl
      (ground (arith, v.bet_entries, insert-Unique id 0 h.active_bets v.bet_entries))
      (λ j. omega (arith, lookup_or-touch j id h.active_bets)) (λ j k. k)

-- `Table::handle(const Timeout &t)`: a timeout of a player who is still in ends, as a fold or as a
-- check; it keeps the invariant, and all chips are kept.
pub handle_timeout-Handles :
    (m : PlayerManager) (h : HandState) (id : PlayerId)
    → IsHand m h
    → is_live h.player_state id ≡ true
    → Handles
        (record { players = m; hand = h })
        (handle_timeout id (record { players = m; hand = h }))
unfolding handle_timeout
handle_timeout-Handles m h id v live =
    let touched = touch-Keeps m h v id in
    elim (Bool-cases (ltb (lookup_or id 0 h.active_bets) h.previous_bet)) [
      | inl behind ↦
          rw (behind, handle_timeout)
            (Keeps-trans touched (handle_fold-Keeps m _ touched.hand id live))
      | inr even ↦
          rw (even, handle_timeout)
            (Handles-after _ touched (handle_bet-Handles m _ id 0 touched.hand live))
    ]
