-- ===== src/Table/Invariant/Blinds.antt =====
-- engine/src/table.cc, `post_blind`: a blind goes from the purse into the hand.
use poker_epoll.Base.{
  lookup-insert, Returns-map, ◌≤◌, ◌≡◌, refl, ap, ◌∙◌, List, some, true, lookup_or, insert, add64,
  min, max, leb, ◌==◌, arith, if◌then◌else◌, Bool-cases, inl, inr, Returns,
}
use poker_epoll.Rules.{PlayerId, Chips}
use poker_epoll.Players.{Player, PlayerManager, seated}
use poker_epoll.Players.Purses.{place_bet_lem, get_chips_lem, get_chips_total, sat_player}
use poker_epoll.Table.{HandState, Round, all_in, Event}
use poker_epoll.Table.Turns.{is_live}
use poker_epoll.Table.Bets.{post_blind}
use poker_epoll.Table.Invariant.{IsHand}
use poker_epoll.Table.Invariant.Bets.{small_bet}
use poker_epoll.Table.Invariant.Keeping.{Keeps, put_in-Keeps, relabel-Keeps, is_live-insert}

-- What a blind makes of the round: the invariant and the chips are kept, and nobody drops out.
abbrev pub Posts : Round → Round → Type 0
Posts r r' =
    Keeps r r'
    × ((j : PlayerId)
        → is_live r.hand.player_state j ≡ true
        → is_live r'.hand.player_state j ≡ true)

module _ (m : PlayerManager) (h : HandState) (v : IsHand m h) (id : PlayerId)
    (live : is_live h.player_state id ≡ true) (p : Player) (e : seated id m ≡ some p) where
  -- The hand once the blind is in.
  abbrev with_blind : Chips → HandState
  with_blind blind =
      let current = add64 (lookup_or id 0 h.active_bets) blind in
      record h {
        player_state =
            if leb p.purse blind then insert id all_in h.player_state else h.player_state;
        committed = insert id (add64 (lookup_or id 0 h.committed) blind) h.committed;
        active_bets = insert id current h.active_bets;
        previous_bet = max h.previous_bet current;
      }

  still_live :
      (blind : Chips) (j : PlayerId)
      → is_live (with_blind blind).player_state j ≡ true
      → is_live h.player_state j ≡ true
  still_live blind j k = elim (Bool-cases (leb p.purse blind)) [
    | inl all ↦ ground (arith, is_live-insert h.player_state id j all_in live)
    | inr some_left ↦ ground arith
  ]

  not_out :
      (blind : Chips) (j : PlayerId)
      → is_live h.player_state j ≡ true
      → is_live (with_blind blind).player_state j ≡ true
  not_out blind j k = ground (arith, lookup-insert j id all_in h.player_state)

  blind-Posts :
      (amount : Chips) (events : List Event)
      → Returns
          (λ s. Posts (record { players = m; hand = h }) s.1)
          (post_blind id amount events (record { players = m; hand = h }))
  unfolding post_blind
  blind-Posts amount events =
      let blind : Chips = min amount p.purse in
      let purse = get_chips_lem m id p v.seating e in
      elim (Bool-cases (p.purse == 0)) [
        | inl nothing ↦
            rw (purse, post_blind)
              (rw (nothing, Returns)
                (
                  relabel-Keeps m h _ v refl refl refl v.bet_entries (λ j. omega arith)
                      (λ j k. is_live-insert h.player_state id j all_in live k),
                  λ j k. ground (arith, lookup-insert j id all_in h.player_state),
                ))
        | inr something ↦
            let covers : blind ≤ p.purse = omega arith in
            let (e_committed, e_bets, small) = small_bet m h v id live p blind e covers in
            let (m', placed, repursed) = place_bet_lem m id p v.seating e blind covers small in
            let keeps : Keeps (record { players = m; hand = h })
                (record { players = m'; hand = with_blind blind }) =
              put_in-Keeps m m' h (with_blind blind) id p blind v e covers repursed
                (v.in_play id live).2 (ap (λ c. insert id c h.committed) e_committed)
                (ap (λ c. insert id c h.active_bets) e_bets) refl refl (still_live blind) in
            let (left, chips, bound) =
              get_chips_total m' id keeps.players.seating
                (keeps.players.sat id ∙ (v.in_play id live).1) in
            rw (purse, post_blind) (rw (something, Returns, placed, chips) (keeps, not_out blind))
      ]

-- A blind of a player who is in the hand is posted, and whoever was in the hand still is.
pub post_blind-Posts :
    (m : PlayerManager) (h : HandState) (id : PlayerId) (amount : Chips) (events : List Event)
    → IsHand m h
    → is_live h.player_state id ≡ true
    → Returns
        (λ s. Posts (record { players = m; hand = h }) s.1)
        (post_blind id amount events (record { players = m; hand = h }))
post_blind-Posts m h id amount events v live =
    let (p, e) = sat_player m id (v.in_play id live).1 in
    blind-Posts m h v id live p e amount events

-- A blind of a player who is in the hand is posted, as far as the purse reaches: it ends, keeps the
-- invariant, and moves chips only from the purse into the hand.
pub post_blind-Keeps :
    (m : PlayerManager) (h : HandState) (id : PlayerId) (amount : Chips) (events : List Event)
    → IsHand m h
    → is_live h.player_state id ≡ true
    → Returns
        (λ s. Keeps (record { players = m; hand = h }) s.1)
        (post_blind id amount events (record { players = m; hand = h }))
post_blind-Keeps m h id amount events v live =
    Returns-map (λ s. Posts (record { players = m; hand = h }) s.1) _ _
      (post_blind-Posts m h id amount events v live) (λ s k. k.0)
