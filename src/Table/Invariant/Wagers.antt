-- ===== src/Table/Invariant/Wagers.antt =====
-- engine/src/table.cc, `handle(const Bet &b)`: whose chips a bet moves, how many, and where to.
use poker_epoll.Base.{
  ℕ, ◌+◌, ◌-◌, ◌≤◌, ◌≡◌, refl, ap, ◌∙◌, subst, sym, List, [], ◌∷◌, some, Bool, true, false,
  lookup_or, insert, lookup-insert, Outcome, done, fault, Returns, Expected, Returns-map, value,
  unexpected, leb, ◌==◌, arith, add64, if◌then◌else◌,
}
use poker_epoll.Rules.{PlayerId, Chips}
use poker_epoll.Errors.{GameError}
use poker_epoll.Players.{Player, PlayerManager, seated, get_chips}
use poker_epoll.Players.Purses.{Repursed, get_chips_lem, seated_id}
use poker_epoll.Table.{HandState, Round, Event, bet_placed, player_chips}
use poker_epoll.Table.Turns.{is_live}
use poker_epoll.Table.Bets.{
  Verdict, too_low, accepted, record_bet, accept_bet, is_all_in_bet, mark_bet, judge, handle_bet,
}
use poker_epoll.Table.Invariant.{IsHand}
use poker_epoll.Table.Invariant.Keeping.{Keeps, lookup_or-touch}
use poker_epoll.Table.Invariant.Bets.{
  small_bet, place_in_hand, mark_bet-Keeps, mark_live, mark_bets, cut_covered, handle_bet-judge,
  handle_bet-Handles,
}

-- `amount` chips have gone from the purse of `id`, who was `p`, to what `id` has committed and has in
-- front; nobody else has more or fewer chips in a purse, committed or in front.
pub record Wagers (id : PlayerId) (p : Player) (amount : Chips) (r r' : Round) : Type 0 where
  pub purse :
      (j : PlayerId)
      → seated j r'.players
        ≡ (if j == id then some (record p { purse = p.purse - amount }) else seated j r.players)
  pub committed :
      (j : PlayerId)
      → lookup_or j 0 r'.hand.committed
        ≡ lookup_or j 0 r.hand.committed + (if j == id then amount else 0)
  pub bets :
      (j : PlayerId)
      → lookup_or j 0 r'.hand.active_bets
        ≡ lookup_or j 0 r.hand.active_bets + (if j == id then amount else 0)

-- An accepted bet wagers the amount and tells so; a refused one wagers nothing.
abbrev pub Wagered :
    PlayerId → Player → Chips → Round → Expected GameError (List Event) × Round → Type 0
Wagered id p amount r (value evs, r') =
    (evs ≡ bet_placed id amount ∷ player_chips id (p.purse - amount) ∷ []) × Wagers id p amount r r'
Wagered id p amount r (unexpected e, r') = Wagers id p 0 r r'

lookup_or-insert_more :
    (id j x : ℕ) (amount : Chips) (bets : List (ℕ × Chips))
    → x ≡ lookup_or id 0 bets + amount
    → lookup_or j 0 (insert id x bets) ≡ lookup_or j 0 bets + (if j == id then amount else 0)
lookup_or-insert_more id j x amount bets e =
    ground (arith, lookup-insert j id x bets, e, λ (q : j ≡ id). ap (λ i. lookup_or i 0 bets) q)

module _ (m : PlayerManager) (h : HandState) (v : IsHand m h) (id : PlayerId)
    (live : is_live h.player_state id ≡ true) (p : Player) (e : seated id m ≡ some p) where
  mark_bet-Wagers :
      (b : Bool)
      → Wagers id p 0
          (record { players = m; hand = h })
          (record { players = m; hand = mark_bet id b h })
  unfolding mark_bet
  mark_bet-Wagers b = record {
    purse = λ j. ground (arith, e, λ (q : j ≡ id). ap (λ i. seated i m) q);
    committed = λ j. ground arith;
    bets = λ j. ground (arith, lookup_or-touch j id h.active_bets);
  }

  -- The bet is paid and recorded, whatever else changes in the hand.
  paid-Wagers :
      (m' : PlayerManager) (h' : HandState) (amount : Chips)
      → amount ≤ p.purse
      → Repursed m m' p (p.purse - amount)
      → h'.committed ≡ insert id (add64 (lookup_or id 0 h.committed) amount) h.committed
      → h'.active_bets ≡ insert id (add64 (lookup_or id 0 h.active_bets) amount) h.active_bets
      → Wagers id p amount (record { players = m; hand = h }) (record { players = m'; hand = h' })
  paid-Wagers m' h' amount covers repursed e_committed e_bets =
      let (committed, bets, small) = small_bet m h v id live p amount e covers in
      record {
        purse = λ j. ground (arith, repursed.others j, seated_id m id p v.seating e);
        committed = λ j.
            ap (lookup_or j 0) e_committed
            ∙ lookup_or-insert_more id j _ amount h.committed committed;
        bets =
            λ j. ap (lookup_or j 0) e_bets ∙ lookup_or-insert_more id j _ amount h.active_bets bets;
      }

  left_in_purse :
      (m' : PlayerManager) (amount left : Chips)
      → Repursed m m' p (p.purse - amount)
      → get_chips id m' ≡ done left
      → left ≡ p.purse - amount
  left_in_purse m' amount left repursed chips =
      let now : seated id m' ≡ some (record p { purse = p.purse - amount }) =
        ground (arith, repursed.others id, seated_id m id p v.seating e) in
      let known =
        get_chips_lem m' id (record p { purse = p.purse - amount }) repursed.seating now in
      done_injective (sym chips ∙ known)
    where
      done_injective : {a b : Chips} → ◌≡◌ {A = Outcome Chips} (done a) (done b) → a ≡ b
      done_injective q = cc

  accept_bet-Wagered :
      (amount previous : Chips) (is_raise : Bool)
      → amount ≤ p.purse
      → Returns (Wagered id p amount (record { players = m; hand = h })) (
          accept_bet id amount
            (add64 (lookup_or id 0 h.active_bets) amount)
            previous
            is_raise
            (record { players = m; hand = h }))
  unfolding accept_bet record_bet
  accept_bet-Wagered amount previous false covers =
      let (m', left, ring, placed, chips, cycle, keeps, paid, short, repursed) =
        place_in_hand m h v id live p amount previous e covers in
      rw (placed, chips)
        (
          ap (λ n. bet_placed id amount ∷ player_chips id n ∷ [])
              (left_in_purse m' amount left repursed chips),
          paid-Wagers m' _ amount covers repursed refl refl,
        )
  accept_bet-Wagered amount previous true covers =
      let (m', left, ring, placed, chips, cycle, keeps, paid, short, repursed) =
        place_in_hand m h v id live p amount previous e covers in
      rw (placed, cycle, chips)
        (
          ap (λ n. bet_placed id amount ∷ player_chips id n ∷ [])
              (left_in_purse m' amount left repursed chips),
          paid-Wagers m' _ amount covers repursed refl refl,
        )

-- The read of the bets that comes before moves nothing.
marked-Wagered :
    (m : PlayerManager) (h : HandState) (id : PlayerId) (p : Player) (amount : Chips) (b : Bool)
    (s : Expected GameError (List Event) × Round)
    → Wagered id p amount (record { players = m; hand = mark_bet id b h }) s
    → Wagered id p amount (record { players = m; hand = h }) s
unfolding mark_bet
marked-Wagered m h id p amount b (value evs, r) (told, w) = (
  told,
  record {
    purse = w.purse;
    committed = w.committed;
    bets = λ j. ground (arith, w.bets j, lookup_or-touch j id h.active_bets);
  },
)
marked-Wagered m h id p amount b (unexpected e, r) w = record {
  purse = w.purse;
  committed = w.committed;
  bets = λ j. ground (arith, w.bets j, lookup_or-touch j id h.active_bets);
}

judge-Wagered :
    (m : PlayerManager) (h : HandState) (v : IsHand m h) (id : PlayerId)
    (live : is_live h.player_state id ≡ true) (p : Player) (e : seated id m ≡ some p) (vd : Verdict)
    (b : Bool) (cut previous : Chips)
    → cut ≤ p.purse
    → Returns (Wagered id p cut (record { players = m; hand = h })) (
        judge vd id cut
          (add64 (lookup_or id 0 h.active_bets) cut)
          previous
          (record { players = m; hand = mark_bet id b h }))
unfolding judge
judge-Wagered m h v id live p e too_low b cut previous covers = mark_bet-Wagers m h v id live p e b
judge-Wagered m h v id live p e (accepted is_raise) b cut previous covers =
    let marked = mark_bet-Keeps m h v id live b in
    subst
      (λ c. Returns (Wagered id p cut (record { players = m; hand = h })) (
        accept_bet id cut (add64 c cut) previous is_raise
          (record { players = m; hand = mark_bet id b h })))
      (mark_bets m h v id live b)
      (Returns-map _ _ _
        (accept_bet-Wagered m (mark_bet id b h) marked.hand id (mark_live m h v id live b) p e cut
          previous is_raise covers)
        (marked-Wagered m h id p cut b))

Returns-both :
    {A : Type 0} (P Q : A → Type 0) (out : Outcome A)
    → Returns P out
    → Returns Q out
    → Returns (λ a. P a × Q a) out
Returns-both P Q (done a) p q = (p, q)
Returns-both P Q fault p q = p

-- The cut of a bet is to the purse, whether or not it is noted as all in.
cut_eq :
    (amount chips : Chips)
    → (if is_all_in_bet amount chips then chips else amount)
      ≡ (if leb chips amount then chips else amount)
unfolding is_all_in_bet
cut_eq amount chips = ground arith

-- `Table::handle(const Bet &b)`: a bet of a player who is still in ends, for any amount, and keeps the
-- invariant of the hand. Where it is accepted, the amount, cut to the purse, goes from the purse of the
-- player to what they have committed and have in front, and the events tell the amount and what is left;
-- where it is refused, no chips move. Nobody else's chips do.
pub handle_bet-Wagers :
    (m : PlayerManager) (h : HandState) (id : PlayerId) (p : Player) (amount : Chips)
    → IsHand m h
    → is_live h.player_state id ≡ true
    → seated id m ≡ some p
    → let r : Round = record { players = m; hand = h } in
      Returns
        (λ s. Keeps r s.1 × Wagered id p (if leb p.purse amount then p.purse else amount) r s)
        (handle_bet id amount r)
handle_bet-Wagers m h id p amount v live e =
    let b = is_all_in_bet amount p.purse in
    let r : Round = record { players = m; hand = h } in
    Returns-both _ _ _ (handle_bet-Handles m h id amount v live) (
      subst (λ cut. Returns (Wagered id p cut r) (handle_bet id amount r)) (cut_eq amount p.purse)
        (rw (handle_bet-judge m h id amount p.purse (get_chips_lem m id p v.seating e)) (
          judge-Wagered m h v id live p e _ b (if b then p.purse else amount) h.previous_bet
            (cut_covered amount p.purse))))
