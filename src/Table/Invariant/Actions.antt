-- ===== src/Table/Invariant/Actions.antt =====
-- engine/src/table.cc, `on_action`: an action at a table that satisfies the invariant ends, keeps the
-- invariant, and makes no chips.
use poker_epoll.Base.{
  All-keep_if, ◌≡◌, refl, sym, List, [], ◌∷◌, All, Option, none, some, true, Map, total, Returns,
  Returns->>=, take, Expected, value, unexpected, ◌==◌, arith, Bool-cases, inl, inr, eq_of_==,
  subst, ◌>>=◌,
}
use poker_epoll.Rules.{PlayerId}
use poker_epoll.Errors.{GameError}
use poker_epoll.Players.{PlayerManager, is_sat}
use poker_epoll.Players.Seating.{IsSeated}
use poker_epoll.Players.Purses.{Kept-refl}
use poker_epoll.Table.{Table, Round, HandState, PlayerState, Action, fold, bet, timeout, Event}
use poker_epoll.Table.Environment.{Env, IsLawful}
use poker_epoll.Table.Turns.{
  is_live, is_active, prune, prune_turn_queue, active_players_in_hand, advance_turn,
}
use poker_epoll.Table.Pots.Sums.{total_committed_lem}
use poker_epoll.Table.Showdown.{distribute_side_pots}
use poker_epoll.Table.Showdown.Payments.{payable_sum, award_chips-Paid}
use poker_epoll.Table.Streets.{handle_new_street}
use poker_epoll.Table.Streets.Reveal.{reveal_remaining_board_done, last_street}
use poker_epoll.Table.Closing.{Reply, close_hand, run_out}
use poker_epoll.Table.Actions.{
  actor, handle, is_river, any_active, after_street, end_street, go_on, win_uncontested,
  settle_among, settle, conclude, act, dispatch, on_action,
}
use poker_epoll.Table.Invariant.{IsHand}
use poker_epoll.Table.Invariant.Bets.{
  Handles, Handles-after, handle_bet-Handles, handle_fold-Keeps, handle_timeout-Handles,
}
use poker_epoll.Table.Invariant.Distribution.{distribute_side_pots-Paid}
use poker_epoll.Table.Invariant.Keeping.{Keeps, Keeps-trans}
use poker_epoll.Table.Invariant.Settling.{
  IsTable, IsTableWith, Settles, going-Settles, close_hand-Settles,
}
use poker_epoll.Table.Invariant.Streets.{phase-Keeps, prune-Keeps, handle_new_street-Keeps}

pub handle-Handles :
    (a : Action) (m : PlayerManager) (h : HandState)
    → IsHand m h
    → is_live h.player_state (actor a) ≡ true
    → Handles (record { players = m; hand = h }) (handle a (record { players = m; hand = h }))
unfolding handle
handle-Handles (fold id) m h v live = handle_fold-Keeps m h v id live
handle-Handles (bet id amount) m h v live = handle_bet-Handles m h id amount v live
handle-Handles (timeout id) m h v live = handle_timeout-Handles m h id v live

module _ (env : Env) (lawful : IsLawful env) (t : Table) (h₀ : HandState)
    (in_hand : t.hand_state ≡ some h₀) where
  abbrev now : Round
  now = record { players = t.players; hand = h₀ }

  abbrev Ends : Reply → Type 0
  Ends out = Returns (λ s. Settles t s.1) out

  showdown-Settles :
      (r : Round) (events : List Event)
      → Keeps now r
      → Ends (distribute_side_pots env r.hand events r.players >>= close_hand t)
  showdown-Settles r events k =
      let (pots, built, paid, all) =
        distribute_side_pots-Paid r.players r.hand k.hand env events lawful in
      close_hand-Settles t h₀ in_hand r (payable_sum pots) _ k (omega (arith, all)) paid

  pub run_out-Settles :
      (r : Round) (events : List Event) → Keeps now r → Ends (run_out env events r t)
  unfolding run_out
  run_out-Settles r events k = rw (reveal_remaining_board_done events r.hand) (
      showdown-Settles _ _
        (Keeps-trans k (phase-Keeps r.players r.hand k.hand (last_street r.hand.phase))))

  after_street-Settles :
      (events : List Event) (res : Expected GameError (List Event)) (t' : Table)
      → Settles t t'
      → Ends (after_street events t' res)
  unfolding after_street
  after_street-Settles events (value more) t' s = s
  after_street-Settles events (unexpected e) t' s = s

  end_street-Settles :
      (remaining : List PlayerId) (r : Round) (events : List Event)
      → Keeps now r
      → Ends (end_street env remaining events r t)
  unfolding end_street
  end_street-Settles remaining r events k = elim (Bool-cases (any_active r.hand remaining)) [
    | inr nobody ↦ rw (nobody, end_street) (run_out-Settles r events k)
    | inl somebody ↦ elim (Bool-cases (is_river r.hand.phase)) [
      | inl last ↦ rw (somebody, last, end_street) (showdown-Settles r events k)
      | inr earlier ↦
          rw (somebody, earlier, end_street)
            (after_street-Settles events (handle_new_street r.hand).0 _ (
              going-Settles t h₀ in_hand _
                (Keeps-trans k (handle_new_street-Keeps r.players r.hand k.hand))))
    ]
  ]

  go_on-Settles :
      (remaining : List PlayerId) (r : Round) (events : List Event) (q : List PlayerId)
      → r.hand.turn_queue ≡ q
      → Keeps now r
      → Ends (go_on env remaining events r t)
  unfolding go_on advance_turn
  go_on-Settles remaining r events [] e k = rw (e, go_on) (end_street-Settles remaining r events k)
  go_on-Settles remaining r events (x ∷ xs) e k =
      rw (e, go_on)
        (going-Settles t h₀ in_hand _ (Keeps-trans k (prune-Keeps r.players r.hand k.hand)))

  win_uncontested-Settles :
      (winner : PlayerId) (r : Round) (events : List Event)
      → is_live r.hand.player_state winner ≡ true
      → Keeps now r
      → Ends (win_uncontested env winner events r t)
  unfolding win_uncontested
  win_uncontested-Settles winner r events live k =
      rw (total_committed_lem env r.hand lawful (omega (arith, k.hand.solvent))) (
        close_hand-Settles t h₀ in_hand r (total r.hand.committed) _ k (omega arith) (
          award_chips-Paid winner (total r.hand.committed) events r.players k.hand.seating
            (k.hand.in_play winner live).1 k.hand.solvent))

  settle_among-Settles :
      (remaining : List PlayerId) (r : Round) (events : List Event)
      → All (λ id. is_live r.hand.player_state id ≡ true) remaining
      → Keeps now r
      → Ends (settle_among env remaining events r t)
  unfolding settle_among
  settle_among-Settles [] r events live k = go_on-Settles [] r events r.hand.turn_queue refl k
  settle_among-Settles (winner ∷ []) r events live k =
      win_uncontested-Settles winner r events live.0 k
  settle_among-Settles (x ∷ y ∷ ids) r events live k =
      go_on-Settles (x ∷ y ∷ ids) r events r.hand.turn_queue refl k

  settle-Settles : (r : Round) (events : List Event) → Keeps now r → Ends (settle env events r t)
  unfolding settle active_players_in_hand
  settle-Settles r events k =
      let pruned = prune-Keeps r.players r.hand k.hand in
      settle_among-Settles _ _ events
        (All-keep_if (λ id. is_live (prune_turn_queue r.hand).player_state id ≡ true) _ _
          (λ y p. p))
        (Keeps-trans k pruned)

  conclude-Settles :
      (s : Expected GameError (List Event) × Round) → Keeps now s.1 → Ends (conclude env t s)
  unfolding conclude
  conclude-Settles (unexpected e, r) k = going-Settles t h₀ in_hand r k
  conclude-Settles (value events, r) k = settle-Settles r events k

  act-Settles :
      (a : Action) (queue : List PlayerId) (h : HandState)
      → Keeps now (record { players = t.players; hand = h })
      → All (λ front. is_live h.player_state front ≡ true) (take 1 queue)
      → Ends (act env a queue h t)
  unfolding act
  act-Settles a [] h k live = going-Settles t h₀ in_hand _ k
  act-Settles a (front ∷ queue) h k live = elim (Bool-cases (actor a == front)) [
    | inr other ↦ rw (other, act) (going-Settles t h₀ in_hand _ k)
    | inl own ↦
        rw (own, act)
          (Returns->>= (λ s. Keeps now s.1) (λ s. Settles t s.1) _ (conclude env t)
            (Handles-after _ k (
              handle-Handles a t.players h k.hand (
                subst (λ id. is_live h.player_state id ≡ true) (sym (eq_of_== (actor a) front own))
                  live.0)))
            conclude-Settles)
  ]

-- The front of a pruned queue is an active player, who is still in.
active_live :
    (states : Map PlayerState) (id : PlayerId)
    → is_active states id ≡ true
    → is_live states id ≡ true
active_live states id h = ground arith

pub prune_front :
    (states : Map PlayerState) (q : List PlayerId)
    → All (λ front. is_live states front ≡ true) (take 1 (prune states q))
unfolding prune
prune_front states [] = tt
prune_front states (id ∷ q) = elim (Bool-cases (is_active states id)) [
  | inl here ↦ rw here (active_live states id here, tt)
  | inr gone ↦ rw gone (prune_front states q)
]

same-Settles : (t : Table) → IsTable t → Settles t t
same-Settles t v = record {
  table = v;
  players = Kept-refl t.players (seated t.hand_state v);
  made_none = omega arith;
  going_on = λ _. refl;
}
  where
    seated : (o : Option HandState) → IsTableWith t.players o → IsSeated t.players
    seated none v = v.0
    seated (some h) v = v.seating

dispatch-Settles :
    (env : Env) (a : Action) (t : Table) (o : Option HandState)
    → IsLawful env
    → IsTable t
    → t.hand_state ≡ o
    → IsTableWith t.players o
    → Returns (λ s. Settles t s.1) (dispatch env a o t)
unfolding dispatch
dispatch-Settles env a t none lawful v e w = same-Settles t v
dispatch-Settles env a t (some h) lawful v e w = elim (Bool-cases (is_sat (actor a) t.players)) [
  | inr stranger ↦ rw (stranger, dispatch) (same-Settles t v)
  | inl sits ↦
      rw (sits, dispatch)
        (act-Settles env lawful t h e a _ (prune_turn_queue h) (prune-Keeps t.players h w)
          (unfold prune_turn_queue in prune_front h.player_state h.turn_queue))
]

-- An action at a table whose seats and hand are in order ends with a reply, whatever the action is.
-- The table is in order afterwards, has the same players on the same seats, and has no more chips
-- than before; it has exactly as many while the hand goes on.
pub on_action-Settles :
    (env : Env) (a : Action) (t : Table)
    → IsLawful env
    → IsTable t
    → Returns (λ s. Settles t s.1) (on_action env a t)
unfolding on_action
on_action-Settles env a t lawful v = dispatch-Settles env a t t.hand_state lawful v refl v
