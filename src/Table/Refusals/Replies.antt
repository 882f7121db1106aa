-- ===== src/Table/Refusals/Replies.antt =====
-- engine/src/table.cc, `on_action`: it refuses what it is to refuse, and nothing else.
use poker_epoll.Base.{
  ◌≡◌, refl, ap, sym, subst, ◌∙◌, List, [], ◌∷◌, All, take, Option, none, some, Bool, true, false,
  Map, Outcome, ◌>>=◌, IfDone, IfDone->>=, IfDone-map, Returns-IfDone, Returns, Returns-done,
  Returns-map, Expected, value, unexpected, ◌==◌, if◌then◌else◌, Bool-cases, inl, inr, eq_of_==,
}
use poker_epoll.Rules.{PlayerId}
use poker_epoll.Errors.{GameError, invalid_action, out_of_turn}
use poker_epoll.Players.{PlayerManager, is_sat}
use poker_epoll.Table.{
  Table, HandState, Round, PlayerState, Phase, preflop, flop, turn, river, showdown, holding,
  Action, fold, bet, timeout, Event,
}
use poker_epoll.Table.Environment.{Env, IsLawful}
use poker_epoll.Table.Turns.{
  is_live, is_active, first_active, prune, prune_turn_queue, active_players_in_hand,
}
use poker_epoll.Table.Pots.{total_committed}
use poker_epoll.Table.Showdown.{award_chips, distribute_side_pots}
use poker_epoll.Table.Streets.{handle_new_street, next_phase, reveal_remaining_board}
use poker_epoll.Table.Closing.{Reply, close_hand, run_out}
use poker_epoll.Table.Actions.{
  actor, handle, is_river, any_active, after_street, end_street, go_on, win_uncontested,
  settle_among, settle, conclude, act, dispatch, on_action,
}
use poker_epoll.Table.Invariant.{IsHand}
use poker_epoll.Table.Invariant.Settling.{IsTable, IsTableWith, Settles}
use poker_epoll.Table.Invariant.Streets.{prune-Keeps}
use poker_epoll.Table.Invariant.Actions.{prune_front, on_action-Settles}
use poker_epoll.Table.Refusals.{
  error_of, own_refusal, refusal, refusal_with, Replies, handle-Replies,
}

-- The hand is on a street that is bet on.
abbrev pub is_street : Phase → Bool
is_street preflop = true
is_street flop = true
is_street turn = true
is_street river = true
is_street showdown = false
is_street holding = false

street_goes_on :
    (p : Phase) → is_street p ≡ true → is_river p ≡ false → (q : Phase) × (next_phase p ≡ some q)
unfolding next_phase
street_goes_on preflop s r = (_, refl)
street_goes_on flop s r = (_, refl)
street_goes_on turn s r = (_, refl)
street_goes_on river s r = cc
street_goes_on showdown s r = cc
street_goes_on holding s r = cc

module _ (env : Env) (t : Table) where
  abbrev Accepts : Reply → Type 0
  Accepts out = IfDone (λ s. error_of s.0 ≡ none) out

  ends_accepted : (m : Outcome (List Event × PlayerManager)) → Accepts (m >>= close_hand t)
  ends_accepted m =
      IfDone->>= (λ s. error_of s.0 ≡ none) m (close_hand t) (λ (events, players). refl)

  run_out_accepted : (events : List Event) (r : Round) → Accepts (run_out env events r t)
  unfolding run_out
  run_out_accepted events r =
      IfDone->>= (λ s. error_of s.0 ≡ none) (reveal_remaining_board events r.hand) _
        (λ (shown, h). ends_accepted (distribute_side_pots env h shown r.players))

  end_street_accepted :
      (remaining : List PlayerId) (r : Round) (events : List Event)
      → is_street r.hand.phase ≡ true
      → Accepts (end_street env remaining events r t)
  unfolding end_street after_street handle_new_street
  end_street_accepted remaining r events street = elim (Bool-cases (any_active r.hand remaining)) [
    | inr nobody ↦ rw (nobody, end_street) (run_out_accepted events r)
    | inl somebody ↦ elim (Bool-cases (is_river r.hand.phase)) [
      | inl last ↦
          rw (somebody, last, end_street)
            (ends_accepted (distribute_side_pots env r.hand events r.players))
      | inr earlier ↦
          let (next, more) = street_goes_on r.hand.phase street earlier in
          rw (somebody, earlier, end_street) (rw (more, handle_new_street) refl)
    ]
  ]

  go_on_accepted :
      (remaining : List PlayerId) (r : Round) (events : List Event) (q : List PlayerId)
      → r.hand.turn_queue ≡ q
      → is_street r.hand.phase ≡ true
      → Accepts (go_on env remaining events r t)
  unfolding go_on
  go_on_accepted remaining r events [] e street =
      rw (e, go_on) (end_street_accepted remaining r events street)
  go_on_accepted remaining r events (x ∷ xs) e street = rw (e, go_on) refl

  settle_among_accepted :
      (remaining : List PlayerId) (r : Round) (events : List Event)
      → is_street r.hand.phase ≡ true
      → Accepts (settle_among env remaining events r t)
  unfolding settle_among win_uncontested
  settle_among_accepted [] r events street =
      go_on_accepted [] r events r.hand.turn_queue refl street
  settle_among_accepted (winner ∷ []) r events street =
      ends_accepted (award_chips winner (total_committed env r.hand) events r.players)
  settle_among_accepted (x ∷ y ∷ ids) r events street =
      go_on_accepted (x ∷ y ∷ ids) r events r.hand.turn_queue refl street

  -- What the handler replied is what `on_action` replies.
  conclude-error :
      (s : Expected GameError (List Event) × Round)
      → is_street s.1.hand.phase ≡ true
      → IfDone (λ u. error_of u.0 ≡ error_of s.0) (conclude env t s)
  unfolding conclude settle prune_turn_queue
  conclude-error (unexpected e, r) street = refl
  conclude-error (value events, r) street =
      settle_among_accepted (active_players_in_hand (prune_turn_queue r.hand)) _ events street

abbrev front_of : List PlayerId → Option PlayerId
front_of [] = none
front_of (x ∷ xs) = some x

first_active-prune :
    (states : Map PlayerState) (q : List PlayerId)
    → first_active states q ≡ front_of (prune states q)
unfolding first_active prune
first_active-prune states [] = refl
first_active-prune states (id ∷ q) = elim (Bool-cases (is_active states id)) [
  | inl here ↦ rw here refl
  | inr gone ↦ rw gone (first_active-prune states q)
]

module _ (env : Env) (t : Table) (h : HandState) (v : IsHand t.players h)
    (street : is_street h.phase ≡ true) where
  abbrev pruned : HandState
  pruned = prune_turn_queue h

  abbrev by_front : Action → Option PlayerId → Option GameError
  by_front a none = some invalid_action
  by_front a (some front) = if actor a == front then own_refusal a t.players h else some out_of_turn

  pruned_refusal : (a : Action) → own_refusal a t.players pruned ≡ own_refusal a t.players h
  unfolding prune_turn_queue
  pruned_refusal (fold id) = refl
  pruned_refusal (bet id amount) = refl
  pruned_refusal (timeout id) = refl

  own_action-error :
      (a : Action)
      → is_live pruned.player_state (actor a) ≡ true
      → IfDone
          (λ s. error_of s.0 ≡ own_refusal a t.players h)
          (handle a (record { players = t.players; hand = pruned }) >>= conclude env t)
  unfolding prune_turn_queue
  own_action-error a live =
      let r : Round = record { players = t.players; hand = pruned } in
      let (s, ran, (reply, same)) =
        Returns-done (Replies pruned (own_refusal a t.players pruned)) (handle a r)
          (handle-Replies a t.players pruned (prune-Keeps t.players h v).hand live) in
      rw ran (
        IfDone-map (λ u. error_of u.0 ≡ error_of s.0)
          (λ u. error_of u.0 ≡ own_refusal a t.players h) (conclude env t s)
          (conclude-error env t s (ap is_street same ∙ street))
          (λ u e. e ∙ reply ∙ pruned_refusal a))

  act-error :
      (a : Action) (queue : List PlayerId)
      → All (λ front. is_live pruned.player_state front ≡ true) (take 1 queue)
      → IfDone (λ s. error_of s.0 ≡ by_front a (front_of queue)) (act env a queue pruned t)
  unfolding act
  act-error a [] live = refl
  act-error a (front ∷ queue) live = elim (Bool-cases (actor a == front)) [
    | inr other ↦ rw (other, act) refl
    | inl own ↦
        rw (own, act)
          (own_action-error a (
            subst (λ id. is_live pruned.player_state id ≡ true) (sym (eq_of_== (actor a) front own))
              live.0))
  ]

  dispatch-error :
      (a : Action)
      → IfDone (λ s. error_of s.0 ≡ refusal_with a t.players (some h)) (dispatch env a (some h) t)
  unfolding dispatch
  dispatch-error a = elim (Bool-cases (is_sat (actor a) t.players)) [
    | inr stranger ↦ rw (stranger, dispatch) refl
    | inl sits ↦
        rw (sits, dispatch)
          (rw (first_active-prune h.player_state h.turn_queue) (
            unfold prune_turn_queue in
            act-error a pruned.turn_queue (prune_front h.player_state h.turn_queue)))
  ]

-- An action at a table in order, between two hands or on a street that is bet on, ends with a reply. It is
-- refused exactly where `refusal` says so, with that error: there is no hand, the player is not at the
-- table, nobody is to act, it is the turn of another player, or the bet is too low. Every other action is
-- accepted.
pub on_action-refusal :
    (env : Env) (a : Action) (t : Table)
    → IsLawful env
    → IsTable t
    → ((h : HandState) → t.hand_state ≡ some h → is_street h.phase ≡ true)
    → Returns (λ s. error_of s.0 ≡ refusal a t) (on_action env a t)
unfolding on_action dispatch
on_action-refusal env a t lawful v street = ends_as t.hand_state refl v
  where
    ends_as :
        (o : Option HandState)
        → t.hand_state ≡ o
        → IsTableWith t.players o
        → Returns (λ s. error_of s.0 ≡ refusal_with a t.players o) (dispatch env a o t)
    ends_as none e w = refl
    ends_as (some h) e w =
        Returns-map _ _ (dispatch env a (some h) t)
          (Returns-IfDone (λ s. Settles t s.1) _ (dispatch env a (some h) t)
            (subst (λ o. Returns (λ s. Settles t s.1) (dispatch env a o t)) e
              (on_action-Settles env a t lawful v))
            (dispatch-error env t h w (street h e) a))
          (λ s both. both.1)
