-- ===== src/Table/Descent/Actions.antt =====
-- engine/src/table.cc, `on_action`: an action that is accepted brings the hand nearer to its end or ends
-- it, and one that is refused does not bring it further from there.
use poker_epoll.Base.{
  ◌<◌, ◌≡◌, refl, sym, subst, ap, List, [], ◌∷◌, true, some, length, take, All, ◌>>=◌, IfDone,
  Returns-IfDone, Returns, Returns-done, Returns-map, arith, ◌==◌, Bool-cases, inl, inr, eq_of_==,
}
use poker_epoll.Rules.{PlayerId}
use poker_epoll.Errors.{invalid_action, out_of_turn}
use poker_epoll.Players.{PlayerManager, is_sat}
use poker_epoll.Table.{Table, Round, HandState, Action, fold, bet, timeout}
use poker_epoll.Table.Environment.{Env, IsLawful}
use poker_epoll.Table.Turns.{is_live, prune_turn_queue}
use poker_epoll.Table.Actions.{actor, handle, conclude, act, dispatch, on_action}
use poker_epoll.Table.Invariant.{IsHand}
use poker_epoll.Table.Invariant.Keeping.{Keeps-trans}
use poker_epoll.Table.Invariant.Settling.{IsTable, IsTableWith, Settles}
use poker_epoll.Table.Invariant.Streets.{prune-Keeps}
use poker_epoll.Table.Invariant.Actions.{handle-Handles, prune_front, on_action-Settles}
use poker_epoll.Table.Descent.{weight}
use poker_epoll.Table.Descent.Bets.{
  Steps, Steps-after, handle_fold-Steps, handle_bet-Steps, handle_timeout-Steps,
}
use poker_epoll.Table.Descent.Settling.{Falls, conclude-Falls, pruned-Rests, refused}

handle-Steps :
    (a : Action) (m : PlayerManager) (h : HandState)
    → IsHand m h
    → is_live h.player_state (actor a) ≡ true
    → 0 < length h.turn_queue
    → Returns
        (Steps (record { players = m; hand = h }))
        (handle a (record { players = m; hand = h }))
unfolding handle
handle-Steps (fold id) m h v live waits = handle_fold-Steps id _ waits
handle-Steps (bet id amount) m h v live waits = handle_bet-Steps m h v id live waits amount
handle-Steps (timeout id) m h v live waits = handle_timeout-Steps m h v id live waits

module _ (env : Env) (t : Table) (h₀ : HandState) (v : IsHand t.players h₀) where
  abbrev pruned : HandState
  pruned = prune_turn_queue h₀

  abbrev before : Round
  before = record { players = t.players; hand = h₀ }

  -- The action is that of the player in front, who is still in.
  own_action-Falls :
      (a : Action)
      → is_live pruned.player_state (actor a) ≡ true
      → 0 < length pruned.turn_queue
      → IfDone
          (Falls before)
          (handle a (record { players = t.players; hand = pruned }) >>= conclude env t)
  own_action-Falls a live waits =
      let k = prune-Keeps t.players h₀ v in
      let r : Round = record { players = t.players; hand = pruned } in
      let (s, ran, kept) =
        Returns-done _ (handle a r) (handle-Handles a t.players pruned k.hand live) in
      let steps =
        subst (Returns (Steps r)) ran (handle-Steps a t.players pruned k.hand live waits) in
      rw ran (
        conclude-Falls env t h₀ s (Keeps-trans k kept)
          (Steps-after before r s k.same_participants (pruned-Rests env t h₀ before) steps))

  act-Falls :
      (a : Action) (queue : List PlayerId)
      → pruned.turn_queue ≡ queue
      → All (λ front. is_live pruned.player_state front ≡ true) (take 1 queue)
      → IfDone (Falls before) (act env a queue pruned t)
  unfolding act
  act-Falls a [] e live =
      refused env t h₀ (record before { hand = pruned }) invalid_action (prune-Keeps t.players h₀ v)
        (pruned-Rests env t h₀ before)
  act-Falls a (front ∷ queue) e live = elim (Bool-cases (actor a == front)) [
    | inr other ↦
        rw (other, act)
          (refused env t h₀ (record before { hand = pruned }) out_of_turn
            (prune-Keeps t.players h₀ v) (pruned-Rests env t h₀ before))
    | inl own ↦
        let waits : 0 < length pruned.turn_queue =
          omega (arith, ap (λ (ids : List PlayerId). length ids) e) in
        rw (own, act)
          (own_action-Falls a
            (subst (λ id. is_live pruned.player_state id ≡ true)
              (sym (eq_of_== (actor a) front own)) live.0)
            waits)
  ]

  dispatch-Falls :
      (a : Action) → t.hand_state ≡ some h₀ → IfDone (Falls before) (dispatch env a (some h₀) t)
  unfolding dispatch
  dispatch-Falls a playing = elim (Bool-cases (is_sat (actor a) t.players)) [
    | inr stranger ↦
        rw (stranger, dispatch)
          (λ h going.
            let same : h₀ ≡ h = ground (arith, playing, going) in
            let even : weight before ≡ weight (record { players = t.players; hand = h }) =
              ap (λ k. weight (record { players = t.players; hand = k })) same in
            (omega (arith, even), λ accepted. cc))
    | inl sits ↦
        rw (sits, dispatch)
          (act-Falls a pruned.turn_queue refl
            (unfold prune_turn_queue in prune_front h₀.player_state h₀.turn_queue))
  ]

-- An action during a hand at a table in order ends with a reply, and leaves the table in order. If the hand goes
-- on, its weight is no more than before, and less if the action was accepted.
pub on_action-Falls :
    (env : Env) (a : Action) (t : Table) (h : HandState)
    → IsLawful env
    → IsTable t
    → t.hand_state ≡ some h
    → Returns
        (λ s. IsTable s.1 × Falls (record { players = t.players; hand = h }) s)
        (on_action env a t)
unfolding on_action
on_action-Falls env a t h lawful v playing =
    Returns-IfDone (λ s. IsTable s.1) (Falls (record { players = t.players; hand = h }))
      (on_action env a t)
      (Returns-map (λ s. Settles t s.1) (λ s. IsTable s.1) (on_action env a t)
        (on_action-Settles env a t lawful v) (λ s settled. settled.table))
      (subst (λ o. IfDone (Falls (record { players = t.players; hand = h })) (dispatch env a o t))
        (sym playing) (dispatch-Falls env t h (subst (IsTableWith t.players) playing v) a playing))
