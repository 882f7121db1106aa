-- ===== src/Table/Stalls.antt =====
-- engine/src/table.cc: a hand whose turn queue is empty. No call that the server makes brings it on, and one disconnection
-- makes one: `remove_player` empties the queue and starts no new street.
use poker_epoll.Base.{
  ◌≡◌, ◌≢◌, All, none, fault, refl, sym, subst, inl, inr, List, [], ◌∷◌, some, true, Outcome, done,
  Option-cases, lookup, ℕ, Returns->>=, ◌>>=◌, Returns, Expected, value, unexpected, ltb, arith,
  Bool-cases,
}
use poker_epoll.Rules.{PlayerId}
use poker_epoll.Errors.{GameError}
use poker_epoll.Players as Manager
use poker_epoll.Players.{is_sat, num_players}
use poker_epoll.Table.{Table, HandState, Action, Event}
use poker_epoll.Table.Environment.{Env}
use poker_epoll.Table.Turns.{prune, prune_turn_queue}
use poker_epoll.Table.Actions.{actor, act, dispatch, on_action}
use poker_epoll.Table.Hands.{hand_in_progress, handle_new_hand}
use poker_epoll.Table.Streets.{handle_new_street}
use poker_epoll.Table.Seats.{add_player, remove_player, leave_hand, filter_queue}

-- A hand is in progress, and nobody is in its queue.
abbrev pub IsStalled : Table → Type 0
IsStalled t = (h : HandState) × (t.hand_state ≡ some h) × (h.turn_queue ≡ [])

abbrev pub IsError : {E A : Type 0} → Expected E A → Type 0
IsError (value a) = ⊥
IsError (unexpected e) = Unit

-- The call is refused, and the hand is as stalled as it was.
abbrev pub Refused : Expected GameError (List Event) × Table → Type 0
Refused s = IsError s.0 × IsStalled s.1

abbrev pub Stays : Outcome (Expected GameError (List Event) × Table) → Type 0
Stays out = Returns Refused out

dispatch-Stays :
    (env : Env) (a : Action) (t : Table) (h : HandState)
    → t.hand_state ≡ some h
    → h.turn_queue ≡ []
    → Stays (dispatch env a (some h) t)
unfolding dispatch act prune_turn_queue prune
dispatch-Stays env a t h e q = elim (Bool-cases (is_sat (actor a) t.players)) [
  | inr stranger ↦ rw (stranger, dispatch) (tt, (h, e, q))
  | inl sits ↦ rw (sits, dispatch, q) (tt, (_, refl, refl))
]

-- No action of any player, and no timeout, brings a stalled hand on.
pub on_action-Stays : (env : Env) (a : Action) (t : Table) → IsStalled t → Stays (on_action env a t)
unfolding on_action
on_action-Stays env a t (h, e, q) =
    subst (λ o. Stays (dispatch env a o t)) (sym e) (dispatch-Stays env a t h e q)

handle_new_hand-Stays : (env : Env) (t : Table) → IsStalled t → Stays (handle_new_hand env t)
unfolding handle_new_hand hand_in_progress
handle_new_hand-Stays env t (h, e, q) =
    let busy : hand_in_progress t ≡ true = ground (arith, e) in
    elim (Bool-cases (ltb (num_players t.players) 2)) [
      | inl few ↦ rw (few, handle_new_hand) (tt, (h, e, q))
      | inr many ↦ rw (many, busy, handle_new_hand) (tt, (h, e, q))
    ]

add_player-Stalled : (id : PlayerId) (t : Table) → IsStalled t → IsStalled (add_player id t).1
unfolding add_player
add_player-Stalled id t s = s

leave_hand-stalled :
    (id : PlayerId) (h : HandState) → h.turn_queue ≡ [] → (leave_hand id h).1.turn_queue ≡ []
unfolding leave_hand filter_queue prune_turn_queue
leave_hand-stalled id h q = rw (q, leave_hand) refl

leave_hand_last :
    (id : PlayerId) (h : HandState) → h.turn_queue ≡ id ∷ [] → (leave_hand id h).1.turn_queue ≡ []
unfolding leave_hand filter_queue prune_turn_queue prune
leave_hand_last id h q = rw (q, leave_hand) (ground arith)

remove_player-Stalled : (id : PlayerId) (t : Table) → IsStalled t → IsStalled (remove_player id t).1
unfolding remove_player Manager.remove_player
remove_player-Stalled id t (h, e, q) = elim (Option-cases (lookup id t.players.index)) [
  | inl unknown ↦ rw (unknown, remove_player) (h, e, q)
  | inr (seat, known) ↦
      rw (known, e, remove_player) ((leave_hand id h).1, refl, leave_hand-stalled id h q)
]

-- When the only player in the queue leaves the table, the hand is stalled.
pub remove_player-stalls :
    (id seat : ℕ) (t : Table) (h : HandState)
    → t.hand_state ≡ some h
    → h.turn_queue ≡ id ∷ []
    → lookup id t.players.index ≡ some seat
    → IsStalled (remove_player id t).1
unfolding remove_player Manager.remove_player
remove_player-stalls id seat t h e q known =
    rw (known, e, remove_player) ((leave_hand id h).1, refl, leave_hand_last id h q)

-- The public methods of a table that change it.
pub data Call : Type 0 where
  join : PlayerId → Call
  leave : PlayerId → Call
  new_hand : Call
  play : Action → Call
  new_street : Call

-- The table after a call; its reply is dropped. A new street without a hand follows a null pointer.
abbrev pub call : Env → Call → Table → Outcome Table
call env (join id) t = done (add_player id t).1
call env (leave id) t = done (remove_player id t).1
call env new_hand t = handle_new_hand env t >>= λ s. done s.1
call env (play a) t = on_action env a t >>= λ s. done s.1
call env new_street t = elim t.hand_state [
  | none ↦ fault
  | some h ↦ done (record t { hand_state = some (handle_new_street h).1 })
]

abbrev pub calls : Env → List Call → Table → Outcome Table
calls env [] t = done t
calls env (c ∷ cs) t = call env c t >>= calls env cs

call-Stalled :
    (env : Env) (c : Call) (t : Table)
    → c ≢ new_street
    → IsStalled t
    → Returns IsStalled (call env c t)
call-Stalled env (join id) t other s = add_player-Stalled id t s
call-Stalled env (leave id) t other s = remove_player-Stalled id t s
call-Stalled env new_hand t other s =
    Returns->>= Refused IsStalled _ _ (handle_new_hand-Stays env t s) (λ r k. k.1)
call-Stalled env (play a) t other s =
    Returns->>= Refused IsStalled _ _ (on_action-Stays env a t s) (λ r k. k.1)
call-Stalled env new_street t other s = absurd (other refl)

-- A stalled hand is never played on by players who come, go or act, nor by a new hand: whatever calls but
-- `handle_new_street` follow, they all end, and the table is stalled after them.
pub calls-Stalled :
    (env : Env) (cs : List Call) (t : Table)
    → All (λ (c : Call). c ≢ new_street) cs
    → IsStalled t
    → Returns IsStalled (calls env cs t)
calls-Stalled env [] t others s = s
calls-Stalled env (c ∷ cs) t (other, others) s =
    Returns->>= IsStalled IsStalled _ _ (call-Stalled env c t other s)
      (λ t'. calls-Stalled env cs t' others)
