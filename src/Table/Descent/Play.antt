-- ===== src/Table/Descent/Play.antt =====
-- engine/src/table.cc: a hand takes no more than so many accepted actions, however it is played.
use poker_epoll.Base.{
  ℕ, suc, ◌+◌, ◌≤◌, ◌≡◌, refl, sym, subst, ap, ◌∙◌, List, none, some, Outcome, done, fault, Returns,
  Expected, value, unexpected, Option-cases, inl, inr, arith,
}
use poker_epoll.Errors.{GameError, invalid_action}
use poker_epoll.Table.{Table, Round, HandState, Action, Event}
use poker_epoll.Table.Environment.{Env, IsLawful}
use poker_epoll.Table.Actions.{dispatch, on_action}
use poker_epoll.Table.Invariant.Settling.{IsTable}
use poker_epoll.Table.Descent.{weight}
use poker_epoll.Table.Descent.Actions.{on_action-Falls}
use poker_epoll.Table.Descent.Settling.{Falls}

-- Actions lead from a table to the table `t'`, so many of them accepted.
pub data Plays (env : Env) (t' : Table) : ℕ → Table → Type 0 where
  over : Plays env t' 0 t'
  accepts :
      {n : ℕ} {t s : Table} (a : Action) (events : List Event)
      → on_action env a t ≡ done (value events, s)
      → Plays env t' n s
      → Plays env t' (suc n) t
  refuses :
      {n : ℕ} {t s : Table} (a : Action) (e : GameError)
      → on_action env a t ≡ done (unexpected e, s)
      → Plays env t' n s
      → Plays env t' n t

-- Between two hands every action is refused.
on_action_idle :
    (env : Env) (a : Action) (t : Table)
    → t.hand_state ≡ none
    → on_action env a t ≡ done (unexpected invalid_action, t)
unfolding on_action dispatch
on_action_idle env a t idle = ap (λ o. dispatch env a o t) idle

abbrev reply_table : Outcome (Expected GameError (List Event) × Table) → Table → Table
reply_table (done (res, s)) t = s
reply_table fault t = t

idle-Plays :
    (env : Env) (t' : Table) (n : ℕ) (t : Table) → t.hand_state ≡ none → Plays env t' n t → n ≡ 0
idle-Plays env t' n t idle over = refl
idle-Plays env t' n t idle (accepts a events e p) = let refusal = on_action_idle env a t idle in cc
idle-Plays env t' n t idle (refuses {s = s} a e ran p) =
    let same : t ≡ s = ap (λ o. reply_table o t) (sym (on_action_idle env a t idle) ∙ ran) in
    idle-Plays env t' n s (ap (λ (u : Table). u.hand_state) (sym same) ∙ idle) p

-- Whatever actions come to a table in order during a hand: no more of them are accepted, until the hand ends
-- and after it, than the weight of the hand and one: the chips in the purses and the streets to come, times
-- one more than the longest queue, and the players in the queue.
pub Plays-bounded :
    (env : Env) (t' : Table) (n : ℕ) (t : Table) (h : HandState)
    → IsLawful env
    → IsTable t
    → t.hand_state ≡ some h
    → Plays env t' n t
    → n ≤ weight (record { players = t.players; hand = h }) + 1
Plays-bounded env t' n t h lawful v playing over = omega arith
Plays-bounded env t' (suc n) t h lawful v playing (accepts {s = s} a events ran p) =
    let r : Round = record { players = t.players; hand = h } in
    let (v', falls) =
      subst (Returns (λ u. IsTable u.1 × Falls r u)) ran
        (on_action-Falls env a t h lawful v playing) in
    elim (Option-cases s.hand_state) [
      | inl ended ↦ omega (arith, idle-Plays env t' n s ended p)
      | inr (h', goes_on) ↦
          omega (arith, (falls h' goes_on).1 refl, Plays-bounded env t' n s h' lawful v' goes_on p)
    ]
Plays-bounded env t' n t h lawful v playing (refuses {s = s} a e ran p) =
    let r : Round = record { players = t.players; hand = h } in
    let (v', falls) =
      subst (Returns (λ u. IsTable u.1 × Falls r u)) ran
        (on_action-Falls env a t h lawful v playing) in
    elim (Option-cases s.hand_state) [
      | inl ended ↦ omega (arith, idle-Plays env t' n s ended p)
      | inr (h', goes_on) ↦
          omega (arith, (falls h' goes_on).0, Plays-bounded env t' n s h' lawful v' goes_on p)
    ]
