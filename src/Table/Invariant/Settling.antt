-- ===== src/Table/Invariant/Settling.antt =====
-- engine/src/table.cc: a table that is in order, and what a step makes of it, whether the hand goes on
-- or ends with a payment.
use poker_epoll.Base.{
  ◌≤◌, ◌<◌, ◌≡◌, refl, ◌≢◌, List, Option, none, some, total, Outcome, Returns, arith, u64_size,
  ◌>>=◌,
}
use poker_epoll.Rules.{Chips}
use poker_epoll.Players.{PlayerManager}
use poker_epoll.Players.Seating.{IsSeated}
use poker_epoll.Players.Purses.{purses, Kept, Kept-trans}
use poker_epoll.Table.{Table, Round, HandState, Event}
use poker_epoll.Table.Showdown.Payments.{Paid}
use poker_epoll.Table.Closing.{close_hand}
use poker_epoll.Table.Invariant.{IsHand, money}
use poker_epoll.Table.Invariant.Keeping.{Keeps}

abbrev pub IsTableWith : PlayerManager → Option HandState → Type 0
IsTableWith m none = IsSeated m × (purses m < u64_size)
IsTableWith m (some h) = IsHand m h

-- The seats are in order, and so is the hand, if there is one.
abbrev pub IsTable : Table → Type 0
IsTable t = IsTableWith t.players t.hand_state

-- What a step makes of a table: the players and their seats are the same, the chips of a hand that
-- goes on are the same, and a hand that ends makes no chips.
pub record Settles (t t' : Table) : Type 0 where
  pub table : IsTable t'
  pub players : Kept t.players t'.players
  pub made_none : money t' ≤ money t
  pub going_on : t'.hand_state ≢ none → money t' ≡ money t

module _ (t : Table) (h₀ : HandState) (in_hand : t.hand_state ≡ some h₀) where
  abbrev pub start : Round
  start = record { players = t.players; hand = h₀ }

  -- The hand goes on.
  pub going-Settles :
      (r : Round)
      → Keeps start r
      → Settles t (record t { players = r.players; hand_state = some r.hand })
  going-Settles r k = record {
    table = k.hand;
    players = k.players;
    made_none = ground (arith, k.chips);
    going_on = λ _. ground (arith, k.chips);
  }

  -- The hand ends with a payment.
  pub close_hand-Settles :
      (r : Round) (amount : Chips) (out : Outcome (List Event × PlayerManager))
      → Keeps start r
      → amount ≤ total r.hand.committed
      → Paid r.players amount out
      → Returns (λ s. Settles t s.1) (out >>= close_hand t)
  close_hand-Settles r amount out k bound (events, m', paid, kept, sum) = rw paid (record {
    table = (kept.seating, omega (arith, sum, bound, k.hand.solvent));
    players = Kept-trans k.players kept;
    made_none = ground (arith, sum, bound, k.chips);
    going_on = λ ne. absurd (ne refl);
  })

pub IsTableWith-IsSeated : (m : PlayerManager) (o : Option HandState) → IsTableWith m o → IsSeated m
IsTableWith-IsSeated m none v = v.0
IsTableWith-IsSeated m (some h) v = v.seating
