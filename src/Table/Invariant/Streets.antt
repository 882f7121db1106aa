-- ===== src/Table/Invariant/Streets.antt =====
-- engine/src/table.cc, `handle_new_street`: the next street keeps the invariant.
use poker_epoll.Base.{
  ℕ, ◌≡◌, refl, List, [], ◌∷◌, none, Map, lookup, lookup_or, arith, Option-cases, inl, inr,
}
use poker_epoll.Rules.{PlayerId, Chips}
use poker_epoll.Players.{PlayerManager}
use poker_epoll.Players.Seating.{Unique}
use poker_epoll.Table.{HandState, Phase}
use poker_epoll.Table.Turns.{prune, prune_turn_queue, first_active_after}
use poker_epoll.Table.Streets.{clear_bets, open_street, seat_street, next_phase, handle_new_street}
use poker_epoll.Table.Invariant.{IsHand}
use poker_epoll.Table.Invariant.Keeping.{Keeps, Keeps-trans, relabel-Keeps}

-- The bets of the street are put away, which keeps the entries.
clear_bets-Unique : (m : Map Chips) → Unique m → Unique (clear_bets m)
clear_bets-Unique [] u = tt
clear_bets-Unique ((k, v) ∷ m) u = (clear_bets_none k m u.0, clear_bets-Unique m u.1)
  where
    clear_bets_none : (k : ℕ) (m : Map Chips) → lookup k m ≡ none → lookup k (clear_bets m) ≡ none
    clear_bets_none k [] e = refl
    clear_bets_none k ((j, w) ∷ m) e = ground (arith, clear_bets_none k m)

lookup_or-clear_bets : (j : ℕ) (m : Map Chips) → lookup_or j 0 (clear_bets m) ≡ 0
lookup_or-clear_bets j [] = refl
lookup_or-clear_bets j ((k, v) ∷ m) = ground (arith, lookup_or-clear_bets j m)

-- A change of the phase or of the queue alone.
module _ (m : PlayerManager) (h : HandState) (v : IsHand m h) where
  pub phase-Keeps :
      (p : Phase)
      → Keeps
          (record { players = m; hand = h })
          (record { players = m; hand = record h { phase = p } })
  phase-Keeps p = relabel-Keeps m h _ v refl refl refl v.bet_entries (λ j. omega arith) (λ j k. k)

  pub queue-Keeps :
      (q : List PlayerId)
      → Keeps
          (record { players = m; hand = h })
          (record { players = m; hand = record h { turn_queue = q } })
  queue-Keeps q = relabel-Keeps m h _ v refl refl refl v.bet_entries (λ j. omega arith) (λ j k. k)

  pub prune-Keeps :
      Keeps (record { players = m; hand = h }) (record { players = m; hand = prune_turn_queue h })
  unfolding prune_turn_queue
  prune-Keeps = queue-Keeps (prune h.player_state h.turn_queue)

  open_street-Keeps :
      (p : Phase)
      → Keeps (record { players = m; hand = h }) (record { players = m; hand = open_street p h })
  unfolding open_street
  open_street-Keeps p =
      relabel-Keeps m h _ v refl refl refl (clear_bets-Unique h.active_bets v.bet_entries)
        (λ j. omega (arith, lookup_or-clear_bets j h.active_bets)) (λ j k. k)

  seat_street-Keeps :
      Keeps (record { players = m; hand = h }) (record { players = m; hand = seat_street h })
  unfolding seat_street prune_turn_queue
  seat_street-Keeps = elim (Option-cases (first_active_after h.button h)) [
    | inl nobody ↦ rw (nobody, seat_street) (queue-Keeps _)
    | inr (first, found) ↦ rw (found, seat_street) (queue-Keeps _)
  ]

-- The new street keeps the invariant and the chips, also where there is none and it is refused.
pub handle_new_street-Keeps :
    (m : PlayerManager) (h : HandState)
    → IsHand m h
    → Keeps
        (record { players = m; hand = h })
        (record { players = m; hand = (handle_new_street h).1 })
unfolding handle_new_street
handle_new_street-Keeps m h v = elim (Option-cases (next_phase h.phase)) [
  | inl last ↦ rw (last, handle_new_street) (phase-Keeps m h v h.phase)
  | inr (next, more) ↦
      let opened = open_street-Keeps m h v next in
      rw (more, handle_new_street) (Keeps-trans opened (seat_street-Keeps m _ opened.hand))
]
