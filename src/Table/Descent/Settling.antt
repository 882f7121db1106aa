-- ===== src/Table/Descent/Settling.antt =====
-- engine/src/table.cc, `on_action`: what comes after an action that was accepted brings the hand nearer to its
-- end or ends it.
use poker_epoll.Base.{
  ℕ, ◌≤◌, ◌<◌, ◌≡◌, refl, ap, List, [], ◌∷◌, ◌++◌, Bool, true, false, Option, none, some, length,
  Outcome, ◌>>=◌, IfDone, IfDone->>=, Expected, value, unexpected, arith, Bool-cases, Option-cases,
  inl, inr,
}
use poker_epoll.Rules.{PlayerId}
use poker_epoll.Errors.{GameError}
use poker_epoll.Players.{PlayerManager}
use poker_epoll.Table.{
  Table, Round, HandState, Phase, preflop, flop, turn, river, showdown, holding, Event,
}
use poker_epoll.Table.Environment.{Env}
use poker_epoll.Table.Turns.{
  is_active, prune_turn_queue, active_players_in_hand, advance_turn, build_turn_queue, offset_of,
  ring, first_active_after,
}
use poker_epoll.Table.Pots.{total_committed}
use poker_epoll.Table.Showdown.{award_chips, distribute_side_pots}
use poker_epoll.Table.Streets.{
  handle_new_street, next_phase, open_street, seat_street, reveal_remaining_board,
}
use poker_epoll.Table.Closing.{Reply, close_hand, run_out}
use poker_epoll.Table.Actions.{
  is_river, any_active, after_street, end_street, go_on, win_uncontested, settle_among, settle,
  conclude,
}
use poker_epoll.Table.Invariant.Keeping.{Keeps, Keeps-trans}
use poker_epoll.Table.Invariant.Streets.{prune-Keeps, handle_new_street-Keeps}
use poker_epoll.Table.Descent.{
  Lowers, Rests, Lowers-Rests, Lowers-poorer, Lowers-weight, Rests-weight, weight, streets_left,
  length-keep_if, length-prune, length-ring,
}
use poker_epoll.Table.Descent.Bets.{Steps}

abbrev pub is_accepted : Expected GameError (List Event) → Bool
is_accepted (value events) = true
is_accepted (unexpected e) = false

-- If the hand goes on, it is not further from its end, and nearer to it if the action was accepted.
abbrev pub Falls : Round → Expected GameError (List Event) × Table → Type 0
Falls r (res, t) =
    (h : HandState)
    → t.hand_state ≡ some h
    → (weight (record { players = t.players; hand = h }) ≤ weight r)
      × (is_accepted res ≡ true → weight (record { players = t.players; hand = h }) < weight r)

-- The queue of a street that begins is no longer than the participants.
length-build_turn_queue :
    (start : PlayerId) (h : HandState) → length (build_turn_queue start h) ≤ length h.participants
unfolding build_turn_queue
length-build_turn_queue start h = elim (Option-cases (offset_of start h.participants)) [
  | inl nowhere ↦ rw (nowhere, build_turn_queue) (omega arith)
  | inr (offset, found) ↦
      rw (found, build_turn_queue)
        (omega (
          arith,
          length-keep_if (is_active h.player_state)
              (ring h.participants offset (length h.participants) 0),
          length-ring h.participants offset (length h.participants) 0,
        ))
]

length-seat_street : (h : HandState) → length (seat_street h).turn_queue ≤ length h.participants
unfolding seat_street prune_turn_queue
length-seat_street h = elim (Option-cases (first_active_after h.button h)) [
  | inl nobody ↦ rw (nobody, seat_street) (omega (arith, length-prune h.player_state []))
  | inr (start, found) ↦
      rw (found, seat_street)
        (omega (
          arith,
          length-prune h.player_state (build_turn_queue start h),
          length-build_turn_queue start h,
        ))
]

phase-seat_street : (h : HandState) → (seat_street h).phase ≡ h.phase
unfolding seat_street prune_turn_queue
phase-seat_street h = elim (Option-cases (first_active_after h.button h)) [
  | inl nobody ↦ rw (nobody, seat_street) refl
  | inr (start, found) ↦ rw (found, seat_street) refl
]

abbrev left : Option Phase → ℕ
left none = 0
left (some p) = streets_left p

next_phase-less : (p q : Phase) → next_phase p ≡ some q → streets_left q < streets_left p
unfolding next_phase
next_phase-less preflop q e = ground (arith, ap left e)
next_phase-less flop q e = ground (arith, ap left e)
next_phase-less turn q e = ground (arith, ap left e)
next_phase-less river q e = cc
next_phase-less showdown q e = cc
next_phase-less holding q e = cc

module _ (env : Env) (t : Table) (h₀ : HandState) where
  abbrev now : Round
  now = record { players = t.players; hand = h₀ }

  abbrev Ends : Reply → Type 0
  Ends out = IfDone (Falls now) out

  ends : (m : Outcome (List Event × PlayerManager)) → Ends (m >>= close_hand t)
  ends m = IfDone->>= (Falls now) m (close_hand t) (λ (events, players) h going. cc)

  run_out-Falls : (events : List Event) (r : Round) → Ends (run_out env events r t)
  unfolding run_out
  run_out-Falls events r =
      IfDone->>= (Falls now) (reveal_remaining_board events r.hand) _
        (λ (shown, h). ends (distribute_side_pots env h shown r.players))

  -- The hand goes on as the round.
  goes_on :
      (r : Round) (res : Expected GameError (List Event))
      → weight r ≤ weight now
      → (is_accepted res ≡ true → weight r < weight now)
      → Falls now (res, record t { players = r.players; hand_state = some r.hand })
  goes_on r res le lt h going =
      let here : weight r ≡ weight (record { players = r.players; hand = h }) =
        ap
          (λ (o : Option HandState). elim o [
            | none ↦ 0
            | some k ↦ weight (record { players = r.players; hand = k })
          ])
          going in
      (omega (arith, le, here), λ accepted. omega (arith, lt accepted, here))

  lowered :
      (r : Round) (res : Expected GameError (List Event))
      → Keeps now r
      → Lowers now r
      → Falls now (res, record t { players = r.players; hand_state = some r.hand })
  lowered r res k l =
      let less = Lowers-weight now r k.same_participants l in
      goes_on r res (omega (arith, less)) (λ accepted. less)

  pub refused :
      (r : Round) (e : GameError)
      → Keeps now r
      → Rests now r
      → Falls now (unexpected e, record t { players = r.players; hand_state = some r.hand })
  refused r e k l =
      goes_on r (unexpected e) (Rests-weight now r k.same_participants l) (λ accepted. cc)

  after_street-Falls :
      (events : List Event) (r : Round) (h : HandState) (res : Expected GameError (List Event))
      → Keeps now (record { players = r.players; hand = h })
      → Lowers now (record { players = r.players; hand = h })
      → Ends (after_street events (record t { players = r.players; hand_state = some h }) res)
  unfolding after_street
  after_street-Falls events r h (value more) k l =
      lowered (record { players = r.players; hand = h }) (value (events ++ more)) k l
  after_street-Falls events r h (unexpected e) k l =
      lowered (record { players = r.players; hand = h }) (unexpected e) k l

  -- The next street is nearer to the end, or there is none.
  new_street-Lowers :
      (r : Round)
      → Keeps now r
      → Lowers now r
      → Lowers now (record { players = r.players; hand = (handle_new_street r.hand).1 })
  unfolding handle_new_street open_street
  new_street-Lowers r k l = elim (Option-cases (next_phase r.hand.phase)) [
    | inl last ↦ rw (last, handle_new_street) l
    | inr (next, more) ↦
        let opened = open_street next r.hand in
        let s : Round = record { players = r.players; hand = seat_street opened } in
        let ph : streets_left (seat_street opened).phase ≡ streets_left next =
          ap streets_left (phase-seat_street opened) in
        let long : length r.hand.participants ≡ length h₀.participants =
          ap (λ (ids : List PlayerId). length ids) k.same_participants in
        rw (more, handle_new_street)
          (Lowers-poorer now r s l (omega (arith, ph, next_phase-less r.hand.phase next more))
            (omega (arith, length-seat_street opened, long)))
  ]

  end_street-Falls :
      (remaining : List PlayerId) (r : Round) (events : List Event)
      → Keeps now r
      → Lowers now r
      → Ends (end_street env remaining events r t)
  unfolding end_street
  end_street-Falls remaining r events k l = elim (Bool-cases (any_active r.hand remaining)) [
    | inr nobody ↦ rw (nobody, end_street) (run_out-Falls events r)
    | inl somebody ↦ elim (Bool-cases (is_river r.hand.phase)) [
      | inl last ↦
          rw (somebody, last, end_street) (ends (distribute_side_pots env r.hand events r.players))
      | inr earlier ↦
          rw (somebody, earlier, end_street)
            (after_street-Falls events r (handle_new_street r.hand).1 (handle_new_street r.hand).0
              (Keeps-trans k (handle_new_street-Keeps r.players r.hand k.hand))
              (new_street-Lowers r k l))
    ]
  ]

  pub pruned-Rests :
      (r : Round) → Rests r (record { players = r.players; hand = prune_turn_queue r.hand })
  unfolding prune_turn_queue
  pruned-Rests r = record {
    kept = omega arith;
    queue = length-prune r.hand.player_state r.hand.turn_queue;
  }

  go_on-Falls :
      (remaining : List PlayerId) (r : Round) (events : List Event) (q : List PlayerId)
      → r.hand.turn_queue ≡ q
      → Keeps now r
      → Lowers now r
      → Ends (go_on env remaining events r t)
  unfolding go_on advance_turn
  go_on-Falls remaining r events [] e k l = rw (e, go_on) (end_street-Falls remaining r events k l)
  go_on-Falls remaining r events (x ∷ xs) e k l =
      rw (e, go_on)
        (lowered (record { players = r.players; hand = prune_turn_queue r.hand })
          (value (advance_turn events r.hand).0)
          (Keeps-trans k (prune-Keeps r.players r.hand k.hand))
          (Lowers-Rests now r _ l (pruned-Rests r)))

  settle_among-Falls :
      (remaining : List PlayerId) (r : Round) (events : List Event)
      → Keeps now r
      → Lowers now r
      → Ends (settle_among env remaining events r t)
  unfolding settle_among win_uncontested
  settle_among-Falls [] r events k l = go_on-Falls [] r events r.hand.turn_queue refl k l
  settle_among-Falls (winner ∷ []) r events k l =
      ends (award_chips winner (total_committed env r.hand) events r.players)
  settle_among-Falls (x ∷ y ∷ ids) r events k l =
      go_on-Falls (x ∷ y ∷ ids) r events r.hand.turn_queue refl k l

  pub conclude-Falls :
      (s : Expected GameError (List Event) × Round)
      → Keeps now s.1
      → Steps now s
      → Ends (conclude env t s)
  unfolding conclude settle
  conclude-Falls (unexpected e, r) k l = refused r e k l
  conclude-Falls (value events, r) k l =
      settle_among-Falls (active_players_in_hand (prune_turn_queue r.hand)) _ events
        (Keeps-trans k (prune-Keeps r.players r.hand k.hand))
        (Lowers-Rests now r _ l (pruned-Rests r))
