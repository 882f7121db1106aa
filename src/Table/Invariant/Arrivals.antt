-- ===== src/Table/Invariant/Arrivals.antt =====
-- engine/src/table.cc, `add_player` and `remove_player`: who comes and who goes during a hand.
use poker_epoll.Base.{
  ℕ, ◌≤◌, ◌≡◌, refl, ap, ◌≢◌, List, [], ◌∷◌, Option, none, some, true, false, lookup, lookup-insert,
  arith, sym, subst, Option-cases, Bool-cases, inl, inr, Map, Expected, value, insert,
}
use poker_epoll.Rules.{PlayerId}
use poker_epoll.Errors.{PlayerMgmtError}
use poker_epoll.Players as Manager
use poker_epoll.Players.{PlayerManager, is_sat, seated, take_seat, give_up_seat, occupant}
use poker_epoll.Players.Seating.{IsSeated, lookup-erase}
use poker_epoll.Players.Seating.Changes.{add_player-IsSeated, remove_player-IsSeated, seat_bound}
use poker_epoll.Players.Purses.{purses, purse_sum-set, occupant-set}
use poker_epoll.Table.{Table, HandState, PlayerState, left}
use poker_epoll.Table.Turns.{is_live, prune, prune_turn_queue}
use poker_epoll.Table.Seats.{add_player, remove_player, leave_hand, filter_queue}
use poker_epoll.Table.Invariant.{IsHand, money}
use poker_epoll.Table.Invariant.Settling.{IsTable, IsTableWith}

take_seat-sat :
    (m : PlayerManager) (id j : PlayerId) (xs : List ℕ)
    → lookup id m.index ≡ none
    → is_sat j m ≡ true
    → is_sat j (take_seat id xs m).1 ≡ true
unfolding is_sat
take_seat-sat m id j [] fresh sat = sat
take_seat-sat m id j (seat ∷ rest) fresh sat =
    ground (arith, lookup-insert j id seat m.index, λ (q : j ≡ id). ap (λ i. lookup i m.index) q)

take_seat-purses :
    (m : PlayerManager) (id : PlayerId) (xs : List ℕ) → purses (take_seat id xs m).1 ≡ purses m
take_seat-purses m id [] = refl
take_seat-purses m id (seat ∷ rest) = refl

add_player-IsTableWith :
    (id : PlayerId) (m : PlayerManager) (o : Option HandState)
    → lookup id m.index ≡ none
    → IsTableWith m o
    → IsTableWith (Manager.add_player id m).1 o
unfolding Manager.add_player
add_player-IsTableWith id m none fresh v =
    (add_player-IsSeated id m v.0 fresh, omega (arith, v.1, take_seat-purses m id m.open_seats))
add_player-IsTableWith id m (some h) fresh v = record {
  seating = add_player-IsSeated id m v.seating fresh;
  entries = v.entries;
  bet_entries = v.bet_entries;
  backed = v.backed;
  in_play = λ j live.
      let (here, sat, hole) = v.in_play j live in
      (here, take_seat-sat m id j m.open_seats fresh sat, hole);
  covered = v.covered;
  solvent = omega (arith, v.solvent, take_seat-purses m id m.open_seats);
}

-- Whoever comes while a hand is played, or between two hands, leaves the table in order.
pub add_player-IsTable :
    (id : PlayerId) (t : Table)
    → IsTable t
    → lookup id t.players.index ≡ none
    → IsTable (add_player id t).1
unfolding add_player
add_player-IsTable id t v fresh = add_player-IsTableWith id t.players t.hand_state fresh v

module _ (m : PlayerManager) (v : IsSeated m) (id seat : ℕ)
    (known : lookup id m.index ≡ some seat) where
  give_up_seat-purses : purses (give_up_seat id seat m) ≤ purses m
  give_up_seat-purses =
      ground (arith, purse_sum-set m.seats seat none (seat_bound m id seat v known))

  give_up_seat-sat :
      (j : PlayerId) → j ≢ id → is_sat j m ≡ true → is_sat j (give_up_seat id seat m) ≡ true
  unfolding is_sat
  give_up_seat-sat j other sat = elim (Option-cases (lookup j m.index)) [
    | inl unknown ↦ absurd (ground arith)
    | inr (s, known_j) ↦ ground (
      arith,
      known,
      known_j,
      v.placed id seat known,
      v.placed j s known_j,
      lookup-erase j id m.index v.unique,
      occupant-set m.seats seat s none (seat_bound m id seat v known),
    )
  ]

-- A hand that a player leaves: only who is in and the queue differ.
leave_hand-eq :
    (id : PlayerId) (h : HandState)
    → (q : List PlayerId) × ((leave_hand id h).1
        ≡ record h { player_state = insert id left h.player_state; turn_queue = q })
unfolding leave_hand prune_turn_queue
leave_hand-eq id h = elim (Bool-cases (filter_queue id h.turn_queue [] false).1) [
  | inl front ↦ (
    prune (insert id left h.player_state) (filter_queue id h.turn_queue [] false).0,
    rw (front, leave_hand) refl,
  )
  | inr behind ↦ ((filter_queue id h.turn_queue [] false).0, rw (behind, leave_hand) refl)
]

live_other :
    (states : Map PlayerState) (id j : PlayerId)
    → is_live (insert id left states) j ≡ true
    → (j ≢ id) × (is_live states j ≡ true)
live_other states id j live =
    ground (arith, lookup-insert j id left states, λ (q : j ≡ id). ap (λ i. lookup i states) q)

left-IsHand :
    (m : PlayerManager) (id seat : ℕ) (h : HandState) (q : List PlayerId)
    → IsHand m h
    → lookup id m.index ≡ some seat
    → IsSeated (give_up_seat id seat m)
    → IsHand
        (give_up_seat id seat m)
        (record h { player_state = insert id left h.player_state; turn_queue = q })
left-IsHand m id seat h q v known seating = record {
  seating = seating;
  entries = v.entries;
  bet_entries = v.bet_entries;
  backed = v.backed;
  in_play = λ j live.
      let (other, in_before) = live_other h.player_state id j live in
      let (here, sat, hole) = v.in_play j in_before in
      (here, give_up_seat-sat m v.seating id seat known j other sat, hole);
  covered = v.covered;
  solvent = omega (arith, v.solvent, give_up_seat-purses m v.seating id seat known);
}

-- What leaving does to a table: it is in order, and no chips are made.
abbrev pub Leaves : Table → Table → Type 0
Leaves t t' = IsTable t' × (money t' ≤ money t)

removed :
    (m : PlayerManager) (id seat : ℕ)
    → lookup id m.index ≡ some seat
    → Manager.remove_player id m ≡ (value tt, give_up_seat id seat m)
unfolding Manager.remove_player
removed m id seat known = ground (arith, known)

give_up_seat-IsSeated :
    (m : PlayerManager) (id seat : ℕ)
    → IsSeated m
    → lookup id m.index ≡ some seat
    → IsSeated (give_up_seat id seat m)
give_up_seat-IsSeated m id seat v known =
    subst (λ (r : Expected PlayerMgmtError (Unit {0}) × PlayerManager). IsSeated r.1)
      (removed m id seat known) (remove_player-IsSeated id m v)

-- The hand after a player has left.
abbrev pub hand_left : PlayerId → Option HandState → Option HandState
hand_left id none = none
hand_left id (some h) = some (leave_hand id h).1

pub table_left :
    (id seat : ℕ) (t : Table) (o : Option HandState)
    → lookup id t.players.index ≡ some seat
    → t.hand_state ≡ o
    → (remove_player id t).1
      ≡ record t { players = give_up_seat id seat t.players; hand_state = hand_left id o }
unfolding remove_player
table_left id seat t none known e = ground (arith, removed t.players id seat known, e)
table_left id seat t (some h) known e = ground (arith, removed t.players id seat known, e)

gone-Leaves :
    (id seat : ℕ) (t : Table) (o : Option HandState)
    → lookup id t.players.index ≡ some seat
    → t.hand_state ≡ o
    → IsTableWith t.players o
    → Leaves t (record t { players = give_up_seat id seat t.players; hand_state = hand_left id o })
gone-Leaves id seat t none known e v =
    let fewer = give_up_seat-purses t.players v.0 id seat known in
    (
      (give_up_seat-IsSeated t.players id seat v.0 known, omega (arith, v.1, fewer)),
      rw e (omega (arith, fewer)),
    )
gone-Leaves id seat t (some h) known e v =
    let fewer = give_up_seat-purses t.players v.seating id seat known in
    let (q, left_hand) = leave_hand-eq id h in
    rw (e, left_hand)
      (
        left-IsHand t.players id seat h q v known
            (give_up_seat-IsSeated t.players id seat v.seating known),
        omega (arith, fewer),
      )

pub stranger-remains :
    (id : PlayerId) (t : Table) → lookup id t.players.index ≡ none → (remove_player id t).1 ≡ t
unfolding remove_player Manager.remove_player
stranger-remains id t unknown = ground (arith, unknown)

-- Whoever leaves, during a hand or between two, the table is in order afterwards, and no chips are
-- made; this holds also where the player is not at the table and is refused.
pub remove_player-Leaves : (id : PlayerId) (t : Table) → IsTable t → Leaves t (remove_player id t).1
remove_player-Leaves id t v = elim (Option-cases (lookup id t.players.index)) [
  | inl unknown ↦ subst (Leaves t) (sym (stranger-remains id t unknown)) (v, omega arith)
  | inr (seat, known) ↦
      subst (Leaves t) (sym (table_left id seat t t.hand_state known refl))
        (gone-Leaves id seat t t.hand_state known refl v)
]
