-- ===== src/Table/Invariant/NewHands.antt =====
-- engine/src/table.cc, `handle_new_hand`: a new hand at a table that is in order.
use poker_epoll.Base.{
  ℕ, suc, ◌+◌, ◌*◌, ◌≤◌, ◌<◌, ◌≡◌, refl, ap, subst, ◌∙◌, ◌≢◌, ◌⊎◌, List, [], ◌∷◌, take, drop,
  contains, Option, none, some, true, false, has_key, total, done, fault, Returns, Returns-map,
  Returns->>=, unexpected, ltb, ◌==◌, if◌then◌else◌, arith, u64_size, length, eq_of_==, Bool-cases,
  inl, inr,
}
use poker_epoll.Rules.{PlayerId, buy_in}
use poker_epoll.Cards.{Card}
use poker_epoll.Errors.{not_enough_players}
use poker_epoll.Players.{PlayerManager, is_sat, num_players, seat_held_players}
use poker_epoll.Players.Seating.{IsSeated, sitter}
use poker_epoll.Players.Seating.Changes.{seat_held_players-IsSeated}
use poker_epoll.Players.Seating.Sitters.{others_from, others_sat, sitter_sat}
use poker_epoll.Players.BuyIns.{seat_held_players-purses}
use poker_epoll.Players.Purses.{purses, Kept, Kept-refl, get_chips_total}
use poker_epoll.Table.{Engine, live, dangling, Table, Round, HandState, Event, player_chips}
use poker_epoll.Table.Environment.{Env, IsLawful}
use poker_epoll.Table.Turns.{prune_turn_queue}
use poker_epoll.Table.Closing.{Reply, run_out}
use poker_epoll.Table.Hands.{handle_new_hand, hand_in_progress, deal_hand, chip_events, open_hand}
use poker_epoll.Table.Hands.Dealing.{deal_cards_lem}
use poker_epoll.Table.Hands.Engines.{still_many, no_engine}
use poker_epoll.Table.Hands.Positions.{next_button_sits, participants_lem}
use poker_epoll.Table.Invariant.{money, in_pot}
use poker_epoll.Table.Invariant.Keeping.{Keeps, Keeps-trans}
use poker_epoll.Table.Invariant.Streets.{prune-Keeps}
use poker_epoll.Table.Invariant.Settling.{IsTable, IsTableWith, Settles, going-Settles}
use poker_epoll.Table.Invariant.Actions.{run_out-Settles}
use poker_epoll.Table.Invariant.Opening.{dealt, dealt-total, first_round, post_blinds-Keeps}

-- What a new hand makes of the players `m` who have sat down: nobody moves, the chips of a hand that
-- is on are all there, and one that is over at once has made none.
pub record Opens (m : PlayerManager) (t : Table) : Type 0 where
  pub table : IsTable t
  pub players : Kept m t.players
  pub made_none : money t ≤ purses m
  pub going_on : t.hand_state ≢ none → money t ≡ purses m

chip_events_done :
    (m : PlayerManager) (ids : List PlayerId)
    → IsSeated m
    → ((j : PlayerId) → contains j ids ≡ true → is_sat j m ≡ true)
    → (events : List Event) × (chip_events m ids ≡ done events)
unfolding chip_events
chip_events_done m [] v sat = ([], refl)
chip_events_done m (id ∷ ids) v sat =
    let (c, chips, bound) = get_chips_total m id v (sat id (ground arith)) in
    let (events, rest) = chip_events_done m ids v (λ j h. sat j (ground arith)) in
    (player_chips id c ∷ events, rw (chips, rest) refl)

module _ (env : Env) (lawful : IsLawful env) (t : Table) (m : PlayerManager) (seating : IsSeated m)
    (small : purses m < u64_size) (button : PlayerId) (participants : List PlayerId)
    (cards board : List Card)
    (sat : (j : PlayerId) → contains j participants ≡ true → is_sat j m ≡ true) where
  abbrev opened : HandState
  opened = dealt m seating small button participants cards board sat

  abbrev opening : Round
  opening = record { players = m; hand = opened }

  -- The table as if the hand were already on it.
  abbrev as_if : Table
  as_if = record t { players = m; hand_state = some opened }

  Settles-Opens : (t' : Table) → Settles as_if t' → Opens m t'
  Settles-Opens t' s =
      let none_in : total opened.committed ≡ 0 =
        dealt-total m seating small button participants cards board sat in
      record {
        table = s.table;
        players = s.players;
        made_none = omega (arith, s.made_none, none_in);
        going_on = λ on. omega (arith, s.going_on on, none_in);
      }

  open_queue-Opens :
      (events : List Event) (r : Round) (q : List PlayerId)
      → (prune_turn_queue r.hand).turn_queue ≡ q
      → Keeps opening r
      → Returns (λ s. Opens m s.1) (open_hand env t (events, r))
  unfolding open_hand run_out
  open_queue-Opens events r [] e k =
      let pruned = Keeps-trans k (prune-Keeps r.players r.hand k.hand) in
      rw (e, open_hand)
        (Returns-map (λ s. Settles as_if s.1) (λ s. Opens m s.1) _
          (run_out-Settles env lawful as_if opened refl _ events pruned)
          (λ s settled. Settles-Opens s.1 settled))
  open_queue-Opens events r (first ∷ queue) e k =
      let pruned = Keeps-trans k (prune-Keeps r.players r.hand k.hand) in
      rw (e, open_hand)
        (Settles-Opens _
          (going-Settles as_if opened refl (record r { hand = prune_turn_queue r.hand }) pruned))

module _ (env : Env) (lawful : IsLawful env) where
  -- The table has its button and its players, and the button is the first participant.
  deal_hand-Opens :
      (t : Table) (g : ℕ) (others : List PlayerId)
      → t.rng ≡ live g
      → IsSeated t.players
      → purses t.players < u64_size
      → length others ≤ 22
      → ((j : PlayerId) → contains j (t.button ∷ others) ≡ true → is_sat j t.players ≡ true)
      → 0 < length others
      → Returns (λ s. Opens t.players s.1) (deal_hand env (t.button ∷ others) t)
  unfolding deal_hand
  deal_hand-Opens t g others lives seating small few sat some_others =
      let participants = t.button ∷ others in
      let cards = (env.shuffler g t.deck.cards).0 in
      let board = take 5 (drop (suc (length others) * 2) cards) in
      let (chips, told) = chip_events_done t.players participants seating sat in
      let start = first_round t.players seating small t.button participants cards board sat in
      rw (lives, deal_cards_lem env t.button t.button others g t.deck few, told)
        (Returns->>= (λ s. Keeps start s.1) (λ s. Opens t.players s.1) _ _
          (post_blinds-Keeps t.players seating small t.button participants cards board sat _
            (omega (arith, some_others)))
          (λ s k.
            open_queue-Opens env lawful _ t.players seating small t.button participants cards board
              sat s.0 s.1 (prune_turn_queue s.1.hand).turn_queue refl k))

-- What `handle_new_hand` makes of a table: it is in order, the seats are given out as before, and
-- the only new chips are the buy-ins of those who sit down.
pub record Deals (t t' : Table) : Type 0 where
  pub table : IsTable t'
  pub same_index : t'.players.index ≡ t.players.index
  pub bought_in :
      money t' + buy_in * length t'.players.holding ≤ money t + buy_in * length t.players.holding
  pub dealt_in :
      t.hand_state ≡ none
      → t'.hand_state ≢ none
      → money t' ≡ money t + buy_in * length t.players.holding

pub refused-Deals :
    (t : Table) → IsTable t → (num_players t.players < 2) ⊎ (t.hand_state ≢ none) → Deals t t
refused-Deals t v why = record {
  table = v;
  same_index = refl;
  bought_in = omega arith;
  dealt_in = λ idle on. absurd (on idle);
}

pub between_hands :
    (t : Table) (o : Option HandState)
    → t.hand_state ≡ o
    → hand_in_progress t ≡ false
    → IsTableWith t.players o
    → IsSeated t.players × (purses t.players < u64_size) × (t.hand_state ≡ none)
unfolding hand_in_progress
between_hands t none e idle v = (v.0, v.1, e)
between_hands t (some h) e idle v = absurd (ground arith)

module _ (env : Env) (lawful : IsLawful env) (t : Table) (seating : IsSeated t.players)
    (idle : t.hand_state ≡ none)
    (room : purses t.players + buy_in * length t.players.holding < u64_size) where
  abbrev seated_players : PlayerManager
  seated_players = seat_held_players t.players

  -- The players have sat down, and `b` has the button.
  abbrev table_of : PlayerId → Table
  table_of b = record t { players = seated_players; button = b; hand_state = none }

  Opens-Deals : (t' : Table) → Opens seated_players t' → Deals t t'
  Opens-Deals t' o =
      let (brought, index) = seat_held_players-purses t.players seating in
      let empty : in_pot t.hand_state ≡ 0 = rw idle refl in
      let nobody_held = (seat_held_players-IsSeated t.players seating).1 in
      let none_left : length t'.players.holding ≡ 0 =
        ap {B = ℕ} (λ (ids : List PlayerId). length ids) (o.players.same_holding ∙ nobody_held) in
      record {
        table = o.table;
        same_index = o.players.same_index ∙ index;
        bought_in = omega (arith, o.made_none, brought, empty, none_left);
        dealt_in = λ i on. omega (arith, o.going_on on, brought, empty);
      }

  alone-Deals : (b : PlayerId) → Deals t (table_of b)
  alone-Deals b =
      let (brought, index) = seat_held_players-purses t.players seating in
      let sits = (seat_held_players-IsSeated t.players seating).0 in
      let small : purses seated_players < u64_size = omega (arith, brought, room) in
      Opens-Deals (table_of b) (record {
        table = (sits, small);
        players = Kept-refl seated_players sits;
        made_none = omega arith;
        going_on = λ on. absurd (on refl);
      })

  dealt-Deals :
      (g b : ℕ) (k : ℕ)
      → t.rng ≡ live g
      → sitter seated_players.seats k ≡ some b
      → 0 < length (others_from k seated_players.seats)
      → Returns
          (λ s. Deals t s.1)
          (deal_hand env (b ∷ others_from k seated_players.seats) (table_of b))
  dealt-Deals g b k lives at_k some_others =
      let (brought, index) = seat_held_players-purses t.players seating in
      let sits = (seat_held_players-IsSeated t.players seating).0 in
      let (cycle, few) = participants_lem seated_players sits b k at_k in
      Returns-map (λ s. Opens seated_players s.1) (λ s. Deals t s.1) _
        (deal_hand-Opens env lawful (table_of b) g (others_from k seated_players.seats) lives sits
          (omega (arith, brought, room)) (omega (arith, few))
          (λ j h. elim (Bool-cases (b == j)) [
            | inl first ↦
                subst (λ i. is_sat i seated_players ≡ true) (eq_of_== b j first)
                  (sitter_sat seated_players sits b k at_k)
            | inr later ↦ others_sat seated_players sits j k (ground arith)
          ])
          some_others)
        (λ s o. Opens-Deals s.1 o)

  -- The hand of the player `b` with the button and of `others`, if there are any.
  abbrev start : PlayerId → List PlayerId → Reply
  start b others =
      if ltb (length (b ∷ others)) 2
      then done (unexpected not_enough_players, table_of b)
      else deal_hand env (b ∷ others) (table_of b)

  sit_down-Deals :
      (e : Engine) (b : PlayerId) (k : ℕ)
      → t.rng ≡ e
      → sitter seated_players.seats k ≡ some b
      → Returns (λ s. Deals t s.1) (start b (others_from k seated_players.seats))
        ⊎ ((e ≡ dangling) × (start b (others_from k seated_players.seats) ≡ fault))
  sit_down-Deals dangling b k gone at_k =
      elim (Bool-cases (ltb (length (b ∷ others_from k seated_players.seats)) 2)) [
        | inl alone ↦ inl (rw alone (alone-Deals b))
        | inr enough ↦ inr (
          refl,
          rw enough (no_engine env (table_of b) b (others_from k seated_players.seats) gone),
        )
      ]
  sit_down-Deals (live g) b k lives at_k =
      elim (Bool-cases (ltb (length (b ∷ others_from k seated_players.seats)) 2)) [
        | inl alone ↦ inl (rw alone (alone-Deals b))
        | inr enough ↦ inl (rw enough (dealt-Deals g b k lives at_k (ground arith)))
      ]

-- A new hand at a table that is in order ends, refused or dealt, where the button is new or is still
-- at the table and the buy-ins do not overflow; unless the engine of the table is gone, and it faults.
pub handle_new_hand_cases :
    (env : Env) (t : Table)
    → IsLawful env
    → IsTable t
    → (t.button ≡ 0) ⊎ (has_key t.button t.players.index ≡ true)
    → purses t.players + buy_in * length t.players.holding < u64_size
    → Returns (λ s. Deals t s.1) (handle_new_hand env t)
      ⊎ ((t.rng ≡ dangling) × (handle_new_hand env t ≡ fault))
unfolding handle_new_hand hand_in_progress
handle_new_hand_cases env t lawful v choice room =
    elim (Bool-cases (ltb (num_players t.players) 2)) [
      | inl few ↦ inl (rw (few, handle_new_hand) (refused-Deals t v (inl (ground arith))))
      | inr many ↦ elim (Bool-cases (hand_in_progress t)) [
        | inl busy ↦
            inl
              (rw (many, busy, handle_new_hand) (refused-Deals t v (inr (λ e. ground (arith, e)))))
        | inr free ↦
            let (seating, small, idle) = between_hands t t.hand_state refl free v in
            let (sits, nobody_held) = seat_held_players-IsSeated t.players seating in
            let (brought, index) = seat_held_players-purses t.players seating in
            let (b, k, found, at_k) =
              next_button_sits (seat_held_players t.players) sits nobody_held t.button
                (still_many t.players (seat_held_players t.players) seating sits index
                  (ground arith))
                (still_there (seat_held_players t.players) index) in
            let (cycle, bound) = participants_lem (seat_held_players t.players) sits b k at_k in
            rw (many, free, found, cycle, handle_new_hand)
              (sit_down-Deals env lawful t seating idle room t.rng b k refl at_k)
      ]
    ]
  where
    still_there :
        (m : PlayerManager)
        → m.index ≡ t.players.index
        → (t.button ≡ 0) ⊎ (has_key t.button m.index ≡ true)
    still_there m e = rw e choice

-- A new hand at a table that is in order and whose engine lives ends, refused or dealt, where the
-- button is new or is still at the table and the buy-ins do not overflow. The table is in order
-- afterwards, nobody's seat is given away, and the only new chips are the buy-ins of those who sit
-- down; all of them are there while the hand that is dealt goes on.
pub handle_new_hand-Deals :
    (env : Env) (t : Table) (g : ℕ)
    → IsLawful env
    → IsTable t
    → t.rng ≡ live g
    → (t.button ≡ 0) ⊎ (has_key t.button t.players.index ≡ true)
    → purses t.players + buy_in * length t.players.holding < u64_size
    → Returns (λ s. Deals t s.1) (handle_new_hand env t)
handle_new_hand-Deals env t g lawful v lives choice room =
    elim (handle_new_hand_cases env t lawful v choice room) [
      | inl deals ↦ deals
      | inr (gone, crash) ↦ absurd (cc (gone, lives))
    ]
