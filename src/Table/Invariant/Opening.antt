-- ===== src/Table/Invariant/Opening.antt =====
-- engine/src/table.cc, `handle_new_hand`: the hand that is dealt satisfies the invariant, and its
-- blinds are posted.
use poker_epoll.Base.{
  ℕ, ◌≤◌, ◌<◌, ◌≡◌, refl, List, [], ◌∷◌, take, drop, contains, some, true, Map, lookup, has_key,
  insert, lookup-insert, total, total-insert, u64_size, if◌then◌else◌, arith, length, Returns,
  Returns->>=,
}
use poker_epoll.Rules.{PlayerId, Chips, small_blind, big_blind}
use poker_epoll.Cards.{Card}
use poker_epoll.Players.{PlayerManager, is_sat}
use poker_epoll.Players.Seating.{IsSeated, Unique, insert-Unique}
use poker_epoll.Players.Purses.{purses}
use poker_epoll.Table.{HandState, active, Round, Event}
use poker_epoll.Table.Turns.{is_live}
use poker_epoll.Table.Hands.{insert_all, first_hand, positions, post_blinds}
use poker_epoll.Table.Hands.Dealing.{handed}
use poker_epoll.Table.Hands.Positions.{positions_inside}
use poker_epoll.Table.Invariant.{IsHand}
use poker_epoll.Table.Invariant.Keeping.{Keeps, Keeps-trans}
use poker_epoll.Table.Invariant.Streets.{queue-Keeps}
use poker_epoll.Table.Invariant.Blinds.{Posts, post_blind-Posts}

lookup-insert_all {ℓ} :
    {V : Type ℓ} (j : PlayerId) (v : V) (ids : List PlayerId) (m : Map V)
    → lookup j (insert_all v ids m) ≡ (if contains j ids then some v else lookup j m)
lookup-insert_all j v [] m = refl
lookup-insert_all j v (id ∷ ids) m =
    ground (arith, lookup-insert_all j v ids (insert id v m), lookup-insert j id v m)

insert_all-Unique {ℓ} :
    {V : Type ℓ} (v : V) (ids : List PlayerId) (m : Map V) → Unique m → Unique (insert_all v ids m)
insert_all-Unique v [] m u = u
insert_all-Unique v (id ∷ ids) m u =
    insert_all-Unique v ids (insert id v m) (insert-Unique id v m u)

total-insert_all :
    (ids : List PlayerId) (m : Map Chips) → total m ≡ 0 → total (insert_all 0 ids m) ≡ 0
total-insert_all [] m e = e
total-insert_all (id ∷ ids) m e =
    total-insert_all ids (insert id 0 m) (omega (arith, e, total-insert id 0 m))

has_key-handed :
    (j : PlayerId) (ids : List PlayerId) (holes : Map (List Card)) (cards : List Card)
    → (if contains j ids then true else has_key j holes) ≡ true
    → has_key j (handed ids holes cards) ≡ true
unfolding handed
has_key-handed j [] holes cards h = h
has_key-handed j (id ∷ ids) holes cards h =
    has_key-handed j ids (insert id (take 2 cards) holes) (drop 2 cards)
      (ground (arith, lookup-insert j id (take 2 cards) holes))

module _ (m : PlayerManager) (seating : IsSeated m) (small : purses m < u64_size)
    (button : PlayerId) (participants : List PlayerId) (cards board : List Card)
    (sat : (j : PlayerId) → contains j participants ≡ true → is_sat j m ≡ true) where
  -- The hand as it is dealt.
  abbrev pub dealt : HandState
  dealt = first_hand button participants (handed participants [] cards) board

  pub dealt_live :
      (j : PlayerId) → contains j participants ≡ true → is_live dealt.player_state j ≡ true
  unfolding first_hand
  dealt_live j inside = ground (arith, lookup-insert_all j active participants [])

  live_dealt : (j : PlayerId) → is_live dealt.player_state j ≡ true → contains j participants ≡ true
  unfolding first_hand
  live_dealt j live = ground (arith, lookup-insert_all j active participants [])

  pub dealt-total : total dealt.committed ≡ 0
  unfolding first_hand
  dealt-total = total-insert_all participants [] refl

  pub dealt-IsHand : IsHand m dealt
  unfolding first_hand
  dealt-IsHand = record {
    seating = seating;
    entries = insert_all-Unique 0 participants [] tt;
    bet_entries = insert_all-Unique 0 participants [] tt;
    backed = λ j h. ground (arith, lookup-insert_all {V = ℕ} j 0 participants []);
    in_play = λ j live.
        let inside = live_dealt j live in
        (has_key-handed j participants [] cards (ground arith), sat j inside, inside);
    covered = λ j. omega arith;
    solvent = omega (arith, dealt-total, small);
  }

  abbrev pub first_round : Round
  first_round = record { players = m; hand = dealt }

  -- Both blinds go through.
  pub post_blinds-Keeps :
      (events : List Event)
      → 2 ≤ length participants
      → Returns (λ s. Keeps first_round s.1) (post_blinds events first_round)
  unfolding post_blinds first_hand
  post_blinds-Keeps events two =
      let (sb_in, bb_in) = positions_inside participants two in
      let sb = (positions participants).0 in
      let bb = (positions participants).1 in
      Returns->>= (λ s. Posts first_round s.1) (λ s. Keeps first_round s.1) _ _
        (post_blind-Posts m dealt sb small_blind events dealt-IsHand (dealt_live sb sb_in))
        (λ s posted.
          Returns->>= (λ s'. Posts s.1 s'.1) (λ s'. Keeps first_round s'.1) _ _
            (post_blind-Posts s.1.players s.1.hand bb big_blind s.0 posted.0.hand
              (posted.1 bb (dealt_live bb bb_in)))
            (λ s' both.
              Keeps-trans posted.0
                (Keeps-trans both.0 (queue-Keeps s'.1.players s'.1.hand both.0.hand _))))
