-- ===== src/Table/Invariant/Keeping.antt =====
-- What a step of a hand keeps: the invariant, the players, the participants and the chips. The two
-- ways in which the handlers of engine/src/table.cc change a hand keep it.
use poker_epoll.Base.{
  ℕ, ◌+◌, ◌-◌, ◌≤◌, ◌≡◌, ap, ◌∙◌, some, true, Map, lookup, lookup_or, insert, touch, contains,
  lookup-insert, total, total-insert, ◌==◌, arith, if◌then◌else◌,
}
use poker_epoll.Rules.{PlayerId, Chips}
use poker_epoll.Players.{Player, PlayerManager, seated}
use poker_epoll.Players.Seating.{Unique, insert-Unique}
use poker_epoll.Players.Purses.{
  purses, Repursed, Kept, Kept-refl, Kept-trans, Repursed-Kept, seated_id,
}
use poker_epoll.Table.{HandState, Round, PlayerState}
use poker_epoll.Table.Turns.{is_live}
use poker_epoll.Table.Invariant.{IsHand}

-- What an action makes of the round: the invariant and all chips are kept.
pub record Keeps (r r' : Round) : Type 0 where
  pub hand : IsHand r'.players r'.hand
  pub players : Kept r.players r'.players
  pub same_participants : r'.hand.participants ≡ r.hand.participants
  pub chips :
      purses r'.players + total r'.hand.committed ≡ purses r.players + total r.hand.committed

pub lookup_or-touch : (j k : ℕ) (m : Map Chips) → lookup_or j 0 (touch k 0 m) ≡ lookup_or j 0 m
lookup_or-touch j k m = ground (arith, lookup-insert j k 0 m)

pub is_live-insert :
    (states : Map PlayerState) (id j : PlayerId) (s : PlayerState)
    → is_live states id ≡ true
    → is_live (insert id s states) j ≡ true
    → is_live states j ≡ true
is_live-insert states id j s live h =
    ground (arith, lookup-insert j id s states, λ (q : j ≡ id). ap (is_live states) q)

-- Chips go from the purse of `p` into the hand.
pub put_in-Keeps :
    (m m' : PlayerManager) (h h' : HandState) (id : PlayerId) (p : Player) (amount : Chips)
    → IsHand m h
    → seated id m ≡ some p
    → amount ≤ p.purse
    → Repursed m m' p (p.purse - amount)
    → contains id h.participants ≡ true
    → h'.committed ≡ insert id (lookup_or id 0 h.committed + amount) h.committed
    → h'.active_bets ≡ insert id (lookup_or id 0 h.active_bets + amount) h.active_bets
    → h'.participants ≡ h.participants
    → h'.player_holes ≡ h.player_holes
    → ((j : PlayerId) → is_live h'.player_state j ≡ true → is_live h.player_state j ≡ true)
    → Keeps (record { players = m; hand = h }) (record { players = m'; hand = h' })
put_in-Keeps m m' h h' id p amount v e covers r inside e_committed e_bets e_participants e_holes
      live =
    record {
      hand = record {
        seating = r.seating;
        entries =
            rw e_committed
              (insert-Unique id (lookup_or id 0 h.committed + amount) h.committed v.entries);
        bet_entries =
            rw e_bets (
              insert-Unique id (lookup_or id 0 h.active_bets + amount) h.active_bets v.bet_entries);
        backed = λ j k. ground (
          arith,
          v.backed j,
          committed_at j,
          participants_at j,
          inside,
          λ (q : j ≡ id). ap (λ i. contains i h.participants) q,
        );
        in_play = λ j k.
            let (hole, sat, part) = v.in_play j (live j k) in
            (rw e_holes hole, kept.sat j ∙ sat, participants_at j ∙ part);
        covered = λ j. ground (
          arith,
          v.covered j,
          v.covered id,
          committed_at j,
          bets_at j,
          λ (q : j ≡ id). ap (λ i. lookup i h.committed) q,
        );
        solvent = omega (arith, all, v.solvent);
      };
      players = kept;
      same_participants = e_participants;
      chips = all;
    }
  where
    kept : Kept m m'
    kept = Repursed-Kept m m' id p (p.purse - amount) e (seated_id m id p v.seating e) r

    committed_at :
        (j : PlayerId)
        → lookup j h'.committed
          ≡ (if j == id then some (lookup_or id 0 h.committed + amount) else lookup j h.committed)
    committed_at j =
        ap (lookup j) e_committed
        ∙ lookup-insert j id (lookup_or id 0 h.committed + amount) h.committed

    bets_at :
        (j : PlayerId)
        → lookup j h'.active_bets ≡ (
            if j == id
            then some (lookup_or id 0 h.active_bets + amount)
            else lookup j h.active_bets)
    bets_at j =
        ap (lookup j) e_bets
        ∙ lookup-insert j id (lookup_or id 0 h.active_bets + amount) h.active_bets

    participants_at : (j : PlayerId) → contains j h'.participants ≡ contains j h.participants
    participants_at j = ap (contains j) e_participants

    all : purses m' + total h'.committed ≡ purses m + total h.committed
    all = rw e_committed (
        omega (arith, r.balance, total-insert id (lookup_or id 0 h.committed + amount) h.committed))

-- No chips move: the hand is noted otherwise, and nobody comes back into it.
pub relabel-Keeps :
    (m : PlayerManager) (h h' : HandState)
    → IsHand m h
    → h'.committed ≡ h.committed
    → h'.participants ≡ h.participants
    → h'.player_holes ≡ h.player_holes
    → Unique h'.active_bets
    → ((j : PlayerId) → lookup_or j 0 h'.active_bets ≤ lookup_or j 0 h.active_bets)
    → ((j : PlayerId) → is_live h'.player_state j ≡ true → is_live h.player_state j ≡ true)
    → Keeps (record { players = m; hand = h }) (record { players = m; hand = h' })
relabel-Keeps m h h' v e_committed e_participants e_holes unique bets live = record {
  hand = record {
    seating = v.seating;
    entries = rw e_committed v.entries;
    bet_entries = unique;
    backed = λ j k. rw e_participants (v.backed j (rw e_committed at k));
    in_play = λ j k.
        let (hole, sat, part) = v.in_play j (live j k) in
        (rw e_holes hole, sat, rw e_participants part);
    covered = λ j. ground (arith, v.covered j, bets j, ap (lookup j) e_committed);
    solvent = rw e_committed v.solvent;
  };
  players = Kept-refl m v.seating;
  same_participants = e_participants;
  chips = ground (arith, ap total e_committed);
}

pub Keeps-trans : {r s t : Round} → Keeps r s → Keeps s t → Keeps r t
Keeps-trans k l = record {
  hand = l.hand;
  players = Kept-trans k.players l.players;
  same_participants = l.same_participants ∙ k.same_participants;
  chips = l.chips ∙ k.chips;
}
