-- ===== src/Players/Seating/Changes.antt =====
-- engine/src/player_manager.cc: who comes and who goes keeps the invariant of the seats.
use poker_epoll.Base.{
  ℕ, zero, suc, ◌+◌, ◌<◌, ◌≡◌, refl, subst, List, [], ◌∷◌, Option, none, some, true, false, length,
  set, contains, lookup, if◌then◌else◌, arith, replicate, ltb, leb, ◌&&◌, inl, inr, length-set,
  lookup-insert, length-append, Option-cases, Bool-cases,
}
use poker_epoll.Rules.{PlayerId, max_players, buy_in}
use poker_epoll.Players.{
  Player, PlayerManager, new_manager, add_player, remove_player, take_seat, give_up_seat, iota,
  seat_one, seat_all, seat_held_players, add_chips, new_player,
}
use poker_epoll.Players.Seating.{
  IsSeated, sitter, count, count_pos, Distinct, sitter-set, count-append, contains-append,
  contains-drop_first, drop_first-Distinct, append-Distinct, owners-insert, owners-erase,
  owners_pos, owners_two, length-insert_new, length-erase, lookup-erase, insert-Unique,
  erase-Unique,
}

sitter_nobody : (n s : ℕ) → sitter (replicate n none) s ≡ none
sitter_nobody zero s = refl
sitter_nobody (suc n) zero = refl
sitter_nobody (suc n) (suc s) = sitter_nobody n s

-- A seat that is given to a player is a seat of the table.
pub seat_bound :
    (m : PlayerManager) (id s : ℕ) → IsSeated m → lookup id m.index ≡ some s → s < length m.seats
seat_bound m id s v e = ground (arith, v.once s, owners_pos id s m.index e, v.seats_length)

module _ (m : PlayerManager) (id seat : ℕ) (rest : List ℕ) (v : IsSeated m) where
  take_seat-IsSeated :
      m.open_seats ≡ seat ∷ rest
      → lookup id m.index ≡ none
      → IsSeated (take_seat id (seat ∷ rest) m).1
  take_seat-IsSeated open_seats fresh = record {
    seats_length = v.seats_length;
    once = λ s. ground (arith, v.once s, owners-insert s id seat m.index);
    accounted = ground (arith, v.accounted, length-insert_new id seat m.index);
    unique = insert-Unique id seat m.index v.unique;
    held_once = append-Distinct id m.holding v.held_once (ground (arith, v.held_known id));
    held_known = λ j h. ground (
      arith,
      v.held_known j,
      contains-append j m.holding (id ∷ []),
      lookup-insert j id seat m.index,
    );
    placed = λ j s h. ground (
      arith,
      v.placed j s,
      v.vacant seat,
      contains-append j m.holding (id ∷ []),
      lookup-insert j id seat m.index,
    );
    vacant = λ s h. ground (arith, v.vacant s);
    owned = λ s j h. ground (arith, v.owned s j, lookup-insert j id seat m.index);
  }

  give_up_held-IsSeated :
      lookup id m.index ≡ some seat
      → contains id m.holding ≡ true
      → IsSeated (give_up_seat id seat m)
  give_up_held-IsSeated known held = rw held (record {
    seats_length = v.seats_length;
    once = λ s.
        ground (
          arith,
          v.once s,
          owners-erase s id seat m.index,
          count-append s m.open_seats (seat ∷ []),
        );
    accounted =
        ground (
          arith,
          v.accounted,
          length-erase id seat m.index,
          length-append m.open_seats (seat ∷ []),
        );
    unique = erase-Unique id m.index v.unique;
    held_once = drop_first-Distinct id m.holding v.held_once;
    held_known = λ j h. ground (
      arith,
      v.held_known j,
      contains-drop_first id j m.holding v.held_once,
      lookup-erase j id m.index v.unique,
    );
    placed = λ j s h. ground (
      arith,
      v.placed j s,
      contains-drop_first id j m.holding v.held_once,
      lookup-erase j id m.index v.unique,
    );
    vacant = λ s h.
        ground
          (arith, v.vacant s, v.placed id seat known, contains-append s m.open_seats (seat ∷ []));
    owned = λ s j h.
        ground (arith, v.owned s j, v.placed id seat known, lookup-erase j id m.index v.unique);
  })

  give_up_sat-IsSeated :
      lookup id m.index ≡ some seat
      → contains id m.holding ≡ false
      → IsSeated (give_up_seat id seat m)
  give_up_sat-IsSeated known sat = rw sat (record {
    seats_length = ground (arith, v.seats_length, length-set m.seats seat none);
    once = λ s.
        ground (
          arith,
          v.once s,
          owners-erase s id seat m.index,
          count-append s m.open_seats (seat ∷ []),
        );
    accounted =
        ground (
          arith,
          v.accounted,
          length-erase id seat m.index,
          length-append m.open_seats (seat ∷ []),
        );
    unique = erase-Unique id m.index v.unique;
    held_once = v.held_once;
    held_known = λ j h. ground (arith, v.held_known j, lookup-erase j id m.index v.unique);
    placed = λ j s h. ground (
      arith,
      v.placed j s,
      v.placed id seat known,
      lookup-erase j id m.index v.unique,
      sitter-set m.seats seat s none (seat_bound m id seat v known),
    );
    vacant = λ s h. ground (
      arith,
      v.vacant s,
      contains-append s m.open_seats (seat ∷ []),
      sitter-set m.seats seat s none (seat_bound m id seat v known),
    );
    owned = λ s j h. ground (
      arith,
      v.owned s j,
      v.placed id seat known,
      lookup-erase j id m.index v.unique,
      sitter-set m.seats seat s none (seat_bound m id seat v known),
    );
  })

-- The front of `holding` sits down at the seat that it was given.
pub seat_one-known :
    (m : PlayerManager) (id seat : ℕ) (rest : List PlayerId)
    → lookup id m.index ≡ some seat
    → seat_one id rest m ≡ record m {
      holding = rest;
      seats = set m.seats seat (some (add_chips buy_in (new_player id)));
    }
unfolding seat_one
seat_one-known m id seat rest known = ground arith

pub seat_one-IsSeated :
    (m : PlayerManager) (id seat : ℕ) (rest : List PlayerId)
    → IsSeated m
    → m.holding ≡ id ∷ rest
    → lookup id m.index ≡ some seat
    → IsSeated (seat_one id rest m)
unfolding add_chips
seat_one-IsSeated m id seat rest v held known = rw (seat_one-known m id seat rest known) (record {
  seats_length = ground (arith, v.seats_length, length-set m.seats seat newcomer);
  once = v.once;
  accounted = v.accounted;
  unique = v.unique;
  held_once = distinct.1;
  held_known = λ j h. ground (arith, v.held_known j);
  placed = λ j s h. ground (
    arith,
    v.placed j s,
    distinct,
    v.placed id seat known,
    owners_two id j seat m.index known,
    v.once seat,
    sitter-set m.seats seat s newcomer (seat_bound m id seat v known),
  );
  vacant = λ s h. ground (
    arith,
    v.vacant s,
    v.once s,
    owners_pos id seat m.index known,
    count_pos s m.open_seats,
    sitter-set m.seats seat s newcomer (seat_bound m id seat v known),
  );
  owned = λ s j h.
      ground
        (arith, v.owned s j, sitter-set m.seats seat s newcomer (seat_bound m id seat v known));
})
  where
    newcomer : Option Player
    newcomer = some (add_chips buy_in (new_player id))

    distinct : Distinct (id ∷ rest)
    distinct = subst Distinct held v.held_once

seat_all-IsSeated :
    (ids : List PlayerId) (m : PlayerManager)
    → IsSeated m
    → m.holding ≡ ids
    → IsSeated (seat_all ids m) × ((seat_all ids m).holding ≡ [])
unfolding seat_all
seat_all-IsSeated [] m v e = (v, e)
seat_all-IsSeated (id ∷ ids) m v e = elim (Option-cases (lookup id m.index)) [
  | inl unknown ↦ absurd (ground (arith, v.held_known id))
  | inr (seat, known) ↦
      seat_all-IsSeated ids (seat_one id ids m) (seat_one-IsSeated m id seat ids v e known)
        (unfold seat_one in refl)
]

count-iota : (s a n : ℕ) → count s (iota a n) ≡ (if leb a s && ltb s (a + n) then 1 else 0)
count-iota s a zero = ground arith
count-iota s a (suc n) = ground (arith, count-iota s (a + 1) n)

-- The manager that the constructor makes satisfies the invariant.
pub new_manager-IsSeated : IsSeated new_manager
unfolding new_manager
new_manager-IsSeated = record {
  seats_length = refl;
  once = λ s. ground (arith, count-iota s 0 max_players);
  accounted = refl;
  unique = tt;
  held_once = tt;
  held_known = λ id h. cc;
  placed = λ id s h. cc;
  vacant = λ s h. sitter_nobody max_players s;
  owned = λ s id h. cc (sitter_nobody max_players s);
}

-- Adding a player who is not at the table keeps the invariant, also when the table is full.
pub add_player-IsSeated :
    (id : PlayerId) (m : PlayerManager)
    → IsSeated m
    → lookup id m.index ≡ none
    → IsSeated (add_player id m).1
unfolding add_player
add_player-IsSeated id m v fresh = cases m.open_seats refl
  where
    cases : (xs : List ℕ) → m.open_seats ≡ xs → IsSeated (take_seat id xs m).1
    cases [] e = v
    cases (seat ∷ rest) e = take_seat-IsSeated m id seat rest v e fresh

-- Removing a player keeps the invariant, whether they are held, seated or unknown.
pub remove_player-IsSeated :
    (id : PlayerId) (m : PlayerManager) → IsSeated m → IsSeated (remove_player id m).1
unfolding remove_player
remove_player-IsSeated id m v = elim (Option-cases (lookup id m.index)) [
  | inl unknown ↦ rw (unknown, remove_player) v
  | inr (seat, known) ↦
      rw (known, remove_player)
        (elim (Bool-cases (contains id m.holding)) [
          | inl held ↦ give_up_held-IsSeated m id seat [] v known held
          | inr sat ↦ give_up_sat-IsSeated m id seat [] v known sat
        ])
]

-- After `seat_held_players` the invariant holds and nobody is held.
pub seat_held_players-IsSeated :
    (m : PlayerManager)
    → IsSeated m
    → IsSeated (seat_held_players m) × ((seat_held_players m).holding ≡ [])
unfolding seat_held_players
seat_held_players-IsSeated m v = seat_all-IsSeated m.holding m v refl
