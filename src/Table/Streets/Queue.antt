-- ===== src/Table/Streets/Queue.antt =====
-- engine/src/table.cc, `handle_new_street`: who has a turn on the next street, and in what order.
use mathlib.Core.List.{append_assoc, append-nil}
use poker_epoll.Base.{
  ℕ, ◌≡◌, refl, ap, sym, subst, ◌∙◌, List, [], ◌∷◌, ◌++◌, none, some, true, false, Map, contains,
  keep_if, ◌==◌, arith, Option-cases, Bool-cases, inl, inr,
}
use poker_epoll.Rules.{PlayerId}
use poker_epoll.Players.Seating.{Distinct}
use poker_epoll.Table.{HandState, PlayerState}
use poker_epoll.Table.Turns.{is_active, prune, prune_turn_queue, first_active, first_active_after}
use poker_epoll.Table.Turns.Rings.{build_turn_queue_lem, first_active_after_lem}
use poker_epoll.Table.Streets.{seat_street}

actives-append :
    (states : Map PlayerState) (xs ys : List PlayerId)
    → keep_if (is_active states) (xs ++ ys)
      ≡ keep_if (is_active states) xs ++ keep_if (is_active states) ys
actives-append states [] ys = refl
actives-append states (x ∷ xs) ys = ground (arith, actives-append states xs ys)

-- The first active one of a list, and who stands before and after.
record Split (states : Map PlayerState) (ids : List PlayerId) (id : PlayerId) : Type 0 where
  before : List PlayerId
  after : List PlayerId
  parts : ids ≡ before ++ id ∷ after
  idle : keep_if (is_active states) before ≡ []
  absent : contains id before ≡ false
  first : is_active states id ≡ true

first_active-Split :
    (states : Map PlayerState) (ids : List PlayerId) (id : PlayerId)
    → first_active states ids ≡ some id
    → Split states ids id
unfolding first_active
first_active-Split states [] id e = absurd (ground (arith, e))
first_active-Split states (x ∷ ids) id e = elim (Bool-cases (is_active states x)) [
  | inl active ↦
      let same : x ≡ id = ground (arith, e, active) in
      record {
        before = [];
        after = ids;
        parts = ap (λ y. y ∷ ids) same;
        idle = refl;
        absent = refl;
        first = subst (λ y. is_active states y ≡ true) same active;
      }
  | inr asleep ↦
      let split = first_active-Split states ids id (ground (arith, e, asleep)) in
      let other : (x == id) ≡ false =
        ground (arith, asleep, split.first, λ (q : x ≡ id). ap (is_active states) q) in
      record {
        before = x ∷ split.before;
        after = split.after;
        parts = ap (◌∷◌ x) split.parts;
        idle = ground (arith, asleep, split.idle);
        absent = ground (arith, other, split.absent);
        first = split.first;
      }
]

first_active-none :
    (states : Map PlayerState) (ids : List PlayerId)
    → first_active states ids ≡ none
    → keep_if (is_active states) ids ≡ []
unfolding first_active
first_active-none states [] e = refl
first_active-none states (x ∷ ids) e = ground (arith, first_active-none states ids)

-- The active players alone need no pruning.
prune_actives :
    (states : Map PlayerState) (ids : List PlayerId)
    → prune states (keep_if (is_active states) ids) ≡ keep_if (is_active states) ids
unfolding prune
prune_actives states [] = refl
prune_actives states (x ∷ ids) = ground (arith, prune_actives states ids)

-- Whoever comes later in a list without repetition is not among those before.
later_absent :
    (xs ys : List PlayerId) (id : PlayerId) → Distinct (xs ++ id ∷ ys) → contains id xs ≡ false
later_absent [] ys id d = refl
later_absent (x ∷ xs) ys id (fresh, d) =
    ground (arith, later_absent xs ys id d, contains_middle x xs ys id, fresh)
  where
    contains_middle :
        (x : ℕ) (xs ys : List ℕ) (id : ℕ) → contains x (xs ++ id ∷ ys) ≡ false → (id == x) ≡ false
    contains_middle x [] ys id h = ground arith
    contains_middle x (y ∷ xs) ys id h = contains_middle x xs ys id (ground arith)

-- The idle players make no difference, wherever they stand.
module _ (states : Map PlayerState) where
  abbrev kept : List PlayerId → List PlayerId
  kept ids = keep_if (is_active states) ids

  idle_after : (b : PlayerId) (x : List PlayerId) → kept x ≡ [] → kept (b ∷ x) ≡ kept (b ∷ [])
  idle_after b x idle = ground (arith, idle)

  turn_after :
      (x y before : List PlayerId) (id b : PlayerId)
      → kept x ≡ []
      → kept ((id ∷ y) ++ (before ++ b ∷ x)) ≡ kept ((x ++ id ∷ y) ++ (before ++ b ∷ []))
  turn_after x y before id b idle = cc (
    actives-append states (id ∷ y) (before ++ b ∷ x),
    actives-append states before (b ∷ x),
    actives-append states before (b ∷ []),
    actives-append states (x ++ id ∷ y) (before ++ b ∷ []),
    actives-append states x (id ∷ y),
    idle,
  )

  turn_before :
      (x y after : List PlayerId) (id b : PlayerId)
      → kept x ≡ []
      → kept after ≡ []
      → kept ((id ∷ (y ++ b ∷ after)) ++ x) ≡ kept (after ++ ((x ++ id ∷ y) ++ b ∷ []))
  turn_before x y after id b idle idle' = cc (
    actives-append states (id ∷ (y ++ b ∷ after)) x,
    actives-append states (id ∷ y) (b ∷ after),
    append-nil (kept (id ∷ (y ++ b ∷ after))),
    actives-append states after ((x ++ id ∷ y) ++ b ∷ []),
    actives-append states (x ++ id ∷ y) (b ∷ []),
    actives-append states x (id ∷ y),
    idle,
    idle',
  )

  turn_button :
      (before after : List PlayerId) (b : PlayerId)
      → kept before ≡ []
      → kept after ≡ []
      → kept ((b ∷ after) ++ before) ≡ kept (after ++ (before ++ b ∷ []))
  turn_button before after b idle idle' = cc (
    actives-append states (b ∷ after) before,
    idle_after b after idle',
    append-nil (kept (b ∷ after)),
    actives-append states after (before ++ b ∷ []),
    actives-append states before (b ∷ []),
    idle,
    idle',
  )

first_active-append :
    (states : Map PlayerState) (xs ys : List PlayerId)
    → first_active states (xs ++ ys)
      ≡ elim (first_active states xs) [ none ↦ first_active states ys | some id ↦ some id ]
unfolding first_active
first_active-append states [] ys = refl
first_active-append states (x ∷ xs) ys = ground (arith, first_active-append states xs ys)

module _ (h : HandState) (before after : List PlayerId)
    (cut : h.participants ≡ before ++ h.button ∷ after) (once : Distinct h.participants) where
  -- Those who come after the button, the button last.
  abbrev pub from_button : List PlayerId
  from_button = after ++ (before ++ h.button ∷ [])

  abbrev pub actives : List PlayerId → List PlayerId
  actives ids = keep_if (is_active h.player_state) ids

  button_later : contains h.button before ≡ false
  button_later = later_absent before after h.button (subst Distinct cut once)

  starts :
      (id : PlayerId) (b a : List PlayerId)
      → first_active h.player_state from_button ≡ some id
      → h.participants ≡ b ++ id ∷ a
      → actives ((id ∷ a) ++ b) ≡ actives from_button
      → (seat_street h).turn_queue ≡ actives from_button
  unfolding seat_street prune_turn_queue
  starts id b a found parts same =
      let absent = later_absent b a id (subst Distinct parts once) in
      let first : first_active_after h.button h ≡ some id =
        first_active_after_lem h before after h.button cut button_later ∙ found in
      rw (first, seat_street)
        (ap (prune h.player_state) (build_turn_queue_lem h b a id parts absent ∙ same)
          ∙ prune_actives h.player_state from_button)

  nobody_starts :
      first_active h.player_state from_button ≡ none
      → (seat_street h).turn_queue ≡ actives from_button
  unfolding seat_street prune_turn_queue prune
  nobody_starts none_found =
      let first : first_active_after h.button h ≡ none =
        first_active_after_lem h before after h.button cut button_later ∙ none_found in
      rw (first, seat_street) (sym (first_active-none h.player_state from_button none_found))

  after_starts :
      (id : PlayerId)
      → first_active h.player_state after ≡ some id
      → (seat_street h).turn_queue ≡ actives from_button
  after_starts id found =
      let split = first_active-Split h.player_state after id found in
      let x = split.before in
      let y = split.after in
      let e = first_active-append h.player_state after (before ++ h.button ∷ []) in
      let parts : h.participants ≡ (before ++ h.button ∷ x) ++ id ∷ y =
        (cut ∙ ap (λ q. before ++ h.button ∷ q) split.parts)
        ∙ sym (append_assoc before (h.button ∷ x) (id ∷ y)) in
      starts id (before ++ h.button ∷ x) y (ground (arith, e, found)) parts (
        turn_after h.player_state x y before id h.button split.idle
        ∙ ap (λ q. actives (q ++ (before ++ h.button ∷ []))) (sym split.parts))

  before_starts :
      (id : PlayerId)
      → first_active h.player_state after ≡ none
      → first_active h.player_state before ≡ some id
      → (seat_street h).turn_queue ≡ actives from_button
  before_starts id none_after found =
      let split = first_active-Split h.player_state before id found in
      let x = split.before in
      let y = split.after in
      let e = first_active-append h.player_state after (before ++ h.button ∷ []) in
      let e' = first_active-append h.player_state before (h.button ∷ []) in
      let none_active = first_active-none h.player_state after none_after in
      let parts : h.participants ≡ x ++ id ∷ (y ++ h.button ∷ after) =
        (cut ∙ ap (λ q. q ++ h.button ∷ after) split.parts)
        ∙ append_assoc x (id ∷ y) (h.button ∷ after) in
      starts id x (y ++ h.button ∷ after) (ground (arith, e, e', found)) parts (
        turn_before h.player_state x y after id h.button split.idle none_active
        ∙ ap (λ q. actives (after ++ (q ++ h.button ∷ []))) (sym split.parts))

  button_starts :
      first_active h.player_state after ≡ none
      → first_active h.player_state before ≡ none
      → (seat_street h).turn_queue ≡ actives from_button
  unfolding first_active
  button_starts none_after none_before =
      let e = first_active-append h.player_state after (before ++ h.button ∷ []) in
      let e' = first_active-append h.player_state before (h.button ∷ []) in
      let none_active = first_active-none h.player_state after none_after in
      let none_active' = first_active-none h.player_state before none_before in
      elim (Bool-cases (is_active h.player_state h.button)) [
        | inl active ↦
            starts h.button before after (ground (arith, e, e', none_after, none_before, active))
              cut (turn_button h.player_state before after h.button none_active' none_active)
        | inr idle ↦ nobody_starts (ground (arith, e, e', none_after, none_before, idle))
      ]

  -- The queue of a street has the active players who come after the button, the button last.
  seat_street-queue : (seat_street h).turn_queue ≡ actives from_button
  seat_street-queue = elim (Option-cases (first_active h.player_state after)) [
    | inr (id, found) ↦ after_starts id found
    | inl none_after ↦ elim (Option-cases (first_active h.player_state before)) [
      | inr (id, found) ↦ before_starts id none_after found
      | inl none_before ↦ button_starts none_after none_before
    ]
  ]

  pub seat_street_lem : seat_street h ≡ record h { turn_queue = actives from_button }
  unfolding seat_street prune_turn_queue
  seat_street_lem = only_queue ∙ ap (λ q. record h { turn_queue = q }) seat_street-queue
    where
      only_queue : seat_street h ≡ record h { turn_queue = (seat_street h).turn_queue }
      only_queue = elim (Option-cases (first_active_after h.button h)) [
        | inl nobody ↦ rw (nobody, seat_street) refl
        | inr (id, found) ↦ rw (found, seat_street) refl
      ]
