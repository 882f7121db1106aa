-- ===== src/Table/Turns/Rings.antt =====
-- engine/src/table.cc, `build_turn_queue` and `first_active_after`: they go once round the table.
use native.Mathlib.Nat.{mod-eq_of_lt, add-mod_right}
use mathlib.Core.List.{append_assoc, append-nil}
use poker_epoll.Base.{
  ℕ, zero, suc, ◌+◌, ◌%◌, ◌<◌, ◌≡◌, ◌⊎◌, inl, inr, refl, ap, sym, ◌∙◌, List, [], ◌∷◌, ◌++◌, some,
  false, length, length-append, contains, get_or, keep_if, arith,
}
use poker_epoll.Rules.{PlayerId}
use poker_epoll.Table.{HandState}
use poker_epoll.Table.Turns.{
  offset_of, ring, build_turn_queue, first_active, first_active_after, is_active,
}

-- The index `k`, once round the table or not.
IsIndex : ℕ → ℕ → ℕ → Type 0
IsIndex at k n = (at ≡ k) ⊎ (at ≡ k + n)

index_mod : (at k n : ℕ) → k < n → IsIndex at k n → at % n ≡ k
unfolding IsIndex
index_mod at k n h (inl e) = ap (λ x. x % n) e ∙ mod-eq_of_lt h
index_mod at k n h (inr e) = ap (λ x. x % n) e ∙ (add-mod_right k n ∙ mod-eq_of_lt h)

get_or-append : (a : List ℕ) (x : ℕ) (b : List ℕ) → get_or (a ++ x ∷ b) (length a) 0 ≡ x
get_or-append [] x b = refl
get_or-append (y ∷ a) x b = get_or-append a x b

-- The players from one place at the table to another.
ring_part :
    (a b c : List PlayerId) (offset i : ℕ)
    → IsIndex (offset + i) (length a) (length (a ++ (b ++ c)))
    → ring (a ++ (b ++ c)) offset (length b) i ≡ b
unfolding ring IsIndex
ring_part a [] c offset i h = refl
ring_part a (x ∷ b) c offset i h =
    let ps = a ++ (x ∷ (b ++ c)) in
    let size : length ps ≡ length a + suc (length b + length c) =
      length-append a (x ∷ (b ++ c)) ∙ ap (λ n. length a + suc n) (length-append b c) in
    let at : (offset + i) % length ps ≡ length a =
      index_mod (offset + i) (length a) (length ps) (omega (arith, size)) h in
    let shift : (a ++ x ∷ []) ++ (b ++ c) ≡ ps = append_assoc a (x ∷ []) (b ++ c) in
    let later = ring_part (a ++ x ∷ []) b c offset (i + 1) (moved h shift) in
    ap (λ k. get_or ps k 0 ∷ ring ps offset (length b) (i + 1)) at
    ∙ (ap (λ y. y ∷ ring ps offset (length b) (i + 1)) (get_or-append a x (b ++ c))
        ∙ ap (◌∷◌ x) (sym (ap (λ qs. ring qs offset (length b) (i + 1)) shift) ∙ later))
  where
    moved :
        IsIndex (offset + i) (length a) (length (a ++ (x ∷ (b ++ c))))
        → (a ++ x ∷ []) ++ (b ++ c) ≡ a ++ (x ∷ (b ++ c))
        → IsIndex (offset + (i + 1)) (length (a ++ x ∷ [])) (length ((a ++ x ∷ []) ++ (b ++ c)))
    moved h shift =
        let one_more = length-append a (x ∷ []) in
        let same : length ((a ++ x ∷ []) ++ (b ++ c)) ≡ length (a ++ (x ∷ (b ++ c))) =
          ap {B = ℕ} length shift in
        elim h [
          | inl e ↦ inl (omega (arith, e, one_more))
          | inr e ↦ inr (omega (arith, e, one_more, same))
        ]

ring_split :
    (ps : List PlayerId) (offset n r q i : ℕ)
    → n ≡ r + q
    → ring ps offset n i ≡ ring ps offset r i ++ ring ps offset q (i + r)
unfolding ring
ring_split ps offset n zero q i e =
    let same : n ≡ q = omega (arith, e) in
    ap (λ k. ring ps offset k i) same ∙ ap (λ k. ring ps offset q k) (omega arith)
ring_split ps offset zero (suc r) q i e = absurd (omega (arith, e))
ring_split ps offset (suc n) (suc r) q i e = ap (◌∷◌ (get_or ps ((offset + i) % length ps) 0)) (
    ring_split ps offset n r q (i + 1) (omega (arith, e))
    ∙ ap (λ k. ring ps offset r (i + 1) ++ ring ps offset q k) (omega arith))

offset_of_lem :
    (before after : List PlayerId) (start : PlayerId)
    → contains start before ≡ false
    → offset_of start (before ++ start ∷ after) ≡ some (length before)
unfolding offset_of
offset_of_lem [] after start h = ground arith
offset_of_lem (x ∷ before) after start h = ground (arith, offset_of_lem before after start)

-- Once round the table, from a participant on.
ring_round :
    (before after : List PlayerId) (start : PlayerId)
    → ring (before ++ start ∷ after) (length before) (length (before ++ start ∷ after)) 0
      ≡ (start ∷ after) ++ before
unfolding IsIndex
ring_round before after start =
    let ps = before ++ start ∷ after in
    let n = length (start ∷ after) in
    let size : length ps ≡ length before + n = length-append before (start ∷ after) in
    let none_after : before ++ ((start ∷ after) ++ []) ≡ ps =
      ap (λ x. before ++ x) (append-nil (start ∷ after)) in
    let first : ring ps (length before) n 0 ≡ start ∷ after =
      sym (ap (λ qs. ring qs (length before) n 0) none_after)
      ∙ ring_part before (start ∷ after) [] (length before) 0 (inl (omega arith)) in
    let second : ring ps (length before) (length before) (0 + n) ≡ before =
      ring_part [] before (start ∷ after) (length before) (0 + n) (inr (omega (arith, size))) in
    ring_split ps (length before) (length ps) n (length before) 0 (omega (arith, size))
    ∙ (ap (λ x. x ++ ring ps (length before) (length before) (0 + n)) first
        ∙ ap (λ y. (start ∷ after) ++ y) second)

-- From a participant, the queue has the active players who come next at the table, from that participant on
-- and once round, each in its place.
pub build_turn_queue_lem :
    (h : HandState) (before after : List PlayerId) (start : PlayerId)
    → h.participants ≡ before ++ start ∷ after
    → contains start before ≡ false
    → build_turn_queue start h ≡ keep_if (is_active h.player_state) ((start ∷ after) ++ before)
unfolding build_turn_queue IsIndex
build_turn_queue_lem h before after start e first =
    let found : offset_of start h.participants ≡ some (length before) =
      ap (offset_of start) e ∙ offset_of_lem before after start first in
    rw (found, build_turn_queue)
      (ap (keep_if (is_active h.player_state))
        (ap (λ ps. ring ps (length before) (length ps) 0) e ∙ ring_round before after start))

-- Once round the table, from the one after a participant on.
ring_after :
    (before after : List PlayerId) (start : PlayerId)
    → ring (before ++ start ∷ after) (length before) (length (before ++ start ∷ after)) 1
      ≡ after ++ (before ++ start ∷ [])
unfolding IsIndex
ring_after before after start =
    let ps = before ++ start ∷ after in
    let front = before ++ start ∷ [] in
    let n = length after in
    let size : length ps ≡ length before + suc n = length-append before (start ∷ after) in
    let one_more : length front ≡ length before + 1 = length-append before (start ∷ []) in
    let shift : front ++ after ≡ ps = append_assoc before (start ∷ []) after in
    let same : length (front ++ after) ≡ length ps = ap {B = ℕ} length shift in
    let none_after : front ++ (after ++ []) ≡ ps =
      ap (λ x. front ++ x) (append-nil after) ∙ shift in
    let first : ring ps (length before) n 1 ≡ after =
      sym (ap (λ qs. ring qs (length before) n 1) none_after)
      ∙ ring_part front after [] (length before) 1 (inl (omega (arith, one_more))) in
    let second : ring ps (length before) (length front) (1 + n) ≡ front =
      sym (ap (λ qs. ring qs (length before) (length front) (1 + n)) shift)
      ∙ ring_part [] front after (length before) (1 + n) (inr (omega (arith, size, same))) in
    ring_split ps (length before) (length ps) n (length front) 1 (omega (arith, size, one_more))
    ∙ (ap (λ x. x ++ ring ps (length before) (length front) (1 + n)) first
        ∙ ap (λ y. after ++ y) second)

-- The next active player after a participant is the first active one of those who come next at the table,
-- the participant last.
pub first_active_after_lem :
    (h : HandState) (before after : List PlayerId) (start : PlayerId)
    → h.participants ≡ before ++ start ∷ after
    → contains start before ≡ false
    → first_active_after start h ≡ first_active h.player_state (after ++ (before ++ start ∷ []))
unfolding first_active_after
first_active_after_lem h before after start e first =
    let found : offset_of start h.participants ≡ some (length before) =
      ap (offset_of start) e ∙ offset_of_lem before after start first in
    rw (found, first_active_after)
      (ap (first_active h.player_state)
        (ap (λ ps. ring ps (length before) (length ps) 1) e ∙ ring_after before after start))
