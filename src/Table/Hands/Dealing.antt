-- ===== src/Table/Hands/Dealing.antt =====
-- engine/src/table.cc, `deal_cards`: which cards go where.
use poker_epoll.Base.{
  ℕ, zero, suc, ◌+◌, ◌*◌, ◌≤◌, ◌≡◌, refl, List, [], ◌∷◌, length, take, drop, Map, insert, done,
  arith, value,
}
use poker_epoll.Rules.{PlayerId}
use poker_epoll.Cards.{Card}
use poker_epoll.Cards.Deck.{Deck, deal, deal_hole, deal_board, shuffle}
use poker_epoll.Table.Environment.{Env}
use poker_epoll.Table.{live}
use poker_epoll.Table.Hands.{deal_holes, deal_cards}

-- Two cards for each of the players, from the top.
unfoldable pub handed : List PlayerId → Map (List Card) → List Card → Map (List Card)
handed [] holes cards = holes
handed (id ∷ ids) holes cards = handed ids (insert id (take 2 cards) holes) (drop 2 cards)

drop-drop : (a b : ℕ) (cards : List Card) → drop a (drop b cards) ≡ drop (b + a) cards
drop-drop a zero cards = ground arith
drop-drop zero (suc b) [] = let e : suc b + 0 ≡ suc (b + 0) = omega arith in rw e refl
drop-drop (suc a) (suc b) [] = let e : suc b + suc a ≡ suc (b + suc a) = omega arith in rw e refl
drop-drop a (suc b) (c ∷ cards) =
    let e : suc b + a ≡ suc (b + a) = omega arith in rw e (drop-drop a b cards)

deal_hole_lem :
    (d : Deck)
    → d.next + 2 ≤ 52
    → deal_hole d ≡ (value (take 2 (drop d.next d.cards)), record d { next = d.next + 2 })
unfolding deal_hole deal
deal_hole_lem d room = ground arith

deal_board_lem :
    (d : Deck)
    → d.next + 5 ≤ 52
    → deal_board d ≡ (value (take 5 (drop d.next d.cards)), record d { next = d.next + 5 })
unfolding deal_board deal
deal_board_lem d room = ground arith

deal_holes_lem :
    (ids : List PlayerId) (holes : Map (List Card)) (cards : List Card) (next : ℕ)
    → next + length ids * 2 ≤ 52
    → deal_holes ids holes (record { cards = cards; next = next })
      ≡ done (
        handed ids holes (drop next cards),
        record { cards = cards; next = next + length ids * 2 },
      )
unfolding deal_holes handed
deal_holes_lem [] holes cards next room = ground arith
deal_holes_lem (id ∷ ids) holes cards next room = ground (
  arith,
  deal_hole_lem (record { cards = cards; next = next }) (omega arith),
  deal_holes_lem ids (insert id (take 2 (drop next cards)) holes) cards (next + 2) (omega arith),
  drop-drop 2 next cards,
)

-- Dealing to at most 23 participants with an engine that lives does not fail: after the shuffle, the button and the others get
-- two cards each from the top, in order, and the board gets the next five.
pub deal_cards_lem :
    (env : Env) (button first : PlayerId) (others : List PlayerId) (rng : ℕ) (d : Deck)
    → length others ≤ 22
    → let cards = (env.shuffler rng d.cards).0 in
      let dealt = suc (length others) * 2 in
      deal_cards env button (first ∷ others) (live rng) d
      ≡ done (
        handed (button ∷ others) [] cards,
        take 5 (drop dealt cards),
        record { cards = cards; next = dealt + 5 },
        live (env.shuffler rng d.cards).1,
      )
unfolding deal_cards shuffle
deal_cards_lem env button first others rng d few =
    let cards = (env.shuffler rng d.cards).0 in
    let dealt : ℕ = suc (length others) * 2 in
    let e : 0 + dealt ≡ dealt = omega arith in
    rw
      (
        deal_cards,
        deal_holes_lem (button ∷ others) [] cards 0 (omega arith),
        deal_board_lem (record { cards = cards; next = 0 + length (button ∷ others) * 2 })
            (omega arith),
        e,
      )
      refl
