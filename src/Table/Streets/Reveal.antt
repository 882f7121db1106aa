-- ===== src/Table/Streets/Reveal.antt =====
-- engine/src/table.cc, `reveal_remaining_board`: the loop ends, and shows the streets that are left.
use mathlib.Core.List.{append_assoc, append-nil}
use poker_epoll.Base.{◌≡◌, refl, ap, ◌∙◌, List, [], ◌∷◌, ◌++◌, done, arith}
use poker_epoll.Cards.{Card}
use poker_epoll.Table.{
  Phase, holding, preflop, flop, turn, river, showdown, HandState, Event, phase_advanced,
  dealt_flop, dealt_street,
}
use poker_epoll.Table.Streets.{next_phase, street_events, reveal_loop, reveal_remaining_board}

-- The streets that a phase has before it.
abbrev pub streets_left : Phase → List Phase
streets_left preflop = flop ∷ turn ∷ river ∷ []
streets_left flop = turn ∷ river ∷ []
streets_left turn = river ∷ []
streets_left p = []

abbrev pub last_street : Phase → Phase
last_street preflop = river
last_street flop = river
last_street turn = river
last_street p = p

abbrev pub shown : List Phase → List Card → List Event
shown [] board = []
shown (p ∷ ps) board = street_events p board ++ shown ps board

reveal_from :
    (p : Phase) (events : List Event) (h : HandState)
    → h.phase ≡ p
    → reveal_remaining_board events h
      ≡ done (events ++ shown (streets_left p) h.table_cards, record h { phase = last_street p })
unfolding reveal_remaining_board reveal_loop next_phase street_events
reveal_from preflop events h e =
    let board = h.table_cards in
    ground (
      arith,
      append_assoc (events ++ street_events flop board) (street_events turn board)
          (street_events river board),
      append_assoc events (street_events flop board)
          (street_events turn board ++ street_events river board),
    )
reveal_from flop events h e =
    let board = h.table_cards in
    ground (arith, append_assoc events (street_events turn board) (street_events river board))
reveal_from turn events h e = ground arith
reveal_from river events h e = ground (arith, append-nil events)
reveal_from showdown events h e = ground (arith, append-nil events)
reveal_from holding events h e = ground (arith, append-nil events)

-- The loop ends at the last street, with what is shown of the streets that are left.
pub reveal_remaining_board_done :
    (events : List Event) (h : HandState)
    → reveal_remaining_board events h
      ≡ done (
        events ++ shown (streets_left h.phase) h.table_cards,
        record h { phase = last_street h.phase },
      )
reveal_remaining_board_done events h = reveal_from h.phase events h refl

-- What is told of a board of five cards from a phase on: the three cards of the flop, then the fourth,
-- then the fifth, each behind its phase.
abbrev pub told_from : Phase → Card → Card → Card → Card → Card → List Event
told_from preflop a b c d e =
    phase_advanced flop
    ∷ dealt_flop (a ∷ b ∷ c ∷ [])
    ∷ phase_advanced turn
    ∷ dealt_street d
    ∷ phase_advanced river
    ∷ dealt_street e
    ∷ []
told_from flop a b c d e =
    phase_advanced turn ∷ dealt_street d ∷ phase_advanced river ∷ dealt_street e ∷ []
told_from turn a b c d e = phase_advanced river ∷ dealt_street e ∷ []
told_from p a b c d e = []

told_shown :
    (p : Phase) (a b c d e : Card)
    → shown (streets_left p) (a ∷ b ∷ c ∷ d ∷ e ∷ []) ≡ told_from p a b c d e
unfolding street_events
told_shown preflop a b c d e = refl
told_shown flop a b c d e = refl
told_shown turn a b c d e = refl
told_shown river a b c d e = refl
told_shown showdown a b c d e = refl
told_shown holding a b c d e = refl

-- On a board of five cards the loop ends. Before the flop it adds the flop with the first three cards,
-- the turn with the fourth and the river with the fifth, and so on from the flop and from the turn; the
-- phase is the river then, and nothing else of the hand changes. Elsewhere it changes nothing.
pub reveal_remaining_board_lem :
    (events : List Event) (h : HandState) (a b c d e : Card)
    → h.table_cards ≡ a ∷ b ∷ c ∷ d ∷ e ∷ []
    → reveal_remaining_board events h
      ≡ done (events ++ told_from h.phase a b c d e, record h { phase = last_street h.phase })
reveal_remaining_board_lem events h a b c d e board =
    reveal_remaining_board_done events h
    ∙ ap (λ tail. done (events ++ tail, record h { phase = last_street h.phase }))
        (ap (shown (streets_left h.phase)) board ∙ told_shown h.phase a b c d e)
