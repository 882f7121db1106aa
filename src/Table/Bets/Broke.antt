-- ===== src/Table/Bets/Broke.antt =====
-- engine/src/table.cc, `handle(const Bet &)`: the bet of a player whose purse is empty.
use poker_epoll.Base.{
  ◌<◌, ◌≡◌, some, true, lookup, lookup_or, lookup-insert, done, unexpected, arith,
}
use poker_epoll.Rules.{PlayerId, Chips}
use poker_epoll.Errors.{bet_too_low}
use poker_epoll.Players.{Player, seated}
use poker_epoll.Players.Seating.{IsSeated}
use poker_epoll.Players.Purses.{get_chips_lem}
use poker_epoll.Table.{Round, HandState, all_in}
use poker_epoll.Table.Bets.{handle_bet, judge, verdict, mark_bet, is_all_in_bet}

-- A player whose purse is empty and who is behind is refused any bet of a chip or more, and is all in
-- afterwards: the
-- mark that the refused bet has made stays.
pub handle_bet_broke :
    (r : Round) (id : PlayerId) (p : Player) (amount : Chips)
    → IsSeated r.players
    → seated id r.players ≡ some p
    → p.purse ≡ 0
    → 0 < amount
    → lookup_or id 0 r.hand.active_bets < r.hand.previous_bet
    → (h : HandState) × (handle_bet id amount r
        ≡ done (unexpected bet_too_low, record r { hand = h }))
      × (lookup id h.player_state ≡ some all_in)
unfolding handle_bet judge verdict mark_bet is_all_in_bet
handle_bet_broke r id p amount v e empty some_chips behind = (
  mark_bet id true r.hand,
  ground (arith, get_chips_lem r.players id p v e),
  ground (arith, lookup-insert id id all_in r.hand.player_state),
)
