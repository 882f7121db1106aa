-- ===== src/Server/Invariant/Engines.antt =====
-- engine/src/server.cc, `maybe_start_hand`: a hand at a table whose generator is gone, as that of every
-- table that `find_table` opens is.
use poker_epoll.Base.{◌≤◌, ◌≡◌, refl, some, true, false, fault, lookup, arith}
use poker_epoll.Players.{num_players}
use poker_epoll.Table.{Table, dangling}
use poker_epoll.Table.Hands.{hand_in_progress}
use poker_epoll.Table.Hands.Engines.{handle_new_hand_engine}
use poker_epoll.Table.Invariant.NewHands.{between_hands}
use poker_epoll.Table.Seats.{can_start_hand}
use poker_epoll.Server.{Server, ServerEnv, TableId}
use poker_epoll.Server.Hands.{maybe_start_hand}
use poker_epoll.Server.Invariant.{IsServer}

startable :
    (t : Table)
    → can_start_hand t ≡ true
    → (hand_in_progress t ≡ false) × (2 ≤ num_players t.players)
unfolding can_start_hand
startable t go = (ground (arith, go), ground (arith, go))

-- At a table of a server in order where a hand can start, and whose engine is gone, starting the hand is
-- not defined.
pub maybe_start_hand_engine :
    (env : ServerEnv) (s : Server) (tid : TableId) (t : Table)
    → IsServer s
    → lookup tid s.tables ≡ some t
    → can_start_hand t ≡ true
    → t.rng ≡ dangling
    → maybe_start_hand env tid s ≡ fault
unfolding maybe_start_hand
maybe_start_hand_engine env s tid t v known go gone =
    let (free, many) = startable t go in
    let (seating, small, idle) =
      between_hands t t.hand_state refl free (v.rooms tid t known).in_order in
    rw (known, maybe_start_hand)
      (rw (go, handle_new_hand_engine env.at_tables t seating idle many gone) refl)
