-- ===== src/Tests/Servers.antt =====
-- Concrete servers and streams: the witnesses of the theorems about them.
use poker_epoll.Base.{
  ◌+◌, ◌*◌, ◌≡◌, ◌≢◌, ◌≤◌, ◌<◌, inl, inr, ◌⊎◌, refl, List, [], ◌∷◌, none, some, true, false, lookup,
  has_key, done, fault, Returns, add64, arith, u64_size, length, ◌==◌, if◌then◌else◌,
}
use poker_epoll.Rules.{buy_in}
use poker_epoll.Players.Purses.{purses}
use poker_epoll.Table.Invariant.Settling.{IsTable}
use poker_epoll.Errors.{of_game, bet_too_low, to_string_error}
use poker_epoll.Errors.Texts.{error_named, error_named-to_string_error}
use poker_epoll.Translate.Reading.{read_event, read_event-to_proto_event}
use poker_epoll.Messages.{proto_fold, Response}
use poker_epoll.Frames.{frame, feed, htonl}
use poker_epoll.Frames.RoundTrip.{idle}
use poker_epoll.Frames.Streaming.{Delivers, feed-Delivers}
use poker_epoll.Table.{Table, Event}
use poker_epoll.Translate.{to_proto_event}
use poker_epoll.Players as Manager
use poker_epoll.Players.{new_manager, num_players}
use poker_epoll.Server.Hands.{maybe_start_hand}
use poker_epoll.Table.{live, dangling, new_table}
use poker_epoll.Table.Seats.{add_player, can_start_hand}
use poker_epoll.Table.Hands.{handle_new_hand, hand_in_progress}
use poker_epoll.Table.Invariant.NewHands.{Deals, handle_new_hand-Deals}
use poker_epoll.Server.{Conn, Server, ServerEnv, TableId, new_conn, new_server, events}
use poker_epoll.Server.Publishing.{
  push_table, at_table_conns, deliver, update_interest, response_for, event_visible_to, publish_msg,
}
use poker_epoll.Server.Privacy.{IsSent, push_table-IsPrivate}
use poker_epoll.Server.Connections.{
  handle_connect, handle_close, find_table, first_open, seat_player,
}
use poker_epoll.Server.Loop.{
  greet, go_on_playing, handle_message, accept_client, client_event, bytes, would_block, written,
  full, write_loop,
}
use poker_epoll.Server.Invariant.{IsServer}
use poker_epoll.Server.Invariant.Actions.{IsBroken}
use poker_epoll.Server.Invariant.Engines.{maybe_start_hand_engine}
use poker_epoll.Server.Invariant.Comings.{handle_close-IsServer}
use poker_epoll.Server.Invariant.Connecting.Places.{Placed, TurnedAway, handle_connect-Placed}
use poker_epoll.Server.Connections.{max_connections}
use poker_epoll.Server.Invariant.Connecting.Seated.{handle_connect-IsServer}
use poker_epoll.Server.Invariant.Writing.{Sends, write_loop-Sends}
use poker_epoll.Server.Invariant.Handling.{Carries}
use poker_epoll.Server.Invariant.Replies.{
  Strands, handle_message-Carries, accept_client-IsServer, IsJoined,
}
use poker_epoll.Server.Invariant.Reading.Events.{GoesDown}
use poker_epoll.Server.Invariant.Reading.Events.{IsLeft, client_event-IsServer}
use poker_epoll.Server.Invariant.Running.{
  new_server-IsServer, begins, connects, IsCounted, Reached-IsServer,
}
use poker_epoll.Tests.Tables.{
  two_held, two_held-IsSeated, plain, plain-IsLawful, hole_of_1, hole_of_2,
}

-- One byte is written for every response, and it is read as a fold.
abbrev pub plain_server : ServerEnv
plain_server = record {
  at_tables = plain;
  serialize = λ res. length res ∷ [];
  parse = λ msg. if length msg == 0 then none else some proto_fold;
  tables_order = λ m. m;
}

abbrev one_client : Server
one_client = (handle_connect plain_server 5 new_server).2

one_client-IsServer : IsServer one_client
unfolding new_server
one_client-IsServer =
    handle_connect-IsServer plain_server new_server 5 new_server-IsServer (omega arith)
      (omega arith)

one_connected : has_key 1 one_client.connections ≡ true
unfolding new_server handle_connect find_table first_open seat_player add64
one_connected = refl

one_next : one_client.next_player_id ≡ 2
unfolding new_server handle_connect find_table first_open seat_player add64
one_next = refl

one_table : one_client.next_table_id ≡ 2
unfolding new_server handle_connect find_table first_open seat_player add64
one_table = refl

handle_close-IsServer_example : IsServer (handle_close 1 one_client)
handle_close-IsServer_example = handle_close-IsServer 1 one_client one_client-IsServer

handle_message-Carries_example :
    Returns (Carries (some 1) one_client) (handle_message plain_server 1 (8 ∷ []) one_client)
    ⊎ (Strands plain_server 1 (8 ∷ []) one_client
        × (handle_message plain_server 1 (8 ∷ []) one_client ≡ fault))
handle_message-Carries_example =
    handle_message-Carries plain_server plain-IsLawful 1 (8 ∷ []) one_client one_client-IsServer
      one_connected (omega (arith, one_next))

accept_client-IsServer_example :
    Returns (IsJoined one_client) (accept_client plain_server 6 one_client)
    ⊎ (((tid : TableId) × IsBroken (handle_connect plain_server 6 one_client).2 tid)
        × (accept_client plain_server 6 one_client ≡ fault))
accept_client-IsServer_example =
    accept_client-IsServer plain_server plain-IsLawful 6 one_client one_client-IsServer
      (omega (arith, one_next)) (omega (arith, one_table))

handle_connect-Placed_example :
    ((length one_client.connections < max_connections)
      × Placed one_client (handle_connect plain_server 6 one_client))
    ⊎ ((max_connections ≤ length one_client.connections)
        × TurnedAway one_client (handle_connect plain_server 6 one_client))
handle_connect-Placed_example =
    handle_connect-Placed plain_server 6 one_client one_client-IsServer (λ m u. (u, λ k. refl))

client_event-IsServer_example :
    Returns (IsLeft 1 one_client) (
      client_event plain_server 1
        (some (bytes (frame (8 ∷ [])) ∷ would_block ∷ []))
        (some (written 5 full))
        one_client)
    ⊎ GoesDown plain_server 1 (some (bytes (frame (8 ∷ [])) ∷ would_block ∷ [])) one_client
client_event-IsServer_example =
    client_event-IsServer plain_server plain-IsLawful 1
      (some (bytes (frame (8 ∷ [])) ∷ would_block ∷ [])) (some (written 5 full)) one_client
      one_client-IsServer one_connected (omega (arith, one_next))

feed-Delivers_example :
    Returns
      (Delivers ((8 ∷ 1 ∷ []) ∷ (9 ∷ []) ∷ []) (9 ∷ []))
      (feed ((0 ∷ 0 ∷ []) ∷ (0 ∷ 2 ∷ 8 ∷ 1 ∷ 0 ∷ []) ∷ (0 ∷ 0 ∷ 1 ∷ []) ∷ []) (idle []))
unfolding frame htonl
feed-Delivers_example =
    feed-Delivers ((0 ∷ 0 ∷ []) ∷ (0 ∷ 2 ∷ 8 ∷ 1 ∷ 0 ∷ []) ∷ (0 ∷ 0 ∷ 1 ∷ []) ∷ [])
      ((8 ∷ 1 ∷ []) ∷ (9 ∷ []) ∷ []) (9 ∷ []) (omega arith, (omega arith, tt)) refl

abbrev at_one : Conn
at_one = record (new_conn 5 1) { table_id = 1; is_dead = false }

abbrev at_two : Conn
at_two = record (new_conn 6 2) { table_id = 1; is_dead = false }

abbrev two_clients : Server
two_clients = record new_server { connections = (1, at_one) ∷ (2, at_two) ∷ [] }

abbrev dealing : List Event
dealing = Event.hand_started ∷ Event.dealt_hole 1 hole_of_1 ∷ Event.dealt_hole 2 hole_of_2 ∷ []

abbrev busy : Conn
busy = record at_one { out = 7 ∷ 8 ∷ 9 ∷ [] }

write_loop-Sends_example :
    Returns
      (Sends 1 busy (written 2 full))
      (write_loop 1 (written 2 full) (record two_clients { connections = (1, busy) ∷ [] }))
write_loop-Sends_example =
    write_loop-Sends 1 (written 2 full) (record two_clients { connections = (1, busy) ∷ [] }) busy
      refl

push_table-IsPrivate_example :
    (sent : List Response) × IsSent plain_server at_two sent
      (lookup 2 (push_table plain_server 1 (events dealing) two_clients).connections)
    × (at_two.table_id ≢ 1 → sent ≡ [])
push_table-IsPrivate_example =
    push_table-IsPrivate plain_server 1 (events dealing) two_clients 2 at_two refl

pub greeted : (s : Server) × (accept_client plain_server 5 new_server ≡ done s)
unfolding accept_client greet handle_connect find_table first_open seat_player add64 add_player
    new_table new_manager Manager.add_player go_on_playing maybe_start_hand push_table
    at_table_conns deliver update_interest response_for event_visible_to publish_msg frame htonl
    to_proto_event can_start_hand num_players new_server hand_in_progress
    poker_epoll.Table.Seats.has_open_seat
greeted = (_, refl)

pub greeted_first : has_key 1 greeted.0.connections ≡ true
unfolding greeted
greeted_first = refl

pub greeted-IsCounted : IsCounted 1 greeted.0
greeted-IsCounted =
    elim (Reached-IsServer plain_server plain-IsLawful 1 greeted.0 (connects 5 begins greeted.1)
      (omega arith)) [ inl counted ↦ counted | inr down ↦ absurd down ]

abbrev between_hands : Table
between_hands = record (new_table (live 0)) { players = two_held }

two_purses : purses two_held + buy_in * length two_held.holding < u64_size
unfolding Manager.add_player new_manager
two_purses = omega arith

between_hands-IsTable : IsTable between_hands
unfolding new_table
between_hands-IsTable = (two_held-IsSeated, omega (arith, two_purses))

its_engine : between_hands.rng ≡ live 0
unfolding new_table
its_engine = refl

no_button_yet : between_hands.button ≡ 0
unfolding new_table
no_button_yet = refl

handle_new_hand-Deals_example :
    Returns (λ s. Deals between_hands s.1) (handle_new_hand plain between_hands)
handle_new_hand-Deals_example =
    handle_new_hand-Deals plain between_hands 0 plain-IsLawful between_hands-IsTable its_engine
      (inl no_button_yet) two_purses

read_event-to_proto_event_example :
    read_event (to_proto_event (Event.dealt_hole 1 hole_of_1)) ≡ some (Event.dealt_hole 1 hole_of_1)
read_event-to_proto_event_example = read_event-to_proto_event (Event.dealt_hole 1 hole_of_1)

error_named-to_string_error_example :
    error_named (to_string_error (of_game bet_too_low)) ≡ some (of_game bet_too_low)
error_named-to_string_error_example = error_named-to_string_error (of_game bet_too_low)

abbrev two_joined : Server
two_joined = (handle_connect plain_server 6 one_client).2

two_joined-IsServer : IsServer two_joined
two_joined-IsServer =
    handle_connect-IsServer plain_server one_client 6 one_client-IsServer (omega (arith, one_next))
      (omega (arith, one_table))

their_table :
    (t : Table) × (lookup 1 two_joined.tables ≡ some t)
    × (can_start_hand t ≡ true)
    × (t.rng ≡ dangling)
unfolding handle_connect find_table first_open seat_player add64 add_player new_table new_manager
    Manager.add_player can_start_hand num_players new_server hand_in_progress
    poker_epoll.Table.Seats.has_open_seat
their_table = (_, refl, refl, refl)

maybe_start_hand_engine_example : maybe_start_hand plain_server 1 two_joined ≡ fault
maybe_start_hand_engine_example =
    let (t, known, go, gone) = their_table in
    maybe_start_hand_engine plain_server two_joined 1 t two_joined-IsServer known go gone
