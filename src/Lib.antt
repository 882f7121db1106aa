-- ===== src/Lib.antt =====
-- The poker engine of this repository: a table of no-limit hold'em behind an epoll server.
--
-- A `Table` (engine/src/table.h, table.cc) owns a `PlayerManager` (player_manager.h, player_manager.cc:
-- seats, purses, who is held until the next hand) and a `Deck` (deck.h, cards.h), and while a hand is
-- played a `HandState`. The `Server` (server.h, server.cc) owns the connections and the tables. The
-- loop of main.cc parses frames from a connection, the server makes their messages actions
-- (proto_translate.cc) and calls `on_action`, `handle_new_hand`, `add_player` and `remove_player` of a
-- table; each call changes the table and returns events or an error (errors.h), and the events are sent to
-- the connections of the table.
--
-- Which file models what:
--   Base and its children: shared names, lists over the native numbers, maps, 64-bit words, outcomes.
--     A `std::unordered_map` is an association list; its iteration order is a parameter. An `Outcome` is
--     `done`, or `fault` for what is not defined or throws (a failed `at`, a dereferenced error, a
--     division by zero, a read past the end), and for a loop that is out of fuel. `Expected` is
--     `std::expected`.
--   Rules, Errors: engine/src/poker_rules.h, errors.h.   Cards, Cards/Deck: cards.h, deck.h.
--   Players: player.cc and player_manager.cc, one function for each method, of the manager to the
--     manager. Players/Seating is the invariant of the seats, Seating/Changes and Seating/Rounds are
--     about who comes and goes and about the cycle of the seats, Players/Purses and Players/BuyIns about the chips.
--   Table: the types of table.h. The methods of table.cc are in Table/Turns (the queue), Table/Bets,
--     Table/Pots, Table/Showdown, Table/Streets, Table/Hands, Table/Seats, Table/Actions (`on_action`)
--     and Table/Closing; a method of a hand takes and gives a `Round`, the players and the hand.
--     Proofs are in the children Pots/Layers, Pots/Sums, Pots/Stakes, Pots/Fairness, Showdown/Winners,
--     Showdown/Payments, Showdown/Shares, Turns/Rings, Streets/Reveal, Streets/Queue, Streets/Opening,
--     Bets/Broke, Hands/Button, Hands/Engines, Hands/Positions, Hands/Dealing, in Table/Invariant with its children,
--     in Table/Stalls, in Table/Refusals (when an action is refused), and in Table/Descent (how long a hand
--     takes).
--   Frames: `try_parse_frame` of main.cc and `publish_msg` of server.cc, on bytes, and the read loop as
--     far as messages are taken from the chunks that come. Frames/RoundTrip is about one frame,
--     Frames/Pending about the state of the parser between two reads, Frames/Streaming about chunks.
--   Messages: proto/poker/v1/*.proto (under src/ of the repository). Translate: proto_translate.cc.
--     Errors/Texts and Translate/Reading read the texts and the messages back.
--   Server: the state of server.h. The methods of server.cc are in Server/Publishing (what is sent to
--     whom), Server/Connections (`handle_connect`, `handle_close`) and Server/Hands (`start_hand`,
--     `maybe_start_hand`, `apply_action`); Server/Loop is what main.cc does with a new connection and with
--     an event of a client, over what `accept`, `read` and `write` return. Of what epoll is asked, a
--     connection keeps whether it is to tell when the socket can be written. Server/Privacy is about
--     who sees hole cards. Server/Invariant is the invariant of the server, and its children are about
--     what keeps it: Actions, Comings, Connecting, Rooms (the table that somebody comes to or leaves),
--     Traffic (what is sent), Handling and Replies (messages), Pushes,
--     Engines (a hand at a table whose engine is gone), Writing (the write loop), Reading (the read loop), and Running, the
--     server from its start on.
--   Main: `main` of engine/src/main.cc as a whole, over what the calls of the system return. A run is a
--     list of what `epoll_wait` returns until `g_stop` is set, and an event of a batch holds what the calls
--     on its socket return. Main/Steps is about one event, Main/Batches about a batch, Main/Runs about a
--     run and the program.
--   Tests: concrete tables, servers and runs.
--
-- Arithmetic on chips, identifiers and frames wraps at 64 and 32 bits, as in the source. Loops that are
-- not structural run on fuel: the layers of the pots on one unit for each contribution, the board on
-- four, the cycle of the seats on one more than the seats, the messages on one more than the bytes that
-- are there, since every message takes four bytes at least.
--
-- Parameters: the shuffle, the evaluation of seven cards by phevaluator, and the orders in which two maps
-- are iterated (Table/Environment); the bytes of a protobuf message
-- both ways, and the order in which the tables are iterated (`ServerEnv` of Server); where a connection is
-- in memory (`MainEnv` of Main). `IsLawful` says that
-- a shuffle and an iteration give a permutation.
--
-- The engine of random numbers that `rng_` refers to lives or is gone (`Engine`); the one that
-- `find_table` gives a new table is gone, and a shuffle with it is a `fault`.
--
-- What the calls of `write` return ends with the call that takes no bytes, since the loop calls again as
-- long as there is something to go out; the lists for `read` and `accept` are followed by a call that says
-- that there is nothing now. Sequences of returns without an end are not modelled.
--
-- Not modelled: the log; the options of the sockets (`set_nonblocking`, `setsockopt`); that `handle_close`
-- closes a descriptor, and what becomes of a descriptor that is closed; the client in Python;
-- connection.h, which nothing uses.
pub mod Base
pub mod Rules
pub mod Errors
pub mod Messages
pub mod Translate
pub mod Cards
pub mod Players
pub mod Frames
pub mod Table
pub mod Server
pub mod Main
pub mod Tests
