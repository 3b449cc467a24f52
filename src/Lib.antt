-- ===== src/Lib.antt =====
-- The Socket Exchange: a simulated trading system over TCP, written in C++. One exchange server
-- serves traders and clients for market data. It keeps one order book, matches orders of equal price
-- first come first served, and speaks a protocol of text lines.
--
-- The parts and the files that model them (paths from the repository's root):
--
-- - src/server/order_book.hpp and order_book.cpp: Book (`Order`, `Fill`, `OrderBook`, `next_id`,
--   `submit`) and Book/Cancel (`cancel`, `remove_orders_of`). `submit` is composed as in the source:
--   `match_level` finds the opposing level, `match_loop` and `match_front` are the while loop and its
--   body, `store_level` erases an empty level, `rest_order` appends what is left. Book/Lots and
--   Book/Queues give the independent view, queues of units, and Book/Refinement states the contract of
--   `submit` in it. Book/Matching, Book/Invariant, Book/Cancel/... and Book/History hold the proofs
--   about one operation each and about histories of operations; Book/Ids counts ids.
-- - PriceMap is the `std::map` from a price to a queue, a list that ascends, and Assoc the
--   `std::unordered_map`, an association list without an order that matters to the code.
-- - src/common/protocol.hpp and protocol.cpp: Protocol, with Protocol/Numbers, Protocol/Words and
--   Protocol/Messages. `std::isdigit`, `std::from_chars`, `iss >> w` and `std::to_string` are written
--   out as the language defines them.
-- - src/common/net_utils.hpp and net_utils.cpp: `LineBuffer` in Framing and Framing/Stream, `send_all`
--   in Os/Sending. Framing's `drain` and `receive` are the loop of a client that reads.
--   `set_nonblocking`, `make_listen_socket`, `connect_to` and `fill_addr` in Sockets, where the answers
--   of the system calls are a parameter and the calls that succeeded are recorded; Sockets/Descriptors
--   and Sockets/Listening hold the proofs.
-- - src/server/client_session.hpp: Session.
-- - src/server/exchange_server.cpp: Server (the state, `enqueue`, `broadcast_trade`, `close_session`),
--   Server/Commands (`handle_line`, one function per command), Server/Events (`accept_new`,
--   `on_readable`, `on_writable` and the dispatch of events) and Server/Main (the start, the loop around
--   `kevent` and the end of `main`). The proofs stand in Server/Quiet (what sending leaves alone),
--   Server/Streams and Server/Delivery (what clients are sent), Server/UserNames, the children of
--   Server/Commands (what a line does to the book and to the sessions, and which lines the clients
--   receive) and those of Server/Events (the same for events, that `handle_lines` handles every line,
--   and that queued output is sent in the end). Server/Steps takes every run apart into elementary steps, and
--   proves over them the invariants of Server/Watching (the registrations of the kqueue, whose calls
--   are in Os/Registrations) and of Server/Numbers (session numbers and roles). Server/Main/Invariants
--   puts the invariants together for the server that `main` runs. Tests holds runs at concrete inputs.
-- - src/trader/trader_client.cpp and src/market_data/market_data_client.cpp: Client is the loop of
--   `main` over the answers of `poll`, which the two programs share line for line, and
--   Client/Programs their `main`, from `connect_to` to the `close` at the end. Client/Printing,
--   Client/Quitting, Client/Forwarding, Client/Speaking and the children of Client/Programs hold the
--   proofs about what they print, send and leave open.
-- - bonus/conn_generator.cpp: ConnGenerator (`raise_fd_limit`, `split_csv`, `open_one`, `diagnose`, the
--   loop of `main`), with a child for each of `split_csv`, `open_one` and the loop.
-- - t1.cpp, t2.cpp and t5.cpp, which try the library out: Scratch, each block of assertions as a
--   Boolean function, which Tests/Scratch evaluates.
-- - The operating system is in Os: the answers of `send`, `recv`, `accept` and of changes to the
--   kqueue are lists that a run uses up, so a theorem over all servers is a theorem over all answers.
--   Os also records the bytes that were taken for each descriptor, the registrations that are armed
--   and the descriptors that were closed. An empty list stands for EAGAIN, and for `send_all`, whose
--   socket blocks, for a lost connection.
--
-- Handlers take the server and give back the server. A C++ reference to a session is the
-- descriptor under which it stands in the map. `handle_line` also gives back whether the session is
-- still there.
--
-- Numbers: prices, quantities and ids are `long long` in the source and natural numbers here; the
-- server hands over values up to 2147483647 only, and an id would have to pass 2 ^ 63 to wrap. The
-- session number is kept modulo 2 ^ 64. Text is a list of byte values.
--
-- Fuel: `match_loop` has the queue's length and one more, since each round takes an order off the
-- queue or ends; `tokenize_loop`, `split_csv_loop`, `drain_loop`, `handle_lines` and `forward` have
-- the text's length and one more, since each round takes a byte; `print_digits` has the number and
-- one more.
--
-- Not modelled: `printf`, `perror`, the reports of the programs and the command lines; `signal`, which
-- keeps SIGPIPE away; `inet_ntop`, which only prints; in t5.cpp the order with the quantity -5, since
-- quantities are natural numbers. That sockets do not block is part of the answers: `recv`, `send`
-- and `accept` of the server may answer EAGAIN, and do so when their list is used up. For the clients,
-- `send_line` answers whether it succeeded: the part of a line that was sent before a failure is not
-- recorded, and Os/Sending treats `send_all` by itself. When `kevent`
-- fails, the source leaves the accepted connections to the end of the process; the exit of
-- Server/Main records the listening socket and the kqueue only.
pub mod Common
pub mod Assoc
pub mod PriceMap
pub mod Book
pub mod Protocol
pub mod Framing
pub mod Os
pub mod Sockets
pub mod Session
pub mod Server
pub mod Client
pub mod ConnGenerator
pub mod Scratch
pub mod Tests
