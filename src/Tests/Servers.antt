-- ===== src/Tests/Servers.antt =====
-- The server's handlers at concrete states.
use the_socket_exchange.Common.{
  [], ◌∷◌, ◌++◌, true, false, ◌≡◌, refl, arith, codes, All, nat_eq, bytes_eq, some, if◌then◌else◌,
}
use the_socket_exchange.Assoc
use the_socket_exchange.Book.{Fill, init}
use the_socket_exchange.Book.Invariant.{IsValid}
use the_socket_exchange.Book.Invariant.Uncrossed.{IsUncrossed}
use the_socket_exchange.Protocol.{tokenize, msg_trade}
use the_socket_exchange.Session.{ClientSession}
use the_socket_exchange.Os.{took, received, send_failed, eagain, reads}
use the_socket_exchange.Os.Sending.{finished, send_all}
use the_socket_exchange.Os.Sending.Laws.{IsFine, send_all_fine}
use the_socket_exchange.Server.{Server, enqueue, framed, wants_trade, broadcast_trade, store}
use the_socket_exchange.Server.Streams.{stream}
use the_socket_exchange.Server.Streams.Sending.{enqueue-streams}
use the_socket_exchange.Server.Delivery.{IsKeyed, broadcast_trade-streams}
use the_socket_exchange.Server.Commands.{handle_line}
use the_socket_exchange.Server.Commands.BookEffect.{book_effect}
use the_socket_exchange.Server.Commands.Trading.{handle_line-book}
use the_socket_exchange.Server.Events.{Event, run, on_writable, handle_event}
use the_socket_exchange.Server.Events.BookHistory.{run-IsValid}
use the_socket_exchange.Server.Events.Reading.{event_effect, handle_event-book}
use the_socket_exchange.Server.Events.Flushing.{on_writable-streams}
use the_socket_exchange.Tests.Fixtures.{jnst, two_sells, a_trader, a_watcher, server_with}

-- The system takes 4 bytes, and then blocks.
abbrev slow_server : Server
slow_server =
    server_with two_sells (took 4 ∷ send_failed eagain ∷ [])
      (received (codes "BUY JNST 60 100\n") ∷ [])

abbrev fresh_server : Server
fresh_server =
    server_with init (took 4 ∷ send_failed eagain ∷ []) (received (codes "SELL JNST 60 100\n") ∷ [])

abbrev readable : Event
readable = record { ident = 5; filter = reads; error = false; eof = false }

lookup_5 : Assoc.lookup 5 slow_server.sessions ≡ some (a_trader 5)
unfolding Assoc.lookup
lookup_5 = refl

lookup_7 : Assoc.lookup 7 slow_server.sessions ≡ some (a_watcher 7)
unfolding Assoc.lookup
lookup_7 = refl

slow_server-IsKeyed : IsKeyed slow_server
unfolding Assoc.lookup
slow_server-IsKeyed g c e = ground arith

slow_server-IsFine : All IsFine slow_server.os.sends
slow_server-IsFine = (omega arith, (tt, tt))

run-IsValid_example :
    IsValid (run (readable ∷ []) fresh_server).book
    × IsUncrossed (run (readable ∷ []) fresh_server).book
run-IsValid_example = run-IsValid (readable ∷ []) fresh_server refl

handle_event-book_example :
    (handle_event readable slow_server).book ≡ event_effect readable slow_server
handle_event-book_example = handle_event-book readable slow_server

handle_line-book_example :
    (handle_line 5 (codes "BUY JNST 60 100") slow_server).0.book
    ≡ book_effect (a_trader 5) (tokenize (codes "BUY JNST 60 100")) two_sells
handle_line-book_example =
    handle_line-book 5 (codes "BUY JNST 60 100") slow_server (a_trader 5) lookup_5

enqueue-streams_example :
    stream 5 (enqueue 5 (codes "OK") slow_server) ≡ stream 5 slow_server ++ framed (codes "OK")
enqueue-streams_example =
    enqueue-streams 5 (codes "OK") slow_server (a_trader 5) lookup_5 refl slow_server-IsFine 5

broadcast_trade-streams_example :
    stream 7 (broadcast_trade jnst 5 9 slow_server)
    ≡ stream 7 slow_server
      ++ (if wants_trade jnst (Assoc.lookup 7 slow_server.sessions)
          then framed (msg_trade jnst 5 9)
          else [])
broadcast_trade-streams_example =
    broadcast_trade-streams jnst 5 9 slow_server 7 (refl, (refl, (refl, tt))) slow_server-IsKeyed
      slow_server-IsFine

abbrev a_fill : Fill
a_fill = record {
  instrument = jnst;
  qty = 5;
  price = 9;
  buyer_fd = 5;
  sell_fd = 6;
  buyer_seq = 5;
  sell_seq = 6;
}

-- A session with two lines queued.
abbrev busy_trader : ClientSession
busy_trader = record (a_trader 5) {
  outbuf = codes "OK\n" ∷ codes "ERROR x\n" ∷ [];
  want_write = true;
}

abbrev busy_server : Server
busy_server = store 5 busy_trader slow_server

busy_lookup : Assoc.lookup 5 busy_server.sessions ≡ some busy_trader
unfolding Assoc.lookup Assoc.insert
busy_lookup = refl

on_writable-streams_example : stream 5 (on_writable 5 busy_server) ≡ stream 5 busy_server
on_writable-streams_example =
    on_writable-streams 5 busy_trader busy_server busy_lookup slow_server-IsFine
      (λ e. cc, (λ e. cc, tt)) 5

sent_whole : (send_all (took 2 ∷ took 1 ∷ []) [] (codes "OK\n")).end ≡ finished
unfolding send_all
sent_whole = refl

send_all_fine_example : (send_all (took 2 ∷ took 1 ∷ []) [] (codes "OK\n")).taken ≡ codes "OK\n"
send_all_fine_example =
    send_all_fine (took 2 ∷ took 1 ∷ []) (codes "OK\n") (omega arith, (omega arith, tt)) sent_whole
