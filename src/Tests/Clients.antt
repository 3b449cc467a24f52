-- ===== src/Tests/Clients.antt =====
-- A client at work.
use the_socket_exchange.Common.{
  List, [], ◌∷◌, true, false, ◌≡◌, refl, codes, map, concat, nat_eq, bytes_eq,
}
use the_socket_exchange.Framing.{strip_cr, feed, next_line, split_line, drain, drain_loop}
use the_socket_exchange.Framing.Stream.{frames}
use the_socket_exchange.Protocol.{tokenize, tokenize_loop, skip_spaces, read_word}
use the_socket_exchange.Client.{
  Poll, ready, interrupted, quiet, bytes, Client, start, client_loop, forward, from_stdin,
  from_server,
}
use the_socket_exchange.Client.Printing.{heard, client_loop-prints}

-- An answer that comes in two pieces, and a QUIT in between.
abbrev polls : List Poll
polls =
    ready (bytes (codes "BUY JNST 1 2\n")) quiet
    ∷ ready quiet (bytes (codes "ORDER_ACC"))
    ∷ interrupted
    ∷ ready (bytes (codes "QUIT\nBUY JNST 1 3\n")) (bytes (codes "EPTED 0\r\nOK"))
    ∷ []

still_running : (client_loop polls (start [])).1 ≡ true
unfolding client_loop from_stdin from_server forward next_line split_line strip_cr feed drain
    drain_loop tokenize tokenize_loop skip_spaces read_word
still_running = refl

-- Nothing is sent behind QUIT.
sent_lines : (client_loop polls (start [])).0.sent ≡ codes "BUY JNST 1 2\n" ∷ codes "QUIT\n" ∷ []
unfolding client_loop from_stdin from_server forward next_line split_line strip_cr feed drain
    drain_loop tokenize tokenize_loop skip_spaces read_word
sent_lines = refl

client_loop-prints_example :
    (client_loop polls (start [])).0.printed ≡ map strip_cr (frames (concat (heard polls))).0
client_loop-prints_example = client_loop-prints polls [] still_running

abbrev leaving : Client
leaving = record (start []) { watching = false; sent_quit = true; shut = true }
