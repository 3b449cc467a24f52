-- ===== src/Tests/Programs.antt =====
-- The client programs from the start to the end.
use the_socket_exchange.Common.{
  none, some, List, [], ◌∷◌, true, false, ◌≡◌, refl, Bytes, codes, map, nat_eq, bytes_eq,
}
use the_socket_exchange.Framing.{strip_cr, feed, next_line, split_line, drain, drain_loop}
use the_socket_exchange.Protocol.{tokenize, tokenize_loop, skip_spaces, read_word}
use the_socket_exchange.Sockets.{Calls, fill_addr, connect_fd, connect_from, connect_to}
use the_socket_exchange.Sockets.Descriptors.{open_after}
use the_socket_exchange.Client.{
  Poll, ready, quiet, ended, bytes, client_loop, forward, from_stdin, from_server,
}
use the_socket_exchange.Client.Programs.{
  Exit, session, subscribe_line, subscribe_all, trader_main, market_data_main,
}
use the_socket_exchange.Client.Programs.Exits.{left_open, main-open}
use the_socket_exchange.Client.Programs.Greeting.{
  login_lines, all_said, trader_main-says, market_data_main-says,
}

-- Every call succeeds.
abbrev calls : Calls
calls = record {
  socket = some 3;
  setsockopt = λ fd. true;
  inet_pton = λ host. some 2130706433;
  bind = λ fd addr. true;
  listen = λ fd n. true;
  connect = λ fd addr. true;
  somaxconn = 128;
}

abbrev loopback : Bytes
loopback = codes "127.0.0.1"

-- One line in two pieces, and the end of the keyboard's stream.
abbrev polls : List Poll
polls =
    ready (bytes (codes "BUY JNST")) quiet
    ∷ ready (bytes (codes " 1 2\nCANC")) quiet
    ∷ ready ended quiet
    ∷ []

abbrev trader : Exit
trader = trader_main (some (codes "ann")) calls loopback 5000 [] polls

abbrev viewer : Exit
viewer =
    market_data_main (codes "JNST" ∷ codes "IMCT" ∷ []) calls loopback 5000 (true ∷ true ∷ []) polls

trader_running : trader.status ≡ none
unfolding trader_main session connect_to connect_from connect_fd fill_addr client_loop from_stdin
    from_server forward next_line split_line strip_cr feed drain drain_loop tokenize tokenize_loop
    skip_spaces read_word
trader_running = refl

trader_sent :
    trader.client.sent ≡ codes "LOGIN ann\n" ∷ codes "BUY JNST 1 2\n" ∷ codes "QUIT\n" ∷ []
unfolding trader_main session connect_to connect_from connect_fd fill_addr client_loop from_stdin
    from_server forward next_line split_line strip_cr feed drain drain_loop tokenize tokenize_loop
    skip_spaces read_word
trader_sent = refl

viewer_running : viewer.status ≡ none
unfolding market_data_main subscribe_all session connect_to connect_from connect_fd fill_addr
    client_loop from_stdin from_server forward next_line split_line strip_cr feed drain drain_loop
    tokenize tokenize_loop skip_spaces read_word
viewer_running = refl

trader_main-says_example : trader.client.sent ≡ all_said (login_lines (some (codes "ann"))) [] polls
trader_main-says_example =
    trader_main-says (some (codes "ann")) calls loopback 5000 [] polls trader_running

market_data_main-says_example :
    viewer.client.sent
    ≡ all_said (map subscribe_line (codes "JNST" ∷ codes "IMCT" ∷ [])) (true ∷ true ∷ []) polls
market_data_main-says_example =
    market_data_main-says (codes "JNST" ∷ codes "IMCT" ∷ []) calls loopback 5000 (true ∷ true ∷ [])
      polls viewer_running

-- The second SUBSCRIBE fails.
cut_off :
    (market_data_main
      (codes "JNST" ∷ codes "IMCT" ∷ [])
      calls
      loopback
      5000
      (true ∷ false ∷ [])
      polls).status
    ≡ some 1
unfolding market_data_main subscribe_all session connect_to connect_from connect_fd fill_addr
cut_off = refl

main-open_example :
    (open_after [] trader.done ≡ left_open trader.status (connect_to calls loopback 5000).0)
    × (open_after [] (market_data_main [] calls loopback 5000 [] polls).done
        ≡ left_open
            (market_data_main [] calls loopback 5000 [] polls).status
            (connect_to calls loopback 5000).0)
main-open_example = main-open calls loopback 5000 [] polls (some (codes "ann")) []
