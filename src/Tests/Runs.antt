-- ===== src/Tests/Runs.antt =====
-- Runs of the server over several events.
use the_socket_exchange.Common.{
  ℕ, some, [], ◌∷◌, true, false, ◌≡◌, ◌≢◌, refl, arith, replicate, codes, nat_eq, nat_beq_iff,
  bytes_eq,
}
use the_socket_exchange.Assoc
use the_socket_exchange.Book.{init}
use the_socket_exchange.Framing.{next_line, split_line, strip_cr, feed}
use the_socket_exchange.Protocol.{tokenize, tokenize_loop, skip_spaces, read_word}
use the_socket_exchange.Session.{ClientSession, unknown}
use the_socket_exchange.Os.{
  took, received, send_failed, eagain, reads, writes, accepted, accept_failed, econnaborted, kq_add,
  disarm,
}
use the_socket_exchange.Os.Sending.{fast_path}
use the_socket_exchange.Os.Registrations.{watches}
use the_socket_exchange.Server.{Server, enqueue, enqueue_on, finish_enqueue}
use the_socket_exchange.Server.Commands.{
  handle_line, handle_tokens, dispatch, handle_login, name_taken,
}
use the_socket_exchange.Server.Streams.{stream}
use the_socket_exchange.Server.Watching.{IsWatched}
use the_socket_exchange.Server.Numbers.{IsNumbered}
use the_socket_exchange.Server.Events.{
  Event, run, handle_event, accept_new, accept_loop, accept_one, on_readable, read_loop, take_bytes,
  handle_lines,
}
use the_socket_exchange.Server.Events.Progress.{IsDraining, IsSentTo, write_event, run-sends}
use the_socket_exchange.Server.Steps.Watched.{run-IsWatched}
use the_socket_exchange.Server.Steps.Numbered.{run-keeps_numbers}
use the_socket_exchange.Tests.Fixtures.{a_trader, server_with, os_with}

-- A client comes, and its window closes in the middle of an answer.
abbrev starting : Server
starting = record (server_with init [] []) {
  sessions = [];
  os = record (os_with (took 1 ∷ send_failed eagain ∷ []) (received (codes "LOGIN al\n") ∷ [])) {
    accepts = accept_failed econnaborted ∷ accepted 5 ∷ [];
  };
}

abbrev on : ℕ → Event
on fd = record { ident = fd; filter = reads; error = false; eof = false }

abbrev stuck : Server
stuck = run (on 3 ∷ on 5 ∷ []) starting

-- The rest is queued, and the write event is armed.
waits : watches 5 writes stuck.os ≡ true
unfolding run handle_event accept_new accept_loop accept_one on_readable read_loop take_bytes
    handle_lines next_line split_line strip_cr feed handle_line handle_tokens dispatch handle_login
    name_taken tokenize tokenize_loop skip_spaces read_word enqueue enqueue_on finish_enqueue
    fast_path kq_add disarm Assoc.lookup Assoc.insert
waits = refl

run-IsWatched_example : IsWatched stuck
run-IsWatched_example = run-IsWatched (on 3 ∷ on 5 ∷ []) starting refl refl (λ g. refl)

abbrev ready : Server
ready = server_with init (took 4 ∷ []) (received (codes "LOGIN al\n") ∷ [])

ready-IsNumbered : IsNumbered ready
unfolding Assoc.lookup
ready-IsNumbered = record {
  enough = omega arith;
  issued = λ g c e. ground arith;
  distinct = λ g h c d e f k. ground (arith, nat_beq_iff g h);
}

abbrev named : ClientSession
named = record (a_trader 5) { username = codes "al" }

before_login : Assoc.lookup 5 ready.sessions ≡ some (a_trader 5)
unfolding Assoc.lookup
before_login = refl

after_login : Assoc.lookup 5 (run (on 5 ∷ []) ready).sessions ≡ some named
unfolding run handle_event on_readable read_loop take_bytes handle_lines next_line split_line
    strip_cr feed handle_line handle_tokens dispatch handle_login name_taken tokenize tokenize_loop
    skip_spaces read_word enqueue enqueue_on finish_enqueue fast_path Assoc.lookup Assoc.insert
after_login = refl

run-keeps_numbers_example :
    (◌≡◌ {A = ℕ} 5 5) × ((a_trader 5).role ≢ unknown → named.role ≡ (a_trader 5).role)
run-keeps_numbers_example =
    run-keeps_numbers (on 5 ∷ []) ready 5 5 (a_trader 5) named ready-IsNumbered before_login
      after_login refl

-- Four bytes are queued in two pieces, and the client takes two bytes of each call at most.
abbrev owing : Server
owing = record (server_with init (replicate 4 (took 2)) []) {
  sessions =
      (5, record (a_trader 5) { outbuf = codes "OK\n" ∷ codes "!" ∷ []; want_write = true }) ∷ [];
}

owing-IsDraining : IsDraining 4 5 owing
unfolding Assoc.lookup
owing-IsDraining = record {
  session = record (a_trader 5) { outbuf = codes "OK\n" ∷ codes "!" ∷ []; want_write = true };
  client = refl;
  found = refl;
  full = (λ e. cc, (λ e. cc, tt));
  room = (omega arith, (omega arith, (omega arith, (omega arith, tt))));
  enough = omega arith;
  few = omega arith;
}

run-sends_example : IsSentTo 5 (stream 5 owing) (run (replicate 4 (write_event 5)) owing)
run-sends_example = run-sends 4 5 owing owing-IsDraining
