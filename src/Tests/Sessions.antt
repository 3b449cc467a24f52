-- ===== src/Tests/Sessions.antt =====
-- Sessions over lines and events.
use the_socket_exchange.Common.{
  ◌++◌, ◌==◌, arith, ℕ, [], ◌∷◌, false, ◌≡◌, refl, codes, nat_eq, bytes_eq, some,
}
use the_socket_exchange.Assoc
use the_socket_exchange.Book.{init, sell, submit, next_id}
use the_socket_exchange.Protocol.{msg_order_accepted}
use the_socket_exchange.Os.{took, received, send_failed, eagain, reads, accepted}
use the_socket_exchange.Server.{Server}
use the_socket_exchange.Server.Commands.{place_order, order_of, session_at, handle_line}
use the_socket_exchange.Server.Commands.LineEffect.{LineEffect, handle_line-LineEffect}
use the_socket_exchange.Server.Commands.Answers.{Answer}
use the_socket_exchange.Server.Commands.Answers.Lines.{handle_line-answers}
use the_socket_exchange.Server.Streams.{stream}
use the_socket_exchange.Server.Commands.Reception.{place_order-streams}
use the_socket_exchange.Server.Commands.Reception.Fills.{line_if, reports_to}
use the_socket_exchange.Server.Commands.Up.{IsUp}
use the_socket_exchange.Server.UserNames.{IsNamed}
use the_socket_exchange.Server.Events.{Event, run, take_bytes}
use the_socket_exchange.Server.Events.Draining.{with_input, handle_all, take_bytes-lines}
use the_socket_exchange.Server.Events.UniqueNames.{run-IsNamed}
use the_socket_exchange.Tests.Fixtures.{a_trader, server_with, os_with}

abbrev ready : Server
ready = server_with init (took 4 ∷ send_failed eagain ∷ []) (received (codes "LOGIN al\n") ∷ [])

-- No session yet, and two connections that wait.
abbrev first : Server
first = record ready {
  sessions = [];
  os = record (os_with (took 3 ∷ []) (received (codes "LOGIN al\n") ∷ [])) {
    accepts = accepted 5 ∷ accepted 6 ∷ [];
  };
}

abbrev on : ℕ → Event
on fd = record { ident = fd; filter = reads; error = false; eof = false }

run-IsNamed_example : IsNamed (run (on 3 ∷ on 5 ∷ []) first).sessions
run-IsNamed_example = run-IsNamed (on 3 ∷ on 5 ∷ []) first refl

lookup_5 : Assoc.lookup 5 ready.sessions ≡ some (a_trader 5)
unfolding Assoc.lookup
lookup_5 = refl

handle_line-LineEffect_example : LineEffect 5 ready (handle_line 5 (codes "LOGIN al") ready)
handle_line-LineEffect_example =
    handle_line-LineEffect 5 (codes "LOGIN al") ready (a_trader 5) lookup_5

-- An empty line, which is answered, and the start of another.
take_bytes-lines_example :
    take_bytes 5 (codes "\nBU") ready
    ≡ handle_all 5 ([] ∷ []) (codes "BU") (with_input 5 (codes "\nBU") ready)
unfolding Assoc.lookup
take_bytes-lines_example = take_bytes-lines 5 (codes "\nBU") ready

-- The connections of `ready`, all up.
ready-IsUp : IsUp ready
unfolding Assoc.lookup
ready-IsUp = record {
  keyed = λ g c e. ground arith;
  distinct = (refl, (refl, (refl, tt)));
  fine = (omega arith, (tt, tt));
}

place_order-streams_example :
    stream 7 (place_order 5 sell (codes "JNST") 60 100 ready)
    ≡ stream 7 ready
      ++ (line_if (◌==◌ {A = ℕ} 5 7) (msg_order_accepted (next_id ready.book).1)
          ++ reports_to 7
              (Assoc.lookup 7 ready.sessions)
              (submit
                (order_of (session_at 5 ready) (next_id ready.book).1 sell (codes "JNST") 60 100)
                (next_id ready.book).0).1)
place_order-streams_example =
    place_order-streams 5 sell (codes "JNST") 60 100 ready (a_trader 5) 7 lookup_5 ready-IsUp

handle_line-answers_example : Answer 5 ready (handle_line 5 (codes "CANCEL 7") ready)
handle_line-answers_example =
    handle_line-answers 5 (codes "CANCEL 7") ready (a_trader 5) lookup_5 ready-IsUp
