-- ===== src/Tests/Mains.antt =====
-- The server from the start to the end.
use the_socket_exchange.Common.{
  ℕ, some, List, [], ◌∷◌, true, false, ◌≡◌, refl, arith, Bytes, codes, bytes_eq,
}
use the_socket_exchange.Sockets.{Calls, fill_addr, bind_and_listen, listen_on, make_listen_socket}
use the_socket_exchange.Sockets.Descriptors.{open_after}
use the_socket_exchange.Os.{Os, took, received, reads, accepted}
use the_socket_exchange.Server.{Server}
use the_socket_exchange.Server.Events.{Event}
use the_socket_exchange.Server.Main.{
  Report, interrupted, lost, reported, kevent_loop, start, Exit, serve, server_main,
}
use the_socket_exchange.Server.Main.Descriptors.{left_open, AreApart, server_main-open}
use the_socket_exchange.Server.Main.Invariants.{IsHealthy, IsFresh, server_main-IsHealthy}
use the_socket_exchange.Tests.Fixtures.{os_with}

-- Every call succeeds.
abbrev calls : Calls
calls = record {
  socket = some 3;
  setsockopt = λ fd. true;
  inet_pton = λ host. some 2130706433;
  bind = λ fd addr. true;
  listen = λ fd n. true;
  connect = λ fd addr. true;
  somaxconn = 128;
}

abbrev loopback : Bytes
loopback = codes "127.0.0.1"

-- One client comes and logs in.
abbrev os : Os
os = record (os_with (took 3 ∷ []) (received (codes "LOGIN al\n") ∷ [])) {
  accepts = accepted 5 ∷ [];
}

abbrev on : ℕ → Event
on fd = record { ident = fd; filter = reads; error = false; eof = false }

-- `kevent` fails in the end.
abbrev reports : List Report
reports = reported (on 3 ∷ []) ∷ interrupted ∷ reported (on 5 ∷ []) ∷ lost ∷ []

abbrev exit : Exit
exit = server_main calls loopback 5000 (some 4) os reports

handed_out : (make_listen_socket calls loopback 5000 128).0 ≡ some 3
unfolding make_listen_socket listen_on bind_and_listen fill_addr
handed_out = refl

apart : AreApart (some 4) (make_listen_socket calls loopback 5000 128).0
unfolding make_listen_socket listen_on bind_and_listen fill_addr
apart = λ e. cc

server_main-open_example :
    open_after [] exit.done
    ≡ left_open exit.status (some 4) (make_listen_socket calls loopback 5000 128).0
server_main-open_example = server_main-open calls loopback 5000 (some 4) os reports apart

abbrev last : Server
last = (kevent_loop reports (start 3 os)).0

ended : (exit.status ≡ some 0) × (exit.server ≡ some last)
unfolding server_main serve kevent_loop make_listen_socket listen_on bind_and_listen fill_addr
ended = (refl, refl)

os-IsFresh : IsFresh os
os-IsFresh = record { sound = refl; unarmed = refl; few = omega arith }

server_main-IsHealthy_example : IsHealthy last
server_main-IsHealthy_example =
    server_main-IsHealthy calls loopback 5000 (some 4) os reports last os-IsFresh ended.1
