-- ===== src/Server/Main.antt =====
-- `main` of server/exchange_server.cpp behind the command line: the start, the loop around `kevent`
-- and the end.
pub mod Descriptors
pub mod Invariants
use the_socket_exchange.Common.{
  ℕ, Option, none, some, List, [], ◌∷◌, ◌++◌, Bool, true, false, if◌then◌else◌, Bytes,
}
use the_socket_exchange.Book.{init}
use the_socket_exchange.Os.{Os, reads, kq_add}
use the_socket_exchange.Sockets.{Calls, Action, opened, closed, make_listen_socket}
use the_socket_exchange.Server.{Server}
use the_socket_exchange.Server.Events.{Event, run}

-- What `kevent` answers when it waits: EINTR, another error, or the events of a batch.
pub data Report : Type 0 where
  interrupted lost : Report
  reported : List Event → Report

-- `for (;;)`: the server, and whether the loop is still running.
unfoldable pub kevent_loop : List Report → Server → Server × Bool
unfolding run
kevent_loop [] s = (s, true)
kevent_loop (interrupted ∷ reports) s = kevent_loop reports s
kevent_loop (lost ∷ reports) s = (s, false)
kevent_loop (reported es ∷ reports) s = kevent_loop reports (run es s)

-- The members' default values, and the watch on the listening socket.
unfoldable pub start : ℕ → Os → Server
unfolding kq_add
start listen_fd os = record {
  listen_fd = listen_fd;
  book = init;
  sessions = [];
  next_session_seq = 1;
  os = kq_add listen_fd reads os;
}

-- The result of `main`, none while its loop runs, the server if it came so far, and the calls on
-- the listening socket and on the kqueue that succeeded.
pub record Exit : Type 0 where
  pub status : Option ℕ
  pub server : Option Server
  pub done : List Action

-- From `kqueue` on, which gave this answer.
unfoldable pub serve : Option ℕ → ℕ → List Action → Os → List Report → Exit
unfolding kevent_loop start
serve none listen_fd done os reports = record {
  status = some 1;
  server = none;
  done = done ++ closed listen_fd ∷ [];
}
serve (some kq) listen_fd done os reports =
    let (s, on) = kevent_loop reports (start listen_fd os) in
    if on
    then record { status = none; server = some s; done = done ++ opened kq ∷ [] }
    else record {
      status = some 0;
      server = some s;
      done = done ++ opened kq ∷ closed listen_fd ∷ closed kq ∷ [];
    }

unfoldable pub server_main : Calls → Bytes → ℕ → Option ℕ → Os → List Report → Exit
unfolding make_listen_socket serve
server_main calls host port kqueue os reports =
    let (fd, done) = make_listen_socket calls host port 128 in
    elim fd [
      | none ↦ record { status = some 1; server = none; done = done }
      | some listen_fd ↦ serve kqueue listen_fd done os reports
    ]
