-- ===== src/Sockets/Descriptors.antt =====
-- No error path of the set-up leaks a descriptor, and a socket that is handed out is ready.
use the_socket_exchange.Common.{
  ℕ, Option, none, some, List, [], ◌∷◌, ◌++◌, ◌≡◌, refl, arith, if◌then◌else◌, ◌==◌, nat_eq,
  eq_self, Bytes,
}
use the_socket_exchange.Sockets.{
  Address, Calls, Action, opened, reuses, closed, bound, connected, listens, fill_addr,
  bind_and_listen, listen_on, make_listen_socket, connect_fd, connect_from, connect_to,
}

-- The descriptors without one.
abbrev pub without : ℕ → List ℕ → List ℕ
without fd [] = []
without fd (g ∷ gs) = let rest = without fd gs in if g == fd then rest else g ∷ rest

-- The descriptors that are open after some actions, from those open before.
abbrev pub open_after : List ℕ → List Action → List ℕ
open_after before [] = before
open_after before (opened fd ∷ done) = open_after (fd ∷ before) done
open_after before (closed fd ∷ done) = open_after (without fd before) done
open_after before (reuses fd ∷ done) = open_after before done
open_after before (bound fd addr ∷ done) = open_after before done
open_after before (connected fd addr ∷ done) = open_after before done
open_after before (listens fd n ∷ done) = open_after before done

pub open_after-append :
    (before : List ℕ) (done more : List Action)
    → open_after before (done ++ more) ≡ open_after (open_after before done) more
open_after-append before [] more = refl
open_after-append before (opened fd ∷ done) more = open_after-append (fd ∷ before) done more
open_after-append before (closed fd ∷ done) more = open_after-append (without fd before) done more
open_after-append before (reuses fd ∷ done) more = open_after-append before done more
open_after-append before (bound fd addr ∷ done) more = open_after-append before done more
open_after-append before (connected fd addr ∷ done) more = open_after-append before done more
open_after-append before (listens fd n ∷ done) more = open_after-append before done more

-- The descriptor that a result hands out.
abbrev pub held : Option ℕ → List ℕ
held none = []
held (some fd) = fd ∷ []

module _ (calls : Calls) where
  bind_and_listen-open :
      (fd backlog : ℕ) (addr : Option Address)
      → open_after [] (bind_and_listen calls fd backlog addr).1
        ≡ held (bind_and_listen calls fd backlog addr).0
  unfolding bind_and_listen
  bind_and_listen-open fd backlog none = ground (arith, eq_self fd)
  bind_and_listen-open fd backlog (some addr) = ground (arith, eq_self fd)

  listen_on-open :
      (host : Bytes) (port backlog : ℕ) (fd : Option ℕ)
      → open_after [] (listen_on calls host port backlog fd).1
        ≡ held (listen_on calls host port backlog fd).0
  unfolding listen_on
  listen_on-open host port backlog none = refl
  listen_on-open host port backlog (some fd) =
      ground (arith, eq_self fd, bind_and_listen-open fd backlog (fill_addr calls host port))

  connect_fd-open :
      (fd : ℕ) (addr : Option Address)
      → open_after [] (connect_fd calls fd addr).1 ≡ held (connect_fd calls fd addr).0
  unfolding connect_fd
  connect_fd-open fd none = ground (arith, eq_self fd)
  connect_fd-open fd (some addr) = ground (arith, eq_self fd)

  connect_from-open :
      (host : Bytes) (port : ℕ) (fd : Option ℕ)
      → open_after [] (connect_from calls host port fd).1 ≡ held (connect_from calls host port fd).0
  unfolding connect_from
  connect_from-open host port none = refl
  connect_from-open host port (some fd) = connect_fd-open fd (fill_addr calls host port)

-- On every path of `make_listen_socket`, errors included, the descriptors that it leaves open are
-- exactly the one that it returns, if any.
pub make_listen_socket-open :
    (calls : Calls) (host : Bytes) (port backlog : ℕ)
    → open_after [] (make_listen_socket calls host port backlog).1
      ≡ held (make_listen_socket calls host port backlog).0
unfolding make_listen_socket
make_listen_socket-open calls host port backlog =
    listen_on-open calls host port backlog calls.socket

-- The same for `connect_to`: the descriptors that it leaves open are exactly the one that it
-- returns, if any.
pub connect_to-open :
    (calls : Calls) (host : Bytes) (port : ℕ)
    → open_after [] (connect_to calls host port).1 ≡ held (connect_to calls host port).0
unfolding connect_to
connect_to-open calls host port = connect_from-open calls host port calls.socket
