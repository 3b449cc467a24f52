-- ===== src/Tests/SetUp.antt =====
-- The set-up of sockets at concrete answers of the system.
use the_socket_exchange.Common.{some, false, true, false, ◌≡◌, refl, Bytes, codes, bytes_eq}
use the_socket_exchange.Sockets.{
  Calls, set_nonblocking, fill_addr, bind_and_listen, listen_on, make_listen_socket,
}
use the_socket_exchange.Sockets.Listening.{Outcome, make_listen_socket_lem}

-- Everything succeeds but `connect`.
abbrev calls : Calls
calls = record {
  socket = some 3;
  setsockopt = λ fd. true;
  inet_pton = λ host. some 2130706433;
  bind = λ fd addr. true;
  listen = λ fd n. true;
  connect = λ fd addr. false;
  somaxconn = 128;
}

abbrev loopback : Bytes
loopback = codes "127.0.0.1"

handed_out_3 : (make_listen_socket calls loopback 5000 128).0 ≡ some 3
unfolding make_listen_socket listen_on bind_and_listen fill_addr
handed_out_3 = refl

make_listen_socket_lem_example :
    Outcome calls loopback 5000 128 (make_listen_socket calls loopback 5000 128)
make_listen_socket_lem_example = make_listen_socket_lem calls loopback 5000 128

-- Only O_NONBLOCK is added.
nonblocking :
    set_nonblocking
      (some (record { nonblock = false; others = 2 }))
      true
      (record { nonblock = false; others = 2 })
    ≡ (true, record { nonblock = true; others = 2 })
unfolding set_nonblocking
nonblocking = refl
