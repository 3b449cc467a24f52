-- ===== src/Tests/Fixtures.antt =====
-- Concrete books, sessions and servers for the tests.
use the_socket_exchange.Common.{ℕ, List, [], ◌∷◌, Bytes, codes}
use the_socket_exchange.Book.{Side, buy, sell, Order, OrderBook}
use the_socket_exchange.Session.{ClientSession, default_session, trader, market_data}
use the_socket_exchange.Os.{Os, SendAnswer, RecvAnswer}
use the_socket_exchange.Server.{Server}

abbrev pub jnst : Bytes
jnst = codes "JNST"

abbrev pub order : ℕ → Side → ℕ → ℕ → ℕ → Order
order id side qty price fd = record {
  id = id;
  side = side;
  instrument = jnst;
  qty = qty;
  price = price;
  owner_fd = fd;
  owner_seq = fd;
}

-- Two sells of 30 and 50 at 100, by the connections 5 and 6.
abbrev pub two_sells : OrderBook
two_sells = record {
  next_id = 3;
  books =
      (
        jnst,
        record {
          buys = [];
          sells = (100, order 0 sell 30 100 5 ∷ order 1 sell 50 100 6 ∷ []) ∷ [];
        },
      )
      ∷ [];
}

-- A buy of 60 at 100, by the connection 7.
abbrev pub incoming : Order
incoming = order 2 buy 60 100 7

abbrev pub a_trader : ℕ → ClientSession
a_trader fd = record default_session { fd = fd; session_seq = fd; role = trader }

abbrev pub a_watcher : ℕ → ClientSession
a_watcher fd = record default_session {
  fd = fd;
  session_seq = fd;
  role = market_data;
  subscriptions = jnst ∷ [];
}

abbrev pub os_with : List SendAnswer → List RecvAnswer → Os
os_with sends recvs = record {
  sends = sends;
  recvs = recvs;
  accepts = [];
  changes = [];
  armed = [];
  wire = [];
  closed = [];
}

abbrev pub server_with : OrderBook → List SendAnswer → List RecvAnswer → Server
server_with b sends recvs = record {
  listen_fd = 3;
  book = b;
  sessions = (5, a_trader 5) ∷ (6, a_trader 6) ∷ (7, a_watcher 7) ∷ [];
  next_session_seq = 8;
  os = os_with sends recvs;
}
