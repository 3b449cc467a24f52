-- ===== src/Server/Commands/Reception.antt =====
-- Which lines each client receives for an order, and in which order.
pub mod Fills
use the_socket_exchange.Common.{
  ℕ, some, List, [], ◌∷◌, ◌++◌, ◌&&◌, ◌≡◌, ap, ◌∙◌, arith, ◌==◌, nat_eq, bytes_eq, Bytes,
  if◌then◌else◌, append_assoc,
}
use the_socket_exchange.Assoc
use the_socket_exchange.Assoc.{Assoc}
use the_socket_exchange.Book
use the_socket_exchange.Book.{Side, Fill, Order}
use the_socket_exchange.Protocol.{msg_order_accepted}
use the_socket_exchange.Session.{ClientSession}
use the_socket_exchange.Server.{Server, enqueue}
use the_socket_exchange.Server.Quiet.{Quiet, enqueue-Quiet}
use the_socket_exchange.Server.Streams.{stream}
use the_socket_exchange.Server.Streams.Sending.{enqueue-streams}
use the_socket_exchange.Server.Commands.{place_order, order_of, session_at}
use the_socket_exchange.Server.Commands.Up.{IsUp, enqueue-IsUp}
use the_socket_exchange.Server.Commands.Reception.Fills.{
  line_if, reports_to, Quiet-reports, report_fills-streams,
}

-- The book has no part in what the clients are sent.
IsUp-book : (s : Server) (b : Book.OrderBook) → IsUp s → IsUp (record s { book = b })
IsUp-book s b u = record { keyed = u.keyed; distinct = u.distinct; fine = u.fine }

-- On a server that is up, an order with valid fields is answered with ORDER_ACCEPTED and its id to
-- its own client. Then, fill by fill, the buyer receives BOUGHT and the seller SOLD, each if its
-- session still is the one that gave the order, and each client for market data that has subscribed
-- to the instrument receives TRADE. The lines stand in this order behind all that the client was sent
-- before, and no client receives anything else.
pub place_order-streams :
    (fd : ℕ) (side : Side) (i : Bytes) (qty price : ℕ) (s : Server) (c : ClientSession) (g : ℕ)
    → Assoc.lookup fd s.sessions ≡ some c
    → IsUp s
    → stream g (place_order fd side i qty price s)
      ≡ stream g s
        ++ (line_if (fd == g) (msg_order_accepted (Book.next_id s.book).1)
            ++ reports_to g
                (Assoc.lookup g s.sessions)
                (Book.submit
                  (order_of (session_at fd s) (Book.next_id s.book).1 side i qty price)
                  (Book.next_id s.book).0).1)
unfolding place_order
place_order-streams fd side i qty price s c g found u =
    report_fills-streams (fills told.book) (record told { book = (Book.submit o told.book).0 }) g
      (IsUp-book told _ (enqueue-IsUp fd answer numbered (IsUp-book s b u)))
    ∙ ap (λ k. stream g told ++ reports_to g (Assoc.lookup g told.sessions) (fills k)) quiet.book
    ∙ ap (◌++◌ (stream g told)) (Quiet-reports g numbered told (fills b) quiet)
    ∙ ap (λ x. x ++ reports_to g (Assoc.lookup g s.sessions) (fills b))
        (enqueue-streams fd answer numbered c found (u.keyed fd c found) u.fine g)
    ∙ append_assoc (stream g s) (line_if (fd == g) answer)
        (reports_to g (Assoc.lookup g s.sessions) (fills b))
  where
    b : Book.OrderBook
    b = (Book.next_id s.book).0

    answer : Bytes
    answer = msg_order_accepted (Book.next_id s.book).1

    o : Order
    o = order_of (session_at fd s) (Book.next_id s.book).1 side i qty price

    fills : Book.OrderBook → List Fill
    fills k = (Book.submit o k).1

    numbered : Server
    numbered = record s { book = b }

    told : Server
    told = enqueue fd answer numbered

    quiet : Quiet numbered told
    quiet = enqueue-Quiet fd answer numbered
