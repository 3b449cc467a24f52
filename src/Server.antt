-- ===== src/Server.antt =====
-- The state of server/exchange_server.cpp, and the functions that send and that close.
pub mod Quiet
pub mod Streams
pub mod Delivery
pub mod Commands
pub mod UserNames
pub mod Events
pub mod Watching
pub mod Numbers
pub mod Steps
pub mod Main
use the_socket_exchange.Common.{
  ℕ, ◌+◌, ◌%◌, ◌^◌, Option, none, some, List, [], ◌∷◌, ◌++◌, Bool, true, false, ◌&&◌, if◌then◌else◌,
  ◌==◌, nat_eq, bytes_eq, Bytes, is_empty, codes,
}
use the_socket_exchange.Assoc
use the_socket_exchange.Assoc.{Assoc}
use the_socket_exchange.Book.{OrderBook}
use the_socket_exchange.Protocol.{msg_trade}
use the_socket_exchange.Session.{ClientSession, Role, trader, market_data, subscribed}
use the_socket_exchange.Os.{Os, reads, writes, kq_add, kq_del, close}
use the_socket_exchange.Os.Sending.{SendEnd, finished, blocked, broken, SendRun, fast_path}

-- The program's `Server`, with the operating system that its calls change. The kqueue's own
-- descriptor is part of `os`.
pub record Server : Type 0 where
  pub listen_fd : ℕ
  pub book : OrderBook
  pub sessions : Assoc ℕ ClientSession
  pub next_session_seq : ℕ
  pub os : Os

-- A reference `ClientSession&` is the descriptor under which the session stands in the map.
abbrev pub store : ℕ → ClientSession → Server → Server
store fd c s = record s { sessions = Assoc.insert fd c s.sessions }

abbrev pub with_os : (Os → Os) → Server → Server
with_os f s = record s { os = f s.os }

-- What the calls of a sending loop have done.
abbrev pub sent_by : ℕ → SendRun → Server → Server
sent_by fd run = with_os (λ os. record os {
  sends = run.answers;
  wire = os.wire ++ record { fd = fd; bytes = run.taken } ∷ [];
})

-- `c.outbuf.push_back(framed.substr(sent))`, and the write event is armed unless it is already.
abbrev pub queue_rest : ℕ → ClientSession → Bytes → Server → Server
queue_rest fd c rest s =
    store fd (record c { outbuf = c.outbuf ++ rest ∷ []; want_write = true })
      (if c.want_write then s else with_os (kq_add c.fd writes) s)

-- The end of `enqueue`, by the way in which its loop ended. A line that meets a hard error is
-- dropped.
unfoldable pub finish_enqueue : SendEnd → ℕ → ClientSession → Bytes → Server → Server
finish_enqueue finished fd c rest s = s
finish_enqueue broken fd c rest s = s
finish_enqueue blocked fd c rest s = queue_rest fd c rest s

-- `enqueue` on a session, with the framed line
unfoldable pub enqueue_on : ℕ → ClientSession → Bytes → Server → Server
unfolding finish_enqueue
enqueue_on fd c text s =
    if is_empty c.outbuf
    then (let run = fast_path s.os.sends [] text in
        finish_enqueue run.end fd c run.rest (sent_by c.fd run s))
    else store fd (record c { outbuf = c.outbuf ++ text ∷ [] }) s

abbrev pub framed : Bytes → Bytes
framed line = line ++ codes "\n"

-- `enqueue(s, c, line)` for the session `c` that stands at `fd`
unfoldable pub enqueue : ℕ → Bytes → Server → Server
unfolding enqueue_on
enqueue fd line s = elim (Assoc.lookup fd s.sessions) [
  | none ↦ s
  | some c ↦ enqueue_on fd c (framed line) s
]

abbrev pub is_market_data : Role → Bool
is_market_data market_data = true
is_market_data _ = false

abbrev pub is_trader : Role → Bool
is_trader trader = true
is_trader _ = false

abbrev pub wants_trade : Bytes → Option ClientSession → Bool
wants_trade i none = false
wants_trade i (some c) = is_market_data c.role && subscribed i c.subscriptions

-- The keys of the map, in the order of the walk.
abbrev pub keys : Assoc ℕ ClientSession → List ℕ
keys [] = []
keys ((fd, c) ∷ m) = fd ∷ keys m

-- `for (auto& kv : s.sessions)` of `broadcast_trade`: `enqueue` changes values of the map only, so
-- the keys are those at the start.
unfoldable pub broadcast_to : List ℕ → Bytes → Bytes → Server → Server
unfolding enqueue
broadcast_to [] i msg s = s
broadcast_to (fd ∷ fds) i msg s =
    broadcast_to fds i msg
      (if wants_trade i (Assoc.lookup fd s.sessions) then enqueue fd msg s else s)

unfoldable pub broadcast_trade : Bytes → ℕ → ℕ → Server → Server
unfolding broadcast_to
broadcast_trade i qty price s = broadcast_to (keys s.sessions) i (msg_trade i qty price) s

-- `close_session`
abbrev pub close_found : ℕ → Option ClientSession → Server → Server
close_found fd none s = s
close_found fd (some c) s =
    let os = kq_del fd reads s.os in
    let os' = if c.want_write then kq_del fd writes os else os in
    record s { os = close fd os'; sessions = Assoc.erase fd s.sessions }

unfoldable pub close_session : ℕ → Server → Server
close_session fd s = close_found fd (Assoc.lookup fd s.sessions) s
