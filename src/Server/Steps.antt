-- ===== src/Server/Steps.antt =====
-- The elementary changes of server/exchange_server.cpp as a step relation. Server/Steps/Lines and
-- Server/Steps/Runs show that every handler is a sequence of them; a property that each step keeps
-- is kept by every run.
pub mod Lines
pub mod Runs
pub mod Watched
pub mod Numbered
use the_socket_exchange.Common.{ℕ, some, List, ◌∷◌, ◌≡◌, ◌≢◌, Bytes, nat_eq}
use the_socket_exchange.Assoc
use the_socket_exchange.Book.{OrderBook}
use the_socket_exchange.Session.{ClientSession, unknown}
use the_socket_exchange.Os.{Errno, AcceptAnswer, accepted, accept_failed, RecvAnswer}
use the_socket_exchange.Server.{Server, store, enqueue, close_session}
use the_socket_exchange.Server.Events.{accept_one, with_accepts, with_recvs, flush_session}

-- What commands and reading leave of a session: all but its user name, its subscriptions, its input
-- and a role that is not settled yet.
pub record IsEdit (c c' : ClientSession) : Type 0 where
  pub fd : c'.fd ≡ c.fd
  pub session_seq : c'.session_seq ≡ c.session_seq
  pub role : c.role ≢ unknown → c'.role ≡ c.role
  pub outbuf : c'.outbuf ≡ c.outbuf
  pub want_write : c'.want_write ≡ c.want_write

pub data Step : Server → Server → Type 0 where
  traded : (b : OrderBook) (s : Server) → Step s (record s { book = b })
  told : (fd : ℕ) (line : Bytes) (s : Server) → Step s (enqueue fd line s)
  edited :
      (fd : ℕ) (c c' : ClientSession) (s : Server)
      → Assoc.lookup fd s.sessions ≡ some c
      → IsEdit c c'
      → Step s (store fd c' s)
  ended : (fd : ℕ) (s : Server) → Step s (close_session fd s)
  joined :
      (cfd : ℕ) (rest : List AcceptAnswer) (s : Server)
      → s.os.accepts ≡ accepted cfd ∷ rest
      → Step s (accept_one cfd (with_accepts rest s))
  missed :
      (e : Errno) (rest : List AcceptAnswer) (s : Server)
      → s.os.accepts ≡ accept_failed e ∷ rest
      → Step s (with_accepts rest s)
  heard : (rest : List RecvAnswer) (s : Server) → Step s (with_recvs rest s)
  flushed :
      (fd : ℕ) (c : ClientSession) (s : Server)
      → Assoc.lookup fd s.sessions ≡ some c
      → Step s (flush_session fd c s)

pub data Reaches (s : Server) : Server → Type 0 where
  stays : Reaches s s
  then_by : {t u : Server} → Step t u → Reaches s t → Reaches s u

pub by_step : {s t : Server} → Step s t → Reaches s t
by_step x = then_by x stays

pub Reaches-trans : {s t u : Server} → Reaches s t → Reaches t u → Reaches s u
Reaches-trans r stays = r
Reaches-trans r (then_by x q) = then_by x (Reaches-trans r q)

-- A property that every step keeps is an invariant.
pub Reaches-keeps {ℓ} :
    (P : Server → Type ℓ)
    → ((s t : Server) → Step s t → P s → P t)
    → (s t : Server) → Reaches s t
    → P s
    → P t
Reaches-keeps P keeps s t stays p = p
Reaches-keeps P keeps s t (then_by x r) p = keeps _ _ x (Reaches-keeps P keeps s _ r p)
