-- ===== src/Os.antt =====
-- The socket calls of the operating system, as the programs see them: what the next calls will
-- answer, in the order of the calls, and what the calls that change something have left behind.
-- A list that is used up stands for calls that would block from there on.
pub mod Sending
pub mod Registrations
use the_socket_exchange.Common.{
  ℕ, ◌-◌, List, [], ◌∷◌, ◌++◌, Bool, true, false, ◌&&◌, if◌then◌else◌, ◌==◌, nat_eq, Bytes,
}

pub data Errno : Type 0 where
  eintr eagain ewouldblock econnreset econnaborted : Errno
  -- any other number
  fault : Errno

-- `send`: there is room for so many bytes, of which the call takes what it is handed, or an error.
pub data SendAnswer : Type 0 where
  took : ℕ → SendAnswer
  send_failed : Errno → SendAnswer

-- `recv`: the bytes, none at the end of the stream, or an error.
pub data RecvAnswer : Type 0 where
  received : Bytes → RecvAnswer
  recv_failed : Errno → RecvAnswer

-- `accept`: the new descriptor, or an error.
pub data AcceptAnswer : Type 0 where
  accepted : ℕ → AcceptAnswer
  accept_failed : Errno → AcceptAnswer

-- EVFILT_READ and EVFILT_WRITE
pub data Filter : Type 0 where
  reads writes : Filter

pub record Registration : Type 0 where
  pub ident : ℕ
  pub filter : Filter

-- One `send` that took bytes.
pub record Packet : Type 0 where
  pub fd : ℕ
  pub bytes : Bytes

pub record Os : Type 0 where
  pub sends : List SendAnswer
  pub recvs : List RecvAnswer
  pub accepts : List AcceptAnswer
  -- whether the next change of the kqueue succeeds; all do when the list is used up
  pub changes : List Bool
  pub armed : List Registration
  pub wire : List Packet
  pub closed : List ℕ

abbrev pub same_filter : Filter → Filter → Bool
same_filter reads reads = true
same_filter writes writes = true
same_filter _ _ = false

abbrev pub same_registration : Registration → Registration → Bool
same_registration a b = (a.ident == b.ident) && same_filter a.filter b.filter

-- The registrations without one.
unfoldable pub disarm : Registration → List Registration → List Registration
disarm r [] = []
disarm r (q ∷ qs) = let rest = disarm r qs in if same_registration q r then rest else q ∷ rest

-- A change that fails is reported on stderr, and the program goes on.
abbrev pub change : (List Registration → List Registration) → Os → List Bool → Os
change f os [] = record os { armed = f os.armed }
change f os (true ∷ rest) = record os { armed = f os.armed; changes = rest }
change f os (false ∷ rest) = record os { changes = rest }

-- `Server::kq_add` and `Server::kq_del`: EV_ADD of what is there already changes nothing.
unfoldable pub kq_add : ℕ → Filter → Os → Os
unfolding disarm
kq_add fd filter os =
    let r : Registration = record { ident = fd; filter = filter } in
    change (λ a. r ∷ disarm r a) os os.changes

unfoldable pub kq_del : ℕ → Filter → Os → Os
unfolding disarm
kq_del fd filter os =
    let r : Registration = record { ident = fd; filter = filter } in change (disarm r) os os.changes

-- `close`, which drops the descriptor's registrations too
unfoldable pub close : ℕ → Os → Os
unfolding disarm
close fd os = record os {
  closed = fd ∷ os.closed;
  armed =
      disarm (record { ident = fd; filter = reads })
        (disarm (record { ident = fd; filter = writes }) os.armed);
}
