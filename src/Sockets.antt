-- ===== src/Sockets.antt =====
-- `set_nonblocking`, `make_listen_socket`, `connect_to` and `fill_addr` of common/net_utils.cpp, over
-- the answers of the system calls. Messages on stderr are left out.
pub mod Descriptors
pub mod Listening
use the_socket_exchange.Common.{
  ℕ, ◌%◌, ◌^◌, Option, none, some, List, [], ◌∷◌, ◌++◌, Bool, true, false, not, ◌||◌, if◌then◌else◌,
  ltb, ◌==◌, bytes_eq, Bytes, is_empty, codes,
}

-- A `sockaddr_in`: the port in 16 bits, and the host's number.
pub record Address : Type 0 where
  pub port : ℕ
  pub host : ℕ

-- What the system answers to each call; `none` and `false` stand for a failure.
pub record Calls : Type 0 where
  pub socket : Option ℕ
  pub setsockopt : ℕ → Bool
  pub inet_pton : Bytes → Option ℕ
  pub bind : ℕ → Address → Bool
  pub listen : ℕ → ℕ → Bool
  pub connect : ℕ → Address → Bool
  pub somaxconn : ℕ

-- A call that succeeded.
pub data Action : Type 0 where
  opened reuses closed : ℕ → Action
  bound connected : ℕ → Address → Action
  listens : ℕ → ℕ → Action

-- The status flags of a descriptor: O_NONBLOCK, and the other bits.
pub record FileFlags : Type 0 where
  pub nonblock : Bool
  pub others : ℕ

-- From what F_GETFL answers and whether F_SETFL succeeds: whether the result is 0, and the flags
-- afterwards, which were `now`. `flags | O_NONBLOCK` leaves the other bits alone.
unfoldable pub set_nonblocking : Option FileFlags → Bool → FileFlags → Bool × FileFlags
set_nonblocking none granted now = (false, now)
set_nonblocking (some flags) false now = (false, now)
set_nonblocking (some flags) true now = (true, record flags { nonblock = true })

-- `none` is the result -1.
unfoldable pub fill_addr : Calls → Bytes → ℕ → Option Address
fill_addr calls host port =
    let any : Address = record { port = port % 2 ^ 16; host = 0 } in
    if is_empty host || (host == codes "0.0.0.0")
    then some any
    else elim (calls.inet_pton host) [ none ↦ none | some h ↦ some (record any { host = h }) ]

-- `close(fd); return -1;`
abbrev pub give_up : ℕ → List Action → Option ℕ × List Action
give_up fd done = (none, done ++ closed fd ∷ [])

-- `backlog > 0 ? backlog : SOMAXCONN`
abbrev pub backlog_of : Calls → ℕ → ℕ
backlog_of calls backlog = if ltb 0 backlog then backlog else calls.somaxconn

-- `make_listen_socket` behind `fill_addr`
unfoldable pub bind_and_listen : Calls → ℕ → ℕ → Option Address → Option ℕ × List Action
bind_and_listen calls fd backlog none = give_up fd (opened fd ∷ reuses fd ∷ [])
bind_and_listen calls fd backlog (some addr) =
    let n = backlog_of calls backlog in
    if not (calls.bind fd addr)
    then give_up fd (opened fd ∷ reuses fd ∷ [])
    else if not (calls.listen fd n)
    then give_up fd (opened fd ∷ reuses fd ∷ bound fd addr ∷ [])
    else (some fd, opened fd ∷ reuses fd ∷ bound fd addr ∷ listens fd n ∷ [])

-- `make_listen_socket` behind `socket()`
unfoldable pub listen_on : Calls → Bytes → ℕ → ℕ → Option ℕ → Option ℕ × List Action
unfolding bind_and_listen
listen_on calls host port backlog none = (none, [])
listen_on calls host port backlog (some fd) =
    if not (calls.setsockopt fd)
    then give_up fd (opened fd ∷ [])
    else bind_and_listen calls fd backlog (fill_addr calls host port)

-- The descriptor, or the result -1, and what was done.
unfoldable pub make_listen_socket : Calls → Bytes → ℕ → ℕ → Option ℕ × List Action
unfolding listen_on
make_listen_socket calls host port backlog = listen_on calls host port backlog calls.socket

-- `connect_to` behind `fill_addr`
unfoldable pub connect_fd : Calls → ℕ → Option Address → Option ℕ × List Action
connect_fd calls fd none = give_up fd (opened fd ∷ [])
connect_fd calls fd (some addr) =
    if not (calls.connect fd addr)
    then give_up fd (opened fd ∷ [])
    else (some fd, opened fd ∷ connected fd addr ∷ [])

-- `connect_to` behind `socket()`
unfoldable pub connect_from : Calls → Bytes → ℕ → Option ℕ → Option ℕ × List Action
unfolding connect_fd
connect_from calls host port none = (none, [])
connect_from calls host port (some fd) = connect_fd calls fd (fill_addr calls host port)

unfoldable pub connect_to : Calls → Bytes → ℕ → Option ℕ × List Action
unfolding connect_from
connect_to calls host port = connect_from calls host port calls.socket
