-- ===== src/ConnGenerator.antt =====
-- bonus/conn_generator.cpp: a client that opens connections to the server and holds them. What it
-- prints and the time it measures are left out; the answers of the system calls are a parameter.
pub mod Sources
pub mod Opening
pub mod Ramp
use the_socket_exchange.Common.{
  ℕ, zero, suc, ◌+◌, ◌%◌, Option, none, some, List, [], ◌∷◌, ◌++◌, Bool, true, false, if◌then◌else◌,
  ◌==◌, nat_eq, Bytes, is_empty, length, get_elem?, codes,
}
use the_socket_exchange.Sockets.{Address, Action, opened, closed, bound, connected}

-- The error numbers that the program tells apart.
pub data Cause : Type 0 where
  eaddrnotavail eaddrinuse emfile enfile econnrefused etimedout econnreset enobufs einval : Cause
  other : ℕ → Cause

-- The soft and the hard limit on open files.
pub record FdLimit : Type 0 where
  pub rlim_cur : ℕ
  pub rlim_max : ℕ

-- The limit in force afterwards. `none` is a failure of `getrlimit`, `false` one of `setrlimit`.
unfoldable pub raise_fd_limit : Option FdLimit → Bool → FdLimit → FdLimit
raise_fd_limit none granted now = now
raise_fd_limit (some rl) false now = now
raise_fd_limit (some rl) true now = record rl { rlim_cur = rl.rlim_max }

-- `s.find(',', start)` and `s.substr(start, comma - start)`: the piece up to the next comma, and what
-- follows the comma.
unfoldable pub next_piece : Bytes → Bytes × Option Bytes
next_piece [] = ([], none)
next_piece (c ∷ s) =
    let (piece, rest) = next_piece s in if c == b',' then ([], some s) else (c ∷ piece, rest)

-- `for (;;)`: each round but the last takes a comma, so a fuel above the text's length is enough.
unfoldable pub split_csv_loop : ℕ → Bytes → List Bytes → List Bytes
unfolding next_piece
split_csv_loop zero s out = out
split_csv_loop (suc fuel) s out =
    let (piece, rest) = next_piece s in
    let out' = if is_empty piece then out else out ++ piece ∷ [] in
    elim rest [ none ↦ out' | some left ↦ split_csv_loop fuel left out' ]

unfoldable pub split_csv : Bytes → List Bytes
unfolding split_csv_loop
split_csv s = split_csv_loop (suc (length s)) s []

-- What the system answers to the calls of one `open_one`. In `bind` and `connect`, `none` is a
-- success. `after_close` is what `close` leaves in `errno`.
pub data Answer : Type 0 where
  given : ℕ → Answer
  denied : Cause → Answer

pub record Attempt : Type 0 where
  pub socket : Answer
  pub inet_pton : Bytes → Option ℕ
  pub bind : Option Cause
  pub connect : Option Cause
  pub after_close : Cause

-- `errno`, and the calls that succeeded.
pub record Process : Type 0 where
  pub errno : Cause
  pub done : List Action

-- `const int saved = errno; close(fd); errno = saved; return -1;`
abbrev pub close_and_fail : ℕ → Cause → Process → Option ℕ × Process
close_and_fail fd after_close p =
    let saved = p.errno in
    let closing : Process = record { errno = after_close; done = p.done ++ closed fd ∷ [] } in
    (none, record closing { errno = saved })

-- The last part of `open_one`.
unfoldable pub connect_one : Address → Attempt → ℕ → Process → Option ℕ × Process
connect_one dst a fd p = elim a.connect [
  | some e ↦ close_and_fail fd a.after_close (record p { errno = e })
  | none ↦ (some fd, record p { done = p.done ++ connected fd dst ∷ [] })
]

-- The part under `src_ip != nullptr`, from what `inet_pton` found, and what follows it.
unfoldable pub bind_one : Address → Option ℕ → Attempt → ℕ → Process → Option ℕ × Process
unfolding connect_one
bind_one dst none a fd p = (none, record { errno = einval; done = p.done ++ closed fd ∷ [] })
bind_one dst (some host) a fd p = elim a.bind [
  | some e ↦ close_and_fail fd a.after_close (record p { errno = e })
  | none ↦
      connect_one dst a fd
        (record p { done = p.done ++ bound fd (record { port = 0; host = host }) ∷ [] })
]

abbrev pub with_socket : Address → Option Bytes → Attempt → ℕ → Process → Option ℕ × Process
with_socket dst none a fd p = connect_one dst a fd p
with_socket dst (some ip) a fd p = bind_one dst (a.inet_pton ip) a fd p

-- `none` is the result -1.
unfoldable pub open_one : Address → Option Bytes → Attempt → Process → Option ℕ × Process
unfolding bind_one
open_one dst src a p = elim a.socket [
  | denied e ↦ (none, record p { errno = e })
  | given fd ↦ with_socket dst src a fd (record p { done = p.done ++ opened fd ∷ [] })
]

-- `src_ips[i % src_ips.size()]`, or the kernel's choice
abbrev pub source_of : List Bytes → ℕ → Option Bytes
source_of src_ips i = if is_empty src_ips then none else get_elem? src_ips (i % length src_ips)

-- What the loop of `main` leaves: the descriptors that are held, and where and why it stopped.
pub record Held : Type 0 where
  pub fds : List ℕ
  pub failed_at : Option (ℕ × Cause)
  pub process : Process

-- `for (int i = 0; i < count; i++)`, by the rounds that are left. `attempts i` answers round `i`.
unfoldable pub ramp : Address → List Bytes → (ℕ → Attempt) → ℕ → ℕ → List ℕ → Process → Held
unfolding open_one
ramp dst src_ips attempts zero i fds p = record { fds = fds; failed_at = none; process = p }
ramp dst src_ips attempts (suc left) i fds p =
    let (fd, p') = open_one dst (source_of src_ips i) (attempts i) p in
    elim fd [
      | none ↦ record { fds = fds; failed_at = some (i, p'.errno); process = p' }
      | some g ↦ ramp dst src_ips attempts left (i + 1) (fds ++ g ∷ []) p'
    ]

unfoldable pub diagnose : Cause → Bytes
diagnose eaddrnotavail =
    codes
      "source address not configured on lo0 (ifconfig lo0 alias <ip>/32), or that IP's ephemeral ports are exhausted -- widen net.inet.ip.portrange or add a source IP"
diagnose eaddrinuse = codes "no free source port for this 4-tuple -- port space exhausted"
diagnose emfile = codes "per-process fd limit hit -- raise kern.maxfilesperproc / ulimit -n"
diagnose enfile =
    codes
      "SYSTEM-WIDE open file limit hit -- raise kern.maxfiles (both ends are local, so N conns cost 2N file entries)"
diagnose econnrefused = codes "nothing listening -- is the Exchange Server running?"
diagnose etimedout =
    codes
      "connect timed out -- listen backlog may be full (raise kern.ipc.somaxconn and the server's backlog)"
diagnose econnreset = codes "server reset the connection -- it may have hit its own fd limit"
diagnose enobufs = codes "kernel out of socket buffer space -- raise kern.ipc.nmbclusters"
diagnose einval = codes "see errno above"
diagnose (other n) = codes "see errno above"

-- How `main` ends: an exit with status 1, or the report and the wait.
pub data Ending : Type 0 where
  bad_count bad_destination : Ending
  holding : Held → Ending

-- `main` behind the command line. `dst_host` is what `inet_pton` makes of the host, and a count
-- below 1 is 0. The sources are the parts of the fourth argument, if there is one.
unfoldable pub generate : Option ℕ → ℕ → ℕ → Option Bytes → (ℕ → Attempt) → Process → Ending
unfolding ramp split_csv
generate dst_host port count sources attempts p =
    let src_ips : List Bytes = elim sources [ none ↦ [] | some s ↦ split_csv s ] in
    if count == 0 then bad_count else elim dst_host [
      | none ↦ bad_destination
      | some host ↦
          holding (ramp (record { port = port % 65536; host = host }) src_ips attempts count 0 [] p)
    ]
