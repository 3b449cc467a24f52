-- ===== src/Sockets/Listening.antt =====
-- When `make_listen_socket` hands out a socket, and what it has done to it then.
use the_socket_exchange.Common.{
  ℕ, zero, suc, subst, ◌<◌, ◌%◌, Option, none, some, List, [], ◌∷◌, true, ◌≡◌, ◌≢◌, refl, arith,
  Bytes, codes, Bool-cases, inl, inr, bytes_eq, bytes_beq_iff,
}
use the_socket_exchange.Sockets.{
  Address, Calls, Action, opened, reuses, bound, listens, fill_addr, backlog_of, bind_and_listen,
  listen_on, make_listen_socket,
}
use the_socket_exchange.Sockets.Descriptors.{open_after, held, make_listen_socket-open}

-- The address that a host and a port stand for: the low 16 bits of the port, and the number of the
-- host, which is 0 (any interface) for no host and for 0.0.0.0.
pub record IsAddress (calls : Calls) (host : Bytes) (port : ℕ) (a : Address) : Type 0 where
  pub port_bits : a.port ≡ port % 65536
  pub unnamed : host ≡ [] → a.host ≡ 0
  pub any : host ≡ codes "0.0.0.0" → a.host ≡ 0
  pub parsed : host ≢ [] → host ≢ codes "0.0.0.0" → calls.inet_pton host ≡ some a.host

fill_addr-IsAddress :
    (calls : Calls) (host : Bytes) (port : ℕ) (a : Address)
    → fill_addr calls host port ≡ some a
    → IsAddress calls host port a
unfolding fill_addr
fill_addr-IsAddress calls [] port a e = ground arith
fill_addr-IsAddress calls (c ∷ host) port a e =
    ground (arith, bytes_beq_iff (c ∷ host) (codes "0.0.0.0"))

IsAddress-fill_addr :
    (calls : Calls) (host : Bytes) (port : ℕ) (a : Address)
    → IsAddress calls host port a
    → fill_addr calls host port ≡ some a
unfolding fill_addr
IsAddress-fill_addr calls [] port a i = ground (arith, i.unnamed refl)
IsAddress-fill_addr calls (c ∷ host) port a i =
    ground (arith, bytes_beq_iff (c ∷ host) (codes "0.0.0.0"))

-- The length of the queue of connections: what is asked for, or the system's largest if that is 0.
pub record IsBacklog (calls : Calls) (backlog n : ℕ) : Type 0 where
  pub given : 0 < backlog → n ≡ backlog
  pub largest : backlog ≡ 0 → n ≡ calls.somaxconn

backlog_of-IsBacklog : (calls : Calls) (b : ℕ) → IsBacklog calls b (backlog_of calls b)
backlog_of-IsBacklog calls b = ground arith

IsBacklog-backlog_of : (calls : Calls) (b n : ℕ) → IsBacklog calls b n → n ≡ backlog_of calls b
IsBacklog-backlog_of calls zero n i = i.largest refl
IsBacklog-backlog_of calls (suc b) n i = ground arith

-- Every call that a socket `g`, bound to `a` with a queue of `n` connections, needs succeeds.
pub record Grants (calls : Calls) (host : Bytes) (port backlog g : ℕ) (a : Address) (n : ℕ)
    : Type 0 where
  pub socket : calls.socket ≡ some g
  pub reuse : calls.setsockopt g ≡ true
  pub address : IsAddress calls host port a
  pub bind : calls.bind g a ≡ true
  pub backlog_length : IsBacklog calls backlog n
  pub listen : calls.listen g n ≡ true

pub data Outcome (calls : Calls) (host : Bytes) (port backlog : ℕ) (r : Option ℕ × List Action)
    : Type 0 where
  handed_out :
      (g : ℕ) (a : Address) (n : ℕ)
      → Grants calls host port backlog g a n
      → r ≡ (some g, opened g ∷ reuses g ∷ bound g a ∷ listens g n ∷ [])
      → Outcome calls host port backlog r
  failed :
      ¬ ((g : ℕ) × (a : Address) × (n : ℕ) × Grants calls host port backlog g a n)
      → r.0 ≡ none
      → open_after [] r.1 ≡ []
      → Outcome calls host port backlog r

module _ (calls : Calls) (host : Bytes) (port backlog : ℕ) where
  -- The calls that `Grants` asks for are those that the code makes.
  granted :
      (g : ℕ) (a : Address) (n : ℕ)
      → Grants calls host port backlog g a n
      → (calls.socket ≡ some g)
        × (calls.setsockopt g ≡ true)
        × (fill_addr calls host port ≡ some a)
        × (calls.bind g a ≡ true)
        × (calls.listen g (backlog_of calls backlog) ≡ true)
  granted g a n w = (
    w.socket,
    w.reuse,
    IsAddress-fill_addr calls host port a w.address,
    w.bind,
    subst (λ k. calls.listen g k ≡ true) (IsBacklog-backlog_of calls backlog n w.backlog_length)
        w.listen,
  )

  bind_and_listen-Outcome :
      (fd : ℕ) (addr : Option Address)
      → calls.socket ≡ some fd
      → calls.setsockopt fd ≡ true
      → fill_addr calls host port ≡ addr
      → open_after [] (bind_and_listen calls fd backlog addr).1
        ≡ held (bind_and_listen calls fd backlog addr).0
      → Outcome calls host port backlog (bind_and_listen calls fd backlog addr)
  unfolding bind_and_listen
  bind_and_listen-Outcome fd none s o f =
      λ h. failed (λ (g, a, n, w). let k = granted g a n w in ground arith) refl h
  bind_and_listen-Outcome fd (some addr) s o f = elim (Bool-cases (calls.bind fd addr)) [
    | inr b ↦ rw b (λ h. failed (λ (g, a, n, w). let k = granted g a n w in ground arith) refl h)
    | inl b ↦ elim (Bool-cases (calls.listen fd (backlog_of calls backlog))) [
      | inr l ↦
          rw (b, l) (λ h. failed (λ (g, a, n, w). let k = granted g a n w in ground arith) refl h)
      | inl l ↦
          rw (b, l)
            (λ h.
              handed_out fd addr (backlog_of calls backlog)
                (record {
                  socket = s;
                  reuse = o;
                  address = fill_addr-IsAddress calls host port addr f;
                  bind = b;
                  backlog_length = backlog_of-IsBacklog calls backlog;
                  listen = l;
                })
                refl)
    ]
  ]

  listen_on-Outcome :
      (fd : Option ℕ)
      → calls.socket ≡ fd
      → open_after [] (listen_on calls host port backlog fd).1
        ≡ held (listen_on calls host port backlog fd).0
      → Outcome calls host port backlog (listen_on calls host port backlog fd)
  unfolding listen_on
  listen_on-Outcome none s =
      λ h. failed (λ (g, a, n, w). let k = granted g a n w in ground arith) refl h
  listen_on-Outcome (some fd) s = elim (Bool-cases (calls.setsockopt fd)) [
    | inr e ↦ rw e (λ h. failed (λ (g, a, n, w). let k = granted g a n w in ground arith) refl h)
    | inl e ↦ rw e (bind_and_listen-Outcome fd (fill_addr calls host port) s e refl)
  ]

-- On every path of `make_listen_socket`: if the system grants each call for a socket, for the address
-- of the host (any interface for no host and 0.0.0.0, else the number that `inet_pton` finds) with the
-- low 16 bits of the port, and for the queue that was asked for (the system's largest if none was),
-- then this socket is handed out, set to reuse its address, bound to that address and made to listen
-- with that queue, in this order. If the system refuses one of them, or the host cannot be read, no
-- socket is handed out and none is left open.
pub make_listen_socket_lem :
    (calls : Calls) (host : Bytes) (port backlog : ℕ)
    → Outcome calls host port backlog (make_listen_socket calls host port backlog)
unfolding make_listen_socket
make_listen_socket_lem calls host port backlog =
    listen_on-Outcome calls host port backlog calls.socket refl
      (make_listen_socket-open calls host port backlog)
