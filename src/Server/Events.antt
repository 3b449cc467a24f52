-- ===== src/Server/Events.antt =====
-- The event handlers of server/exchange_server.cpp and the loop of `main` over events. `printf` and
-- `perror` are left out.
pub mod BookHistory
pub mod Trades
pub mod Hearing
pub mod Reading
pub mod Flushing
pub mod Progress
pub mod Draining
pub mod SessionNames
pub mod UniqueNames
use the_socket_exchange.Common.{
  ℕ, zero, suc, ◌+◌, ◌%◌, ◌^◌, none, some, List, [], ◌∷◌, ◌++◌, Bool, true, false, ◌&&◌,
  if◌then◌else◌, ◌==◌, nat_eq, Bytes, length,
}
use the_socket_exchange.Assoc
use the_socket_exchange.Framing
use the_socket_exchange.Session.{ClientSession}
use the_socket_exchange.Os.{
  eintr, eagain, ewouldblock, econnaborted, AcceptAnswer, accepted, accept_failed, RecvAnswer,
  received, recv_failed, Filter, reads, writes, kq_add, kq_del,
}
use the_socket_exchange.Os.Sending.{finished, blocked, broken, flush}
use the_socket_exchange.Server.{Server, store, with_os, close_session}
use the_socket_exchange.Server.Commands.{session_at, handle_line}

-- The body of `accept_new` for a new descriptor. `session_seq` is an `unsigned long long`.
unfoldable pub accept_one : ℕ → Server → Server
accept_one cfd s =
    let c = record (session_at cfd s) { fd = cfd; session_seq = s.next_session_seq } in
    with_os (kq_add cfd reads)
      (store cfd c (record s { next_session_seq = (s.next_session_seq + 1) % 2 ^ 64 }))

abbrev pub with_accepts : List AcceptAnswer → Server → Server
with_accepts rest = with_os (λ os. record os { accepts = rest })

-- `for (;;)` of `accept_new`, over the answers of `accept`, which it uses up one by one.
unfoldable pub accept_loop : List AcceptAnswer → Server → Server
unfolding accept_one
accept_loop [] s = s
accept_loop (accepted cfd ∷ rest) s = accept_loop rest (accept_one cfd (with_accepts rest s))
accept_loop (accept_failed e ∷ rest) s =
    let s' = with_accepts rest s in
    let again = accept_loop rest s' in elim e [ eintr ↦ again | econnaborted ↦ again | _ ↦ s' ]

unfoldable pub accept_new : Server → Server
unfolding accept_loop
accept_new s = accept_loop s.os.accepts s

-- `while (c.inbuf.next_line(line))` of `on_readable`: `false` if the session went. Each line takes a
-- byte of the buffer at least, so a fuel above its length is enough.
unfoldable pub handle_lines : ℕ → ℕ → Server → Server × Bool
handle_lines zero fd s = (s, true)
handle_lines (suc fuel) fd s =
    let c = session_at fd s in
    let (found, inbuf) = Framing.next_line c.inbuf in
    let s' = store fd (record c { inbuf = inbuf }) s in
    elim found [
      | none ↦ (s', true)
      | some line ↦
          let (s'', alive) = handle_line fd line s' in
          elim alive [ true ↦ handle_lines fuel fd s'' | false ↦ (s'', false) ]
    ]

-- One `recv` with bytes: the lines that they complete are handled.
unfoldable pub take_bytes : ℕ → Bytes → Server → Server × Bool
unfolding handle_lines
take_bytes fd bytes s =
    let c = session_at fd s in
    let inbuf = Framing.feed c.inbuf bytes in
    handle_lines (suc (length inbuf.buf)) fd (store fd (record c { inbuf = inbuf }) s)

abbrev pub with_recvs : List RecvAnswer → Server → Server
with_recvs rest = with_os (λ os. record os { recvs = rest })

-- `for (;;)` of `on_readable`, over the answers of `recv`
unfoldable pub read_loop : List RecvAnswer → ℕ → Server → Server
unfolding take_bytes
read_loop [] fd s = with_recvs [] s
read_loop (received [] ∷ rest) fd s = with_recvs rest (close_session fd s)
read_loop (received (c ∷ bytes) ∷ rest) fd s =
    let (s', alive) = take_bytes fd (c ∷ bytes) s in
    let more = read_loop rest fd s' in if alive then more else with_recvs rest s'
read_loop (recv_failed e ∷ rest) fd s =
    let again = read_loop rest fd s in
    elim e [
      | eintr ↦ again
      | eagain ↦ with_recvs rest s
      | ewouldblock ↦ with_recvs rest s
      | _ ↦ with_recvs rest (close_session fd s)
    ]

unfoldable pub on_readable : ℕ → Server → Server
unfolding read_loop
on_readable fd s = elim (Assoc.lookup fd s.sessions) [
  | none ↦ s
  | some c ↦ read_loop s.os.recvs fd s
]

-- `on_writable` on a session
unfoldable pub flush_session : ℕ → ClientSession → Server → Server
flush_session fd c s =
    let run = flush s.os.sends [] c.outbuf in
    let sent =
      store fd (record c { outbuf = run.outbuf })
        (with_os
          (λ os. record os {
            sends = run.answers;
            wire = os.wire ++ record { fd = fd; bytes = run.taken } ∷ [];
          })
          s) in
    elim run.end [
      | blocked ↦ sent
      | broken ↦ close_session fd sent
      | finished ↦
          if c.want_write
          then with_os (kq_del fd writes)
              (store fd (record c { outbuf = []; want_write = false }) sent)
          else sent
    ]

unfoldable pub on_writable : ℕ → Server → Server
unfolding flush_session
on_writable fd s = elim (Assoc.lookup fd s.sessions) [ none ↦ s | some c ↦ flush_session fd c s ]

-- A `struct kevent` that `kevent` reports.
pub record Event : Type 0 where
  pub ident : ℕ
  pub filter : Filter
  pub error : Bool
  pub eof : Bool

abbrev pub is_open : ℕ → Server → Bool
is_open fd s = elim (Assoc.lookup fd s.sessions) [ none ↦ false | some c ↦ true ]

unfoldable pub handle_event : Event → Server → Server
unfolding on_readable on_writable accept_new
handle_event e s =
    if e.error
    then (if e.ident == s.listen_fd then s else close_session e.ident s)
    else if e.ident == s.listen_fd
    then accept_new s
    else elim e.filter [
      | reads ↦
          let s' = on_readable e.ident s in
          if is_open e.ident s' && e.eof then close_session e.ident s' else s'
      | writes ↦ on_writable e.ident s
    ]

-- The events that `kevent` reports, one after the other, over all its calls.
unfoldable pub run : List Event → Server → Server
unfolding handle_event
run [] s = s
run (e ∷ es) s = run es (handle_event e s)
