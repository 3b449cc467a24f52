-- ===== src/Server/Events/BookHistory.antt =====
-- The order book over a run of the server: whatever the clients send and the operating system
-- answers, it changes by the book's own operations only.
use the_socket_exchange.Common.{
  ℕ, zero, suc, List, [], ◌∷◌, false, ◌&&◌, ◌||◌, ◌≡◌, refl, sym, subst, ◌==◌, nat_eq, bytes_eq,
  Bytes, codes, Option-cases, Bool-cases, inl, inr, length,
}
use the_socket_exchange.Assoc
use the_socket_exchange.Assoc.Laws.{lookup-insert_self}
use the_socket_exchange.Framing
use the_socket_exchange.Protocol.{
  tokenize, is_valid_instrument, parse_positive_int, parse_nonnegative_int,
}
use the_socket_exchange.Book.{OrderBook, init}
use the_socket_exchange.Book.Invariant.{IsValid}
use the_socket_exchange.Book.Invariant.Uncrossed.{IsUncrossed}
use the_socket_exchange.Book.History.{
  Evolves, unchanged, placed, withdrawn, Evolves-trans, Evolves-sound,
}
use the_socket_exchange.Session.{ClientSession}
use the_socket_exchange.Os.{
  AcceptAnswer, accepted, accept_failed, RecvAnswer, received, recv_failed, eintr, eagain,
  ewouldblock, econnaborted, econnreset, fault, Filter, reads, writes,
}
use the_socket_exchange.Os.Sending.{SendEnd, finished, blocked, broken, flush}
use the_socket_exchange.Server.{Server, store, is_market_data}
use the_socket_exchange.Server.Commands.{session_at, handle_line}
use the_socket_exchange.Server.Commands.BookEffect.{
  order_effect, cancel_effect, book_effect, close_session-book,
}
use the_socket_exchange.Server.Commands.Trading.{handle_line-book}
use the_socket_exchange.Server.Events.{
  accept_one, with_accepts, accept_loop, accept_new, handle_lines, take_bytes, read_loop,
  on_readable, flush_session, on_writable, Event, is_open, handle_event, run,
}

order_effect-Evolves :
    (c : ClientSession) (cmd : Bytes) (args : List Bytes) (b : OrderBook)
    → Evolves b (order_effect c cmd args b)
order_effect-Evolves c cmd [] b = unchanged
order_effect-Evolves c cmd (i ∷ []) b = unchanged
order_effect-Evolves c cmd (i ∷ q ∷ []) b = unchanged
order_effect-Evolves c cmd (i ∷ q ∷ p ∷ []) b =
    elim (Bool-cases
      (is_valid_instrument i && ((parse_positive_int q 0).0 && (parse_positive_int p 0).0))) [
        | inl e ↦ rw e (placed _ refl unchanged)
        | inr e ↦ rw e unchanged
      ]
order_effect-Evolves c cmd (i ∷ q ∷ p ∷ r ∷ rest) b = unchanged

cancel_effect-Evolves :
    (c : ClientSession) (args : List Bytes) (b : OrderBook) → Evolves b (cancel_effect c args b)
cancel_effect-Evolves c [] b = unchanged
cancel_effect-Evolves c (oid ∷ []) b = elim (Bool-cases (parse_nonnegative_int oid 0).0) [
  | inl e ↦ rw e (withdrawn _ c.fd c.session_seq unchanged)
  | inr e ↦ rw e unchanged
]
cancel_effect-Evolves c (oid ∷ r ∷ rest) b = unchanged

book_effect-Evolves :
    (c : ClientSession) (tokens : List Bytes) (b : OrderBook) → Evolves b (book_effect c tokens b)
book_effect-Evolves c [] b = unchanged
book_effect-Evolves c (cmd ∷ args) b = elim (Bool-cases (is_market_data c.role)) [
  | inl e ↦ rw e unchanged
  | inr e ↦ elim (Bool-cases ((cmd == codes "BUY") || (cmd == codes "SELL"))) [
    | inl h ↦ rw (e, h) (order_effect-Evolves c cmd args b)
    | inr h ↦ elim (Bool-cases (cmd == codes "CANCEL")) [
      | inl k ↦ rw (e, h, k) (cancel_effect-Evolves c args b)
      | inr k ↦ rw (e, h, k) unchanged
    ]
  ]
]

-- A step that leaves the book alone.
same_book : {b b' : OrderBook} → b' ≡ b → Evolves b b'
same_book {b} e = subst (Evolves b) (sym e) unchanged

stored_line-Evolves :
    (fd : ℕ) (line : Bytes) (c : ClientSession) (s : Server)
    → Evolves s.book (handle_line fd line (store fd c s)).0.book
stored_line-Evolves fd line c s =
    subst (Evolves s.book)
      (sym (handle_line-book fd line (store fd c s) c (lookup-insert_self fd c s.sessions)))
      (book_effect-Evolves c (tokenize line) s.book)

handle_lines-Evolves : (fuel fd : ℕ) (s : Server) → Evolves s.book (handle_lines fuel fd s).0.book
unfolding handle_lines
handle_lines-Evolves zero fd s = unchanged
handle_lines-Evolves (suc fuel) fd s =
    elim (Option-cases (Framing.next_line (session_at fd s).inbuf).0) [
      | inl e ↦ rw (e, handle_lines) unchanged
      | inr (line, e) ↦
          let c = record (session_at fd s) {
            inbuf = (Framing.next_line (session_at fd s).inbuf).1;
          } in
          let r = handle_line fd line (store fd c s) in
          elim (Bool-cases r.1) [
            | inl h ↦
                rw (e, handle_lines, h)
                  (Evolves-trans (stored_line-Evolves fd line c s)
                    (handle_lines-Evolves fuel fd r.0))
            | inr h ↦ rw (e, handle_lines, h) (stored_line-Evolves fd line c s)
          ]
    ]

take_bytes-Evolves :
    (fd : ℕ) (bytes : Bytes) (s : Server) → Evolves s.book (take_bytes fd bytes s).0.book
unfolding take_bytes
take_bytes-Evolves fd bytes s =
    let inbuf = Framing.feed (session_at fd s).inbuf bytes in
    handle_lines-Evolves (suc (length inbuf.buf)) fd
      (store fd (record (session_at fd s) { inbuf = inbuf }) s)

read_loop-Evolves :
    (answers : List RecvAnswer) (fd : ℕ) (s : Server) → Evolves s.book (read_loop answers fd s).book
unfolding read_loop
read_loop-Evolves [] fd s = unchanged
read_loop-Evolves (received [] ∷ rest) fd s = same_book (close_session-book fd s)
read_loop-Evolves (received (c ∷ bytes) ∷ rest) fd s =
    elim (Bool-cases (take_bytes fd (c ∷ bytes) s).1) [
      | inl e ↦
          rw e (Evolves-trans (take_bytes-Evolves fd (c ∷ bytes) s) (read_loop-Evolves rest fd _))
      | inr e ↦ rw e (take_bytes-Evolves fd (c ∷ bytes) s)
    ]
read_loop-Evolves (recv_failed eintr ∷ rest) fd s = read_loop-Evolves rest fd s
read_loop-Evolves (recv_failed eagain ∷ rest) fd s = unchanged
read_loop-Evolves (recv_failed ewouldblock ∷ rest) fd s = unchanged
read_loop-Evolves (recv_failed econnaborted ∷ rest) fd s = same_book (close_session-book fd s)
read_loop-Evolves (recv_failed econnreset ∷ rest) fd s = same_book (close_session-book fd s)
read_loop-Evolves (recv_failed fault ∷ rest) fd s = same_book (close_session-book fd s)

on_readable-Evolves : (fd : ℕ) (s : Server) → Evolves s.book (on_readable fd s).book
unfolding on_readable
on_readable-Evolves fd s = elim (Option-cases (Assoc.lookup fd s.sessions)) [
  | inl e ↦ rw (e, on_readable) unchanged
  | inr (c, e) ↦ rw (e, on_readable) (read_loop-Evolves s.os.recvs fd s)
]

pub accept_loop-book :
    (answers : List AcceptAnswer) (s : Server) → (accept_loop answers s).book ≡ s.book
unfolding accept_loop accept_one
accept_loop-book [] s = refl
accept_loop-book (accepted fd ∷ rest) s = accept_loop-book rest _
accept_loop-book (accept_failed eintr ∷ rest) s = accept_loop-book rest (with_accepts rest s)
accept_loop-book (accept_failed econnaborted ∷ rest) s = accept_loop-book rest (with_accepts rest s)
accept_loop-book (accept_failed eagain ∷ rest) s = refl
accept_loop-book (accept_failed ewouldblock ∷ rest) s = refl
accept_loop-book (accept_failed econnreset ∷ rest) s = refl
accept_loop-book (accept_failed fault ∷ rest) s = refl

flush_session-book :
    (fd : ℕ) (c : ClientSession) (s : Server) → (flush_session fd c s).book ≡ s.book
unfolding flush_session
flush_session-book fd c s = by_end (flush s.os.sends [] c.outbuf).end refl
  where
    by_end :
        (end : SendEnd)
        → (flush s.os.sends [] c.outbuf).end ≡ end
        → (flush_session fd c s).book ≡ s.book
    by_end blocked e = rw (e, flush_session) refl
    by_end broken e = rw (e, flush_session) (close_session-book fd _)
    by_end finished e = elim (Bool-cases c.want_write) [
      | inl h ↦ rw (e, flush_session, h) refl
      | inr h ↦ rw (e, flush_session, h) refl
    ]

pub on_writable-book : (fd : ℕ) (s : Server) → (on_writable fd s).book ≡ s.book
unfolding on_writable
on_writable-book fd s = elim (Option-cases (Assoc.lookup fd s.sessions)) [
  | inl e ↦ rw (e, on_writable) refl
  | inr (c, e) ↦ rw (e, on_writable) (flush_session-book fd c s)
]

filter-Evolves :
    (filter : Filter) (e : Event) (s : Server)
    → e.filter ≡ filter
    → e.error ≡ false
    → (e.ident == s.listen_fd) ≡ false
    → Evolves s.book (handle_event e s).book
unfolding handle_event
filter-Evolves reads e s f h k =
    elim (Bool-cases (is_open e.ident (on_readable e.ident s) && e.eof)) [
      | inl z ↦
          rw (h, k, f, z)
            (Evolves-trans (on_readable-Evolves e.ident s)
              (same_book (close_session-book e.ident (on_readable e.ident s))))
      | inr z ↦ rw (h, k, f, z) (on_readable-Evolves e.ident s)
    ]
filter-Evolves writes e s f h k = rw (h, k, f) (same_book (on_writable-book e.ident s))

handle_event-Evolves : (e : Event) (s : Server) → Evolves s.book (handle_event e s).book
unfolding handle_event accept_new
handle_event-Evolves e s = elim (Bool-cases e.error) [
  | inl h ↦ elim (Bool-cases (e.ident == s.listen_fd)) [
    | inl k ↦ rw (h, k) unchanged
    | inr k ↦ rw (h, k) (same_book (close_session-book e.ident s))
  ]
  | inr h ↦ elim (Bool-cases (e.ident == s.listen_fd)) [
    | inl k ↦ rw (h, k) (same_book (accept_loop-book s.os.accepts s))
    | inr k ↦ filter-Evolves e.filter e s refl h k
  ]
]

-- Over any events, with any answers of the operating system and any bytes of the clients, the
-- book changes by orders that take the next id and are submitted, and by cancellations, only.
pub run-Evolves : (es : List Event) (s : Server) → Evolves s.book (run es s).book
unfolding run
run-Evolves [] s = unchanged
run-Evolves (e ∷ es) s =
    Evolves-trans (handle_event-Evolves e s) (run-Evolves es (handle_event e s))

-- A server that starts with an empty book has a well-formed and uncrossed book after any events,
-- with any answers of the operating system and any bytes of the clients.
pub run-IsValid :
    (es : List Event) (s : Server)
    → s.book ≡ init
    → IsValid (run es s).book × IsUncrossed (run es s).book
run-IsValid es s h =
    Evolves-sound (run es s).book (subst (λ b. Evolves b (run es s).book) h (run-Evolves es s))
