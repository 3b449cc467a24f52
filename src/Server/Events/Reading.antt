-- ===== src/Server/Events/Reading.antt =====
-- What an event does to the order book, exactly.
use mathlib.Core.List.{map}
use the_socket_exchange.Common.{
  ℕ, Option, none, some, List, [], ◌∷◌, ◌++◌, false, ◌&&◌, ◌≡◌, refl, ap, ◌∙◌, sym, subst, ◌==◌,
  nat_eq, Bytes, if◌then◌else◌, Bool-cases, Option-cases, inl, inr,
}
use the_socket_exchange.Assoc
use the_socket_exchange.Book.{OrderBook}
use the_socket_exchange.Framing.{LineBuffer, strip_cr, feed, drain, receive}
use the_socket_exchange.Framing.Stream.{frames, drain-frames}
use the_socket_exchange.Session.{ClientSession}
use the_socket_exchange.Os.{
  RecvAnswer, received, recv_failed, eintr, eagain, ewouldblock, econnaborted, econnreset, fault,
  Filter, reads, writes,
}
use the_socket_exchange.Server.{Server}
use the_socket_exchange.Server.Commands.BookEffect.{close_session-book}
use the_socket_exchange.Server.Commands.Standing.{standing, standing_of, standing_at}
use the_socket_exchange.Server.Events.{
  take_bytes, read_loop, on_readable, Event, is_open, handle_event, accept_new,
}
use the_socket_exchange.Server.Events.BookHistory.{accept_loop-book, on_writable-book}
use the_socket_exchange.Server.Events.Draining.{read, input, with_input, take_bytes-lines}
use the_socket_exchange.Server.Events.Trades.{trade_lines, leaves, settle_all, trade_lines-append}
use the_socket_exchange.Server.Events.Hearing.{Heard, with_input-standing, handle_all-Heard}

-- The bytes that the answers of `recv` hand over, up to the one that ends the loop.
abbrev pub chunks : List RecvAnswer → List Bytes
chunks [] = []
chunks (received [] ∷ rest) = []
chunks (received (c ∷ bytes) ∷ rest) = (c ∷ bytes) ∷ chunks rest
chunks (recv_failed e ∷ rest) = let more = chunks rest in elim e [ eintr ↦ more | _ ↦ [] ]

-- The lines that complete with some bytes.
abbrev taken : ℕ → Bytes → Server → List Bytes
taken fd bytes s = (drain (feed (input fd s) bytes)).0

take_bytes-Heard :
    (fd : ℕ) (bytes : Bytes) (c : ClientSession) (s : Server)
    → standing_at fd s ≡ some (standing c)
    → Heard fd c
        (taken fd bytes s)
        (drain (feed (input fd s) bytes)).1.buf
        s.book
        (take_bytes fd bytes s)
unfolding feed
take_bytes-Heard fd bytes c s at =
    let text = (input fd s).buf ++ bytes in
    subst (λ (p : List Bytes × LineBuffer). Heard fd c p.0 p.1.buf s.book (take_bytes fd bytes s))
      (sym (drain-frames (record { buf = text })))
      (subst (Heard fd c (map strip_cr (frames text).0) (frames text).1 s.book)
        (sym (take_bytes-lines fd bytes s))
        (handle_all-Heard fd (frames text).0 (frames text).1 c (with_input fd text s)
          (with_input-standing fd text c s at)))

read_loop-trades :
    (answers : List RecvAnswer) (fd : ℕ) (c : ClientSession) (s : Server)
    → standing_at fd s ≡ some (standing c)
    → (read_loop answers fd s).book ≡ trade_lines c (receive (input fd s) (chunks answers)).0 s.book
unfolding read_loop receive
read_loop-trades [] fd c s at = refl
read_loop-trades (received [] ∷ rest) fd c s at = close_session-book fd s
read_loop-trades (received (x ∷ xs) ∷ rest) fd c s at = elim (Bool-cases (leaves ls)) [
  | inl e ↦ rw (h.alive, e) (h.book ∙ sym (trade_lines-append c ls later s.book ∙ rw e refl))
  | inr e ↦
      rw (h.alive, e)
        (read_loop-trades rest fd (settle_all c ls) t (h.there e).0
          ∙ ap (λ b. trade_lines (settle_all c ls) (receive b (chunks rest)).0 t.book) (h.there e).1
          ∙ ap (trade_lines (settle_all c ls) later) h.book
          ∙ sym (trade_lines-append c ls later s.book ∙ rw e refl))
]
  where
    ls : List Bytes
    ls = taken fd (x ∷ xs) s

    t : Server
    t = (take_bytes fd (x ∷ xs) s).0

    later : List Bytes
    later = (receive (drain (feed (input fd s) (x ∷ xs))).1 (chunks rest)).0

    h : Heard fd c ls (drain (feed (input fd s) (x ∷ xs))).1.buf s.book (take_bytes fd (x ∷ xs) s)
    h = take_bytes-Heard fd (x ∷ xs) c s at
read_loop-trades (recv_failed eintr ∷ rest) fd c s at = read_loop-trades rest fd c s at
read_loop-trades (recv_failed eagain ∷ rest) fd c s at = refl
read_loop-trades (recv_failed ewouldblock ∷ rest) fd c s at = refl
read_loop-trades (recv_failed econnaborted ∷ rest) fd c s at = close_session-book fd s
read_loop-trades (recv_failed econnreset ∷ rest) fd c s at = close_session-book fd s
read_loop-trades (recv_failed fault ∷ rest) fd c s at = close_session-book fd s

-- What a read event on a descriptor does to the book.
abbrev pub read_effect : Server → Option ClientSession → OrderBook
read_effect s none = s.book
read_effect s (some c) = trade_lines c (receive c.inbuf (chunks s.os.recvs)).0 s.book

on_readable-trades :
    (fd : ℕ) (s : Server) → (on_readable fd s).book ≡ read_effect s (Assoc.lookup fd s.sessions)
unfolding on_readable
on_readable-trades fd s = elim (Option-cases (Assoc.lookup fd s.sessions)) [
  | inl e ↦ rw (e, on_readable) refl
  | inr (c, e) ↦
      rw (e, on_readable)
        (read_loop-trades s.os.recvs fd c s (ap standing_of e)
          ∙ ap (λ x. trade_lines c (receive (read x).inbuf (chunks s.os.recvs)).0 s.book) e)
]

-- What an event does to the book.
abbrev pub event_effect : Event → Server → OrderBook
event_effect e s =
    if e.error
    then s.book
    else if e.ident == s.listen_fd
    then s.book
    else elim e.filter [ writes ↦ s.book | reads ↦ read_effect s (Assoc.lookup e.ident s.sessions) ]

filter-book :
    (filter : Filter) (e : Event) (s : Server)
    → e.filter ≡ filter
    → e.error ≡ false
    → (e.ident == s.listen_fd) ≡ false
    → (handle_event e s).book ≡ event_effect e s
unfolding handle_event
filter-book reads e s f h k = elim (Bool-cases (is_open e.ident (on_readable e.ident s) && e.eof)) [
  | inl z ↦
      rw (h, k, f, z)
        (close_session-book e.ident (on_readable e.ident s) ∙ on_readable-trades e.ident s)
  | inr z ↦ rw (h, k, f, z) (on_readable-trades e.ident s)
]
filter-book writes e s f h k = rw (h, k, f) (on_writable-book e.ident s)

-- What an event does to the book. A read event on a session that is not marked as an error has just
-- the effects of the lines that the bytes from `recv`, behind those that waited, complete: one after
-- the other, by their words, the role settled so far and the session's descriptor and number, up to a
-- QUIT. Everything else leaves the book as it is: an error, a connection, output that can be sent, the
-- end of the stream, a failed `recv`, and the close of the session for any of these.
pub handle_event-book : (e : Event) (s : Server) → (handle_event e s).book ≡ event_effect e s
unfolding handle_event accept_new
handle_event-book e s = elim (Bool-cases e.error) [
  | inl h ↦ elim (Bool-cases (e.ident == s.listen_fd)) [
    | inl k ↦ rw (h, k) refl
    | inr k ↦ rw (h, k) (close_session-book e.ident s)
  ]
  | inr h ↦ elim (Bool-cases (e.ident == s.listen_fd)) [
    | inl k ↦ rw (h, k) (accept_loop-book s.os.accepts s)
    | inr k ↦ filter-book e.filter e s refl h k
  ]
]
