-- ===== src/Server/Events/Progress.antt =====
-- Queued output is sent in the end, when the client reads.
use the_socket_exchange.Common.{
  ℕ, zero, suc, ◌≤◌, some, List, [], ◌∷◌, ◌++◌, false, ◌≡◌, refl, ap, ◌∙◌, sym, subst, arith,
  if◌then◌else◌, ◌==◌, nat_eq, Bytes, length, replicate, concat, All, All-mono, append-nil,
  Bool-cases, inl, inr,
}
use the_socket_exchange.Assoc
use the_socket_exchange.Assoc.Laws.{lookup-insert_self}
use the_socket_exchange.Session.{ClientSession}
use the_socket_exchange.Os.{writes}
use the_socket_exchange.Os.Sending.{SendEnd, finished, blocked, broken}
use the_socket_exchange.Os.Sending.Laws.{flush-IsFlushed}
use the_socket_exchange.Os.Sending.Progress.{
  IsRoom, IsRoom-IsFine, IsFull, weight, IsProgress, flush-IsProgress,
}
use the_socket_exchange.Server.{Server}
use the_socket_exchange.Server.Streams.{stream, wire_to, pending_of, kq_del-keeps}
use the_socket_exchange.Server.Events.{flush_session, on_writable, Event, handle_event, run}
use the_socket_exchange.Server.Events.Flushing.{ran, booked, drained, on_writable-streams}

-- A session with so many bytes to send at most, whose peer has room for a byte in so many calls.
pub record IsDraining (most fd : ℕ) (s : Server) : Type 0 where
  pub session : ClientSession
  pub client : (fd == s.listen_fd) ≡ false
  pub found : Assoc.lookup fd s.sessions ≡ some session
  pub full : All IsFull session.outbuf
  pub room : All IsRoom s.os.sends
  pub enough : weight session.outbuf ≤ length s.os.sends
  pub few : weight session.outbuf ≤ most

module _ (most fd : ℕ) (s : Server) (d : IsDraining (suc most) fd s) where
  abbrev c : ClientSession
  c = d.session

  progress : IsProgress c.outbuf (ran fd c s)
  unfolding ran
  progress = flush-IsProgress s.os.sends [] c.outbuf d.room d.full d.enough

  left-IsFull : All IsFull (ran fd c s).outbuf
  unfolding ran
  left-IsFull = (flush-IsFlushed s.os.sends [] c.outbuf).occupied d.full

  booked-IsDraining : IsDraining most fd (booked fd c s)
  unfolding booked
  booked-IsDraining = record {
    session = record c { outbuf = (ran fd c s).outbuf };
    client = d.client;
    found = lookup-insert_self fd _ s.sessions;
    full = left-IsFull;
    room = progress.room;
    enough = progress.enough;
    few = omega (arith, progress.less, d.few);
  }

  drained-IsDraining : IsDraining most fd (drained fd c s)
  unfolding drained booked
  drained-IsDraining = record {
    session = record c { outbuf = []; want_write = false };
    client = d.client;
    found = lookup-insert_self fd _ _;
    full = tt;
    room = subst (All IsRoom) (sym (kq_del-keeps fd writes (booked fd c s).os).1) progress.room;
    enough = omega arith;
    few = omega arith;
  }

  flush_session-IsDraining : IsDraining most fd (flush_session fd c s)
  unfolding flush_session ran booked drained
  flush_session-IsDraining = by_end (ran fd c s).end refl
    where
      by_end : (end : SendEnd) → (ran fd c s).end ≡ end → IsDraining most fd (flush_session fd c s)
      by_end blocked e = rw (e, flush_session) booked-IsDraining
      by_end broken e = absurd (progress.unbroken e)
      by_end finished e = elim (Bool-cases c.want_write) [
        | inl h ↦
            rw (e, flush_session)
              (subst (λ b. IsDraining most fd (if b then drained fd c s else booked fd c s)) (sym h)
                drained-IsDraining)
        | inr h ↦
            rw (e, flush_session)
              (subst (λ b. IsDraining most fd (if b then drained fd c s else booked fd c s)) (sym h)
                booked-IsDraining)
      ]

  on_writable-IsDraining : IsDraining most fd (on_writable fd s)
  unfolding on_writable
  on_writable-IsDraining = rw (d.found, on_writable) flush_session-IsDraining

-- `kevent` says that a socket can be written to.
abbrev pub write_event : ℕ → Event
write_event fd = record { ident = fd; filter = writes; error = false; eof = false }

write_event-on_writable :
    (fd : ℕ) (s : Server)
    → (fd == s.listen_fd) ≡ false
    → handle_event (write_event fd) s ≡ on_writable fd s
unfolding handle_event
write_event-on_writable fd s h = rw h refl

-- Nothing is left to send, and everything that was owed has been sent.
abbrev pub IsSentTo : ℕ → Bytes → Server → Type 0
IsSentTo fd owed t =
    (c : ClientSession) × (Assoc.lookup fd t.sessions ≡ some c)
    × (c.outbuf ≡ [])
    × (wire_to fd t.os.wire ≡ owed)

weightless : (queue : List Bytes) → All IsFull queue → weight queue ≤ 0 → queue ≡ []
weightless [] f h = refl
weightless ([] ∷ queue) (x, f) h = absurd (x refl)
weightless ((b ∷ front) ∷ queue) f h = absurd (omega arith)

-- When a client reads, so that each `send` takes a byte of its output at least, as many write events
-- as there are queued bytes are enough: then all that the client was owed has been sent to it, in
-- order, its queue is empty, and its session is there. The calls must suffice for the bytes, and no
-- queued piece is empty.
pub run-sends :
    (n fd : ℕ) (s : Server)
    → IsDraining n fd s
    → IsSentTo fd (stream fd s) (run (replicate n (write_event fd)) s)
unfolding run
run-sends zero fd s d =
    let none_left = weightless d.session.outbuf d.full d.few in
    (
      d.session,
      d.found,
      none_left,
      sym (append-nil (wire_to fd s.os.wire))
          ∙ ap (λ q. wire_to fd s.os.wire ++ concat q) (sym none_left)
          ∙ ap (λ x. wire_to fd s.os.wire ++ pending_of x) (sym d.found),
    )
run-sends (suc n) fd s d =
    subst (λ t. IsSentTo fd (stream fd s) (run (replicate n (write_event fd)) t))
      (sym (write_event-on_writable fd s d.client))
      (subst (λ owed. IsSentTo fd owed (run (replicate n (write_event fd)) (on_writable fd s)))
        (on_writable-streams fd d.session s d.found
          (All-mono IsRoom _ IsRoom-IsFine s.os.sends d.room) d.full fd)
        (run-sends n fd (on_writable fd s) (on_writable-IsDraining n fd s d)))
