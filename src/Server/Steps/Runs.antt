-- ===== src/Server/Steps/Runs.antt =====
-- Events as sequences of steps.
use the_socket_exchange.Common.{
  ℕ, zero, suc, List, [], ◌∷◌, Bool, true, false, ◌&&◌, ◌≡◌, refl, sym, subst, ◌==◌, nat_eq, Bytes,
  Option-cases, Bool-cases, inl, inr, length,
}
use the_socket_exchange.Assoc
use the_socket_exchange.Assoc.Laws.{lookup-insert_self}
use the_socket_exchange.Framing
use the_socket_exchange.Session.{ClientSession}
use the_socket_exchange.Os.{
  AcceptAnswer, accepted, accept_failed, RecvAnswer, received, recv_failed, eintr, eagain,
  ewouldblock, econnaborted, econnreset, fault, Filter, reads, writes,
}
use the_socket_exchange.Os.Registrations.{kq_add-accepts}
use the_socket_exchange.Server.{Server, store}
use the_socket_exchange.Server.Commands.{session_at, handle_line}
use the_socket_exchange.Server.Commands.Identity.{found_at}
use the_socket_exchange.Server.Commands.LineEffect.{handle_line-LineEffect}
use the_socket_exchange.Server.Events.{
  accept_one, with_accepts, accept_loop, accept_new, handle_lines, take_bytes, read_loop,
  on_readable, on_writable, Event, is_open, handle_event, run,
}
use the_socket_exchange.Server.Events.SessionNames.{Present, LineEffect-Present}
use the_socket_exchange.Server.Steps.{
  edited, ended, joined, missed, heard, flushed, Reaches, stays, then_by, by_step, Reaches-trans,
}
use the_socket_exchange.Server.Steps.Lines.{handle_line-Reaches}

-- The input of the session at hand is replaced.
abbrev with_inbuf : Framing.LineBuffer → ℕ → Server → Server
with_inbuf b fd s = store fd (record (session_at fd s) { inbuf = b }) s

with_inbuf-Reaches :
    (b : Framing.LineBuffer) (fd : ℕ) (s : Server) → Present fd s → Reaches s (with_inbuf b fd s)
with_inbuf-Reaches b fd s (c, found) =
    subst (λ (x : ClientSession). Reaches s (store fd (record x { inbuf = b }) s))
      (sym (found_at fd c s found))
      (by_step (
        edited fd c (record c { inbuf = b }) s found
          (record {
            fd = refl;
            session_seq = refl;
            role = λ h. refl;
            outbuf = refl;
            want_write = refl;
          })))

-- Where a loop of `on_readable` leads to, and that the session is there if it says so.
abbrev LeadsTo : ℕ → Server → Server × Bool → Type 0
LeadsTo fd s r = Reaches s r.0 × (r.1 ≡ true → Present fd r.0)

handle_lines-LeadsTo :
    (fuel fd : ℕ) (s : Server) → Present fd s → LeadsTo fd s (handle_lines fuel fd s)
unfolding handle_lines
handle_lines-LeadsTo zero fd s p = (stays, λ h. p)
handle_lines-LeadsTo (suc fuel) fd s p =
    elim (Option-cases (Framing.next_line (session_at fd s).inbuf).0) [
      | inl e ↦ rw (e, handle_lines) (first, λ h. here)
      | inr (line, e) ↦
          let r = handle_line fd line t in
          let done = Reaches-trans first (handle_line-Reaches fd line t here.0 here.1) in
          elim (Bool-cases r.1) [
            | inl alive ↦
                let still =
                  LineEffect-Present fd t r (handle_line-LineEffect fd line t here.0 here.1) here
                    alive in
                let more = handle_lines-LeadsTo fuel fd r.0 still in
                rw (e, handle_lines, alive) (Reaches-trans done more.0, more.1)
            | inr gone ↦ rw (e, handle_lines, gone) (done, λ h. cc)
          ]
    ]
  where
    t : Server
    t = with_inbuf (Framing.next_line (session_at fd s).inbuf).1 fd s

    first : Reaches s t
    first = with_inbuf-Reaches (Framing.next_line (session_at fd s).inbuf).1 fd s p

    here : Present fd t
    here = (_, lookup-insert_self fd _ s.sessions)

take_bytes-LeadsTo :
    (fd : ℕ) (bytes : Bytes) (s : Server) → Present fd s → LeadsTo fd s (take_bytes fd bytes s)
unfolding take_bytes
take_bytes-LeadsTo fd bytes s p =
    let b = Framing.feed (session_at fd s).inbuf bytes in
    let (r, q) =
      handle_lines-LeadsTo (suc (length b.buf)) fd (with_inbuf b fd s)
        (_, lookup-insert_self fd _ s.sessions) in
    (Reaches-trans (with_inbuf-Reaches b fd s p) r, q)

read_loop-Reaches :
    (answers : List RecvAnswer) (fd : ℕ) (s : Server)
    → Present fd s
    → Reaches s (read_loop answers fd s)
unfolding read_loop
read_loop-Reaches [] fd s p = by_step (heard [] s)
read_loop-Reaches (received [] ∷ rest) fd s p = then_by (heard rest _) (by_step (ended fd s))
read_loop-Reaches (received (c ∷ bytes) ∷ rest) fd s p =
    let (r, q) = take_bytes-LeadsTo fd (c ∷ bytes) s p in
    elim (Bool-cases (take_bytes fd (c ∷ bytes) s).1) [
      | inl e ↦
          rw e (Reaches-trans r (read_loop-Reaches rest fd (take_bytes fd (c ∷ bytes) s).0 (q e)))
      | inr e ↦ rw e (then_by (heard rest _) r)
    ]
read_loop-Reaches (recv_failed eintr ∷ rest) fd s p = read_loop-Reaches rest fd s p
read_loop-Reaches (recv_failed eagain ∷ rest) fd s p = by_step (heard rest s)
read_loop-Reaches (recv_failed ewouldblock ∷ rest) fd s p = by_step (heard rest s)
read_loop-Reaches (recv_failed econnaborted ∷ rest) fd s p =
    then_by (heard rest _) (by_step (ended fd s))
read_loop-Reaches (recv_failed econnreset ∷ rest) fd s p =
    then_by (heard rest _) (by_step (ended fd s))
read_loop-Reaches (recv_failed fault ∷ rest) fd s p = then_by (heard rest _) (by_step (ended fd s))

on_readable-Reaches : (fd : ℕ) (s : Server) → Reaches s (on_readable fd s)
unfolding on_readable
on_readable-Reaches fd s = elim (Option-cases (Assoc.lookup fd s.sessions)) [
  | inl e ↦ rw (e, on_readable) stays
  | inr (c, e) ↦ rw (e, on_readable) (read_loop-Reaches s.os.recvs fd s (c, e))
]

on_writable-Reaches : (fd : ℕ) (s : Server) → Reaches s (on_writable fd s)
unfolding on_writable
on_writable-Reaches fd s = elim (Option-cases (Assoc.lookup fd s.sessions)) [
  | inl e ↦ rw (e, on_writable) stays
  | inr (c, e) ↦ rw (e, on_writable) (by_step (flushed fd c s e))
]

pub accept_one-accepts : (cfd : ℕ) (s : Server) → (accept_one cfd s).os.accepts ≡ s.os.accepts
unfolding accept_one
accept_one-accepts cfd s = kq_add-accepts cfd reads s.os

accept_loop-Reaches :
    (answers : List AcceptAnswer) (s : Server)
    → s.os.accepts ≡ answers
    → Reaches s (accept_loop answers s)
unfolding accept_loop
accept_loop-Reaches [] s e = stays
accept_loop-Reaches (accepted fd ∷ rest) s e = Reaches-trans (by_step (joined fd rest s e)) (
    accept_loop-Reaches rest (accept_one fd (with_accepts rest s))
      (accept_one-accepts fd (with_accepts rest s)))
accept_loop-Reaches (accept_failed eintr ∷ rest) s e =
    Reaches-trans (by_step (missed eintr rest s e))
      (accept_loop-Reaches rest (with_accepts rest s) refl)
accept_loop-Reaches (accept_failed econnaborted ∷ rest) s e =
    Reaches-trans (by_step (missed econnaborted rest s e))
      (accept_loop-Reaches rest (with_accepts rest s) refl)
accept_loop-Reaches (accept_failed eagain ∷ rest) s e = by_step (missed eagain rest s e)
accept_loop-Reaches (accept_failed ewouldblock ∷ rest) s e = by_step (missed ewouldblock rest s e)
accept_loop-Reaches (accept_failed econnreset ∷ rest) s e = by_step (missed econnreset rest s e)
accept_loop-Reaches (accept_failed fault ∷ rest) s e = by_step (missed fault rest s e)

filter-Reaches :
    (filter : Filter) (e : Event) (s : Server)
    → e.filter ≡ filter
    → e.error ≡ false
    → (e.ident == s.listen_fd) ≡ false
    → Reaches s (handle_event e s)
unfolding handle_event
filter-Reaches reads e s f h k =
    elim (Bool-cases (is_open e.ident (on_readable e.ident s) && e.eof)) [
      | inl z ↦
          rw (h, k, f, z)
            (then_by (ended e.ident (on_readable e.ident s)) (on_readable-Reaches e.ident s))
      | inr z ↦ rw (h, k, f, z) (on_readable-Reaches e.ident s)
    ]
filter-Reaches writes e s f h k = rw (h, k, f) (on_writable-Reaches e.ident s)

handle_event-Reaches : (e : Event) (s : Server) → Reaches s (handle_event e s)
unfolding handle_event accept_new
handle_event-Reaches e s = elim (Bool-cases e.error) [
  | inl h ↦ elim (Bool-cases (e.ident == s.listen_fd)) [
    | inl k ↦ rw (h, k) stays
    | inr k ↦ rw (h, k) (by_step (ended e.ident s))
  ]
  | inr h ↦ elim (Bool-cases (e.ident == s.listen_fd)) [
    | inl k ↦ rw (h, k) (accept_loop-Reaches s.os.accepts s refl)
    | inr k ↦ filter-Reaches e.filter e s refl h k
  ]
]

-- What the server does over any events is a sequence of steps.
pub run-Reaches : (es : List Event) (s : Server) → Reaches s (run es s)
unfolding run
run-Reaches [] s = stays
run-Reaches (e ∷ es) s =
    Reaches-trans (handle_event-Reaches e s) (run-Reaches es (handle_event e s))
