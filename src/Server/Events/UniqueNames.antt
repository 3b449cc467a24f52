-- ===== src/Server/Events/UniqueNames.antt =====
-- User names over a run of the server: no two sessions ever have the same.
use the_socket_exchange.Common.{
  ℕ, Option, none, some, List, [], ◌∷◌, Bool, false, ◌&&◌, ◌≡◌, ◌≢◌, refl, sym, subst, ◌==◌, nat_eq,
  if◌then◌else◌, Option-cases, Bool-cases, inl, inr,
}
use the_socket_exchange.Assoc
use the_socket_exchange.Assoc.Laws.{lookup-insert_self}
use the_socket_exchange.Session.{ClientSession, default_session}
use the_socket_exchange.Os.{
  AcceptAnswer, accepted, accept_failed, eintr, eagain, ewouldblock, econnaborted, econnreset,
  fault, Filter, reads, writes,
}
use the_socket_exchange.Os.Sending.{SendEnd, finished, blocked, broken}
use the_socket_exchange.Server.{Server}
use the_socket_exchange.Server.UserNames.{IsNamed, close_session-IsNamed, insert-IsNamed}
use the_socket_exchange.Server.Events.Flushing.{ran, booked, drained}
use the_socket_exchange.Server.Events.SessionNames.{restore-IsNamed, on_readable-IsNamed}
use the_socket_exchange.Server.Events.{
  accept_one, with_accepts, accept_loop, accept_new, on_readable, flush_session, on_writable, Event,
  is_open, handle_event, run,
}

abbrev read : Option ClientSession → ClientSession
read x = elim x as (λ _. ClientSession) [ none ↦ default_session | some d ↦ d ]

-- The name of the session at a descriptor, if it has one, is no other session's.
own_name :
    (fd : ℕ) (s : Server) (x : Option ClientSession)
    → Assoc.lookup fd s.sessions ≡ x
    → IsNamed s.sessions
    → (read x).username ≢ []
    → (h : ℕ) (d : ClientSession) → Assoc.lookup h s.sessions ≡ some d
    → h ≢ fd
    → d.username ≢ (read x).username
own_name fd s none e v full = absurd (full refl)
own_name fd s (some c) e v full =
    λ h d f apart same. v.distinct fd h c d e f (λ q. apart (sym q)) full (sym same)

accept_one-IsNamed :
    (cfd : ℕ) (s : Server) → IsNamed s.sessions → IsNamed (accept_one cfd s).sessions
unfolding accept_one
accept_one-IsNamed cfd s v =
    insert-IsNamed cfd _ s.sessions refl (own_name cfd s (Assoc.lookup cfd s.sessions) refl v) v

accept_loop-IsNamed :
    (answers : List AcceptAnswer) (s : Server)
    → IsNamed s.sessions
    → IsNamed (accept_loop answers s).sessions
unfolding accept_loop
accept_loop-IsNamed [] s v = v
accept_loop-IsNamed (accepted fd ∷ rest) s v =
    accept_loop-IsNamed rest (accept_one fd (with_accepts rest s))
      (accept_one-IsNamed fd (with_accepts rest s) v)
accept_loop-IsNamed (accept_failed eintr ∷ rest) s v =
    accept_loop-IsNamed rest (with_accepts rest s) v
accept_loop-IsNamed (accept_failed econnaborted ∷ rest) s v =
    accept_loop-IsNamed rest (with_accepts rest s) v
accept_loop-IsNamed (accept_failed eagain ∷ rest) s v = v
accept_loop-IsNamed (accept_failed ewouldblock ∷ rest) s v = v
accept_loop-IsNamed (accept_failed econnreset ∷ rest) s v = v
accept_loop-IsNamed (accept_failed fault ∷ rest) s v = v

module _ (fd : ℕ) (c : ClientSession) (s : Server) (found : Assoc.lookup fd s.sessions ≡ some c)
    (v : IsNamed s.sessions) where
  abbrev flushed : ClientSession
  flushed = record c { outbuf = (ran fd c s).outbuf }

  booked-IsNamed : IsNamed (booked fd c s).sessions
  unfolding booked
  booked-IsNamed = restore-IsNamed fd c flushed s.sessions found refl refl v

  drained-IsNamed : IsNamed (drained fd c s).sessions
  unfolding drained booked
  drained-IsNamed =
      restore-IsNamed fd flushed _ (Assoc.insert fd flushed s.sessions)
        (lookup-insert_self fd flushed s.sessions) refl refl booked-IsNamed

  flush_session-IsNamed : IsNamed (flush_session fd c s).sessions
  unfolding flush_session ran booked drained
  flush_session-IsNamed = by_end (ran fd c s).end refl
    where
      after : Bool → Server
      after b = if b then drained fd c s else booked fd c s

      by_end : (end : SendEnd) → (ran fd c s).end ≡ end → IsNamed (flush_session fd c s).sessions
      by_end blocked e = rw (e, flush_session) booked-IsNamed
      by_end broken e =
          rw (e, flush_session) (close_session-IsNamed fd (booked fd c s) booked-IsNamed)
      by_end finished e = elim (Bool-cases c.want_write) [
        | inl h ↦
            rw (e, flush_session) (subst (λ b. IsNamed (after b).sessions) (sym h) drained-IsNamed)
        | inr h ↦
            rw (e, flush_session) (subst (λ b. IsNamed (after b).sessions) (sym h) booked-IsNamed)
      ]

on_writable-IsNamed :
    (fd : ℕ) (s : Server) → IsNamed s.sessions → IsNamed (on_writable fd s).sessions
unfolding on_writable
on_writable-IsNamed fd s v = elim (Option-cases (Assoc.lookup fd s.sessions)) [
  | inl e ↦ rw (e, on_writable) v
  | inr (c, e) ↦ rw (e, on_writable) (flush_session-IsNamed fd c s e v)
]

filter-IsNamed :
    (filter : Filter) (e : Event) (s : Server)
    → e.filter ≡ filter
    → e.error ≡ false
    → (e.ident == s.listen_fd) ≡ false
    → IsNamed s.sessions
    → IsNamed (handle_event e s).sessions
unfolding handle_event
filter-IsNamed reads e s f h k v =
    elim (Bool-cases (is_open e.ident (on_readable e.ident s) && e.eof)) [
      | inl z ↦
          rw (h, k, f, z)
            (close_session-IsNamed e.ident (on_readable e.ident s)
              (on_readable-IsNamed e.ident s v))
      | inr z ↦ rw (h, k, f, z) (on_readable-IsNamed e.ident s v)
    ]
filter-IsNamed writes e s f h k v = rw (h, k, f) (on_writable-IsNamed e.ident s v)

handle_event-IsNamed :
    (e : Event) (s : Server) → IsNamed s.sessions → IsNamed (handle_event e s).sessions
unfolding handle_event accept_new
handle_event-IsNamed e s v = elim (Bool-cases e.error) [
  | inl h ↦ elim (Bool-cases (e.ident == s.listen_fd)) [
    | inl k ↦ rw (h, k) v
    | inr k ↦ rw (h, k) (close_session-IsNamed e.ident s v)
  ]
  | inr h ↦ elim (Bool-cases (e.ident == s.listen_fd)) [
    | inl k ↦ rw (h, k) (accept_loop-IsNamed s.os.accepts s v)
    | inr k ↦ filter-IsNamed e.filter e s refl h k v
  ]
]

run-keeps_IsNamed :
    (es : List Event) (s : Server) → IsNamed s.sessions → IsNamed (run es s).sessions
unfolding run
run-keeps_IsNamed [] s v = v
run-keeps_IsNamed (e ∷ es) s v =
    run-keeps_IsNamed es (handle_event e s) (handle_event-IsNamed e s v)

no_sessions : IsNamed []
unfolding Assoc.lookup
no_sessions = record { keyed = λ g c e. cc; distinct = λ g h c d e. cc }

-- A server that starts without sessions has, after any events, each session under its own
-- descriptor, and no two sessions with the same user name.
pub run-IsNamed : (es : List Event) (s : Server) → s.sessions ≡ [] → IsNamed (run es s).sessions
run-IsNamed es s e = run-keeps_IsNamed es s (subst IsNamed (sym e) no_sessions)
