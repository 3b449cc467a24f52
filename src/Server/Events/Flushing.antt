-- ===== src/Server/Events/Flushing.antt =====
-- `on_writable` moves queued bytes to the operating system, and changes no client's stream.
use the_socket_exchange.Common.{
  concat, ℕ, some, [], ◌∷◌, ◌++◌, false, ◌≡◌, ◌≢◌, refl, ap, ◌∙◌, sym, subst, arith, ◌==◌, nat_eq,
  nat_beq_iff, Bytes, if◌then◌else◌, Bool-cases, inl, inr, All, append-nil, append_assoc,
}
use the_socket_exchange.Assoc
use the_socket_exchange.Assoc.Laws.{lookup-insert_self, lookup-insert_ne}
use the_socket_exchange.Session.{ClientSession}
use the_socket_exchange.Os.{writes, kq_del}
use the_socket_exchange.Os.Sending.{SendEnd, finished, blocked, broken, FlushRun, flush}
use the_socket_exchange.Os.Sending.Laws.{IsFine, flush-IsFlushed, flush-IsFine}
use the_socket_exchange.Server.{Server, store, with_os}
use the_socket_exchange.Server.Streams.{
  stream, wire_to, pending_of, stream_stored, wire_to_one, kq_del-keeps,
}
use the_socket_exchange.Server.Events.{flush_session, on_writable}

module _ (fd : ℕ) (c : ClientSession) (s : Server) where
  unfoldable pub ran : FlushRun
  ran = flush s.os.sends [] c.outbuf

  -- The server once the flush is booked.
  unfoldable pub booked : Server
  booked =
      store fd (record c { outbuf = ran.outbuf })
        (with_os
          (λ os. record os {
            sends = ran.answers;
            wire = os.wire ++ record { fd = fd; bytes = ran.taken } ∷ [];
          })
          s)

  booked-stream : Assoc.lookup fd s.sessions ≡ some c → (g : ℕ) → stream g booked ≡ stream g s
  unfolding booked ran
  booked-stream found g = elim (Bool-cases (fd == g)) [
    | inl e ↦
        subst (λ k. stream k booked ≡ stream k s) ((nat_beq_iff fd g).0 e)
          (ap (λ x. wire_to fd booked.os.wire ++ pending_of x) (lookup-insert_self fd _ s.sessions)
            ∙ ap (λ w. w ++ concat ran.outbuf)
                (wire_to_one fd fd s.os.wire ran.taken ∙ ground arith)
            ∙ append_assoc (wire_to fd s.os.wire) ran.taken (concat ran.outbuf)
            ∙ ap (◌++◌ (wire_to fd s.os.wire)) (flush-IsFlushed s.os.sends [] c.outbuf).exact
            ∙ ap (λ x. wire_to fd s.os.wire ++ pending_of x) (sym found))
    | inr e ↦
        ap (λ x. wire_to g booked.os.wire ++ pending_of x)
          (lookup-insert_ne fd g _ s.sessions (λ h. ground (arith, nat_beq_iff fd g)))
        ∙ ap (λ w. w ++ pending_of (Assoc.lookup g s.sessions))
            (wire_to_one fd g s.os.wire ran.taken
              ∙ ground (arith, append-nil (wire_to g s.os.wire)))
  ]

  -- The queue is drained: the write event is taken off.
  unfoldable pub drained : Server
  drained =
      with_os (kq_del fd writes) (store fd (record c { outbuf = []; want_write = false }) booked)

  drained-stream :
      Assoc.lookup fd s.sessions ≡ some c
      → ran.outbuf ≡ []
      → (g : ℕ) → stream g drained ≡ stream g s
  unfolding drained booked
  drained-stream found none_left g = elim (Bool-cases (fd == g)) [
    | inl e ↦
        subst (λ k. stream k drained ≡ stream k s) ((nat_beq_iff fd g).0 e)
          (ap (λ w. wire_to fd w ++ pending_of (Assoc.lookup fd t.sessions))
              (kq_del-keeps fd writes t.os).0
            ∙ (stream_stored fd _ booked).0
            ∙ ap (λ q. wire_to fd booked.os.wire ++ concat q) (sym none_left)
            ∙ ap (λ x. wire_to fd booked.os.wire ++ pending_of x)
                (sym (lookup-insert_self fd _ s.sessions))
            ∙ booked-stream found fd)
    | inr e ↦
        ap (λ w. wire_to g w ++ pending_of (Assoc.lookup g t.sessions))
          (kq_del-keeps fd writes t.os).0
        ∙ (stream_stored fd _ booked).1 g (λ h. ground (arith, nat_beq_iff fd g))
        ∙ booked-stream found g
  ]
    where
      t : Server
      t = store fd (record c { outbuf = []; want_write = false }) booked

  flush_session-stream :
      Assoc.lookup fd s.sessions ≡ some c
      → All IsFine s.os.sends
      → All (λ (x : Bytes). x ≢ []) c.outbuf
      → (g : ℕ) → stream g (flush_session fd c s) ≡ stream g s
  unfolding flush_session ran booked drained
  flush_session-stream found fine full g = by_end ran.end refl
    where
      by_end : (end : SendEnd) → ran.end ≡ end → stream g (flush_session fd c s) ≡ stream g s
      by_end blocked e = rw (e, flush_session) (booked-stream found g)
      by_end broken e = absurd ((flush-IsFine s.os.sends [] c.outbuf fine full).0 e)
      by_end finished e = elim (Bool-cases c.want_write) [
        | inl h ↦
            rw (e, flush_session)
              (subst (λ b. stream g (if b then drained else booked) ≡ stream g s) (sym h)
                (drained-stream found ((flush-IsFlushed s.os.sends [] c.outbuf).done e) g))
        | inr h ↦
            rw (e, flush_session)
              (subst (λ b. stream g (if b then drained else booked) ≡ stream g s) (sym h)
                (booked-stream found g))
      ]

-- While the connection is up, `on_writable` changes no client's stream: what it takes off the
-- queue is what the operating system took, in order. No queued piece is empty.
pub on_writable-streams :
    (fd : ℕ) (c : ClientSession) (s : Server)
    → Assoc.lookup fd s.sessions ≡ some c
    → All IsFine s.os.sends
    → All (λ (x : Bytes). x ≢ []) c.outbuf
    → (g : ℕ) → stream g (on_writable fd s) ≡ stream g s
unfolding on_writable
on_writable-streams fd c s found fine full g =
    rw (found, on_writable) (flush_session-stream fd c s found fine full g)
