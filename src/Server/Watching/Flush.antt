-- ===== src/Server/Watching/Flush.antt =====
-- `on_writable` disarms the write event exactly when nothing is left.
use the_socket_exchange.Common.{
  ℕ, some, List, [], ◌∷◌, ◌++◌, false, ◌≡◌, ◌≢◌, refl, ap, ◌∙◌, sym, subst, arith, if◌then◌else◌,
  nat_eq, Bytes, is_empty, Bool-cases, inl, inr,
}
use the_socket_exchange.Assoc
use the_socket_exchange.Assoc.{Assoc}
use the_socket_exchange.Assoc.Laws.{lookup-insert}
use the_socket_exchange.Session.{ClientSession}
use the_socket_exchange.Os.{SendAnswer, writes, kq_del}
use the_socket_exchange.Os.Sending.{SendEnd, finished, blocked, broken, flush}
use the_socket_exchange.Os.Sending.Laws.{flush-IsFlushed}
use the_socket_exchange.Os.Registrations.{
  kq_del-watches, kq_del-IsElsewhere, kq_del-writes_read, kq_del_self,
}
use the_socket_exchange.Server.{Server, with_os}
use the_socket_exchange.Server.Events.{flush_session}
use the_socket_exchange.Server.Events.Flushing.{ran, booked, drained}
use the_socket_exchange.Server.Watching.{
  IsWatched, IsServed, insert-IsWatching, IsWatching-same, IsWatching-apart,
}
use the_socket_exchange.Server.Watching.Sending.{IsWatching-IsServed, requeue-IsWatched}
use the_socket_exchange.Server.Watching.Sessions.{close_session-IsWatched}

flush-empty : (answers : List SendAnswer) → (flush answers [] []).end ≡ finished
unfolding flush
flush-empty [] = refl
flush-empty (a ∷ answers) = refl

is_empty-false : {A : Type 0} (xs : List A) → xs ≢ [] → is_empty xs ≡ false
is_empty-false [] h = absurd (h refl)
is_empty-false (x ∷ xs) h = refl

-- A flush that stops early found something to send.
flush-pending :
    (answers : List SendAnswer) (queue : List Bytes)
    → (flush answers [] queue).end ≢ finished
    → is_empty (flush answers [] queue).outbuf ≡ is_empty queue
flush-pending answers [] h = absurd (h (flush-empty answers))
flush-pending answers (q ∷ queue) h =
    is_empty-false _ ((flush-IsFlushed answers [] (q ∷ queue)).pending h)

module _ (fd : ℕ) (c : ClientSession) (s : Server) (w : IsWatched s)
    (found : Assoc.lookup fd s.sessions ≡ some c) where
  served : IsServed fd c s.os
  served = IsWatching-IsServed fd c s.sessions s.os w found

  -- The server with what the operating system took, and the session as it was.
  abbrev with_sent : Server
  with_sent =
      with_os
        (λ os. record os {
          sends = (ran fd c s).answers;
          wire = os.wire ++ record { fd = fd; bytes = (ran fd c s).taken } ∷ [];
        })
        s

  with_sent-IsWatched : IsWatched with_sent
  with_sent-IsWatched = IsWatching-apart s.sessions s.os with_sent.os refl refl w

  booked-IsWatched : is_empty (ran fd c s).outbuf ≡ is_empty c.outbuf → IsWatched (booked fd c s)
  unfolding booked
  booked-IsWatched k =
      requeue-IsWatched fd c (ran fd c s).outbuf with_sent with_sent-IsWatched found k

  drained-IsWatched : IsWatched (drained fd c s)
  unfolding drained booked
  drained-IsWatched =
      IsWatching-same (Assoc.insert fd c' s.sessions)
        (Assoc.insert fd c'
          (Assoc.insert fd (record c { outbuf = (ran fd c s).outbuf }) s.sessions))
        (kq_del fd writes with_sent.os)
        (λ g. ground (
          arith,
          lookup-insert fd g c'
              (Assoc.insert fd (record c { outbuf = (ran fd c s).outbuf }) s.sessions),
          lookup-insert fd g (record c { outbuf = (ran fd c s).outbuf }) s.sessions,
          lookup-insert fd g c' s.sessions,
        ))
        (insert-IsWatching fd s.sessions with_sent.os (kq_del fd writes with_sent.os)
          with_sent-IsWatched (kq_del-watches fd writes with_sent.os w.sound).1
          (kq_del-IsElsewhere fd with_sent.os w.sound writes) c'
          (record {
            own = served.own;
            reading = kq_del-writes_read fd with_sent.os w.sound ∙ served.reading;
            writing = kq_del_self fd with_sent.os w.sound;
            queued = refl;
          }))
    where
      c' : ClientSession
      c' = record c { outbuf = []; want_write = false }

  pub flush_session-IsWatched : IsWatched (flush_session fd c s)
  unfolding flush_session ran booked drained
  flush_session-IsWatched = by_end (ran fd c s).end refl
    where
      early : (ran fd c s).end ≢ finished → IsWatched (booked fd c s)
      early h = booked-IsWatched (flush-pending s.os.sends c.outbuf h)

      -- The queue was and is empty.
      idle : (ran fd c s).end ≡ finished → c.want_write ≡ false → IsWatched (booked fd c s)
      idle e h =
          let none_left = (flush-IsFlushed s.os.sends [] c.outbuf).done e in
          booked-IsWatched (ap is_empty none_left ∙ ground (arith, served.queued, h))

      by_end : (end : SendEnd) → (ran fd c s).end ≡ end → IsWatched (flush_session fd c s)
      by_end blocked e = rw (e, flush_session) (early (λ k. cc))
      by_end broken e =
          rw (e, flush_session) (close_session-IsWatched fd (booked fd c s) (early (λ k. cc)))
      by_end finished e = elim (Bool-cases c.want_write) [
        | inl h ↦
            rw (e, flush_session)
              (subst (λ b. IsWatched (if b then drained fd c s else booked fd c s)) (sym h)
                drained-IsWatched)
        | inr h ↦
            rw (e, flush_session)
              (subst (λ b. IsWatched (if b then drained fd c s else booked fd c s)) (sym h)
                (idle e h))
      ]
