-- ===== src/Server/Steps/Watched.antt =====
-- Every step keeps the registrations in line with the sessions.
use the_socket_exchange.Common.{
  ℕ, List, [], false, not, ◌≡◌, refl, ap, ◌∙◌, sym, subst, nat_eq, is_empty,
}
use the_socket_exchange.Assoc
use the_socket_exchange.Assoc.{Assoc}
use the_socket_exchange.Os.{Os, writes}
use the_socket_exchange.Os.Registrations.{watches, IsSound}
use the_socket_exchange.Server.{Server}
use the_socket_exchange.Server.Events.{with_accepts, Event, run}
use the_socket_exchange.Server.Steps.{
  Step, traded, told, edited, ended, joined, missed, heard, flushed, Reaches-keeps,
}
use the_socket_exchange.Server.Steps.Runs.{run-Reaches}
use the_socket_exchange.Server.Watching.{IsWatching, IsWatched, insert-IsWatching, IsWatching-apart}
use the_socket_exchange.Server.Watching.Sending.{IsWatching-IsServed, enqueue-IsWatched}
use the_socket_exchange.Server.Watching.Sessions.{close_session-IsWatched, accept_one-IsWatched}
use the_socket_exchange.Server.Watching.Flush.{flush_session-IsWatched}

Step-IsWatched : {s t : Server} → Step s t → IsWatched s → IsWatched t
Step-IsWatched (traded b s) w = w
Step-IsWatched (told fd line s) w = enqueue-IsWatched fd line s w
Step-IsWatched (edited fd c c' s e h) w =
    let v = IsWatching-IsServed fd c s.sessions s.os w e in
    insert-IsWatching fd s.sessions s.os s.os w w.sound (λ g f apart. refl) c'
      (record {
        own = h.fd ∙ v.own;
        reading = v.reading;
        writing = v.writing ∙ sym h.want_write;
        queued = h.want_write ∙ v.queued ∙ ap (λ q. not (is_empty q)) (sym h.outbuf);
      })
Step-IsWatched (ended fd s) w = close_session-IsWatched fd s w
Step-IsWatched (joined fd rest s e) w =
    accept_one-IsWatched fd (with_accepts rest s) (IsWatching-apart s.sessions s.os _ refl refl w)
Step-IsWatched (missed e rest s k) w = IsWatching-apart s.sessions s.os _ refl refl w
Step-IsWatched (heard rest s) w = IsWatching-apart s.sessions s.os _ refl refl w
Step-IsWatched (flushed fd c s e) w = flush_session-IsWatched fd c s w e

no_sessions : (os : Os) → IsSound os → ((g : ℕ) → watches g writes os ≡ false) → IsWatching [] os
unfolding Assoc.lookup
no_sessions os sound off = record {
  sound = sound;
  keyed = λ g c e. cc;
  reading = λ g c e. cc;
  writing = λ g c e. cc;
  gone = λ g e. off g;
}

-- Where the kqueue grants every change, a server that starts without sessions and waits to write to
-- nobody has, after any events and with any answers of the other calls: every session read from, and
-- the write event armed exactly for the sessions with queued output. So no queued output is
-- forgotten, and no event comes for a session with nothing to write.
pub run-IsWatched :
    (es : List Event) (s : Server)
    → IsSound s.os
    → s.sessions ≡ []
    → ((g : ℕ) → watches g writes s.os ≡ false)
    → IsWatched (run es s)
run-IsWatched es s sound none_yet off =
    Reaches-keeps IsWatched (λ t u. Step-IsWatched) s (run es s) (run-Reaches es s)
      (subst (λ m. IsWatching m s.os) (sym none_yet) (no_sessions s.os sound off))
