-- ===== src/Server/Watching/Sessions.antt =====
-- The registrations when sessions come and go.
use the_socket_exchange.Common.{
  ℕ, Option, none, some, Bool, true, false, ◌≡◌, refl, ◌∙◌, arith, if◌then◌else◌, nat_eq, eq_self,
}
use the_socket_exchange.Assoc
use the_socket_exchange.Assoc.{Assoc}
use the_socket_exchange.Session.{ClientSession, default_session}
use the_socket_exchange.Os.{Os, reads, writes, kq_add, kq_del, close}
use the_socket_exchange.Os.Registrations.{
  watches, IsSound, IsElsewhere, kq_add-watches, kq_del-watches, close-watches, close-IsSound,
  kq_add-IsElsewhere, kq_del-IsElsewhere, kq_add_self, kq_add-reads_write,
}
use the_socket_exchange.Server.{Server, close_found, close_session}
use the_socket_exchange.Server.Events.{accept_one}
use the_socket_exchange.Server.Watching.{
  IsWatching, IsWatched, IsServed, insert-IsWatching, erase-IsWatching,
}

close_found-IsWatched :
    (fd : ℕ) (c : ClientSession) (s : Server) → IsWatched s → IsWatched (close_found fd (some c) s)
close_found-IsWatched fd c s w = go c.want_write
  where
    os : Os
    os = kq_del fd reads s.os

    sound : IsSound os
    sound = (kq_del-watches fd reads s.os w.sound).1

    close-IsElsewhere : (os' : Os) → IsElsewhere fd s.os os' → IsElsewhere fd s.os (close fd os')
    close-IsElsewhere os' k g f apart = close-watches fd os' g f ∙ ground (arith, k g f apart)

    off : (os' : Os) → watches fd writes (close fd os') ≡ false
    off os' = close-watches fd os' fd writes ∙ ground (arith, eq_self fd)

    step :
        (os' : Os)
        → IsSound os'
        → IsElsewhere fd s.os os'
        → IsWatching (Assoc.erase fd s.sessions) (close fd os')
    step os' k l =
        erase-IsWatching fd s.sessions s.os (close fd os') w (close-IsSound fd os' k)
          (close-IsElsewhere os' l) (off os')

    go :
        (b : Bool)
        → IsWatching (Assoc.erase fd s.sessions) (close fd (if b then kq_del fd writes os else os))
    go true = step (kq_del fd writes os) (kq_del-watches fd writes os sound).1 (λ g f apart.
        kq_del-IsElsewhere fd os sound writes g f apart
        ∙ kq_del-IsElsewhere fd s.os w.sound reads g f apart)
    go false = step os sound (kq_del-IsElsewhere fd s.os w.sound reads)

pub close_session-IsWatched : (fd : ℕ) (s : Server) → IsWatched s → IsWatched (close_session fd s)
unfolding close_session
close_session-IsWatched fd s w = go (Assoc.lookup fd s.sessions)
  where
    go : (found : Option ClientSession) → IsWatched (close_found fd found s)
    go none = w
    go (some c) = close_found-IsWatched fd c s w

pub accept_one-IsWatched : (cfd : ℕ) (s : Server) → IsWatched s → IsWatched (accept_one cfd s)
unfolding accept_one
accept_one-IsWatched cfd s w = go (Assoc.lookup cfd s.sessions) refl
  where
    joined_as : Option ClientSession → ClientSession
    joined_as x = record (elim x as (λ _. ClientSession) [ none ↦ default_session | some d ↦ d ]) {
      fd = cfd;
      session_seq = s.next_session_seq;
    }

    os : Os
    os = kq_add cfd reads s.os

    put : (c : ClientSession) → IsServed cfd c os → IsWatching (Assoc.insert cfd c s.sessions) os
    put =
        insert-IsWatching cfd s.sessions s.os os w (kq_add-watches cfd reads s.os w.sound).1
          (kq_add-IsElsewhere cfd s.os w.sound reads)

    go :
        (found : Option ClientSession)
        → Assoc.lookup cfd s.sessions ≡ found
        → IsWatching (Assoc.insert cfd (joined_as found) s.sessions) os
    go none e = put (joined_as none) (record {
      own = refl;
      reading = kq_add_self cfd s.os w.sound reads;
      writing = kq_add-reads_write cfd s.os w.sound ∙ w.gone cfd e;
      queued = refl;
    })
    go (some c) e = put (joined_as (some c)) (record {
      own = refl;
      reading = kq_add_self cfd s.os w.sound reads;
      writing = kq_add-reads_write cfd s.os w.sound ∙ (w.writing cfd c e).0;
      queued = (w.writing cfd c e).1;
    })
