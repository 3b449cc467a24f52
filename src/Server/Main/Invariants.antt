-- ===== src/Server/Main/Invariants.antt =====
-- What holds of the server that `main` runs.
use the_socket_exchange.Common.{
  ℕ, ◌+◌, ◌^◌, ◌<◌, Option, none, some, List, [], ◌∷◌, ◌++◌, Bool, true, false, ◌≡◌, refl, ap, ◌∙◌,
  sym, subst, arith, if◌then◌else◌, nat_eq, Bytes,
}
use the_socket_exchange.Assoc
use the_socket_exchange.Book.Invariant.{IsValid}
use the_socket_exchange.Book.Invariant.Uncrossed.{IsUncrossed}
use the_socket_exchange.Os.{Os, same_registration, reads, writes}
use the_socket_exchange.Os.Registrations.{IsSound, watches, event, kq_add-watches, kq_add-accepts}
use the_socket_exchange.Sockets.{Calls, Action, opened, closed, make_listen_socket}
use the_socket_exchange.Server.{Server}
use the_socket_exchange.Server.UserNames.{IsNamed}
use the_socket_exchange.Server.Watching.{IsWatched}
use the_socket_exchange.Server.Numbers.{acceptances, IsNumbered}
use the_socket_exchange.Server.Events.{Event, run}
use the_socket_exchange.Server.Events.BookHistory.{run-IsValid}
use the_socket_exchange.Server.Events.UniqueNames.{run-IsNamed}
use the_socket_exchange.Server.Steps.Watched.{run-IsWatched}
use the_socket_exchange.Server.Steps.Numbered.{run-IsNumbered}
use the_socket_exchange.Server.Main.{
  Report, interrupted, lost, reported, kevent_loop, start, Exit, serve, server_main,
}

run-append : (es fs : List Event) (s : Server) → run (es ++ fs) s ≡ run fs (run es s)
unfolding run
run-append [] fs s = refl
run-append (e ∷ es) fs s = run-append es fs _

-- The events of all batches.
abbrev events_of : List Report → List Event
events_of [] = []
events_of (interrupted ∷ reports) = events_of reports
events_of (lost ∷ reports) = []
events_of (reported es ∷ reports) = es ++ events_of reports

kevent_loop-run :
    (reports : List Report) (s : Server) → (kevent_loop reports s).0 ≡ run (events_of reports) s
unfolding kevent_loop run
kevent_loop-run [] s = refl
kevent_loop-run (interrupted ∷ reports) s = kevent_loop-run reports s
kevent_loop-run (lost ∷ reports) s = refl
kevent_loop-run (reported es ∷ reports) s =
    kevent_loop-run reports (run es s) ∙ sym (run-append es (events_of reports) s)

-- The whole of what the server keeps up.
pub record IsHealthy (s : Server) : Type 0 where
  pub book : IsValid s.book
  pub uncrossed : IsUncrossed s.book
  pub named : IsNamed s.sessions
  pub numbered : IsNumbered s
  pub watched : IsWatched s

-- A fresh kqueue that grants every change, and fewer connections than the counter can number.
pub record IsFresh (os : Os) : Type 0 where
  pub sound : IsSound os
  pub unarmed : os.armed ≡ []
  pub few : 1 + acceptances os.accepts < 2 ^ 64

start-IsNumbered : (fd : ℕ) (os : Os) → IsFresh os → IsNumbered (start fd os)
unfolding start Assoc.lookup
start-IsNumbered fd os h = record {
  enough = omega (arith, h.few, ap acceptances (kq_add-accepts fd reads os));
  issued = λ g c e. cc;
  distinct = λ g i c d e. cc;
}

unwritten :
    (fd g : ℕ) (os : Os)
    → IsFresh os
    → (if same_registration (event fd reads) (event g writes) then true else watches g writes os)
      ≡ false
unwritten fd g os h = ground (arith, h.unarmed)

run-IsHealthy : (es : List Event) (fd : ℕ) (os : Os) → IsFresh os → IsHealthy (run es (start fd os))
unfolding start
run-IsHealthy es fd os h =
    let (watches', sound') = kq_add-watches fd reads os h.sound in
    let (valid, uncrossed) = run-IsValid es (start fd os) refl in
    record {
      book = valid;
      uncrossed = uncrossed;
      named = run-IsNamed es (start fd os) refl;
      numbered = run-IsNumbered es (start fd os) (start-IsNumbered fd os h);
      watched =
          run-IsWatched es (start fd os) sound' refl (λ g. watches' g writes ∙ unwritten fd g os h);
    }

serve-IsHealthy :
    (kqueue : Option ℕ) (fd : ℕ) (done : List Action) (os : Os) (reports : List Report) (t : Server)
    → IsFresh os
    → (serve kqueue fd done os reports).server ≡ some t
    → IsHealthy t
unfolding serve
serve-IsHealthy none fd done os reports t h e = cc
serve-IsHealthy (some kq) fd done os reports t h e = go (kevent_loop reports (start fd os)).1 e
  where
    s : Server
    s = (kevent_loop reports (start fd os)).0

    healthy : IsHealthy s
    healthy =
        subst IsHealthy (sym (kevent_loop-run reports (start fd os)))
          (run-IsHealthy (events_of reports) fd os h)

    is_some : (x y : Server) → some x ≡ some y → x ≡ y
    is_some x y e = cc

    go :
        (on : Bool)
        → let r : Exit =
            if on
            then record { status = none; server = some s; done = done ++ opened kq ∷ [] }
            else record {
              status = some 0;
              server = some s;
              done = done ++ opened kq ∷ closed fd ∷ closed kq ∷ [];
            } in
          r.server ≡ some t → IsHealthy t
    go true e = subst IsHealthy (is_some s t e) healthy
    go false e = subst IsHealthy (is_some s t e) healthy

-- Whatever the socket calls, `kqueue` and `kevent` answer, the bytes of the clients included: the
-- server that `main` runs, or leaves when `kevent` fails, has a well-formed and uncrossed book; its
-- sessions stand under their descriptors and have different user names and numbers; and it reads
-- from each and waits to write exactly to those with queued output. The kqueue is fresh and grants
-- every change, and there are fewer connections than the counter of 64 bits can number.
pub server_main-IsHealthy :
    (calls : Calls) (host : Bytes) (port : ℕ) (kqueue : Option ℕ) (os : Os) (reports : List Report)
    (t : Server)
    → IsFresh os
    → (server_main calls host port kqueue os reports).server ≡ some t
    → IsHealthy t
unfolding server_main
server_main-IsHealthy calls host port kqueue os reports t h =
    go (make_listen_socket calls host port 128).0
  where
    done : List Action
    done = (make_listen_socket calls host port 128).1

    go :
        (found : Option ℕ)
        → let r : Exit = elim found [
          | none ↦ record { status = some 1; server = none; done = done }
          | some fd ↦ serve kqueue fd done os reports
        ] in
          r.server ≡ some t → IsHealthy t
    go none e = cc
    go (some fd) e = serve-IsHealthy kqueue fd done os reports t h e
