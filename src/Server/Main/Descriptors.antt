-- ===== src/Server/Main/Descriptors.antt =====
-- What `main` of the server leaves open.
use the_socket_exchange.Common.{
  ℕ, Option, none, some, List, [], ◌∷◌, ◌++◌, Bool, true, false, ◌≡◌, ◌≢◌, ap, ◌∙◌, arith,
  if◌then◌else◌, nat_eq, nat_beq_iff, eq_self, Bytes,
}
use the_socket_exchange.Os.{Os}
use the_socket_exchange.Sockets.{Calls, Action, opened, closed, make_listen_socket}
use the_socket_exchange.Sockets.Descriptors.{
  without, open_after, held, open_after-append, make_listen_socket-open,
}
use the_socket_exchange.Server.Main.{Report, kevent_loop, start, Exit, serve, server_main}

-- The kqueue and the listening socket, while the loop runs.
abbrev pub left_open : Option ℕ → Option ℕ → Option ℕ → List ℕ
left_open none (some kq) (some listen_fd) = kq ∷ listen_fd ∷ []
left_open _ _ _ = []

-- The kqueue is not the listening socket.
abbrev pub AreApart : Option ℕ → Option ℕ → Type 0
AreApart (some kq) (some listen_fd) = kq ≢ listen_fd
AreApart _ _ = Unit

serve-open :
    (kqueue : Option ℕ) (fd : ℕ) (done : List Action) (os : Os) (reports : List Report)
    → AreApart kqueue (some fd)
    → open_after [] done ≡ held (some fd)
    → let r = serve kqueue fd done os reports in
      open_after [] r.done ≡ left_open r.status kqueue (some fd)
unfolding serve
serve-open none fd done os reports apart h =
    open_after-append [] done (closed fd ∷ []) ∙ ap (without fd) h ∙ ground (arith, eq_self fd)
serve-open (some kq) fd done os reports apart h = go (kevent_loop reports (start fd os)).1
  where
    go :
        (on : Bool)
        → let s = (kevent_loop reports (start fd os)).0 in
          let r : Exit =
            if on
            then record { status = none; server = some s; done = done ++ opened kq ∷ [] }
            else record {
              status = some 0;
              server = some s;
              done = done ++ opened kq ∷ closed fd ∷ closed kq ∷ [];
            } in
          open_after [] r.done ≡ left_open r.status (some kq) (some fd)
    go true = open_after-append [] done (opened kq ∷ []) ∙ ap (λ xs. kq ∷ xs) h
    go false =
        open_after-append [] done (opened kq ∷ closed fd ∷ closed kq ∷ [])
        ∙ ap (λ xs. without kq (without fd (kq ∷ xs))) h
        ∙ ground (arith, eq_self fd, eq_self kq, nat_beq_iff kq fd)

-- Where the kqueue is not the listening socket: when `main` has ended, whether there was no socket,
-- no kqueue or `kevent` failed, it has closed both as far as it had opened them; while its loop
-- runs, exactly these two are open, besides the connections.
pub server_main-open :
    (calls : Calls) (host : Bytes) (port : ℕ) (kqueue : Option ℕ) (os : Os) (reports : List Report)
    → AreApart kqueue (make_listen_socket calls host port 128).0
    → let r = server_main calls host port kqueue os reports in
      open_after [] r.done ≡ left_open r.status kqueue (make_listen_socket calls host port 128).0
unfolding server_main
server_main-open calls host port kqueue os reports =
    go (make_listen_socket calls host port 128).0 (make_listen_socket-open calls host port 128)
  where
    done : List Action
    done = (make_listen_socket calls host port 128).1

    go :
        (found : Option ℕ)
        → open_after [] done ≡ held found
        → AreApart kqueue found
        → let r : Exit = elim found [
          | none ↦ record { status = some 1; server = none; done = done }
          | some fd ↦ serve kqueue fd done os reports
        ] in
          open_after [] r.done ≡ left_open r.status kqueue found
    go none h apart = h
    go (some fd) h apart = serve-open kqueue fd done os reports apart h
