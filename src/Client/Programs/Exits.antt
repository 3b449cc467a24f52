-- ===== src/Client/Programs/Exits.antt =====
-- What the client programs leave open.
use the_socket_exchange.Common.{
  ℕ, Option, none, some, List, [], ◌∷◌, ◌++◌, Bool, true, false, ◌≡◌, ap, ◌∙◌, if◌then◌else◌,
  nat_eq, eq_self, Bytes,
}
use the_socket_exchange.Sockets.{Calls, Action, closed, connect_to}
use the_socket_exchange.Sockets.Descriptors.{
  without, open_after, held, open_after-append, connect_to-open,
}
use the_socket_exchange.Client.{Poll, Client, start, client_loop}
use the_socket_exchange.Client.Programs.{
  Exit, session, log_in, subscribe_all, run_client, trader_main, market_data_main,
}

-- What is open when a program has this result, and was connected by this descriptor or not at all.
abbrev pub left_open : Option ℕ → Option ℕ → List ℕ
left_open none fd = held fd
left_open (some status) fd = []

closing :
    (fd : ℕ) (done : List Action)
    → open_after [] done ≡ held (some fd)
    → open_after [] (done ++ closed fd ∷ []) ≡ []
closing fd done h =
    open_after-append [] done (closed fd ∷ [])
    ∙ ap (without fd) h
    ∙ ap (λ b. if b then [] else fd ∷ []) (eq_self fd)

session-open :
    (fd : ℕ) (done : List Action) (polls : List Poll) (greeted : Bool × Client)
    → open_after [] done ≡ held (some fd)
    → let r = session fd done polls greeted in open_after [] r.done ≡ left_open r.status (some fd)
unfolding session
session-open fd done polls (false, c) h = closing fd done h
session-open fd done polls (true, c) h = go (client_loop polls c).1
  where
    go :
        (on : Bool)
        → let c' = (client_loop polls c).0 in
          let r : Exit =
            if on
            then record { status = none; client = c'; done = done }
            else record { status = some 0; client = c'; done = done ++ closed fd ∷ [] } in
          open_after [] r.done ≡ left_open r.status (some fd)
    go true = h
    go false = closing fd done h

module _ (calls : Calls) (host : Bytes) (port : ℕ) (sends : List Bool) (polls : List Poll) where
  run_client-open :
      (greet : Client → Bool × Client)
      → let r = run_client greet calls host port sends polls in
        open_after [] r.done ≡ left_open r.status (connect_to calls host port).0
  run_client-open greet = go (connect_to calls host port).0 (connect_to-open calls host port)
    where
      done : List Action
      done = (connect_to calls host port).1

      go :
          (found : Option ℕ)
          → open_after [] done ≡ held found
          → let r : Exit = elim found [
            | none ↦ record { status = some 1; client = start sends; done = done }
            | some g ↦ session g done polls (greet (start sends))
          ] in
            open_after [] r.done ≡ left_open r.status found
      go none h = h
      go (some g) h = session-open g done polls (greet (start sends)) h

  -- Both clients: when the program has ended, whether it could not connect, could not send its first
  -- lines or left its loop, it has closed every descriptor that it opened; while its loop runs, it
  -- holds the connection only.
  pub main-open :
      (username : Option Bytes) (instruments : List Bytes)
      → let t = trader_main username calls host port sends polls in
        let m = market_data_main instruments calls host port sends polls in
        (open_after [] t.done ≡ left_open t.status (connect_to calls host port).0)
        × (open_after [] m.done ≡ left_open m.status (connect_to calls host port).0)
  unfolding trader_main market_data_main
  main-open username instruments =
      (run_client-open (log_in username), run_client-open (subscribe_all instruments))
