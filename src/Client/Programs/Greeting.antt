-- ===== src/Client/Programs/Greeting.antt =====
-- What the client programs send, their first lines included.
use the_socket_exchange.Common.{
  ℕ, Option, none, some, List, [], ◌∷◌, ◌++◌, Bool, true, false, ◌≡◌, refl, ap, ◌∙◌, sym,
  if◌then◌else◌, Bytes, codes, map, concat,
}
use the_socket_exchange.Framing
use the_socket_exchange.Framing.{strip_cr}
use the_socket_exchange.Framing.Stream.{frames, receive-frames}
use the_socket_exchange.Sockets.{Calls, Action, closed, connect_to}
use the_socket_exchange.Client.{Poll, Client, start, send_line, client_loop}
use the_socket_exchange.Client.Forwarding.{said, carried, send_line-says, send_line-state}
use the_socket_exchange.Client.Speaking.{typed, client_loop-IsSaid}
use the_socket_exchange.Client.Programs.{
  Exit, session, login_line, subscribe_line, log_in, subscribe_all, run_client, trader_main,
  market_data_main,
}

abbrev pub login_lines : Option Bytes → List Bytes
login_lines none = []
login_lines (some name) = login_line name ∷ []

-- A client that has sent some lines and done nothing else.
abbrev HasGreeted : List Bytes → Client → Bool × Client → Type 0
HasGreeted first c r =
    r.0 ≡ true
    → ((later : List Bytes)
        → r.1.sent ++ carried r.1.sends later ≡ c.sent ++ carried c.sends (first ++ later))
      × (r.1.sent_quit ≡ c.sent_quit)
      × (r.1.watching ≡ c.watching)
      × (r.1.stdin_lines ≡ c.stdin_lines)

send_line-HasGreeted :
    (line : Bytes) (c : Client)
    → HasGreeted (line ∷ []) c (send_line (line ++ codes "\n") c c.sends)
send_line-HasGreeted line c ok =
    let r = send_line (line ++ codes "\n") c c.sends in
    let (quit, watch, keeps) = send_line-state (line ++ codes "\n") c c.sends in
    (
      λ later.
          ap (λ b. r.1.sent ++ (if b then carried r.1.sends later else [])) (sym ok)
          ∙ send_line-says line later c c.sends refl,
      quit,
      watch,
      keeps,
    )

log_in-HasGreeted :
    (username : Option Bytes) (c : Client) → HasGreeted (login_lines username) c (log_in username c)
log_in-HasGreeted none c ok = (λ later. refl, refl, refl, refl)
log_in-HasGreeted (some name) c ok = send_line-HasGreeted (login_line name) c ok

subscribe_all-HasGreeted :
    (instruments : List Bytes) (c : Client)
    → HasGreeted (map subscribe_line instruments) c (subscribe_all instruments c)
unfolding subscribe_all
subscribe_all-HasGreeted [] c ok = (λ later. refl, refl, refl, refl)
subscribe_all-HasGreeted (instrument ∷ others) c ok =
    go r (send_line-HasGreeted (subscribe_line instrument) c) (subscribe_all-HasGreeted others r.1)
      ok
  where
    r : Bool × Client
    r = send_line (subscribe_line instrument ++ codes "\n") c c.sends

    go :
        (r : Bool × Client)
        → HasGreeted (subscribe_line instrument ∷ []) c r
        → HasGreeted (map subscribe_line others) r.1 (subscribe_all others r.1)
        → HasGreeted
            (map subscribe_line (instrument ∷ others))
            c
            (if r.0 then subscribe_all others r.1 else (false, r.1))
    go (false, d) first rest ok = cc
    go (true, d) first rest ok =
        let (text, quit, watch, keeps) = first refl in
        let (text', quit', watch', keeps') = rest ok in
        (
          λ later. text' later ∙ text (map subscribe_line others ++ later),
          quit' ∙ quit,
          watch' ∙ watch,
          keeps' ∙ keeps,
        )

-- What a program sends in all that sends some lines first.
abbrev pub all_said : List Bytes → List Bool → List Poll → List Bytes
all_said first sends polls =
    carried sends (first ++ said (map strip_cr (frames (concat (typed polls).0)).0) (typed polls).1)

module _ (first : List Bytes) (sends : List Bool) (polls : List Poll) where
  session-says :
      (r : Bool × Client)
      → HasGreeted first (start sends) r
      → (fd : ℕ) (done : List Action) → (session fd done polls r).status ≡ none
      → (session fd done polls r).client.sent ≡ all_said first sends polls
  unfolding session
  session-says (false, c) greets fd done h = cc
  session-says (true, c) greets fd done h = go (client_loop polls c).1 refl h
    where
      go :
          (on : Bool)
          → (client_loop polls c).1 ≡ on
          → let c' = (client_loop polls c).0 in
            let r : Exit =
              if on
              then record { status = none; client = c'; done = done }
              else record { status = some 0; client = c'; done = done ++ closed fd ∷ [] } in
            r.status ≡ none → r.client.sent ≡ all_said first sends polls
      go false e k = cc
      go true e k =
          let (text, quit, watch, keeps) = greets refl in
          client_loop-IsSaid polls c watch quit e
          ∙ ap
              (λ b.
                c.sent
                ++ carried c.sends (said (Framing.receive b (typed polls).0).0 (typed polls).1))
              keeps
          ∙ ap (λ x. c.sent ++ carried c.sends (said x.0 (typed polls).1))
              (receive-frames Framing.empty (typed polls).0 tt)
          ∙ text (said (map strip_cr (frames (concat (typed polls).0)).0) (typed polls).1)

  run_client-says :
      (greet : Client → Bool × Client)
      → HasGreeted first (start sends) (greet (start sends))
      → (calls : Calls) (host : Bytes) (port : ℕ)
      → (run_client greet calls host port sends polls).status ≡ none
      → (run_client greet calls host port sends polls).client.sent ≡ all_said first sends polls
  run_client-says greet greets calls host port = go (connect_to calls host port).0
    where
      done : List Action
      done = (connect_to calls host port).1

      go :
          (found : Option ℕ)
          → let r : Exit = elim found [
            | none ↦ record { status = some 1; client = start sends; done = done }
            | some g ↦ session g done polls (greet (start sends))
          ] in
            r.status ≡ none → r.client.sent ≡ all_said first sends polls
      go none k = cc
      go (some g) k = session-says (greet (start sends)) greets g done k

-- While the trader client's loop runs, what it has sent is LOGIN with its user name, if it has one,
-- and then what was typed: the complete lines of the keyboard's stream, however `read` cut it, in
-- order, up to the first QUIT, which the end of the stream stands for; and of all these the ones
-- before the first `send_line` that fails.
pub trader_main-says :
    (username : Option Bytes) (calls : Calls) (host : Bytes) (port : ℕ) (sends : List Bool)
    (polls : List Poll)
    → (trader_main username calls host port sends polls).status ≡ none
    → (trader_main username calls host port sends polls).client.sent
      ≡ all_said (login_lines username) sends polls
unfolding trader_main
trader_main-says username calls host port sends polls =
    run_client-says (login_lines username) sends polls (log_in username)
      (log_in-HasGreeted username (start sends)) calls host port

-- The same for the client for market data, whose first lines are a SUBSCRIBE for each instrument of
-- its command line: then what was typed up to the first QUIT, and of all these the lines before the
-- first `send_line` that fails.
pub market_data_main-says :
    (instruments : List Bytes) (calls : Calls) (host : Bytes) (port : ℕ) (sends : List Bool)
    (polls : List Poll)
    → (market_data_main instruments calls host port sends polls).status ≡ none
    → (market_data_main instruments calls host port sends polls).client.sent
      ≡ all_said (map subscribe_line instruments) sends polls
unfolding market_data_main
market_data_main-says instruments calls host port sends polls =
    run_client-says (map subscribe_line instruments) sends polls (subscribe_all instruments)
      (subscribe_all-HasGreeted instruments (start sends)) calls host port
