-- ===== src/Client/Programs.antt =====
-- `main` of trader/trader_client.cpp and of market_data/market_data_client.cpp, behind the command
-- line: from `connect_to` to the `close` at the end.
pub mod Exits
pub mod Greeting
use the_socket_exchange.Common.{
  ℕ, Option, none, some, List, [], ◌∷◌, ◌++◌, Bool, true, false, if◌then◌else◌, Bytes, codes,
}
use the_socket_exchange.Sockets.{Calls, Action, closed, connect_to}
use the_socket_exchange.Client.{Poll, Client, start, send_line, client_loop}

-- The result of `main`, none while its loop runs, and what it has done up to there.
pub record Exit : Type 0 where
  pub status : Option ℕ
  pub client : Client
  pub done : List Action

-- From the greeting on, which `ok` says was sent: `close(fd)` comes before each `return`.
unfoldable pub session : ℕ → List Action → List Poll → Bool × Client → Exit
unfolding client_loop
session fd done polls (false, c) = record {
  status = some 1;
  client = c;
  done = done ++ closed fd ∷ [];
}
session fd done polls (true, c) =
    let (c', on) = client_loop polls c in
    if on
    then record { status = none; client = c'; done = done }
    else record { status = some 0; client = c'; done = done ++ closed fd ∷ [] }

abbrev pub login_line : Bytes → Bytes
login_line name = codes "LOGIN " ++ name

abbrev pub subscribe_line : Bytes → Bytes
subscribe_line instrument = codes "SUBSCRIBE " ++ instrument

-- `if (argc >= 4)`
abbrev pub log_in : Option Bytes → Client → Bool × Client
log_in none c = (true, c)
log_in (some name) c = send_line (login_line name ++ codes "\n") c c.sends

-- `for (int i = 3; i < argc; i++)`, up to the first that fails
unfoldable pub subscribe_all : List Bytes → Client → Bool × Client
subscribe_all [] c = (true, c)
subscribe_all (instrument ∷ others) c =
    let (ok, c') = send_line (subscribe_line instrument ++ codes "\n") c c.sends in
    let rest = subscribe_all others c' in if ok then rest else (false, c')

-- `main` of both programs, by what each sends first.
abbrev pub run_client : (Client → Bool × Client) → Calls → Bytes → ℕ → List Bool → List Poll → Exit
run_client greet calls host port sends polls =
    let (fd, done) = connect_to calls host port in
    elim fd [
      | none ↦ record { status = some 1; client = start sends; done = done }
      | some g ↦ session g done polls (greet (start sends))
    ]

unfoldable pub trader_main : Option Bytes → Calls → Bytes → ℕ → List Bool → List Poll → Exit
unfolding connect_to session
trader_main username = run_client (log_in username)

unfoldable pub market_data_main : List Bytes → Calls → Bytes → ℕ → List Bool → List Poll → Exit
unfolding connect_to session subscribe_all
market_data_main instruments = run_client (subscribe_all instruments)
