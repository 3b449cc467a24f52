-- ===== src/Client.antt =====
-- The loop of trader/trader_client.cpp between the keyboard and the server. The loop of
-- market_data/market_data_client.cpp is the same, line for line.
pub mod Printing
pub mod Quitting
pub mod Programs
pub mod Forwarding
pub mod Speaking
use the_socket_exchange.Common.{
  ℕ, zero, suc, none, some, List, [], ◌∷◌, ◌++◌, Bool, true, false, not, if◌then◌else◌, ◌==◌,
  bytes_eq, Bytes, codes, length,
}
use the_socket_exchange.Framing
use the_socket_exchange.Framing.{LineBuffer}
use the_socket_exchange.Protocol.{tokenize}

-- What `poll` and the `read` or `recv` behind it answer for one descriptor: nothing to do, bytes,
-- the end of the stream, EINTR or EAGAIN, or another error.
pub data Input : Type 0 where
  quiet ended again failed : Input
  bytes : Bytes → Input

pub data Poll : Type 0 where
  interrupted poll_failed : Poll
  ready : Input → Input → Poll

-- The variables of `main`, what was printed and sent, and whether each `send_line` to come succeeds.
-- `watching` is `pfds[0].fd >= 0`.
pub record Client : Type 0 where
  pub server_lines : LineBuffer
  pub stdin_lines : LineBuffer
  pub sent_quit : Bool
  pub watching : Bool
  pub shut : Bool
  pub printed : List Bytes
  pub sent : List Bytes
  pub sends : List Bool

abbrev pub start : List Bool → Client
start sends = record {
  server_lines = Framing.empty;
  stdin_lines = Framing.empty;
  sent_quit = false;
  watching = true;
  shut = false;
  printed = [];
  sent = [];
  sends = sends;
}

-- `net::send_line(fd, text) >= 0`
abbrev pub send_line : Bytes → Client → List Bool → Bool × Client
send_line text c [] = (true, record c { sent = c.sent ++ text ∷ [] })
send_line text c (true ∷ rest) = (true, record c { sent = c.sent ++ text ∷ []; sends = rest })
send_line text c (false ∷ rest) = (false, record c { sends = rest })

-- `!t.empty() && t[0] == "QUIT"`
abbrev pub is_quit : List Bytes → Bool
is_quit [] = false
is_quit (word ∷ args) = word == codes "QUIT"

-- `while (stdin_lines.next_line(line))`: each round takes a byte of the buffer at least, so a fuel
-- above its length is enough.
unfoldable pub forward : ℕ → Client → Client
forward zero c = c
forward (suc fuel) c =
    let (found, b) = Framing.next_line c.stdin_lines in
    let c' = record c { stdin_lines = b } in
    elim found [
      | none ↦ c'
      | some line ↦
          let (ok, c'') = send_line (line ++ codes "\n") c' c'.sends in
          let more = forward fuel c'' in
          if not ok
          then record c'' { sent_quit = true }
          else if is_quit (tokenize line)
          then record c'' { sent_quit = true }
          else more
    ]

-- `if (sent_quit)`: `shutdown(fd, SHUT_WR)`, and the keyboard is no longer watched.
abbrev pub hang_up : Client → Client
hang_up c = if c.sent_quit then record c { shut = true; watching = false } else c

-- The branch for the keyboard; `false` is the `break` of the loop.
unfoldable pub from_stdin : Input → Client → Client × Bool
unfolding forward
from_stdin quiet c = (c, true)
from_stdin (bytes bs) c =
    let b = Framing.feed c.stdin_lines bs in
    (hang_up (forward (suc (length b.buf)) (record c { stdin_lines = b })), true)
from_stdin ended c =
    (hang_up (record (send_line (codes "QUIT\n") c c.sends).1 { sent_quit = true }), true)
from_stdin again c = (hang_up c, true)
from_stdin failed c = (c, false)

-- The branch for the server, which prints every complete line.
unfoldable pub from_server : Input → Client → Client × Bool
from_server quiet c = (c, true)
from_server (bytes bs) c =
    let (lines, b) = Framing.drain (Framing.feed c.server_lines bs) in
    (record c { server_lines = b; printed = c.printed ++ lines }, true)
from_server ended c = (c, false)
from_server again c = (c, true)
from_server failed c = (c, false)

abbrev pub if_watching : Input → Client → Client × Bool
if_watching input c = if c.watching then from_stdin input c else (c, true)

-- `for (;;)` over the answers of `poll`: `true` if the loop is still running after them.
unfoldable pub client_loop : List Poll → Client → Client × Bool
unfolding from_stdin from_server
client_loop [] c = (c, true)
client_loop (interrupted ∷ polls) c = client_loop polls c
client_loop (poll_failed ∷ polls) c = (c, false)
client_loop (ready keyboard server ∷ polls) c =
    let first = if_watching keyboard c in
    let second = from_server server first.0 in
    let more = client_loop polls second.0 in
    if first.1 then if second.1 then more else (second.0, false) else (first.0, false)
