-- ===== src/Client/Printing.antt =====
-- What the client prints is the server's stream.
use the_socket_exchange.Common.{
  ℕ, zero, suc, List, [], ◌∷◌, ◌++◌, Bool, true, false, ◌≡◌, refl, ap, ◌∙◌, sym, if◌then◌else◌,
  Bytes, Bool-cases, Option-cases, inl, inr, map, concat, append-nil, append_assoc, length, codes,
  bytes_eq,
}
use the_socket_exchange.Framing
use the_socket_exchange.Framing.{strip_cr}
use the_socket_exchange.Framing.Stream.{frames, receive-frames}
use the_socket_exchange.Protocol.{tokenize}
use the_socket_exchange.Client.{
  Input, quiet, ended, again, failed, bytes, Poll, interrupted, poll_failed, ready, Client, start,
  send_line, is_quit, forward, hang_up, from_stdin, from_server, if_watching, client_loop,
}

-- The bytes that the server's socket gave, one piece for each `recv`.
abbrev pub heard : List Poll → List Bytes
heard [] = []
heard (interrupted ∷ polls) = heard polls
heard (poll_failed ∷ polls) = heard polls
heard (ready keyboard (bytes bs) ∷ polls) = bs ∷ heard polls
heard (ready keyboard quiet ∷ polls) = heard polls
heard (ready keyboard ended ∷ polls) = heard polls
heard (ready keyboard again ∷ polls) = heard polls
heard (ready keyboard failed ∷ polls) = heard polls

-- The server's side of the client.
abbrev listened : Client → Framing.LineBuffer × List Bytes
listened c = (c.server_lines, c.printed)

send_line-listened :
    (text : Bytes) (c : Client) (sends : List Bool)
    → listened (send_line text c sends).1 ≡ listened c
send_line-listened text c [] = refl
send_line-listened text c (true ∷ rest) = refl
send_line-listened text c (false ∷ rest) = refl

forward-listened : (fuel : ℕ) (c : Client) → listened (forward fuel c) ≡ listened c
unfolding forward
forward-listened zero c = refl
forward-listened (suc fuel) c = elim (Option-cases (Framing.next_line c.stdin_lines).0) [
  | inl e ↦ rw (e, forward) refl
  | inr (line, e) ↦
      let c' = record c { stdin_lines = (Framing.next_line c.stdin_lines).1 } in
      let r = send_line (line ++ codes "\n") c' c'.sends in
      let k = send_line-listened (line ++ codes "\n") c' c'.sends in
      elim (Bool-cases r.0) [
        | inr f ↦ rw (e, forward, f) k
        | inl f ↦ elim (Bool-cases (is_quit (tokenize line))) [
          | inl q ↦ rw (e, forward, f, q) k
          | inr q ↦ rw (e, forward, f, q) (forward-listened fuel r.1 ∙ k)
        ]
      ]
]

hang_up-listened : (c : Client) → listened (hang_up c) ≡ listened c
hang_up-listened c = elim (Bool-cases c.sent_quit) [ inl e ↦ rw e refl | inr e ↦ rw e refl ]

from_stdin-listened : (input : Input) (c : Client) → listened (from_stdin input c).0 ≡ listened c
unfolding from_stdin
from_stdin-listened quiet c = refl
from_stdin-listened (bytes bs) c =
    let b = Framing.feed c.stdin_lines bs in
    let c' = record c { stdin_lines = b } in
    hang_up-listened (forward (suc (length b.buf)) c') ∙ forward-listened (suc (length b.buf)) c'
from_stdin-listened ended c = send_line-listened (codes "QUIT\n") c c.sends
from_stdin-listened again c = hang_up-listened c
from_stdin-listened failed c = refl

if_watching-listened : (input : Input) (c : Client) → listened (if_watching input c).0 ≡ listened c
if_watching-listened input c = branch c.watching
  where
    branch : (b : Bool) → listened (if b then from_stdin input c else (c, true)).0 ≡ listened c
    branch true = from_stdin-listened input c
    branch false = refl

-- What the loop reads of the server, by the reader of the framing.
abbrev read_on : Framing.LineBuffer × List Bytes → List Bytes → Framing.LineBuffer × List Bytes
read_on (b, printed) chunks =
    ((Framing.receive b chunks).1, printed ++ (Framing.receive b chunks).0)

read_on-nil : (x : Framing.LineBuffer × List Bytes) → read_on x [] ≡ x
unfolding Framing.receive
read_on-nil (b, printed) = ap (λ p. (b, p)) (append-nil printed)

from_server-bytes :
    (bs : Bytes) (rest : List Bytes) (c : Client)
    → read_on (listened (from_server (bytes bs) c).0) rest ≡ read_on (listened c) (bs ∷ rest)
unfolding from_server Framing.receive
from_server-bytes bs rest c =
    let d = Framing.drain (Framing.feed c.server_lines bs) in
    ap (λ p. ((Framing.receive d.1 rest).1, p))
      (append_assoc c.printed d.0 (Framing.receive d.1 rest).0)

-- The loop behind the keyboard's branch.
abbrev pub go_on : Input → List Poll → Client → Client × Bool
go_on server polls c =
    let second = from_server server c in
    if second.1 then client_loop polls second.0 else (second.0, false)

go_on-listened :
    (keyboard server : Input) (polls : List Poll) (c : Client)
    → ((d : Client)
        → (client_loop polls d).1 ≡ true
        → listened (client_loop polls d).0 ≡ read_on (listened d) (heard polls))
    → (go_on server polls c).1 ≡ true
    → listened (go_on server polls c).0
      ≡ read_on (listened c) (heard (ready keyboard server ∷ polls))
unfolding from_server
go_on-listened keyboard quiet polls c ih h = ih c h
go_on-listened keyboard again polls c ih h = ih c h
go_on-listened keyboard ended polls c ih h = cc
go_on-listened keyboard failed polls c ih h = cc
go_on-listened keyboard (bytes bs) polls c ih h =
    ih (from_server (bytes bs) c).0 h ∙ from_server-bytes bs (heard polls) c

client_loop-listened :
    (polls : List Poll) (c : Client)
    → (client_loop polls c).1 ≡ true
    → listened (client_loop polls c).0 ≡ read_on (listened c) (heard polls)
unfolding client_loop
client_loop-listened [] c h = sym (read_on-nil (listened c))
client_loop-listened (interrupted ∷ polls) c h = client_loop-listened polls c h
client_loop-listened (poll_failed ∷ polls) c h = cc
client_loop-listened (ready keyboard server ∷ polls) c h =
    after (client_loop-listened polls) (if_watching keyboard c).1 h
  where
    first : Client
    first = (if_watching keyboard c).0

    after :
        ((d : Client)
          → (client_loop polls d).1 ≡ true
          → listened (client_loop polls d).0 ≡ read_on (listened d) (heard polls))
        → (b : Bool) → (if b then go_on server polls first else (first, false)).1 ≡ true
        → listened (if b then go_on server polls first else (first, false)).0
          ≡ read_on (listened c) (heard (ready keyboard server ∷ polls))
    after ih true h =
        go_on-listened keyboard server polls first ih h
        ∙ ap (λ x. read_on x (heard (ready keyboard server ∷ polls)))
            (if_watching-listened keyboard c)
    after ih false h = cc

-- While the client's loop runs, it has printed exactly the complete lines of what the server sent,
-- in order and each without a final carriage return, however `poll` and `recv` cut the stream and
-- whatever the keyboard did.
pub client_loop-prints :
    (polls : List Poll) (sends : List Bool)
    → (client_loop polls (start sends)).1 ≡ true
    → (client_loop polls (start sends)).0.printed ≡ map strip_cr (frames (concat (heard polls))).0
client_loop-prints polls sends h =
    ap (λ x. x.1) (client_loop-listened polls (start sends) h)
    ∙ ap (λ x. x.0) (receive-frames Framing.empty (heard polls) tt)
