-- ===== src/Client/Speaking.antt =====
-- What the client sends is what is typed.
use the_socket_exchange.Common.{
  suc, List, [], ◌∷◌, ◌++◌, Bool, true, false, ◌≡◌, refl, ap, ◌∙◌, sym, subst, if◌then◌else◌, Bytes,
  append-nil, length, codes, bytes_eq,
}
use the_socket_exchange.Framing
use the_socket_exchange.Framing.{strip_cr, drain_loop}
use the_socket_exchange.Client.{
  Input, quiet, ended, again, failed, bytes, Poll, interrupted, poll_failed, ready, Client, forward,
  from_stdin, from_server, client_loop,
}
use the_socket_exchange.Client.Quitting.{client_loop-silent}
use the_socket_exchange.Client.Printing.{go_on}
use the_socket_exchange.Client.Forwarding.{
  said, carried, says, send_line-last, HasSaid, forward-HasSaid,
}

-- The bytes that the keyboard gave, one piece for each `read`, and whether its stream ended.
abbrev pub typed : List Poll → List Bytes × Bool
typed [] = ([], false)
typed (interrupted ∷ polls) = typed polls
typed (poll_failed ∷ polls) = typed polls
typed (ready (bytes bs) server ∷ polls) = (bs ∷ (typed polls).0, (typed polls).1)
typed (ready ended server ∷ polls) = ([], true)
typed (ready quiet server ∷ polls) = typed polls
typed (ready again server ∷ polls) = typed polls
typed (ready failed server ∷ polls) = typed polls

-- The keyboard's side of the client.
abbrev pub keyboard_state : Client → Bool × Bool × Framing.LineBuffer × List Bytes × List Bool
keyboard_state c = (c.watching, c.sent_quit, c.stdin_lines, c.sent, c.sends)

from_server-keyboard_state :
    (input : Input) (c : Client) → keyboard_state (from_server input c).0 ≡ keyboard_state c
unfolding from_server
from_server-keyboard_state quiet c = refl
from_server-keyboard_state (bytes bs) c = refl
from_server-keyboard_state ended c = refl
from_server-keyboard_state again c = refl
from_server-keyboard_state failed c = refl

-- What a client sends in the end, from its keyboard's side and what is typed from there on.
abbrev pub expected :
    Bool × Bool × Framing.LineBuffer × List Bytes × List Bool → List Bytes × Bool → List Bytes
expected (watching, sent_quit, b, sent, sends) (chunks, over) =
    sent ++ carried sends (said (Framing.receive b chunks).0 over)

-- A client that watches its keyboard sends what is typed, as long as its loop runs.
abbrev pub IsSaid : List Poll → Type 0
IsSaid polls =
    (c : Client)
    → (c.watching ≡ true)
    → (c.sent_quit ≡ false)
    → (client_loop polls c).1 ≡ true
    → (client_loop polls c).0.sent ≡ expected (keyboard_state c) (typed polls)

go_on-expected :
    (server : Input) (polls : List Poll) (c : Client)
    → IsSaid polls
    → c.watching ≡ true
    → c.sent_quit ≡ false
    → (go_on server polls c).1 ≡ true
    → (go_on server polls c).0.sent ≡ expected (keyboard_state c) (typed polls)
go_on-expected server polls c ih w q h = either (from_server server c).1 h
  where
    d : Client
    d = (from_server server c).0

    same : keyboard_state d ≡ keyboard_state c
    same = from_server-keyboard_state server c

    either :
        (b : Bool)
        → (if b then client_loop polls d else (d, false)).1 ≡ true
        → (if b then client_loop polls d else (d, false)).0.sent
          ≡ expected (keyboard_state c) (typed polls)
    either true k =
        ih d (ap (λ (watching, quit, b, text, sends). watching) same ∙ w)
          (ap (λ (watching, quit, b, text, sends). quit) same ∙ q) k
        ∙ ap (λ x. expected x (typed polls)) same
    either false k = cc

-- A client that has left does not say more.
go_on-silent :
    (server : Input) (polls : List Poll) (c : Client)
    → c.watching ≡ false
    → (go_on server polls c).0.sent ≡ c.sent
go_on-silent server polls c w = either (from_server server c).1
  where
    d : Client
    d = (from_server server c).0

    same : keyboard_state d ≡ keyboard_state c
    same = from_server-keyboard_state server c

    sent : d.sent ≡ c.sent
    sent = ap (λ (watching, quit, b, text, sends). text) same

    either : (b : Bool) → (if b then client_loop polls d else (d, false)).0.sent ≡ c.sent
    either true =
        (client_loop-silent polls d (ap (λ (watching, quit, b, text, sends). watching) same ∙ w)).0
        ∙ sent
    either false = sent

typed-expected :
    (bs : Bytes) (server : Input) (polls : List Poll) (c : Client)
    → IsSaid polls
    → c.watching ≡ true
    → c.sent_quit ≡ false
    → (go_on server polls (from_stdin (bytes bs) c).0).1 ≡ true
    → (go_on server polls (from_stdin (bytes bs) c).0).0.sent
      ≡ expected (keyboard_state c) (typed (ready (bytes bs) server ∷ polls))
unfolding from_stdin Framing.drain Framing.receive
typed-expected bs server polls c ih w q h = either f.sent_quit refl h
  where
    b : Framing.LineBuffer
    b = Framing.feed c.stdin_lines bs

    f : Client
    f = forward (suc (length b.buf)) (record c { stdin_lines = b })

    does : HasSaid (record c { stdin_lines = b }) (Framing.drain b) f
    does = forward-HasSaid (suc (length b.buf)) (record c { stdin_lines = b }) q

    later : List Bytes
    later = said (Framing.receive (Framing.drain b).1 (typed polls).0).0 (typed polls).1

    text : says f later ≡ expected (keyboard_state c) (typed (ready (bytes bs) server ∷ polls))
    text = does.0 (Framing.receive (Framing.drain b).1 (typed polls).0).0 (typed polls).1

    either :
        (quits : Bool)
        → f.sent_quit ≡ quits
        → let g : Client = if quits then record f { shut = true; watching = false } else f in
          (go_on server polls g).1 ≡ true
          → (go_on server polls g).0.sent
            ≡ expected (keyboard_state c) (typed (ready (bytes bs) server ∷ polls))
    either true e k =
        go_on-silent server polls (record f { shut = true; watching = false }) refl
        ∙ sym (append-nil f.sent)
        ∙ ap (λ x. f.sent ++ (if x then [] else carried f.sends later)) (sym e)
        ∙ text
    either false e k =
        go_on-expected server polls f ih (does.2 ∙ w) e k
        ∙ ap
            (λ x.
              f.sent
              ++ carried f.sends (said (Framing.receive x (typed polls).0).0 (typed polls).1))
            (does.1 e)
        ∙ ap (λ x. f.sent ++ (if x then [] else carried f.sends later)) (sym e)
        ∙ text

round-expected :
    (keyboard server : Input) (polls : List Poll) (c : Client)
    → IsSaid polls
    → c.watching ≡ true
    → c.sent_quit ≡ false
    → let r = from_stdin keyboard c in
      let s : Client × Bool = if r.1 then go_on server polls r.0 else (r.0, false) in
      s.1 ≡ true → s.0.sent ≡ expected (keyboard_state c) (typed (ready keyboard server ∷ polls))
unfolding from_stdin Framing.receive
round-expected quiet server polls c ih w q h = go_on-expected server polls c ih w q h
round-expected again server polls c ih w q h =
    subst
      (λ d.
        (go_on server polls d).1 ≡ true
        → (go_on server polls d).0.sent ≡ expected (keyboard_state c) (typed polls))
      (sym (ap (λ b. if b then record c { shut = true; watching = false } else c) q))
      (go_on-expected server polls c ih w q) h
round-expected failed server polls c ih w q h = cc
round-expected (bytes bs) server polls c ih w q h = typed-expected bs server polls c ih w q h
round-expected ended server polls c ih w q h =
    go_on-silent server polls _ refl ∙ send_line-last (codes "QUIT") c c.sends

pub client_loop-IsSaid : (polls : List Poll) → IsSaid polls
unfolding client_loop Framing.receive
client_loop-IsSaid [] c w q h = sym (append-nil c.sent)
client_loop-IsSaid (interrupted ∷ polls) c w q h = client_loop-IsSaid polls c w q h
client_loop-IsSaid (poll_failed ∷ polls) c w q h = cc
client_loop-IsSaid (ready keyboard server ∷ polls) c w q h =
    subst
      (λ b.
        (after (if b then from_stdin keyboard c else (c, true))).1 ≡ true
        → (after (if b then from_stdin keyboard c else (c, true))).0.sent
          ≡ expected (keyboard_state c) (typed (ready keyboard server ∷ polls)))
      (sym w) (round-expected keyboard server polls c (client_loop-IsSaid polls) w q) h
  where
    after : Client × Bool → Client × Bool
    after r = if r.1 then go_on server polls r.0 else (r.0, false)
