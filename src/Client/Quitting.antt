-- ===== src/Client/Quitting.antt =====
-- After QUIT, or the end of the keyboard's stream, the client listens only.
use the_socket_exchange.Common.{
  List, [], ◌∷◌, Bool, true, false, ◌≡◌, refl, ap, ◌∙◌, if◌then◌else◌, Bytes, nat_eq,
}
use the_socket_exchange.Client.{
  Input, quiet, ended, again, failed, bytes, Poll, interrupted, poll_failed, ready, Client,
  from_stdin, from_server, if_watching, client_loop,
}

-- Whether the keyboard is watched, and what was sent.
abbrev spoken : Client → Bool × List Bytes
spoken c = (c.watching, c.sent)

from_server-spoken : (input : Input) (c : Client) → spoken (from_server input c).0 ≡ spoken c
unfolding from_server
from_server-spoken quiet c = refl
from_server-spoken (bytes bs) c = refl
from_server-spoken ended c = refl
from_server-spoken again c = refl
from_server-spoken failed c = refl

deaf : (keyboard : Input) (c : Client) → c.watching ≡ false → if_watching keyboard c ≡ (c, true)
deaf keyboard c h = ap (λ b. if b then from_stdin keyboard c else (c, true)) h

client_loop-spoken :
    (polls : List Poll) (c : Client)
    → c.watching ≡ false
    → spoken (client_loop polls c).0 ≡ spoken c
unfolding client_loop
client_loop-spoken [] c h = refl
client_loop-spoken (interrupted ∷ polls) c h = client_loop-spoken polls c h
client_loop-spoken (poll_failed ∷ polls) c h = refl
client_loop-spoken (ready keyboard server ∷ polls) c h =
    ap (λ r. spoken (round r).0) (deaf keyboard c h)
    ∙ either (client_loop-spoken polls d (ap (λ x. x.0) (from_server-spoken server c) ∙ h))
        (from_server server c).1
  where
    round : Client × Bool → Client × Bool
    round r =
        if r.1
        then if (from_server server r.0).1
          then client_loop polls (from_server server r.0).0
          else ((from_server server r.0).0, false)
        else (r.0, false)

    d : Client
    d = (from_server server c).0

    either :
        spoken (client_loop polls d).0 ≡ spoken d
        → (b : Bool) → spoken (if b then client_loop polls d else (d, false)).0 ≡ spoken c
    either e true = e ∙ from_server-spoken server c
    either e false = from_server-spoken server c

-- A client that no longer watches its keyboard sends nothing more, and never watches it again,
-- whatever the keyboard and the server do.
pub client_loop-silent :
    (polls : List Poll) (c : Client)
    → c.watching ≡ false
    → ((client_loop polls c).0.sent ≡ c.sent) × ((client_loop polls c).0.watching ≡ false)
client_loop-silent polls c h =
    let k = client_loop-spoken polls c h in (ap (λ x. x.1) k, ap (λ x. x.0) k ∙ h)
