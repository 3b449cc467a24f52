-- ===== src/Server/Commands/Reception/Fills.antt =====
-- Which lines each client receives for the fills of an order.
use the_socket_exchange.Common.{
  ℕ, Option, none, some, List, [], ◌∷◌, ◌++◌, Bool, true, false, ◌&&◌, ◌≡◌, refl, ap, ◌∙◌, sym,
  arith, ◌==◌, nat_eq, nat_beq_iff, bytes_eq, Bytes, if◌then◌else◌, Option-cases, Bool-cases, inl,
  inr, append-nil, append_assoc,
}
use the_socket_exchange.Assoc
use the_socket_exchange.Assoc.{Assoc}
use the_socket_exchange.Book.{Fill}
use the_socket_exchange.Protocol.{msg_bought, msg_sold, msg_trade}
use the_socket_exchange.Session.{ClientSession}
use the_socket_exchange.Server.{Server, framed, wants_trade}
use the_socket_exchange.Server.Quiet.{Quiet, profile_of}
use the_socket_exchange.Server.Streams.{stream}
use the_socket_exchange.Server.Streams.Sending.{enqueue-streams}
use the_socket_exchange.Server.Delivery.{broadcast_trade-streams, Quiet-wants}
use the_socket_exchange.Server.Commands.{notify, report_fill, report_fills}
use the_socket_exchange.Server.Commands.Reports.{notify-Quiet, report_fill-Quiet}
use the_socket_exchange.Server.Commands.Up.{IsUp, notify-IsUp, broadcast_trade-IsUp}

-- A line for a client, or nothing.
abbrev pub line_if : Bool → Bytes → Bytes
line_if b msg = if b then framed msg else []

-- Whether the session at `g` is the one that gave an order as `fd` and `seq`.
abbrev pub is_party : ℕ → ℕ → ℕ → Option ClientSession → Bool
is_party fd seq g none = false
is_party fd seq g (some c) = (fd == g) && (c.session_seq == seq)

-- What the client at `g`, with its session, receives of a fill: first as the buyer, then as the
-- seller, then as a subscriber.
abbrev pub report_to : ℕ → Option ClientSession → Fill → Bytes
report_to g x f =
    line_if (is_party f.buyer_fd f.buyer_seq g x) (msg_bought f.instrument f.qty f.price)
    ++ (line_if (is_party f.sell_fd f.sell_seq g x) (msg_sold f.instrument f.qty f.price)
        ++ line_if (wants_trade f.instrument x) (msg_trade f.instrument f.qty f.price))

abbrev pub reports_to : ℕ → Option ClientSession → List Fill → Bytes
reports_to g x [] = []
reports_to g x (f ∷ fs) = report_to g x f ++ reports_to g x fs

profiled-party :
    (fd seq g : ℕ) (x : Option ClientSession)
    → is_party fd seq g (profile_of x) ≡ is_party fd seq g x
profiled-party fd seq g none = refl
profiled-party fd seq g (some c) = refl

Quiet-party :
    (fd seq g : ℕ) (s t : Server)
    → Quiet s t
    → is_party fd seq g (Assoc.lookup g t.sessions) ≡ is_party fd seq g (Assoc.lookup g s.sessions)
Quiet-party fd seq g s t q =
    sym (profiled-party fd seq g (Assoc.lookup g t.sessions))
    ∙ ap (is_party fd seq g) (q.profiles g)
    ∙ profiled-party fd seq g (Assoc.lookup g s.sessions)

notify-streams :
    (fd seq : ℕ) (msg : Bytes) (s : Server) (g : ℕ)
    → IsUp s
    → stream g (notify fd seq msg s)
      ≡ stream g s ++ line_if (is_party fd seq g (Assoc.lookup g s.sessions)) msg
unfolding notify
notify-streams fd seq msg s g u = elim (Option-cases (Assoc.lookup fd s.sessions)) [
  | inl e ↦
      rw (e, notify)
        (sym (ap (λ b. stream g s ++ line_if b msg) (absent e) ∙ append-nil (stream g s)))
  | inr (c, e) ↦ elim (Bool-cases (c.session_seq == seq)) [
    | inl h ↦
        rw (e, notify, h)
          (enqueue-streams fd msg s c e (u.keyed fd c e) u.fine g
            ∙ ap (λ b. stream g s ++ line_if b msg) (present c e h))
    | inr h ↦
        rw (e, notify, h)
          (sym (ap (λ b. stream g s ++ line_if b msg) (stale c e h) ∙ append-nil (stream g s)))
  ]
]
  where
    there : (fd == g) ≡ true → Assoc.lookup fd s.sessions ≡ Assoc.lookup g s.sessions
    there h = ap (λ k. Assoc.lookup k s.sessions) ((nat_beq_iff fd g).0 h)

    apart : (x : Option ClientSession) → (fd == g) ≡ false → is_party fd seq g x ≡ false
    apart none h = refl
    apart (some c) h = rw h refl

    absent :
        Assoc.lookup fd s.sessions ≡ none → is_party fd seq g (Assoc.lookup g s.sessions) ≡ false
    absent e = elim (Bool-cases (fd == g)) [
      | inl h ↦ ap (is_party fd seq g) (sym (there h) ∙ e)
      | inr h ↦ apart (Assoc.lookup g s.sessions) h
    ]

    present :
        (c : ClientSession)
        → Assoc.lookup fd s.sessions ≡ some c
        → (c.session_seq == seq) ≡ true
        → (fd == g) ≡ is_party fd seq g (Assoc.lookup g s.sessions)
    present c e q = elim (Bool-cases (fd == g)) [
      | inl h ↦ sym (ap (is_party fd seq g) (sym (there h) ∙ e) ∙ ground arith)
      | inr h ↦ h ∙ sym (apart (Assoc.lookup g s.sessions) h)
    ]

    stale :
        (c : ClientSession)
        → Assoc.lookup fd s.sessions ≡ some c
        → (c.session_seq == seq) ≡ false
        → is_party fd seq g (Assoc.lookup g s.sessions) ≡ false
    stale c e q = elim (Bool-cases (fd == g)) [
      | inl h ↦ ap (is_party fd seq g) (sym (there h) ∙ e) ∙ ground arith
      | inr h ↦ apart (Assoc.lookup g s.sessions) h
    ]

report_fill-IsUp : (f : Fill) (s : Server) → IsUp s → IsUp (report_fill f s)
unfolding report_fill
report_fill-IsUp f s u =
    broadcast_trade-IsUp f.instrument f.qty f.price _
      (notify-IsUp f.sell_fd f.sell_seq _ _ (notify-IsUp f.buyer_fd f.buyer_seq _ s u))

report_fill-streams :
    (f : Fill) (s : Server) (g : ℕ)
    → IsUp s
    → stream g (report_fill f s) ≡ stream g s ++ report_to g (Assoc.lookup g s.sessions) f
unfolding report_fill
report_fill-streams f s g u =
    broadcast_trade-streams f.instrument f.qty f.price twice g up_twice.distinct up_twice.keyed
      up_twice.fine
    ∙ ap (λ b. stream g twice ++ line_if b trade)
        (Quiet-wants f.instrument g once twice quiet_twice
          ∙ Quiet-wants f.instrument g s once quiet_once)
    ∙ ap (λ x. x ++ line_if w trade) (notify-streams f.sell_fd f.sell_seq sold once g up_once)
    ∙ ap (λ b. (stream g once ++ line_if b sold) ++ line_if w trade)
        (Quiet-party f.sell_fd f.sell_seq g s once quiet_once)
    ∙ ap (λ x. (x ++ line_if seller sold) ++ line_if w trade)
        (notify-streams f.buyer_fd f.buyer_seq bought s g u)
    ∙ append_assoc (stream g s ++ line_if buyer bought) (line_if seller sold) (line_if w trade)
    ∙ append_assoc (stream g s) (line_if buyer bought) (line_if seller sold ++ line_if w trade)
  where
    bought : Bytes
    bought = msg_bought f.instrument f.qty f.price

    sold : Bytes
    sold = msg_sold f.instrument f.qty f.price

    trade : Bytes
    trade = msg_trade f.instrument f.qty f.price

    once : Server
    once = notify f.buyer_fd f.buyer_seq bought s

    twice : Server
    twice = notify f.sell_fd f.sell_seq sold once

    quiet_once : Quiet s once
    quiet_once = notify-Quiet f.buyer_fd f.buyer_seq bought s

    quiet_twice : Quiet once twice
    quiet_twice = notify-Quiet f.sell_fd f.sell_seq sold once

    up_once : IsUp once
    up_once = notify-IsUp f.buyer_fd f.buyer_seq bought s u

    up_twice : IsUp twice
    up_twice = notify-IsUp f.sell_fd f.sell_seq sold once up_once

    w : Bool
    w = wants_trade f.instrument (Assoc.lookup g s.sessions)

    buyer : Bool
    buyer = is_party f.buyer_fd f.buyer_seq g (Assoc.lookup g s.sessions)

    seller : Bool
    seller = is_party f.sell_fd f.sell_seq g (Assoc.lookup g s.sessions)

pub Quiet-reports :
    (g : ℕ) (s t : Server) (fs : List Fill)
    → Quiet s t
    → reports_to g (Assoc.lookup g t.sessions) fs ≡ reports_to g (Assoc.lookup g s.sessions) fs
Quiet-reports g s t [] q = refl
Quiet-reports g s t (f ∷ fs) q = cc (
  Quiet-party f.buyer_fd f.buyer_seq g s t q,
  Quiet-party f.sell_fd f.sell_seq g s t q,
  Quiet-wants f.instrument g s t q,
  Quiet-reports g s t fs q,
)

pub report_fills-streams :
    (fs : List Fill) (s : Server) (g : ℕ)
    → IsUp s
    → stream g (report_fills fs s) ≡ stream g s ++ reports_to g (Assoc.lookup g s.sessions) fs
unfolding report_fills
report_fills-streams [] s g u = sym (append-nil (stream g s))
report_fills-streams (f ∷ fs) s g u =
    let t = report_fill f s in
    let x = Assoc.lookup g s.sessions in
    report_fills-streams fs t g (report_fill-IsUp f s u)
    ∙ ap (◌++◌ (stream g t)) (Quiet-reports g s t fs (report_fill-Quiet f s))
    ∙ ap (λ y. y ++ reports_to g x fs) (report_fill-streams f s g u)
    ∙ append_assoc (stream g s) (report_to g x f) (reports_to g x fs)
