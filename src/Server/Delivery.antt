-- ===== src/Server/Delivery.antt =====
-- Who receives a trade: `broadcast_trade` against the streams of all clients.
use the_socket_exchange.Common.{
  ℕ, Option, none, some, List, [], ◌∷◌, ◌++◌, Bool, true, false, ◌&&◌, ◌≡◌, refl, ap, ◌∙◌, sym,
  arith, ◌==◌, nat_eq, nat_beq_iff, bytes_eq, Bytes, if◌then◌else◌, Option-cases, Bool-cases, inl,
  inr, All, append-nil,
}
use the_socket_exchange.Assoc
use the_socket_exchange.Assoc.{Assoc}
use the_socket_exchange.Session.{ClientSession}
use the_socket_exchange.Protocol.{msg_trade}
use the_socket_exchange.Os.Sending.Laws.{IsFine}
use the_socket_exchange.Server.{
  Server, enqueue, framed, wants_trade, keys, broadcast_to, broadcast_trade,
}
use the_socket_exchange.Server.Quiet.{Quiet, profile, profile_of, enqueue-Quiet, Quiet-refl}
use the_socket_exchange.Server.Streams.{stream}
use the_socket_exchange.Server.Streams.Sending.{Delivers, enqueue-Delivers, enqueue-streams}

-- Every session stands under its own descriptor.
abbrev pub IsKeyed : Server → Type 0
IsKeyed s = (g : ℕ) (c : ClientSession) → Assoc.lookup g s.sessions ≡ some c → c.fd ≡ g

abbrev has_key : ℕ → List ℕ → Bool
has_key g [] = false
has_key g (fd ∷ fds) = if fd == g then true else has_key g fds

abbrev pub IsDistinct : List ℕ → Type 0
IsDistinct [] = Unit
IsDistinct (fd ∷ fds) = (has_key fd fds ≡ false) × IsDistinct fds

-- What the walk over some descriptors sends to one of them.
abbrev share : Bool → Bytes → Bytes
share b msg = if b then framed msg else []

profile-fd :
    (x : Option ClientSession) (c : ClientSession)
    → profile_of x ≡ some (profile c)
    → (d : ClientSession) → x ≡ some d
    → d.fd ≡ c.fd
profile-fd none c h d e = cc
profile-fd (some a) c h d e = cc

pub Quiet-IsKeyed : (s s' : Server) → Quiet s s' → IsKeyed s → IsKeyed s'
Quiet-IsKeyed s s' q k g c e = elim (Option-cases (Assoc.lookup g s.sessions)) [
  | inl h ↦ absurd (ground (arith, q.profiles g))
  | inr (d, h) ↦
      sym (profile-fd (Assoc.lookup g s.sessions) c (sym (q.profiles g) ∙ ap profile_of e) d h)
      ∙ k g d h
]

wants-profile :
    (i : Bytes) (x : Option ClientSession) → wants_trade i (profile_of x) ≡ wants_trade i x
wants-profile i none = refl
wants-profile i (some c) = refl

pub Quiet-wants :
    (i : Bytes) (g : ℕ) (s s' : Server)
    → Quiet s s'
    → wants_trade i (Assoc.lookup g s'.sessions) ≡ wants_trade i (Assoc.lookup g s.sessions)
Quiet-wants i g s s' q =
    sym (wants-profile i (Assoc.lookup g s'.sessions))
    ∙ ap (wants_trade i) (q.profiles g)
    ∙ wants-profile i (Assoc.lookup g s.sessions)

module _ (i msg : Bytes) (g : ℕ) where
  abbrev visit : ℕ → Server → Server
  visit fd s = if wants_trade i (Assoc.lookup fd s.sessions) then enqueue fd msg s else s

  visit-Quiet : (fd : ℕ) (s : Server) → Quiet s (visit fd s)
  visit-Quiet fd s = elim (Bool-cases (wants_trade i (Assoc.lookup fd s.sessions))) [
    | inl e ↦ rw e (enqueue-Quiet fd msg s)
    | inr e ↦ rw e (Quiet-refl s)
  ]

  visit-streams :
      (fd : ℕ) (s : Server)
      → IsKeyed s
      → All IsFine s.os.sends
      → (stream g (visit fd s)
          ≡ stream g s ++ share ((fd == g) && wants_trade i (Assoc.lookup g s.sessions)) msg)
        × All IsFine (visit fd s).os.sends
  visit-streams fd s k fine = elim (Option-cases (Assoc.lookup fd s.sessions)) [
    | inl e ↦ (rw e (skipped (ap (wants_trade i) e)), rw e fine)
    | inr (c, e) ↦ elim (Bool-cases (wants_trade i (Assoc.lookup fd s.sessions))) [
      | inr w ↦ (rw w (skipped w), rw w fine)
      | inl w ↦
          let d : Delivers fd (framed msg) s (enqueue fd msg s) =
            enqueue-Delivers fd msg s c e (k fd c e) in
          (
            rw w (
                enqueue-streams fd msg s c e (k fd c e) fine g
                ∙ ap (λ b. stream g s ++ share b msg) (meant w)),
            rw w (d.fine fine),
          )
    ]
  ]
    where
      meant :
          wants_trade i (Assoc.lookup fd s.sessions) ≡ true
          → (fd == g) ≡ ((fd == g) && wants_trade i (Assoc.lookup g s.sessions))
      meant w = elim (Bool-cases (fd == g)) [
        | inl e ↦
            ground
              (arith, ap (λ k. wants_trade i (Assoc.lookup k s.sessions)) ((nat_beq_iff fd g).0 e))
        | inr e ↦ ground arith
      ]

      skipped :
          wants_trade i (Assoc.lookup fd s.sessions) ≡ false
          → stream g s
            ≡ stream g s ++ share ((fd == g) && wants_trade i (Assoc.lookup g s.sessions)) msg
      skipped w = elim (Bool-cases (fd == g)) [
        | inl e ↦ ground (
          arith,
          append-nil (stream g s),
          ap (λ k. wants_trade i (Assoc.lookup k s.sessions)) ((nat_beq_iff fd g).0 e),
        )
        | inr e ↦ ground (arith, append-nil (stream g s))
      ]

  combine :
      (fd : ℕ) (fds : List ℕ) (w : Bool) (x : Bytes)
      → has_key fd fds ≡ false
      → (x ++ share ((fd == g) && w) msg) ++ share (has_key g fds && w) msg
        ≡ x ++ share (has_key g (fd ∷ fds) && w) msg
  combine fd fds w x h = elim (Bool-cases (fd == g)) [
    | inl e ↦
        ground
          (arith, append-nil (x ++ share w msg), ap (λ k. has_key k fds) ((nat_beq_iff fd g).0 e))
    | inr e ↦ ground (arith, append-nil x)
  ]

  broadcast_to-streams :
      (fds : List ℕ) (s : Server)
      → IsDistinct fds
      → IsKeyed s
      → All IsFine s.os.sends
      → stream g (broadcast_to fds i msg s)
        ≡ stream g s ++ share (has_key g fds && wants_trade i (Assoc.lookup g s.sessions)) msg
  unfolding broadcast_to
  broadcast_to-streams [] s h k fine = sym (append-nil (stream g s))
  broadcast_to-streams (fd ∷ fds) s (new, h) k fine =
      let v = visit-streams fd s k fine in
      let q = visit-Quiet fd s in
      let w = wants_trade i (Assoc.lookup g s.sessions) in
      broadcast_to-streams fds (visit fd s) h (Quiet-IsKeyed s (visit fd s) q k) v.1
      ∙ ap (λ b. stream g (visit fd s) ++ share (has_key g fds && b) msg)
          (Quiet-wants i g s (visit fd s) q)
      ∙ ap (λ x. x ++ share (has_key g fds && w) msg) v.0
      ∙ combine fd fds w (stream g s) new

wants_key :
    (i : Bytes) (g : ℕ) (m : Assoc ℕ ClientSession)
    → (has_key g (keys m) && wants_trade i (Assoc.lookup g m)) ≡ wants_trade i (Assoc.lookup g m)
unfolding Assoc.lookup
wants_key i g [] = refl
wants_key i g ((fd, c) ∷ m) = ground (arith, wants_key i g m)

-- While the connections are up, `broadcast_trade` sends one TRADE line to each client for market
-- data that has subscribed to the instrument, behind all it was sent before, and nothing to anyone
-- else. Each descriptor stands once in the map of sessions, and each session under its own.
pub broadcast_trade-streams :
    (i : Bytes) (qty price : ℕ) (s : Server) (g : ℕ)
    → IsDistinct (keys s.sessions)
    → IsKeyed s
    → All IsFine s.os.sends
    → stream g (broadcast_trade i qty price s)
      ≡ stream g s
        ++ (if wants_trade i (Assoc.lookup g s.sessions)
            then framed (msg_trade i qty price)
            else [])
unfolding broadcast_trade
broadcast_trade-streams i qty price s g h k fine =
    broadcast_to-streams i (msg_trade i qty price) g (keys s.sessions) s h k fine
    ∙ ap (λ b. stream g s ++ share b (msg_trade i qty price)) (wants_key i g s.sessions)
