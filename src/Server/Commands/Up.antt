-- ===== src/Server/Commands/Up.antt =====
-- Servers whose connections are up, and that sending leaves them so.
use the_socket_exchange.Common.{
  ℕ, some, List, [], ◌∷◌, ◌≡◌, refl, sym, subst, arith, ◌==◌, nat_eq, nat_beq_iff, bytes_eq, Bytes,
  Option-cases, Bool-cases, inl, inr, All, is_empty,
}
use the_socket_exchange.Assoc
use the_socket_exchange.Assoc.{Assoc}
use the_socket_exchange.Protocol.{msg_trade}
use the_socket_exchange.Session.{ClientSession}
use the_socket_exchange.Os.Sending.{SendEnd, finished, blocked, broken, fast_path}
use the_socket_exchange.Os.Sending.Laws.{IsFine}
use the_socket_exchange.Server.{
  Server, enqueue, enqueue_on, finish_enqueue, framed, wants_trade, keys, broadcast_to,
  broadcast_trade, sent_by,
}
use the_socket_exchange.Server.Quiet.{enqueue-Quiet}
use the_socket_exchange.Server.Streams.Sending.{enqueue-Delivers}
use the_socket_exchange.Server.Delivery.{IsKeyed, IsDistinct, Quiet-IsKeyed}
use the_socket_exchange.Server.Commands.{notify}

-- The connections are up, and the map of sessions is as a map should be.
pub record IsUp (s : Server) : Type 0 where
  pub keyed : IsKeyed s
  pub distinct : IsDistinct (keys s.sessions)
  pub fine : All IsFine s.os.sends

pub keys-insert :
    (fd : ℕ) (c c' : ClientSession) (m : Assoc ℕ ClientSession)
    → Assoc.lookup fd m ≡ some c
    → keys (Assoc.insert fd c' m) ≡ keys m
unfolding Assoc.lookup Assoc.insert
keys-insert fd c c' [] e = cc
keys-insert fd c c' ((k, d) ∷ m) e = ground (arith, nat_beq_iff k fd, keys-insert fd c c' m)

finish_enqueue-keys :
    (end : SendEnd) (fd : ℕ) (c : ClientSession) (rest : Bytes) (s : Server)
    → Assoc.lookup fd s.sessions ≡ some c
    → keys (finish_enqueue end fd c rest s).sessions ≡ keys s.sessions
unfolding finish_enqueue
finish_enqueue-keys finished fd c rest s e = refl
finish_enqueue-keys broken fd c rest s e = refl
finish_enqueue-keys blocked fd c rest s e = elim (Bool-cases c.want_write) [
  | inl h ↦ rw h (keys-insert fd c _ s.sessions e)
  | inr h ↦ rw h (keys-insert fd c _ s.sessions e)
]

enqueue-keys :
    (fd : ℕ) (line : Bytes) (s : Server) → keys (enqueue fd line s).sessions ≡ keys s.sessions
unfolding enqueue enqueue_on
enqueue-keys fd line s = elim (Option-cases (Assoc.lookup fd s.sessions)) [
  | inl e ↦ rw (e, enqueue) refl
  | inr (c, e) ↦ elim (Bool-cases (is_empty c.outbuf)) [
    | inl h ↦
        let run = fast_path s.os.sends [] (framed line) in
        rw (e, enqueue, h) (finish_enqueue-keys run.end fd c run.rest (sent_by c.fd run s) e)
    | inr h ↦ rw (e, enqueue, h) (keys-insert fd c _ s.sessions e)
  ]
]

pub enqueue-IsUp : (fd : ℕ) (line : Bytes) (s : Server) → IsUp s → IsUp (enqueue fd line s)
enqueue-IsUp fd line s u = record {
  keyed = Quiet-IsKeyed s (enqueue fd line s) (enqueue-Quiet fd line s) u.keyed;
  distinct = subst IsDistinct (sym (enqueue-keys fd line s)) u.distinct;
  fine = elim (Option-cases (Assoc.lookup fd s.sessions)) [
    | inl e ↦ unfold enqueue in rw (e, enqueue) u.fine
    | inr (c, e) ↦ (enqueue-Delivers fd line s c e (u.keyed fd c e)).fine u.fine
  ];
}

pub notify-IsUp : (fd seq : ℕ) (msg : Bytes) (s : Server) → IsUp s → IsUp (notify fd seq msg s)
unfolding notify
notify-IsUp fd seq msg s u = elim (Option-cases (Assoc.lookup fd s.sessions)) [
  | inl e ↦ rw (e, notify) u
  | inr (c, e) ↦ elim (Bool-cases (c.session_seq == seq)) [
    | inl h ↦ rw (e, notify, h) (enqueue-IsUp fd msg s u)
    | inr h ↦ rw (e, notify, h) u
  ]
]

broadcast_to-IsUp :
    (fds : List ℕ) (i msg : Bytes) (s : Server) → IsUp s → IsUp (broadcast_to fds i msg s)
unfolding broadcast_to
broadcast_to-IsUp [] i msg s u = u
broadcast_to-IsUp (fd ∷ fds) i msg s u =
    elim (Bool-cases (wants_trade i (Assoc.lookup fd s.sessions))) [
      | inl e ↦ rw e (broadcast_to-IsUp fds i msg (enqueue fd msg s) (enqueue-IsUp fd msg s u))
      | inr e ↦ rw e (broadcast_to-IsUp fds i msg s u)
    ]

pub broadcast_trade-IsUp :
    (i : Bytes) (qty price : ℕ) (s : Server) → IsUp s → IsUp (broadcast_trade i qty price s)
unfolding broadcast_trade
broadcast_trade-IsUp i qty price s = broadcast_to-IsUp (keys s.sessions) i (msg_trade i qty price) s
