-- ===== src/Server/Quiet.antt =====
-- What sending leaves alone: everything but the queues of output and the operating system.
use the_socket_exchange.Common.{
  ℕ, Option, none, some, List, [], ◌∷◌, false, ◌≡◌, refl, ap, ◌∙◌, sym, ◌==◌, nat_eq, nat_beq_iff,
  Bytes, if◌then◌else◌, Option-cases, Bool-cases, inl, inr, is_empty,
}
use the_socket_exchange.Assoc
use the_socket_exchange.Assoc.Laws.{lookup-insert}
use the_socket_exchange.Session.{ClientSession}
use the_socket_exchange.Protocol.{msg_trade}
use the_socket_exchange.Os.{Os, kq_add, writes}
use the_socket_exchange.Os.Sending.{SendEnd, finished, blocked, broken, SendRun, fast_path}
use the_socket_exchange.Server.{
  Server, store, with_os, sent_by, queue_rest, finish_enqueue, keys, enqueue_on, enqueue, framed,
  broadcast_to, broadcast_trade, wants_trade,
}

-- A session without its output.
abbrev pub profile : ClientSession → ClientSession
profile c = record c { outbuf = []; want_write = false }

abbrev pub profile_of : Option ClientSession → Option ClientSession
profile_of none = none
profile_of (some c) = some (profile c)

-- The profile of the session at a descriptor.
abbrev pub profile_at : ℕ → Server → Option ClientSession
profile_at fd s = profile_of (Assoc.lookup fd s.sessions)

pub record Quiet (s s' : Server) : Type 0 where
  pub book : s'.book ≡ s.book
  pub next_seq : s'.next_session_seq ≡ s.next_session_seq
  pub listen : s'.listen_fd ≡ s.listen_fd
  pub profiles : (g : ℕ) → profile_at g s' ≡ profile_at g s

pub Quiet-refl : (s : Server) → Quiet s s
Quiet-refl s = record { book = refl; next_seq = refl; listen = refl; profiles = λ g. refl }

pub Quiet-trans : {s t u : Server} → Quiet s t → Quiet t u → Quiet s u
Quiet-trans q r = record {
  book = r.book ∙ q.book;
  next_seq = r.next_seq ∙ q.next_seq;
  listen = r.listen ∙ q.listen;
  profiles = λ g. r.profiles g ∙ q.profiles g;
}

with_os-Quiet : (f : Os → Os) (s : Server) → Quiet s (with_os f s)
with_os-Quiet f s = record { book = refl; next_seq = refl; listen = refl; profiles = λ g. refl }

sent_by-Quiet : (fd : ℕ) (run : SendRun) (s : Server) → Quiet s (sent_by fd run s)
sent_by-Quiet fd run s = record {
  book = refl;
  next_seq = refl;
  listen = refl;
  profiles = λ g. refl;
}

-- To store a session that differs in its output only is quiet.
store-Quiet :
    (fd : ℕ) (c c' : ClientSession) (s : Server)
    → Assoc.lookup fd s.sessions ≡ some c
    → profile c' ≡ profile c
    → Quiet s (store fd c' s)
store-Quiet fd c c' s found same = record {
  book = refl;
  next_seq = refl;
  listen = refl;
  profiles = λ g. elim (Bool-cases (fd == g)) [
    | inl e ↦
        let eq : fd ≡ g = (nat_beq_iff fd g).0 e in
        ap profile_of (lookup-insert fd g c' s.sessions)
        ∙ rw e (
            ap some same
            ∙ sym (ap profile_of (ap (λ k. Assoc.lookup k s.sessions) (sym eq) ∙ found)))
    | inr e ↦ ap profile_of (lookup-insert fd g c' s.sessions) ∙ rw e refl
  ];
}

queue_rest-Quiet :
    (fd : ℕ) (c : ClientSession) (rest : Bytes) (s : Server)
    → Assoc.lookup fd s.sessions ≡ some c
    → Quiet s (queue_rest fd c rest s)
queue_rest-Quiet fd c rest s found = elim (Bool-cases c.want_write) [
  | inl e ↦ rw e (store-Quiet fd c _ s found refl)
  | inr e ↦ rw e (
      Quiet-trans (with_os-Quiet (kq_add c.fd writes) s)
        (store-Quiet fd c _ (with_os (kq_add c.fd writes) s) found refl))
]

finish_enqueue-Quiet :
    (end : SendEnd) (fd : ℕ) (c : ClientSession) (rest : Bytes) (s : Server)
    → Assoc.lookup fd s.sessions ≡ some c
    → Quiet s (finish_enqueue end fd c rest s)
unfolding finish_enqueue
finish_enqueue-Quiet finished fd c rest s found = Quiet-refl s
finish_enqueue-Quiet broken fd c rest s found = Quiet-refl s
finish_enqueue-Quiet blocked fd c rest s found = queue_rest-Quiet fd c rest s found

enqueue_on-Quiet :
    (fd : ℕ) (c : ClientSession) (text : Bytes) (s : Server)
    → Assoc.lookup fd s.sessions ≡ some c
    → Quiet s (enqueue_on fd c text s)
unfolding enqueue_on
enqueue_on-Quiet fd c text s found = elim (Bool-cases (is_empty c.outbuf)) [
  | inl e ↦
      let run = fast_path s.os.sends [] text in
      rw e (
        Quiet-trans (sent_by-Quiet c.fd run s)
          (finish_enqueue-Quiet run.end fd c run.rest (sent_by c.fd run s) found))
  | inr e ↦ rw e (store-Quiet fd c _ s found refl)
]

pub enqueue-Quiet : (fd : ℕ) (line : Bytes) (s : Server) → Quiet s (enqueue fd line s)
unfolding enqueue
enqueue-Quiet fd line s = elim (Option-cases (Assoc.lookup fd s.sessions)) [
  | inl e ↦ rw (e, enqueue) (Quiet-refl s)
  | inr (c, e) ↦ rw (e, enqueue) (enqueue_on-Quiet fd c (framed line) s e)
]

pub broadcast_to-Quiet :
    (fds : List ℕ) (i msg : Bytes) (s : Server) → Quiet s (broadcast_to fds i msg s)
unfolding broadcast_to
broadcast_to-Quiet [] i msg s = Quiet-refl s
broadcast_to-Quiet (fd ∷ fds) i msg s = Quiet-trans one (broadcast_to-Quiet fds i msg _)
  where
    one : Quiet s (if wants_trade i (Assoc.lookup fd s.sessions) then enqueue fd msg s else s)
    one = elim (Bool-cases (wants_trade i (Assoc.lookup fd s.sessions))) [
      | inl e ↦ rw e (enqueue-Quiet fd msg s)
      | inr e ↦ rw e (Quiet-refl s)
    ]

pub broadcast_trade-Quiet :
    (i : Bytes) (qty price : ℕ) (s : Server) → Quiet s (broadcast_trade i qty price s)
unfolding broadcast_trade
broadcast_trade-Quiet i qty price s =
    broadcast_to-Quiet (keys s.sessions) i (msg_trade i qty price) s
