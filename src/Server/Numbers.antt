-- ===== src/Server/Numbers.antt =====
-- The numbers that tell the sessions apart, and the roles of the sessions that have them.
use the_socket_exchange.Common.{
  ℕ, suc, ◌+◌, ◌^◌, ◌≤◌, ◌<◌, Option, none, some, List, [], ◌∷◌, Bool, true, false, ◌≡◌, ◌≢◌, refl,
  ap, ◌∙◌, sym, subst, arith, if◌then◌else◌, ◌==◌, nat_eq, nat_beq_iff, Bytes, is_empty,
  Option-cases, Bool-cases, inl, inr,
}
use the_socket_exchange.Assoc
use the_socket_exchange.Assoc.{Assoc}
use the_socket_exchange.Assoc.Laws.{lookup-insert, lookup-erase}
use the_socket_exchange.Session.{ClientSession, unknown}
use the_socket_exchange.Os.{
  Os, AcceptAnswer, accepted, accept_failed, reads, writes, kq_add, kq_del, close,
}
use the_socket_exchange.Os.Registrations.{kq_add-accepts, kq_del-accepts}
use the_socket_exchange.Os.Sending.{SendEnd, finished, blocked, broken, fast_path}
use the_socket_exchange.Server.{
  Server, with_os, sent_by, queue_rest, finish_enqueue, enqueue_on, enqueue, framed, close_found,
  close_session,
}
use the_socket_exchange.Server.Quiet.{profile, profile_of, enqueue-Quiet}

-- The connections that `accept` has still to answer with.
abbrev pub acceptances : List AcceptAnswer → ℕ
acceptances [] = 0
acceptances (accepted fd ∷ rest) = suc (acceptances rest)
acceptances (accept_failed e ∷ rest) = acceptances rest

-- A session that comes from another one: the same number, and a role that is settled stays.
pub record IsHeir (c c' : ClientSession) : Type 0 where
  pub session_seq : c'.session_seq ≡ c.session_seq
  pub role : c.role ≢ unknown → c'.role ≡ c.role

-- Every session comes from the one at its descriptor.
abbrev pub Inherits : Assoc ℕ ClientSession → Assoc ℕ ClientSession → Type 0
Inherits m m' =
    (g : ℕ) (c' : ClientSession)
    → Assoc.lookup g m' ≡ some c'
    → (c : ClientSession) × (Assoc.lookup g m ≡ some c) × IsHeir c c'

-- Nobody joins.
pub record IsCalm (s t : Server) : Type 0 where
  pub next : t.next_session_seq ≡ s.next_session_seq
  pub inherits : Inherits s.sessions t.sessions
  pub accepts : acceptances t.os.accepts ≤ acceptances s.os.accepts

pub IsHeir-refl : (c : ClientSession) → IsHeir c c
IsHeir-refl c = record { session_seq = refl; role = λ h. refl }

pub Inherits-refl : (m : Assoc ℕ ClientSession) → Inherits m m
Inherits-refl m g c e = (c, e, IsHeir-refl c)

pub Inherits-insert :
    (fd : ℕ) (c c' : ClientSession) (m : Assoc ℕ ClientSession)
    → Assoc.lookup fd m ≡ some c
    → IsHeir c c'
    → Inherits m (Assoc.insert fd c' m)
Inherits-insert fd c c' m found h g d e = elim (Bool-cases (fd == g)) [
  | inl same ↦ (
    c,
    ap (λ k. Assoc.lookup k m) (sym ((nat_beq_iff fd g).0 same)) ∙ found,
    subst (IsHeir c) (ground (arith, lookup-insert fd g c' m)) h,
  )
  | inr apart ↦ (d, ground (arith, lookup-insert fd g c' m), IsHeir-refl d)
]

pub Inherits-erase : (fd : ℕ) (m : Assoc ℕ ClientSession) → Inherits m (Assoc.erase fd m)
Inherits-erase fd m g c e = (c, ground (arith, lookup-erase fd g m), IsHeir-refl c)

by_profile :
    (x : Option ClientSession) (c' : ClientSession)
    → some (profile c') ≡ profile_of x
    → (c : ClientSession) × (x ≡ some c) × IsHeir c c'
by_profile none c' e = cc
by_profile (some c) c' e = (c, refl, record { session_seq = cc; role = λ h. cc })

queue_rest-accepts :
    (fd : ℕ) (c : ClientSession) (rest : Bytes) (s : Server)
    → (queue_rest fd c rest s).os.accepts ≡ s.os.accepts
queue_rest-accepts fd c rest s = go c.want_write
  where
    go : (b : Bool) → (if b then s else with_os (kq_add c.fd writes) s).os.accepts ≡ s.os.accepts
    go true = refl
    go false = kq_add-accepts c.fd writes s.os

finish_enqueue-accepts :
    (end : SendEnd) (fd : ℕ) (c : ClientSession) (rest : Bytes) (s : Server)
    → (finish_enqueue end fd c rest s).os.accepts ≡ s.os.accepts
unfolding finish_enqueue
finish_enqueue-accepts finished fd c rest s = refl
finish_enqueue-accepts broken fd c rest s = refl
finish_enqueue-accepts blocked fd c rest s = queue_rest-accepts fd c rest s

enqueue-accepts :
    (fd : ℕ) (line : Bytes) (s : Server) → (enqueue fd line s).os.accepts ≡ s.os.accepts
unfolding enqueue enqueue_on
enqueue-accepts fd line s = elim (Option-cases (Assoc.lookup fd s.sessions)) [
  | inl e ↦ rw (e, enqueue) refl
  | inr (c, e) ↦ elim (Bool-cases (is_empty c.outbuf)) [
    | inl k ↦
        let run = fast_path s.os.sends [] (framed line) in
        rw (e, enqueue, k) (finish_enqueue-accepts run.end fd c run.rest (sent_by c.fd run s))
    | inr k ↦ rw (e, enqueue, k) refl
  ]
]

same_count : {xs ys : List AcceptAnswer} → xs ≡ ys → acceptances xs ≤ acceptances ys
same_count e = omega (arith, ap acceptances e)

pub enqueue-IsCalm : (fd : ℕ) (line : Bytes) (s : Server) → IsCalm s (enqueue fd line s)
enqueue-IsCalm fd line s =
    let q = enqueue-Quiet fd line s in
    record {
      next = q.next_seq;
      inherits = λ g c' e.
          by_profile (Assoc.lookup g s.sessions) c' (ap profile_of (sym e) ∙ q.profiles g);
      accepts = same_count (enqueue-accepts fd line s);
    }

close_found-accepts :
    (fd : ℕ) (c : ClientSession) (s : Server)
    → (close_found fd (some c) s).os.accepts ≡ s.os.accepts
unfolding close
close_found-accepts fd c s = go c.want_write
  where
    os : Os
    os = kq_del fd reads s.os

    go : (b : Bool) → (close fd (if b then kq_del fd writes os else os)).accepts ≡ s.os.accepts
    go true = kq_del-accepts fd writes os ∙ kq_del-accepts fd reads s.os
    go false = kq_del-accepts fd reads s.os

pub close_session-IsCalm : (fd : ℕ) (s : Server) → IsCalm s (close_session fd s)
unfolding close_session
close_session-IsCalm fd s = go (Assoc.lookup fd s.sessions)
  where
    go : (found : Option ClientSession) → IsCalm s (close_found fd found s)
    go none = record { next = refl; inherits = Inherits-refl s.sessions; accepts = omega arith }
    go (some c) = record {
      next = refl;
      inherits = Inherits-erase fd s.sessions;
      accepts = same_count (close_found-accepts fd c s);
    }

pub IsCalm-trans : {s t u : Server} → IsCalm s t → IsCalm t u → IsCalm s u
IsCalm-trans {s} p q = record {
  next = q.next ∙ p.next;
  inherits = λ g e f.
      let (d, k, h) = q.inherits g e f in
      let (c, l, i) = p.inherits g d k in
      (
        c,
        l,
        record {
          session_seq = h.session_seq ∙ i.session_seq;
          role = λ settled. h.role (λ z. settled (sym (i.role settled) ∙ z)) ∙ i.role settled;
        },
      );
  accepts = omega (arith, p.accepts, q.accepts);
}

-- Numbers are given out in order, and enough are left for the connections to come.
pub record IsNumbered (s : Server) : Type 0 where
  pub enough : s.next_session_seq + acceptances s.os.accepts < 2 ^ 64
  pub issued :
      (g : ℕ) (c : ClientSession)
      → Assoc.lookup g s.sessions ≡ some c
      → c.session_seq < s.next_session_seq
  pub distinct :
      (g h : ℕ) (c d : ClientSession)
      → Assoc.lookup g s.sessions ≡ some c
      → Assoc.lookup h s.sessions ≡ some d
      → c.session_seq ≡ d.session_seq
      → g ≡ h

pub IsCalm-IsNumbered : (s t : Server) → IsCalm s t → IsNumbered s → IsNumbered t
IsCalm-IsNumbered s t k v = record {
  enough = omega (arith, v.enough, k.next, k.accepts);
  issued = λ g c' e.
      let (c, f, h) = k.inherits g c' e in omega (arith, v.issued g c f, h.session_seq, k.next);
  distinct = λ g h c' d' e f same.
      let (c, e', i) = k.inherits g c' e in
      let (d, f', j) = k.inherits h d' f in
      v.distinct g h c d e' f' (sym i.session_seq ∙ same ∙ j.session_seq);
}
