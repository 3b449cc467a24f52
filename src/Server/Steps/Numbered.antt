-- ===== src/Server/Steps/Numbered.antt =====
-- Session numbers over a run of the server.
use the_socket_exchange.Common.{
  ℕ, ◌+◌, ◌<◌, none, some, List, ◌∷◌, ◌≡◌, ◌≢◌, refl, ap, ◌∙◌, sym, subst, arith, if◌then◌else◌,
  ◌==◌, nat_eq, nat_beq_iff, Bool-cases, inl, inr, ◌⊎◌,
}
use the_socket_exchange.Assoc
use the_socket_exchange.Assoc.Laws.{lookup-insert, lookup-insert_self}
use the_socket_exchange.Session.{ClientSession, Role, unknown}
use the_socket_exchange.Os.{AcceptAnswer, accepted, writes}
use the_socket_exchange.Os.Registrations.{kq_del-accepts}
use the_socket_exchange.Os.Sending.{SendEnd, finished, blocked, broken}
use the_socket_exchange.Server.{Server}
use the_socket_exchange.Server.Numbers.{
  acceptances, IsCalm, Inherits-refl, Inherits-insert, enqueue-IsCalm, close_session-IsCalm,
  IsCalm-trans, IsNumbered, IsCalm-IsNumbered,
}
use the_socket_exchange.Server.Events.{accept_one, with_accepts, flush_session, Event, run}
use the_socket_exchange.Server.Events.Flushing.{ran, booked, drained}
use the_socket_exchange.Server.Commands.{session_at}
use the_socket_exchange.Server.Steps.{
  Step, traded, told, edited, ended, joined, missed, heard, flushed, Reaches-keeps,
}
use the_socket_exchange.Server.Steps.Runs.{accept_one-accepts, run-Reaches}

module _ (fd : ℕ) (c : ClientSession) (s : Server)
    (found : Assoc.lookup fd s.sessions ≡ some c) where
  booked-IsCalm : IsCalm s (booked fd c s)
  unfolding booked
  booked-IsCalm = record {
    next = refl;
    inherits =
        Inherits-insert fd c _ s.sessions found (record { session_seq = refl; role = λ h. refl });
    accepts = omega arith;
  }

  drained-IsCalm : IsCalm s (drained fd c s)
  unfolding drained booked
  drained-IsCalm = IsCalm-trans booked-IsCalm (record {
    next = refl;
    inherits =
        Inherits-insert fd _ _ (booked fd c s).sessions (lookup-insert_self fd _ s.sessions)
          (record { session_seq = refl; role = λ h. refl });
    accepts = omega (arith, ap acceptances (kq_del-accepts fd writes (booked fd c s).os));
  })

  flush_session-IsCalm : IsCalm s (flush_session fd c s)
  unfolding flush_session ran booked drained
  flush_session-IsCalm = by_end (ran fd c s).end refl
    where
      by_end : (end : SendEnd) → (ran fd c s).end ≡ end → IsCalm s (flush_session fd c s)
      by_end blocked e = rw (e, flush_session) booked-IsCalm
      by_end broken e =
          rw (e, flush_session)
            (IsCalm-trans booked-IsCalm (close_session-IsCalm fd (booked fd c s)))
      by_end finished e = elim (Bool-cases c.want_write) [
        | inl h ↦
            rw (e, flush_session)
              (subst (λ b. IsCalm s (if b then drained fd c s else booked fd c s)) (sym h)
                drained-IsCalm)
        | inr h ↦
            rw (e, flush_session)
              (subst (λ b. IsCalm s (if b then drained fd c s else booked fd c s)) (sym h)
                booked-IsCalm)
      ]

-- Somebody joins.
abbrev Joins : Server → Server → Type 0
Joins s t =
    (cfd : ℕ) × (rest : List AcceptAnswer) × (s.os.accepts ≡ accepted cfd ∷ rest)
    × (t ≡ accept_one cfd (with_accepts rest s))

Step-cases : {s t : Server} → Step s t → IsCalm s t ⊎ Joins s t
Step-cases (traded b s) =
    inl (record { next = refl; inherits = Inherits-refl s.sessions; accepts = omega arith })
Step-cases (told fd line s) = inl (enqueue-IsCalm fd line s)
Step-cases (edited fd c c' s e h) = inl (record {
  next = refl;
  inherits =
      Inherits-insert fd c c' s.sessions e (record { session_seq = h.session_seq; role = h.role });
  accepts = omega arith;
})
Step-cases (ended fd s) = inl (close_session-IsCalm fd s)
Step-cases (joined fd rest s e) = inr (fd, rest, e, refl)
Step-cases (missed e rest s k) = inl (record {
  next = refl;
  inherits = Inherits-refl s.sessions;
  accepts = omega (arith, ap acceptances k);
})
Step-cases (heard rest s) =
    inl (record { next = refl; inherits = Inherits-refl s.sessions; accepts = omega arith })
Step-cases (flushed fd c s e) = inl (flush_session-IsCalm fd c s e)

module _ (cfd : ℕ) (rest : List AcceptAnswer) (s : Server)
    (answer : s.os.accepts ≡ accepted cfd ∷ rest) (v : IsNumbered s) where
  abbrev after : Server
  after = accept_one cfd (with_accepts rest s)

  after-next : after.next_session_seq ≡ s.next_session_seq + 1
  unfolding accept_one
  after-next = omega (arith, v.enough, ap acceptances answer)

  -- The newcomer has the next number, and the others are as before.
  after-sessions :
      (g : ℕ) (c' : ClientSession)
      → Assoc.lookup g after.sessions ≡ some c'
      → ((g ≡ cfd) × (c'.session_seq ≡ s.next_session_seq)) ⊎ (Assoc.lookup g s.sessions ≡ some c')
  unfolding accept_one
  after-sessions g c' e = elim (Bool-cases (cfd == g)) [
    | inl same ↦
        let eq : newcomer ≡ c' = ground (arith, lookup-insert cfd g newcomer s.sessions) in
        inl (sym ((nat_beq_iff cfd g).0 same), ap (λ (x : ClientSession). x.session_seq) (sym eq))
    | inr apart ↦ inr (ground (arith, lookup-insert cfd g newcomer s.sessions))
  ]
    where
      newcomer : ClientSession
      newcomer = record (session_at cfd (with_accepts rest s)) {
        fd = cfd;
        session_seq = s.next_session_seq;
      }

  after-IsNumbered : IsNumbered after
  after-IsNumbered = record {
    enough = omega (
      arith,
      v.enough,
      ap acceptances answer,
      after-next,
      ap acceptances (accept_one-accepts cfd (with_accepts rest s)),
    );
    issued = λ g c' e. elim (after-sessions g c' e) [
      | inl (at, new) ↦ omega (arith, new, after-next)
      | inr f ↦ omega (arith, v.issued g c' f, after-next)
    ];
    distinct =
        λ g h c' d' e f same. two g h c' d' (after-sessions g c' e) (after-sessions h d' f) same;
  }
    where
      two :
          (g h : ℕ) (c' d' : ClientSession)
          → ((g ≡ cfd) × (c'.session_seq ≡ s.next_session_seq))
            ⊎ (Assoc.lookup g s.sessions ≡ some c')
          → ((h ≡ cfd) × (d'.session_seq ≡ s.next_session_seq))
            ⊎ (Assoc.lookup h s.sessions ≡ some d')
          → c'.session_seq ≡ d'.session_seq
          → g ≡ h
      two g h c' d' (inl (at, new)) (inl (at', new')) same = at ∙ sym at'
      two g h c' d' (inl (at, new)) (inr f) same = absurd (omega (arith, v.issued h d' f))
      two g h c' d' (inr e) (inl (at', new')) same = absurd (omega (arith, v.issued g c' e))
      two g h c' d' (inr e) (inr f) same = v.distinct g h c' d' e f same

Step-IsNumbered : {s t : Server} → Step s t → IsNumbered s → IsNumbered t
Step-IsNumbered {s} {t} x v = elim (Step-cases x) [
  | inl calm ↦ IsCalm-IsNumbered s t calm v
  | inr (cfd, rest, answer, e) ↦ subst IsNumbered (sym e) (after-IsNumbered cfd rest s answer v)
]

-- As long as the counter of 64 bits does not run out, all sessions have different numbers after any
-- events, and every number is below the next one.
pub run-IsNumbered : (es : List Event) (s : Server) → IsNumbered s → IsNumbered (run es s)
run-IsNumbered es s v =
    Reaches-keeps IsNumbered (λ t u. Step-IsNumbered) s (run es s) (run-Reaches es s) v

module _ (fd : ℕ) (c : ClientSession) where
  -- Whoever has the number of `c` is the same connection, in the same role if it had one.
  record IsSuccession (t : Server) : Type 0 where
    numbered : IsNumbered t
    later : c.session_seq < t.next_session_seq
    same :
        (g : ℕ) (c' : ClientSession)
        → Assoc.lookup g t.sessions ≡ some c'
        → c'.session_seq ≡ c.session_seq
        → (g ≡ fd) × (c.role ≢ unknown → c'.role ≡ c.role)

  Step-IsSuccession : {s t : Server} → Step s t → IsSuccession s → IsSuccession t
  Step-IsSuccession {s} {t} x p = elim (Step-cases x) [
    | inl calm ↦ record {
      numbered = IsCalm-IsNumbered s t calm p.numbered;
      later = omega (arith, p.later, calm.next);
      same = λ g c' e k.
          let (d, f, h) = calm.inherits g c' e in
          let (at, role) = p.same g d f (sym h.session_seq ∙ k) in
          (at, λ settled. h.role (λ z. settled (sym (role settled) ∙ z)) ∙ role settled);
    }
    | inr (cfd, rest, answer, e) ↦ subst IsSuccession (sym e) (record {
      numbered = after-IsNumbered cfd rest s answer p.numbered;
      later = omega (arith, p.later, after-next cfd rest s answer p.numbered);
      same = λ g c' f k. elim (after-sessions cfd rest s answer p.numbered g c' f) [
        | inl (at, new) ↦ absurd (omega (arith, p.later))
        | inr old ↦ p.same g c' old k
      ];
    })
  ]

-- As long as the counter of 64 bits does not run out, a session number is never given out twice, and
-- a role that is settled stays: whatever happens later, a session with the number of an earlier one
-- stands under the same descriptor, and has the same role if that one had a role.
pub run-keeps_numbers :
    (es : List Event) (s : Server) (fd g : ℕ) (c c' : ClientSession)
    → IsNumbered s
    → Assoc.lookup fd s.sessions ≡ some c
    → Assoc.lookup g (run es s).sessions ≡ some c'
    → c'.session_seq ≡ c.session_seq
    → (g ≡ fd) × (c.role ≢ unknown → c'.role ≡ c.role)
run-keeps_numbers es s fd g c c' v found later same =
    (Reaches-keeps (IsSuccession fd c) (λ t u. Step-IsSuccession fd c) s (run es s)
        (run-Reaches es s)
        (record {
          numbered = v;
          later = v.issued fd c found;
          same = λ h d e k.
              let at = v.distinct h fd d c e found k in
              (
                at,
                λ settled.
                    ap (λ x. elim x as (λ _. Role) [ none ↦ unknown | some z ↦ z.role ])
                      (sym e ∙ ap (λ i. Assoc.lookup i s.sessions) at ∙ found),
              );
        })).same
      g c' later same
