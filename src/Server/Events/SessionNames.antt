-- ===== src/Server/Events/SessionNames.antt =====
-- User names while a session is read: `on_readable` keeps them apart.
use the_socket_exchange.Common.{
  ℕ, zero, suc, Option, none, some, List, [], ◌∷◌, Bool, true, ◌≡◌, refl, ap, ◌∙◌, sym, subst,
  arith, ◌==◌, nat_eq, nat_beq_iff, Bytes, Option-cases, Bool-cases, inl, inr, length,
}
use the_socket_exchange.Assoc
use the_socket_exchange.Assoc.{Assoc}
use the_socket_exchange.Assoc.Laws.{lookup-insert, lookup-insert_self}
use the_socket_exchange.Framing
use the_socket_exchange.Session.{ClientSession}
use the_socket_exchange.Os.{
  RecvAnswer, received, recv_failed, eintr, eagain, ewouldblock, econnaborted, econnreset, fault,
}
use the_socket_exchange.Server.{Server, store}
use the_socket_exchange.Server.Commands.{session_at, handle_line}
use the_socket_exchange.Server.Commands.Identity.{identity_of, found_at}
use the_socket_exchange.Server.Commands.LineEffect.{
  LineEffect, kept, named, left, handle_line-LineEffect,
}
use the_socket_exchange.Server.UserNames.{
  IsNamed, from_sessions, KeepsIdentity-IsNamed, close_session-IsNamed, insert-IsNamed,
  name_taken_free,
}
use the_socket_exchange.Server.Events.{handle_lines, take_bytes, read_loop, on_readable}

-- The session of a descriptor is there.
abbrev pub Present : ℕ → Server → Type 0
Present fd s = (c : ClientSession) × (Assoc.lookup fd s.sessions ≡ some c)

LineEffect-IsNamed :
    (fd : ℕ) (s : Server) (r : Server × Bool)
    → LineEffect fd s r
    → IsNamed s.sessions
    → IsNamed r.0.sessions
LineEffect-IsNamed fd s r (kept a k) v = KeepsIdentity-IsNamed s r.0 k v
LineEffect-IsNamed fd s r (named t d name a k f e l) v =
    let w = KeepsIdentity-IsNamed s t k v in
    let own = w.keyed fd d f in
    let d' = record d { username = name } in
    KeepsIdentity-IsNamed (store fd d' t) r.0 l (
      insert-IsNamed fd d' t.sessions own
        (λ full h x g apart. name_taken_free d.fd name t.sessions e h x g (λ q. apart (q ∙ own))) w)
LineEffect-IsNamed fd s r (left t d a k f e) v =
    subst (λ (x : Server). IsNamed x.sessions) (sym e)
      (close_session-IsNamed d.fd t (KeepsIdentity-IsNamed s t k v))

identity-some :
    (x y : Option ClientSession) (c : ClientSession)
    → identity_of x ≡ identity_of y
    → y ≡ some c
    → (d : ClientSession) × (x ≡ some d)
identity-some none y c e f = cc
identity-some (some d) y c e f = (d, refl)

pub LineEffect-Present :
    (fd : ℕ) (s : Server) (r : Server × Bool)
    → LineEffect fd s r
    → Present fd s
    → r.1 ≡ true
    → Present fd r.0
LineEffect-Present fd s r (kept a k) (c, p) h =
    identity-some (Assoc.lookup fd r.0.sessions) (Assoc.lookup fd s.sessions) c (k fd) p
LineEffect-Present fd s r (named t d name a k f e l) p h =
    let d' = record d { username = name } in
    identity-some (Assoc.lookup fd r.0.sessions) (Assoc.lookup fd (store fd d' t).sessions) d'
      (l fd) (lookup-insert_self fd d' t.sessions)
LineEffect-Present fd s r (left t d a k f e) p h = cc

-- To store a session again under the same name.
pub restore-IsNamed :
    (fd : ℕ) (c c' : ClientSession) (m : Assoc ℕ ClientSession)
    → Assoc.lookup fd m ≡ some c
    → c'.fd ≡ c.fd
    → c'.username ≡ c.username
    → IsNamed m
    → IsNamed (Assoc.insert fd c' m)
restore-IsNamed fd c c' m found f u = from_sessions m (Assoc.insert fd c' m) (λ g x e.
    elim (Bool-cases (fd == g)) [
      | inl same ↦ (
        c,
        ap (λ k. Assoc.lookup k m) (sym ((nat_beq_iff fd g).0 same)) ∙ found,
        ground (arith, lookup-insert fd g c' m),
      )
      | inr apart ↦ (x, ground (arith, lookup-insert fd g c' m), refl)
    ])

-- The result of a reading loop: names are as they should be, and the session is there if it says so.
abbrev IsRead : ℕ → Server × Bool → Type 0
IsRead fd r = IsNamed r.0.sessions × (r.1 ≡ true → Present fd r.0)

handle_lines-IsRead :
    (fuel fd : ℕ) (s : Server)
    → Present fd s
    → IsNamed s.sessions
    → IsRead fd (handle_lines fuel fd s)
unfolding handle_lines
handle_lines-IsRead zero fd s p v = (v, λ h. p)
handle_lines-IsRead (suc fuel) fd s (c, found) v =
    elim (Option-cases (Framing.next_line (session_at fd s).inbuf).0) [
      | inl e ↦ rw (e, handle_lines) (w, λ h. (c', lookup-insert_self fd c' s.sessions))
      | inr (line, e) ↦
          let r = handle_line fd line (store fd c' s) in
          let effect =
            handle_line-LineEffect fd line (store fd c' s) c'
              (lookup-insert_self fd c' s.sessions) in
          let x = LineEffect-IsNamed fd (store fd c' s) r effect w in
          elim (Bool-cases r.1) [
            | inl alive ↦
                rw (e, handle_lines, alive)
                  (handle_lines-IsRead fuel fd r.0
                    (LineEffect-Present fd (store fd c' s) r effect
                      (c', lookup-insert_self fd c' s.sessions) alive)
                    x)
            | inr gone ↦ rw (e, handle_lines, gone) (x, λ h. cc)
          ]
    ]
  where
    c' : ClientSession
    c' = record (session_at fd s) { inbuf = (Framing.next_line (session_at fd s).inbuf).1 }

    w : IsNamed (store fd c' s).sessions
    w =
        restore-IsNamed fd c c' s.sessions found
          (ap (λ (x : ClientSession). x.fd) (found_at fd c s found))
          (ap (λ (x : ClientSession). x.username) (found_at fd c s found)) v

take_bytes-IsRead :
    (fd : ℕ) (bytes : Bytes) (s : Server)
    → Present fd s
    → IsNamed s.sessions
    → IsRead fd (take_bytes fd bytes s)
unfolding take_bytes
take_bytes-IsRead fd bytes s (c, found) v =
    let b = Framing.feed (session_at fd s).inbuf bytes in
    let c' = record (session_at fd s) { inbuf = b } in
    handle_lines-IsRead (suc (length b.buf)) fd (store fd c' s)
      (c', lookup-insert_self fd c' s.sessions)
      (restore-IsNamed fd c c' s.sessions found
        (ap (λ (x : ClientSession). x.fd) (found_at fd c s found))
        (ap (λ (x : ClientSession). x.username) (found_at fd c s found)) v)

read_loop-IsNamed :
    (answers : List RecvAnswer) (fd : ℕ) (s : Server)
    → Present fd s
    → IsNamed s.sessions
    → IsNamed (read_loop answers fd s).sessions
unfolding read_loop
read_loop-IsNamed [] fd s p v = v
read_loop-IsNamed (received [] ∷ rest) fd s p v = close_session-IsNamed fd s v
read_loop-IsNamed (received (c ∷ bytes) ∷ rest) fd s p v =
    let t = take_bytes-IsRead fd (c ∷ bytes) s p v in
    elim (Bool-cases (take_bytes fd (c ∷ bytes) s).1) [
      | inl e ↦ rw e (read_loop-IsNamed rest fd (take_bytes fd (c ∷ bytes) s).0 (t.1 e) t.0)
      | inr e ↦ rw e t.0
    ]
read_loop-IsNamed (recv_failed eintr ∷ rest) fd s p v = read_loop-IsNamed rest fd s p v
read_loop-IsNamed (recv_failed eagain ∷ rest) fd s p v = v
read_loop-IsNamed (recv_failed ewouldblock ∷ rest) fd s p v = v
read_loop-IsNamed (recv_failed econnaborted ∷ rest) fd s p v = close_session-IsNamed fd s v
read_loop-IsNamed (recv_failed econnreset ∷ rest) fd s p v = close_session-IsNamed fd s v
read_loop-IsNamed (recv_failed fault ∷ rest) fd s p v = close_session-IsNamed fd s v

pub on_readable-IsNamed :
    (fd : ℕ) (s : Server) → IsNamed s.sessions → IsNamed (on_readable fd s).sessions
unfolding on_readable
on_readable-IsNamed fd s v = elim (Option-cases (Assoc.lookup fd s.sessions)) [
  | inl e ↦ rw (e, on_readable) v
  | inr (c, e) ↦ rw (e, on_readable) (read_loop-IsNamed s.os.recvs fd s (c, e) v)
]
