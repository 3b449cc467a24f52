-- ===== src/Server/UserNames.antt =====
-- Sessions stand under their descriptors, and no two have the same user name.
use the_socket_exchange.Common.{
  ℕ, Option, none, some, [], ◌∷◌, true, false, ◌≡◌, ◌≢◌, refl, ap, ◌∙◌, sym, arith, ◌==◌, nat_eq,
  nat_beq_iff, bytes_eq, bytes_beq_iff, Bytes, Option-cases, Bool-cases, inl, inr,
}
use the_socket_exchange.Assoc
use the_socket_exchange.Assoc.{Assoc}
use the_socket_exchange.Assoc.Laws.{lookup-insert, lookup-erase}
use the_socket_exchange.Session.{ClientSession}
use the_socket_exchange.Server.{Server, close_session}
use the_socket_exchange.Server.Commands.{name_taken}
use the_socket_exchange.Server.Commands.Identity.{identity, identity_of, KeepsIdentity}

pub record IsNamed (m : Assoc ℕ ClientSession) : Type 0 where
  pub keyed : (g : ℕ) (c : ClientSession) → Assoc.lookup g m ≡ some c → c.fd ≡ g
  pub distinct :
      (g h : ℕ) (c d : ClientSession)
      → Assoc.lookup g m ≡ some c
      → Assoc.lookup h m ≡ some d
      → g ≢ h
      → c.username ≢ []
      → c.username ≢ d.username

-- What a session is known by.
abbrev known_as : ClientSession → ℕ × Bytes
known_as c = (c.fd, c.username)

-- A map whose sessions all come from another one.
pub from_sessions :
    (m m' : Assoc ℕ ClientSession)
    → ((g : ℕ) (c' : ClientSession)
        → Assoc.lookup g m' ≡ some c'
        → (c : ClientSession) × (Assoc.lookup g m ≡ some c) × (known_as c' ≡ known_as c))
    → IsNamed m
    → IsNamed m'
from_sessions m m' back v = record {
  keyed = λ g c' e. let (c, f, k) = back g c' e in ap (λ x. x.0) k ∙ v.keyed g c f;
  distinct = λ g h c' d' e f apart full same.
      let (c, e', k) = back g c' e in
      let (d, f', l) = back h d' f in
      v.distinct g h c d e' f' apart (λ z. full (ap (λ x. x.1) k ∙ z))
        (sym (ap (λ x. x.1) k) ∙ same ∙ ap (λ x. x.1) l);
}

by_identity :
    (x : Option ClientSession) (c' : ClientSession)
    → some (identity c') ≡ identity_of x
    → (c : ClientSession) × (x ≡ some c) × (known_as c' ≡ known_as c)
by_identity none c' e = cc
by_identity (some c) c' e = (c, refl, cc)

pub KeepsIdentity-IsNamed :
    (s t : Server) → KeepsIdentity s t → IsNamed s.sessions → IsNamed t.sessions
KeepsIdentity-IsNamed s t k =
    from_sessions s.sessions t.sessions
      (λ g c' e. by_identity (Assoc.lookup g s.sessions) c' (ap identity_of (sym e) ∙ k g))

erase-IsNamed : (fd : ℕ) (m : Assoc ℕ ClientSession) → IsNamed m → IsNamed (Assoc.erase fd m)
erase-IsNamed fd m =
    from_sessions m (Assoc.erase fd m) (λ g c e. (c, ground (arith, lookup-erase fd g m), refl))

pub close_session-IsNamed :
    (fd : ℕ) (s : Server) → IsNamed s.sessions → IsNamed (close_session fd s).sessions
unfolding close_session
close_session-IsNamed fd s v = elim (Option-cases (Assoc.lookup fd s.sessions)) [
  | inl e ↦ rw e v
  | inr (c, e) ↦ rw e (erase-IsNamed fd s.sessions v)
]

-- To store a session under its descriptor, whose name no other session has.
pub insert-IsNamed :
    (fd : ℕ) (c : ClientSession) (m : Assoc ℕ ClientSession)
    → c.fd ≡ fd
    → (c.username ≢ []
        → (h : ℕ) (d : ClientSession) → Assoc.lookup h m ≡ some d
        → h ≢ fd
        → d.username ≢ c.username)
    → IsNamed m
    → IsNamed (Assoc.insert fd c m)
insert-IsNamed fd c m own free v = record {
  keyed = λ g d e. ground (arith, lookup-insert fd g c m, nat_beq_iff fd g, v.keyed g d);
  distinct = λ g h a b e f apart full same. two g h a b e f apart full same;
}
  where
    two :
        (g h : ℕ) (a b : ClientSession)
        → Assoc.lookup g (Assoc.insert fd c m) ≡ some a
        → Assoc.lookup h (Assoc.insert fd c m) ≡ some b
        → g ≢ h
        → a.username ≢ []
        → a.username ≢ b.username
    two g h a b e f apart full same = ground (
      arith,
      lookup-insert fd g c m,
      lookup-insert fd h c m,
      nat_beq_iff fd g,
      nat_beq_iff fd h,
      v.distinct g h a b,
      free,
      free _ h b,
      free _ g a,
    )

-- What the walk of LOGIN over the sessions has found out.
pub name_taken_free :
    (fd : ℕ) (name : Bytes) (m : Assoc ℕ ClientSession)
    → name_taken fd name m ≡ false
    → (h : ℕ) (d : ClientSession) → Assoc.lookup h m ≡ some d
    → h ≢ fd
    → d.username ≢ name
unfolding name_taken Assoc.lookup
name_taken_free fd name [] free h d e apart = cc
name_taken_free fd name ((k, c) ∷ m) free h d e apart = elim (Bool-cases (k == h)) [
  | inl z ↦ λ q. ground (
    arith,
    nat_beq_iff k fd,
    nat_beq_iff k h,
    bytes_beq_iff c.username name,
    ap (λ (x : ClientSession). x.username) (found z),
  )
  | inr z ↦ name_taken_free fd name m (ground arith) h d (ground arith) apart
]
  where
    found : (k == h) ≡ true → c ≡ d
    found z = ground arith
