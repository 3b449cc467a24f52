-- ===== src/Server/Watching.antt =====
-- The registrations of the kqueue follow the sessions and their queues of output.
pub mod Sending
pub mod Sessions
pub mod Flush
use the_socket_exchange.Common.{
  ℕ, none, some, [], ◌∷◌, ◌++◌, true, false, not, ◌≡◌, ◌≢◌, ap, ◌∙◌, sym, subst, arith,
  if◌then◌else◌, ◌==◌, nat_eq, nat_beq_iff, is_empty, Bool-cases, inl, inr,
}
use the_socket_exchange.Assoc
use the_socket_exchange.Assoc.{Assoc}
use the_socket_exchange.Assoc.Laws.{lookup-insert, lookup-erase}
use the_socket_exchange.Session.{ClientSession}
use the_socket_exchange.Os.{Os, reads, writes}
use the_socket_exchange.Os.Registrations.{is_armed, event, watches, IsSound, IsElsewhere}
use the_socket_exchange.Server.{Server}

-- The server reads from every session, and waits to write exactly to those with queued output.
pub record IsWatching (m : Assoc ℕ ClientSession) (os : Os) : Type 0 where
  pub sound : IsSound os
  pub keyed : (g : ℕ) (c : ClientSession) → Assoc.lookup g m ≡ some c → c.fd ≡ g
  pub reading : (g : ℕ) (c : ClientSession) → Assoc.lookup g m ≡ some c → watches g reads os ≡ true
  pub writing :
      (g : ℕ) (c : ClientSession)
      → Assoc.lookup g m ≡ some c
      → (watches g writes os ≡ c.want_write) × (c.want_write ≡ not (is_empty c.outbuf))
  pub gone : (g : ℕ) → Assoc.lookup g m ≡ none → watches g writes os ≡ false

abbrev pub IsWatched : Server → Type 0
IsWatched s = IsWatching s.sessions s.os

-- What one session needs.
pub record IsServed (fd : ℕ) (c : ClientSession) (os : Os) : Type 0 where
  pub own : c.fd ≡ fd
  pub reading : watches fd reads os ≡ true
  pub writing : watches fd writes os ≡ c.want_write
  pub queued : c.want_write ≡ not (is_empty c.outbuf)

module _ (fd : ℕ) (m : Assoc ℕ ClientSession) (os os' : Os) (w : IsWatching m os)
    (sound' : IsSound os') (elsewhere : IsElsewhere fd os os') where
  pub insert-IsWatching :
      (c : ClientSession) → IsServed fd c os' → IsWatching (Assoc.insert fd c m) os'
  insert-IsWatching c v = record {
    sound = sound';
    keyed = λ g d e. elim (Bool-cases (fd == g)) [
      | inl same ↦ ground (arith, lookup-insert fd g c m, nat_beq_iff fd g, v.own)
      | inr apart ↦ w.keyed g d (ground (arith, lookup-insert fd g c m))
    ];
    reading = λ g d e. elim (Bool-cases (fd == g)) [
      | inl same ↦ subst (λ k. watches k reads os' ≡ true) ((nat_beq_iff fd g).0 same) v.reading
      | inr apart ↦ elsewhere g reads apart ∙ w.reading g d (ground (arith, lookup-insert fd g c m))
    ];
    writing = λ g d e. elim (Bool-cases (fd == g)) [
      | inl same ↦
          let eq : c ≡ d = ground (arith, lookup-insert fd g c m) in
          subst
            (λ (x : ClientSession).
              (watches g writes os' ≡ x.want_write) × (x.want_write ≡ not (is_empty x.outbuf)))
            eq
            (
              subst (λ k. watches k writes os' ≡ c.want_write) ((nat_beq_iff fd g).0 same)
                  v.writing,
              v.queued,
            )
      | inr apart ↦
          let (a, b) = w.writing g d (ground (arith, lookup-insert fd g c m)) in
          (elsewhere g writes apart ∙ a, b)
    ];
    gone = λ g e. elim (Bool-cases (fd == g)) [
      | inl same ↦ ground (arith, lookup-insert fd g c m)
      | inr apart ↦ elsewhere g writes apart ∙ w.gone g (ground (arith, lookup-insert fd g c m))
    ];
  }

  pub erase-IsWatching : watches fd writes os' ≡ false → IsWatching (Assoc.erase fd m) os'
  erase-IsWatching off = record {
    sound = sound';
    keyed = λ g d e. w.keyed g d (ground (arith, lookup-erase fd g m));
    reading = λ g d e.
        elsewhere g reads (ground (arith, lookup-erase fd g m))
        ∙ w.reading g d (ground (arith, lookup-erase fd g m));
    writing = λ g d e.
        let (a, b) = w.writing g d (ground (arith, lookup-erase fd g m)) in
        (elsewhere g writes (ground (arith, lookup-erase fd g m)) ∙ a, b);
    gone = λ g e. elim (Bool-cases (fd == g)) [
      | inl same ↦ subst (λ k. watches k writes os' ≡ false) ((nat_beq_iff fd g).0 same) off
      | inr apart ↦ elsewhere g writes apart ∙ w.gone g (ground (arith, lookup-erase fd g m))
    ];
  }

-- Only what the map answers matters.
pub IsWatching-same :
    (m m' : Assoc ℕ ClientSession) (os : Os)
    → ((g : ℕ) → Assoc.lookup g m' ≡ Assoc.lookup g m)
    → IsWatching m os
    → IsWatching m' os
IsWatching-same m m' os same w = record {
  sound = w.sound;
  keyed = λ g c e. w.keyed g c (sym (same g) ∙ e);
  reading = λ g c e. w.reading g c (sym (same g) ∙ e);
  writing = λ g c e. w.writing g c (sym (same g) ∙ e);
  gone = λ g e. w.gone g (sym (same g) ∙ e);
}

-- Of the operating system, the registrations and the answers to their changes do.
pub IsWatching-apart :
    (m : Assoc ℕ ClientSession) (os os' : Os)
    → os'.armed ≡ os.armed
    → os'.changes ≡ os.changes
    → IsWatching m os
    → IsWatching m os'
IsWatching-apart m os os' a k w = record {
  sound = k ∙ w.sound;
  keyed = w.keyed;
  reading = λ g c e. ap (is_armed (event g reads)) a ∙ w.reading g c e;
  writing = λ g c e. let (x, y) = w.writing g c e in (ap (is_armed (event g writes)) a ∙ x, y);
  gone = λ g e. ap (is_armed (event g writes)) a ∙ w.gone g e;
}
