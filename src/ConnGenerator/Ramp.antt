-- ===== src/ConnGenerator/Ramp.antt =====
-- The loop of `main`: which connections it holds, and why it stops.
use the_socket_exchange.Common.{
  ℕ, zero, suc, ◌+◌, ◌<◌, Option, none, some, List, [], ◌∷◌, ◌++◌, ◌≡◌, ◌≢◌, refl, sym, ap, ◌∙◌,
  subst, arith, Bytes, nat_eq, length, All, All-mono, append-nil, append_assoc,
}
use the_socket_exchange.Sockets.{Address}
use the_socket_exchange.Sockets.Descriptors.{without, open_after}
use the_socket_exchange.ConnGenerator.{
  Cause, Answer, given, denied, Attempt, Process, open_one, source_of, Held, ramp,
}
use the_socket_exchange.ConnGenerator.Opening.{
  or_cause, source_cause, cause_of, verdict-failed, verdict-succeeded, Outcome, IsNew, IsFine,
  open_one_lem,
}

-- The last one first.
abbrev pub newest_first : List ℕ → List ℕ → List ℕ
newest_first [] gs = gs
newest_first (fd ∷ fds) gs = newest_first fds (fd ∷ gs)

without_other : (fd : ℕ) (gs : List ℕ) → All (λ g. g ≢ fd) gs → without fd gs ≡ gs
without_other fd [] h = refl
without_other fd (g ∷ gs) (ne, h) = ground (arith, without_other fd gs h)

module _ (dst : Address) (src_ips : List Bytes) (attempts : ℕ → Attempt) where
  -- Rounds `i`, `i + 1`, ... succeed with these descriptors.
  abbrev pub IsHeld : ℕ → List ℕ → Type 0
  IsHeld i [] = Unit
  IsHeld i (fd ∷ fds) =
      (cause_of (source_of src_ips i) (attempts i) ≡ none)
      × ((attempts i).socket ≡ given fd)
      × IsHeld (i + 1) fds

  -- All rounds are over, or the next one fails for this reason.
  abbrev pub IsStopped : ℕ → ℕ → Option (ℕ × Cause) → Type 0
  IsStopped next end none = next ≡ end
  IsStopped next end (some (i, e)) =
      (i ≡ next) × (i < end) × (cause_of (source_of src_ips i) (attempts i) ≡ some e)

  -- A round's socket is not one of those of the rounds before, which stay open.
  abbrev pub AreNew : Type 0
  AreNew = (i j fd : ℕ) → i < j → (attempts i).socket ≡ given fd → (attempts j).socket ≢ given fd

  abbrev IsEarlier : ℕ → ℕ → Type 0
  IsEarlier i g = (j : ℕ) × (j < i) × ((attempts j).socket ≡ given g)

  IsEarlier-suc : (i g : ℕ) → IsEarlier i g → IsEarlier (i + 1) g
  IsEarlier-suc i g (j, lt, at) = (j, omega arith, at)

  IsStopped-cast :
      (next next' end end' : ℕ) (why : Option (ℕ × Cause))
      → next ≡ next'
      → end ≡ end'
      → IsStopped next end why
      → IsStopped next' end' why
  IsStopped-cast next next' end end' none e e' h = omega arith
  IsStopped-cast next next' end end' (some (i, c)) e e' (at, lt, k) = (omega arith, omega arith, k)

  AreNew-IsNew :
      (i : ℕ) (gs : List ℕ) (answer : Answer)
      → AreNew
      → All (IsEarlier i) gs
      → (attempts i).socket ≡ answer
      → IsNew answer gs
  AreNew-IsNew i gs (denied e) new h k = tt
  AreNew-IsNew i gs (given fd) new h k = without_other fd gs (
      All-mono (IsEarlier i) (λ g. g ≢ fd)
        (λ g (j, lt, at) same. new j i fd lt (at ∙ ap given same) k) gs h)

  abbrev IsRamp : ℕ → ℕ → List ℕ → List ℕ → Held → Type 0
  IsRamp left i fds gs r =
      (more : List ℕ) × (r.fds ≡ fds ++ more)
      × IsHeld i more
      × IsStopped (i + length more) (i + left) r.failed_at
      × (open_after [] r.process.done ≡ newest_first more gs)

  ramp-IsRamp :
      (new : AreNew) (left i : ℕ) (fds gs : List ℕ) (p : Process)
      → All (IsEarlier i) gs
      → open_after [] p.done ≡ gs
      → IsRamp left i fds gs (ramp dst src_ips attempts left i fds p)
  unfolding ramp
  ramp-IsRamp new zero i fds gs p early h = ([], sym (append-nil fds), tt, omega arith, h)
  ramp-IsRamp new (suc left) i fds gs p early h =
      go (open_one dst (source_of src_ips i) (attempts i) p)
        (open_one_lem dst (source_of src_ips i) (attempts i) p gs
          (AreNew-IsNew i gs (attempts i).socket new early refl) h)
        (λ g p' e k. ramp-IsRamp new left (i + 1) (fds ++ g ∷ []) (g ∷ gs) p' e k)
    where
      later : Option Cause
      later = or_cause (source_cause (source_of src_ips i) (attempts i)) (attempts i).connect

      go :
          (r : Outcome)
          → IsFine (cause_of (source_of src_ips i) (attempts i)) (attempts i).socket p.errno gs r
          → ((g : ℕ) (p' : Process)
              → All (IsEarlier (i + 1)) (g ∷ gs)
              → open_after [] p'.done ≡ g ∷ gs
              → IsRamp left
                  (i + 1)
                  (fds ++ g ∷ [])
                  (g ∷ gs)
                  (ramp dst src_ips attempts left (i + 1) (fds ++ g ∷ []) p'))
          → let next : Held = elim r.0 [
            | none ↦ record { fds = fds; failed_at = some (i, r.1.errno); process = r.1 }
            | some g ↦ ramp dst src_ips attempts left (i + 1) (fds ++ g ∷ []) r.1
          ] in
            IsRamp (suc left) i fds gs next
      go (none, p') (v, o) ih = (
        [],
        sym (append-nil fds),
        tt,
        (omega arith, omega arith, verdict-failed later (attempts i).socket p'.errno p.errno v),
        o,
      )
      go (some g, p') (v, o) ih =
          let (clear, sock) = verdict-succeeded later (attempts i).socket g p'.errno p.errno v in
          let (more, all, keeps, stop, opens) =
            ih g p'
              (
                (i, omega arith, sock),
                All-mono (IsEarlier i) (IsEarlier (i + 1)) (IsEarlier-suc i) gs early,
              )
              o in
          (
            g ∷ more,
            all ∙ append_assoc fds (g ∷ []) more,
            (clear, sock, keeps),
            IsStopped-cast _ _ _ _ _ (omega arith) (omega arith) stop,
            opens,
          )

  -- Where each socket is a new descriptor, `main` holds the descriptors of the rounds before the
  -- first that fails, in order, or of all rounds, and the failure that it reports is that round's
  -- number and reason. The descriptors open at the end are exactly those that it holds.
  pub ramp_lem :
      (count : ℕ) (p : Process)
      → AreNew
      → open_after [] p.done ≡ []
      → let r = ramp dst src_ips attempts count 0 [] p in
        IsHeld 0 r.fds
        × IsStopped (length r.fds) count r.failed_at
        × (open_after [] r.process.done ≡ newest_first r.fds [])
  ramp_lem count p new h =
      let (more, all, keeps, stop, opens) = ramp-IsRamp new count 0 [] [] p tt h in
      (
        subst (IsHeld 0) (sym all) keeps,
        subst (λ xs. IsStopped (length xs) count (ramp dst src_ips attempts count 0 [] p).failed_at)
            (sym all) (IsStopped-cast _ _ _ _ _ (omega arith) (omega arith) stop),
        opens ∙ ap (λ xs. newest_first xs []) (sym all),
      )
