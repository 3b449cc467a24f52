-- ===== src/ConnGenerator/Opening.antt =====
-- `open_one`: what it returns, what `errno` says, and which descriptors stay open.
use the_socket_exchange.Common.{
  ℕ, Option, none, some, List, [], ◌∷◌, ◌++◌, ◌≡◌, refl, ap, ◌∙◌, Bytes, nat_eq, eq_self,
  if◌then◌else◌,
}
use the_socket_exchange.Sockets.{Address, Action, opened, closed, bound, connected}
use the_socket_exchange.Sockets.Descriptors.{without, open_after, held, open_after-append}
use the_socket_exchange.ConnGenerator.{
  Cause, einval, Answer, given, denied, Attempt, Process, close_and_fail, connect_one, bind_one,
  with_socket, open_one,
}

abbrev pub or_cause : Option Cause → Option Cause → Option Cause
or_cause none e = e
or_cause (some c) e = some c

abbrev address_cause : Option ℕ → Attempt → Option Cause
address_cause none a = some einval
address_cause (some host) a = a.bind

-- Why the choice of a source address fails, if it does.
abbrev pub source_cause : Option Bytes → Attempt → Option Cause
source_cause none a = none
source_cause (some ip) a = address_cause (a.inet_pton ip) a

abbrev pub cause_for : Option Cause → Answer → Option Cause
cause_for later (denied e) = some e
cause_for later (given fd) = later

-- Why an attempt fails, by the first call that does.
abbrev pub cause_of : Option Bytes → Attempt → Option Cause
cause_of src a = cause_for (or_cause (source_cause src a) a.connect) a.socket

-- What is returned, and `errno` afterwards.
abbrev pub verdict : Option Cause → Answer → Cause → Option ℕ × Cause
verdict (some e) answer before = (none, e)
verdict none (denied e) before = (none, e)
verdict none (given fd) before = (some fd, before)

pub verdict-failed :
    (later : Option Cause) (answer : Answer) (e before : Cause)
    → (none, e) ≡ verdict (cause_for later answer) answer before
    → cause_for later answer ≡ some e
verdict-failed later (denied d) e before h = cc
verdict-failed none (given fd) e before h = cc
verdict-failed (some c) (given fd) e before h = cc

pub verdict-succeeded :
    (later : Option Cause) (answer : Answer) (g : ℕ) (e before : Cause)
    → (some g, e) ≡ verdict (cause_for later answer) answer before
    → (cause_for later answer ≡ none) × (answer ≡ given g)
verdict-succeeded later (denied d) g e before h = cc
verdict-succeeded none (given fd) g e before h = (refl, cc)
verdict-succeeded (some c) (given fd) g e before h = cc

abbrev pub Outcome : Type 0
Outcome = Option ℕ × Process

-- `socket` answers with a descriptor that is not open yet, if it answers with one.
abbrev pub IsNew : Answer → List ℕ → Type 0
IsNew (denied e) gs = Unit
IsNew (given fd) gs = without fd gs ≡ gs

-- What an outcome says for a cause, and that it adds to the open descriptors the one that it
-- returns only.
abbrev pub IsFine : Option Cause → Answer → Cause → List ℕ → Outcome → Type 0
IsFine c answer before gs r =
    ((r.0, r.1.errno) ≡ verdict c answer before) × (open_after [] r.1.done ≡ held r.0 ++ gs)

module _ (dst : Address) (a : Attempt) (fd : ℕ) (gs : List ℕ) (new : IsNew (given fd) gs) where
  closing :
      (done : List Action)
      → open_after [] done ≡ fd ∷ gs
      → open_after [] (done ++ closed fd ∷ []) ≡ gs
  closing done h =
      open_after-append [] done (closed fd ∷ [])
      ∙ ap (without fd) h
      ∙ ap (λ b. if b then without fd gs else fd ∷ without fd gs) (eq_self fd)
      ∙ new

  connect_one-IsFine :
      (p : Process)
      → open_after [] p.done ≡ fd ∷ gs
      → IsFine a.connect (given fd) p.errno gs (connect_one dst a fd p)
  unfolding connect_one
  connect_one-IsFine p h = go a.connect
    where
      go :
          (c : Option Cause)
          → let r : Outcome = elim c [
            | some e ↦ close_and_fail fd a.after_close (record p { errno = e })
            | none ↦ (some fd, record p { done = p.done ++ connected fd dst ∷ [] })
          ] in
            IsFine c (given fd) p.errno gs r
      go none = (refl, open_after-append [] p.done (connected fd dst ∷ []) ∙ h)
      go (some e) = (refl, closing p.done h)

  bind_one-IsFine :
      (found : Option ℕ) (p : Process)
      → open_after [] p.done ≡ fd ∷ gs
      → IsFine
          (or_cause (address_cause found a) a.connect)
          (given fd)
          p.errno
          gs
          (bind_one dst found a fd p)
  unfolding bind_one
  bind_one-IsFine none p h = (refl, closing p.done h)
  bind_one-IsFine (some host) p h = go a.bind
    where
      step : List Action
      step = bound fd (record { port = 0; host = host }) ∷ []

      go :
          (c : Option Cause)
          → let r : Outcome = elim c [
            | some e ↦ close_and_fail fd a.after_close (record p { errno = e })
            | none ↦ connect_one dst a fd (record p { done = p.done ++ step })
          ] in
            IsFine (or_cause c a.connect) (given fd) p.errno gs r
      go (some e) = (refl, closing p.done h)
      go none =
          connect_one-IsFine (record p { done = p.done ++ step })
            (open_after-append [] p.done step ∙ h)

  with_socket-IsFine :
      (src : Option Bytes) (p : Process)
      → open_after [] p.done ≡ fd ∷ gs
      → IsFine
          (or_cause (source_cause src a) a.connect)
          (given fd)
          p.errno
          gs
          (with_socket dst src a fd p)
  with_socket-IsFine none p h = connect_one-IsFine p h
  with_socket-IsFine (some ip) p h = bind_one-IsFine (a.inet_pton ip) p h

-- Where `socket` answers with a descriptor that is not open yet, `open_one` fails exactly if one of
-- its calls does, and then `errno` is the error of the first that does, whatever `close` made of it;
-- otherwise it returns the descriptor of `socket`. On every path the descriptors open afterwards are
-- those open before and the one that it returns, if any.
pub open_one_lem :
    (dst : Address) (src : Option Bytes) (a : Attempt) (p : Process) (gs : List ℕ)
    → IsNew a.socket gs
    → open_after [] p.done ≡ gs
    → let r = open_one dst src a p in
      ((r.0, r.1.errno) ≡ verdict (cause_of src a) a.socket p.errno)
      × (open_after [] r.1.done ≡ held r.0 ++ gs)
unfolding open_one
open_one_lem dst src a p gs = go a.socket
  where
    go :
        (answer : Answer)
        → IsNew answer gs
        → open_after [] p.done ≡ gs
        → let r : Outcome = elim answer [
          | denied e ↦ (none, record p { errno = e })
          | given fd ↦ with_socket dst src a fd (record p { done = p.done ++ opened fd ∷ [] })
        ] in
          IsFine (cause_for (or_cause (source_cause src a) a.connect) answer) answer p.errno gs r
    go (denied e) new h = (refl, h)
    go (given fd) new h =
        with_socket-IsFine dst a fd gs new src (record p { done = p.done ++ opened fd ∷ [] })
          (open_after-append [] p.done (opened fd ∷ []) ∙ ap (λ xs. fd ∷ xs) h)
