-- ===== src/Server/Events/Draining.antt =====
-- `handle_lines` handles every complete line: its fuel is enough.
use the_socket_exchange.Common.{
  List, [], ◌∷◌, ◌++◌, false, ℕ, zero, suc, ◌<◌, Option, none, some, Bool, true, ◌≡◌, refl, ap, ◌∙◌,
  sym, subst, arith, Bytes, nat_eq, length, Option-cases, inl, inr,
}
use the_socket_exchange.Assoc
use the_socket_exchange.Assoc.Laws.{lookup-insert_self}
use the_socket_exchange.Framing.{LineBuffer, feed, next_line, split_line, strip_cr}
use the_socket_exchange.Framing.Stream.{
  frames, unlines, frames_lem, frames-none, frames-some, next_line_shorter,
}
use the_socket_exchange.Session.{ClientSession, default_session}
use the_socket_exchange.Server.{Server, store}
use the_socket_exchange.Server.Commands.{session_at, handle_line}
use the_socket_exchange.Server.Commands.Identity.{identity_of, identity_at, KeepsIdentity}
use the_socket_exchange.Server.Commands.LineEffect.{
  LineEffect, kept, named, left, handle_line-LineEffect,
}
use the_socket_exchange.Server.Events.{handle_lines, take_bytes}

abbrev input_of : Option ClientSession → LineBuffer
input_of none = default_session.inbuf
input_of (some c) = c.inbuf

abbrev pub input : ℕ → Server → LineBuffer
input fd s = (session_at fd s).inbuf

-- The buffer of the session at a descriptor is given a text.
abbrev pub with_input : ℕ → Bytes → Server → Server
with_input fd text s = store fd (record (session_at fd s) { inbuf = record { buf = text } }) s

abbrev pub read : Option ClientSession → ClientSession
read x = elim x as (λ _. ClientSession) [ none ↦ default_session | some d ↦ d ]

read-identity : (x : Option ClientSession) → (read x).inbuf ≡ input_of (identity_of x)
read-identity none = refl
read-identity (some c) = refl

input-identity : (fd : ℕ) (s : Server) → input fd s ≡ input_of (identity_at fd s)
input-identity fd s = read-identity (Assoc.lookup fd s.sessions)

input-kept : (fd : ℕ) (s t : Server) → KeepsIdentity s t → input fd t ≡ input fd s
input-kept fd s t k = input-identity fd t ∙ ap input_of (k fd) ∙ sym (input-identity fd s)

pub input-store : (fd : ℕ) (c : ClientSession) (s : Server) → input fd (store fd c s) ≡ c.inbuf
input-store fd c s = ap (λ x. (read x).inbuf) (lookup-insert_self fd c s.sessions)

input-found :
    (fd : ℕ) (d : ClientSession) (s : Server)
    → Assoc.lookup fd s.sessions ≡ some d
    → input fd s ≡ d.inbuf
input-found fd d s e = ap (λ x. (read x).inbuf) e

input-LineEffect :
    (fd : ℕ) (s : Server) (r : Server × Bool)
    → LineEffect fd s r
    → r.1 ≡ true
    → input fd r.0 ≡ input fd s
input-LineEffect fd s r (kept a k) h = input-kept fd s r.0 k
input-LineEffect fd s r (named t d name a k f e l) h =
    input-kept fd (store fd (record d { username = name }) t) r.0 l
    ∙ input-store fd (record d { username = name }) t
    ∙ sym (input-found fd d t f)
    ∙ input-kept fd s t k
input-LineEffect fd s r (left t d a k f e) h = cc

-- A line that its session survives leaves the input behind it as it is.
input-line :
    (fd : ℕ) (line : Bytes) (c : ClientSession) (s : Server)
    → (handle_line fd line (store fd c s)).1 ≡ true
    → input fd (handle_line fd line (store fd c s)).0 ≡ c.inbuf
input-line fd line c s h =
    input-LineEffect fd (store fd c s) (handle_line fd line (store fd c s))
      (handle_line-LineEffect fd line (store fd c s) c (lookup-insert_self fd c s.sessions)) h
    ∙ input-store fd c s

-- To go on with a session that is still there.
abbrev pub while_alive : (Server → Server × Bool) → Server × Bool → Server × Bool
while_alive next (s, alive) = elim alive [ true ↦ next s | false ↦ (s, false) ]

-- The lines of a text from the client, without the final carriage returns, are handled one after the
-- other, each with what follows it in the buffer, until one ends the session.
unfoldable pub handle_all : ℕ → List Bytes → Bytes → Server → Server × Bool
handle_all fd [] rest s = (with_input fd rest s, true)
handle_all fd (l ∷ ls) rest s =
    let r = handle_line fd (strip_cr l) (with_input fd (unlines ls ++ rest) s) in
    while_alive (handle_all fd ls rest) r

next_line-none : (b : LineBuffer) → split_line b.buf ≡ none → next_line b ≡ (none, b)
unfolding next_line
next_line-none b e = rw (e, next_line)

next_line-some :
    (b : LineBuffer) (l text : Bytes)
    → split_line b.buf ≡ some (l, text)
    → next_line b ≡ (some (strip_cr l), record { buf = text })
unfolding next_line
next_line-some b l text e = rw (e, next_line)

while_alive_same :
    (f g : Server → Server × Bool) (r : Server × Bool)
    → (r.1 ≡ true → f r.0 ≡ g r.0)
    → while_alive f r ≡ while_alive g r
while_alive_same f g (s, true) h = h refl
while_alive_same f g (s, false) h = refl

-- A round of `handle_lines` behind `next_line`.
abbrev round : ℕ → ℕ → Server → Option Bytes × LineBuffer → Server × Bool
round fuel fd s (none, b) = (with_input fd b.buf s, true)
round fuel fd s (some line, b) =
    while_alive (handle_lines fuel fd) (handle_line fd line (with_input fd b.buf s))

handle_lines-round :
    (fuel fd : ℕ) (s : Server)
    → handle_lines (suc fuel) fd s ≡ round fuel fd s (next_line (input fd s))
unfolding handle_lines
handle_lines-round fuel fd s = go (next_line (input fd s)) refl
  where
    go :
        (p : Option Bytes × LineBuffer)
        → next_line (input fd s) ≡ p
        → handle_lines (suc fuel) fd s ≡ round fuel fd s p
    go (none, b) e =
        rw (e, handle_lines)
          (ap (λ (x : Option Bytes × LineBuffer). (with_input fd x.1.buf s, true)) e)
    go (some line, b) e =
        rw (e, handle_lines)
          (ap
            (λ (x : Option Bytes × LineBuffer).
              while_alive (handle_lines fuel fd) (handle_line fd line (with_input fd x.1.buf s)))
            e)

handle_lines-all :
    (fuel fd : ℕ) (s : Server)
    → length (input fd s).buf < fuel
    → handle_lines fuel fd s
      ≡ handle_all fd (frames (input fd s).buf).0 (frames (input fd s).buf).1 s
unfolding handle_all
handle_lines-all zero fd s h = absurd (omega arith)
handle_lines-all (suc fuel) fd s h = elim (Option-cases (split_line text)) [
  | inl n ↦
      handle_lines-round fuel fd s
      ∙ ap (round fuel fd s) (next_line-none (input fd s) n)
      ∙ ap (λ f. handle_all fd f.0 f.1 s) (sym (frames-none text n))
  | inr (cut, n) ↦
      let rest = cut.1 in
      let line = strip_cr cut.0 in
      let r = handle_line fd line (with_input fd rest s) in
      let ls = (frames rest).0 in
      let e = next_line-some (input fd s) cut.0 rest n in
      handle_lines-round fuel fd s
      ∙ ap (round fuel fd s) e
      ∙ while_alive_same (handle_lines fuel fd) (handle_all fd ls (frames rest).1) r (λ alive.
        let kept =
          input-line fd line (record (session_at fd s) { inbuf = record { buf = rest } }) s alive in
        let shorter : length rest < fuel = omega (
          arith,
          next_line_shorter (input fd s) line fuel (ap (λ p. p.0) e) h,
          ap (λ p. length p.1.buf) e,
        ) in
        handle_lines-all fuel fd r.0 (subst (λ b. length b.buf < fuel) (sym kept) shorter)
        ∙ ap (λ b. handle_all fd (frames b.buf).0 (frames b.buf).1 r.0) kept)
      ∙ ap
          (λ x.
            while_alive (handle_all fd ls (frames rest).1)
              (handle_line fd line (with_input fd x s)))
          (sym (frames_lem rest).0)
      ∙ ap (λ f. handle_all fd f.0 f.1 s) (sym (frames-some text cut.0 rest n))
]
  where
    text : Bytes
    text = (input fd s).buf

-- The bytes of a `recv` go behind the bytes that wait in the buffer. Every complete line of this text
-- is handled, each once and in order, without its final carriage return, until one ends the session;
-- if none does, the unfinished line at the end of the text waits in the buffer. The fuel of the loop is
-- enough, whatever the server and the bytes.
pub take_bytes-lines :
    (fd : ℕ) (bytes : Bytes) (s : Server)
    → let text = (input fd s).buf ++ bytes in
      take_bytes fd bytes s ≡ handle_all fd (frames text).0 (frames text).1 (with_input fd text s)
unfolding take_bytes feed
take_bytes-lines fd bytes s =
    let text = (input fd s).buf ++ bytes in
    let kept = input-store fd (record (session_at fd s) { inbuf = record { buf = text } }) s in
    handle_lines-all (suc (length text)) fd (with_input fd text s)
      (subst (λ b. length b.buf < suc (length text)) (sym kept) (omega arith))
    ∙ ap (λ b. handle_all fd (frames b.buf).0 (frames b.buf).1 (with_input fd text s)) kept
