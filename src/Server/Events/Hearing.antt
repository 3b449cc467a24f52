-- ===== src/Server/Events/Hearing.antt =====
-- What has happened to the book and to the session when some lines have been handled.
use mathlib.Core.List.{map}
use the_socket_exchange.Common.{
  ℕ, Option, none, some, List, [], ◌∷◌, ◌++◌, Bool, true, false, ◌≡◌, refl, ap, ◌∙◌, arith, nat_eq,
  Bytes, if◌then◌else◌, Bool-cases, inl, inr,
}
use the_socket_exchange.Assoc
use the_socket_exchange.Assoc.Laws.{lookup-insert_self}
use the_socket_exchange.Book.{OrderBook}
use the_socket_exchange.Framing.{strip_cr}
use the_socket_exchange.Framing.Stream.{unlines}
use the_socket_exchange.Protocol.{tokenize}
use the_socket_exchange.Session.{ClientSession}
use the_socket_exchange.Server.{Server, store}
use the_socket_exchange.Server.Commands.{session_at, handle_line}
use the_socket_exchange.Server.Commands.BookEffect.{book_effect}
use the_socket_exchange.Server.Commands.Trading.{handle_line-book}
use the_socket_exchange.Server.Commands.Standing.{
  standing, standing_of, standing_at, settle, quits, Stays,
}
use the_socket_exchange.Server.Events.Draining.{
  read, input, input-store, with_input, while_alive, handle_all,
}
use the_socket_exchange.Server.Events.Trades.{
  same_effect, settle_same, trade_lines, leaves, settle_all,
}
use the_socket_exchange.Server.Commands.Standing.Ends.{Ends, handle_line-Ends}

found_standing :
    (x : Option ClientSession) (c : ClientSession)
    → standing_of x ≡ some (standing c)
    → standing (read x) ≡ standing c
found_standing none c e = cc
found_standing (some d) c e = cc

-- To give the buffer a text changes no standing.
pub with_input-standing :
    (fd : ℕ) (text : Bytes) (c : ClientSession) (s : Server)
    → standing_at fd s ≡ some (standing c)
    → standing_at fd (with_input fd text s) ≡ some (standing c)
with_input-standing fd text c s at =
    ap standing_of (lookup-insert_self fd _ s.sessions)
    ∙ ap some (found_standing (Assoc.lookup fd s.sessions) c at)

-- What has happened when lines of a session with the standing of `c` have been handled, and `rest`
-- is left in the buffer.
pub record Heard (fd : ℕ) (c : ClientSession) (ls : List Bytes) (rest : Bytes) (b : OrderBook)
    (r : Server × Bool) : Type 0 where
  pub book : r.0.book ≡ trade_lines c ls b
  pub alive : r.1 ≡ (if leaves ls then false else true)
  pub there :
      leaves ls ≡ false
      → (standing_at fd r.0 ≡ some (standing (settle_all c ls)))
        × (input fd r.0 ≡ record { buf = rest })

-- One line before the others.
while_alive-Heard :
    (fd : ℕ) (line : Bytes) (ls : List Bytes) (rest : Bytes) (c d : ClientSession) (b : OrderBook)
    (next : Server → Server × Bool) (r : Server × Bool)
    → r.0.book ≡ book_effect c (tokenize line) b
    → Ends fd d (tokenize line) r
    → (Stays fd d r → Heard fd (settle c (tokenize line)) ls rest r.0.book (next r.0))
    → Heard fd c (line ∷ ls) rest b (while_alive next r)
while_alive-Heard fd line ls rest c d b next (t, true) book ends more =
    elim (Bool-cases (quits (tokenize line))) [
      | inl q ↦ absurd (ground arith)
      | inr q ↦
          let m = more (rw q at ends) in
          record {
            book = rw q (m.book ∙ ap (trade_lines (settle c (tokenize line)) ls) book);
            alive = rw q m.alive;
            there = rw q m.there;
          }
    ]
while_alive-Heard fd line ls rest c d b next (t, false) book ends more =
    elim (Bool-cases (quits (tokenize line))) [
      | inl q ↦ record { book = rw q book; alive = rw q refl; there = rw q (λ h. cc) }
      | inr q ↦ let st : Stays fd d (t, false) = rw q at ends in cc st.alive
    ]

pub handle_all-Heard :
    (fd : ℕ) (ls : List Bytes) (rest : Bytes) (c : ClientSession) (s : Server)
    → standing_at fd s ≡ some (standing c)
    → Heard fd c (map strip_cr ls) rest s.book (handle_all fd ls rest s)
unfolding handle_all
handle_all-Heard fd [] rest c s at = record {
  book = refl;
  alive = refl;
  there = λ h. (with_input-standing fd rest c s at, input-store fd _ s);
}
handle_all-Heard fd (l ∷ ls) rest c s at =
    while_alive-Heard fd line (map strip_cr ls) rest c (settle c' ws) s.book (handle_all fd ls rest)
      r (handle_line-book fd line t c' found ∙ same_effect c' c ws same s.book)
      (handle_line-Ends fd c' t line found)
      (λ st.
        handle_all-Heard fd ls rest (settle c ws) r.0
          (st.stands ∙ ap some (settle_same c' c ws same)))
  where
    line : Bytes
    line = strip_cr l

    ws : List Bytes
    ws = tokenize line

    c' : ClientSession
    c' = record (session_at fd s) { inbuf = record { buf = unlines ls ++ rest } }

    t : Server
    t = store fd c' s

    r : Server × Bool
    r = handle_line fd line t

    found : Assoc.lookup fd t.sessions ≡ some c'
    found = lookup-insert_self fd c' s.sessions

    same : standing c' ≡ standing c
    same = found_standing (Assoc.lookup fd s.sessions) c at
