-- ===== src/Server/Commands/Answers.antt =====
-- What a client is told on each branch of `handle_line`, and what the branch leaves alone.
pub mod Branches
pub mod Lines
use the_socket_exchange.Common.{
  ℕ, Option, none, some, [], ◌∷◌, ◌++◌, Bool, true, false, ◌≡◌, ◌≢◌, refl, ap, ◌∙◌, sym, arith,
  ◌==◌, nat_eq, nat_beq_iff, bytes_eq, Bytes, Bool-cases, inl, inr, subst, concat,
}
use the_socket_exchange.Assoc
use the_socket_exchange.Assoc.Laws.{lookup-insert}
use the_socket_exchange.Book
use the_socket_exchange.Book.{Side, Order, OrderBook}
use the_socket_exchange.Book.Cancel.{cancel}
use the_socket_exchange.Protocol.{msg_ok, msg_error, msg_order_accepted, msg_order_cancelled}
use the_socket_exchange.Session.{ClientSession}
use the_socket_exchange.Server.{Server, store}
use the_socket_exchange.Server.Delivery.{IsDistinct}
use the_socket_exchange.Server.Streams.{stream, wire_to, pending_of, stream_stored}
use the_socket_exchange.Server.Commands.{place_order, order_of, session_at}
use the_socket_exchange.Server.Commands.Identity.{KeepsIdentity, identity, identity_at}
use the_socket_exchange.Server.Commands.Reception.Fills.{line_if, reports_to}
use the_socket_exchange.Server.Commands.Up.{IsUp, keys-insert}

-- Only the client at `fd` is told something, and that is one line.
abbrev pub Tells : ℕ → Bytes → Server → Server → Type 0
Tells fd msg s s' = (g : ℕ) → stream g s' ≡ stream g s ++ line_if (fd == g) msg

-- What the client at `g`, with its session `x`, is told of an order that comes to a book.
abbrev pub order_lines : ℕ → Order → OrderBook → ℕ → Option ClientSession → Bytes
order_lines fd o b g x =
    line_if (fd == g) (msg_order_accepted o.id)
    ++ reports_to g x (Book.submit o (Book.next_id b).0).1

-- The book and the streams stay.
pub record Settles (s t : Server) : Type 0 where
  pub book : t.book ≡ s.book
  pub streams : (g : ℕ) → stream g t ≡ stream g s

-- The outcomes of a line; `t` is the server when the role has been settled.
pub data Answer (fd : ℕ) (s : Server) (r : Server × Bool) : Type 0 where
  refusal :
      (reason : Bytes)
      → r.1 ≡ true
      → Tells fd (msg_error reason) s r.0
      → r.0.book ≡ s.book
      → KeepsIdentity s r.0
      → Answer fd s r
  confirmation : r.1 ≡ true → Tells fd msg_ok s r.0 → r.0.book ≡ s.book → Answer fd s r
  cancellation :
      (id : ℕ) (c : ClientSession)
      → r.1 ≡ true
      → Tells fd (msg_order_cancelled id) s r.0
      → identity_at fd s ≡ some (identity c)
      → cancel id c.fd c.session_seq s.book ≡ (r.0.book, true)
      → KeepsIdentity s r.0
      → Answer fd s r
  acceptance :
      (t : Server) (side : Side) (i : Bytes) (qty price : ℕ)
      → r ≡ (place_order fd side i qty price t, true)
      → Settles s t
      → KeepsIdentity s t
      → ((g : ℕ)
          → stream g r.0
            ≡ stream g s
              ++ order_lines fd
                  (order_of (session_at fd t) (Book.next_id s.book).1 side i qty price)
                  s.book
                  g
                  (Assoc.lookup g t.sessions))
      → Answer fd s r
  end :
      r.1 ≡ false
      → Assoc.lookup fd r.0.sessions ≡ none
      → r.0.book ≡ s.book
      → ((g : ℕ) → g ≢ fd → stream g r.0 ≡ stream g s)
      → Answer fd s r

Tells-behind :
    (fd : ℕ) (msg : Bytes) (s t u : Server) → Settles s t → Tells fd msg t u → Tells fd msg s u
Tells-behind fd msg s t u k h g = h g ∙ ap (λ x. x ++ line_if (fd == g) msg) (k.streams g)

-- An answer behind a step that settles something.
pub settled_first :
    (fd : ℕ) (s t : Server) (r : Server × Bool)
    → Settles s t
    → KeepsIdentity s t
    → Answer fd t r
    → Answer fd s r
settled_first fd s t r k i (refusal reason a h b j) =
    refusal reason a (Tells-behind fd (msg_error reason) s t r.0 k h) (b ∙ k.book) (λ g. j g ∙ i g)
settled_first fd s t r k i (confirmation a h b) =
    confirmation a (Tells-behind fd msg_ok s t r.0 k h) (b ∙ k.book)
settled_first fd s t r k i (cancellation id c a h f e j) =
    cancellation id c a (Tells-behind fd (msg_order_cancelled id) s t r.0 k h) (sym (i fd) ∙ f)
      (ap (cancel id c.fd c.session_seq) (sym k.book) ∙ e) (λ g. j g ∙ i g)
settled_first fd s t r k i (acceptance u side instrument qty price e l j h) =
    acceptance u side instrument qty price e
      (record { book = l.book ∙ k.book; streams = λ g. l.streams g ∙ k.streams g }) (λ g. j g ∙ i g)
      (λ g.
        h g
        ∙ ap (λ x. x ++ lines t.book g) (k.streams g)
        ∙ ap (λ b. stream g s ++ lines b g) k.book)
  where
    lines : OrderBook → ℕ → Bytes
    lines b g =
        order_lines fd (order_of (session_at fd u) (Book.next_id b).1 side instrument qty price) b g
          (Assoc.lookup g u.sessions)
settled_first fd s t r k i (end a f b h) = end a f (b ∙ k.book) (λ g ne. h g ne ∙ k.streams g)

pub store-Settles :
    (fd : ℕ) (c c' : ClientSession) (s : Server)
    → Assoc.lookup fd s.sessions ≡ some c
    → c'.outbuf ≡ c.outbuf
    → Settles s (store fd c' s)
store-Settles fd c c' s found same = record {
  book = refl;
  streams = λ g. elim (Bool-cases (fd == g)) [
    | inl e ↦
        subst (λ k. stream k (store fd c' s) ≡ stream k s) ((nat_beq_iff fd g).0 e)
          ((stream_stored fd c' s).0
            ∙ ap (λ o. wire_to fd s.os.wire ++ concat o) same
            ∙ ap (λ x. wire_to fd s.os.wire ++ pending_of x) (sym found))
    | inr e ↦ (stream_stored fd c' s).1 g (λ h. ground (arith, nat_beq_iff fd g))
  ];
}

pub store-IsUp :
    (fd : ℕ) (c c' : ClientSession) (s : Server)
    → Assoc.lookup fd s.sessions ≡ some c
    → c'.fd ≡ c.fd
    → IsUp s
    → IsUp (store fd c' s)
store-IsUp fd c c' s found same u = record {
  keyed = λ g d e. ground (
    arith,
    lookup-insert fd g c' s.sessions,
    nat_beq_iff fd g,
    u.keyed g d,
    u.keyed fd c found,
    found,
  );
  distinct = subst IsDistinct (sym (keys-insert fd c c' s.sessions found)) u.distinct;
  fine = u.fine;
}
