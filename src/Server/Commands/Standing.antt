-- ===== src/Server/Commands/Standing.antt =====
-- What the book asks of a session, its descriptor, number and role, and what a line does to that.
pub mod Ends
use the_socket_exchange.Common.{
  ℕ, Option, none, some, List, [], ◌∷◌, Bool, true, false, ◌&&◌, ◌||◌, ◌≡◌, refl, ap, ◌∙◌, sym,
  arith, ◌==◌, nat_eq, bytes_eq, Bytes, codes, Bool-cases, inl, inr, if◌then◌else◌,
}
use the_socket_exchange.Assoc
use the_socket_exchange.Assoc.Laws.{lookup-insert_self}
use the_socket_exchange.Book
use the_socket_exchange.Book.{Side, OrderBook}
use the_socket_exchange.Book.Cancel.{cancel}
use the_socket_exchange.Framing
use the_socket_exchange.Protocol.{
  is_valid_instrument, parse_positive_int, parse_nonnegative_int, msg_ok, msg_order_accepted,
}
use the_socket_exchange.Session.{ClientSession, logged_in}
use the_socket_exchange.Server.{Server, store, enqueue}
use the_socket_exchange.Server.Quiet.{Quiet, profile_of, enqueue-Quiet}
use the_socket_exchange.Server.Commands.{
  role_for, session_at, name_taken, handle_login, handle_order, handle_cancel, handle_subscription,
  place_order, order_of,
}
use the_socket_exchange.Server.Commands.Identity.{found_at}
use the_socket_exchange.Server.Commands.Reports.{report_fills-Quiet}

-- A session's descriptor, number and role.
abbrev pub standing : ClientSession → ClientSession
standing c = record c {
  username = [];
  subscriptions = [];
  inbuf = Framing.empty;
  outbuf = [];
  want_write = false;
}

abbrev pub standing_of : Option ClientSession → Option ClientSession
standing_of none = none
standing_of (some c) = some (standing c)

abbrev pub standing_at : ℕ → Server → Option ClientSession
standing_at fd s = standing_of (Assoc.lookup fd s.sessions)

standing-profile : (x : Option ClientSession) → standing_of (profile_of x) ≡ standing_of x
standing-profile none = refl
standing-profile (some c) = refl

Quiet-standing : (fd : ℕ) (s t : Server) → Quiet s t → standing_at fd t ≡ standing_at fd s
Quiet-standing fd s t q =
    sym (standing-profile (Assoc.lookup fd t.sessions))
    ∙ ap standing_of (q.profiles fd)
    ∙ standing-profile (Assoc.lookup fd s.sessions)

answer-standing :
    (fd : ℕ) (msg : Bytes) (s : Server) → standing_at fd (enqueue fd msg s) ≡ standing_at fd s
answer-standing fd msg s = Quiet-standing fd s (enqueue fd msg s) (enqueue-Quiet fd msg s)

-- The role that a line settles.
abbrev pub settle : ClientSession → List Bytes → ClientSession
settle c [] = c
settle c (cmd ∷ args) = record c { role = role_for cmd c.role }

abbrev pub quits : List Bytes → Bool
quits [] = false
quits (cmd ∷ args) = cmd == codes "QUIT"

-- After a handler that does not end the session: the session is there, with a standing as before.
pub record Stays (fd : ℕ) (c : ClientSession) (r : Server × Bool) : Type 0 where
  pub alive : r.1 ≡ true
  pub stands : standing_at fd r.0 ≡ some (standing c)

module _ (fd : ℕ) (c : ClientSession) (s : Server)
    (found : Assoc.lookup fd s.sessions ≡ some c) where
  pub says :
      (msg : Bytes) (b : OrderBook) → Stays fd c (enqueue fd msg (record s { book = b }), true)
  says msg b = record {
    alive = refl;
    stands = answer-standing fd msg (record s { book = b }) ∙ ap standing_of found;
  }

  says_stored :
      (msg : Bytes) (f : ClientSession → ClientSession)
      → standing (f c) ≡ standing c
      → Stays fd c (enqueue fd msg (store fd (f (session_at fd s)) s), true)
  says_stored msg f same = record {
    alive = refl;
    stands =
        answer-standing fd msg (store fd (f (session_at fd s)) s)
        ∙ ap standing_of (lookup-insert_self fd (f (session_at fd s)) s.sessions)
        ∙ ap (λ d. some (standing (f d))) (found_at fd c s found)
        ∙ ap some same;
  }

  places :
      (side : Side) (i : Bytes) (qty price : ℕ)
      → Stays fd c (place_order fd side i qty price s, true)
  unfolding place_order
  places side i qty price =
      let b = (Book.next_id s.book).0 in
      let id = (Book.next_id s.book).1 in
      let o = order_of (session_at fd s) id side i qty price in
      let t = enqueue fd (msg_order_accepted id) (record s { book = b }) in
      let r = Book.submit o t.book in
      record {
        alive = refl;
        stands =
            Quiet-standing fd (record t { book = r.0 }) _
              (report_fills-Quiet r.1 (record t { book = r.0 }))
            ∙ (says (msg_order_accepted id) b).stands;
      }

  pub handle_login-Stays : (args : List Bytes) → Stays fd c (handle_login fd args s)
  unfolding handle_login
  handle_login-Stays [] = says _ s.book
  handle_login-Stays (name ∷ []) = elim (Bool-cases (logged_in (session_at fd s))) [
    | inl a ↦ rw a (says _ s.book)
    | inr a ↦ elim (Bool-cases (name_taken (session_at fd s).fd name s.sessions)) [
      | inl b ↦ rw (a, b) (says _ s.book)
      | inr b ↦ rw (a, b) (says_stored msg_ok (λ d. record d { username = name }) refl)
    ]
  ]
  handle_login-Stays (name ∷ r ∷ rest) = says _ s.book

  pub handle_order-Stays :
      (cmd : Bytes) (args : List Bytes) → Stays fd c (handle_order fd cmd args s)
  unfolding handle_order
  handle_order-Stays cmd [] = says _ s.book
  handle_order-Stays cmd (i ∷ []) = says _ s.book
  handle_order-Stays cmd (i ∷ q ∷ []) = says _ s.book
  handle_order-Stays cmd (i ∷ q ∷ p ∷ []) = elim (Bool-cases (is_valid_instrument i)) [
    | inr a ↦ rw a (says _ s.book)
    | inl a ↦ elim (Bool-cases (parse_positive_int q 0).0) [
      | inr b ↦ rw (a, b) (says _ s.book)
      | inl b ↦ elim (Bool-cases (parse_positive_int p 0).0) [
        | inr d ↦ rw (a, b, d) (says _ s.book)
        | inl d ↦ rw (a, b, d) (places _ i _ _)
      ]
    ]
  ]
  handle_order-Stays cmd (i ∷ q ∷ p ∷ r ∷ rest) = says _ s.book

  pub handle_cancel-Stays : (args : List Bytes) → Stays fd c (handle_cancel fd args s)
  unfolding handle_cancel
  handle_cancel-Stays [] = says _ s.book
  handle_cancel-Stays (oid ∷ []) = elim (Bool-cases (parse_nonnegative_int oid 0).0) [
    | inr a ↦ rw a (says _ s.book)
    | inl a ↦
        elim (Bool-cases
          (cancel (parse_nonnegative_int oid 0).1 (session_at fd s).fd (session_at fd s).session_seq
            s.book).1) [ inr b ↦ rw (a, b) (says _ _) | inl b ↦ rw (a, b) (says _ _) ]
  ]
  handle_cancel-Stays (oid ∷ r ∷ rest) = says _ s.book

  pub handle_subscription-Stays :
      (f : Bytes → List Bytes → List Bytes) (usage : Bytes) (args : List Bytes)
      → Stays fd c (handle_subscription f usage fd args s)
  unfolding handle_subscription
  handle_subscription-Stays f usage [] = says _ s.book
  handle_subscription-Stays f usage (i ∷ []) = elim (Bool-cases (is_valid_instrument i)) [
    | inr a ↦ rw a (says _ s.book)
    | inl a ↦ rw a (says_stored msg_ok (λ d. record d { subscriptions = f i d.subscriptions }) refl)
  ]
  handle_subscription-Stays f usage (i ∷ r ∷ rest) = says _ s.book
