-- ===== src/Server/Commands/BookEffect.antt =====
-- What a line does to the order book, without the messages.
use the_socket_exchange.Common.{
  ℕ, List, [], ◌∷◌, ◌&&◌, ◌||◌, ◌≡◌, refl, ap, ◌∙◌, arith, ◌==◌, nat_eq, bytes_eq, bytes_beq_iff,
  Bytes, codes, if◌then◌else◌, Option-cases, Bool-cases, inl, inr,
}
use the_socket_exchange.Assoc
use the_socket_exchange.Book
use the_socket_exchange.Book.{OrderBook, Side, buy, sell, Fill, Order}
use the_socket_exchange.Book.Cancel.{cancel}
use the_socket_exchange.Protocol.{
  msg_error, msg_order_accepted, is_valid_instrument, parse_positive_int, parse_nonnegative_int,
}
use the_socket_exchange.Session.{ClientSession, logged_in, subscribe, unsubscribe}
use the_socket_exchange.Server.{Server, store, enqueue, close_session, is_market_data}
use the_socket_exchange.Server.Quiet.{enqueue-Quiet}
use the_socket_exchange.Server.Commands.{
  name_taken, place_order, order_of, session_at, handle_login, handle_order, handle_cancel,
  handle_subscription, dispatch,
}
use the_socket_exchange.Server.Commands.Reports.{report_fills-Quiet}

-- An order with valid fields takes the next id and is submitted.
abbrev pub place : ClientSession → Side → Bytes → ℕ → ℕ → OrderBook → OrderBook
place c side i qty price b =
    (Book.submit (order_of c (Book.next_id b).1 side i qty price) (Book.next_id b).0).0

-- What the words of a line ask of the book, for a connection that may trade.
abbrev pub order_effect : ClientSession → Bytes → List Bytes → OrderBook → OrderBook
order_effect c cmd (i ∷ q ∷ p ∷ []) b =
    if is_valid_instrument i && ((parse_positive_int q 0).0 && (parse_positive_int p 0).0)
    then place c (if cmd == codes "BUY" then buy else sell) i (parse_positive_int q 0).1
        (parse_positive_int p 0).1 b
    else b
order_effect c cmd _ b = b

abbrev pub cancel_effect : ClientSession → List Bytes → OrderBook → OrderBook
cancel_effect c (oid ∷ []) b =
    if (parse_nonnegative_int oid 0).0
    then (cancel (parse_nonnegative_int oid 0).1 c.fd c.session_seq b).0
    else b
cancel_effect c _ b = b

abbrev pub book_effect : ClientSession → List Bytes → OrderBook → OrderBook
book_effect c [] b = b
book_effect c (cmd ∷ args) b =
    if is_market_data c.role
    then b
    else if (cmd == codes "BUY") || (cmd == codes "SELL")
    then order_effect c cmd args b
    else if cmd == codes "CANCEL"
    then cancel_effect c args b
    else b

place_order-book :
    (fd : ℕ) (side : Side) (i : Bytes) (qty price : ℕ) (s : Server)
    → (place_order fd side i qty price s).book ≡ place (session_at fd s) side i qty price s.book
unfolding place_order
place_order-book fd side i qty price s =
    let b = (Book.next_id s.book).0 in
    let id = (Book.next_id s.book).1 in
    let o = order_of (session_at fd s) id side i qty price in
    let s' = enqueue fd (msg_order_accepted id) (record s { book = b }) in
    let r = Book.submit o s'.book in
    (report_fills-Quiet r.1 (record s' { book = r.0 })).book
    ∙ ap (λ x. (Book.submit o x).0)
        (enqueue-Quiet fd (msg_order_accepted id) (record s { book = b })).book

-- A line that is answered at once leaves the book as it is.
pub quiet_reply : (fd : ℕ) (msg : Bytes) (s : Server) → (enqueue fd msg s).book ≡ s.book
quiet_reply fd msg s = (enqueue-Quiet fd msg s).book

handle_order-book :
    (fd : ℕ) (cmd : Bytes) (args : List Bytes) (s : Server)
    → (handle_order fd cmd args s).0.book ≡ order_effect (session_at fd s) cmd args s.book
unfolding handle_order
handle_order-book fd cmd [] s = quiet_reply fd _ s
handle_order-book fd cmd (i ∷ []) s = quiet_reply fd _ s
handle_order-book fd cmd (i ∷ q ∷ []) s = quiet_reply fd _ s
handle_order-book fd cmd (i ∷ q ∷ p ∷ []) s = elim (Bool-cases (is_valid_instrument i)) [
  | inr a ↦ rw a (quiet_reply fd _ s)
  | inl a ↦ elim (Bool-cases (parse_positive_int q 0).0) [
    | inr b ↦ rw (a, b) (quiet_reply fd _ s)
    | inl b ↦ elim (Bool-cases (parse_positive_int p 0).0) [
      | inr c ↦ rw (a, b, c) (quiet_reply fd _ s)
      | inl c ↦ rw (a, b, c) (place_order-book fd _ i _ _ s)
    ]
  ]
]
handle_order-book fd cmd (i ∷ q ∷ p ∷ r ∷ rest) s = quiet_reply fd _ s

handle_cancel-book :
    (fd : ℕ) (args : List Bytes) (s : Server)
    → (handle_cancel fd args s).0.book ≡ cancel_effect (session_at fd s) args s.book
unfolding handle_cancel
handle_cancel-book fd [] s = quiet_reply fd _ s
handle_cancel-book fd (oid ∷ []) s = elim (Bool-cases (parse_nonnegative_int oid 0).0) [
  | inr a ↦ rw a (quiet_reply fd _ s)
  | inl a ↦
      elim (Bool-cases
        (cancel (parse_nonnegative_int oid 0).1 (session_at fd s).fd (session_at fd s).session_seq
          s.book).1) [
            | inr b ↦ rw (a, b) (quiet_reply fd _ (record s { book = _ }))
            | inl b ↦ rw (a, b) (quiet_reply fd _ (record s { book = _ }))
          ]
]
handle_cancel-book fd (oid ∷ r ∷ rest) s = quiet_reply fd _ s

handle_login-book :
    (fd : ℕ) (args : List Bytes) (s : Server) → (handle_login fd args s).0.book ≡ s.book
unfolding handle_login
handle_login-book fd [] s = quiet_reply fd _ s
handle_login-book fd (name ∷ []) s = elim (Bool-cases (logged_in (session_at fd s))) [
  | inl a ↦ rw a (quiet_reply fd _ s)
  | inr a ↦ elim (Bool-cases (name_taken (session_at fd s).fd name s.sessions)) [
    | inl b ↦ rw (a, b) (quiet_reply fd _ s)
    | inr b ↦ rw (a, b) (quiet_reply fd _ (store fd _ s))
  ]
]
handle_login-book fd (name ∷ r ∷ rest) s = quiet_reply fd _ s

handle_subscription-book :
    (f : Bytes → List Bytes → List Bytes) (usage : Bytes) (fd : ℕ) (args : List Bytes) (s : Server)
    → (handle_subscription f usage fd args s).0.book ≡ s.book
unfolding handle_subscription
handle_subscription-book f usage fd [] s = quiet_reply fd _ s
handle_subscription-book f usage fd (i ∷ []) s = elim (Bool-cases (is_valid_instrument i)) [
  | inl a ↦ rw a (quiet_reply fd _ (store fd _ s))
  | inr a ↦ rw a (quiet_reply fd _ s)
]
handle_subscription-book f usage fd (i ∷ r ∷ rest) s = quiet_reply fd _ s

pub close_session-book : (fd : ℕ) (s : Server) → (close_session fd s).book ≡ s.book
unfolding close_session
close_session-book fd s = elim (Option-cases (Assoc.lookup fd s.sessions)) [
  | inl e ↦ rw e refl
  | inr (c, e) ↦ rw e refl
]

-- What the commands ask of the book, whatever the role.
abbrev pub trading_effect : ClientSession → Bytes → List Bytes → OrderBook → OrderBook
trading_effect c cmd args b =
    if (cmd == codes "BUY") || (cmd == codes "SELL")
    then order_effect c cmd args b
    else if cmd == codes "CANCEL"
    then cancel_effect c args b
    else b

pub dispatch-book :
    (fd : ℕ) (cmd : Bytes) (args : List Bytes) (s : Server)
    → (dispatch fd cmd args s).0.book ≡ trading_effect (session_at fd s) cmd args s.book
unfolding dispatch
dispatch-book fd cmd args s = ground (
  arith,
  bytes_beq_iff cmd (codes "LOGIN"),
  bytes_beq_iff cmd (codes "BUY"),
  bytes_beq_iff cmd (codes "SELL"),
  bytes_beq_iff cmd (codes "CANCEL"),
  handle_login-book fd args s,
  handle_order-book fd cmd args s,
  handle_cancel-book fd args s,
  handle_subscription-book subscribe (codes "usage: SUBSCRIBE <instrument>") fd args s,
  handle_subscription-book unsubscribe (codes "usage: UNSUBSCRIBE <instrument>") fd args s,
  close_session-book (session_at fd s).fd s,
  quiet_reply fd (msg_error (codes "unknown command")) s,
)
