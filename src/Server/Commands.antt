-- ===== src/Server/Commands.antt =====
-- `handle_line` of server/exchange_server.cpp: one line of a client. A result `false` says that the
-- session is gone.
pub mod Reports
pub mod BookEffect
pub mod Identity
pub mod LineEffect
pub mod Up
pub mod Reception
pub mod Trading
pub mod Answers
pub mod Standing
use the_socket_exchange.Common.{
  ℕ, none, some, List, [], ◌∷◌, ◌++◌, Bool, true, false, not, ◌&&◌, ◌||◌, if◌then◌else◌, ◌==◌,
  nat_eq, bytes_eq, Bytes, codes,
}
use the_socket_exchange.Assoc
use the_socket_exchange.Assoc.{Assoc}
use the_socket_exchange.Book
use the_socket_exchange.Book.{Side, buy, sell, Order, Fill}
use the_socket_exchange.Book.Cancel.{cancel}
use the_socket_exchange.Protocol.{
  tokenize, is_valid_instrument, parse_positive_int, parse_nonnegative_int, msg_ok, msg_error,
  msg_order_accepted, msg_order_cancelled, msg_bought, msg_sold,
}
use the_socket_exchange.Session.{
  ClientSession, default_session, Role, unknown, trader, market_data, logged_in, subscribe,
  unsubscribe,
}
use the_socket_exchange.Server.{
  Server, store, enqueue, broadcast_trade, close_session, is_trader, is_market_data,
}

abbrev pub is_trader_cmd : Bytes → Bool
is_trader_cmd cmd =
    (cmd == codes "LOGIN")
    || ((cmd == codes "BUY") || ((cmd == codes "SELL") || (cmd == codes "CANCEL")))

abbrev pub is_md_cmd : Bytes → Bool
is_md_cmd cmd = (cmd == codes "SUBSCRIBE") || (cmd == codes "UNSUBSCRIBE")

-- The role that a command gives to a connection that has none.
abbrev pub role_for : Bytes → Role → Role
role_for cmd unknown =
    if is_trader_cmd cmd then trader else if is_md_cmd cmd then market_data else unknown
role_for cmd role = role

-- The session that a handler's reference `c` names.
abbrev pub session_at : ℕ → Server → ClientSession
session_at fd s = elim (Assoc.lookup fd s.sessions) [ none ↦ default_session | some c ↦ c ]

abbrev pub infer_role : ℕ → Bytes → Server → Server
infer_role fd cmd s =
    let c = session_at fd s in store fd (record c { role = role_for cmd c.role }) s

-- The end of a branch that answers with one line and goes on.
abbrev pub reply : ℕ → Bytes → Server → Server × Bool
reply fd msg s = (enqueue fd msg s, true)

abbrev pub refuse : ℕ → Bytes → Server → Server × Bool
refuse fd reason = reply fd (msg_error reason)

-- `kv.first != c.fd && kv.second.username == t[1]` for an entry of the map
unfoldable pub name_taken : ℕ → Bytes → Assoc ℕ ClientSession → Bool
name_taken fd name [] = false
name_taken fd name ((k, c) ∷ m) =
    if not (k == fd) && (c.username == name) then true else name_taken fd name m

unfoldable pub handle_login : ℕ → List Bytes → Server → Server × Bool
handle_login fd (name ∷ []) s =
    let c = session_at fd s in
    if logged_in c
    then refuse fd (codes "already logged in") s
    else if name_taken c.fd name s.sessions
    then refuse fd (codes "username already in use") s
    else reply fd msg_ok (store fd (record c { username = name }) s)
handle_login fd _ s = refuse fd (codes "usage: LOGIN <username>") s

-- One report of a fill, to the party's session if it is still the one that gave the order.
unfoldable pub notify : ℕ → ℕ → Bytes → Server → Server
notify fd seq msg s = elim (Assoc.lookup fd s.sessions) [
  | none ↦ s
  | some c ↦ if c.session_seq == seq then enqueue fd msg s else s
]

unfoldable pub report_fill : Fill → Server → Server
report_fill f s = broadcast_trade f.instrument f.qty f.price (
    notify f.sell_fd f.sell_seq (msg_sold f.instrument f.qty f.price)
      (notify f.buyer_fd f.buyer_seq (msg_bought f.instrument f.qty f.price) s))

unfoldable pub report_fills : List Fill → Server → Server
report_fills [] s = s
report_fills (f ∷ fs) s = report_fills fs (report_fill f s)

abbrev pub order_of : ClientSession → ℕ → Side → Bytes → ℕ → ℕ → Order
order_of c id side instrument qty price = record {
  id = id;
  side = side;
  instrument = instrument;
  qty = qty;
  price = price;
  owner_fd = c.fd;
  owner_seq = c.session_seq;
}

-- An order with valid fields: it gets an id, is accepted, and only then is matched.
unfoldable pub place_order : ℕ → Side → Bytes → ℕ → ℕ → Server → Server
place_order fd side instrument qty price s =
    let (book, id) = Book.next_id s.book in
    let o = order_of (session_at fd s) id side instrument qty price in
    let s' = enqueue fd (msg_order_accepted id) (record s { book = book }) in
    let (book', fills) = Book.submit o s'.book in report_fills fills (record s' { book = book' })

unfoldable pub handle_order : ℕ → Bytes → List Bytes → Server → Server × Bool
handle_order fd cmd (instrument ∷ quantity ∷ price ∷ []) s =
    if not (is_valid_instrument instrument)
    then refuse fd (codes "unknown instrument " ++ instrument) s
    else let (qty_ok, qty) = parse_positive_int quantity 0 in
      let (price_ok, px) = parse_positive_int price 0 in
      if not qty_ok
      then refuse fd (codes "quantity must be an integer in 1..2147483647") s
      else if not price_ok
      then refuse fd (codes "price must be an integer in 1..2147483647") s
      else (place_order fd (if cmd == codes "BUY" then buy else sell) instrument qty px s, true)
handle_order fd cmd _ s =
    refuse fd (codes "usage: " ++ (cmd ++ codes " <instrument> <quantity> <price>")) s

unfoldable pub handle_cancel : ℕ → List Bytes → Server → Server × Bool
handle_cancel fd (order_id ∷ []) s =
    let (id_ok, oid) = parse_nonnegative_int order_id 0 in
    let c = session_at fd s in
    let (book, done) = cancel oid c.fd c.session_seq s.book in
    if not id_ok
    then refuse fd (codes "order id must be an integer in 0..2147483647") s
    else if done
    then reply fd (msg_order_cancelled oid) (record s { book = book })
    else refuse fd (codes "cannot cancel order " ++ order_id) (record s { book = book })
handle_cancel fd _ s = refuse fd (codes "usage: CANCEL <order_id>") s

-- SUBSCRIBE and UNSUBSCRIBE, which differ in what they do to the set and in the usage text.
unfoldable pub handle_subscription :
    (Bytes → List Bytes → List Bytes) → Bytes → ℕ → List Bytes → Server → Server × Bool
handle_subscription f usage fd (instrument ∷ []) s =
    let c = session_at fd s in
    if not (is_valid_instrument instrument)
    then refuse fd (codes "unknown instrument " ++ instrument) s
    else reply fd msg_ok (store fd (record c { subscriptions = f instrument c.subscriptions }) s)
handle_subscription f usage fd _ s = refuse fd usage s

unfoldable pub dispatch : ℕ → Bytes → List Bytes → Server → Server × Bool
dispatch fd cmd args s =
    if cmd == codes "LOGIN"
    then handle_login fd args s
    else if (cmd == codes "BUY") || (cmd == codes "SELL")
    then handle_order fd cmd args s
    else if cmd == codes "CANCEL"
    then handle_cancel fd args s
    else if cmd == codes "SUBSCRIBE"
    then handle_subscription subscribe (codes "usage: SUBSCRIBE <instrument>") fd args s
    else if cmd == codes "UNSUBSCRIBE"
    then handle_subscription unsubscribe (codes "usage: UNSUBSCRIBE <instrument>") fd args s
    else if cmd == codes "QUIT"
    then (close_session (session_at fd s).fd s, false)
    else refuse fd (codes "unknown command") s

unfoldable pub handle_tokens : ℕ → List Bytes → Server → Server × Bool
handle_tokens fd [] s = refuse fd (codes "empty") s
handle_tokens fd (cmd ∷ args) s =
    let s' = infer_role fd cmd s in
    let role = (session_at fd s').role in
    if is_trader_cmd cmd && not (is_trader role)
    then refuse fd (codes "market-data clients cannot send " ++ cmd) s'
    else if is_md_cmd cmd && not (is_market_data role)
    then refuse fd (codes "traders cannot send " ++ cmd) s'
    else dispatch fd cmd args s'

unfoldable pub handle_line : ℕ → Bytes → Server → Server × Bool
handle_line fd line s = handle_tokens fd (tokenize line) s
