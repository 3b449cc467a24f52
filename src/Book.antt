-- ===== src/Book.antt =====
-- server/order_book.hpp and server/order_book.cpp: the order book. Prices, quantities and ids are
-- `long long` in the source and natural numbers here, so the test `o.qty <= 0` is `o.qty == 0`.
pub mod Lots
pub mod Matching
pub mod Queues
pub mod Refinement
pub mod Invariant
pub mod Cancel
pub mod Ids
pub mod History
use the_socket_exchange.Common.{
  ℕ, zero, suc, ◌+◌, ◌-◌, min, Option, none, some, List, [], ◌∷◌, ◌++◌, ◌&&◌, ◌≡◌, if◌then◌else◌,
  ltb, ◌==◌, nat_eq, bytes_eq, Bytes, length, is_empty,
}
use the_socket_exchange.Assoc
use the_socket_exchange.Assoc.{Assoc}
use the_socket_exchange.PriceMap
use the_socket_exchange.PriceMap.{PriceMap}

pub data Side : Type 0 where
  buy sell : Side

pub record Order : Type 0 where
  pub id : ℕ
  pub side : Side
  pub instrument : Bytes
  pub qty : ℕ
  pub price : ℕ
  pub owner_fd : ℕ
  pub owner_seq : ℕ

pub record Fill : Type 0 where
  pub instrument : Bytes
  pub qty : ℕ
  pub price : ℕ
  pub buyer_fd : ℕ
  pub sell_fd : ℕ
  pub buyer_seq : ℕ
  pub sell_seq : ℕ

-- A price level's FIFO of resting orders, oldest first, under each price.
abbrev pub Levels : Type 0
Levels = PriceMap (List Order)

pub record InstrumentBook : Type 0 where
  pub buys : Levels
  pub sells : Levels

pub record OrderBook : Type 0 where
  pub next_id : ℕ
  pub books : Assoc Bytes InstrumentBook

abbrev pub empty_book : InstrumentBook
empty_book = record { buys = []; sells = [] }

abbrev pub init : OrderBook
init = record { next_id = 0; books = [] }

-- `return next_id_++`
unfoldable pub next_id : OrderBook → OrderBook × ℕ
next_id b = (record b { next_id = b.next_id + 1 }, b.next_id)

-- The side of the book that an order of a side rests on, and the one that it trades against.
abbrev pub same : Side → InstrumentBook → Levels
same buy ib = ib.buys
same sell ib = ib.sells

abbrev pub opposite : Side → InstrumentBook → Levels
opposite buy ib = ib.sells
opposite sell ib = ib.buys

abbrev pub set_same : Side → Levels → InstrumentBook → InstrumentBook
set_same buy l ib = record ib { buys = l }
set_same sell l ib = record ib { sells = l }

abbrev pub set_opposite : Side → Levels → InstrumentBook → InstrumentBook
set_opposite buy l ib = record ib { sells = l }
set_opposite sell l ib = record ib { buys = l }

-- What the matching loop changes: the incoming order, the queue that it meets and the fills.
pub record Match : Type 0 where
  pub o : Order
  pub queue : List Order
  pub fills : List Fill

-- Whichever of the two orders is the BUY supplies the buyer, and the other the seller.
abbrev pub buyer_of : Side → ℕ → ℕ → ℕ
buyer_of buy incoming resting = incoming
buyer_of sell incoming resting = resting

abbrev pub seller_of : Side → ℕ → ℕ → ℕ
seller_of buy incoming resting = resting
seller_of sell incoming resting = incoming

unfoldable pub make_fill : Order → Order → ℕ → Fill
make_fill o resting traded = record {
  instrument = o.instrument;
  qty = traded;
  price = o.price;
  buyer_fd = buyer_of o.side o.owner_fd resting.owner_fd;
  sell_fd = seller_of o.side o.owner_fd resting.owner_fd;
  buyer_seq = buyer_of o.side o.owner_seq resting.owner_seq;
  sell_seq = seller_of o.side o.owner_seq resting.owner_seq;
}

-- The body of the loop, at `queue.front()`.
unfoldable pub match_front : Order → Order → List Order → List Fill → Match
unfolding make_fill
match_front o resting rest fills =
    let traded = min o.qty resting.qty in
    let left = resting.qty - traded in
    record {
      o = record o { qty = o.qty - traded };
      queue = if left == 0 then rest else record resting { qty = left } ∷ rest;
      fills = fills ++ make_fill o resting traded ∷ [];
    }

-- `while (o.qty > 0 && !queue.empty())`: each round takes one order off the queue, or leaves the
-- incoming order with nothing, so a fuel above the queue's length is enough.
unfoldable pub match_loop : ℕ → Order → List Order → List Fill → Match
unfolding match_front
match_loop zero o queue fills = record { o = o; queue = queue; fills = fills }
match_loop (suc fuel) o [] fills = record { o = o; queue = []; fills = fills }
match_loop (suc fuel) o (resting ∷ rest) fills =
    let m = match_front o resting rest fills in
    let next = match_loop fuel m.o m.queue m.fills in
    if ltb 0 o.qty then next else record { o = o; queue = resting ∷ rest; fills = fills }

-- A level is written back, or erased if its queue is empty.
unfoldable pub store_level : List Order → ℕ → Levels → Levels
store_level queue p levels =
    if is_empty queue then PriceMap.erase p levels else PriceMap.insert p queue levels

-- The part of `submit` under `lvl != opposite.end()`: the order that is left, the other side's
-- levels and the fills.
unfoldable pub match_level : Order → Levels → Option (List Order) → Order × Levels × List Fill
unfolding match_loop store_level
match_level o levels none = (o, levels, [])
match_level o levels (some queue) =
    let m = match_loop (suc (length queue)) o queue [] in
    (m.o, store_level m.queue o.price levels, m.fills)

-- `operator[]`: what is not there is a default value.
abbrev pub book_of : Option InstrumentBook → InstrumentBook
book_of none = empty_book
book_of (some ib) = ib

abbrev pub queue_of : Option (List Order) → List Order
queue_of none = []
queue_of (some queue) = queue

-- `same[o.price].push_back(o)` when something is left
unfoldable pub rest_order : Order → InstrumentBook → InstrumentBook
rest_order o ib =
    if ltb 0 o.qty
    then set_same o.side
        (PriceMap.insert o.price (queue_of (PriceMap.lookup o.price (same o.side ib)) ++ o ∷ [])
          (same o.side ib))
        ib
    else ib

-- `submit` on the book of the order's instrument.
unfoldable pub submit_to : Order → InstrumentBook → InstrumentBook × List Fill
unfolding match_level rest_order
submit_to o ib =
    let (o', levels, fills) =
      match_level o (opposite o.side ib) (PriceMap.lookup o.price (opposite o.side ib)) in
    (rest_order o' (set_opposite o.side levels ib), fills)

unfoldable pub submit : Order → OrderBook → OrderBook × List Fill
unfolding submit_to
submit o b =
    if o.qty == 0
    then (b, [])
    else let (ib, fills) = submit_to o (book_of (Assoc.lookup o.instrument b.books)) in
      (record b { books = Assoc.insert o.instrument ib b.books }, fills)
