-- ===== src/Book/Cancel.antt =====
-- `cancel` and `remove_orders_of` of server/order_book.cpp. The loops walk the instruments, the buys
-- before the sells of each, the levels by price and the orders of a level from the oldest.
pub mod Flat
pub mod Remove
pub mod Invariant
pub mod Uncrossed
use the_socket_exchange.Common.{
  ℕ, List, [], ◌∷◌, ◌++◌, Bool, true, false, if◌then◌else◌, ◌==◌, nat_eq, Bytes, is_empty,
}
use the_socket_exchange.Assoc.{Assoc}
use the_socket_exchange.Book.{Order, Levels, InstrumentBook, OrderBook}

-- What a loop of `cancel` comes to: no order has the id; one has it and belongs to another
-- connection (`return false`); or it was erased, which leaves a value.
pub data Search {ℓ} (A : Type ℓ) : Type ℓ where
  missed : Search A
  refused : Search A
  erased : A → Search A

-- The search goes on only where nothing has the id yet.
abbrev pub or_else {ℓ κ} : {A : Type ℓ} {B : Type κ} → Search A → (A → B) → Search B → Search B
or_else missed f next = next
or_else refused f next = refused
or_else (erased a) f next = erased (f a)

abbrev pub map_search {ℓ κ} : {A : Type ℓ} {B : Type κ} → (A → B) → Search A → Search B
map_search f missed = missed
map_search f refused = refused
map_search f (erased a) = erased (f a)

module _ (order_id requester_fd requester_seq : ℕ) where
  unfoldable pub cancel_queue : List Order → Search (List Order)
  cancel_queue [] = missed
  cancel_queue (o ∷ queue) =
      if o.id == order_id
      then (if o.owner_fd == requester_fd
          then if o.owner_seq == requester_seq then erased queue else refused
          else refused)
      else map_search (λ q. o ∷ q) (cancel_queue queue)

  -- `if (queue.empty()) side->erase(lvl)`
  unfoldable pub cancel_levels : Levels → Search Levels
  unfolding cancel_queue
  cancel_levels [] = missed
  cancel_levels ((p, queue) ∷ levels) =
      or_else (cancel_queue queue) (λ q. if is_empty q then levels else (p, q) ∷ levels)
        (map_search (λ l. (p, queue) ∷ l) (cancel_levels levels))

  unfoldable pub cancel_sides : InstrumentBook → Search InstrumentBook
  unfolding cancel_levels
  cancel_sides ib =
      or_else (cancel_levels ib.buys) (λ l. record ib { buys = l })
        (map_search (λ l. record ib { sells = l }) (cancel_levels ib.sells))

  unfoldable pub cancel_books : Assoc Bytes InstrumentBook → Search (Assoc Bytes InstrumentBook)
  unfolding cancel_sides
  cancel_books [] = missed
  cancel_books ((i, ib) ∷ books) =
      or_else (cancel_sides ib) (λ x. (i, x) ∷ books)
        (map_search (λ l. (i, ib) ∷ l) (cancel_books books))

  abbrev pub cancelled : OrderBook → Search (Assoc Bytes InstrumentBook) → OrderBook × Bool
  cancelled b missed = (b, false)
  cancelled b refused = (b, false)
  cancelled b (erased books) = (record b { books = books }, true)

  unfoldable pub cancel : OrderBook → OrderBook × Bool
  unfolding cancel_books
  cancel b = cancelled b (cancel_books b.books)

module _ (owner_fd : ℕ) where
  -- The ids that are removed from a queue, and the queue that is left.
  unfoldable pub remove_queue : List Order → List ℕ × List Order
  remove_queue [] = ([], [])
  remove_queue (o ∷ queue) =
      let (removed, kept) = remove_queue queue in
      if o.owner_fd == owner_fd then (o.id ∷ removed, kept) else (removed, o ∷ kept)

  unfoldable pub remove_levels : Levels → List ℕ × Levels
  unfolding remove_queue
  remove_levels [] = ([], [])
  remove_levels ((p, queue) ∷ levels) =
      let (removed, kept) = remove_queue queue in
      let (later, rest) = remove_levels levels in
      (removed ++ later, if is_empty kept then rest else (p, kept) ∷ rest)

  unfoldable pub remove_books : Assoc Bytes InstrumentBook → List ℕ × Assoc Bytes InstrumentBook
  unfolding remove_levels
  remove_books [] = ([], [])
  remove_books ((i, ib) ∷ books) =
      let (from_buys, buys) = remove_levels ib.buys in
      let (from_sells, sells) = remove_levels ib.sells in
      let (later, rest) = remove_books books in
      ((from_buys ++ from_sells) ++ later, (i, record { buys = buys; sells = sells }) ∷ rest)

  unfoldable pub remove_orders_of : OrderBook → OrderBook × List ℕ
  unfolding remove_books
  remove_orders_of b =
      let (removed, books) = remove_books b.books in (record b { books = books }, removed)
