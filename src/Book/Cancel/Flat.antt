-- ===== src/Book/Cancel/Flat.antt =====
-- `cancel` against the flat list of all resting orders.

use the_socket_exchange.Common.{
  ℕ, List, [], ◌∷◌, ◌++◌, Bool, true, false, if◌then◌else◌, ◌==◌, nat_eq, Bytes, ◌≡◌, refl, arith,
  Option, none, some, ◌&&◌,
}
use the_socket_exchange.Assoc.{Assoc}
use the_socket_exchange.Book.{Order, Levels, InstrumentBook, OrderBook}
use the_socket_exchange.Book.Cancel.{
  Search, erased, or_else, map_search, cancel_queue, cancel_levels, cancel_sides, cancel_books,
  cancel,
}

-- All resting orders, in the order in which the loops meet them.
abbrev pub resting_levels : Levels → List Order
resting_levels [] = []
resting_levels ((p, queue) ∷ levels) = queue ++ resting_levels levels

abbrev pub resting_in : InstrumentBook → List Order
resting_in ib = resting_levels ib.buys ++ resting_levels ib.sells

abbrev pub resting_books : Assoc Bytes InstrumentBook → List Order
resting_books [] = []
resting_books ((i, ib) ∷ books) = resting_in ib ++ resting_books books

abbrev pub resting : OrderBook → List Order
resting b = resting_books b.books

-- The first order with an id, and the list without it.
abbrev pub find_order : ℕ → List Order → Option Order
find_order i [] = none
find_order i (o ∷ os) = if o.id == i then some o else find_order i os

abbrev pub drop_order : ℕ → List Order → List Order
drop_order i [] = []
drop_order i (o ∷ os) = if o.id == i then os else o ∷ drop_order i os

-- Whether a connection, known by its descriptor and its session number, owns the order found.
abbrev pub owns : ℕ → ℕ → Option Order → Bool
owns fd seq none = false
owns fd seq (some o) = (o.owner_fd == fd) && (o.owner_seq == seq)

abbrev verdict {ℓ} : {A : Type ℓ} → Search A → Bool
verdict (erased a) = true
verdict _ = false

abbrev after {ℓ} : {A : Type ℓ} → A → Search A → A
after a (erased x) = x
after a _ = a

module _ (i fd seq : ℕ) where
  cancel_queue_lem :
      (os : List Order)
      → (verdict (cancel_queue i fd seq os) ≡ owns fd seq (find_order i os))
        × (after os (cancel_queue i fd seq os)
            ≡ (if owns fd seq (find_order i os) then drop_order i os else os))
  unfolding cancel_queue
  cancel_queue_lem [] = (refl, refl)
  cancel_queue_lem (o ∷ os) = ground (arith, cancel_queue_lem os)

  cancel_queue-append :
      (xs ys : List Order)
      → cancel_queue i fd seq (xs ++ ys)
        ≡ or_else
            (cancel_queue i fd seq xs)
            (λ q. q ++ ys)
            (map_search (λ q. xs ++ q) (cancel_queue i fd seq ys))
  unfolding cancel_queue
  cancel_queue-append [] ys = ground arith
  cancel_queue-append (o ∷ xs) ys = ground (arith, cancel_queue-append xs ys)

  cancel_levels-flat :
      (l : Levels)
      → map_search resting_levels (cancel_levels i fd seq l)
        ≡ cancel_queue i fd seq (resting_levels l)
  unfolding cancel_levels
  cancel_levels-flat [] = refl
  cancel_levels-flat ((p, queue) ∷ l) =
      ground (arith, cancel_levels-flat l, cancel_queue-append queue (resting_levels l))

  cancel_sides-flat :
      (ib : InstrumentBook)
      → map_search resting_in (cancel_sides i fd seq ib) ≡ cancel_queue i fd seq (resting_in ib)
  unfolding cancel_sides
  cancel_sides-flat ib = ground (
    arith,
    cancel_levels-flat ib.buys,
    cancel_levels-flat ib.sells,
    cancel_queue-append (resting_levels ib.buys) (resting_levels ib.sells),
  )

  cancel_books-flat :
      (bs : Assoc Bytes InstrumentBook)
      → map_search resting_books (cancel_books i fd seq bs)
        ≡ cancel_queue i fd seq (resting_books bs)
  unfolding cancel_books
  cancel_books-flat [] = refl
  cancel_books-flat ((k, ib) ∷ bs) = ground (
    arith,
    cancel_sides-flat ib,
    cancel_books-flat bs,
    cancel_queue-append (resting_in ib) (resting_books bs),
  )

-- `cancel` succeeds exactly when the first resting order with the id belongs to the requester, by
-- descriptor and session number; then it takes that order out and leaves the others in their
-- order, and otherwise it leaves all resting orders as they were.
pub cancel_lem :
    (i fd seq : ℕ) (b : OrderBook)
    → ((cancel i fd seq b).1 ≡ owns fd seq (find_order i (resting b)))
      × (resting (cancel i fd seq b).0 ≡ (
          if owns fd seq (find_order i (resting b)) then drop_order i (resting b) else resting b))
unfolding cancel
cancel_lem i fd seq b =
    ground (arith, cancel_books-flat i fd seq b.books, cancel_queue_lem i fd seq (resting b))
