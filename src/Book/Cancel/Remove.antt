-- ===== src/Book/Cancel/Remove.antt =====
-- `remove_orders_of` against the flat list of all resting orders.
use the_socket_exchange.Common.{
  ℕ, List, [], ◌∷◌, ◌++◌, if◌then◌else◌, ◌==◌, nat_eq, Bytes, ◌≡◌, refl, ap, ◌∙◌, arith, map,
}
use mathlib.Core.List.{map-append}
use the_socket_exchange.Book.{Order, Levels, InstrumentBook, OrderBook}
use the_socket_exchange.Book.Cancel.{remove_queue, remove_levels, remove_books, remove_orders_of}
use the_socket_exchange.Book.Cancel.Flat.{resting_levels, resting_in, resting_books, resting}

-- The orders that a descriptor owns, and the others, each in their order.
abbrev pub owned_by : ℕ → List Order → List Order
owned_by fd [] = []
owned_by fd (o ∷ os) = let rest = owned_by fd os in if o.owner_fd == fd then o ∷ rest else rest

abbrev pub not_owned_by : ℕ → List Order → List Order
not_owned_by fd [] = []
not_owned_by fd (o ∷ os) =
    let rest = not_owned_by fd os in if o.owner_fd == fd then rest else o ∷ rest

abbrev ids : List Order → List ℕ
ids = map (λ (o : Order). o.id)

module _ (fd : ℕ) where
  owned_by-append : (xs ys : List Order) → owned_by fd (xs ++ ys) ≡ owned_by fd xs ++ owned_by fd ys
  owned_by-append [] ys = refl
  owned_by-append (o ∷ xs) ys = ground (arith, owned_by-append xs ys)

  not_owned_by-append :
      (xs ys : List Order) → not_owned_by fd (xs ++ ys) ≡ not_owned_by fd xs ++ not_owned_by fd ys
  not_owned_by-append [] ys = refl
  not_owned_by-append (o ∷ xs) ys = ground (arith, not_owned_by-append xs ys)

  remove_queue_lem :
      (os : List Order)
      → ((remove_queue fd os).0 ≡ ids (owned_by fd os))
        × ((remove_queue fd os).1 ≡ not_owned_by fd os)
  unfolding remove_queue
  remove_queue_lem [] = (refl, refl)
  remove_queue_lem (o ∷ os) = ground (arith, remove_queue_lem os)

  ids_of_owned :
      (xs ys : List Order)
      → ids (owned_by fd (xs ++ ys)) ≡ ids (owned_by fd xs) ++ ids (owned_by fd ys)
  ids_of_owned xs ys =
      ap ids (owned_by-append xs ys) ∙ map-append _ (owned_by fd xs) (owned_by fd ys)

  remove_levels_lem :
      (l : Levels)
      → ((remove_levels fd l).0 ≡ ids (owned_by fd (resting_levels l)))
        × (resting_levels (remove_levels fd l).1 ≡ not_owned_by fd (resting_levels l))
  unfolding remove_levels
  remove_levels_lem [] = (refl, refl)
  remove_levels_lem ((p, queue) ∷ l) = ground (
    arith,
    remove_levels_lem l,
    remove_queue_lem queue,
    ids_of_owned queue (resting_levels l),
    not_owned_by-append queue (resting_levels l),
  )

  remove_books_lem :
      (bs : List (Bytes × InstrumentBook))
      → ((remove_books fd bs).0 ≡ ids (owned_by fd (resting_books bs)))
        × (resting_books (remove_books fd bs).1 ≡ not_owned_by fd (resting_books bs))
  unfolding remove_books
  remove_books_lem [] = (refl, refl)
  remove_books_lem ((i, ib) ∷ bs) = ground (
    arith,
    remove_levels_lem ib.buys,
    remove_levels_lem ib.sells,
    remove_books_lem bs,
    ids_of_owned (resting_levels ib.buys) (resting_levels ib.sells),
    ids_of_owned (resting_in ib) (resting_books bs),
    not_owned_by-append (resting_levels ib.buys) (resting_levels ib.sells),
    not_owned_by-append (resting_in ib) (resting_books bs),
  )

-- `remove_orders_of` reports the ids of exactly the orders that the descriptor owns, in the order
-- of the walk, and leaves exactly the others.
pub remove_orders_of_lem :
    (fd : ℕ) (b : OrderBook)
    → ((remove_orders_of fd b).1 ≡ map (λ (o : Order). o.id) (owned_by fd (resting b)))
      × (resting (remove_orders_of fd b).0 ≡ not_owned_by fd (resting b))
unfolding remove_orders_of
remove_orders_of_lem fd b = remove_books_lem fd b.books
