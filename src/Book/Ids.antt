-- ===== src/Book/Ids.antt =====
-- How often an id stands in the book, and what `submit` and `cancel` do to that.
pub mod Changes
pub mod Unique
use the_socket_exchange.Common.{
  ℕ, zero, suc, ◌+◌, ◌-◌, ◌≤◌, ◌<◌, Option, none, some, List, [], ◌∷◌, ◌++◌, ◌≡◌, refl, ap, ◌∙◌,
  arith, if◌then◌else◌, ltb, ◌==◌, nat_eq, nat_beq_iff, bytes_eq, Bytes, length, Bool-cases, inl,
  inr,
}
use the_socket_exchange.Assoc
use the_socket_exchange.Assoc.{Assoc}
use the_socket_exchange.PriceMap
use the_socket_exchange.PriceMap.Laws.{IsAscending, Above, Above-IsAscending}
use the_socket_exchange.Book.{
  Side, buy, sell, Order, Fill, Levels, InstrumentBook, same, opposite, set_same, set_opposite,
  book_of, queue_of, store_level, match_front, match_level, match_loop, rest_order,
}
use the_socket_exchange.Book.Cancel.Flat.{resting_levels, resting_in, resting_books}

-- `1` for an order with the id.
abbrev pub has : ℕ → Order → ℕ
has i o = if o.id == i then 1 else 0

abbrev pub count : ℕ → List Order → ℕ
count i [] = 0
count i (o ∷ os) = has i o + count i os

pub count-append : (i : ℕ) (xs ys : List Order) → count i (xs ++ ys) ≡ count i xs + count i ys
count-append i [] ys = omega arith
count-append i (o ∷ xs) ys = omega (arith, count-append i xs ys)

module _ (i : ℕ) where
  match_front-count :
      (o r : Order) (rest : List Order) (fills : List Fill)
      → (count i (match_front o r rest fills).queue ≤ count i (r ∷ rest))
        × ((match_front o r rest fills).o.id ≡ o.id)
  unfolding match_front
  match_front-count o r rest fills = ground arith

  match_loop-count :
      (fuel : ℕ) (o : Order) (queue : List Order) (fills : List Fill)
      → (count i (match_loop fuel o queue fills).queue ≤ count i queue)
        × ((match_loop fuel o queue fills).o.id ≡ o.id)
  unfolding match_loop
  match_loop-count zero o queue fills = (omega arith, refl)
  match_loop-count (suc fuel) o [] fills = (omega arith, refl)
  match_loop-count (suc fuel) o (r ∷ rest) fills =
      let m = match_front o r rest fills in
      let (less, same) = match_front-count o r rest fills in
      let (less', same') = match_loop-count fuel m.o m.queue m.fills in
      elim (Bool-cases (ltb 0 o.qty)) [
        | inl e ↦ rw e (omega (arith, less, less'), same' ∙ same)
        | inr e ↦ rw e (omega arith, refl)
      ]

  -- The orders of the level at a price.
  abbrev level_count : ℕ → Levels → ℕ
  level_count p l = count i (queue_of (PriceMap.lookup p l))

  Above-count : (p q : ℕ) (l : Levels) → p < q → Above q l → level_count p l ≡ 0
  unfolding PriceMap.lookup
  Above-count p q [] h a = refl
  Above-count p q ((r, queue) ∷ l) h (lt, a) =
      ground (arith, nat_beq_iff r p, Above-count p r l (omega arith) a)

  insert-count :
      (p : ℕ) (queue : List Order) (l : Levels)
      → IsAscending l
      → count i (resting_levels (PriceMap.insert p queue l)) + level_count p l
        ≡ count i (resting_levels l) + count i queue
  unfolding PriceMap.insert PriceMap.lookup
  insert-count p queue [] a = omega (arith, count-append i queue [])
  insert-count p queue ((q, w) ∷ l) a = ground (
    arith,
    nat_beq_iff q p,
    count-append i queue (resting_levels l),
    count-append i queue (w ++ resting_levels l),
    count-append i w (resting_levels l),
    count-append i w (resting_levels (PriceMap.insert p queue l)),
    Above-count p q l,
    Above-IsAscending q l a,
    insert-count p queue l (Above-IsAscending q l a),
  )

  erase-count :
      (p : ℕ) (l : Levels)
      → count i (resting_levels (PriceMap.erase p l)) + level_count p l ≤ count i (resting_levels l)
  unfolding PriceMap.erase PriceMap.lookup
  erase-count p [] = omega arith
  erase-count p ((q, w) ∷ l) = ground (
    arith,
    nat_beq_iff q p,
    count-append i w (resting_levels l),
    count-append i w (resting_levels (PriceMap.erase p l)),
    erase-count p l,
  )

  store_level-count :
      (queue : List Order) (p : ℕ) (l : Levels)
      → IsAscending l
      → count i (resting_levels (store_level queue p l)) + level_count p l
        ≤ count i (resting_levels l) + count i queue
  unfolding store_level
  store_level-count [] p l a = omega (arith, erase-count p l)
  store_level-count (o ∷ queue) p l a = omega (arith, insert-count p (o ∷ queue) l a)

  match_level-count :
      (o : Order) (l : Levels) (found : Option (List Order))
      → PriceMap.lookup o.price l ≡ found
      → IsAscending l
      → (count i (resting_levels (match_level o l found).1) ≤ count i (resting_levels l))
        × ((match_level o l found).0.id ≡ o.id)
  unfolding match_level
  match_level-count o l none e a = (omega arith, refl)
  match_level-count o l (some queue) e a =
      let m = match_loop (suc (length queue)) o queue [] in
      let (less, same) = match_loop-count (suc (length queue)) o queue [] in
      (
        omega
            (arith, less, store_level-count m.queue o.price l a, ap (λ x. count i (queue_of x)) e),
        same,
      )

  set_same-count :
      (s : Side) (l : Levels) (ib : InstrumentBook)
      → count i (resting_in (set_same s l ib)) + count i (resting_levels (same s ib))
        ≡ count i (resting_in ib) + count i (resting_levels l)
  set_same-count buy l ib = omega (
    arith,
    count-append i (resting_levels l) (resting_levels ib.sells),
    count-append i (resting_levels ib.buys) (resting_levels ib.sells),
  )
  set_same-count sell l ib = omega (
    arith,
    count-append i (resting_levels ib.buys) (resting_levels l),
    count-append i (resting_levels ib.buys) (resting_levels ib.sells),
  )

  set_opposite-count :
      (s : Side) (l : Levels) (ib : InstrumentBook)
      → count i (resting_in (set_opposite s l ib)) + count i (resting_levels (opposite s ib))
        ≡ count i (resting_in ib) + count i (resting_levels l)
  set_opposite-count buy l ib = set_same-count sell l ib
  set_opposite-count sell l ib = set_same-count buy l ib

  rest_order-count :
      (o : Order) (ib : InstrumentBook)
      → IsAscending (same o.side ib)
      → count i (resting_in (rest_order o ib)) ≤ count i (resting_in ib) + has i o
  unfolding rest_order
  rest_order-count o ib a =
      let queue = queue_of (PriceMap.lookup o.price (same o.side ib)) in
      let l = PriceMap.insert o.price (queue ++ o ∷ []) (same o.side ib) in
      elim (Bool-cases (ltb 0 o.qty)) [
        | inl e ↦ rw e (
            omega (
              arith,
              set_same-count o.side l ib,
              insert-count o.price (queue ++ o ∷ []) (same o.side ib) a,
              count-append i queue (o ∷ []),
            ))
        | inr e ↦ rw e (omega arith)
      ]

  insert_book-count :
      (k : Bytes) (ib : InstrumentBook) (bs : Assoc Bytes InstrumentBook)
      → count i (resting_books (Assoc.insert k ib bs))
          + count i (resting_in (book_of (Assoc.lookup k bs)))
        ≡ count i (resting_books bs) + count i (resting_in ib)
  unfolding Assoc.insert Assoc.lookup
  insert_book-count k ib [] = omega (arith, count-append i (resting_in ib) [])
  insert_book-count k ib ((j, jb) ∷ bs) = ground (
    arith,
    count-append i (resting_in ib) (resting_books bs),
    count-append i (resting_in jb) (resting_books bs),
    count-append i (resting_in jb) (resting_books (Assoc.insert k ib bs)),
    insert_book-count k ib bs,
  )
