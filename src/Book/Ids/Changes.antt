-- ===== src/Book/Ids/Changes.antt =====
-- What `submit` and `cancel` do to how often an id stands in a whole book.
use the_socket_exchange.Common.{
  ℕ, ◌+◌, ◌≤◌, List, [], ◌∷◌, Bool, true, false, ◌≡◌, refl, ap, sym, arith, if◌then◌else◌, ◌==◌,
  nat_eq, bytes_eq, Bool-cases, inl, inr, subst,
}
use the_socket_exchange.Assoc
use the_socket_exchange.Assoc.{Assoc}
use the_socket_exchange.PriceMap
use the_socket_exchange.PriceMap.Laws.{IsAscending}
use the_socket_exchange.Book.{
  Side, buy, sell, Order, Levels, InstrumentBook, OrderBook, same, opposite, set_opposite, book_of,
  match_level, submit_to, submit,
}
use the_socket_exchange.Book.Queues.{match_level-LevelMatched}
use the_socket_exchange.Book.Invariant.{IsValidIn, IsValid, IsValidIn-same, book_of-IsValidIn}
use the_socket_exchange.Book.Cancel.{cancel}
use the_socket_exchange.Book.Cancel.Flat.{
  resting_in, resting, find_order, drop_order, owns, cancel_lem,
}
use the_socket_exchange.Book.Ids.{
  has, count, match_level-count, set_opposite-count, rest_order-count, insert_book-count,
}

same-set_opposite :
    (s : Side) (l : Levels) (ib : InstrumentBook) → same s (set_opposite s l ib) ≡ same s ib
same-set_opposite buy l ib = refl
same-set_opposite sell l ib = refl

module _ (i : ℕ) where
  submit_to-count :
      (o : Order) (n : ℕ) (ib : InstrumentBook)
      → IsValidIn n o.instrument ib
      → count i (resting_in (submit_to o ib).0) ≤ count i (resting_in ib) + has i o
  unfolding submit_to
  submit_to-count o n ib v =
      let r = match_level o (opposite o.side ib) (PriceMap.lookup o.price (opposite o.side ib)) in
      let (mine, others) = IsValidIn-same n o.instrument o.side ib v in
      let less = (match_level-count i o (opposite o.side ib) _ refl others.ascending).0 in
      rw (match_level-LevelMatched o (opposite o.side ib) _ refl).rest (
        omega (
          arith,
          less,
          set_opposite-count i o.side r.1 ib,
          rest_order-count i (record o { qty = _ }) (set_opposite o.side r.1 ib)
              (subst IsAscending (sym (same-set_opposite o.side r.1 ib)) mine.ascending),
        ))

  pub submit-count :
      (o : Order) (b : OrderBook)
      → IsValid b
      → count i (resting (submit o b).0) ≤ count i (resting b) + has i o
  unfolding submit
  submit-count o b v =
      let ib = book_of (Assoc.lookup o.instrument b.books) in
      elim (Bool-cases (o.qty == 0)) [
        | inl e ↦ rw e (omega arith)
        | inr e ↦ rw e (
            omega (
              arith,
              insert_book-count i o.instrument (submit_to o ib).0 b.books,
              submit_to-count o b.next_id ib
                  (book_of-IsValidIn b.next_id o.instrument b.books _ refl v.books),
            ))
      ]

  drop_order-count : (j : ℕ) (os : List Order) → count i (drop_order j os) ≤ count i os
  drop_order-count j [] = omega arith
  drop_order-count j (o ∷ os) = ground (arith, drop_order-count j os)

  pub cancel-count :
      (j fd seq : ℕ) (b : OrderBook) → count i (resting (cancel j fd seq b).0) ≤ count i (resting b)
  cancel-count j fd seq b = go (owns fd seq (find_order j (resting b))) (cancel_lem j fd seq b).1
    where
      go :
          (mine : Bool)
          → resting (cancel j fd seq b).0 ≡ (if mine then drop_order j (resting b) else resting b)
          → count i (resting (cancel j fd seq b).0) ≤ count i (resting b)
      go true e = omega (arith, ap (count i) e, drop_order-count j (resting b))
      go false e = omega (arith, ap (count i) e)
