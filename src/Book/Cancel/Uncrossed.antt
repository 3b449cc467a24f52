-- ===== src/Book/Cancel/Uncrossed.antt =====
-- `cancel` brings no orders to a price, and so crosses nothing.
use the_socket_exchange.Common.{
  ℕ, List, [], ◌∷◌, ◌≡◌, refl, arith, inl, inr, ◌==◌, nat_eq, bytes_eq, Bytes, Bool-cases,
  if◌then◌else◌, is_empty,
}
use the_socket_exchange.Assoc
use the_socket_exchange.Assoc.{Assoc}
use the_socket_exchange.PriceMap
use the_socket_exchange.Book.{
  Side, buy, sell, Order, Levels, InstrumentBook, OrderBook, queue_of, book_of, same,
}
use the_socket_exchange.Book.Queues.{queue_at, other}
use the_socket_exchange.Book.Invariant.Uncrossed.{IsUncrossed}
use the_socket_exchange.Book.Cancel.{
  Search, missed, refused, erased, or_else, map_search, cancel_queue, cancel_levels, cancel_sides,
  cancel_books, cancelled, cancel,
}
use the_socket_exchange.Book.Cancel.Invariant.{Leaves}

-- A price that has no orders has none afterwards.
abbrev Shrinks : Levels → Levels → Type 0
Shrinks l l' = (p : ℕ) → queue_of (PriceMap.lookup p l) ≡ [] → queue_of (PriceMap.lookup p l') ≡ []

abbrev ShrinksIn : InstrumentBook → InstrumentBook → Type 0
ShrinksIn ib ib' = (s : Side) → Shrinks (same s ib) (same s ib')

abbrev ShrinksAll : Assoc Bytes InstrumentBook → Assoc Bytes InstrumentBook → Type 0
ShrinksAll bs bs' =
    (k : Bytes) → ShrinksIn (book_of (Assoc.lookup k bs)) (book_of (Assoc.lookup k bs'))

module _ (i fd seq : ℕ) where
  shrink_levels :
      (r : ℕ) (q : List Order) (l : Levels) (f : Search (List Order)) (g : Search Levels)
      → cancel_queue i fd seq q ≡ f
      → Leaves (Shrinks l) g
      → Leaves (Shrinks ((r, q) ∷ l)) (
          or_else f
            (λ q'. if is_empty q' then l else (r, q') ∷ l)
            (map_search (λ l'. (r, q) ∷ l') g))
  unfolding cancel_queue PriceMap.lookup
  shrink_levels r q l missed missed e y = tt
  shrink_levels r q l missed refused e y = tt
  shrink_levels r q l missed (erased l') e y = λ p h. ground (arith, y p)
  shrink_levels r q l refused g e y = tt
  shrink_levels r [] l (erased q') g e y = cc
  shrink_levels r (o ∷ q) l (erased []) g e y = λ p h. ground arith
  shrink_levels r (o ∷ q) l (erased (o' ∷ q')) g e y = λ p h. ground arith

  cancel_levels-Shrinks : (l : Levels) → Leaves (Shrinks l) (cancel_levels i fd seq l)
  unfolding cancel_levels
  cancel_levels-Shrinks [] = tt
  cancel_levels-Shrinks ((r, q) ∷ l) =
      shrink_levels r q l (cancel_queue i fd seq q) (cancel_levels i fd seq l) refl
        (cancel_levels-Shrinks l)

  buy_side :
      (ib : InstrumentBook) (l : Levels) → Shrinks ib.buys l → ShrinksIn ib (record ib { buys = l })
  buy_side ib l x buy p h = x p h
  buy_side ib l x sell p h = h

  sell_side :
      (ib : InstrumentBook) (l : Levels)
      → Shrinks ib.sells l
      → ShrinksIn ib (record ib { sells = l })
  sell_side ib l y buy p h = h
  sell_side ib l y sell p h = y p h

  shrink_side :
      (ib : InstrumentBook) (f g : Search Levels)
      → Leaves (Shrinks ib.buys) f
      → Leaves (Shrinks ib.sells) g
      → Leaves
          (ShrinksIn ib)
          (or_else f (λ l. record ib { buys = l }) (map_search (λ l. record ib { sells = l }) g))
  shrink_side ib missed missed x y = tt
  shrink_side ib missed refused x y = tt
  shrink_side ib missed (erased l) x y = sell_side ib l y
  shrink_side ib refused g x y = tt
  shrink_side ib (erased l) g x y = buy_side ib l x

  cancel_sides-Shrinks : (ib : InstrumentBook) → Leaves (ShrinksIn ib) (cancel_sides i fd seq ib)
  unfolding cancel_sides
  cancel_sides-Shrinks ib =
      shrink_side ib (cancel_levels i fd seq ib.buys) (cancel_levels i fd seq ib.sells)
        (cancel_levels-Shrinks ib.buys) (cancel_levels-Shrinks ib.sells)

  replaced :
      (j : Bytes) (ib ib' : InstrumentBook) (bs bs' : Assoc Bytes InstrumentBook)
      → ShrinksIn ib ib'
      → ShrinksAll bs bs'
      → ShrinksAll ((j, ib) ∷ bs) ((j, ib') ∷ bs')
  unfolding Assoc.lookup
  replaced j ib ib' bs bs' x y k = elim (Bool-cases (j == k)) [
    | inl e ↦ rw e x
    | inr e ↦ rw e (y k)
  ]

  shrink_book :
      (j : Bytes) (ib : InstrumentBook) (bs : Assoc Bytes InstrumentBook)
      (f : Search InstrumentBook) (g : Search (Assoc Bytes InstrumentBook))
      → Leaves (ShrinksIn ib) f
      → Leaves (ShrinksAll bs) g
      → Leaves
          (ShrinksAll ((j, ib) ∷ bs))
          (or_else f (λ x. (j, x) ∷ bs) (map_search (λ l. (j, ib) ∷ l) g))
  shrink_book j ib bs missed missed x y = tt
  shrink_book j ib bs missed refused x y = tt
  shrink_book j ib bs missed (erased l) x y = replaced j ib ib bs l (λ s p h. h) y
  shrink_book j ib bs refused g x y = tt
  shrink_book j ib bs (erased ib') g x y = replaced j ib ib' bs bs x (λ k s p h. h)

  cancel_books-Shrinks :
      (bs : Assoc Bytes InstrumentBook) → Leaves (ShrinksAll bs) (cancel_books i fd seq bs)
  unfolding cancel_books
  cancel_books-Shrinks [] = tt
  cancel_books-Shrinks ((j, ib) ∷ bs) =
      shrink_book j ib bs (cancel_sides i fd seq ib) (cancel_books i fd seq bs)
        (cancel_sides-Shrinks ib) (cancel_books-Shrinks bs)

  shrink_cancelled :
      (b : OrderBook) (f : Search (Assoc Bytes InstrumentBook))
      → Leaves (ShrinksAll b.books) f
      → (k : Bytes) (s : Side) (p : ℕ) → queue_at b k s p ≡ []
      → queue_at (cancelled i fd seq b f).0 k s p ≡ []
  shrink_cancelled b missed x k s p h = h
  shrink_cancelled b refused x k s p h = h
  shrink_cancelled b (erased bs) x k s p h = x k s p h

  -- A price without orders of a side has none after `cancel`.
  cancel-queue_at :
      (b : OrderBook) (k : Bytes) (s : Side) (p : ℕ)
      → queue_at b k s p ≡ []
      → queue_at (cancel i fd seq b).0 k s p ≡ []
  unfolding cancel
  cancel-queue_at b =
      shrink_cancelled b (cancel_books i fd seq b.books) (cancel_books-Shrinks b.books)

  -- `cancel` keeps the two sides of an instrument at different prices.
  pub cancel-IsUncrossed : (b : OrderBook) → IsUncrossed b → IsUncrossed (cancel i fd seq b).0
  cancel-IsUncrossed b u k s p = elim (u k s p) [
    | inl h ↦ inl (cancel-queue_at b k s p h)
    | inr h ↦ inr (cancel-queue_at b k (other s) p h)
  ]
