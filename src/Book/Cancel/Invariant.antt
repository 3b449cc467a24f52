-- ===== src/Book/Cancel/Invariant.antt =====
-- `cancel` keeps the book well formed.
use the_socket_exchange.Common.{
  ℕ, List, [], ◌∷◌, arith, nat_eq, bytes_eq, Bytes, All, if◌then◌else◌, is_empty,
}
use the_socket_exchange.Assoc.{Assoc}
use the_socket_exchange.Assoc.Laws.{AllEntries}
use the_socket_exchange.PriceMap.Laws.{
  IsAscending, Above, Above-weaken, Above-IsAscending, AllLevels,
}
use the_socket_exchange.Book.{Side, buy, sell, Order, Levels, InstrumentBook, OrderBook}
use the_socket_exchange.Book.Invariant.{IsRestingAt, IsLevel, IsValidSide, IsValidIn, IsValid}
use the_socket_exchange.Book.Cancel.{
  Search, missed, refused, erased, or_else, map_search, cancel_queue, cancel_levels, cancel_sides,
  cancel_books, cancelled, cancel,
}

-- A property of what a search has left, if it erased anything.
abbrev pub Leaves {ℓ κ} : {A : Type ℓ} → (A → Type κ) → Search A → Type κ
Leaves P missed = Unit
Leaves P refused = Unit
Leaves P (erased a) = P a

module _ (i fd seq : ℕ) where
  module _ {κ} (P : Order → Type κ) where
    cancel_queue-All : (q : List Order) → All P q → Leaves (All P) (cancel_queue i fd seq q)
    unfolding cancel_queue
    cancel_queue-All [] h = tt
    cancel_queue-All (o ∷ q) (ho, h) = ground (arith, cancel_queue-All q h)

  cancel_levels-Above :
      (p : ℕ) (l : Levels) → Above p l → Leaves (Above p) (cancel_levels i fd seq l)
  unfolding cancel_levels
  cancel_levels-Above p [] a = tt
  cancel_levels-Above p ((r, q) ∷ l) (lt, a) =
      ground (arith, cancel_levels-Above r l a, Above-weaken {p = p} {r = r} l lt a)

  cancel_levels-IsAscending :
      (l : Levels) → IsAscending l → Leaves IsAscending (cancel_levels i fd seq l)
  unfolding cancel_levels
  cancel_levels-IsAscending [] a = tt
  cancel_levels-IsAscending ((r, q) ∷ l) a =
      ground (arith, cancel_levels-Above r l a, Above-IsAscending r l a)

  module _ (k : Bytes) (s : Side) (n : ℕ) where
    kept-IsLevel :
        (p : ℕ) (q : List Order) (l : Levels)
        → All (IsRestingAt k s n p) q
        → AllLevels (IsLevel k s n) l
        → AllLevels (IsLevel k s n) (if is_empty q then l else (p, q) ∷ l)
    kept-IsLevel p [] l h a = a
    kept-IsLevel p (o ∷ q) l h a = (record { occupied = λ e. cc; orders = h }, a)

    erased_here :
        (p : ℕ) (q : List Order) (l : Levels) (f : Search (List Order)) (g : Search Levels)
        → IsLevel k s n p q
        → AllLevels (IsLevel k s n) l
        → Leaves (All (IsRestingAt k s n p)) f
        → Leaves (AllLevels (IsLevel k s n)) g
        → Leaves (AllLevels (IsLevel k s n)) (
            or_else f
              (λ q'. if is_empty q' then l else (p, q') ∷ l)
              (map_search (λ l'. (p, q) ∷ l') g))
    erased_here p q l missed missed h a x y = tt
    erased_here p q l missed refused h a x y = tt
    erased_here p q l missed (erased l') h a x y = (h, y)
    erased_here p q l refused g h a x y = tt
    erased_here p q l (erased q') g h a x y = kept-IsLevel p q' l x a

    cancel_levels-AllLevels :
        (l : Levels)
        → AllLevels (IsLevel k s n) l
        → Leaves (AllLevels (IsLevel k s n)) (cancel_levels i fd seq l)
    unfolding cancel_levels
    cancel_levels-AllLevels [] a = tt
    cancel_levels-AllLevels ((p, q) ∷ l) (h, a) =
        erased_here p q l (cancel_queue i fd seq q) (cancel_levels i fd seq l) h a
          (cancel_queue-All (IsRestingAt k s n p) q h.orders) (cancel_levels-AllLevels l a)

    valid_levels :
        (f : Search Levels)
        → Leaves IsAscending f
        → Leaves (AllLevels (IsLevel k s n)) f
        → Leaves (IsValidSide k s n) f
    valid_levels missed x y = tt
    valid_levels refused x y = tt
    valid_levels (erased l) x y = record { ascending = x; levels = y }

    cancel_levels-IsValidSide :
        (l : Levels) → IsValidSide k s n l → Leaves (IsValidSide k s n) (cancel_levels i fd seq l)
    cancel_levels-IsValidSide l v =
        valid_levels (cancel_levels i fd seq l) (cancel_levels-IsAscending l v.ascending)
          (cancel_levels-AllLevels l v.levels)

  one_side :
      (n : ℕ) (k : Bytes) (ib : InstrumentBook) (f g : Search Levels)
      → IsValidIn n k ib
      → Leaves (IsValidSide k buy n) f
      → Leaves (IsValidSide k sell n) g
      → Leaves
          (IsValidIn n k)
          (or_else f (λ l. record ib { buys = l }) (map_search (λ l. record ib { sells = l }) g))
  one_side n k ib missed missed v x y = tt
  one_side n k ib missed refused v x y = tt
  one_side n k ib missed (erased l) v x y = record { buys = v.buys; sells = y }
  one_side n k ib refused g v x y = tt
  one_side n k ib (erased l) g v x y = record { buys = x; sells = v.sells }

  cancel_sides-IsValidIn :
      (n : ℕ) (k : Bytes) (ib : InstrumentBook)
      → IsValidIn n k ib
      → Leaves (IsValidIn n k) (cancel_sides i fd seq ib)
  unfolding cancel_sides
  cancel_sides-IsValidIn n k ib v =
      one_side n k ib (cancel_levels i fd seq ib.buys) (cancel_levels i fd seq ib.sells) v
        (cancel_levels-IsValidSide k buy n ib.buys v.buys)
        (cancel_levels-IsValidSide k sell n ib.sells v.sells)

  one_book :
      (n : ℕ) (k : Bytes) (ib : InstrumentBook) (bs : Assoc Bytes InstrumentBook)
      (f : Search InstrumentBook) (g : Search (Assoc Bytes InstrumentBook))
      → IsValidIn n k ib
      → AllEntries (IsValidIn n) bs
      → Leaves (IsValidIn n k) f
      → Leaves (AllEntries (IsValidIn n)) g
      → Leaves
          (AllEntries (IsValidIn n))
          (or_else f (λ x. (k, x) ∷ bs) (map_search (λ l. (k, ib) ∷ l) g))
  one_book n k ib bs missed missed v vs x y = tt
  one_book n k ib bs missed refused v vs x y = tt
  one_book n k ib bs missed (erased l) v vs x y = (v, y)
  one_book n k ib bs refused g v vs x y = tt
  one_book n k ib bs (erased l) g v vs x y = (x, vs)

  cancel_books-AllEntries :
      (n : ℕ) (bs : Assoc Bytes InstrumentBook)
      → AllEntries (IsValidIn n) bs
      → Leaves (AllEntries (IsValidIn n)) (cancel_books i fd seq bs)
  unfolding cancel_books
  cancel_books-AllEntries n [] v = tt
  cancel_books-AllEntries n ((k, ib) ∷ bs) (v, vs) =
      one_book n k ib bs (cancel_sides i fd seq ib) (cancel_books i fd seq bs) v vs
        (cancel_sides-IsValidIn n k ib v) (cancel_books-AllEntries n bs vs)

  cancelled-IsValid :
      (b : OrderBook) (f : Search (Assoc Bytes InstrumentBook))
      → IsValid b
      → Leaves (AllEntries (IsValidIn b.next_id)) f
      → IsValid (cancelled i fd seq b f).0
  cancelled-IsValid b missed v x = v
  cancelled-IsValid b refused v x = v
  cancelled-IsValid b (erased bs) v x = record { books = x }

-- `cancel` keeps the book well formed, whatever the id and the requester.
pub cancel-IsValid : (i fd seq : ℕ) (b : OrderBook) → IsValid b → IsValid (cancel i fd seq b).0
unfolding cancel
cancel-IsValid i fd seq b v =
    cancelled-IsValid i fd seq b (cancel_books i fd seq b.books) v
      (cancel_books-AllEntries i fd seq b.next_id b.books v.books)
