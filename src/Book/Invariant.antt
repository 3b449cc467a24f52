-- ===== src/Book/Invariant.antt =====
-- What holds of the resting orders between two calls: each stands in the queue of its instrument,
-- side and price, with something left to trade, and no level is empty.
pub mod Uncrossed
use the_socket_exchange.Common.{
  ℕ, zero, suc, ◌+◌, ◌-◌, ◌≤◌, ◌<◌, min, List, [], ◌∷◌, ◌++◌, ◌≡◌, ◌≢◌, refl, ◌∙◌, arith, Option,
  none, some, if◌then◌else◌, ltb, Bool-cases, inl, inr, ◌==◌, nat_eq, bytes_eq, Bytes, All,
  All-append, length, nat_beq,
}
use the_socket_exchange.Assoc
use the_socket_exchange.Assoc.Laws.{AllEntries, AllEntries-insert, AllEntries-lookup}
use the_socket_exchange.PriceMap
use the_socket_exchange.PriceMap.Laws.{
  IsAscending, insert-IsAscending, erase-IsAscending, AllLevels, AllLevels-insert, AllLevels-erase,
  AllLevels-lookup,
}
use the_socket_exchange.Book.{
  Side, buy, sell, Order, Fill, Levels, InstrumentBook, OrderBook, same, opposite, set_same,
  set_opposite, book_of, queue_of, store_level, match_front, match_level, match_loop, rest_order,
  submit_to, submit, next_id,
}
use the_socket_exchange.Book.Queues.{other, match_level-LevelMatched}
use mathlib.Core.List.{concat-ne-nil}

-- An order that may rest at an instrument, a side and a price, with an id below `n`.
pub record IsRestingAt (i : Bytes) (s : Side) (n : ℕ) (p : ℕ) (o : Order) : Type 0 where
  pub instrument : o.instrument ≡ i
  pub side : o.side ≡ s
  pub price : o.price ≡ p
  pub positive : 0 < o.qty
  pub issued : o.id < n

pub record IsLevel (i : Bytes) (s : Side) (n : ℕ) (p : ℕ) (queue : List Order) : Type 0 where
  pub occupied : queue ≢ []
  pub orders : All (IsRestingAt i s n p) queue

pub record IsValidSide (i : Bytes) (s : Side) (n : ℕ) (l : Levels) : Type 0 where
  pub ascending : IsAscending l
  pub levels : AllLevels (IsLevel i s n) l

pub record IsValidIn (n : ℕ) (i : Bytes) (ib : InstrumentBook) : Type 0 where
  pub buys : IsValidSide i buy n ib.buys
  pub sells : IsValidSide i sell n ib.sells

pub record IsValid (b : OrderBook) : Type 0 where
  pub books : AllEntries (IsValidIn b.next_id) b.books

module _ (i : Bytes) (s : Side) (n : ℕ) where
  partly_filled :
      {p : ℕ} {o : Order} (q : ℕ)
      → IsRestingAt i s n p o
      → 0 < q
      → IsRestingAt i s n p (record o { qty = q })
  partly_filled q r h = record {
    instrument = r.instrument;
    side = r.side;
    price = r.price;
    positive = h;
    issued = r.issued;
  }

  match_front-All :
      (p : ℕ) (o r : Order) (rest : List Order) (fills : List Fill)
      → All (IsRestingAt i s n p) (r ∷ rest)
      → All (IsRestingAt i s n p) (match_front o r rest fills).queue
  unfolding match_front
  match_front-All p o r rest fills (hr, h) =
      elim (Bool-cases (nat_beq (r.qty - min o.qty r.qty) 0)) [
        | inl e ↦ rw e h
        | inr e ↦ rw e (partly_filled (r.qty - min o.qty r.qty) hr (ground arith), h)
      ]

  match_loop-All :
      (fuel p : ℕ) (o : Order) (queue : List Order) (fills : List Fill)
      → All (IsRestingAt i s n p) queue
      → All (IsRestingAt i s n p) (match_loop fuel o queue fills).queue
  unfolding match_loop
  match_loop-All zero p o queue fills h = h
  match_loop-All (suc fuel) p o [] fills h = tt
  match_loop-All (suc fuel) p o (r ∷ rest) fills h = elim (Bool-cases (ltb 0 o.qty)) [
    | inl e ↦
        let m = match_front o r rest fills in
        rw e (match_loop-All fuel p m.o m.queue m.fills (match_front-All p o r rest fills h))
    | inr e ↦ rw e h
  ]

  store_level-IsValidSide :
      (p : ℕ) (queue : List Order) (l : Levels)
      → All (IsRestingAt i s n p) queue
      → IsValidSide i s n l
      → IsValidSide i s n (store_level queue p l)
  unfolding store_level
  store_level-IsValidSide p [] l h v = record {
    ascending = erase-IsAscending p l v.ascending;
    levels = AllLevels-erase (IsLevel i s n) p l v.levels;
  }
  store_level-IsValidSide p (o ∷ queue) l h v = record {
    ascending = insert-IsAscending p (o ∷ queue) l v.ascending;
    levels =
        AllLevels-insert (IsLevel i s n) p (o ∷ queue) l (record { occupied = λ e. cc; orders = h })
          v.levels;
  }

  pub queue_of-All :
      (p : ℕ) (l : Levels) (found : Option (List Order))
      → PriceMap.lookup p l ≡ found
      → IsValidSide i s n l
      → All (IsRestingAt i s n p) (queue_of found)
  queue_of-All p l none e v = tt
  queue_of-All p l (some queue) e v = (AllLevels-lookup (IsLevel i s n) p l queue v.levels e).orders

  match_level-IsValidSide :
      (o : Order) (l : Levels) (found : Option (List Order))
      → PriceMap.lookup o.price l ≡ found
      → IsValidSide i s n l
      → IsValidSide i s n (match_level o l found).1
  unfolding match_level
  match_level-IsValidSide o l none e v = v
  match_level-IsValidSide o l (some queue) e v =
      store_level-IsValidSide o.price _ l
        (match_loop-All (suc (length queue)) o.price o queue []
          (queue_of-All o.price l (some queue) e v))
        v

push_back-IsValidSide :
    (i : Bytes) (s : Side) (n : ℕ) (o : Order) (l : Levels)
    → IsRestingAt i s n o.price o
    → IsValidSide i s n l
    → IsValidSide i s n (PriceMap.insert o.price (queue_of (PriceMap.lookup o.price l) ++ o ∷ []) l)
push_back-IsValidSide i s n o l r v = record {
  ascending = insert-IsAscending o.price _ l v.ascending;
  levels =
      AllLevels-insert (IsLevel i s n) o.price _ l
        (record {
          occupied = concat-ne-nil o (queue_of (PriceMap.lookup o.price l));
          orders =
              All-append (IsRestingAt i s n o.price) _ (o ∷ [])
                (queue_of-All i s n o.price l _ refl v) (r, tt);
        })
        v.levels;
}

-- The two sides of an instrument's book.
pub IsValidIn-same :
    (n : ℕ) (i : Bytes) (s : Side) (ib : InstrumentBook)
    → IsValidIn n i ib
    → IsValidSide i s n (same s ib) × IsValidSide i (other s) n (opposite s ib)
IsValidIn-same n i buy ib v = (v.buys, v.sells)
IsValidIn-same n i sell ib v = (v.sells, v.buys)

set_same-IsValidIn :
    (n : ℕ) (i : Bytes) (s : Side) (l : Levels) (ib : InstrumentBook)
    → IsValidSide i s n l
    → IsValidIn n i ib
    → IsValidIn n i (set_same s l ib)
set_same-IsValidIn n i buy l ib h v = record { buys = h; sells = v.sells }
set_same-IsValidIn n i sell l ib h v = record { buys = v.buys; sells = h }

set_opposite-IsValidIn :
    (n : ℕ) (i : Bytes) (s : Side) (l : Levels) (ib : InstrumentBook)
    → IsValidSide i (other s) n l
    → IsValidIn n i ib
    → IsValidIn n i (set_opposite s l ib)
set_opposite-IsValidIn n i buy l ib h v = record { buys = v.buys; sells = h }
set_opposite-IsValidIn n i sell l ib h v = record { buys = h; sells = v.sells }

rest_order-IsValidIn :
    (o : Order) (n : ℕ) (ib : InstrumentBook)
    → o.id < n
    → IsValidIn n o.instrument ib
    → IsValidIn n o.instrument (rest_order o ib)
unfolding rest_order
rest_order-IsValidIn o n ib h v = elim (Bool-cases (ltb 0 o.qty)) [
  | inl t ↦
      let r : IsRestingAt o.instrument o.side n o.price o = record {
        instrument = refl;
        side = refl;
        price = refl;
        positive = ground arith;
        issued = h;
      } in
      rw t (
        set_same-IsValidIn n o.instrument o.side _ ib
          (push_back-IsValidSide o.instrument o.side n o (same o.side ib) r
            (IsValidIn-same n o.instrument o.side ib v).0)
          v)
  | inr t ↦ rw t v
]

submit_to-IsValidIn :
    (o : Order) (n : ℕ) (ib : InstrumentBook)
    → o.id < n
    → IsValidIn n o.instrument ib
    → IsValidIn n o.instrument (submit_to o ib).0
unfolding submit_to
submit_to-IsValidIn o n ib h v = rw (match_level-LevelMatched o (opposite o.side ib) _ refl).rest (
    rest_order-IsValidIn (record o { qty = _ }) n _ h
      (set_opposite-IsValidIn n o.instrument o.side _ ib
        (match_level-IsValidSide o.instrument (other o.side) n o (opposite o.side ib) _ refl
          (IsValidIn-same n o.instrument o.side ib v).1)
        v))

pub book_of-IsValidIn :
    (n : ℕ) (i : Bytes) (books : Assoc.Assoc Bytes InstrumentBook) (found : Option InstrumentBook)
    → Assoc.lookup i books ≡ found
    → AllEntries (IsValidIn n) books
    → IsValidIn n i (book_of found)
book_of-IsValidIn n i books none e v = record {
  buys = record { ascending = tt; levels = tt };
  sells = record { ascending = tt; levels = tt };
}
book_of-IsValidIn n i books (some ib) e v = AllEntries-lookup (IsValidIn n) i books v e

-- `submit` keeps the book well formed, for an order whose id the book has issued.
pub submit-IsValid :
    (o : Order) (b : OrderBook) → o.id < b.next_id → IsValid b → IsValid (submit o b).0
unfolding submit
submit-IsValid o b h v = elim (Bool-cases (o.qty == 0)) [
  | inl e ↦ rw e v
  | inr e ↦ rw e (record {
    books =
        AllEntries-insert (IsValidIn b.next_id) o.instrument _ b.books
          (submit_to-IsValidIn o b.next_id _ h
            (book_of-IsValidIn b.next_id o.instrument b.books _ refl v.books))
          v.books;
  })
]
