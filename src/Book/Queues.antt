-- ===== src/Book/Queues.antt =====
-- The book as the queues that it holds, one for each instrument, side and price, and `submit`
-- against that view.
use the_socket_exchange.Common.{
  ℕ, suc, ◌-◌, List, [], ◌∷◌, ◌++◌, ◌≡◌, ◌≢◌, refl, ap, ◌∙◌, sym, arith, map, append-nil, length,
  take, drop, take-nil, drop-nil, Option, none, some, if◌then◌else◌, ltb, Bool-cases, inl, inr, ◌⊎◌,
  nat_eq, bytes_eq, Bytes, subst,
}
use the_socket_exchange.Assoc
use the_socket_exchange.PriceMap
use the_socket_exchange.PriceMap.Laws.{lookup-insert, lookup-erase}
use the_socket_exchange.Book.{
  Side, buy, sell, Order, Fill, Levels, InstrumentBook, OrderBook, same, opposite, set_same,
  set_opposite, book_of, queue_of, store_level, match_level, match_loop, rest_order, submit_to,
}
use the_socket_exchange.Book.Lots.{lots, fill_lots, trade_lot}
use the_socket_exchange.Book.Matching.{match_loop-Consumes}

abbrev pub other : Side → Side
other buy = sell
other sell = buy

abbrev pub queue_in : InstrumentBook → Side → ℕ → List Order
queue_in ib s p = queue_of (PriceMap.lookup p (same s ib))

-- The queue of resting orders at an instrument, a side and a price, oldest first.
abbrev pub queue_at : OrderBook → Bytes → Side → ℕ → List Order
queue_at b i s p = queue_in (book_of (Assoc.lookup i b.books)) s p

-- An emptied level is gone from the map, and reads as empty.
pub store_level_self :
    (q : List Order) (p : ℕ) (l : Levels) → queue_of (PriceMap.lookup p (store_level q p l)) ≡ q
unfolding store_level
store_level_self [] p l = ground (arith, lookup-erase p p l)
store_level_self (o ∷ q) p l = ground (arith, lookup-insert p p (o ∷ q) l)

pub store_level_ne :
    (q : List Order) (p r : ℕ) (l : Levels)
    → r ≢ p
    → PriceMap.lookup r (store_level q p l) ≡ PriceMap.lookup r l
unfolding store_level
store_level_ne [] p r l h = ground (arith, lookup-erase p r l)
store_level_ne (o ∷ q) p r l h = ground (arith, lookup-insert p r (o ∷ q) l)

-- What `submit` does to the levels of the other side, where `queue` stands at the order's price.
pub record LevelMatched (o : Order) (l : Levels) (queue : List Order)
    (r : Order × Levels × List Fill) : Type 0 where
  pub left : lots (queue_of (PriceMap.lookup o.price r.1)) ≡ drop o.qty (lots queue)
  pub traded : fill_lots r.2 ≡ map (trade_lot o) (take o.qty (lots queue))
  pub rest : r.0 ≡ record o { qty = o.qty - length (lots queue) }
  pub elsewhere : (p : ℕ) → p ≢ o.price → PriceMap.lookup p r.1 ≡ PriceMap.lookup p l

pub match_level-LevelMatched :
    (o : Order) (l : Levels) (found : Option (List Order))
    → PriceMap.lookup o.price l ≡ found
    → LevelMatched o l (queue_of found) (match_level o l found)
unfolding match_level
match_level-LevelMatched o l none e = record {
  left = rw (e, drop-nil o.qty);
  traded = rw (take-nil o.qty);
  rest = ap (λ q. record o { qty = q }) (omega arith);
  elsewhere = λ p h. refl;
}
match_level-LevelMatched o l (some queue) e =
    let m = match_loop (suc (length queue)) o queue [] in
    let c = match_loop-Consumes (suc (length queue)) o queue [] (omega arith) in
    record {
      left = ap lots (store_level_self m.queue o.price l) ∙ c.left;
      traded = c.traded;
      rest = c.rest;
      elsewhere = λ p h. store_level_ne m.queue o.price p l h;
    }

-- The order that `submit` lets rest, if anything is left of it.
abbrev pub remainder : Order → ℕ → List Order
remainder o left = if ltb 0 left then record o { qty = left } ∷ [] else []

record RestsOn (o : Order) (ib ib' : InstrumentBook) : Type 0 where
  own : queue_in ib' o.side o.price ≡ queue_in ib o.side o.price ++ remainder o o.qty
  others : (s : Side) (p : ℕ) → (s ≢ o.side) ⊎ (p ≢ o.price) → queue_in ib' s p ≡ queue_in ib s p

-- A queue after one level was written.
queue_in-set_same :
    (s t : Side) (p r : ℕ) (q : List Order) (ib : InstrumentBook)
    → (t ≢ s) ⊎ (r ≢ p)
    → queue_in (set_same s (PriceMap.insert p q (same s ib)) ib) t r ≡ queue_in ib t r
queue_in-set_same buy buy p r q ib h = ground (arith, lookup-insert p r q ib.buys)
queue_in-set_same buy sell p r q ib h = refl
queue_in-set_same sell buy p r q ib h = refl
queue_in-set_same sell sell p r q ib h = ground (arith, lookup-insert p r q ib.sells)

queue_in-set_same_self :
    (s : Side) (p : ℕ) (q : List Order) (ib : InstrumentBook)
    → queue_in (set_same s (PriceMap.insert p q (same s ib)) ib) s p ≡ q
queue_in-set_same_self buy p q ib = ground (arith, lookup-insert p p q ib.buys)
queue_in-set_same_self sell p q ib = ground (arith, lookup-insert p p q ib.sells)

rest_order-RestsOn : (o : Order) (ib : InstrumentBook) → RestsOn o ib (rest_order o ib)
unfolding rest_order
rest_order-RestsOn o ib = elim (Bool-cases (ltb 0 o.qty)) [
  | inl e ↦ record {
    own = rw e (queue_in-set_same_self o.side o.price _ ib);
    others = λ s p h. rw e (queue_in-set_same o.side s o.price p _ ib h);
  }
  | inr e ↦ record {
    own = rw e (sym (append-nil (queue_in ib o.side o.price)));
    others = λ s p h. rw e refl;
  }
]

queue_in-set_opposite :
    (s : Side) (p : ℕ) (l : Levels) (ib : InstrumentBook)
    → (queue_in (set_opposite s l ib) s p ≡ queue_in ib s p)
      × (queue_in (set_opposite s l ib) (other s) p ≡ queue_of (PriceMap.lookup p l))
queue_in-set_opposite buy p l ib = (refl, refl)
queue_in-set_opposite sell p l ib = (refl, refl)

pub opposite-other : (s : Side) (ib : InstrumentBook) → opposite s ib ≡ same (other s) ib
opposite-other buy ib = refl
opposite-other sell ib = refl

other-ne : (s : Side) → other s ≢ s
other-ne buy = λ e. cc
other-ne sell = λ e. cc

pub Side-cases : (s t : Side) → (t ≡ s) ⊎ (t ≡ other s)
Side-cases buy buy = inl refl
Side-cases buy sell = inr refl
Side-cases sell buy = inr refl
Side-cases sell sell = inl refl

-- What `submit` does to the queues of the order's instrument: the opposite queue at the price
-- gives up its oldest units, one trade each, and what is left of the order joins its own queue.
pub record SubmittedTo (o : Order) (ib ib' : InstrumentBook) (fills : List Fill) : Type 0 where
  pub traded :
      fill_lots fills ≡ map (trade_lot o) (take o.qty (lots (queue_in ib (other o.side) o.price)))
  pub opposing :
      lots (queue_in ib' (other o.side) o.price)
      ≡ drop o.qty (lots (queue_in ib (other o.side) o.price))
  pub own :
      queue_in ib' o.side o.price
      ≡ queue_in ib o.side o.price
        ++ remainder o (o.qty - length (lots (queue_in ib (other o.side) o.price)))
  pub elsewhere : (s : Side) (p : ℕ) → p ≢ o.price → queue_in ib' s p ≡ queue_in ib s p

rest_order-SubmittedTo :
    (o o' : Order) (ib : InstrumentBook) (l : Levels) (fills : List Fill)
    → LevelMatched o (opposite o.side ib) (queue_in ib (other o.side) o.price) (o', l, fills)
    → SubmittedTo o ib (rest_order o' (set_opposite o.side l ib)) fills
rest_order-SubmittedTo o o' ib l fills m = rw m.rest (record {
  traded = m.traded;
  opposing =
      ap lots (
        k.others (other o.side) o.price (inl (other-ne o.side))
        ∙ (queue_in-set_opposite o.side o.price l ib).1)
      ∙ m.left;
  own = k.own ∙ ap (λ q. q ++ remainder o left) (queue_in-set_opposite o.side o.price l ib).0;
  elsewhere = λ s p h. k.others s p (inr h) ∙ untouched s p h (Side-cases o.side s);
})
  where
    left : ℕ
    left = o.qty - length (lots (queue_in ib (other o.side) o.price))

    k :
        RestsOn
          (record o { qty = left })
          (set_opposite o.side l ib)
          (rest_order (record o { qty = left }) (set_opposite o.side l ib))
    k = rest_order-RestsOn (record o { qty = left }) (set_opposite o.side l ib)

    untouched :
        (s : Side) (p : ℕ)
        → p ≢ o.price
        → (s ≡ o.side) ⊎ (s ≡ other o.side)
        → queue_in (set_opposite o.side l ib) s p ≡ queue_in ib s p
    untouched s p h (inl e) = rw e (queue_in-set_opposite o.side p l ib).0
    untouched s p h (inr e) = rw e (
        (queue_in-set_opposite o.side p l ib).1
        ∙ ap queue_of (m.elsewhere p h ∙ ap (PriceMap.lookup p) (opposite-other o.side ib)))

pub submit_to-SubmittedTo :
    (o : Order) (ib : InstrumentBook) → SubmittedTo o ib (submit_to o ib).0 (submit_to o ib).1
unfolding submit_to
submit_to-SubmittedTo o ib = rest_order-SubmittedTo o _ ib _ _ (
    subst
      (λ l.
        LevelMatched o (opposite o.side ib) (queue_of (PriceMap.lookup o.price l))
          (match_level o (opposite o.side ib) (PriceMap.lookup o.price (opposite o.side ib))))
      (opposite-other o.side ib) (match_level-LevelMatched o (opposite o.side ib) _ refl))
