-- ===== src/Book/History.antt =====
-- The books that `next_id` with `submit`, and `cancel`, lead to: the two ways in which the server
-- changes its book.
use the_socket_exchange.Common.{
  ℕ, ◌<◌, ◌≤◌, ◌≡◌, refl, arith, inl, Bytes, All-mono, nat_eq, bytes_eq,
}
use the_socket_exchange.Assoc
use the_socket_exchange.Assoc.{Assoc}
use the_socket_exchange.PriceMap
use the_socket_exchange.Book.{
  Side, buy, sell, Order, Levels, InstrumentBook, OrderBook, next_id, submit, init,
}
use the_socket_exchange.Book.Invariant.{
  IsRestingAt, IsLevel, IsValidSide, IsValidIn, IsValid, submit-IsValid,
}
use the_socket_exchange.Book.Invariant.Uncrossed.{IsUncrossed, submit-IsUncrossed}
use the_socket_exchange.Book.Cancel.{cancel}
use the_socket_exchange.Book.Cancel.Invariant.{cancel-IsValid}
use the_socket_exchange.Book.Cancel.Uncrossed.{cancel-IsUncrossed}

pub data Evolves (b : OrderBook) : OrderBook → Type 0 where
  unchanged : Evolves b b
  placed :
      {b' : OrderBook} (o : Order)
      → o.id ≡ (next_id b').1
      → Evolves b b'
      → Evolves b (submit o (next_id b').0).0
  withdrawn : {b' : OrderBook} (i fd seq : ℕ) → Evolves b b' → Evolves b (cancel i fd seq b').0

pub Evolves-trans : {a b c : OrderBook} → Evolves a b → Evolves b c → Evolves a c
Evolves-trans e unchanged = e
Evolves-trans e (placed o h f) = placed o h (Evolves-trans e f)
Evolves-trans e (withdrawn i fd seq f) = withdrawn i fd seq (Evolves-trans e f)

earlier : {a m n : ℕ} → a < m → m ≤ n → a < n
earlier h k = omega arith

-- Later ids do not disturb a resting order.
IsRestingAt-mono :
    (i : Bytes) (s : Side) {m n : ℕ} (p : ℕ) (o : Order)
    → m ≤ n
    → IsRestingAt i s m p o
    → IsRestingAt i s n p o
IsRestingAt-mono i s {m} {n} p o h r = record {
  instrument = r.instrument;
  side = r.side;
  price = r.price;
  positive = r.positive;
  issued = earlier r.issued h;
}

IsValidSide-mono :
    (i : Bytes) (s : Side) {m n : ℕ} (l : Levels)
    → m ≤ n
    → IsValidSide i s m l
    → IsValidSide i s n l
IsValidSide-mono i s l h v = record {
  ascending = v.ascending;
  levels =
      All-mono _ _
        (λ kv (x : IsLevel i s _ kv.0 kv.1). record {
          occupied = x.occupied;
          orders = All-mono _ _ (λ o r. IsRestingAt-mono i s kv.0 o h r) kv.1 x.orders;
        })
        l v.levels;
}

IsValidIn-mono :
    {m n : ℕ} (i : Bytes) (ib : InstrumentBook) → m ≤ n → IsValidIn m i ib → IsValidIn n i ib
IsValidIn-mono i ib h v = record {
  buys = IsValidSide-mono i buy ib.buys h v.buys;
  sells = IsValidSide-mono i sell ib.sells h v.sells;
}

pub next_id-IsValid : (b : OrderBook) → IsValid b → IsValid (next_id b).0
unfolding next_id
next_id-IsValid b v = record {
  books = All-mono _ _ (λ kv x. IsValidIn-mono kv.0 kv.1 (omega arith) x) b.books v.books;
}

-- An order with the id that `next_id` gave has an id that the book has issued.
next_id_issued : (b : OrderBook) (i : ℕ) → i ≡ (next_id b).1 → i < (next_id b).0.next_id
unfolding next_id
next_id_issued b i h = omega arith

next_id-IsUncrossed : (b : OrderBook) → IsUncrossed b → IsUncrossed (next_id b).0
unfolding next_id
next_id-IsUncrossed b u = u

Evolves-keeps :
    {b b' : OrderBook} → Evolves b b' → IsValid b → IsUncrossed b → IsValid b' × IsUncrossed b'
Evolves-keeps unchanged v u = (v, u)
Evolves-keeps (placed {b'} o h e) v u =
    let k = Evolves-keeps e v u in
    (
      submit-IsValid o (next_id b').0 (next_id_issued b' o.id h) (next_id-IsValid b' k.0),
      submit-IsUncrossed o (next_id b').0 (next_id_issued b' o.id h) (next_id-IsValid b' k.0)
          (next_id-IsUncrossed b' k.1),
    )
Evolves-keeps (withdrawn {b'} i fd seq e) v u =
    let k = Evolves-keeps e v u in
    (cancel-IsValid i fd seq b' k.0, cancel-IsUncrossed i fd seq b' k.1)

init-IsValid : IsValid init
init-IsValid = record { books = tt }

init-IsUncrossed : IsUncrossed init
unfolding PriceMap.lookup Assoc.lookup
init-IsUncrossed i buy p = inl refl
init-IsUncrossed i sell p = inl refl

-- Every book that the two operations lead to from the empty one is well formed, and no instrument
-- in it has orders of both sides at one price.
pub Evolves-sound : (b : OrderBook) → Evolves init b → IsValid b × IsUncrossed b
Evolves-sound b e = Evolves-keeps e init-IsValid init-IsUncrossed
