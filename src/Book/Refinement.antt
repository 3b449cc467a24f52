-- ===== src/Book/Refinement.antt =====
-- `submit` against the view of the book as queues: the order book's contract.
use the_socket_exchange.Common.{
  ℕ, ◌-◌, List, [], ◌++◌, ◌≡◌, ◌≢◌, refl, ap, ◌∙◌, sym, arith, map, append-nil, length, take, drop,
  Bool-cases, inl, inr, ◌⊎◌, ◌==◌, nat_eq, bytes_eq, Bytes, nat_beq_iff, bytes_beq_iff,
}
use the_socket_exchange.Assoc
use the_socket_exchange.Assoc.Laws
use the_socket_exchange.Book.Queues.{
  other, queue_in, queue_at, remainder, SubmittedTo, submit_to-SubmittedTo,
}
use the_socket_exchange.Book.{Side, Order, Fill, InstrumentBook, OrderBook, book_of, submit}
use the_socket_exchange.Book.Lots.{lots, fill_lots, trade_lot}

-- The same for the whole book: no other instrument changes.
pub record Submitted (o : Order) (b b' : OrderBook) (fills : List Fill) : Type 0 where
  pub traded :
      fill_lots fills
      ≡ map (trade_lot o) (take o.qty (lots (queue_at b o.instrument (other o.side) o.price)))
  pub opposing :
      lots (queue_at b' o.instrument (other o.side) o.price)
      ≡ drop o.qty (lots (queue_at b o.instrument (other o.side) o.price))
  pub own :
      queue_at b' o.instrument o.side o.price
      ≡ queue_at b o.instrument o.side o.price
        ++ remainder o (o.qty - length (lots (queue_at b o.instrument (other o.side) o.price)))
  pub elsewhere :
      (i : Bytes) (s : Side) (p : ℕ)
      → (i ≢ o.instrument) ⊎ (p ≢ o.price)
      → queue_at b' i s p ≡ queue_at b i s p

Submitted-zero : (o : Order) (b : OrderBook) → o.qty ≡ 0 → Submitted o b b []
Submitted-zero o b z = record {
  traded = rw z refl;
  opposing = rw z refl;
  own =
      sym (append-nil (queue_at b o.instrument o.side o.price))
      ∙ ap (λ q. queue_at b o.instrument o.side o.price ++ remainder o q) left;
  elsewhere = λ i s p h. refl;
}
  where
    left : 0 ≡ o.qty - length (lots (queue_at b o.instrument (other o.side) o.price))
    left = omega arith

book-insert :
    (i j : Bytes) (ib : InstrumentBook) (b : OrderBook) (s : Side) (p : ℕ)
    → (queue_at (record b { books = Assoc.insert i ib b.books }) i s p ≡ queue_in ib s p)
      × (j ≢ i → queue_at (record b { books = Assoc.insert i ib b.books }) j s p ≡ queue_at b j s p)
book-insert i j ib b s p = (
  ap (λ x. queue_in (book_of x) s p) (Assoc.Laws.lookup-insert_self i ib b.books),
  λ h. ap (λ x. queue_in (book_of x) s p) (Assoc.Laws.lookup-insert_ne i j ib b.books h),
)

Submitted-insert :
    (o : Order) (b : OrderBook) (ib : InstrumentBook) (fills : List Fill)
    → SubmittedTo o (book_of (Assoc.lookup o.instrument b.books)) ib fills
    → Submitted o b (record b { books = Assoc.insert o.instrument ib b.books }) fills
Submitted-insert o b ib fills m = record {
  traded = m.traded;
  opposing =
      ap lots (book-insert o.instrument o.instrument ib b (other o.side) o.price).0 ∙ m.opposing;
  own = (book-insert o.instrument o.instrument ib b o.side o.price).0 ∙ m.own;
  elsewhere = λ i s p h. elim (Bool-cases (i == o.instrument)) [
    | inl e ↦
        let same : i ≡ o.instrument = (bytes_beq_iff i o.instrument).0 e in
        let apart : p ≢ o.price = elim h [ inl n ↦ absurd (n same) | inr n ↦ n ] in
        rw same ((book-insert o.instrument o.instrument ib b s p).0 ∙ m.elsewhere s p apart)
    | inr e ↦
        (book-insert o.instrument i ib b s p).1 (λ q. ground (arith, bytes_beq_iff i o.instrument))
  ];
}

-- `submit` in the view of queues and units: the fills trade the oldest units of the opposing queue at
-- the order's price, as many as the order asks for and the queue has, exactly those leave the
-- queue, what the order still lacks joins the end of its own queue, and no other queue changes.
pub submit-Submitted : (o : Order) (b : OrderBook) → Submitted o b (submit o b).0 (submit o b).1
unfolding submit
submit-Submitted o b = elim (Bool-cases (o.qty == 0)) [
  | inl e ↦ rw e (Submitted-zero o b ((nat_beq_iff o.qty 0).0 e))
  | inr e ↦ rw e (
      Submitted-insert o b _ _
        (submit_to-SubmittedTo o (book_of (Assoc.lookup o.instrument b.books))))
]
