-- ===== src/Scratch/Matching.antt =====
-- t5.cpp: the order book. Each block starts with a new book. An order without a session number has
-- the default 0. The order with the quantity -5 of the ninth block is left out, since quantities
-- are natural numbers here.
use the_socket_exchange.Common.{
  ℕ, zero, suc, none, some, List, [], ◌∷◌, ◌++◌, Bool, false, not, ◌&&◌, ◌||◌, ltb, ◌==◌, nat_eq,
  bytes_eq, Bytes, is_empty, length, get_elem?, codes,
}
use the_socket_exchange.Book.{Side, buy, sell, Fill, OrderBook, init, next_id, submit}
use the_socket_exchange.Book.Cancel.{cancel, remove_orders_of}
use the_socket_exchange.Scratch.{all}

abbrev jnst : Bytes
jnst = codes "JNST"

abbrev imct : Bytes
imct = codes "IMCT"

-- `b.submit({id, side, instrument, qty, price, fd, seq})`
abbrev order : ℕ → Side → Bytes → ℕ → ℕ → ℕ → ℕ → OrderBook → OrderBook × List Fill
order id side instrument qty price fd seq b =
    submit
      (record {
        id = id;
        side = side;
        instrument = instrument;
        qty = qty;
        price = price;
        owner_fd = fd;
        owner_seq = seq;
      })
      b

-- `b.submit({b.next_id(), ...})`
abbrev place : Side → Bytes → ℕ → ℕ → ℕ → ℕ → OrderBook → OrderBook × List Fill
place side instrument qty price fd seq b =
    let (b', id) = next_id b in order id side instrument qty price fd seq b'

-- `f[i].member == n`
abbrev fill_is : List Fill → ℕ → (Fill → ℕ) → ℕ → Bool
fill_is fills i member n = elim (get_elem? fills i) [ none ↦ false | some f ↦ member f == n ]

abbrev id_is : List ℕ → ℕ → ℕ → Bool
id_is ids i n = elim (get_elem? ids i) [ none ↦ false | some id ↦ id == n ]

unfoldable pub handout_example : Bool
unfolding next_id submit
handout_example =
    let (b1, f1) = place buy jnst 100 238 7 0 init in
    let (b2, f2) = place sell jnst 60 238 8 0 b1 in
    let (b3, f3) = place sell jnst 40 238 9 0 b2 in
    let (b4, f4) = place sell jnst 10 999 9 0 b3 in
    all (
      is_empty f1
      ∷ ((length f2 == 1) && (fill_is f2 0 (λ f. f.qty) 60 && fill_is f2 0 (λ f. f.price) 238))
      ∷ (fill_is f2 0 (λ f. f.buyer_fd) 7 && fill_is f2 0 (λ f. f.sell_fd) 8)
      ∷ elim (get_elem? f2 0) [ none ↦ false | some f ↦ f.instrument == jnst ]
      ∷ ((length f3 == 1)
          && (fill_is f3 0 (λ f. f.qty) 40
              && (fill_is f3 0 (λ f. f.buyer_fd) 7 && fill_is f3 0 (λ f. f.sell_fd) 9)))
      ∷ is_empty f4
      ∷ [])

unfoldable pub exact_match : Bool
unfolding next_id submit
exact_match =
    let (b1, f1) = place buy jnst 100 238 7 0 init in
    let (b2, f2) = place sell imct 100 238 8 0 b1 in
    let (b3, f3) = place buy jnst 100 238 8 0 b2 in
    let (b4, f4) = place sell jnst 100 237 8 0 b3 in
    let (b5, f5) = place sell jnst 100 239 8 0 b4 in
    let (b6, f6) = place sell jnst 100 238 9 0 b5 in
    all (
      is_empty f2
      ∷ is_empty f3
      ∷ is_empty f4
      ∷ is_empty f5
      ∷ ((length f6 == 1) && (fill_is f6 0 (λ f. f.qty) 100 && fill_is f6 0 (λ f. f.buyer_fd) 7))
      ∷ [])

unfoldable pub time_priority : Bool
unfolding next_id submit
time_priority =
    let (b1, f1) = place buy jnst 100 238 7 0 init in
    let (b2, f2) = place buy jnst 50 238 8 0 b1 in
    let (b3, f) = place sell jnst 150 238 9 0 b2 in
    let (b4, f4) = place sell jnst 1 238 9 0 b3 in
    all (
      (length f == 2)
      ∷ (fill_is f 0 (λ x. x.qty) 100 && fill_is f 0 (λ x. x.buyer_fd) 7)
      ∷ (fill_is f 1 (λ x. x.qty) 50 && fill_is f 1 (λ x. x.buyer_fd) 8)
      ∷ (fill_is f 0 (λ x. x.sell_fd) 9 && fill_is f 1 (λ x. x.sell_fd) 9)
      ∷ is_empty f4
      ∷ [])

unfoldable pub remainder_rests : Bool
unfolding next_id submit
remainder_rests =
    let (b1, f1) = place sell jnst 30 238 8 0 init in
    let (b2, f) = place buy jnst 100 238 7 0 b1 in
    let (b3, g) = place sell jnst 70 238 9 0 b2 in
    all (
      ((length f == 1) && fill_is f 0 (λ x. x.qty) 30)
      ∷ ((length g == 1) && (fill_is g 0 (λ x. x.qty) 70 && fill_is g 0 (λ x. x.buyer_fd) 7))
      ∷ [])

unfoldable pub cancels : Bool
unfolding next_id submit cancel
cancels =
    let (b0, id) = next_id init in
    let (b1, f1) = order id buy jnst 100 238 7 1 b0 in
    let (b2, c1) = cancel id 8 1 b1 in
    let (b3, c2) = cancel 999 7 1 b2 in
    let (b4, c3) = cancel id 7 1 b3 in
    let (b5, c4) = cancel id 7 1 b4 in
    let (b6, f) = place sell jnst 100 238 9 0 b5 in
    all (not c1 ∷ not c2 ∷ c3 ∷ not c4 ∷ is_empty f ∷ [])

unfoldable pub filled_is_gone : Bool
unfolding next_id submit cancel
filled_is_gone =
    let (b0, id) = next_id init in
    let (b1, f1) = order id buy jnst 60 238 7 1 b0 in
    let (b2, f2) = place sell jnst 60 238 8 2 b1 in all (not (cancel id 7 1 b2).1 ∷ [])

unfoldable pub partial_cancel : Bool
unfolding next_id submit cancel
partial_cancel =
    let (b0, id) = next_id init in
    let (b1, f1) = order id buy jnst 100 238 7 1 b0 in
    let (b2, f2) = place sell jnst 60 238 8 2 b1 in
    let (b3, c) = cancel id 7 1 b2 in
    let (b4, f) = place sell jnst 40 238 9 0 b3 in all (c ∷ is_empty f ∷ [])

unfoldable pub removal : Bool
unfolding next_id submit remove_orders_of
removal =
    let (b0, a1) = next_id init in
    let (b1, f1) = order a1 buy jnst 10 238 7 0 b0 in
    let (b2, a2) = next_id b1 in
    let (b3, f3) = order a2 sell imct 20 500 7 0 b2 in
    let (b4, c1) = next_id b3 in
    let (b5, f5) = order c1 buy jnst 30 238 8 0 b4 in
    let (b6, gone) = remove_orders_of 7 b5 in
    let (b7, again) = remove_orders_of 7 b6 in
    let (b8, f) = place sell jnst 30 238 9 0 b7 in
    all (
      (length gone == 2)
      ∷ ((id_is gone 0 a1 || id_is gone 0 a2)
          && ((id_is gone 1 a1 || id_is gone 1 a2)
              && not (elim (get_elem? gone 0) [ none ↦ false | some i ↦ id_is gone 1 i ])))
      ∷ is_empty again
      ∷ ((length f == 1) && fill_is f 0 (λ x. x.buyer_fd) 8)
      ∷ [])

-- `for (int i = 0; i < 100; ++i)`, with the rounds that are left.
unfoldable pub rising_ids : ℕ → ℕ → OrderBook → List Bool × OrderBook
unfolding next_id
rising_ids zero p b = ([], b)
rising_ids (suc left) p b =
    let (b', n) = next_id b in let (checks, last) = rising_ids left n b' in (ltb p n ∷ checks, last)

unfoldable pub ids_and_quantities : Bool
unfolding next_id submit rising_ids
ids_and_quantities =
    let (b0, p) = next_id init in
    let (checks, b1) = rising_ids 100 p b0 in
    let (b2, f2) = place buy jnst 0 238 7 0 b1 in
    let (b3, f3) = place sell jnst 1 238 8 0 b2 in all (checks ++ is_empty f2 ∷ is_empty f3 ∷ [])

unfoldable pub other_session : Bool
unfolding next_id submit cancel
other_session =
    let (b0, id) = next_id init in
    let (b1, f1) = order id buy jnst 100 238 7 1 b0 in
    let (b2, c1) = cancel id 7 2 b1 in
    let (b3, c2) = cancel id 7 0 b2 in
    let (b4, c3) = cancel id 7 1 b3 in
    let (b5, id2) = next_id b4 in
    let (b6, f6) = order id2 buy jnst 10 238 7 1 b5 in
    let (b7, f) = place sell jnst 10 238 9 4 b6 in
    all (
      not c1
      ∷ not c2
      ∷ c3
      ∷ (length f == 1)
      ∷ (fill_is f 0 (λ x. x.buyer_fd) 7 && fill_is f 0 (λ x. x.buyer_seq) 1)
      ∷ (fill_is f 0 (λ x. x.sell_fd) 9 && fill_is f 0 (λ x. x.sell_seq) 4)
      ∷ [])
