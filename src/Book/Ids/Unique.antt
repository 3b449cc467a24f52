-- ===== src/Book/Ids/Unique.antt =====
-- No two resting orders have the same id, so an id names an order.
use the_socket_exchange.Common.{
  ℕ, zero, suc, ◌+◌, ◌-◌, ◌≤◌, some, List, [], ◌∷◌, Bool, true, false, ◌&&◌, ◌≡◌, refl, ap, ◌∙◌,
  sym, arith, if◌then◌else◌, ◌==◌, nat_eq, nat_beq_iff, eq_self, bytes_eq, Bytes, Bool-cases, inl,
  inr, subst, get_elem?,
}
use the_socket_exchange.Assoc.{Assoc}
use the_socket_exchange.Book.{Order, InstrumentBook, OrderBook, same, submit, next_id, init}
use the_socket_exchange.Book.Invariant.{IsValid}
use the_socket_exchange.Book.Cancel.{
  Search, erased, refused, missed, cancelled, cancel_books, cancel,
}
use the_socket_exchange.Book.Cancel.Flat.{resting, find_order, drop_order, owns, cancel_lem}
use the_socket_exchange.Book.History.{
  Evolves, unchanged, placed, withdrawn, next_id-IsValid, Evolves-sound,
}
use the_socket_exchange.Book.Ids.{count}
use the_socket_exchange.Book.Ids.Changes.{submit-count, cancel-count}

-- Each id stands at most once in the book, and one that is not issued yet does not.
pub record IsUnique (b : OrderBook) : Type 0 where
  pub once : (i : ℕ) → count i (resting b) ≤ 1
  pub unissued : (i : ℕ) → b.next_id ≤ i → count i (resting b) ≡ 0

submit-next_id : (o : Order) (b : OrderBook) → (submit o b).0.next_id ≡ b.next_id
unfolding submit
submit-next_id o b = elim (Bool-cases (o.qty == 0)) [ inl e ↦ rw e refl | inr e ↦ rw e refl ]

cancel-next_id : (j fd seq : ℕ) (b : OrderBook) → (cancel j fd seq b).0.next_id ≡ b.next_id
unfolding cancel
cancel-next_id j fd seq b = go (cancel_books j fd seq b.books)
  where
    go :
        (found : Search (Assoc Bytes InstrumentBook))
        → (cancelled j fd seq b found).0.next_id ≡ b.next_id
    go (erased books) = refl
    go refused = refl
    go missed = refl

next_id-same :
    (b : OrderBook)
    → (resting (next_id b).0 ≡ resting b)
      × ((next_id b).0.next_id ≡ b.next_id + 1)
      × ((next_id b).1 ≡ b.next_id)
unfolding next_id
next_id-same b = (refl, refl, refl)

place-IsUnique :
    (o : Order) (b : OrderBook)
    → o.id ≡ (next_id b).1
    → IsValid b
    → IsUnique b
    → IsUnique (submit o (next_id b).0).0
place-IsUnique o b h v u =
    let (same, next, new) = next_id-same b in
    let later = submit-next_id o (next_id b).0 in
    record {
      once = λ i. ground (
        arith,
        nat_beq_iff o.id i,
        u.once i,
        u.unissued i,
        h,
        new,
        ap (count i) same,
        submit-count i o (next_id b).0 (next_id-IsValid b v),
      );
      unissued = λ i le. ground (
        arith,
        nat_beq_iff o.id i,
        u.unissued i,
        h,
        new,
        next,
        later,
        ap (count i) same,
        submit-count i o (next_id b).0 (next_id-IsValid b v),
      );
    }

cancel-IsUnique : (j fd seq : ℕ) (b : OrderBook) → IsUnique b → IsUnique (cancel j fd seq b).0
cancel-IsUnique j fd seq b u = record {
  once = λ i. omega (arith, cancel-count i j fd seq b, u.once i);
  unissued = λ i le. omega (
    arith,
    cancel-count i j fd seq b,
    u.unissued i (omega (arith, le, cancel-next_id j fd seq b)),
  );
}

pub Evolves-IsUnique : (b : OrderBook) → Evolves init b → IsUnique b
Evolves-IsUnique b unchanged = record { once = λ i. omega arith; unissued = λ i le. refl }
Evolves-IsUnique b (placed {b'} o h e) =
    place-IsUnique o b' h (Evolves-sound b' e).0 (Evolves-IsUnique b' e)
Evolves-IsUnique b (withdrawn {b'} j fd seq e) = cancel-IsUnique j fd seq b' (Evolves-IsUnique b' e)

-- An order that stands in a list counts.
listed : (k : ℕ) (o : Order) (os : List Order) → get_elem? os k ≡ some o → 1 ≤ count o.id os
listed k o [] e = cc
listed zero o (q ∷ os) e =
    let same : q ≡ o = cc in ground (arith, eq_self o.id, ap (λ (x : Order). x.id) same)
listed (suc k) o (q ∷ os) e = omega (arith, listed k o os e)

find_listed :
    (k : ℕ) (o : Order) (os : List Order)
    → get_elem? os k ≡ some o
    → count o.id os ≤ 1
    → find_order o.id os ≡ some o
find_listed k o [] e h = cc
find_listed zero o (q ∷ os) e h =
    let same : q ≡ o = cc in
    subst (λ (x : Order). (if x.id == o.id then some x else find_order o.id os) ≡ some o) (sym same)
      (rw (eq_self o.id) refl)
find_listed (suc k) o (q ∷ os) e h =
    ground (arith, listed k o os e, find_listed k o os e (omega arith))

dropped : (i : ℕ) (os : List Order) → count i (drop_order i os) ≡ count i os - 1
dropped i [] = refl
dropped i (o ∷ os) = ground (arith, dropped i os)

-- In every book that the server's operations lead to from the empty one: an order that rests there
-- is cancelled by its id exactly if the requester owns it, by descriptor and session number; then
-- no order with the id is left, and otherwise no resting order changes.
pub cancel-resting :
    (b : OrderBook) (k fd seq : ℕ) (o : Order)
    → Evolves init b
    → get_elem? (resting b) k ≡ some o
    → let r = cancel o.id fd seq b in
      (r.1 ≡ ((o.owner_fd == fd) && (o.owner_seq == seq)))
      × (count o.id (resting r.0) ≡ (if r.1 then 0 else 1))
      × (r.1 ≡ false → resting r.0 ≡ resting b)
cancel-resting b k fd seq o e at =
    let (counts, keeps) = go r.1 refl mine in (mine ∙ ap (owns fd seq) found, counts, keeps)
  where
    r : OrderBook × Bool
    r = cancel o.id fd seq b

    once : count o.id (resting b) ≤ 1
    once = (Evolves-IsUnique b e).once o.id

    found : find_order o.id (resting b) ≡ some o
    found = find_listed k o (resting b) at once

    mine : r.1 ≡ owns fd seq (find_order o.id (resting b))
    mine = (cancel_lem o.id fd seq b).0

    left : resting r.0 ≡ (
        if owns fd seq (find_order o.id (resting b))
        then drop_order o.id (resting b)
        else resting b)
    left = (cancel_lem o.id fd seq b).1

    go :
        (done : Bool)
        → r.1 ≡ done
        → r.1 ≡ owns fd seq (find_order o.id (resting b))
        → (count o.id (resting r.0) ≡ (if r.1 then 0 else 1))
          × (r.1 ≡ false → resting r.0 ≡ resting b)
    go true e h =
        let all =
          left ∙ ap (λ x. if x then drop_order o.id (resting b) else resting b) (sym h ∙ e) in
        (
          ap (count o.id) all
              ∙ omega (arith, dropped o.id (resting b), once)
              ∙ ap (λ x. if x then 0 else 1) (sym e),
          λ f. cc,
        )
    go false e h =
        let all =
          left ∙ ap (λ x. if x then drop_order o.id (resting b) else resting b) (sym h ∙ e) in
        (
          ap (count o.id) all
              ∙ omega (arith, listed k o (resting b) at, once)
              ∙ ap (λ x. if x then 0 else 1) (sym e),
          λ f. all,
        )
