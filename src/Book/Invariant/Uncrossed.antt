-- ===== src/Book/Invariant/Uncrossed.antt =====
-- No instrument ever has buys and sells resting at one price.
use the_socket_exchange.Common.{
  ℕ, ◌-◌, ◌<◌, List, [], ◌∷◌, ◌≡◌, ◌≢◌, refl, ap, ◌∙◌, arith, ◌⊎◌, Bool-cases, inl, inr, ◌==◌,
  nat_eq, bytes_eq, Bytes, bytes_beq_iff, All, All-mono, length, length-append, replicate,
  ℕ_discrete, drop, drop-nil, drop_all, ltb, false, dec_lt,
}
use the_socket_exchange.Assoc
use the_socket_exchange.Book.{
  Side, buy, sell, Order, InstrumentBook, OrderBook, same, book_of, submit,
}
use the_socket_exchange.Book.Lots.{lots, length-replicate}
use the_socket_exchange.Book.Queues.{other, queue_at, Side-cases}
use the_socket_exchange.Book.Refinement.{submit-Submitted}
use the_socket_exchange.Book.Invariant.{
  IsRestingAt, IsValid, IsValidIn-same, book_of-IsValidIn, queue_of-All, submit-IsValid,
}

abbrev pub IsUncrossed : OrderBook → Type 0
IsUncrossed b =
    (i : Bytes) (s : Side) (p : ℕ) → (queue_at b i s p ≡ []) ⊎ (queue_at b i (other s) p ≡ [])

-- Every order of a well-formed book stands where it belongs.
pub queue_at-All :
    (b : OrderBook) (i : Bytes) (s : Side) (p : ℕ)
    → IsValid b
    → All (IsRestingAt i s b.next_id p) (queue_at b i s p)
queue_at-All b i s p v =
    queue_of-All i s b.next_id p (same s ib) _ refl
      (IsValidIn-same b.next_id i s ib (book_of-IsValidIn b.next_id i b.books _ refl v.books)).0
  where
    ib : InstrumentBook
    ib = book_of (Assoc.lookup i b.books)

-- A queue of orders that have something left has no unit only if it is empty.
nil_of_lots : (q : List Order) → All (λ o. 0 < o.qty) q → lots q ≡ [] → q ≡ []
nil_of_lots [] h e = refl
nil_of_lots (o ∷ q) (r, h) e = absurd (
    omega (
      arith,
      ap length e,
      length-append (replicate o.qty (record o { qty = 1 })) (lots q),
      length-replicate o.qty (record o { qty = 1 }),
    ))

other-other : (s : Side) → other (other s) ≡ s
other-other buy = refl
other-other sell = refl

swap {ℓ κ} : {A : Type ℓ} {B : Type κ} → A ⊎ B → B ⊎ A
swap (inl a) = inr a
swap (inr b) = inl b

module _ (o : Order) (b : OrderBook) (issued : o.id < b.next_id) (v : IsValid b) where
  opposing_gone :
      drop o.qty (lots (queue_at b o.instrument (other o.side) o.price)) ≡ []
      → queue_at (submit o b).0 o.instrument (other o.side) o.price ≡ []
  opposing_gone e =
      nil_of_lots _
        (All-mono _ _
          (λ a (r : IsRestingAt o.instrument (other o.side) (submit o b).0.next_id o.price a).
            r.positive)
          _
          (queue_at-All (submit o b).0 o.instrument (other o.side) o.price
            (submit-IsValid o b issued v)))
        ((submit-Submitted o b).opposing ∙ e)

  uncrossed_here :
      (queue_at b o.instrument o.side o.price ≡ [])
        ⊎ (queue_at b o.instrument (other o.side) o.price ≡ [])
      → (queue_at (submit o b).0 o.instrument o.side o.price ≡ [])
        ⊎ (queue_at (submit o b).0 o.instrument (other o.side) o.price ≡ [])
  uncrossed_here (inr e) = inr (opposing_gone (ap (λ q. drop o.qty (lots q)) e ∙ drop-nil o.qty))
  uncrossed_here (inl e) =
      elim (dec_lt (length (lots (queue_at b o.instrument (other o.side) o.price))) o.qty) [
        | yes k ↦ inr (opposing_gone (drop_all o.qty _ (omega arith)))
        | no k ↦
            let z : ltb 0 (o.qty - length (lots (queue_at b o.instrument (other o.side) o.price)))
                ≡ false =
              ground arith in
            inl ((submit-Submitted o b).own ∙ rw (e, z))
      ]

  uncrossed_at_side :
      (s : Side)
      → (s ≡ o.side) ⊎ (s ≡ other o.side)
      → IsUncrossed b
      → (queue_at (submit o b).0 o.instrument s o.price ≡ [])
        ⊎ (queue_at (submit o b).0 o.instrument (other s) o.price ≡ [])
  uncrossed_at_side s (inl e) u = rw e (uncrossed_here (u o.instrument o.side o.price))
  uncrossed_at_side s (inr e) u =
      rw (e, other-other o.side) (swap (uncrossed_here (u o.instrument o.side o.price)))

  uncrossed_elsewhere :
      (i : Bytes) (s : Side) (p : ℕ)
      → (i ≢ o.instrument) ⊎ (p ≢ o.price)
      → IsUncrossed b
      → (queue_at (submit o b).0 i s p ≡ []) ⊎ (queue_at (submit o b).0 i (other s) p ≡ [])
  uncrossed_elsewhere i s p h u =
      rw
        ((submit-Submitted o b).elsewhere i s p h, (submit-Submitted o b).elsewhere i (other s) p h)
        (u i s p)

  -- After `submit` of an order whose id the book has issued, on a well-formed book, no instrument
  -- has orders of both sides at one price, if none had before.
  pub submit-IsUncrossed : IsUncrossed b → IsUncrossed (submit o b).0
  submit-IsUncrossed u i s p = elim (Bool-cases (i == o.instrument)) [
    | inr e ↦ uncrossed_elsewhere i s p (inl (λ q. ground (arith, bytes_beq_iff i o.instrument))) u
    | inl e ↦ elim (ℕ_discrete p o.price) [
      | no q ↦ uncrossed_elsewhere i s p (inr q) u
      | yes q ↦
          rw ((bytes_beq_iff i o.instrument).0 e, q) (uncrossed_at_side s (Side-cases o.side s) u)
    ]
  ]
