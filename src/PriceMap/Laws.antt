-- ===== src/PriceMap/Laws.antt =====
-- The laws of the ordered map: what is found after a change, and that the keys stay ascending.
use the_socket_exchange.Common.{
  ℕ, ◌<◌, none, some, [], ◌∷◌, ◌≡◌, refl, arith, if◌then◌else◌, ◌==◌, nat_eq, nat_beq_iff, All,
  Bool-cases, inl, inr, subst,
}
use the_socket_exchange.PriceMap.{PriceMap, lookup, insert, erase}

module _ {ℓ} {V : Type ℓ} where
  pub lookup-insert :
      (p q : ℕ) (v : V) (m : PriceMap V)
      → lookup q (insert p v m) ≡ (if p == q then some v else lookup q m)
  unfolding lookup insert
  lookup-insert p q v [] = refl
  lookup-insert p q v ((r, w) ∷ m) = ground (arith, lookup-insert p q v m)

  pub lookup-erase :
      (p q : ℕ) (m : PriceMap V) → lookup q (erase p m) ≡ (if p == q then none else lookup q m)
  unfolding lookup erase
  lookup-erase p q [] = ground arith
  lookup-erase p q ((r, w) ∷ m) = ground (arith, lookup-erase p q m)

  -- Every key is above `p`, and they rise along the list.
  abbrev pub Above : ℕ → PriceMap V → Type 0
  Above p [] = Unit {0}
  Above p ((q, v) ∷ m) = (p < q) × Above q m

  pub Above-weaken : {p r : ℕ} (m : PriceMap V) → p < r → Above r m → Above p m
  Above-weaken [] h a = tt
  Above-weaken ((q, v) ∷ m) h (lt, a) = (omega arith, a)

  Above-insert : (r p : ℕ) (v : V) (m : PriceMap V) → r < p → Above r m → Above r (insert p v m)
  unfolding insert
  Above-insert r p v [] h a = (h, tt)
  Above-insert r p v ((q, w) ∷ m) h (lt, a) = ground (arith, Above-insert q p v m)

  Above-erase : (r p : ℕ) (m : PriceMap V) → Above r m → Above r (erase p m)
  unfolding erase
  Above-erase r p [] a = tt
  Above-erase r p ((q, w) ∷ m) (lt, a) =
      ground (arith, Above-erase q p m a, Above-weaken {p = r} {r = q} (erase p m) lt)

  abbrev pub IsAscending : PriceMap V → Type 0
  IsAscending [] = Unit {0}
  IsAscending ((q, v) ∷ m) = Above q m

  pub Above-IsAscending : (q : ℕ) (m : PriceMap V) → Above q m → IsAscending m
  Above-IsAscending q [] a = tt
  Above-IsAscending q ((r, v) ∷ m) (lt, a) = a

  pub insert-IsAscending :
      (p : ℕ) (v : V) (m : PriceMap V) → IsAscending m → IsAscending (insert p v m)
  unfolding insert
  insert-IsAscending p v [] a = tt
  insert-IsAscending p v ((q, w) ∷ m) a = ground (arith, Above-insert q p v m)

  pub erase-IsAscending : (p : ℕ) (m : PriceMap V) → IsAscending m → IsAscending (erase p m)
  unfolding erase
  erase-IsAscending p [] a = tt
  erase-IsAscending p ((q, w) ∷ m) a =
      ground (arith, Above-erase q p m a, Above-IsAscending q (erase p m))

-- A property of all entries.
module _ {ℓ κ} {V : Type ℓ} (P : ℕ → V → Type κ) where
  abbrev pub AllLevels : PriceMap V → Type κ
  AllLevels = All (λ kv. P kv.0 kv.1)

  pub AllLevels-insert :
      (p : ℕ) (v : V) (m : PriceMap V) → P p v → AllLevels m → AllLevels (insert p v m)
  unfolding insert
  AllLevels-insert p v [] h a = (h, tt)
  AllLevels-insert p v ((q, w) ∷ m) h (b, a) = ground (arith, AllLevels-insert p v m h a)

  pub AllLevels-erase : (p : ℕ) (m : PriceMap V) → AllLevels m → AllLevels (erase p m)
  unfolding erase
  AllLevels-erase p [] a = tt
  AllLevels-erase p ((q, w) ∷ m) (b, a) = ground (arith, AllLevels-erase p m a)

  pub AllLevels-lookup :
      (p : ℕ) (m : PriceMap V) (v : V) → AllLevels m → lookup p m ≡ some v → P p v
  unfolding lookup
  AllLevels-lookup p [] v a h = cc
  AllLevels-lookup p ((q, w) ∷ m) v (b, a) h = elim (Bool-cases (q == p)) [
    | inl hit ↦ subst (P p) (ground arith) (subst (λ i. P i w) ((nat_beq_iff q p).0 hit) b)
    | inr miss ↦ AllLevels-lookup p m v a (ground arith)
  ]
