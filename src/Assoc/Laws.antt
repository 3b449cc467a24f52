-- ===== src/Assoc/Laws.antt =====
-- The laws of the association lists, each with its test written out.
use the_socket_exchange.Common.{
  none, some, [], ◌∷◌, ◌≡◌, ◌≢◌, refl, ap, arith, if◌then◌else◌, Eq, ◌==◌, All, Bool-cases, inl,
  inr, ◌∙◌, subst, eq_self,
}
use the_socket_exchange.Assoc.{Assoc, lookup, insert, erase}

module _ {ℓ κ} {K : Type ℓ} {V : Type κ} ⦃e : Eq K⦄ where
  pub lookup-insert :
      (new key : K) (value : V) (map : Assoc K V)
      → lookup key (insert new value map) ≡ (if new == key then some value else lookup key map)
  unfolding lookup insert
  lookup-insert new key value [] = refl
  lookup-insert new key value ((first, old) ∷ rest) = ground (
    arith,
    lookup-insert new key value rest,
    e.same_iff first key,
    e.same_iff first new,
    e.same_iff new key,
  )

  pub lookup-erase :
      (k j : K) (m : Assoc K V) → lookup j (erase k m) ≡ (if k == j then none else lookup j m)
  unfolding lookup erase
  lookup-erase k j [] = ground arith
  lookup-erase k j ((i, w) ∷ m) =
      ground (arith, e.same_iff k j, e.same_iff i k, e.same_iff i j, lookup-erase k j m)

  pub lookup-insert_self : (k : K) (v : V) (m : Assoc K V) → lookup k (insert k v m) ≡ some v
  lookup-insert_self k v m =
      lookup-insert k k v m ∙ ap (λ b. if b then some v else lookup k m) (eq_self k)

  pub lookup-insert_ne :
      (k j : K) (v : V) (m : Assoc K V) → j ≢ k → lookup j (insert k v m) ≡ lookup j m
  lookup-insert_ne k j v m h = ground (arith, lookup-insert k j v m, e.same_iff k j)

  pub lookup-erase_self : (k : K) (m : Assoc K V) → lookup k (erase k m) ≡ none
  lookup-erase_self k m = lookup-erase k k m ∙ ap (λ b. if b then none else lookup k m) (eq_self k)

-- A property of all values.
module _ {ℓ κ μ} {K : Type ℓ} {V : Type κ} ⦃e : Eq K⦄ (P : K → V → Type μ) where
  abbrev pub AllEntries : Assoc K V → Type μ
  AllEntries = All (λ kv. P kv.0 kv.1)

  pub AllEntries-insert :
      (k : K) (v : V) (m : Assoc K V) → P k v → AllEntries m → AllEntries (insert k v m)
  unfolding insert
  AllEntries-insert k v [] p h = (p, tt)
  AllEntries-insert k v ((j, w) ∷ m) p (q, h) = ground (arith, AllEntries-insert k v m p h)

  pub AllEntries-erase : (k : K) (m : Assoc K V) → AllEntries m → AllEntries (erase k m)
  unfolding erase
  AllEntries-erase k [] h = tt
  AllEntries-erase k ((j, w) ∷ m) (q, h) = ground (arith, AllEntries-erase k m h)

  pub AllEntries-lookup :
      (k : K) (m : Assoc K V) {v : V} → AllEntries m → lookup k m ≡ some v → P k v
  unfolding lookup
  AllEntries-lookup k [] h p = cc
  AllEntries-lookup k ((j, w) ∷ m) {v} (q, h) p = elim (Bool-cases (j == k)) [
    | inl hit ↦ subst (P k) (ground arith) (subst (λ i. P i w) ((e.same_iff j k).0 hit) q)
    | inr miss ↦ AllEntries-lookup k m h (ground arith)
  ]
