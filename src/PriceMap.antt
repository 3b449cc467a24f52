-- ===== src/PriceMap.antt =====
-- `std::map<long long, …>` of server/order_book.hpp: entries in ascending order of their keys.
pub mod Laws
use the_socket_exchange.Common.{
  ℕ, Option, none, some, List, [], ◌∷◌, if◌then◌else◌, ltb, ◌==◌, nat_eq,
}

abbrev pub PriceMap {ℓ} : Type ℓ → Type ℓ
PriceMap V = List (ℕ × V)

module _ {ℓ} {V : Type ℓ} where
  -- `m.find(p)`: `none` is `m.end()`
  unfoldable pub lookup : ℕ → PriceMap V → Option V
  lookup p [] = none
  lookup p ((q, v) ∷ m) = if q == p then some v else lookup p m

  -- `m[p] = v`: a new entry goes before the first larger key
  unfoldable pub insert : ℕ → V → PriceMap V → PriceMap V
  insert p v [] = (p, v) ∷ []
  insert p v ((q, w) ∷ m) =
      if q == p then (p, v) ∷ m else if ltb p q then (p, v) ∷ (q, w) ∷ m else (q, w) ∷ insert p v m

  -- `m.erase(it)` for the entry at `p`: a map holds a key once
  unfoldable pub erase : ℕ → PriceMap V → PriceMap V
  erase p [] = []
  erase p ((q, w) ∷ m) = let rest = erase p m in if q == p then rest else (q, w) ∷ rest
