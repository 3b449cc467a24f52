-- ===== src/Assoc.antt =====
-- The hash maps of the program (`std::unordered_map`) as association lists. The order of the
-- entries stands for the order in which such a map is walked, which C++ leaves open.
pub mod Laws
use the_socket_exchange.Common.{Option, none, some, List, [], ◌∷◌, if◌then◌else◌, Eq, ◌==◌}

abbrev pub Assoc {ℓ κ} : Type ℓ → Type κ → Type (ℓ ⊔ κ)
Assoc K V = List (K × V)

module _ {ℓ κ} {K : Type ℓ} {V : Type κ} ⦃e : Eq K⦄ where
  -- `m.find(k)`: `none` is `m.end()`
  unfoldable pub lookup : K → Assoc K V → Option V
  lookup wanted [] = none
  lookup wanted ((key, value) ∷ rest) = if key == wanted then some value else lookup wanted rest

  -- `m[k] = v`
  unfoldable pub insert : K → V → Assoc K V → Assoc K V
  insert new value [] = (new, value) ∷ []
  insert new value ((key, old) ∷ rest) =
      if key == new then (new, value) ∷ rest else (key, old) ∷ insert new value rest

  -- `m.erase(k)`: a map holds a key once, so the entries with the key are the entry
  unfoldable pub erase : K → Assoc K V → Assoc K V
  erase gone [] = []
  erase gone ((key, value) ∷ rest) =
      let kept = erase gone rest in if key == gone then kept else (key, value) ∷ kept
