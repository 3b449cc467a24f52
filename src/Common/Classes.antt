-- ===== src/Common/Classes.antt =====
-- `operator==` as an interface, with byte strings as lists of numbers below 256.
use Prim.Native.Nat.{ℕ}
use Prim.Native.Char.{code}
use Prim.Native.String.{String}
use mathlib.Core.Path.{◌≡◌, refl, subst}
use mathlib.Core.Logic.{◌↔◌}
use mathlib.Core.List.{List, [], ◌∷◌}
use mathlib.Core.Bool.{Bool, true, false, ◌&&◌}
use native.Mathlib.Omega.{arith}
use the_socket_exchange.Common.Tests.{nat_beq, nat_beq_iff}

-- A `std::string`.
abbrev pub Bytes : Type 0
Bytes = List ℕ

-- The bytes of an ASCII literal.
abbrev pub codes : String → Bytes
codes String.[] = []
codes (String.◌∷◌ letter others) = code letter ∷ codes others

-- An `operator==` that tells equal values from others.
pub record Eq {ℓ} (A : Type ℓ) : Type ℓ where
  pub same : A → A → Bool
  pub same_iff : (x y : A) → (same x y ≡ true) ↔ (x ≡ y)

infix 50 ◌==◌
abbrev pub ◌==◌ {ℓ} : {A : Type ℓ} → ⦃e : Eq A⦄ → A → A → Bool
◌==◌ ⦃e⦄ x y = e.same x y

pub eq_self {ℓ} : {A : Type ℓ} → ⦃e : Eq A⦄ → (x : A) → (x == x) ≡ true
eq_self ⦃e⦄ x = (e.same_iff x x).1 refl

instance abbrev pub nat_eq : Eq ℕ
nat_eq = record { same_iff = nat_beq_iff; same = nat_beq }

abbrev pub bytes_beq : Bytes → Bytes → Bool
bytes_beq [] [] = true
bytes_beq (a ∷ s) (b ∷ t) = nat_beq a b && bytes_beq s t
bytes_beq _ _ = false

bytes_beq_refl : (s : Bytes) → bytes_beq s s ≡ true
bytes_beq_refl [] = refl
bytes_beq_refl (a ∷ s) = ground (arith, bytes_beq_refl s)

bytes_beq_eq : (s t : Bytes) → bytes_beq s t ≡ true → s ≡ t
bytes_beq_eq [] [] h = refl
bytes_beq_eq [] (b ∷ t) h = cc
bytes_beq_eq (a ∷ s) [] h = cc
bytes_beq_eq (a ∷ s) (b ∷ t) h = ground (arith, bytes_beq_eq s t)

pub bytes_beq_iff : (s t : Bytes) → (bytes_beq s t ≡ true) ↔ (s ≡ t)
bytes_beq_iff s t = (bytes_beq_eq s t, λ e. subst (λ u. bytes_beq s u ≡ true) e (bytes_beq_refl s))

instance abbrev pub bytes_eq : Eq Bytes
bytes_eq = record { same_iff = bytes_beq_iff; same = bytes_beq }
