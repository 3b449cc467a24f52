-- ===== src/Protocol/Numbers.antt =====
-- Which numbers the protocol accepts, and that printed numbers are read back.
use mathlib.Core.List.{cons-ne-nil, concat-ne-nil}
use the_socket_exchange.Common.{
  ℕ, zero, suc, ◌+◌, ◌-◌, ◌*◌, ◌/◌, ◌%◌, ◌≤◌, ◌<◌, [], ◌∷◌, ◌++◌, true, false, ◌≡◌, ◌≢◌, ◌↔◌, refl,
  ap, ◌∙◌, arith, All, All-append, Bytes, ltb, Bool-cases, inl, inr,
}
use the_socket_exchange.Protocol.{
  max_value, all_digits, decimal_from, parse_nonnegative_int, parse_positive_int, print_digits,
  to_string,
}

abbrev pub IsDigit : ℕ → Type 0
IsDigit c = (b'0' ≤ c) × (c ≤ b'9')

all_digits-All : (s : Bytes) → (all_digits s ≡ true) ↔ All IsDigit s
unfolding all_digits
all_digits-All [] = (λ h. tt, λ h. refl)
all_digits-All (c ∷ s) = ground (arith, all_digits-All s)

-- What the protocol takes for a number: digits, one at least, that spell a value in range.
pub record IsNumber (s : Bytes) : Type 0 where
  pub some_digit : s ≢ []
  pub digits : All IsDigit s
  pub within : decimal_from 0 s ≤ max_value

accepted :
    (c : ℕ) (s : Bytes) (out : ℕ)
    → all_digits (c ∷ s) ≡ true
    → decimal_from 0 (c ∷ s) ≤ max_value
    → parse_nonnegative_int (c ∷ s) out ≡ (true, decimal_from 0 (c ∷ s))
unfolding parse_nonnegative_int
accepted c s out d h = ground arith

-- `parse_nonnegative_int` accepts a text exactly if it is digits only, one at least, that spell a
-- value up to 2147483647.
pub parse_nonnegative_int_iff :
    (s : Bytes) (out : ℕ) → ((parse_nonnegative_int s out).0 ≡ true) ↔ IsNumber s
unfolding parse_nonnegative_int
parse_nonnegative_int_iff [] out = (λ h. cc, λ n. absurd (n.some_digit refl))
parse_nonnegative_int_iff (c ∷ s) out = (
  λ h. record {
    some_digit = cons-ne-nil c s;
    digits = (all_digits-All (c ∷ s)).0 (ground arith);
    within = ground arith;
  },
  λ n. ap (λ r. r.0) (accepted c s out ((all_digits-All (c ∷ s)).1 n.digits) n.within),
)

-- and then the value goes out
pub parse_nonnegative_int_value :
    (s : Bytes) (out : ℕ) → IsNumber s → parse_nonnegative_int s out ≡ (true, decimal_from 0 s)
unfolding parse_nonnegative_int
parse_nonnegative_int_value [] out n = absurd (n.some_digit refl)
parse_nonnegative_int_value (c ∷ s) out n =
    accepted c s out ((all_digits-All (c ∷ s)).1 n.digits) n.within

-- `parse_positive_int` accepts exactly the numbers of the protocol that are not zero.
pub parse_positive_int_iff :
    (s : Bytes) (out : ℕ)
    → ((parse_positive_int s out).0 ≡ true) ↔ (IsNumber s × (0 < decimal_from 0 s))
unfolding parse_positive_int
parse_positive_int_iff s out = (forward, backward)
  where
    number : (parse_positive_int s out).0 ≡ true → IsNumber s
    number h = (parse_nonnegative_int_iff s out).0 (ground arith)

    forward : (parse_positive_int s out).0 ≡ true → IsNumber s × (0 < decimal_from 0 s)
    forward h = (number h, ground (arith, parse_nonnegative_int_value s out (number h)))

    backward : IsNumber s × (0 < decimal_from 0 s) → (parse_positive_int s out).0 ≡ true
    backward (n, h) = ground (arith, parse_nonnegative_int_value s out n)

pub parse_positive_int_value :
    (s : Bytes) (out : ℕ)
    → IsNumber s
    → 0 < decimal_from 0 s
    → parse_positive_int s out ≡ (true, decimal_from 0 s)
unfolding parse_positive_int
parse_positive_int_value s out n h = ground (arith, parse_nonnegative_int_value s out n)

decimal_from-append :
    (n : ℕ) (s t : Bytes) → decimal_from n (s ++ t) ≡ decimal_from (decimal_from n s) t
decimal_from-append n [] t = refl
decimal_from-append n (c ∷ s) t = decimal_from-append (n * 10 + (c - b'0')) s t

print_digits_small : (fuel n : ℕ) → ltb n 10 ≡ true → print_digits (suc fuel) n ≡ (b'0' + n) ∷ []
unfolding print_digits
print_digits_small fuel n e = rw (e, print_digits)

print_digits_large :
    (fuel n : ℕ)
    → ltb n 10 ≡ false
    → print_digits (suc fuel) n ≡ print_digits fuel (n / 10) ++ (b'0' + n % 10) ∷ []
unfolding print_digits
print_digits_large fuel n e = rw (e, print_digits)

print_digits-decimal : (fuel n : ℕ) → n < fuel → decimal_from 0 (print_digits fuel n) ≡ n
print_digits-decimal zero n h = absurd (omega arith)
print_digits-decimal (suc fuel) n h = elim (Bool-cases (ltb n 10)) [
  | inl e ↦ rw (print_digits_small fuel n e) (omega arith)
  | inr e ↦
      rw
        (
          print_digits_large fuel n e,
          decimal_from-append 0 (print_digits fuel (n / 10)) ((b'0' + n % 10) ∷ []),
          print_digits-decimal fuel (n / 10) (ground arith),
        )
        (ground arith)
]

print_digits-All : (fuel n : ℕ) → All IsDigit (print_digits fuel n)
print_digits-All zero n = unfold print_digits in tt
print_digits-All (suc fuel) n = elim (Bool-cases (ltb n 10)) [
  | inl e ↦ rw (print_digits_small fuel n e) (ground arith)
  | inr e ↦ rw (print_digits_large fuel n e) (
      All-append IsDigit (print_digits fuel (n / 10)) _ (print_digits-All fuel (n / 10))
        (omega arith))
]

print_digits-ne-nil : (fuel n : ℕ) → print_digits (suc fuel) n ≢ []
print_digits-ne-nil fuel n = elim (Bool-cases (ltb n 10)) [
  | inl e ↦ rw (print_digits_small fuel n e) (cons-ne-nil _ [])
  | inr e ↦ rw (print_digits_large fuel n e) (concat-ne-nil _ (print_digits fuel (n / 10)))
]

pub to_string-digits : (n : ℕ) → All IsDigit (to_string n)
unfolding to_string
to_string-digits n = print_digits-All (suc n) n

pub to_string-ne-nil : (n : ℕ) → to_string n ≢ []
unfolding to_string
to_string-ne-nil n = print_digits-ne-nil n n

pub decimal-to_string : (n : ℕ) → decimal_from 0 (to_string n) ≡ n
unfolding to_string
decimal-to_string n = print_digits-decimal (suc n) n (omega arith)

-- A printed number within the protocol's range is read back.
pub parse_nonnegative_int-to_string :
    (n out : ℕ) → n ≤ max_value → parse_nonnegative_int (to_string n) out ≡ (true, n)
parse_nonnegative_int-to_string n out h =
    parse_nonnegative_int_value (to_string n) out (record {
      some_digit = to_string-ne-nil n;
      digits = to_string-digits n;
      within = rw decimal-to_string h;
    })
    ∙ ap (λ v. (true, v)) (decimal-to_string n)

-- A printed number above 2147483647 is refused, so an order whose id is above it can be accepted
-- and printed, but not be named in a CANCEL line.
pub parse_nonnegative_int_too_large :
    (n out : ℕ) → max_value < n → (parse_nonnegative_int (to_string n) out).0 ≡ false
parse_nonnegative_int_too_large n out h =
    elim (Bool-cases (parse_nonnegative_int (to_string n) out).0) [
      | inr e ↦ e
      | inl e ↦ absurd (
          omega (
            arith,
            ((parse_nonnegative_int_iff (to_string n) out).0 e).within,
            decimal-to_string n,
          ))
    ]
