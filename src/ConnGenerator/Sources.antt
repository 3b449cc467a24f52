-- ===== src/ConnGenerator/Sources.antt =====
-- `split_csv` against the fields of a text.
use the_socket_exchange.Common.{
  ℕ, zero, suc, ◌<◌, Option, none, some, List, [], ◌∷◌, ◌++◌, ◌≡◌, refl, ap, ◌∙◌, sym, arith,
  if◌then◌else◌, ◌==◌, nat_eq, Bytes, is_empty, length, append-nil, append_assoc,
}
use the_socket_exchange.ConnGenerator.{next_piece, split_csv_loop, split_csv}

-- One more byte in front of the first field.
abbrev push : ℕ → List Bytes → List Bytes
push c [] = (c ∷ []) ∷ []
push c (f ∷ fs) = (c ∷ f) ∷ fs

-- What stands between the commas, empty fields included.
abbrev pub csv_fields : Bytes → List Bytes
csv_fields [] = [] ∷ []
csv_fields (c ∷ s) = let fs = csv_fields s in if c == b',' then [] ∷ fs else push c fs

abbrev pub nonempty : List Bytes → List Bytes
nonempty [] = []
nonempty (f ∷ fs) = let rest = nonempty fs in if is_empty f then rest else f ∷ rest

abbrev fields_of : Option Bytes → List Bytes
fields_of none = []
fields_of (some s) = csv_fields s

abbrev IsShorter : Bytes → Option Bytes → Type 0
IsShorter s none = Unit
IsShorter s (some left) = length left < length s

next_piece-fields : (s : Bytes) → csv_fields s ≡ (next_piece s).0 ∷ fields_of (next_piece s).1
unfolding next_piece
next_piece-fields [] = refl
next_piece-fields (c ∷ s) = ground (arith, next_piece-fields s)

next_piece-IsShorter : (s : Bytes) → IsShorter s (next_piece s).1
unfolding next_piece
next_piece-IsShorter [] = tt
next_piece-IsShorter (c ∷ s) = ground (arith, next_piece-IsShorter s)

split_csv_loop-fields :
    (fuel : ℕ) (s : Bytes) (out : List Bytes)
    → length s < fuel
    → split_csv_loop fuel s out ≡ out ++ nonempty (csv_fields s)
unfolding split_csv_loop
split_csv_loop-fields zero s out h = absurd (omega arith)
split_csv_loop-fields (suc fuel) s out h =
    go (next_piece s).0 (next_piece s).1 (next_piece-fields s) (next_piece-IsShorter s)
      (λ left out' k. split_csv_loop-fields fuel left out' k) h
  where
    keep : List Bytes → Bytes → List Bytes
    keep acc piece = if is_empty piece then acc else acc ++ piece ∷ []

    kept :
        (acc : List Bytes) (piece : Bytes) (rest : List Bytes)
        → keep acc piece ++ nonempty rest ≡ acc ++ nonempty (piece ∷ rest)
    kept acc [] rest = refl
    kept acc (c ∷ piece) rest = append_assoc acc ((c ∷ piece) ∷ []) (nonempty rest)

    go :
        (piece : Bytes) (rest : Option Bytes)
        → csv_fields s ≡ piece ∷ fields_of rest
        → IsShorter s rest
        → ((left : Bytes) (out' : List Bytes)
            → length left < fuel
            → split_csv_loop fuel left out' ≡ out' ++ nonempty (csv_fields left))
        → length s < suc fuel
        → (elim rest as (λ _. List Bytes) [
          | none ↦ keep out piece
          | some left ↦ split_csv_loop fuel left (keep out piece)
        ])
          ≡ out ++ nonempty (csv_fields s)
    go piece none e k ih h =
        sym (append-nil (keep out piece))
        ∙ kept out piece []
        ∙ ap (λ fs. out ++ nonempty fs) (sym e)
    go piece (some left) e k ih h =
        ih left (keep out piece) (omega arith)
        ∙ kept out piece (csv_fields left)
        ∙ ap (λ fs. out ++ nonempty fs) (sym e)

-- The parts of `split_csv` are the fields between the commas, in order, without the empty ones.
pub split_csv-fields : (s : Bytes) → split_csv s ≡ nonempty (csv_fields s)
unfolding split_csv
split_csv-fields s = split_csv_loop-fields (suc (length s)) s [] (omega arith)
