-- ===== src/Protocol/Words/Rounds.antt =====
-- A round of `tokenize`: it skips white space and reads a word.
use mathlib.Core.List.{cons-ne-nil}
use the_socket_exchange.Common.{
  ℕ, suc, ◌+◌, ◌≤◌, ◌<◌, List, [], ◌∷◌, ◌++◌, false, ◌≡◌, ◌≢◌, refl, ap, ◌∙◌, sym, arith, All,
  Bytes, Bool-cases, inl, inr, length, if◌then◌else◌,
}
use the_socket_exchange.Protocol.{is_space, skip_spaces, read_word, tokenize_loop}

-- A word of the protocol: not empty, and with no white space in it.
pub record IsWord (w : Bytes) : Type 0 where
  pub occupied : w ≢ []
  pub solid : All (λ c. is_space c ≡ false) w

-- A line without its white space.
abbrev pub squeeze : Bytes → Bytes
squeeze [] = []
squeeze (c ∷ s) = let rest = squeeze s in if is_space c then rest else c ∷ rest

pub skip_spaces_lem :
    (s : Bytes) → (squeeze (skip_spaces s) ≡ squeeze s) × (length (skip_spaces s) ≤ length s)
unfolding skip_spaces
skip_spaces_lem [] = (refl, omega arith)
skip_spaces_lem (c ∷ s) = ground (arith, skip_spaces_lem s)

pub read_word_lem :
    (s : Bytes)
    → ((read_word s).0 ++ squeeze (read_word s).1 ≡ squeeze s)
      × (length (read_word s).0 + length (read_word s).1 ≡ length s)
      × All (λ c. is_space c ≡ false) (read_word s).0
unfolding read_word
read_word_lem [] = (refl, omega arith, tt)
read_word_lem (c ∷ s) = ground (arith, read_word_lem s)

-- What is left by `skip_spaces` begins with a word, or is nothing.
pub skip_spaces-head : (s : Bytes) (c : ℕ) (t : Bytes) → skip_spaces s ≡ c ∷ t → is_space c ≡ false
unfolding skip_spaces
skip_spaces-head [] c t e = cc
skip_spaces-head (d ∷ s) c t e = elim (Bool-cases (is_space d)) [
  | inl h ↦ skip_spaces-head s c t (ground arith)
  | inr h ↦ ground arith
]

read_word-cons :
    (c : ℕ) (t : Bytes)
    → is_space c ≡ false
    → read_word (c ∷ t) ≡ (c ∷ (read_word t).0, (read_word t).1)
unfolding read_word
read_word-cons c t h = rw h

-- One round of the loop.
pub tokenize_loop_end :
    (fuel : ℕ) (s : Bytes) (tok : List Bytes)
    → skip_spaces s ≡ []
    → tokenize_loop (suc fuel) s tok ≡ tok
unfolding tokenize_loop
tokenize_loop_end fuel s tok e = rw (e, tokenize_loop)

pub tokenize_loop_step :
    (fuel : ℕ) (s : Bytes) (tok : List Bytes) (c : ℕ) (t : Bytes)
    → skip_spaces s ≡ c ∷ t
    → tokenize_loop (suc fuel) s tok
      ≡ tokenize_loop fuel (read_word t).1 (tok ++ (c ∷ (read_word t).0) ∷ [])
unfolding tokenize_loop
tokenize_loop_step fuel s tok c t e = rw (e, read_word-cons c t (skip_spaces-head s c t e))

-- A line has no word, or a first word and a shorter rest.
pub data Front (s : Bytes) : Type 0 where
  blank : skip_spaces s ≡ [] → Front s
  word : (c : ℕ) (t : Bytes) → skip_spaces s ≡ c ∷ t → Front s

pub front : (s : Bytes) → Front s
front s = go (skip_spaces s) refl
  where
    go : (t : Bytes) → skip_spaces s ≡ t → Front s
    go [] e = blank e
    go (c ∷ t) e = word c t e

module _ (s : Bytes) (c : ℕ) (t : Bytes) (e : skip_spaces s ≡ c ∷ t) where
  pub first-IsWord : IsWord (c ∷ (read_word t).0)
  first-IsWord = record {
    occupied = cons-ne-nil c _;
    solid = (skip_spaces-head s c t e, (read_word_lem t).2);
  }

  pub squeeze-first : squeeze s ≡ (c ∷ (read_word t).0) ++ squeeze (read_word t).1
  squeeze-first =
      sym (skip_spaces_lem s).0
      ∙ ap squeeze e
      ∙ rw (skip_spaces-head s c t e) (ap (◌∷◌ c) (sym (read_word_lem t).0))

  pub rest-shorter : length (read_word t).1 < length s
  rest-shorter = omega (arith, (skip_spaces_lem s).1, (read_word_lem t).1, ap length e)
