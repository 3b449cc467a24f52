-- ===== src/Protocol/Words.antt =====
-- `tokenize`: which words a line holds.
pub mod Rounds
use mathlib.Core.List.{cons-ne-nil}
use the_socket_exchange.Common.{
  ℕ, zero, suc, ◌+◌, ◌≤◌, ◌<◌, List, [], ◌∷◌, ◌++◌, false, ◌≡◌, ◌≢◌, refl, ap, ◌∙◌, sym, arith, All,
  All-append, Bytes, length, length-append, append-nil, append_assoc, if◌then◌else◌, codes,
  is_empty,
}
use the_socket_exchange.Protocol.{is_space, skip_spaces, read_word, tokenize_loop, tokenize}
use the_socket_exchange.Protocol.Words.Rounds.{
  IsWord, squeeze, blank, word, skip_spaces_lem, skip_spaces-head, tokenize_loop_end,
  tokenize_loop_step, front, first-IsWord, squeeze-first, rest-shorter,
}

abbrev pub joined : List Bytes → Bytes
joined [] = []
joined (w ∷ ws) = w ++ joined ws

joined-append : (xs ys : List Bytes) → joined (xs ++ ys) ≡ joined xs ++ joined ys
joined-append [] ys = refl
joined-append (w ∷ xs) ys =
    ap (◌++◌ w) (joined-append xs ys) ∙ sym (append_assoc w (joined xs) (joined ys))

tokenize_loop-All :
    (fuel : ℕ) (s : Bytes) (tok : List Bytes)
    → All IsWord tok
    → All IsWord (tokenize_loop fuel s tok)
tokenize_loop-All zero s tok h = unfold tokenize_loop in h
tokenize_loop-All (suc fuel) s tok h = elim (front s) [
  | blank e ↦ rw (tokenize_loop_end fuel s tok e) h
  | word c t e ↦ rw (tokenize_loop_step fuel s tok c t e) (
      tokenize_loop-All fuel (read_word t).1 (tok ++ (c ∷ (read_word t).0) ∷ [])
        (All-append IsWord tok _ h (first-IsWord s c t e, tt)))
]

joined-tokenize_loop :
    (fuel : ℕ) (s : Bytes) (tok : List Bytes)
    → length s < fuel
    → joined (tokenize_loop fuel s tok) ≡ joined tok ++ squeeze s
joined-tokenize_loop zero s tok h = absurd (omega arith)
joined-tokenize_loop (suc fuel) s tok h = elim (front s) [
  | blank e ↦ rw (tokenize_loop_end fuel s tok e) (
      sym (append-nil (joined tok))
      ∙ ap (◌++◌ (joined tok)) (sym (ap squeeze e) ∙ (skip_spaces_lem s).0))
  | word c t e ↦
      let w = c ∷ (read_word t).0 in
      rw (tokenize_loop_step fuel s tok c t e) (
        joined-tokenize_loop fuel (read_word t).1 (tok ++ w ∷ [])
          (omega (arith, rest-shorter s c t e))
        ∙ ap (λ x. x ++ squeeze (read_word t).1) (joined-append tok (w ∷ []))
        ∙ append_assoc (joined tok) (joined (w ∷ [])) (squeeze (read_word t).1)
        ∙ ap (◌++◌ (joined tok))
            (ap (λ x. x ++ squeeze (read_word t).1) (append-nil w) ∙ sym (squeeze-first s c t e)))
]

-- The word that a text begins with, which is empty if it begins with white space, and the words
-- behind it.
abbrev pub first_word : Bytes → Bytes × List Bytes
first_word [] = ([], [])
first_word (c ∷ s) =
    let (w, ws) = first_word s in
    if is_space c then ([], if is_empty w then ws else w ∷ ws) else (c ∷ w, ws)

-- The words of a text: its longest runs of bytes that are not white space, in order.
abbrev pub words : Bytes → List Bytes
words s = let (w, ws) = first_word s in if is_empty w then ws else w ∷ ws

words-skip_spaces : (s : Bytes) → words (skip_spaces s) ≡ words s
unfolding skip_spaces
words-skip_spaces [] = refl
words-skip_spaces (c ∷ s) = ground (arith, words-skip_spaces s)

read_word-words : (s : Bytes) → ((read_word s).0, words (read_word s).1) ≡ first_word s
unfolding read_word
read_word-words [] = refl
read_word-words (c ∷ s) = ground (arith, read_word-words s)

words-first :
    (s : Bytes) (c : ℕ) (t : Bytes)
    → skip_spaces s ≡ c ∷ t
    → words s ≡ (c ∷ (read_word t).0) ∷ words (read_word t).1
words-first s c t e =
    sym (words-skip_spaces s)
    ∙ ap words e
    ∙ rw (skip_spaces-head s c t e)
        (ap (λ (p : Bytes × List Bytes). (c ∷ p.0) ∷ p.1) (sym (read_word-words t)))

tokenize_loop-words :
    (fuel : ℕ) (s : Bytes) (tok : List Bytes)
    → length s < fuel
    → tokenize_loop fuel s tok ≡ tok ++ words s
tokenize_loop-words zero s tok h = absurd (omega arith)
tokenize_loop-words (suc fuel) s tok h = elim (front s) [
  | blank e ↦
      tokenize_loop_end fuel s tok e
      ∙ sym (append-nil tok)
      ∙ ap (◌++◌ tok) (sym (ap words e) ∙ words-skip_spaces s)
  | word c t e ↦
      let w = c ∷ (read_word t).0 in
      tokenize_loop_step fuel s tok c t e
      ∙ tokenize_loop-words fuel (read_word t).1 (tok ++ w ∷ [])
          (omega (arith, rest-shorter s c t e))
      ∙ append_assoc tok (w ∷ []) (words (read_word t).1)
      ∙ ap (◌++◌ tok) (sym (words-first s c t e))
]

-- The tokens of a line are exactly its words: the longest runs of bytes that are not white space, in
-- order. So none is empty or holds white space, and together they are the line without its white
-- space: no byte is lost, added or moved.
pub tokenize-words :
    (line : Bytes)
    → (tokenize line ≡ words line)
      × All IsWord (tokenize line)
      × (joined (tokenize line) ≡ squeeze line)
unfolding tokenize
tokenize-words line = (
  tokenize_loop-words (suc (length line)) line [] (omega arith),
  tokenize_loop-All (suc (length line)) line [] tt,
  joined-tokenize_loop (suc (length line)) line [] (omega arith),
)

-- Words behind a space each.
abbrev pub spaced : List Bytes → Bytes
spaced [] = []
spaced (w ∷ ws) = codes " " ++ (w ++ spaced ws)

-- Words with a space between each two.
abbrev pub unwords : List Bytes → Bytes
unwords [] = []
unwords (w ∷ ws) = w ++ spaced ws

read_word-spaced :
    (w : Bytes) (ws : List Bytes)
    → All (λ c. is_space c ≡ false) w
    → read_word (w ++ spaced ws) ≡ (w, spaced ws)
unfolding read_word
read_word-spaced [] [] h = refl
read_word-spaced [] (v ∷ ws) h = refl
read_word-spaced (c ∷ w) ws (hc, h) = rw (read_word-spaced w ws h, hc)

skip_spaces-solid : (c : ℕ) (s : Bytes) → is_space c ≡ false → skip_spaces (c ∷ s) ≡ c ∷ s
unfolding skip_spaces
skip_spaces-solid c s h = rw h

skip_spaces-space : (s : Bytes) → skip_spaces (32 ∷ s) ≡ skip_spaces s
unfolding skip_spaces
skip_spaces-space s = refl

tokenize_loop-spaced :
    (fuel : ℕ) (ws : List Bytes) (tok : List Bytes)
    → All IsWord ws
    → length (spaced ws) < fuel
    → tokenize_loop fuel (spaced ws) tok ≡ tok ++ ws
tokenize_loop-spaced zero ws tok h f = absurd (omega arith)
tokenize_loop-spaced (suc fuel) [] tok h f =
    tokenize_loop_end fuel [] tok (unfold skip_spaces in refl) ∙ sym (append-nil tok)
tokenize_loop-spaced (suc fuel) ([] ∷ ws) tok (hw, h) f = absurd (hw.occupied refl)
tokenize_loop-spaced (suc fuel) ((c ∷ w) ∷ ws) tok (hw, h) f =
    tokenize_loop_step fuel (spaced ((c ∷ w) ∷ ws)) tok c (w ++ spaced ws)
      (skip_spaces-space ((c ∷ w) ++ spaced ws) ∙ skip_spaces-solid c (w ++ spaced ws) hw.solid.0)
    ∙ rw (read_word-spaced w ws hw.solid.1) (
        tokenize_loop-spaced fuel ws (tok ++ (c ∷ w) ∷ []) h
          (omega (arith, length-append w (spaced ws)))
        ∙ append_assoc tok ((c ∷ w) ∷ []) ws)

-- A line made of words and single spaces is taken apart into those words.
pub tokenize-unwords : (ws : List Bytes) → All IsWord ws → tokenize (unwords ws) ≡ ws
unfolding tokenize
tokenize-unwords [] h = unfold skip_spaces in refl
tokenize-unwords ([] ∷ ws) (hw, h) = absurd (hw.occupied refl)
tokenize-unwords ((c ∷ w) ∷ ws) (hw, h) =
    tokenize_loop_step (length (unwords ((c ∷ w) ∷ ws))) (unwords ((c ∷ w) ∷ ws)) [] c
      (w ++ spaced ws) (skip_spaces-solid c (w ++ spaced ws) hw.solid.0)
    ∙ rw (read_word-spaced w ws hw.solid.1) (
        tokenize_loop-spaced (length (unwords ((c ∷ w) ∷ ws))) ws ((c ∷ w) ∷ []) h
          (omega (arith, length-append w (spaced ws))))
