-- ===== src/Book/Lots.antt =====
-- The units of an order: an independent account of what a queue holds and of what fills trade.
use the_socket_exchange.Common.{
  ℕ, zero, suc, ◌-◌, ◌≤◌, List, [], ◌∷◌, ◌++◌, ◌≡◌, refl, ap, ◌∙◌, sym, arith, map, append_assoc,
  length, take, drop, replicate,
}
use the_socket_exchange.Book.{Order, Fill, make_fill}

-- A queue as its units, each an order of quantity 1, oldest first.
abbrev pub lots : List Order → List Order
lots [] = []
lots (o ∷ q) = replicate o.qty (record o { qty = 1 }) ++ lots q

-- Fills as trades of one unit each.
abbrev pub fill_lots : List Fill → List Fill
fill_lots [] = []
fill_lots (f ∷ fs) = replicate f.qty (record f { qty = 1 }) ++ fill_lots fs

-- The trade of one unit between an incoming order and a resting one.
abbrev pub trade_lot : Order → Order → Fill
trade_lot o resting = make_fill o resting 1

module _ {ℓ} {A : Type ℓ} where
  pub take_all_of : (n : ℕ) (a : A) (xs : List A) → take n (replicate n a ++ xs) ≡ replicate n a
  take_all_of zero a xs = refl
  take_all_of (suc n) a xs = ap (◌∷◌ a) (take_all_of n a xs)

  pub length-replicate : (n : ℕ) (a : A) → length (replicate n a) ≡ n
  length-replicate zero a = refl
  length-replicate (suc n) a = ap suc (length-replicate n a)

  -- Past the copies.
  pub drop-replicate_ge :
      (m n : ℕ) (a : A) (xs : List A) → m ≤ n → drop n (replicate m a ++ xs) ≡ drop (n - m) xs
  drop-replicate_ge zero n a xs h = ap (λ k. drop k xs) (omega arith)
  drop-replicate_ge (suc m) zero a xs h = absurd (omega arith)
  drop-replicate_ge (suc m) (suc n) a xs h =
      drop-replicate_ge m n a xs (omega arith) ∙ ap (λ k. drop k xs) (omega arith)

  pub take-replicate_ge :
      (m n : ℕ) (a : A) (xs : List A)
      → m ≤ n
      → take n (replicate m a ++ xs) ≡ replicate m a ++ take (n - m) xs
  take-replicate_ge zero n a xs h = ap (λ k. take k xs) (omega arith)
  take-replicate_ge (suc m) zero a xs h = absurd (omega arith)
  take-replicate_ge (suc m) (suc n) a xs h = ap (◌∷◌ a) (
      take-replicate_ge m n a xs (omega arith) ∙ ap (λ k. replicate m a ++ take k xs) (omega arith))

  -- Within the copies.
  pub drop-replicate_le :
      (m n : ℕ) (a : A) (xs : List A)
      → n ≤ m
      → drop n (replicate m a ++ xs) ≡ replicate (m - n) a ++ xs
  drop-replicate_le m zero a xs h = ap (λ k. replicate k a ++ xs) (omega arith)
  drop-replicate_le zero (suc n) a xs h = absurd (omega arith)
  drop-replicate_le (suc m) (suc n) a xs h =
      drop-replicate_le m n a xs (omega arith) ∙ ap (λ k. replicate k a ++ xs) (omega arith)

  pub take-replicate_le :
      (m n : ℕ) (a : A) (xs : List A) → n ≤ m → take n (replicate m a ++ xs) ≡ replicate n a
  take-replicate_le m zero a xs h = refl
  take-replicate_le zero (suc n) a xs h = absurd (omega arith)
  take-replicate_le (suc m) (suc n) a xs h = ap (◌∷◌ a) (take-replicate_le m n a xs (omega arith))

pub map-replicate {ℓ κ} :
    {A : Type ℓ} {B : Type κ} (f : A → B) (n : ℕ) (a : A)
    → map f (replicate n a) ≡ replicate n (f a)
map-replicate f zero a = refl
map-replicate f (suc n) a = ap (◌∷◌ (f a)) (map-replicate f n a)

pub fill_lots-append : (fs gs : List Fill) → fill_lots (fs ++ gs) ≡ fill_lots fs ++ fill_lots gs
fill_lots-append [] gs = refl
fill_lots-append (f ∷ fs) gs =
    ap (◌++◌ (replicate f.qty (record f { qty = 1 }))) (fill_lots-append fs gs)
    ∙ sym (append_assoc (replicate f.qty (record f { qty = 1 })) (fill_lots fs) (fill_lots gs))
