-- ===== src/Book/Matching.antt =====
-- The matching loop of `submit` against the units of the queue that it meets.
use mathlib.Core.List.{map-append}
use the_socket_exchange.Common.{
  ℕ, zero, suc, ◌-◌, ◌≤◌, ◌<◌, min, List, [], ◌∷◌, ◌++◌, ◌≡◌, refl, ap, ◌∙◌, sym, arith, map,
  append_assoc, append-nil, length, take, drop, take-nil, drop-nil, replicate, length-append,
  nat_beq, dec_le, ltb, true, false,
}
use the_socket_exchange.Book.{Order, Fill, Match, make_fill, match_loop}
use the_socket_exchange.Book.Lots.{
  lots, fill_lots, trade_lot, take-replicate_ge, take-replicate_le, drop-replicate_ge,
  drop-replicate_le, length-replicate, map-replicate, fill_lots-append,
}

-- What the loop must come to: the oldest units are taken, one trade each.
pub record Consumes (o : Order) (queue : List Order) (fills : List Fill) (m : Match) : Type 0 where
  pub left : lots m.queue ≡ drop o.qty (lots queue)
  pub traded : fill_lots m.fills ≡ fill_lots fills ++ map (trade_lot o) (take o.qty (lots queue))
  pub rest : m.o ≡ record o { qty = o.qty - length (lots queue) }

-- An order with nothing left ends the loop, whatever the fuel.
match_loop_done :
    (fuel : ℕ) (o : Order) (queue : List Order) (fills : List Fill)
    → o.qty ≡ 0
    → match_loop fuel o queue fills ≡ record { o = o; queue = queue; fills = fills }
unfolding match_loop
match_loop_done zero o queue fills h = refl
match_loop_done (suc fuel) o [] fills h = refl
match_loop_done (suc fuel) o (r ∷ rest) fills h = ground arith

-- A resting order that is no larger is used up.
match_loop_pop :
    (fuel : ℕ) (o r : Order) (rest : List Order) (fills : List Fill)
    → 0 < o.qty
    → r.qty ≤ o.qty
    → match_loop (suc fuel) o (r ∷ rest) fills
      ≡ match_loop fuel (record o { qty = o.qty - r.qty }) rest (fills ++ make_fill o r r.qty ∷ [])
unfolding match_loop
match_loop_pop fuel o r rest fills h k =
    let e : min o.qty r.qty ≡ r.qty = omega arith in
    let z : r.qty - r.qty ≡ 0 = omega arith in
    let t : ltb 0 o.qty ≡ true = ground arith in rw (t, e, z)

-- A larger one keeps its remainder, and the loop ends.
match_loop_stop :
    (fuel : ℕ) (o r : Order) (rest : List Order) (fills : List Fill)
    → 0 < o.qty
    → o.qty < r.qty
    → match_loop (suc fuel) o (r ∷ rest) fills ≡ record {
      o = record o { qty = 0 };
      queue = record r { qty = r.qty - o.qty } ∷ rest;
      fills = fills ++ make_fill o r o.qty ∷ [];
    }
unfolding match_loop
match_loop_stop fuel o r rest fills h k =
    let e : min o.qty r.qty ≡ o.qty = omega arith in
    let z : o.qty - o.qty ≡ 0 = omega arith in
    let t : ltb 0 o.qty ≡ true = ground arith in
    let n : nat_beq (r.qty - o.qty) 0 ≡ false = ground arith in
    rw (t, e, z, n) (match_loop_done fuel _ _ _ refl)

-- The unit trades of one fill, in front of those of the rest.
trade_lots-front :
    (o r : Order) (n : ℕ) (fills : List Fill) (later : List Order)
    → fill_lots (fills ++ make_fill o r n ∷ []) ++ map (trade_lot o) later
      ≡ fill_lots fills ++ map (trade_lot o) (replicate n (record r { qty = 1 }) ++ later)
unfolding make_fill
trade_lots-front o r n fills later = rw (
  fill_lots-append fills (make_fill o r n ∷ []),
  map-append (trade_lot o) (replicate n (record r { qty = 1 })) later,
  map-replicate (trade_lot o) n (record r { qty = 1 }),
  append_assoc (fill_lots fills) (fill_lots (make_fill o r n ∷ [])) (map (trade_lot o) later),
  append-nil (replicate n (record (make_fill o r n) { qty = 1 })),
)

module _ (fuel : ℕ) (o r : Order) (rest : List Order) (fills : List Fill) where
  Consumes-pop :
      (m : Match)
      → r.qty ≤ o.qty
      → Consumes (record o { qty = o.qty - r.qty }) rest (fills ++ make_fill o r r.qty ∷ []) m
      → Consumes o (r ∷ rest) fills m
  unfolding make_fill
  Consumes-pop m k c = record {
    left = c.left ∙ sym (drop-replicate_ge r.qty o.qty (record r { qty = 1 }) (lots rest) k);
    traded =
        c.traded
        ∙ trade_lots-front o r r.qty fills (take (o.qty - r.qty) (lots rest))
        ∙ ap (λ l. fill_lots fills ++ map (trade_lot o) l)
            (sym (take-replicate_ge r.qty o.qty (record r { qty = 1 }) (lots rest) k));
    rest =
        c.rest
        ∙ ap (λ q. record o { qty = q })
            (omega (
              arith,
              length-append (replicate r.qty (record r { qty = 1 })) (lots rest),
              length-replicate r.qty (record r { qty = 1 }),
            ));
  }

  Consumes-stop :
      o.qty < r.qty
      → Consumes o (r ∷ rest) fills (record {
        o = record o { qty = 0 };
        queue = record r { qty = r.qty - o.qty } ∷ rest;
        fills = fills ++ make_fill o r o.qty ∷ [];
      })
  Consumes-stop k = record {
    left = sym (drop-replicate_le r.qty o.qty (record r { qty = 1 }) (lots rest) (omega arith));
    traded =
        sym (append-nil _)
        ∙ trade_lots-front o r o.qty fills []
        ∙ ap (λ l. fill_lots fills ++ map (trade_lot o) l)
            (append-nil (replicate o.qty (record r { qty = 1 }))
              ∙ sym
                  (take-replicate_le r.qty o.qty (record r { qty = 1 }) (lots rest) (omega arith)));
    rest =
        ap (λ q. record o { qty = q })
          (omega (
            arith,
            length-append (replicate r.qty (record r { qty = 1 })) (lots rest),
            length-replicate r.qty (record r { qty = 1 }),
          ));
  }

pub match_loop-Consumes :
    (fuel : ℕ) (o : Order) (queue : List Order) (fills : List Fill)
    → length queue < fuel
    → Consumes o queue fills (match_loop fuel o queue fills)
match_loop-Consumes zero o queue fills h = absurd (omega arith)
match_loop-Consumes (suc fuel) o [] fills h =
    unfold match_loop in
    record {
      left = sym (drop-nil o.qty);
      traded = sym (rw take-nil (append-nil (fill_lots fills)));
      rest = ap (λ q. record o { qty = q }) (omega arith);
    }
match_loop-Consumes (suc fuel) o (r ∷ rest) fills h = elim (dec_le 1 o.qty) [
  | no idle ↦
      let z : o.qty ≡ 0 = omega arith in
      rw (match_loop_done (suc fuel) o (r ∷ rest) fills z) (record {
        left = rw z refl;
        traded = rw z (sym (append-nil (fill_lots fills)));
        rest = ap (λ q. record o { qty = q }) (omega arith);
      })
  | yes busy ↦ elim (dec_le r.qty o.qty) [
    | yes k ↦ rw (match_loop_pop fuel o r rest fills busy k) (
        Consumes-pop fuel o r rest fills _ k (
          match_loop-Consumes fuel (record o { qty = o.qty - r.qty }) rest
            (fills ++ make_fill o r r.qty ∷ []) (omega arith)))
    | no k ↦
        let lt : o.qty < r.qty = omega arith in
        rw (match_loop_stop fuel o r rest fills busy lt) (Consumes-stop fuel o r rest fills lt)
  ]
]
