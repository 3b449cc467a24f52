-- ===== src/Tests/Books.antt =====
-- The order book at work, and the properties of its operations at concrete books.
use the_socket_exchange.Common.{
  get_elem?, some, if◌then◌else◌, ◌<◌, [], ◌∷◌, true, false, ◌≡◌, refl, arith, nat_eq, bytes_eq,
}
use the_socket_exchange.Assoc
use the_socket_exchange.PriceMap
use the_socket_exchange.Book.{
  buy, sell, OrderBook, make_fill, match_front, match_loop, store_level, match_level, rest_order,
  submit_to, submit, init, next_id,
}
use the_socket_exchange.Book.Refinement.{Submitted, submit-Submitted}
use the_socket_exchange.Book.Invariant.{IsValid, submit-IsValid}
use the_socket_exchange.Book.Invariant.Uncrossed.{IsUncrossed, submit-IsUncrossed}
use the_socket_exchange.Book.Cancel.{
  cancel_queue, cancel_levels, cancel_sides, cancel_books, cancel, remove_orders_of,
}
use the_socket_exchange.Book.Cancel.Flat.{resting, cancel_lem}
use the_socket_exchange.Book.Cancel.Remove.{remove_orders_of_lem}
use the_socket_exchange.Book.Cancel.Invariant.{cancel-IsValid}
use the_socket_exchange.Book.History.{Evolves, unchanged, placed, Evolves-sound}
use the_socket_exchange.Book.Ids.{count}
use the_socket_exchange.Book.Ids.Unique.{cancel-resting}
use the_socket_exchange.Tests.Fixtures.{jnst, order, two_sells, incoming}

-- The oldest sell is filled whole, the next one in part, and nothing of the buy rests.
two_fills :
    (submit incoming two_sells).1
    ≡ record {
      instrument = jnst;
      qty = 30;
      price = 100;
      buyer_fd = 7;
      sell_fd = 5;
      buyer_seq = 7;
      sell_seq = 5;
    }
      ∷ record {
        instrument = jnst;
        qty = 30;
        price = 100;
        buyer_fd = 7;
        sell_fd = 6;
        buyer_seq = 7;
        sell_seq = 6;
      }
      ∷ []
unfolding submit submit_to match_level match_loop match_front make_fill store_level rest_order
    PriceMap.lookup Assoc.lookup
two_fills = refl

left_after : resting (submit incoming two_sells).0 ≡ order 1 sell 20 100 6 ∷ []
unfolding submit submit_to match_level match_loop match_front make_fill store_level rest_order
    PriceMap.lookup PriceMap.insert PriceMap.erase Assoc.lookup Assoc.insert
left_after = refl

-- A better price does not match: only equal prices trade.
no_match : (submit (order 2 buy 60 101 7) two_sells).1 ≡ []
unfolding submit submit_to match_level rest_order PriceMap.lookup Assoc.lookup
no_match = refl

cancel_own : (cancel 1 6 6 two_sells).1 ≡ true
unfolding cancel cancel_books cancel_sides cancel_levels cancel_queue
cancel_own = refl

cancel_of_another : (cancel 1 5 5 two_sells).1 ≡ false
unfolding cancel cancel_books cancel_sides cancel_levels cancel_queue
cancel_of_another = refl

-- The descriptor was reused by a later session.
cancel_by_stale : (cancel 1 6 9 two_sells).1 ≡ false
unfolding cancel cancel_books cancel_sides cancel_levels cancel_queue
cancel_by_stale = refl

two_sells-IsValid : IsValid two_sells
two_sells-IsValid = record {
  books = (
    record {
      buys = record { ascending = tt; levels = tt };
      sells = record {
        ascending = tt;
        levels = (
          record {
            occupied = λ e. cc;
            orders = (
              record {
                instrument = refl;
                side = refl;
                price = refl;
                positive = omega arith;
                issued = omega arith;
              },
              (
                record {
                  instrument = refl;
                  side = refl;
                  price = refl;
                  positive = omega arith;
                  issued = omega arith;
                },
                tt,
              ),
            );
          },
          tt,
        );
      };
    },
    tt,
  );
}

-- The book that two placed sells lead to.
abbrev grown : OrderBook
grown = (submit (order 0 sell 30 100 5) (next_id init).0).0

grown-Evolves : Evolves init grown
unfolding next_id
grown-Evolves = placed (order 0 sell 30 100 5) refl unchanged

submit-Submitted_example :
    Submitted incoming two_sells (submit incoming two_sells).0 (submit incoming two_sells).1
submit-Submitted_example = submit-Submitted incoming two_sells

cancel_lem_example :
    ((cancel 1 6 6 two_sells).1 ≡ true)
    × (resting (cancel 1 6 6 two_sells).0 ≡ order 0 sell 30 100 5 ∷ [])
cancel_lem_example = cancel_lem 1 6 6 two_sells

remove_orders_of_lem_example :
    ((remove_orders_of 6 two_sells).1 ≡ 1 ∷ [])
    × (resting (remove_orders_of 6 two_sells).0 ≡ order 0 sell 30 100 5 ∷ [])
remove_orders_of_lem_example = remove_orders_of_lem 6 two_sells

submit-IsValid_example : IsValid (submit incoming two_sells).0
submit-IsValid_example = submit-IsValid incoming two_sells (omega arith) two_sells-IsValid

cancel-IsValid_example : IsValid (cancel 1 6 6 two_sells).0
cancel-IsValid_example = cancel-IsValid 1 6 6 two_sells two_sells-IsValid

grown_sound : IsValid grown × IsUncrossed grown
grown_sound = Evolves-sound grown grown-Evolves

grown-issued : 0 < grown.next_id
unfolding submit next_id
grown-issued = omega arith

submit-IsUncrossed_example : IsUncrossed (submit (order 0 buy 40 100 7) grown).0
submit-IsUncrossed_example =
    submit-IsUncrossed (order 0 buy 40 100 7) grown grown-issued grown_sound.0 grown_sound.1

-- Two sells, placed one after the other.
abbrev one_placed : OrderBook
one_placed = (submit (order 0 sell 30 100 5) (next_id init).0).0

abbrev two_placed : OrderBook
two_placed = (submit (order 1 sell 50 100 6) (next_id one_placed).0).0

two_placed-Evolves : Evolves init two_placed
unfolding submit submit_to match_level rest_order next_id PriceMap.lookup PriceMap.insert
    Assoc.lookup Assoc.insert
two_placed-Evolves =
    placed (order 1 sell 50 100 6) refl (placed (order 0 sell 30 100 5) refl unchanged)

second : get_elem? (resting two_placed) 1 ≡ some (order 1 sell 50 100 6)
unfolding submit submit_to match_level rest_order next_id PriceMap.lookup PriceMap.insert
    Assoc.lookup Assoc.insert
second = refl

cancel-resting_example :
    ((cancel 1 6 6 two_placed).1 ≡ true)
    × (count 1 (resting (cancel 1 6 6 two_placed).0)
        ≡ (if (cancel 1 6 6 two_placed).1 then 0 else 1))
    × ((cancel 1 6 6 two_placed).1 ≡ false
        → resting (cancel 1 6 6 two_placed).0 ≡ resting two_placed)
cancel-resting_example =
    cancel-resting two_placed 1 6 6 (order 1 sell 50 100 6) two_placed-Evolves second
