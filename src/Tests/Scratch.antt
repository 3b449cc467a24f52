-- ===== src/Tests/Scratch.antt =====
-- The assertions of t1.cpp, t2.cpp and t5.cpp hold.
use the_socket_exchange.Common.{true, ◌≡◌, refl}
use the_socket_exchange.Protocol.{
  is_valid_instrument, one_of, parse_nonnegative_int, parse_positive_int, all_digits, tokenize,
  tokenize_loop, skip_spaces, read_word, to_string, print_digits, msg_error, msg_order_accepted,
  msg_order_cancelled, msg_bought, msg_sold, msg_trade,
}
use the_socket_exchange.Framing.{feed, next_line, split_line, strip_cr}
use the_socket_exchange.Assoc
use the_socket_exchange.PriceMap
use the_socket_exchange.Book.{
  next_id, submit, submit_to, rest_order, match_level, match_loop, match_front, store_level,
}
use the_socket_exchange.Book.Cancel.{
  cancel, cancel_books, cancel_sides, cancel_levels, cancel_queue, remove_orders_of, remove_books,
  remove_levels, remove_queue,
}
use the_socket_exchange.Scratch.Matching.{
  handout_example, exact_match, time_priority, remainder_rests, cancels, filled_is_gone,
  partial_cancel, removal, ids_and_quantities, rising_ids, other_session,
}
use the_socket_exchange.Scratch.Parsing.{
  positive_checks, nonnegative_checks, instrument_checks, tokenize_checks, message_checks,
}
use the_socket_exchange.Scratch.Lines.{
  script, guide_scenario, one_byte_at_a_time, coalesced, carriage_returns, long_tail,
}

parsing :
    (positive_checks ≡ true)
    × (nonnegative_checks ≡ true)
    × (instrument_checks ≡ true)
    × (tokenize_checks ≡ true)
    × (message_checks ≡ true)
unfolding positive_checks nonnegative_checks instrument_checks tokenize_checks message_checks
    is_valid_instrument one_of parse_nonnegative_int parse_positive_int all_digits tokenize
    tokenize_loop skip_spaces read_word to_string print_digits msg_error msg_order_accepted
    msg_order_cancelled msg_bought msg_sold msg_trade
parsing = (refl, refl, refl, refl, refl)

framing :
    (guide_scenario ≡ true)
    × (one_byte_at_a_time ≡ true)
    × (coalesced ≡ true)
    × (carriage_returns ≡ true)
unfolding guide_scenario one_byte_at_a_time coalesced carriage_returns script feed next_line
    split_line strip_cr
framing = (refl, refl, refl, refl)

framing_long : long_tail 1000 ≡ true
unfolding long_tail script feed next_line split_line strip_cr
framing_long = refl

matching :
    (handout_example ≡ true)
    × (exact_match ≡ true)
    × (time_priority ≡ true)
    × (remainder_rests ≡ true)
    × (cancels ≡ true)
    × (filled_is_gone ≡ true)
    × (partial_cancel ≡ true)
    × (removal ≡ true)
    × (ids_and_quantities ≡ true)
    × (other_session ≡ true)
unfolding handout_example exact_match time_priority remainder_rests cancels filled_is_gone
    partial_cancel removal ids_and_quantities rising_ids other_session next_id submit submit_to
    rest_order match_level match_loop match_front store_level cancel cancel_books cancel_sides
    cancel_levels cancel_queue remove_orders_of remove_books remove_levels remove_queue Assoc.lookup
    Assoc.insert PriceMap.lookup PriceMap.insert PriceMap.erase
matching = (refl, refl, refl, refl, refl, refl, refl, refl, refl, refl)
