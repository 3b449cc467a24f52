-- ===== src/Scratch/Parsing.antt =====
-- t1.cpp: the protocol.
use the_socket_exchange.Common.{
  ℕ, none, some, List, [], ◌∷◌, Bool, false, not, ◌&&◌, ◌==◌, nat_eq, bytes_eq, Bytes, is_empty,
  length, get_elem?, codes,
}
use the_socket_exchange.Protocol.{
  is_valid_instrument, parse_nonnegative_int, parse_positive_int, tokenize, msg_ok, msg_error,
  msg_order_accepted, msg_order_cancelled, msg_bought, msg_sold, msg_trade,
}
use the_socket_exchange.Scratch.{all}

-- `f(s, v)`, where `v` does not matter.
abbrev refuses : (Bytes → ℕ → Bool × ℕ) → Bytes → Bool
refuses f s = not (f s 0).0

-- `f(s, v) && v == n`
abbrev reads_as : (Bytes → ℕ → Bool × ℕ) → Bytes → ℕ → Bool
reads_as f s n = (f s 0).0 && ((f s 0).1 == n)

unfoldable pub positive_checks : Bool
unfolding parse_positive_int
positive_checks = all (
    refuses parse_positive_int (codes "0")
    ∷ refuses parse_positive_int (codes "-5")
    ∷ refuses parse_positive_int (codes "12a")
    ∷ refuses parse_positive_int []
    ∷ refuses parse_positive_int (codes " 7")
    ∷ refuses parse_positive_int (codes "7 ")
    ∷ refuses parse_positive_int (codes "+7")
    ∷ refuses parse_positive_int (codes "99999999999999999999")
    ∷ reads_as parse_positive_int (codes "238") 238
    ∷ reads_as parse_positive_int (codes "1") 1
    ∷ [])

unfoldable pub nonnegative_checks : Bool
unfolding parse_nonnegative_int
nonnegative_checks = all (
    reads_as parse_nonnegative_int (codes "0") 0
    ∷ refuses parse_nonnegative_int (codes "-1")
    ∷ refuses parse_nonnegative_int (codes "x")
    ∷ reads_as parse_nonnegative_int (codes "42") 42
    ∷ [])

unfoldable pub instrument_checks : Bool
unfolding is_valid_instrument
instrument_checks = all (
    is_valid_instrument (codes "JNST")
    ∷ is_valid_instrument (codes "IMCT")
    ∷ not (is_valid_instrument (codes "AAPL"))
    ∷ not (is_valid_instrument (codes "jnst"))
    ∷ not (is_valid_instrument [])
    ∷ [])

-- `t[i] == word`
abbrev word_is : List Bytes → ℕ → Bytes → Bool
word_is t i word = elim (get_elem? t i) [ none ↦ false | some w ↦ w == word ]

unfoldable pub tokenize_checks : Bool
unfolding tokenize
tokenize_checks =
    let t = tokenize (codes "BUY JNST 100 238") in
    all (
      ((length t == 4) && (word_is t 0 (codes "BUY") && word_is t 3 (codes "238")))
      ∷ is_empty (tokenize [])
      ∷ is_empty (tokenize (codes "   "))
      ∷ (length (tokenize (codes "  LOGIN   alice  ")) == 2)
      ∷ [])

unfoldable pub message_checks : Bool
unfolding msg_error msg_order_accepted msg_order_cancelled msg_bought msg_sold msg_trade
message_checks = all (
    (msg_ok == codes "OK")
    ∷ (msg_error (codes "nope") == codes "ERROR nope")
    ∷ (msg_order_accepted 42 == codes "ORDER_ACCEPTED 42")
    ∷ (msg_order_cancelled 42 == codes "ORDER_CANCELLED 42")
    ∷ (msg_bought (codes "JNST") 60 238 == codes "BOUGHT JNST 60 238")
    ∷ (msg_sold (codes "JNST") 60 238 == codes "SOLD JNST 60 238")
    ∷ (msg_trade (codes "JNST") 60 238 == codes "TRADE JNST 60 238")
    ∷ [])
