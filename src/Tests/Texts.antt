-- ===== src/Tests/Texts.antt =====
-- The protocol and the framing at concrete texts.
use the_socket_exchange.Common.{
  ◌<◌, [], ◌∷◌, true, false, ◌≡◌, refl, arith, codes, All, map, ◌↔◌, nat_eq, bytes_eq,
}
use the_socket_exchange.Framing.{
  empty, feed, split_line, strip_cr, next_line, drain_loop, drain, receive,
}
use the_socket_exchange.Framing.Stream.{frames, receive-frames}
use the_socket_exchange.Protocol.{
  one_of, is_valid_instrument, all_digits, decimal_from, parse_nonnegative_int, parse_positive_int,
  skip_spaces, read_word, tokenize_loop, tokenize, to_string, msg_bought, msg_sold, msg_trade,
}
use the_socket_exchange.Protocol.Numbers.{
  IsNumber, parse_nonnegative_int_iff, parse_positive_int_iff, parse_nonnegative_int-to_string,
  parse_nonnegative_int_too_large,
}
use the_socket_exchange.Protocol.Words.Rounds.{IsWord}
use the_socket_exchange.Protocol.Words.{joined, tokenize-words, tokenize-unwords}
use the_socket_exchange.Protocol.Messages.{tokenize-trade_messages}

numbers :
    (parse_nonnegative_int (codes "2147483647") 0 ≡ (true, 2147483647))
    × (parse_nonnegative_int (codes "2147483648") 7 ≡ (false, 2147483648))
    × (parse_nonnegative_int (codes "-1") 7 ≡ (false, 7))
    × (parse_positive_int (codes "0") 7 ≡ (false, 0))
unfolding parse_positive_int parse_nonnegative_int all_digits
numbers = (refl, refl, refl, refl)

words :
    tokenize (codes "  BUY JNST\t5 100\r")
    ≡ codes "BUY" ∷ codes "JNST" ∷ codes "5" ∷ codes "100" ∷ []
unfolding tokenize tokenize_loop skip_spaces read_word
words = refl

-- A line that arrives in two pieces, with a carriage return, and the start of the next.
pieces :
    receive empty (codes "LOGIN al" ∷ codes "ice\r\nBUY" ∷ [])
    ≡ (codes "LOGIN alice" ∷ [], record { buf = codes "BUY" })
unfolding receive drain drain_loop next_line strip_cr split_line feed
pieces = refl

receive-frames_example : receive empty (codes "LOGIN al" ∷ codes "ice\r\nBUY" ∷ []) ≡ (
  map strip_cr (frames (codes "LOGIN alice\r\nBUY")).0,
  record { buf = (frames (codes "LOGIN alice\r\nBUY")).1 },
)
receive-frames_example = receive-frames empty (codes "LOGIN al" ∷ codes "ice\r\nBUY" ∷ []) tt

parse_nonnegative_int_iff_example :
    ((parse_nonnegative_int (codes "42") 0).0 ≡ true) ↔ IsNumber (codes "42")
parse_nonnegative_int_iff_example = parse_nonnegative_int_iff (codes "42") 0

parse_positive_int_iff_example :
    ((parse_positive_int (codes "42") 0).0 ≡ true)
    ↔ (IsNumber (codes "42") × (0 < decimal_from 0 (codes "42")))
parse_positive_int_iff_example = parse_positive_int_iff (codes "42") 0

parse_nonnegative_int-to_string_example : parse_nonnegative_int (to_string 4200) 7 ≡ (true, 4200)
parse_nonnegative_int-to_string_example = parse_nonnegative_int-to_string 4200 7 (omega arith)

parse_nonnegative_int_too_large_example : (parse_nonnegative_int (to_string 2147483648) 7).0 ≡ false
parse_nonnegative_int_too_large_example = parse_nonnegative_int_too_large 2147483648 7 (omega arith)

tokenize-words_example :
    (tokenize (codes " BUY JNST") ≡ codes "BUY" ∷ codes "JNST" ∷ [])
    × All IsWord (tokenize (codes " BUY JNST"))
    × (joined (tokenize (codes " BUY JNST")) ≡ codes "BUYJNST")
tokenize-words_example = tokenize-words (codes " BUY JNST")

two_words : All IsWord (codes "CANCEL" ∷ codes "12" ∷ [])
two_words = (
  record { occupied = λ e. cc; solid = (refl, (refl, (refl, (refl, (refl, (refl, tt)))))) },
  (record { occupied = λ e. cc; solid = (refl, (refl, tt)) }, tt),
)

tokenize-unwords_example : tokenize (codes "CANCEL 12") ≡ codes "CANCEL" ∷ codes "12" ∷ []
tokenize-unwords_example = tokenize-unwords (codes "CANCEL" ∷ codes "12" ∷ []) two_words

a_valid_instrument : is_valid_instrument (codes "IMCT") ≡ true
unfolding is_valid_instrument one_of
a_valid_instrument = refl

tokenize-trade_messages_example :
    (tokenize (msg_bought (codes "IMCT") 5 9)
      ≡ codes "BOUGHT" ∷ codes "IMCT" ∷ to_string 5 ∷ to_string 9 ∷ [])
    × (tokenize (msg_sold (codes "IMCT") 5 9)
        ≡ codes "SOLD" ∷ codes "IMCT" ∷ to_string 5 ∷ to_string 9 ∷ [])
    × (tokenize (msg_trade (codes "IMCT") 5 9)
        ≡ codes "TRADE" ∷ codes "IMCT" ∷ to_string 5 ∷ to_string 9 ∷ [])
tokenize-trade_messages_example = tokenize-trade_messages (codes "IMCT") 5 9 a_valid_instrument
