-- ===== src/Protocol.antt =====
-- common/protocol.hpp and common/protocol.cpp: the words of a line, the numbers and instruments that
-- are accepted, and the messages. A `std::string` is a list of bytes; classes of characters are
-- those of the "C" locale, which the programs never leave.
pub mod Numbers
pub mod Words
pub mod Messages
use the_socket_exchange.Common.{
  ℕ, zero, suc, ◌+◌, ◌-◌, ◌*◌, ◌/◌, ◌%◌, ◌^◌, Option, none, some, List, [], ◌∷◌, ◌++◌, Bool, true,
  false, ◌&&◌, ◌||◌, if◌then◌else◌, ltb, leb, ◌==◌, nat_eq, bytes_eq, Bytes, codes, length,
  is_empty,
}

-- INSTRUMENTS
abbrev pub instruments : List Bytes
instruments = codes "JNST" ∷ codes "IMCT" ∷ []

-- The loop of `is_valid_instrument` over the instruments from the i-th on.
unfoldable pub one_of : List Bytes → Bytes → Bool
one_of [] s = false
one_of (i ∷ is) s = if s == i then true else one_of is s

unfoldable pub is_valid_instrument : Bytes → Bool
unfolding one_of
is_valid_instrument = one_of instruments

-- MAX_VALUE
abbrev pub max_value : ℕ
max_value = 2147483647

-- `std::isdigit`
abbrev pub is_digit : ℕ → Bool
is_digit c = leb b'0' c && leb c b'9'

unfoldable pub all_digits : Bytes → Bool
all_digits [] = true
all_digits (c ∷ s) = if is_digit c then all_digits s else false

-- The number that a run of digits spells behind `n`.
abbrev pub decimal_from : ℕ → Bytes → ℕ
decimal_from n [] = n
decimal_from n (c ∷ s) = decimal_from (n * 10 + (c - b'0')) s

-- `std::from_chars` on a run of digits, into a `long long`: `none` is `result_out_of_range`, which
-- leaves the target as it was.
abbrev pub from_chars : Bytes → Option ℕ
from_chars s = if ltb (decimal_from 0 s) (2 ^ 63) then some (decimal_from 0 s) else none

-- The part of `parse_nonnegative_int` behind `from_chars`: the result, and what `out` holds.
abbrev pub in_range : Option ℕ → ℕ → Bool × ℕ
in_range none out = (false, out)
in_range (some v) out = if ltb max_value v then (false, v) else (true, v)

unfoldable pub parse_nonnegative_int : Bytes → ℕ → Bool × ℕ
unfolding all_digits
parse_nonnegative_int s out =
    if is_empty s
    then (false, out)
    else if all_digits s
    then in_range (from_chars s) out
    else (false, out)

unfoldable pub parse_positive_int : Bytes → ℕ → Bool × ℕ
parse_positive_int s out =
    let (ok, v) = parse_nonnegative_int s out in if ok then (ltb 0 v, v) else (false, v)

-- `std::isspace`: space, \t, \n, \v, \f and \r
abbrev pub is_space : ℕ → Bool
is_space c = (c == 32) || (leb 9 c && leb c 13)

-- One `iss >> w`: leading white space is skipped, and the word goes up to the next white space.
unfoldable pub skip_spaces : Bytes → Bytes
skip_spaces [] = []
skip_spaces (c ∷ s) = if is_space c then skip_spaces s else c ∷ s

-- The bytes up to the next white space, and what follows.
unfoldable pub read_word : Bytes → Bytes × Bytes
read_word [] = ([], [])
read_word (c ∷ s) = let (w, rest) = read_word s in if is_space c then ([], c ∷ s) else (c ∷ w, rest)

-- `while (iss >> w) tok.push_back(w)`: each round reads a byte at least, so a fuel above the line's
-- length is enough.
unfoldable pub tokenize_loop : ℕ → Bytes → List Bytes → List Bytes
tokenize_loop zero s tok = tok
tokenize_loop (suc fuel) s tok =
    let text = skip_spaces s in
    let next = tokenize_loop fuel (read_word text).1 (tok ++ (read_word text).0 ∷ []) in
    if is_empty text then tok else next

unfoldable pub tokenize : Bytes → List Bytes
unfolding tokenize_loop
tokenize line = tokenize_loop (suc (length line)) line []

-- `std::to_string`, with a fuel above the number of digits
unfoldable pub print_digits : ℕ → ℕ → Bytes
print_digits zero n = []
print_digits (suc fuel) n = elim (ltb n 10) [
  | true ↦ (b'0' + n) ∷ []
  | false ↦ print_digits fuel (n / 10) ++ (b'0' + n % 10) ∷ []
]

unfoldable pub to_string : ℕ → Bytes
unfolding print_digits
to_string n = print_digits (suc n) n

abbrev pub msg_ok : Bytes
msg_ok = codes "OK"

unfoldable pub msg_error : Bytes → Bytes
msg_error reason = codes "ERROR " ++ reason

unfoldable pub msg_order_accepted : ℕ → Bytes
msg_order_accepted id = codes "ORDER_ACCEPTED " ++ to_string id

unfoldable pub msg_order_cancelled : ℕ → Bytes
msg_order_cancelled id = codes "ORDER_CANCELLED " ++ to_string id

-- `i + " " + std::to_string(q) + " " + std::to_string(p)`
abbrev pub trade_fields : Bytes → ℕ → ℕ → Bytes
trade_fields i q p = i ++ (codes " " ++ (to_string q ++ (codes " " ++ to_string p)))

unfoldable pub msg_bought : Bytes → ℕ → ℕ → Bytes
msg_bought i q p = codes "BOUGHT " ++ trade_fields i q p

unfoldable pub msg_sold : Bytes → ℕ → ℕ → Bytes
msg_sold i q p = codes "SOLD " ++ trade_fields i q p

unfoldable pub msg_trade : Bytes → ℕ → ℕ → Bytes
msg_trade i q p = codes "TRADE " ++ trade_fields i q p
