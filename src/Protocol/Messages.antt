-- ===== src/Protocol/Messages.antt =====
-- The messages of the server, as the words that a client reads in them.
use the_socket_exchange.Common.{
  ℕ, [], ◌∷◌, ◌++◌, true, false, ◌≡◌, ◌↔◌, ◌⊎◌, inl, inr, ap, ◌∙◌, sym, arith, All, All-mono, Bytes,
  bytes_eq, bytes_beq_iff, append-nil, codes,
}
use the_socket_exchange.Protocol.{
  is_space, tokenize, to_string, is_valid_instrument, msg_order_accepted, msg_order_cancelled,
  msg_bought, msg_sold, msg_trade,
}
use the_socket_exchange.Protocol.Numbers.{IsDigit, to_string-digits, to_string-ne-nil}
use the_socket_exchange.Protocol.Words.Rounds.{IsWord}
use the_socket_exchange.Protocol.Words.{tokenize-unwords}

-- An instrument is accepted exactly if it is one of the two.
pub is_valid_instrument_iff :
    (s : Bytes) → (is_valid_instrument s ≡ true) ↔ ((s ≡ codes "JNST") ⊎ (s ≡ codes "IMCT"))
unfolding is_valid_instrument
is_valid_instrument_iff s =
    ground (arith, bytes_beq_iff s (codes "JNST"), bytes_beq_iff s (codes "IMCT"))

digit_not_space : (c : ℕ) → IsDigit c → is_space c ≡ false
digit_not_space c h = ground arith

pub to_string-IsWord : (n : ℕ) → IsWord (to_string n)
to_string-IsWord n = record {
  occupied = to_string-ne-nil n;
  solid = All-mono IsDigit _ digit_not_space (to_string n) (to_string-digits n);
}

pub instrument-IsWord : (i : Bytes) → is_valid_instrument i ≡ true → IsWord i
instrument-IsWord i h = go ((is_valid_instrument_iff i).0 h)
  where
    go : ((i ≡ codes "JNST") ⊎ (i ≡ codes "IMCT")) → IsWord i
    go (inl e) = rw e (record { occupied = λ q. cc; solid = ground arith })
    go (inr e) = rw e (record { occupied = λ q. cc; solid = ground arith })

literal-IsWord : (c : ℕ) (w : Bytes) → All (λ x. is_space x ≡ false) (c ∷ w) → IsWord (c ∷ w)
literal-IsWord c w h = record { occupied = λ q. cc; solid = h }

-- A keyword and one number.
one_field :
    (keyword field : Bytes)
    → IsWord keyword
    → IsWord field
    → tokenize (keyword ++ (codes " " ++ field)) ≡ keyword ∷ field ∷ []
one_field keyword field k f =
    ap (λ s. tokenize (keyword ++ (codes " " ++ s))) (sym (append-nil field))
    ∙ tokenize-unwords (keyword ∷ field ∷ []) (k, (f, tt))

-- A keyword, an instrument and two numbers.
three_fields :
    (keyword i q p : Bytes)
    → IsWord keyword
    → IsWord i
    → IsWord q
    → IsWord p
    → tokenize (keyword ++ (codes " " ++ (i ++ (codes " " ++ (q ++ (codes " " ++ p))))))
      ≡ keyword ∷ i ∷ q ∷ p ∷ []
three_fields keyword i q p hk hi hq hp =
    ap (λ s. tokenize (keyword ++ (codes " " ++ (i ++ (codes " " ++ (q ++ (codes " " ++ s)))))))
      (sym (append-nil p))
    ∙ tokenize-unwords (keyword ∷ i ∷ q ∷ p ∷ []) (hk, (hi, (hq, (hp, tt))))

-- The replies about one order are their keyword and the id.
pub tokenize-order_messages :
    (id : ℕ)
    → (tokenize (msg_order_accepted id) ≡ codes "ORDER_ACCEPTED" ∷ to_string id ∷ [])
      × (tokenize (msg_order_cancelled id) ≡ codes "ORDER_CANCELLED" ∷ to_string id ∷ [])
unfolding msg_order_accepted msg_order_cancelled
tokenize-order_messages id = (
  one_field (codes "ORDER_ACCEPTED") (to_string id) (literal-IsWord _ _ (ground arith))
      (to_string-IsWord id),
  one_field (codes "ORDER_CANCELLED") (to_string id) (literal-IsWord _ _ (ground arith))
      (to_string-IsWord id),
)

-- The three reports of a trade in a valid instrument are their keyword and the three fields.
pub tokenize-trade_messages :
    (i : Bytes) (q p : ℕ)
    → is_valid_instrument i ≡ true
    → (tokenize (msg_bought i q p) ≡ codes "BOUGHT" ∷ i ∷ to_string q ∷ to_string p ∷ [])
      × (tokenize (msg_sold i q p) ≡ codes "SOLD" ∷ i ∷ to_string q ∷ to_string p ∷ [])
      × (tokenize (msg_trade i q p) ≡ codes "TRADE" ∷ i ∷ to_string q ∷ to_string p ∷ [])
unfolding msg_bought msg_sold msg_trade
tokenize-trade_messages i q p h = (
  three_fields (codes "BOUGHT") i (to_string q) (to_string p) (literal-IsWord _ _ (ground arith)) hi
      hq hp,
  three_fields (codes "SOLD") i (to_string q) (to_string p) (literal-IsWord _ _ (ground arith)) hi
      hq hp,
  three_fields (codes "TRADE") i (to_string q) (to_string p) (literal-IsWord _ _ (ground arith)) hi
      hq hp,
)
  where
    hi : IsWord i
    hi = instrument-IsWord i h

    hq : IsWord (to_string q)
    hq = to_string-IsWord q

    hp : IsWord (to_string p)
    hp = to_string-IsWord p
