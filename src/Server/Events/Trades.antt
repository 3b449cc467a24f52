-- ===== src/Server/Events/Trades.antt =====
-- What the lines of a session do to the order book, as a function of its standing.
use the_socket_exchange.Common.{
  List, [], ◌∷◌, ◌++◌, Bool, true, false, ◌≡◌, refl, ap, ◌∙◌, sym, Bytes, Bool-cases, inl, inr,
  if◌then◌else◌,
}
use the_socket_exchange.Book.{OrderBook}
use the_socket_exchange.Protocol.{tokenize}
use the_socket_exchange.Session.{ClientSession}
use the_socket_exchange.Server.Commands.BookEffect.{book_effect}
use the_socket_exchange.Server.Commands.Standing.{standing, settle, quits}

-- The effect on the book depends on the standing only.
standing_effect :
    (c : ClientSession) (ws : List Bytes) (b : OrderBook)
    → book_effect (standing c) ws b ≡ book_effect c ws b
standing_effect c [] b = refl
standing_effect c (cmd ∷ []) b = refl
standing_effect c (cmd ∷ w ∷ []) b = refl
standing_effect c (cmd ∷ w ∷ v ∷ []) b = refl
standing_effect c (cmd ∷ w ∷ v ∷ u ∷ []) b = refl
standing_effect c (cmd ∷ w ∷ v ∷ u ∷ t ∷ rest) b = refl

settle-standing :
    (c : ClientSession) (ws : List Bytes) → settle (standing c) ws ≡ standing (settle c ws)
settle-standing c [] = refl
settle-standing c (cmd ∷ args) = refl

module _ (c d : ClientSession) (ws : List Bytes) (same : standing c ≡ standing d) where
  pub same_effect : (b : OrderBook) → book_effect c ws b ≡ book_effect d ws b
  same_effect b =
      sym (standing_effect c ws b) ∙ ap (λ x. book_effect x ws b) same ∙ standing_effect d ws b

  pub settle_same : standing (settle c ws) ≡ standing (settle d ws)
  settle_same = sym (settle-standing c ws) ∙ ap (λ x. settle x ws) same ∙ settle-standing d ws

-- What lines of a session do to the book, one after the other, up to a QUIT.
abbrev pub trade_lines : ClientSession → List Bytes → OrderBook → OrderBook
trade_lines c [] b = b
trade_lines c (l ∷ ls) b =
    let b' = book_effect c (tokenize l) b in
    let more = trade_lines (settle c (tokenize l)) ls b' in if quits (tokenize l) then b' else more

-- Whether a QUIT is among the lines.
abbrev pub leaves : List Bytes → Bool
leaves [] = false
leaves (l ∷ ls) = if quits (tokenize l) then true else leaves ls

-- The session when the lines have settled its role.
abbrev pub settle_all : ClientSession → List Bytes → ClientSession
settle_all c [] = c
settle_all c (l ∷ ls) = settle_all (settle c (tokenize l)) ls

pub trade_lines-append :
    (c : ClientSession) (xs ys : List Bytes) (b : OrderBook)
    → trade_lines c (xs ++ ys) b ≡ (
        if leaves xs
        then trade_lines c xs b
        else trade_lines (settle_all c xs) ys (trade_lines c xs b))
trade_lines-append c [] ys b = refl
trade_lines-append c (x ∷ xs) ys b = elim (Bool-cases (quits (tokenize x))) [
  | inl e ↦ rw e refl
  | inr e ↦ rw e (trade_lines-append (settle c (tokenize x)) xs ys (book_effect c (tokenize x) b))
]
