-- ===== src/Server/Commands/Trading.antt =====
-- What a whole line does to the order book: the commands behind the role test.
use the_socket_exchange.Common.{
  ℕ, both, none, some, List, [], ◌∷◌, true, false, not, ◌&&◌, ◌||◌, ◌≡◌, refl, ap, ◌∙◌, sym, arith,
  ◌==◌, nat_eq, bytes_eq, bytes_beq_iff, Bytes, codes, if◌then◌else◌, Bool-cases, inl, inr,
}
use the_socket_exchange.Assoc
use the_socket_exchange.Assoc.Laws.{lookup-insert_self}
use the_socket_exchange.Book.{OrderBook}
use the_socket_exchange.Protocol.{tokenize}
use the_socket_exchange.Session.{ClientSession, Role, unknown, trader, market_data, default_session}
use the_socket_exchange.Server.{Server, is_trader, is_market_data}
use the_socket_exchange.Server.Commands.{
  session_at, dispatch, handle_tokens, handle_line, infer_role, role_for, is_trader_cmd, is_md_cmd,
}
use the_socket_exchange.Server.Commands.BookEffect.{
  order_effect, cancel_effect, book_effect, trading_effect, dispatch-book, quiet_reply,
}

inferred :
    (fd : ℕ) (cmd : Bytes) (s : Server) (c : ClientSession)
    → Assoc.lookup fd s.sessions ≡ some c
    → session_at fd (infer_role fd cmd s) ≡ record c { role = role_for cmd c.role }
inferred fd cmd s c found =
    ap (λ x. elim x as (λ _. ClientSession) [ none ↦ default_session | some d ↦ d ])
      (lookup-insert_self fd _ s.sessions)
    ∙ ap
        (λ x.
          let d : ClientSession = elim x [ none ↦ default_session | some d ↦ d ] in
          record d { role = role_for cmd d.role })
        found

-- The commands that reach the book are a trader's: the role test refuses just those of a
-- connection for market data.
gate :
    (role : Role) (cmd : Bytes) (x y b : OrderBook)
    → let refused = is_trader_cmd cmd && not (is_trader (role_for cmd role)) in
      let trading =
        if (cmd == codes "BUY") || (cmd == codes "SELL")
        then x
        else if cmd == codes "CANCEL"
        then y
        else b in
      let allowed = if is_market_data role then b else trading in
      (refused ≡ true → allowed ≡ b) × (refused ≡ false → allowed ≡ trading)
gate unknown cmd x y b = ground arith
gate trader cmd x y b = ground arith
gate market_data cmd x y b = ground arith

-- A subscription asks nothing of the book.
subscription_gate :
    (cmd : Bytes) (x y b : OrderBook)
    → is_md_cmd cmd ≡ true
    → (if (cmd == codes "BUY") || (cmd == codes "SELL")
        then x
        else if cmd == codes "CANCEL"
        then y
        else b)
      ≡ b
subscription_gate cmd x y b h = ground (
  arith,
  bytes_beq_iff cmd (codes "BUY"),
  bytes_beq_iff cmd (codes "SELL"),
  bytes_beq_iff cmd (codes "CANCEL"),
  bytes_beq_iff cmd (codes "SUBSCRIBE"),
  bytes_beq_iff cmd (codes "UNSUBSCRIBE"),
)

-- The role does not show in the effect of a command.
same_effect :
    (c : ClientSession) (r : Role) (cmd : Bytes) (args : List Bytes) (b : OrderBook)
    → trading_effect (record c { role = r }) cmd args b ≡ trading_effect c cmd args b
same_effect c r cmd [] b = refl
same_effect c r cmd (w ∷ []) b = refl
same_effect c r cmd (w ∷ v ∷ []) b = refl
same_effect c r cmd (w ∷ v ∷ u ∷ []) b = refl
same_effect c r cmd (w ∷ v ∷ u ∷ t ∷ rest) b = refl

module _ (fd : ℕ) (cmd : Bytes) (args : List Bytes) (s : Server) (c : ClientSession)
    (found : Assoc.lookup fd s.sessions ≡ some c) where
  inferred_role : (session_at fd (infer_role fd cmd s)).role ≡ role_for cmd c.role
  inferred_role = ap (λ (d : ClientSession). d.role) (inferred fd cmd s c found)

  dispatched :
      (dispatch fd cmd args (infer_role fd cmd s)).0.book ≡ trading_effect c cmd args s.book
  dispatched =
      dispatch-book fd cmd args (infer_role fd cmd s)
      ∙ ap (λ d. trading_effect d cmd args s.book) (inferred fd cmd s c found)
      ∙ same_effect c (role_for cmd c.role) cmd args s.book

  handle_tokens-book : (handle_tokens fd (cmd ∷ args) s).0.book ≡ book_effect c (cmd ∷ args) s.book
  unfolding handle_tokens
  handle_tokens-book =
      elim (Bool-cases (is_trader_cmd cmd && not (is_trader (role_for cmd c.role)))) [
        | inl a ↦
            rw (inferred_role, a)
              (quiet_reply fd _ (infer_role fd cmd s) ∙ sym ((gate c.role cmd x y s.book).0 a))
        | inr a ↦ elim (Bool-cases (is_md_cmd cmd && not (is_market_data (role_for cmd c.role)))) [
          | inl b ↦
              rw (inferred_role, a, b)
                (quiet_reply fd _ (infer_role fd cmd s)
                  ∙ sym (subscription_gate cmd x y s.book (both (is_md_cmd cmd) _ b).0)
                  ∙ sym ((gate c.role cmd x y s.book).1 a))
          | inr b ↦ rw (inferred_role, a, b) (dispatched ∙ sym ((gate c.role cmd x y s.book).1 a))
        ]
      ]
    where
      x : OrderBook
      x = order_effect c cmd args s.book

      y : OrderBook
      y = cancel_effect c args s.book

-- What a line does to the order book is a function of its words, of the connection's role and
-- identity, and of the book: no message, no other session and no answer of the operating system
-- has a part in it.
pub handle_line-book :
    (fd : ℕ) (line : Bytes) (s : Server) (c : ClientSession)
    → Assoc.lookup fd s.sessions ≡ some c
    → (handle_line fd line s).0.book ≡ book_effect c (tokenize line) s.book
unfolding handle_line
handle_line-book fd line s c found = by_tokens (tokenize line)
  where
    by_tokens :
        (tokens : List Bytes) → (handle_tokens fd tokens s).0.book ≡ book_effect c tokens s.book
    by_tokens [] = unfold handle_tokens in quiet_reply fd _ s
    by_tokens (cmd ∷ args) = handle_tokens-book fd cmd args s c found

-- A line from a connection for market data never changes the order book.
pub handle_line-read_only :
    (fd : ℕ) (line : Bytes) (s : Server) (c : ClientSession)
    → Assoc.lookup fd s.sessions ≡ some c
    → c.role ≡ market_data
    → (handle_line fd line s).0.book ≡ s.book
handle_line-read_only fd line s c found r =
    handle_line-book fd line s c found ∙ nothing (tokenize line)
  where
    nothing : (tokens : List Bytes) → book_effect c tokens s.book ≡ s.book
    nothing [] = refl
    nothing (cmd ∷ args) = rw r refl
