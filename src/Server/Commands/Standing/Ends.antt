-- ===== src/Server/Commands/Standing/Ends.antt =====
-- Which lines end the session, and which role the others settle.
use the_socket_exchange.Common.{
  both, ℕ, some, List, [], ◌∷◌, Bool, true, false, not, ◌&&◌, ◌||◌, ◌≡◌, refl, ap, ◌∙◌, arith, ◌==◌,
  nat_eq, bytes_eq, bytes_beq_iff, Bytes, codes, Bool-cases, inl, inr, if◌then◌else◌,
}
use the_socket_exchange.Assoc
use the_socket_exchange.Assoc.Laws.{lookup-insert_self}
use the_socket_exchange.Protocol.{tokenize}
use the_socket_exchange.Session.{ClientSession, subscribe, unsubscribe, Role}
use the_socket_exchange.Server.{Server, is_trader, is_market_data}
use the_socket_exchange.Server.Commands.{
  session_at, infer_role, dispatch, handle_tokens, handle_line, is_trader_cmd, is_md_cmd,
}
use the_socket_exchange.Server.Commands.Identity.{found_at}
use the_socket_exchange.Server.Commands.Standing.{
  settle, quits, Stays, says, handle_login-Stays, handle_order-Stays, handle_cancel-Stays,
  handle_subscription-Stays,
}

-- A command is QUIT and ends the session, or is not and leaves it.
abbrev pub Ends : ℕ → ClientSession → List Bytes → Server × Bool → Type 0
Ends fd c ws r = if quits ws then r.1 ≡ false else Stays fd c r

-- The names of the commands differ from QUIT.
other :
    (cmd word : Bytes)
    → (cmd == word) ≡ true
    → (word == codes "QUIT") ≡ false
    → (cmd == codes "QUIT") ≡ false
other cmd word h k = ground (
  arith,
  bytes_beq_iff cmd word,
  bytes_beq_iff cmd (codes "QUIT"),
  bytes_beq_iff word (codes "QUIT"),
)

is_trader_cmd-stays : (cmd : Bytes) → is_trader_cmd cmd ≡ true → (cmd == codes "QUIT") ≡ false
is_trader_cmd-stays cmd h = ground (
  arith,
  other cmd (codes "LOGIN"),
  other cmd (codes "BUY"),
  other cmd (codes "SELL"),
  other cmd (codes "CANCEL"),
)

is_md_cmd-stays : (cmd : Bytes) → is_md_cmd cmd ≡ true → (cmd == codes "QUIT") ≡ false
is_md_cmd-stays cmd h =
    ground (arith, other cmd (codes "SUBSCRIBE"), other cmd (codes "UNSUBSCRIBE"))

-- A line that is refused, or handled by a command other than QUIT.
stays :
    (fd : ℕ) (c : ClientSession) (cmd : Bytes) (args : List Bytes) (r : Server × Bool)
    → (cmd == codes "QUIT") ≡ false
    → Stays fd c r
    → Ends fd c (cmd ∷ args) r
stays fd c cmd args r h k = rw h k

dispatch-Ends :
    (fd : ℕ) (c : ClientSession) (s : Server) (cmd : Bytes) (args : List Bytes)
    → Assoc.lookup fd s.sessions ≡ some c
    → Ends fd c (cmd ∷ args) (dispatch fd cmd args s)
unfolding dispatch
dispatch-Ends fd c s cmd args found = elim (Bool-cases (cmd == codes "LOGIN")) [
  | inl a ↦ rw a (
      stays fd c cmd args _ (other cmd (codes "LOGIN") a refl)
        (handle_login-Stays fd c s found args))
  | inr a ↦ elim (Bool-cases ((cmd == codes "BUY") || (cmd == codes "SELL"))) [
    | inl b ↦
        rw (a, b)
          (stays fd c cmd args _ (is_trader_cmd-stays cmd (ground arith))
            (handle_order-Stays fd c s found cmd args))
    | inr b ↦ elim (Bool-cases (cmd == codes "CANCEL")) [
      | inl h ↦
          rw (a, b, h)
            (stays fd c cmd args _ (other cmd (codes "CANCEL") h refl)
              (handle_cancel-Stays fd c s found args))
      | inr h ↦ elim (Bool-cases (cmd == codes "SUBSCRIBE")) [
        | inl k ↦
            rw (a, b, h, k)
              (stays fd c cmd args _ (other cmd (codes "SUBSCRIBE") k refl)
                (handle_subscription-Stays fd c s found subscribe _ args))
        | inr k ↦ elim (Bool-cases (cmd == codes "UNSUBSCRIBE")) [
          | inl l ↦
              rw (a, b, h, k, l)
                (stays fd c cmd args _ (other cmd (codes "UNSUBSCRIBE") l refl)
                  (handle_subscription-Stays fd c s found unsubscribe _ args))
          | inr l ↦ elim (Bool-cases (cmd == codes "QUIT")) [
            | inl m ↦ rw (a, b, h, k, l, m) refl
            | inr m ↦ rw (a, b, h, k, l, m) (says fd c s found _ s.book)
          ]
        ]
      ]
    ]
  ]
]

handle_tokens-Ends :
    (fd : ℕ) (c : ClientSession) (s : Server) (ws : List Bytes)
    → Assoc.lookup fd s.sessions ≡ some c
    → Ends fd (settle c ws) ws (handle_tokens fd ws s)
unfolding handle_tokens
handle_tokens-Ends fd c s [] found = says fd c s found _ s.book
handle_tokens-Ends fd c s (cmd ∷ args) found =
    elim (Bool-cases (is_trader_cmd cmd && not (is_trader role))) [
      | inl a ↦ rw a (
          stays fd d cmd args _ (is_trader_cmd-stays cmd (both (is_trader_cmd cmd) _ a).0)
            (says fd d t settled _ t.book))
      | inr a ↦ elim (Bool-cases (is_md_cmd cmd && not (is_market_data role))) [
        | inl b ↦
            rw (a, b)
              (stays fd d cmd args _ (is_md_cmd-stays cmd (both (is_md_cmd cmd) _ b).0)
                (says fd d t settled _ t.book))
        | inr b ↦ rw (a, b) (dispatch-Ends fd d t cmd args settled)
      ]
    ]
  where
    t : Server
    t = infer_role fd cmd s

    d : ClientSession
    d = settle c (cmd ∷ args)

    role : Role
    role = (session_at fd t).role

    settled : Assoc.lookup fd t.sessions ≡ some d
    settled =
        lookup-insert_self fd _ s.sessions
        ∙ ap (λ x. some (settle x (cmd ∷ args))) (found_at fd c s found)

-- QUIT ends its session, and any other line leaves it there, with the role that the line settles.
pub handle_line-Ends :
    (fd : ℕ) (c : ClientSession) (s : Server) (line : Bytes)
    → Assoc.lookup fd s.sessions ≡ some c
    → Ends fd (settle c (tokenize line)) (tokenize line) (handle_line fd line s)
unfolding handle_line
handle_line-Ends fd c s line found = handle_tokens-Ends fd c s (tokenize line) found
