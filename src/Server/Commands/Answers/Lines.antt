-- ===== src/Server/Commands/Answers/Lines.antt =====
-- A whole line and its answer.
use the_socket_exchange.Common.{
  ℕ, some, List, [], ◌∷◌, not, ◌&&◌, ◌||◌, ◌≡◌, ap, ◌∙◌, sym, ◌==◌, nat_eq, bytes_eq, Bytes, codes,
  Bool-cases, inl, inr,
}
use the_socket_exchange.Assoc
use the_socket_exchange.Assoc.Laws.{lookup-insert_self}
use the_socket_exchange.Protocol.{tokenize}
use the_socket_exchange.Session.{ClientSession, subscribe, unsubscribe}
use the_socket_exchange.Server.{Server, is_trader, is_market_data}
use the_socket_exchange.Server.Commands.{
  role_for, session_at, infer_role, dispatch, handle_tokens, handle_line, is_trader_cmd, is_md_cmd,
}
use the_socket_exchange.Server.Commands.Identity.{infer_role-KeepsIdentity, found_at}
use the_socket_exchange.Server.Commands.Up.{IsUp}
use the_socket_exchange.Server.Commands.Answers.{
  Settles, Answer, settled_first, store-Settles, store-IsUp,
}
use the_socket_exchange.Server.Commands.Answers.Branches.{
  refuses, quits, handle_order-Answer, handle_cancel-Answer, handle_login-Answer,
  handle_subscription-Answer,
}

module _ (fd : ℕ) (c : ClientSession) (s : Server) (found : Assoc.lookup fd s.sessions ≡ some c)
    (up : IsUp s) where
  dispatch-Answer : (cmd : Bytes) (args : List Bytes) → Answer fd s (dispatch fd cmd args s)
  unfolding dispatch
  dispatch-Answer cmd args = elim (Bool-cases (cmd == codes "LOGIN")) [
    | inl a ↦ rw a (handle_login-Answer fd c s found up args)
    | inr a ↦ elim (Bool-cases ((cmd == codes "BUY") || (cmd == codes "SELL"))) [
      | inl b ↦ rw (a, b) (handle_order-Answer fd c s found up cmd args)
      | inr b ↦ elim (Bool-cases (cmd == codes "CANCEL")) [
        | inl h ↦ rw (a, b, h) (handle_cancel-Answer fd c s found up args)
        | inr h ↦ elim (Bool-cases (cmd == codes "SUBSCRIBE")) [
          | inl k ↦ rw (a, b, h, k) (handle_subscription-Answer fd c s found up subscribe _ args)
          | inr k ↦ elim (Bool-cases (cmd == codes "UNSUBSCRIBE")) [
            | inl l ↦
                rw (a, b, h, k, l) (handle_subscription-Answer fd c s found up unsubscribe _ args)
            | inr l ↦ elim (Bool-cases (cmd == codes "QUIT")) [
              | inl m ↦ rw (a, b, h, k, l, m) (quits fd c s found up)
              | inr m ↦ rw (a, b, h, k, l, m) (refuses fd c s found up _)
            ]
          ]
        ]
      ]
    ]
  ]

handle_tokens-Answer :
    (fd : ℕ) (c : ClientSession) (s : Server)
    → Assoc.lookup fd s.sessions ≡ some c
    → IsUp s
    → (tokens : List Bytes) → Answer fd s (handle_tokens fd tokens s)
unfolding handle_tokens
handle_tokens-Answer fd c s found up [] = refuses fd c s found up _
handle_tokens-Answer fd c s found up (cmd ∷ args) =
    settled_first fd s t (handle_tokens fd (cmd ∷ args) s) settled
      (infer_role-KeepsIdentity fd c s found cmd)
      (elim (Bool-cases (is_trader_cmd cmd && not (is_trader d.role))) [
        | inl a ↦ rw a (refuses fd d t found' up' _)
        | inr a ↦ elim (Bool-cases (is_md_cmd cmd && not (is_market_data d.role))) [
          | inl b ↦ rw (a, b) (refuses fd d t found' up' _)
          | inr b ↦ rw (a, b) (dispatch-Answer fd d t found' up' cmd args)
        ]
      ])
  where
    t : Server
    t = infer_role fd cmd s

    d : ClientSession
    d = session_at fd t

    d' : ClientSession
    d' = record (session_at fd s) { role = role_for cmd (session_at fd s).role }

    settled : Settles s t
    settled =
        store-Settles fd c d' s found (ap (λ (x : ClientSession). x.outbuf) (found_at fd c s found))

    up' : IsUp t
    up' = store-IsUp fd c d' s found (ap (λ (x : ClientSession). x.fd) (found_at fd c s found)) up

    stored : Assoc.lookup fd t.sessions ≡ some d'
    stored = lookup-insert_self fd d' s.sessions

    found' : Assoc.lookup fd t.sessions ≡ some d
    found' = stored ∙ ap some (sym (found_at fd d' t stored))

-- On a server that is up, a line has one of five outcomes, and only the last makes `handle_line`
-- return false. It is refused: its client is told ERROR and the reason, the book is as before, and
-- every session keeps its descriptor, number, name and input. Its client is told OK, and the book is
-- as before. Its client is told ORDER_CANCELLED, and `cancel` has taken the order of that id out of
-- the book for the session's own descriptor and number. It is an order: its client is told
-- ORDER_ACCEPTED with the next id before all reports of its fills. In these four cases no client is
-- told anything else. Or it ends its session, and the book and what the others were sent are as before.
pub handle_line-answers :
    (fd : ℕ) (line : Bytes) (s : Server) (c : ClientSession)
    → Assoc.lookup fd s.sessions ≡ some c
    → IsUp s
    → Answer fd s (handle_line fd line s)
unfolding handle_line
handle_line-answers fd line s c found up = handle_tokens-Answer fd c s found up (tokenize line)
