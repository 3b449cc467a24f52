-- ===== src/Server/Steps/Lines.antt =====
-- A line of a client as a sequence of steps.
pub mod Replies
use the_socket_exchange.Common.{
  ℕ, some, List, [], ◌∷◌, not, ◌&&◌, ◌||◌, ◌≡◌, ◌≢◌, refl, sym, subst, ◌==◌, nat_eq, bytes_eq,
  Bytes, codes, Bool-cases, inl, inr,
}
use the_socket_exchange.Assoc
use the_socket_exchange.Assoc.Laws.{lookup-insert_self}
use the_socket_exchange.Book
use the_socket_exchange.Protocol.{tokenize, is_valid_instrument, msg_ok}
use the_socket_exchange.Session.{
  ClientSession, Role, unknown, trader, market_data, logged_in, subscribe, unsubscribe,
}
use the_socket_exchange.Server.{Server, store, is_trader, is_market_data}
use the_socket_exchange.Server.Commands.{
  role_for, session_at, infer_role, name_taken, handle_login, handle_subscription, dispatch,
  handle_tokens, handle_line, is_trader_cmd, is_md_cmd,
}
use the_socket_exchange.Server.Commands.Identity.{found_at}
use the_socket_exchange.Server.Steps.{
  IsEdit, told, edited, ended, Reaches, then_by, by_step, Reaches-trans,
}
use the_socket_exchange.Server.Steps.Lines.Replies.{
  tells, handle_order-Reaches, handle_cancel-Reaches,
}

-- A role that is settled stays.
role_for-settled : (cmd : Bytes) (role : Role) → role ≢ unknown → role_for cmd role ≡ role
role_for-settled cmd unknown h = absurd (h refl)
role_for-settled cmd trader h = refl
role_for-settled cmd market_data h = refl

module _ (fd : ℕ) (c : ClientSession) (s : Server)
    (found : Assoc.lookup fd s.sessions ≡ some c) where
  -- To edit the session that a handler has at hand.
  edits :
      (f : ClientSession → ClientSession)
      → IsEdit c (f c)
      → Reaches s (store fd (f (session_at fd s)) s)
  edits f h =
      subst (λ (x : ClientSession). Reaches s (store fd (f x) s)) (sym (found_at fd c s found))
        (by_step (edited fd c (f c) s found h))

  handle_login-Reaches : (args : List Bytes) → Reaches s (handle_login fd args s).0
  unfolding handle_login
  handle_login-Reaches [] = tells fd _ s
  handle_login-Reaches (name ∷ []) = elim (Bool-cases (logged_in (session_at fd s))) [
    | inl a ↦ rw a (tells fd _ s)
    | inr a ↦ elim (Bool-cases (name_taken (session_at fd s).fd name s.sessions)) [
      | inl b ↦ rw (a, b) (tells fd _ s)
      | inr b ↦
          rw (a, b)
            (then_by (told fd msg_ok _) (
              edits (λ d. record d { username = name })
                (record {
                  fd = refl;
                  session_seq = refl;
                  role = λ h. refl;
                  outbuf = refl;
                  want_write = refl;
                })))
    ]
  ]
  handle_login-Reaches (name ∷ r ∷ rest) = tells fd _ s

  handle_subscription-Reaches :
      (f : Bytes → List Bytes → List Bytes) (usage : Bytes) (args : List Bytes)
      → Reaches s (handle_subscription f usage fd args s).0
  unfolding handle_subscription
  handle_subscription-Reaches f usage [] = tells fd _ s
  handle_subscription-Reaches f usage (i ∷ []) = elim (Bool-cases (is_valid_instrument i)) [
    | inr a ↦ rw a (tells fd _ s)
    | inl a ↦ rw a (
        then_by (told fd msg_ok _) (
          edits (λ d. record d { subscriptions = f i d.subscriptions })
            (record {
              fd = refl;
              session_seq = refl;
              role = λ h. refl;
              outbuf = refl;
              want_write = refl;
            })))
  ]
  handle_subscription-Reaches f usage (i ∷ r ∷ rest) = tells fd _ s

  infer_role-Reaches : (cmd : Bytes) → Reaches s (infer_role fd cmd s)
  infer_role-Reaches cmd =
      edits (λ d. record d { role = role_for cmd d.role })
        (record {
          fd = refl;
          session_seq = refl;
          role = role_for-settled cmd c.role;
          outbuf = refl;
          want_write = refl;
        })

  dispatch-Reaches : (cmd : Bytes) (args : List Bytes) → Reaches s (dispatch fd cmd args s).0
  unfolding dispatch
  dispatch-Reaches cmd args = elim (Bool-cases (cmd == codes "LOGIN")) [
    | inl a ↦ rw a (handle_login-Reaches args)
    | inr a ↦ elim (Bool-cases ((cmd == codes "BUY") || (cmd == codes "SELL"))) [
      | inl b ↦ rw (a, b) (handle_order-Reaches fd cmd args s)
      | inr b ↦ elim (Bool-cases (cmd == codes "CANCEL")) [
        | inl h ↦ rw (a, b, h) (handle_cancel-Reaches fd args s)
        | inr h ↦ elim (Bool-cases (cmd == codes "SUBSCRIBE")) [
          | inl k ↦ rw (a, b, h, k) (handle_subscription-Reaches subscribe _ args)
          | inr k ↦ elim (Bool-cases (cmd == codes "UNSUBSCRIBE")) [
            | inl l ↦ rw (a, b, h, k, l) (handle_subscription-Reaches unsubscribe _ args)
            | inr l ↦ elim (Bool-cases (cmd == codes "QUIT")) [
              | inl m ↦ rw (a, b, h, k, l, m) (by_step (ended _ s))
              | inr m ↦ rw (a, b, h, k, l, m) (tells fd _ s)
            ]
          ]
        ]
      ]
    ]
  ]

handle_tokens-Reaches :
    (fd : ℕ) (c : ClientSession) (s : Server)
    → Assoc.lookup fd s.sessions ≡ some c
    → (tokens : List Bytes) → Reaches s (handle_tokens fd tokens s).0
unfolding handle_tokens
handle_tokens-Reaches fd c s found [] = tells fd _ s
handle_tokens-Reaches fd c s found (cmd ∷ args) =
    Reaches-trans (infer_role-Reaches fd c s found cmd)
      (elim (Bool-cases (is_trader_cmd cmd && not (is_trader role))) [
        | inl a ↦ rw a (tells fd _ t)
        | inr a ↦ elim (Bool-cases (is_md_cmd cmd && not (is_market_data role))) [
          | inl b ↦ rw (a, b) (tells fd _ t)
          | inr b ↦
              rw (a, b) (dispatch-Reaches fd _ t (lookup-insert_self fd _ s.sessions) cmd args)
        ]
      ])
  where
    t : Server
    t = infer_role fd cmd s

    role : Role
    role = (session_at fd t).role

pub handle_line-Reaches :
    (fd : ℕ) (line : Bytes) (s : Server) (c : ClientSession)
    → Assoc.lookup fd s.sessions ≡ some c
    → Reaches s (handle_line fd line s).0
unfolding handle_line
handle_line-Reaches fd line s c found = handle_tokens-Reaches fd c s found (tokenize line)
