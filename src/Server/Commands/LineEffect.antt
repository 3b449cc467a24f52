-- ===== src/Server/Commands/LineEffect.antt =====
-- What a line does to the sessions: nothing to their identities, a new user name, or the end.
use the_socket_exchange.Common.{
  ℕ, some, List, [], ◌∷◌, Bool, true, false, not, ◌&&◌, ◌||◌, ◌≡◌, refl, ap, ◌∙◌, sym, subst, arith,
  ◌==◌, nat_eq, bytes_eq, Bytes, codes, if◌then◌else◌, Bool-cases, inl, inr,
}
use the_socket_exchange.Assoc
use the_socket_exchange.Assoc.Laws.{lookup-insert_self}
use the_socket_exchange.Protocol.{msg_ok, msg_error, tokenize}
use the_socket_exchange.Session.{ClientSession, Role, logged_in, subscribe, unsubscribe}
use the_socket_exchange.Server.{Server, store, enqueue, close_session, is_trader, is_market_data}
use the_socket_exchange.Server.Commands.{
  name_taken, session_at, handle_login, handle_order, handle_cancel, handle_subscription, dispatch,
  handle_tokens, handle_line, infer_role, is_trader_cmd, is_md_cmd,
}
use the_socket_exchange.Server.Commands.Identity.{
  KeepsIdentity, answer-KeepsIdentity, handle_order-KeepsIdentity, handle_cancel-KeepsIdentity,
  handle_subscription-KeepsIdentity, infer_role-KeepsIdentity, found_at,
}

-- `t` is the server when the role has been settled, and `d` the session there.
pub data LineEffect (fd : ℕ) (s : Server) (r : Server × Bool) : Type 0 where
  kept : r.1 ≡ true → KeepsIdentity s r.0 → LineEffect fd s r
  named :
      (t : Server) (d : ClientSession) (name : Bytes)
      → r.1 ≡ true
      → KeepsIdentity s t
      → Assoc.lookup fd t.sessions ≡ some d
      → name_taken d.fd name t.sessions ≡ false
      → KeepsIdentity (store fd (record d { username = name }) t) r.0
      → LineEffect fd s r
  left :
      (t : Server) (d : ClientSession)
      → r.1 ≡ false
      → KeepsIdentity s t
      → Assoc.lookup fd t.sessions ≡ some d
      → r.0 ≡ close_session d.fd t
      → LineEffect fd s r

-- An effect behind a step that keeps the identities.
behind :
    (fd : ℕ) (s t : Server) (r : Server × Bool)
    → KeepsIdentity s t
    → LineEffect fd t r
    → LineEffect fd s r
behind fd s t r k (kept a h) = kept a (λ g. h g ∙ k g)
behind fd s t r k (named u d name a h f e l) = named u d name a (λ g. h g ∙ k g) f e l
behind fd s t r k (left u d a h f e) = left u d a (λ g. h g ∙ k g) f e

answered : (fd : ℕ) (msg : Bytes) (s : Server) → LineEffect fd s (enqueue fd msg s, true)
answered fd msg s = kept refl (answer-KeepsIdentity fd msg s)

module _ (fd : ℕ) (c : ClientSession) (s : Server)
    (found : Assoc.lookup fd s.sessions ≡ some c) where
  handle_login-LineEffect : (args : List Bytes) → LineEffect fd s (handle_login fd args s)
  unfolding handle_login
  handle_login-LineEffect [] = answered fd _ s
  handle_login-LineEffect (name ∷ []) = elim (Bool-cases (logged_in (session_at fd s))) [
    | inl a ↦ rw a (answered fd _ s)
    | inr a ↦ elim (Bool-cases (name_taken (session_at fd s).fd name s.sessions)) [
      | inl b ↦ rw (a, b) (answered fd _ s)
      | inr b ↦
          let t = store fd (record (session_at fd s) { username = name }) s in
          rw (a, b)
            (named s c name refl (λ g. refl) found
              (ap (λ x. name_taken x.fd name s.sessions) (sym (found_at fd c s found)) ∙ b)
              (subst
                (λ (x : ClientSession).
                  KeepsIdentity (store fd (record x { username = name }) s) (enqueue fd msg_ok t))
                (found_at fd c s found) (answer-KeepsIdentity fd msg_ok t)))
    ]
  ]
  handle_login-LineEffect (name ∷ r ∷ rest) = answered fd _ s

  handle_order-alive : (cmd : Bytes) (args : List Bytes) → (handle_order fd cmd args s).1 ≡ true
  unfolding handle_order
  handle_order-alive cmd [] = refl
  handle_order-alive cmd (i ∷ []) = refl
  handle_order-alive cmd (i ∷ q ∷ []) = refl
  handle_order-alive cmd (i ∷ q ∷ p ∷ []) = ground arith
  handle_order-alive cmd (i ∷ q ∷ p ∷ r ∷ rest) = refl

  handle_cancel-alive : (args : List Bytes) → (handle_cancel fd args s).1 ≡ true
  unfolding handle_cancel
  handle_cancel-alive [] = refl
  handle_cancel-alive (i ∷ []) = ground arith
  handle_cancel-alive (i ∷ q ∷ rest) = refl

  handle_subscription-alive :
      (f : Bytes → List Bytes → List Bytes) (usage : Bytes) (args : List Bytes)
      → (handle_subscription f usage fd args s).1 ≡ true
  unfolding handle_subscription
  handle_subscription-alive f usage [] = refl
  handle_subscription-alive f usage (i ∷ []) = ground arith
  handle_subscription-alive f usage (i ∷ q ∷ rest) = refl

  subscription-LineEffect :
      (f : Bytes → List Bytes → List Bytes) (usage : Bytes) (args : List Bytes)
      → LineEffect fd s (handle_subscription f usage fd args s)
  subscription-LineEffect f usage args =
      kept (handle_subscription-alive f usage args)
        (handle_subscription-KeepsIdentity fd c s found f usage args)

  -- The commands behind the first two.
  rest-LineEffect :
      (cmd : Bytes) (args : List Bytes)
      → LineEffect fd s (
          if cmd == codes "SUBSCRIBE"
          then handle_subscription subscribe (codes "usage: SUBSCRIBE <instrument>") fd args s
          else if cmd == codes "UNSUBSCRIBE"
          then handle_subscription unsubscribe (codes "usage: UNSUBSCRIBE <instrument>") fd args s
          else if cmd == codes "QUIT"
          then (close_session (session_at fd s).fd s, false)
          else (enqueue fd (msg_error (codes "unknown command")) s, true))
  rest-LineEffect cmd args = elim (Bool-cases (cmd == codes "SUBSCRIBE")) [
    | inl a ↦ rw a (subscription-LineEffect subscribe _ args)
    | inr a ↦ elim (Bool-cases (cmd == codes "UNSUBSCRIBE")) [
      | inl b ↦ rw (a, b) (subscription-LineEffect unsubscribe _ args)
      | inr b ↦ elim (Bool-cases (cmd == codes "QUIT")) [
        | inl h ↦
            rw (a, b, h)
              (left s c refl (λ g. refl) found
                (ap (λ (x : ClientSession). close_session x.fd s) (found_at fd c s found)))
        | inr h ↦ rw (a, b, h) (answered fd _ s)
      ]
    ]
  ]

  dispatch-LineEffect : (cmd : Bytes) (args : List Bytes) → LineEffect fd s (dispatch fd cmd args s)
  unfolding dispatch
  dispatch-LineEffect cmd args = elim (Bool-cases (cmd == codes "LOGIN")) [
    | inl a ↦ rw a (handle_login-LineEffect args)
    | inr a ↦ elim (Bool-cases ((cmd == codes "BUY") || (cmd == codes "SELL"))) [
      | inl b ↦
          rw (a, b) (kept (handle_order-alive cmd args) (handle_order-KeepsIdentity fd cmd args s))
      | inr b ↦ elim (Bool-cases (cmd == codes "CANCEL")) [
        | inl h ↦
            rw (a, b, h) (kept (handle_cancel-alive args) (handle_cancel-KeepsIdentity fd args s))
        | inr h ↦ rw (a, b, h) (rest-LineEffect cmd args)
      ]
    ]
  ]

-- The same with the role settled first.
handle_tokens-LineEffect :
    (fd : ℕ) (c : ClientSession) (s : Server)
    → Assoc.lookup fd s.sessions ≡ some c
    → (tokens : List Bytes) → LineEffect fd s (handle_tokens fd tokens s)
unfolding handle_tokens
handle_tokens-LineEffect fd c s found [] = answered fd _ s
handle_tokens-LineEffect fd c s found (cmd ∷ args) =
    behind fd s t (handle_tokens fd (cmd ∷ args) s) (infer_role-KeepsIdentity fd c s found cmd)
      (elim (Bool-cases (is_trader_cmd cmd && not (is_trader role))) [
        | inl a ↦ rw a (answered fd _ t)
        | inr a ↦ elim (Bool-cases (is_md_cmd cmd && not (is_market_data role))) [
          | inl b ↦ rw (a, b) (answered fd _ t)
          | inr b ↦
              rw (a, b) (dispatch-LineEffect fd _ t (lookup-insert_self fd _ s.sessions) cmd args)
        ]
      ])
  where
    t : Server
    t = infer_role fd cmd s

    role : Role
    role = (session_at fd t).role

-- A line keeps the descriptor, the number, the user name and the input of every session, or it names
-- its session with a name that no other has, or it ends its session.
pub handle_line-LineEffect :
    (fd : ℕ) (line : Bytes) (s : Server) (c : ClientSession)
    → Assoc.lookup fd s.sessions ≡ some c
    → LineEffect fd s (handle_line fd line s)
unfolding handle_line
handle_line-LineEffect fd line s c found = handle_tokens-LineEffect fd c s found (tokenize line)
