-- ===== src/Server/Commands/Identity.antt =====
-- What no command changes of a session, but LOGIN of its user name and QUIT.
use the_socket_exchange.Common.{
  ℕ, Option, none, some, List, [], ◌∷◌, false, ◌≡◌, refl, ap, ◌∙◌, sym, ◌==◌, nat_eq, nat_beq_iff,
  bytes_eq, Bytes, Bool-cases, inl, inr,
}
use the_socket_exchange.Assoc
use the_socket_exchange.Assoc.Laws.{lookup-insert}
use the_socket_exchange.Book
use the_socket_exchange.Book.{OrderBook, Side}
use the_socket_exchange.Book.Cancel.{cancel}
use the_socket_exchange.Protocol.{
  msg_ok, msg_order_accepted, is_valid_instrument, parse_positive_int, parse_nonnegative_int,
}
use the_socket_exchange.Session.{ClientSession, unknown, default_session}
use the_socket_exchange.Server.{Server, store, enqueue}
use the_socket_exchange.Server.Quiet.{Quiet, profile_of, enqueue-Quiet}
use the_socket_exchange.Server.Commands.{
  place_order, order_of, session_at, handle_order, handle_cancel, handle_subscription, infer_role,
  role_for,
}
use the_socket_exchange.Server.Commands.Reports.{report_fills-Quiet}

-- A session's descriptor, number, user name and input.
abbrev pub identity : ClientSession → ClientSession
identity c = record c { role = unknown; subscriptions = []; outbuf = []; want_write = false }

abbrev pub identity_of : Option ClientSession → Option ClientSession
identity_of none = none
identity_of (some c) = some (identity c)

abbrev pub identity_at : ℕ → Server → Option ClientSession
identity_at g s = identity_of (Assoc.lookup g s.sessions)

abbrev pub KeepsIdentity : Server → Server → Type 0
KeepsIdentity s s' = (g : ℕ) → identity_at g s' ≡ identity_at g s

identity-profile : (x : Option ClientSession) → identity_of (profile_of x) ≡ identity_of x
identity-profile none = refl
identity-profile (some c) = refl

pub Quiet-KeepsIdentity : (s s' : Server) → Quiet s s' → KeepsIdentity s s'
Quiet-KeepsIdentity s s' q g =
    sym (identity-profile (Assoc.lookup g s'.sessions))
    ∙ ap identity_of (q.profiles g)
    ∙ identity-profile (Assoc.lookup g s.sessions)

pub store-KeepsIdentity :
    (fd : ℕ) (c c' : ClientSession) (s : Server)
    → Assoc.lookup fd s.sessions ≡ some c
    → identity c' ≡ identity c
    → KeepsIdentity s (store fd c' s)
store-KeepsIdentity fd c c' s found same g = elim (Bool-cases (fd == g)) [
  | inl e ↦
      ap identity_of (lookup-insert fd g c' s.sessions)
      ∙ rw e (
          ap some same
          ∙ sym (
              ap identity_of
                (ap (λ k. Assoc.lookup k s.sessions) (sym ((nat_beq_iff fd g).0 e)) ∙ found)))
  | inr e ↦ ap identity_of (lookup-insert fd g c' s.sessions) ∙ rw e refl
]

pub answer-KeepsIdentity : (fd : ℕ) (msg : Bytes) (s : Server) → KeepsIdentity s (enqueue fd msg s)
answer-KeepsIdentity fd msg s = Quiet-KeepsIdentity s (enqueue fd msg s) (enqueue-Quiet fd msg s)

place_order-KeepsIdentity :
    (fd : ℕ) (side : Side) (i : Bytes) (qty price : ℕ) (s : Server)
    → KeepsIdentity s (place_order fd side i qty price s)
unfolding place_order
place_order-KeepsIdentity fd side i qty price s g =
    let b = (Book.next_id s.book).0 in
    let id = (Book.next_id s.book).1 in
    let o = order_of (session_at fd s) id side i qty price in
    let s' = enqueue fd (msg_order_accepted id) (record s { book = b }) in
    let r = Book.submit o s'.book in
    Quiet-KeepsIdentity (record s' { book = r.0 }) _
      (report_fills-Quiet r.1 (record s' { book = r.0 })) g
    ∙ answer-KeepsIdentity fd (msg_order_accepted id) (record s { book = b }) g

pub handle_order-KeepsIdentity :
    (fd : ℕ) (cmd : Bytes) (args : List Bytes) (s : Server)
    → KeepsIdentity s (handle_order fd cmd args s).0
unfolding handle_order
handle_order-KeepsIdentity fd cmd [] s = answer-KeepsIdentity fd _ s
handle_order-KeepsIdentity fd cmd (i ∷ []) s = answer-KeepsIdentity fd _ s
handle_order-KeepsIdentity fd cmd (i ∷ q ∷ []) s = answer-KeepsIdentity fd _ s
handle_order-KeepsIdentity fd cmd (i ∷ q ∷ p ∷ []) s = elim (Bool-cases (is_valid_instrument i)) [
  | inr a ↦ rw a (answer-KeepsIdentity fd _ s)
  | inl a ↦ elim (Bool-cases (parse_positive_int q 0).0) [
    | inr b ↦ rw (a, b) (answer-KeepsIdentity fd _ s)
    | inl b ↦ elim (Bool-cases (parse_positive_int p 0).0) [
      | inr c ↦ rw (a, b, c) (answer-KeepsIdentity fd _ s)
      | inl c ↦ rw (a, b, c) (place_order-KeepsIdentity fd _ i _ _ s)
    ]
  ]
]
handle_order-KeepsIdentity fd cmd (i ∷ q ∷ p ∷ r ∷ rest) s = answer-KeepsIdentity fd _ s

pub handle_cancel-KeepsIdentity :
    (fd : ℕ) (args : List Bytes) (s : Server) → KeepsIdentity s (handle_cancel fd args s).0
unfolding handle_cancel
handle_cancel-KeepsIdentity fd [] s = answer-KeepsIdentity fd _ s
handle_cancel-KeepsIdentity fd (oid ∷ []) s = elim (Bool-cases (parse_nonnegative_int oid 0).0) [
  | inr a ↦ rw a (answer-KeepsIdentity fd _ s)
  | inl a ↦
      elim (Bool-cases
        (cancel (parse_nonnegative_int oid 0).1 (session_at fd s).fd (session_at fd s).session_seq
          s.book).1) [
            | inr b ↦ rw (a, b) (answer-KeepsIdentity fd _ (record s { book = _ }))
            | inl b ↦ rw (a, b) (answer-KeepsIdentity fd _ (record s { book = _ }))
          ]
]
handle_cancel-KeepsIdentity fd (oid ∷ r ∷ rest) s = answer-KeepsIdentity fd _ s

module _ (fd : ℕ) (c : ClientSession) (s : Server)
    (found : Assoc.lookup fd s.sessions ≡ some c) where
  pub found_at : session_at fd s ≡ c
  found_at = ap (λ x. elim x as (λ _. ClientSession) [ none ↦ default_session | some d ↦ d ]) found

  pub handle_subscription-KeepsIdentity :
      (f : Bytes → List Bytes → List Bytes) (usage : Bytes) (args : List Bytes)
      → KeepsIdentity s (handle_subscription f usage fd args s).0
  unfolding handle_subscription
  handle_subscription-KeepsIdentity f usage [] = answer-KeepsIdentity fd _ s
  handle_subscription-KeepsIdentity f usage (i ∷ []) = elim (Bool-cases (is_valid_instrument i)) [
    | inr a ↦ rw a (answer-KeepsIdentity fd _ s)
    | inl a ↦
        let c' = record (session_at fd s) { subscriptions = f i (session_at fd s).subscriptions } in
        rw a (λ g.
          answer-KeepsIdentity fd msg_ok (store fd c' s) g
          ∙ store-KeepsIdentity fd c c' s found (ap identity found_at) g)
  ]
  handle_subscription-KeepsIdentity f usage (i ∷ r ∷ rest) = answer-KeepsIdentity fd _ s

  pub infer_role-KeepsIdentity : (cmd : Bytes) → KeepsIdentity s (infer_role fd cmd s)
  infer_role-KeepsIdentity cmd =
      store-KeepsIdentity fd c
        (record (session_at fd s) { role = role_for cmd (session_at fd s).role }) s found
        (ap identity found_at)
