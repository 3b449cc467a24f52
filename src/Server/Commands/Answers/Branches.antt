-- ===== src/Server/Commands/Answers/Branches.antt =====
-- The commands of `handle_line`, each with its answer.
use the_socket_exchange.Common.{
  subst, ℕ, some, List, [], ◌∷◌, ◌++◌, if◌then◌else◌, Bool, true, false, ◌≡◌, ◌≢◌, refl, ap, ◌∙◌,
  sym, arith, ◌==◌, nat_eq, nat_beq_iff, bytes_eq, Bytes, Bool-cases, inl, inr,
}
use the_socket_exchange.Assoc
use the_socket_exchange.Assoc.Laws.{lookup-insert_self, lookup-erase, lookup-erase_self}
use the_socket_exchange.Book
use the_socket_exchange.Book.{Side}
use the_socket_exchange.Book.Cancel.{
  cancel, cancelled, Search, missed, refused, erased, cancel_books,
}
use the_socket_exchange.Protocol.{
  is_valid_instrument, parse_positive_int, parse_nonnegative_int, msg_ok, msg_error,
  msg_order_cancelled,
}
use the_socket_exchange.Session.{ClientSession, logged_in}
use the_socket_exchange.Os.{Os, reads, writes, kq_del, close}
use the_socket_exchange.Server.{Server, store, enqueue, close_session, close_found}
use the_socket_exchange.Server.Quiet.{enqueue-Quiet}
use the_socket_exchange.Server.Streams.{stream, wire_to, pending_of, kq_del-keeps}
use the_socket_exchange.Server.Streams.Sending.{enqueue-streams}
use the_socket_exchange.Server.Commands.{
  session_at, name_taken, handle_login, handle_order, handle_cancel, handle_subscription,
  place_order,
}
use the_socket_exchange.Server.Commands.Identity.{
  identity, identity_of, answer-KeepsIdentity, found_at,
}
use the_socket_exchange.Server.Commands.Reception.{place_order-streams}
use the_socket_exchange.Server.Commands.Reception.Fills.{line_if}
use the_socket_exchange.Server.Commands.Up.{IsUp}
use the_socket_exchange.Server.Commands.Answers.{
  Tells, Answer, refusal, confirmation, cancellation, acceptance, end, store-Settles, store-IsUp,
}

-- A search that fails leaves the book.
cancel-failed :
    (i fd seq : ℕ) (b : Book.OrderBook) → (cancel i fd seq b).1 ≡ false → (cancel i fd seq b).0 ≡ b
unfolding cancel
cancel-failed i fd seq b = by_search (cancel_books i fd seq b.books)
  where
    by_search : (x : Search _) → (cancelled i fd seq b x).1 ≡ false → (cancelled i fd seq b x).0 ≡ b
    by_search missed h = refl
    by_search refused h = refl
    by_search (erased l) h = ground arith

close-streams :
    (fd : ℕ) (c : ClientSession) (s : Server) (g : ℕ)
    → g ≢ fd
    → stream g (close_found fd (some c) s) ≡ stream g s
unfolding close
close-streams fd c s g ne =
    ap (λ w. wire_to g w ++ pending_of (Assoc.lookup g (Assoc.erase fd s.sessions)))
      (wire c.want_write)
    ∙ ap (λ x. wire_to g s.os.wire ++ pending_of x) others
  where
    os : Os
    os = kq_del fd reads s.os

    wire : (b : Bool) → (if b then kq_del fd writes os else os).wire ≡ s.os.wire
    wire true = (kq_del-keeps fd writes os).0 ∙ (kq_del-keeps fd reads s.os).0
    wire false = (kq_del-keeps fd reads s.os).0

    others : Assoc.lookup g (Assoc.erase fd s.sessions) ≡ Assoc.lookup g s.sessions
    others = ground (arith, lookup-erase fd g s.sessions, nat_beq_iff fd g)

close_session-ends :
    (fd : ℕ) (c : ClientSession) (s : Server)
    → Assoc.lookup fd s.sessions ≡ some c
    → Answer fd s (close_session fd s, false)
unfolding close_session
close_session-ends fd c s found =
    rw found (end refl (lookup-erase_self fd s.sessions) refl (close-streams fd c s))

module _ (fd : ℕ) (c : ClientSession) (s : Server) (found : Assoc.lookup fd s.sessions ≡ some c)
    (up : IsUp s) where
  tells : (msg : Bytes) → Tells fd msg s (enqueue fd msg s)
  tells msg = enqueue-streams fd msg s c found (up.keyed fd c found) up.fine

  pub refuses : (reason : Bytes) → Answer fd s (enqueue fd (msg_error reason) s, true)
  refuses reason =
      refusal reason refl (tells (msg_error reason)) (enqueue-Quiet fd (msg_error reason) s).book
        (answer-KeepsIdentity fd (msg_error reason) s)

  confirms : Answer fd s (enqueue fd msg_ok s, true)
  confirms = confirmation refl (tells msg_ok) (enqueue-Quiet fd msg_ok s).book

  places :
      (side : Side) (i : Bytes) (qty price : ℕ)
      → Answer fd s (place_order fd side i qty price s, true)
  places side i qty price =
      acceptance s side i qty price refl (record { book = refl; streams = λ g. refl }) (λ g. refl)
        (λ g. place_order-streams fd side i qty price s c g found up)

  pub quits : Answer fd s (close_session (session_at fd s).fd s, false)
  quits =
      subst (λ k. Answer fd s (close_session k s, false))
        (sym (ap (λ (d : ClientSession). d.fd) (found_at fd c s found) ∙ up.keyed fd c found))
        (close_session-ends fd c s found)

  cancels :
      (id : ℕ)
      → (cancel id (session_at fd s).fd (session_at fd s).session_seq s.book).1 ≡ true
      → Answer fd s (
        enqueue fd (msg_order_cancelled id) (record s {
          book = (cancel id (session_at fd s).fd (session_at fd s).session_seq s.book).0;
        }),
        true,
      )
  cancels id done =
      let r = cancel id (session_at fd s).fd (session_at fd s).session_seq s.book in
      let t = record s { book = r.0 } in
      let msg = msg_order_cancelled id in
      cancellation id (session_at fd s) refl
        (enqueue-streams fd msg t c found (up.keyed fd c found) up.fine)
        (ap identity_of found ∙ ap (λ d. some (identity d)) (sym (found_at fd c s found)))
        (ap (λ b. (r.0, b)) done ∙ ap (λ b. (b, true)) (sym (enqueue-Quiet fd msg t).book))
        (answer-KeepsIdentity fd msg t)

  pub handle_order-Answer :
      (cmd : Bytes) (args : List Bytes) → Answer fd s (handle_order fd cmd args s)
  unfolding handle_order
  handle_order-Answer cmd [] = refuses _
  handle_order-Answer cmd (i ∷ []) = refuses _
  handle_order-Answer cmd (i ∷ q ∷ []) = refuses _
  handle_order-Answer cmd (i ∷ q ∷ p ∷ []) = elim (Bool-cases (is_valid_instrument i)) [
    | inr a ↦ rw a (refuses _)
    | inl a ↦ elim (Bool-cases (parse_positive_int q 0).0) [
      | inr b ↦ rw (a, b) (refuses _)
      | inl b ↦ elim (Bool-cases (parse_positive_int p 0).0) [
        | inr d ↦ rw (a, b, d) (refuses _)
        | inl d ↦ rw (a, b, d) (places _ i _ _)
      ]
    ]
  ]
  handle_order-Answer cmd (i ∷ q ∷ p ∷ r ∷ rest) = refuses _

  -- To answer OK where only the session has changed.
  confirms_stored :
      (c' : ClientSession)
      → c'.fd ≡ c.fd
      → c'.outbuf ≡ c.outbuf
      → Answer fd s (enqueue fd msg_ok (store fd c' s), true)
  confirms_stored c' keyed same =
      let t = store fd c' s in
      let k = store-Settles fd c c' s found same in
      let v = store-IsUp fd c c' s found keyed up in
      let found' = lookup-insert_self fd c' s.sessions in
      confirmation refl
        (λ g.
          enqueue-streams fd msg_ok t c' found' (v.keyed fd c' found') v.fine g
          ∙ ap (λ x. x ++ line_if (fd == g) msg_ok) (k.streams g))
        (enqueue-Quiet fd msg_ok t).book

  pub handle_cancel-Answer : (args : List Bytes) → Answer fd s (handle_cancel fd args s)
  unfolding handle_cancel
  handle_cancel-Answer [] = refuses _
  handle_cancel-Answer (oid ∷ []) = elim (Bool-cases (parse_nonnegative_int oid 0).0) [
    | inr a ↦ rw a (refuses _)
    | inl a ↦ elim (Bool-cases (cancel id me.fd me.session_seq s.book).1) [
      | inr b ↦ rw (a, b, cancel-failed id me.fd me.session_seq s.book b) (refuses _)
      | inl b ↦ rw (a, b) (cancels id b)
    ]
  ]
    where
      me : ClientSession
      me = session_at fd s

      id : ℕ
      id = (parse_nonnegative_int oid 0).1
  handle_cancel-Answer (oid ∷ r ∷ rest) = refuses _

  pub handle_login-Answer : (args : List Bytes) → Answer fd s (handle_login fd args s)
  unfolding handle_login
  handle_login-Answer [] = refuses _
  handle_login-Answer (name ∷ []) = elim (Bool-cases (logged_in (session_at fd s))) [
    | inl a ↦ rw a (refuses _)
    | inr a ↦ elim (Bool-cases (name_taken (session_at fd s).fd name s.sessions)) [
      | inl b ↦ rw (a, b) (refuses _)
      | inr b ↦
          rw (a, b)
            (confirms_stored (record (session_at fd s) { username = name })
              (ap (λ (d : ClientSession). d.fd) (found_at fd c s found))
              (ap (λ (d : ClientSession). d.outbuf) (found_at fd c s found)))
    ]
  ]
  handle_login-Answer (name ∷ r ∷ rest) = refuses _

  pub handle_subscription-Answer :
      (f : Bytes → List Bytes → List Bytes) (usage : Bytes) (args : List Bytes)
      → Answer fd s (handle_subscription f usage fd args s)
  unfolding handle_subscription
  handle_subscription-Answer f usage [] = refuses _
  handle_subscription-Answer f usage (i ∷ []) = elim (Bool-cases (is_valid_instrument i)) [
    | inr a ↦ rw a (refuses _)
    | inl a ↦ rw a (
        confirms_stored
          (record (session_at fd s) { subscriptions = f i (session_at fd s).subscriptions })
          (ap (λ (d : ClientSession). d.fd) (found_at fd c s found))
          (ap (λ (d : ClientSession). d.outbuf) (found_at fd c s found)))
  ]
  handle_subscription-Answer f usage (i ∷ r ∷ rest) = refuses _
