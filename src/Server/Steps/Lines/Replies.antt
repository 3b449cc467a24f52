-- ===== src/Server/Steps/Lines/Replies.antt =====
-- What a line says and trades, as a sequence of steps.
use the_socket_exchange.Common.{
  ℕ, List, [], ◌∷◌, ◌==◌, nat_eq, bytes_eq, Bytes, Option-cases, Bool-cases, inl, inr,
}
use the_socket_exchange.Assoc
use the_socket_exchange.Book
use the_socket_exchange.Book.{Side, Fill}
use the_socket_exchange.Book.Cancel.{cancel}
use the_socket_exchange.Protocol.{
  is_valid_instrument, parse_positive_int, parse_nonnegative_int, msg_bought, msg_sold, msg_trade,
}
use the_socket_exchange.Server.{Server, enqueue, wants_trade, keys, broadcast_to, broadcast_trade}
use the_socket_exchange.Server.Commands.{
  session_at, notify, report_fill, report_fills, place_order, handle_order, handle_cancel,
}
use the_socket_exchange.Server.Steps.{traded, told, Reaches, stays, then_by, by_step, Reaches-trans}

pub tells : (fd : ℕ) (line : Bytes) (s : Server) → Reaches s (enqueue fd line s)
tells fd line s = by_step (told fd line s)

broadcast_to-Reaches :
    (fds : List ℕ) (i msg : Bytes) (s : Server) → Reaches s (broadcast_to fds i msg s)
unfolding broadcast_to
broadcast_to-Reaches [] i msg s = stays
broadcast_to-Reaches (fd ∷ fds) i msg s =
    elim (Bool-cases (wants_trade i (Assoc.lookup fd s.sessions))) [
      | inl e ↦
          rw e (Reaches-trans (tells fd msg s) (broadcast_to-Reaches fds i msg (enqueue fd msg s)))
      | inr e ↦ rw e (broadcast_to-Reaches fds i msg s)
    ]

notify-Reaches : (fd seq : ℕ) (msg : Bytes) (s : Server) → Reaches s (notify fd seq msg s)
unfolding notify
notify-Reaches fd seq msg s = elim (Option-cases (Assoc.lookup fd s.sessions)) [
  | inl e ↦ rw (e, notify) stays
  | inr (c, e) ↦ elim (Bool-cases (c.session_seq == seq)) [
    | inl h ↦ rw (e, notify, h) (tells fd msg s)
    | inr h ↦ rw (e, notify, h) stays
  ]
]

report_fill-Reaches : (f : Fill) (s : Server) → Reaches s (report_fill f s)
unfolding report_fill broadcast_trade
report_fill-Reaches f s =
    let t = notify f.buyer_fd f.buyer_seq (msg_bought f.instrument f.qty f.price) s in
    let u = notify f.sell_fd f.sell_seq (msg_sold f.instrument f.qty f.price) t in
    Reaches-trans
      (Reaches-trans (notify-Reaches f.buyer_fd f.buyer_seq _ s)
        (notify-Reaches f.sell_fd f.sell_seq (msg_sold f.instrument f.qty f.price) t))
      (broadcast_to-Reaches (keys u.sessions) f.instrument (msg_trade f.instrument f.qty f.price) u)

report_fills-Reaches : (fs : List Fill) (s : Server) → Reaches s (report_fills fs s)
unfolding report_fills
report_fills-Reaches [] s = stays
report_fills-Reaches (f ∷ fs) s =
    Reaches-trans (report_fill-Reaches f s) (report_fills-Reaches fs (report_fill f s))

place_order-Reaches :
    (fd : ℕ) (side : Side) (i : Bytes) (qty price : ℕ) (s : Server)
    → Reaches s (place_order fd side i qty price s)
unfolding place_order
place_order-Reaches fd side i qty price s =
    Reaches-trans
      (then_by (traded _ _) (then_by (told fd _ _) (by_step (traded (Book.next_id s.book).0 s))))
      (report_fills-Reaches _ _)

pub handle_order-Reaches :
    (fd : ℕ) (cmd : Bytes) (args : List Bytes) (s : Server)
    → Reaches s (handle_order fd cmd args s).0
unfolding handle_order
handle_order-Reaches fd cmd [] s = tells fd _ s
handle_order-Reaches fd cmd (i ∷ []) s = tells fd _ s
handle_order-Reaches fd cmd (i ∷ q ∷ []) s = tells fd _ s
handle_order-Reaches fd cmd (i ∷ q ∷ p ∷ []) s = elim (Bool-cases (is_valid_instrument i)) [
  | inr a ↦ rw a (tells fd _ s)
  | inl a ↦ elim (Bool-cases (parse_positive_int q 0).0) [
    | inr b ↦ rw (a, b) (tells fd _ s)
    | inl b ↦ elim (Bool-cases (parse_positive_int p 0).0) [
      | inr c ↦ rw (a, b, c) (tells fd _ s)
      | inl c ↦ rw (a, b, c) (place_order-Reaches fd _ i _ _ s)
    ]
  ]
]
handle_order-Reaches fd cmd (i ∷ q ∷ p ∷ r ∷ rest) s = tells fd _ s

pub handle_cancel-Reaches :
    (fd : ℕ) (args : List Bytes) (s : Server) → Reaches s (handle_cancel fd args s).0
unfolding handle_cancel
handle_cancel-Reaches fd [] s = tells fd _ s
handle_cancel-Reaches fd (oid ∷ []) s = elim (Bool-cases (parse_nonnegative_int oid 0).0) [
  | inr a ↦ rw a (tells fd _ s)
  | inl a ↦
      elim (Bool-cases
        (cancel (parse_nonnegative_int oid 0).1 (session_at fd s).fd (session_at fd s).session_seq
          s.book).1) [
            | inr b ↦ rw (a, b) (then_by (told fd _ _) (by_step (traded _ s)))
            | inl b ↦ rw (a, b) (then_by (told fd _ _) (by_step (traded _ s)))
          ]
]
handle_cancel-Reaches fd (oid ∷ r ∷ rest) s = tells fd _ s
