-- ===== src/Server/Commands/Reports.antt =====
-- The answers and reports of `handle_line` are quiet: beside what is sent, they change nothing.
use the_socket_exchange.Common.{
  ℕ, List, [], ◌∷◌, ◌==◌, nat_eq, Bytes, Option-cases, Bool-cases, inl, inr,
}
use the_socket_exchange.Assoc
use the_socket_exchange.Book.{Fill}
use the_socket_exchange.Protocol.{msg_bought, msg_sold}
use the_socket_exchange.Server.{Server}
use the_socket_exchange.Server.Quiet.{
  Quiet, Quiet-refl, Quiet-trans, enqueue-Quiet, broadcast_trade-Quiet,
}
use the_socket_exchange.Server.Commands.{notify, report_fill, report_fills}

pub notify-Quiet : (fd seq : ℕ) (msg : Bytes) (s : Server) → Quiet s (notify fd seq msg s)
unfolding notify
notify-Quiet fd seq msg s = elim (Option-cases (Assoc.lookup fd s.sessions)) [
  | inl e ↦ rw (e, notify) (Quiet-refl s)
  | inr (c, e) ↦ elim (Bool-cases (c.session_seq == seq)) [
    | inl h ↦ rw (e, notify, h) (enqueue-Quiet fd msg s)
    | inr h ↦ rw (e, notify, h) (Quiet-refl s)
  ]
]

pub report_fill-Quiet : (f : Fill) (s : Server) → Quiet s (report_fill f s)
unfolding report_fill
report_fill-Quiet f s =
    Quiet-trans (notify-Quiet f.buyer_fd f.buyer_seq (msg_bought f.instrument f.qty f.price) s) (
      Quiet-trans (notify-Quiet f.sell_fd f.sell_seq (msg_sold f.instrument f.qty f.price) _)
        (broadcast_trade-Quiet f.instrument f.qty f.price _))

-- The reports of fills, to the parties and to the subscribers, change the book, the numbers of
-- sessions and every session except for its queued output by nothing.
pub report_fills-Quiet : (fs : List Fill) (s : Server) → Quiet s (report_fills fs s)
unfolding report_fills
report_fills-Quiet [] s = Quiet-refl s
report_fills-Quiet (f ∷ fs) s = Quiet-trans (report_fill-Quiet f s) (report_fills-Quiet fs _)
