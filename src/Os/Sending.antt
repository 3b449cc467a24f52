-- ===== src/Os/Sending.antt =====
-- The loops around `send`: `send_all` and `send_line` of common/net_utils.cpp, the fast path of
-- `enqueue` and the flush of `on_writable` of server/exchange_server.cpp.
pub mod Laws
pub mod Progress
use the_socket_exchange.Common.{
  ◌+◌, min, List, [], ◌∷◌, ◌++◌, if◌then◌else◌, ltb, Bytes, length, is_empty, take, drop,
}
use the_socket_exchange.Os.{eintr, eagain, ewouldblock, SendAnswer, took, send_failed}

-- How a loop ends: everything was taken, the peer's window is full, or the call failed.
pub data SendEnd : Type 0 where
  finished blocked broken : SendEnd

-- What a loop over `send` leaves: its end, the bytes that were taken and those that were not, and
-- the answers of the calls still to come.
pub record SendRun : Type 0 where
  pub end : SendEnd
  pub taken : Bytes
  pub rest : Bytes
  pub answers : List SendAnswer

-- `while (sent < framed.size())` of `enqueue`
unfoldable pub fast_path : List SendAnswer → Bytes → Bytes → SendRun
fast_path [] taken rest = record {
  end = if is_empty rest then finished else blocked;
  taken = taken;
  rest = rest;
  answers = [];
}
fast_path (took n ∷ answers) taken rest =
    let k = min n (length rest) in
    let next = fast_path answers (taken ++ take k rest) (drop k rest) in
    if is_empty rest
    then record { end = finished; taken = taken; rest = rest; answers = took n ∷ answers }
    else if ltb 0 k
    then next
    else record { end = broken; taken = taken; rest = rest; answers = answers }
fast_path (send_failed e ∷ answers) taken rest =
    let next = fast_path answers taken rest in
    if is_empty rest
    then record { end = finished; taken = taken; rest = rest; answers = send_failed e ∷ answers }
    else elim e [
      | eintr ↦ next
      | eagain ↦ record { end = blocked; taken = taken; rest = rest; answers = answers }
      | ewouldblock ↦ record { end = blocked; taken = taken; rest = rest; answers = answers }
      | _ ↦ record { end = broken; taken = taken; rest = rest; answers = answers }
    ]

-- What `on_writable` leaves of the queue.
pub record FlushRun : Type 0 where
  pub end : SendEnd
  pub taken : Bytes
  pub outbuf : List Bytes
  pub answers : List SendAnswer

-- `while (!c.outbuf.empty())` of `on_writable`: `finished` is the drained queue, `blocked` a return
-- with the write event still armed, `broken` the hard error that closes the session.
unfoldable pub flush : List SendAnswer → Bytes → List Bytes → FlushRun
flush answers taken [] = record { end = finished; taken = taken; outbuf = []; answers = answers }
flush [] taken (front ∷ queue) = record {
  end = blocked;
  taken = taken;
  outbuf = front ∷ queue;
  answers = [];
}
flush (took n ∷ answers) taken (front ∷ queue) =
    let k = min n (length front) in
    let next = flush answers (taken ++ front) queue in
    if ltb 0 k
    then (if ltb k (length front)
        then record {
          end = blocked;
          taken = taken ++ take k front;
          outbuf = drop k front ∷ queue;
          answers = answers;
        }
        else next)
    else record { end = broken; taken = taken; outbuf = front ∷ queue; answers = answers }
flush (send_failed e ∷ answers) taken (front ∷ queue) =
    let next = flush answers taken (front ∷ queue) in
    elim e [
      | eintr ↦ next
      | eagain ↦ record { end = blocked; taken = taken; outbuf = front ∷ queue; answers = answers }
      | ewouldblock ↦ record {
        end = blocked;
        taken = taken;
        outbuf = front ∷ queue;
        answers = answers;
      }
      | _ ↦ record { end = broken; taken = taken; outbuf = front ∷ queue; answers = answers }
    ]

-- `send_all`, on a blocking socket: `broken` is the result -1, and `finished` a result that counts
-- the bytes taken, all of them unless a call took none. When the list of answers is used up, the
-- connection is lost.
unfoldable pub send_all : List SendAnswer → Bytes → Bytes → SendRun
send_all [] taken rest = record {
  end = if is_empty rest then finished else broken;
  taken = taken;
  rest = rest;
  answers = [];
}
send_all (took n ∷ answers) taken rest =
    let k = min n (length rest) in
    let next = send_all answers (taken ++ take k rest) (drop k rest) in
    if is_empty rest
    then record { end = finished; taken = taken; rest = rest; answers = took n ∷ answers }
    else if ltb 0 k
    then next
    else record { end = finished; taken = taken; rest = rest; answers = answers }
send_all (send_failed e ∷ answers) taken rest =
    let next = send_all answers taken rest in
    if is_empty rest
    then record { end = finished; taken = taken; rest = rest; answers = send_failed e ∷ answers }
    else elim e [
      | eintr ↦ next
      | _ ↦ record { end = broken; taken = taken; rest = rest; answers = answers }
    ]
