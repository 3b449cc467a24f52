-- ===== src/Os/Sending/Laws.antt =====
-- No loop over `send` loses, repeats or reorders a byte.
use the_socket_exchange.Common.{
  append-nil, sym, concat, ℕ, ◌<◌, min, List, [], ◌∷◌, ◌++◌, ◌≡◌, ◌≢◌, refl, ap, ◌∙◌, arith, Bytes,
  length, length-drop, take, drop, take-append-drop, append_assoc, All,
}
use the_socket_exchange.Os.{eintr, eagain, ewouldblock, SendAnswer, took, send_failed}
use the_socket_exchange.Os.Sending.{
  finished, blocked, broken, SendRun, FlushRun, fast_path, flush, send_all,
}

-- An answer of a connection that is still up.
abbrev pub IsFine : SendAnswer → Type 0
IsFine (took n) = 0 < n
IsFine (send_failed eintr) = Unit
IsFine (send_failed eagain) = Unit
IsFine (send_failed ewouldblock) = Unit
IsFine (send_failed _) = ⊥

-- What a sending loop owes for the bytes `text`, of which `before` were taken.
pub record IsSent (before text : Bytes) (run : SendRun) : Type 0 where
  pub exact : run.taken ++ run.rest ≡ before ++ text
  pub done : run.end ≡ finished → run.rest ≡ []
  pub pending : run.end ≡ blocked → run.rest ≢ []

cut : (before text : Bytes) (k : ℕ) → (before ++ take k text) ++ drop k text ≡ before ++ text
cut before text k =
    append_assoc before (take k text) (drop k text) ∙ ap (◌++◌ before) (take-append-drop k text)

-- The fast path of `enqueue`: the bytes taken and the bytes left are the line, nothing is left when
-- it finishes, and something is left when it is blocked.
pub fast_path-IsSent :
    (answers : List SendAnswer) (before text : Bytes)
    → IsSent before text (fast_path answers before text)
unfolding fast_path
fast_path-IsSent [] before [] = ground arith
fast_path-IsSent [] before (c ∷ text) = ground arith
fast_path-IsSent (took n ∷ answers) before [] = ground arith
fast_path-IsSent (took n ∷ answers) before (c ∷ text) =
    let k = min n (length (c ∷ text)) in
    ground (
      arith,
      cut before (c ∷ text) k,
      fast_path-IsSent answers (before ++ take k (c ∷ text)) (drop k (c ∷ text)),
    )
fast_path-IsSent (send_failed e ∷ answers) before [] = ground arith
fast_path-IsSent (send_failed e ∷ answers) before (c ∷ text) =
    ground (arith, fast_path-IsSent answers before (c ∷ text))

-- On a connection that is up the fast path does not break, and the later answers stay fine.
pub fast_path-IsFine :
    (answers : List SendAnswer) (before text : Bytes)
    → All IsFine answers
    → ((fast_path answers before text).end ≢ broken)
      × All IsFine (fast_path answers before text).answers
unfolding fast_path
fast_path-IsFine [] before [] h = ground arith
fast_path-IsFine [] before (c ∷ text) h = ground arith
fast_path-IsFine (took n ∷ answers) before [] h = ground arith
fast_path-IsFine (took n ∷ answers) before (c ∷ text) (hn, h) =
    let k = min n (length (c ∷ text)) in
    ground (arith, fast_path-IsFine answers (before ++ take k (c ∷ text)) (drop k (c ∷ text)) h)
fast_path-IsFine (send_failed e ∷ answers) before [] h = ground arith
fast_path-IsFine (send_failed e ∷ answers) before (c ∷ text) (he, h) =
    ground (arith, fast_path-IsFine answers before (c ∷ text) h)

-- What the flush of a queue owes.
pub record IsFlushed (before : Bytes) (queue : List Bytes) (run : FlushRun) : Type 0 where
  pub exact : run.taken ++ concat run.outbuf ≡ before ++ concat queue
  pub done : run.end ≡ finished → run.outbuf ≡ []
  pub pending : run.end ≢ finished → run.outbuf ≢ []
  pub occupied : All (λ (s : Bytes). s ≢ []) queue → All (λ (s : Bytes). s ≢ []) run.outbuf

drop-ne-nil : (k : ℕ) (s : Bytes) → k < length s → drop k s ≢ []
drop-ne-nil k s h = λ e. absurd (omega (arith, ap length e, length-drop k s))

-- The flush of `on_writable`: the bytes taken and the bytes still queued are the queue in order,
-- nothing is queued when it finishes, something is queued when it stops early, and no queued piece
-- becomes empty.
pub flush-IsFlushed :
    (answers : List SendAnswer) (before : Bytes) (queue : List Bytes)
    → IsFlushed before queue (flush answers before queue)
unfolding flush
flush-IsFlushed [] before [] = ground arith
flush-IsFlushed (a ∷ answers) before [] = ground arith
flush-IsFlushed [] before (front ∷ queue) = ground arith
flush-IsFlushed (took n ∷ answers) before (front ∷ queue) =
    let k = min n (length front) in
    ground (
      arith,
      cut before front k,
      append_assoc (before ++ take k front) (drop k front) (concat queue),
      append_assoc before front (concat queue),
      drop-ne-nil k front,
      flush-IsFlushed answers (before ++ front) queue,
    )
flush-IsFlushed (send_failed e ∷ answers) before (front ∷ queue) =
    ground (arith, flush-IsFlushed answers before (front ∷ queue))

pub flush-IsFine :
    (answers : List SendAnswer) (before : Bytes) (queue : List Bytes)
    → All IsFine answers
    → All (λ (s : Bytes). s ≢ []) queue
    → ((flush answers before queue).end ≢ broken) × All IsFine (flush answers before queue).answers
unfolding flush
flush-IsFine [] before [] h q = ground arith
flush-IsFine (a ∷ answers) before [] h q = ground arith
flush-IsFine [] before (front ∷ queue) h q = ground arith
flush-IsFine (took n ∷ answers) before ([] ∷ queue) (hn, h) (hf, q) = absurd (hf refl)
flush-IsFine (took n ∷ answers) before ((c ∷ front) ∷ queue) (hn, h) (hf, q) =
    ground (arith, flush-IsFine answers (before ++ c ∷ front) queue h q)
flush-IsFine (send_failed e ∷ answers) before (front ∷ queue) (he, h) (hf, q) =
    ground (arith, flush-IsFine answers before (front ∷ queue) h (hf, q))

-- The bytes that `send_all` sent and those that it did not are the text.
send_all_parts :
    (answers : List SendAnswer) (before text : Bytes)
    → ((send_all answers before text).taken ++ (send_all answers before text).rest ≡ before ++ text)
      × (All IsFine answers
          → (send_all answers before text).end ≡ finished
          → (send_all answers before text).rest ≡ [])
unfolding send_all
send_all_parts [] before [] = ground arith
send_all_parts [] before (c ∷ text) = ground arith
send_all_parts (took n ∷ answers) before [] = ground arith
send_all_parts (took n ∷ answers) before (c ∷ text) =
    let k = min n (length (c ∷ text)) in
    ground (
      arith,
      cut before (c ∷ text) k,
      send_all_parts answers (before ++ take k (c ∷ text)) (drop k (c ∷ text)),
    )
send_all_parts (send_failed e ∷ answers) before [] = ground arith
send_all_parts (send_failed e ∷ answers) before (c ∷ text) =
    ground (arith, send_all_parts answers before (c ∷ text))

-- Where every `send` takes a byte at least or fails with EINTR, EAGAIN or EWOULDBLOCK, and `send_all`
-- reports success, it has sent exactly the text.
pub send_all_fine :
    (answers : List SendAnswer) (text : Bytes)
    → All IsFine answers
    → (send_all answers [] text).end ≡ finished
    → (send_all answers [] text).taken ≡ text
send_all_fine answers text fine done =
    sym (append-nil _)
    ∙ ap (◌++◌ (send_all answers [] text).taken)
        (sym ((send_all_parts answers [] text).1 fine done))
    ∙ (send_all_parts answers [] text).0
