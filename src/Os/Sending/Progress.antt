-- ===== src/Os/Sending/Progress.antt =====
-- A flush whose peer takes a byte at least in each call makes progress.
use the_socket_exchange.Common.{
  ℕ, ◌-◌, ◌≤◌, ◌<◌, min, List, [], ◌∷◌, ◌++◌, ◌≢◌, refl, arith, Bytes, length, length-append,
  length-drop, drop, concat, All,
}
use the_socket_exchange.Os.{SendAnswer, took, send_failed}
use the_socket_exchange.Os.Sending.{broken, FlushRun, flush}
use the_socket_exchange.Os.Sending.Laws.{IsFine}

-- The peer has room for a byte.
abbrev pub IsRoom : SendAnswer → Type 0
IsRoom (took n) = 0 < n
IsRoom (send_failed e) = ⊥

pub IsRoom-IsFine : (a : SendAnswer) → IsRoom a → IsFine a
IsRoom-IsFine (took n) h = h
IsRoom-IsFine (send_failed e) h = absurd h

abbrev pub IsFull : Bytes → Type 0
IsFull s = s ≢ []

abbrev pub weight : List Bytes → ℕ
weight queue = length (concat queue)

full_length : (s : Bytes) → IsFull s → 0 < length s
full_length [] h = absurd (h refl)
full_length (c ∷ s) h = omega arith

-- What is left to send is less, unless nothing is left, and is not more than the calls to come.
pub record IsProgress (queue : List Bytes) (run : FlushRun) : Type 0 where
  pub unbroken : run.end ≢ broken
  pub room : All IsRoom run.answers
  pub enough : weight run.outbuf ≤ length run.answers
  pub less : weight run.outbuf ≤ weight queue - 1

pub flush-IsProgress :
    (answers : List SendAnswer) (before : Bytes) (queue : List Bytes)
    → All IsRoom answers
    → All IsFull queue
    → weight queue ≤ length answers
    → IsProgress queue (flush answers before queue)
unfolding flush
flush-IsProgress [] before [] r f h = ground arith
flush-IsProgress (a ∷ answers) before [] r f h = ground arith
flush-IsProgress [] before (front ∷ queue) r (x, f) h =
    absurd (omega (arith, h, full_length front x, length-append front (concat queue)))
flush-IsProgress (send_failed e ∷ answers) before (front ∷ queue) (a, r) f h = absurd a
flush-IsProgress (took n ∷ answers) before (front ∷ queue) (a, r) (x, f) h =
    let k = min n (length front) in
    ground (
      arith,
      full_length front x,
      length-append front (concat queue),
      length-append (drop k front) (concat queue),
      length-drop k front,
      flush-IsProgress answers (before ++ front) queue r f
          (omega (arith, h, full_length front x, length-append front (concat queue))),
    )
