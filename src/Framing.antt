-- ===== src/Framing.antt =====
-- `LineBuffer` of common/net_utils.hpp and common/net_utils.cpp: the bytes that were received and
-- not yet taken as a line.
pub mod Stream
use the_socket_exchange.Common.{
  ℕ, zero, suc, length, Option, none, some, List, [], ◌∷◌, ◌++◌, if◌then◌else◌, ◌==◌, nat_eq, Bytes,
}

pub record LineBuffer : Type 0 where
  pub buf : Bytes

abbrev pub empty : LineBuffer
empty = record { buf = [] }

-- `buf_.append(data, len)`
unfoldable pub feed : LineBuffer → Bytes → LineBuffer
feed b bytes = record { buf = b.buf ++ bytes }

-- `find('\n')`, `substr(0, pos)` and `erase(0, pos + 1)`: what stands before the first newline, and
-- what stands behind it.
unfoldable pub split_line : Bytes → Option (Bytes × Bytes)
split_line [] = none
split_line (c ∷ s) =
    let rest = split_line s in
    if c == b'\n'
    then some ([], s)
    else elim rest [ none ↦ none | some (line, left) ↦ some (c ∷ line, left) ]

-- `if (!out.empty() && out.back() == '\r') out.pop_back()`
unfoldable pub strip_cr : Bytes → Bytes
strip_cr [] = []
strip_cr (c ∷ []) = if c == b'\r' then [] else c ∷ []
strip_cr (c ∷ d ∷ s) = c ∷ strip_cr (d ∷ s)

-- The line, if there is one, and the buffer.
unfoldable pub next_line : LineBuffer → Option Bytes × LineBuffer
next_line b = elim (split_line b.buf) [
  | none ↦ (none, b)
  | some (line, left) ↦ (some (strip_cr line), record { buf = left })
]

-- `while (next_line(line)) …`: the lines that a buffer gives up, and what it keeps. Each round takes
-- the newline of a line at least, so a fuel above the buffer's length is enough.
unfoldable pub drain_loop : ℕ → LineBuffer → List Bytes × LineBuffer
drain_loop zero b = ([], b)
drain_loop (suc fuel) b =
    let (found, b') = next_line b in
    elim found [
      | none ↦ ([], b')
      | some line ↦ (line ∷ (drain_loop fuel b').0, (drain_loop fuel b').1)
    ]

unfoldable pub drain : LineBuffer → List Bytes × LineBuffer
drain b = drain_loop (suc (length b.buf)) b

-- What a reader does with each `recv`: it feeds the bytes and takes every complete line.
unfoldable pub receive : LineBuffer → List Bytes → List Bytes × LineBuffer
receive b [] = ([], b)
receive b (chunk ∷ chunks) =
    let (lines, b') = drain (feed b chunk) in
    let (later, b'') = receive b' chunks in (lines ++ later, b'')
