-- ===== src/Framing/Stream.antt =====
-- Framing as a function of the byte stream alone.
use mathlib.Core.List.{map-append}
use the_socket_exchange.Common.{
  concat, ℕ, zero, suc, ◌<◌, Option, none, some, List, [], ◌∷◌, ◌++◌, if◌then◌else◌, ◌==◌, nat_eq,
  Bytes, map, ◌≡◌, ◌≢◌, refl, ap, ◌∙◌, sym, arith, length, All, Option-cases, inl, inr, subst,
  append_assoc, append-nil,
}
use the_socket_exchange.Framing.{
  LineBuffer, feed, split_line, strip_cr, next_line, drain_loop, drain, receive,
}

-- One more byte before the first newline.
abbrev push : ℕ → List Bytes × Bytes → List Bytes × Bytes
push c ([], rest) = ([], c ∷ rest)
push c (l ∷ ls, rest) = ((c ∷ l) ∷ ls, rest)

-- The lines of a stream without their newlines, and the unfinished line at its end.
abbrev pub frames : Bytes → List Bytes × Bytes
frames [] = ([], [])
frames (c ∷ s) =
    let (ls, rest) = frames s in if c == b'\n' then ([] ∷ ls, rest) else push c (ls, rest)

-- Lines with their newlines.
abbrev pub unlines : List Bytes → Bytes
unlines [] = []
unlines (l ∷ ls) = l ++ (b'\n' ∷ unlines ls)

abbrev pub NoNewline : Bytes → Type 0
NoNewline = All (λ c. c ≢ b'\n')

frames-append :
    (x y : Bytes)
    → frames (x ++ y)
      ≡ ((frames x).0 ++ (frames ((frames x).1 ++ y)).0, (frames ((frames x).1 ++ y)).1)
frames-append [] y = refl
frames-append (c ∷ x) y = ground (arith, frames-append x y)

-- The lines and the rest are the stream, cut exactly at the newlines.
pub frames_lem :
    (s : Bytes)
    → (unlines (frames s).0 ++ (frames s).1 ≡ s)
      × All NoNewline (frames s).0
      × NoNewline (frames s).1
frames_lem [] = (refl, tt, tt)
frames_lem (c ∷ s) = ground (arith, frames_lem s)

split_line_lem :
    (s : Bytes)
    → frames s ≡ (elim (split_line s) [
      | none ↦ ([], s)
      | some (l, left) ↦ (l ∷ (frames left).0, (frames left).1)
    ])
unfolding split_line
split_line_lem [] = refl
split_line_lem (c ∷ s) = ground (arith, split_line_lem s)

abbrev Shorter : Bytes → Option (Bytes × Bytes) → Type 0
Shorter s none = Unit
Shorter s (some (l, left)) = length left < length s

split_line-Shorter : (s : Bytes) → Shorter s (split_line s)
unfolding split_line
split_line-Shorter [] = tt
split_line-Shorter (c ∷ s) = ground (arith, split_line-Shorter s)

-- A line takes its newline off the buffer at least.
pub next_line_shorter :
    (b : LineBuffer) (line : Bytes) (fuel : ℕ)
    → (next_line b).0 ≡ some line
    → length b.buf < suc fuel
    → length (next_line b).1.buf < fuel
unfolding next_line
next_line_shorter b line fuel e h = elim (Option-cases (split_line b.buf)) [
  | inl n ↦ absurd (ground arith)
  | inr (pair, n) ↦
      let k : Shorter b.buf (some pair) = subst (Shorter b.buf) n (split_line-Shorter b.buf) in
      rw (n, next_line) (omega (arith, k))
]

-- A buffer without a line stays so.
pub next_line_again :
    (b : LineBuffer) → (next_line b).0 ≡ none → (next_line (next_line b).1).0 ≡ none
unfolding next_line
next_line_again b e = ground arith

abbrev cleaned : List Bytes × Bytes → List Bytes × LineBuffer
cleaned (ls, rest) = (map strip_cr ls, record { buf = rest })

drain_loop-none :
    (fuel : ℕ) (s : Bytes)
    → split_line s ≡ none
    → drain_loop (suc fuel) (record { buf = s }) ≡ ([], record { buf = s })
unfolding drain_loop next_line
drain_loop-none fuel s e = ground arith

drain_loop-some :
    (fuel : ℕ) (s l left : Bytes)
    → split_line s ≡ some (l, left)
    → drain_loop (suc fuel) (record { buf = s }) ≡ (
      strip_cr l ∷ (drain_loop fuel (record { buf = left })).0,
      (drain_loop fuel (record { buf = left })).1,
    )
unfolding drain_loop next_line
drain_loop-some fuel s l left e = ground arith

pub frames-none : (s : Bytes) → split_line s ≡ none → frames s ≡ ([], s)
frames-none s e = ground (arith, split_line_lem s)

pub frames-some :
    (s l left : Bytes)
    → split_line s ≡ some (l, left)
    → frames s ≡ (l ∷ (frames left).0, (frames left).1)
frames-some s l left e = ground (arith, split_line_lem s)

frames-NoNewline : (s : Bytes) → NoNewline s → frames s ≡ ([], s)
frames-NoNewline [] h = refl
frames-NoNewline (c ∷ s) (hc, h) = ground (arith, frames-NoNewline s h)

drain_loop-frames :
    (fuel : ℕ) (s : Bytes)
    → length s < fuel
    → drain_loop fuel (record { buf = s }) ≡ cleaned (frames s)
drain_loop-frames zero s h = absurd (omega arith)
drain_loop-frames (suc fuel) s h = elim (Option-cases (split_line s)) [
  | inl e ↦ drain_loop-none fuel s e ∙ ap cleaned (sym (frames-none s e))
  | inr (r, e) ↦
      let k : length r.1 < fuel = omega (arith, subst (Shorter s) e (split_line-Shorter s)) in
      drain_loop-some fuel s r.0 r.1 e
      ∙ rw (drain_loop-frames fuel r.1 k) (ap cleaned (sym (frames-some s r.0 r.1 e)))
]

pub drain-frames : (b : LineBuffer) → drain b ≡ cleaned (frames b.buf)
unfolding drain
drain-frames b = drain_loop-frames (suc (length b.buf)) b.buf (omega arith)

-- However the bytes of a stream are spread over the `recv` calls, the lines that come out are those
-- of the whole stream, each without a final carriage return, and the unfinished line waits in the
-- buffer. The buffer at the start holds no complete line.
pub receive-frames :
    (b : LineBuffer) (chunks : List Bytes)
    → NoNewline b.buf
    → receive b chunks ≡ (
      map strip_cr (frames (b.buf ++ concat chunks)).0,
      record { buf = (frames (b.buf ++ concat chunks)).1 },
    )
unfolding receive feed
receive-frames b [] h = rw (append-nil b.buf, frames-NoNewline b.buf h)
receive-frames b (chunk ∷ chunks) h =
    let f = frames (b.buf ++ chunk) in
    let whole : frames (b.buf ++ (chunk ++ concat chunks))
        ≡ (f.0 ++ (frames (f.1 ++ concat chunks)).0, (frames (f.1 ++ concat chunks)).1) =
      ap frames (sym (append_assoc b.buf chunk (concat chunks)))
      ∙ frames-append (b.buf ++ chunk) (concat chunks) in
    rw
      (
        drain-frames (feed b chunk),
        receive-frames (record { buf = f.1 }) chunks (frames_lem (b.buf ++ chunk)).2,
      )
      (ap (λ ls. (ls, record { buf = (frames (f.1 ++ concat chunks)).1 }))
          (sym (map-append strip_cr f.0 (frames (f.1 ++ concat chunks)).0))
        ∙ ap cleaned (sym whole))
