-- ===== src/Scratch/Lines.antt =====
-- t2.cpp: the line buffer.
use the_socket_exchange.Common.{
  ℕ, none, some, List, [], ◌∷◌, ◌++◌, Bool, true, false, ◌==◌, nat_eq, bytes_eq, Bytes, replicate,
  codes,
}
use the_socket_exchange.Framing
use the_socket_exchange.Framing.{LineBuffer}
use the_socket_exchange.Scratch.{all}

-- One statement of a block: FEED, `!lb.next_line(out)`, or `lb.next_line(out) && out == line`.
pub data Line : Type 0 where
  fed gives : Bytes → Line
  waits : Line

-- The assertions of a block, in order.
unfoldable pub script : List Line → LineBuffer → List Bool
unfolding Framing.feed Framing.next_line
script [] lb = []
script (fed bytes ∷ rest) lb = script rest (Framing.feed lb bytes)
script (waits ∷ rest) lb =
    let (found, lb') = Framing.next_line lb in
    elim found [ none ↦ true | some out ↦ false ] ∷ script rest lb'
script (gives line ∷ rest) lb =
    let (found, lb') = Framing.next_line lb in
    elim found [ none ↦ false | some out ↦ out == line ] ∷ script rest lb'

abbrev block : List Line → Bool
block lines = all (script lines Framing.empty)

unfoldable pub guide_scenario : Bool
unfolding script
guide_scenario = block (
    fed (codes "BU")
    ∷ waits
    ∷ fed (codes "Y JNST 100 238\nSE")
    ∷ gives (codes "BUY JNST 100 238")
    ∷ waits
    ∷ fed (codes "LL JNST 60 238\nCANCEL 1\n")
    ∷ gives (codes "SELL JNST 60 238")
    ∷ gives (codes "CANCEL 1")
    ∷ waits
    ∷ [])

-- `for (const char* p = msg; *p; ++p)`; no position in the text is 19, so no line may come.
abbrev bytewise : Bytes → List Line
bytewise [] = []
bytewise (c ∷ msg) = waits ∷ fed (c ∷ []) ∷ bytewise msg

unfoldable pub one_byte_at_a_time : Bool
unfolding script
one_byte_at_a_time =
    block
      (bytewise (codes "LOGIN alice TRADER\n") ++ gives (codes "LOGIN alice TRADER") ∷ waits ∷ [])

unfoldable pub coalesced : Bool
unfolding script
coalesced = block (
    fed (codes "A\nB\nC\nD\n")
    ∷ gives (codes "A")
    ∷ gives (codes "B")
    ∷ gives (codes "C")
    ∷ gives (codes "D")
    ∷ waits
    ∷ [])

unfoldable pub carriage_returns : Bool
unfolding script
carriage_returns = block (
    fed (codes "\n")
    ∷ gives []
    ∷ fed (codes "QUIT\r\n")
    ∷ gives (codes "QUIT")
    ∷ fed (codes "PAR\rTIAL")
    ∷ waits
    ∷ fed (codes "\n")
    ∷ gives (codes "PAR\rTIAL")
    ∷ [])

-- The block's loop has 1000 rounds; `n` is their number.
unfoldable pub long_tail : ℕ → Bool
unfolding script
long_tail n = block (
    replicate n (fed (codes "x"))
    ++ waits ∷ fed (codes "\n") ∷ gives (replicate n b'x') ∷ waits ∷ [])
