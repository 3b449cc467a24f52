-- ===== src/Scratch.antt =====
-- The programs t1.cpp, t2.cpp and t5.cpp, which try the protocol, the framing and the order book
-- out: each block is a function that says whether all its assertions hold. Tests/Scratch runs them.
pub mod Parsing
pub mod Lines
pub mod Matching
use the_socket_exchange.Common.{List, [], ◌∷◌, Bool, true, false, if◌then◌else◌}

-- `assert(a); assert(b); ...`
abbrev pub all : List Bool → Bool
all [] = true
all (a ∷ rest) = let later = all rest in if a then later else false
