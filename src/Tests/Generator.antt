-- ===== src/Tests/Generator.antt =====
-- The connection generator at concrete answers of the system.
use the_socket_exchange.Common.{
  ℕ, zero, suc, none, some, true, [], ◌∷◌, ◌++◌, ◌≡◌, refl, arith, codes, length,
}
use the_socket_exchange.Sockets.{Address, opened, closed}
use the_socket_exchange.Sockets.Descriptors.{open_after, held}
use the_socket_exchange.ConnGenerator.{
  other, emfile, econnrefused, einval, raise_fd_limit, next_piece, split_csv_loop, split_csv, given,
  denied, Attempt, Process, connect_one, bind_one, open_one, Held, ramp,
}
use the_socket_exchange.ConnGenerator.Sources.{csv_fields, nonempty, split_csv-fields}
use the_socket_exchange.ConnGenerator.Opening.{cause_of, verdict, Outcome, open_one_lem}
use the_socket_exchange.ConnGenerator.Ramp.{newest_first, AreNew, IsHeld, IsStopped, ramp_lem}

abbrev server_address : Address
server_address = record { port = 5000; host = 2130706433 }

-- Every call succeeds.
abbrev fine : ℕ → Attempt
fine fd = record {
  socket = given fd;
  inet_pton = λ ip. some 2130706434;
  bind = none;
  connect = none;
  after_close = einval;
}

-- `connect` fails and `close` changes `errno`.
abbrev refused : Attempt
refused = record (fine 4) { connect = some econnrefused }

abbrev fresh : Process
fresh = record { errno = other 0; done = [] }

sources : split_csv (codes "127.0.0.1,,127.0.0.2,") ≡ codes "127.0.0.1" ∷ codes "127.0.0.2" ∷ []
unfolding split_csv split_csv_loop next_piece
sources = refl

no_source : split_csv [] ≡ []
unfolding split_csv split_csv_loop next_piece
no_source = refl

split_csv-fields_example : split_csv (codes "a,,b") ≡ nonempty (csv_fields (codes "a,,b"))
split_csv-fields_example = split_csv-fields (codes "a,,b")

raised :
    raise_fd_limit
      (some (record { rlim_cur = 256; rlim_max = 4096 }))
      true
      (record { rlim_cur = 256; rlim_max = 4096 })
    ≡ record { rlim_cur = 4096; rlim_max = 4096 }
unfolding raise_fd_limit
raised = refl

refusal :
    open_one server_address none refused fresh
    ≡ (none, record { errno = econnrefused; done = opened 4 ∷ closed 4 ∷ [] })
unfolding open_one connect_one
refusal = refl

abbrev tried : Outcome
tried = open_one server_address (some (codes "127.0.0.2")) refused fresh

open_one_lem_example :
    ((tried.0, tried.1.errno)
      ≡ verdict (cause_of (some (codes "127.0.0.2")) refused) (given 4) (other 0))
    × (open_after [] tried.1.done ≡ held tried.0 ++ [])
open_one_lem_example =
    open_one_lem server_address (some (codes "127.0.0.2")) refused fresh [] refl refl

-- The descriptors 3, 4 and 5, and then the limit on them.
abbrev rounds : ℕ → Attempt
rounds zero = fine 3
rounds (suc zero) = fine 4
rounds (suc (suc i)) = record (fine 5) { socket = denied emfile }

abbrev two_held : Held
two_held = ramp server_address (codes "127.0.0.2" ∷ []) rounds 10 0 [] fresh

ramp_run : (two_held.fds ≡ 3 ∷ 4 ∷ []) × (two_held.failed_at ≡ some (2, emfile))
unfolding ramp open_one bind_one connect_one
ramp_run = (refl, refl)

rounds-AreNew : AreNew server_address (codes "127.0.0.2" ∷ []) rounds
rounds-AreNew zero zero fd lt e = absurd (omega arith)
rounds-AreNew zero (suc zero) fd lt e = λ k. cc
rounds-AreNew zero (suc (suc j)) fd lt e = λ k. cc
rounds-AreNew (suc zero) zero fd lt e = absurd (omega arith)
rounds-AreNew (suc zero) (suc zero) fd lt e = absurd (omega arith)
rounds-AreNew (suc zero) (suc (suc j)) fd lt e = λ k. cc
rounds-AreNew (suc (suc i)) j fd lt e = cc

ramp_lem_example :
    IsHeld server_address (codes "127.0.0.2" ∷ []) rounds 0 two_held.fds
    × IsStopped server_address
        (codes "127.0.0.2" ∷ [])
        rounds
        (length two_held.fds)
        10
        two_held.failed_at
    × (open_after [] two_held.process.done ≡ newest_first two_held.fds [])
ramp_lem_example =
    ramp_lem server_address (codes "127.0.0.2" ∷ []) rounds 10 fresh rounds-AreNew refl
