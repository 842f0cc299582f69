-- ===== src/Netpack/Samples.antt =====
-- A queue and frames of data for runs of the web socket splitter.
use skynet_server.Common.{refl, some, none, [], ◌∷◌, arith}
use skynet_server.Netpack.Types.{Netpack, Queue, Junk}
use skynet_server.Netpack.Queue.{no_chains}
use skynet_server.Netpack.Stream.{Sent, IsSent}
use skynet_server.Netpack.Stream.Filter.{IsSound}

abbrev pub cell : Netpack
cell = record { id = 0; size = 0; buffer = [] }

abbrev pub memory : Junk
memory = record { cell = cell; byte = 170 }

-- A queue with nothing in it.
abbrev pub quiet : Queue
quiet = record { cap = 2; head = 0; tail = 0; hash = no_chains; queue = cell ∷ cell ∷ [] }

pub quiet-IsSound : IsSound memory quiet
quiet-IsSound = record {
  valid = record { sized = refl; head_in = omega arith; tail_in = omega arith };
  filed = λ h. tt;
}

-- "Hi" with the mask 1 2 3 4, and "A" without.
abbrev pub masked : Sent
masked = record { opcode = 1; mask = some (1 ∷ 2 ∷ 3 ∷ 4 ∷ []); body = 73 ∷ 107 ∷ [] }

abbrev pub plain : Sent
plain = record { opcode = 2; mask = none; body = 65 ∷ [] }

pub masked-IsSent : IsSent masked
masked-IsSent = record {
  not_zero = omega arith;
  four_bits = omega arith;
  not_close = λ e. absurd (omega (arith, e));
  keyed = refl;
  fits = omega arith;
}

pub plain-IsSent : IsSent plain
plain-IsSent = record {
  not_zero = omega arith;
  four_bits = omega arith;
  not_close = λ e. absurd (omega (arith, e));
  keyed = refl;
  fits = omega arith;
}
