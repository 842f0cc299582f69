-- ===== src/Client/Socket.antt =====
-- The operating system as the client sees it: scripts of what its calls return.
use skynet_server.Common.{ℕ, List, [], ◌∷◌}
use skynet_server.Common.Bytes.{Bytes}

-- What `send` returns: a number of bytes taken, EAGAIN or EINTR, or another error.
pub data Sending : Type 0 where
  accepts : ℕ → Sending
  send_again : Sending
  send_fails : Sending

-- What `recv` returns: bytes, of which a call gets no more than it asks for and the next ones the
-- rest; 0; EAGAIN or EINTR; or another error.
pub data Receiving : Type 0 where
  arrives : Bytes → Receiving
  recv_closed : Receiving
  recv_again : Receiving
  recv_fails : Receiving

-- What `select` returns, and `recv` after it.
pub data Step : Type 0 where
  select_fails : Step
  select_times_out : Step
  readable : Receiving → Step

-- What is left of bytes that came with one event, in front of the others.
abbrev pub left_over : Bytes → List Step → List Step
left_over [] script = script
left_over (b ∷ bs) script = readable (arrives (b ∷ bs)) ∷ script

-- CACHE_SIZE
abbrev pub cache_size : ℕ
cache_size = 4096
