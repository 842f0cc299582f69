-- ===== src/Package/Receive.antt =====
-- `new_message` of service_package.c: bytes from the socket, cut into packages of a 2-byte length
-- and a body. One round of the loop completes the body in hand, if there is one, and reads a
-- header.
pub mod Fits
pub mod Body
pub mod Start
pub mod Stream
use skynet_server.Common.{
  ℕ, zero, suc, ◌+◌, ◌-◌, ◌*◌, List, [], ◌∷◌, length, take, drop, replicate, leb, ◌==◌,
  if◌then◌else◌,
}
use skynet_server.Common.Bytes.{Bytes, memcpy}
use skynet_server.Common.Int.{ℤ, pos, negsuc}
use skynet_server.Package.Queue.{queue_push}
use skynet_server.Package.Types.{Package, Response, Junk, Run, ok, fault, out_of_fuel}

module _ (J : Junk) where
  -- The rest of the body is at hand: `k` bytes of the message, which go behind what was copied.
  unfoldable pub complete_body : Package → ℕ → Bytes → Package
  complete_body P k msg =
      let whole : Response = record P.uncomplete {
        msg = memcpy P.uncomplete.msg (P.uncomplete.sz - k) (take k msg);
      } in
      record P {
        uncomplete = whole;
        response = queue_push J.response P.response whole;
        uncomplete_sz = negsuc 0;
      }

  -- The whole message is part of the body.
  unfoldable pub extend_body : Package → ℕ → Bytes → Package
  extend_body P k msg = record P {
    uncomplete = record P.uncomplete { msg = memcpy P.uncomplete.msg (P.uncomplete.sz - k) msg };
    uncomplete_sz = pos (k - length msg);
  }

  -- Both bytes of the header are known.
  unfoldable pub start_body : Package → ℕ → ℕ → Package
  start_body P a b =
      let sz = a * 256 + b in
      record P {
        header_sz = 0;
        header_0 = a;
        header_1 = b;
        uncomplete = record { sz = sz; msg = replicate sz J.byte };
        uncomplete_sz = pos sz;
      }

  -- From `if (sz <= 0)` on; `next` is the next round.
  unfoldable pub read_header : (Package → Bytes → Run) → Package → Bytes → Run
  unfolding start_body
  read_header next P [] = ok P []
  read_header next P (a ∷ []) =
      if P.header_sz == 0
      then ok (record P { header_0 = a; header_sz = 1 }) []
      else if P.header_sz == 1
      then next (start_body P P.header_0 a) []
      else fault
  read_header next P (a ∷ b ∷ msg) =
      if P.header_sz == 0
      then next (start_body P a b) msg
      else if P.header_sz == 1
      then next (start_body P P.header_0 a) (b ∷ msg)
      else fault

  -- One round of `for (;;)`, by the value of `uncomplete_sz`.
  unfoldable pub receive_round : (Package → Bytes → Run) → ℤ → Package → Bytes → Run
  unfolding complete_body extend_body read_header
  receive_round next (pos k) P msg =
      if leb k (length msg)
      then read_header next (complete_body P k msg) (drop k msg)
      else ok (extend_body P k msg) []
  receive_round next (negsuc n) P msg = read_header next P msg

  unfoldable pub receive_loop : ℕ → Package → Bytes → Run
  unfolding receive_round
  receive_loop zero P msg = out_of_fuel
  receive_loop (suc f) P msg = receive_round (receive_loop f) P.uncomplete_sz P msg

  -- Each round but the last takes a byte, so a round for each byte and one more are enough.
  unfoldable pub new_message : Package → Bytes → Run
  unfolding receive_loop
  new_message P msg = receive_loop (length msg + 1) (record P { recv = P.recv + 1 }) msg
