-- ===== src/Client/Wire.antt =====
-- `websocket_block_send` against the frame that it means to send.
use skynet_server.Common.{
  ℕ, ◌+◌, ◌/◌, ◌%◌, ◌≤◌, ◌≡◌, refl, sym, ap, ◌∙◌, inl, inr, false, none, List, [], ◌∷◌, ◌++◌,
  append_assoc, append-nil, arith, length, take, drop, ltb, tests, Bool-cases, length-append,
  take-append-drop,
}
use skynet_server.Common.Bytes.{Bytes}
use skynet_server.Netpack.Frame.Wire.{wire}
use skynet_server.Client.Socket.{Sending, accepts, send_again, send_fails, cache_size}
use skynet_server.Client.Send.{
  Outcome, all_sent, sent, block_send, common_block_send, client_header, websocket_block_send,
}

-- What the system took, and what it did not, make the buffer.
pub common_block_send_lem :
    (script : List Sending) (buffer : Bytes)
    → (rest : Bytes) × ((common_block_send script buffer).1 ++ rest ≡ buffer)
      × ((common_block_send script buffer).0 ≡ all_sent → rest ≡ [])
unfolding common_block_send
common_block_send_lem script [] = ([], refl, λ e. refl)
common_block_send_lem [] (b ∷ buffer) = (b ∷ buffer, refl, λ e. absurd cc)
common_block_send_lem (accepts r ∷ script) (b ∷ buffer) =
    let later = common_block_send_lem script (drop r (b ∷ buffer)) in
    (
      later.0,
      append_assoc (take r (b ∷ buffer)) (common_block_send script (drop r (b ∷ buffer))).1 later.0
          ∙ ap (λ t. take r (b ∷ buffer) ++ t) later.1
          ∙ take-append-drop r (b ∷ buffer),
      later.2,
    )
common_block_send_lem (send_again ∷ script) (b ∷ buffer) = common_block_send_lem script (b ∷ buffer)
common_block_send_lem (send_fails ∷ script) (b ∷ buffer) = (b ∷ buffer, refl, λ e. absurd cc)

-- The two loops that send agree.
block_send-common_block_send :
    (script : List Sending) (buffer : Bytes)
    → block_send script buffer ≡ common_block_send script buffer
unfolding block_send common_block_send
block_send-common_block_send script [] = refl
block_send-common_block_send [] (b ∷ buffer) = refl
block_send-common_block_send (accepts r ∷ script) (b ∷ buffer) =
    ap (λ (t : Outcome × Bytes). (t.0, take r (b ∷ buffer) ++ t.1))
      (block_send-common_block_send script (drop r (b ∷ buffer)))
block_send-common_block_send (send_again ∷ script) (b ∷ buffer) =
    block_send-common_block_send script (b ∷ buffer)
block_send-common_block_send (send_fails ∷ script) (b ∷ buffer) = refl

client_header_lem : (msg : Bytes) → client_header (length msg) ++ msg ≡ wire 4 none msg
unfolding client_header
client_header_lem msg = elim (Bool-cases (ltb (length msg) 126)) [
  | inl short ↦
      let byte : length msg / 1 % 256 ≡ 0 + length msg = omega (tests, short) in
      rw (short, byte) refl
  | inr not_short ↦ elim (Bool-cases (ltb (length msg) 65536)) [
    | inl medium ↦ rw (not_short, medium) refl
    | inr not_medium ↦ rw (not_short, not_medium) refl
  ]
]

header_le : (sz : ℕ) → sz ≤ 4092 → length (client_header sz) ≤ 4
unfolding client_header
header_le sz h = ground arith

-- For a message of at most 4092 bytes, what the system takes
-- of it is the start of a frame with opcode 4 and no mask, whatever `send` returns, and the whole
-- frame if sending ends without an error.
pub websocket_block_send-wire :
    (script : List Sending) (msg : Bytes)
    → length msg ≤ 4092
    → (o : Outcome) × (taken : Bytes) × (rest : Bytes) × (websocket_block_send script msg
        ≡ sent o taken)
      × (taken ++ rest ≡ wire 4 none msg)
      × (o ≡ all_sent → taken ≡ wire 4 none msg)
unfolding websocket_block_send
websocket_block_send-wire script msg h =
    let frame = client_header (length msg) ++ msg in
    let r = common_block_send_lem script frame in
    let r1 = common_block_send script frame in
    (
      r1.0,
      r1.1,
      r.0,
      rw fits refl,
      r.1 ∙ client_header_lem msg,
      λ e. sym (append-nil r1.1) ∙ ap (λ t. r1.1 ++ t) (sym (r.2 e)) ∙ r.1 ∙ client_header_lem msg,
    )
  where
    fits : ltb cache_size (length (client_header (length msg) ++ msg)) ≡ false
    fits =
        ground (arith, h, header_le (length msg) h, length-append (client_header (length msg)) msg)
