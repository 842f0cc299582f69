-- ===== src/Package/Receive/Stream.antt =====
-- `new_message` against the byte decoder: the packages that it queues and the state that it leaves
-- are those of the reference, however the stream is cut into messages.
use skynet_server.Common.{
  ℕ, zero, suc, ◌+◌, ◌*◌, ◌≤◌, ◌<◌, ◌≡◌, refl, inl, inr, [], ◌∷◌, arith, length, drop, leb, ◌==◌,
  Bool-cases, length-drop,
}
use skynet_server.Common.Bytes.{Bytes}
use skynet_server.Common.Int.{ℤ, pos, negsuc}
use skynet_server.Package.Types.{Package, Junk, Run, ok}
use skynet_server.Package.Decoder.{body, decode}
use skynet_server.Package.Decoder.Laws.{decode-idle_header, decode-half_header}
use skynet_server.Package.Receive.{
  complete_body, extend_body, start_body, read_header, receive_round, receive_loop, new_message,
}
use skynet_server.Package.Receive.Fits.{decoder, Fits, Received, Ends}
use skynet_server.Package.Receive.Body.{
  extend_body-Received, complete_body-Fits, complete_body-Received,
}
use skynet_server.Package.Receive.Start.{
  start_body-Fits, start_body-Received, at_idle, at_half, half_known, half_header, keep-Received,
  hold_byte-Received,
}

module _ (J : Junk) where
  -- What the next round must do for any message at most as long as a bound.
  abbrev Rounds : (Package → Bytes → Run) → ℕ → Type 0
  Rounds next bound =
      (P : Package) (msg : Bytes) → Fits P → length msg < bound → Ends J P msg (next P msg)

  started :
      (next : Package → Bytes → Run) (bound : ℕ) (P : Package) (n a b : ℕ) (msg rest : Bytes)
      → Rounds next bound
      → Fits P
      → P.uncomplete_sz ≡ negsuc n
      → length rest < bound
      → decode (decoder P) msg ≡ decode (body (a * 256 + b) []) rest
      → Ends J P msg (next (start_body J P a b) rest)
  started next bound P n a b msg rest rounds fits e short same =
      let (P', ends, later) =
        rounds (start_body J P a b) rest (start_body-Fits J P n fits e a b) short in
      (P', ends, start_body-Received J P n fits e P' a b msg rest same later)

  read_header-Ends :
      (next : Package → Bytes → Run) (bound : ℕ) (P : Package) (n : ℕ) (msg : Bytes)
      → Rounds next bound
      → Fits P
      → P.uncomplete_sz ≡ negsuc n
      → length msg < suc bound
      → Ends J P msg (read_header J next P msg)
  unfolding read_header
  read_header-Ends next bound P n [] rounds fits e short = (P, refl, keep-Received J P n fits e)
  read_header-Ends next bound P n (a ∷ []) rounds fits e short =
      elim (Bool-cases (P.header_sz == 0)) [
        | inl h ↦ rw h (
          record P { header_0 = a; header_sz = 1 },
          refl,
          hold_byte-Received J P n fits e a (ground arith),
        )
        | inr h ↦
            rw (h, half_header J P n fits e h)
              (started next bound P n P.header_0 a (a ∷ []) [] rounds fits e (omega arith) (
                rw (at_half J P n fits e (half_known J P n fits e h))
                  (decode-half_header P.header_0 a [])))
      ]
  read_header-Ends next bound P n (a ∷ b ∷ msg) rounds fits e short =
      elim (Bool-cases (P.header_sz == 0)) [
        | inl h ↦ rw h (
            started next bound P n a b (a ∷ b ∷ msg) msg rounds fits e (omega arith)
              (rw (at_idle J P n fits e (ground arith)) (decode-idle_header a b msg)))
        | inr h ↦
            rw (h, half_header J P n fits e h)
              (started next bound P n P.header_0 a (a ∷ b ∷ msg) (b ∷ msg) rounds fits e
                (omega arith)
                (rw (at_half J P n fits e (half_known J P n fits e h))
                  (decode-half_header P.header_0 a (b ∷ msg))))
      ]

  receive_round-Ends :
      (next : Package → Bytes → Run) (bound : ℕ) (u : ℤ) (P : Package) (msg : Bytes)
      → Rounds next bound
      → Fits P
      → P.uncomplete_sz ≡ u
      → length msg < suc bound
      → Ends J P msg (receive_round J next u P msg)
  unfolding receive_round complete_body
  receive_round-Ends next bound (pos k) P msg rounds fits e short =
      elim (Bool-cases (leb k (length msg))) [
        | inl whole ↦
            let enough : k ≤ length msg = ground arith in
            let (P', ends, later) =
              read_header-Ends next bound (complete_body J P k msg) 0 (drop k msg) rounds
                (complete_body-Fits J P k msg fits e enough) refl
                (omega (arith, length-drop k msg)) in
            rw whole (P', ends, complete_body-Received J P k msg fits e P' enough later)
        | inr part ↦
            rw part
              (extend_body J P k msg, refl, extend_body-Received J P k msg fits e (ground arith))
      ]
  receive_round-Ends next bound (negsuc n) P msg rounds fits e short =
      read_header-Ends next bound P n msg rounds fits e short

  receive_loop-Ends : (f : ℕ) → Rounds (receive_loop J f) f
  unfolding receive_loop
  receive_loop-Ends zero P msg fits short = absurd (omega arith)
  receive_loop-Ends (suc f) P msg fits short =
      receive_round-Ends (receive_loop J f) f P.uncomplete_sz P msg (receive_loop-Ends f) fits refl
        short

  -- `new_message` always returns, makes no call, and queues exactly the packages that the bytes
  -- complete; it counts itself in `recv` and leaves what is not about the stream alone.
  pub new_message_lem :
      (P : Package) (msg : Bytes)
      → Fits P
      → (P' : Package) × (new_message J P msg ≡ ok P' [])
        × Received J (record P { recv = P.recv + 1 }) msg P'
  unfolding new_message
  new_message_lem P msg fits =
      receive_loop-Ends (length msg + 1) (record P { recv = P.recv + 1 }) msg
        (record { valid = fits.valid; body_fits = fits.body_fits }) (omega arith)
