-- ===== src/Client/Receive/Fuel.antt =====
-- `lrecv` ends: each round of its loop but the last takes two bytes of the script, so its fuel is enough,
-- and no call waits on a script that stops.
use skynet_server.Common.{
  ℕ, zero, suc, ◌+◌, ◌-◌, ◌%◌, ◌≤◌, ◌<◌, ◌≡◌, ◌≢◌, refl, ap, inl, inr, Bool, true, false, not, ◌||◌,
  Option, none, some, List, [], ◌∷◌, arith, length, take, drop, get_or, replicate, ltb, leb, ◌==◌,
  if◌then◌else◌, tests, Bool-cases, length-drop, length-take,
}
use skynet_server.Common.Bytes.{Bytes, memcpy}
use skynet_server.Common.Int.{ℤ, pos, negsuc}
use skynet_server.Netpack.Frame.{bit, unmask}
use skynet_server.Client.Socket.{
  arrives, recv_closed, recv_again, recv_fails, Step, select_fails, select_times_out, readable,
  left_over, cache_size,
}
use skynet_server.Client.Receive.{
  block_read_negative, waits, Reading, complete, peer_closed, timed_out, broken, past_buffer,
  waiting, Received, message, out_of_bounds, out_of_fuel, and_then, block_read, script_bytes,
  read_data, read_masks, read_data_len, recv_loop, lrecv,
}

-- Behind bytes and interruptions `select` reports an error or a time-out, or `recv` an error or the end
-- of the stream.
abbrev pub Stops : List Step → Type 0
Stops [] = ⊥
Stops (select_fails ∷ script) = Unit
Stops (select_times_out ∷ script) = Unit
Stops (readable recv_closed ∷ script) = Unit
Stops (readable recv_again ∷ script) = Stops script
Stops (readable recv_fails ∷ script) = Unit
Stops (readable (arrives []) ∷ script) = Unit
Stops (readable (arrives (b ∷ bs)) ∷ script) = Stops script

left-Stops : (bs : Bytes) (script : List Step) → Stops script → Stops (left_over bs script)
left-Stops [] script h = h
left-Stops (b ∷ bs) script h = h

-- A call that reads from a script that stops does not wait, and leaves a script that stops.
abbrev Passes : Type 0 → Reading → Type 0
Passes S (complete got left) = S → Stops left
Passes S waiting = ¬ S
Passes S _ = Unit

if-Passes :
    (S : Type 0) (b : Bool) (x y : Reading)
    → Passes S x
    → Passes S y
    → Passes S (if b then x else y)
if-Passes S true x y p q = p
if-Passes S false x y p q = q

block_read-Passes :
    (script : List Step) (sz : ℕ) (buffer : Bytes)
    → Passes (Stops script) (block_read script sz buffer)
unfolding block_read
block_read-Passes script zero buffer = λ h. h
block_read-Passes [] (suc sz) buffer = λ h. h
block_read-Passes (select_fails ∷ script) (suc sz) buffer = tt
block_read-Passes (select_times_out ∷ script) (suc sz) buffer = tt
block_read-Passes (readable recv_closed ∷ script) (suc sz) buffer = tt
block_read-Passes (readable recv_again ∷ script) (suc sz) buffer =
    block_read-Passes script (suc sz) buffer
block_read-Passes (readable recv_fails ∷ script) (suc sz) buffer = tt
block_read-Passes (readable (arrives []) ∷ script) (suc sz) buffer = tt
block_read-Passes (readable (arrives (b ∷ bs)) ∷ script) (suc sz) buffer =
    if-Passes (Stops script) (ltb (length buffer) (length (take (suc sz) (b ∷ bs)))) _ _ tt (
      if-Passes (Stops script) (leb (suc sz) (length (b ∷ bs))) _ _
        (λ h. left-Stops (drop (suc sz) (b ∷ bs)) script h) (block_read-Passes script _ _))

block_read_negative-Passes :
    (script : List Step) (buffer : Bytes)
    → Passes (Stops script) (block_read_negative script buffer)
unfolding block_read_negative
block_read_negative-Passes [] buffer = λ h. h
block_read_negative-Passes (select_fails ∷ script) buffer = tt
block_read_negative-Passes (select_times_out ∷ script) buffer = tt
block_read_negative-Passes (readable recv_closed ∷ script) buffer = tt
block_read_negative-Passes (readable recv_again ∷ script) buffer =
    block_read_negative-Passes script buffer
block_read_negative-Passes (readable recv_fails ∷ script) buffer = tt
block_read_negative-Passes (readable (arrives []) ∷ script) buffer = tt
block_read_negative-Passes (readable (arrives (b ∷ bs)) ∷ script) buffer =
    if-Passes (Stops script) (ltb (length buffer) (length (b ∷ bs))) _ _ tt
      (block_read_negative-Passes script (memcpy buffer 0 (b ∷ bs)))

-- The fuel is enough, and where `S` holds the call does not wait.
data Ends (S : Type 0) (r : Received) : Type 0 where
  ends : r ≢ out_of_fuel → (S → r ≢ waits) → Ends S r

message-Ends : {S : Type 0} (msg : Bytes) (left : List Step) → Ends S (message msg left)
message-Ends msg left = ends (λ e. absurd (cc)) (λ h e. absurd (cc))

out_of_bounds-Ends : {S : Type 0} → Ends S out_of_bounds
out_of_bounds-Ends = ends (λ e. absurd (cc)) (λ h e. absurd (cc))

weaker-Ends : {S T : Type 0} (r : Received) → (S → T) → Ends T r → Ends S r
weaker-Ends r f (ends fuel quick) = ends fuel (λ h. quick (f h))

bytes_left :
    (bs : Bytes) (script : List Step)
    → script_bytes (left_over bs script) ≡ length bs + script_bytes script
bytes_left [] script = omega arith
bytes_left (b ∷ bs) script = refl

-- What is read is taken from the script.
block_read-bytes :
    (script : List Step) (sz : ℕ) (buffer got : Bytes) (left : List Step)
    → block_read script sz buffer ≡ complete got left
    → script_bytes left + sz ≤ script_bytes script
unfolding block_read
block_read-bytes script zero buffer got left e =
    let same : script ≡ left = cc in omega (arith, ap script_bytes same)
block_read-bytes [] (suc sz) buffer got left e = absurd (cc)
block_read-bytes (select_fails ∷ script) (suc sz) buffer got left e = absurd (cc)
block_read-bytes (select_times_out ∷ script) (suc sz) buffer got left e = absurd (cc)
block_read-bytes (readable recv_closed ∷ script) (suc sz) buffer got left e = absurd (cc)
block_read-bytes (readable recv_again ∷ script) (suc sz) buffer got left e =
    block_read-bytes script (suc sz) buffer got left e
block_read-bytes (readable recv_fails ∷ script) (suc sz) buffer got left e = absurd (cc)
block_read-bytes (readable (arrives []) ∷ script) (suc sz) buffer got left e = absurd (cc)
block_read-bytes (readable (arrives (b ∷ bs)) ∷ script) (suc sz) buffer got left e =
    elim (Bool-cases (ltb (length buffer) (length (take (suc sz) (b ∷ bs))))) [
      | inl over ↦ absurd (ground (arith, over, e))
      | inr room ↦ elim (Bool-cases (leb (suc sz) (length (b ∷ bs)))) [
        | inl all ↦
            let same : left_over (drop (suc sz) (b ∷ bs)) script ≡ left =
              ground (arith, room, all, e) in
            omega (
              tests,
              all,
              ap script_bytes same,
              bytes_left (drop (suc sz) (b ∷ bs)) script,
              length-drop (suc sz) (b ∷ bs),
            )
        | inr some_only ↦
            let later : block_read script (suc sz - length (take (suc sz) (b ∷ bs)))
                  (memcpy buffer 0 (take (suc sz) (b ∷ bs)))
                ≡ complete got left =
              ground (arith, room, some_only, e) in
            let ih =
              block_read-bytes script (suc sz - length (take (suc sz) (b ∷ bs)))
                (memcpy buffer 0 (take (suc sz) (b ∷ bs))) got left later in
            omega (arith, ih, length-take (suc sz) (b ∷ bs))
      ]
    ]

and_then-Ends :
    {S : Type 0} (reading : Reading) (next : Bytes → List Step → Received)
    → Passes S reading
    → ((got : Bytes) (left : List Step)
        → reading ≡ complete got left
        → Ends (Stops left) (next got left))
    → Ends S (and_then reading next)
and_then-Ends (complete got left) next p h = weaker-Ends (next got left) p (h got left refl)
and_then-Ends peer_closed next p h = ends (λ e. absurd (cc)) (λ q e. absurd (cc))
and_then-Ends timed_out next p h = ends (λ e. absurd (cc)) (λ q e. absurd (cc))
and_then-Ends broken next p h = ends (λ e. absurd (cc)) (λ q e. absurd (cc))
and_then-Ends past_buffer next p h = ends (λ e. absurd (cc)) (λ q e. absurd (cc))
and_then-Ends waiting next p h = ends (λ e. absurd (cc)) (λ q. absurd (p q))

if-Ends :
    {S : Type 0} (b : Bool) (x y : Received) → Ends S x → Ends S y → Ends S (if b then x else y)
if-Ends true x y p q = p
if-Ends false x y p q = q

read_data-Ends :
    (masks : Option Bytes) (n : ℤ) (buffer : Bytes) (script : List Step)
    → Ends (Stops script) (read_data masks n buffer script)
unfolding read_data
read_data-Ends masks (negsuc n) buffer script =
    and_then-Ends (block_read_negative script buffer) _ (block_read_negative-Passes script buffer)
      (λ got left e. out_of_bounds-Ends)
read_data-Ends none (pos n) buffer script =
    and_then-Ends (block_read script n buffer) _ (block_read-Passes script n buffer) (λ got left e.
      if-Ends (ltb cache_size n) out_of_bounds (message (take n got) left) out_of_bounds-Ends
        (message-Ends _ _))
read_data-Ends (some key) (pos n) buffer script =
    and_then-Ends (block_read script n buffer) _ (block_read-Passes script n buffer) (λ got left e.
      if-Ends (ltb cache_size n) out_of_bounds (message (unmask key 0 (take n got)) left)
        out_of_bounds-Ends (message-Ends _ _))

module _ (junk : ℕ) where
  read_masks-Ends :
      (is_mask : Bool) (n : ℤ) (buffer : Bytes) (script : List Step)
      → Ends (Stops script) (read_masks junk is_mask n buffer script)
  unfolding read_masks
  read_masks-Ends false n buffer script = read_data-Ends none n buffer script
  read_masks-Ends true n buffer script =
      and_then-Ends (block_read script 4 (replicate 4 junk)) _
        (block_read-Passes script 4 (replicate 4 junk))
        (λ masks left e. read_data-Ends (some masks) n buffer left)

  read_data_len-Ends :
      (is_mask : Bool) (bits : ℕ) (buffer : Bytes) (script : List Step)
      → Ends (Stops script) (read_data_len junk is_mask bits buffer script)
  unfolding read_data_len
  read_data_len-Ends is_mask bits buffer script =
      if-Ends _ _ _ (read_masks-Ends is_mask (pos bits) buffer script) (
        if-Ends _ _ _
          (and_then-Ends (block_read script 2 buffer) _ (block_read-Passes script 2 buffer)
            (λ got left e. read_masks-Ends is_mask _ got left))
          (and_then-Ends (block_read script 8 buffer) _ (block_read-Passes script 8 buffer)
            (λ got left e. read_masks-Ends is_mask _ got left)))

  recv_loop-Ends :
      (f : ℕ) (buffer : Bytes) (script : List Step)
      → script_bytes script < f
      → Ends (Stops script) (recv_loop junk f buffer script)
  unfolding recv_loop
  recv_loop-Ends zero buffer script h = absurd (omega arith)
  recv_loop-Ends (suc f) buffer script h =
      and_then-Ends (block_read script 2 buffer) _ (block_read-Passes script 2 buffer)
        (λ got left e.
          if-Ends
            (not (bit (get_or got 0 junk) 6 == 0)
              || (not (bit (get_or got 0 junk) 5 == 0) || not (bit (get_or got 0 junk) 4 == 0)))
            _ _
            (recv_loop-Ends f got left (omega (arith, block_read-bytes script 2 buffer got left e)))
            (read_data_len-Ends (bit (get_or got 1 junk) 7 == 1) (get_or got 1 junk % 128) got
              left))

  -- If somewhere behind the bytes and interruptions (EAGAIN or EINTR) that come `select` reports an error
  -- or a time-out, or `recv` an error or the end of the stream, then `lrecv` returns or goes past a
  -- buffer: it neither goes on waiting nor runs out of the fuel that it gets.
  pub lrecv-ends :
      (script : List Step)
      → Stops script
      → (lrecv junk script ≢ waits) × (lrecv junk script ≢ out_of_fuel)
  unfolding lrecv
  lrecv-ends script stops =
      elim (recv_loop-Ends (script_bytes script + 1) (replicate cache_size junk) script
        (omega arith)) [ ends fuel quick ↦ (quick stops, fuel) ]

  -- The fuel is enough for every script.
  lrecv-fuel : (script : List Step) → lrecv junk script ≢ out_of_fuel
  unfolding lrecv
  lrecv-fuel script =
      elim (recv_loop-Ends (script_bytes script + 1) (replicate cache_size junk) script
        (omega arith)) [ ends fuel quick ↦ fuel ]
