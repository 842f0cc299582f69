-- ===== src/Netpack/Stream/Huge.antt =====
-- A 64-bit length that does not fit `int`.
use skynet_server.Common.{
  ℕ, suc, ◌+◌, ◌-◌, ◌^◌, ◌≤◌, ◌<◌, ◌≡◌, ◌≢◌, Option, refl, length, ltb, ◌==◌, ap, ◌∙◌, false, none,
  some, ◌∷◌, ◌++◌, arith,
}
use skynet_server.Common.Bytes.{Bytes}
use skynet_server.Common.Int.{ℤ, negsuc}
use skynet_server.Netpack.Types.{Queue, Junk, fault}
use skynet_server.Netpack.Frame.{Reading, read_size, read_length, ntoh64, load, to_int, length_byte}
use skynet_server.Netpack.Frame.Header.{ntoh64-load}
use skynet_server.Netpack.Frame.Wire.{
  eight, IsKey, key, mask_bit, wire_header, read_mask-key, flag_bits, read_size-first,
}
use skynet_server.Netpack.Hash.{find_uncomplete}
use skynet_server.Netpack.Push.{is_minus_two, clamped, find_header}
use skynet_server.Netpack.Stream.Find.{skip_loop-stays}
use skynet_server.Netpack.Stream.Filter.{filter_data-by}
use skynet_server.Netpack.Filter.{filter_round, filter_data}

ntoh64-eight_huge : (len : ℕ) → len < 2 ^ 32 → ntoh64 (load (eight len)) ≡ len
ntoh64-eight_huge len h =
    ntoh64-load (length_byte len 7) (length_byte len 6) (length_byte len 5) (length_byte len 4)
      (length_byte len 3) (length_byte len 2) (length_byte len 1) (length_byte len 0) (omega arith)
      (omega arith) (omega arith) (omega arith) (omega arith) (omega arith) (omega arith)
      (omega arith)
    ∙ omega arith

-- The `int` that such a length becomes: -4 or less.
abbrev wrapped : ℕ → ℤ
wrapped len = negsuc (suc (suc (suc (2 ^ 32 - 4 - len))))

to_int-negative : (n : ℕ) → 2 ^ 31 ≤ n → n < 2 ^ 32 - 3 → to_int n ≡ wrapped n
to_int-negative n h h' = ground arith

module _ (opcode : ℕ) (mask : Option Bytes) (len : ℕ) (rest : Bytes) (k : IsKey mask)
    (h : 2 ^ 31 ≤ len) (h' : len < 2 ^ 32 - 3) where
  read_length-huge :
      read_length
        ((128 + opcode) ∷ (mask_bit mask + 127) ∷ (eight len ++ (key mask ++ rest)))
        (mask_bit mask == 128)
        127
      ≡ record { result = wrapped len; head_length = 10 + length (key mask); mask = mask }
  unfolding read_length
  read_length-huge =
      let room : ltb
            (length ((128 + opcode) ∷ (mask_bit mask + 127) ∷ (eight len ++ (key mask ++ rest)))) 10
          ≡ false =
        ground arith in
      rw (room, ntoh64-eight_huge len (omega (arith, h')), to_int-negative len h h')
        (read_mask-key ((128 + opcode) ∷ (mask_bit mask + 127) ∷ eight len) mask rest (wrapped len)
          10 k refl)

  read_size-huge :
      0 < opcode
      → opcode < 16
      → opcode ≢ 8
      → read_size (wire_header opcode mask len ++ rest)
        ≡ record { result = wrapped len; head_length = 10 + length (key mask); mask = mask }
  read_size-huge o o' ne =
      let long : ltb len 126 ≡ false = ground (arith, h) in
      let longer : ltb len 65536 ≡ false = ground (arith, h) in
      rw
        (
          long,
          longer,
          read_size-first opcode (mask_bit mask + 127) (eight len ++ (key mask ++ rest)) o o' ne,
          (flag_bits mask 127 (omega arith)).0,
          (flag_bits mask 127 (omega arith)).1,
        )
        read_length-huge

module _ (J : Junk) where
  -- The header of a final frame of data, masked or not, whose length is at least 2^31 and less than
  -- 2^32 - 3, with anything behind it: `read_size` gives the length less 2^32 as the size, and with
  -- nothing of the connection in the table `filter_data` goes on to allocate and copy that negative size.
  pub filter_data-huge :
      (q : Queue) (fd opcode len : ℕ) (mask : Option Bytes) (rest : Bytes)
      → find_uncomplete (some q) fd ≡ none
      → 0 < opcode
      → opcode < 16
      → opcode ≢ 8
      → IsKey mask
      → 2 ^ 31 ≤ len
      → len < 2 ^ 32 - 3
      → ((read_size (wire_header opcode mask len ++ rest)).result ≡ negsuc (2 ^ 32 - 1 - len))
        × (filter_data J (some q) fd (wire_header opcode mask len ++ rest) false ≡ fault)
  unfolding find_header filter_round
  filter_data-huge q fd opcode len mask rest free o o' ne k h h' = (
    ap (λ (r : Reading). r.result) read ∙ ap negsuc (omega (arith, h')),
    filter_data-by J fd q chunk none free
        ∙ ap (λ (h : Reading × Bytes). filter_round J false (some q) fd h.0.result h.0 h.1)
            (ap clamped (
              skip_loop-stays is_minus_two chunk
                (ap (λ r. is_minus_two r.result) read ∙ not_minus_two)
              ∙ ap (λ r. (r, chunk)) read)),
  )
    where
      chunk : Bytes
      chunk = wire_header opcode mask len ++ rest

      not_minus_two : is_minus_two (wrapped len) ≡ false
      not_minus_two = ground arith

      read :
          read_size chunk
          ≡ record { result = wrapped len; head_length = 10 + length (key mask); mask = mask }
      read = read_size-huge opcode mask len rest k h h' o o' ne
