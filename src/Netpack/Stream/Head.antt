-- ===== src/Netpack/Stream/Head.antt =====
-- `filter_data` where a part of a header is in the table.
use skynet_server.Common.{
  ℕ, ◌<◌, ◌≡◌, ◌⊎◌, inl, inr, refl, sym, ap, ◌∙◌, false, Option, List, [], ◌∷◌, ◌++◌, append_assoc,
  length, replicate, arith, length-append, length-replicate,
}
use mathlib.Core.Path.{subst}
use skynet_server.Common.Bytes.{Bytes, memcpy, length-memcpy}
use skynet_server.Common.Int.{negsuc}
use skynet_server.Netpack.Types.{Queue, Junk, nothing, done}
use skynet_server.Netpack.Frame.{Reading}
use skynet_server.Netpack.Frame.Wire.{header_reading}
use skynet_server.Netpack.Frame.Unmask.{counted-zero}
use skynet_server.Netpack.Hash.{put_uncomplete}
use skynet_server.Netpack.Filter.{
  header_loop, fill_body, start_frame, header_ended, fill_uncomplete,
}
use skynet_server.Netpack.Stream.{
  Sent, IsSent, AllSent, header, stream, Partly, in_header, in_body, header_node, body_node, Holds,
}
use skynet_server.Netpack.Stream.Save.{Free, put_uncomplete-Consumed}
use skynet_server.Netpack.Stream.Pushed.{stream-split}
use skynet_server.Netpack.Stream.Resume.{header_loop-completes, header_loop-waits}
use skynet_server.Netpack.Stream.Same.{header-rest}
use skynet_server.Netpack.Stream.Answer.{Filters, Consumed-Filtered, payload-nothing}
use skynet_server.Netpack.Stream.Body.{continue_body, finish_body}

module _ (J : Junk) where
  pub header_ended-by :
      (fd : ℕ) (q : Queue) (before chunk head rest : Bytes) (g : Reading)
      → header_loop false before chunk ≡ done (g, head, rest)
      → fill_uncomplete J false q fd (negsuc 0) (header_node fd before) chunk
        ≡ header_ended J false q fd g.result g head (header_node fd before) rest
  unfolding fill_uncomplete
  header_ended-by fd q before chunk head rest g e = rw (e, fill_uncomplete) refl

  -- The buffer of a frame of which only the header is there.
  abbrev pub empty_buffer : ℕ → Bytes
  empty_buffer len = memcpy (replicate len J.byte) 0 []

  pub empty_buffer-Holds : (mask : Option Bytes) (len : ℕ) → Holds mask len [] (empty_buffer len)
  empty_buffer-Holds mask len = record {
    room = length-memcpy (replicate len J.byte) 0 [] (omega arith) ∙ length-replicate len J.byte;
    copied = sym (payload-nothing mask);
  }

  -- The header is completed, and the body starts.
  pub header_begins :
      (fd : ℕ) (q : Queue) (s : Sent) (before : Bytes) (b : ℕ) (bs z : Bytes)
      → IsSent s
      → header s ≡ before ++ (b ∷ bs)
      → fill_uncomplete J false q fd (negsuc 0) (header_node fd before) ((b ∷ bs) ++ z)
        ≡ fill_body J false q fd 0
            (body_node fd s.mask (length s.body) (header s) (empty_buffer (length s.body)) 0)
            z
  unfolding header_ended start_frame
  header_begins fd q s before b bs z i e =
      header_ended-by fd q before ((b ∷ bs) ++ z) (header s) z
        (header_reading s.mask (length s.body) (length (header s)))
        (header_loop-completes s before b bs z i e)
      ∙ ap
          (λ c.
            fill_body J false q fd 0
              (record (body_node fd s.mask (length s.body) (header s) (empty_buffer (length s.body))
                0) { hasunmask_size = c })
              z)
          (sym (counted-zero s.mask))

  pub header_keeps_waiting :
      (fd : ℕ) (q : Queue) (s : Sent) (before : Bytes) (chunk : Bytes) (r : ℕ) (rest : Bytes)
      → Free J fd q
      → IsSent s
      → 0 < length chunk
      → header s ≡ (before ++ chunk) ++ (r ∷ rest)
      → Filters J fd q []
          (before ++ chunk)
          (fill_uncomplete J false q fd (negsuc 0) (header_node fd before) chunk)
  unfolding header_ended
  header_keeps_waiting fd q s before [] r rest free i some_bytes e = absurd (omega arith)
  header_keeps_waiting fd q s before (b ∷ bs) r rest free i some_bytes e =
      let ended =
        header_loop-waits s before b bs r rest i (e ∙ append_assoc before (b ∷ bs) (r ∷ rest)) in
      let node = header_node fd (before ++ (b ∷ bs)) in
      (
        put_uncomplete fd node q,
        nothing,
        header_ended-by fd q before (b ∷ bs) (before ++ (b ∷ bs)) [] ended.0 ended.1
            ∙ ap
                (λ z.
                  header_ended J false q fd z ended.0 (before ++ (b ∷ bs)) (header_node fd before)
                    [])
                ended.2,
        Consumed-Filtered J fd q [] (before ++ (b ∷ bs)) (put_uncomplete fd node q) nothing refl (
            put_uncomplete-Consumed J fd q (before ++ (b ∷ bs)) (in_header s r rest i e) node free
              refl refl),
      )

  -- A node that waits for the rest of a header.
  pub resume_header :
      (fd : ℕ) (q : Queue) (s0 : Sent) (before : Bytes) (r : ℕ) (rest : Bytes) (chunk : Bytes)
      (ss : List Sent) (tail : Bytes)
      → Free J fd q
      → IsSent s0
      → header s0 ≡ before ++ (r ∷ rest)
      → AllSent ss
      → (tail ≡ []) ⊎ Partly tail
      → 0 < length chunk
      → before ++ chunk ≡ stream ss ++ tail
      → Filters J fd q ss tail
          (fill_uncomplete J false q fd (negsuc 0) (header_node fd before) chunk)
  resume_header fd q s0 before r rest chunk [] tail free i0 e0 all (inl none_left) some_bytes e =
      absurd (omega (arith, ap length e, ap length none_left, length-append before chunk))
  resume_header fd q s0 before r rest chunk [] tail free i0 e0 all (inr (in_header s r1 rest1 i f))
        some_bytes e =
      subst
        (λ tl.
          Filters J fd q [] tl
            (fill_uncomplete J false q fd (negsuc 0) (header_node fd before) chunk))
        e
        (header_keeps_waiting fd q s before chunk r1 rest1 free i some_bytes
          (f ∙ ap (λ tl. tl ++ (r1 ∷ rest1)) (sym e)))
  resume_header fd q s0 before r rest chunk [] tail free i0 e0 all
        (inr (in_body s part1 r1 rest1 i t f)) some_bytes e =
      let next = header-rest s0 before r rest s chunk part1 i0 e0 i (e ∙ t) in
      subst (λ run. Filters J fd q [] tail run)
        (sym (
          ap (fill_uncomplete J false q fd (negsuc 0) (header_node fd before)) next.3
          ∙ header_begins fd q s before next.0 next.1 part1 i next.2))
        (subst
          (λ tl. Filters J fd q [] tl (
            fill_body J false q fd 0
              (body_node fd s.mask (length s.body) (header s) (empty_buffer (length s.body)) 0)
              part1))
          (sym t)
          (continue_body J fd q s (header s) (empty_buffer (length s.body)) [] part1 r1 rest1 free i
            (empty_buffer-Holds s.mask (length s.body)) f))
  resume_header fd q s0 before r rest chunk (s ∷ ss) tail free i0 e0 all t some_bytes e =
      let next =
        header-rest s0 before r rest s chunk (s.body ++ (stream ss ++ tail)) i0 e0 all.0
          (e ∙ stream-split s ss tail) in
      subst (λ run. Filters J fd q (s ∷ ss) tail run)
        (sym (
          ap (fill_uncomplete J false q fd (negsuc 0) (header_node fd before)) next.3
          ∙ header_begins fd q s before next.0 next.1 (s.body ++ (stream ss ++ tail)) all.0 next.2))
        (finish_body J fd q s ss tail (header s) (empty_buffer (length s.body)) [] s.body all.1 t
          free (empty_buffer-Holds s.mask (length s.body)) refl)
