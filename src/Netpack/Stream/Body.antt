-- ===== src/Netpack/Stream/Body.antt =====
-- `filter_data` where a part of a body is in the table.
use skynet_server.Common.{
  ℕ, suc, ◌+◌, ◌<◌, ◌≡◌, ◌⊎◌, inl, inr, refl, sym, ap, ◌∙◌, false, some, List, [], ◌∷◌, ◌++◌,
  append_assoc, append-nil, length, arith, length-append,
}
use mathlib.Core.Path.{ap₂, subst}
use skynet_server.Common.Bytes.{Bytes, memcpy}
use skynet_server.Netpack.Types.{Uncomplete, Queue, Junk, nothing, data_frame, done}
use skynet_server.Netpack.Frame.{decode_wsmask_data}
use skynet_server.Netpack.Frame.Unmask.{payload, counted}
use skynet_server.Netpack.Queue.{push_data}
use skynet_server.Netpack.Hash.{put_uncomplete}
use skynet_server.Netpack.Push.{if_any, push_more}
use skynet_server.Netpack.Filter.{then_more, fill_body}
use skynet_server.Netpack.Stream.{
  Sent, IsSent, AllSent, header, stream, Partly, in_header, in_body, body_node, Holds,
}
use skynet_server.Netpack.Stream.Save.{Free, put_uncomplete-Consumed}
use skynet_server.Netpack.Stream.Pushed.{stream-split}
use skynet_server.Netpack.Stream.Fill.{fill_body-part, fill_body-whole, memcpy-Holds}
use skynet_server.Netpack.Stream.Same.{append-cases, SameFrame, header-SameFrame}
use skynet_server.Netpack.Stream.Answer.{Filters, Consumed-Filtered, finish_frame}

pub body_node-same :
    (fd : ℕ) (s t : Sent) (y z head buffer : Bytes) (n : ℕ)
    → SameFrame s t y z
    → body_node fd s.mask (length s.body) head buffer n
      ≡ body_node fd t.mask (length t.body) head buffer n
body_node-same fd s t y z head buffer n same =
    ap₂ (λ m l. body_node fd m l head buffer n) same.masks same.lengths

pub Holds-same :
    (s t : Sent) (y z part buffer : Bytes)
    → SameFrame s t y z
    → Holds s.mask (length s.body) part buffer
    → Holds t.mask (length t.body) part buffer
Holds-same s t y z part buffer same h = record {
  room = h.room ∙ same.lengths;
  copied = h.copied ∙ ap (λ m. payload m part) same.masks;
}

module _ (J : Junk) where
  -- A body with its first `part` in the node, which has the mask and length of the frame.
  pub continue_body :
      (fd : ℕ) (q : Queue) (s : Sent) (head buffer part more_bytes : Bytes) (r : ℕ) (rest : Bytes)
      → Free J fd q
      → IsSent s
      → Holds s.mask (length s.body) part buffer
      → s.body ≡ (part ++ more_bytes) ++ (r ∷ rest)
      → Filters J fd q [] (header s ++ (part ++ more_bytes)) (
          fill_body J false q fd
            (length part)
            (body_node fd s.mask (length s.body) head buffer (length part))
            more_bytes)
  continue_body fd q s head buffer part more_bytes r rest free i holds e = (
    put_uncomplete fd node q,
    nothing,
    fill_body-part J fd q s.mask (length s.body) head buffer part holds more_bytes
        (omega (arith, lengths)),
    Consumed-Filtered J fd q [] (header s ++ (part ++ more_bytes)) (put_uncomplete fd node q)
        nothing refl
        (put_uncomplete-Consumed J fd q (header s ++ (part ++ more_bytes))
          (in_body s (part ++ more_bytes) r rest i refl e) node free
          (
            head,
            copied,
            refl,
            memcpy-Holds J fd q s.mask (length s.body) head buffer part holds more_bytes
                (omega (arith, lengths)),
          )
          refl),
  )
    where
      lengths : length s.body ≡ (length part + length more_bytes) + suc (length rest)
      lengths =
          ap length e
          ∙ length-append (part ++ more_bytes) (r ∷ rest)
          ∙ ap (λ n. n + suc (length rest)) (length-append part more_bytes)

      copied : Bytes
      copied =
          memcpy buffer (length part)
            (decode_wsmask_data more_bytes s.mask (counted s.mask (length part))).0

      node : Uncomplete
      node = body_node fd s.mask (length s.body) head copied (length (part ++ more_bytes))

  pub finish_body :
      (fd : ℕ) (q : Queue) (s : Sent) (ss : List Sent) (tail head buffer part new : Bytes)
      → AllSent ss
      → (tail ≡ []) ⊎ Partly tail
      → Free J fd q
      → Holds s.mask (length s.body) part buffer
      → s.body ≡ part ++ new
      → Filters J fd q (s ∷ ss) tail (
          fill_body J false q fd
            (length part)
            (body_node fd s.mask (length s.body) head buffer (length part))
            (new ++ (stream ss ++ tail)))
  finish_body fd q s ss tail head buffer part new all t free holds e =
      finish_frame J fd q s ss tail
        (fill_body J false q fd (length part)
          (body_node fd s.mask (length s.body) head buffer (length part))
          (new ++ (stream ss ++ tail)))
        all t free
        (fill_body-whole J fd q s.mask (length s.body) head buffer part holds new
            (stream ss ++ tail) (omega (arith, ap length e, length-append part new))
          ∙ ap
              (λ b.
                if_any (stream ss ++ tail)
                  (λ left. then_more J (
                    push_more J false (some (push_data J.cell (some q) fd (payload s.mask b))) fd
                      left))
                  (done (some q, data_frame fd (payload s.mask b) (length s.body))))
              (sym e))

  -- The node whose body has begun, for the frame that its bytes belong to.
  pub resume_body :
      (fd : ℕ) (q : Queue) (s0 : Sent) (head buffer part : Bytes) (r : ℕ) (rest : Bytes)
      (chunk : Bytes) (ss : List Sent) (tail : Bytes)
      → Free J fd q
      → IsSent s0
      → Holds s0.mask (length s0.body) part buffer
      → s0.body ≡ part ++ (r ∷ rest)
      → AllSent ss
      → (tail ≡ []) ⊎ Partly tail
      → 0 < length chunk
      → header s0 ++ (part ++ chunk) ≡ stream ss ++ tail
      → Filters J fd q ss tail (
          fill_body J false q fd
            (length part)
            (body_node fd s0.mask (length s0.body) head buffer (length part))
            chunk)
  resume_body fd q s0 head buffer part r rest chunk [] tail free i0 holds e0 all (inl none_left)
        some_bytes e =
      absurd (omega (arith, ap length e, ap length none_left))
  resume_body fd q s0 head buffer part r rest chunk [] tail free i0 holds e0 all
        (inr (in_header s r1 rest1 i f)) some_bytes e =
      let same = header-SameFrame s0 s ((part ++ chunk) ++ (r1 ∷ rest1)) [] i0 i (
        sym (append_assoc (header s0) (part ++ chunk) (r1 ∷ rest1))
        ∙ ap (λ t. t ++ (r1 ∷ rest1)) e
        ∙ sym f
        ∙ sym (append-nil (header s))) in
      absurd (omega (arith, ap length same.behind, length-append (part ++ chunk) (r1 ∷ rest1)))
  resume_body fd q s0 head buffer part r rest chunk [] tail free i0 holds e0 all
        (inr (in_body s part1 r1 rest1 i t f)) some_bytes e =
      let same = header-SameFrame s0 s (part ++ chunk) part1 i0 i (e ∙ t) in
      let whole_part : s.body ≡ (part ++ chunk) ++ (r1 ∷ rest1) =
        f ∙ ap (λ p. p ++ (r1 ∷ rest1)) (sym same.behind) in
      subst (λ nd. Filters J fd q [] tail (fill_body J false q fd (length part) nd chunk))
        (sym (body_node-same fd s0 s (part ++ chunk) part1 head buffer (length part) same))
        (subst
          (λ tl. Filters J fd q [] tl (
            fill_body J false q fd (length part)
              (body_node fd s.mask (length s.body) head buffer (length part)) chunk))
          (ap (λ p. header s ++ p) same.behind ∙ sym t)
          (continue_body fd q s head buffer part chunk r1 rest1 free i
            (Holds-same s0 s (part ++ chunk) part1 part buffer same holds) whole_part))
  resume_body fd q s0 head buffer part r rest chunk (s ∷ ss) tail free i0 holds e0 all t some_bytes
        e =
      let same =
        header-SameFrame s0 s (part ++ chunk) (s.body ++ (stream ss ++ tail)) i0 all.0
          (e ∙ stream-split s ss tail) in
      subst (λ nd. Filters J fd q (s ∷ ss) tail (fill_body J false q fd (length part) nd chunk))
        (sym (
          body_node-same fd s0 s (part ++ chunk) (s.body ++ (stream ss ++ tail)) head buffer
            (length part) same))
        (elim (append-cases part chunk s.body (stream ss ++ tail) same.behind) [
          | inl (w, f, g) ↦
              subst
                (λ c. Filters J fd q (s ∷ ss) tail (
                  fill_body J false q fd (length part)
                    (body_node fd s.mask (length s.body) head buffer (length part)) c))
                (sym g)
                (finish_body fd q s ss tail head buffer part w all.1 t free
                  (Holds-same s0 s (part ++ chunk) (s.body ++ (stream ss ++ tail)) part buffer same
                    holds)
                  f)
          | inr (w, f, g) ↦ absurd (
              omega (
                arith,
                ap length f,
                length-append s.body w,
                ap length e0,
                length-append part (r ∷ rest),
                same.lengths,
              ))
        ])
