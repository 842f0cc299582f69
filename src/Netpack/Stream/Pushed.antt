-- ===== src/Netpack/Stream/Pushed.antt =====
-- One round of `push_more`, and the queue with one frame more.
use skynet_server.Common.{
  ℕ, ◌<◌, ◌≡◌, ◌⊎◌, inl, inr, refl, sym, ap, ◌∙◌, false, Option, some, List, [], ◌∷◌, ◌++◌, map,
  append_assoc, append-nil, length, arith, length-append, ltb, lt→ltb,
}
use mathlib.Core.Path.{subst}
use skynet_server.Common.Bytes.{Bytes, take-append, drop-append}
use skynet_server.Common.Int.{pos}
use skynet_server.Netpack.Types.{Uncomplete, Queue, Junk, Run, done}
use skynet_server.Netpack.Frame.Wire.{header_reading}
use skynet_server.Netpack.Frame.Unmask.{payload, length-decode_wsmask_data}
use skynet_server.Netpack.Queue.{push_data}
use skynet_server.Netpack.Queue.Refine.{IsValid, contents, push_data_refines}
use skynet_server.Netpack.Hash.Lookup.{waiting, Unique, first_of}
use skynet_server.Netpack.Hash.{hash_fd}
use skynet_server.Netpack.Push.{if_any, push_frame, save_body, push_round}
use skynet_server.Netpack.Stream.{Sent, header, bytes, stream, delivered}
use skynet_server.Netpack.Stream.Save.{between, Consumed, Free}

pub stream-split :
    (s : Sent) (ss : List Sent) (tail : Bytes)
    → stream (s ∷ ss) ++ tail ≡ header s ++ (s.body ++ (stream ss ++ tail))
stream-split s ss tail =
    append_assoc (bytes s) (stream ss) tail ∙ append_assoc (header s) s.body (stream ss ++ tail)

pub Bytes-cases : (b : Bytes) → (b ≡ []) ⊎ (0 < length b)
Bytes-cases [] = inl refl
Bytes-cases (x ∷ b) = inr (omega arith)

pub if_any-more {ℓ} :
    {A : Type ℓ} (rest : Bytes) (go : Bytes → A) (stop : A)
    → 0 < length rest
    → if_any rest go stop ≡ go rest
if_any-more [] go stop h = absurd (omega arith)
if_any-more (x ∷ rest) go stop h = refl

module _ (J : Junk) where
  -- A frame of the connection that is pushed waits behind the others.
  pub record Pushed (fd : ℕ) (q : Queue) (s : Sent) (r : Queue) : Type 0 where
    pub still_free : Free J fd r
    pub behind : contents J.cell r ≡ contents J.cell q ++ (delivered fd s ∷ [])
    pub table : (other : ℕ) → waiting r other ≡ waiting q other

  pub push_data-Pushed :
      (fd : ℕ) (q : Queue) (s : Sent)
      → Free J fd q
      → Pushed fd q s (push_data J.cell (some q) fd (payload s.mask s.body))
  push_data-Pushed fd q s f = record {
    still_free = record {
      valid = pushed.0;
      filed =
          subst (λ (hash : ℕ → List Uncomplete). (h : ℕ) → Unique (hash h)) (sym pushed.2) f.filed;
      free = ap (λ (hash : ℕ → List Uncomplete). first_of fd (hash (hash_fd fd))) pushed.2 ∙ f.free;
    };
    behind =
        pushed.1
        ∙ ap
            (λ n.
              contents J.cell q
              ++ (record { id = fd; size = n; buffer = payload s.mask s.body } ∷ []))
            (length-decode_wsmask_data s.body s.mask 0);
    table = λ other.
        ap (λ (hash : ℕ → List Uncomplete). first_of other (hash (hash_fd other))) pushed.2;
  }
    where
      pushed :
          IsValid (push_data J.cell (some q) fd (payload s.mask s.body))
          × (contents J.cell (push_data J.cell (some q) fd (payload s.mask s.body))
              ≡ contents J.cell q
                ++ (record {
                  id = fd;
                  size = length (payload s.mask s.body);
                  buffer = payload s.mask s.body;
                }
                    ∷ []))
          × ((push_data J.cell (some q) fd (payload s.mask s.body)).hash ≡ q.hash)
      pushed = push_data_refines J.cell q fd (payload s.mask s.body) f.valid

  -- The round that meets a frame in full, and the one that meets a part of its body.
  pub push_round-whole :
      (next : Queue → Bytes → Run Queue) (fd : ℕ) (q : Queue) (front : Bytes) (mask : Option Bytes)
      (body rest : Bytes)
      → push_round J next false
          (some q)
          fd
          (pos (length body))
          (header_reading mask (length body) (length front))
          (front ++ (body ++ rest))
        ≡ if_any rest
            (next (push_data J.cell (some q) fd (payload mask body)))
            (done (push_data J.cell (some q) fd (payload mask body)))
  unfolding push_round push_frame
  push_round-whole next fd q front mask body rest =
      rw
        (
          drop-append front (body ++ rest),
          take-append body rest (length body) refl,
          drop-append body rest,
          enough,
        )
        refl
    where
      enough : ltb (length (body ++ rest)) (length body) ≡ false
      enough = ground (arith, length-append body rest)

  pub push_round-part :
      (next : Queue → Bytes → Run Queue) (fd : ℕ) (q : Queue) (front : Bytes) (mask : Option Bytes)
      (len : ℕ) (part : Bytes)
      → length part < len
      → push_round J next false
          (some q)
          fd
          (pos len)
          (header_reading mask len (length front))
          (front ++ part)
        ≡ done (save_body J (some q) fd (header_reading mask len (length front)) len part)
  unfolding push_round
  push_round-part next fd q front mask len part short =
      rw (drop-append front part, lt→ltb (length part) len short) refl

  -- The frames behind one that was pushed.
  pub Pushed-Consumed :
      (fd : ℕ) (q q1 r : Queue) (s : Sent) (ss : List Sent) (tail : Bytes)
      → Pushed fd q s q1
      → Consumed J fd q1 ss tail r
      → Consumed J fd q (s ∷ ss) tail r
  Pushed-Consumed fd q q1 r s ss tail p c = record {
    valid = c.valid;
    filed = c.filed;
    queued =
        c.queued
        ∙ ap (λ t. t ++ map (delivered fd) ss) p.behind
        ∙ append_assoc (contents J.cell q) (delivered fd s ∷ []) (map (delivered fd) ss);
    at = c.at;
    others = λ other ne. c.others other ne ∙ p.table other;
  }

  -- The queue as it is when nothing follows.
  pub Free-Consumed :
      (fd : ℕ) (q : Queue) (ss : List Sent) (tail : Bytes)
      → Free J fd q
      → stream ss ++ tail ≡ []
      → Consumed J fd q ss tail q
  Free-Consumed fd q [] tail f e = record {
    valid = f.valid;
    filed = f.filed;
    queued = sym (append-nil (contents J.cell q));
    at = between e f.free;
    others = λ other ne. refl;
  }
  Free-Consumed fd q (s ∷ ss) tail f e = absurd (omega (arith, ap length e))
