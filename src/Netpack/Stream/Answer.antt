-- ===== src/Netpack/Stream/Answer.antt =====
-- What `filter_data` must have made of a piece of the stream, and the frame whose payload is whole.
use skynet_server.Common.{
  ℕ, ◌≡◌, ◌≢◌, ◌⊎◌, inl, inr, refl, sym, ap, ◌∙◌, false, Option, none, some, List, [], ◌∷◌, ◌++◌,
  map, append-nil, length, arith,
}
use skynet_server.Common.Bytes.{Bytes}
use skynet_server.Netpack.Types.{Netpack, Queue, Junk, Answer, data_frame, more, Run, done}
use skynet_server.Netpack.Frame.{decode_wsmask_data}
use skynet_server.Netpack.Frame.Unmask.{payload}
use skynet_server.Netpack.Queue.{push_data}
use skynet_server.Netpack.Queue.Refine.{IsValid, contents}
use skynet_server.Netpack.Hash.Lookup.{IsFiled, waiting}
use skynet_server.Netpack.Push.{if_any, push_more}
use skynet_server.Netpack.Filter.{then_more}
use skynet_server.Netpack.Stream.{Sent, AllSent, stream, delivered, Partly}
use skynet_server.Netpack.Stream.Save.{At, between, Consumed, Free}
use skynet_server.Netpack.Stream.Pushed.{
  Bytes-cases, if_any-more, push_data-Pushed, Pushed-Consumed,
}
use skynet_server.Netpack.Stream.Push.{push_more-Consumed}

-- The frame that an answer hands over itself.
abbrev pub handed : Answer → List Netpack
handed (data_frame fd msg size) = record { id = fd; size = size; buffer = msg } ∷ []
handed _ = []

pub stream-empty :
    (fd : ℕ) (ss : List Sent) (tail : Bytes)
    → stream ss ++ tail ≡ []
    → (map (delivered fd) ss ≡ []) × (tail ≡ [])
stream-empty fd [] tail e = (refl, e)
stream-empty fd (s ∷ ss) tail e = absurd (omega (arith, ap length e))

pub payload-nothing : (mask : Option Bytes) → payload mask [] ≡ []
unfolding decode_wsmask_data
payload-nothing none = refl
payload-nothing (some mask) = refl

module _ (J : Junk) where
  -- `r` and the answer `a` are what the frames `ss` of the connection and `tail` behind them make of
  -- the queue `q`.
  pub record Filtered (fd : ℕ) (q : Queue) (ss : List Sent) (tail : Bytes) (r : Queue) (a : Answer)
      : Type 0 where
    pub valid : IsValid r
    pub filed : IsFiled r
    pub queued : contents J.cell r ++ handed a ≡ contents J.cell q ++ map (delivered fd) ss
    pub at : At fd tail (waiting r fd)
    pub others : (other : ℕ) → other ≢ fd → waiting r other ≡ waiting q other

  abbrev pub Filters : (fd : ℕ) → Queue → List Sent → Bytes → Run (Option Queue × Answer) → Type 0
  Filters fd q ss tail run =
      (r : Queue) × (a : Answer) × (run ≡ done (some r, a)) × Filtered fd q ss tail r a

  pub Consumed-Filtered :
      (fd : ℕ) (q : Queue) (ss : List Sent) (tail : Bytes) (r : Queue) (a : Answer)
      → handed a ≡ []
      → Consumed J fd q ss tail r
      → Filtered fd q ss tail r a
  Consumed-Filtered fd q ss tail r a e c = record {
    valid = c.valid;
    filed = c.filed;
    queued = ap (λ t. contents J.cell r ++ t) e ∙ append-nil (contents J.cell r) ∙ c.queued;
    at = c.at;
    others = c.others;
  }

  -- A frame whose payload is whole: it is the answer if nothing follows, and is pushed otherwise.
  pub finish_frame :
      (fd : ℕ) (q : Queue) (s : Sent) (ss : List Sent) (tail : Bytes)
      (run : Run (Option Queue × Answer))
      → AllSent ss
      → (tail ≡ []) ⊎ Partly tail
      → Free J fd q
      → run
        ≡ if_any
            (stream ss ++ tail)
            (λ left. then_more J (
              push_more J false
                (some (push_data J.cell (some q) fd (payload s.mask s.body)))
                fd
                left))
            (done (some q, data_frame fd (payload s.mask s.body) (length s.body)))
      → Filters fd q (s ∷ ss) tail run
  finish_frame fd q s ss tail run all t free e = elim (Bytes-cases (stream ss ++ tail)) [
    | inl nothing_left ↦
        let none_left = stream-empty fd ss tail nothing_left in
        (
          q,
          data_frame fd (payload s.mask s.body) (length s.body),
          e
              ∙ ap
                  (λ rest.
                    if_any rest
                      (λ left. then_more J (
                        push_more J false
                          (some (push_data J.cell (some q) fd (payload s.mask s.body))) fd left))
                      (done (some q, data_frame fd (payload s.mask s.body) (length s.body))))
                  nothing_left,
          record {
            valid = free.valid;
            filed = free.filed;
            queued = ap (λ ns. contents J.cell q ++ (delivered fd s ∷ ns)) (sym none_left.0);
            at = between none_left.1 free.free;
            others = λ other ne. refl;
          },
        )
    | inr some_left ↦
        let pushed = push_data-Pushed J fd q s free in
        let later =
          push_more-Consumed J fd (push_data J.cell (some q) fd (payload s.mask s.body)) ss tail all
            t pushed.still_free some_left in
        (
          later.0,
          more,
          e
              ∙ if_any-more (stream ss ++ tail)
                  (λ left. then_more J (
                    push_more J false (some (push_data J.cell (some q) fd (payload s.mask s.body)))
                      fd left))
                  (done (some q, data_frame fd (payload s.mask s.body) (length s.body))) some_left
              ∙ ap (then_more J) later.1,
          Consumed-Filtered fd q (s ∷ ss) tail later.0 more refl (
              Pushed-Consumed J fd q (push_data J.cell (some q) fd (payload s.mask s.body)) later.0
                s ss tail pushed later.2),
        )
  ]
