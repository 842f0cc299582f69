-- ===== src/Netpack/Stream/Filter.antt =====
-- `filter_data` on a piece of the stream of a connection.
use skynet_server.Common.{
  ℕ, ◌<◌, ◌≡◌, ◌≢◌, ◌⊎◌, sym, ap, ◌∙◌, false, Option, none, some, List, [], ◌++◌, map, append_assoc,
  length, arith,
}
use mathlib.Core.Path.{subst}
use skynet_server.Common.Bytes.{Bytes}
use skynet_server.Netpack.Types.{Uncomplete, Queue, Junk, Answer, Run}
use skynet_server.Netpack.Queue.Refine.{IsValid, contents}
use skynet_server.Netpack.Hash.{find_uncomplete}
use skynet_server.Netpack.Hash.Lookup.{IsFiled, waiting, missing, found, find_uncomplete-View}
use skynet_server.Netpack.Push.{is_minus_two, find_header}
use skynet_server.Netpack.Filter.{fill_uncomplete, filter_data}
use skynet_server.Netpack.Stream.{
  Sent, AllSent, header, stream, delivered, Partly, in_header, in_body, StandsFor,
}
use skynet_server.Netpack.Stream.Save.{At, between, partly, Free}
use skynet_server.Netpack.Stream.Answer.{Filters}
use skynet_server.Netpack.Stream.Start.{Found, start}
use skynet_server.Netpack.Stream.Body.{resume_body}
use skynet_server.Netpack.Stream.Head.{resume_header}

module _ (J : Junk) where
  -- A node taken out of the table, whatever it waits for.
  resume :
      (fd : ℕ) (q : Queue) (before : Bytes) (p : Partly before) (uc : Uncomplete) (chunk : Bytes)
      (ss : List Sent) (tail : Bytes)
      → Free J fd q
      → StandsFor fd p uc
      → AllSent ss
      → (tail ≡ []) ⊎ Partly tail
      → 0 < length chunk
      → before ++ chunk ≡ stream ss ++ tail
      → Filters J fd q ss tail (fill_uncomplete J false q fd uc.read uc chunk)
  unfolding fill_uncomplete
  resume fd q before (in_header s r rest i e) uc chunk ss tail free stands all t some_bytes cut =
      subst
        (λ (nd : Uncomplete).
          Filters J fd q ss tail (fill_uncomplete J false q fd nd.read nd chunk))
        (sym stands)
        (resume_header J fd q s before r rest chunk ss tail free i e all t some_bytes cut)
  resume fd q before (in_body s part r rest i t0 e) uc chunk ss tail free stands all t some_bytes
        cut =
      subst
        (λ (nd : Uncomplete).
          Filters J fd q ss tail (fill_uncomplete J false q fd nd.read nd chunk))
        (sym stands.2)
        (resume_body J fd q s stands.0 stands.1 part r rest chunk ss tail free i stands.3 e all t
          some_bytes
          (sym (append_assoc (header s) part chunk) ∙ ap (λ b. b ++ chunk) (sym t0) ∙ cut))

  -- A sound state of the splitter.
  pub record IsSound (q : Queue) : Type 0 where
    pub valid : IsValid q
    pub filed : IsFiled q

  -- The queue without the node of the connection.
  record Without (fd : ℕ) (q r : Queue) : Type 0 where
    free : Free J fd r
    same_frames : contents J.cell r ≡ contents J.cell q
    same_nodes : (other : ℕ) → other ≢ fd → waiting r other ≡ waiting q other

  taken-Filters :
      (fd : ℕ) (q r : Queue) (ss : List Sent) (tail : Bytes) (run : Run (Option Queue × Answer))
      → Without fd q r
      → Filters J fd r ss tail run
      → Filters J fd q ss tail run
  taken-Filters fd q r ss tail run w f = (
    f.0,
    f.1,
    f.2,
    record {
      valid = f.3.valid;
      filed = f.3.filed;
      queued = f.3.queued ∙ ap (λ t. t ++ map (delivered fd) ss) w.same_frames;
      at = f.3.at;
      others = λ other ne. f.3.others other ne ∙ w.same_nodes other ne;
    },
  )

  -- The two branches of `filter_data`.
  pub filter_data-by :
      (fd : ℕ) (q : Queue) (chunk : Bytes) (o : Option (Uncomplete × Queue))
      → find_uncomplete (some q) fd ≡ o
      → filter_data J (some q) fd chunk false ≡ elim o [
        | some (uc, r) ↦ fill_uncomplete J false r fd uc.read uc chunk
        | none ↦ Found J fd q (find_header false is_minus_two chunk)
      ]
  unfolding filter_data
  filter_data-by fd q chunk o e =
      ap
        (λ (x : Option (Uncomplete × Queue)). elim x [
          | some (uc, r) ↦ fill_uncomplete J false r fd uc.read uc chunk
          | none ↦ Found J fd q (find_header false is_minus_two chunk)
        ])
        e

  some-differs : {u : Uncomplete} {o : Option Uncomplete} → o ≡ none → ¬ (o ≡ some u)
  some-differs e f = cc

  -- For a connection of which `before` is kept in a sound queue and a piece `chunk` of its stream, not
  -- empty, where the bytes kept and the piece are whole frames and then nothing or a part of one frame
  -- (final frames of data of at most 10240 bytes, masked or not, and no opening handshake):
  -- `filter_data` ends, the queue and the frame that it answers with hold what waited and then the
  -- payloads of the whole frames in order, the part is what is kept from then on, what is kept of
  -- other connections stays, and the queue is sound.
  pub filter_data_lem :
      (fd : ℕ) (q : Queue) (before chunk : Bytes) (ss : List Sent) (tail : Bytes)
      → IsSound q
      → At fd before (waiting q fd)
      → AllSent ss
      → (tail ≡ []) ⊎ Partly tail
      → 0 < length chunk
      → before ++ chunk ≡ stream ss ++ tail
      → Filters J fd q ss tail (filter_data J (some q) fd chunk false)
  filter_data_lem fd q before chunk ss tail sound (between none_before w) all t some_bytes cut =
      let stream_bytes : chunk ≡ stream ss ++ tail = ap (λ b. b ++ chunk) (sym none_before) ∙ cut in
      elim (find_uncomplete-View q fd sound.filed) [
        | missing e f ↦
            subst (Filters J fd q ss tail)
              (sym (
                filter_data-by fd q chunk none e
                ∙ ap (λ c. Found J fd q (find_header false is_minus_two c)) stream_bytes))
              (start J fd q ss tail all t
                (record { valid = sound.valid; filed = sound.filed; free = w })
                (omega (arith, ap length stream_bytes)))
        | found uc r e f i g others filed same ↦ absurd (some-differs w f)
      ]
  filter_data_lem fd q before chunk ss tail sound (partly p uc stands w) all t some_bytes cut =
      elim (find_uncomplete-View q fd sound.filed) [
        | missing e f ↦ absurd (some-differs f w)
        | found uc1 r e f i g others filed same ↦
            let here : uc ≡ uc1 = cc in
            subst (Filters J fd q ss tail) (sym (filter_data-by fd q chunk (some (uc1, r)) e)) (
              taken-Filters fd q r ss tail (fill_uncomplete J false r fd uc1.read uc1 chunk)
                (record {
                  free = record {
                    valid = subst IsValid (sym same) (record {
                      sized = sound.valid.sized;
                      head_in = sound.valid.head_in;
                      tail_in = sound.valid.tail_in;
                    });
                    filed = filed;
                    free = g;
                  };
                  same_frames = ap (contents J.cell) same;
                  same_nodes = others;
                })
                (resume fd r before p uc1 chunk ss tail
                  (record {
                    valid = subst IsValid (sym same) (record {
                      sized = sound.valid.sized;
                      head_in = sound.valid.head_in;
                      tail_in = sound.valid.tail_in;
                    });
                    filed = filed;
                    free = g;
                  })
                  (subst (StandsFor fd p) here stands) all t some_bytes cut))
      ]
