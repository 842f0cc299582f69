-- ===== src/Package/Flow/Delivery.antt =====
-- Any run: the packages that are handed over are those of the byte stream, whole, each once and in
-- their order, and the rest waits.
use skynet_server.Common.{
  ℕ, suc, zero, ◌≡◌, ◌≢◌, refl, sym, ap, ◌∙◌, inl, inr, List, [], ◌∷◌, ◌++◌, append-nil,
  append_assoc, Bool-cases, ◌==◌,
}
use mathlib.Core.Path.{subst}
use skynet_server.Common.Bytes.{Bytes}
use skynet_server.Common.Int.{ℤ, pos, negsuc}
use skynet_server.Package.Types.{Package, Response, Junk, Effect, Run, ok}
use skynet_server.Package.Decoder.{settle, decode}
use skynet_server.Package.Decoder.Laws.{AtRest, decode-nil, decode-append}
use skynet_server.Package.Receive.Fits.{decoder_of, decoder, ready}
use skynet_server.Package.Handlers.{message_handler}
use skynet_server.Package.Handlers.Refine.{IsSound, model}
use skynet_server.Package.Handlers.Refine.Serve.{HasCommand, message_handler-serve}
use skynet_server.Package.Spec.{Service, serve}
use skynet_server.Package.Flow.{Event, run, AllCommands, incoming, stream_of, handed}
use skynet_server.Package.Flow.Step.{packages, packages-append, serve-Takes}

decoder_of-AtRest : (u : ℤ) (h a : ℕ) (r : Response) → u ≢ pos 0 → AtRest (decoder_of u h a r)
unfolding settle
decoder_of-AtRest (pos zero) h a r ne = absurd (ne refl)
decoder_of-AtRest (pos (suc k)) h a r ne = refl
decoder_of-AtRest (negsuc n) h a r ne = elim (Bool-cases (h == 0)) [ inl e ↦ rw e | inr e ↦ rw e ]

module _ (J : Junk) where
  decoder-AtRest : (P : Package) → IsSound J P → AtRest (decoder P)
  decoder-AtRest P s =
      decoder_of-AtRest P.uncomplete_sz P.header_sz P.header_0 P.uncomplete s.settled

  -- What a run from `P` over these bytes must come to.
  pub record Delivered (P : Package) (bytes : Bytes) (r : Run) : Type 0 where
    pub end : Package
    pub calls : List Effect
    pub ends : r ≡ ok end calls
    pub sound : IsSound J end
    pub in_order : ready J P ++ (decode (decoder P) bytes).1 ≡ packages calls ++ ready J end
    pub place : decoder end ≡ (decode (decoder P) bytes).0

  step-Delivered :
      (P : Package) (e : Event)
      → IsSound J P
      → HasCommand e.message
      → Delivered P
          (incoming e.message)
          (message_handler J P e.message e.from.session e.from.source)
  unfolding model
  step-Delivered P e s command =
      let (P', f) = message_handler-serve J P e.message e.from.session e.from.source s command in
      let t = serve-Takes P.uncomplete.sz (model J P) e.message e.from (decoder-AtRest P s) in
      record {
        end = P';
        calls = (serve P.uncomplete.sz (model J P) e.message e.from).1;
        ends = f.ends;
        sound = f.sound;
        in_order =
            t.in_order
            ∙ ap
                (λ (S : Service).
                  packages (serve P.uncomplete.sz (model J P) e.message e.from).1 ++ S.ready)
                (sym f.state);
        place = ap (λ (S : Service). S.stream) f.state ∙ t.next_place;
      }

  two_orders :
      {P : Package} {xs ys : Bytes} {r r' : Run} (d : Delivered P xs r) (l : Delivered d.end ys r')
      → ready J P ++ ((decode (decoder P) xs).1 ++ (decode (decode (decoder P) xs).0 ys).1)
        ≡ packages (d.calls ++ l.calls) ++ ready J l.end
  two_orders {P} {xs} {ys} d l =
      sym (append_assoc (ready J P) (decode (decoder P) xs).1 _)
      ∙ ap (λ t. t ++ (decode (decode (decoder P) xs).0 ys).1) d.in_order
      ∙ append_assoc (packages d.calls) (ready J d.end) _
      ∙ ap (λ t. packages d.calls ++ (ready J d.end ++ (decode t ys).1)) (sym d.place)
      ∙ ap (λ t. packages d.calls ++ t) l.in_order
      ∙ sym (append_assoc (packages d.calls) (packages l.calls) (ready J l.end))
      ∙ ap (λ t. t ++ ready J l.end) (sym (packages-append d.calls l.calls))

  -- Any sequence of messages, from any sound state: the handler never stops at an `assert` or runs
  -- on, the state stays sound, the packages that waited and those that the bytes complete are the
  -- ones handed over, in that order, and then the ones that still wait; the stream stands where
  -- the bytes leave it.
  pub run-Delivered :
      (P : Package) (events : List Event)
      → IsSound J P
      → AllCommands events
      → Delivered P (stream_of events) (run J P events)
  unfolding run stream_of handed
  run-Delivered P [] s commands = record {
    end = P;
    calls = [];
    ends = refl;
    sound = s;
    in_order = rw (decode-nil (decoder P) (decoder-AtRest P s)) (append-nil (ready J P));
    place = rw (decode-nil (decoder P) (decoder-AtRest P s));
  }
  run-Delivered P (e ∷ events) s commands =
      let d = step-Delivered P e s commands.0 in
      let l = run-Delivered d.end events d.sound commands.1 in
      let rest : AtRest (decode (decoder P) (incoming e.message)).0 =
        subst AtRest d.place (decoder-AtRest d.end d.sound) in
      record {
        end = l.end;
        calls = d.calls ++ l.calls;
        ends = rw (d.ends, l.ends);
        sound = l.sound;
        in_order =
            rw (decode-append (decoder P) (incoming e.message) (stream_of events) rest)
              (two_orders d l);
        place =
            rw (decode-append (decoder P) (incoming e.message) (stream_of events) rest)
              (l.place ∙ ap (λ t. (decode t (stream_of events)).0) d.place);
      }
