-- ===== src/Package/Flow/Step.antt =====
-- One message: the packages handed over and those that wait are those that waited and those that
-- the message completes, in the order of the stream; and the stream moves on by its bytes.
use skynet_server.Common.{
  ℕ, ◌+◌, length, ltb, ◌≡◌, refl, sym, ap, ◌∙◌, Bool, true, false, not, ◌&&◌, List, [], ◌∷◌, ◌++◌,
  map, append-nil, append_assoc, ◌==◌, if◌then◌else◌,
}
use mathlib.Core.List.{map-append}
use skynet_server.Common.Bytes.{Bytes, codes}
use skynet_server.Common.Int.{ℤ, pos, ◌==ℤ◌, is_positive}
use skynet_server.Package.Types.{Request, SocketType, SocketMessage, Message, Effect}
use skynet_server.Package.Decoder.{decode}
use skynet_server.Package.Decoder.Laws.{AtRest, decode-nil}
use skynet_server.Package.Spec.{
  Service, Outcome, matching, refusals, chain, deliver, exiting, close_down, ask_open, ask, obey,
  report, hang_up, take_in, on_type, on_socket, beat, send_frame, serve,
}
use skynet_server.Package.Flow.{handed, socket_bytes, incoming}

-- The packages of the calls, in order.
abbrev pub packages : List Effect → List Bytes
packages es = map (λ t. t.1) (handed es)

pub handed-append : (es fs : List Effect) → handed (es ++ fs) ≡ handed es ++ handed fs
unfolding handed
handed-append [] fs = refl
handed-append (e ∷ es) fs = rw (handed-append es fs, append_assoc)

pub packages-append : (es fs : List Effect) → packages (es ++ fs) ≡ packages es ++ packages fs
packages-append es fs = rw (handed-append es fs) (map-append (λ t. t.1) (handed es) (handed fs))

-- The packages that were there go to the calls, from the front, and the others stay.
record Keeps (S : Service) (o : Outcome) : Type 0 where
  in_order : S.ready ≡ packages o.1 ++ o.0.ready
  same_place : o.0.stream ≡ S.stream

matching-order :
    (qs : List Request) (ms : List Bytes) → ms ≡ packages (matching qs ms).0 ++ (matching qs ms).2
unfolding matching handed
matching-order [] ms = refl
matching-order (q ∷ qs) [] = refl
matching-order (q ∷ qs) (m ∷ ms) = ap (λ t. m ∷ t) (matching-order qs ms)

packages-refusals : (qs : List Request) → packages (refusals qs) ≡ []
unfolding refusals handed
packages-refusals [] = refl
packages-refusals (q ∷ qs) = packages-refusals qs

-- Calls that hand over nothing.
quiet : (S : Service) (es : List Effect) → packages es ≡ [] → Keeps S (S, es)
quiet S es none = record { in_order = rw none; same_place = refl }

deliver-Keeps : (S : Service) → Keeps S (deliver S)
unfolding deliver
deliver-Keeps S = record { in_order = matching-order S.requests S.ready; same_place = refl }

chain-Keeps :
    (S : Service) (o : Outcome) (next : Service → Outcome)
    → Keeps S o
    → ((S' : Service) → Keeps S' (next S'))
    → Keeps S (chain o next)
chain-Keeps S (S', es) next k later =
    let l = later S' in
    record {
      in_order =
          k.in_order
          ∙ ap (λ t. packages es ++ t) l.in_order
          ∙ sym (append_assoc (packages es) (packages (next S').1) (next S').0.ready)
          ∙ ap (λ t. t ++ (next S').0.ready) (sym (packages-append es (next S').1));
      same_place = l.same_place ∙ k.same_place;
    }

exiting-Keeps : (S : Service) → Keeps S (exiting S)
unfolding exiting handed
exiting-Keeps S = record {
  in_order = rw (packages-append (refusals S.requests), packages-refusals S.requests);
  same_place = refl;
}

close_down-Keeps : (S : Service) → Keeps S (close_down S)
unfolding close_down
close_down-Keeps S = chain-Keeps S (deliver S) exiting (deliver-Keeps S) exiting-Keeps

if-Keeps :
    (b : Bool) (S : Service) (o o' : Outcome)
    → Keeps S o
    → Keeps S o'
    → Keeps S (if b then o else o')
if-Keeps true S o o' k l = k
if-Keeps false S o o' k l = l

ask_open-Keeps :
    (ms : List Bytes) (S : Service) (req : Request) → S.ready ≡ ms → Keeps S (ask_open ms S req)
unfolding ask_open handed
ask_open-Keeps [] S req e = record { in_order = refl; same_place = refl }
ask_open-Keeps (m ∷ ms) S req e = record { in_order = e; same_place = refl }

ask-Keeps : (S : Service) (req : Request) → Keeps S (ask S req)
unfolding ask handed
ask-Keeps S req = if-Keeps S.closed S _ _ (quiet S _ refl) (ask_open-Keeps S.ready S req refl)

obey-Keeps : (size : ℕ) (S : Service) (req : Request) (msg : Bytes) → Keeps S (obey size S req msg)
unfolding obey handed
obey-Keeps size S req [] = quiet S [] refl
obey-Keeps size S req (c ∷ msg) = if-Keeps (c == b'R') S _ _ (ask-Keeps S req) (
    if-Keeps (c == b'K') S _ _ (quiet S _ refl)
      (if-Keeps (c == b'I') S _ _ (quiet S _ refl) (quiet S _ refl)))

report-Keeps : (S : Service) (id : ℤ) (word : Bytes) → Keeps S (report S id word)
unfolding report handed
report-Keeps S id word =
    if-Keeps (not S.init && (id ==ℤ S.fd)) S _ _ (record { in_order = refl; same_place = refl })
      (quiet S [] refl)

hang_up-Keeps : (id : ℤ) (S : Service) → Keeps S (hang_up S id)
unfolding hang_up handed
hang_up-Keeps id S = if-Keeps (id ==ℤ S.fd) S _ _ (close_down-Keeps S) (quiet S _ refl)

-- What the bytes of a message add: the packages that they complete, behind those that wait.
pub record Takes (S : Service) (bytes : Bytes) (o : Outcome) : Type 0 where
  pub in_order : S.ready ++ (decode S.stream bytes).1 ≡ packages o.1 ++ o.0.ready
  pub next_place : o.0.stream ≡ (decode S.stream bytes).0

take_in-Takes : (S : Service) (msg : Bytes) → Takes S msg (take_in S msg)
unfolding take_in handed
take_in-Takes S msg =
    let k = deliver-Keeps (record S {
      recv = S.recv + 1;
      stream = (decode S.stream msg).0;
      ready = S.ready ++ (decode S.stream msg).1;
    }) in
    record { in_order = k.in_order; next_place = k.same_place }

Takes-nothing : (S : Service) (o : Outcome) → AtRest S.stream → Keeps S o → Takes S [] o
Takes-nothing S o rest k = record {
  in_order = rw (decode-nil S.stream rest) (append-nil S.ready ∙ k.in_order);
  next_place = rw (decode-nil S.stream rest) k.same_place;
}

on_type-Takes :
    (t : SocketType) (S : Service) (smsg : SocketMessage)
    → AtRest S.stream
    → Takes S (socket_bytes t smsg.buffer) (on_type t S smsg)
unfolding on_type socket_bytes handed
on_type-Takes SocketType.connect S smsg r =
    Takes-nothing S _ r (report-Keeps S smsg.id (codes "SUCC"))
on_type-Takes SocketType.close S smsg r =
    Takes-nothing S _ r
      (chain-Keeps S _ _ (report-Keeps S smsg.id (codes "FAIL")) (hang_up-Keeps smsg.id))
on_type-Takes SocketType.error S smsg r =
    Takes-nothing S _ r
      (chain-Keeps S _ _ (report-Keeps S smsg.id (codes "FAIL")) (hang_up-Keeps smsg.id))
on_type-Takes SocketType.received S smsg r = take_in-Takes S smsg.buffer
on_type-Takes SocketType.warning S smsg r = Takes-nothing S _ r (quiet S _ refl)
on_type-Takes SocketType.other S smsg r = Takes-nothing S _ r (quiet S [] refl)

beat-Keeps : (S : Service) → Keeps S (beat S)
unfolding beat handed
beat-Keeps S =
    if-Keeps (pos S.recv ==ℤ S.heartbeat) S _ _
      (if-Keeps (not S.closed) S _ _ (quiet S _ refl) (quiet S _ refl))
      (record { in_order = refl; same_place = refl })

send_frame-Keeps : (S : Service) (msg : Bytes) → Keeps S (send_frame S msg)
unfolding send_frame handed
send_frame-Keeps S msg = if-Keeps (ltb 0xffff (length msg)) S _ _ (quiet S _ refl) (quiet S _ refl)

pub serve-Takes :
    (size : ℕ) (S : Service) (message : Message) (req : Request)
    → AtRest S.stream
    → Takes S (incoming message) (serve size S message req)
unfolding serve on_socket incoming handed
serve-Takes size S (Message.text msg) req r = Takes-nothing S _ r (obey-Keeps size S req msg)
serve-Takes size S (Message.client msg) req r = Takes-nothing S _ r (send_frame-Keeps S msg)
serve-Takes size S Message.response req r = Takes-nothing S _ r (beat-Keeps S)
serve-Takes size S (Message.socket smsg) req r = on_type-Takes smsg.type S smsg r
serve-Takes size S Message.error req r = Takes-nothing S _ r (quiet S [] refl)
serve-Takes size S Message.other req r =
    Takes-nothing S _ r
      (if-Keeps (is_positive req.session) S _ _ (quiet S _ refl) (quiet S [] refl))
