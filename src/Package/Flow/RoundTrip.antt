-- ===== src/Package/Flow/RoundTrip.antt =====
-- Two ends of a connection: what one service sends out with `send_out`, another takes in, however
-- the network cuts the bytes.
use skynet_server.Common.{
  false, ◌≤◌, ◌≡◌, refl, sym, ap, ◌∙◌, List, [], ◌∷◌, ◌++◌, arith, length, ltb,
}
use skynet_server.Common.Bytes.{Bytes}
use skynet_server.Package.Types.{Package, Junk, Effect, Run, ok, socket_send, and_then}
use skynet_server.Package.Decoder.{idle, settle, decode}
use skynet_server.Package.Decoder.Laws.{decode-nil, decode-package}
use skynet_server.Package.Receive.Fits.{decoder, ready}
use skynet_server.Package.Handlers.{send_out, frame_header}
use skynet_server.Package.Handlers.Refine.{IsSound}
use skynet_server.Package.Flow.{Event, run, AllCommands, stream_of}
use skynet_server.Package.Flow.Step.{packages}
use skynet_server.Package.Flow.Delivery.{run-Delivered}

-- The bytes that a run writes to the socket.
unfoldable pub written : List Effect → Bytes
written [] = []
written (socket_send fd bytes ∷ es) = bytes ++ written es
written (_ ∷ es) = written es

-- `send_out` of one message after the other.
unfoldable pub send_all : Package → List Bytes → Run
send_all P [] = ok P []
send_all P (m ∷ ms) = and_then (send_out P m) λ P'. send_all P' ms

abbrev pub AllFit : List Bytes → Type 0
AllFit [] = Unit
AllFit (m ∷ ms) = (length m ≤ 0xffff) × AllFit ms

-- Messages that fit are all written, and the bytes decode to them.
record Sent (P : Package) (ms : List Bytes) : Type 0 where
  calls : List Effect
  ends : send_all P ms ≡ ok P calls
  decoded : decode idle (written calls) ≡ (idle, ms)

send_out-fits :
    (P : Package) (m : Bytes)
    → length m ≤ 0xffff
    → send_out P m ≡ ok P (socket_send P.fd (frame_header (length m) ++ m) ∷ [])
unfolding send_out
send_out-fits P m fit = let short : ltb 0xffff (length m) ≡ false = ground arith in rw short

send_all-Sent : (P : Package) (ms : List Bytes) → AllFit ms → Sent P ms
unfolding send_all written settle
send_all-Sent P [] fit = record { calls = []; ends = refl; decoded = decode-nil idle refl }
send_all-Sent P (m ∷ ms) fit =
    let s = send_all-Sent P ms fit.1 in
    record {
      calls = socket_send P.fd (frame_header (length m) ++ m) ∷ s.calls;
      ends = rw (send_out-fits P m fit.0, s.ends);
      decoded = decode-package m (written s.calls) (omega arith) ∙ λ i.
          ((s.decoded i).0, m ∷ (s.decoded i).1);
    }

-- Messages of at most 0xffff bytes each, sent by one service and received by another that stands
-- between packages and holds none: whatever the messages that carry the bytes and whatever is asked
-- in between (no empty text message), the packages handed over and those that still wait are the messages, in order, and
-- the receiver stands between packages again.
pub send_out-receive :
    (J : Junk) (sender receiver : Package) (ms : List Bytes)
    → AllFit ms
    → IsSound J receiver
    → decoder receiver ≡ idle
    → ready J receiver ≡ []
    → (calls : List Effect) × (send_all sender ms ≡ ok sender calls)
      × ((events : List Event)
          → AllCommands events
          → stream_of events ≡ written calls
          → (end : Package) × (answers : List Effect) × (run J receiver events ≡ ok end answers)
            × (packages answers ++ ready J end ≡ ms)
            × (decoder end ≡ idle))
send_out-receive J sender receiver ms fit sound at_start none_ready = (
  s.calls,
  s.ends,
  λ events commands same.
      let d = run-Delivered J receiver events sound commands in
      let decoded : decode (decoder receiver) (stream_of events) ≡ (idle, ms) =
        rw (same, at_start) s.decoded in
      (
        d.end,
        d.calls,
        d.ends,
        sym d.in_order
            ∙ ap (λ t. t ++ (decode (decoder receiver) (stream_of events)).1) none_ready
            ∙ ap (λ t. t.1) decoded,
        d.place ∙ ap (λ t. t.0) decoded,
      ),
)
  where
    s : Sent sender ms
    s = send_all-Sent sender ms fit
