-- ===== src/Exchange/Upstream.antt =====
-- From the client to the server: `lsend` for each message, the network, which delivers the bytes in
-- pieces of its own, and the reader of the server.
use skynet_server.Common.{
  ℕ, ◌≤◌, ◌≡◌, refl, sym, ap, ◌∙◌, Option, none, some, List, [], ◌∷◌, ◌++◌, map, arith, length,
}
use skynet_server.Common.Bytes.{Bytes}
use skynet_server.Netpack.Types.{Netpack, Queue, Junk, done}
use skynet_server.Netpack.Frame.{decode_wsmask_data}
use skynet_server.Netpack.Frame.Wire.{wire}
use skynet_server.Netpack.Queue.Refine.{contents}
use skynet_server.Netpack.Hash.Lookup.{waiting}
use skynet_server.Netpack.Stream as Stream
use skynet_server.Netpack.Stream.{AllSent, stream, delivered}
use skynet_server.Netpack.Stream.Save.{At, between}
use skynet_server.Netpack.Stream.Filter.{IsSound}
use skynet_server.Netpack.Stream.Feed.{AllNonempty, joined, feed, feed-frames}
use skynet_server.Client.Socket.{Sending}
use skynet_server.Client.Send.{
  Sent, sent, overflow, Outcome, all_sent, send_error, still_sending, websocket_block_send,
}
use skynet_server.Client.Wire.{websocket_block_send-wire}

-- The bytes that the system took of a message, if all of them.
abbrev pub whole : Sent → Option Bytes
whole (sent all_sent taken) = some taken
whole (sent send_error taken) = none
whole (sent still_sending taken) = none
whole overflow = none

abbrev pub behind : Option Bytes → Option Bytes → Option Bytes
behind (some a) (some b) = some (a ++ b)
behind (some a) none = none
behind none b = none

-- What goes over the network for messages, each with what `send` returns, if each is sent whole.
abbrev pub outgoing : List (List Sending × Bytes) → Option Bytes
outgoing [] = some []
outgoing ((script, msg) ∷ messages) =
    behind (whole (websocket_block_send script msg)) (outgoing messages)

abbrev pub AllShort : List (List Sending × Bytes) → Type 0
AllShort [] = Unit
AllShort ((script, msg) ∷ messages) = (length msg ≤ 4092) × AllShort messages

-- A message as the server hands it over.
abbrev pub arrived : ℕ → List Sending × Bytes → Netpack
arrived fd (script, msg) = record { id = fd; size = length msg; buffer = msg }

-- The frame of a message.
abbrev frame : List Sending × Bytes → Stream.Sent
frame (script, msg) = record { opcode = 4; mask = none; body = msg }

whole-wire :
    (script : List Sending) (msg taken : Bytes)
    → length msg ≤ 4092
    → whole (websocket_block_send script msg) ≡ some taken
    → taken ≡ wire 4 none msg
whole-wire script msg taken h e =
    let w = websocket_block_send-wire script msg h in ends w.0 w.1 (sym (ap whole w.3) ∙ e) w.5
  where
    ends :
        (o : Outcome) (t : Bytes)
        → whole (sent o t) ≡ some taken
        → (o ≡ all_sent → t ≡ wire 4 none msg)
        → taken ≡ wire 4 none msg
    ends all_sent t e f = let same : t ≡ taken = cc in sym same ∙ f refl
    ends send_error t e f = absurd (cc)
    ends still_sending t e f = absurd (cc)

behind-some :
    (a b : Option Bytes) (c : Bytes)
    → behind a b ≡ some c
    → (x : Bytes) × (y : Bytes) × (a ≡ some x) × (b ≡ some y) × (c ≡ x ++ y)
behind-some (some a) (some b) c e = (a, b, refl, refl, cc)
behind-some (some a) none c e = absurd (cc)
behind-some none b c e = absurd (cc)

frames-AllSent :
    (messages : List (List Sending × Bytes)) → AllShort messages → AllSent (map frame messages)
frames-AllSent [] h = tt
frames-AllSent ((script, msg) ∷ messages) (h, more) = (
  record {
    not_zero = omega arith;
    four_bits = omega arith;
    not_close = λ e. absurd (omega (arith, e));
    keyed = refl;
    fits = omega (arith, h);
  },
  frames-AllSent messages more,
)

outgoing-stream :
    (messages : List (List Sending × Bytes)) (bytes : Bytes)
    → AllShort messages
    → outgoing messages ≡ some bytes
    → bytes ≡ stream (map frame messages)
outgoing-stream [] bytes h e = cc
outgoing-stream ((script, msg) ∷ messages) bytes (h, more) e =
    let b = behind-some (whole (websocket_block_send script msg)) (outgoing messages) bytes e in
    b.4
    ∙ ap (λ t. t ++ b.1) (whole-wire script msg b.0 h b.2)
    ∙ ap (λ t. wire 4 none msg ++ t) (outgoing-stream messages b.1 more b.3)

delivered-arrived :
    (fd : ℕ) (messages : List (List Sending × Bytes))
    → map (delivered fd) (map frame messages) ≡ map (arrived fd) messages
unfolding decode_wsmask_data
delivered-arrived fd [] = refl
delivered-arrived fd ((script, msg) ∷ messages) =
    ap (λ t. arrived fd (script, msg) ∷ t) (delivered-arrived fd messages)

-- Messages of at most 4092 bytes that the client sends whole, whatever `send` returns on the way, and
-- that the network delivers in any pieces, none empty: a reader that calls `filter_data` with each
-- piece and `lpop` after it, from a sound queue in which no frame waits and nothing is kept of the
-- connection, gets exactly the messages in their order, and in the end no byte of the connection is
-- kept.
pub websocket_block_send-feed :
    (J : Junk) (fd : ℕ) (q : Queue) (messages : List (List Sending × Bytes)) (pieces : List Bytes)
    → IsSound J q
    → contents J.cell q ≡ []
    → waiting q fd ≡ none
    → AllShort messages
    → outgoing messages ≡ some (joined pieces)
    → AllNonempty pieces
    → (r : Queue) × (feed J fd pieces q ≡ done (r, map (arrived fd) messages))
      × At fd [] (waiting r fd)
websocket_block_send-feed J fd q messages pieces sound quiet none_kept short sends nonempty =
    let f =
      feed-frames J fd pieces q [] (map frame messages) sound quiet (between refl none_kept)
        (frames-AllSent messages short) nonempty
        (outgoing-stream messages (joined pieces) short sends) in
    (f.0, f.1 ∙ ap (λ fs. done (f.0, fs)) (delivered-arrived fd messages), f.2)
