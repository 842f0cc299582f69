-- ===== src/Package/Flow/Counts.antt =====
-- What each message does to the count that the timer looks at, in the specification.
use skynet_server.Common.{
  ℕ, ◌+◌, ◌≡◌, refl, ◌∙◌, Bool, true, false, not, ◌&&◌, List, [], ◌∷◌, arith, length, ltb, ◌==◌,
  if◌then◌else◌,
}
use skynet_server.Common.Bytes.{Bytes, codes}
use skynet_server.Common.Int.{ℤ, ◌==ℤ◌, is_positive}
use skynet_server.Package.Types.{Request, SocketType, SocketMessage, Message, Effect}
use skynet_server.Package.Spec.{
  Service, Outcome, chain, deliver, exiting, close_down, ask_open, ask, obey, report, hang_up,
  take_in, on_type, on_socket, send_frame, serve,
}
use skynet_server.Package.Flow.{Event}

-- `n` more messages counted, and the rest of what the timer looks at as before.
pub record Counts (S : Service) (n : ℕ) (o : Outcome) : Type 0 where
  pub counted : o.0.recv ≡ S.recv + n
  pub same_beat : o.0.heartbeat ≡ S.heartbeat
  pub same_fd : o.0.fd ≡ S.fd

if-Counts :
    (b : Bool) (S : Service) (n : ℕ) (o o' : Outcome)
    → Counts S n o
    → Counts S n o'
    → Counts S n (if b then o else o')
if-Counts true S n o o' k l = k
if-Counts false S n o o' k l = l

same : (S : Service) (es : List Effect) → Counts S 0 (S, es)
same S es = record { counted = omega arith; same_beat = refl; same_fd = refl }

ask_open-Counts : (ms : List Bytes) (S : Service) (req : Request) → Counts S 0 (ask_open ms S req)
unfolding ask_open
ask_open-Counts [] S req = record { counted = omega arith; same_beat = refl; same_fd = refl }
ask_open-Counts (m ∷ ms) S req = record { counted = omega arith; same_beat = refl; same_fd = refl }

obey-Counts :
    (size : ℕ) (S : Service) (req : Request) (msg : Bytes) → Counts S 0 (obey size S req msg)
unfolding obey ask
obey-Counts size S req [] = same S _
obey-Counts size S req (c ∷ msg) =
    if-Counts (c == b'R') S 0 _ _
      (if-Counts S.closed S 0 _ _ (same S _) (ask_open-Counts S.ready S req))
      (if-Counts (c == b'K') S 0 _ _ (same S _)
        (if-Counts (c == b'I') S 0 _ _ (same S _) (same S _)))

report-Counts : (S : Service) (id : ℤ) (word : Bytes) → Counts S 0 (report S id word)
unfolding report
report-Counts S id word =
    if-Counts (not S.init && (id ==ℤ S.fd)) S 0 _ _
      (record { counted = omega arith; same_beat = refl; same_fd = refl }) (same S _)

hang_up-Counts : (S : Service) (id : ℤ) → Counts S 0 (hang_up S id)
unfolding hang_up close_down deliver exiting
hang_up-Counts S id =
    if-Counts (id ==ℤ S.fd) S 0 _ _
      (record { counted = omega arith; same_beat = refl; same_fd = refl }) (same S _)

closed-Counts :
    (S : Service) (id : ℤ) → Counts S 0 (chain (report S id (codes "FAIL")) (λ S'. hang_up S' id))
closed-Counts S id =
    let k = report-Counts S id (codes "FAIL") in
    let l = hang_up-Counts (report S id (codes "FAIL")).0 id in
    record {
      counted = omega (arith, k.counted, l.counted);
      same_beat = l.same_beat ∙ k.same_beat;
      same_fd = l.same_fd ∙ k.same_fd;
    }

-- Messages of the socket that carry data.
unfoldable pub data_of_type : SocketType → ℕ
data_of_type SocketType.received = 1
data_of_type _ = 0

unfoldable pub data_of : Message → ℕ
unfolding data_of_type
data_of (Message.socket smsg) = data_of_type smsg.type
data_of _ = 0

unfoldable pub data_messages : List Event → ℕ
unfolding data_of
data_messages [] = 0
data_messages (e ∷ events) = data_of e.message + data_messages events

on_type-Counts :
    (t : SocketType) (S : Service) (smsg : SocketMessage)
    → Counts S (data_of_type t) (on_type t S smsg)
unfolding on_type data_of_type take_in deliver
on_type-Counts SocketType.connect S smsg = report-Counts S smsg.id (codes "SUCC")
on_type-Counts SocketType.close S smsg = closed-Counts S smsg.id
on_type-Counts SocketType.error S smsg = closed-Counts S smsg.id
on_type-Counts SocketType.received S smsg = record {
  counted = refl;
  same_beat = refl;
  same_fd = refl;
}
on_type-Counts SocketType.warning S smsg = same S _
on_type-Counts SocketType.other S smsg = same S _

-- Any message but a tick of the timer.
abbrev pub NoTick : Message → Type 0
NoTick Message.response = ⊥
NoTick _ = Unit

pub serve-Counts :
    (size : ℕ) (S : Service) (message : Message) (req : Request)
    → NoTick message
    → Counts S (data_of message) (serve size S message req)
unfolding serve on_socket data_of send_frame
serve-Counts size S (Message.text msg) req q = obey-Counts size S req msg
serve-Counts size S (Message.client msg) req q =
    if-Counts (ltb 0xffff (length msg)) S 0 _ _ (same S _) (same S _)
serve-Counts size S Message.response req q = absurd q
serve-Counts size S (Message.socket smsg) req q = on_type-Counts smsg.type S smsg
serve-Counts size S Message.error req q = same S _
serve-Counts size S Message.other req q =
    if-Counts (is_positive req.session) S 0 _ _ (same S _) (same S _)

abbrev pub NoTicks : List Event → Type 0
NoTicks [] = Unit
NoTicks (e ∷ events) = NoTick e.message × NoTicks events
