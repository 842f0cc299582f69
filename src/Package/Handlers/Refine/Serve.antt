-- ===== src/Package/Handlers/Refine/Serve.antt =====
-- Every message is handled as the specification says, and the invariant is kept; so is every
-- sequence of messages, from a package just created.
use skynet_server.Common.{ℕ, ◌≡◌, refl, ap, inl, not, [], ◌∷◌, map, arith, length, ltb}
use skynet_server.Common.Bytes.{Bytes}
use skynet_server.Common.Int.{is_positive, ℤ, pos, ◌==ℤ◌}
use skynet_server.Package.Queue.Refine.{queue_init-IsValid}
use skynet_server.Package.Types.{Package, Junk, Message}
use skynet_server.Package.Receive.Fits.{payload, ready, decoder}
use skynet_server.Package.Decoder.{idle}
use skynet_server.Package.Spec.{send_frame, on_socket, beat, serve}
use skynet_server.Package.Handlers.Loops.{waiting}
use skynet_server.Package.Handlers.{
  package_create, command, socket_message, heartbeat, send_out, message_handler,
}
use skynet_server.Package.Handlers.Refine.{IsSound, model, Refines, if-Refines, emit-Refines}
use skynet_server.Package.Handlers.Refine.Socket.{on_socket_type-Refines}
use skynet_server.Package.Handlers.Refine.Command.{command-Refines}

-- A text message holds its command, the first byte.
abbrev pub HasCommand : Message → Type 0
HasCommand (Message.text []) = ⊥
HasCommand (Message.text (c ∷ msg)) = Unit
HasCommand (Message.client msg) = Unit
HasCommand Message.response = Unit
HasCommand (Message.socket smsg) = Unit
HasCommand Message.error = Unit
HasCommand Message.other = Unit

module _ (J : Junk) where
  pub heartbeat-Refines : (P : Package) → IsSound J P → Refines J (heartbeat P) (beat (model J P))
  unfolding model heartbeat beat
  heartbeat-Refines P s =
      if-Refines J (pos P.recv ==ℤ P.heartbeat) _ _ _ _
        (if-Refines J (not P.closed) _ _ _ _ (emit-Refines J P _ s) (emit-Refines J P _ s))
        (
          record P { heartbeat = pos 0; recv = 0 },
          record {
            ends = refl;
            state = refl;
            sound = record {
              fits = record { valid = s.fits.valid; body_fits = s.fits.body_fits };
              settled = s.settled;
              request_valid = s.request_valid;
              exclusive = s.exclusive;
            };
          },
        )

  send_out-Refines :
      (P : Package) (msg : Bytes)
      → IsSound J P
      → Refines J (send_out P msg) (send_frame (model J P) msg)
  unfolding model send_out send_frame
  send_out-Refines P msg s =
      if-Refines J (ltb 0xffff (length msg)) _ _ _ _ (emit-Refines J P _ s) (emit-Refines J P _ s)

  -- `message_handler` on any message, in any sound state: no `assert` fails, no loop runs on, the
  -- calls are those of the specification in its order, and the new state is sound and stands for
  -- that of the specification.
  pub message_handler-serve :
      (P : Package) (message : Message) (session : ℤ) (source : ℕ)
      → IsSound J P
      → HasCommand message
      → Refines J (message_handler J P message session source) (
          serve P.uncomplete.sz (model J P) message (record { source = source; session = session }))
  unfolding message_handler socket_message serve on_socket
  message_handler-serve P (Message.text []) session source s command = absurd command
  message_handler-serve P (Message.text (c ∷ msg)) session source s command =
      command-Refines J P session source c msg s
  message_handler-serve P (Message.client msg) session source s command = send_out-Refines P msg s
  message_handler-serve P Message.response session source s command = heartbeat-Refines P s
  message_handler-serve P (Message.socket smsg) session source s command =
      on_socket_type-Refines J smsg.type P smsg s
  message_handler-serve P Message.error session source s command = emit-Refines J P [] s
  message_handler-serve P Message.other session source s command =
      if-Refines J (is_positive session) _ _ _ _ (emit-Refines J P _ s) (emit-Refines J P [] s)

  pub package_create-IsSound : IsSound J (package_create J)
  unfolding package_create
  package_create-IsSound = record {
    fits = record { valid = (queue_init-IsValid J.response).0; body_fits = omega arith };
    settled = λ z. ground arith;
    request_valid = (queue_init-IsValid J.request).0;
    exclusive = inl (queue_init-IsValid J.request).1;
  }

  -- A new package stands between packages, and nobody and nothing waits.
  pub package_create-empty :
      (decoder (package_create J) ≡ idle)
      × (ready J (package_create J) ≡ [])
      × (waiting J (package_create J) ≡ [])
  unfolding package_create
  package_create-empty =
      (refl, ap (map payload) (queue_init-IsValid J.response).1, (queue_init-IsValid J.request).1)
