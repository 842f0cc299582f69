-- ===== src/Package/Tests.antt =====
-- The package service at concrete inputs: runs of its handlers, and the theorems there.
use skynet_server.Common.{
  ℕ, ◌+◌, ◌≡◌, refl, true, false, List, [], ◌∷◌, ◌++◌, arith, ◌<◌, if◌then◌else◌,
}
use skynet_server.Common.Bytes.{Bytes, codes}
use skynet_server.Common.Int.{pos}
use skynet_server.Package.Queue.{Queue, queue_push, queue_pop, queue_size, queue_empty}
use skynet_server.Package.Queue.Refine.{IsValid, contents, View, queue_push_refines, queue-View}
use skynet_server.Package.Types.{
  Package, Request, Junk, SocketType, Message, Effect, ok, socket_shutdown, timeout, log, timed_out,
  free,
}
use skynet_server.Package.Decoder.{idle}
use skynet_server.Package.Receive.{new_message}
use skynet_server.Package.Receive.Fits.{decoder, ready, Received}
use skynet_server.Package.Receive.Stream.{new_message_lem}
use skynet_server.Package.Spec.{hand, serve}
use skynet_server.Package.Handlers.{
  message_handler, heartbeat, timer_interval, package_create, package_init, partial_frees,
}
use skynet_server.Package.Handlers.Refine.{model, Refines}
use skynet_server.Package.Handlers.Refine.Serve.{
  message_handler-serve, package_create-IsSound, package_create-empty,
}
use skynet_server.Package.Handlers.Init.{package_init-View}
use skynet_server.Package.Flow.{Event, run, AllCommands, stream_of}
use skynet_server.Package.Flow.Step.{packages}
use skynet_server.Package.Flow.Delivery.{Delivered, run-Delivered}
use skynet_server.Package.Flow.RoundTrip.{written, send_all, send_out-receive}
use skynet_server.Package.Flow.Counts.{data_messages}
use skynet_server.Package.Flow.Timer.{heartbeat_tick}

abbrev junk : Junk
junk = record {
  byte = 170;
  request = record { source = 0; session = pos 0 };
  response = record { sz = 0; msg = [] };
}

abbrev asker : Request
asker = record { source = 42; session = pos 7 }

abbrev ask_event : Event
ask_event = record { message = Message.text (codes "R"); from = asker }

abbrev bytes_event : Bytes → Event
bytes_event bs = record {
  message = Message.socket (record { type = SocketType.received; id = pos 3; buffer = bs });
  from = record { source = 0; session = pos 0 };
}

-- The packages 7 8 and 9, cut in the middle of each.
abbrev events : List Event
events =
    bytes_event (0 ∷ 2 ∷ 7 ∷ [])
    ∷ ask_event
    ∷ bytes_event (8 ∷ 0 ∷ [])
    ∷ bytes_event (1 ∷ 9 ∷ [])
    ∷ []

abbrev new : Package
new = package_create junk

-- A request that waits gets the package as soon as it is complete; the other package waits.
run-events :
    (P' : Package) × (run junk new events
      ≡ ok P' (
          free (0 ∷ 2 ∷ 7 ∷ [])
          ∷ free (8 ∷ 0 ∷ [])
          ∷ hand asker (7 ∷ 8 ∷ [])
          ∷ free (1 ∷ 9 ∷ [])
          ∷ []))
    × (ready junk P' ≡ (9 ∷ []) ∷ [])
unfolding run message_handler package_create queue_size queue_empty queue_push queue_pop
run-events = (_, refl, refl)

message_handler-serve_example :
    Refines junk
      (message_handler junk new (Message.text (codes "R")) (pos 7) 42)
      (serve (new.uncomplete.sz) (model junk new) (Message.text (codes "R")) asker)
message_handler-serve_example =
    message_handler-serve junk new (Message.text (codes "R")) (pos 7) 42
      (package_create-IsSound junk) tt

run-Delivered_example : Delivered junk new (stream_of events) (run junk new events)
run-Delivered_example =
    run-Delivered junk new events (package_create-IsSound junk) (tt, (tt, (tt, (tt, tt))))

abbrev two_messages : List Bytes
two_messages = (7 ∷ 8 ∷ []) ∷ (9 ∷ []) ∷ []

send_out-receive_example :
    (calls : List Effect) × (send_all new two_messages ≡ ok new calls)
    × ((evs : List Event)
        → AllCommands evs
        → stream_of evs ≡ written calls
        → (end : Package) × (answers : List Effect) × (run junk new evs ≡ ok end answers)
          × (packages answers ++ ready junk end ≡ two_messages)
          × (decoder end ≡ idle))
send_out-receive_example =
    send_out-receive junk new new two_messages (omega arith) (package_create-IsSound junk)
      (package_create-empty junk).0 (package_create-empty junk).1

new_message_lem_example :
    (P' : Package) × (new_message junk new (0 ∷ 2 ∷ 7 ∷ 8 ∷ 0 ∷ []) ≡ ok P' [])
    × Received junk (record new { recv = new.recv + 1 }) (0 ∷ 2 ∷ 7 ∷ 8 ∷ 0 ∷ []) P'
new_message_lem_example =
    new_message_lem junk new (0 ∷ 2 ∷ 7 ∷ 8 ∷ 0 ∷ []) (package_create-IsSound junk).fits

-- A queue that is about to grow: four cells, three elements, the ring turned by two.
abbrev turned : Queue ℕ
turned = record { cap = 4; head = 2; tail = 1; buffer = 12 ∷ 0 ∷ 10 ∷ 11 ∷ [] }

push-turned : contents 0 (queue_push 0 turned 13) ≡ 10 ∷ 11 ∷ 12 ∷ 13 ∷ []
unfolding queue_push
push-turned = refl

queue_push_refines_example :
    IsValid (queue_push 0 turned 13)
    × (contents 0 (queue_push 0 turned 13) ≡ contents 0 turned ++ (13 ∷ []))
queue_push_refines_example =
    queue_push_refines 0 turned 13
      (record { sized = refl; head_in = omega arith; tail_in = omega arith })

queue-View_example : View 0 turned
queue-View_example =
    queue-View 0 turned (record { sized = refl; head_in = omega arith; tail_in = omega arith })

heartbeat_tick_example :
    (Q : Package) × (heartbeat new ≡ ok Q (timeout timer_interval ∷ []))
    × (end : Package) × (calls : List Effect) × (run junk Q (ask_event ∷ []) ≡ ok end calls)
    × ((0 < data_messages (ask_event ∷ [])
          → (R : Package) × (heartbeat end ≡ ok R (timeout timer_interval ∷ [])))
        × (data_messages (ask_event ∷ []) ≡ 0
            → heartbeat end
              ≡ ok end (
                  if end.closed then [] else socket_shutdown new.fd ∷ log (timed_out new.fd) ∷ [])))
unfolding package_create
heartbeat_tick_example =
    heartbeat_tick junk new (ask_event ∷ []) (package_create-IsSound junk) (ground arith) (tt, tt)
      (tt, tt)

-- Two packages wait, and a third has one byte of three.
abbrev holding : Package
holding = record {
  manager = 9;
  fd = pos 3;
  heartbeat = pos 0;
  recv = 4;
  init = true;
  closed = false;
  header_sz = 0;
  header_0 = 0;
  header_1 = 3;
  uncomplete_sz = pos 2;
  uncomplete = record { sz = 3; msg = 5 ∷ 170 ∷ 170 ∷ [] };
  request = record { cap = 4; head = 0; tail = 0; buffer = asker ∷ asker ∷ asker ∷ asker ∷ [] };
  response = record {
    cap = 4;
    head = 3;
    tail = 1;
    buffer =
        record { sz = 0; msg = [] }
        ∷ record { sz = 0; msg = [] }
        ∷ record { sz = 0; msg = [] }
        ∷ record { sz = 2; msg = 7 ∷ 8 ∷ [] }
        ∷ [];
  };
}

package_init-View_example : skynet_server.Package.Handlers.Init.View junk 2 9 (pos 3)
package_init-View_example = package_init-View junk 2 9 (pos 3)
