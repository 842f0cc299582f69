-- ===== src/Client/Tests.antt =====
-- The web socket client at concrete inputs.
use skynet_server.Client.Socket.{Step, select_times_out}
use skynet_server.Client.Receive.{waits}
use skynet_server.Common.{
  ◌≡◌, ◌≢◌, refl, some, List, [], ◌∷◌, ◌++◌, arith, take, replicate, length-replicate,
}
use skynet_server.Common.Bytes.{Bytes, codes}
use skynet_server.Netpack.Frame.{decode_wsmask_data}
use skynet_server.Netpack.Frame.Wire.{wire}
use skynet_server.Netpack.Frame.Unmask.{payload}
use skynet_server.Client.Socket.{
  Sending, accepts, send_again, arrives, recv_again, readable, left_over,
}
use skynet_server.Client.Send.{all_sent, sent, websocket_block_send}
use skynet_server.Client.Receive.{message, out_of_fuel, complete, block_read, lrecv}
use skynet_server.Client.Receive.Frame.{lrecv-frame, block_read-pieces}
use skynet_server.Client.Receive.Fuel.{lrecv-ends}
use skynet_server.Client.Stdin.{LineQueue, line_queue_size, IsValid, View, lreadstdin-View}

-- The system takes the frame in pieces.
abbrev sendings : List Sending
sendings = accepts 1 ∷ send_again ∷ accepts 2 ∷ accepts 9 ∷ []

run-send : websocket_block_send sendings (codes "hi") ≡ sent all_sent (132 ∷ 2 ∷ 104 ∷ 105 ∷ [])
unfolding websocket_block_send
run-send = refl

-- "Hi" with the mask 1 2 3 4, and the first byte of the next frame.
lrecv-frame_example :
    lrecv 170 (left_over (wire 1 (some (1 ∷ 2 ∷ 3 ∷ 4 ∷ [])) (73 ∷ 107 ∷ []) ++ (130 ∷ [])) [])
    ≡ message
        (payload (some (1 ∷ 2 ∷ 3 ∷ 4 ∷ [])) (73 ∷ 107 ∷ []))
        (readable (arrives (130 ∷ [])) ∷ [])
lrecv-frame_example =
    lrecv-frame 170 1 (some (1 ∷ 2 ∷ 3 ∷ 4 ∷ [])) (73 ∷ 107 ∷ []) (130 ∷ []) [] (omega arith) refl
      (omega arith)

payload-Hi : payload (some (1 ∷ 2 ∷ 3 ∷ 4 ∷ [])) (73 ∷ 107 ∷ []) ≡ codes "Hi"
unfolding decode_wsmask_data
payload-Hi = refl

block_read-pieces_example :
    (stored : Bytes) × (block_read
        (readable (arrives (1 ∷ 2 ∷ [])) ∷ readable (arrives (3 ∷ [])) ∷ [])
        3
        (0 ∷ 0 ∷ 0 ∷ 0 ∷ [])
      ≡ complete stored [])
    × (take 1 stored ≡ 3 ∷ [])
block_read-pieces_example =
    block_read-pieces 1 (2 ∷ []) (3 ∷ []) [] [] (0 ∷ 0 ∷ 0 ∷ 0 ∷ []) (omega arith) (omega arith)

abbrev no_lines : LineQueue
no_lines = record { head = 1023; tail = 1023; queue = replicate line_queue_size [] }

no_lines-IsValid : IsValid no_lines
no_lines-IsValid = record {
  sized = length-replicate {A = Bytes} line_queue_size [];
  head_in = omega arith;
  tail_in = omega arith;
}

lreadstdin-View_example : View no_lines
lreadstdin-View_example = lreadstdin-View no_lines no_lines-IsValid

-- A byte, an interruption, and then nothing more in time.
abbrev stopping : List Step
stopping = readable (arrives (64 ∷ 1 ∷ 2 ∷ [])) ∷ readable recv_again ∷ select_times_out ∷ []

lrecv-ends_example : (lrecv 170 stopping ≢ waits) × (lrecv 170 stopping ≢ out_of_fuel)
lrecv-ends_example = lrecv-ends 170 stopping tt
