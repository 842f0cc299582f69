-- ===== src/Exchange/Downstream.antt =====
-- From the server to the client: frames that `lpack` makes, and `lrecv` for each.
use skynet_server.Common.{
  ℕ, zero, suc, ◌≤◌, ◌≡◌, refl, ap, ◌∙◌, none, List, [], ◌∷◌, ◌++◌, append_assoc, arith, length,
}
use skynet_server.Common.Bytes.{Bytes}
use skynet_server.Netpack.Frame.{lpack, decode_wsmask_data}
use skynet_server.Netpack.Frame.Wire.{lpack_lem}
use skynet_server.Client.Socket.{Step, left_over, cache_size}
use skynet_server.Client.Receive.{
  Received, message, no_message, stream_end, socket_error, out_of_bounds, waits, out_of_fuel, lrecv,
}
use skynet_server.Client.Receive.Frame.{lrecv-frame}

-- The frames of messages, one behind the other.
abbrev pub packed : List Bytes → Bytes
packed [] = []
packed (msg ∷ messages) = lpack msg ++ packed messages

abbrev pub AllFit : List Bytes → Type 0
AllFit [] = Unit
AllFit (msg ∷ messages) = (length msg ≤ cache_size) × AllFit messages

abbrev pub then_more :
    (List Step → List Bytes × List Step) → List Step → Received → List Bytes × List Step
then_more next script (message msg left) = let r = next left in (msg ∷ r.0, r.1)
then_more next script no_message = ([], script)
then_more next script stream_end = ([], script)
then_more next script socket_error = ([], script)
then_more next script out_of_bounds = ([], script)
then_more next script waits = ([], script)
then_more next script out_of_fuel = ([], script)

module _ (junk : ℕ) where
  -- `lrecv` for `n` messages, while it gives some, and what is left to arrive.
  abbrev pub receive : ℕ → List Step → List Bytes × List Step
  receive zero script = ([], script)
  receive (suc n) script = then_more (receive n) script (lrecv junk script)

  lrecv-lpack :
      (msg rest : Bytes) (script : List Step)
      → length msg ≤ cache_size
      → lrecv junk (left_over (lpack msg ++ rest) script) ≡ message msg (left_over rest script)
  unfolding decode_wsmask_data
  lrecv-lpack msg rest script h =
      ap (λ b. lrecv junk (left_over (b ++ rest) script)) (lpack_lem msg)
      ∙ lrecv-frame junk 2 none msg rest script (omega arith) refl h

  -- Messages of at most 4096 bytes, each packed by `lpack`, that arrive together, with anything behind
  -- them: the client that calls `lrecv` as often as there are messages gets them in their order, and
  -- what stands behind them is left.
  pub lpack-receive :
      (messages : List Bytes) (rest : Bytes) (script : List Step)
      → AllFit messages
      → receive (length messages) (left_over (packed messages ++ rest) script)
        ≡ (messages, left_over rest script)
  lpack-receive [] rest script h = refl
  lpack-receive (msg ∷ messages) rest script (h, more) =
      ap (λ b. receive (suc (length messages)) (left_over b script))
        (append_assoc (lpack msg) (packed messages) rest)
      ∙ ap
          (then_more (receive (length messages))
            (left_over (lpack msg ++ (packed messages ++ rest)) script))
          (lrecv-lpack msg (packed messages ++ rest) script h)
      ∙ ap (λ r. (msg ∷ r.0, r.1)) (lpack-receive messages rest script more)
