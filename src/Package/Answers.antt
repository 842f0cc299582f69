-- ===== src/Package/Answers.antt =====
-- `response` and `service_exit` of service_package.c: what happens to the requests that wait.
use skynet_server.Common.{ℕ, zero, suc, ◌+◌, true, false, ◌||◌, none, some, [], ◌∷◌, take}
use skynet_server.Common.Bytes.{codes}
use skynet_server.Common.Int.{pos}
use skynet_server.Package.Queue.{queue_empty, queue_size, queue_pop}
use skynet_server.Package.Types.{
  Package, Request, Response, Junk, Ptype, Effect, Run, ok, fault, out_of_fuel, send, exit, after,
  and_then, emit,
}

-- A response handed to the request that asked for it.
abbrev pub reply_with : Request → Response → Effect
reply_with req resp = send req.source Ptype.response true req.session (take resp.sz resp.msg)

abbrev pub refuse : Request → Effect
refuse req = send req.source Ptype.error false req.session []

module _ (J : Junk) where
  -- Each round answers a request, so one more round than there are requests is enough.
  unfoldable pub response_loop : ℕ → Package → Run
  response_loop zero P = out_of_fuel
  response_loop (suc f) P = elim (queue_empty P.request || queue_empty P.response) [
    | true ↦ ok P []
    | false ↦ elim (queue_pop J.request P.request) [
      | none ↦ fault
      | some (req, requests) ↦ elim (queue_pop J.response P.response) [
        | none ↦ fault
        | some (resp, responses) ↦
            after (reply_with req resp ∷ [])
              (response_loop f (record P { request = requests; response = responses }))
      ]
    ]
  ]

  unfoldable pub response : Package → Run
  unfolding response_loop
  response P = response_loop (queue_size P.request + 1) P

  unfoldable pub exit_loop : ℕ → Package → Run
  exit_loop zero P = out_of_fuel
  exit_loop (suc f) P = elim (queue_empty P.request) [
    | true ↦ ok P []
    | false ↦ elim (queue_pop J.request P.request) [
      | none ↦ fault
      | some (req, requests) ↦
          after (refuse req ∷ []) (exit_loop f (record P { request = requests }))
    ]
  ]

  unfoldable pub service_exit : Package → Run
  unfolding exit_loop
  service_exit P =
      and_then (exit_loop (queue_size P.request + 1) (record P { closed = true }))
        (emit (send P.manager Ptype.text false (pos 0) (codes "CLOSED") ∷ exit ∷ []))
