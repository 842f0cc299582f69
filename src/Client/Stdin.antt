-- ===== src/Client/Stdin.antt =====
-- The lines of the standard input in lua-clientwebsocket.c: `readline_stdin` puts them in a ring and
-- `lreadstdin` takes them out.
use skynet_server.Common.{
  ℕ, ◌+◌, ◌-◌, ◌<◌, ◌≡◌, refl, ap, ◌∙◌, inl, inr, Option, none, some, List, [], ◌∷◌, ◌++◌, arith,
  length, take, get_or, set, leb, ◌==◌, if◌then◌else◌, Bool-cases,
}
use skynet_server.Common.Bytes.{Bytes}
use skynet_server.Common.Ring.{advance, distance, window, window_of_lt}

-- `struct queue`, whose lock makes each operation one step.
pub record LineQueue : Type 0 where
  pub head : ℕ
  pub tail : ℕ
  pub queue : List Bytes

-- QUEUE_SIZE
abbrev pub line_queue_size : ℕ
line_queue_size = 1024

-- One round of `readline_stdin`, with what `fgets` has read, which is not empty: the last byte is
-- dropped. `none`: the queue is full and the program exits.
unfoldable pub readline_stdin : LineQueue → Bytes → Option LineQueue
readline_stdin q tmp =
    let tail : ℕ = if leb line_queue_size (q.tail + 1) then 0 else q.tail + 1 in
    if q.head == tail
    then none
    else some (record q { tail = tail; queue = set q.queue q.tail (take (length tmp - 1) tmp) })

unfoldable pub lreadstdin : LineQueue → Option (Bytes × LineQueue)
lreadstdin q =
    if q.head == q.tail
    then none
    else some (
      get_or q.queue q.head [],
      record q { head = if leb line_queue_size (q.head + 1) then 0 else q.head + 1 },
    )

pub record IsValid (q : LineQueue) : Type 0 where
  pub sized : length q.queue ≡ line_queue_size
  pub head_in : q.head < line_queue_size
  pub tail_in : q.tail < line_queue_size

-- The lines that wait, oldest first.
abbrev pub lines : LineQueue → List Bytes
lines q = window [] q.queue line_queue_size q.head (distance line_queue_size q.head q.tail)

-- What reading a line must do, by whether there is room.
pub data LineView (q : LineQueue) (tmp : Bytes) : Type 0 where
  exits : readline_stdin q tmp ≡ none → length (lines q) ≡ line_queue_size - 1 → LineView q tmp
  queued :
      (r : LineQueue)
      → readline_stdin q tmp ≡ some r
      → lines r ≡ lines q ++ (take (length tmp - 1) tmp ∷ [])
      → IsValid r
      → LineView q tmp

-- The two ways that `lreadstdin` ends.
pub data View (q : LineQueue) : Type 0 where
  no_line : lreadstdin q ≡ none → lines q ≡ [] → View q
  first_line :
      (line : Bytes) (r : LineQueue)
      → lreadstdin q ≡ some (line, r)
      → lines q ≡ line ∷ lines r
      → IsValid r
      → View q

-- On a valid queue `lreadstdin` gives nothing if no line waits, and otherwise the first line that waits
-- and a valid queue of the others.
pub lreadstdin-View : (q : LineQueue) → IsValid q → View q
unfolding lreadstdin
lreadstdin-View q v = elim (Bool-cases (q.head == q.tail)) [
  | inl same ↦ no_line (rw same refl) (ground (arith, window_zero))
  | inr differ ↦
      first_line (get_or q.queue q.head []) (record q { head = advance line_queue_size q.head })
        (rw differ refl)
        (window_of_lt [] q.queue line_queue_size q.head (distance line_queue_size q.head q.tail)
            (ground (arith, v.head_in, v.tail_in))
          ∙ ap
              (λ n.
                get_or q.queue q.head []
                ∷ window [] q.queue line_queue_size (advance line_queue_size q.head) n)
              {y = distance line_queue_size (advance line_queue_size q.head) q.tail}
              (ground (arith, v.head_in, v.tail_in)))
        (record { sized = v.sized; head_in = ground (arith, v.head_in); tail_in = v.tail_in })
]
  where
    window_zero : window [] q.queue line_queue_size q.head 0 ≡ []
    window_zero = refl
