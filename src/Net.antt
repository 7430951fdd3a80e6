-- ===== src/Net.antt =====
-- The loops that move bytes over a socket: `rsnd_send_chunk`, `rsnd_recv_chunk` and `rsnd_poll`
-- of src/librsound/librsound.c, and `write_all` of src/client.c. What the operating system
-- answers is a script, an answer to each call of `poll` in order with what the following `send`
-- or `recv` would do; a loop that waits for an answer after the last one is `pending`.
pub mod Send
pub mod Recv
mod Tests
use rsound.Base.{
  ℕ, ◌+◌, ◌-◌, Bool, true, false, Option, none, some, List, [], ◌∷◌, ◌++◌, min, ltb, if◌then◌else◌,
  length, take, drop, ◌==◌, bytes_at,
}

-- `poll` failing with EINTR, or for another reason, or returning the two bits of `revents` that
-- the loops test (POLLOUT or POLLIN, and POLLHUP). With the bits comes how many bytes the call
-- that follows can move, or `none` where that call fails.
pub data Event : Type 0 where
  interrupted : Event
  poll_failed : Event
  polled : Bool → Bool → Option ℕ → Event

-- What a loop returns, all its negative results being `failed`.
pub data Outcome : Type 0 where
  pending : Outcome
  failed : Outcome
  returned : ℕ → Outcome

abbrev pub max_packet : ℕ
max_packet = 1024

-- The size handed to `send` or `recv` with `left` bytes to go.
abbrev pub packet_size : ℕ → ℕ
packet_size left = if ltb max_packet left then max_packet else left

-- The packets that a send loop hands over, with its result.
abbrev pub Sent : Type 0
Sent = Outcome × List (List ℕ)

-- `while (done < size)`
abbrev pub while_below : ℕ → ℕ → Sent → Sent
while_below done size body = if ltb done size then body else (returned done, [])

-- `rsnd_send_chunk` with `wrote` bytes of `buf` sent. The clause of `interrupted` is the loop in
-- `rsnd_poll`.
unfoldable pub send_chunk : Bool → List ℕ → ℕ → List Event → Sent
send_chunk blocking buf wrote [] = while_below wrote (length buf) (pending, [])
send_chunk blocking buf wrote (interrupted ∷ es) =
    while_below wrote (length buf) (send_chunk blocking buf wrote es)
send_chunk blocking buf wrote (poll_failed ∷ es) = while_below wrote (length buf) (failed, [])
send_chunk blocking buf wrote (polled true hup none ∷ es) =
    while_below wrote (length buf) (failed, [])
send_chunk blocking buf wrote (polled true hup (some room) ∷ es) =
    let rc = min room (packet_size (length buf - wrote)) in
    let rest = send_chunk blocking buf (wrote + rc) es in
    while_below wrote (length buf) (rest.0, bytes_at buf wrote rc ∷ rest.1)
send_chunk blocking buf wrote (polled false true io ∷ es) =
    while_below wrote (length buf) (failed, [])
send_chunk blocking buf wrote (polled false false io ∷ es) =
    while_below wrote (length buf) (if blocking then failed else returned wrote, [])

-- The bytes that a receive loop stored, and those it left in the stream.
pub record Received : Type 0 where
  pub outcome : Outcome
  pub buffer : List ℕ
  pub stream : List ℕ

-- A loop that stops with what it has stored.
abbrev pub stopped : Outcome → List ℕ → List ℕ → Received
stopped o got s = record { outcome = o; buffer = got; stream = s }

-- `while (has_read < size)`
abbrev pub while_short : ℕ → List ℕ → List ℕ → Received → Received
while_short size got s body =
    if ltb (length got) size then body else stopped (returned (length got)) got s

-- What `rsnd_recv_chunk` returns for `recv` taking nothing: the server closed its side, and the
-- result is 0, whatever was stored before.
abbrev pub closed : List ℕ → List ℕ → Received
closed got s = stopped (returned 0) got s

-- `rsnd_recv_chunk` with the bytes `got` stored: `recv` takes `rc` bytes off the stream.
unfoldable pub recv_chunk : Bool → ℕ → List ℕ → List ℕ → List Event → Received
recv_chunk blocking size got s [] = while_short size got s (stopped pending got s)
recv_chunk blocking size got s (interrupted ∷ es) =
    while_short size got s (recv_chunk blocking size got s es)
recv_chunk blocking size got s (poll_failed ∷ es) = while_short size got s (stopped failed got s)
recv_chunk blocking size got s (polled true hup none ∷ es) =
    while_short size got s (stopped failed got s)
recv_chunk blocking size got s (polled true hup (some room) ∷ es) =
    let rc = min (min room (length s)) (packet_size (size - length got)) in
    let rest = recv_chunk blocking size (got ++ take rc s) (drop rc s) es in
    while_short size got s (if rc == 0 then closed got s else rest)
recv_chunk blocking size got s (polled false true io ∷ es) =
    while_short size got s (stopped failed got s)
recv_chunk blocking size got s (polled false false io ∷ es) =
    while_short size got s (stopped (if blocking then failed else returned (length got)) got s)

-- `write_all`: there is no `poll`, the whole rest is offered, and a result of 0 ends the loop too.
unfoldable pub write_all : List ℕ → ℕ → List (Option ℕ) → Sent
write_all buf done [] = while_below done (length buf) (pending, [])
write_all buf done (none ∷ es) = while_below done (length buf) (failed, [])
write_all buf done (some room ∷ es) =
    let rc = min room (length buf - done) in
    let rest = write_all buf (done + rc) es in
    while_below done (length buf)
      (if rc == 0 then (returned 0, []) else (rest.0, bytes_at buf done rc ∷ rest.1))

-- What the kernel has of a send loop's packets.
unfoldable pub flatten : List (List ℕ) → List ℕ
flatten [] = []
flatten (p ∷ ps) = p ++ flatten ps
