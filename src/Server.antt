-- ===== src/Server.antt =====
-- `receive_data` of src/rsound-common.c: the server reads the stream of a connection and answers
-- its control requests in between. What the system answers in each pass of the loop is an argument.
pub mod Requests
pub mod Receive
pub mod Thread
pub mod Play
mod Tests
use rsound.Base.{
  ℕ, ◌+◌, ◌-◌, ◌^◌, Bool, true, false, Option, none, some, List, [], ◌∷◌, ◌++◌, ◌==◌, ltb, min,
  if◌then◌else◌, length, take, drop,
}
use rsound.Base.Int.{ℤ, pos, ◌+ℤ◌}
use rsound.Net.{packet_size}
use rsound.Proto.Serve.{
  Action, Connection, Served, End, ok, error, overrun, looping, Pass, handle_ctl_request,
}

-- The bits POLLIN and POLLHUP of a socket.
pub record Revents : Type 0 where
  pub pollin : Bool
  pub pollhup : Bool

-- What the system answers in one pass: whether `poll` succeeds, the bits of the two sockets, what
-- the control requests get, and how many bytes `recv` takes at most (`none` where it fails).
pub record Turn : Type 0 where
  pub polled : Bool
  pub on_data : Revents
  pub on_ctl : Revents
  pub requests : List Pass
  pub room : Option ℕ

-- What is returned: a size, or nothing where a control request overruns its buffer, or where the
-- loop has not ended with the last answer.
pub data Outcome : Type 0 where
  returned : ℕ → Outcome
  overran waiting : Outcome

-- After a call: the bytes stored, the connection, what was done on the sockets, and the bytes that
-- still wait in the two sockets.
pub record Receipt : Type 0 where
  pub outcome : Outcome
  pub buffer : List ℕ
  pub conn : Connection
  pub actions : List Action
  pub stream : List ℕ
  pub ctl_stream : List ℕ

-- The rest of the loop, from the bytes stored, the connection and the two sockets.
abbrev pub Rest : Type 0
Rest = List ℕ → Connection → List ℕ → List ℕ → Receipt

abbrev pub stop_with : Outcome → Rest
stop_with outcome got conn s c = record {
  outcome = outcome;
  buffer = got;
  conn = conn;
  actions = [];
  stream = s;
  ctl_stream = c;
}

-- `recv` of at most MAX_PACKET_SIZE bytes, which counts.
abbrev pub take_packet : Option ℕ → ℕ → Rest → Rest
take_packet none size continue got conn s c = stop_with (returned 0) got conn s c
take_packet (some room) size continue got conn s c =
    let rc = min (min room (length s)) (packet_size (size - length got)) in
    if rc == 0
    then stop_with (returned 0) got conn s c
    else continue (got ++ take rc s) (record conn { serv_ptr = conn.serv_ptr +ℤ pos rc })
        (drop rc s) c

-- The data socket.
abbrev pub on_data : Turn → ℕ → Rest → Rest
on_data t size continue got conn s c =
    if t.on_data.pollin
    then take_packet t.room size continue got conn s c
    else if t.on_data.pollhup
    then stop_with (returned 0) got conn s c
    else continue got conn s c

-- After `handle_ctl_request`: a negative result ends the call.
abbrev pub after_requests : Rest → List ℕ → List ℕ → Served → End → Receipt
after_requests continue got s r ok =
    let later = continue got r.conn s r.stream in
    record later { actions = r.actions ++ later.actions }
after_requests continue got s r error = record (stop_with (returned 0) got r.conn s r.stream) {
  actions = r.actions;
}
after_requests continue got s r overrun = record (stop_with overran got r.conn s r.stream) {
  actions = r.actions;
}
after_requests continue got s r looping = record (stop_with waiting got r.conn s r.stream) {
  actions = r.actions;
}

-- The control socket, if there is one; requests are answered where there is a backend's `data`.
abbrev pub on_ctl : Bool → Turn → Rest → Rest
on_ctl has_data t continue got conn s c =
    if conn.ctl_socket == 0
    then continue got conn s c
    else if t.on_ctl.pollin
    then (if has_data
        then (let r = handle_ctl_request t.requests conn c in after_requests continue got s r r.end)
        else continue got conn s c)
    else if t.on_ctl.pollhup
    then stop_with (returned 0) got conn s c
    else continue got conn s c

abbrev pub turn : Bool → ℕ → Turn → Rest → Rest
turn has_data size t continue got conn s c =
    if t.polled
    then on_ctl has_data t (on_data t size continue) got conn s c
    else stop_with (returned 0) got conn s c

-- `receive_data`, with the bytes `got` stored.
unfoldable pub receive_data : Bool → ℕ → List Turn → Rest
receive_data has_data size [] got conn s c =
    stop_with (if ltb (length got) size then waiting else returned (length got)) got conn s c
receive_data has_data size (t ∷ ts) got conn s c =
    if ltb (length got) size
    then turn has_data size t (receive_data has_data size ts) got conn s c
    else stop_with (returned (length got)) got conn s c
