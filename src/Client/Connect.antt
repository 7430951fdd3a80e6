-- ===== src/Client/Connect.antt =====
-- `rsnd_connect_socket`, `rsnd_connect_server`, `rsnd_create_connection` and `rsd_start` of
-- src/librsound/librsound.c, on a POSIX system without DECnet.
use rsound.Base.{
  ℕ, Bool, true, false, ◌&&◌, not, Option, none, some, List, [], ◌∷◌, ◌++◌, ◌==◌, if◌then◌else◌,
  ltb, length, map,
}
use Prim.Native.Nat.{bit_and}
use rsound.Base.Int.{ℤ}
use rsound.Wav.Encode.{Params, header_of}
use rsound.Net.{
  Event, interrupted, poll_failed, polled, pending, failed, returned, Sent, send_chunk,
}
use rsound.Client.{Rsound, Result, Call, send, start_thread, stop}
use rsound.Client.Handshake
use rsound.Client.Handshake.{conn_proto, get_backend_info}
use rsound.Client.Text.{identity_text}

-- Whether a poll for POLLOUT reports it; `rsnd_poll` failing and no POLLOUT end the same way.
abbrev pub poll_out : List Event → Option Bool
poll_out [] = none
poll_out (interrupted ∷ es) = poll_out es
poll_out (poll_failed ∷ es) = some false
poll_out (polled out hup io ∷ es) = some out

-- What the system answers while a socket connects: to `fcntl`, to `connect` (EINPROGRESS counts as
-- success), and to `poll`.
pub record Dialing : Type 0 where
  pub nonblocking : Bool
  pub connecting : Bool
  pub polls : List Event

-- `rsnd_connect_socket`
abbrev pub connect_socket : Dialing → Option Bool
connect_socket a = if a.nonblocking && a.connecting then poll_out a.polls else some false

-- The answers to `rsnd_connect_server`: `getaddrinfo`, two calls of `socket`, two connections.
pub record Dial : Type 0 where
  pub resolved : Bool
  pub socket : Option ℕ
  pub ctl_socket : Option ℕ
  pub first : Dialing
  pub second : Dialing

-- Whether the host is a path: a Unix socket.
abbrev pub is_path : Option (List ℕ) → Bool
is_path (some (c ∷ s)) = c == b'/'
is_path _ = false

abbrev pub is_open : Option ℕ → Bool
is_open none = false
is_open (some fd) = true

-- The control socket is connected after the data socket is.
abbrev pub both_connected : Option Bool → Dialing → Option Bool
both_connected none ctl = none
both_connected (some false) ctl = some false
both_connected (some true) ctl = connect_socket ctl

abbrev pub answer : Rsound → Option Bool → Option (Bool × Rsound)
answer rd none = none
answer rd (some rc) = some (rc, rd)

-- `rsnd_connect_server`
unfoldable pub connect_server : Dial → Rsound → Option (Bool × Rsound)
connect_server a rd =
    let rd1 = record rd { conn_type = if is_path rd.host then 1 else 0 } in
    let rd2 = record rd1 { socket = a.socket; ctl_socket = a.ctl_socket } in
    if not (is_path rd.host) && not a.resolved
    then some (false, rd1)
    else if is_open a.socket && is_open a.ctl_socket
    then answer rd2 (both_connected (connect_socket a.first) a.second)
    else some (false, rd2)

-- All that the system answers to `rsnd_create_connection`, and the bytes that arrive.
pub record Answers : Type 0 where
  pub little : Bool
  pub dial : Dial
  pub ready : List Event
  pub header_ok : Bool
  pub header_sends : List Event
  pub info : Handshake.Answers
  pub stream : List ℕ
  pub thread_rc : ℤ
  pub identity_sends : List Event
  pub stop_sends : List Event

-- The error exit: `rsd_stop`, then -1.
unfoldable pub give_up : Answers → Rsound → List Call → Option Result
give_up a rd calls = let (rd1, more) = stop a.stop_sends rd in some (false, rd1, calls ++ more)

abbrev pub sends_on : Option ℕ → List (List ℕ) → List Call
sends_on fd packets = map (send fd) packets

-- The identity goes out if the server speaks the protocol and there is one; errors do not count.
abbrev pub announce : Answers → Rsound → List Call
announce a rd =
    if (bit_and rd.conn_type conn_proto == conn_proto) && ltb 0 (length rd.identity)
    then sends_on rd.ctl_socket (send_chunk false (identity_text rd.identity) 0 a.identity_sends).1
    else []

-- From the result of `rsnd_start_thread` on.
abbrev pub started : Answers → List Call → Result → Option Result
started a calls (false, rd, more) = give_up a rd (calls ++ more)
started a calls (true, rd, more) =
    some (true, record rd { ready_for_data = true }, calls ++ (more ++ announce a rd))

-- From the result of `rsnd_get_backend_info` on.
abbrev pub informed : Answers → List Call → Option (Bool × Rsound) → Option Result
informed a calls none = none
informed a calls (some (false, rd)) = give_up a rd calls
informed a calls (some (true, rd)) = started a calls (start_thread a.thread_rc rd)

-- From the result of sending the 44 bytes on.
abbrev pub header_sent : Answers → Rsound → Sent → Option Result
header_sent a rd (pending, packets) = none
header_sent a rd (failed, packets) = give_up a rd (sends_on rd.socket packets)
header_sent a rd (returned n, packets) =
    if n == 44
    then informed a (sends_on rd.socket packets) (get_backend_info a.little a.info a.stream rd)
    else give_up a rd (sends_on rd.socket packets)

abbrev pub params_of : Rsound → Params
params_of rd = record { rate = rd.rate; channels = rd.channels; format = rd.format }

-- The second half of `rsnd_create_connection`, with `rsnd_send_header_info`.
abbrev pub handshake : Answers → Rsound → Option Result
handshake a rd =
    if rd.ready_for_data
    then some (true, rd, [])
    else if a.header_ok
    then header_sent a rd (send_chunk true (header_of a.little (params_of rd)) 0 a.header_sends)
    else give_up a rd []

abbrev pub polled_ready : Answers → Rsound → Option Bool → Option Result
polled_ready a rd none = none
polled_ready a rd (some false) = give_up a rd []
polled_ready a rd (some true) = handshake a rd

abbrev pub connected : Answers → Option (Bool × Rsound) → Option Result
connected a none = none
connected a (some (false, rd)) = give_up a rd []
connected a (some (true, rd)) = polled_ready a rd (poll_out a.ready)

-- `fd <= 0`
abbrev pub not_positive : Option ℕ → Bool
not_positive none = true
not_positive (some fd) = fd == 0

-- `rsnd_create_connection`
unfoldable pub create_connection : Answers → Rsound → Option Result
create_connection a rd =
    if not_positive rd.socket && not_positive rd.ctl_socket
    then connected a (connect_server a.dial rd)
    else handshake a rd

-- `rsd_start`, whose result is that of the connection; a failed assertion is `none`.
unfoldable pub start : Answers → Rsound → Option Result
start a rd =
    if ltb 0 rd.rate && ltb 0 rd.channels
    then elim rd.host [
      | none ↦ none
      | some h ↦ elim rd.port [ none ↦ none | some p ↦ create_connection a rd ]
    ]
    else none
