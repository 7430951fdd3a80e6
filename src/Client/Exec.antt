-- ===== src/Client/Exec.antt =====
-- `rsd_exec` with `rsnd_close_ctl`, `rsd_pause` and `rsd_simple_start` of
-- src/librsound/librsound.c. What `poll` says comes as the events of Net.
use Prim.Native.Nat.{bit_and}
use rsound.Base.{
  ℕ, ◌-◌, Bool, true, false, ◌&&◌, Option, none, some, List, [], ◌∷◌, ◌++◌, ◌==◌, ltb, min,
  if◌then◌else◌, length, take, drop, memcpy, replicate, map,
}
use rsound.Base.Int.{ℤ, pos}
use rsound.Format.{Format, code}
use rsound.Fifo
use rsound.Net.{
  Event, interrupted, poll_failed, polled, pending, failed, returned, Sent, send_chunk,
}
use rsound.Proto.{strstr}
use rsound.Proto.Serve.{c_string}
use rsound.Client.{Rsound, Result, Call, close, send, start_thread, stop_thread, stop}
use rsound.Client.Param.{
  Setting, host, port, identity, samplerate, channels, format, set_param, init,
}
use rsound.Client.Handshake.{conn_proto}
use rsound.Client.Connect.{Answers, start}

-- "RSD    9 CLOSECTL"
abbrev pub closectl_text : List ℕ
closectl_text =
    b'R' ∷ b'S' ∷ b'D' ∷ b' ' ∷ b' ' ∷ b' ' ∷ b' ' ∷ b'9' ∷ b' ' ∷ b'C' ∷ b'L' ∷ b'O' ∷ b'S' ∷ b'E'
    ∷ b'C' ∷ b'T' ∷ b'L' ∷ []

-- "RSD   12 CLOSECTL OK" and "RSD   15 CLOSECTL ERROR"
abbrev pub closectl_answer : ℕ → ℕ → List ℕ → List ℕ
closectl_answer tens ones word =
    b'R' ∷ b'S' ∷ b'D' ∷ b' ' ∷ b' ' ∷ b' ' ∷ tens ∷ ones ∷ b' ' ∷ b'C' ∷ b'L' ∷ b'O' ∷ b'S' ∷ b'E'
    ∷ b'C' ∷ b'T' ∷ b'L' ∷ b' ' ∷ word

abbrev pub closectl_ok : List ℕ
closectl_ok = closectl_answer b'1' b'2' (b'O' ∷ b'K' ∷ [])

abbrev pub closectl_error : List ℕ
closectl_error = closectl_answer b'1' b'5' (b'E' ∷ b'R' ∷ b'R' ∷ b'O' ∷ b'R' ∷ [])

-- `strrchr(s, 'R')`
abbrev pub or_else : Option (List ℕ) → Option (List ℕ) → Option (List ℕ)
or_else (some s) t = some s
or_else none t = t

abbrev pub last_r : List ℕ → Option (List ℕ)
last_r [] = none
last_r (c ∷ s) = or_else (last_r s) (if c == b'R' then some (c ∷ s) else none)

-- `buf` and `index` after a read in which no answer is found: the text from the last R on moves to
-- the front with its NUL.
abbrev pub keep_tail : List ℕ → Option (List ℕ) → List ℕ × ℕ
keep_tail buf none = (buf, 0)
keep_tail buf (some subchar) = (memcpy buf 0 (subchar ++ (0 ∷ [])), length subchar)

-- How the reading of the answer ends: it is found, or -1, or `poll` has not answered.
pub data Closing : Type 0 where
  closed refused waiting : Closing

-- The text in `buf` after a read, `continue` being the rest of the loop.
abbrev pub after_recv : (List ℕ × ℕ → Closing × List ℕ) → List ℕ → List ℕ → Closing × List ℕ
after_recv continue buf s =
    let text = c_string buf in
    if strstr closectl_ok text
    then (closed, s)
    else if strstr closectl_error text
    then (refused, s)
    else continue (keep_tail buf (last_r text))

-- The loop that reads the answer into the 512 bytes of `buf`.
unfoldable pub await_answer : List Event → List ℕ → List ℕ × ℕ → Closing × List ℕ
await_answer [] s b = (waiting, s)
await_answer (interrupted ∷ es) s b = await_answer es s b
await_answer (poll_failed ∷ es) s b = (refused, s)
await_answer (polled readable true io ∷ es) s b = (closed, s)
await_answer (polled false false io ∷ es) s b = (refused, s)
await_answer (polled true false none ∷ es) s b = (refused, s)
await_answer (polled true false (some room) ∷ es) s (buf, index) =
    let rc = min (min room (length s)) (511 - index) in
    if rc == 0
    then (refused, s)
    else after_recv (await_answer es (drop rc s)) (memcpy buf index (take rc s)) (drop rc s)

-- The first `poll`, for writing: `none` while it waits; whether to go on; what is returned if not;
-- and what is sent.
abbrev pub ask_close : List Event → Option ℕ → Option (Bool × Bool × List Call)
ask_close [] ctl = none
ask_close (interrupted ∷ es) ctl = ask_close es ctl
ask_close (poll_failed ∷ es) ctl = some (false, false, [])
ask_close (polled true hup none ∷ es) ctl = some (false, false, [])
ask_close (polled true hup (some room) ∷ es) ctl =
    some (true, true, send ctl (take room closectl_text) ∷ [])
ask_close (polled false true io ∷ es) ctl = some (false, true, [])
ask_close (polled false false io ∷ es) ctl = some (true, true, [])

-- What the system answers to `rsd_exec` on a connected client, and what comes on the control
-- socket.
pub record Handover : Type 0 where
  pub ask : List Event
  pub answers : List Event
  pub ctl_stream : List ℕ
  pub flags_read : Bool
  pub flags_set : Bool
  pub thread_rc : ℤ
  pub sends : List Event

abbrev pub answered : Option ℕ → List Call → Closing × List ℕ → Option (Bool × List Call)
answered ctl calls (closed, s) = some (true, calls ++ (close ctl ∷ []))
answered ctl calls (refused, s) = some (false, calls)
answered ctl calls (waiting, s) = none

abbrev pub asked :
    Handover → Option ℕ → Option (Bool × Bool × List Call) → Option (Bool × List Call)
asked a ctl none = none
asked a ctl (some (false, result, calls)) = some (result, calls)
asked a ctl (some (true, result, calls)) =
    answered ctl calls (await_answer a.answers a.ctl_stream (replicate 512 0, 0))

-- `rsnd_close_ctl`: whether 0 is returned, and the calls made; `none` while it waits.
unfoldable pub close_ctl : Handover → Rsound → Option (Bool × List Call)
close_ctl a rd =
    if bit_and rd.conn_type conn_proto == 0
    then some (false, [])
    else asked a rd.ctl_socket (ask_close a.ask rd.ctl_socket)

-- What `rsd_exec` returns, the client after it where it is not freed, and the calls made.
abbrev pub Executed : Type 0
Executed = Option (Option ℕ × Option Rsound × List Call)

-- The result of sending what the FIFO holds.
abbrev pub flushed : Option ℕ → Rsound → ℕ → List Call → Sent → Executed
flushed fd rd size calls (pending, packets) = none
flushed fd rd size calls (failed, packets) =
    some (none, some rd, calls ++ (map (send fd) packets ++ (close fd ∷ [])))
flushed fd rd size calls (returned n, packets) =
    if n == size
    then some (fd, none, calls ++ map (send fd) packets)
    else some (none, some rd, calls ++ (map (send fd) packets ++ (close fd ∷ [])))

abbrev pub flush_read :
    Handover → Option ℕ → Rsound → List Call → Option (List ℕ × Fifo.Fifo) → Executed
flush_read a fd rd calls none = none
flush_read a fd rd calls (some (buffer, f)) =
    flushed fd (record rd { fifo_buffer = some f }) (length buffer) calls
      (send_chunk true buffer 0 a.sends)

-- A missing FIFO is a null pointer.
abbrev pub flush : Handover → Option ℕ → Rsound → List Call → Option Fifo.Fifo → Executed
flush a fd rd calls none = none
flush a fd rd calls (some f) =
    if ltb 0 (Fifo.read_avail f)
    then flush_read a fd rd calls (Fifo.read f (Fifo.read_avail f))
    else some (fd, none, calls)

-- From the end of the control connection on: the thread is stopped, and the socket made blocking.
abbrev pub hand_over : Handover → Rsound → Option (Bool × List Call) → Executed
hand_over a rd none = none
hand_over a rd (some (false, calls)) = some (none, some rd, calls)
hand_over a rd (some (true, calls)) =
    let (rd1, joins) = stop_thread rd in
    if a.flags_read && a.flags_set
    then flush a rd.socket rd1 (calls ++ joins) rd1.fifo_buffer
    else (let (created, rd2, more) = start_thread a.thread_rc rd1 in
        some (none, some rd2, calls ++ (joins ++ more)))

abbrev pub exec_started : Handover → Option Result → Executed
exec_started a none = none
exec_started a (some (false, rd, calls)) = some (none, some rd, calls)
exec_started a (some (true, rd, calls)) = elim (hand_over a rd (close_ctl a rd)) [
  | none ↦ none
  | some (fd, rd1, more) ↦ some (fd, rd1, calls ++ more)
]

-- `rsd_exec`, which starts a client that is not connected.
unfoldable pub exec : Answers → Handover → Rsound → Executed
exec s a rd = elim rd.socket [
  | none ↦ exec_started a (start s rd)
  | some fd ↦ hand_over a rd (close_ctl a rd)
]

-- `rsd_pause`, whose result is that of `rsd_stop` or `rsd_start`.
unfoldable pub pause : Answers → List Event → Bool → Rsound → Option Result
pause a es true rd = let (rd1, calls) = stop es rd in some (true, rd1, calls)
pause a es false rd = start a rd

-- A setting that is passed if its pointer is not null.
abbrev pub if_given : (List ℕ → Setting) → Option (List ℕ) → Rsound → Rsound
if_given setting none rd = rd
if_given setting (some s) rd = (set_param rd (setting s)).1

-- The client of `rsd_simple_start` before it is started; `none` where a parameter is refused. The
-- settings after a refused one are not made.
abbrev pub configured : ℤ → ℤ → Format → Rsound → Option Rsound
configured rate count fmt rd =
    let (ok1, rd1, _) = set_param rd (samplerate rate) in
    let (ok2, rd2, _) = set_param rd1 (channels count) in
    let (ok3, rd3, _) = set_param rd2 (format (pos (code fmt))) in
    if ok1 && ok2 && ok3 then some rd3 else none

abbrev pub only_started : Option Result → Option (Option Rsound × List Call)
only_started none = none
only_started (some (false, rd, calls)) = some (none, calls)
only_started (some (true, rd, calls)) = some (some rd, calls)

-- `rsd_simple_start`: the client where 0 is returned.
abbrev pub with_client :
    Answers
    → (List ℕ → Option (List ℕ))
    → Option (List ℕ)
    → Option (List ℕ)
    → Option (List ℕ)
    → ℤ
    → ℤ
    → Format
    → Option Rsound
    → Option (Option Rsound × List Call)
with_client a strdup name service ident rate count fmt none = some (none, [])
with_client a strdup name service ident rate count fmt (some rd) =
    let given =
      if_given identity ident
        (if_given (λ s. port (strdup s)) service (if_given (λ s. host (strdup s)) name rd)) in
    elim (configured rate count fmt given) [
      | none ↦ some (none, [])
      | some rd1 ↦ only_started (start a rd1)
    ]

unfoldable pub simple_start :
    Answers
    → Bool
    → (List ℕ → Option (List ℕ))
    → Option (List ℕ)
    → Option (List ℕ)
    → Option (List ℕ)
    → Option (List ℕ)
    → Option (List ℕ)
    → ℤ
    → ℤ
    → Format
    → Option (Option Rsound × List Call)
simple_start a memory strdup rsdhost rsdport name service ident rate count fmt =
    with_client a strdup name service ident rate count fmt (init memory strdup rsdhost rsdport)
