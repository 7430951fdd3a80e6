-- ===== src/Client.antt =====
-- src/librsound/librsound.c and rsound.h: the state of a client, its settings, and the calls that
-- start and stop its network thread. A C string is the list of its characters before the NUL, a
-- socket of -1 and a null pointer are `none`. What the operating system answers is an argument;
-- what the code asks of it is returned as a list of calls.
pub mod Param
pub mod Text
pub mod Handshake
pub mod Agree
pub mod Delay
pub mod Update
pub mod Query
pub mod Correct
mod QueryTests
pub mod Connect
pub mod Start
pub mod Write
pub mod Exec
pub mod Callback
pub mod Filling
mod ExecTests
mod Tests
use rsound.Base.{
  ℕ, Bool, true, false, Option, none, some, List, [], ◌∷◌, ◌++◌, map, ◌==◌, if◌then◌else◌, not,
}
use rsound.Base.Int.{ℤ, pos, ltb_ℤ}
use rsound.Fifo.{Fifo}
use rsound.Format.{Format}
use rsound.Net.{Event, send_chunk}

-- `rsound_t`, less its locks, its obsolete members, the clock and the callbacks' pointers; of the
-- audio callback only whether there is one. `total_written` never goes down from 0.
pub record Rsound : Type 0 where
  pub socket : Option ℕ
  pub ctl_socket : Option ℕ
  pub host : Option (List ℕ)
  pub port : Option (List ℕ)
  pub conn_type : ℕ
  pub buffer_size : ℕ
  pub fifo_buffer : Option Fifo
  pub thread_active : Bool
  pub total_written : ℕ
  pub has_written : Bool
  pub bytes_in_buffer : ℤ
  pub delay_offset : ℤ
  pub max_latency : ℤ
  pub latency : ℕ
  pub chunk_size : ℕ
  pub ready_for_data : Bool
  pub rate : ℕ
  pub channels : ℕ
  pub format : Format
  pub samplesize : ℕ
  pub identity : List ℕ
  pub audio_callback : Bool
  pub use_latency : Bool

-- The calls that have an effect outside the client.
pub data Call : Type 0 where
  close : Option ℕ → Call
  send : Option ℕ → List ℕ → Call
  create_thread : Bool → Call
  join_thread : Call

-- Whether 0 was returned, the state after, and the calls made.
abbrev pub Result : Type 0
Result = Bool × Rsound × List Call

-- `fd != n` for a file descriptor.
abbrev pub differs : Option ℕ → ℕ → Bool
differs none n = true
differs (some fd) n = not (fd == n)

-- `if (rd->conn.socket != -1) close(rd->conn.socket);`
abbrev pub close_socket : Option ℕ → List Call
close_socket none = []
close_socket (some fd) = close (some fd) ∷ []

-- `rsnd_reset`: the second test is against 1, as in the source.
unfoldable pub reset : Rsound → Rsound × List Call
reset rd = (
  record rd {
    socket = none;
    ctl_socket = none;
    total_written = 0;
    ready_for_data = false;
    has_written = false;
    bytes_in_buffer = pos 0;
    thread_active = false;
    delay_offset = pos 0;
    use_latency = false;
  },
  close_socket rd.socket ++ (if differs rd.ctl_socket 1 then close rd.ctl_socket ∷ [] else []),
)

-- `rsnd_start_thread`: what `pthread_create` returns is an argument; the source tests for a
-- negative value.
unfoldable pub start_thread : ℤ → Rsound → Result
start_thread rc rd =
    let created = not (ltb_ℤ rc (pos 0)) in
    if not rd.thread_active
    then (created, record rd { thread_active = created }, create_thread rd.audio_callback ∷ [])
    else (true, rd, [])

-- `rsnd_stop_thread`
unfoldable pub stop_thread : Rsound → Rsound × List Call
stop_thread rd =
    if rd.thread_active then (record rd { thread_active = false }, join_thread ∷ []) else (rd, [])

-- "RSD    5 STOP"
abbrev pub stop_text : List ℕ
stop_text =
    b'R' ∷ b'S' ∷ b'D' ∷ b' ' ∷ b' ' ∷ b' ' ∷ b' ' ∷ b'5' ∷ b' ' ∷ b'S' ∷ b'T' ∷ b'O' ∷ b'P' ∷ []

-- `rsd_stop`, which returns 0 always; the script is for the message on the control socket.
unfoldable pub stop : List Event → Rsound → Rsound × List Call
stop es rd =
    let (rd1, joins) = stop_thread rd in
    let packets = (send_chunk false stop_text 0 es).1 in
    let (rd2, closes) = reset rd1 in (rd2, joins ++ (map (send rd1.ctl_socket) packets ++ closes))
