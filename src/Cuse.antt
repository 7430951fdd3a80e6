-- ===== src/Cuse.antt =====
-- src/cuse-ross/cuse-ross.c: the emulated OSS device, one state for each open file. A request of
-- the kernel gives a list of events, what is told to FUSE among them, and the state after. The
-- arithmetic on ints is that of integers, and where the C program has no defined behaviour the
-- result is `undefined`: a null pointer, a failed assertion, a division by 0, an int that
-- overflows. The calls of the client library that wait for the server are a record of operations.
pub mod Start
pub mod Write
pub mod Ioctl
pub mod Device
pub mod Histories
pub mod Events
pub mod Acts
pub mod Stream
pub mod Launch
pub mod Starting
pub mod Waking
pub mod Returning
pub mod Faults
pub mod Position
pub mod Served
pub mod Answers
mod Tests
use Prim.Native.Nat.{bit_and}
use rsound.Base.{
  ℕ, zero, suc, ◌+◌, ◌-◌, ◌*◌, ◌/◌, ◌%◌, ◌^◌, Bool, true, false, ◌||◌, not, Option, none, some,
  List, [], ◌∷◌, ◌++◌, ◌==◌, ltb, leb, min, if◌then◌else◌,
}
use rsound.Base.Int.{ℤ, pos, negsuc, sub_ℕ, ◌+ℤ◌, ◌*ℤ◌, ltb_ℤ, to_signed, to_unsigned}
use rsound.Fifo
use rsound.Fifo.{Fifo}
use rsound.Format.{s16_le, code}
use rsound.Client.{Rsound}
use rsound.Client.Param.{set_param, samplerate, channels, latency, format}

-- `struct ross`, less its locks; a poll handle is a number.
pub record Ross : Type 0 where
  pub rd : Rsound
  pub started : Bool
  pub nonblock : Bool
  pub ph : Option ℕ
  pub channels : ℤ
  pub rate : ℤ
  pub fragsize : ℕ
  pub frags : ℕ
  pub bufsize : ℕ
  pub bps : ℤ
  pub error : Bool
  pub write_cnt : ℕ
  pub buffer : Option Fifo

-- What an ioctl hands back: nothing, an int, `audio_buf_info` or `count_info`.
pub data Argument : Type 0 where
  nothing : Argument
  int : ℤ → Argument
  space : ℕ → ℕ → ℕ → ℕ → Argument
  count_info : ℕ → ℕ → ℕ → Argument

-- `fuse_reply_*`
pub data Reply : Type 0 where
  opened : Reply
  err write poll : ℕ → Reply
  retry : ℕ → ℕ → Reply
  ioctl : Argument → Reply

-- A reply, `fuse_lowlevel_notify_poll` and `fuse_pollhandle_destroy` of a handle, the signal on the
-- condition, `usleep`, and the bytes that the audio callback hands to the network thread.
pub data Event : Type 0 where
  reply : Reply → Event
  notify destroy sleep : ℕ → Event
  signal : Event
  played : List ℕ → Event

pub data Result : Type 0 where
  undefined blocked : Result
  finished : List Event → Ross → Result

-- Events before those of the rest.
abbrev pub after : List Event → Result → Result
after es undefined = undefined
after es blocked = blocked
after es (finished fs ro) = finished (es ++ fs) ro

-- A reply that leaves the state.
abbrev pub replied : Reply → Ross → Result
replied r ro = finished (reply r ∷ []) ro

-- The calls of the client library: `rsd_start` with its result, `rsd_stop`, `rsd_delay`.
pub record Client : Type 0 where
  pub start : Rsound → Bool × Rsound
  pub stop : Rsound → Rsound
  pub delay : Rsound → ℕ × Rsound

-- `rsnd_fifo_read_avail(ro->buffer)` and `rsnd_fifo_write_avail(ro->buffer)`
abbrev pub held_avail : Option Fifo → Option ℕ
held_avail none = none
held_avail (some f) = some (Fifo.read_avail f)

abbrev pub free_avail : Option Fifo → Option ℕ
free_avail none = none
free_avail (some f) = some (Fifo.write_avail f)

-- `ross_latency`
abbrev pub add_held : ℕ × Rsound → Ross → Option ℕ → Option (ℤ × Ross)
add_held (d, rd) ro none = none
add_held (d, rd) ro (some n) =
    some (to_signed 32 (to_signed 32 (pos d) +ℤ pos n), record ro { rd = rd })

unfoldable pub ross_latency : Client → Ross → Option (ℤ × Ross)
ross_latency client ro =
    if not ro.started
    then some (pos 0, ro)
    else add_held (client.delay ro.rd) ro (held_avail ro.buffer)

-- `1000000LLU * ross_latency(ro) / ro->bps`, as the argument of `usleep`.
abbrev pub microseconds : ℤ → ℤ → Option ℕ
microseconds n bps =
    let d = to_unsigned 64 bps in
    if d == 0 then none else some (1000000 * to_unsigned 64 n % 2 ^ 64 / d % 2 ^ 32)

abbrev pub sleeping : ℤ → Ross → (Ross → Result) → Result
sleeping n ro rest = elim (microseconds n ro.bps) [
  | none ↦ undefined
  | some t ↦ after (sleep t ∷ []) (rest ro)
]

abbrev pub sleep_latency : Option (ℤ × Ross) → (Ross → Result) → Result
sleep_latency none rest = undefined
sleep_latency (some (n, ro)) rest = sleeping n ro rest

-- `if (ro->started) usleep(...)`, of `ross_close` and SNDCTL_DSP_SYNC.
unfoldable pub drain : Client → Ross → (Ross → Result) → Result
drain client ro rest = if ro.started then sleep_latency (ross_latency client ro) rest else rest ro

-- `ross_reset`
unfoldable pub ross_reset : Client → Ross → Ross
ross_reset client ro = record ro {
  rd = client.stop ro.rd;
  started = false;
  error = false;
  buffer = none;
}

-- `if (ro->ph) fuse_pollhandle_destroy(ro->ph);`
abbrev pub destroy_handle : Option ℕ → List Event
destroy_handle none = []
destroy_handle (some h) = destroy h ∷ []

-- `ross_release` with `ross_close`: the state is freed, and what is given is the state at its end.
unfoldable pub ross_release : Client → Ross → Result
ross_release client ro = drain client ro λ ro1.
    finished (destroy_handle ro1.ph ++ reply (err 0) ∷ [])
      (record ro1 { rd = client.stop ro1.rd; ph = none; buffer = none })

-- `ross_notify`
abbrev pub notify_handle : Option ℕ → List Event
notify_handle none = []
notify_handle (some h) = notify h ∷ destroy h ∷ []

unfoldable pub ross_notify : Ross → List Event × Ross
ross_notify ro = (notify_handle ro.ph ++ signal ∷ [], record ro { ph = none })

-- `ross_update_notify`
unfoldable pub ross_update_notify : Option ℕ → Ross → List Event × Ross
ross_update_notify ph ro = (destroy_handle ro.ph, record ro { ph = ph })

-- `ross_write_avail` and `ross_read_avail`; `none` is the null pointer.
unfoldable pub ross_write_avail : Ross → Option ℕ
ross_write_avail ro = if not ro.started then some ro.bufsize else free_avail ro.buffer

unfoldable pub ross_read_avail : Ross → Option ℕ
ross_read_avail ro = if not ro.started then some 0 else held_avail ro.buffer

-- `ross_audio_cb`, asked for `bytes`; what it returns is how many bytes are played.
abbrev pub notified : List ℕ → List Event × Ross → List Event × Ross
notified xs (es, ro) = (played xs ∷ es, ro)

abbrev pub with_read : Ross → Option (List ℕ × Fifo) → Option (List Event × Ross)
with_read ro none = none
with_read ro (some (xs, f)) = some (notified xs (ross_notify (record ro { buffer = some f })))

abbrev pub read_some : ℕ → Ross → Fifo → Option (List Event × Ross)
read_some ret ro f = if ltb 0 ret then with_read ro (Fifo.read f ret) else some (played [] ∷ [], ro)

abbrev pub read_from : ℕ → Ross → Option Fifo → Option (List Event × Ross)
read_from bytes ro none = none
read_from bytes ro (some f) = read_some (min (Fifo.read_avail f) bytes) ro f

unfoldable pub ross_audio_cb : ℕ → Ross → Option (List Event × Ross)
ross_audio_cb bytes ro = read_from bytes ro ro.buffer

-- `ross_err_cb`
unfoldable pub ross_err_cb : Ross → List Event × Ross
ross_err_cb ro = ross_notify (record ro { error = true })

-- FRAGSIZE and FRAGS, and O_NONBLOCK on Linux.
abbrev pub default_fragsize : ℕ
default_fragsize = 512

abbrev pub default_frags : ℕ
default_frags = 64

abbrev pub o_nonblock : ℕ
o_nonblock = 2048

-- What `calloc`, `rsd_init`, the two `pthread_mutex_init` and `pthread_cond_init` give.
pub record Opening : Type 0 where
  pub memory : Bool
  pub init : Option Rsound
  pub poll_lock : ℤ
  pub cond_lock : ℤ
  pub cond : ℤ

abbrev pub failing : ℤ → Bool
failing rc = ltb_ℤ rc (pos 0)

-- The state of a new file: 44100 Hz, 2 channels, S16_LE.
abbrev pub with_defaults : Rsound → Ross
with_defaults rd =
    let rd1 = (set_param rd (channels (pos 2))).1 in
    let rd2 = (set_param rd1 (samplerate (pos 44100))).1 in
    record {
      rd = (set_param rd2 (format (pos (code s16_le)))).1;
      started = false;
      nonblock = false;
      ph = none;
      channels = pos 2;
      rate = pos 44100;
      fragsize = default_fragsize;
      frags = default_frags;
      bufsize = default_frags * default_fragsize;
      bps = pos 0;
      error = false;
      write_cnt = 0;
      buffer = none;
    }

abbrev pub with_init : Opening → Option Rsound → Reply × Option Ross
with_init a none = (err 12, none)
with_init a (some rd) =
    if failing a.poll_lock || failing a.cond_lock || failing a.cond
    then (err 12, none)
    else (opened, some (with_defaults rd))

-- `ross_open` with the flags of the file: EACCES if it is not write-only, or ENOMEM.
unfoldable pub ross_open : Opening → ℕ → Reply × Option Ross
ross_open a flags =
    if not (bit_and flags 3 == 1)
    then (err 13, none)
    else if not a.memory
    then (err 12, none)
    else with_init a a.init

-- `ross_poll`: POLLHUP, POLLOUT or nothing.
abbrev pub poll_free : Ross → Option ℕ → Result
poll_free ro none = undefined
poll_free ro (some n) = replied (poll (if ltb 0 n then 4 else 0)) ro

unfoldable pub ross_poll : Option ℕ → Ross → Result
ross_poll ph ro =
    let (es, ro1) = ross_update_notify ph ro in
    after es (
      if ro1.error
      then replied (poll 16) ro1
      else if not ro1.started
      then replied (poll 4) ro1
      else poll_free ro1 (ross_write_avail ro1))
