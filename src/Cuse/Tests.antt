-- ===== src/Cuse/Tests.antt =====
-- The emulated device of src/cuse-ross/cuse-ross.c at concrete inputs.
use Prim.Native.Nat.{◌%◌, ◌^◌, ◌+◌}
use rsound.Base.{◌≡◌, refl, ℕ, true, none, some, List, [], ◌∷◌, ◌++◌, length, arith, inl, inr}
use rsound.Base.Int.{pos}
use rsound.Fifo
use rsound.Fifo.{Fifo, read_avail, write_avail}
use rsound.Fifo.Refine.{contents}
use rsound.Client.Param.{blank, set_param}
use rsound.Cuse.{
  Ross, Reply, Argument, Event, reply, destroy, Opening, Client, undefined, blocked, finished,
  with_defaults, ross_open, ross_audio_cb, ross_notify, ross_poll, ross_update_notify, ross_release,
}
use rsound.Cuse.Write.{read, Turn, ross_write, write_loop, run_acts, answer}
use rsound.Cuse.Ioctl.{
  Request, Buffers, ross_ioctl, setfmt, setfragment, oss2rsd_fmt, rsd2oss_fmt, ioctl_prep_uarg,
}
use rsound.Cuse.Acts.{Live}
use rsound.Cuse.Events.{all_played, replies, destroys}
use rsound.Format
use rsound.Format.{code, of_code}
use rsound.Cuse.Starting.{Begins, ross_write-Streams}
use rsound.Cuse.Returning.{ross_write-Returns}
use rsound.Cuse.Waking.{Returns}
use rsound.Cuse.Faults.{ross_write_waits_forever, zero_channels_undefined}
use rsound.Cuse.Device.{Call, ioctl, poll_with, run}
use rsound.Cuse.Histories.{
  AllAllowed, total, all_given, run-Serves, closed_lem, with_defaults-WellFormed,
}
use rsound.Cuse.Position.{position, getoptr-write}
use rsound.Cuse.Served.{Serves}

abbrev client : Client
client = record { start = λ rd. (true, rd); stop = λ rd. rd; delay = λ rd. (0, rd) }

-- A FIFO for 4 bytes that holds all 4, in a started stream.
abbrev full_fifo : Fifo
full_fifo = record { buffer = 1 ∷ 2 ∷ 3 ∷ 4 ∷ 0 ∷ []; bufsize = 5; first = 0; end = 4 }

abbrev started : Ross
started = record (with_defaults blank) {
  started = true;
  bps = pos 176400;
  ph = some 9;
  write_cnt = 10;
  buffer = some full_fifo;
}

abbrev full_live : Live (1 ∷ 2 ∷ 3 ∷ 4 ∷ []) started
unfolding contents read_avail
full_live = record {
  fifo = full_fifo;
  same = refl;
  valid = record {
    storage = refl;
    small = omega arith;
    first_in = omega arith;
    end_in = omega arith;
  };
  bytes = refl;
}

-- A pass in which the write waits until a callback has taken three bytes, and one more.
abbrev waiting : Turn
waiting = record { stored = []; tested = []; waited = read 3 ∷ []; left = [] }

abbrev two_bytes : List ℕ
two_bytes = 5 ∷ 6 ∷ []

abbrev turns : List Turn
turns = waiting ∷ waiting ∷ waiting ∷ waiting ∷ []

-- The write waits, stores both bytes, and answers 2.
write_result :
    (es : List Event) × (ro : Ross) × (ross_write client true true turns 0 two_bytes started
      ≡ finished es ro)
    × (all_played es ≡ 1 ∷ 2 ∷ 3 ∷ [])
    × (ro.write_cnt ≡ 12)
    × (ro.ph ≡ none)
unfolding ross_write write_loop run_acts answer ross_audio_cb ross_notify read_avail write_avail
    Fifo.read Fifo.write
write_result = (_, _, refl, refl, refl, refl)

ross_write-Streams_example : Begins client true true turns 0 (1 ∷ 2 ∷ 3 ∷ 4 ∷ []) two_bytes started
ross_write-Streams_example =
    ross_write-Streams client true true turns 0 (1 ∷ 2 ∷ 3 ∷ 4 ∷ []) two_bytes started (omega arith)
      refl (inl (refl, full_live))

ross_write-Returns_example : Returns (ross_write client true true turns 0 two_bytes started)
ross_write-Returns_example =
    ross_write-Returns client true true turns 0 (1 ∷ 2 ∷ 3 ∷ 4 ∷ []) two_bytes started refl
      full_live (omega arith)
      (refl, refl, tt, (refl, refl, tt, (refl, refl, tt, (refl, refl, tt, tt)))) (omega arith)

-- A callback empties the FIFO before the wait; the two that follow find it empty.
abbrev late : Turn
late = record {
  stored = [];
  tested = read 2 ∷ read 2 ∷ [];
  waited = read 3 ∷ read 3 ∷ [];
  left = [];
}

ross_write_waits_forever_example :
    ross_write client true true (late ∷ []) 0 two_bytes started ≡ blocked
unfolding write_avail contents read_avail
ross_write_waits_forever_example =
    ross_write_waits_forever client true true late [] 0 (2 ∷ 2 ∷ []) (3 ∷ 3 ∷ [])
      (1 ∷ 2 ∷ 3 ∷ 4 ∷ []) two_bytes started full_live refl refl refl refl (omega arith)
      (omega arith) refl refl refl

abbrev with_int : ℕ → Buffers
with_int n = record { in_bufsize = 4; out_bufsize = 4; in_int = pos n }

zero_channels_undefined_example :
    (ro1 : Ross) × (ross_ioctl client (with_int 0) Request.set_channels (with_defaults blank)
      ≡ finished (reply (Reply.ioctl (Argument.int (pos 0))) ∷ []) ro1)
    × (ro1.rd ≡ (with_defaults blank).rd)
    × (ross_write client true true [] 0 two_bytes ro1 ≡ undefined)
zero_channels_undefined_example =
    zero_channels_undefined client true true [] 0 two_bytes (with_int 0) (with_defaults blank) refl
      refl (omega arith) refl refl refl

-- The state and the events of the write above, 6 bytes having been played before.
abbrev after_write : Ross
after_write = record started {
  ph = none;
  write_cnt = 12;
  buffer = some (record { buffer = 6 ∷ 2 ∷ 3 ∷ 4 ∷ 5 ∷ []; bufsize = 5; first = 3; end = 1 });
}

abbrev write_events : List Event
write_events =
    Event.played (1 ∷ 2 ∷ 3 ∷ [])
    ∷ Event.notify 9
    ∷ destroy 9
    ∷ Event.signal
    ∷ reply (Reply.write 2)
    ∷ []

written : ross_write client true true turns 0 two_bytes started ≡ finished write_events after_write
unfolding ross_write write_loop run_acts answer ross_audio_cb ross_notify read_avail write_avail
    Fifo.read Fifo.write
written = refl

abbrev out_only : Buffers
out_only = record { in_bufsize = 0; out_bufsize = 12; in_int = pos 0 }

getoptr-write_example :
    (ross_ioctl client out_only Request.getoptr started ≡ position 6 started)
    × (ross_ioctl client out_only Request.getoptr after_write
        ≡ position ((6 + length (all_played write_events)) % 2 ^ 32) after_write)
getoptr-write_example =
    getoptr-write client true true turns 0 (1 ∷ 2 ∷ 3 ∷ 4 ∷ []) two_bytes out_only started
      after_write write_events (omega arith) refl refl full_live (omega arith) written refl refl

-- A file from its opening on: two polls, a format, and a write that does not wait.
abbrev opening : Opening
opening = record {
  memory = true;
  init = some blank;
  poll_lock = pos 0;
  cond_lock = pos 0;
  cond = pos 0;
}

abbrev calls : List Call
calls =
    poll_with (some 7)
    ∷ ioctl (with_int 0x20) setfmt
    ∷ poll_with (some 8)
    ∷ ioctl (record { in_bufsize = 0; out_bufsize = 0; in_int = pos 0 }) setfragment
    ∷ []

calls_allowed : AllAllowed client calls (with_defaults blank)
unfolding ross_poll ross_update_notify ross_ioctl ioctl_prep_uarg
calls_allowed =
    (tt, ((inr refl, inr refl), (tt, ((inl refl, inl refl, (omega arith, omega arith)), tt))))

run-Serves_example :
    Serves Unit
      (total client calls (with_defaults blank))
      (all_given calls)
      (with_defaults blank)
      (run client calls (with_defaults blank))
run-Serves_example =
    run-Serves client calls (with_defaults blank) (with_defaults-WellFormed blank) calls_allowed

abbrev last : Ross
last = record (with_defaults blank) {
  rd = record (with_defaults blank).rd { format = Format.s16_be };
  ph = some 8;
}

abbrev events : List Event
events =
    reply (Reply.poll 4)
    ∷ reply (Reply.ioctl (Argument.int (pos 0x20)))
    ∷ destroy 7
    ∷ reply (Reply.poll 4)
    ∷ reply (Reply.retry 4 4)
    ∷ []

ran : run client calls (with_defaults blank) ≡ finished events last
unfolding ross_poll ross_update_notify ross_ioctl ioctl_prep_uarg set_param oss2rsd_fmt rsd2oss_fmt
    of_code
ran = refl

closed_lem_example :
    (fs : List Event) × (ro2 : Ross) × (ross_release client last ≡ finished fs ro2)
    × (length (replies events) ≡ total client calls (with_defaults blank))
    × (length (replies fs) ≡ 1)
    × ((h : ℕ) → destroys h (events ++ fs) ≡ all_given calls h)
unfolding ross_open
closed_lem_example =
    closed_lem client opening 1 calls (with_defaults blank) events last refl calls_allowed ran

-- Read-only is refused, and SNDCTL_DSP_SETFRAGMENT on a started stream is answered twice.
open_rdonly : ross_open opening 0 ≡ (Reply.err 13, none)
unfolding ross_open
open_rdonly = refl

setfragment_twice :
    (ro : Ross) × (ross_ioctl client (with_int 0x0010000a) setfragment started
      ≡ finished
          (reply (Reply.err 22) ∷ reply (Reply.ioctl (Argument.int (pos 0x0010000a))) ∷ [])
          ro)
    × (ro.bufsize ≡ 16384)
unfolding ross_ioctl ioctl_prep_uarg
setfragment_twice = (_, refl, refl)

-- A format that OSS has and the client library has not reads as S16_LE.
formats :
    (rsd2oss_fmt (pos (code (oss2rsd_fmt (pos 0x100)))) ≡ 0x100)
    × (rsd2oss_fmt (pos (code (oss2rsd_fmt (pos 0x1000)))) ≡ 0x10)
unfolding oss2rsd_fmt rsd2oss_fmt of_code
formats = (refl, refl)
