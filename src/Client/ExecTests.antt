-- ===== src/Client/ExecTests.antt =====
-- Handing over the socket, and the callback thread, at concrete inputs.
use rsound.Base.{◌≡◌, ◌<◌, refl, ℕ, true, false, some, List, [], ◌∷◌, arith, length}
use rsound.Base.Int.{pos, ◌+ℤ◌}
use rsound.Format.{s16_le}
use rsound.Fifo
use rsound.Fifo.Inv.{IsValid}
use rsound.Fifo.Refine.{contents}
use rsound.Net.{polled, returned, send_chunk}
use rsound.Client.{Rsound, Call, close, send}
use rsound.Client.Param.{blank}
use rsound.Client.Delay.{Elapsed, delay, delay_ms, raw_delay, drain}
use rsound.Client.Exec.{Handover, closectl_text, closectl_ok, await_answer, close_ctl}
use rsound.Client.Callback.{Filling, full, fill_chunk}

abbrev fifo : Fifo.Fifo
fifo = record { buffer = 1 ∷ 2 ∷ 3 ∷ 0 ∷ []; first = 0; end = 3; bufsize = 4 }

fifo-IsValid : IsValid fifo
fifo-IsValid = record {
  storage = refl;
  small = omega arith;
  first_in = omega arith;
  end_in = omega arith;
}

abbrev linked : Rsound
linked = record blank {
  socket = some 4;
  ctl_socket = some 5;
  conn_type = 256;
  fifo_buffer = some fifo;
  thread_active = true;
}

-- The server's answer comes in two parts.
abbrev handover : Handover
handover = record {
  ask = polled true false (some 17) ∷ [];
  answers = polled true false (some 6) ∷ polled true false (some 30) ∷ [];
  ctl_stream = closectl_ok;
  flags_read = true;
  flags_set = true;
  thread_rc = pos 0;
  sends = polled true false (some 3) ∷ [];
}

abbrev ctl_calls : List Call
ctl_calls = send (some 5) closectl_text ∷ close (some 5) ∷ []

fifo_held : 0 < Fifo.read_avail fifo
unfolding Fifo.read_avail
fifo_held = omega arith

ctl_closed : close_ctl handover linked ≡ some (true, ctl_calls)
unfolding close_ctl await_answer
ctl_closed = refl

fifo_sent :
    send_chunk true (contents fifo) 0 handover.sends
    ≡ (returned (length (contents fifo)), (1 ∷ 2 ∷ 3 ∷ []) ∷ [])
unfolding send_chunk contents Fifo.read_avail
fifo_sent = refl

-- A callback that stores 1 of 4 bytes of a stream with little delay: 3 zeros are put in.
abbrev now : Elapsed
now = record { sec = pos 0; nsec = pos 0 }

abbrev called : Rsound
called = record blank {
  rate = 44100;
  channels = 1;
  samplesize = 2;
  format = s16_le;
  chunk_size = 4;
  max_latency = pos 100;
}

abbrev filled : Filling → List ℕ
filled (full rd buffer) = buffer
filled _ = []

fill_short :
    filled (fill_chunk 4 (record { stored = some (9 ∷ []); at = now } ∷ []) called [])
    ≡ 9 ∷ 0 ∷ 0 ∷ 0 ∷ []
unfolding fill_chunk delay_ms delay raw_delay drain ◌+ℤ◌
fill_short = refl
