-- ===== src/Client/Tests.antt =====
-- The client of src/librsound/librsound.c at concrete inputs.
use rsound.Base.{
  ◌≡◌, ◌++◌, refl, true, false, none, some, Option, Bool, List, [], ◌∷◌, ℕ, length, arith,
  replicate, ◌∷◌,
}
use rsound.Base.Int.{pos, negsuc}
use rsound.Format.{s16_le, of_code}
use rsound.Fifo
use rsound.Fifo.Refine.{contents}
use rsound.Net.{Event, polled, interrupted, returned, recv_chunk, send_chunk}
use rsound.Wav.Encode.{header_of}
use rsound.Endian.{is_little_endian, swap_endian_16, swap_endian_32}
use rsound.Client.{start_thread, Rsound, Result, Call, close, reset, stop, stop_thread}
use rsound.Client.Text.{identity_text}
use rsound.Client.Connect.{Dialing, Answers, create_connection, connect_server, give_up}
use rsound.Client.Param.{blank, set_param, IsConfigured, set_param-IsConfigured, samplerate, format}
use rsound.Client.Handshake.{get_backend_info, send_backend_info}
use rsound.Client.Agree.{
  Fits, informed, reads, get_backend_info-send_backend_info, get_backend_info-Fits,
}
use rsound.Client.Write.{
  Session, whole, Turn, looping, fill_buffer, write, write_from, run_network, network_step,
}
use rsound.Client.Write.Stream.{Streams, Runs}
use rsound.Client.Write.Order.{write-Streams}
use rsound.Client.Write.Waits.{Sends}
use rsound.Client.Write.Wake.{Lively, fill_buffer-wakes}

-- A client with a host and a port, S16_LE.
abbrev ready : Rsound
ready = record blank { host = some (1 ∷ []); port = some (2 ∷ []); format = s16_le; samplesize = 2 }

ready-IsConfigured : IsConfigured ready
unfolding IsConfigured
ready-IsConfigured = (refl, omega arith, omega arith, omega arith)

set_param-refused : (set_param ready (samplerate (negsuc 4))).0 ≡ false
unfolding set_param
set_param-refused = refl

set_param-odd_format : (set_param ready (format (pos 3))).1.samplesize ≡ 2
unfolding set_param of_code
set_param-odd_format = refl

set_param-IsConfigured_example : IsConfigured (set_param ready (samplerate (pos 44100))).1
set_param-IsConfigured_example =
    set_param-IsConfigured ready (samplerate (pos 44100)) ready-IsConfigured

-- Each read gets its 8 bytes at once.
abbrev at_once : List Event
at_once = polled true false (some 8) ∷ []

first_read :
    (recv_chunk true 8 []
      (send_backend_info true 300 512 (polled true false (some 16))).1
      at_once).outcome
    ≡ returned 8
unfolding recv_chunk send_backend_info
first_read = refl

second_read : (recv_chunk false 8 [] (replicate 8 0) at_once).outcome ≡ returned 8
unfolding recv_chunk
second_read = refl

get_backend_info-send_backend_info_example :
    let (sent, bytes) = send_backend_info true 300 512 (polled true false (some 16)) in
    (sent ≡ true)
    × (get_backend_info false (reads at_once at_once) bytes ready
        ≡ some (true, informed 300 512 ready))
get_backend_info-send_backend_info_example =
    get_backend_info-send_backend_info true false false 300 512 16 ready at_once at_once
      (omega arith) (omega arith) (omega arith) first_read second_read

gets_info :
    get_backend_info false
      (reads at_once at_once)
      (send_backend_info true 300 512 (polled true false (some 16))).1
      ready
    ≡ some (true, informed 300 512 ready)
gets_info =
    (get_backend_info-send_backend_info true false false 300 512 16 ready at_once at_once
      (omega arith) (omega arith) (omega arith) first_read second_read).1

get_backend_info-Fits_example : Fits (informed 300 512 ready)
get_backend_info-Fits_example =
    get_backend_info-Fits false (reads at_once at_once)
      (send_backend_info true 300 512 (polled true false (some 16))).1 ready
      (informed 300 512 ready) (omega arith) gets_info

-- A stream of chunks of 2 bytes with a buffer of 7 that holds 5, 6 and 7.
abbrev held : Fifo.Fifo
held = record { buffer = 5 ∷ 6 ∷ 7 ∷ 0 ∷ 0 ∷ 0 ∷ 0 ∷ 0 ∷ []; bufsize = 8; first = 0; end = 3 }

abbrev playing : Session
playing = record {
  rd = record ready {
    fifo_buffer = some held;
    buffer_size = 7;
    chunk_size = 2;
    thread_active = true;
    ready_for_data = true;
  };
  wire = 4 ∷ [];
  phase = looping;
  signalled = false;
}

playing-Streams : Streams (4 ∷ 5 ∷ 6 ∷ 7 ∷ []) playing
unfolding contents Fifo.read_avail
playing-Streams = record {
  fifo = held;
  same = refl;
  valid = omega arith;
  bytes = refl;
  size = refl;
  active = refl;
  lives = refl;
  some_chunk = omega arith;
  two_chunks = omega arith;
  small = omega arith;
}

-- Six bytes go in as three writes of two; with no room left, the network thread sends a chunk.
abbrev six : List ℕ
six = 1 ∷ 2 ∷ 3 ∷ 1 ∷ 2 ∷ 3 ∷ []

abbrev quiet : Turn
quiet = record { tested = []; looked = []; waited = [] }

abbrev busy : Turn
busy = record { tested = []; looked = whole ∷ []; waited = whole ∷ whole ∷ [] }

abbrev turns : List Turn
turns = quiet ∷ quiet ∷ busy ∷ quiet ∷ []

abbrev after_six : Session
after_six = record {
  rd = record playing.rd {
    fifo_buffer =
        some
          (record { buffer = 3 ∷ 6 ∷ 7 ∷ 1 ∷ 2 ∷ 3 ∷ 1 ∷ 2 ∷ []; bufsize = 8; first = 2; end = 1 });
    has_written = true;
    total_written = 2;
  };
  wire = 4 ∷ 5 ∷ 6 ∷ [];
  phase = looping;
  signalled = true;
}

write-six : write six playing turns ≡ some (6, after_six)
unfolding write write_from fill_buffer run_network network_step Fifo.read Fifo.write Fifo.read_avail
    Fifo.write_avail
write-six = refl

write-Streams_example : (6 ≡ length six) × Runs ((4 ∷ 5 ∷ 6 ∷ 7 ∷ []) ++ six) after_six
write-Streams_example =
    write-Streams (4 ∷ 5 ∷ 6 ∷ 7 ∷ []) six playing after_six turns 5 playing-Streams write-six

abbrev two : List ℕ
two = 8 ∷ 9 ∷ []

abbrev long : Turn
long = record { tested = []; looked = []; waited = replicate 25 whole }

long-Lively : Lively 7 long
unfolding Lively Sends
long-Lively = (tt, tt, tt, omega arith)

-- The FIFO is full now.
after_six-Streams : Streams (4 ∷ 5 ∷ 6 ∷ 7 ∷ 1 ∷ 2 ∷ 3 ∷ 1 ∷ 2 ∷ 3 ∷ []) after_six
unfolding contents Fifo.read_avail
after_six-Streams = record {
  fifo = record { buffer = 3 ∷ 6 ∷ 7 ∷ 1 ∷ 2 ∷ 3 ∷ 1 ∷ 2 ∷ []; bufsize = 8; first = 2; end = 1 };
  same = refl;
  valid = omega arith;
  bytes = refl;
  size = refl;
  active = refl;
  lives = refl;
  some_chunk = omega arith;
  two_chunks = omega arith;
  small = omega arith;
}

fill_buffer-wakes_example :
    (t : Session) × (rest : List Turn) × (fill_buffer two (long ∷ long ∷ quiet ∷ []) after_six
      ≡ some (2, t, rest))
unfolding Sends
fill_buffer-wakes_example =
    fill_buffer-wakes (4 ∷ 5 ∷ 6 ∷ 7 ∷ 1 ∷ 2 ∷ 3 ∷ 1 ∷ 2 ∷ 3 ∷ []) two long long quiet [] after_six
      after_six-Streams (omega arith) long-Lively long-Lively tt

-- A server at "127.0.0.1" that accepts both connections and sends its 16 bytes.
abbrev good_dialing : Dialing
good_dialing = record { nonblocking = true; connecting = true; polls = polled true false none ∷ [] }

abbrev pub good : Answers
good = record {
  little = true;
  dial = record {
    resolved = true;
    socket = some 3;
    ctl_socket = some 4;
    first = good_dialing;
    second = good_dialing;
  };
  ready = interrupted ∷ polled true false none ∷ [];
  header_ok = true;
  header_sends = polled true false (some 44) ∷ [];
  info = reads at_once at_once;
  stream = (send_backend_info true 300 512 (polled true false (some 16))).1;
  thread_rc = pos 0;
  identity_sends = [];
  stop_sends = [];
}

-- With answers like these it does return 0.
abbrev small_chunks : Answers
small_chunks = record good {
  stream = (send_backend_info true 300 2 (polled true false (some 16))).1;
}

abbrev returns : Option Result → Option Bool
returns none = none
returns (some (rc, rd, calls)) = some rc

create_connection-small_chunks :
    returns (create_connection small_chunks (record ready { buffer_size = 8 })) ≡ some true
unfolding create_connection connect_server send_chunk recv_chunk get_backend_info send_backend_info
    start_thread Fifo.new header_of is_little_endian swap_endian_16 swap_endian_32
create_connection-small_chunks = refl

-- The connection to the second port fails: both sockets are closed.
abbrev half : Answers
half = record good {
  dial = record good.dial { second = record good_dialing { connecting = false } };
}

abbrev calls_of : Option Result → List Call
calls_of none = []
calls_of (some (rc, rd, calls)) = calls

create_connection-half :
    calls_of (create_connection half ready) ≡ close (some 3) ∷ close (some 4) ∷ []
unfolding create_connection connect_server give_up stop stop_thread reset send_chunk
create_connection-half = refl

-- Of 237 characters, one is lost.
long_identity : length (identity_text (replicate 237 b'x')) ≡ 254
unfolding identity_text
long_identity = refl
