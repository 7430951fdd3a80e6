-- ===== src/Server/Tests.antt =====
-- The server's thread of src/rsound-common.c at concrete inputs.
use rsound.Base.{◌≡◌, refl, true, false, none, some, List, [], ◌∷◌, ◌++◌, ℕ, arith, Option, drop}
use rsound.Base.Int.{pos}
use rsound.Net.{polled}
use rsound.Format.{s16_le}
use rsound.Endian.{is_little_endian}
use rsound.Wav.Encode.{Params, header_of}
use rsound.Wav.Decode.{get_wav_header, select_format}
use rsound.Client.Handshake.{send_backend_info}
use rsound.Proto.Serve.{closed, taken}
use rsound.Server.{Revents, Turn, receive_data}
use rsound.Server.Receive.{Receives, receive_data-Receives}
use rsound.Server.Thread.{
  Settings, Chunk, Replies, rsd_thread, play, write_chunk, exited, Played, accepted,
}
use rsound.Server.Play.{Front, Closes, rsd_thread-plays}

abbrev params : Params
params = record { rate = 44100; channels = 2; format = s16_le }

abbrev quiet : Revents
quiet = record { pollin = false; pollhup = false }

abbrev readable : Revents
readable = record { pollin = true; pollhup = false }

-- A pass in which the data socket has at most so many bytes.
abbrev data_turn : Option ℕ → Turn
data_turn room = record {
  polled = true;
  on_data = readable;
  on_ctl = quiet;
  requests = [];
  room = room;
}

abbrev chunk : Option ℕ → List ℕ → Chunk
chunk room writes = record {
  turns = data_turn room ∷ [];
  resampled = receive_data true 2 [];
  writes = writes;
}

-- Two chunks, the second in two writes, and the end of the stream.
abbrev replies : Replies
replies = record {
  header_turns = data_turn (some 44) ∷ [];
  init = true;
  opens = λ w. true;
  info = record { latency = 300; chunk_size = 2; resample = false; scale = λ rate. rate };
  memory = true;
  resampler = true;
  info_event = polled true false (some 16);
  chunks = chunk (some 10) (2 ∷ []) ∷ chunk (some 10) (1 ∷ 1 ∷ []) ∷ chunk none [] ∷ [];
}

abbrev settings : Settings
settings = record { little = true; resample_freq = 0; verbose = false }

abbrev wire : List ℕ
wire = header_of true params ++ (1 ∷ 2 ∷ 3 ∷ 4 ∷ [])

abbrev thread : Played
thread = rsd_thread settings replies 4 5 wire []

thread_plays_all :
    (thread.end ≡ exited)
    × (thread.played ≡ 1 ∷ 2 ∷ 3 ∷ 4 ∷ [])
    × (thread.actions ≡ closed 4 ∷ closed 5 ∷ [])
unfolding rsd_thread receive_data play write_chunk get_wav_header select_format send_backend_info
    header_of is_little_endian
thread_plays_all = (refl, refl, refl)

-- With no control socket and no header, the descriptor 0 is closed.
no_header :
    (rsd_thread settings (record replies { header_turns = data_turn none ∷ [] }) 4 0 [] []).actions
    ≡ closed 4 ∷ closed 0 ∷ []
unfolding rsd_thread receive_data
no_header = refl

rsd_thread-plays_example :
    Front thread.played (drop 44 wire) × Closes thread.end thread.actions (4 ∷ 5 ∷ [])
rsd_thread-plays_example = rsd_thread-plays settings replies 4 5 wire [] refl refl

-- A request to close the control socket comes with the data.
abbrev closectl_turn : Turn
closectl_turn = record {
  polled = true;
  on_data = readable;
  on_ctl = readable;
  requests =
      record { polled = some true; first = some 8; second = some 9; lag = pos 0; reply = taken }
      ∷ [];
  room = some 4;
}

abbrev closectl_bytes : List ℕ
closectl_bytes =
    b'R' ∷ b'S' ∷ b'D' ∷ b' ' ∷ b' ' ∷ b' ' ∷ b' ' ∷ b'9' ∷ b' ' ∷ b'C' ∷ b'L' ∷ b'O' ∷ b'S' ∷ b'E'
    ∷ b'C' ∷ b'T' ∷ b'L' ∷ []

receive_data-Receives_example : Receives 4 [] (accepted 4 5) (1 ∷ 2 ∷ 3 ∷ 4 ∷ 5 ∷ []) (
    receive_data true 4
      (closectl_turn ∷ [])
      []
      (accepted 4 5)
      (1 ∷ 2 ∷ 3 ∷ 4 ∷ 5 ∷ [])
      closectl_bytes)
receive_data-Receives_example =
    receive_data-Receives true 4 (closectl_turn ∷ []) [] (accepted 4 5) (1 ∷ 2 ∷ 3 ∷ 4 ∷ 5 ∷ [])
      closectl_bytes (omega arith)
