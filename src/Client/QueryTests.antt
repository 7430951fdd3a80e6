-- ===== src/Client/QueryTests.antt =====
-- The delay query and the correction of the delay at concrete inputs.
use rsound.Base.{◌≡◌, ◌++◌, refl, true, false, none, some, List, [], ◌∷◌, ℕ, length, drop, arith}
use rsound.Base.Int.{ℤ, pos, ◌-ℤ◌, ◌+ℤ◌, ◌≤ℤ◌}
use rsound.Format.{s16_le}
use rsound.Net.{polled, returned, recv_chunk}
use rsound.Proto.Serve.{Connection, info_reply, handle_ctl_request, sent, taken, with_actions}
use rsound.Proto.Reply.{message_pass}
use rsound.Client.{Rsound}
use rsound.Client.Param.{blank}
use rsound.Client.Text.{info_query}
use rsound.Client.Delay.{Elapsed, raw_delay, delay, drain, delay_ms, delay_wait, get_avail}
use rsound.Client.Update.{correct, delta_of, Pass, read_messages}
use rsound.Client.Query.{delay_query}
use rsound.Client.Correct.{correct-delay_offset}

abbrev conn : Connection
conn = record { socket = 4; ctl_socket = 5; serv_ptr = pos 2048; identity = [] }

-- The header and the body come at once.
abbrev pass : Pass
pass = record { header = polled true false (some 8) ∷ []; body = polled true false (some 15) ∷ [] }

abbrev reply : List ℕ
reply = info_reply (pos 4096) (pos 1024)

played : conn.serv_ptr -ℤ pos 1024 ≡ pos 1024
unfolding ◌-ℤ◌
played = refl

reply_size : length reply ≡ 23
unfolding info_reply
reply_size = refl

header_read : (recv_chunk false 8 [] (reply ++ []) pass.header).outcome ≡ returned 8
unfolding info_reply recv_chunk
header_read = refl

body_read : (recv_chunk false 15 [] (drop 8 (reply ++ [])) pass.body).outcome ≡ returned 15
unfolding info_reply recv_chunk
body_read = refl

delay_query_example :
    (handle_ctl_request (message_pass 8 26 (pos 1024) taken ∷ []) conn (info_query 4096 ++ [])
      ≡ with_actions (sent 5 reply ∷ []) (handle_ctl_request [] conn []))
    × (read_messages (pass ∷ []) none (reply ++ [])
        ≡ read_messages [] (some (pos 4096, pos 1024)) [])
delay_query_example =
    delay_query 8 26 (pos 1024) [] conn 4096 1024 15 [] pass [] none [] (omega arith) (omega arith)
      played (omega arith) (omega arith) (omega arith) (omega arith) reply_size header_read
      body_read

-- Half a second after the start of a stream of 44100 Hz, 2 channels and 2 bytes a sample.
abbrev half : Elapsed
half = record { sec = pos 0; nsec = pos 500000000 }

abbrev playing : Rsound
playing = record blank {
  rate = 44100;
  channels = 2;
  samplesize = 2;
  format = s16_le;
  has_written = true;
  total_written = 100000;
  chunk_size = 512;
  buffer_size = 32768;
  max_latency = pos 50;
}

delay_ms-playing : delay_ms half playing ≡ some 66
unfolding delay_ms delay raw_delay drain ◌-ℤ◌ ◌+ℤ◌
delay_ms-playing = refl

delay_wait-playing : delay_wait half playing ≡ some 16
unfolding delay_wait delay_ms delay raw_delay drain ◌-ℤ◌ ◌+ℤ◌
delay_wait-playing = refl

get_avail-playing : get_avail playing ≡ 32768
unfolding get_avail
get_avail-playing = refl

-- The server's count says 100 bytes less.
abbrev difference : ℤ
difference = delta_of playing (pos 99000) (pos 87300) -ℤ raw_delay half playing

correct-delay_offset_example :
    let offset = (correct half (pos 99000) (pos 87300) playing).delay_offset in
    (offset ≤ℤ (pos 0 +ℤ pos 512)) × (pos 0 ≤ℤ (offset +ℤ pos 512))
correct-delay_offset_example = correct-delay_offset half (pos 99000) (pos 87300) playing
