-- ===== src/Client/Callback.antt =====
-- `rsnd_cb_thread` of src/librsound/librsound.c, the thread of a client with an audio callback. The
-- answers of the callback, of the system and of the clock are arguments.
use Prim.Native.Nat.{bit_and}
use rsound.Base.{
  ℕ, ◌+◌, ◌-◌, Bool, true, false, ◌&&◌, not, Option, none, some, List, [], ◌∷◌, ◌++◌, ◌==◌, ltb,
  if◌then◌else◌, length, take, replicate,
}
use rsound.Base.Int.{pos, ltb_ℤ, to_signed, quotient}
use rsound.Net.{Event, Outcome, pending, failed, returned, send_chunk}
use rsound.Client.{Rsound, reset}
use rsound.Client.Handshake.{conn_proto}
use rsound.Client.Text.{info_query}
use rsound.Client.Delay.{Elapsed, delay, delay_ms, delay_wait, bytes_per_second}
use rsound.Client.Update.{Pass, read_messages, update_server_info}

-- One call of `audio_callback`: the bytes that it stores, or a negative result; and the clock where
-- the delay is asked for.
pub record Called : Type 0 where
  pub stored : Option (List ℕ)
  pub at : Elapsed

-- How the filling of a chunk ends: whole, or with an error of the callback, or by a division by the
-- 0 bytes of a second, or with the last answer used.
pub data Filling : Type 0 where
  full : Rsound → List ℕ → Filling
  refused undefined unfinished : Filling

-- The size of a call: `cb_max_size` at most where it is not 0.
abbrev pub read_size_of : ℕ → Rsound → ℕ
read_size_of cb_max_size rd =
    if not (cb_max_size == 0) && ltb cb_max_size rd.chunk_size then cb_max_size else rd.chunk_size

abbrev pub will_read : ℕ → Rsound → List ℕ → ℕ
will_read read_size rd got =
    let left = rd.chunk_size - length got in if ltb read_size left then read_size else left

-- A call that stores less than was asked for: zeros are put in if the delay is short.
abbrev pub after_short :
    (Rsound → List ℕ → Filling) → Called → ℕ → Rsound → List ℕ → Option ℕ → Filling
after_short continue c missing rd got none = undefined
after_short continue c missing rd got (some ms) =
    let rd1 = (delay c.at rd).1 in
    if ltb_ℤ (to_signed 32 (pos ms)) (quotient rd.max_latency 2)
    then continue rd1 (got ++ replicate missing 0)
    else continue rd1 got

abbrev pub after_call :
    (Rsound → List ℕ → Filling) → Called → ℕ → Rsound → List ℕ → Option (List ℕ) → Filling
after_call continue c size rd got none = refused
after_call continue c size rd got (some bytes) =
    let stored = take size bytes in
    if ltb (length stored) size
    then after_short continue c (size - length stored) rd (got ++ stored) (delay_ms c.at rd)
    else continue rd (got ++ stored)

-- The loop that fills the chunk, with the bytes `got` stored.
unfoldable pub fill_chunk : ℕ → List Called → Rsound → List ℕ → Filling
fill_chunk read_size [] rd got = if ltb (length got) rd.chunk_size then unfinished else full rd got
fill_chunk read_size (c ∷ cs) rd got =
    if ltb (length got) rd.chunk_size
    then after_call (fill_chunk read_size cs) c (will_read read_size rd got) rd got c.stored
    else full rd got

-- What one pass of the thread gets: the calls, the answers to sending the chunk and to the query,
-- what the replies of the server are read with, and the clock then and at the end.
pub record Turn : Type 0 where
  pub calls : List Called
  pub sends : List Event
  pub query_sends : List Event
  pub replies : List Pass
  pub update_at : Elapsed
  pub wait_at : Elapsed

-- How the thread ends: it is stopped, or fails and calls `error_callback`, or is not done.
pub data End : Type 0 where
  stopped failed_stream undefined_delay running : End

-- The client after, the packets on its two sockets, how long it sleeps between passes, and what is
-- left of the control stream.
pub record Run : Type 0 where
  pub end : End
  pub rd : Rsound
  pub wire : List (List ℕ)
  pub queries : List (List ℕ)
  pub sleeps : List ℕ

abbrev pub ended : End → Rsound → Run
ended end rd = record { end = end; rd = rd; wire = []; queries = []; sleeps = [] }

-- The query for delay information, once a second of audio is sent.
abbrev pub asks : Rsound → Bool
asks rd = not (bit_and rd.conn_type conn_proto == 0) && ltb (bytes_per_second rd) rd.total_written

abbrev pub with_info : Turn → Rsound → List ℕ → Rsound × List ℕ × List (List ℕ)
with_info t rd s =
    if asks rd
    then (
      (update_server_info t.replies t.update_at s rd).1,
      (read_messages t.replies none s).1,
      (send_chunk false (info_query rd.total_written) 0 t.query_sends).1,
    )
    else (rd, s, [])

-- The wait for the latency, whose delay the client keeps.
abbrev pub after_wait : (Rsound → List ℕ → Run) → Turn → Rsound → List ℕ → Option ℕ → Run
after_wait continue t rd s none = ended undefined_delay rd
after_wait continue t rd s (some ms) =
    let rd1 = if ltb_ℤ (pos 0) rd.max_latency then (delay t.wait_at rd).1 else rd in
    let later = continue rd1 s in record later { sleeps = ms ∷ later.sleeps }

abbrev pub with_queries : List (List ℕ) → Run → Run
with_queries queries r = record r { queries = queries ++ r.queries }

abbrev pub with_wire : List (List ℕ) → Run → Run
with_wire packets r = record r { wire = packets ++ r.wire }

-- A chunk that is sent whole counts; any other result resets the stream.
abbrev pub after_sent : (Rsound → List ℕ → Run) → Turn → Rsound → List ℕ → Outcome → Run
after_sent continue t rd s pending = ended running rd
after_sent continue t rd s failed = ended failed_stream (reset rd).0
after_sent continue t rd s (returned n) =
    let rd1 = record rd { has_written = true; total_written = rd.total_written + rd.chunk_size } in
    let (rd2, s2, queries) = with_info t rd1 s in
    if n == rd.chunk_size
    then with_queries queries (after_wait continue t rd2 s2 (delay_wait t.wait_at rd2))
    else ended failed_stream (reset rd).0

abbrev pub after_fill : (Rsound → List ℕ → Run) → Turn → Rsound → List ℕ → Filling → Run
after_fill continue t rd s refused = ended failed_stream (reset rd).0
after_fill continue t rd s undefined = ended undefined_delay rd
after_fill continue t rd s unfinished = ended running rd
after_fill continue t rd s (full rd1 buffer) =
    let (rc, packets) = send_chunk true buffer 0 t.sends in
    with_wire packets (after_sent continue t rd1 s rc)

-- `rsnd_cb_thread`, with the control stream.
unfoldable pub cb_thread : ℕ → List Turn → Rsound → List ℕ → Run
cb_thread read_size [] rd s = ended (if rd.thread_active then running else stopped) rd
cb_thread read_size (t ∷ ts) rd s =
    if rd.thread_active
    then after_fill (cb_thread read_size ts) t rd s (fill_chunk read_size t.calls rd [])
    else ended stopped rd
