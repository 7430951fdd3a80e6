-- ===== src/Server/Thread.antt =====
-- `rsd_thread` of src/rsound-common.c: the server's thread for one connection. What the system and
-- the backend answer is an argument; the calls of the resampler are one function, which stands for
-- src/resampler.c and its callback. The socket options and the messages to the log are left out.
use rsound.Base.{
  ℕ, Bool, true, false, ◌&&◌, ◌||◌, not, Option, none, some, List, [], ◌∷◌, ◌++◌, ◌==◌, ltb,
  if◌then◌else◌, length, take, drop,
}
use rsound.Base.Int.{pos}
use rsound.Net.{Event}
use rsound.Wav.Decode.{WavHeader, get_wav_header}
use rsound.Format.{s16_le, s16_be, s32_le, s32_be}
use rsound.Client.Handshake.{send_backend_info}
use rsound.Proto.Serve.{Action, closed, Connection, close_ctl}
use rsound.Server.{Turn, Outcome, returned, overran, waiting, Receipt, Rest, receive_data}

-- The byte order of the machine, `resample_freq` and `verbose`.
pub record Settings : Type 0 where
  pub little : Bool
  pub resample_freq : ℕ
  pub verbose : Bool

-- `backend_info_t`; `scale` is the product of a rate and the ratio.
pub record BackendInfo : Type 0 where
  pub latency : ℕ
  pub chunk_size : ℕ
  pub resample : Bool
  pub scale : ℕ → ℕ

-- What one pass of the playing loop gets: the passes of `receive_data`, what the resampler reads
-- in its place, and what the calls of the backend's `write` return.
pub record Chunk : Type 0 where
  pub turns : List Turn
  pub resampled : Rest
  pub writes : List ℕ

-- What the thread gets from the system and the backend until then.
pub record Replies : Type 0 where
  pub header_turns : List Turn
  pub init : Bool
  pub opens : WavHeader → Bool
  pub info : BackendInfo
  pub memory : Bool
  pub resampler : Bool
  pub info_event : Event
  pub chunks : List Chunk

-- How the thread ends: it exits, or overruns a buffer, or waits with the last answer used.
pub data ThreadEnd : Type 0 where
  exited crashed blocked : ThreadEnd

-- What the thread does: the bytes sent to the client, those that the backend takes, the calls on
-- the sockets, and whether the backend is closed.
pub record Played : Type 0 where
  pub end : ThreadEnd
  pub reply : List ℕ
  pub played : List ℕ
  pub actions : List Action
  pub backend_closed : Bool

abbrev pub unfinished : ThreadEnd → Played
unfinished end = record { end = end; reply = []; played = []; actions = []; backend_closed = false }

-- The exit for a header that is not accepted: both sockets are closed, also a control socket of 0.
abbrev pub reject : Connection → Played
reject conn = record (unfinished exited) {
  actions = closed conn.socket ∷ closed conn.ctl_socket ∷ [];
}

-- `rsd_exit`
abbrev pub rsd_exit : Connection → Played
rsd_exit conn = record (unfinished exited) {
  actions = closed conn.socket ∷ close_ctl conn.ctl_socket;
  backend_closed = true;
}

-- The format that is resampled to.
abbrev pub resampled_to : Bool → WavHeader → ℕ → WavHeader → WavHeader
resampled_to little w_orig rate w =
    let wide = w_orig.bits_per_sample == 32 in
    record w {
      sample_rate = rate;
      bits_per_sample = if wide then 32 else 16;
      rsd_format =
          if wide then (if little then s32_le else s32_be) else (if little then s16_le else s16_be);
    }

-- Whether to resample to `resample_freq`, and the format for the backend.
abbrev pub forced : Settings → WavHeader → Bool × WavHeader
forced set w_orig =
    if ltb 0 set.resample_freq && not (set.resample_freq == w_orig.sample_rate)
    then (true, resampled_to set.little w_orig set.resample_freq w_orig)
    else (false, w_orig)

-- The same once the backend has said what it needs.
abbrev pub negotiated : Settings → BackendInfo → WavHeader → Bool × WavHeader → Bool × WavHeader
negotiated set b w_orig (resample, w) =
    if b.resample
    then (true, resampled_to set.little w_orig (b.scale w.sample_rate) w)
    else (resample, w)

-- The loop of `write` on what is left of the buffer.
pub data Written : Type 0 where
  all refused some_left : Written

unfoldable pub write_chunk : List ℕ → List ℕ → Written × List ℕ
write_chunk [] buffer = if length buffer == 0 then (all, []) else (some_left, [])
write_chunk (rc ∷ rcs) buffer =
    let rest = write_chunk rcs (drop rc buffer) in
    if length buffer == 0
    then (all, [])
    else if rc == 0
    then (refused, [])
    else (rest.0, take rc buffer ++ rest.1)

-- The identity is printed once.
abbrev pub announce : Bool → Connection → Connection
announce verbose conn =
    if verbose && ltb 0 (length conn.identity) then record conn { identity = [] } else conn

abbrev pub after : List ℕ → List Action → Played → Played
after bytes actions r = record r { played = bytes ++ r.played; actions = actions ++ r.actions }

-- After the writes of a chunk, `continue` being the rest of the loop.
abbrev pub after_writes :
    (Connection → List ℕ → List ℕ → Played) → Receipt → Written × List ℕ → Played
after_writes continue r (all, bytes) = after bytes r.actions (continue r.conn r.stream r.ctl_stream)
after_writes continue r (refused, bytes) = after bytes r.actions (rsd_exit r.conn)
after_writes continue r (some_left, bytes) = after bytes r.actions (unfinished blocked)

-- After a read: a result of 0 ends the stream.
abbrev pub after_read :
    (Connection → List ℕ → List ℕ → Played) → List ℕ → Receipt → Outcome → Played
after_read continue writes r overran = after [] r.actions (unfinished crashed)
after_read continue writes r waiting = after [] r.actions (unfinished blocked)
after_read continue writes r (returned rc) =
    if rc == 0
    then after [] r.actions (rsd_exit r.conn)
    else after_writes continue r (write_chunk writes r.buffer)

abbrev pub read_chunk : Bool → ℕ → Chunk → Rest
read_chunk true size chunk got conn s c = chunk.resampled got conn s c
read_chunk false size chunk got conn s c = receive_data true size chunk.turns got conn s c

unfoldable pub play : Settings → Bool → ℕ → List Chunk → Connection → List ℕ → List ℕ → Played
play set resample size [] conn s c = unfinished blocked
play set resample size (chunk ∷ chunks) conn s c =
    let r = read_chunk resample size chunk [] (announce set.verbose conn) s c in
    after_read (play set resample size chunks) chunk.writes r r.outcome

-- From the backend's information on.
abbrev pub with_backend :
    Settings → Replies → Bool × WavHeader → Connection → List ℕ → List ℕ → Played
with_backend set a (resample, w) conn s c =
    let (sent, bytes) =
      send_backend_info set.little a.info.latency a.info.chunk_size a.info_event in
    if not a.memory || (resample && not a.resampler)
    then rsd_exit conn
    else if sent
    then record (play set resample a.info.chunk_size a.chunks conn s c) { reply = bytes }
    else record (rsd_exit conn) { reply = bytes }

-- From the stream header on.
abbrev pub with_header :
    Settings → Replies → Connection → List ℕ → List ℕ → Option WavHeader → Played
with_header set a conn s c none = reject conn
with_header set a conn s c (some w_orig) =
    let (resample, w) = forced set w_orig in
    if not a.init || not (a.opens w) || (a.info.chunk_size == 0)
    then rsd_exit conn
    else with_backend set a (negotiated set a.info w_orig (resample, w)) conn s c

-- `get_wav_header` works on a copy of the connection.
abbrev pub read_header : Settings → Replies → Connection → Receipt → Outcome → Played
read_header set a conn r overran = unfinished crashed
read_header set a conn r waiting = unfinished blocked
read_header set a conn r (returned rc) =
    with_header set a conn r.stream r.ctl_stream
      (if rc == 44 then get_wav_header set.little r.buffer else none)

-- A connection as the thread starts with it.
abbrev pub accepted : ℕ → ℕ → Connection
accepted socket ctl_socket = record {
  socket = socket;
  ctl_socket = ctl_socket;
  serv_ptr = pos 0;
  identity = [];
}

unfoldable pub rsd_thread : Settings → Replies → ℕ → ℕ → List ℕ → List ℕ → Played
rsd_thread set a socket ctl_socket s c =
    let conn = accepted socket ctl_socket in
    let r = receive_data false 44 a.header_turns [] conn s c in read_header set a conn r r.outcome
