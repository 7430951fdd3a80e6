-- ===== src/Client/Handshake.antt =====
-- `rsnd_get_backend_info` of src/librsound/librsound.c, and `send_backend_info` of
-- src/rsound-common.c, which it reads from. The options set on TCP sockets are left out: the
-- source tests `conn_type & RSD_CONN_TCP`, where RSD_CONN_TCP is 0.
use Prim.Native.Nat.{bit_or}
use rsound.Base.{
  ℕ, ◌*◌, ◌%◌, ◌^◌, Bool, true, false, ◌||◌, Option, none, some, List, [], ◌++◌, ◌==◌,
  if◌then◌else◌, ltb, replicate, min, take,
}
use rsound.Endian.{is_little_endian, store32, load32, swap_endian_32}
use rsound.Fifo
use rsound.Net.{
  Event, polled, interrupted, poll_failed, Outcome, pending, failed, returned, Received, recv_chunk,
}
use rsound.Client.{Rsound}

-- RSD_CONN_PROTO
abbrev pub conn_proto : ℕ
conn_proto = 0x100

-- MAX_CHUNK_SIZE
abbrev pub max_chunk_size : ℕ
max_chunk_size = 1024

-- The word at an index of `rsnd_header`, out of big-endian order.
abbrev pub header_word : Bool → List ℕ → ℕ → ℕ
header_word little buf i =
    let word = load32 little buf (i * 4) in
    if is_little_endian little == 1 then swap_endian_32 word else word

abbrev pub clamp_chunk : ℕ → ℕ
clamp_chunk chunk = if ltb max_chunk_size chunk || (chunk == 0) then max_chunk_size else chunk

abbrev pub default_buffer : ℕ → ℕ → ℕ
default_buffer buffer_size chunk =
    if (buffer_size == 0) || ltb buffer_size (chunk * 2 % 2 ^ 32)
    then chunk * 32 % 2 ^ 32
    else buffer_size

-- The state once the 8 bytes are there, with the new FIFO or without one.
abbrev pub learn : Bool → List ℕ → Option Fifo.Fifo → Rsound → Rsound
learn little buf fifo rd =
    let chunk = clamp_chunk (header_word little buf 1) in
    record rd {
      latency = header_word little buf 0;
      chunk_size = chunk;
      buffer_size = default_buffer rd.buffer_size chunk;
      fifo_buffer = fifo;
    }

-- What the system answers: whether the two allocations of the FIFO succeed, and to the two reads.
pub record Answers : Type 0 where
  pub struct_ok : Bool
  pub storage_ok : Bool
  pub first_read : List Event
  pub second_read : List Event

-- The end, from what the second read returns: 8 bytes mean that the server speaks the protocol.
abbrev pub read_proto : Outcome → Rsound → Option (Bool × Rsound)
read_proto pending rd = none
read_proto failed rd = some (true, rd)
read_proto (returned m) rd =
    some (true, if m == 8 then record rd { conn_type = bit_or rd.conn_type conn_proto } else rd)

-- From the new FIFO on, with the bytes that the first read stored and left.
abbrev pub with_fifo :
    Bool → Answers → Received → Option Fifo.Fifo → Rsound → Option (Bool × Rsound)
with_fifo little answers r none rd = some (false, learn little r.buffer none rd)
with_fifo little answers r (some fifo) rd =
    read_proto (recv_chunk false 8 [] r.stream answers.second_read).outcome
      (learn little r.buffer (some fifo) rd)

-- From what the first read returns on.
abbrev pub read_info : Bool → Answers → Received → Outcome → Rsound → Option (Bool × Rsound)
read_info little answers r pending rd = none
read_info little answers r failed rd = some (false, rd)
read_info little answers r (returned n) rd =
    let size = (learn little r.buffer none rd).buffer_size in
    if n == 8
    then with_fifo little answers r (Fifo.new answers.struct_ok answers.storage_ok size) rd
    else some (false, rd)

-- `rsnd_get_backend_info`, on the bytes that arrive: 0 or -1, or `none` while it waits.
unfoldable pub get_backend_info : Bool → Answers → List ℕ → Rsound → Option (Bool × Rsound)
get_backend_info little answers s rd =
    let r = recv_chunk true 8 [] s answers.first_read in read_info little answers r r.outcome rd

-- A word whose native representation is big-endian.
abbrev pub big_word : Bool → ℕ → ℕ
big_word little x = if is_little_endian little == 1 then swap_endian_32 x else x

-- The 16 bytes of `send_backend_info`, from the backend's latency and chunk size.
abbrev pub backend_header : Bool → ℕ → ℕ → List ℕ
backend_header little latency chunk =
    store32 little (big_word little latency)
    ++ (store32 little (big_word little chunk) ++ replicate 8 0)

-- `send_backend_info`, which polls once and sends once: whether it returns 0, and what it sent.
unfoldable pub send_backend_info : Bool → ℕ → ℕ → Event → Bool × List ℕ
send_backend_info little latency chunk interrupted = (false, [])
send_backend_info little latency chunk poll_failed = (false, [])
send_backend_info little latency chunk (polled true hup none) = (false, [])
send_backend_info little latency chunk (polled true hup (some room)) =
    (min room 16 == 16, take (min room 16) (backend_header little latency chunk))
send_backend_info little latency chunk (polled false hup io) = (false, [])
