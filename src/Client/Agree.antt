-- ===== src/Client/Agree.antt =====
-- The client's `rsnd_get_backend_info` of src/librsound/librsound.c behind the server's
-- `send_backend_info` of src/rsound-common.c.
use Prim.Native.Nat.{bit_or}
use rsound.Base.{
  ℕ, ◌*◌, ◌^◌, ◌<◌, ◌≤◌, ◌≡◌, ◌⊎◌, refl, ap, Bool, true, false, Option, none, some, List, [], ◌++◌,
  ◌==◌, if◌then◌else◌, replicate, arith, Bool-cases, inl, inr, min,
}
use rsound.Endian.{is_little_endian, store32, load32}
use rsound.Endian.Laws.{store-swap, swap_endian_32_lem}
use rsound.Fifo
use rsound.Fifo.Inv.{IsValid}
use rsound.Fifo.Bounds.{new_lem}
use rsound.Net.{Event, polled, pending, Received, Outcome, failed, returned, recv_chunk}
use rsound.Net.Recv.{received_path, recv_chunk_lem, split_at_length}
use rsound.Client.{Rsound}
use rsound.Client.Handshake.{
  conn_proto, max_chunk_size, header_word, clamp_chunk, default_buffer, learn, read_proto,
  with_fifo, read_info, Answers, get_backend_info, big_word, backend_header, send_backend_info,
}

store32-big_word :
    (little : Bool) (x : ℕ) → x < 2 ^ 32 → store32 little (big_word little x) ≡ store32 false x
unfolding is_little_endian
store32-big_word true x h = (store-swap true 0 x (omega arith) h).1
store32-big_word false x h = refl

abbrev two_words : ℕ → ℕ → List ℕ
two_words a b = store32 false a ++ store32 false b

header_word-two_words :
    (little : Bool) (a b : ℕ)
    → a < 2 ^ 32
    → b < 2 ^ 32
    → (header_word little (two_words a b) 0 ≡ a) × (header_word little (two_words a b) 1 ≡ b)
unfolding is_little_endian
header_word-two_words true a b h k = (
  omega (arith, swap_endian_32_lem (load32 true (two_words a b) 0) (omega arith)),
  omega (arith, swap_endian_32_lem (load32 true (two_words a b) 4) (omega arith)),
)
header_word-two_words false a b h k = (omega arith, omega arith)

backend_header-two_words :
    (little : Bool) (a b : ℕ)
    → a < 2 ^ 32
    → b < 2 ^ 32
    → backend_header little a b ≡ two_words a b ++ replicate 8 0
backend_header-two_words little a b h k =
    rw (store32-big_word little a h, store32-big_word little b k) refl

-- The state of a client that has read a latency and a chunk size and the 8 bytes after them.
abbrev pub informed : ℕ → ℕ → Rsound → Rsound
informed latency chunk rd = record rd {
  latency = latency;
  chunk_size = clamp_chunk chunk;
  buffer_size = default_buffer rd.buffer_size (clamp_chunk chunk);
  fifo_buffer = Fifo.new true true (default_buffer rd.buffer_size (clamp_chunk chunk));
  conn_type = bit_or rd.conn_type conn_proto;
}

-- The answers of a system whose allocations succeed.
abbrev pub reads : List Event → List Event → Answers
reads first second = record {
  struct_ok = true;
  storage_ok = true;
  first_read = first;
  second_read = second;
}

reads_back :
    (client : Bool) (a b : ℕ) (rd : Rsound) (first second : List Event)
    → a < 2 ^ 32
    → b < 2 ^ 32
    → (recv_chunk true 8 [] (two_words a b ++ replicate 8 0) first).outcome ≡ returned 8
    → (recv_chunk false 8 [] (replicate 8 0) second).outcome ≡ returned 8
    → get_backend_info client (reads first second) (two_words a b ++ replicate 8 0) rd
      ≡ some (true, informed a b rd)
unfolding get_backend_info Fifo.new
reads_back client a b rd first second ha hb got1 got2 =
    let (split, len, _, _) = recv_chunk_lem true 8 (two_words a b ++ replicate 8 0) first 7 got1 in
    let (eb, es) = split_at_length _ _ (two_words a b) (replicate 8 0) split len in
    let (w0, w1) = header_word-two_words client a b ha hb in
    rw (received_path _ _ _ _ got1 eb es, got2, w0, w1) refl

-- For servers and clients of either byte order: when the server's `send_backend_info` sends its
-- 16 bytes and the client's two reads get 8 bytes each, then `rsnd_get_backend_info` succeeds
-- with the server's latency, its chunk size if that is from 1 to 1024 and else 1024, a buffer
-- size and a FIFO to fit, and the mark that the server speaks the control protocol.
pub get_backend_info-send_backend_info :
    (server client hup : Bool) (latency chunk room : ℕ) (rd : Rsound) (first second : List Event)
    → latency < 2 ^ 32
    → chunk < 2 ^ 32
    → 16 ≤ room
    → let (sent, bytes) = send_backend_info server latency chunk (polled true hup (some room)) in
      (recv_chunk true 8 [] bytes first).outcome ≡ returned 8
      → (recv_chunk false 8 [] (replicate 8 0) second).outcome ≡ returned 8
      → (sent ≡ true)
        × (get_backend_info client (reads first second) bytes rd
            ≡ some (true, informed latency chunk rd))
unfolding send_backend_info
get_backend_info-send_backend_info server client hup latency chunk room rd first second ha hb hr
      got1 got2 =
    let m : min room 16 ≡ 16 = omega arith in
    let h = backend_header-two_words server latency chunk ha hb in
    (
      rw m refl,
      rw (m, h) (reads_back client latency chunk rd first second ha hb (rw (m, h) at got1) got2),
    )

-- A chunk size from 1 to 1024, room for two chunks, and a valid FIFO of the buffer's size.
unfoldable pub Fits : Rsound → Type 0
Fits rd =
    (1 ≤ rd.chunk_size)
    × (rd.chunk_size ≤ max_chunk_size)
    × (rd.chunk_size * 2 ≤ rd.buffer_size)
    × ((f : Fifo.Fifo) × (rd.fifo_buffer ≡ some f)
        × IsValid f
        × (Fifo.write_avail f ≡ rd.buffer_size))

state_of : Rsound → Option (Bool × Rsound) → Rsound
state_of d none = d
state_of d (some (rc, rd)) = rd

read_proto-Fits :
    (o : Outcome) (rd rd1 : Rsound) → Fits rd → read_proto o rd ≡ some (true, rd1) → Fits rd1
unfolding Fits state_of
read_proto-Fits pending rd rd1 h e = absurd (ground arith)
read_proto-Fits failed rd rd1 h e = let same : rd ≡ rd1 = ap (state_of rd) e in rw same at h
read_proto-Fits (returned m) rd rd1 h e =
    let same = ap (state_of rd) e in rw same at (marked (m == 8))
  where
    marked :
        (b : Bool)
        → Fits (if b then record rd { conn_type = bit_or rd.conn_type conn_proto } else rd)
    marked true = h
    marked false = h

clamp_chunk_lem : (c : ℕ) → (1 ≤ clamp_chunk c) × (clamp_chunk c ≤ max_chunk_size)
clamp_chunk_lem c = ground arith

default_buffer_lem :
    (b c : ℕ)
    → b < 2 ^ 62
    → c ≤ max_chunk_size
    → (c * 2 ≤ default_buffer b c) × (default_buffer b c < 2 ^ 62)
default_buffer_lem b c h k = ground arith

no_storage : (size : ℕ) → Fifo.new true false size ≡ none
unfolding Fifo.new
no_storage size = refl

no_struct : (b : Bool) (size : ℕ) → Fifo.new false b size ≡ none
unfolding Fifo.new
no_struct b size = refl

fifo_cases :
    (a b : Bool) (size : ℕ)
    → size < 2 ^ 62
    → (Fifo.new a b size ≡ none)
      ⊎ ((f : Fifo.Fifo) × (Fifo.new a b size ≡ some f) × IsValid f × (Fifo.write_avail f ≡ size))
fifo_cases true true size h = let (f, made, v, _, w) = new_lem size h in inr (f, made, v, w)
fifo_cases true false size h = inl (no_storage size)
fifo_cases false b size h = inl (no_struct b size)

with_fifo-Fits :
    (little : Bool) (answers : Answers) (r : Received) (rd rd1 : Rsound)
    → rd.buffer_size < 2 ^ 62
    → with_fifo little answers r
        (Fifo.new answers.struct_ok answers.storage_ok (learn little r.buffer none rd).buffer_size)
        rd
      ≡ some (true, rd1)
    → Fits rd1
unfolding Fits
with_fifo-Fits little answers r rd rd1 h e =
    let (low, high) = clamp_chunk_lem (header_word little r.buffer 1) in
    let (twice, below) =
      default_buffer_lem rd.buffer_size (clamp_chunk (header_word little r.buffer 1)) h high in
    elim (fifo_cases answers.struct_ok answers.storage_ok _ below) [
      | inl none_left ↦ absurd (refused (rw none_left at e))
      | inr (f, made, v, w) ↦
          read_proto-Fits (recv_chunk false 8 [] r.stream answers.second_read).outcome
            (learn little r.buffer (some f) rd) rd1 (low, high, twice, (f, refl, v, w))
            (rw made at e)
    ]
  where
    refused :
        {rd0 : Rsound} → Path (Option (Bool × Rsound)) (some (false, rd0)) (some (true, rd1)) → ⊥
    refused k = ground arith

-- Whatever bytes a server sends: when `rsnd_get_backend_info` succeeds, the chunk size is from 1
-- to 1024, the buffer takes at least two chunks, and the FIFO is a valid one with room for all of
-- the buffer's size.
pub get_backend_info-Fits :
    (little : Bool) (answers : Answers) (s : List ℕ) (rd rd1 : Rsound)
    → rd.buffer_size < 2 ^ 62
    → get_backend_info little answers s rd ≡ some (true, rd1)
    → Fits rd1
unfolding get_backend_info
get_backend_info-Fits little answers s rd rd1 h e =
    let r = recv_chunk true 8 [] s answers.first_read in from_outcome r r.outcome e
  where
    from_outcome :
        (r : Received) (o : Outcome) → read_info little answers r o rd ≡ some (true, rd1) → Fits rd1
    from_outcome r pending k = absurd (ground arith)
    from_outcome r failed k = absurd (ground arith)
    from_outcome r (returned n) k = elim (Bool-cases (n == 8)) [
      | inl eight ↦ with_fifo-Fits little answers r rd rd1 h (rw eight at k)
      | inr other ↦ absurd (ground arith)
    ]
