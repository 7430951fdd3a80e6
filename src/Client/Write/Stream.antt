-- ===== src/Client/Write/Stream.antt =====
-- src/librsound/librsound.c: what `rsd_write` is given goes out on the wire once and in order.
use rsound.Base.{ℕ, suc, ◌+◌, ◌*◌, ◌^◌, ◌≤◌, ◌<◌, ◌≡◌, ◌⊎◌, Bool, true, false, some, List, [], ◌++◌}
use rsound.Fifo
use rsound.Fifo.Inv.{IsValid}
use rsound.Fifo.Refine.{contents}
use rsound.Client.Write.{Session, Phase, looping, idle, napping, gone, holding, counting}

-- The chunk that has left the FIFO and is not on the wire yet.
abbrev pub in_flight : Phase → List ℕ
in_flight (holding chunk) = chunk
in_flight phase = []

abbrev pub ended : Phase → Bool
ended gone = true
ended phase = false

-- A running stream that has sent, is sending and holds the bytes `q`, in this order.
pub record Streams (q : List ℕ) (s : Session) : Type 0 where
  pub fifo : Fifo.Fifo
  pub same : s.rd.fifo_buffer ≡ some fifo
  pub valid : IsValid fifo
  pub bytes : s.wire ++ (in_flight s.phase ++ contents fifo) ≡ q
  pub size : fifo.bufsize ≡ suc s.rd.buffer_size
  pub active : s.rd.thread_active ≡ true
  pub lives : ended s.phase ≡ false
  pub some_chunk : 1 ≤ s.rd.chunk_size
  pub two_chunks : s.rd.chunk_size * 2 ≤ s.rd.buffer_size
  pub small : s.rd.buffer_size < 2 ^ 62

-- A stream that runs, or one whose network thread has given up.
abbrev pub Runs : List ℕ → Session → Type 0
Runs q s = Streams q s ⊎ (s.rd.thread_active ≡ false)

-- The sections after which the network thread waits with `a` bytes held, less than a chunk, and has
-- signalled, are `k` at most.
abbrev pub Due : Session → ℕ → ℕ → Phase → Type 0
Due s a k looping = 3 * a + 2 ≤ k
Due s a k (holding chunk) = 3 * a + 4 ≤ k
Due s a k (counting n) = 3 * a + 3 ≤ k
Due s a k idle = (a < s.rd.chunk_size) × (1 ≤ k)
Due s a k napping = (a < s.rd.chunk_size) × (s.signalled ≡ true)
Due s a k gone = ⊥

-- A section of a running stream, no send failing: it still runs, with no more bytes held, the same
-- sizes, and closer to its wait.
pub record Moved (q : List ℕ) (s : Session) (a : ℕ) (t : Session) : Type 0 where
  pub streams : Streams q t
  pub fewer : Fifo.read_avail streams.fifo ≤ a
  pub chunk : t.rd.chunk_size ≡ s.rd.chunk_size
  pub buffer : t.rd.buffer_size ≡ s.rd.buffer_size
  pub due : (k : ℕ) → Due s a (suc k) s.phase → Due t (Fifo.read_avail streams.fifo) k t.phase
