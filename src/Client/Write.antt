-- ===== src/Client/Write.antt =====
-- `rsd_write`, `rsnd_fill_buffer` and the network thread `rsnd_thread` of
-- src/librsound/librsound.c. The two threads share the FIFO under a lock, so a run is a sequence
-- of their critical sections: a turn says how many sections of the network thread, and with what
-- results of its sends, come between those of the application. A signal of the condition reaches
-- only a thread that waits. The test of the FIFO and the read behind it are one section, since no
-- other thread reads. The requests for delay information, the event callback, thread cancellation,
-- spurious wake-ups and the clock are left out.
pub mod Stream
pub mod Moves
pub mod Filling
pub mod Order
pub mod Waits
pub mod Wake
use rsound.Base.{
  ℕ, zero, suc, ◌+◌, ◌-◌, ◌/◌, ◌%◌, ◌^◌, Bool, ◌||◌, true, false, not, Option, none, some, List, [],
  ◌∷◌, ◌++◌, if◌then◌else◌, ltb, leb, length, bytes_at,
}
use rsound.Fifo
use rsound.Client.{Rsound, reset, stop}

-- Where the network thread stands: before its test of the FIFO, in the send of a chunk that it has
-- taken, between the send of so many bytes and their count, before its wait, in its wait, or past
-- its end.
pub data Phase : Type 0 where
  looping idle napping gone : Phase
  holding : List ℕ → Phase
  counting : ℕ → Phase

-- A client with the bytes that its network thread has sent, where this thread stands, and whether
-- it has signalled since the application went to sleep.
pub record Session : Type 0 where
  pub rd : Rsound
  pub wire : List ℕ
  pub phase : Phase
  pub signalled : Bool

-- Whether `rsnd_send_chunk` sends the whole chunk, or fails after some bytes.
pub data Sending : Type 0 where
  whole : Sending
  lost : ℕ → Sending

-- After the send: the thread goes on, or resets the client, signals and ends.
abbrev pub after_send : Sending → List ℕ → Session → Session
after_send whole chunk s = record s { wire = s.wire ++ chunk; phase = counting (length chunk) }
after_send (lost k) chunk s = record {
  rd = (reset s.rd).0;
  wire = s.wire ++ bytes_at chunk 0 k;
  phase = gone;
  signalled = true;
}

abbrev pub with_chunk : Option (List ℕ × Fifo.Fifo) → Session → Session
with_chunk none s = record s { phase = gone }
with_chunk (some (chunk, g)) s = record s {
  rd = record s.rd { fifo_buffer = some g };
  phase = holding chunk;
}

abbrev pub take_chunk : Option Fifo.Fifo → Session → Session
take_chunk none s = record s { phase = gone }
take_chunk (some f) s =
    if ltb (Fifo.read_avail f) s.rd.chunk_size || not s.rd.thread_active
    then record s { phase = idle }
    else with_chunk (Fifo.read f s.rd.chunk_size) s

-- The next section of `rsnd_thread`, where the thread stands given.
abbrev pub step_in : Sending → Phase → Session → Session
step_in sending looping s = take_chunk s.rd.fifo_buffer s
step_in sending (holding chunk) s = after_send sending chunk s
step_in sending (counting rc) s = record s {
  rd = record s.rd { has_written = true; total_written = s.rd.total_written + rc };
  phase = looping;
  signalled = true;
}
step_in sending idle s = record s {
  phase = if s.rd.thread_active then napping else gone;
  signalled = true;
}
step_in sending napping s = s
step_in sending gone s = s

unfoldable pub network_step : Sending → Session → Session
network_step sending s = step_in sending s.phase s

unfoldable pub run_network : List Sending → Session → Session
run_network [] s = s
run_network (p ∷ ps) s = run_network ps (network_step p s)

-- What the network thread does in a pass of `rsnd_fill_buffer`: after the test of `thread_active`;
-- after the look at the FIFO, before the store or before the wait; and during the wait.
pub record Turn : Type 0 where
  pub tested : List Sending
  pub looked : List Sending
  pub waited : List Sending

-- The application's signal, which ends the wait of the network thread.
abbrev pub woken : Phase → Phase
woken napping = looping
woken phase = phase

abbrev pub wake : Session → Session
wake s = record s { phase = woken s.phase }

-- What a call returns, with the state after it and the turns that are left; `none` where it sleeps,
-- where the turns end, and where the FIFO is missing or its assertion refuses the write.
abbrev pub Filled : Type 0
Filled = Option (ℕ × Session × List Turn)

abbrev pub stored : List ℕ → List Turn → Session → Option Fifo.Fifo → Filled
stored buf turns s none = none
stored buf turns s (some g) =
    some (length buf, wake (record s { rd = record s.rd { fifo_buffer = some g } }), turns)

abbrev pub store_in : List ℕ → List Turn → Session → Option Fifo.Fifo → Filled
store_in buf turns s none = none
store_in buf turns s (some f) = stored buf turns s (Fifo.write f buf)

-- The signal and the wait, which ends when the network thread has signalled.
abbrev pub await : List Sending → (Session → Filled) → Session → Filled
await waited next s =
    let s1 = run_network waited (wake (record s { signalled = false })) in
    if s1.signalled then next s1 else none

abbrev pub with_room :
    List ℕ → Turn → List Turn → (Session → Filled) → Session → Option Fifo.Fifo → Filled
with_room buf turn turns next s none = none
with_room buf turn turns next s (some f) =
    let s1 = run_network turn.looked s in
    if leb (length buf) (Fifo.write_avail f)
    then store_in buf turns s1 s1.rd.fifo_buffer
    else await turn.waited next s1

-- One pass of the loop in `rsnd_fill_buffer`.
abbrev pub fill_pass : List ℕ → Turn → List Turn → (Session → Filled) → Session → Filled
fill_pass buf turn turns next s =
    let s1 = run_network turn.tested s in
    if not s.rd.thread_active
    then some (0, s, turns)
    else with_room buf turn turns next s1 s1.rd.fifo_buffer

-- `rsnd_fill_buffer`
unfoldable pub fill_buffer : List ℕ → List Turn → Session → Filled
fill_buffer buf [] s = none
fill_buffer buf (turn ∷ turns) s = fill_pass buf turn turns (fill_buffer buf turns) s

-- The size of the writes that `rsd_write` splits a large one into, in `size_t` arithmetic.
abbrev pub max_write : Rsound → ℕ
max_write rd = (rd.buffer_size + 2 ^ 64 - rd.chunk_size) % 2 ^ 64 / 2

abbrev pub write_size : ℕ → ℕ → ℕ
write_size most left = if ltb most left then most else left

-- What `rsd_write` does with the result of `rsnd_fill_buffer`: it stops the stream, or goes on.
abbrev pub resume :
    (ℕ → Session → List Turn → Option (ℕ × Session)) → ℕ → Filled → Option (ℕ × Session)
resume next written none = none
resume next written (some (zero, t, rest)) = some (0, record t { rd = (stop [] t.rd).0 })
resume next written (some (suc n, t, rest)) = next (written + suc n) t rest

-- The loop of `rsd_write`, on fuel: each pass writes a byte at least or is the last.
unfoldable pub write_from : ℕ → ℕ → List ℕ → ℕ → Session → List Turn → Option (ℕ × Session)
write_from zero most buf written s turns = some (written, s)
write_from (suc fuel) most buf written s turns =
    if ltb written (length buf)
    then resume (write_from fuel most buf) written
        (fill_buffer (bytes_at buf written (write_size most (length buf - written))) turns s)
    else some (written, s)

-- `rsd_write`
unfoldable pub write : List ℕ → Session → List Turn → Option (ℕ × Session)
write buf s turns =
    if not s.rd.ready_for_data
    then some (0, s)
    else write_from (length buf) (max_write s.rd) buf 0 s turns
