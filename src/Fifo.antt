-- ===== src/Fifo.antt =====
-- src/librsound/buffer.c: the byte FIFO between the application and the network thread.
-- The storage holds one byte more than the FIFO takes, so that a full buffer and an empty one
-- differ. A failed `assert` is `none`; so is a failed `calloc`, whose outcomes are arguments.
pub mod Size
pub mod Queue
pub mod Inv
pub mod Refine
pub mod Bounds
pub mod Access
mod Tests
use rsound.Base.{
  ℕ, ◌+◌, ◌-◌, ◌%◌, Bool, ◌&&◌, Option, none, some, List, [], ◌∷◌, ◌++◌, ltb, leb, if◌then◌else◌,
  length, take, drop, replicate, memcpy, bytes_at,
}
use Size.{add_size, sub_size}
use Queue.{Op, put, get}

-- `struct rsound_fifo_buffer`. Bytes are only moved here, so a byte is any number.
pub record Fifo : Type 0 where
  pub buffer : List ℕ
  pub bufsize : ℕ
  pub first : ℕ
  pub end : ℕ

-- `rsnd_fifo_new`: the two flags say whether each `calloc` succeeds.
unfoldable pub new : Bool → Bool → ℕ → Option Fifo
new struct_ok storage_ok size =
    if struct_ok && storage_ok
    then some (record {
      buffer = replicate (add_size size 1) 0;
      bufsize = add_size size 1;
      first = 0;
      end = 0;
    })
    else none

-- The local `end` of the two functions below, moved past `first`.
abbrev pub unwrapped_end : Fifo → ℕ
unwrapped_end f = if ltb f.end f.first then add_size f.end f.bufsize else f.end

unfoldable pub read_avail : Fifo → ℕ
read_avail f = sub_size (unwrapped_end f) f.first

unfoldable pub write_avail : Fifo → ℕ
write_avail f = sub_size (sub_size f.bufsize 1) (sub_size (unwrapped_end f) f.first)

-- How many of `size` bytes lie before the end of the storage, from index `at`.
abbrev pub before_wrap : Fifo → ℕ → ℕ → ℕ
before_wrap f at size = if ltb f.bufsize (add_size at size) then sub_size f.bufsize at else size

-- `rsnd_fifo_write`: the second `memcpy` is of no bytes where `rest_write` is 0.
unfoldable pub write : Fifo → List ℕ → Option Fifo
write f in_buf =
    let size = length in_buf in
    let first_write = before_wrap f f.end size in
    if leb size (write_avail f)
    then some (record f {
      buffer = memcpy (memcpy f.buffer f.end (take first_write in_buf)) 0 (drop first_write in_buf);
      end = add_size f.end size % f.bufsize;
    })
    else none

-- `rsnd_fifo_read`: the bytes that go out through `in_buf`, and the new state.
unfoldable pub read : Fifo → ℕ → Option (List ℕ × Fifo)
read f size =
    let first_read = before_wrap f f.first size in
    if leb size (read_avail f)
    then some (
      bytes_at f.buffer f.first first_read ++ bytes_at f.buffer 0 (sub_size size first_read),
      record f { first = add_size f.first size % f.bufsize },
    )
    else none

-- A client's calls in order, with what the reads return.
pub run : Fifo → List Op → Option (List (List ℕ) × Fifo)
run f [] = some ([], f)
run f (put xs ∷ ops) = elim (write f xs) [ none ↦ none | some f' ↦ run f' ops ]
run f (get n ∷ ops) = elim (read f n) [
  | none ↦ none
  | some (xs, f') ↦ elim (run f' ops) [ none ↦ none | some (outs, r) ↦ some (xs ∷ outs, r) ]
]
