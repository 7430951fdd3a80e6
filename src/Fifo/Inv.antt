-- ===== src/Fifo/Inv.antt =====
-- The invariant of the FIFO of src/librsound/buffer.c, and that its operations keep it.
use rsound.Base.{
  ℕ, ◌+◌, ◌-◌, ◌%◌, ◌^◌, min, ltb, if◌then◌else◌, ◌≤◌, ◌<◌, ◌≡◌, true, some, List, arith, length,
  take, drop, length-take, length-drop, length-replicate, length-memcpy, memcpy,
}
use rsound.Fifo.{Fifo, new, before_wrap, read_avail, write_avail, write, read}

pub record IsValid (f : Fifo) : Type 0 where
  pub storage : length f.buffer ≡ f.bufsize
  pub small : f.bufsize ≤ 2 ^ 62
  pub first_in : f.first < f.bufsize
  pub end_in : f.end < f.bufsize

pub new-IsValid : (size : ℕ) {f : Fifo} → size < 2 ^ 62 → new true true size ≡ some f → IsValid f
unfolding new
new-IsValid size h e = ground (arith, length-replicate {A = ℕ} (size + 1) 0)

-- Without wrap the sums of the code are the sums of numbers.
pub read_avail_lem :
    {f : Fifo}
    → IsValid f
    → read_avail f ≡ (if ltb f.end f.first then f.end + f.bufsize - f.first else f.end - f.first)
unfolding read_avail
read_avail_lem v = ground arith

pub read_avail-lt : {f : Fifo} → IsValid f → read_avail f < f.bufsize
read_avail-lt v = ground (arith, read_avail_lem v)

-- What can be read and what can be written make up the capacity.
pub avail-add : {f : Fifo} → IsValid f → read_avail f + write_avail f ≡ f.bufsize - 1
unfolding read_avail write_avail
avail-add v = ground arith

pub before_wrap_lem :
    {f : Fifo} (i size : ℕ)
    → IsValid f
    → i < f.bufsize
    → size < f.bufsize
    → before_wrap f i size ≡ min size (f.bufsize - i)
before_wrap_lem i size v h k = ground arith

-- The two copies of a write that is split after `k` bytes.
abbrev pub store : List ℕ → ℕ → ℕ → List ℕ → List ℕ
store buf i k xs = memcpy (memcpy buf i (take k xs)) 0 (drop k xs)

pub length-store :
    (buf : List ℕ) (i k : ℕ) (xs : List ℕ)
    → k ≤ length xs
    → i + k ≤ length buf
    → length xs ≤ length buf + k
    → length (store buf i k xs) ≡ length buf
length-store buf i k xs h p q = omega (
  arith,
  length-memcpy (memcpy buf i (take k xs)) (drop k xs) 0 (omega (arith, front, length-drop k xs)),
  front,
)
  where
    front : length (memcpy buf i (take k xs)) ≡ length buf
    front = length-memcpy buf (take k xs) i (omega (arith, length-take k xs))

-- What a write that is not refused gives.
pub write-some :
    {f g : Fifo} (xs : List ℕ)
    → IsValid f
    → write f xs ≡ some g
    → (length xs + read_avail f < f.bufsize)
      × (g ≡ record f {
        buffer = store f.buffer f.end (min (length xs) (f.bufsize - f.end)) xs;
        end = (f.end + length xs) % f.bufsize;
      })
unfolding write
write-some {f} xs v e = ground (arith, avail-add v, before_wrap_lem f.end (length xs) v)

pub write-IsValid : {f g : Fifo} (xs : List ℕ) → IsValid f → write f xs ≡ some g → IsValid g
write-IsValid {f} xs v e =
    let (fits, same) = write-some xs v e in
    ground (arith, length-store f.buffer f.end (min (length xs) (f.bufsize - f.end)) xs, fits, same)

pub read-IsValid :
    {f g : Fifo} {out : List ℕ} (n : ℕ) → IsValid f → read f n ≡ some (out, g) → IsValid g
unfolding read
read-IsValid {f} n v e = ground arith
