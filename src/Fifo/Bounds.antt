-- ===== src/Fifo/Bounds.antt =====
-- src/librsound/buffer.c: a new FIFO, and where the copies of `rsnd_fifo_write` and
-- `rsnd_fifo_read` touch the storage.
use rsound.Base.{
  ℕ, ◌+◌, ◌-◌, ◌^◌, ◌≤◌, ◌<◌, ◌≡◌, refl, true, some, none, Option, ◌⊎◌, List, [], ◌∷◌, arith,
  length,
}
use rsound.Fifo.{Fifo, read_avail, write_avail, new}
use rsound.Fifo.Queue.{Op, put, get}
use rsound.Fifo.Inv.{IsValid, new-IsValid}
use rsound.Fifo.Refine.{contents, length-contents}

-- What `run` makes of one operation.
abbrev run_put : Option Fifo → Option (List (List ℕ) × Fifo)
run_put o = elim o [ none ↦ none | some g ↦ some ([], g) ]

abbrev run_get : Option (List ℕ × Fifo) → Option (List (List ℕ) × Fifo)
run_get o = elim o [ none ↦ none | some (out, g) ↦ some (out ∷ [], g) ]

nil_of_length : (xs : List ℕ) → length xs ≡ 0 → xs ≡ []
nil_of_length [] h = refl
nil_of_length (x ∷ xs) h = absurd (omega arith)

-- When both allocations succeed, a new FIFO of `size` bytes is valid, holds nothing, and has room
-- for exactly `size` bytes.
pub new_lem :
    (size : ℕ)
    → size < 2 ^ 62
    → (f : Fifo) × (new true true size ≡ some f)
      × IsValid f
      × (contents f ≡ [])
      × (write_avail f ≡ size)
unfolding new read_avail write_avail
new_lem size h =
    let v : IsValid _ = new-IsValid size h refl in
    (_, refl, v, nil_of_length _ (omega (arith, length-contents _)), ground arith)

-- Where an operation's first copy starts, and how many bytes the operation copies.
abbrev pub start_of : Fifo → Op → ℕ
start_of f (put xs) = f.end
start_of f (get n) = f.first

abbrev pub size_of : Op → ℕ
size_of (put xs) = length xs
size_of (get n) = n

-- Two copies, of `k` bytes at index `i` and of the other bytes of `size` at index 0, in the storage.
abbrev Inside : Fifo → ℕ → ℕ → ℕ → Type 0
Inside f i size k =
    (k ≤ size)
    × (i + k ≤ length f.buffer)
    × (size - k ≤ length f.buffer)
    × ((k ≡ size) ⊎ (i + k ≡ length f.buffer))
