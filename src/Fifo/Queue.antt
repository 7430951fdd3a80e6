-- ===== src/Fifo/Queue.antt =====
-- What the FIFO of src/librsound/buffer.c promises: a queue of at most `cap` bytes, oldest first,
-- that refuses a write which does not fit and a read of more than it holds.
use rsound.Base.{
  ℕ, ◌-◌, Option, none, some, List, [], ◌∷◌, ◌++◌, leb, if◌then◌else◌, length, take, drop,
}

abbrev pub Queue : Type 0
Queue = List ℕ

-- A client's calls, and what it sees of each: the bytes of a read, nothing of a write.
pub data Op : Type 0 where
  put : List ℕ → Op
  get : ℕ → Op

unfoldable pub pop : Queue → ℕ → Option (List ℕ × Queue)
pop q n = if leb n (length q) then some (take n q, drop n q) else none

module _ (cap : ℕ) where
  unfoldable pub push : Queue → List ℕ → Option Queue
  push q xs = if leb (length xs) (cap - length q) then some (q ++ xs) else none

  -- The run stops at the first refused call, as the program does at a failed assertion.
  unfoldable pub run : Queue → List Op → Option (List (List ℕ) × Queue)
  run q [] = some ([], q)
  run q (put xs ∷ ops) = elim (push q xs) [ none ↦ none | some q' ↦ run q' ops ]
  run q (get n ∷ ops) = elim (pop q n) [
    | none ↦ none
    | some (xs, q') ↦ elim (run q' ops) [ none ↦ none | some (outs, r) ↦ some (xs ∷ outs, r) ]
  ]
