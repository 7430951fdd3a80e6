-- ===== src/Fifo/Access.antt =====
-- src/librsound/buffer.c as its client uses it: a write that fits and a read of what is held.
use rsound.Base.{
  ℕ, ◌≤◌, ◌≡◌, ap, ◌∙◌, some, List, ◌++◌, arith, Option-cases, inl, inr, length, take, drop,
}
use rsound.Fifo.{Fifo, read_avail, write_avail, write, read}
use rsound.Fifo.Queue.{push, pop}
use rsound.Fifo.Inv.{IsValid, avail-add, write-IsValid, read-IsValid}
use rsound.Fifo.Refine.{
  contents, length-contents, write_refines, read_refines, bufsize-write, bufsize-read,
}

-- A write that fits is accepted.
pub write_fits :
    {f : Fifo} (xs : List ℕ)
    → IsValid f
    → length xs ≤ write_avail f
    → (g : Fifo) × (write f xs ≡ some g)
      × IsValid g
      × (contents g ≡ contents f ++ xs)
      × (g.bufsize ≡ f.bufsize)
unfolding push
write_fits {f} xs v h = elim (Option-cases (write f xs)) [
  | inl no_state ↦
      absurd (ground (arith, write_refines xs v, no_state, avail-add v, length-contents f))
  | inr (g, e) ↦ (
    g,
    e,
    write-IsValid xs v e,
    ground (arith, rw e at (write_refines xs v), avail-add v, length-contents f),
    bufsize-write xs v e,
  )
]

-- A read of what is held is accepted.
pub read_fits :
    {f : Fifo} (n : ℕ)
    → IsValid f
    → n ≤ read_avail f
    → (g : Fifo) × (read f n ≡ some (take n (contents f), g))
      × IsValid g
      × (contents g ≡ drop n (contents f))
      × (g.bufsize ≡ f.bufsize)
unfolding pop
read_fits {f} n v h = elim (Option-cases (read f n)) [
  | inl no_state ↦ absurd (ground (arith, read_refines n v, no_state, length-contents f))
  | inr ((out, g), e) ↦
      let both = rw e at (read_refines n v) in
      let o : out ≡ take n (contents f) = ground (arith, both, length-contents f) in
      let c : contents g ≡ drop n (contents f) = ground (arith, both, length-contents f) in
      (g, e ∙ ap (λ xs. some (xs, g)) o, read-IsValid n v e, c, bufsize-read f n e)
]
