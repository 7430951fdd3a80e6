-- ===== src/Fifo/Tests.antt =====
-- The FIFO of src/librsound/buffer.c at concrete inputs.
use mathlib.Core.Option
use rsound.Base.{◌≡◌, refl, none, some, List, [], ◌∷◌, arith}
use rsound.Fifo.{Fifo, read_avail, write_avail, write, read, run}
use rsound.Fifo.Queue
use rsound.Fifo.Queue.{Op, put, get}
use rsound.Fifo.Inv.{IsValid}
use rsound.Fifo.Refine.{contents, run_refines}

-- Four bytes of storage, with 8 and then 9 held round its end.
abbrev wrapped : Fifo
wrapped = record { buffer = 9 ∷ 0 ∷ 0 ∷ 8 ∷ []; bufsize = 4; first = 3; end = 1 }

wrapped-IsValid : IsValid wrapped
wrapped-IsValid = omega arith

abbrev script : List Op
script = put (5 ∷ []) ∷ get 2 ∷ put (6 ∷ 7 ∷ []) ∷ get 3 ∷ []

contents-wrapped : contents wrapped ≡ 8 ∷ 9 ∷ []
unfolding contents read_avail
contents-wrapped = refl

run-wrapped :
    Option.map (λ (outs, g). outs) (run wrapped script)
    ≡ some ((8 ∷ 9 ∷ []) ∷ (5 ∷ 6 ∷ 7 ∷ []) ∷ [])
unfolding run write read read_avail write_avail
run-wrapped = refl

full_write : write wrapped (1 ∷ 2 ∷ []) ≡ none
unfolding write write_avail
full_write = refl

run_refines_example :
    Option.map (λ (outs, g). (outs, contents g)) (run wrapped script)
    ≡ Queue.run 3 (contents wrapped) script
run_refines_example = run_refines script wrapped-IsValid
