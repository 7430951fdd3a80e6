-- ===== src/Client/Filling.antt =====
-- src/librsound/librsound.c: what `rsnd_cb_thread` puts into a chunk.
use rsound.Base.{
  ℕ, ◌+◌, ◌-◌, ◌≤◌, ◌≡◌, refl, ap, sym, ◌∙◌, Bool, true, false, Option, none, some, List, [], ◌∷◌,
  ◌++◌, ltb, if◌then◌else◌, length, take, replicate, arith, length-append, length-take,
  length-replicate,
}
use rsound.Base.Int.{ltb_ℤ, to_signed, pos, quotient}
use mathlib.Core.List.{append_assoc, append-nil}
use rsound.Client.{Rsound}
use rsound.Client.Delay.{delay, delay_ms, drain}
use rsound.Client.Callback.{
  Called, Filling, full, refused, undefined, unfinished, will_read, after_short, after_call,
  fill_chunk,
}

-- A chunk that is filled goes on from what is stored, and has its size.
abbrev pub Fills : ℕ → List ℕ → Filling → Type 0
Fills size got (full rd buffer) =
    (length buffer ≡ size) × (rd.chunk_size ≡ size) × ((rest : List ℕ) × (got ++ rest ≡ buffer))
Fills size got refused = Unit
Fills size got undefined = Unit
Fills size got unfinished = Unit

if_Fills :
    (size : ℕ) (got : List ℕ) (x y : Filling) (b : Bool)
    → Fills size got x
    → Fills size got y
    → Fills size got (if b then x else y)
if_Fills size got x y true h k = h
if_Fills size got x y false h k = k

longer-Fills :
    (size : ℕ) (got more : List ℕ) (r : Filling) → Fills size (got ++ more) r → Fills size got r
longer-Fills size got more (full rd buffer) (len, same, (rest, e)) =
    (len, same, (more ++ rest, sym (append_assoc got more rest) ∙ e))
longer-Fills size got more refused h = tt
longer-Fills size got more undefined h = tt
longer-Fills size got more unfinished h = tt

module _ (size : ℕ) (continue : Rsound → List ℕ → Filling)
    (h : (rd : Rsound) (got : List ℕ)
      → rd.chunk_size ≡ size
      → length got ≤ size
      → Fills size got (continue rd got)) where
  short-Fills :
      (c : Called) (missing : ℕ) (rd : Rsound) (got : List ℕ) (ms : Option ℕ)
      → rd.chunk_size ≡ size
      → length got + missing ≤ size
      → Fills size got (after_short continue c missing rd got ms)
  unfolding delay drain
  short-Fills c missing rd got none same fits = tt
  short-Fills c missing rd got (some ms) same fits =
      let zeros = replicate missing 0 in
      let padded : length (got ++ zeros) ≤ size =
        omega (arith, length-append got zeros, length-replicate {A = ℕ} missing 0) in
      let less : length got ≤ size = omega arith in
      if_Fills size got (continue (delay c.at rd).1 (got ++ zeros)) (continue (delay c.at rd).1 got)
        (ltb_ℤ (to_signed 32 (pos ms)) (quotient rd.max_latency 2))
        (longer-Fills size got zeros (continue (delay c.at rd).1 (got ++ zeros))
          (h (delay c.at rd).1 (got ++ zeros) same padded))
        (h (delay c.at rd).1 got same less)

  call-Fills :
      (c : Called) (n : ℕ) (rd : Rsound) (got : List ℕ) (stored : Option (List ℕ))
      → rd.chunk_size ≡ size
      → length got + n ≤ size
      → Fills size got (after_call continue c n rd got stored)
  call-Fills c n rd got none same fits = tt
  call-Fills c n rd got (some bytes) same fits =
      let stored = take n bytes in
      let len = length-append got stored in
      let few = length-take n bytes in
      let room : length (got ++ stored) + (n - length stored) ≤ size = omega (arith, len, few) in
      let within : length (got ++ stored) ≤ size = omega arith in
      let short =
        after_short continue c (n - length stored) rd (got ++ stored) (delay_ms c.at rd) in
      let whole = continue rd (got ++ stored) in
      if_Fills size got short whole (ltb (length stored) n)
        (longer-Fills size got stored short
          (short-Fills c (n - length stored) rd (got ++ stored) (delay_ms c.at rd) same room))
        (longer-Fills size got stored whole (h rd (got ++ stored) same within))

-- Whatever the callback stores, and however much: a chunk that is filled has exactly the chunk size,
-- so no call stores past the end of the buffer, and what is stored is never overwritten.
pub fill_chunk-Fills :
    (read_size : ℕ) (calls : List Called) (rd : Rsound) (got : List ℕ)
    → length got ≤ rd.chunk_size
    → Fills rd.chunk_size got (fill_chunk read_size calls rd got)
unfolding fill_chunk
fill_chunk-Fills read_size calls rd got fits = go rd.chunk_size calls rd got refl fits
  where
    at_end :
        (size : ℕ) (rd : Rsound) (got : List ℕ) (b : Bool) (x : Filling)
        → ltb (length got) size ≡ b
        → rd.chunk_size ≡ size
        → length got ≤ size
        → Fills size got x
        → Fills size got (if b then x else full rd got)
    at_end size rd got true x e same fits h = h
    at_end size rd got false x e same fits h =
        let all : length got ≡ size = ground arith in (all, same, ([], append-nil got))

    go :
        (size : ℕ) (calls : List Called) (rd : Rsound) (got : List ℕ)
        → rd.chunk_size ≡ size
        → length got ≤ size
        → Fills size got (fill_chunk read_size calls rd got)
    go size [] rd got same fits =
        at_end size rd got (ltb (length got) rd.chunk_size) unfinished
          (ap (ltb (length got)) (sym same)) same fits tt
    go size (c ∷ cs) rd got same fits =
        let room : length got + will_read read_size rd got ≤ size = ground (arith, same) in
        at_end size rd got (ltb (length got) rd.chunk_size)
          (after_call (fill_chunk read_size cs) c (will_read read_size rd got) rd got c.stored)
          (ap (ltb (length got)) (sym same)) same fits
          (call-Fills size (fill_chunk read_size cs)
            (λ rd got same fits. go size cs rd got same fits) c (will_read read_size rd got) rd got
            c.stored same room)
