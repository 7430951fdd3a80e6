-- ===== src/Cuse/Starting.antt =====
-- `ross_write` of src/cuse-ross/cuse-ross.c.
use mathlib.Core.Path.{subst}
use Prim.Native.Nat.{bit_and}
use rsound.Base.{
  Option, ℕ, ◌<◌, ◌≡◌, ◌⊎◌, refl, sym, ap, ◌∙◌, Bool, true, false, ◌||◌, not, some, List, [], ◌∷◌,
  ◌==◌, if◌then◌else◌, length, arith, inl, inr,
}
use rsound.Cuse.{Ross, Reply, reply, err, Result, finished, replied, Client, o_nonblock}
use rsound.Cuse.Start.{ross_start}
use rsound.Cuse.Write.{Turn, write_loop, write_started, ross_write}
use rsound.Cuse.Acts.{Live}
use rsound.Cuse.Stream.{Streams, write_loop-Streams}
use rsound.Cuse.Launch.{startable, Starts, ross_start-Starts}

module _ (client : Client) (struct_ok storage_ok : Bool) where
  -- A write that is not of nothing, and that finds no error.
  pub ross_write-reaches :
      (ts : List Turn) (flags : ℕ) (xs : List ℕ) (ro : Ross)
      → 0 < length xs
      → ro.error ≡ false
      → ross_write client struct_ok storage_ok ts flags xs ro
        ≡ write_started ts
            (ro.nonblock || not (bit_and flags o_nonblock == 0))
            xs
            (if ro.started then some (true, ro) else ross_start client struct_ok storage_ok ro)
  unfolding ross_write
  ross_write-reaches ts flags xs ro h e =
      let some_bytes : (length xs == 0) ≡ false = ground arith in
      let whole = λ (r : Result). r in
      ap (λ b. if b then replied (Reply.write 0) ro else later) some_bytes
      ∙ ap (λ b. if b then replied (err 32) ro else last) e
    where
      last : Result
      last =
          write_started ts (ro.nonblock || not (bit_and flags o_nonblock == 0)) xs
            (if ro.started then some (true, ro) else ross_start client struct_ok storage_ok ro)

      later : Result
      later = if ro.error then replied (err 32) ro else last

-- The write to a started stream.
pub running-Streams :
    (client : Client) (struct_ok storage_ok : Bool) (ts : List Turn) (flags : ℕ) (q xs : List ℕ)
    (ro : Ross)
    → 0 < length xs
    → ro.error ≡ false
    → ro.started ≡ true
    → Live q ro
    → Streams q xs 0 ro (ross_write client struct_ok storage_ok ts flags xs ro)
running-Streams client struct_ok storage_ok ts flags q xs ro h e running live =
    subst (Streams q xs 0 ro)
      (sym (
        ross_write-reaches client struct_ok storage_ok ts flags xs ro h e
        ∙ ap
            (λ b.
              write_started ts (ro.nonblock || not (bit_and flags o_nonblock == 0)) xs
                (if b then some (true, ro) else ross_start client struct_ok storage_ok ro))
            running))
      (write_loop-Streams ts _ q xs 0 ro live)

-- What holds before a write: a valid FIFO with these bytes, or a stream that can be started.
abbrev pub Ready : List ℕ → Ross → Type 0
Ready q ro =
    ((ro.started ≡ true) × Live q ro) ⊎ ((ro.started ≡ false) × (q ≡ []) × (startable ro ≡ true))

-- The write that a state of the stream gets, or EIO where the stream does not start.
abbrev pub Written : List ℕ → List ℕ → Ross → Result → Type 0
Written q xs ro1 r =
    ((ro1.started ≡ true) × Streams q xs 0 ro1 r)
    ⊎ ((ro1.started ≡ false) × (r ≡ finished (reply (err 5) ∷ []) ro1))

-- The stream with which the write goes on, whether it runs.
abbrev pub begun : Client → Bool → Bool → Ross → Option (Bool × Ross)
begun client struct_ok storage_ok ro =
    if ro.started then some (true, ro) else ross_start client struct_ok storage_ok ro

-- What a write comes to, for that state of the stream.
abbrev pub Begins : Client → Bool → Bool → List Turn → ℕ → List ℕ → List ℕ → Ross → Type 0
Begins client struct_ok storage_ok ts flags q xs ro =
    (ro1 : Ross) × (begun client struct_ok storage_ok ro ≡ some (ro1.started, ro1))
    × (ro1 ≡ record ro { rd = ro1.rd; bps = ro1.bps; started = ro1.started; buffer = ro1.buffer })
    × Written q xs ro1 (ross_write client struct_ok storage_ok ts flags xs ro)

module _ (client : Client) (struct_ok storage_ok : Bool) (ts : List Turn) (flags : ℕ)
    (q xs : List ℕ) (ro : Ross) (h : 0 < length xs) (e : ro.error ≡ false) where
  launched-Begins :
      ro.started ≡ false
      → q ≡ []
      → (r : Bool × Ross) → ross_start client struct_ok storage_ok ro ≡ some r
      → Starts ro r
      → Begins client struct_ok storage_ok ts flags q xs ro
  launched-Begins idle none_held (ok, ro1) same (frame, live, rated) = (
    ro1,
    start ∙ ap {A = Bool} {B = Option (Bool × Ross)} (λ b. some (b, ro1)) (sym runs),
    frame
        ∙ ap {A = Bool} {B = Ross}
            (λ b. record ro { rd = ro1.rd; bps = ro1.bps; started = b; buffer = ro1.buffer })
            (sym runs),
    by_result ok runs live reach,
  )
    where
      nonblock : Bool
      nonblock = ro.nonblock || not (bit_and flags o_nonblock == 0)

      runs : ro1.started ≡ ok
      runs = ap {A = Ross} (λ r. r.started) frame

      start : begun client struct_ok storage_ok ro ≡ some (ok, ro1)
      start =
          ap (λ b. if b then some (true, ro) else ross_start client struct_ok storage_ok ro) idle
          ∙ same

      reach :
          ross_write client struct_ok storage_ok ts flags xs ro
          ≡ write_started ts nonblock xs (some (ok, ro1))
      reach =
          ross_write-reaches client struct_ok storage_ok ts flags xs ro h e
          ∙ ap (write_started ts nonblock xs) start

      by_result :
          (b : Bool)
          → ro1.started ≡ b
          → (b ≡ true → Live [] ro1)
          → ross_write client struct_ok storage_ok ts flags xs ro
            ≡ write_started ts nonblock xs (some (b, ro1))
          → Written q xs ro1 (ross_write client struct_ok storage_ok ts flags xs ro)
      by_result true on live1 reached = inl (
        on,
        subst (Streams q xs 0 ro1) (sym reached) (
            subst (λ p. Streams p xs 0 ro1 (write_loop ts nonblock xs 0 ro1)) (sym none_held)
              (write_loop-Streams ts nonblock [] xs 0 ro1 (live1 refl))),
      )
      by_result false off live1 reached = inr (off, reached)

-- A write of some bytes to an open file without an error, whose stream runs on a valid FIFO or can
-- be started, is defined. It starts the stream if it is not started, and answers EIO if that fails.
-- Otherwise, whatever the callbacks do around each pass of the loop, if it ends, the bytes played
-- since and the bytes held, in this order, are the bytes held before and the first `n` bytes of the
-- write; it answers once, with EPIPE where an error has come up, else EAGAIN for `n` = 0, else `n`;
-- the counter grows by an answered `n` modulo 2 ^ 32; each poll handle that was set is either kept
-- or destroyed; and since the start only the FIFO, the error, the poll handle and the counter have
-- changed.
pub ross_write-Streams :
    (client : Client) (struct_ok storage_ok : Bool) (ts : List Turn) (flags : ℕ) (q xs : List ℕ)
    (ro : Ross)
    → 0 < length xs
    → ro.error ≡ false
    → Ready q ro
    → Begins client struct_ok storage_ok ts flags q xs ro
ross_write-Streams client struct_ok storage_ok ts flags q xs ro h e (inl (running, live)) = (
  ro,
  ap (λ b. if b then some (true, ro) else ross_start client struct_ok storage_ok ro) running
      ∙ ap {A = Bool} {B = Option (Bool × Ross)} (λ b. some (b, ro)) (sym running),
  refl,
  inl (running, running-Streams client struct_ok storage_ok ts flags q xs ro h e running live),
)
ross_write-Streams client struct_ok storage_ok ts flags q xs ro h e (inr (idle, none_held, ok)) =
    let (r, same, starts) = ross_start-Starts client struct_ok storage_ok ro ok idle in
    launched-Begins client struct_ok storage_ok ts flags q xs ro h e idle none_held r same starts
