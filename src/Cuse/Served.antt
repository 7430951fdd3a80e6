-- ===== src/Cuse/Served.antt =====
-- src/cuse-ross/cuse-ross.c: a well-formed state of a file, and what a request leaves of it, with
-- the retry of an ioctl whose sizes FUSE does not know.
use mathlib.Core.Path.{subst}
use rsound.Base.{
  ℕ, ◌+◌, ◌*◌, ◌^◌, ◌≤◌, ◌<◌, ◌≡◌, ◌⊎◌, refl, sym, ap, ◌∙◌, Bool, true, false, Option, some, List,
  ◌==◌, if◌then◌else◌, length, arith, inl, inr, length-append,
}
use rsound.Base.Int.{ℤ, to_unsigned}
use rsound.Fifo.{Fifo}
use rsound.Client.{Rsound}
use rsound.Cuse.{Ross, Reply, Event, retry, Result, undefined, blocked, finished, after, replied}
use rsound.Cuse.Ioctl.{
  Buffers, Prep, ready, aborted, again, both, prep_in, prep_out, ioctl_prep_uarg, prepared,
  prep_uarg_out, prep_uarg_inout,
}
use rsound.Cuse.Acts.{Live, same_buffer-Live}
use rsound.Cuse.Events.{replies, destroys, holds, replies-append, destroys-append}

-- The sizes of the fragments, and a started stream with a FIFO and a rate to divide by.
pub record WellFormed (ro : Ross) : Type 0 where
  pub large : 512 ≤ ro.fragsize
  pub many : 8 ≤ ro.frags
  pub product : ro.bufsize ≡ ro.frags * ro.fragsize
  pub small : ro.bufsize < 2 ^ 31
  pub running : ro.started ≡ true → (q : List ℕ) × Live q ro
  pub rated : ro.started ≡ true → (to_unsigned 64 ro.bps == 0) ≡ false

-- `k` replies, each handle of `given` or held before held or destroyed, and a well-formed state.
pub record Served (k : ℕ) (given : ℕ → ℕ) (ro : Ross) (es : List Event) (ro1 : Ross) : Type 0 where
  pub answers : length (replies es) ≡ k
  pub handles : (h : ℕ) → destroys h es + holds h ro1.ph ≡ given h + holds h ro.ph
  pub well : WellFormed ro1

-- A request that is defined and ends so; where it may block, `B` says so.
abbrev pub Serves : Type 0 → ℕ → (ℕ → ℕ) → Ross → Result → Type 0
Serves B k given ro undefined = ⊥
Serves B k given ro blocked = B
Serves B k given ro (finished es ro1) = Served k given ro es ro1

abbrev pub nothing_given : ℕ → ℕ
nothing_given h = 0

-- A reply that leaves the handle.
pub replied-Serves :
    (B : Type 0) (r : Reply) (ro ro1 : Ross)
    → ro1.ph ≡ ro.ph
    → WellFormed ro1
    → Serves B 1 nothing_given ro (replied r ro1)
replied-Serves B r ro ro1 e w = record {
  answers = refl;
  handles = λ h. ap (λ p. 0 + holds h p) e;
  well = w;
}

pub if-Serves :
    (b : Bool) (B : Type 0) (k : ℕ) (given : ℕ → ℕ) (ro : Ross) (r s : Result)
    → Serves B k given ro r
    → Serves B k given ro s
    → Serves B k given ro (if b then r else s)
if-Serves true B k given ro r s h l = h
if-Serves false B k given ro r s h l = l

-- Events that reply `m` times and account for some handles, before the rest.
pub after-Serves :
    (B : Type 0) (es : List Event) (m k : ℕ) (given more : ℕ → ℕ) (ro ro1 : Ross)
    → length (replies es) ≡ m
    → ((h : ℕ) → destroys h es + holds h ro1.ph ≡ more h + holds h ro.ph)
    → (r : Result) → Serves B k given ro1 r
    → Serves B (m + k) (λ h. more h + given h) ro (after es r)
after-Serves B es m k given more ro ro1 e p undefined h = h
after-Serves B es m k given more ro ro1 e p blocked h = h
after-Serves B es m k given more ro ro1 e p (finished fs ro2) h = record {
  answers =
      ap length (replies-append es fs)
      ∙ (length-append (replies es) (replies fs) ∙ omega (arith, e, h.answers));
  handles = λ n. omega (arith, destroys-append n es fs, p n, h.handles n);
  well = h.well;
}

-- The sizes with which FUSE calls: none yet, or those that were asked for.
abbrev pub Sized : ℕ → ℕ → Type 0
Sized size n = (n ≡ 0) ⊎ (n ≡ size)

abbrev Asks : Prep → Type 0
Asks ready = Unit
Asks aborted = ⊥
Asks (again m n) = Unit

both-Asks : (p q : Prep) → Asks p → Asks q → Asks (both p q)
both-Asks ready q h k = k
both-Asks aborted q h k = h
both-Asks (again m n) ready h k = tt
both-Asks (again m n) aborted h k = k
both-Asks (again m n) (again i j) h k = tt

prep_in-Asks : (size n : ℕ) → Sized size n → Asks (prep_in (some size) n)
prep_in-Asks size n (inl e) =
    subst (λ b. Asks (if b then again size 0 else if n == size then ready else aborted))
      (sym zero_size) tt
  where
    zero_size : (n == 0) ≡ true
    zero_size = ground arith
prep_in-Asks size n (inr e) =
    subst (λ b. Asks (if n == 0 then again size 0 else if b then ready else aborted))
      (sym same_size) (on_zero (n == 0))
  where
    same_size : (n == size) ≡ true
    same_size = ground arith

    on_zero : (b : Bool) → Asks (if b then again size 0 else ready)
    on_zero true = tt
    on_zero false = tt

prep_out-Asks : (size n : ℕ) → Sized size n → Asks (prep_out (some size) n)
prep_out-Asks size n (inl e) =
    subst (λ b. Asks (if b then again 0 size else if n == size then ready else aborted))
      (sym zero_size) tt
  where
    zero_size : (n == 0) ≡ true
    zero_size = ground arith
prep_out-Asks size n (inr e) =
    subst (λ b. Asks (if n == 0 then again 0 size else if b then ready else aborted))
      (sym same_size) (on_zero (n == 0))
  where
    same_size : (n == size) ≡ true
    same_size = ground arith

    on_zero : (b : Bool) → Asks (if b then again 0 size else ready)
    on_zero true = tt
    on_zero false = tt

prepared-Serves :
    (B : Type 0) (p : Prep) (ro : Ross) (rest : Result)
    → Asks p
    → WellFormed ro
    → Serves B 1 nothing_given ro rest
    → Serves B 1 nothing_given ro (prepared p ro rest)
prepared-Serves B ready ro rest a w h = h
prepared-Serves B aborted ro rest a w h = absurd a
prepared-Serves B (again m n) ro rest a w h = replied-Serves B (retry m n) ro ro refl w

module _ (B : Type 0) (b : Buffers) (ro : Ross) (w : WellFormed ro) where
  pub out-Serves :
      (size : ℕ) (rest : Result)
      → Sized size b.out_bufsize
      → Serves B 1 nothing_given ro rest
      → Serves B 1 nothing_given ro (prep_uarg_out size b ro rest)
  unfolding ioctl_prep_uarg
  out-Serves size rest s h = prepared-Serves B _ ro rest (prep_out-Asks size b.out_bufsize s) w h

  pub inout-Serves :
      (rest : Result)
      → Sized 4 b.in_bufsize
      → Sized 4 b.out_bufsize
      → Serves B 1 nothing_given ro rest
      → Serves B 1 nothing_given ro (prep_uarg_inout 4 b ro rest)
  unfolding ioctl_prep_uarg
  inout-Serves rest s t h =
      prepared-Serves B _ ro rest
        (both-Asks (prep_in (some 4) b.in_bufsize) (prep_out (some 4) b.out_bufsize)
          (prep_in-Asks 4 b.in_bufsize s) (prep_out-Asks 4 b.out_bufsize t))
        w h

-- The fields that no request needs to keep.
pub WellFormed-with :
    (ro : Ross) (rd : Rsound) (channels rate : ℤ) (nonblock : Bool) (ph : Option ℕ) (error : Bool)
    → WellFormed ro
    → WellFormed (record ro {
      rd = rd;
      channels = channels;
      rate = rate;
      nonblock = nonblock;
      ph = ph;
      error = error;
    })
WellFormed-with ro rd channels rate nonblock ph error w = record {
  large = w.large;
  many = w.many;
  product = w.product;
  small = w.small;
  running = λ e. let (q, l) = w.running e in (q, same_buffer-Live refl l);
  rated = w.rated;
}

pub with_rd : (ro : Ross) (rd : Rsound) → WellFormed ro → WellFormed (record ro { rd = rd })
with_rd ro rd w = WellFormed-with ro rd ro.channels ro.rate ro.nonblock ro.ph ro.error w

-- The fields of the stream, where what `WellFormed` says of a started one holds.
pub WellFormed-stream :
    (ro : Ross) (rd : Rsound) (started : Bool) (ph : Option ℕ) (bps : ℤ) (error : Bool)
    (write_cnt : ℕ) (buffer : Option Fifo)
    → WellFormed ro
    → (started ≡ true → (q : List ℕ) × Live q (record ro { buffer = buffer }))
    → (started ≡ true → (to_unsigned 64 bps == 0) ≡ false)
    → WellFormed (record ro {
      rd = rd;
      started = started;
      ph = ph;
      bps = bps;
      error = error;
      write_cnt = write_cnt;
      buffer = buffer;
    })
WellFormed-stream ro rd started ph bps error write_cnt buffer w running rated = record {
  large = w.large;
  many = w.many;
  product = w.product;
  small = w.small;
  running = λ e. let (q, l) = running e in (q, same_buffer-Live refl l);
  rated = rated;
}
