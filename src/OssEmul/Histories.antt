-- ===== src/OssEmul/Histories.antt =====
-- src/oss-emul/librsoundoss.c: sequences of calls of a program.
use mathlib.Core.Path.{subst}
use Prim.Native.Nat.{bit_and}
use rsound.Base.{
  ◌≡◌, ◌≤◌, ◌+◌, ◌-◌, refl, sym, ap, ◌∙◌, ℕ, zero, suc, Bool, true, false, ◌&&◌, ◌||◌, not, Option,
  none, some, List, [], ◌∷◌, ◌==◌, if◌then◌else◌, arith, Bool-cases, inl, inr, replicate,
}
use rsound.Base.Int.{ℤ, pos, negsuc}
use rsound.Client.{Rsound}
use rsound.OssEmul.{
  Slot, vacant, Library, unopened, same_fd, fd2index, get_vacant_fd, with_slot, init_lib, Client,
  Opening, o_nonblock, o_rdonly, open_call, open_generic, is_oss_path, with_vacant, with_init,
  with_pipe, with_defaults, write_call, close_call,
}
use rsound.OssEmul.Ioctl.{Request, ioctl_call}
use rsound.OssEmul.Table.{
  AllHeld, weight, uses, WellFormed, At, Found, fd2index-Found, store_slot-WellFormed,
}
use rsound.OssEmul.Calls.{
  Updates, Updates-apart, Updates-WellFormed, write_slot-Updates, close_slot-Updates,
  ioctl_slot-Updates, on_test,
}

-- What a program calls, with what the system answers.
pub data Call : Type 0 where
  open_path : Opening → Option (List ℕ) → ℕ → Call
  write : Option ℕ → Bool → ℤ → List ℕ → Call
  close : ℤ → Call
  ioctl : ℤ → Request → Call

module _ (client : Client) (delay : Rsound → ℕ × Rsound) where
  abbrev pub perform : Call → Library → Library
  perform (open_path a path flags) lib = (open_call a path flags lib).1
  perform (write flags dup fd buf) lib = (write_call client flags dup fd buf lib).1
  perform (close fd) lib = (close_call fd lib).1
  perform (ioctl fd r) lib = (ioctl_call client delay fd r lib).1

  abbrev pub run : List Call → Library → Library
  run [] lib = lib
  run (call ∷ calls) lib = run calls (perform call lib)

-- The pipe that `open` makes is not a descriptor that the table holds, and so still is open.
abbrev pub FreshPipe : Option ℕ → Library → Type 0
FreshPipe none lib = Unit
FreshPipe (some fd) lib = uses fd (init_lib lib).table ≡ 0

abbrev pub Fresh : Call → Library → Type 0
Fresh (open_path a path flags) lib = FreshPipe a.pipe lib
Fresh (write flags dup fd buf) lib = Unit
Fresh (close fd) lib = Unit
Fresh (ioctl fd r) lib = Unit

abbrev pub AllFresh : Client → (Rsound → ℕ × Rsound) → List Call → Library → Type 0
AllFresh client delay [] lib = Unit
AllFresh client delay (call ∷ calls) lib =
    Fresh call lib × AllFresh client delay calls (perform client delay call lib)

-- The table once the library is opened, and that it is opened by every call.
Ready : Library → Type 0
Ready lib = (lib.lib_open ≡ true) × WellFormed lib.table

init_open : (lib : Library) → (init_lib lib).lib_open ≡ true
init_open lib = elim (Bool-cases lib.lib_open) [
  | inl e ↦
      ap
        (λ b. (if b then lib else record { lib_open = true; table = replicate 16 vacant }).lib_open)
        e
      ∙ e
  | inr e ↦
      ap
        (λ b. (if b then lib else record { lib_open = true; table = replicate 16 vacant }).lib_open)
        e
]

init_again : (lib : Library) → lib.lib_open ≡ true → init_lib lib ≡ lib
init_again lib e =
    ap (λ b. if b then lib else record { lib_open = true; table = replicate 16 vacant }) e

Updates-open : (fd : ℤ) (lib lib1 : Library) → Updates fd lib lib1 → lib1.lib_open ≡ lib.lib_open
Updates-open fd lib lib1 (inl e) = ap (λ l. l.lib_open) e
Updates-open fd lib lib1 (inr (i, t, s, at, e, held, kept, put)) = ap (λ l. l.lib_open) put

Updates-Ready : (fd : ℤ) (lib lib1 : Library) → Updates fd lib lib1 → Ready lib → Ready lib1
unfolding Ready
Updates-Ready fd lib lib1 u (e, w) =
    (Updates-open fd lib lib1 u ∙ e, Updates-WellFormed fd lib lib1 u w)

put-Ready :
    (lib : Library) (i fd : ℕ) (rd : Rsound) (nonblock : Bool) (t : Slot)
    → Ready lib
    → At i t lib.table
    → uses fd lib.table ≡ 0
    → Ready (with_slot lib i (record { fd = pos fd; rd = some rd; nonblock = nonblock; bytes = 0 }))
unfolding Ready
put-Ready lib i fd rd nonblock t (e, w) at fresh = (
  e,
  store_slot-WellFormed i (record { fd = pos fd; rd = some rd; nonblock = nonblock; bytes = 0 }) t
      lib.table at tt room w,
)
  where
    room : (n : ℕ) → (if n == fd then 1 else 0) ≤ weight n t + (1 - uses n lib.table)
    room n = elim (Bool-cases (n == fd)) [
      | inl e ↦
          let same : n ≡ fd = ground arith in
          let free : uses n lib.table ≡ 0 = ap (λ m. uses m lib.table) same ∙ fresh in
          rw e (omega (arith, free))
      | inr e ↦ rw e (omega arith)
    ]

vacant-Ready :
    (lib : Library) (i : ℕ) (t : Slot)
    → Ready lib
    → At i t lib.table
    → Ready (with_slot lib i vacant)
unfolding Ready
vacant-Ready lib i t (e, w) at =
    (e, store_slot-WellFormed i vacant t lib.table at tt (λ n. omega arith) w)

abbrev FreshIn : Option ℕ → Library → Type 0
FreshIn none lib = Unit
FreshIn (some fd) lib = uses fd lib.table ≡ 0

with_vacant-Ready :
    (a : Opening) (flags : ℕ) (lib : Library) (o : Option (ℕ × Slot))
    → Found (negsuc 0) lib.table o
    → Ready lib
    → FreshIn a.pipe lib
    → Ready (with_vacant a flags lib o).1
unfolding Found
with_vacant-Ready a flags lib none h w fresh = w
with_vacant-Ready a flags lib (some (i, s)) (at, e) w fresh = by_init a.init
  where
    by_pipe : (rd : Rsound) (p : Option ℕ) → FreshIn p lib → Ready (with_pipe a flags lib i rd p).1
    by_pipe rd none f = vacant-Ready lib i s w at
    by_pipe rd (some fd) f =
        on_test (λ r. Ready r.1)
          ((not (bit_and flags o_nonblock == 0) && not a.nonblocking)
            || not (bit_and flags o_rdonly == 0))
          _ _ (vacant-Ready lib i s w at)
          (put-Ready lib i fd rd (not (bit_and flags o_nonblock == 0)) s w at f)

    by_init : (o : Option Rsound) → Ready (with_init a flags lib i o).1
    by_init none = w
    by_init (some rd) = by_pipe (with_defaults rd) a.pipe fresh

to_FreshIn : (p : Option ℕ) (lib : Library) → FreshPipe p lib → FreshIn p (init_lib lib)
to_FreshIn none lib h = tt
to_FreshIn (some fd) lib h = h

module _ (client : Client) (delay : Rsound → ℕ × Rsound) where
  perform-Ready :
      (call : Call) (lib : Library)
      → Ready (init_lib lib)
      → Fresh call lib
      → Ready (perform client delay call lib)
  unfolding open_generic write_call close_call ioctl_call Ready
  perform-Ready (open_path a none flags) lib w fresh = w
  perform-Ready (open_path a (some path) flags) lib w fresh =
      let lib1 = init_lib lib in
      on_test (λ r. Ready r.1) (is_oss_path path) _ _
        (with_vacant-Ready a flags lib1 (get_vacant_fd lib1.table)
          (fd2index-Found (negsuc 0) lib1.table) w (to_FreshIn a.pipe lib fresh))
        w
  perform-Ready (write flags dup fd buf) lib (e, w) fresh =
      let lib1 = init_lib lib in
      Updates-Ready fd lib1 _
        (write_slot-Updates fd lib1 w.0 client flags dup buf (fd2index fd lib1.table)
          (fd2index-Found fd lib1.table))
        (e, w)
  perform-Ready (close fd) lib (e, w) fresh =
      let lib1 = init_lib lib in
      Updates-Ready fd lib1 _
        (close_slot-Updates fd lib1 w.0 (fd2index fd lib1.table) (fd2index-Found fd lib1.table))
        (e, w)
  perform-Ready (ioctl fd r) lib (e, w) fresh =
      let lib1 = init_lib lib in
      Updates-Ready fd lib1 _
        (ioctl_slot-Updates client delay fd lib1 w.0 r (fd2index fd lib1.table)
          (fd2index-Found fd lib1.table))
        (e, w)

  run-Ready :
      (calls : List Call) (lib : Library)
      → Ready (init_lib lib)
      → AllFresh client delay calls lib
      → Ready (init_lib (run client delay calls lib))
  unfolding Ready
  run-Ready [] lib w fresh = w
  run-Ready (call ∷ calls) lib w (fresh, later) =
      let done = perform-Ready call lib w fresh in
      run-Ready calls (perform client delay call lib)
        (subst Ready (sym (init_again (perform client delay call lib) done.0)) done) later

vacant-AllHeld : (n : ℕ) → AllHeld (replicate n vacant)
vacant-AllHeld zero = tt
vacant-AllHeld (suc n) = (tt, vacant-AllHeld n)

-- After every sequence of calls, and so in all that a program does: each slot of the table has a
-- descriptor and a client, or neither, and no descriptor stands in two slots, when `pipe` gives no
-- descriptor that the table holds.
pub run-WellFormed :
    (client : Client) (delay : Rsound → ℕ × Rsound) (calls : List Call)
    → AllFresh client delay calls unopened
    → WellFormed (init_lib (run client delay calls unopened)).table
unfolding Ready
run-WellFormed client delay calls fresh =
    (run-Ready client delay calls unopened (refl, (vacant-AllHeld 16, λ n. omega arith)) fresh).1

-- In a well-formed table, `write`, `close` and `ioctl` on one descriptor leave the slot that every
-- other descriptor finds.
pub calls_apart :
    (client : Client) (delay : Rsound → ℕ × Rsound) (lib : Library) (fd : ℤ) (n : ℕ)
    (flags : Option ℕ) (dup : Bool) (buf : List ℕ) (r : Request)
    → WellFormed (init_lib lib).table
    → same_fd (pos n) fd ≡ false
    → let seen : Library → Option (ℕ × Slot) = λ l. fd2index (pos n) l.table in
      (seen (write_call client flags dup fd buf lib).1 ≡ seen (init_lib lib))
      × (seen (close_call fd lib).1 ≡ seen (init_lib lib))
      × (seen (ioctl_call client delay fd r lib).1 ≡ seen (init_lib lib))
unfolding write_call close_call ioctl_call
calls_apart client delay lib fd n flags dup buf r (all, once) other =
    let lib1 = init_lib lib in
    let found = fd2index-Found fd lib1.table in
    let o = fd2index fd lib1.table in
    (
      Updates-apart fd n lib1 _ other (write_slot-Updates fd lib1 all client flags dup buf o found),
      Updates-apart fd n lib1 _ other (close_slot-Updates fd lib1 all o found),
      Updates-apart fd n lib1 _ other (ioctl_slot-Updates client delay fd lib1 all r o found),
    )
