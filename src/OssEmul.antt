-- ===== src/OssEmul.antt =====
-- src/oss-emul/librsoundoss.c: the table of emulated descriptors, and the calls that a program
-- makes on them in place of the C library's. What the system answers is an argument; the calls of
-- the client library that wait for the server are a record of operations.
pub mod Ioctl
pub mod Table
pub mod Calls
pub mod Histories
mod Tests
use Prim.Native.Nat.{bit_and}
use rsound.Base.{
  ℕ, zero, suc, ◌+◌, ◌-◌, ◌*◌, ◌^◌, ◌%◌, Bool, true, false, ◌&&◌, ◌||◌, not, Option, none, some,
  List, [], ◌∷◌, ◌++◌, ◌==◌, ltb, min, if◌then◌else◌, length, take, replicate,
}
use rsound.Base.Int.{ℤ, pos, negsuc}
use rsound.Client.{Rsound}
use rsound.Client.Param.{set_param, samplerate, channels, bufsize, identity}
use rsound.Client.Delay.{get_avail}

-- Equality of two file descriptors.
abbrev pub same_fd : ℤ → ℤ → Bool
same_fd (pos m) (pos n) = m == n
same_fd (negsuc m) (negsuc n) = m == n
same_fd (pos m) (negsuc n) = false
same_fd (negsuc m) (pos n) = false

-- `struct rsd_oss`
pub record Slot : Type 0 where
  pub fd : ℤ
  pub rd : Option Rsound
  pub nonblock : Bool
  pub bytes : ℕ

-- Zeroed memory, and a slot with no descriptor.
abbrev pub zeroed : Slot
zeroed = record { fd = pos 0; rd = none; nonblock = false; bytes = 0 }

abbrev pub vacant : Slot
vacant = record { fd = negsuc 0; rd = none; nonblock = false; bytes = 0 }

-- `lib_open` and `_rd`.
pub record Library : Type 0 where
  pub lib_open : Bool
  pub table : List Slot

-- What the program starts with, FD_MAX being 16.
abbrev pub unopened : Library
unopened = record { lib_open = false; table = replicate 16 zeroed }

-- `init_lib`
abbrev pub init_lib : Library → Library
init_lib lib = if lib.lib_open then lib else record { lib_open = true; table = replicate 16 vacant }

-- The index and the slot of a descriptor: `fd2index`. -1 finds a vacant slot, as `get_vacant_fd`
-- does.
abbrev pub shift : Option (ℕ × Slot) → Option (ℕ × Slot)
shift none = none
shift (some (i, slot)) = some (suc i, slot)

unfoldable pub fd2index : ℤ → List Slot → Option (ℕ × Slot)
fd2index fd [] = none
fd2index fd (slot ∷ table) =
    if same_fd fd slot.fd then some (0, slot) else shift (fd2index fd table)

abbrev pub get_vacant_fd : List Slot → Option (ℕ × Slot)
get_vacant_fd table = fd2index (negsuc 0) table

abbrev pub store_slot : ℕ → Slot → List Slot → List Slot
store_slot i s [] = []
store_slot zero s (slot ∷ table) = s ∷ table
store_slot (suc i) s (slot ∷ table) = slot ∷ store_slot i s table

abbrev pub with_slot : Library → ℕ → Slot → Library
with_slot lib i s = record lib { table = store_slot i s lib.table }

-- What a call returns: what the C library's own call returns, a number, -1, or nothing, where a
-- null pointer is followed.
pub data Result : Type 0 where
  forwarded failed crashed : Result
  returned : ℕ → Result

-- The calls of the client library: `rsd_start` and `rsd_write` with their results, `rsd_stop`.
pub record Client : Type 0 where
  pub start : Rsound → Bool × Rsound
  pub write : Rsound → List ℕ → ℕ × Rsound
  pub stop : Rsound → Rsound

-- "/dev/dsp", "/dev/audio", "/dev/sound/dsp" and "/dev/sound/audio"
abbrev pub dev : List ℕ → List ℕ
dev s = b'/' ∷ b'd' ∷ b'e' ∷ b'v' ∷ b'/' ∷ s

abbrev pub sound : List ℕ → List ℕ
sound s = b's' ∷ b'o' ∷ b'u' ∷ b'n' ∷ b'd' ∷ b'/' ∷ s

abbrev pub same_path : List ℕ → List ℕ → Bool
same_path [] [] = true
same_path [] (d ∷ t) = false
same_path (c ∷ s) [] = false
same_path (c ∷ s) (d ∷ t) = (c == d) && same_path s t

unfoldable pub is_oss_path : List ℕ → Bool
is_oss_path path =
    let dsp = b'd' ∷ b's' ∷ b'p' ∷ [] in
    let audio = b'a' ∷ b'u' ∷ b'd' ∷ b'i' ∷ b'o' ∷ [] in
    same_path path (dev dsp)
    || same_path path (dev audio)
    || same_path path (dev (sound dsp))
    || same_path path (dev (sound audio))

-- O_NONBLOCK and O_RDONLY on Linux.
abbrev pub o_nonblock : ℕ
o_nonblock = 2048

abbrev pub o_rdonly : ℕ
o_rdonly = 0

-- What `rsd_init`, `pipe` and `fcntl` give to `open`; of the pipe, the end that is kept.
pub record Opening : Type 0 where
  pub init : Option Rsound
  pub pipe : Option ℕ
  pub nonblocking : Bool

-- The parameters of a new stream: 44100 Hz, 2 channels, a buffer of 16384 bytes.
abbrev pub with_defaults : Rsound → Rsound
with_defaults rd =
    let rd1 = (set_param rd (samplerate (pos 44100))).1 in
    let rd2 = (set_param rd1 (channels (pos 2))).1 in (set_param rd2 (bufsize (pos 16384))).1

-- From the pipe on; an error leaves the slot vacant.
abbrev pub with_pipe : Opening → ℕ → Library → ℕ → Rsound → Option ℕ → Result × Library
with_pipe a flags lib i rd none = (failed, with_slot lib i vacant)
with_pipe a flags lib i rd (some fd) =
    let nonblock = not (bit_and flags o_nonblock == 0) in
    if (nonblock && not a.nonblocking) || not (bit_and flags o_rdonly == 0)
    then (failed, with_slot lib i vacant)
    else (
      returned fd,
      with_slot lib i (record { fd = pos fd; rd = some rd; nonblock = nonblock; bytes = 0 }),
    )

abbrev pub with_init : Opening → ℕ → Library → ℕ → Option Rsound → Result × Library
with_init a flags lib i none = (failed, lib)
with_init a flags lib i (some rd) = with_pipe a flags lib i (with_defaults rd) a.pipe

abbrev pub with_vacant : Opening → ℕ → Library → Option (ℕ × Slot) → Result × Library
with_vacant a flags lib none = (failed, lib)
with_vacant a flags lib (some (i, slot)) = with_init a flags lib i a.init

-- `open_generic` with a path, and `open` and `open64`.
unfoldable pub open_generic : Opening → List ℕ → ℕ → Library → Result × Library
open_generic a path flags lib =
    if is_oss_path path then with_vacant a flags lib (get_vacant_fd lib.table) else (forwarded, lib)

abbrev pub open_call : Opening → Option (List ℕ) → ℕ → Library → Result × Library
open_call a none flags lib = (failed, init_lib lib)
open_call a (some path) flags lib = open_generic a path flags (init_lib lib)

-- "OSS emulation"
abbrev pub oss_identity : List ℕ
oss_identity =
    b'O' ∷ b'S' ∷ b'S' ∷ b' ' ∷ b'e' ∷ b'm' ∷ b'u' ∷ b'l' ∷ b'a' ∷ b't' ∷ b'i' ∷ b'o' ∷ b'n' ∷ []

-- Whether the client is connected, connecting it where it is not.
abbrev pub connect : Client → Rsound → Option ℕ → Bool × Rsound
connect client rd (some socket) = (true, rd)
connect client rd none = client.start (set_param rd (identity oss_identity)).1

-- `start_rsd` on a slot, with the flags that `fcntl` gives for F_GETFD; then `dup2`.
abbrev pub started : ℕ → Bool → Slot → Bool × Rsound → Bool × Slot
started flags dup s (false, rd) = (false, record s { rd = some rd })
started flags dup s (true, rd) =
    let nonblock = not (bit_and flags o_nonblock == 0) in
    (dup, record s { rd = some rd; nonblock = s.nonblock || (dup && nonblock) })

-- The end of `write`, for the client after `start_rsd`.
abbrev pub write_some : Client → Library → ℕ → Slot → Rsound → List ℕ → ℕ → Result × Library
write_some client lib i s rd buf avail =
    let write_size = if s.nonblock then min avail (length buf) else length buf in
    let (written, rd1) = client.write rd (take write_size buf) in
    if ltb 0 write_size
    then (if written == 0 then (failed, with_slot lib i (record s { rd = some rd1 })) else (
      returned write_size,
      with_slot lib i (record s { rd = some rd1; bytes = (s.bytes + write_size) % 2 ^ 32 }),
    ))
    else if (avail == 0) && ltb 0 (length buf) && s.nonblock
    then (failed, with_slot lib i s)
    else (returned 0, with_slot lib i s)

abbrev pub write_started : Client → Library → ℕ → List ℕ → Bool × Slot → Result × Library
write_started client lib i buf (ok, s) = elim s.rd [
  | none ↦ (crashed, lib)
  | some rd ↦
      if ok
      then write_some client lib i s rd buf (if s.nonblock then get_avail rd else 0)
      else (failed, with_slot lib i s)
]

-- On the slot of a descriptor; without flags there is nothing more.
abbrev pub write_slot :
    Client → Option ℕ → Bool → Library → List ℕ → Option (ℕ × Slot) → Result × Library
write_slot client flags dup lib buf none = (forwarded, lib)
write_slot client none dup lib buf (some (i, s)) = (failed, lib)
write_slot client (some f) dup lib buf (some (i, s)) = elim s.rd [
  | none ↦ (crashed, lib)
  | some rd ↦ write_started client lib i buf (started f dup s (connect client rd rd.socket))
]

-- `write`
unfoldable pub write_call : Client → Option ℕ → Bool → ℤ → List ℕ → Library → Result × Library
write_call client flags dup fd buf lib =
    let lib1 = init_lib lib in write_slot client flags dup lib1 buf (fd2index fd lib1.table)

-- `fd2handle`
abbrev pub handle_of : Option (ℕ × Slot) → Option Rsound
handle_of none = none
handle_of (some (i, s)) = s.rd

-- `read`, which does not call `init_lib`: before another call does, the C library's is NULL.
unfoldable pub read_call : ℤ → Library → Result
read_call fd lib = elim (handle_of (fd2index fd lib.table)) [
  | some rd ↦ failed
  | none ↦ if lib.lib_open then forwarded else crashed
]

-- `close`
abbrev pub close_slot : Library → Option (ℕ × Slot) → Result × Library
close_slot lib none = (forwarded, lib)
close_slot lib (some (i, s)) = elim s.rd [
  | none ↦ (forwarded, lib)
  | some rd ↦ (returned 0, with_slot lib i vacant)
]

unfoldable pub close_call : ℤ → Library → Result × Library
close_call fd lib = let lib1 = init_lib lib in close_slot lib1 (fd2index fd lib1.table)
