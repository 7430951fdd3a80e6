-- ===== src/OssEmul/Ioctl.antt =====
-- `ioctl` of src/oss-emul/librsoundoss.c with `ossfmt2rsd`.
use rsound.Base.{ℕ, ◌/◌, Bool, true, false, Option, none, some, ◌==◌, if◌then◌else◌}
use rsound.Base.Int.{ℤ, pos, negsuc}
use rsound.Format.{Format, s16_le, s16_be, u16_le, u16_be, s8, u8, code}
use rsound.Client.{Rsound}
use rsound.Client.Param.{set_param, samplerate, channels, format}
use rsound.Client.Delay.{get_avail, pointer}
use rsound.OssEmul.{
  Slot, Library, Result, forwarded, failed, returned, Client, init_lib, fd2index, with_slot,
}

-- The formats of soundcard.h.
abbrev pub afmt : Format → Option ℕ
afmt u8 = some 0x08
afmt s16_le = some 0x10
afmt s16_be = some 0x20
afmt s8 = some 0x40
afmt u16_le = some 0x80
afmt u16_be = some 0x100
afmt _ = none

-- `ossfmt2rsd`
unfoldable pub ossfmt2rsd : ℤ → Option Format
ossfmt2rsd (negsuc n) = none
ossfmt2rsd (pos n) =
    if n == 0x10
    then some s16_le
    else if n == 0x20
    then some s16_be
    else if n == 0x100
    then some u16_be
    else if n == 0x80
    then some u16_le
    else if n == 0x40
    then some s8
    else if n == 0x08
    then some u8
    else none

-- The requests with their arguments.
pub data Request : Type 0 where
  getfmts reset sync getblksize getospace getoptr getodelay set_nonblock unknown : Request
  setfmt stereo set_channels speed : ℤ → Request

-- What the argument holds after: `audio_buf_info`, `count_info`, or an int.
pub data Reply : Type 0 where
  same : Reply
  int : ℕ → Reply
  space : ℕ → ℕ → ℕ → ℕ → Reply
  count_info : ℕ → ℕ → ℕ → Reply

-- Whether 0 is returned, the slot after, and the reply.
abbrev pub Answer : Type 0
Answer = Bool × Slot × Reply

abbrev pub set_format : Slot → Rsound → Option Format → Answer
set_format s rd none = (false, s, same)
set_format s rd (some f) =
    (true, record s { rd = some (set_param rd (format (pos (code f)))).1 }, same)

-- `SNDCTL_DSP_GETOSPACE`, in fragments of 512 bytes.
abbrev pub ospace : Rsound → Option ℕ → Reply
ospace rd none = space 512 32 32 16384
ospace rd (some socket) =
    let avail = get_avail rd in space 512 (avail / 512) (rd.buffer_size / 512) avail

-- The `switch`, with `rsd_stop` and `rsd_delay` of the client library.
abbrev pub request : Client → (Rsound → ℕ × Rsound) → Slot → Rsound → Request → Answer
request client delay s rd getfmts = (true, s, int 0x1f8)
request client delay s rd (setfmt arg) = set_format s rd (ossfmt2rsd arg)
request client delay s rd (stereo (pos arg)) = (
  true,
  record s { rd = some (set_param rd (channels (if arg == 1 then pos 2 else pos 1))).1 },
  same,
)
request client delay s rd (stereo (negsuc arg)) =
    (true, record s { rd = some (set_param rd (channels (pos 1))).1 }, same)
request client delay s rd (set_channels arg) =
    (true, record s { rd = some (set_param rd (channels arg)).1 }, same)
request client delay s rd reset = (true, record s { rd = some (client.stop rd) }, same)
request client delay s rd sync = (true, record s { rd = some (client.stop rd) }, same)
request client delay s rd (speed arg) =
    (true, record s { rd = some (set_param rd (samplerate arg)).1 }, same)
request client delay s rd getblksize = (true, s, int 512)
request client delay s rd getospace = (true, s, ospace rd rd.socket)
request client delay s rd getoptr = (true, s, count_info s.bytes (s.bytes / 512) (pointer rd))
request client delay s rd getodelay = elim rd.socket [
  | none ↦ (true, s, int 0)
  | some socket ↦ let (d, rd1) = delay rd in (true, record s { rd = some rd1 }, int d)
]
request client delay s rd set_nonblock = (true, record s { nonblock = true }, same)
request client delay s rd unknown = (false, s, same)

abbrev pub ioctl_slot :
    Client
    → (Rsound → ℕ × Rsound)
    → Library
    → Request
    → Option (ℕ × Slot)
    → Result × Library × Reply
ioctl_slot client delay lib r none = (forwarded, lib, same)
ioctl_slot client delay lib r (some (i, s)) = elim s.rd [
  | none ↦ (forwarded, lib, same)
  | some rd ↦
      let (ok, s1, reply) = request client delay s rd r in
      (if ok then returned 0 else failed, with_slot lib i s1, reply)
]

-- `ioctl`
unfoldable pub ioctl_call :
    Client → (Rsound → ℕ × Rsound) → ℤ → Request → Library → Result × Library × Reply
ioctl_call client delay fd r lib =
    let lib1 = init_lib lib in ioctl_slot client delay lib1 r (fd2index fd lib1.table)
