-- ===== src/Cuse/Ioctl.antt =====
-- `ross_ioctl` of src/cuse-ross/cuse-ross.c with `ioctl_prep_uarg`, `oss2rsd_fmt` and
-- `rsd2oss_fmt`.
use rsound.Base.{
  ℕ, ◌+◌, ◌-◌, ◌*◌, ◌/◌, ◌%◌, ◌^◌, true, Option, none, some, [], ◌∷◌, ◌==◌, ltb, if◌then◌else◌,
}
use rsound.Base.Int.{ℤ, pos, negsuc, to_unsigned}
use rsound.Format.{Format, s16_le, s16_be, u16_le, u16_be, u8, s8, alaw, mulaw, code, of_code}
use rsound.Client.Param.{Setting, set_param, samplerate, channels, format}
use rsound.Cuse.{
  Ross, reply, err, retry, ioctl, nothing, int, space, count_info, Result, undefined, after,
  replied, Client, ross_latency, ross_reset, drain, ross_write_avail, ross_read_avail,
}

-- What FUSE hands over: the sizes of the two buffers, and the int in the first.
pub record Buffers : Type 0 where
  pub in_bufsize : ℕ
  pub out_bufsize : ℕ
  pub in_int : ℤ

-- `ioctl_prep_uarg`, a null pointer being `none`: the sizes to ask for again, or `none` with them
-- for a failed assertion.
pub data Prep : Type 0 where
  ready aborted : Prep
  again : ℕ → ℕ → Prep

abbrev pub both : Prep → Prep → Prep
both aborted q = aborted
both ready q = q
both (again m n) aborted = aborted
both (again m n) ready = again m n
both (again m n) (again i j) = again (m + i) (n + j)

abbrev pub prep_in : Option ℕ → ℕ → Prep
prep_in none bufsize = ready
prep_in (some size) bufsize =
    if bufsize == 0 then again size 0 else if bufsize == size then ready else aborted

abbrev pub prep_out : Option ℕ → ℕ → Prep
prep_out none bufsize = ready
prep_out (some size) bufsize =
    if bufsize == 0 then again 0 size else if bufsize == size then ready else aborted

unfoldable pub ioctl_prep_uarg : Option ℕ → Option ℕ → Buffers → Prep
ioctl_prep_uarg in_size out_size b =
    both (prep_in in_size b.in_bufsize) (prep_out out_size b.out_bufsize)

-- PREP_UARG: `return` where the sizes are asked for, or the rest.
abbrev pub prepared : Prep → Ross → Result → Result
prepared ready ro rest = rest
prepared aborted ro rest = undefined
prepared (again m n) ro rest = replied (retry m n) ro

abbrev pub prep_uarg_out : ℕ → Buffers → Ross → Result → Result
prep_uarg_out size b ro rest = prepared (ioctl_prep_uarg none (some size) b) ro rest

abbrev pub prep_uarg_inout : ℕ → Buffers → Ross → Result → Result
prep_uarg_inout size b ro rest = prepared (ioctl_prep_uarg (some size) (some size) b) ro rest

-- IOCTL_RETURN of an int.
abbrev pub return_int : ℕ → Ross → Result
return_int n ro = replied (ioctl (int (pos n))) ro

-- `oss2rsd_fmt`, with the formats of soundcard.h.
unfoldable pub oss2rsd_fmt : ℤ → Format
oss2rsd_fmt (negsuc n) = s16_le
oss2rsd_fmt (pos n) =
    if n == 0x01
    then mulaw
    else if n == 0x02
    then alaw
    else if n == 0x08
    then u8
    else if n == 0x10
    then s16_le
    else if n == 0x20
    then s16_be
    else if n == 0x40
    then s8
    else if n == 0x80
    then u16_le
    else if n == 0x100
    then u16_be
    else s16_le

-- `rsd2oss_fmt`
abbrev pub to_afmt : Option Format → ℕ
to_afmt (some u8) = 0x08
to_afmt (some s8) = 0x40
to_afmt (some s16_le) = 0x10
to_afmt (some s16_be) = 0x20
to_afmt (some u16_le) = 0x80
to_afmt (some u16_be) = 0x100
to_afmt (some alaw) = 0x02
to_afmt (some mulaw) = 0x01
to_afmt _ = 0x10

unfoldable pub rsd2oss_fmt : ℤ → ℕ
rsd2oss_fmt p = to_afmt (of_code (to_unsigned 32 p))

-- The requests of soundcard.h that have a case, and any other.
pub data Request : Type 0 where
  getversion getcaps getfmts set_nonblock reset speed setfmt set_channels stereo getospace : Request
  getblksize setfragment getodelay sync cookedmode getoptr setplayvol getplayvol : Request
  settrigger post unknown : Request

-- The argument after RSD_FORMAT is set.
abbrev pub argument : Setting → ℤ
argument (format p) = p
argument _ = pos 0

abbrev pub set_format : ℤ → Ross → Result
set_format i ro =
    let answer = set_param ro.rd (format (pos (code (oss2rsd_fmt i)))) in
    return_int (rsd2oss_fmt (argument answer.2)) (record ro { rd = answer.1 })

-- SNDCTL_DSP_GETOSPACE
abbrev pub ospace : Buffers → Ross → Option ℕ → Result
ospace b ro none = undefined
ospace b ro (some bytes) =
    prep_uarg_out 16 b ro
      (replied (ioctl (space bytes (bytes / ro.fragsize) ro.fragsize ro.frags)) ro)

-- SNDCTL_DSP_SETFRAGMENT: a shift of an int by more than 30 is undefined, and so is the overflow of
-- the product.
abbrev pub at_least : ℕ → ℕ → ℕ
at_least low n = if ltb n low then low else n

abbrev pub sized : ℤ → ℕ → ℕ → Ross → Result
sized i frags fragsize ro =
    if ltb (frags * fragsize) (2 ^ 31)
    then replied (ioctl (int i))
        (record ro { frags = frags; fragsize = fragsize; bufsize = frags * fragsize })
    else undefined

abbrev pub set_fragment : ℤ → Ross → Result
set_fragment i ro =
    let u = to_unsigned 32 i in
    if ltb (u % 2 ^ 16) 31
    then sized i (at_least 8 (u / 2 ^ 16)) (at_least 512 (2 ^ (u % 2 ^ 16))) ro
    else undefined

-- SNDCTL_DSP_GETODELAY
abbrev pub odelay : Option (ℤ × Ross) → Result
odelay none = undefined
odelay (some (i, ro)) = replied (ioctl (int i)) ro

-- SNDCTL_DSP_GETOPTR, in unsigned arithmetic.
abbrev pub played_bytes : Ross → ℕ → ℕ
played_bytes ro held = (ro.write_cnt + 2 ^ 32 - held % 2 ^ 32) % 2 ^ 32

abbrev pub optr : Buffers → Ross → Option ℕ → Result
optr b ro none = undefined
optr b ro (some held) =
    let n = played_bytes ro held in
    prep_uarg_out 12 b ro (replied (ioctl (count_info n (n / ro.fragsize) (n % ro.bufsize))) ro)

-- `int chans = i ? 2 : 1;`
abbrev pub stereo_channels : ℤ → ℤ
stereo_channels (pos n) = if n == 0 then pos 1 else pos 2
stereo_channels (negsuc n) = pos 2

abbrev pub with_channels : ℤ → ℤ → Ross → Result
with_channels i n ro =
    replied (ioctl (int i)) (record ro { rd = (set_param ro.rd (channels n)).1; channels = n })

-- `ross_ioctl`
unfoldable pub ross_ioctl : Client → Buffers → Request → Ross → Result
ross_ioctl client b getversion ro = prep_uarg_out 4 b ro (return_int 0x30810 ro)
ross_ioctl client b getcaps ro = prep_uarg_out 4 b ro (return_int 0x5600 ro)
ross_ioctl client b getfmts ro = prep_uarg_out 4 b ro (return_int 0x1fb ro)
ross_ioctl client b set_nonblock ro = replied (ioctl nothing) (record ro { nonblock = true })
ross_ioctl client b reset ro = replied (ioctl nothing) (ross_reset client ro)
ross_ioctl client b speed ro =
    let i = b.in_int in
    prep_uarg_inout 4 b ro
      (replied (ioctl (int i)) (record ro { rd = (set_param ro.rd (samplerate i)).1; rate = i }))
ross_ioctl client b setfmt ro = prep_uarg_inout 4 b ro (set_format b.in_int ro)
ross_ioctl client b set_channels ro = prep_uarg_inout 4 b ro (with_channels b.in_int b.in_int ro)
ross_ioctl client b stereo ro =
    prep_uarg_inout 4 b ro (with_channels b.in_int (stereo_channels b.in_int) ro)
ross_ioctl client b getospace ro = ospace b ro (ross_write_avail ro)
ross_ioctl client b getblksize ro = prep_uarg_out 4 b ro (return_int ro.fragsize ro)
ross_ioctl client b setfragment ro =
    after (if ro.started then reply (err 22) ∷ [] else [])
      (prep_uarg_inout 4 b ro (set_fragment b.in_int ro))
ross_ioctl client b getodelay ro = prep_uarg_out 4 b ro (odelay (ross_latency client ro))
ross_ioctl client b sync ro = drain client ro (replied (ioctl nothing))
ross_ioctl client b cookedmode ro = prep_uarg_inout 4 b ro (replied (ioctl (int b.in_int)) ro)
ross_ioctl client b getoptr ro = optr b ro (ross_read_avail ro)
ross_ioctl client b setplayvol ro = prep_uarg_inout 4 b ro (return_int 0x6464 ro)
ross_ioctl client b getplayvol ro = prep_uarg_out 4 b ro (return_int 0x6464 ro)
ross_ioctl client b settrigger ro = prep_uarg_inout 4 b ro (replied (ioctl (int b.in_int)) ro)
ross_ioctl client b post ro = replied (ioctl nothing) ro
ross_ioctl client b unknown ro = replied (err 22) ro
