-- ===== src/OssEmul/Tests.antt =====
-- The emulated descriptors of src/oss-emul/librsoundoss.c at concrete inputs.
use rsound.Base.{◌≡◌, refl, ℕ, true, some, List, [], ◌∷◌, Option, length}
use rsound.Base.Int.{pos}
use rsound.Client.{Rsound}
use rsound.Client.Param.{blank, set_param}
use rsound.OssEmul.{
  Slot, Library, unopened, init_lib, fd2index, Client, Opening, forwarded, crashed, returned, dev,
  write_call, close_call, open_call, open_generic, read_call, is_oss_path,
}
use rsound.OssEmul.Ioctl.{ioctl_call, set_channels, set_nonblock}
use rsound.OssEmul.Table.{WellFormed}
use rsound.OssEmul.Histories.{
  Call, open_path, write, close, ioctl, run, AllFresh, run-WellFormed, calls_apart,
}

abbrev dsp : List ℕ
dsp = dev (b'd' ∷ b's' ∷ b'p' ∷ [])

-- A client that takes all that it is given.
abbrev client : Client
client = record {
  start = λ rd. (true, record rd { socket = some 9 });
  write = λ rd buf. (length buf, rd);
  stop = λ rd. rd;
}

abbrev no_delay : Rsound → ℕ × Rsound
no_delay rd = (0, rd)

abbrev opening : ℕ → Opening
opening fd = record { init = some blank; pipe = some fd; nonblocking = true }

abbrev calls : List Call
calls =
    open_path (opening 7) (some dsp) 1
    ∷ open_path (opening 8) (some dsp) 1
    ∷ ioctl (pos 7) (set_channels (pos 1))
    ∷ write (some 0) true (pos 7) (1 ∷ 2 ∷ 3 ∷ [])
    ∷ close (pos 7)
    ∷ []

after_two : (AllFresh client no_delay calls unopened)
unfolding open_generic is_oss_path fd2index
after_two = (refl, (refl, (tt, (tt, (tt, tt)))))

run-WellFormed_example : WellFormed (init_lib (run client no_delay calls unopened)).table
run-WellFormed_example = run-WellFormed client no_delay calls after_two

-- With descriptor 7 alone open, a program writes 3 bytes.
abbrev opened : Library
opened = (open_call (opening 7) (some dsp) 1 unopened).1

write-opened : (write_call client (some 0) true (pos 7) (1 ∷ 2 ∷ 3 ∷ []) opened).0 ≡ returned 3
unfolding write_call open_generic is_oss_path fd2index set_param
write-opened = refl

write-other : (write_call client (some 0) true (pos 6) (1 ∷ 2 ∷ 3 ∷ []) opened).0 ≡ forwarded
unfolding write_call open_generic is_oss_path fd2index
write-other = refl

-- A read before any other call goes through a null pointer, and one with O_RDONLY is not refused.
read_first : read_call (pos 0) unopened ≡ crashed
unfolding read_call fd2index
read_first = refl

open_rdonly : (open_call (opening 7) (some dsp) 0 unopened).0 ≡ returned 7
unfolding open_generic is_oss_path fd2index
open_rdonly = refl

opened-WellFormed : WellFormed (init_lib opened).table
opened-WellFormed =
    run-WellFormed client no_delay (open_path (opening 7) (some dsp) 1 ∷ []) (refl, tt)

calls_apart_example :
    let seen : Library → Option (ℕ × Slot) = λ l. fd2index (pos 8) l.table in
    (seen (write_call client (some 0) true (pos 7) (1 ∷ []) opened).1 ≡ seen (init_lib opened))
    × (seen (close_call (pos 7) opened).1 ≡ seen (init_lib opened))
    × (seen (ioctl_call client no_delay (pos 7) set_nonblock opened).1 ≡ seen (init_lib opened))
calls_apart_example =
    calls_apart client no_delay opened (pos 7) 8 (some 0) true (1 ∷ []) set_nonblock
      opened-WellFormed refl
