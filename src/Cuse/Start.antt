-- ===== src/Cuse/Start.antt =====
-- `ross_start` of src/cuse-ross/cuse-ross.c.
use rsound.Base.{
  ℕ, zero, suc, ◌*◌, ◌/◌, ◌^◌, Bool, true, false, ◌||◌, Option, none, some, ltb, if◌then◌else◌,
}
use rsound.Base.Int.{ℤ, pos, negsuc, sub_ℕ, ◌*ℤ◌, ltb_ℤ}
use rsound.Fifo
use rsound.Fifo.{Fifo}
use rsound.Client.{Rsound}
use rsound.Client.Param.{set_param, latency}
use rsound.Cuse.{Ross, Client}

-- An int, or the overflow.
abbrev pub to_int : ℤ → Option ℤ
to_int (pos n) = if ltb n (2 ^ 31) then some (pos n) else none
to_int (negsuc n) = if ltb n (2 ^ 31) then some (negsuc n) else none

-- `n / d` of ints, with 0 ≤ n.
abbrev pub ratio : ℕ → ℤ → Option ℤ
ratio n (pos zero) = none
ratio n (pos (suc d)) = some (pos (n / suc d))
ratio n (negsuc d) = some (sub_ℕ 0 (n / suc d))

-- `rsd_set_callback` of the client library, of which the model of the client keeps that there is
-- an audio callback.
abbrev pub set_callback : Rsound → Rsound
set_callback rd = record rd { audio_callback = true }

-- `latency` as `ross_start` sets it.
abbrev pub at_least : ℤ → ℤ
at_least n = if ltb_ℤ n (pos 32) then pos 32 else n

abbrev pub start_client : Client → Ross → Option Fifo → Bool × Ross
start_client client ro none = (false, record ro { buffer = none })
start_client client ro (some f) =
    let (ok, rd) = client.start ro.rd in
    (ok, record ro { rd = rd; started = ok || ro.started; buffer = some f })

abbrev pub with_latency : Client → Bool → Bool → Ross → Option ℤ → Option (Bool × Ross)
with_latency client struct_ok storage_ok ro none = none
with_latency client struct_ok storage_ok ro (some n) = some (
    start_client client (record ro { rd = set_callback (set_param ro.rd (latency (at_least n))).1 })
      (Fifo.new struct_ok storage_ok ro.bufsize))

-- `1000 * ro->bufsize`, an int.
abbrev pub with_bps : Client → Bool → Bool → Ross → Option ℤ → Option (Bool × Ross)
with_bps client struct_ok storage_ok ro none = none
with_bps client struct_ok storage_ok ro (some bps) =
    if ltb (1000 * ro.bufsize) (2 ^ 31)
    then with_latency client struct_ok storage_ok (record ro { bps = bps })
        (ratio (1000 * ro.bufsize) bps)
    else none

-- `ro->channels * ro->rate * rsd_samplesize(ro->rd)`, ints.
abbrev pub times_int : Option ℤ → ℤ → Option ℤ
times_int none b = none
times_int (some a) b = to_int (a *ℤ b)

abbrev pub bytes_per_second : Ross → Option ℤ
bytes_per_second ro = times_int (times_int (some ro.channels) ro.rate) (pos ro.rd.samplesize)

-- `ross_start`: whether 0 is returned, with what the two `calloc` of the FIFO give.
unfoldable pub ross_start : Client → Bool → Bool → Ross → Option (Bool × Ross)
ross_start client struct_ok storage_ok ro =
    with_bps client struct_ok storage_ok ro (bytes_per_second ro)
