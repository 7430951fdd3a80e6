-- ===== src/Client/Delay.antt =====
-- The delay of a stream in src/librsound/librsound.c: `rsnd_drain`, `rsnd_get_delay`,
-- `rsnd_get_ptr` and the calls `rsd_delay`, `rsd_delay_ms`, `rsd_delay_wait`, `rsd_pointer` and
-- `rsd_get_avail`. The time since the first write is an argument, in seconds and nanoseconds. The
-- sums of ints do not wrap here, since their overflow is undefined.
use rsound.Base.{ℕ, ◌+◌, ◌-◌, ◌*◌, ◌/◌, ◌%◌, ◌^◌, true, Option, none, some, ◌==◌, if◌then◌else◌}
use rsound.Base.Int.{ℤ, pos, ◌+ℤ◌, ◌-ℤ◌, times, quotient, to_signed, pos_part, ltb_ℤ}
use rsound.Fifo
use rsound.Client.{Rsound}

-- The differences of the two fields of the clock since `start_tv_nsec`.
pub record Elapsed : Type 0 where
  pub sec : ℤ
  pub nsec : ℤ

-- `rate * channels * samplesize`, in uint32_t.
abbrev pub bytes_per_second : Rsound → ℕ
bytes_per_second rd = rd.rate * rd.channels * rd.samplesize % 2 ^ 32

-- What the server has consumed since the first write.
abbrev pub consumed : Elapsed → Rsound → ℤ
consumed t rd =
    times t.sec (bytes_per_second rd) +ℤ quotient (times t.nsec (bytes_per_second rd)) 1000000000

-- `rsnd_fifo_read_avail(rd->fifo_buffer)`
abbrev pub held : Rsound → ℕ
held rd = elim rd.fifo_buffer [ none ↦ 0 | some f ↦ Fifo.read_avail f ]

-- `rsnd_drain`
unfoldable pub drain : Elapsed → Rsound → Rsound
drain t rd = record rd {
  bytes_in_buffer =
      if rd.has_written
      then to_signed 32 (pos (rd.total_written + held rd) -ℤ consumed t rd)
      else to_signed 32 (pos (held rd));
}

-- The sum in `rsnd_get_delay`, before it is cut at 0.
unfoldable pub raw_delay : Elapsed → Rsound → ℤ
raw_delay t rd = (drain t rd).bytes_in_buffer +ℤ to_signed 32 (pos rd.latency) +ℤ rd.delay_offset

-- `rsd_delay` with `rsnd_get_delay`, which has the thread ask the server from now on.
unfoldable pub delay : Elapsed → Rsound → ℕ × Rsound
delay t rd = (pos_part (raw_delay t rd), record (drain t rd) { use_latency = true })

-- `rsd_delay_ms`; the quotient by 0 is `none`.
unfoldable pub delay_ms : Elapsed → Rsound → Option ℕ
delay_ms t rd =
    if bytes_per_second rd == 0
    then none
    else some ((delay t rd).0 * 1000 % 2 ^ 64 / bytes_per_second rd)

-- `rsd_delay_wait`: for how many milliseconds it sleeps.
unfoldable pub delay_wait : Elapsed → Rsound → Option ℕ
delay_wait t rd =
    if ltb_ℤ (pos 0) rd.max_latency
    then elim (delay_ms t rd) [
      | none ↦ none
      | some ms ↦
          let latency_ms = to_signed 32 (pos ms) in
          some
            (if ltb_ℤ rd.max_latency latency_ms then pos_part (latency_ms -ℤ rd.max_latency) else 0)
    ]
    else some 0

-- `rsd_pointer`, and `rsd_get_avail` in `size_t` arithmetic.
unfoldable pub pointer : Rsound → ℕ
pointer rd = held rd

unfoldable pub get_avail : Rsound → ℕ
get_avail rd = (rd.buffer_size + 2 ^ 64 - held rd) % 2 ^ 64
