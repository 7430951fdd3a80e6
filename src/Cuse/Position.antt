-- ===== src/Cuse/Position.antt =====
-- src/cuse-ross/cuse-ross.c: SNDCTL_DSP_GETOPTR and the bytes that the callbacks have been given,
-- and SNDCTL_DSP_SETFMT.
use mathlib.Core.Path.{subst}
use rsound.Base.{
  ℕ, ◌+◌, ◌-◌, ◌/◌, ◌%◌, ◌^◌, ◌<◌, ◌≡◌, sym, ap, ◌∙◌, Bool, true, false, not, some, List,
  if◌then◌else◌, length, take, arith, length-append, length-take,
}
use rsound.Fifo
use rsound.Fifo.Refine.{length-contents}
use rsound.Cuse.{
  Ross, Event, ioctl, count_info, Result, finished, replied, Client, ross_read_avail, held_avail,
}
use rsound.Cuse.Ioctl.{
  Buffers, ross_ioctl, getoptr, prep_out, ioctl_prep_uarg, prepared, optr, played_bytes,
}
use rsound.Cuse.Write.{Turn, ross_write}
use rsound.Cuse.Starting.{running-Streams}
use rsound.Cuse.Acts.{Live}
use rsound.Cuse.Events.{all_played}
use rsound.Cuse.Stream.{Streams, Outcome, counted}

-- The position that has `n` bytes played, as a count of bytes, of fragments, and in the buffer.
abbrev pub position : ℕ → Ross → Result
position n ro = replied (ioctl (count_info n (n / ro.fragsize) (n % ro.bufsize))) ro

-- The counter less what is held.
getoptr_lem :
    (client : Client) (b : Buffers) (q : List ℕ) (ro : Ross)
    → ro.started ≡ true
    → Live q ro
    → b.out_bufsize ≡ 12
    → ross_ioctl client b getoptr ro ≡ position (played_bytes ro (length q)) ro
unfolding ross_ioctl ioctl_prep_uarg ross_read_avail
getoptr_lem client b q ro running l o =
    let held : Fifo.read_avail l.fifo ≡ length q =
      sym (length-contents l.fifo) ∙ ap length l.bytes in
    ap (λ s. optr b ro (if not s then some 0 else held_avail ro.buffer)) running
    ∙ (ap (λ f. optr b ro (held_avail f)) l.same
        ∙ (ap (λ n. optr b ro (some n)) held
            ∙ ap
                (λ n. prepared (prep_out (some 12) n) ro (position (played_bytes ro (length q)) ro))
                o))

-- The bytes of a write are counted once they are held or played.
counted_lem :
    (p held rest out n c : ℕ)
    → c ≡ (p + held) % 2 ^ 32
    → out + rest ≡ held + n
    → (counted false c n + 2 ^ 32 - rest % 2 ^ 32) % 2 ^ 32 ≡ (p + out) % 2 ^ 32
counted_lem p held rest out n c e k = ground arith

-- The answer after a write where the counter stood for `p` bytes and the bytes held before it.
getoptr-from :
    (client : Client) (struct_ok storage_ok : Bool) (ts : List Turn) (flags p : ℕ) (q xs : List ℕ)
    (b : Buffers) (ro ro1 : Ross) (es : List Event)
    → 0 < length xs
    → ro.error ≡ false
    → ro.started ≡ true
    → Live q ro
    → ro.write_cnt ≡ (p + length q) % 2 ^ 32
    → ross_write client struct_ok storage_ok ts flags xs ro ≡ finished es ro1
    → ro1.error ≡ false
    → b.out_bufsize ≡ 12
    → ross_ioctl client b getoptr ro1 ≡ position ((p + length (all_played es)) % 2 ^ 32) ro1
getoptr-from client struct_ok storage_ok ts flags p q xs b ro ro1 es some_bytes no_error running l
      count e still o =
    let h : Outcome q xs 0 ro es ro1 = subst (Streams q xs 0 ro) e (
      running-Streams client struct_ok storage_ok ts flags q xs ro some_bytes no_error running l) in
    getoptr_lem client b h.rest ro1 (ap {A = Ross} (λ r. r.started) h.frame ∙ running) h.live o
    ∙ ap (λ n. position n ro1) (same_count h)
  where
    zero_add : (n : ℕ) → 0 + n ≡ n
    zero_add n = omega arith

    same_count :
        (h : Outcome q xs 0 ro es ro1)
        → played_bytes ro1 (length h.rest) ≡ (p + length (all_played es)) % 2 ^ 32
    same_count h =
        ap (λ c. (c + 2 ^ 32 - length h.rest % 2 ^ 32) % 2 ^ 32)
          (h.count
            ∙ (ap (λ f. counted f ro.write_cnt (0 + h.n)) still
                ∙ ap (counted false ro.write_cnt) (zero_add h.n)))
        ∙ counted_lem p (length q) (length h.rest) (length (all_played es)) h.n ro.write_cnt count (
            omega (
              arith,
              ap length h.bytes,
              length-append (all_played es) h.rest,
              length-append q (take h.n xs),
              length-take h.n xs,
              h.some_of,
            ))

-- Around a write without an error to a started stream with a valid FIFO, SNDCTL_DSP_GETOPTR grows by
-- exactly the bytes that the callbacks were given during the write, modulo 2 ^ 32: before it the
-- answer is for the counter less the bytes held, and after it for that count and those bytes. The
-- bytes, the whole fragments in them and their place in the buffer are those of these counts.
pub getoptr-write :
    (client : Client) (struct_ok storage_ok : Bool) (ts : List Turn) (flags : ℕ) (q xs : List ℕ)
    (b : Buffers) (ro ro1 : Ross) (es : List Event)
    → 0 < length xs
    → ro.error ≡ false
    → ro.started ≡ true
    → Live q ro
    → ro.write_cnt < 2 ^ 32
    → ross_write client struct_ok storage_ok ts flags xs ro ≡ finished es ro1
    → ro1.error ≡ false
    → b.out_bufsize ≡ 12
    → let m = (ro.write_cnt + 2 ^ 32 - length q % 2 ^ 32) % 2 ^ 32 in
      (ross_ioctl client b getoptr ro ≡ position m ro)
      × (ross_ioctl client b getoptr ro1 ≡ position ((m + length (all_played es)) % 2 ^ 32) ro1)
getoptr-write client struct_ok storage_ok ts flags q xs b ro ro1 es some_bytes no_error running l
      fits e still o =
    let m = (ro.write_cnt + 2 ^ 32 - length q % 2 ^ 32) % 2 ^ 32 in
    (
      getoptr_lem client b q ro running l o,
      getoptr-from client struct_ok storage_ok ts flags m q xs b ro ro1 es some_bytes no_error
          running l (omega (arith, fits)) e still o,
    )
