-- ===== src/Cuse/Faults.antt =====
-- src/cuse-ross/cuse-ross.c: a write that waits for ever, and requests with which the C program is
-- undefined.
use mathlib.Core.Path.{subst}
use Prim.Native.Nat.{bit_and}
use rsound.Base.{
  ℕ, ◌*◌, ◌^◌, ◌≤◌, ◌<◌, ◌≡◌, refl, sym, ap, ◌∙◌, Bool, true, false, ◌||◌, not, Option, none, some,
  List, [], ◌∷◌, map, ◌==◌, ltb, min, if◌then◌else◌, length, arith, length-drop, ◌+◌, ◌-◌,
  Bool-cases, inl, inr,
}
use rsound.Base.Int.{ℤ, pos, ◌*ℤ◌}
use rsound.Fifo
use rsound.Fifo.{Fifo}
use rsound.Fifo.Refine.{contents, length-contents}
use rsound.Client.Param.{set_param, channels}
use rsound.Cuse.{
  Ross, Event, reply, played, ioctl, int, Result, undefined, blocked, finished, after, Client,
  ross_audio_cb, read_from, with_read, o_nonblock,
}
use rsound.Cuse.Start.{ross_start, bytes_per_second, times_int, to_int, with_bps}
use rsound.Cuse.Write.{
  Act, read, Turn, run_acts, then_acts, with_acts, wakes, leave, again, wait, tested, stored, store,
  pass, write_loop, write_started, ross_write,
}
use rsound.Cuse.Ioctl.{
  Buffers, ross_ioctl, set_channels, Prep, both, prep_in, prep_out, ioctl_prep_uarg, prepared,
  with_channels,
}
use rsound.Cuse.Acts.{Live, Acted, idle-Played, then-Acted, read_some-wakes}
use rsound.Cuse.Starting.{ross_write-reaches}

-- Calls of the audio callback alone.
abbrev pub reads : List ℕ → List Act
reads ns = map read ns

-- On an empty FIFO they signal nothing.
read_empty : (n : ℕ) (ro : Ross) → Live [] ro → ross_audio_cb n ro ≡ some (played [] ∷ [], ro)
unfolding ross_audio_cb
read_empty n ro l =
    let none_held : Fifo.read_avail l.fifo ≡ 0 = sym (length-contents l.fifo) ∙ ap length l.bytes in
    let nothing : ltb 0 (min (Fifo.read_avail l.fifo) n) ≡ false = ground (arith, none_held) in
    ap (read_from n ro) l.same
    ∙ ap
        (λ b.
          if b
          then with_read ro (Fifo.read l.fifo (min (Fifo.read_avail l.fifo) n))
          else some (played [] ∷ [], ro))
        nothing

silence : List ℕ → List Event
silence [] = []
silence (n ∷ ns) = played [] ∷ silence ns

silence-wakes : (ns : List ℕ) → wakes (silence ns) ≡ false
unfolding silence
silence-wakes [] = refl
silence-wakes (n ∷ ns) = silence-wakes ns

reads_empty :
    (ns : List ℕ) (ro : Ross) → Live [] ro → run_acts (reads ns) ro ≡ some (silence ns, ro)
unfolding run_acts silence
reads_empty [] ro l = refl
reads_empty (n ∷ ns) ro l =
    ap (then_acts (run_acts (reads ns))) (read_empty n ro l)
    ∙ ap (λ (o : Option (List Event × Ross)). then_acts (λ r. o) (some (played [] ∷ [], ro)))
        (reads_empty ns ro l)

after_blocked : (es : List Event) (r : Result) → r ≡ blocked → after es r ≡ blocked
after_blocked es r e = ap (after es) e

module _ (rest : List ℕ → ℕ → Ross → Result) (t : Turn) (ns : List ℕ)
    (waits : t.waited ≡ reads ns) where
  wait-blocked : (xs : List ℕ) (w : ℕ) (ro : Ross) → Live [] ro → wait rest t xs w ro ≡ blocked
  wait-blocked xs w ro l =
      let step = λ (o : Option (List Event × Ross)).
        with_acts o (λ es ro1. if wakes es then again rest t xs w ro1 else blocked) in
      ap (λ acts. step (run_acts acts ro)) waits
      ∙ (ap step (reads_empty ns ro l)
          ∙ ap (λ b. after (silence ns) (if b then again rest t xs w ro else blocked))
              (silence-wakes ns))

  -- The wait that begins after the callbacks have emptied the FIFO.
  tested-blocked :
      (q xs : List ℕ) (w : ℕ) (ro : Ross)
      → ro.error ≡ false
      → Live q ro
      → (a : Acted q ro (run_acts t.tested ro)) → a.played.rest ≡ []
      → tested rest t false 0 xs w ro ≡ blocked
  tested-blocked q xs w ro e l a emptied =
      let step = λ (o : Option (List Event × Ross)). with_acts o (λ es ro1. wait rest t xs w ro1) in
      ap (λ b. if b then leave t w ro else step (run_acts t.tested ro)) e
      ∙ (ap step a.same
          ∙ after_blocked a.events _
              (wait-blocked xs w a.state (subst (λ q1. Live q1 a.state) emptied a.played.live)))

-- A callback takes what it asks for, or all that is held.
read_one-Acted :
    (n : ℕ) (q : List ℕ) (ro : Ross)
    → Live q ro
    → (x : Acted q ro (ross_audio_cb n ro)) × (length x.played.rest ≡ length q - n)
unfolding ross_audio_cb
read_one-Acted n q ro l =
    let m = min (Fifo.read_avail l.fifo) n in
    let size : Fifo.read_avail l.fifo ≡ length q =
      sym (length-contents l.fifo) ∙ ap length l.bytes in
    elim (Bool-cases (ltb 0 m)) [
      | inl some_bytes ↦
          let (b, woken, rest) = read_some-wakes m q ro l (omega arith) some_bytes in
          (
            record {
              events = b.events;
              state = b.state;
              same = ap (read_from n ro) l.same ∙ b.same;
              played = b.played;
            },
            ap length rest
                ∙ omega (arith, length-drop m (contents l.fifo), length-contents l.fifo, size),
          )
      | inr nothing ↦
          let least : m ≡ 0 = ground arith in
          (
            record {
              events = played [] ∷ [];
              state = ro;
              same =
                  ap (read_from n ro) l.same
                  ∙ ap
                      (λ b.
                        if b then with_read ro (Fifo.read l.fifo m) else some (played [] ∷ [], ro))
                      nothing;
              played = record {
                rest = q;
                live = l;
                bytes = refl;
                silent = refl;
                handles = λ h. omega arith;
                size = refl;
                frame = refl;
              };
            },
            omega (arith, least, size),
          )
    ]

-- Callbacks that together ask for all that is held.
abbrev pub total : List ℕ → ℕ
total [] = 0
total (n ∷ ns) = n + total ns

empty_lem : (q : List ℕ) → length q ≤ 0 → q ≡ []
empty_lem [] h = refl
empty_lem (x ∷ q) h = absurd (omega arith)

reads_all-Acted :
    (ms : List ℕ) (q : List ℕ) (ro : Ross)
    → Live q ro
    → length q ≤ total ms
    → (a : Acted q ro (run_acts (reads ms) ro)) × (a.played.rest ≡ [])
unfolding run_acts
reads_all-Acted [] q ro l all = (
  record { events = []; state = ro; same = refl; played = idle-Played q ro l },
  (idle-Played q ro l).bytes ∙ empty_lem q all,
)
reads_all-Acted (n ∷ ms) q ro l all =
    let (x, less) = read_one-Acted n q ro l in
    let (y, emptied) = reads_all-Acted ms x.played.rest x.state x.played.live (omega arith) in
    let (z, events, left) = then-Acted (read n) (reads ms) q ro x y in (z, left ∙ emptied)

-- The condition is signalled without its lock, and waited for without a test: a blocking write to a
-- full FIFO never returns, and answers nothing, when callbacks between the write's look at the FIFO and
-- its wait ask for as many bytes in all as are held, although they go on to ask for bytes.
pub ross_write_waits_forever :
    (client : Client) (struct_ok storage_ok : Bool) (t : Turn) (ts : List Turn) (flags : ℕ)
    (ms ns : List ℕ) (q xs : List ℕ) (ro : Ross) (l : Live q ro)
    → ro.started ≡ true
    → ro.error ≡ false
    → (ro.nonblock || not (bit_and flags o_nonblock == 0)) ≡ false
    → Fifo.write_avail l.fifo ≡ 0
    → length q ≤ total ms
    → 0 < length xs
    → t.stored ≡ []
    → t.tested ≡ reads ms
    → t.waited ≡ reads ns
    → ross_write client struct_ok storage_ok (t ∷ ts) flags xs ro ≡ blocked
unfolding write_loop run_acts
ross_write_waits_forever client struct_ok storage_ok t ts flags ms ns q xs ro l running no_error
      blocking full all some_bytes none_stored taken waits =
    let rest = write_loop ts false in
    let ro1 : Ross = record ro { buffer = some l.fifo } in
    let l1 : Live q ro1 = record { fifo = l.fifo; same = refl; valid = l.valid; bytes = l.bytes } in
    let (a, emptied) =
      subst (λ acts. (a : Acted q ro1 (run_acts acts ro1)) × (a.played.rest ≡ [])) (sym taken)
        (reads_all-Acted ms q ro1 l1 all) in
    let nothing : min (Fifo.write_avail l.fifo) (length xs) ≡ 0 = omega (arith, full) in
    ross_write-reaches client struct_ok storage_ok (t ∷ ts) flags xs ro some_bytes no_error
    ∙ (ap
          (λ b.
            write_started (t ∷ ts) (ro.nonblock || not (bit_and flags o_nonblock == 0)) xs
              (if b then some (true, ro) else ross_start client struct_ok storage_ok ro))
          running
        ∙ (ap (λ b. write_loop (t ∷ ts) b xs 0 ro) blocking
            ∙ (ap (pass rest t false xs 0 ro) l.same
                ∙ (ap (λ k. stored rest t false k xs 0 ro (store k xs l.fifo)) nothing
                    ∙ (ap
                          (λ acts.
                            with_acts (run_acts acts ro1)
                              (λ es ro2. tested rest t false 0 xs 0 ro2))
                          none_stored
                        ∙ after_blocked [] _
                            (tested-blocked rest t ns waits q xs 0 ro1 no_error l1 a emptied))))))

zero-times : (a : ℤ) → pos 0 *ℤ a ≡ pos 0
zero-times a = ground arith

-- A rate of 0 bytes per second, by which `ross_start` divides.
zero_rate-none :
    (client : Client) (struct_ok storage_ok : Bool) (ro : Ross)
    → bytes_per_second ro ≡ some (pos 0)
    → ross_start client struct_ok storage_ok ro ≡ none
unfolding ross_start
zero_rate-none client struct_ok storage_ok ro e =
    ap (with_bps client struct_ok storage_ok ro) e ∙ either (ltb (1000 * ro.bufsize) (2 ^ 31))
  where
    either : (b : Bool) → ◌≡◌ {A = Option (Bool × Ross)} (if b then none else none) none
    either true = refl
    either false = refl

zero_channels-rate : (ro : Ross) → ro.channels ≡ pos 0 → bytes_per_second ro ≡ some (pos 0)
zero_channels-rate ro e =
    ap (λ c. times_int (to_int (c *ℤ ro.rate)) (pos ro.rd.samplesize)) e
    ∙ (ap (λ c. times_int (to_int c) (pos ro.rd.samplesize)) (zero-times ro.rate)
        ∙ ap to_int (zero-times (pos ro.rd.samplesize)))

-- SNDCTL_DSP_CHANNELS with 0 is answered as if it were accepted, although the client library has
-- refused it, and the next write of some bytes to the stream, not yet started, divides by 0.
pub zero_channels_undefined :
    (client : Client) (struct_ok storage_ok : Bool) (ts : List Turn) (flags : ℕ) (xs : List ℕ)
    (b : Buffers) (ro : Ross)
    → ro.started ≡ false
    → ro.error ≡ false
    → 0 < length xs
    → b.in_bufsize ≡ 4
    → b.out_bufsize ≡ 4
    → b.in_int ≡ pos 0
    → (ro1 : Ross) × (ross_ioctl client b set_channels ro
        ≡ finished (reply (ioctl (int (pos 0))) ∷ []) ro1)
      × (ro1.rd ≡ ro.rd)
      × (ross_write client struct_ok storage_ok ts flags xs ro1 ≡ undefined)
unfolding ross_ioctl ioctl_prep_uarg set_param
zero_channels_undefined client struct_ok storage_ok ts flags xs b ro idle no_error some_bytes i o
      zero_given =
    let ro1 : Ross = record ro { rd = (set_param ro.rd (channels (pos 0))).1; channels = pos 0 } in
    (
      ro1,
      ap (λ p. prepared p ro (with_channels b.in_int b.in_int ro)) sizes
          ∙ ap (λ n. with_channels n n ro) zero_given,
      refl,
      ross_write-reaches client struct_ok storage_ok ts flags xs ro1 some_bytes no_error
          ∙ (ap
                (λ s.
                  write_started ts (ro.nonblock || not (bit_and flags o_nonblock == 0)) xs
                    (if s then some (true, ro1) else ross_start client struct_ok storage_ok ro1))
                idle
              ∙ ap (write_started ts (ro.nonblock || not (bit_and flags o_nonblock == 0)) xs)
                  (zero_rate-none client struct_ok storage_ok ro1 (zero_channels-rate ro1 refl))),
    )
  where
    sizes : ioctl_prep_uarg (some 4) (some 4) b ≡ Prep.ready
    sizes =
        ap (λ n. both (prep_in (some 4) n) (prep_out (some 4) b.out_bufsize)) i
        ∙ ap (λ n. prep_out (some 4) n) o
