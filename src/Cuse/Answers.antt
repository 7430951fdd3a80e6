-- ===== src/Cuse/Answers.antt =====
-- src/cuse-ross/cuse-ross.c: what each request but a write leaves of a well-formed state, and how
-- often it is answered.
use mathlib.Core.Path.{subst}
use rsound.Base.{
  ℕ, ◌*◌, ◌%◌, ◌/◌, ◌^◌, ◌≤◌, ◌<◌, ◌≡◌, ◌⊎◌, refl, sym, ap, ◌∙◌, Bool, true, false, not, none, some,
  List, [], ◌∷◌, ◌++◌, if◌then◌else◌, length, arith, Bool-cases, inl, inr, lt→ltb,
}
use rsound.Base.Int.{ℤ, pos, to_unsigned, ◌+ℤ◌, to_signed}
use rsound.Fifo
use rsound.Client.{Rsound}
use rsound.Cuse.{
  Ross, Event, reply, err, ioctl, sleep, int, Result, undefined, blocked, finished, after, replied,
  Client, drain, sleep_latency, ross_latency, add_held, held_avail, free_avail, ross_reset,
  ross_write_avail, ross_read_avail,
}
use rsound.Cuse.Ioctl.{
  Buffers, Request, getversion, getcaps, getfmts, set_nonblock, reset, speed, setfmt, set_channels,
  stereo, getospace, getblksize, setfragment, getodelay, sync, cookedmode, getoptr, setplayvol,
  getplayvol, settrigger, post, unknown, prep_uarg_inout, ospace, optr, odelay, set_fragment, sized,
  at_least, ross_ioctl,
}
use rsound.Cuse.Acts.{Live, same_buffer-Live}
use rsound.Cuse.Events.{replies, destroys, replies-append, destroys-append}
use rsound.Cuse.Served.{
  WellFormed-stream, WellFormed, Serves, nothing_given, replied-Serves, Sized, out-Serves,
  inout-Serves, WellFormed-with, with_rd,
}

-- A FIFO is there where one is looked at.
pub latency_some :
    (client : Client) (ro : Ross)
    → WellFormed ro
    → (n : ℤ) × (rd : Rsound) × (ross_latency client ro ≡ some (n, record ro { rd = rd }))
unfolding ross_latency
latency_some client ro w = elim (Bool-cases ro.started) [
  | inl e ↦
      let (q, l) = w.running e in
      let (d, rd) = client.delay ro.rd in
      (
        to_signed 32 (to_signed 32 (pos d) +ℤ pos (Fifo.read_avail l.fifo)),
        rd,
        ap
              (λ b.
                if not b
                then some (pos 0, ro)
                else add_held (client.delay ro.rd) ro (held_avail ro.buffer))
              e
            ∙ ap (λ o. add_held (client.delay ro.rd) ro (held_avail o)) l.same,
      )
  | inr e ↦ (
    pos 0,
    ro.rd,
    ap
        (λ b.
          if not b
          then some (pos 0, ro)
          else add_held (client.delay ro.rd) ro (held_avail ro.buffer))
        e,
  )
]

pub write_avail_some : (ro : Ross) → WellFormed ro → (n : ℕ) × (ross_write_avail ro ≡ some n)
unfolding ross_write_avail
write_avail_some ro w = elim (Bool-cases ro.started) [
  | inl e ↦
      let (q, l) = w.running e in
      (
        Fifo.write_avail l.fifo,
        ap (λ b. if not b then some ro.bufsize else free_avail ro.buffer) e ∙ ap free_avail l.same,
      )
  | inr e ↦ (ro.bufsize, ap (λ b. if not b then some ro.bufsize else free_avail ro.buffer) e)
]

pub read_avail_some : (ro : Ross) → WellFormed ro → (n : ℕ) × (ross_read_avail ro ≡ some n)
unfolding ross_read_avail
read_avail_some ro w = elim (Bool-cases ro.started) [
  | inl e ↦
      let (q, l) = w.running e in
      (
        Fifo.read_avail l.fifo,
        ap (λ b. if not b then some 0 else held_avail ro.buffer) e ∙ ap held_avail l.same,
      )
  | inr e ↦ (0, ap (λ b. if not b then some 0 else held_avail ro.buffer) e)
]

-- The sleep is defined, and what follows it runs with another state of the client.
pub drain_lem :
    (client : Client) (ro : Ross) (rest : Ross → Result)
    → WellFormed ro
    → (es : List Event) × (rd : Rsound) × (drain client ro rest
        ≡ after es (rest (record ro { rd = rd })))
      × (replies es ≡ [])
      × ((h : ℕ) → destroys h es ≡ 0)
unfolding drain
drain_lem client ro rest w = by_started (Bool-cases ro.started)
  where
    time : ℤ → ℕ
    time n = 1000000 * to_unsigned 64 n % 2 ^ 64 / to_unsigned 64 ro.bps % 2 ^ 32

    after_nil : (r : Result) → r ≡ after [] r
    after_nil undefined = refl
    after_nil blocked = refl
    after_nil (finished es ro1) = refl

    step : Bool → Result
    step b = if b then sleep_latency (ross_latency client ro) rest else rest ro

    by_started :
        (ro.started ≡ true) ⊎ (ro.started ≡ false)
        → (es : List Event) × (rd : Rsound) × (drain client ro rest
            ≡ after es (rest (record ro { rd = rd })))
          × (replies es ≡ [])
          × ((h : ℕ) → destroys h es ≡ 0)
    by_started (inl e) =
        let (n, rd, same) = latency_some client ro w in
        (
          sleep (time n) ∷ [],
          rd,
          ap step e
              ∙ (ap (λ o. sleep_latency o rest) same
                  ∙ ap
                      (λ b. elim (if b then none else some (time n)) as (λ o. Result) [
                        | none ↦ undefined
                        | some t ↦ after (sleep t ∷ []) (rest (record ro { rd = rd }))
                      ])
                      (w.rated e)),
          refl,
          λ h. refl,
        )
    by_started (inr e) = ([], ro.rd, ap step e ∙ after_nil (rest ro), refl, λ h. refl)

drain-Serves :
    (client : Client) (B : Type 0) (ro : Ross) (rest : Ross → Result)
    → WellFormed ro
    → ((rd : Rsound)
        → Serves B 1 nothing_given (record ro { rd = rd }) (rest (record ro { rd = rd })))
    → Serves B 1 nothing_given ro (drain client ro rest)
drain-Serves client B ro rest w h =
    let (es, rd, same, silent, kept) = drain_lem client ro rest w in
    subst (Serves B 1 nothing_given ro) (sym same)
      (of_rest es rd silent kept (rest (record ro { rd = rd })) (h rd))
  where
    of_rest :
        (es : List Event) (rd : Rsound)
        → replies es ≡ []
        → ((h : ℕ) → destroys h es ≡ 0)
        → (r : Result) → Serves B 1 nothing_given (record ro { rd = rd }) r
        → Serves B 1 nothing_given ro (after es r)
    of_rest es rd silent kept undefined h = h
    of_rest es rd silent kept blocked h = h
    of_rest es rd silent kept (finished fs ro1) h = record {
      answers = ap length (replies-append es fs ∙ ap (λ rs. rs ++ replies fs) silent) ∙ h.answers;
      handles = λ n. omega (arith, destroys-append n es fs, kept n, h.handles n);
      well = h.well;
    }

-- SNDCTL_DSP_SETFRAGMENT for which the C program has a defined result.
abbrev pub Fragments : ℤ → Type 0
Fragments i =
    let u = to_unsigned 32 i in
    (u % 2 ^ 16 < 31) × (at_least 8 (u / 2 ^ 16) * at_least 512 (2 ^ (u % 2 ^ 16)) < 2 ^ 31)

abbrev pub Fits : Request → Buffers → Type 0
Fits getospace b = Sized 16 b.out_bufsize
Fits getoptr b = Sized 12 b.out_bufsize
Fits setfragment b = Sized 4 b.in_bufsize × Sized 4 b.out_bufsize × Fragments b.in_int
Fits _ b = Sized 4 b.in_bufsize × Sized 4 b.out_bufsize

-- How often a request is answered.
abbrev pub expected : Request → Bool → ℕ
expected setfragment true = 2
expected _ _ = 1

at_least-le : (low n : ℕ) → low ≤ at_least low n
at_least-le low n = ground arith

set_fragment-Serves :
    (B : Type 0) (ro : Ross) (i : ℤ)
    → WellFormed ro
    → (ro.started ≡ true → (q : List ℕ) × Live q ro)
    → Fragments i
    → Serves B 1 nothing_given ro (set_fragment i ro)
set_fragment-Serves B ro i w live (shift, fits) =
    subst (λ b. Serves B 1 nothing_given ro (if b then sized i frags fragsize ro else undefined))
      (sym (lt→ltb _ _ shift))
      (subst
        (λ b. Serves B 1 nothing_given ro (if b then replied (ioctl (int i)) ro1 else undefined))
        (sym (lt→ltb _ _ fits))
        (replied-Serves B (ioctl (int i)) ro ro1 refl (record {
          large = at_least-le 512 (2 ^ (to_unsigned 32 i % 2 ^ 16));
          many = at_least-le 8 (to_unsigned 32 i / 2 ^ 16);
          product = refl;
          small = fits;
          running = λ e. let (q, l) = live e in (q, same_buffer-Live refl l);
          rated = w.rated;
        })))
  where
    frags : ℕ
    frags = at_least 8 (to_unsigned 32 i / 2 ^ 16)

    fragsize : ℕ
    fragsize = at_least 512 (2 ^ (to_unsigned 32 i % 2 ^ 16))

    ro1 : Ross
    ro1 = record ro { frags = frags; fragsize = fragsize; bufsize = frags * fragsize }

fragment-Serves :
    (B : Type 0) (b : Buffers) (ro : Ross)
    → WellFormed ro
    → Fits setfragment b
    → (started : Bool)
    → Serves B (expected setfragment started) nothing_given ro (
        after
          (if started then reply (err 22) ∷ [] else [])
          (prep_uarg_inout 4 b ro (set_fragment b.in_int ro)))
fragment-Serves B b ro w (s, t, f) true =
    by_rest (prep_uarg_inout 4 b ro (set_fragment b.in_int ro))
      (inout-Serves B b ro w _ s t (set_fragment-Serves B ro b.in_int w w.running f))
  where
    by_rest :
        (r : Result)
        → Serves B 1 nothing_given ro r
        → Serves B 2 nothing_given ro (after (reply (err 22) ∷ []) r)
    by_rest undefined h = h
    by_rest blocked h = h
    by_rest (finished es ro1) h = record {
      answers = omega (arith, h.answers);
      handles = h.handles;
      well = h.well;
    }
fragment-Serves B b ro w (s, t, f) false =
    by_rest (prep_uarg_inout 4 b ro (set_fragment b.in_int ro))
      (inout-Serves B b ro w _ s t (set_fragment-Serves B ro b.in_int w w.running f))
  where
    by_rest :
        (r : Result) → Serves B 1 nothing_given ro r → Serves B 1 nothing_given ro (after [] r)
    by_rest undefined h = h
    by_rest blocked h = h
    by_rest (finished es ro1) h = record { answers = h.answers; handles = h.handles; well = h.well }

module _ (client : Client) (B : Type 0) (b : Buffers) (ro : Ross) (w : WellFormed ro) where
  pub ross_ioctl-Serves :
      (r : Request)
      → Fits r b
      → Serves B (expected r ro.started) nothing_given ro (ross_ioctl client b r ro)
  unfolding ross_ioctl ross_reset
  ross_ioctl-Serves getversion (s, t) = out-Serves B b ro w 4 _ t (replied-Serves B _ ro ro refl w)
  ross_ioctl-Serves getcaps (s, t) = out-Serves B b ro w 4 _ t (replied-Serves B _ ro ro refl w)
  ross_ioctl-Serves getfmts (s, t) = out-Serves B b ro w 4 _ t (replied-Serves B _ ro ro refl w)
  ross_ioctl-Serves set_nonblock f =
      replied-Serves B _ ro _ refl
        (WellFormed-with ro ro.rd ro.channels ro.rate true ro.ph ro.error w)
  ross_ioctl-Serves reset f = replied-Serves B _ ro _ refl (
      WellFormed-stream ro (client.stop ro.rd) false ro.ph ro.bps false ro.write_cnt none w
        (λ e. absurd (cc)) (λ e. absurd (cc)))
  ross_ioctl-Serves speed (s, t) = inout-Serves B b ro w _ s t (
      replied-Serves B _ ro _ refl
        (WellFormed-with ro _ ro.channels b.in_int ro.nonblock ro.ph ro.error w))
  ross_ioctl-Serves setfmt (s, t) =
      inout-Serves B b ro w _ s t (replied-Serves B _ ro _ refl (with_rd ro _ w))
  ross_ioctl-Serves set_channels (s, t) = inout-Serves B b ro w _ s t (
      replied-Serves B _ ro _ refl
        (WellFormed-with ro _ b.in_int ro.rate ro.nonblock ro.ph ro.error w))
  ross_ioctl-Serves stereo (s, t) =
      inout-Serves B b ro w _ s t
        (replied-Serves B _ ro _ refl (WellFormed-with ro _ _ ro.rate ro.nonblock ro.ph ro.error w))
  ross_ioctl-Serves getospace t =
      let (n, e) = write_avail_some ro w in
      subst (λ o. Serves B 1 nothing_given ro (ospace b ro o)) (sym e)
        (out-Serves B b ro w 16 _ t (replied-Serves B _ ro ro refl w))
  ross_ioctl-Serves getblksize (s, t) = out-Serves B b ro w 4 _ t (replied-Serves B _ ro ro refl w)
  ross_ioctl-Serves setfragment f = fragment-Serves B b ro w f ro.started
  ross_ioctl-Serves getodelay (s, t) =
      let (n, rd, e) = latency_some client ro w in
      out-Serves B b ro w 4 _ t (
        subst (λ o. Serves B 1 nothing_given ro (odelay o)) (sym e)
          (replied-Serves B _ ro _ refl (with_rd ro rd w)))
  ross_ioctl-Serves sync f =
      drain-Serves client B ro _ w (λ rd. replied-Serves B _ _ _ refl (with_rd ro rd w))
  ross_ioctl-Serves cookedmode (s, t) =
      inout-Serves B b ro w _ s t (replied-Serves B _ ro ro refl w)
  ross_ioctl-Serves getoptr t =
      let (n, e) = read_avail_some ro w in
      subst (λ o. Serves B 1 nothing_given ro (optr b ro o)) (sym e)
        (out-Serves B b ro w 12 _ t (replied-Serves B _ ro ro refl w))
  ross_ioctl-Serves setplayvol (s, t) =
      inout-Serves B b ro w _ s t (replied-Serves B _ ro ro refl w)
  ross_ioctl-Serves getplayvol (s, t) = out-Serves B b ro w 4 _ t (replied-Serves B _ ro ro refl w)
  ross_ioctl-Serves settrigger (s, t) =
      inout-Serves B b ro w _ s t (replied-Serves B _ ro ro refl w)
  ross_ioctl-Serves post f = replied-Serves B _ ro ro refl w
  ross_ioctl-Serves unknown f = replied-Serves B _ ro ro refl w
