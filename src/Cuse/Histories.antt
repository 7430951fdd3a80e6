-- ===== src/Cuse/Histories.antt =====
-- src/cuse-ross/cuse-ross.c: sequences of requests and callbacks, from `ross_open` to
-- `ross_release`.
use mathlib.Core.Path.{subst}
use rsound.Base.{
  ℕ, ◌+◌, ◌≡◌, refl, sym, ap, ◌∙◌, Bool, true, false, not, ◌||◌, Option, none, some, List, [], ◌∷◌,
  ◌++◌, ◌==◌, if◌then◌else◌, length, arith, length-append,
}
use Prim.Native.Nat.{bit_and}
use rsound.Client.{Rsound}
use rsound.Cuse.{
  Ross, Reply, Event, reply, err, Result, undefined, blocked, finished, after, Client, Opening,
  ross_open, with_init, with_defaults, opened, failing, destroy_handle, ross_release,
}
use rsound.Cuse.Write.{Act, run_acts, with_acts}
use rsound.Cuse.Acts.{Played, run_acts-Acted, same_buffer-Live}
use rsound.Cuse.Events.{replies, destroys, holds, replies-append, destroys-append}
use rsound.Cuse.Served.{WellFormed-stream, WellFormed, Served, Serves, nothing_given}
use rsound.Cuse.Answers.{ross_ioctl-Serves, drain_lem}
use rsound.Cuse.Device.{
  Call, write, ioctl, poll_with, acts, perform, then_run, run, Allowed, answered, given,
  ross_poll-Serves, ross_write-Serves,
}

acts-Serves :
    (as_given : List Act) (ro : Ross)
    → WellFormed ro
    → ro.started ≡ true
    → Serves Unit 0 nothing_given ro (with_acts (run_acts as_given ro) (λ es ro1. finished [] ro1))
acts-Serves as_given ro w e =
    let (q, l) = w.running e in
    let a = run_acts-Acted as_given q ro l in
    subst (λ o. Serves Unit 0 nothing_given ro (with_acts o (λ es ro1. finished [] ro1)))
      (sym a.same) (of_played q a.events a.state a.played)
  where
    of_played :
        (q : List ℕ) (es : List Event) (ro1 : Ross)
        → Played q ro es ro1
        → Served 0 nothing_given ro (es ++ []) ro1
    of_played q es ro1 p = record {
      answers =
          ap length (replies-append es []) ∙ ap (λ (rs : List Reply). length (rs ++ [])) p.silent;
      handles = λ h. omega (arith, destroys-append h es [], p.handles h);
      well = subst WellFormed (sym p.frame) (
          WellFormed-stream ro ro.rd ro.started ro1.ph ro.bps ro1.error ro.write_cnt ro1.buffer w
            (λ s. (p.rest, same_buffer-Live refl p.live)) w.rated);
    }

perform-Serves :
    (client : Client) (c : Call) (ro : Ross)
    → WellFormed ro
    → Allowed c ro
    → Serves Unit (answered c ro) (given c) ro (perform client c ro)
perform-Serves client (write struct_ok storage_ok ts flags xs) ro w h =
    ross_write-Serves client struct_ok storage_ok ts flags xs ro w h
perform-Serves client (ioctl b r) ro w h = ross_ioctl-Serves client Unit b ro w r h
perform-Serves client (poll_with ph) ro w h = ross_poll-Serves Unit ph ro w
perform-Serves client (acts as_given) ro w h = acts-Serves as_given ro w h

-- Each call is allowed where it is made, how often the calls are answered in all, and the handles
-- that they bring.
abbrev pub AfterAllowed : (Ross → Type 0) → Result → Type 0
AfterAllowed rest undefined = Unit
AfterAllowed rest blocked = Unit
AfterAllowed rest (finished es ro) = rest ro

abbrev pub AllAllowed : Client → List Call → Ross → Type 0
AllAllowed client [] ro = Unit
AllAllowed client (c ∷ calls) ro =
    Allowed c ro × AfterAllowed (AllAllowed client calls) (perform client c ro)

abbrev pub after_total : (Ross → ℕ) → Result → ℕ
after_total rest undefined = 0
after_total rest blocked = 0
after_total rest (finished es ro) = rest ro

abbrev pub total : Client → List Call → Ross → ℕ
total client [] ro = 0
total client (c ∷ calls) ro = answered c ro + after_total (total client calls) (perform client c ro)

abbrev pub all_given : List Call → ℕ → ℕ
all_given [] h = 0
all_given (c ∷ calls) h = given c h + all_given calls h

then-Serves :
    (m : ℕ) (first more : ℕ → ℕ) (ro : Ross) (rest : Ross → Result) (k : Ross → ℕ)
    (Next : Ross → Type 0)
    → ((ro1 : Ross) → WellFormed ro1 → Next ro1 → Serves Unit (k ro1) more ro1 (rest ro1))
    → (r : Result) → Serves Unit m first ro r
    → AfterAllowed Next r
    → Serves Unit (m + after_total k r) (λ h. first h + more h) ro (then_run rest r)
then-Serves m first more ro rest k Next go undefined h a = h
then-Serves m first more ro rest k Next go blocked h a = tt
then-Serves m first more ro rest k Next go (finished es ro1) h a =
    by_rest (rest ro1) (go ro1 h.well a)
  where
    by_rest :
        (r : Result)
        → Serves Unit (k ro1) more ro1 r
        → Serves Unit (m + k ro1) (λ n. first n + more n) ro (after es r)
    by_rest undefined g = g
    by_rest blocked g = tt
    by_rest (finished fs ro2) g = record {
      answers =
          ap length (replies-append es fs)
          ∙ (length-append (replies es) (replies fs) ∙ omega (arith, h.answers, g.answers));
      handles = λ n. omega (arith, destroys-append n es fs, h.handles n, g.handles n);
      well = g.well;
    }

-- From a well-formed state, no sequence of writes, ioctls, polls and callbacks of a started stream
-- reaches what the C program leaves undefined, where FUSE passes the sizes that were asked for, a
-- write finds a stream that is started or has a rate and sizes that an int holds, and a fragment
-- size is one that an int holds. Where every call returns, each request has been answered exactly
-- once, but SNDCTL_DSP_SETFRAGMENT on a started stream twice; each poll handle has been destroyed or
-- is held as often as it was brought; and the state is well-formed.
pub run-Serves :
    (client : Client) (calls : List Call) (ro : Ross)
    → WellFormed ro
    → AllAllowed client calls ro
    → Serves Unit (total client calls ro) (all_given calls) ro (run client calls ro)
run-Serves client [] ro w h = record { answers = refl; handles = λ n. omega arith; well = w }
run-Serves client (c ∷ calls) ro w (h, more) =
    then-Serves (answered c ro) (given c) (all_given calls) ro (run client calls)
      (total client calls) (AllAllowed client calls)
      (λ ro1 w1 h1. run-Serves client calls ro1 w1 h1) (perform client c ro)
      (perform-Serves client c ro w h) more

pub with_defaults-WellFormed : (rd : Rsound) → WellFormed (with_defaults rd)
with_defaults-WellFormed rd = record {
  large = omega arith;
  many = omega arith;
  product = refl;
  small = omega arith;
  running = λ e. absurd (cc);
  rated = λ e. absurd (cc);
}

-- What `ross_open` opens.
open-WellFormed :
    (a : Opening) (flags : ℕ) (ro : Ross)
    → ross_open a flags ≡ (opened, some ro)
    → WellFormed ro × (ro.ph ≡ none)
unfolding ross_open
open-WellFormed a flags ro e = of_mode (not (bit_and flags 3 == 1)) e
  where
    of_state : (rd : Rsound) → some (with_defaults rd) ≡ some ro → WellFormed ro × (ro.ph ≡ none)
    of_state rd e =
        let same : with_defaults rd ≡ ro = cc in
        (subst WellFormed same (with_defaults-WellFormed rd), ap {A = Ross} (λ r. r.ph) (sym same))

    of_locks :
        (b : Bool) (rd : Rsound)
        → ◌≡◌ {A = Reply × Option Ross}
            (if b then (err 12, none) else (opened, some (with_defaults rd)))
            (opened, some ro)
        → WellFormed ro × (ro.ph ≡ none)
    of_locks true rd e = absurd (cc)
    of_locks false rd e = of_state rd (ap (λ p. p.1) e)

    of_init :
        (o : Option Rsound) → with_init a o ≡ (opened, some ro) → WellFormed ro × (ro.ph ≡ none)
    of_init none e = absurd (cc)
    of_init (some rd) e =
        of_locks (failing a.poll_lock || failing a.cond_lock || failing a.cond) rd e

    of_memory :
        (b : Bool)
        → ◌≡◌ {A = Reply × Option Ross}
            (if b then (err 12, none) else with_init a a.init)
            (opened, some ro)
        → WellFormed ro × (ro.ph ≡ none)
    of_memory true e = absurd (cc)
    of_memory false e = of_init a.init e

    of_mode :
        (b : Bool)
        → ◌≡◌ {A = Reply × Option Ross}
            (if b
              then (err 13, none)
              else if not a.memory
              then (err 12, none)
              else with_init a a.init)
            (opened, some ro)
        → WellFormed ro × (ro.ph ≡ none)
    of_mode true e = absurd (cc)
    of_mode false e = of_memory (not a.memory) e

-- `ross_release` ends with no handle.
release_lem :
    (client : Client) (ro : Ross)
    → WellFormed ro
    → (es : List Event) × (ro1 : Ross) × (ross_release client ro ≡ finished es ro1)
      × (length (replies es) ≡ 1)
      × ((h : ℕ) → destroys h es ≡ holds h ro.ph)
unfolding ross_release
release_lem client ro w =
    let (es, rd, same, silent, kept) =
      drain_lem client ro
        (λ ro1.
          finished (destroy_handle ro1.ph ++ reply (err 0) ∷ [])
            (record ro1 { rd = client.stop ro1.rd; ph = none; buffer = none }))
        w in
    let last = destroy_handle ro.ph ++ reply (err 0) ∷ [] in
    (
      es ++ last,
      record ro { rd = client.stop rd; ph = none; buffer = none },
      same,
      ap length (replies-append es last ∙ ap (λ rs. rs ++ replies last) silent) ∙ once ro.ph,
      λ h. omega (arith, destroys-append h es last, kept h, destroyed h ro.ph),
    )
  where
    once : (ph : Option ℕ) → length (replies (destroy_handle ph ++ reply (err 0) ∷ [])) ≡ 1
    once none = refl
    once (some h) = refl

    destroyed :
        (h : ℕ) (ph : Option ℕ) → destroys h (destroy_handle ph ++ reply (err 0) ∷ []) ≡ holds h ph
    destroyed h none = refl
    destroyed h (some k) = omega arith

-- A file's whole life: where the calls between a successful `ross_open` and `ross_release` are
-- allowed and all return, each poll handle has been destroyed exactly as often as a poll brought it,
-- the release answers once, and every call before it has been answered as `total` counts.
pub closed_lem :
    (client : Client) (a : Opening) (flags : ℕ) (calls : List Call) (ro : Ross) (es : List Event)
    (ro1 : Ross)
    → ross_open a flags ≡ (opened, some ro)
    → AllAllowed client calls ro
    → run client calls ro ≡ finished es ro1
    → (fs : List Event) × (ro2 : Ross) × (ross_release client ro1 ≡ finished fs ro2)
      × (length (replies es) ≡ total client calls ro)
      × (length (replies fs) ≡ 1)
      × ((h : ℕ) → destroys h (es ++ fs) ≡ all_given calls h)
closed_lem client a flags calls ro es ro1 o allowed e =
    let (w, fresh) = open-WellFormed a flags ro o in
    let s : Served (total client calls ro) (all_given calls) ro es ro1 =
      subst (Serves Unit (total client calls ro) (all_given calls) ro) e
        (run-Serves client calls ro w allowed) in
    let (fs, ro2, same, once, destroyed) = release_lem client ro1 s.well in
    (
      fs,
      ro2,
      same,
      s.answers,
      once,
      λ h. omega (arith, destroys-append h es fs, destroyed h, s.handles h, ap (holds h) fresh),
    )
