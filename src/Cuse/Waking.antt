-- ===== src/Cuse/Waking.antt =====
-- src/cuse-ross/cuse-ross.c: the results of a write that returns, and the callbacks that end a wait.
use mathlib.Core.Path.{subst}
use rsound.Base.{
  ℕ, zero, suc, ◌<◌, ◌≡◌, refl, sym, ap, ◌∙◌, Bool, true, false, List, [], ◌∷◌, ◌++◌, ◌==◌, min,
  if◌then◌else◌, length, arith, length-append, length-drop,
}
use rsound.Fifo
use rsound.Fifo.{Fifo}
use rsound.Fifo.Refine.{contents, length-contents}
use rsound.Cuse.{
  Ross, Event, reply, notify, destroy, sleep, signal, played, Result, undefined, blocked, finished,
  after, ross_audio_cb, read_from,
}
use rsound.Cuse.Write.{Act, read, Turn, run_acts, with_acts, wakes, answer, leave}
use rsound.Cuse.Acts.{Live, Acted, then-Acted, run_acts-Acted, read_some-wakes}
use rsound.Cuse.Events.{all_played}

-- Around each pass the callbacks run only while the write waits, and then one of them asks for some
-- bytes first.
abbrev pub Reads : List Act → Type 0
Reads (read (suc m) ∷ more) = Unit
Reads _ = ⊥

abbrev pub Prompt : List Turn → Type 0
Prompt [] = Unit
Prompt (t ∷ ts) = (t.stored ≡ []) × (t.tested ≡ []) × Reads t.waited × Prompt ts

abbrev pub Returns : Result → Type 0
Returns undefined = ⊥
Returns blocked = ⊥
Returns (finished es ro) = Unit

pub after-Returns : (es : List Event) (r : Result) → Returns r → Returns (after es r)
after-Returns es undefined h = h
after-Returns es blocked h = h
after-Returns es (finished fs ro) h = tt

pub if-Returns : (b : Bool) (r s : Result) → Returns r → Returns s → Returns (if b then r else s)
if-Returns true r s h k = h
if-Returns false r s h k = k

answer-Returns : (w : ℕ) (ro : Ross) → Returns (answer w ro)
unfolding answer
answer-Returns w ro = if-Returns ro.error _ _ tt (if-Returns (w == 0) _ _ tt tt)

pub leave-Returns : (t : Turn) (w : ℕ) (q : List ℕ) (ro : Ross) → Live q ro → Returns (leave t w ro)
leave-Returns t w q ro l =
    let a = run_acts-Acted t.left q ro l in
    subst (λ o. Returns (with_acts o (λ es ro1. answer w ro1))) (sym a.same)
      (after-Returns a.events _ (answer-Returns w a.state))

-- A signal among the events wakes, whatever comes after it.
wakes-append : (es fs : List Event) → wakes es ≡ true → wakes (es ++ fs) ≡ true
wakes-append [] fs h = absurd (cc)
wakes-append (signal ∷ es) fs h = refl
wakes-append (reply r ∷ es) fs h = wakes-append es fs h
wakes-append (notify k ∷ es) fs h = wakes-append es fs h
wakes-append (destroy k ∷ es) fs h = wakes-append es fs h
wakes-append (sleep t ∷ es) fs h = wakes-append es fs h
wakes-append (played xs ∷ es) fs h = wakes-append es fs h

-- What is held falls when a callback asks first and something is held.
pub waited-wakes :
    (acts : List Act) (q : List ℕ) (ro : Ross)
    → Reads acts
    → Live q ro
    → 0 < length q
    → (a : Acted q ro (run_acts acts ro)) × (wakes a.events ≡ true)
      × (length a.played.rest < length q)
unfolding ross_audio_cb
waited-wakes [] q ro h l some_held = absurd h
waited-wakes (Act.fail ∷ more) q ro h l some_held = absurd h
waited-wakes (Act.spurious ∷ more) q ro h l some_held = absurd h
waited-wakes (read zero ∷ more) q ro h l some_held = absurd h
waited-wakes (read (suc m) ∷ more) q ro h l some_held =
    let n = min (Fifo.read_avail l.fifo) (suc m) in
    let size : length q ≡ Fifo.read_avail l.fifo =
      sym (ap length l.bytes) ∙ length-contents l.fifo in
    let (b, woken, rest) =
      read_some-wakes n q ro l (omega arith) (ground (arith, size, some_held)) in
    let x : Acted q ro (ross_audio_cb (suc m) ro) = record {
      events = b.events;
      state = b.state;
      same = ap (read_from (suc m) ro) l.same ∙ b.same;
      played = b.played;
    } in
    let y = run_acts-Acted more b.played.rest b.state b.played.live in
    let (z, events, left) = then-Acted (read (suc m)) more q ro x y in
    (
      z,
      ap wakes events ∙ wakes-append b.events y.events woken,
      omega (
        arith,
        ap length left,
        ap length rest,
        ap length y.played.bytes,
        length-append (all_played y.events) y.played.rest,
        length-drop n (contents l.fifo),
        length-contents l.fifo,
        size,
      ),
    )
