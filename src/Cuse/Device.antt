-- ===== src/Cuse/Device.antt =====
-- src/cuse-ross/cuse-ross.c: an open file from the requests' side, between `ross_open` and
-- `ross_release`.
use mathlib.Core.Path.{subst}
use rsound.Base.{
  ℕ, ◌+◌, ◌≡◌, ◌⊎◌, refl, sym, ap, ◌∙◌, Bool, true, false, not, Option, none, some, List, [], ◌∷◌,
  ◌==◌, if◌then◌else◌, length, arith, inl, inr,
}
use rsound.Cuse.{
  Ross, Reply, Event, err, poll, Result, undefined, blocked, finished, after, replied, Client,
  ross_poll, poll_free, ross_update_notify, destroy_handle, ross_write_avail,
}
use rsound.Cuse.Start.{ross_start}
use rsound.Cuse.Write.{Act, Turn, run_acts, with_acts, write_started, ross_write}
use rsound.Cuse.Ioctl.{Buffers, Request, ross_ioctl}
use rsound.Cuse.Events.{replies, destroys, holds}
use rsound.Cuse.Stream.{Streams, Outcome, write_loop-Streams}
use rsound.Cuse.Launch.{startable, Starts, ross_start-Starts}
use rsound.Cuse.Acts.{same_buffer-Live}
use rsound.Cuse.Served.{
  WellFormed-with, WellFormed-stream, WellFormed, Serves, nothing_given, replied-Serves,
  after-Serves, if-Serves,
}
use rsound.Cuse.Answers.{Fits, expected, write_avail_some}

-- The poll handle that a request brings.
abbrev pub brings : Option ℕ → ℕ → ℕ
brings ph h = holds h ph

module _ (B : Type 0) (ro : Ross) (w : WellFormed ro) where
  free-Serves :
      (o : Option ℕ) → (n : ℕ) × (o ≡ some n) → Serves B 1 nothing_given ro (poll_free ro o)
  free-Serves none (n, e) = absurd (cc)
  free-Serves (some m) (n, e) = replied-Serves B _ ro ro refl w

  answered-Serves : Serves B 1 nothing_given ro (
      if ro.error
      then replied (poll 16) ro
      else if not ro.started
      then replied (poll 4) ro
      else poll_free ro (ross_write_avail ro))
  answered-Serves =
      if-Serves ro.error B 1 nothing_given ro _ _ (replied-Serves B (poll 16) ro ro refl w) (
        if-Serves (not ro.started) B 1 nothing_given ro _ _ (replied-Serves B (poll 4) ro ro refl w)
          (free-Serves (ross_write_avail ro) (write_avail_some ro w)))

destroy_handle-silent : (ph : Option ℕ) → length (replies (destroy_handle ph)) ≡ 0
destroy_handle-silent none = refl
destroy_handle-silent (some h) = refl

destroy_handle-handles :
    (h : ℕ) (old new : Option ℕ)
    → destroys h (destroy_handle old) + holds h new ≡ holds h new + holds h old
destroy_handle-handles h none new = omega arith
destroy_handle-handles h (some k) new = omega arith

given_nothing :
    (B : Type 0) (k : ℕ) (given : ℕ → ℕ) (ro : Ross) (r : Result)
    → Serves B (0 + k) (λ h. given h + nothing_given h) ro r
    → Serves B k given ro r
given_nothing B k given ro undefined h = h
given_nothing B k given ro blocked h = h
given_nothing B k given ro (finished es ro1) h = record {
  answers = omega (arith, h.answers);
  handles = λ n. omega (arith, h.handles n);
  well = h.well;
}

pub ross_poll-Serves :
    (B : Type 0) (ph : Option ℕ) (ro : Ross)
    → WellFormed ro
    → Serves B 1 (brings ph) ro (ross_poll ph ro)
unfolding ross_poll ross_update_notify
ross_poll-Serves B ph ro w =
    let ro1 = record ro { ph = ph } in
    given_nothing B 1 (brings ph) ro _ (
      after-Serves B (destroy_handle ro.ph) 0 1 nothing_given (brings ph) ro ro1
        (destroy_handle-silent ro.ph) (λ h. destroy_handle-handles h ro.ph ph) _
        (answered-Serves B ro1
          (WellFormed-with ro ro.rd ro.channels ro.rate ro.nonblock ph ro.error w)))

-- What a write leaves is well-formed.
outcome-WellFormed :
    (q xs : List ℕ) (w : ℕ) (ro : Ross) (es : List Event) (ro1 : Ross)
    → WellFormed ro
    → Outcome q xs w ro es ro1
    → WellFormed ro1
outcome-WellFormed q xs w ro es ro1 well h = subst WellFormed (sym h.frame) (
    WellFormed-stream ro ro.rd ro.started ro1.ph ro.bps ro1.error ro1.write_cnt ro1.buffer well
      (λ e. (h.rest, same_buffer-Live refl h.live)) well.rated)

Streams-Serves :
    (q xs : List ℕ) (w : ℕ) (ro : Ross) (r : Result)
    → WellFormed ro
    → Streams q xs w ro r
    → Serves Unit 1 nothing_given ro r
Streams-Serves q xs w ro undefined well h = h
Streams-Serves q xs w ro blocked well h = tt
Streams-Serves q xs w ro (finished es ro1) well h = record {
  answers = ap length h.answers;
  handles = λ k. omega (arith, h.handles k);
  well = outcome-WellFormed q xs w ro es ro1 well h;
}

-- A stream that runs or can be started.
abbrev pub Startable : Ross → Type 0
Startable ro = (ro.started ≡ true) ⊎ ((ro.started ≡ false) × (startable ro ≡ true))

-- What `ross_start` leaves, also where it fails.
Starts-WellFormed : (ro : Ross) (r : Bool × Ross) → WellFormed ro → Starts ro r → WellFormed r.1
Starts-WellFormed ro (ok, ro1) w (frame, live, rated) = subst WellFormed (sym frame) (
    WellFormed-stream ro ro1.rd ok ro.ph ro1.bps ro.error ro.write_cnt ro1.buffer w
      (λ e. ([], same_buffer-Live refl (live e))) (λ e. rated))

Starts-ph : (ro : Ross) (r : Bool × Ross) → Starts ro r → r.1.ph ≡ ro.ph
Starts-ph ro (ok, ro1) (frame, live, rated) = ap {A = Ross} (λ r. r.ph) frame

-- Over another state with the same handle.
same_ph-Serves :
    (B : Type 0) (k : ℕ) (ro ro1 : Ross) (r : Result)
    → ro1.ph ≡ ro.ph
    → Serves B k nothing_given ro1 r
    → Serves B k nothing_given ro r
same_ph-Serves B k ro ro1 undefined e h = h
same_ph-Serves B k ro ro1 blocked e h = h
same_ph-Serves B k ro ro1 (finished es ro2) e h = record {
  answers = h.answers;
  handles = λ n. h.handles n ∙ ap (λ p. 0 + holds n p) e;
  well = h.well;
}

module _ (client : Client) (struct_ok storage_ok : Bool) (ts : List Turn) (nonblock : Bool)
    (xs : List ℕ) (ro : Ross) (w : WellFormed ro) where
  started-Serves :
      (r : Bool × Ross)
      → Starts ro r
      → Serves Unit 1 nothing_given ro (write_started ts nonblock xs (some r))
  started-Serves (false, ro1) s =
      replied-Serves Unit (err 5) ro ro1 (Starts-ph ro (false, ro1) s)
        (Starts-WellFormed ro (false, ro1) w s)
  started-Serves (true, ro1) (frame, live, rated) =
      same_ph-Serves Unit 1 ro ro1 _ (Starts-ph ro (true, ro1) (frame, live, rated)) (
        Streams-Serves [] xs 0 ro1 _ (Starts-WellFormed ro (true, ro1) w (frame, live, rated))
          (write_loop-Streams ts nonblock [] xs 0 ro1 (live refl)))

  begun-Serves :
      Startable ro
      → Serves Unit 1 nothing_given ro (
          write_started ts nonblock xs
            (if ro.started then some (true, ro) else ross_start client struct_ok storage_ok ro))
  begun-Serves (inl e) =
      let (q, l) = w.running e in
      subst
        (λ b. Serves Unit 1 nothing_given ro (
          write_started ts nonblock xs
            (if b then some (true, ro) else ross_start client struct_ok storage_ok ro)))
        (sym e) (Streams-Serves q xs 0 ro _ w (write_loop-Streams ts nonblock q xs 0 ro l))
  begun-Serves (inr (e, ok)) =
      let (r, same, s) = ross_start-Starts client struct_ok storage_ok ro ok e in
      subst
        (λ b. Serves Unit 1 nothing_given ro (
          write_started ts nonblock xs
            (if b then some (true, ro) else ross_start client struct_ok storage_ok ro)))
        (sym e)
        (subst (λ o. Serves Unit 1 nothing_given ro (write_started ts nonblock xs o)) (sym same)
          (started-Serves r s))

pub ross_write-Serves :
    (client : Client) (struct_ok storage_ok : Bool) (ts : List Turn) (flags : ℕ) (xs : List ℕ)
    (ro : Ross)
    → WellFormed ro
    → Startable ro
    → Serves Unit 1 nothing_given ro (ross_write client struct_ok storage_ok ts flags xs ro)
unfolding ross_write
ross_write-Serves client struct_ok storage_ok ts flags xs ro w s =
    if-Serves (length xs == 0) Unit 1 nothing_given ro _ _
      (replied-Serves Unit (Reply.write 0) ro ro refl w)
      (if-Serves ro.error Unit 1 nothing_given ro _ _ (replied-Serves Unit (err 32) ro ro refl w)
        (begun-Serves client struct_ok storage_ok ts _ xs ro w s))

-- What happens to an open file: a write, an ioctl, a poll with the handle that it brings, and the
-- callbacks of the network thread, which run only in a started stream.
pub data Call : Type 0 where
  write : Bool → Bool → List Turn → ℕ → List ℕ → Call
  ioctl : Buffers → Request → Call
  poll_with : Option ℕ → Call
  acts : List Act → Call

module _ (client : Client) where
  abbrev pub perform : Call → Ross → Result
  perform (write struct_ok storage_ok ts flags xs) ro =
      ross_write client struct_ok storage_ok ts flags xs ro
  perform (ioctl b r) ro = ross_ioctl client b r ro
  perform (poll_with ph) ro = ross_poll ph ro
  perform (acts as_given) ro = with_acts (run_acts as_given ro) (λ es ro1. finished [] ro1)

-- One call after the other, until one does not return.
abbrev pub then_run : (Ross → Result) → Result → Result
then_run rest undefined = undefined
then_run rest blocked = blocked
then_run rest (finished es ro) = after es (rest ro)

abbrev pub run : Client → List Call → Ross → Result
run client [] ro = finished [] ro
run client (c ∷ calls) ro = then_run (run client calls) (perform client c ro)

-- The calls for which the C program is defined.
abbrev pub Allowed : Call → Ross → Type 0
Allowed (write struct_ok storage_ok ts flags xs) ro = Startable ro
Allowed (ioctl b r) ro = Fits r b
Allowed (poll_with ph) ro = Unit
Allowed (acts as_given) ro = ro.started ≡ true

-- How often a call is answered, and the handle that it brings.
abbrev pub answered : Call → Ross → ℕ
answered (write struct_ok storage_ok ts flags xs) ro = 1
answered (ioctl b r) ro = expected r ro.started
answered (poll_with ph) ro = 1
answered (acts as_given) ro = 0

abbrev pub given : Call → ℕ → ℕ
given (write struct_ok storage_ok ts flags xs) h = 0
given (ioctl b r) h = 0
given (poll_with ph) h = holds h ph
given (acts as_given) h = 0
