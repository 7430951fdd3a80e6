-- ===== src/Cuse/Acts.antt =====
-- src/cuse-ross/cuse-ross.c: what the callbacks of the network thread do to the state of a file.
use mathlib.Core.List.{append_assoc}
use rsound.Base.{
  ℕ, ◌+◌, ◌≤◌, ◌≡◌, refl, sym, ap, ◌∙◌, true, Option, none, some, List, [], ◌∷◌, ◌++◌, ltb, min,
  if◌then◌else◌, take, drop, arith, Bool-cases, inl, inr, take-append-drop,
}
use rsound.Fifo
use rsound.Fifo.{Fifo}
use rsound.Fifo.Inv.{IsValid}
use rsound.Fifo.Refine.{contents}
use rsound.Fifo.Access.{read_fits}
use rsound.Cuse.{
  Ross, Event, signal, played, ross_notify, notify_handle, ross_audio_cb, read_from, read_some,
  with_read, ross_err_cb,
}
use rsound.Cuse.Write.{Act, read, fail, spurious, act, then_acts, run_acts, wakes}
use rsound.Cuse.Events.{
  all_played, replies, destroys, holds, played-append, replies-append, destroys-append,
}

-- A file whose FIFO is valid and holds the bytes `q`.
pub record Live (q : List ℕ) (ro : Ross) : Type 0 where
  pub fifo : Fifo
  pub same : ro.buffer ≡ some fifo
  pub valid : IsValid fifo
  pub bytes : contents fifo ≡ q

-- A state with the same FIFO.
pub same_buffer-Live :
    {q : List ℕ} {ro ro1 : Ross} → ro1.buffer ≡ ro.buffer → Live q ro → Live q ro1
same_buffer-Live e l = record { fifo = l.fifo; same = e ∙ l.same; valid = l.valid; bytes = l.bytes }

-- `bufsize` of the FIFO.
abbrev pub capacity : Option Fifo → ℕ
capacity none = 0
capacity (some f) = f.bufsize

-- From the state `ro` and the bytes `q` held, events and a state that account for each byte and
-- each poll handle, and that reply nothing.
pub record Played (q : List ℕ) (ro : Ross) (es : List Event) (ro1 : Ross) : Type 0 where
  pub rest : List ℕ
  pub live : Live rest ro1
  pub bytes : all_played es ++ rest ≡ q
  pub silent : replies es ≡ []
  pub handles : (h : ℕ) → destroys h es + holds h ro1.ph ≡ holds h ro.ph
  pub size : capacity ro1.buffer ≡ capacity ro.buffer
  pub frame : ro1 ≡ record ro { ph = ro1.ph; buffer = ro1.buffer; error = ro1.error }

pub record Acted (q : List ℕ) (ro : Ross) (o : Option (List Event × Ross)) : Type 0 where
  pub events : List Event
  pub state : Ross
  pub same : o ≡ some (events, state)
  pub played : Played q ro events state

-- Nothing done.
pub idle-Played : (q : List ℕ) (ro : Ross) → Live q ro → Played q ro [] ro
idle-Played q ro l = record {
  rest = q;
  live = l;
  bytes = refl;
  silent = refl;
  handles = λ h. omega arith;
  size = refl;
  frame = refl;
}

-- The notification.
notify_handle-silent : (ph : Option ℕ) → replies (notify_handle ph ++ signal ∷ []) ≡ []
notify_handle-silent none = refl
notify_handle-silent (some h) = refl

notify_handle-unplayed : (ph : Option ℕ) → all_played (notify_handle ph ++ signal ∷ []) ≡ []
notify_handle-unplayed none = refl
notify_handle-unplayed (some h) = refl

notify_handle-handles :
    (h : ℕ) (ph : Option ℕ) → destroys h (notify_handle ph ++ signal ∷ []) + 0 ≡ holds h ph
notify_handle-handles h none = refl
notify_handle-handles h (some k) = omega arith

notify_handle-wakes : (ph : Option ℕ) → wakes (notify_handle ph ++ signal ∷ []) ≡ true
notify_handle-wakes none = refl
notify_handle-wakes (some h) = refl

-- A read of some bytes that are held wakes a waiting write.
pub read_some-wakes :
    (n : ℕ) (q : List ℕ) (ro : Ross) (l : Live q ro)
    → n ≤ Fifo.read_avail l.fifo
    → ltb 0 n ≡ true
    → (a : Acted q ro (read_some n ro l.fifo)) × (wakes a.events ≡ true)
      × (a.played.rest ≡ drop n (contents l.fifo))
unfolding ross_notify
read_some-wakes n q ro l h e =
    let (g, took, v, c, size) = read_fits n l.valid h in
    let step = λ (o : Option (List ℕ × Fifo)). with_read ro o in
    (
      record {
        events = played (take n (contents l.fifo)) ∷ (notify_handle ro.ph ++ signal ∷ []);
        state = record ro { ph = none; buffer = some g };
        same =
            ap (λ b. if b then with_read ro (Fifo.read l.fifo n) else some (played [] ∷ [], ro)) e
            ∙ ap step took;
        played = record {
          rest = drop n (contents l.fifo);
          live = record { fifo = g; same = refl; valid = v; bytes = c };
          bytes =
              append_assoc (take n (contents l.fifo)) _ (drop n (contents l.fifo))
              ∙ (ap (λ ys. take n (contents l.fifo) ++ (ys ++ drop n (contents l.fifo)))
                    (notify_handle-unplayed ro.ph)
                  ∙ (take-append-drop n (contents l.fifo) ∙ l.bytes));
          silent = notify_handle-silent ro.ph;
          handles = λ h. notify_handle-handles h ro.ph;
          size = size ∙ sym (ap capacity l.same);
          frame = refl;
        };
      },
      notify_handle-wakes ro.ph,
      refl,
    )

read_some-Acted :
    (n : ℕ) (q : List ℕ) (ro : Ross) (l : Live q ro)
    → n ≤ Fifo.read_avail l.fifo
    → Acted q ro (read_some n ro l.fifo)
read_some-Acted n q ro l h = elim (Bool-cases (ltb 0 n)) [
  | inl e ↦ (read_some-wakes n q ro l h e).0
  | inr e ↦ record {
    events = played [] ∷ [];
    state = ro;
    same = ap (λ b. if b then with_read ro (Fifo.read l.fifo n) else some (played [] ∷ [], ro)) e;
    played = record {
      rest = q;
      live = l;
      bytes = refl;
      silent = refl;
      handles = λ h. omega arith;
      size = refl;
      frame = refl;
    };
  }
]

audio_cb-Acted : (n : ℕ) (q : List ℕ) (ro : Ross) → Live q ro → Acted q ro (ross_audio_cb n ro)
unfolding ross_audio_cb
audio_cb-Acted n q ro l =
    let a = read_some-Acted (min (Fifo.read_avail l.fifo) n) q ro l (omega arith) in
    record {
      events = a.events;
      state = a.state;
      same = ap (read_from n ro) l.same ∙ a.same;
      played = a.played;
    }

pub act-Acted : (a : Act) (q : List ℕ) (ro : Ross) → Live q ro → Acted q ro (act a ro)
unfolding ross_err_cb ross_notify
act-Acted (read n) q ro l = audio_cb-Acted n q ro l
act-Acted fail q ro l = record {
  events = notify_handle ro.ph ++ signal ∷ [];
  state = record ro { ph = none; error = true };
  same = refl;
  played = record {
    rest = q;
    live = same_buffer-Live refl l;
    bytes = ap (λ ys. ys ++ q) (notify_handle-unplayed ro.ph);
    silent = notify_handle-silent ro.ph;
    handles = λ h. notify_handle-handles h ro.ph;
    size = refl;
    frame = refl;
  };
}
act-Acted spurious q ro l = record {
  events = signal ∷ [];
  state = ro;
  same = refl;
  played = record {
    rest = q;
    live = l;
    bytes = refl;
    silent = refl;
    handles = λ h. omega arith;
    size = refl;
    frame = refl;
  };
}

-- One after the other.
pub Played-trans :
    (q : List ℕ) (ro : Ross) (es : List Event) (ro1 : Ross) (fs : List Event) (ro2 : Ross)
    (p : Played q ro es ro1) (r : Played p.rest ro1 fs ro2)
    → (t : Played q ro (es ++ fs) ro2) × (t.rest ≡ r.rest)
Played-trans q ro es ro1 fs ro2 p r = (
  record {
    rest = r.rest;
    live = r.live;
    bytes =
        ap (λ ys. ys ++ r.rest) (played-append es fs)
        ∙ (append_assoc (all_played es) (all_played fs) r.rest
            ∙ (ap (λ ys. all_played es ++ ys) r.bytes ∙ p.bytes));
    silent = replies-append es fs ∙ (ap (λ ys. ys ++ replies fs) p.silent ∙ r.silent);
    handles = λ h. omega (arith, destroys-append h es fs, p.handles h, r.handles h);
    size = r.size ∙ p.size;
    frame =
        r.frame
        ∙ ap {A = Ross} {B = Ross}
            (λ r3. record r3 { ph = ro2.ph; buffer = ro2.buffer; error = ro2.error }) p.frame;
  },
  refl,
)

-- One act and the others.
pub then-Acted :
    (a : Act) (more : List Act) (q : List ℕ) (ro : Ross) (x : Acted q ro (act a ro))
    (y : Acted x.played.rest x.state (run_acts more x.state))
    → (z : Acted q ro (run_acts (a ∷ more) ro)) × (z.events ≡ x.events ++ y.events)
      × (z.played.rest ≡ y.played.rest)
unfolding run_acts
then-Acted a more q ro x y =
    let (both, rest) = Played-trans q ro x.events x.state y.events y.state x.played y.played in
    (
      record {
        events = x.events ++ y.events;
        state = y.state;
        same =
            ap (then_acts (run_acts more)) x.same
            ∙ ap (λ (o : Option (List Event × Ross)). then_acts (λ r. o) (some (x.events, x.state)))
                y.same;
        played = both;
      },
      refl,
      rest,
    )

-- Whatever the callbacks do in turn, it is defined.
pub run_acts-Acted :
    (acts : List Act) (q : List ℕ) (ro : Ross) → Live q ro → Acted q ro (run_acts acts ro)
unfolding run_acts
run_acts-Acted [] q ro l = record {
  events = [];
  state = ro;
  same = refl;
  played = idle-Played q ro l;
}
run_acts-Acted (a ∷ more) q ro l =
    let x = act-Acted a q ro l in
    (then-Acted a more q ro x (run_acts-Acted more x.played.rest x.state x.played.live)).0
