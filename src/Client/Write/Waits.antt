-- ===== src/Client/Write/Waits.antt =====
-- src/librsound/librsound.c: how a wait of `rsnd_fill_buffer` ends.
use rsound.Base.{
  ◌⊎◌, ℕ, suc, ◌+◌, ◌*◌, ◌≤◌, ◌<◌, ◌≡◌, refl, sym, ap, ◌∙◌, Bool, true, false, none, List, [], ◌∷◌,
  length, arith, inl, inr, if◌then◌else◌,
}
use rsound.Fifo
use rsound.Fifo.Inv.{avail-add}
use rsound.Client.Write.{
  Session, Phase, looping, idle, napping, gone, holding, counting, woken, wake, Sending, whole,
  lost, step_in, network_step, run_network, Filled, await,
}
use rsound.Client.Write.Stream.{ended, Streams, Due}
use rsound.Client.Write.Moves.{network_step-Moved, nap-Moved}
use rsound.Client.Write.Filling.{wake-Streams}

-- No send fails.
unfoldable pub Sends : List Sending → Type 0
Sends [] = Unit
Sends (whole ∷ ps) = Sends ps
Sends (lost k ∷ ps) = ⊥

-- A running stream after some sections in which no send fails: no more bytes are held, and the
-- sizes are the same.
pub record Fewer (q : List ℕ) (s : Session) (a : ℕ) (t : Session) : Type 0 where
  pub streams : Streams q t
  pub fewer : Fifo.read_avail streams.fifo ≤ a
  pub chunk : t.rd.chunk_size ≡ s.rd.chunk_size
  pub buffer : t.rd.buffer_size ≡ s.rd.buffer_size

pub run-Fewer :
    (q : List ℕ) (ps : List Sending) (s : Session) (h : Streams q s)
    → Sends ps
    → Fewer q s (Fifo.read_avail h.fifo) (run_network ps s)
unfolding run_network Sends
run-Fewer q [] s h w = record { streams = h; fewer = omega arith; chunk = refl; buffer = refl }
run-Fewer q (lost k ∷ ps) s h w = absurd w
run-Fewer q (whole ∷ ps) s h w =
    let m = network_step-Moved q s h in
    let r = run-Fewer q ps (network_step whole s) m.streams w in
    record {
      streams = r.streams;
      fewer = omega (arith, r.fewer, m.fewer);
      chunk = r.chunk ∙ m.chunk;
      buffer = r.buffer ∙ m.buffer;
    }

-- In its wait the network thread does nothing.
pub run-naps : (ps : List Sending) (s : Session) → s.phase ≡ napping → run_network ps s ≡ s
unfolding run_network network_step
run-naps [] s e = refl
run-naps (p ∷ ps) s e = ap (λ ph. run_network ps (step_in p ph s)) e ∙ run-naps ps s e

abbrev pub is_idle : Phase → Bool
is_idle idle = true
is_idle ph = false

pub not_idle : (ph : Phase) → is_idle ph ≡ false → ph ≡ idle → ⊥
not_idle ph f e = let i : is_idle ph ≡ true = ap is_idle e in ground (arith, f, i)

-- The network thread waits, less than a chunk is held, and a signal has been sent.
pub record Drained (q : List ℕ) (s t : Session) : Type 0 where
  pub streams : Streams q t
  pub short : Fifo.read_avail streams.fifo < t.rd.chunk_size
  pub naps : t.phase ≡ napping
  pub told : t.signalled ≡ true
  pub chunk : t.rd.chunk_size ≡ s.rd.chunk_size
  pub buffer : t.rd.buffer_size ≡ s.rd.buffer_size

-- With no sections left, the thread waits.
Due-none :
    (q : List ℕ) (s : Session) (h : Streams q s) (ph : Phase)
    → s.phase ≡ ph
    → Due s (Fifo.read_avail h.fifo) 0 ph
    → Drained q s s
Due-none q s h looping e d = absurd (omega arith)
Due-none q s h (holding chunk) e d = absurd (omega arith)
Due-none q s h (counting n) e d = absurd (omega arith)
Due-none q s h idle e d = absurd (omega (arith, d.1))
Due-none q s h gone e d = absurd d
Due-none q s h napping e d = record {
  streams = h;
  short = d.0;
  naps = e;
  told = d.1;
  chunk = refl;
  buffer = refl;
}

run-Drained :
    (q : List ℕ) (ps : List Sending) (s : Session) (h : Streams q s)
    → Sends ps
    → Due s (Fifo.read_avail h.fifo) (length ps) s.phase
    → Drained q s (run_network ps s)
unfolding run_network Sends
run-Drained q [] s h w d = Due-none q s h s.phase refl d
run-Drained q (lost k ∷ ps) s h w d = absurd w
run-Drained q (whole ∷ ps) s h w d =
    let m = network_step-Moved q s h in
    let more : Due s (Fifo.read_avail h.fifo) (suc (length ps)) s.phase = d in
    let r = run-Drained q ps (network_step whole s) m.streams w (m.due (length ps) more) in
    record {
      streams = r.streams;
      short = r.short;
      naps = r.naps;
      told = r.told;
      chunk = r.chunk ∙ m.chunk;
      buffer = r.buffer ∙ m.buffer;
    }

held-le : (q : List ℕ) (s : Session) (h : Streams q s) → Fifo.read_avail h.fifo ≤ s.rd.buffer_size
held-le q s h = omega (arith, avail-add h.valid, h.size)

-- After the application's signal.
Due-woken :
    (q : List ℕ) (s : Session) (h : Streams q s) (ph : Phase) (a k : ℕ)
    → s.phase ≡ ph
    → (ph ≡ idle → ⊥)
    → a ≤ s.rd.buffer_size
    → 3 * s.rd.buffer_size + 4 ≤ k
    → Due (wake (record s { signalled = false })) a k (woken ph)
Due-woken q s h looping a k e busy few long = omega (arith, few, long)
Due-woken q s h (holding chunk) a k e busy few long = omega (arith, few, long)
Due-woken q s h (counting n) a k e busy few long = omega (arith, few, long)
Due-woken q s h idle a k e busy few long = absurd (busy refl)
Due-woken q s h napping a k e busy few long = omega (arith, few, long)
Due-woken q s h gone a k e busy few long =
    absurd (let lives : ended gone ≡ false = ap ended (sym e) ∙ h.lives in ground (arith, lives))

-- What a wait ends with: the network thread waits in its turn, and if it did not stand just before
-- that when the application's wait began, less than a chunk is held.
pub record Woken (q : List ℕ) (next : Session → Filled) (s : Session) (wait : Filled) : Type 0 where
  pub state : Session
  pub streams : Streams q state
  pub same : wait ≡ next state
  pub naps : state.phase ≡ napping
  pub chunk : state.rd.chunk_size ≡ s.rd.chunk_size
  pub buffer : state.rd.buffer_size ≡ s.rd.buffer_size
  pub drained : (s.phase ≡ idle) ⊎ Drained q s state

module _ (q : List ℕ) (ps : List Sending) (next : Session → Filled) (s : Session) (h : Streams q s)
    (sends : Sends ps) (long : 3 * s.rd.buffer_size + 4 ≤ length ps) where
  abbrev pub asleep : Session
  asleep = wake (record s { signalled = false })

  busy-Woken : (s.phase ≡ idle → ⊥) → Woken q next s (await ps next s)
  busy-Woken busy =
      let h0 = wake-Streams q s false h in
      let d = run-Drained q ps asleep h0 sends (
        Due-woken q s h s.phase (Fifo.read_avail h0.fifo) (length ps) refl busy
          (held-le q asleep h0) long) in
      record {
        state = run_network ps asleep;
        streams = d.streams;
        same = ap (λ b. if b then next (run_network ps asleep) else none) d.told;
        naps = d.naps;
        chunk = d.chunk;
        buffer = d.buffer;
        drained = inr (record {
          streams = d.streams;
          short = d.short;
          naps = d.naps;
          told = d.told;
          chunk = d.chunk;
          buffer = d.buffer;
        });
      }

  abbrev at_rest : Session
  at_rest = record s { phase = napping; signalled = true }

  -- Just before its wait the network thread signals and waits, whatever is held.
  to_rest : s.phase ≡ idle → run_network ps asleep ≡ at_rest
  unfolding run_network network_step Sends
  to_rest e = by_steps ps sends long
    where
      by_steps :
          (ps : List Sending)
          → Sends ps
          → 3 * s.rd.buffer_size + 4 ≤ length ps
          → run_network ps asleep ≡ at_rest
      by_steps [] w k = absurd (omega arith)
      by_steps (lost n ∷ ps) w k = absurd w
      by_steps (whole ∷ ps) w k =
          ap
            (λ ph.
              run_network ps
                (step_in whole (woken ph) (record s { phase = woken ph; signalled = false })))
            e
          ∙ (ap
                (λ b.
                  run_network ps
                    (record s { phase = if b then napping else gone; signalled = true }))
                h.active
              ∙ run-naps ps at_rest refl)

  idle-Woken : s.phase ≡ idle → Woken q next s (await ps next s)
  idle-Woken e = record {
    state = at_rest;
    streams = (nap-Moved q s h e).streams;
    same = ap (λ t. if t.signalled then next t else none) (to_rest e);
    naps = refl;
    chunk = refl;
    buffer = refl;
    drained = inl e;
  }

  by_phase : (ph : Phase) → s.phase ≡ ph → Woken q next s (await ps next s)
  by_phase idle e = idle-Woken e
  by_phase looping e = busy-Woken (λ i. not_idle looping refl (sym e ∙ i))
  by_phase napping e = busy-Woken (λ i. not_idle napping refl (sym e ∙ i))
  by_phase gone e = busy-Woken (λ i. not_idle gone refl (sym e ∙ i))
  by_phase (holding chunk) e = busy-Woken (λ i. not_idle (holding chunk) refl (sym e ∙ i))
  by_phase (counting n) e = busy-Woken (λ i. not_idle (counting n) refl (sym e ∙ i))

  pub await-Woken : Woken q next s (await ps next s)
  await-Woken = by_phase s.phase refl
