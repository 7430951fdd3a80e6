-- ===== src/Client/Write/Moves.antt =====
-- src/librsound/librsound.c: what the sections of the network thread keep of a running stream.
use rsound.Base.{
  ℕ, suc, ◌+◌, ◌≤◌, ◌<◌, ◌≡◌, refl, sym, ap, ◌∙◌, Bool, true, false, ◌||◌, not, Option, none, some,
  List, [], ◌∷◌, ◌++◌, ltb, if◌then◌else◌, length, take, arith, Bool-cases, inl, inr,
  take-append-drop, length-drop,
}
use mathlib.Core.List.{append_assoc}
use mathlib.Core.Path.{subst}
use rsound.Fifo
use rsound.Fifo.Refine.{contents, length-contents}
use rsound.Fifo.Access.{read_fits}
use rsound.Client.{reset}
use rsound.Client.Write.{
  Session, Phase, looping, idle, napping, gone, holding, counting, Sending, whole, lost, step_in,
  network_step, run_network, take_chunk, with_chunk,
}
use rsound.Client.Write.Stream.{in_flight, ended, Streams, Runs, Due, Moved}

module _ (q : List ℕ) (s : Session) (h : Streams q s) where
  abbrev held : ℕ
  held = Fifo.read_avail h.fifo

  -- The phase of `s` written out.
  at_phase : (ph : Phase) → s.phase ≡ ph → s.wire ++ (in_flight ph ++ contents h.fifo) ≡ q
  at_phase ph e = ap (λ x. s.wire ++ (in_flight x ++ contents h.fifo)) (sym e) ∙ h.bytes

  Due-at : (ph : Phase) → s.phase ≡ ph → (k : ℕ) → Due s held k s.phase → Due s held k ph
  Due-at ph e k d = subst (Due s held k) e d

  -- With less than a chunk held the thread leaves its loop.
  short_lem :
      ltb held s.rd.chunk_size ≡ true → take_chunk s.rd.fifo_buffer s ≡ record s { phase = idle }
  short_lem e =
      ap (λ o. take_chunk o s) h.same
      ∙ ap
          (λ b.
            if b || not s.rd.thread_active
            then record s { phase = idle }
            else with_chunk (Fifo.read h.fifo s.rd.chunk_size) s)
          e

  abbrev taken : Fifo.Fifo → Session
  taken g = record s {
    rd = record s.rd { fifo_buffer = some g };
    phase = holding (take s.rd.chunk_size (contents h.fifo));
  }

  -- Else it takes one.
  long_lem :
      {g : Fifo.Fifo}
      → ltb held s.rd.chunk_size ≡ false
      → Fifo.read h.fifo s.rd.chunk_size ≡ some (take s.rd.chunk_size (contents h.fifo), g)
      → take_chunk s.rd.fifo_buffer s ≡ taken g
  long_lem e r =
      ap (λ o. take_chunk o s) h.same
      ∙ (ap
            (λ b.
              if b || not s.rd.thread_active
              then record s { phase = idle }
              else with_chunk (Fifo.read h.fifo s.rd.chunk_size) s)
            e
          ∙ (ap
                (λ b.
                  if not b
                  then record s { phase = idle }
                  else with_chunk (Fifo.read h.fifo s.rd.chunk_size) s)
                h.active
              ∙ ap (λ o. with_chunk o s) r))

  idle-Moved :
      s.phase ≡ looping → held < s.rd.chunk_size → Moved q s held (record s { phase = idle })
  idle-Moved e short = record {
    streams = record {
      fifo = h.fifo;
      same = h.same;
      valid = h.valid;
      bytes = at_phase looping e;
      size = h.size;
      active = h.active;
      lives = refl;
      some_chunk = h.some_chunk;
      two_chunks = h.two_chunks;
      small = h.small;
    };
    fewer = omega arith;
    chunk = refl;
    buffer = refl;
    due = λ k d. let d1 = Due-at looping e (suc k) d in (short, omega (arith, d1));
  }

  taken-Moved :
      s.phase ≡ looping
      → s.rd.chunk_size ≤ held
      → (g : Fifo.Fifo) × (take_chunk s.rd.fifo_buffer s ≡ taken g) × Moved q s held (taken g)
  taken-Moved e enough =
      let (g, r, v, c, b) = read_fits s.rd.chunk_size h.valid enough in
      let left : Fifo.read_avail g + s.rd.chunk_size ≡ held = omega (
        arith,
        ap length c,
        length-contents g,
        length-contents h.fifo,
        length-drop s.rd.chunk_size (contents h.fifo),
      ) in
      (
        g,
        long_lem (ground (arith, enough)) r,
        record {
          streams = record {
            fifo = g;
            same = refl;
            valid = v;
            bytes =
                ap (λ xs. s.wire ++ xs)
                  (ap (λ xs. take s.rd.chunk_size (contents h.fifo) ++ xs) c
                    ∙ take-append-drop s.rd.chunk_size (contents h.fifo))
                ∙ at_phase looping e;
            size = b ∙ h.size;
            active = h.active;
            lives = refl;
            some_chunk = h.some_chunk;
            two_chunks = h.two_chunks;
            small = h.small;
          };
          fewer = omega (arith, left);
          chunk = refl;
          buffer = refl;
          due = λ k d. let d1 = Due-at looping e (suc k) d in omega (arith, d1, left, h.some_chunk);
        },
      )

  looping-Moved : s.phase ≡ looping → Moved q s held (take_chunk s.rd.fifo_buffer s)
  looping-Moved e = elim (Bool-cases (ltb held s.rd.chunk_size)) [
    | inl short ↦
        subst (Moved q s held) (sym (short_lem short)) (idle-Moved e (ground (arith, short)))
    | inr long ↦
        let (g, same, m) = taken-Moved e (ground (arith, long)) in
        subst (Moved q s held) (sym same) m
  ]

  -- The other sections, none of them a send that fails.
  pub holding-Moved :
      (chunk : List ℕ) → s.phase ≡ holding chunk → Moved q s held (step_in whole (holding chunk) s)
  holding-Moved chunk e = record {
    streams = record {
      fifo = h.fifo;
      same = h.same;
      valid = h.valid;
      bytes = append_assoc s.wire chunk (contents h.fifo) ∙ at_phase (holding chunk) e;
      size = h.size;
      active = h.active;
      lives = refl;
      some_chunk = h.some_chunk;
      two_chunks = h.two_chunks;
      small = h.small;
    };
    fewer = omega arith;
    chunk = refl;
    buffer = refl;
    due = λ k d. let d1 = Due-at (holding chunk) e (suc k) d in omega (arith, d1);
  }

  counting-Moved : (n : ℕ) → s.phase ≡ counting n → Moved q s held (step_in whole (counting n) s)
  counting-Moved n e = record {
    streams = record {
      fifo = h.fifo;
      same = h.same;
      valid = h.valid;
      bytes = at_phase (counting n) e;
      size = h.size;
      active = h.active;
      lives = refl;
      some_chunk = h.some_chunk;
      two_chunks = h.two_chunks;
      small = h.small;
    };
    fewer = omega arith;
    chunk = refl;
    buffer = refl;
    due = λ k d. let d1 = Due-at (counting n) e (suc k) d in omega (arith, d1);
  }

  pub to_nap : step_in whole idle s ≡ record s { phase = napping; signalled = true }
  to_nap = ap (λ b. record s { phase = if b then napping else gone; signalled = true }) h.active

  pub nap-Moved : s.phase ≡ idle → Moved q s held (record s { phase = napping; signalled = true })
  nap-Moved e = record {
    streams = record {
      fifo = h.fifo;
      same = h.same;
      valid = h.valid;
      bytes = at_phase idle e;
      size = h.size;
      active = h.active;
      lives = refl;
      some_chunk = h.some_chunk;
      two_chunks = h.two_chunks;
      small = h.small;
    };
    fewer = omega arith;
    chunk = refl;
    buffer = refl;
    due = λ k d. let d1 = Due-at idle e (suc k) d in (d1.0, refl);
  }

  napping-Moved : s.phase ≡ napping → Moved q s held s
  napping-Moved e = record {
    streams = h;
    fewer = omega arith;
    chunk = refl;
    buffer = refl;
    due = λ k d. subst (Due s held k) (sym e) (Due-at napping e (suc k) d);
  }

  step_in-Moved : (ph : Phase) → s.phase ≡ ph → Moved q s held (step_in whole ph s)
  step_in-Moved looping e = looping-Moved e
  step_in-Moved (holding chunk) e = holding-Moved chunk e
  step_in-Moved (counting n) e = counting-Moved n e
  step_in-Moved idle e = subst (Moved q s held) (sym to_nap) (nap-Moved e)
  step_in-Moved napping e = napping-Moved e
  step_in-Moved gone e =
      absurd (let lives : ended gone ≡ false = ap ended (sym e) ∙ h.lives in ground (arith, lives))

  pub network_step-Moved : Moved q s held (network_step whole s)
  unfolding network_step
  network_step-Moved = step_in-Moved s.phase refl

-- A send that fails ends the stream.
step_in-Runs :
    (q : List ℕ) (p : Sending) (s : Session) (ph : Phase)
    → Streams q s
    → s.phase ≡ ph
    → Runs q (step_in p ph s)
unfolding reset
step_in-Runs q whole s ph h e = inl (step_in-Moved q s h ph e).streams
step_in-Runs q (lost k) s looping h e = inl (step_in-Moved q s h looping e).streams
step_in-Runs q (lost k) s (holding chunk) h e = inr refl
step_in-Runs q (lost k) s (counting n) h e = inl (step_in-Moved q s h (counting n) e).streams
step_in-Runs q (lost k) s idle h e = inl (step_in-Moved q s h idle e).streams
step_in-Runs q (lost k) s napping h e = inl (step_in-Moved q s h napping e).streams
step_in-Runs q (lost k) s gone h e = inl (step_in-Moved q s h gone e).streams

-- Once given up, it stays so.
take_chunk-inactive :
    (o : Option Fifo.Fifo) (s : Session)
    → s.rd.thread_active ≡ false
    → (take_chunk o s).rd.thread_active ≡ false
take_chunk-inactive none s a = a
take_chunk-inactive (some f) s a = by_test (ltb (Fifo.read_avail f) s.rd.chunk_size)
  where
    by_read : (o : Option (List ℕ × Fifo.Fifo)) → (with_chunk o s).rd.thread_active ≡ false
    by_read none = a
    by_read (some (chunk, g)) = a

    by_active :
        (b : Bool)
        → (if not b
            then record s { phase = idle }
            else with_chunk (Fifo.read f s.rd.chunk_size) s).rd.thread_active
          ≡ false
    by_active true = by_read (Fifo.read f s.rd.chunk_size)
    by_active false = a

    by_test :
        (b : Bool)
        → (if b || not s.rd.thread_active
            then record s { phase = idle }
            else with_chunk (Fifo.read f s.rd.chunk_size) s).rd.thread_active
          ≡ false
    by_test true = a
    by_test false = by_active s.rd.thread_active

step_in-inactive :
    (p : Sending) (ph : Phase) (s : Session)
    → s.rd.thread_active ≡ false
    → (step_in p ph s).rd.thread_active ≡ false
unfolding reset
step_in-inactive p looping s a = take_chunk-inactive s.rd.fifo_buffer s a
step_in-inactive whole (holding chunk) s a = a
step_in-inactive (lost k) (holding chunk) s a = refl
step_in-inactive p (counting n) s a = a
step_in-inactive p idle s a = a
step_in-inactive p napping s a = a
step_in-inactive p gone s a = a

pub run_network-Runs :
    (q : List ℕ) (turn : List Sending) (s : Session) → Runs q s → Runs q (run_network turn s)
unfolding run_network network_step
run_network-Runs q [] s h = h
run_network-Runs q (p ∷ ps) s (inl h) =
    run_network-Runs q ps (network_step p s) (step_in-Runs q p s s.phase h refl)
run_network-Runs q (p ∷ ps) s (inr a) =
    run_network-Runs q ps (network_step p s) (inr (step_in-inactive p s.phase s a))
