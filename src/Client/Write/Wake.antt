-- ===== src/Client/Write/Wake.antt =====
-- src/librsound/librsound.c: a write that sleeps in `rsnd_fill_buffer` is woken and finds room.
use rsound.Base.{
  ◌⊎◌, ℕ, ◌+◌, ◌*◌, ◌≤◌, ◌<◌, ◌≡◌, refl, sym, ap, ◌∙◌, true, false, not, some, List, ◌∷◌, length,
  leb, arith, Bool-cases, inl, inr, if◌then◌else◌,
}
use mathlib.Core.Path.{subst}
use rsound.Fifo
use rsound.Fifo.Inv.{avail-add}
use rsound.Fifo.Access.{write_fits}
use rsound.Client.Write.{
  Session, idle, napping, wake, Turn, run_network, Filled, stored, store_in, await, with_room,
  fill_pass, fill_buffer, max_write,
}
use rsound.Client.Write.Stream.{Streams}
use rsound.Client.Write.Filling.{with_fifo}
use rsound.Client.Write.Waits.{Sends, run-Fewer, run-naps, not_idle, Drained, Woken, await-Woken}

module _ (q buf : List ℕ) (turn : Turn) (turns : List Turn) (next : Session → Filled) where
  fill_pass-active :
      (s : Session)
      → Streams q s
      → fill_pass buf turn turns next s
        ≡ with_room buf turn turns next
            (run_network turn.tested s)
            (run_network turn.tested s).rd.fifo_buffer
  fill_pass-active s h =
      let s1 = run_network turn.tested s in
      ap
        (λ b.
          if not b then some (0, s, turns) else with_room buf turn turns next s1 s1.rd.fifo_buffer)
        h.active

  with_room-room :
      (s : Session) (h : Streams q s)
      → Sends turn.looked
      → length buf ≤ Fifo.write_avail h.fifo
      → (t : Session) × (with_room buf turn turns next s s.rd.fifo_buffer
          ≡ some (length buf, t, turns))
  with_room-room s h sends room =
      let r = run-Fewer q turn.looked s h sends in
      let s1 = run_network turn.looked s in
      let yes : leb (length buf) (Fifo.write_avail h.fifo) ≡ true = ground (arith, room) in
      let still : length buf ≤ Fifo.write_avail r.streams.fifo = omega (
        arith,
        room,
        r.fewer,
        r.buffer,
        h.size,
        r.streams.size,
        avail-add h.valid,
        avail-add r.streams.valid,
      ) in
      let (g, e, _, _, _) = write_fits buf r.streams.valid still in
      (
        wake (with_fifo s1 g),
        ap (with_room buf turn turns next s) h.same
            ∙ (ap
                  (λ b.
                    if b
                    then store_in buf turns s1 s1.rd.fifo_buffer
                    else await turn.waited next s1)
                  yes
                ∙ (ap (store_in buf turns s1) r.streams.same ∙ ap (stored buf turns s1) e)),
      )

  with_room-full :
      (s : Session) (h : Streams q s)
      → Fifo.write_avail h.fifo < length buf
      → with_room buf turn turns next s s.rd.fifo_buffer
        ≡ await turn.waited next (run_network turn.looked s)
  with_room-full s h tight =
      let s1 = run_network turn.looked s in
      let no : leb (length buf) (Fifo.write_avail h.fifo) ≡ false = ground (arith, tight) in
      ap (with_room buf turn turns next s) h.same
      ∙ ap (λ b. if b then store_in buf turns s1 s1.rd.fifo_buffer else await turn.waited next s1)
          no

-- No send of the turn fails, and its wait is long enough for the network thread to send all that a
-- buffer of this size can hold, and to go to its own wait: a chunk, of a byte or more, takes three
-- sections, and four more are enough for what comes before and after.
unfoldable pub Lively : ℕ → Turn → Type 0
Lively size turn =
    Sends turn.tested × Sends turn.looked × Sends turn.waited × (3 * size + 4 ≤ length turn.waited)

abbrev before_wait : Turn → Session → Session
before_wait turn s = run_network turn.looked (run_network turn.tested s)

-- A pass stores the bytes, or is woken.
pass-cases :
    (q buf : List ℕ) (turn : Turn) (turns : List Turn) (next : Session → Filled) (s : Session)
    → Streams q s
    → Lively s.rd.buffer_size turn
    → ((t : Session) × (fill_pass buf turn turns next s ≡ some (length buf, t, turns)))
      ⊎ (Woken q next (before_wait turn s) (fill_pass buf turn turns next s)
          × ((before_wait turn s).rd.chunk_size ≡ s.rd.chunk_size)
          × ((before_wait turn s).rd.buffer_size ≡ s.rd.buffer_size))
unfolding Lively
pass-cases q buf turn turns next s h (tested, looked, waited, long) =
    let r = run-Fewer q turn.tested s h tested in
    let s1 = run_network turn.tested s in
    let r2 = run-Fewer q turn.looked s1 r.streams looked in
    let begins = fill_pass-active q buf turn turns next s h in
    elim (Bool-cases (leb (length buf) (Fifo.write_avail r.streams.fifo))) [
      | inl room ↦
          let (t, e) =
            with_room-room q buf turn turns next s1 r.streams looked (ground (arith, room)) in
          inl (t, begins ∙ e)
      | inr tight ↦
          let e = with_room-full q buf turn turns next s1 r.streams (ground (arith, tight)) in
          inr (
            subst (Woken q next (before_wait turn s)) (sym (begins ∙ e)) (
                await-Woken q turn.waited next (before_wait turn s) r2.streams waited
                  (omega (arith, long, r.buffer, r2.buffer))),
            r2.chunk ∙ r.chunk,
            r2.buffer ∙ r.buffer,
          )
    ]

-- With the network thread in its wait and less than a chunk held, there is room.
pass-drained :
    (q buf : List ℕ) (turn : Turn) (turns : List Turn) (next : Session → Filled) (s : Session)
    (h : Streams q s)
    → Fifo.read_avail h.fifo < s.rd.chunk_size
    → s.phase ≡ napping
    → length buf ≤ max_write s.rd
    → Sends turn.looked
    → (t : Session) × (fill_pass buf turn turns next s ≡ some (length buf, t, turns))
pass-drained q buf turn turns next s h short naps fits looked =
    let (t, e) =
      with_room-room q buf turn turns next s h looked
        (omega (arith, avail-add h.valid, h.size, h.two_chunks, h.small, short, fits)) in
    (
      t,
      fill_pass-active q buf turn turns next s h
          ∙ (ap (λ x. with_room buf turn turns next x x.rd.fifo_buffer)
                (run-naps turn.tested s naps)
              ∙ e),
    )

-- The second wait of a call: the network thread was in its own wait when it began.
second_pass :
    (q buf : List ℕ) (t2 t3 : Turn) (ts : List Turn) (s : Session)
    → Streams q s
    → s.phase ≡ napping
    → length buf ≤ max_write s.rd
    → Lively s.rd.buffer_size t2
    → Sends t3.looked
    → (t : Session) × (rest : List Turn) × (fill_buffer buf (t2 ∷ t3 ∷ ts) s
        ≡ some (length buf, t, rest))
unfolding fill_buffer
second_pass q buf t2 t3 ts s h naps fits lively looked =
    elim (pass-cases q buf t2 (t3 ∷ ts) (fill_buffer buf (t3 ∷ ts)) s h lively) [
      | inl (t, e) ↦ (t, _, e)
      | inr (w, chunk, buffer) ↦ by_drained w chunk buffer w.drained
    ]
  where
    stays : before_wait t2 s ≡ s
    stays = ap (run_network t2.looked) (run-naps t2.tested s naps) ∙ run-naps t2.looked s naps

    by_drained :
        (w : Woken q
          (fill_buffer buf (t3 ∷ ts))
          (before_wait t2 s)
          (fill_pass buf t2 (t3 ∷ ts) (fill_buffer buf (t3 ∷ ts)) s))
        → (before_wait t2 s).rd.chunk_size ≡ s.rd.chunk_size
        → (before_wait t2 s).rd.buffer_size ≡ s.rd.buffer_size
        → ((before_wait t2 s).phase ≡ idle) ⊎ Drained q (before_wait t2 s) w.state
        → (t : Session) × (rest : List Turn) × (fill_pass buf t2
              (t3 ∷ ts)
              (fill_buffer buf (t3 ∷ ts))
              s
            ≡ some (length buf, t, rest))
    by_drained w chunk buffer (inl i) =
        absurd (not_idle napping refl (sym naps ∙ (sym (ap (λ x. x.phase) stays) ∙ i)))
    by_drained w chunk buffer (inr d) =
        let (t, e) =
          pass-drained q buf t3 ts (fill_buffer buf ts) w.state d.streams d.short d.naps
            (omega (arith, fits, chunk, buffer, d.chunk, d.buffer)) looked in
        (t, _, w.same ∙ e)

-- In a running stream `rsnd_fill_buffer` does not sleep for ever: for a buffer of the size that
-- `rsd_write` passes at most, and wherever the network thread stands, it returns the buffer's size
-- after two waits at most, when no send fails and each wait is as long as the network thread needs
-- to send what the buffer can hold: a signal ends each of the waits, and the second one, if not the
-- first, ends with room.
pub fill_buffer-wakes :
    (q buf : List ℕ) (t1 t2 t3 : Turn) (ts : List Turn) (s : Session)
    → Streams q s
    → length buf ≤ max_write s.rd
    → Lively s.rd.buffer_size t1
    → Lively s.rd.buffer_size t2
    → Sends t3.looked
    → (t : Session) × (rest : List Turn) × (fill_buffer buf (t1 ∷ t2 ∷ t3 ∷ ts) s
        ≡ some (length buf, t, rest))
unfolding fill_buffer
fill_buffer-wakes q buf t1 t2 t3 ts s h fits lively1 lively2 looked =
    elim (pass-cases q buf t1 (t2 ∷ t3 ∷ ts) (fill_buffer buf (t2 ∷ t3 ∷ ts)) s h lively1) [
      | inl (t, e) ↦ (t, _, e)
      | inr (w, chunk, buffer) ↦
          let size : w.state.rd.buffer_size ≡ s.rd.buffer_size = w.buffer ∙ buffer in
          let (t, rest, e) =
            second_pass q buf t2 t3 ts w.state w.streams w.naps
              (omega (arith, fits, chunk, buffer, w.chunk, w.buffer))
              (subst (λ n. Lively n t2) (sym size) lively2) looked in
          (t, rest, w.same ∙ e)
    ]
