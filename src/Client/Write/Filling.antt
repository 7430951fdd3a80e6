-- ===== src/Client/Write/Filling.antt =====
-- src/librsound/librsound.c: what a call of `rsnd_fill_buffer` makes of a running stream.
use rsound.Base.{
  ℕ, zero, suc, ◌≡◌, refl, sym, ap, ◌∙◌, Option, none, some, List, [], ◌∷◌, ◌++◌, leb, Bool, true,
  false, not, if◌then◌else◌, length, arith, inl, inr,
}
use mathlib.Core.List.{append_assoc}
use mathlib.Core.Path.{subst}
use rsound.Fifo
use rsound.Fifo.Inv.{avail-add, write-some, write-IsValid}
use rsound.Fifo.Refine.{contents}
use rsound.Fifo.Access.{write_fits}
use rsound.Client.Write.{
  Session, Phase, looping, idle, napping, gone, holding, counting, woken, wake, Turn, run_network,
  Filled, stored, store_in, await, with_room, fill_pass, fill_buffer,
}
use rsound.Client.Write.Stream.{in_flight, ended, Streams, Runs}
use rsound.Client.Write.Moves.{run_network-Runs}

abbrev get_fifo : Fifo.Fifo → Option Fifo.Fifo → Fifo.Fifo
get_fifo d none = d
get_fifo d (some g) = g

-- A count over 0 is that of the whole buffer, and the stream then ends with it.
unfoldable pub Delivered : List ℕ → List ℕ → Filled → Type 0
Delivered q buf none = Unit
Delivered q buf (some (zero, t, turns)) = Unit
Delivered q buf (some (suc n, t, turns)) = (suc n ≡ length buf) × Runs (q ++ buf) t

all_of :
    (q buf : List ℕ) (n : ℕ) (t : Session) (turns : List Turn)
    → n ≡ length buf
    → Runs (q ++ buf) t
    → Delivered q buf (some (n, t, turns))
unfolding Delivered
all_of q buf zero t turns e h = tt
all_of q buf (suc n) t turns e h = (e, h)

-- The application's signal changes nothing of this.
in_flight-woken : (ph : Phase) → in_flight (woken ph) ≡ in_flight ph
in_flight-woken looping = refl
in_flight-woken idle = refl
in_flight-woken napping = refl
in_flight-woken gone = refl
in_flight-woken (holding chunk) = refl
in_flight-woken (counting n) = refl

ended-woken : (ph : Phase) → ended (woken ph) ≡ ended ph
ended-woken looping = refl
ended-woken idle = refl
ended-woken napping = refl
ended-woken gone = refl
ended-woken (holding chunk) = refl
ended-woken (counting n) = refl

pub wake-Streams :
    (q : List ℕ) (s : Session) (b : Bool)
    → Streams q s
    → Streams q (wake (record s { signalled = b }))
wake-Streams q s b h = record {
  fifo = h.fifo;
  same = h.same;
  valid = h.valid;
  bytes = ap (λ c. s.wire ++ (c ++ contents h.fifo)) (in_flight-woken s.phase) ∙ h.bytes;
  size = h.size;
  active = h.active;
  lives = ended-woken s.phase ∙ h.lives;
  some_chunk = h.some_chunk;
  two_chunks = h.two_chunks;
  small = h.small;
}

abbrev pub with_fifo : Session → Fifo.Fifo → Session
with_fifo s g = record s { rd = record s.rd { fifo_buffer = some g } }

-- What the FIFO accepts stands behind the other bytes.
pub with_fifo-Streams :
    (q buf : List ℕ) (s : Session) (h : Streams q s) (g : Fifo.Fifo)
    → Fifo.write h.fifo buf ≡ some g
    → Streams (q ++ buf) (with_fifo s g)
with_fifo-Streams q buf s h g e =
    let fits = (write-some buf h.valid e).0 in
    let (g1, e1, v, c, b) = write_fits buf h.valid (omega (arith, fits, avail-add h.valid)) in
    let same : g1 ≡ g = ap (get_fifo g) (sym e1 ∙ e) in
    let c1 : contents g ≡ contents h.fifo ++ buf = ap contents (sym same) ∙ c in
    record {
      fifo = g;
      same = refl;
      valid = write-IsValid buf h.valid e;
      bytes =
          ap (λ xs. s.wire ++ (in_flight s.phase ++ xs)) c1
          ∙ (ap (λ xs. s.wire ++ xs) (sym (append_assoc (in_flight s.phase) (contents h.fifo) buf))
              ∙ (sym (append_assoc s.wire (in_flight s.phase ++ contents h.fifo) buf)
                  ∙ ap (λ xs. xs ++ buf) h.bytes));
      size = ap (λ f. f.bufsize) (sym same) ∙ (b ∙ h.size);
      active = h.active;
      lives = h.lives;
      some_chunk = h.some_chunk;
      two_chunks = h.two_chunks;
      small = h.small;
    }

module _ (q buf : List ℕ) (turn : Turn) (turns : List Turn) where
  stored-Delivered :
      (s : Session) (h : Streams q s) (o : Option Fifo.Fifo)
      → Fifo.write h.fifo buf ≡ o
      → Delivered q buf (stored buf turns s o)
  unfolding Delivered
  stored-Delivered s h none e = tt
  stored-Delivered s h (some g) e =
      all_of q buf (length buf) _ turns refl (
        inl (wake-Streams (q ++ buf) (with_fifo s g) s.signalled (with_fifo-Streams q buf s h g e)))

  store_in-Delivered :
      (s : Session) → Runs q s → Delivered q buf (store_in buf turns s s.rd.fifo_buffer)
  unfolding Delivered
  store_in-Delivered s (inl h) =
      subst (λ o. Delivered q buf (store_in buf turns s o)) (sym h.same)
        (stored-Delivered s h (Fifo.write h.fifo buf) refl)
  store_in-Delivered s (inr gave_up) = by_fifo s.rd.fifo_buffer
    where
      by_write : (o : Option Fifo.Fifo) → Delivered q buf (stored buf turns s o)
      by_write none = tt
      by_write (some g) = all_of q buf (length buf) _ turns refl (inr gave_up)

      by_fifo : (o : Option Fifo.Fifo) → Delivered q buf (store_in buf turns s o)
      by_fifo none = tt
      by_fifo (some f) = by_write (Fifo.write f buf)

  module _ (next : Session → Filled)
      (later : (s : Session) → Runs q s → Delivered q buf (next s)) where
    wake-Runs : (s : Session) → Runs q s → Runs q (wake (record s { signalled = false }))
    wake-Runs s (inl h) = inl (wake-Streams q s false h)
    wake-Runs s (inr gave_up) = inr gave_up

    await-Delivered : (s : Session) → Runs q s → Delivered q buf (await turn.waited next s)
    unfolding Delivered
    await-Delivered s h = by_signal s1.signalled
      where
        s1 : Session
        s1 = run_network turn.waited (wake (record s { signalled = false }))

        by_signal : (b : Bool) → Delivered q buf (if b then next s1 else none)
        by_signal true = later s1 (run_network-Runs q turn.waited _ (wake-Runs s h))
        by_signal false = tt

    with_room-Delivered :
        (s : Session) (o : Option Fifo.Fifo)
        → Runs q s
        → Delivered q buf (with_room buf turn turns next s o)
    unfolding Delivered
    with_room-Delivered s none h = tt
    with_room-Delivered s (some f) h = by_room (leb (length buf) (Fifo.write_avail f))
      where
        s1 : Session
        s1 = run_network turn.looked s

        by_room :
            (b : Bool)
            → Delivered q buf
                (if b then store_in buf turns s1 s1.rd.fifo_buffer else await turn.waited next s1)
        by_room true = store_in-Delivered s1 (run_network-Runs q turn.looked s h)
        by_room false = await-Delivered s1 (run_network-Runs q turn.looked s h)

    fill_pass-Delivered :
        (s : Session) → Runs q s → Delivered q buf (fill_pass buf turn turns next s)
    unfolding Delivered
    fill_pass-Delivered s h = by_active s.rd.thread_active
      where
        s1 : Session
        s1 = run_network turn.tested s

        by_active :
            (b : Bool)
            → Delivered q buf (
                if not b
                then some (0, s, turns)
                else with_room buf turn turns next s1 s1.rd.fifo_buffer)
        by_active true =
            with_room-Delivered s1 s1.rd.fifo_buffer (run_network-Runs q turn.tested s h)
        by_active false = tt

pub fill_buffer-Delivered :
    (q buf : List ℕ) (turns : List Turn) (s : Session)
    → Runs q s
    → Delivered q buf (fill_buffer buf turns s)
unfolding fill_buffer Delivered
fill_buffer-Delivered q buf [] s h = tt
fill_buffer-Delivered q buf (turn ∷ turns) s h =
    fill_pass-Delivered q buf turn turns (fill_buffer buf turns)
      (λ s1 h1. fill_buffer-Delivered q buf turns s1 h1) s h
