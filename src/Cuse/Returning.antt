-- ===== src/Cuse/Returning.antt =====
-- `ross_write` of src/cuse-ross/cuse-ross.c: that it returns, and when it does not.
use mathlib.Core.Path.{subst}
use rsound.Base.{
  ℕ, suc, ◌+◌, ◌-◌, ◌*◌, ◌≤◌, ◌<◌, ◌≡◌, refl, sym, ap, ◌∙◌, Bool, true, false, ◌&&◌, ◌||◌, not,
  some, List, [], ◌∷◌, ◌++◌, ◌==◌, ltb, min, if◌then◌else◌, length, take, drop, arith, Bool-cases,
  inl, inr, length-append, length-drop, length-take, ltb→lt, lt→ltb, ◌⊎◌,
}
use Prim.Native.Nat.{bit_and}
use rsound.Fifo
use rsound.Fifo.{Fifo}
use rsound.Fifo.Inv.{avail-add}
use rsound.Fifo.Refine.{length-contents}
use rsound.Cuse.{Ross, Reply, Event, Result, blocked, replied, Client, o_nonblock}
use rsound.Cuse.Start.{ross_start}
use rsound.Cuse.Write.{
  Turn, run_acts, with_acts, wakes, again, wait, tested, stored, pass, write_loop, write_started,
  ross_write,
}
use rsound.Cuse.Acts.{Live, Played, capacity}
use rsound.Cuse.Stream.{store_fits}
use rsound.Cuse.Waking.{
  Reads, Prompt, Returns, after-Returns, if-Returns, leave-Returns, waited-wakes,
}

-- One pass less for each pass: two for a byte, less one while there is room.
abbrev pub one_if : ℕ → ℕ → ℕ
one_if a b = if ltb a b then 1 else 0

abbrev pub room : List ℕ → Ross → ℕ
room q ro = one_if (suc (length q)) (capacity ro.buffer)

room_cases : (a b : ℕ) → (one_if a b ≡ 0) ⊎ ((one_if a b ≡ 1) × (a < b))
room_cases a b = elim (Bool-cases (ltb a b)) [
  | inl e ↦ inr (ap (λ c. if c then 1 else 0) e, ltb→lt a b e)
  | inr e ↦ inl (ap (λ c. if c then 1 else 0) e)
]

abbrev ReturnsFrom : ℕ → (List ℕ → ℕ → Ross → Result) → Type 0
ReturnsFrom k rest =
    (q xs : List ℕ) (w : ℕ) (ro : Ross)
    → Live q ro
    → 2 ≤ capacity ro.buffer
    → 0 < length xs
    → 2 * length xs ≤ k + room q ro
    → Returns (rest xs w ro)

if-Returns-when :
    (b c : Bool) (r s : Result)
    → (b ≡ true → Returns r)
    → Returns s
    → Returns (if b && c then r else s)
if-Returns-when true true r s h k = h refl
if-Returns-when true false r s h k = k
if-Returns-when false c r s h k = k

module _ (k : ℕ) (rest : List ℕ → ℕ → Ross → Result) (h : ReturnsFrom k rest) (t : Turn) where
  again-Returns :
      (q xs : List ℕ) (w : ℕ) (ro : Ross)
      → Live q ro
      → 2 ≤ capacity ro.buffer
      → (0 < length xs → 2 * length xs ≤ k + room q ro)
      → Returns (again rest t xs w ro)
  again-Returns q xs w ro l c enough =
      if-Returns-when (ltb 0 (length xs)) (not ro.error) _ _
        (λ e.
          let some_left = ltb→lt 0 (length xs) e in h q xs w ro l c some_left (enough some_left))
        (leave-Returns t w q ro l)

  wait-Returns :
      (q xs : List ℕ) (w : ℕ) (ro : Ross)
      → Reads t.waited
      → Live q ro
      → 0 < length q
      → 2 ≤ capacity ro.buffer
      → length q < capacity ro.buffer
      → 2 * length xs ≤ k + 1
      → Returns (wait rest t xs w ro)
  wait-Returns q xs w ro reads l some_held c below enough =
      let (a, woken, less) = waited-wakes t.waited q ro reads l some_held in
      subst
        (λ o. Returns (with_acts o (λ es ro1. if wakes es then again rest t xs w ro1 else blocked)))
        (sym a.same)
        (after-Returns a.events _ (
          subst (λ b. Returns (if b then again rest t xs w a.state else blocked)) (sym woken)
            (again-Returns a.played.rest xs w a.state a.played.live (by_size a.played c)
              (λ some_left. by_room a.played less))))
    where
      by_size :
          {es : List Event} {ro1 : Ross}
          → Played q ro es ro1
          → 2 ≤ capacity ro.buffer
          → 2 ≤ capacity ro1.buffer
      by_size p c = omega (arith, p.size)

      by_room :
          {es : List Event} {ro1 : Ross} (p : Played q ro es ro1)
          → length p.rest < length q
          → 2 * length xs ≤ k + room p.rest ro1
      by_room {es} {ro1} p less =
          let one : ltb (suc (length p.rest)) (capacity ro1.buffer) ≡ true =
            lt→ltb _ _ (omega (arith, p.size, below, less)) in
          subst (λ b. 2 * length xs ≤ k + (if b then 1 else 0)) (sym one) enough

  tested-Returns :
      (nonblock : Bool) (n : ℕ) (q xs : List ℕ) (w : ℕ) (ro : Ross)
      → t.tested ≡ []
      → Reads t.waited
      → Live q ro
      → 2 ≤ capacity ro.buffer
      → length q < capacity ro.buffer
      → (n ≡ 0 → (0 < length q) × (2 * length xs ≤ k + 1))
      → (0 < n → 2 * length xs ≤ k)
      → Returns (tested rest t nonblock n xs w ro)
  unfolding run_acts
  tested-Returns nonblock n q xs w ro none_tested reads l c below full some_stored =
      if-Returns (nonblock || ro.error) _ _ (leave-Returns t w q ro l) (
        subst
          (λ acts. Returns (
            with_acts (run_acts acts ro)
              (λ es ro1. if n == 0 then wait rest t xs w ro1 else again rest t xs w ro1)))
          (sym none_tested) (after-Returns [] _ (by_count (Bool-cases (n == 0)))))
    where
      by_count :
          ((n == 0) ≡ true) ⊎ ((n == 0) ≡ false)
          → Returns (if n == 0 then wait rest t xs w ro else again rest t xs w ro)
      by_count (inl e) =
          let (some_held, enough) = full (ground (arith, e)) in
          subst (λ b. Returns (if b then wait rest t xs w ro else again rest t xs w ro)) (sym e)
            (wait-Returns q xs w ro reads l some_held c below enough)
      by_count (inr e) =
          let enough = some_stored (ground (arith, e)) in
          subst (λ b. Returns (if b then wait rest t xs w ro else again rest t xs w ro)) (sym e)
            (again-Returns q xs w ro l c (λ some_left. omega (arith, enough)))

  pass-Returns :
      (nonblock : Bool) (q xs : List ℕ) (w : ℕ) (ro : Ross)
      → t.stored ≡ []
      → t.tested ≡ []
      → Reads t.waited
      → Live q ro
      → 2 ≤ capacity ro.buffer
      → 0 < length xs
      → 2 * length xs ≤ suc k + room q ro
      → Returns (pass rest t nonblock xs w ro ro.buffer)
  unfolding run_acts
  pass-Returns nonblock q xs w ro none_stored none_tested reads l c some_left enough =
      let n = min (Fifo.write_avail l.fifo) (length xs) in
      let (g, e, l1, size) = store_fits n q xs ro l (omega arith) (omega arith) in
      subst (λ o. Returns (pass rest t nonblock xs w ro o)) (sym l.same)
        (subst (λ o. Returns (stored rest t nonblock n xs w ro o)) (sym e)
          (subst
            (λ acts. Returns (
              with_acts (run_acts acts (record ro { buffer = some g }))
                (λ es ro1. tested rest t nonblock n (drop n xs) (w + n) ro1)))
            (sym none_stored)
            (after-Returns [] _ (
              tested-Returns nonblock n (q ++ take n xs) (drop n xs) (w + n)
                (record ro { buffer = some g }) none_tested reads l1 (omega (arith, size, cap))
                (omega (arith, size, total, held, grown n)) (full n (grown n) refl)
                (rest_fits n)))))
    where
      cap : capacity ro.buffer ≡ l.fifo.bufsize
      cap = ap capacity l.same

      held : length q ≡ Fifo.read_avail l.fifo
      held = sym (ap length l.bytes) ∙ length-contents l.fifo

      total : Fifo.read_avail l.fifo + Fifo.write_avail l.fifo ≡ l.fifo.bufsize - 1
      total = avail-add l.valid

      grown : (n : ℕ) → length (q ++ take n xs) ≡ length q + min n (length xs)
      grown n = omega (arith, length-append q (take n xs), length-take n xs)

      full :
          (n : ℕ)
          → length (q ++ take n xs) ≡ length q + min n (length xs)
          → n ≡ min (Fifo.write_avail l.fifo) (length xs)
          → n ≡ 0
          → (0 < length (q ++ take n xs)) × (2 * length (drop n xs) ≤ k + 1)
      full n g m z = elim (room_cases (suc (length q)) (capacity ro.buffer)) [
        | inl no_room ↦
            (omega (arith, g, m, z, total, held, cap), omega (arith, no_room, length-drop n xs))
        | inr (one, fits) ↦ absurd (omega (arith, fits, m, z, total, held, cap))
      ]

      rest_fits : (n : ℕ) → 0 < n → 2 * length (drop n xs) ≤ k
      rest_fits n some_stored = elim (room_cases (suc (length q)) (capacity ro.buffer)) [
        | inl no_room ↦ omega (arith, no_room, length-drop n xs)
        | inr (one, fits) ↦ omega (arith, one, length-drop n xs)
      ]

write_loop-Returns :
    (ts : List Turn) (nonblock : Bool) (q xs : List ℕ) (w : ℕ) (ro : Ross)
    → Live q ro
    → 2 ≤ capacity ro.buffer
    → 0 < length xs
    → Prompt ts
    → 2 * length xs ≤ length ts + room q ro
    → Returns (write_loop ts nonblock xs w ro)
unfolding write_loop
write_loop-Returns [] nonblock q xs w ro l c some_left p enough =
    elim (room_cases (suc (length q)) (capacity ro.buffer)) [
      | inl e ↦ absurd (omega (arith, e))
      | inr (e, fits) ↦ absurd (omega (arith, e))
    ]
write_loop-Returns (t ∷ ts) nonblock q xs w ro l c some_left (s, d, r, p) enough =
    pass-Returns (length ts) (write_loop ts nonblock)
      (λ q1 ys w1 ro1 l1 c1 some1 enough1.
        write_loop-Returns ts nonblock q1 ys w1 ro1 l1 c1 some1 p enough1)
      t nonblock q xs w ro s d r l c some_left enough

-- A write to a started stream whose FIFO takes a byte or more returns, blocking or not, where the
-- callbacks run only while it waits, the first one in each wait asks for some bytes, and there are
-- at least twice as many passes of the loop as bytes: no wait is for ever.
pub ross_write-Returns :
    (client : Client) (struct_ok storage_ok : Bool) (ts : List Turn) (flags : ℕ) (q xs : List ℕ)
    (ro : Ross)
    → ro.started ≡ true
    → Live q ro
    → 2 ≤ capacity ro.buffer
    → Prompt ts
    → 2 * length xs ≤ length ts
    → Returns (ross_write client struct_ok storage_ok ts flags xs ro)
unfolding ross_write
ross_write-Returns client struct_ok storage_ok ts flags q xs ro running l c p enough =
    elim (Bool-cases (length xs == 0)) [
      | inl e ↦ subst (λ b. Returns (if b then replied (Reply.write 0) ro else begun)) (sym e) tt
      | inr e ↦
          subst (λ b. Returns (if b then replied (Reply.write 0) ro else begun)) (sym e)
            (if-Returns ro.error _ _ tt (
              subst
                (λ b. Returns (
                  write_started ts nonblock xs
                    (if b then some (true, ro) else ross_start client struct_ok storage_ok ro)))
                (sym running)
                (write_loop-Returns ts nonblock q xs 0 ro l c (ground (arith, e)) p
                  (omega (arith, enough)))))
    ]
  where
    nonblock : Bool
    nonblock = ro.nonblock || not (bit_and flags o_nonblock == 0)

    begun : Result
    begun =
        if ro.error
        then replied (Reply.err 32) ro
        else write_started ts nonblock xs
            (if ro.started then some (true, ro) else ross_start client struct_ok storage_ok ro)
