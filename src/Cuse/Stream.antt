-- ===== src/Cuse/Stream.antt =====
-- `ross_write` of src/cuse-ross/cuse-ross.c: the bytes that it stores, and its answer.
use mathlib.Core.List.{append_assoc, append-nil}
use mathlib.Core.Path.{subst}
use rsound.Base.{
  ℕ, zero, suc, ◌+◌, ◌%◌, ◌^◌, ◌≤◌, ◌≡◌, refl, sym, ap, ◌∙◌, Bool, true, false, ◌&&◌, ◌||◌, not,
  some, List, [], ◌∷◌, ◌++◌, ◌==◌, ltb, min, if◌then◌else◌, length, take, drop, arith, Bool-cases,
  inl, inr, take-add, length-take, length-drop,
}
use rsound.Fifo
use rsound.Fifo.{Fifo}
use rsound.Fifo.Access.{write_fits}
use rsound.Cuse.{
  Ross, Reply, Event, reply, err, write, Result, undefined, blocked, finished, after, replied,
}
use rsound.Cuse.Write.{
  Act, Turn, run_acts, with_acts, answer, leave, again, wait, wakes, tested, stored, store, pass,
  write_loop,
}
use rsound.Cuse.Acts.{Live, Played, run_acts-Acted, same_buffer-Live}
use rsound.Cuse.Events.{
  all_played, replies, destroys, holds, played-append, replies-append, destroys-append,
}

-- The answer to a write that stored `n` bytes, and the counter after.
abbrev pub reply_of : Bool → ℕ → Reply
reply_of true n = err 32
reply_of false n = if n == 0 then err 11 else write n

abbrev pub counted : Bool → ℕ → ℕ → ℕ
counted true c n = c
counted false c n = if n == 0 then c else (c + n) % 2 ^ 32

-- A write that had stored `w` bytes, and ends with `n` of the bytes `xs` stored too.
pub record Outcome (q xs : List ℕ) (w : ℕ) (ro : Ross) (es : List Event) (ro1 : Ross) : Type 0 where
  pub n : ℕ
  pub some_of : n ≤ length xs
  pub rest : List ℕ
  pub live : Live rest ro1
  pub bytes : all_played es ++ rest ≡ q ++ take n xs
  pub answers : replies es ≡ reply_of ro1.error (w + n) ∷ []
  pub count : ro1.write_cnt ≡ counted ro1.error ro.write_cnt (w + n)
  pub handles : (h : ℕ) → destroys h es + holds h ro1.ph ≡ holds h ro.ph
  pub frame :
      ro1
      ≡ record ro { ph = ro1.ph; buffer = ro1.buffer; error = ro1.error; write_cnt = ro1.write_cnt }

-- The write is defined, and if it ends, it ends so.
abbrev pub Streams : List ℕ → List ℕ → ℕ → Ross → Result → Type 0
Streams q xs w ro undefined = ⊥
Streams q xs w ro blocked = Unit
Streams q xs w ro (finished es ro1) = Outcome q xs w ro es ro1

-- After what the callbacks do.
after-Streams :
    (q xs : List ℕ) (w : ℕ) (ro : Ross) (es : List Event) (ro1 : Ross) (p : Played q ro es ro1)
    (r : Result)
    → Streams p.rest xs w ro1 r
    → Streams q xs w ro (after es r)
after-Streams q xs w ro es ro1 p undefined h = h
after-Streams q xs w ro es ro1 p blocked h = h
after-Streams q xs w ro es ro1 p (finished fs ro2) h = record {
  n = h.n;
  some_of = h.some_of;
  rest = h.rest;
  live = h.live;
  bytes =
      ap (λ ys. ys ++ h.rest) (played-append es fs)
      ∙ (append_assoc (all_played es) (all_played fs) h.rest
          ∙ (ap (λ ys. all_played es ++ ys) h.bytes
              ∙ (sym (append_assoc (all_played es) p.rest (take h.n xs))
                  ∙ ap (λ ys. ys ++ take h.n xs) p.bytes)));
  answers = replies-append es fs ∙ (ap (λ ys. ys ++ replies fs) p.silent ∙ h.answers);
  count =
      h.count ∙ ap (λ c. counted ro2.error c (w + h.n)) (ap {A = Ross} (λ r. r.write_cnt) p.frame);
  handles = λ k. omega (arith, destroys-append k es fs, p.handles k, h.handles k);
  frame =
      h.frame
      ∙ ap {A = Ross} {B = Ross}
          (λ r. record r {
            ph = ro2.ph;
            buffer = ro2.buffer;
            error = ro2.error;
            write_cnt = ro2.write_cnt;
          })
          p.frame;
}

with_acts-Streams :
    (acts : List Act) (q xs : List ℕ) (w : ℕ) (ro : Ross) (rest : List Event → Ross → Result)
    → Live q ro
    → ((es : List Event) (ro1 : Ross) (q1 : List ℕ)
        → Live q1 ro1
        → Streams q1 xs w ro1 (rest es ro1))
    → Streams q xs w ro (with_acts (run_acts acts ro) rest)
with_acts-Streams acts q xs w ro rest l k =
    let a = run_acts-Acted acts q ro l in
    subst (λ o. Streams q xs w ro (with_acts o rest)) (sym a.same)
      (after-Streams q xs w ro a.events a.state a.played (rest a.events a.state)
        (k a.events a.state a.played.rest a.played.live))

-- With `n` of the bytes stored.
step-Streams :
    (n : ℕ) (q xs : List ℕ) (w : ℕ) (ro : Ross) (f : Fifo) (r : Result)
    → n ≤ length xs
    → Streams (q ++ take n xs) (drop n xs) (w + n) (record ro { buffer = some f }) r
    → Streams q xs w ro r
step-Streams n q xs w ro f undefined le h = h
step-Streams n q xs w ro f blocked le h = h
step-Streams n q xs w ro f (finished es ro1) le h =
    let sum : (w + n) + h.n ≡ w + (n + h.n) = omega arith in
    record {
      n = n + h.n;
      some_of = omega (arith, h.some_of, length-drop n xs);
      rest = h.rest;
      live = h.live;
      bytes =
          h.bytes
          ∙ (append_assoc q (take n xs) (take h.n (drop n xs))
              ∙ ap (λ ys. q ++ ys) (sym (take-add n h.n xs)));
      answers = h.answers ∙ ap (λ k. reply_of ro1.error k ∷ []) sum;
      count = h.count ∙ ap (counted ro1.error ro.write_cnt) sum;
      handles = h.handles;
      frame = h.frame;
    }

replied-Streams :
    (q xs : List ℕ) (w c : ℕ) (ro : Ross)
    → Live q ro
    → (r : Reply) → r ≡ reply_of ro.error w
    → c ≡ counted ro.error ro.write_cnt w
    → Streams q xs w ro (finished (reply r ∷ []) (record ro { write_cnt = c }))
replied-Streams q xs w c ro l r e k =
    let w0 : w ≡ w + 0 = omega arith in
    record {
      n = 0;
      some_of = omega arith;
      rest = q;
      live = same_buffer-Live refl l;
      bytes = sym (append-nil q);
      answers = ap (λ x. x ∷ []) (e ∙ ap (reply_of ro.error) w0);
      count = k ∙ ap (counted ro.error ro.write_cnt) w0;
      handles = λ h. omega arith;
      frame = refl;
    }

answer-Streams : (q xs : List ℕ) (w : ℕ) (ro : Ross) → Live q ro → Streams q xs w ro (answer w ro)
unfolding answer
answer-Streams q xs w ro l = elim (Bool-cases ro.error) [
  | inl e ↦
      subst (λ b. Streams q xs w ro (if b then replied (err 32) ro else sent)) (sym e)
        (replied-Streams q xs w ro.write_cnt ro l (err 32) (sym (ap (λ b. reply_of b w) e))
          (sym (ap (λ b. counted b ro.write_cnt w) e)))
  | inr e ↦
      subst (λ b. Streams q xs w ro (if b then replied (err 32) ro else sent)) (sym e)
        (elim (Bool-cases (w == 0)) [
          | inl z ↦
              subst (λ b. Streams q xs w ro (if b then replied (err 11) ro else done)) (sym z)
                (replied-Streams q xs w ro.write_cnt ro l (err 11)
                  (sym (ap (λ b. reply_of b w) e ∙ ap (λ b. if b then err 11 else write w) z))
                  (sym (
                    ap (λ b. counted b ro.write_cnt w) e
                    ∙ ap (λ b. if b then ro.write_cnt else (ro.write_cnt + w) % 2 ^ 32) z)))
          | inr z ↦
              subst (λ b. Streams q xs w ro (if b then replied (err 11) ro else done)) (sym z)
                (replied-Streams q xs w ((ro.write_cnt + w) % 2 ^ 32) ro l (write w)
                  (sym (ap (λ b. reply_of b w) e ∙ ap (λ b. if b then err 11 else write w) z))
                  (sym (
                    ap (λ b. counted b ro.write_cnt w) e
                    ∙ ap (λ b. if b then ro.write_cnt else (ro.write_cnt + w) % 2 ^ 32) z)))
        ])
]
  where
    done : Result
    done = finished (reply (write w) ∷ []) (record ro { write_cnt = (ro.write_cnt + w) % 2 ^ 32 })

    sent : Result
    sent = if w == 0 then replied (err 11) ro else done

leave-Streams :
    (t : Turn) (q xs : List ℕ) (w : ℕ) (ro : Ross) → Live q ro → Streams q xs w ro (leave t w ro)
leave-Streams t q xs w ro l =
    with_acts-Streams t.left q xs w ro _ l (λ es ro1 q1 l1. answer-Streams q1 xs w ro1 l1)

if-Streams :
    (b : Bool) (q xs : List ℕ) (w : ℕ) (ro : Ross) (r s : Result)
    → Streams q xs w ro r
    → Streams q xs w ro s
    → Streams q xs w ro (if b then r else s)
if-Streams true q xs w ro r s h k = h
if-Streams false q xs w ro r s h k = k

-- The rest of the loop streams, whatever is left to write.
abbrev Rest : (List ℕ → ℕ → Ross → Result) → Type 0
Rest rest = (q xs : List ℕ) (w : ℕ) (ro : Ross) → Live q ro → Streams q xs w ro (rest xs w ro)

again-Streams : (rest : List ℕ → ℕ → Ross → Result) → Rest rest → (t : Turn) → Rest (again rest t)
again-Streams rest h t q xs w ro l =
    if-Streams (ltb 0 (length xs) && not ro.error) q xs w ro _ _ (h q xs w ro l)
      (leave-Streams t q xs w ro l)

wait-Streams : (rest : List ℕ → ℕ → Ross → Result) → Rest rest → (t : Turn) → Rest (wait rest t)
wait-Streams rest h t q xs w ro l = with_acts-Streams t.waited q xs w ro _ l (λ es ro1 q1 l1.
    if-Streams (wakes es) q1 xs w ro1 _ _ (again-Streams rest h t q1 xs w ro1 l1) tt)

tested-Streams :
    (rest : List ℕ → ℕ → Ross → Result)
    → Rest rest
    → (t : Turn) (nonblock : Bool) (n : ℕ) → Rest (tested rest t nonblock n)
tested-Streams rest h t nonblock n q xs w ro l =
    if-Streams (nonblock || ro.error) q xs w ro _ _ (leave-Streams t q xs w ro l) (
      with_acts-Streams t.tested q xs w ro _ l (λ es ro1 q1 l1.
        if-Streams (n == 0) q1 xs w ro1 _ _ (wait-Streams rest h t q1 xs w ro1 l1)
          (again-Streams rest h t q1 xs w ro1 l1)))

-- What the pass stores.
pub store_fits :
    (n : ℕ) (q xs : List ℕ) (ro : Ross) (l : Live q ro)
    → n ≤ length xs
    → n ≤ Fifo.write_avail l.fifo
    → (g : Fifo) × (store n xs l.fifo ≡ some g)
      × Live (q ++ take n xs) (record ro { buffer = some g })
      × (g.bufsize ≡ l.fifo.bufsize)
store_fits zero q xs ro l le fits = (
  l.fifo,
  refl,
  record { fifo = l.fifo; same = refl; valid = l.valid; bytes = l.bytes ∙ sym (append-nil q) },
  refl,
)
store_fits (suc n) q xs ro l le fits =
    let (g, e, v, c, size) =
      write_fits (take (suc n) xs) l.valid (omega (arith, length-take (suc n) xs)) in
    let yes : ltb 0 (suc n) ≡ true = ground arith in
    (
      g,
      ap (λ b. if b then Fifo.write l.fifo (take (suc n) xs) else some l.fifo) yes ∙ e,
      record {
        fifo = g;
        same = refl;
        valid = v;
        bytes = c ∙ ap (λ ys. ys ++ take (suc n) xs) l.bytes;
      },
      size,
    )

pass-Streams :
    (rest : List ℕ → ℕ → Ross → Result)
    → Rest rest
    → (t : Turn) (nonblock : Bool) (q xs : List ℕ) (w : ℕ) (ro : Ross) → Live q ro
    → Streams q xs w ro (pass rest t nonblock xs w ro ro.buffer)
pass-Streams rest h t nonblock q xs w ro l =
    let n = min (Fifo.write_avail l.fifo) (length xs) in
    let (g, e, l1, size) = store_fits n q xs ro l (omega arith) (omega arith) in
    subst (λ o. Streams q xs w ro (pass rest t nonblock xs w ro o)) (sym l.same)
      (subst (λ o. Streams q xs w ro (stored rest t nonblock n xs w ro o)) (sym e)
        (step-Streams n q xs w ro g _ (omega arith) (
          with_acts-Streams t.stored (q ++ take n xs) (drop n xs) (w + n)
            (record ro { buffer = some g }) _ l1
            (λ es ro1 q1 l2. tested-Streams rest h t nonblock n q1 (drop n xs) (w + n) ro1 l2))))

pub write_loop-Streams :
    (ts : List Turn) (nonblock : Bool) (q xs : List ℕ) (w : ℕ) (ro : Ross)
    → Live q ro
    → Streams q xs w ro (write_loop ts nonblock xs w ro)
unfolding write_loop
write_loop-Streams [] nonblock q xs w ro l = tt
write_loop-Streams (t ∷ ts) nonblock q xs w ro l =
    pass-Streams (write_loop ts nonblock)
      (λ q1 ys w1 ro1 l1. write_loop-Streams ts nonblock q1 ys w1 ro1 l1) t nonblock q xs w ro l
