-- ===== src/Client/Write/Order.antt =====
-- src/librsound/librsound.c: what `rsd_write` is given goes out on the wire once and in order.
use rsound.Base.{
  ℕ, zero, suc, ◌+◌, ◌-◌, ◌≤◌, ◌≡◌, ◌⊎◌, refl, sym, ap, ◌∙◌, Option, none, some, List, ◌++◌, ltb,
  not, if◌then◌else◌, length, bytes_at, take, arith, Bool-cases, inl, inr, length-bytes_at,
  take-add, take-length,
}
use mathlib.Core.List.{append_assoc, append-nil}
use mathlib.Core.Path.{subst}
use rsound.Client.Write.{Session, Turn, Filled, max_write, write_size, write_from, resume, write}
use rsound.Client.Write.Stream.{Streams, Runs}
use rsound.Client.Write.Filling.{Delivered, fill_buffer-Delivered}

-- The same of `rsd_write`.
Accepted : List ℕ → List ℕ → Option (ℕ × Session) → Type 0
Accepted q buf none = Unit
Accepted q buf (some (zero, t)) = Unit
Accepted q buf (some (suc n, t)) = (suc n ≡ length buf) × Runs (q ++ buf) t

done-Accepted :
    (q buf : List ℕ) (n : ℕ) (t : Session)
    → n ≡ length buf
    → ((n ≡ 0) ⊎ Runs (q ++ take n buf) t)
    → Accepted q buf (some (n, t))
unfolding Accepted
done-Accepted q buf zero t e h = tt
done-Accepted q buf (suc n) t e (inl z) = absurd (omega arith)
done-Accepted q buf (suc n) t e (inr h) =
    (e, subst (λ xs. Runs (q ++ xs) t) (ap (λ k. take k buf) e ∙ take-length buf) h)

resume-Accepted :
    (q buf q1 part : List ℕ) (next : ℕ → Session → List Turn → Option (ℕ × Session)) (written : ℕ)
    (x : Filled)
    → Delivered q1 part x
    → ((n : ℕ) (t : Session) (rest : List Turn)
        → suc n ≡ length part
        → Runs (q1 ++ part) t
        → Accepted q buf (next (written + suc n) t rest))
    → Accepted q buf (resume next written x)
unfolding Delivered Accepted
resume-Accepted q buf q1 part next written none d go = tt
resume-Accepted q buf q1 part next written (some (zero, t, rest)) d go = tt
resume-Accepted q buf q1 part next written (some (suc n, t, rest)) (e, streams) go =
    go n t rest e streams

write_from-Accepted :
    (fuel most : ℕ) (q buf : List ℕ) (written : ℕ) (s : Session) (turns : List Turn)
    → written ≤ length buf
    → length buf ≤ written + fuel
    → Runs (q ++ take written buf) s
    → ((written ≡ 0) ⊎ Runs (q ++ take written buf) s)
    → Accepted q buf (write_from fuel most buf written s turns)
unfolding write_from
write_from-Accepted zero most q buf written s turns h k runs r =
    done-Accepted q buf written s (omega arith) r
write_from-Accepted (suc fuel) most q buf written s turns h k runs r =
    elim (Bool-cases (ltb written (length buf))) [
      | inr done ↦ rw done (done-Accepted q buf written s (ground arith) r)
      | inl more ↦
          let n = write_size most (length buf - written) in
          let fits : written + n ≤ length buf = ground arith in
          rw more (
            resume-Accepted q buf (q ++ take written buf) (bytes_at buf written n)
              (write_from fuel most buf) written _
              (fill_buffer-Delivered (q ++ take written buf) (bytes_at buf written n) turns s runs)
              (λ m t rest e streams.
                let count : suc m ≡ n = omega (arith, length-bytes_at buf written n fits) in
                let grown : Runs (q ++ take (written + suc m) buf) t =
                  subst (λ xs. Runs xs t)
                    (append_assoc q (take written buf) (bytes_at buf written n)
                      ∙ ap (λ xs. q ++ xs)
                          (sym (take-add written n buf)
                            ∙ ap (λ i. take (written + i) buf) (sym count)))
                    streams in
                write_from-Accepted fuel most q buf (written + suc m) t rest (omega arith)
                  (omega arith) grown (inr grown)))
    ]

write-Accepted :
    (q buf : List ℕ) (s : Session) (turns : List Turn)
    → Runs q s
    → Accepted q buf (write buf s turns)
unfolding write Accepted
write-Accepted q buf s turns h = elim (Bool-cases s.rd.ready_for_data) [
  | inr no_data ↦
      subst (λ b. Accepted q buf (if not b then some (0, s) else started)) (sym no_data) tt
  | inl ready ↦
      subst (λ b. Accepted q buf (if not b then some (0, s) else started)) (sym ready)
        (write_from-Accepted (length buf) (max_write s.rd) q buf 0 s turns (omega arith)
          (omega arith) at_start (inl refl))
]
  where
    started : Option (ℕ × Session)
    started = write_from (length buf) (max_write s.rd) buf 0 s turns

    at_start : Runs (q ++ take 0 buf) s
    at_start = subst (λ xs. Runs xs s) (sym (append-nil q)) h

-- Whatever the network thread does between the steps of `rsd_write`, and whether its sends succeed:
-- when `rsd_write` on a running stream returns a size over 0, that is the size of the whole buffer;
-- and if the network thread has not given up by then, what is on the wire, followed by the chunk
-- being sent and by what the FIFO holds, is what it was before with the buffer's bytes at the end,
-- in order.
pub write-Streams :
    (q buf : List ℕ) (s t : Session) (turns : List Turn) (n : ℕ)
    → Streams q s
    → write buf s turns ≡ some (suc n, t)
    → (suc n ≡ length buf) × Runs (q ++ buf) t
unfolding Accepted
write-Streams q buf s t turns n h e =
    subst (Accepted q buf) e (write-Accepted q buf s turns (inl h))
