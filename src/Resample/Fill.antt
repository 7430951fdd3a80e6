-- ===== src/Resample/Fill.antt =====
-- src/resampler.c: the loop of `resampler_cb_read` that reads the input.
use mathlib.Core.List.{append_assoc, append-nil}
use mathlib.Core.Path.{subst}
use rsound.Base.{
  ℕ, ◌+◌, ◌-◌, ◌≤◌, ◌<◌, ◌≡◌, ◌⊎◌, refl, sym, ap, ◌∙◌, true, false, Option, none, some, List, [],
  ◌∷◌, ◌++◌, ◌==◌, ltb, if◌then◌else◌, length, take, drop, memcpy, arith, Bool-cases, inl, inr,
  length-append, length-take, take-length-append, take-length, take-append-drop, length-memcpy,
  ltb→lt,
}
use rsound.Resample.{Filled, fill}

module _ {A : Type 0} where
  -- What a copy leaves up to its end.
  pub take-memcpy :
      (dest src : List A) (at : ℕ)
      → at ≤ length dest
      → take (at + length src) (memcpy dest at src) ≡ take at dest ++ src
  take-memcpy dest src at h =
      let size : length (take at dest ++ src) ≡ at + length src =
        omega (arith, length-append (take at dest) src, length-take at dest) in
      let rest = drop (at + length src) dest in
      ap (take (at + length src)) (sym (append_assoc (take at dest) src rest))
      ∙ (ap (λ k. take k ((take at dest ++ src) ++ rest)) (sym size)
          ∙ take-length-append (take at dest ++ src) rest)

  -- All that is given.
  abbrev pub joined : List (List A) → List A
  joined [] = []
  joined (xs ∷ more) = xs ++ joined more

  -- The input gives something each time, until it has given `n` frames.
  abbrev pub Supplies : ℕ → List (List A) → Type 0
  Supplies n [] = ⊥
  Supplies n (xs ∷ more) = (0 < length xs) × ((n ≤ length xs) ⊎ Supplies (n - length xs) more)

module _ {S : Type 0} (must_read : ℕ) where
  -- The buffer holds what was read, up to the frames that are left in the input's own memory.
  pub record Took (input : List (List (List S))) (got : List (List S)) (f : Filled S) : Type 0 where
    pub taken : List (List (List S))
    pub split : input ≡ taken ++ f.later
    pub content : f.temp_buf ++ drop f.copy_size f.ptr ≡ got ++ joined taken
    pub size : length f.temp_buf ≡ must_read
    pub extra : f.has_read ≡ must_read + (length f.ptr - f.copy_size)
    pub copy : f.copy_size ≤ length f.ptr

  abbrev pub Fills : List (List (List S)) → List (List S) → Option (Filled S) → Type 0
  Fills input got none = Supplies (must_read - length got) input → ⊥
  Fills input got (some f) = Took input got f

  starves :
      (ptr : List (List S)) (later : List (List (List S))) (got : List (List S))
      → length ptr < must_read - length got
      → (Supplies (must_read - length (got ++ ptr)) later → ⊥)
      → Supplies (must_read - length got) (ptr ∷ later)
      → ⊥
  starves ptr later got short h (some_given, inl all) = absurd (omega (arith, short, all))
  starves ptr later got short h (some_given, inr more) =
      h (subst (λ n. Supplies n later) (omega (arith, length-append got ptr)) more)

  later-Fills :
      (ptr : List (List S)) (later : List (List (List S))) (got : List (List S))
      (o : Option (Filled S))
      → length ptr < must_read - length got
      → Fills later (got ++ ptr) o
      → Fills (ptr ∷ later) got o
  later-Fills ptr later got none short h = starves ptr later got short h
  later-Fills ptr later got (some f) short h = record {
    taken = ptr ∷ h.taken;
    split = ap (◌∷◌ ptr) h.split;
    content = h.content ∙ append_assoc got ptr (joined h.taken);
    size = h.size;
    extra = h.extra;
    copy = h.copy;
  }

  -- One copy into the buffer.
  module _ (temp got ptr : List (List S)) (size : length temp ≡ must_read)
      (sofar : take (length got) temp ≡ got) (n : ℕ) (copy : n ≤ length ptr)
      (fits : length got + n ≤ must_read) where
    copy_sofar : take (length got + n) (memcpy temp (length got) (take n ptr)) ≡ got ++ take n ptr
    copy_sofar =
        let taken : length (take n ptr) ≡ n = omega (arith, length-take n ptr) in
        ap (λ k. take (length got + k) (memcpy temp (length got) (take n ptr))) (sym taken)
        ∙ (take-memcpy temp (take n ptr) (length got) (omega (arith, size))
            ∙ ap (λ ys. ys ++ take n ptr) sofar)

    copy_size : length (memcpy temp (length got) (take n ptr)) ≡ must_read
    copy_size =
        length-memcpy temp (take n ptr) (length got) (omega (arith, size, length-take n ptr)) ∙ size

  full-Took :
      (temp got ptr : List (List S)) (later : List (List (List S)))
      → length temp ≡ must_read
      → take (length got) temp ≡ got
      → (n : ℕ) → n ≤ length ptr
      → length got + n ≡ must_read
      → Took (ptr ∷ later) got (record {
        temp_buf = memcpy temp (length got) (take n ptr);
        has_read = length got + length ptr;
        ptr = ptr;
        copy_size = n;
        later = later;
      })
  full-Took temp got ptr later size sofar n copy full =
      let temp1 = memcpy temp (length got) (take n ptr) in
      let all : length temp1 ≡ must_read =
        copy_size temp got ptr size sofar n copy (omega (arith, full)) in
      let held : temp1 ≡ got ++ take n ptr =
        sym (take-length temp1)
        ∙ (ap (λ k. take k temp1) (all ∙ sym full)
            ∙ copy_sofar temp got ptr size sofar n copy (omega (arith, full))) in
      record {
        taken = ptr ∷ [];
        split = refl;
        content =
            ap (λ ys. ys ++ drop n ptr) held
            ∙ (append_assoc got (take n ptr) (drop n ptr)
                ∙ ap (λ ys. got ++ ys) (take-append-drop n ptr ∙ sym (append-nil ptr)));
        size = all;
        extra = omega (arith, full, copy);
        copy = copy;
      }

  pub fill-Fills :
      (input : List (List (List S))) (temp got : List (List S))
      → length temp ≡ must_read
      → length got < must_read
      → take (length got) temp ≡ got
      → Fills input got (fill must_read input temp (length got))
  unfolding fill
  fill-Fills [] temp got size short sofar = λ s. s
  fill-Fills (ptr ∷ later) temp got size short sofar =
      by_end (λ temp2 s h held. fill-Fills later temp2 (got ++ ptr) s h held)
        (Bool-cases (length ptr == 0))
    where
      n : ℕ
      n = if ltb (must_read - length got) (length ptr) then must_read - length got else length ptr

      temp1 : List (List S)
      temp1 = memcpy temp (length got) (take n ptr)

      rest : ℕ → Option (Filled S)
      rest k = fill must_read later temp1 k

      last : Option (Filled S)
      last = some (record {
        temp_buf = temp1;
        has_read = length got + length ptr;
        ptr = ptr;
        copy_size = n;
        later = later;
      })

      no_more : (length ptr == 0) ≡ true → Supplies (must_read - length got) (ptr ∷ later) → ⊥
      no_more e (some_given, more) = absurd (ground (arith, e, some_given))

      copy : n ≤ length ptr
      copy = ground arith

      by_size :
          ((temp2 : List (List S))
            → length temp2 ≡ must_read
            → length (got ++ ptr) < must_read
            → take (length (got ++ ptr)) temp2 ≡ got ++ ptr
            → Fills later (got ++ ptr) (fill must_read later temp2 (length (got ++ ptr))))
          → (ltb (length got + length ptr) must_read ≡ true)
            ⊎ (ltb (length got + length ptr) must_read ≡ false)
          → Fills (ptr ∷ later) got (
              if ltb (length got + length ptr) must_read
              then rest (length got + length ptr)
              else last)
      by_size rec (inl e) =
          let small = ltb→lt (length got + length ptr) must_read e in
          let whole : n ≡ length ptr = ground (arith, small) in
          let grown : length got + n ≡ length (got ++ ptr) =
            omega (arith, whole, length-append got ptr) in
          let held : take (length (got ++ ptr)) temp1 ≡ got ++ ptr =
            ap (λ k. take k temp1) (sym grown)
            ∙ (copy_sofar temp got ptr size sofar n copy (omega (arith, small, whole))
                ∙ ap (λ ys. got ++ ys) (ap (λ k. take k ptr) whole ∙ take-length ptr)) in
          let next : Fills later (got ++ ptr) (rest (length (got ++ ptr))) =
            rec temp1 (copy_size temp got ptr size sofar n copy (omega (arith, small, whole)))
              (omega (arith, small, grown, whole)) held in
          subst (λ b. Fills (ptr ∷ later) got (if b then rest (length got + length ptr) else last))
            (sym e)
            (later-Fills ptr later got (rest (length got + length ptr)) (omega (arith, small))
              (subst (λ k. Fills later (got ++ ptr) (rest k)) (length-append got ptr) next))
      by_size rec (inr e) =
          let full : length got + n ≡ must_read = ground (arith, e, short) in
          subst (λ b. Fills (ptr ∷ later) got (if b then rest (length got + length ptr) else last))
            (sym e) (full-Took temp got ptr later size sofar n copy full)

      by_end :
          ((temp2 : List (List S))
            → length temp2 ≡ must_read
            → length (got ++ ptr) < must_read
            → take (length (got ++ ptr)) temp2 ≡ got ++ ptr
            → Fills later (got ++ ptr) (fill must_read later temp2 (length (got ++ ptr))))
          → ((length ptr == 0) ≡ true) ⊎ ((length ptr == 0) ≡ false)
          → Fills (ptr ∷ later) got (
              if length ptr == 0
              then none
              else if ltb (length got + length ptr) must_read
              then rest (length got + length ptr)
              else last)
      by_end rec (inl e) =
          subst
            (λ b. Fills (ptr ∷ later) got (
              if b
              then none
              else if ltb (length got + length ptr) must_read
              then rest (length got + length ptr)
              else last))
            (sym e) (no_more e)
      by_end rec (inr e) =
          subst
            (λ b. Fills (ptr ∷ later) got (
              if b
              then none
              else if ltb (length got + length ptr) must_read
              then rest (length got + length ptr)
              else last))
            (sym e) (by_size rec (Bool-cases (ltb (length got + length ptr) must_read)))
