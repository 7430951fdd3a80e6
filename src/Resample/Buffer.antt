-- ===== src/Resample/Buffer.antt =====
-- src/resampler.c: the buffer of the resampler, and the input that it holds.
use mathlib.Core.List.{append_assoc, append-nil}
use mathlib.Core.Path.{subst}
use rsound.Base.{
  ℕ, zero, suc, ◌+◌, ◌-◌, ◌≤◌, ◌≡◌, refl, sym, ap, ◌∙◌, List, [], ◌∷◌, ◌++◌, ltb, if◌then◌else◌,
  length, take, drop, replicate, memcpy, bytes_at, arith, Bool-cases, inl, inr, length-append,
  length-take, length-drop, length-memcpy, length-replicate, drop_all,
}
use rsound.Resample.{Resampler, Filled, enlarged, copied, absorbed, shifted}
use rsound.Resample.Fill.{Took, joined, take-memcpy}

module _ {A : Type 0} where
  pub drop-append : (n : ℕ) (xs ys : List A) → n ≤ length xs → drop n (xs ++ ys) ≡ drop n xs ++ ys
  drop-append zero xs ys h = refl
  drop-append (suc n) [] ys h = absurd (omega arith)
  drop-append (suc n) (x ∷ xs) ys h = drop-append n xs ys (omega arith)

  pub take-append : (n : ℕ) (xs ys : List A) → n ≤ length xs → take n (xs ++ ys) ≡ take n xs
  take-append zero xs ys h = refl
  take-append (suc n) [] ys h = absurd (omega arith)
  take-append (suc n) (x ∷ xs) ys h = ap (◌∷◌ x) (take-append n xs ys (omega arith))

  drop_nil : (n : ℕ) → drop {A = A} n [] ≡ []
  drop_nil zero = refl
  drop_nil (suc n) = refl

  pub drop-drop : (m n : ℕ) (xs : List A) → drop m (drop n xs) ≡ drop (n + m) xs
  drop-drop m zero xs = ap (λ k. drop k xs) (omega arith)
  drop-drop m (suc n) [] = drop_nil m ∙ sym (drop_nil (suc n + m))
  drop-drop m (suc n) (x ∷ xs) =
      let e : suc n + m ≡ suc (n + m) = omega arith in
      drop-drop m n xs ∙ ap (λ k. drop k (x ∷ xs)) (sym e)

  pub drop-take : (m n : ℕ) (xs : List A) → drop m (take (m + n) xs) ≡ take n (drop m xs)
  drop-take zero n xs = ap (λ k. take k xs) (omega arith)
  drop-take (suc m) n [] =
      let e : suc m + n ≡ suc (m + n) = omega arith in
      ap (λ k. drop (suc m) (take {A = A} k [])) e ∙ sym (take_nil n)
    where
      take_nil : (k : ℕ) → take {A = A} k [] ≡ []
      take_nil zero = refl
      take_nil (suc k) = refl
  drop-take (suc m) n (x ∷ xs) =
      let e : suc m + n ≡ suc (m + n) = omega arith in
      ap (λ k. drop (suc m) (take k (x ∷ xs))) e ∙ drop-take m n xs

module _ {S : Type 0} where
  -- The buffer holds the frames of the input from `sum_input_frames` on, to its end so far; output
  -- has not fallen behind what has left the buffer.
  pub record Holds (stream : List (List S)) (r : Resampler S) : Type 0 where
    pub fits : r.data_ptr ≤ length r.frames
    pub size : length stream ≡ r.sum_input_frames + r.data_ptr
    pub same : take r.data_ptr r.frames ≡ drop r.sum_input_frames stream
    pub behind : r.sum_input_frames ≤ r.ratio.reached r.sum_output_frames

  enlarged-fits :
      (need : ℕ) (frames : List (List S))
      → (need ≤ length (enlarged need frames)) × (length frames ≤ length (enlarged need frames))
  enlarged-fits need frames = elim (Bool-cases (ltb (length frames) need)) [
    | inl e ↦
        let grown : enlarged need frames ≡ frames ++ replicate (need - length frames) [] =
          ap (λ b. if b then frames ++ replicate (need - length frames) [] else frames) e in
        let more : length (enlarged need frames) ≡ length frames + (need - length frames) =
          ap length grown
          ∙ (length-append frames (replicate (need - length frames) [])
              ∙ ap (λ n. length frames + n) (length-replicate (need - length frames) [])) in
        (omega (arith, more), omega (arith, more))
    | inr e ↦
        let still : length (enlarged need frames) ≡ length frames =
          ap (λ b. length (if b then frames ++ replicate (need - length frames) [] else frames))
            e in
        (ground (arith, still, e), omega (arith, still))
  ]

  take-enlarged :
      (n need : ℕ) (frames : List (List S))
      → n ≤ length frames
      → take n (enlarged need frames) ≡ take n frames
  take-enlarged n need frames h = elim (Bool-cases (ltb (length frames) need)) [
    | inl e ↦
        ap (λ b. take n (if b then frames ++ replicate (need - length frames) [] else frames)) e
        ∙ take-append n frames (replicate (need - length frames) []) h
    | inr e ↦
        ap (λ b. take n (if b then frames ++ replicate (need - length frames) [] else frames)) e
  ]

  -- What the two copies leave.
  pub record Copied (r : Resampler S) (must_read : ℕ) (f : Filled S) (r1 : Resampler S)
      : Type 0 where
    pub pointer : r1.data_ptr ≡ r.data_ptr + must_read + (length f.ptr - f.copy_size)
    pub room : r1.data_ptr ≤ length r1.frames
    pub content :
        take r1.data_ptr r1.frames
        ≡ take r.data_ptr r.frames ++ (f.temp_buf ++ drop f.copy_size f.ptr)
    pub frame : r1 ≡ record r { frames = r1.frames; data_ptr = r1.data_ptr }

  copied-Copied :
      (r : Resampler S) (must_read : ℕ) (f : Filled S) (buffer : List (List S))
      → r.data_ptr + must_read + (length f.ptr - f.copy_size) ≤ length buffer
      → r.data_ptr ≤ length r.frames
      → take r.data_ptr buffer ≡ take r.data_ptr r.frames
      → length f.temp_buf ≡ must_read
      → f.copy_size ≤ length f.ptr
      → Copied r must_read f (copied r must_read f buffer)
  copied-Copied r must_read f buffer room held kept size copy =
      elim (Bool-cases (ltb f.copy_size (length f.ptr))) [
        | inl e ↦
            subst (λ b. Copied r must_read f (if b then more else done)) (sym e)
              (record {
                pointer = refl;
                room = omega (arith, room, all, all_more, extra);
                content =
                    ap (λ k. take (r.data_ptr + must_read + k) more.frames) (sym extra)
                    ∙ (take-memcpy first (drop f.copy_size f.ptr) (r.data_ptr + must_read)
                          (omega (arith, all, room))
                        ∙ (ap (λ ys. ys ++ drop f.copy_size f.ptr) front
                            ∙ append_assoc (take r.data_ptr r.frames) f.temp_buf
                                (drop f.copy_size f.ptr)));
                frame = refl;
              })
        | inr e ↦
            let none_left : length f.ptr - f.copy_size ≡ 0 = ground (arith, e) in
            subst (λ b. Copied r must_read f (if b then more else done)) (sym e)
              (record {
                pointer = omega (arith, none_left);
                room = omega (arith, room, all);
                content =
                    front
                    ∙ ap (λ ys. take r.data_ptr r.frames ++ ys)
                        (sym (append-nil f.temp_buf)
                          ∙ ap (λ ys. f.temp_buf ++ ys)
                              (sym (drop_all f.copy_size f.ptr (omega (arith, none_left)))));
                frame = refl;
              })
      ]
    where
      first : List (List S)
      first = memcpy buffer r.data_ptr f.temp_buf

      more : Resampler S
      more = record r {
        frames = memcpy first (r.data_ptr + must_read) (drop f.copy_size f.ptr);
        data_ptr = r.data_ptr + must_read + (length f.ptr - f.copy_size);
      }

      done : Resampler S
      done = record r { frames = first; data_ptr = r.data_ptr + must_read }

      extra : length (drop f.copy_size f.ptr) ≡ length f.ptr - f.copy_size
      extra = length-drop f.copy_size f.ptr

      all : length first ≡ length buffer
      all = length-memcpy buffer f.temp_buf r.data_ptr (omega (arith, size, room))

      all_more : length more.frames ≡ length first
      all_more =
          length-memcpy first (drop f.copy_size f.ptr) (r.data_ptr + must_read)
            (omega (arith, all, extra, room))

      front : take (r.data_ptr + must_read) first ≡ take r.data_ptr r.frames ++ f.temp_buf
      front =
          ap (λ k. take (r.data_ptr + k) first) (sym size)
          ∙ (take-memcpy buffer f.temp_buf r.data_ptr (omega (arith, room))
              ∙ ap (λ ys. ys ++ f.temp_buf) kept)

  -- With the frames that the loop has read the buffer holds the input to its new end.
  pub absorbed-Holds :
      (stream : List (List S)) (r : Resampler S) (must_read : ℕ) (input : List (List (List S)))
      (f : Filled S)
      → Holds stream r
      → (t : Took must_read input [] f)
      → Holds (stream ++ joined t.taken) (absorbed r must_read f)
        × (r.data_ptr + must_read ≤ (absorbed r must_read f).data_ptr)
        × (absorbed r must_read f ≡ record r {
          frames = (absorbed r must_read f).frames;
          data_ptr = (absorbed r must_read f).data_ptr;
        })
  absorbed-Holds stream r must_read input f h t = (
    record {
      fits = c.room;
      size = omega (
        arith,
        length-append stream (joined t.taken),
        h.size,
        c.pointer,
        taken,
        ap {A = Resampler S} (λ s. s.sum_input_frames) c.frame,
      );
      same =
          c.content
          ∙ (ap (λ ys. take r.data_ptr r.frames ++ ys) t.content
              ∙ (ap (λ ys. ys ++ joined t.taken) h.same
                  ∙ (sym (
                        drop-append r.sum_input_frames stream (joined t.taken)
                          (omega (arith, h.size)))
                      ∙ ap (λ n. drop n (stream ++ joined t.taken))
                          (sym (ap {A = Resampler S} (λ s. s.sum_input_frames) c.frame)))));
      behind =
          subst {A = Resampler S} (λ s. s.sum_input_frames ≤ s.ratio.reached s.sum_output_frames)
            (sym c.frame) h.behind;
    },
    omega (arith, c.pointer),
    c.frame,
  )
    where
      need : ℕ
      need = r.data_ptr + f.has_read

      c : Copied r must_read f (absorbed r must_read f)
      c =
          let (room, longer) = enlarged-fits need r.frames in
          copied-Copied r must_read f (enlarged need r.frames) (omega (arith, room, t.extra)) h.fits
            (take-enlarged r.data_ptr need r.frames h.fits) t.size t.copy

      taken : length (joined t.taken) ≡ must_read + (length f.ptr - f.copy_size)
      taken = omega (
        arith,
        ap length t.content,
        length-append f.temp_buf (drop f.copy_size f.ptr),
        t.size,
        length-drop f.copy_size f.ptr,
      )

  -- What is used leaves the buffer.
  pub shifted-Holds :
      (stream : List (List S)) (r : Resampler S) (frames used : ℕ)
      → Holds stream r
      → used ≤ r.data_ptr
      → r.sum_input_frames + used ≤ r.ratio.reached (r.sum_output_frames + frames)
      → Holds stream (shifted r frames used)
  shifted-Holds stream r frames used h le behind = record {
    fits = omega (arith, kept, size, h.fits);
    size = omega (arith, h.size, le);
    same =
        ap (λ k. take k (memcpy r.frames 0 moved)) (sym size)
        ∙ (ap (λ k. take k (memcpy r.frames 0 moved)) (zero_add (length moved))
            ∙ (take-memcpy r.frames moved 0 (omega arith)
                ∙ (sym (drop-take used (r.data_ptr - used) r.frames)
                    ∙ (ap (λ k. drop used (take k r.frames)) whole
                        ∙ (ap (drop used) h.same ∙ drop-drop used r.sum_input_frames stream)))));
    behind = behind;
  }
    where
      moved : List (List S)
      moved = bytes_at r.frames used (r.data_ptr - used)

      size : length moved ≡ r.data_ptr - used
      size = omega (
        arith,
        length-take (r.data_ptr - used) (drop used r.frames),
        length-drop used r.frames,
        h.fits,
      )

      kept : length (memcpy r.frames 0 moved) ≡ length r.frames
      kept = length-memcpy r.frames moved 0 (omega (arith, size, h.fits))

      whole : used + (r.data_ptr - used) ≡ r.data_ptr
      whole = omega (arith, le)

      zero_add : (n : ℕ) → n ≡ 0 + n
      zero_add n = omega arith
