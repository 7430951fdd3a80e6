-- ===== src/Resample/Window.antt =====
-- src/resampler.c: the frames that `resampler_process` reads for an output frame.
use rsound.Base.{
  ℕ, zero, suc, ◌+◌, ◌-◌, ◌≤◌, ◌<◌, ◌≡◌, ◌⊎◌, refl, sym, ap, ◌∙◌, true, false, Option, none, some,
  List, [], ◌∷◌, ◌==◌, ltb, if◌then◌else◌, length, get_or, arith, Bool-cases, inl, inr, get_or-take,
  get_or-drop, lt→ltb,
}
use rsound.Resample.{
  Float, Ratio, Resampler, channel_values, at_window, whole, output_frame, join, resampler_process,
  frames_used,
}
use rsound.Resample.Buffer.{Holds}

module _ {S : Type 0} where
  -- What the rounding of doubles keeps: the order of the quotients, and that adding 2.0 gives no less
  -- than the whole part and 2.
  pub record Rounds (ratio : Ratio S) : Type 0 where
    pub mono : (x y : ℕ) → x ≤ y → ratio.reached x ≤ ratio.reached y
    pub two_more : (x : ℕ) → ratio.reached x + 2 ≤ ratio.required x

  -- The buffer has the frames around each position before output frame `after`.
  abbrev pub Enough : Resampler S → ℕ → Type 0
  Enough r after = (3 ≤ r.data_ptr) × (r.ratio.reached after + 2 ≤ r.sum_input_frames + r.data_ptr)

module _ {S : Type 0} (float : Float S) where
  -- Output frame `x` stands in the input at the rounded quotient of `x` and the ratio, which is in
  -- frame `w`, the first of the input, or in the frame after `w`; its samples are those of the
  -- polynomial through the three frames from `w` on, all of which have been given.
  pub record Interpolates (stream : List (List S)) (ratio : Ratio S) (channels x : ℕ) (f : List S)
      : Type 0 where
    pub w : ℕ
    pub at : S
    pub place :
        ((w ≡ ratio.reached x) × (at ≡ ratio.fraction x))
        ⊎ ((w + 1 ≡ ratio.reached x) × (at ≡ ratio.fraction_and_one x))
    pub present : w + 2 < length stream
    pub samples :
        f
        ≡ channel_values float channels 0
            (get_or stream w [])
            (get_or stream (w + 1) [])
            (get_or stream (w + 2) [])
            at

  module _ (stream : List (List S)) (r : Resampler S) (h : Holds stream r) where
    frame_at :
        (i : ℕ) → i < r.data_ptr → get_or r.frames i [] ≡ get_or stream (r.sum_input_frames + i) []
    frame_at i lt =
        sym (ap (λ b. if b then get_or r.frames i [] else []) (lt→ltb i r.data_ptr lt))
        ∙ (sym (get_or-take r.data_ptr r.frames i [])
            ∙ (ap (λ ys. get_or ys i []) h.same ∙ get_or-drop r.sum_input_frames stream i []))

    -- A window in the buffer is one in the input.
    window_lem :
        (x i : ℕ) (v : S)
        → i + 2 < r.data_ptr
        → (((r.sum_input_frames + i ≡ r.ratio.reached x) × (v ≡ r.ratio.fraction x))
            ⊎ ((r.sum_input_frames + i + 1 ≡ r.ratio.reached x) × (v ≡ r.ratio.fraction_and_one x)))
        → (f : List S) × (at_window float r i v ≡ some f)
          × Interpolates stream r.ratio r.channels x f
    window_lem x i v fits place =
        let s = r.sum_input_frames in
        let inside : ltb (i + 2) (length r.frames) ≡ true =
          lt→ltb (i + 2) (length r.frames) (omega (arith, fits, h.fits)) in
        let one : s + (i + 1) ≡ s + i + 1 = omega arith in
        let two : s + (i + 2) ≡ s + i + 2 = omega arith in
        (
          channel_values float r.channels 0 (get_or r.frames i []) (get_or r.frames (i + 1) [])
              (get_or r.frames (i + 2) []) v,
          ap
              (λ b.
                if b
                then some (
                    channel_values float r.channels 0 (get_or r.frames i [])
                      (get_or r.frames (i + 1) []) (get_or r.frames (i + 2) []) v)
                else none)
              inside,
          record {
            w = s + i;
            at = v;
            place = place;
            present = omega (arith, h.size, fits);
            samples =
                ap
                  (λ f.
                    channel_values float r.channels 0 f (get_or r.frames (i + 1) [])
                      (get_or r.frames (i + 2) []) v)
                  (frame_at i (omega (arith, fits)))
                ∙ (ap
                      (λ f.
                        channel_values float r.channels 0 (get_or stream (s + i) []) f
                          (get_or r.frames (i + 2) []) v)
                      (frame_at (i + 1) (omega (arith, fits)) ∙ ap (λ k. get_or stream k []) one)
                    ∙ ap
                        (λ f.
                          channel_values float r.channels 0 (get_or stream (s + i) [])
                            (get_or stream (s + i + 1) []) f v)
                        (frame_at (i + 2) (omega (arith, fits))
                          ∙ ap (λ k. get_or stream k []) two));
          },
        )

    pub output_frame_lem :
        (x after : ℕ)
        → Rounds r.ratio
        → r.sum_output_frames ≤ x
        → x ≤ after
        → Enough r after
        → (f : List S) × (output_frame float r x ≡ some f)
          × Interpolates stream r.ratio r.channels x f
    unfolding output_frame
    output_frame_lem x after round from to (three, enough) = by_whole (Bool-cases (whole r x == 0))
      where
        s : ℕ
        s = r.sum_input_frames

        low : s ≤ r.ratio.reached x
        low = omega (arith, h.behind, round.mono r.sum_output_frames x from)

        room : r.ratio.reached x + 2 ≤ s + r.data_ptr
        room = omega (arith, enough, round.mono x after to)

        not_before : ltb (r.ratio.reached x) s ≡ false
        not_before = ground (arith, low)

        first : Option (List S)
        first = at_window float r 0 (r.ratio.fraction x)

        second : Option (List S)
        second = at_window float r (whole r x - 1) (r.ratio.fraction_and_one x)

        opened :
            (o : Option (List S))
            → (if whole r x == 0 then first else second) ≡ o
            → output_frame float r x ≡ o
        opened o e =
            ap (λ b. if b then none else if whole r x == 0 then first else second) not_before ∙ e

        by_whole :
            ((whole r x == 0) ≡ true) ⊎ ((whole r x == 0) ≡ false)
            → (f : List S) × (output_frame float r x ≡ some f)
              × Interpolates stream r.ratio r.channels x f
        by_whole (inl e) =
            let none_whole : whole r x ≡ 0 = ground (arith, e) in
            let (f, same, inter) =
              window_lem x 0 (r.ratio.fraction x) (omega (arith, three))
                (inl (omega (arith, none_whole, low), refl)) in
            (f, opened (some f) (ap (λ b. if b then first else second) e ∙ same), inter)
        by_whole (inr e) =
            let some_whole : 1 ≤ whole r x = ground (arith, e) in
            let (f, same, inter) =
              window_lem x (whole r x - 1) (r.ratio.fraction_and_one x)
                (omega (arith, room, some_whole)) (inr (omega (arith, some_whole, low), refl)) in
            (f, opened (some f) (ap (λ b. if b then first else second) e ∙ same), inter)

  -- The output frames from `x` on.
  abbrev pub AllInterpolate : List (List S) → Ratio S → ℕ → ℕ → List (List S) → Type 0
  AllInterpolate stream ratio channels x [] = Unit
  AllInterpolate stream ratio channels x (f ∷ fs) =
      Interpolates stream ratio channels x f × AllInterpolate stream ratio channels (suc x) fs

  pub resampler_process_lem :
      (stream : List (List S)) (r : Resampler S) (n x after : ℕ)
      → Rounds r.ratio
      → Holds stream r
      → Enough r after
      → r.sum_output_frames ≤ x
      → x + n ≤ after
      → (out : List (List S)) × (resampler_process float r n x ≡ some out)
        × (length out ≡ n)
        × AllInterpolate stream r.ratio r.channels x out
  unfolding resampler_process
  resampler_process_lem stream r zero x after round h e from to = ([], refl, refl, tt)
  resampler_process_lem stream r (suc n) x after round h e from to =
      let (f, same, inter) = output_frame_lem stream r h x after round from (omega arith) e in
      let (fs, more, size, inters) =
        resampler_process_lem stream r n (suc x) after round h e (omega arith) (omega arith) in
      (
        f ∷ fs,
        ap (λ o. join o (resampler_process float r n (suc x))) same ∙ ap (join (some f)) more,
        ap suc size,
        (inter, inters),
      )

  -- What is used of the buffer.
  pub frames_used_lem :
      (stream : List (List S)) (r : Resampler S) (frames : ℕ)
      → Rounds r.ratio
      → Holds stream r
      → Enough r (r.sum_output_frames + frames)
      → (frames_used r frames ≤ r.data_ptr)
        × (r.sum_input_frames + frames_used r frames
            ≤ r.ratio.reached (r.sum_output_frames + frames))
  unfolding frames_used
  frames_used_lem stream r zero round h (three, enough) =
      let up = round.mono r.sum_output_frames (r.sum_output_frames + 0) (omega arith) in
      (omega arith, omega (arith, h.behind, up))
  frames_used_lem stream r (suc n) round h (three, enough) =
      let x = r.sum_output_frames + n in
      let up = round.mono r.sum_output_frames x (omega arith) in
      let last = round.mono x (r.sum_output_frames + suc n) (omega arith) in
      (omega (arith, enough, last), omega (arith, h.behind, up, last))
