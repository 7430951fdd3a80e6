-- ===== src/Resample/Read.antt =====
-- `resampler_cb_read` of src/resampler.c: what it returns, and what it leaves.
use mathlib.Core.List.{append-nil}
use mathlib.Core.Path.{subst}
use rsound.Base.{
  ℕ, ◌+◌, ◌-◌, ◌^◌, ◌≤◌, ◌<◌, ◌≡◌, refl, sym, ap, ◌∙◌, Bool, true, false, not, ◌&&◌, Option, none,
  some, List, [], ◌++◌, ltb, if◌then◌else◌, length, replicate, arith, length-replicate, ltb→lt,
}
use rsound.Fifo.Size.{add_size, sub_size}
use rsound.Resample.{
  Float, Resampler, Filled, Outcome, failed, undefined, given, resampler_get_required_frames,
  absorbed, needs_realloc, frames_used, shifted, finish, process_all, with_filled,
  resampler_cb_read,
}
use rsound.Resample.Fill.{Fills, Supplies, joined, fill-Fills}
use rsound.Resample.Buffer.{Holds, absorbed-Holds, shifted-Holds}
use rsound.Resample.Window.{Rounds, Enough, AllInterpolate, resampler_process_lem, frames_used_lem}

module _ {S : Type 0} where
  -- The frames asked for, where nothing wraps.
  required_lem :
      (r : Resampler S) (frames : ℕ)
      → r.sum_output_frames + frames < 2 ^ 64
      → r.ratio.required (r.sum_output_frames + frames) < 2 ^ 64
      → r.sum_input_frames ≤ r.ratio.required (r.sum_output_frames + frames)
      → resampler_get_required_frames r frames
        ≡ r.ratio.required (r.sum_output_frames + frames) - r.sum_input_frames
  unfolding resampler_get_required_frames
  required_lem r frames small fits behind =
      let after = r.sum_output_frames + frames in
      let sum : add_size r.sum_output_frames frames ≡ after = omega (arith, small) in
      ap (λ k. sub_size (r.ratio.required k) r.sum_input_frames) sum ∙ omega (arith, fits, behind)

  enough_lem :
      (stream : List (List S)) (r : Resampler S) (frames : ℕ)
      → Rounds r.ratio
      → Holds stream r
      → r.ratio.reached r.sum_output_frames < r.ratio.reached (r.sum_output_frames + frames)
      → r.ratio.required (r.sum_output_frames + frames) - r.sum_input_frames ≤ r.data_ptr
      → Enough r (r.sum_output_frames + frames)
  enough_lem stream r frames round h wide held =
      let two = round.two_more (r.sum_output_frames + frames) in
      (omega (arith, two, h.behind, wide, held), omega (arith, two, held))

module _ {S : Type 0} (float : Float S) where
  -- What a read from the state `r`, whose input so far is `stream`, may give: never an access
  -- outside of the buffer; -1 only where memory or the input ends; or the output and the new state.
  pub record Given (stream : List (List S)) (r : Resampler S) (frames : ℕ)
      (input : List (List (List S))) (out : List (List S)) (r1 : Resampler S)
      (later : List (List (List S))) : Type 0 where
    pub taken : List (List (List S))
    pub split : input ≡ taken ++ later
    pub holds : Holds (stream ++ joined taken) r1
    pub advanced : r1 ≡ record r {
      frames = r1.frames;
      data_ptr = r1.data_ptr;
      sum_input_frames = r1.sum_input_frames;
      sum_output_frames = r.sum_output_frames + frames;
    }
    pub size : length out ≡ frames
    pub output :
        AllInterpolate float (stream ++ joined taken) r.ratio r.channels r.sum_output_frames out

  abbrev pub Resampled :
      Bool → List (List S) → Resampler S → ℕ → List (List (List S)) → Outcome S → Type 0
  Resampled memory stream r frames input undefined = ⊥
  Resampled memory stream r frames input failed =
      memory ≡ true → Supplies (resampler_get_required_frames r frames - r.data_ptr) input → ⊥
  Resampled memory stream r frames input (given out r1 later) =
      Given stream r frames input out r1 later

  if-Resampled :
      (b : Bool) (memory : Bool) (stream : List (List S)) (r : Resampler S) (frames : ℕ)
      (input : List (List (List S))) (o p : Outcome S)
      → (b ≡ true → Resampled memory stream r frames input o)
      → (b ≡ false → Resampled memory stream r frames input p)
      → Resampled memory stream r frames input (if b then o else p)
  if-Resampled true memory stream r frames input o p h k = h refl
  if-Resampled false memory stream r frames input o p h k = k refl

  -- From a buffer with enough frames on.
  process_all_lem :
      (stream : List (List S)) (r : Resampler S) (frames : ℕ) (later : List (List (List S)))
      → Rounds r.ratio
      → Holds stream r
      → Enough r (r.sum_output_frames + frames)
      → (out : List (List S)) × (process_all float r frames later
          ≡ given out (shifted r frames (frames_used r frames)) later)
        × (length out ≡ frames)
        × AllInterpolate float stream r.ratio r.channels r.sum_output_frames out
        × Holds stream (shifted r frames (frames_used r frames))
  process_all_lem stream r frames later round h e =
      let (out, same, size, inters) =
        resampler_process_lem float stream r frames r.sum_output_frames
          (r.sum_output_frames + frames) round h e (omega arith) (omega arith) in
      let (used, behind) = frames_used_lem float stream r frames round h e in
      let inside : ltb r.data_ptr (frames_used r frames) ≡ false = ground (arith, used) in
      let result = given out (shifted r frames (frames_used r frames)) later in
      (
        out,
        ap (finish r frames later) same ∙ ap (λ b. if b then undefined else result) inside,
        size,
        inters,
        shifted-Holds stream r frames (frames_used r frames) h used behind,
      )

  module _ (memory : Bool) (stream : List (List S)) (r : Resampler S) (frames : ℕ)
      (input : List (List (List S))) (round : Rounds r.ratio) (h : Holds stream r)
      (wide : r.ratio.reached r.sum_output_frames < r.ratio.reached (r.sum_output_frames + frames))
      (small : r.sum_output_frames + frames < 2 ^ 64)
      (fits : r.ratio.required (r.sum_output_frames + frames) < 2 ^ 64) where
    needed :
        resampler_get_required_frames r frames
        ≡ r.ratio.required (r.sum_output_frames + frames) - r.sum_input_frames
    needed =
        required_lem r frames small fits
          (omega (arith, h.behind, wide, round.two_more (r.sum_output_frames + frames)))

    -- With nothing to read.
    held-Resampled :
        ltb r.data_ptr (resampler_get_required_frames r frames) ≡ false
        → Resampled memory stream r frames input (process_all float r frames input)
    held-Resampled e =
        let need = needed in
        let (out, same, size, inters, holds) =
          process_all_lem stream r frames input round h
            (enough_lem stream r frames round h wide (ground (arith, e, need))) in
        subst (Resampled memory stream r frames input) (sym same) (record {
          taken = [];
          split = refl;
          holds =
              subst (λ ys. Holds ys (shifted r frames (frames_used r frames)))
                (sym (append-nil stream)) holds;
          advanced = refl;
          size = size;
          output =
              subst (λ ys. AllInterpolate float ys r.ratio r.channels r.sum_output_frames out)
                (sym (append-nil stream)) inters;
        })

    -- With what the loop has read.
    read-Resampled :
        (must_read : ℕ)
        → must_read ≡ resampler_get_required_frames r frames - r.data_ptr
        → r.data_ptr < resampler_get_required_frames r frames
        → (o : Option (Filled S)) → Fills must_read input [] o
        → Resampled memory stream r frames input (with_filled float memory r frames must_read o)
    read-Resampled must_read e short none starved = λ m s.
        let all : resampler_get_required_frames r frames - r.data_ptr ≡ must_read - 0 =
          omega (arith, e) in
        starved (subst (λ n. Supplies n input) all s)
    read-Resampled must_read e short (some f) t =
        if-Resampled (needs_realloc r f && not memory) memory stream r frames input failed _
          (λ no_memory m s. no_failure m no_memory) (λ ok. done)
      where
        no_failure : memory ≡ true → (needs_realloc r f && not memory) ≡ true → ⊥
        no_failure m n =
            by_need (needs_realloc r f) (ap (λ b. needs_realloc r f && not b) (sym m) ∙ n)
          where
            by_need : (b : Bool) → b && false ≡ true → ⊥
            by_need true h = absurd (cc)
            by_need false h = absurd (cc)

        r1 : Resampler S
        r1 = absorbed r must_read f

        done : Resampled memory stream r frames input (process_all float r1 frames f.later)
        done =
            let need = needed in
            let (holds, longer, frame) = absorbed-Holds stream r must_read input f h t in
            let round1 : Rounds r1.ratio =
              subst {A = Resampler S} (λ q. Rounds q.ratio) (sym frame) round in
            let enough_held : r1.ratio.required (r1.sum_output_frames + frames)
                  - r1.sum_input_frames
                ≤ r1.data_ptr =
              subst {A = Resampler S}
                (λ q.
                  q.ratio.required (q.sum_output_frames + frames) - q.sum_input_frames
                  ≤ r1.data_ptr)
                (sym frame) (omega (arith, need, e, longer, short)) in
            let wide1 : r1.ratio.reached r1.sum_output_frames
                < r1.ratio.reached (r1.sum_output_frames + frames) =
              subst {A = Resampler S}
                (λ q.
                  q.ratio.reached q.sum_output_frames
                  < q.ratio.reached (q.sum_output_frames + frames))
                (sym frame) wide in
            let (out, same, size, inters, after) =
              process_all_lem (stream ++ joined t.taken) r1 frames f.later round1 holds
                (enough_lem (stream ++ joined t.taken) r1 frames round1 holds wide1 enough_held) in
            subst (Resampled memory stream r frames input) (sym same) (record {
              taken = t.taken;
              split = t.split;
              holds = after;
              advanced =
                  ap {A = Resampler S} {B = Resampler S}
                    (λ q. record q {
                      frames = (shifted r1 frames (frames_used r1 frames)).frames;
                      data_ptr = (shifted r1 frames (frames_used r1 frames)).data_ptr;
                      sum_input_frames =
                          (shifted r1 frames (frames_used r1 frames)).sum_input_frames;
                      sum_output_frames = q.sum_output_frames + frames;
                    })
                    frame;
              size = size;
              output =
                  subst {A = Resampler S}
                    (λ q.
                      AllInterpolate float (stream ++ joined t.taken) q.ratio q.channels
                        q.sum_output_frames out)
                    frame inters;
            })

    -- Where rounding keeps the order of quotients and adding 2.0 gives no less than the whole part and
    -- 2: a read of output that reaches a later frame of the input, from a buffer that holds the input
    -- from some frame on, never reads outside of the buffer, where no count of frames reaches 2 ^ 64.
    -- It returns -1 only where `realloc` fails or the input ends before what is missing has come. Else
    -- it gives the `frames` output frames that follow those given before: each is the value of the
    -- polynomial that `poly_create_3` makes of three frames in a row of the whole input, at the fraction
    -- of its rounded position, which is in the first or the second of the three, however the input is
    -- cut into pieces; the buffer then holds the input, what has been read included, from a later
    -- frame on, none lost and none twice.
    pub resampler_cb_read-Resampled :
        Resampled memory stream r frames input (resampler_cb_read float memory input r frames)
    unfolding resampler_cb_read
    resampler_cb_read-Resampled =
        if-Resampled (ltb r.data_ptr (resampler_get_required_frames r frames)) memory stream r
          frames input _ _
          (λ e.
            let need = ltb→lt r.data_ptr (resampler_get_required_frames r frames) e in
            let must_read = resampler_get_required_frames r frames - r.data_ptr in
            read-Resampled must_read refl need _ (
              fill-Fills must_read input (replicate must_read []) [] (length-replicate must_read [])
                (omega (arith, need)) refl))
          held-Resampled
