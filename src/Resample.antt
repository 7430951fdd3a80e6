-- ===== src/Resample.antt =====
-- src/resampler.c: the resampler of the server. Its buffer is a list of frames, each frame the list
-- of the samples of the channels, so that the counts of samples in the source are counts of frames
-- here; a frame not written yet has no samples. What the source computes in doubles from a count of
-- frames and the ratio is a parameter, as are the operations on samples. The function that gives the input is the list of what it gives, in
-- which nothing stands for its end.
pub mod Fill
pub mod Buffer
pub mod Window
pub mod Read
pub mod Samples
mod Tests
use rsound.Base.{
  ℕ, zero, suc, ◌+◌, ◌-◌, ◌*◌, ◌/◌, Bool, true, false, ◌&&◌, not, Option, none, some, List, [], ◌∷◌,
  ◌++◌, ◌==◌, ltb, if◌then◌else◌, length, get_or, take, drop, replicate, memcpy, bytes_at,
}
use rsound.Fifo.Size.{add_size, sub_size}

-- The operations on samples and the constants 0, 2, 0.5 and -1.5.
pub record Float (S : Type 0) : Type 0 where
  pub plus : S → S → S
  pub minus : S → S → S
  pub times : S → S → S
  pub divided : S → S → S
  pub nought : S
  pub two : S
  pub half : S
  pub minus_one_and_half : S

-- The rounded quotient of a count of output frames and the ratio, a double: its whole part, the
-- whole part of its sum with 2.0, its fraction, and the fraction with 1.0 added. `pos_in` is this
-- quotient less `sum_input_frames`; where it is not negative this difference is exact, so that its
-- whole part is the difference of the whole parts and its fraction is the same.
pub record Ratio (S : Type 0) : Type 0 where
  pub reached : ℕ → ℕ
  pub required : ℕ → ℕ
  pub fraction : ℕ → S
  pub fraction_and_one : ℕ → S

-- `struct resampler`, less the callback; `data_size` is the length of `frames`.
pub record Resampler (S : Type 0) : Type 0 where
  pub frames : List (List S)
  pub ratio : Ratio S
  pub data_ptr : ℕ
  pub channels : ℕ
  pub sum_output_frames : ℕ
  pub sum_input_frames : ℕ

-- What the loop that reads leaves: `temp_buf`, `has_read`, the last frames given with how many of
-- them were copied, and what is still to be given.
pub record Filled (S : Type 0) : Type 0 where
  pub temp_buf : List (List S)
  pub has_read : ℕ
  pub ptr : List (List S)
  pub copy_size : ℕ
  pub later : List (List (List S))

-- What is returned: -1, or the output; or nothing, where the source leaves the buffer.
pub data Outcome (S : Type 0) : Type 0 where
  failed undefined : Outcome S
  given : List (List S) → Resampler S → List (List (List S)) → Outcome S

module _ {S : Type 0} where
  -- `resampler_new`: whether there is a callback, and whether `calloc` succeeds.
  unfoldable pub resampler_new : Bool → Bool → Ratio S → ℕ → Option (Resampler S)
  resampler_new func memory ratio channels =
      if func && ltb 0 channels && memory
      then some (record {
        frames = [];
        ratio = ratio;
        data_ptr = 0;
        channels = channels;
        sum_output_frames = 0;
        sum_input_frames = 0;
      })
      else none

  -- `resampler_get_required_frames`
  unfoldable pub resampler_get_required_frames : Resampler S → ℕ → ℕ
  resampler_get_required_frames r frames =
      let after_sum = add_size r.sum_output_frames frames in
      sub_size (r.ratio.required after_sum) r.sum_input_frames

  -- `while (has_read < must_read)`, entered with some frames to read.
  pub fill : ℕ → List (List (List S)) → List (List S) → ℕ → Option (Filled S)
  fill must_read [] temp_buf has_read = none
  fill must_read (ptr ∷ later) temp_buf has_read =
      let ret = length ptr in
      let copy_size = if ltb (must_read - has_read) ret then must_read - has_read else ret in
      let temp = memcpy temp_buf has_read (take copy_size ptr) in
      let more = fill must_read later temp (has_read + ret) in
      if ret == 0
      then none
      else if ltb (has_read + ret) must_read
      then more
      else some (record {
        temp_buf = temp;
        has_read = has_read + ret;
        ptr = ptr;
        copy_size = copy_size;
        later = later;
      })

  -- `realloc`, where the buffer is too small.
  abbrev pub enlarged : ℕ → List (List S) → List (List S)
  enlarged req_buffer_frames frames =
      if ltb (length frames) req_buffer_frames
      then frames ++ replicate (req_buffer_frames - length frames) []
      else frames

  -- The copies into the buffer.
  abbrev pub copied : Resampler S → ℕ → Filled S → List (List S) → Resampler S
  copied r must_read f buffer =
      let frames = memcpy buffer r.data_ptr f.temp_buf in
      let data_ptr = r.data_ptr + must_read in
      if ltb f.copy_size (length f.ptr)
      then record r {
        frames = memcpy frames data_ptr (drop f.copy_size f.ptr);
        data_ptr = data_ptr + (length f.ptr - f.copy_size);
      }
      else record r { frames = frames; data_ptr = data_ptr }

  abbrev pub absorbed : Resampler S → ℕ → Filled S → Resampler S
  absorbed r must_read f = copied r must_read f (enlarged (r.data_ptr + f.has_read) r.frames)

  abbrev pub needs_realloc : Resampler S → Filled S → Bool
  needs_realloc r f = ltb (length r.frames) (r.data_ptr + f.has_read)

module _ {S : Type 0} where
  -- `(int)pos_in` of an output frame.
  abbrev pub whole : Resampler S → ℕ → ℕ
  whole r x = r.ratio.reached x - r.sum_input_frames

  -- One output frame before the others.
  abbrev pub join : Option (List S) → Option (List (List S)) → Option (List (List S))
  join none fs = none
  join (some f) none = none
  join (some f) (some fs) = some (f ∷ fs)

  -- The frames that `resampler_process` has used.
  unfoldable pub frames_used : Resampler S → ℕ → ℕ
  frames_used r zero = 0
  frames_used r (suc n) = whole r (r.sum_output_frames + n)

  -- The end of `resampler_cb_read`: what is used leaves the buffer.
  abbrev pub shifted : Resampler S → ℕ → ℕ → Resampler S
  shifted r frames used = record r {
    frames = memcpy r.frames 0 (bytes_at r.frames used (r.data_ptr - used));
    data_ptr = r.data_ptr - used;
    sum_input_frames = r.sum_input_frames + used;
    sum_output_frames = r.sum_output_frames + frames;
  }

  abbrev pub finish : Resampler S → ℕ → List (List (List S)) → Option (List (List S)) → Outcome S
  finish r frames later none = undefined
  finish r frames later (some out) =
      if ltb r.data_ptr (frames_used r frames)
      then undefined
      else given out (shifted r frames (frames_used r frames)) later

module _ {S : Type 0} (float : Float S) where
  -- `poly_create_3`, and its value.
  unfoldable pub poly_create_3 : S → S → S → S × S × S
  poly_create_3 y0 y1 y2 = (
    y0,
    float.minus (float.plus (float.times float.minus_one_and_half y0) (float.times float.two y1))
        (float.times float.half y2),
    float.divided (float.plus (float.minus y0 (float.times float.two y1)) y2) float.two,
  )

  unfoldable pub value : S × S × S → S → S
  value (p0, p1, p2) x =
      float.plus (float.plus (float.times (float.times p2 x) x) (float.times p1 x)) p0

  -- For each channel from `c` on, the polynomial through the samples of three frames.
  pub channel_values : ℕ → ℕ → List S → List S → List S → S → List S
  channel_values zero c f0 f1 f2 x = []
  channel_values (suc n) c f0 f1 f2 x =
      value
        (poly_create_3 (get_or f0 c float.nought) (get_or f1 c float.nought)
          (get_or f2 c float.nought))
        x
      ∷ channel_values n (suc c) f0 f1 f2 x

  -- The frames from `w` on, with the position `x` in them; `none` is outside of the buffer.
  abbrev pub at_window : Resampler S → ℕ → S → Option (List S)
  at_window r w x =
      if ltb (w + 2) (length r.frames)
      then some (
          channel_values r.channels 0 (get_or r.frames w []) (get_or r.frames (w + 1) [])
            (get_or r.frames (w + 2) []) x)
      else none

  -- The body of the loop of `resampler_process`; a position before the buffer is `none`.
  unfoldable pub output_frame : Resampler S → ℕ → Option (List S)
  output_frame r x =
      if ltb (r.ratio.reached x) r.sum_input_frames
      then none
      else if whole r x == 0
      then at_window r 0 (r.ratio.fraction x)
      else at_window r (whole r x - 1) (r.ratio.fraction_and_one x)

  -- `resampler_process`, from output frame `x` on.
  pub resampler_process : Resampler S → ℕ → ℕ → Option (List (List S))
  resampler_process r zero x = some []
  resampler_process r (suc n) x = join (output_frame r x) (resampler_process r n (suc x))

  abbrev pub process_all : Resampler S → ℕ → List (List (List S)) → Outcome S
  process_all r frames later =
      finish r frames later (resampler_process r frames r.sum_output_frames)

  abbrev pub with_filled : Bool → Resampler S → ℕ → ℕ → Option (Filled S) → Outcome S
  with_filled memory r frames must_read none = failed
  with_filled memory r frames must_read (some f) =
      if needs_realloc r f && not memory
      then failed
      else process_all (absorbed r must_read f) frames f.later

  -- `resampler_cb_read`: whether `realloc` succeeds, and what the callback will give.
  unfoldable pub resampler_cb_read : Bool → List (List (List S)) → Resampler S → ℕ → Outcome S
  resampler_cb_read memory input r frames =
      let req_frames = resampler_get_required_frames r frames in
      let must_read = req_frames - r.data_ptr in
      if ltb r.data_ptr req_frames
      then with_filled memory r frames must_read (fill must_read input (replicate must_read []) 0)
      else process_all r frames input
