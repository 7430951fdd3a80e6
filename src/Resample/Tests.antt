-- ===== src/Resample/Tests.antt =====
-- The resampler of src/resampler.c at concrete inputs, with numbers for samples.
use rsound.Base.{◌≡◌, refl, ℕ, ◌+◌, ◌-◌, ◌*◌, ◌/◌, true, some, List, [], ◌∷◌, arith}
use rsound.Resample.{
  Float, Ratio, Resampler, undefined, given, resampler_new, resampler_get_required_frames, fill,
  channel_values, value, poly_create_3, output_frame, resampler_process, frames_used,
  resampler_cb_read,
}
use rsound.Resample.Window.{Rounds}
use rsound.Resample.Read.{Resampled, resampler_cb_read-Resampled}

-- Operations on whole numbers, without the halves and the negative ones.
abbrev numbers : Float ℕ
numbers = record {
  plus = λ a b. a + b;
  minus = λ a b. a - b;
  times = λ a b. a * b;
  divided = λ a b. a / b;
  nought = 0;
  two = 2;
  half = 0;
  minus_one_and_half = 0;
}

-- Exact quotients, the ratio being `num / den`.
abbrev exact : ℕ → ℕ → Ratio ℕ
exact num den = record {
  reached = λ x. x * den / num;
  required = λ x. x * den / num + 2;
  fraction = λ x. 0;
  fraction_and_one = λ x. 1;
}

-- A resampler for one channel whose output has `num` frames for `den` of the input.
abbrev mono : ℕ → ℕ → Resampler ℕ
mono num den = record {
  frames = [];
  ratio = exact num den;
  data_ptr = 0;
  channels = 1;
  sum_output_frames = 0;
  sum_input_frames = 0;
}

new_mono : resampler_new true true (exact 2 1) 1 ≡ some (mono 2 1)
unfolding resampler_new
new_mono = refl

-- Six frames in three pieces.
abbrev input : List (List (List ℕ))
input =
    ((10 ∷ []) ∷ (20 ∷ []) ∷ []) ∷ ((30 ∷ []) ∷ (40 ∷ []) ∷ (50 ∷ []) ∷ []) ∷ ((60 ∷ []) ∷ []) ∷ []

exact-Rounds : Rounds (exact 1 1)
exact-Rounds = record { mono = λ x y h. omega arith; two_more = λ x. omega arith }

resampler_cb_read-Resampled_example :
    Resampled numbers true [] (mono 1 1) 2 input (resampler_cb_read numbers true input (mono 1 1) 2)
resampler_cb_read-Resampled_example =
    resampler_cb_read-Resampled numbers true [] (mono 1 1) 2 input exact-Rounds
      (record { fits = omega arith; size = refl; same = refl; behind = omega arith }) (omega arith)
      (omega arith) (omega arith)

-- Two pieces are taken for two frames; what follows the frame last used stays.
reads_two :
    (out : List (List ℕ)) × (r : Resampler ℕ) × (resampler_cb_read numbers true input (mono 1 1) 2
      ≡ given out r (((60 ∷ []) ∷ []) ∷ []))
    × (r.data_ptr ≡ 4)
    × (r.sum_input_frames ≡ 1)
unfolding resampler_cb_read resampler_get_required_frames fill resampler_process output_frame
    frames_used value poly_create_3 channel_values
reads_two = (_, _, refl, refl, refl)

-- A read of one frame that is less than one of the input leaves the buffer.
reads_outside : resampler_cb_read numbers true input (mono 2 1) 1 ≡ undefined
unfolding resampler_cb_read resampler_get_required_frames fill resampler_process output_frame
reads_outside = refl
