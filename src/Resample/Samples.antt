-- ===== src/Resample/Samples.antt =====
-- The conversions between samples and floats of src/resampler.c. `in[i] + 0.5` as an integer, and an
-- integer as a float, are arguments.
use rsound.Base.{ℕ, ◌-◌, List, [], ◌∷◌, map, if◌then◌else◌, arith}
use rsound.Base.Int.{ℤ, pos, negsuc, ltb_ℤ, ◌≤ℤ◌}

-- The value kept from `- top` to `top - 1`.
abbrev pub limited : ℕ → ℤ → ℤ
limited top n =
    if ltb_ℤ (pos (top - 1)) n
    then pos (top - 1)
    else if ltb_ℤ n (negsuc (top - 1))
    then negsuc (top - 1)
    else n

-- `resampler_float_to_s16` and `resampler_float_to_s32`
unfoldable pub resampler_float_to_s16 : {S : Type 0} → (S → ℤ) → List S → List ℤ
resampler_float_to_s16 rounded samples = map (λ s. limited 0x7fff (rounded s)) samples

unfoldable pub resampler_float_to_s32 : {S : Type 0} → (S → ℤ) → List S → List ℤ
resampler_float_to_s32 rounded samples = map (λ s. limited 0x7fffffff (rounded s)) samples

-- `resampler_s16_to_float` and `resampler_s32_to_float`
unfoldable pub resampler_s16_to_float : {S : Type 0} → (ℤ → S) → List ℤ → List S
resampler_s16_to_float to_float samples = map to_float samples

unfoldable pub resampler_s32_to_float : {S : Type 0} → (ℤ → S) → List ℤ → List S
resampler_s32_to_float to_float samples = map to_float samples

-- Every sample lies within.
abbrev pub Within : ℕ → List ℤ → Type 0
Within top [] = Unit
Within top (n ∷ ns) = (negsuc (top - 1) ≤ℤ n) × (n ≤ℤ pos (top - 1)) × Within top ns

limited-Within :
    (top : ℕ) (n : ℤ) → (negsuc (top - 1) ≤ℤ limited top n) × (limited top n ≤ℤ pos (top - 1))
limited-Within top n = ground arith

-- The samples of 16 bits that go to the backend are from -32767 to 32766, whatever the resampler has
-- computed.
float_to_s16-Within :
    {S : Type 0} (rounded : S → ℤ) (samples : List S)
    → Within 0x7fff (resampler_float_to_s16 rounded samples)
unfolding resampler_float_to_s16
float_to_s16-Within rounded [] = tt
float_to_s16-Within rounded (s ∷ samples) =
    let (low, high) = limited-Within 0x7fff (rounded s) in
    (low, high, float_to_s16-Within rounded samples)
