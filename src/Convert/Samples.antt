-- ===== src/Convert/Samples.antt =====
-- Samples as numbers, and the bytes that a list of them has in a buffer of src/audio.c.
use rsound.Base.{ℕ, ◌<◌, Bool, List, [], ◌∷◌, ◌++◌}
use rsound.Endian.{store16, store32}

-- Samples of 16 and of 32 bits in the byte order of a format.
abbrev pub words16 : Bool → List ℕ → List ℕ
words16 little [] = []
words16 little (v ∷ vs) = store16 little v ++ words16 little vs

abbrev pub words32 : Bool → List ℕ → List ℕ
words32 little [] = []
words32 little (v ∷ vs) = store32 little v ++ words32 little vs

-- Every sample fits the width.
abbrev pub Below : ℕ → List ℕ → Type 0
Below n [] = Unit
Below n (v ∷ vs) = (v < n) × Below n vs
