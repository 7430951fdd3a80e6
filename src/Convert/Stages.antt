-- ===== src/Convert/Stages.antt =====
-- The stages of `audio_converter` of src/audio.c on a buffer that begins with the bytes of samples.
use mathlib.Core.Path.{fun_ext}
use rsound.Base.{
  none, ℕ, ◌+◌, ◌-◌, ◌*◌, ◌%◌, ◌^◌, ◌<◌, ◌≡◌, refl, sym, ap, ◌∙◌, Bool, not, List, [], ◌∷◌, ◌++◌,
  map, arith, length, take, drop, length-append,
}
use rsound.Endian.{swap_endian_16, swap_endian_32}
use rsound.Convert.Loops.{each16, each32, expand, shrink}
use rsound.Convert.Samples.{words16, words32, Below}
use rsound.Convert.LoopLaws.{each16-words16, each32-words32, each16-swap, each32-swap}
use rsound.Convert.InPlace.{expand_lem, s32_to_s16_reads_outside}
use rsound.Convert.Words.{length-words16, length-words32, live_lem, take_live, length-map}

-- The two ways of the source to take half the range off, and of the model to add it.
flip16 : (x : ℕ) → (x + 2 ^ 16 - 2 ^ 15) % 2 ^ 16 ≡ (x + 2 ^ 15) % 2 ^ 16
flip16 x = omega arith

flip32 : (x : ℕ) → (x + 2 ^ 32 - 2 ^ 31) % 2 ^ 32 ≡ (x + 2 ^ 31) % 2 ^ 32
flip32 x = omega arith

-- 16-bit samples: the stages on the live bytes.
module _ (host : Bool) (vs junk : List ℕ) (h : Below (2 ^ 16) vs) where
  size16 :
      (a b : Bool) (ws : List ℕ)
      → length ws ≡ length vs
      → length (words16 a vs) ≡ length (words16 b ws)
  size16 a b ws e = omega (arith, length-words16 a vs, length-words16 b ws, e)

  pub swapped16 :
      (order : Bool)
      → let n = length (words16 order vs) in
        let c = words16 (not host) vs ++ junk in
        each16 host swap_endian_16 (take n c) ++ drop n c ≡ words16 host vs ++ junk
  swapped16 order =
      live_lem (each16 host swap_endian_16) (words16 (not host) vs) (words16 host vs) junk _
        (size16 order (not host) vs refl) (each16-swap host vs h)

  pub flipped16 :
      (order : Bool)
      → let n = length (words16 order vs) in
        let c = words16 host vs ++ junk in
        take n (each16 host (λ x. (x + 2 ^ 16 - 2 ^ 15) % 2 ^ 16) (take n c) ++ drop n c)
        ≡ words16 host (map (λ v. (v + 2 ^ 15) % 2 ^ 16) vs)
  flipped16 order =
      rw
        (live_lem (each16 host (λ x. (x + 2 ^ 16 - 2 ^ 15) % 2 ^ 16)) (words16 host vs) _ junk _
          (size16 order host vs refl)
          (each16-words16 host _ vs h ∙ ap (λ f. words16 host (map f vs)) (fun_ext flip16)))
        (take_live _ junk _ (size16 order host _ (length-map _ vs)))

  pub taken16 :
      (order : Bool) → take (length (words16 order vs)) (words16 host vs ++ junk) ≡ words16 host vs
  taken16 order = take_live (words16 host vs) junk _ (size16 order host vs refl)

-- 32-bit samples.
module _ (host : Bool) (vs junk : List ℕ) (h : Below (2 ^ 32) vs) where
  size32 :
      (a b : Bool) (ws : List ℕ)
      → length ws ≡ length vs
      → length (words32 a vs) ≡ length (words32 b ws)
  size32 a b ws e = omega (arith, length-words32 a vs, length-words32 b ws, e)

  pub swapped32 :
      (order : Bool)
      → let n = length (words32 order vs) in
        let c = words32 (not host) vs ++ junk in
        each32 host swap_endian_32 (take n c) ++ drop n c ≡ words32 host vs ++ junk
  swapped32 order =
      live_lem (each32 host swap_endian_32) (words32 (not host) vs) (words32 host vs) junk _
        (size32 order (not host) vs refl) (each32-swap host vs h)

  pub flipped32 :
      (order : Bool)
      → let n = length (words32 order vs) in
        let c = words32 host vs ++ junk in
        each32 host (λ x. (x + 2 ^ 32 - 2 ^ 31) % 2 ^ 32) (take n c) ++ drop n c
        ≡ words32 host (map (λ v. (v + 2 ^ 31) % 2 ^ 32) vs) ++ junk
  flipped32 order =
      live_lem (each32 host (λ x. (x + 2 ^ 32 - 2 ^ 31) % 2 ^ 32)) (words32 host vs) _ junk _
        (size32 order host vs refl)
        (each32-words32 host _ vs h ∙ ap (λ f. words32 host (map f vs)) (fun_ext flip32))

  -- The narrowing at the end, of as many samples as there are bytes.
  pub shrunk32 :
      (order : Bool) (ws : List ℕ)
      → 0 < length vs
      → length junk ≡ length (words32 order vs)
      → length ws ≡ length vs
      → shrink host (words32 host ws ++ junk) (length (words32 order vs)) 0 ≡ none
  shrunk32 order ws some_samples room same =
      s32_to_s16_reads_outside host (length (words32 order vs)) (words32 host ws ++ junk)
        (omega (arith, length-words32 order vs))
        (omega (
          arith,
          length-append (words32 host ws) junk,
          length-words32 host ws,
          length-words32 order vs,
          room,
          same,
        ))

-- Bytes: each becomes a word.
module _ (host : Bool) (g : ℕ → ℕ) (vs ws junk : List ℕ) where
  pub expanded8 :
      length ws ≡ length vs
      → length junk ≡ length vs
      → take (length vs * 2) (expand host g (ws ++ junk) (length vs)) ≡ words16 host (map g ws)
  expanded8 same room =
      rw
        (
          expand_lem host g (length vs) (ws ++ junk)
              (omega (arith, length-append ws junk, room, same)),
          take_live ws junk (length vs) (sym same),
        )
        (take_live (words16 host (map g ws)) _ _
          (omega (arith, length-words16 host (map g ws), length-map g ws, same)))

pub Below-map :
    (f : ℕ → ℕ) (m n : ℕ) (vs : List ℕ)
    → ((x : ℕ) → x < m → f x < n)
    → Below m vs
    → Below n (map f vs)
Below-map f m n [] e h = tt
Below-map f m n (v ∷ vs) e h = (e v h.0, Below-map f m n vs e h.1)
