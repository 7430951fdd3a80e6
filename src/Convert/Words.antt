-- ===== src/Convert/Words.antt =====
-- Lemmas on buffers that begin with the bytes of samples, for the conversions of src/audio.c.
use rsound.Base.{
  ℕ, suc, ◌*◌, ◌<◌, ◌≡◌, refl, ap, ap₂, Bool, true, false, List, [], ◌∷◌, ◌++◌, map, arith, length,
  take, drop, take-length-append, drop-length-append,
}
use rsound.Convert.Samples.{words16, words32, Below}

pub length-words16 : (little : Bool) (vs : List ℕ) → length (words16 little vs) ≡ 2 * length vs
length-words16 little [] = refl
length-words16 true (v ∷ vs) = omega (arith, length-words16 true vs)
length-words16 false (v ∷ vs) = omega (arith, length-words16 false vs)

pub length-words32 : (little : Bool) (vs : List ℕ) → length (words32 little vs) ≡ 4 * length vs
length-words32 little [] = refl
length-words32 true (v ∷ vs) = omega (arith, length-words32 true vs)
length-words32 false (v ∷ vs) = omega (arith, length-words32 false vs)

-- A loop over the live bytes, which `a` are, before other bytes.
pub live_lem :
    (loop : List ℕ → List ℕ) (a b junk : List ℕ) (n : ℕ)
    → n ≡ length a
    → loop a ≡ b
    → loop (take n (a ++ junk)) ++ drop n (a ++ junk) ≡ b ++ junk
live_lem loop a b junk n e p = rw (e, take-length-append a junk, drop-length-append a junk, p)

pub take_live : (b junk : List ℕ) (n : ℕ) → n ≡ length b → take n (b ++ junk) ≡ b
take_live b junk n e = rw e (take-length-append b junk)

pub map_ext :
    (f g : ℕ → ℕ) (n : ℕ) (vs : List ℕ)
    → ((x : ℕ) → x < n → f x ≡ g x)
    → Below n vs
    → map f vs ≡ map g vs
map_ext f g n [] e h = refl
map_ext f g n (v ∷ vs) e h = ap₂ ◌∷◌ (e v h.0) (map_ext f g n vs e h.1)

pub map_id : (vs : List ℕ) → map (λ x. x) vs ≡ vs
map_id [] = refl
map_id (v ∷ vs) = ap (◌∷◌ v) (map_id vs)

pub map-map : (f g : ℕ → ℕ) (vs : List ℕ) → map g (map f vs) ≡ map (λ x. g (f x)) vs
map-map f g [] = refl
map-map f g (v ∷ vs) = ap (◌∷◌ (g (f v))) (map-map f g vs)

pub length-map : (f : ℕ → ℕ) (vs : List ℕ) → length (map f vs) ≡ length vs
length-map f [] = refl
length-map f (v ∷ vs) = ap suc (length-map f vs)
