-- ===== src/Convert/Loops.antt =====
-- The loops of src/audio.c. The buffer is a list of bytes, read and written through pointers to
-- words of the machine's byte order (the union `u` of the source). A loop that treats each word by
-- itself goes through the list; one that reads and writes at different places of the one buffer
-- stores into it by index, in the source's order.
use rsound.Base.{
  ℕ, zero, suc, ◌+◌, ◌*◌, ◌/◌, ◌^◌, Bool, List, [], ◌∷◌, ◌++◌, get_or, memcpy, length, Option, none,
  some, leb, if◌then◌else◌,
}
use rsound.Endian.{store16, store32, load16, load32}

-- for (i = 0; i < bytes / 2; i++) u16[i] = f(u16[i]), and the same over 32-bit words.
unfoldable pub each16 : Bool → (ℕ → ℕ) → List ℕ → List ℕ
each16 little f [] = []
each16 little f (p ∷ []) = p ∷ []
each16 little f (p ∷ q ∷ rest) =
    store16 little (f (load16 little (p ∷ q ∷ []) 0)) ++ each16 little f rest

unfoldable pub each32 : Bool → (ℕ → ℕ) → List ℕ → List ℕ
each32 little f (p ∷ q ∷ r ∷ s ∷ rest) =
    store32 little (f (load32 little (p ∷ q ∷ r ∷ s ∷ []) 0)) ++ each32 little f rest
each32 little f rest = rest

-- for (i = n - 1; i >= 0; i--) i16[i] = g(u8[i]): the words grow downwards over the bytes.
unfoldable pub expand : Bool → (ℕ → ℕ) → List ℕ → ℕ → List ℕ
expand little g buf zero = buf
expand little g buf (suc i) =
    expand little g (memcpy buf (2 * i) (store16 little (g (get_or buf i 0)))) i

-- for (i = n - 1; i >= 0; i--) f[i] = (float)i16[i] / 0x8000, of which `g` is the bit pattern.
unfoldable pub expand_float : Bool → (ℕ → ℕ) → List ℕ → ℕ → List ℕ
expand_float little g buf zero = buf
expand_float little g buf (suc i) =
    expand_float little g (memcpy buf (4 * i) (store32 little (g (load16 little buf (2 * i))))) i

-- for (i = 0; i < n; i++) i16[i] = (int16_t)(i32[i] >> 16): the words shrink upwards. The shift of
-- a negative int32_t keeps the sign, so that its low 16 bits are the high half of the pattern.
-- A read outside the buffer is `none`: the C program is undefined there.
unfoldable pub shrink : Bool → List ℕ → ℕ → ℕ → Option (List ℕ)
shrink little buf zero i = some buf
shrink little buf (suc n) i =
    let word = store16 little (load32 little buf (4 * i) / 2 ^ 16) in
    let rest = shrink little (memcpy buf (2 * i) word) n (i + 1) in
    if leb (4 * i + 4) (length buf) then rest else none
