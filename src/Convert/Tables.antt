-- ===== src/Convert/Tables.antt =====
-- The tables `MULAWTable` and `ALAWTable` of src/audio.c, in rows of eight as there, and the
-- expansion that ITU-T G.711 defines.
use Prim.Native.Nat.{bit_xor}
use rsound.Base.{
  ℕ, zero, suc, ◌+◌, ◌-◌, ◌*◌, ◌/◌, ◌%◌, ◌^◌, ◌<◌, ◌≡◌, refl, Bool, true, List, [], ◌∷◌, ◌++◌, map,
  arith, ◌==◌, ==_iff, ltb, if◌then◌else◌, get_or, length, false,
}

-- The bit pattern of an int16_t -n.
abbrev neg : ℕ → ℕ
neg n = (2 ^ 16 - n) % 2 ^ 16

-- Rows in order.
abbrev rows : List (List ℕ) → List ℕ
rows [] = []
rows (r ∷ rs) = r ++ rows rs

-- The first half of `MULAWTable`, without the signs.
mulaw_negative : List ℕ
mulaw_negative = rows (
    (32124 ∷ 31100 ∷ 30076 ∷ 29052 ∷ 28028 ∷ 27004 ∷ 25980 ∷ 24956 ∷ [])
    ∷ (23932 ∷ 22908 ∷ 21884 ∷ 20860 ∷ 19836 ∷ 18812 ∷ 17788 ∷ 16764 ∷ [])
    ∷ (15996 ∷ 15484 ∷ 14972 ∷ 14460 ∷ 13948 ∷ 13436 ∷ 12924 ∷ 12412 ∷ [])
    ∷ (11900 ∷ 11388 ∷ 10876 ∷ 10364 ∷ 9852 ∷ 9340 ∷ 8828 ∷ 8316 ∷ [])
    ∷ (7932 ∷ 7676 ∷ 7420 ∷ 7164 ∷ 6908 ∷ 6652 ∷ 6396 ∷ 6140 ∷ [])
    ∷ (5884 ∷ 5628 ∷ 5372 ∷ 5116 ∷ 4860 ∷ 4604 ∷ 4348 ∷ 4092 ∷ [])
    ∷ (3900 ∷ 3772 ∷ 3644 ∷ 3516 ∷ 3388 ∷ 3260 ∷ 3132 ∷ 3004 ∷ [])
    ∷ (2876 ∷ 2748 ∷ 2620 ∷ 2492 ∷ 2364 ∷ 2236 ∷ 2108 ∷ 1980 ∷ [])
    ∷ (1884 ∷ 1820 ∷ 1756 ∷ 1692 ∷ 1628 ∷ 1564 ∷ 1500 ∷ 1436 ∷ [])
    ∷ (1372 ∷ 1308 ∷ 1244 ∷ 1180 ∷ 1116 ∷ 1052 ∷ 988 ∷ 924 ∷ [])
    ∷ (876 ∷ 844 ∷ 812 ∷ 780 ∷ 748 ∷ 716 ∷ 684 ∷ 652 ∷ [])
    ∷ (620 ∷ 588 ∷ 556 ∷ 524 ∷ 492 ∷ 460 ∷ 428 ∷ 396 ∷ [])
    ∷ (372 ∷ 356 ∷ 340 ∷ 324 ∷ 308 ∷ 292 ∷ 276 ∷ 260 ∷ [])
    ∷ (244 ∷ 228 ∷ 212 ∷ 196 ∷ 180 ∷ 164 ∷ 148 ∷ 132 ∷ [])
    ∷ (120 ∷ 112 ∷ 104 ∷ 96 ∷ 88 ∷ 80 ∷ 72 ∷ 64 ∷ [])
    ∷ (56 ∷ 48 ∷ 40 ∷ 32 ∷ 24 ∷ 16 ∷ 8 ∷ 0 ∷ [])
    ∷ [])

-- The second half of `MULAWTable`.
mulaw_positive : List ℕ
mulaw_positive = rows (
    (32124 ∷ 31100 ∷ 30076 ∷ 29052 ∷ 28028 ∷ 27004 ∷ 25980 ∷ 24956 ∷ [])
    ∷ (23932 ∷ 22908 ∷ 21884 ∷ 20860 ∷ 19836 ∷ 18812 ∷ 17788 ∷ 16764 ∷ [])
    ∷ (15996 ∷ 15484 ∷ 14972 ∷ 14460 ∷ 13948 ∷ 13436 ∷ 12924 ∷ 12412 ∷ [])
    ∷ (11900 ∷ 11388 ∷ 10876 ∷ 10364 ∷ 9852 ∷ 9340 ∷ 8828 ∷ 8316 ∷ [])
    ∷ (7932 ∷ 7676 ∷ 7420 ∷ 7164 ∷ 6908 ∷ 6652 ∷ 6396 ∷ 6140 ∷ [])
    ∷ (5884 ∷ 5628 ∷ 5372 ∷ 5116 ∷ 4860 ∷ 4604 ∷ 4348 ∷ 4092 ∷ [])
    ∷ (3900 ∷ 3772 ∷ 3644 ∷ 3516 ∷ 3388 ∷ 3260 ∷ 3132 ∷ 3004 ∷ [])
    ∷ (2876 ∷ 2748 ∷ 2620 ∷ 2492 ∷ 2364 ∷ 2236 ∷ 2108 ∷ 1980 ∷ [])
    ∷ (1884 ∷ 1820 ∷ 1756 ∷ 1692 ∷ 1628 ∷ 1564 ∷ 1500 ∷ 1436 ∷ [])
    ∷ (1372 ∷ 1308 ∷ 1244 ∷ 1180 ∷ 1116 ∷ 1052 ∷ 988 ∷ 924 ∷ [])
    ∷ (876 ∷ 844 ∷ 812 ∷ 780 ∷ 748 ∷ 716 ∷ 684 ∷ 652 ∷ [])
    ∷ (620 ∷ 588 ∷ 556 ∷ 524 ∷ 492 ∷ 460 ∷ 428 ∷ 396 ∷ [])
    ∷ (372 ∷ 356 ∷ 340 ∷ 324 ∷ 308 ∷ 292 ∷ 276 ∷ 260 ∷ [])
    ∷ (244 ∷ 228 ∷ 212 ∷ 196 ∷ 180 ∷ 164 ∷ 148 ∷ 132 ∷ [])
    ∷ (120 ∷ 112 ∷ 104 ∷ 96 ∷ 88 ∷ 80 ∷ 72 ∷ 64 ∷ [])
    ∷ (56 ∷ 48 ∷ 40 ∷ 32 ∷ 24 ∷ 16 ∷ 8 ∷ 0 ∷ [])
    ∷ [])

-- `MULAWTable`
unfoldable pub mulaw_table : List ℕ
unfolding mulaw_negative mulaw_positive
mulaw_table = map neg mulaw_negative ++ mulaw_positive

-- The first half of `ALAWTable`, without the signs.
alaw_negative : List ℕ
alaw_negative = rows (
    (5504 ∷ 5248 ∷ 6016 ∷ 5760 ∷ 4480 ∷ 4224 ∷ 4992 ∷ 4736 ∷ [])
    ∷ (7552 ∷ 7296 ∷ 8064 ∷ 7808 ∷ 6528 ∷ 6272 ∷ 7040 ∷ 6784 ∷ [])
    ∷ (2752 ∷ 2624 ∷ 3008 ∷ 2880 ∷ 2240 ∷ 2112 ∷ 2496 ∷ 2368 ∷ [])
    ∷ (3776 ∷ 3648 ∷ 4032 ∷ 3904 ∷ 3264 ∷ 3136 ∷ 3520 ∷ 3392 ∷ [])
    ∷ (22016 ∷ 20992 ∷ 24064 ∷ 23040 ∷ 17920 ∷ 16896 ∷ 19968 ∷ 18944 ∷ [])
    ∷ (30208 ∷ 29184 ∷ 32256 ∷ 31232 ∷ 26112 ∷ 25088 ∷ 28160 ∷ 27136 ∷ [])
    ∷ (11008 ∷ 10496 ∷ 12032 ∷ 11520 ∷ 8960 ∷ 8448 ∷ 9984 ∷ 9472 ∷ [])
    ∷ (15104 ∷ 14592 ∷ 16128 ∷ 15616 ∷ 13056 ∷ 12544 ∷ 14080 ∷ 13568 ∷ [])
    ∷ (344 ∷ 328 ∷ 376 ∷ 360 ∷ 280 ∷ 264 ∷ 312 ∷ 296 ∷ [])
    ∷ (472 ∷ 456 ∷ 504 ∷ 488 ∷ 408 ∷ 392 ∷ 440 ∷ 424 ∷ [])
    ∷ (88 ∷ 72 ∷ 120 ∷ 104 ∷ 24 ∷ 8 ∷ 56 ∷ 40 ∷ [])
    ∷ (216 ∷ 200 ∷ 248 ∷ 232 ∷ 152 ∷ 136 ∷ 184 ∷ 168 ∷ [])
    ∷ (1376 ∷ 1312 ∷ 1504 ∷ 1440 ∷ 1120 ∷ 1056 ∷ 1248 ∷ 1184 ∷ [])
    ∷ (1888 ∷ 1824 ∷ 2016 ∷ 1952 ∷ 1632 ∷ 1568 ∷ 1760 ∷ 1696 ∷ [])
    ∷ (688 ∷ 656 ∷ 752 ∷ 720 ∷ 560 ∷ 528 ∷ 624 ∷ 592 ∷ [])
    ∷ (944 ∷ 912 ∷ 1008 ∷ 976 ∷ 816 ∷ 784 ∷ 880 ∷ 848 ∷ [])
    ∷ [])

-- The second half of `ALAWTable`.
alaw_positive : List ℕ
alaw_positive = rows (
    (5504 ∷ 5248 ∷ 6016 ∷ 5760 ∷ 4480 ∷ 4224 ∷ 4992 ∷ 4736 ∷ [])
    ∷ (7552 ∷ 7296 ∷ 8064 ∷ 7808 ∷ 6528 ∷ 6272 ∷ 7040 ∷ 6784 ∷ [])
    ∷ (2752 ∷ 2624 ∷ 3008 ∷ 2880 ∷ 2240 ∷ 2112 ∷ 2496 ∷ 2368 ∷ [])
    ∷ (3776 ∷ 3648 ∷ 4032 ∷ 3904 ∷ 3264 ∷ 3136 ∷ 3520 ∷ 3392 ∷ [])
    ∷ (22016 ∷ 20992 ∷ 24064 ∷ 23040 ∷ 17920 ∷ 16896 ∷ 19968 ∷ 18944 ∷ [])
    ∷ (30208 ∷ 29184 ∷ 32256 ∷ 31232 ∷ 26112 ∷ 25088 ∷ 28160 ∷ 27136 ∷ [])
    ∷ (11008 ∷ 10496 ∷ 12032 ∷ 11520 ∷ 8960 ∷ 8448 ∷ 9984 ∷ 9472 ∷ [])
    ∷ (15104 ∷ 14592 ∷ 16128 ∷ 15616 ∷ 13056 ∷ 12544 ∷ 14080 ∷ 13568 ∷ [])
    ∷ (344 ∷ 328 ∷ 376 ∷ 360 ∷ 280 ∷ 264 ∷ 312 ∷ 296 ∷ [])
    ∷ (472 ∷ 456 ∷ 504 ∷ 488 ∷ 408 ∷ 392 ∷ 440 ∷ 424 ∷ [])
    ∷ (88 ∷ 72 ∷ 120 ∷ 104 ∷ 24 ∷ 8 ∷ 56 ∷ 40 ∷ [])
    ∷ (216 ∷ 200 ∷ 248 ∷ 232 ∷ 152 ∷ 136 ∷ 184 ∷ 168 ∷ [])
    ∷ (1376 ∷ 1312 ∷ 1504 ∷ 1440 ∷ 1120 ∷ 1056 ∷ 1248 ∷ 1184 ∷ [])
    ∷ (1888 ∷ 1824 ∷ 2016 ∷ 1952 ∷ 1632 ∷ 1568 ∷ 1760 ∷ 1696 ∷ [])
    ∷ (688 ∷ 656 ∷ 752 ∷ 720 ∷ 560 ∷ 528 ∷ 624 ∷ 592 ∷ [])
    ∷ (944 ∷ 912 ∷ 1008 ∷ 976 ∷ 816 ∷ 784 ∷ 880 ∷ 848 ∷ [])
    ∷ [])

-- `ALAWTable`
unfoldable pub alaw_table : List ℕ
unfolding alaw_negative alaw_positive
alaw_table = map neg alaw_negative ++ alaw_positive

-- G.711 mu-law: the bits are inverted; a step of `t` in a segment, less the bias of 132.
pub mulaw_linear : ℕ → ℕ
mulaw_linear b =
    let u = 255 - b in
    let t = (u % 16 * 8 + 132) * 2 ^ (u / 16 % 8) in if ltb u 128 then t - 132 else neg (t - 132)

-- G.711 A-law: every second bit is inverted.
pub alaw_linear : ℕ → ℕ
alaw_linear b =
    let a = bit_xor b 0x55 in
    let step = a % 16 * 16 in
    let segment = a / 16 % 8 in
    let t = if segment == 0 then step + 8 else (step + 264) * 2 ^ (segment - 1) in
    if ltb a 128 then neg t else t

-- Whether the entries from position `i` on are the values of `f`.
tabulates : (ℕ → ℕ) → ℕ → List ℕ → Bool
tabulates f i [] = true
tabulates f i (x ∷ xs) = if x == f i then tabulates f (1 + i) xs else false

get_or-tabulates :
    (f : ℕ → ℕ) (i : ℕ) (xs : List ℕ) (k j : ℕ)
    → tabulates f i xs ≡ true
    → k < length xs
    → j ≡ i + k
    → get_or xs k 0 ≡ f j
unfolding tabulates
get_or-tabulates f i [] k j h lt e = absurd (omega arith)
get_or-tabulates f i (x ∷ xs) zero j h lt e =
    let at : i ≡ j = omega arith in rw (← at) (ground (arith, ==_iff x (f i)))
get_or-tabulates f i (x ∷ xs) (suc k) j h lt e =
    get_or-tabulates f (1 + i) xs k j (ground arith) (omega arith) (omega arith)

mulaw_table-tabulates : tabulates mulaw_linear 0 mulaw_table ≡ true
unfolding tabulates mulaw_table mulaw_linear
mulaw_table-tabulates = refl

alaw_table-tabulates : tabulates alaw_linear 0 alaw_table ≡ true
unfolding tabulates alaw_table alaw_linear
alaw_table-tabulates = refl

length-mulaw_table : length mulaw_table ≡ 256
unfolding mulaw_table
length-mulaw_table = refl

length-alaw_table : length alaw_table ≡ 256
unfolding alaw_table
length-alaw_table = refl

-- Both tables hold, at every byte, the linear sample that G.711 gives for it.
pub tables-G711 :
    (b : ℕ)
    → b < 256
    → (get_or mulaw_table b 0 ≡ mulaw_linear b) × (get_or alaw_table b 0 ≡ alaw_linear b)
tables-G711 b h = (
  get_or-tabulates mulaw_linear 0 mulaw_table b b mulaw_table-tabulates
      (omega (arith, length-mulaw_table)) (omega arith),
  get_or-tabulates alaw_linear 0 alaw_table b b alaw_table-tabulates
      (omega (arith, length-alaw_table)) (omega arith),
)
