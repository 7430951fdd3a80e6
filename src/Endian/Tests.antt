-- ===== src/Endian/Tests.antt =====
-- The byte swaps of src/endian.c at concrete inputs.
use rsound.Base.{◌≡◌, refl, false, true, arith}
use rsound.Endian.{is_little_endian, swap_endian_16, swap_endian_32, store16, store32}
use rsound.Endian.Laws.{store-swap}

swaps : swap_endian_32 0x0102_0304 ≡ 0x0403_0201
unfolding swap_endian_32
swaps = refl

order : is_little_endian false ≡ 0
unfolding is_little_endian
order = refl

store-swap_example :
    (store16 false (swap_endian_16 0x0102) ≡ store16 true 0x0102)
    × (store32 false (swap_endian_32 0x0102_0304) ≡ store32 true 0x0102_0304)
store-swap_example = store-swap false 0x0102 0x0102_0304 (omega arith) (omega arith)
