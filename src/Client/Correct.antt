-- ===== src/Client/Correct.antt =====
-- The correction of the delay at the end of `rsnd_update_server_info` in
-- src/librsound/librsound.c.
use rsound.Base.{ℕ, Bool, true, false, ◌&&◌, if◌then◌else◌, arith}
use rsound.Base.Int.{ℤ, pos, ◌+ℤ◌, ◌-ℤ◌, ◌≤ℤ◌, +ℤ_parts, -ℤ_parts, ltb_ℤ, to_signed}
use rsound.Client.{Rsound}
use rsound.Client.Delay.{Elapsed, delay, drain}
use rsound.Client.Update.{clamp, is_recent, delta_of, correct}

clamp_bounds : (x : ℤ) (m : ℕ) → ((pos 0 -ℤ pos m) ≤ℤ clamp x (pos m)) × (clamp x (pos m) ≤ℤ pos m)
clamp_bounds x m = ground (arith, -ℤ_parts (pos 0) (pos m))

-- `a + b` is near `a` where `b` is small.
step_bounds :
    (a b : ℤ) (m : ℕ)
    → (pos 0 -ℤ pos m) ≤ℤ b
    → b ≤ℤ pos m
    → ((a +ℤ b) ≤ℤ (a +ℤ pos m)) × (a ≤ℤ ((a +ℤ b) +ℤ pos m))
step_bounds a b m h k =
    omega
      (arith, +ℤ_parts a b, +ℤ_parts a (pos m), +ℤ_parts (a +ℤ b) (pos m), -ℤ_parts (pos 0) (pos m))

step_offset :
    (x : ℤ) (m : ℕ) (a : ℤ)
    → ((a +ℤ clamp x (pos m)) ≤ℤ (a +ℤ pos m)) × (a ≤ℤ ((a +ℤ clamp x (pos m)) +ℤ pos m))
step_offset x m a = let (low, high) = clamp_bounds x m in step_bounds a (clamp x (pos m)) m low high

no_step : (a : ℤ) (m : ℕ) → (a ≤ℤ (a +ℤ pos m)) × (a ≤ℤ (a +ℤ pos m))
no_step a m = omega (arith, +ℤ_parts a (pos m))

-- Whatever the two counts are, a reply moves the offset of the delay by one chunk at most.
pub correct-delay_offset :
    (t : Elapsed) (client_ptr serv_ptr : ℤ) (rd : Rsound)
    → let offset = (correct t client_ptr serv_ptr rd).delay_offset in
      (offset ≤ℤ (rd.delay_offset +ℤ pos rd.chunk_size))
      × (rd.delay_offset ≤ℤ (offset +ℤ pos rd.chunk_size))
unfolding correct delay drain
correct-delay_offset t client_ptr serv_ptr rd =
    cases (ltb_ℤ (pos 0) client_ptr && ltb_ℤ (pos 0) serv_ptr) (is_recent rd client_ptr)
  where
    offset_delta : ℤ
    offset_delta = delta_of rd client_ptr serv_ptr -ℤ to_signed 32 (pos (delay t rd).0)

    rd1 : Rsound
    rd1 = (delay t rd).1

    result : Bool → Bool → Rsound
    result b r =
        if b
        then (if r
            then record rd1 {
              delay_offset = rd1.delay_offset +ℤ clamp offset_delta (pos rd.chunk_size);
            }
            else rd1)
        else rd

    cases :
        (b r : Bool)
        → ((result b r).delay_offset ≤ℤ (rd.delay_offset +ℤ pos rd.chunk_size))
          × (rd.delay_offset ≤ℤ ((result b r).delay_offset +ℤ pos rd.chunk_size))
    cases true true = step_offset offset_delta rd.chunk_size rd.delay_offset
    cases true false = no_step rd.delay_offset rd.chunk_size
    cases false r = no_step rd.delay_offset rd.chunk_size
