-- ===== src/Daemon/Tests.antt =====
-- The accept loop of src/daemon.c at concrete inputs.
use rsound.Base.{◌≡◌, refl, ℕ, true, false, none, some, List, [], ◌∷◌, arith, count}
use rsound.Base.Int.{pos}
use rsound.Daemon.{
  Storage, af_inet, Arrival, accepted, started, State, accept_loop, new_sound_thread, valid_ips,
}
use rsound.Daemon.Sockets.{taken, released, accept_loop-Releases}

-- 10.0.0.1 and 10.0.0.2, behind their ports.
abbrev here : Storage
here = record { family = af_inet; bytes = 0 ∷ 80 ∷ 10 ∷ 0 ∷ 0 ∷ 1 ∷ [] }

abbrev there : Storage
there = record { family = af_inet; bytes = 0 ∷ 81 ∷ 10 ∷ 0 ∷ 0 ∷ 2 ∷ [] }

-- The bytes stand for the text.
abbrev text_of : ℕ → List ℕ → List ℕ
text_of family bytes = bytes

abbrev start : State
start = record { addr0 = here; addr1 = here; s_ctl = none; last_thread = false }

abbrev arrival : Arrival
arrival = record {
  first = some (4, here);
  polled = some true;
  second = some (5, there);
  nonblocking = true;
  ctl_nonblocking = true;
  thread = pos 0;
}

-- A control connection from another address is handed over with the first.
hijacked :
    accept_loop text_of false (arrival ∷ []) start ≡ accepted 4 ∷ accepted 5 ∷ started 4 5 ∷ []
unfolding accept_loop new_sound_thread valid_ips
hijacked = refl

accept_loop-Releases_example :
    let effects =
      accept_loop text_of false (arrival ∷ record arrival { polled = none } ∷ []) start in
    count 5 (released effects) ≡ count 5 (taken effects)
accept_loop-Releases_example =
    accept_loop-Releases text_of false (arrival ∷ record arrival { polled = none } ∷ []) start 5
      refl (omega arith) (refl, (refl, tt))
