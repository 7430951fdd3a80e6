-- ===== src/Cuse/Events.antt =====
-- src/cuse-ross/cuse-ross.c: what is played, replied and destroyed in a list of events.
use mathlib.Core.List.{append_assoc}
use rsound.Base.{
  ℕ, ◌+◌, ◌≡◌, refl, sym, ap, ◌∙◌, Option, none, some, List, [], ◌∷◌, ◌++◌, ◌==◌, if◌then◌else◌,
  arith,
}
use rsound.Cuse.{Reply, Event, reply, notify, destroy, sleep, signal, played}

-- What is played of the events, the replies among them, and how often a handle is destroyed.
abbrev pub all_played : List Event → List ℕ
all_played [] = []
all_played (reply r ∷ es) = all_played es
all_played (notify h ∷ es) = all_played es
all_played (destroy h ∷ es) = all_played es
all_played (sleep t ∷ es) = all_played es
all_played (signal ∷ es) = all_played es
all_played (played xs ∷ es) = xs ++ all_played es

abbrev pub replies : List Event → List Reply
replies [] = []
replies (reply r ∷ es) = r ∷ replies es
replies (notify h ∷ es) = replies es
replies (destroy h ∷ es) = replies es
replies (sleep t ∷ es) = replies es
replies (signal ∷ es) = replies es
replies (played xs ∷ es) = replies es

abbrev pub destroys : ℕ → List Event → ℕ
destroys h [] = 0
destroys h (reply r ∷ es) = destroys h es
destroys h (notify k ∷ es) = destroys h es
destroys h (destroy k ∷ es) = (if k == h then 1 else 0) + destroys h es
destroys h (sleep t ∷ es) = destroys h es
destroys h (signal ∷ es) = destroys h es
destroys h (played xs ∷ es) = destroys h es

abbrev pub holds : ℕ → Option ℕ → ℕ
holds h none = 0
holds h (some k) = if k == h then 1 else 0

pub played-append : (es fs : List Event) → all_played (es ++ fs) ≡ all_played es ++ all_played fs
played-append [] fs = refl
played-append (reply r ∷ es) fs = played-append es fs
played-append (notify h ∷ es) fs = played-append es fs
played-append (destroy h ∷ es) fs = played-append es fs
played-append (sleep t ∷ es) fs = played-append es fs
played-append (signal ∷ es) fs = played-append es fs
played-append (played xs ∷ es) fs =
    ap (λ ys. xs ++ ys) (played-append es fs)
    ∙ sym (append_assoc xs (all_played es) (all_played fs))

pub replies-append : (es fs : List Event) → replies (es ++ fs) ≡ replies es ++ replies fs
replies-append [] fs = refl
replies-append (reply r ∷ es) fs = ap (◌∷◌ r) (replies-append es fs)
replies-append (notify h ∷ es) fs = replies-append es fs
replies-append (destroy h ∷ es) fs = replies-append es fs
replies-append (sleep t ∷ es) fs = replies-append es fs
replies-append (signal ∷ es) fs = replies-append es fs
replies-append (played xs ∷ es) fs = replies-append es fs

pub destroys-append :
    (h : ℕ) (es fs : List Event) → destroys h (es ++ fs) ≡ destroys h es + destroys h fs
destroys-append h [] fs = omega arith
destroys-append h (reply r ∷ es) fs = destroys-append h es fs
destroys-append h (notify k ∷ es) fs = destroys-append h es fs
destroys-append h (destroy k ∷ es) fs = omega (arith, destroys-append h es fs)
destroys-append h (sleep t ∷ es) fs = destroys-append h es fs
destroys-append h (signal ∷ es) fs = destroys-append h es fs
destroys-append h (played xs ∷ es) fs = destroys-append h es fs
