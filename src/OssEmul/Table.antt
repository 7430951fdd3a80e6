-- ===== src/OssEmul/Table.antt =====
-- src/oss-emul/librsoundoss.c: the table of descriptors is kept well-formed by every call.
use mathlib.Core.Path.{subst}
use rsound.Base.{
  ◌≡◌, ◌≤◌, ◌+◌, ◌-◌, refl, sym, ap, ℕ, zero, suc, true, Option, none, some, List, [], ◌∷◌,
  if◌then◌else◌, arith, Bool-cases, inl, inr,
}
use rsound.Base.Int.{ℤ, pos, negsuc}
use rsound.Client.{Rsound}
use rsound.OssEmul.{Slot, same_fd, fd2index, shift, store_slot}

-- A slot holds a descriptor and a client, or neither.
abbrev pub Held : ℤ → Option Rsound → Type 0
Held (pos n) (some rd) = Unit
Held (pos n) none = ⊥
Held (negsuc zero) none = Unit
Held (negsuc zero) (some rd) = ⊥
Held (negsuc (suc n)) rd = ⊥

abbrev pub AllHeld : List Slot → Type 0
AllHeld [] = Unit
AllHeld (s ∷ table) = Held s.fd s.rd × AllHeld table

-- In how many slots a descriptor stands.
abbrev pub weight : ℕ → Slot → ℕ
weight n s = if same_fd (pos n) s.fd then 1 else 0

abbrev pub uses : ℕ → List Slot → ℕ
uses n [] = 0
uses n (s ∷ table) = weight n s + uses n table

-- Every slot is sound and no descriptor stands in two.
abbrev pub WellFormed : List Slot → Type 0
WellFormed table = AllHeld table × ((n : ℕ) → uses n table ≤ 1)

-- That a slot stands at an index.
abbrev pub At : ℕ → Slot → List Slot → Type 0
At i s [] = ⊥
At zero s (t ∷ table) = s ≡ t
At (suc i) s (t ∷ table) = At i s table

unfoldable pub Found : ℤ → List Slot → Option (ℕ × Slot) → Type 0
Found fd table none = Unit
Found fd table (some (i, s)) = At i s table × (same_fd fd s.fd ≡ true)

shift-Found :
    (fd : ℤ) (t : Slot) (table : List Slot) (o : Option (ℕ × Slot))
    → Found fd table o
    → Found fd (t ∷ table) (shift o)
unfolding Found
shift-Found fd t table none h = tt
shift-Found fd t table (some (i, s)) h = h

-- What the search finds stands in the table, with the descriptor.
pub fd2index-Found : (fd : ℤ) (table : List Slot) → Found fd table (fd2index fd table)
unfolding fd2index Found
fd2index-Found fd [] = tt
fd2index-Found fd (t ∷ table) = elim (Bool-cases (same_fd fd t.fd)) [
  | inl e ↦ rw e (refl, e)
  | inr e ↦ rw e (shift-Found fd t table (fd2index fd table) (fd2index-Found fd table))
]

store_slot-AllHeld :
    (i : ℕ) (s : Slot) (table : List Slot)
    → Held s.fd s.rd
    → AllHeld table
    → AllHeld (store_slot i s table)
store_slot-AllHeld i s [] h k = tt
store_slot-AllHeld zero s (t ∷ table) h (k, ks) = (h, ks)
store_slot-AllHeld (suc i) s (t ∷ table) h (k, ks) = (k, store_slot-AllHeld i s table h ks)

uses-store_slot :
    (n i : ℕ) (s t : Slot) (table : List Slot)
    → At i t table
    → uses n (store_slot i s table) + weight n t ≡ uses n table + weight n s
uses-store_slot n i s t [] h = absurd h
uses-store_slot n zero s t (u ∷ table) h = omega (arith, ap (weight n) h)
uses-store_slot n (suc i) s t (u ∷ table) h = omega (arith, uses-store_slot n i s t table h)

pub At-AllHeld :
    (i : ℕ) (s : Slot) (table : List Slot) → At i s table → AllHeld table → Held s.fd s.rd
At-AllHeld i s [] h k = absurd h
At-AllHeld zero s (t ∷ table) h (k, ks) = subst (λ u. Held u.fd u.rd) (sym h) k
At-AllHeld (suc i) s (t ∷ table) h (k, ks) = At-AllHeld i s table h ks

-- A sound slot whose descriptor is the one before, or a new one, or none.
pub store_slot-WellFormed :
    (i : ℕ) (s t : Slot) (table : List Slot)
    → At i t table
    → Held s.fd s.rd
    → ((n : ℕ) → weight n s ≤ weight n t + (1 - uses n table))
    → WellFormed table
    → WellFormed (store_slot i s table)
store_slot-WellFormed i s t table at held room (all, once) = (
  store_slot-AllHeld i s table held all,
  λ n. omega (arith, uses-store_slot n i s t table at, room n, once n),
)
