-- ===== src/OssEmul/Calls.antt =====
-- src/oss-emul/librsoundoss.c: every call changes at most the slot of its own descriptor, and keeps
-- the table well-formed.
use mathlib.Core.Path.{subst}
use rsound.Base.{
  ◌≡◌, ◌≤◌, ◌+◌, ◌-◌, ◌⊎◌, refl, sym, ap, ◌∙◌, ℕ, zero, suc, Bool, true, false, ◌&&◌, Option, none,
  some, List, [], ◌∷◌, ◌==◌, ltb, if◌then◌else◌, arith, inl, inr, length, min, take,
}
use rsound.Base.Int.{ℤ, pos, negsuc}
use rsound.Client.{Rsound}
use rsound.Client.Delay.{get_avail}
use rsound.OssEmul.{
  Slot, vacant, Library, same_fd, fd2index, store_slot, with_slot, Result, forwarded, failed,
  returned, Client, connect, started, write_some, write_started, write_slot, close_slot, shift,
}
use rsound.OssEmul.Ioctl.{
  Request, Reply, Answer, request, set_format, ossfmt2rsd, ioctl_slot, getfmts, setfmt, stereo,
  set_channels, reset, sync, speed, getblksize, getospace, getoptr, getodelay, set_nonblock,
  unknown,
}
use rsound.Format.{Format}
use rsound.OssEmul.Table.{
  Held, AllHeld, weight, uses, WellFormed, At, Found, store_slot-WellFormed, At-AllHeld,
}

Held-again : (z : ℤ) (rd rd1 : Rsound) → Held z (some rd) → Held z (some rd1)
Held-again (pos n) rd rd1 h = tt
Held-again (negsuc zero) rd rd1 h = absurd h
Held-again (negsuc (suc n)) rd rd1 h = absurd h

-- What a call on a descriptor does to the table: nothing, or a new sound content for the slot where
-- the descriptor stands, under the same descriptor or none.
abbrev pub Updates : ℤ → Library → Library → Type 0
Updates fd lib lib1 =
    (lib1 ≡ lib)
    ⊎ ((i : ℕ) × (t : Slot) × (s : Slot) × At i t lib.table
        × (same_fd fd t.fd ≡ true)
        × Held s.fd s.rd
        × ((s.fd ≡ t.fd) ⊎ (s.fd ≡ negsuc 0))
        × (lib1 ≡ with_slot lib i s))

-- A new client, mode or count in the slot `t`.
module _ (fd : ℤ) (lib : Library) (i : ℕ) (t : Slot) (at : At i t lib.table)
    (e : same_fd fd t.fd ≡ true) where
  updated :
      (s : Slot) (rd rd1 : Rsound)
      → Held t.fd t.rd
      → t.rd ≡ some rd
      → s.fd ≡ t.fd
      → s.rd ≡ some rd1
      → Updates fd lib (with_slot lib i s)
  updated s rd rd1 held has same now =
      let held_t : Held t.fd (some rd) = subst (λ o. Held t.fd o) has held in
      let held_s : Held s.fd s.rd =
        subst (λ o. Held s.fd o) (sym now)
          (subst (λ z. Held z (some rd1)) (sym same) (Held-again t.fd rd rd1 held_t)) in
      inr (i, t, s, at, e, held_s, inl same, refl)

  emptied : Updates fd lib (with_slot lib i vacant)
  emptied = inr (i, t, vacant, at, e, tt, inr refl, refl)

module _ (P : Result × Library → Type 0) where
  on_option :
      (o : Option Rsound) (x : Result × Library) (f : Rsound → Result × Library)
      → P x
      → ((rd : Rsound) → o ≡ some rd → P (f rd))
      → P (elim o [ none ↦ x | some rd ↦ f rd ])
  on_option none x f h k = h
  on_option (some rd) x f h k = k rd refl

  pub on_test : (b : Bool) (x y : Result × Library) → P x → P y → P (if b then x else y)
  on_test true x y h k = h
  on_test false x y h k = k

-- `started` leaves a client in the slot, under the same descriptor.
Starts : Slot → Bool × Slot → Type 0
Starts t p = (p.1.fd ≡ t.fd) × ((rd : Rsound) × (p.1.rd ≡ some rd))

started-Starts :
    (flags : ℕ) (dup : Bool) (t : Slot) (r : Bool × Rsound) → Starts t (started flags dup t r)
unfolding Starts
started-Starts flags dup t (false, rd) = (refl, (rd, refl))
started-Starts flags dup t (true, rd) = (refl, (rd, refl))

module _ (client : Client) (fd : ℤ) (lib : Library) (i : ℕ) (t : Slot) (rd : Rsound)
    (at : At i t lib.table) (e : same_fd fd t.fd ≡ true) (held : Held t.fd t.rd)
    (has : t.rd ≡ some rd) where
  write_some-Updates :
      (s : Slot) (rd1 : Rsound) (buf : List ℕ) (avail : ℕ)
      → s.fd ≡ t.fd
      → s.rd ≡ some rd1
      → Updates fd lib (write_some client lib i s rd1 buf avail).1
  write_some-Updates s rd1 buf avail same now =
      let write_size = if s.nonblock then min avail (length buf) else length buf in
      let w = client.write rd1 (take write_size buf) in
      let put : (s1 : Slot) (rd2 : Rsound)
          → s1.fd ≡ t.fd
          → s1.rd ≡ some rd2
          → Updates fd lib (with_slot lib i s1) =
        λ s1 rd2 f g. updated fd lib i t at e s1 rd rd2 held has f g in
      on_test (λ r. Updates fd lib r.1) (ltb 0 write_size) _ _
        (on_test (λ r. Updates fd lib r.1) (w.0 == 0) _ _ (put _ w.1 same refl)
          (put _ w.1 same refl))
        (on_test (λ r. Updates fd lib r.1) ((avail == 0) && ltb 0 (length buf) && s.nonblock) _ _
          (put s rd1 same now) (put s rd1 same now))

  write_started-Updates :
      (buf : List ℕ) (p : Bool × Slot)
      → Starts t p
      → Updates fd lib (write_started client lib i buf p).1
  unfolding Starts
  write_started-Updates buf (ok, s) (same, (rd1, now)) =
      on_option (λ r. Updates fd lib r.1) s.rd _ _ (inl refl)
        (λ rd2 now2.
          on_test (λ r. Updates fd lib r.1) ok _ _
            (write_some-Updates s rd2 buf (if s.nonblock then get_avail rd2 else 0) same now2)
            (updated fd lib i t at e s rd rd2 held has same now2))

-- What a search finds, in a table whose slots are sound.
module _ (fd : ℤ) (lib : Library) (all : AllHeld lib.table) where
  pub write_slot-Updates :
      (client : Client) (flags : Option ℕ) (dup : Bool) (buf : List ℕ) (o : Option (ℕ × Slot))
      → Found fd lib.table o
      → Updates fd lib (write_slot client flags dup lib buf o).1
  unfolding Found
  write_slot-Updates client flags dup buf none h = inl refl
  write_slot-Updates client none dup buf (some (i, s)) h = inl refl
  write_slot-Updates client (some f) dup buf (some (i, s)) (at, e) =
      let held = At-AllHeld i s lib.table at all in
      on_option (λ r. Updates fd lib r.1) s.rd _ _ (inl refl)
        (λ rd has.
          write_started-Updates client fd lib i s rd at e held has buf
            (started f dup s (connect client rd rd.socket))
            (started-Starts f dup s (connect client rd rd.socket)))

  pub close_slot-Updates :
      (o : Option (ℕ × Slot)) → Found fd lib.table o → Updates fd lib (close_slot lib o).1
  unfolding Found
  close_slot-Updates none h = inl refl
  close_slot-Updates (some (i, s)) (at, e) =
      on_option (λ r. Updates fd lib r.1) s.rd _ _ (inl refl) (λ rd has. emptied fd lib i s at e)

-- The slot that `request` leaves has its client and its descriptor.
abbrev Answers : Slot → Answer → Type 0
Answers t a = (a.1.fd ≡ t.fd) × ((rd : Rsound) × (a.1.rd ≡ some rd))

set_format-Answers :
    (t : Slot) (rd : Rsound) (f : Option Format) → t.rd ≡ some rd → Answers t (set_format t rd f)
set_format-Answers t rd none e = (refl, (rd, e))
set_format-Answers t rd (some f) e = (refl, (_, refl))

request-Answers :
    (client : Client) (delay : Rsound → ℕ × Rsound) (t : Slot) (rd : Rsound) (r : Request)
    → t.rd ≡ some rd
    → Answers t (request client delay t rd r)
request-Answers client delay t rd getfmts e = (refl, (rd, e))
request-Answers client delay t rd reset e = (refl, (_, refl))
request-Answers client delay t rd sync e = (refl, (_, refl))
request-Answers client delay t rd getblksize e = (refl, (rd, e))
request-Answers client delay t rd getospace e = (refl, (rd, e))
request-Answers client delay t rd getoptr e = (refl, (rd, e))
request-Answers client delay t rd getodelay e = by_socket rd.socket
  where
    by_socket :
        (o : Option ℕ)
        → Answers t (elim o as (λ x. Answer) [
          | none ↦ (true, t, Reply.int 0)
          | some socket ↦ let (d, rd1) = delay rd in (true, record t { rd = some rd1 }, Reply.int d)
        ])
    by_socket none = (refl, (rd, e))
    by_socket (some socket) = (refl, (_, refl))
request-Answers client delay t rd set_nonblock e = (refl, (rd, e))
request-Answers client delay t rd unknown e = (refl, (rd, e))
request-Answers client delay t rd (setfmt arg) e = set_format-Answers t rd (ossfmt2rsd arg) e
request-Answers client delay t rd (stereo (pos arg)) e = (refl, (_, refl))
request-Answers client delay t rd (stereo (negsuc arg)) e = (refl, (_, refl))
request-Answers client delay t rd (set_channels arg) e = (refl, (_, refl))
request-Answers client delay t rd (speed arg) e = (refl, (_, refl))

module _ (client : Client) (delay : Rsound → ℕ × Rsound) (fd : ℤ) (lib : Library)
    (all : AllHeld lib.table) (r : Request) where
  pub ioctl_slot-Updates :
      (o : Option (ℕ × Slot))
      → Found fd lib.table o
      → Updates fd lib (ioctl_slot client delay lib r o).1
  unfolding Found
  ioctl_slot-Updates none h = inl refl
  ioctl_slot-Updates (some (i, s)) (at, e) = by_handle s.rd refl
    where
      by_handle :
          (o : Option Rsound)
          → s.rd ≡ o
          → Updates fd lib (
              (elim o as (λ x. Result × Library × Reply) [
                | none ↦ (forwarded, lib, Reply.same)
                | some rd ↦
                    let (ok, s1, reply) = request client delay s rd r in
                    (if ok then returned 0 else failed, with_slot lib i s1, reply)
              ]).1)
      by_handle none has = inl refl
      by_handle (some rd) has =
          let (same, (rd1, now)) = request-Answers client delay s rd r has in
          updated fd lib i s at e (request client delay s rd r).1 rd rd1
            (At-AllHeld i s lib.table at all) has same now

same_fd_eq : (a b : ℤ) → same_fd a b ≡ true → a ≡ b
same_fd_eq (pos m) (pos n) h = ground arith
same_fd_eq (pos m) (negsuc n) h = ground arith
same_fd_eq (negsuc m) (pos n) h = ground arith
same_fd_eq (negsuc m) (negsuc n) h = ground arith

-- A slot that a search passes over before and after is not seen by it.
fd2index-store_slot :
    (fd : ℤ) (i : ℕ) (s t : Slot) (table : List Slot)
    → At i t table
    → same_fd fd t.fd ≡ false
    → same_fd fd s.fd ≡ false
    → fd2index fd (store_slot i s table) ≡ fd2index fd table
unfolding fd2index
fd2index-store_slot fd i s t [] at old new = absurd at
fd2index-store_slot fd zero s t (u ∷ table) at old new =
    let old_u : same_fd fd u.fd ≡ false = subst (λ v. same_fd fd v.fd ≡ false) at old in
    ap (λ b. if b then some (0, s) else shift (fd2index fd table)) new
    ∙ ap (λ b. if b then some (0, u) else shift (fd2index fd table)) (sym old_u)
fd2index-store_slot fd (suc i) s t (u ∷ table) at old new =
    ap (λ o. if same_fd fd u.fd then some (0, u) else shift o)
      (fd2index-store_slot fd i s t table at old new)

-- A call on one descriptor leaves what every other descriptor finds.
pub Updates-apart :
    (fd : ℤ) (n : ℕ) (lib lib1 : Library)
    → same_fd (pos n) fd ≡ false
    → Updates fd lib lib1
    → fd2index (pos n) lib1.table ≡ fd2index (pos n) lib.table
Updates-apart fd n lib lib1 other (inl e) = ap (λ l. fd2index (pos n) l.table) e
Updates-apart fd n lib lib1 other (inr (i, t, s, at, e, held, kept, put)) =
    let old : same_fd (pos n) t.fd ≡ false =
      subst (λ z. same_fd (pos n) z ≡ false) (same_fd_eq fd t.fd e) other in
    ap (λ l. fd2index (pos n) l.table) put
    ∙ fd2index-store_slot (pos n) i s t lib.table at old (new kept old)
  where
    new :
        (s.fd ≡ t.fd) ⊎ (s.fd ≡ negsuc 0)
        → same_fd (pos n) t.fd ≡ false
        → same_fd (pos n) s.fd ≡ false
    new (inl same) old = subst (λ z. same_fd (pos n) z ≡ false) (sym same) old
    new (inr gone) old = ap (same_fd (pos n)) gone

pub Updates-WellFormed :
    (fd : ℤ) (lib lib1 : Library)
    → Updates fd lib lib1
    → WellFormed lib.table
    → WellFormed lib1.table
Updates-WellFormed fd lib lib1 (inl e) w = subst (λ l. WellFormed l.table) (sym e) w
Updates-WellFormed fd lib lib1 (inr (i, t, s, at, e, held, kept, put)) w =
    subst (λ l. WellFormed l.table) (sym put)
      (store_slot-WellFormed i s t lib.table at held (λ n. room n kept) w)
  where
    room :
        (n : ℕ)
        → (s.fd ≡ t.fd) ⊎ (s.fd ≡ negsuc 0)
        → weight n s ≤ weight n t + (1 - uses n lib.table)
    room n (inl same) =
        let alike : weight n s ≡ weight n t = ap (λ z. if same_fd (pos n) z then 1 else 0) same in
        omega (arith, alike)
    room n (inr gone) =
        let light : weight n s ≡ 0 = ap (λ z. if same_fd (pos n) z then 1 else 0) gone in
        omega (arith, light)
