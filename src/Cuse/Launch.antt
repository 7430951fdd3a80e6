-- ===== src/Cuse/Launch.antt =====
-- `ross_start` of src/cuse-ross/cuse-ross.c.
use rsound.Base.{
  ℕ, zero, suc, ◌*◌, ◌/◌, ◌^◌, ◌<◌, ◌≡◌, refl, sym, ap, ◌∙◌, Bool, true, false, ◌&&◌, ◌||◌, Option,
  none, some, [], ◌==◌, ltb, if◌then◌else◌, arith, ltb→lt,
}
use rsound.Base.Int.{ℤ, pos, negsuc, ◌*ℤ◌, sub_ℕ, to_unsigned}
use rsound.Fifo
use rsound.Fifo.{Fifo}
use rsound.Fifo.Bounds.{new_lem}
use rsound.Client.{Rsound}
use rsound.Client.Param.{set_param, latency}
use rsound.Cuse.{Ross, Client}
use rsound.Cuse.Start.{
  ross_start, bytes_per_second, times_int, to_int, ratio, with_bps, with_latency, start_client,
  set_callback, at_least,
}
use rsound.Cuse.Acts.{Live, same_buffer-Live}

-- A number of bytes per second that an int holds, and by which one can divide.
abbrev divisor : Option ℤ → Bool
divisor none = false
divisor (some (pos zero)) = false
divisor (some (pos (suc n))) = true
divisor (some (negsuc n)) = true

-- The parameters with which the arithmetic of `ross_start` is defined.
abbrev pub startable : Ross → Bool
startable ro = divisor (bytes_per_second ro) && ltb (1000 * ro.bufsize) (2 ^ 31)

-- The stream after `ross_start`: its state differs in these parts, and it plays an empty FIFO or
-- it is not started.
abbrev pub Starts : Ross → Bool × Ross → Type 0
Starts ro (ok, ro1) =
    (ro1 ≡ record ro { rd = ro1.rd; bps = ro1.bps; started = ok; buffer = ro1.buffer })
    × (ok ≡ true → Live [] ro1)
    × ((to_unsigned 64 ro1.bps == 0) ≡ false)

start_client-Starts :
    (client : Client) (ro : Ross) (o : Option Fifo)
    → ((f : Fifo) → o ≡ some f → Live [] (record ro { buffer = some f }))
    → ro.started ≡ false
    → (to_unsigned 64 ro.bps == 0) ≡ false
    → Starts ro (start_client client ro o)
start_client-Starts client ro none l e z = (
  ap {A = Bool} {B = Ross} (λ b. record ro { started = b; buffer = none }) e,
  λ h. absurd (cc),
  z,
)
start_client-Starts client ro (some f) l e z = by_start (client.start ro.rd)
  where
    by_start :
        (r : Bool × Rsound)
        → Starts ro (r.0, record ro { rd = r.1; started = r.0 || ro.started; buffer = some f })
    by_start (true, rd) = (refl, λ h. let k = l f refl in same_buffer-Live refl k, z)
    by_start (false, rd) = (
      ap {A = Bool} {B = Ross} (λ b. record ro { rd = rd; started = b; buffer = some f }) e,
      λ h. absurd (cc),
      z,
    )

new-Live :
    (struct_ok storage_ok : Bool) (ro : Ross) (size : ℕ) (f : Fifo)
    → size < 2 ^ 62
    → Fifo.new struct_ok storage_ok size ≡ some f
    → Live [] (record ro { buffer = some f })
unfolding Fifo.new
new-Live true true ro size f h e =
    let (g, made, v, c, room) = new_lem size h in
    let same : g ≡ f = cc in record { fifo = g; same = ap some (sym same); valid = v; bytes = c }
new-Live true false ro size f h e = absurd (cc)
new-Live false storage_ok ro size f h e = absurd (cc)

and_left : (a b : Bool) → a && b ≡ true → a ≡ true
and_left true b h = refl
and_left false b h = h

and_right : (a b : Bool) → a && b ≡ true → b ≡ true
and_right true b h = h
and_right false b h = absurd (cc)

-- An int that is not 0 is not 0 either as 64 bits without sign.
to_int_divides :
    (a bps : ℤ)
    → to_int a ≡ some bps
    → divisor (some bps) ≡ true
    → (to_unsigned 64 bps == 0) ≡ false
to_int_divides (pos n) (pos zero) e d = absurd (cc)
to_int_divides (pos n) (pos (suc m)) e d = ground arith
to_int_divides (pos n) (negsuc m) e d = ground arith
to_int_divides (negsuc n) (pos zero) e d = absurd (cc)
to_int_divides (negsuc n) (pos (suc m)) e d = ground arith
to_int_divides (negsuc n) (negsuc m) e d = ground arith

times_int_divides :
    (o : Option ℤ) (b bps : ℤ)
    → divisor (times_int o b) ≡ true
    → times_int o b ≡ some bps
    → (to_unsigned 64 bps == 0) ≡ false
times_int_divides none b bps d e = absurd (cc)
times_int_divides (some a) b bps d e = to_int_divides (a *ℤ b) bps e (sym (ap divisor e) ∙ d)

divides : (n : ℕ) (bps : ℤ) → divisor (some bps) ≡ true → (k : ℤ) × (ratio n bps ≡ some k)
divides n (pos zero) d = absurd (cc)
divides n (pos (suc m)) d = (pos (n / suc m), refl)
divides n (negsuc m) d = (sub_ℕ 0 (n / suc m), refl)

module _ (client : Client) (struct_ok storage_ok : Bool) where
  abbrev latency_set : Ross → ℤ → Bool × Ross
  latency_set ro n =
      start_client client
        (record ro { rd = set_callback (set_param ro.rd (latency (at_least n))).1 })
        (Fifo.new struct_ok storage_ok ro.bufsize)

  with_latency-Starts :
      (ro : Ross) (n : ℤ)
      → ro.started ≡ false
      → ro.bufsize < 2 ^ 62
      → (to_unsigned 64 ro.bps == 0) ≡ false
      → Starts ro (latency_set ro n)
  with_latency-Starts ro n e h z =
      let ro1 = record ro { rd = set_callback (set_param ro.rd (latency (at_least n))).1 } in
      start_client-Starts client ro1 (Fifo.new struct_ok storage_ok ro.bufsize)
        (λ f made. new-Live struct_ok storage_ok ro1 ro.bufsize f h made) e z

  with_bps-Starts :
      (ro : Ross) (o : Option ℤ)
      → divisor o && ltb (1000 * ro.bufsize) (2 ^ 31) ≡ true
      → ro.started ≡ false
      → ((bps : ℤ) → o ≡ some bps → (to_unsigned 64 bps == 0) ≡ false)
      → (r : Bool × Ross) × (with_bps client struct_ok storage_ok ro o ≡ some r) × Starts ro r
  with_bps-Starts ro none h e z = absurd (cc)
  with_bps-Starts ro (some bps) h e z =
      let small : ltb (1000 * ro.bufsize) (2 ^ 31) ≡ true =
        and_right (divisor (some bps)) (ltb (1000 * ro.bufsize) (2 ^ 31)) h in
      let (k, quotient) =
        divides (1000 * ro.bufsize) bps
          (and_left (divisor (some bps)) (ltb (1000 * ro.bufsize) (2 ^ 31)) h) in
      let ro1 : Ross = record ro { bps = bps } in
      (
        latency_set ro1 k,
        ap
              (λ b.
                if b
                then with_latency client struct_ok storage_ok ro1 (ratio (1000 * ro.bufsize) bps)
                else none)
              small
            ∙ ap (with_latency client struct_ok storage_ok ro1) quotient,
        with_latency-Starts ro1 k e (bound (ltb→lt (1000 * ro.bufsize) (2 ^ 31) small))
            (z bps refl),
      )
    where
      bound : 1000 * ro.bufsize < 2 ^ 31 → ro.bufsize < 2 ^ 62
      bound h = omega arith

  pub ross_start-Starts :
      (ro : Ross)
      → startable ro ≡ true
      → ro.started ≡ false
      → (r : Bool × Ross) × (ross_start client struct_ok storage_ok ro ≡ some r) × Starts ro r
  unfolding ross_start
  ross_start-Starts ro h e = with_bps-Starts ro (bytes_per_second ro) h e (λ bps same.
      times_int_divides (times_int (some ro.channels) ro.rate) (pos ro.rd.samplesize) bps
        (and_left (divisor (bytes_per_second ro)) (ltb (1000 * ro.bufsize) (2 ^ 31)) h) same)
