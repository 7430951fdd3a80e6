-- ===== src/Fifo/Refine.antt =====
-- A valid FIFO of src/librsound/buffer.c behaves as the queue of the bytes that it holds.
use rsound.Base.{
  Option-cases, sym, ◌∙◌, ℕ, zero, suc, ◌+◌, ◌-◌, ◌%◌, ◌≤◌, ◌<◌, min, ◌≡◌, refl, ap, Bool-cases,
  inl, inr, true, false, none, some, List, [], ◌∷◌, ◌++◌, arith, ltb, leb, if◌then◌else◌, length,
  get_or, take, drop, length-append, length-take, length-drop, get_or-append, get_or-take,
  get_or-drop, list_ext, mod_once, get_or-memcpy, memcpy, bytes_at, length-memcpy,
}
use rsound.Fifo.{Fifo, read_avail, write_avail, write, read, run}
use mathlib.Core.Option
use rsound.Fifo.Queue
use rsound.Fifo.Queue.{Queue, Op, put, get, push, pop}
use rsound.Fifo.Inv.{
  IsValid, read_avail_lem, read_avail-lt, avail-add, before_wrap_lem, store, length-store,
  write-some, write-IsValid, read-IsValid,
}

abbrev tabulate : ℕ → (ℕ → ℕ) → List ℕ
tabulate zero g = []
tabulate (suc n) g = g 0 ∷ tabulate n (λ i. g (suc i))

length-tabulate : (n : ℕ) (g : ℕ → ℕ) → length (tabulate n g) ≡ n
length-tabulate zero g = refl
length-tabulate (suc n) g = ap suc (length-tabulate n (λ i. g (suc i)))

get_or-tabulate : (n : ℕ) (g : ℕ → ℕ) (i : ℕ) → i < n → get_or (tabulate n g) i 0 ≡ g i
get_or-tabulate zero g i h = absurd (omega arith)
get_or-tabulate (suc n) g zero h = refl
get_or-tabulate (suc n) g (suc i) h = get_or-tabulate n (λ k. g (suc k)) i (omega arith)

-- The index of the storage where the `i`-th byte after `first` lies.
abbrev pub slot : Fifo → ℕ → ℕ
slot f i = if ltb (f.first + i) f.bufsize then f.first + i else f.first + i - f.bufsize

-- The bytes held, oldest first.
unfoldable pub contents : Fifo → Queue
contents f = tabulate (read_avail f) (λ i. get_or f.buffer (slot f i) 0)

pub length-contents : (f : Fifo) → length (contents f) ≡ read_avail f
unfolding contents
length-contents f = length-tabulate (read_avail f) _

get_or-contents :
    (f : Fifo) (i : ℕ) → i < read_avail f → get_or (contents f) i 0 ≡ get_or f.buffer (slot f i) 0
unfolding contents
get_or-contents f i h = get_or-tabulate (read_avail f) _ i h

-- The byte at each index after a split write.
get_or-store :
    (buf : List ℕ) (i k : ℕ) (xs : List ℕ) (j : ℕ)
    → k ≤ length xs
    → i + k ≤ length buf
    → length xs ≤ i + k
    → get_or (store buf i k xs) j 0 ≡ (
        if ltb j (length xs - k)
        then get_or xs (k + j) 0
        else if ltb j i
        then get_or buf j 0
        else if ltb j (i + k)
        then get_or xs (j - i) 0
        else get_or buf j 0)
get_or-store buf i k xs j h p q = ground (
  arith,
  get_or-memcpy (memcpy buf i (take k xs)) (drop k xs) 0 j 0,
  get_or-memcpy buf (take k xs) i j 0,
  length-memcpy buf (take k xs) i,
  get_or-drop k xs j 0,
  get_or-take k xs (j - i) 0,
  length-take k xs,
  length-drop k xs,
)

-- The state after an accepted write, and what it holds.
abbrev written : Fifo → List ℕ → Fifo
written f xs = record f {
  buffer = store f.buffer f.end (min (length xs) (f.bufsize - f.end)) xs;
  end = (f.end + length xs) % f.bufsize;
}

module _ {f : Fifo} (xs : List ℕ) (v : IsValid f)
    (fits : length xs + read_avail f < f.bufsize) where
  end_mod : (f.end + length xs) % f.bufsize ≡ (
      if ltb (f.end + length xs) f.bufsize
      then f.end + length xs
      else f.end + length xs - f.bufsize)
  end_mod = mod_once (f.end + length xs) f.bufsize (omega (arith, v))

  written-IsValid : IsValid (written f xs)
  written-IsValid =
      ground (arith, end_mod, length-store f.buffer f.end (min (length xs) (f.bufsize - f.end)) xs)

  read_avail-written : read_avail (written f xs) ≡ read_avail f + length xs
  read_avail-written = ground (arith, end_mod, read_avail_lem v, read_avail_lem written-IsValid)

  written-old :
      (i : ℕ)
      → i < read_avail f
      → get_or (written f xs).buffer (slot f i) 0 ≡ get_or f.buffer (slot f i) 0
  written-old i h = ground (
    arith,
    read_avail_lem v,
    get_or-store f.buffer f.end (min (length xs) (f.bufsize - f.end)) xs (slot f i),
  )

  written-new :
      (i : ℕ)
      → i < length xs
      → get_or (written f xs).buffer (slot f (read_avail f + i)) 0 ≡ get_or xs i 0
  written-new i h = ground (
    arith,
    read_avail_lem v,
    get_or-store f.buffer f.end (min (length xs) (f.bufsize - f.end)) xs
        (slot f (read_avail f + i)),
  )

  contents-written : contents (written f xs) ≡ contents f ++ xs
  contents-written =
      list_ext _ _ 0
        (omega (arith, lengths, length-contents (written f xs), length-contents f, grown))
        (λ i h. entry i (omega (arith, length-contents (written f xs), grown)))
    where
      grown : read_avail (written f xs) ≡ read_avail f + length xs
      grown = read_avail-written

      lengths : length (contents f ++ xs) ≡ length (contents f) + length xs
      lengths = length-append (contents f) xs

      entry :
          (i : ℕ)
          → i < read_avail f + length xs
          → get_or (contents (written f xs)) i 0 ≡ get_or (contents f ++ xs) i 0
      entry i h = ground (
        arith,
        grown,
        get_or-append (contents f) xs i 0,
        length-contents f,
        get_or-contents (written f xs) i,
        get_or-contents f i,
        written-old i,
        written-new (i - read_avail f),
      )

some-written :
    {f : Fifo} (xs : List ℕ)
    → IsValid f
    → leb (length xs) (write_avail f) ≡ true
    → write f xs ≡ some (written f xs)
unfolding write
some-written {f} xs v ok = ground (arith, ok, avail-add v, before_wrap_lem f.end (length xs) v)

none-written :
    (f : Fifo) (xs : List ℕ) → leb (length xs) (write_avail f) ≡ false → write f xs ≡ none
unfolding write
none-written f xs refused = rw refused

-- A valid FIFO accepts a write exactly when the queue of capacity `bufsize - 1` does, and then
-- holds the queue with the bytes appended in order.
pub write_refines :
    {f : Fifo} (xs : List ℕ)
    → IsValid f
    → Option.map contents (write f xs) ≡ push (f.bufsize - 1) (contents f) xs
unfolding push
write_refines {f} xs v = elim (Bool-cases (leb (length xs) (write_avail f))) [
  | inl ok ↦
      rw (some-written xs v ok)
        (ground (arith, ok, avail-add v, length-contents f, contents-written xs v))
  | inr refused ↦
      rw (none-written f xs refused) (ground (arith, refused, avail-add v, length-contents f))
]

-- The state after an accepted read, and the bytes that it returns.
abbrev consumed : Fifo → ℕ → Fifo
consumed f n = record f { first = (f.first + n) % f.bufsize }

abbrev oldest : Fifo → ℕ → List ℕ
oldest f n =
    let k = min n (f.bufsize - f.first) in
    bytes_at f.buffer f.first k ++ bytes_at f.buffer 0 (n - k)

some-read :
    {f : Fifo} (n : ℕ)
    → IsValid f
    → leb n (read_avail f) ≡ true
    → read f n ≡ some (oldest f n, consumed f n)
unfolding read
some-read {f} n v ok = ground (arith, ok, read_avail-lt v, before_wrap_lem f.first n v)

none-read : (f : Fifo) (n : ℕ) → leb n (read_avail f) ≡ false → read f n ≡ none
unfolding read
none-read f n refused = rw refused

module _ {f : Fifo} (n : ℕ) (v : IsValid f) (fits : n ≤ read_avail f) where
  first_mod :
      (f.first + n) % f.bufsize
      ≡ (if ltb (f.first + n) f.bufsize then f.first + n else f.first + n - f.bufsize)
  first_mod = mod_once (f.first + n) f.bufsize (omega (arith, read_avail-lt v))

  consumed-IsValid : IsValid (consumed f n)
  consumed-IsValid = ground (arith, first_mod, read_avail-lt v)

  read_avail-consumed : read_avail (consumed f n) + n ≡ read_avail f
  read_avail-consumed = ground (arith, first_mod, read_avail_lem v, read_avail_lem consumed-IsValid)

  length-oldest : length (oldest f n) ≡ n
  length-oldest =
      let k = min n (f.bufsize - f.first) in
      omega (
        arith,
        read_avail-lt v,
        length-append (bytes_at f.buffer f.first k) (bytes_at f.buffer 0 (n - k)),
        length-take k (drop f.first f.buffer),
        length-take (n - k) f.buffer,
        length-drop f.first f.buffer,
      )

  get_or-oldest : (i : ℕ) → i < n → get_or (oldest f n) i 0 ≡ get_or f.buffer (slot f i) 0
  get_or-oldest i h =
      let k = min n (f.bufsize - f.first) in
      ground (
        arith,
        read_avail-lt v,
        get_or-append (bytes_at f.buffer f.first k) (bytes_at f.buffer 0 (n - k)) i 0,
        length-take k (drop f.first f.buffer),
        length-drop f.first f.buffer,
        get_or-take k (drop f.first f.buffer) i 0,
        get_or-drop f.first f.buffer i 0,
        get_or-take (n - k) f.buffer (i - k) 0,
      )

  slot-consumed : (i : ℕ) → n + i < read_avail f → slot (consumed f n) i ≡ slot f (n + i)
  slot-consumed i h = ground (arith, first_mod, read_avail-lt v)

  oldest-eq-take : oldest f n ≡ take n (contents f)
  oldest-eq-take =
      list_ext _ _ 0 (omega (arith, length-oldest, length-take n (contents f), length-contents f))
        (λ i h. entry i (omega (arith, length-oldest)))
    where
      entry : (i : ℕ) → i < n → get_or (oldest f n) i 0 ≡ get_or (take n (contents f)) i 0
      entry i h =
          ground (arith, get_or-oldest i h, get_or-take n (contents f) i 0, get_or-contents f i)

  contents-consumed : contents (consumed f n) ≡ drop n (contents f)
  contents-consumed =
      list_ext _ _ 0
        (omega (arith, shrunk, sizes, length-contents (consumed f n), length-contents f))
        (λ i h. entry i (omega (arith, shrunk, length-contents (consumed f n))))
    where
      shrunk : read_avail (consumed f n) + n ≡ read_avail f
      shrunk = read_avail-consumed

      sizes : length (drop n (contents f)) ≡ length (contents f) - n
      sizes = length-drop n (contents f)

      entry :
          (i : ℕ)
          → n + i < read_avail f
          → get_or (contents (consumed f n)) i 0 ≡ get_or (drop n (contents f)) i 0
      entry i h = ground (
        arith,
        shrunk,
        slot-consumed i h,
        get_or-drop n (contents f) i 0,
        get_or-contents (consumed f n) i,
        get_or-contents f (n + i),
      )

-- A valid FIFO accepts a read exactly when it holds that many bytes, returns the oldest ones in
-- order, and then holds the others.
pub read_refines :
    {f : Fifo} (n : ℕ)
    → IsValid f
    → Option.map (λ (xs, g). (xs, contents g)) (read f n) ≡ pop (contents f) n
unfolding pop
read_refines {f} n v = elim (Bool-cases (leb n (read_avail f))) [
  | inl ok ↦
      rw (some-read n v ok)
        (ground (arith, ok, length-contents f, oldest-eq-take n v, contents-consumed n v))
  | inr refused ↦ rw (none-read f n refused) (ground (arith, refused, length-contents f))
]

pub bufsize-write :
    {f g : Fifo} (xs : List ℕ) → IsValid f → write f xs ≡ some g → g.bufsize ≡ f.bufsize
bufsize-write xs v e = ground (arith, write-some xs v e)

pub bufsize-read :
    (f : Fifo) {g : Fifo} {out : List ℕ} (n : ℕ) → read f n ≡ some (out, g) → g.bufsize ≡ f.bufsize
unfolding read
bufsize-read f n e = ground arith

module _ (cap : ℕ) where
  push_refines :
      {f : Fifo} (xs : List ℕ)
      → IsValid f
      → f.bufsize ≡ suc cap
      → push cap (contents f) xs ≡ Option.map contents (write f xs)
  push_refines {f} xs v c =
      let e : cap ≡ f.bufsize - 1 = omega arith in rw e (sym (write_refines xs v))

  run_refines_cap :
      {f : Fifo} (ops : List Op)
      → IsValid f
      → f.bufsize ≡ suc cap
      → Option.map (λ (outs, g). (outs, contents g)) (run f ops) ≡ Queue.run cap (contents f) ops
  unfolding run Queue.run
  run_refines_cap [] v c = refl
  run_refines_cap {f} (put xs ∷ ops) v c = elim (Option-cases (write f xs)) [
    | inl e ↦ rw (push_refines xs v c, Queue.run, e, run)
    | inr (g, e) ↦
        rw (push_refines xs v c, Queue.run, e, run)
          (run_refines_cap ops (write-IsValid xs v e) (bufsize-write xs v e ∙ c))
  ]
  run_refines_cap {f} (get n ∷ ops) v c = elim (Option-cases (read f n)) [
    | inl e ↦ rw (← read_refines n v, Queue.run, e, run)
    | inr ((out, g), e) ↦
        rw (← read_refines n v, Queue.run, e, run)
          (rw (← run_refines_cap ops (read-IsValid n v e) (bufsize-read f n e ∙ c))
            (elim (Option-cases (run g ops)) [ inl h ↦ rw h | inr (r, h) ↦ rw h ]))
  ]

-- No sequence of reads and writes tells a valid FIFO from the queue of its contents with capacity
-- `bufsize - 1`: the reads return the same bytes, the same call fails first, and at the end the
-- FIFO holds the queue.
pub run_refines :
    {f : Fifo} (ops : List Op)
    → IsValid f
    → Option.map (λ (outs, g). (outs, contents g)) (run f ops)
      ≡ Queue.run (f.bufsize - 1) (contents f) ops
run_refines {f} ops v = run_refines_cap (f.bufsize - 1) ops v (omega (arith, v))
