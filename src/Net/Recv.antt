-- ===== src/Net/Recv.antt =====
-- src/librsound/librsound.c: what `rsnd_recv_chunk` stores, alone and behind `rsnd_send_chunk`.
use mathlib.Core.List.{append_assoc}
use rsound.Base.{
  ℕ, suc, ◌-◌, ◌≤◌, ◌<◌, ◌≡◌, refl, Bool, true, false, some, none, List, [], ◌∷◌, ◌++◌, min, arith,
  length, take, drop, length-append, ltb, length-take, Bool-cases, inl, inr, ap, ◌∙◌, ◌⊎◌, sym,
  take-append-drop, ◌==◌, ap₂, take-length-append, drop-length-append, take-length,
}
use rsound.Net.{
  Received, Outcome, Event, polled, interrupted, poll_failed, returned, recv_chunk, packet_size,
  send_chunk, flatten,
}
use rsound.Net.Send.{send_chunk_lem}

moved : (got s : List ℕ) (n : ℕ) → (got ++ take n s) ++ drop n s ≡ got ++ s
moved got s n = append_assoc got (take n s) (drop n s) ∙ ap (◌++◌ got) (take-append-drop n s)

recv_split :
    (blocking : Bool) (size : ℕ) (got s : List ℕ) (es : List Event)
    → let r = recv_chunk blocking size got s es in r.buffer ++ r.stream ≡ got ++ s
unfolding recv_chunk
recv_split blocking size got s [] = ground arith
recv_split blocking size got s (interrupted ∷ es) =
    ground (arith, recv_split blocking size got s es)
recv_split blocking size got s (poll_failed ∷ es) = ground arith
recv_split blocking size got s (polled true hup none ∷ es) = ground arith
recv_split blocking size got s (polled true hup (some room) ∷ es) =
    let rc = min (min room (length s)) (packet_size (size - length got)) in
    elim (Bool-cases (ltb (length got) size)) [
      | inl lt ↦ elim (Bool-cases (rc == 0)) [
        | inl z ↦ rw (lt, z) refl
        | inr nz ↦
            rw (lt, nz)
              (recv_split blocking size (got ++ take rc s) (drop rc s) es ∙ moved got s rc)
      ]
      | inr ge ↦ rw ge refl
    ]
recv_split blocking size got s (polled false true io ∷ es) = ground arith
recv_split blocking size got s (polled false false io ∷ es) = ground arith

grows :
    (got s : List ℕ) (size room : ℕ)
    → length got < size
    → let rc = min (min room (length s)) (packet_size (size - length got)) in
      length (got ++ take rc s) ≤ size
grows got s size room h =
    let rc = min (min room (length s)) (packet_size (size - length got)) in
    ground (arith, length-append got (take rc s), length-take rc s)

recv_within :
    (blocking : Bool) (size : ℕ) (got s : List ℕ) (es : List Event)
    → length got ≤ size
    → length (recv_chunk blocking size got s es).buffer ≤ size
unfolding recv_chunk
recv_within blocking size got s [] h = ground arith
recv_within blocking size got s (interrupted ∷ es) h =
    ground (arith, recv_within blocking size got s es)
recv_within blocking size got s (poll_failed ∷ es) h = ground arith
recv_within blocking size got s (polled true hup none ∷ es) h = ground arith
recv_within blocking size got s (polled true hup (some room) ∷ es) h =
    let rc = min (min room (length s)) (packet_size (size - length got)) in
    ground
      (arith, recv_within blocking size (got ++ take rc s) (drop rc s) es, grows got s size room)
recv_within blocking size got s (polled false true io ∷ es) h = ground arith
recv_within blocking size got s (polled false false io ∷ es) h = ground arith

-- A result over 0 is the number of stored bytes, and of a blocking call all that was asked for.
recv_counts :
    (blocking : Bool) (size : ℕ) (got s : List ℕ) (es : List Event) (n : ℕ)
    → length got ≤ size
    → (recv_chunk blocking size got s es).outcome ≡ returned (suc n)
    → (length (recv_chunk blocking size got s es).buffer ≡ suc n)
      × ((blocking ≡ false) ⊎ (suc n ≡ size))
unfolding recv_chunk
recv_counts blocking size got s [] n h e = ground arith
recv_counts blocking size got s (interrupted ∷ es) n h e =
    ground (arith, recv_counts blocking size got s es n)
recv_counts blocking size got s (poll_failed ∷ es) n h e = ground arith
recv_counts blocking size got s (polled true hup none ∷ es) n h e = ground arith
recv_counts blocking size got s (polled true hup (some room) ∷ es) n h e =
    let rc = min (min room (length s)) (packet_size (size - length got)) in
    ground
      (arith, recv_counts blocking size (got ++ take rc s) (drop rc s) es n, grows got s size room)
recv_counts blocking size got s (polled false true io ∷ es) n h e = ground arith
recv_counts true size got s (polled false false io ∷ es) n h e = ground arith
recv_counts false size got s (polled false false io ∷ es) n h e = ground arith

-- Whatever the system answers: `rsnd_recv_chunk` stores the first bytes of the stream, in order
-- and no more than the buffer takes, and leaves the rest in the stream; a result over 0 is their
-- number, and for a blocking call all that was asked for.
pub recv_chunk_lem :
    (blocking : Bool) (size : ℕ) (s : List ℕ) (es : List Event) (n : ℕ)
    → (recv_chunk blocking size [] s es).outcome ≡ returned (suc n)
    → let r = recv_chunk blocking size [] s es in
      (r.buffer ++ r.stream ≡ s)
      × (length r.buffer ≡ suc n)
      × (suc n ≤ size)
      × ((blocking ≡ false) ⊎ (suc n ≡ size))
recv_chunk_lem blocking size s es n e =
    let (len, all) = recv_counts blocking size [] s es n (omega arith) e in
    (
      recv_split blocking size [] s es,
      len,
      omega (arith, len, recv_within blocking size [] s es (omega arith)),
      all,
    )

pub split_at_length :
    (xs ys us vs : List ℕ) → xs ++ ys ≡ us ++ vs → length xs ≡ length us → (xs ≡ us) × (ys ≡ vs)
split_at_length xs ys us vs e l = (
  sym (take-length-append xs ys) ∙ (ap₂ take l e ∙ take-length-append us vs),
  sym (drop-length-append xs ys) ∙ (ap₂ drop l e ∙ drop-length-append us vs),
)

-- A non-empty buffer that one side sends with a blocking or complete `rsnd_send_chunk`, whatever
-- follows it in the stream, is what a blocking `rsnd_recv_chunk` of that size stores when it
-- returns a size over 0, and the rest of the stream is untouched.
pub recv_chunk-send_chunk :
    (blocking : Bool) (buf more : List ℕ) (sends receives : List Event) (ps : List (List ℕ)) (n : ℕ)
    → send_chunk blocking buf 0 sends ≡ (returned (length buf), ps)
    → (recv_chunk true (length buf) [] (flatten ps ++ more) receives).outcome ≡ returned (suc n)
    → let r = recv_chunk true (length buf) [] (flatten ps ++ more) receives in
      (r.buffer ≡ buf) × (r.stream ≡ more) × (suc n ≡ length buf)
recv_chunk-send_chunk blocking buf more sends receives ps n sent got =
    let (bytes, _, _, _) = send_chunk_lem blocking buf sends (length buf) ps sent in
    let (split, len, _, all) =
      recv_chunk_lem true (length buf) (flatten ps ++ more) receives n got in
    let whole : flatten ps ≡ buf = bytes ∙ take-length buf in
    let count : suc n ≡ length buf = ground arith in
    let (b, s) = split_at_length _ _ buf more (split ∙ ap (λ xs. xs ++ more) whole) (len ∙ count) in
    (b, s, count)

pub received_path :
    (r : Received) (o : Outcome) (b s : List ℕ)
    → r.outcome ≡ o
    → r.buffer ≡ b
    → r.stream ≡ s
    → r ≡ record { outcome = o; buffer = b; stream = s }
received_path r o b s eo eb es =
    ap₂ (λ o b. record { outcome = o; buffer = b; stream = r.stream }) eo eb
    ∙ ap (λ s. record { outcome = o; buffer = b; stream = s }) es

-- A read that gets all of a text in front of the stream.
pub recv_chunk_whole :
    (blocking : Bool) (xs ys : List ℕ) (es : List Event) (n : ℕ)
    → length xs ≡ suc n
    → (recv_chunk blocking (suc n) [] (xs ++ ys) es).outcome ≡ returned (suc n)
    → recv_chunk blocking (suc n) [] (xs ++ ys) es
      ≡ record { outcome = returned (suc n); buffer = xs; stream = ys }
recv_chunk_whole blocking xs ys es n len got =
    let (split, count, _, _) = recv_chunk_lem blocking (suc n) (xs ++ ys) es n got in
    let (b, s) = split_at_length _ _ xs ys split (count ∙ sym len) in
    received_path _ (returned (suc n)) xs ys got b s
