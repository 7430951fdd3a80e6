-- ===== src/Net/Send.antt =====
-- src/librsound/librsound.c: what `rsnd_send_chunk` sends, and when it returns.
use rsound.Base.{
  ℕ, zero, suc, ◌+◌, ◌-◌, ◌≤◌, ◌≡◌, refl, Bool, true, false, some, none, Option, drop_all,
  bytes_at-drop, List, [], ◌∷◌, ◌++◌, min, arith, length, take, drop, bytes_at, length-append, ltb,
  Bool-cases, inl, inr, ap, ◌⊎◌, length-bytes_at, bytes_at-extend,
}
use rsound.Net.{
  write_all, Event, polled, interrupted, poll_failed, Outcome, pending, failed, returned,
  send_chunk, flatten, packet_size, max_packet,
}

-- Every packet within the limit.
pub Small : List (List ℕ) → Type 0
Small [] = Unit
Small (p ∷ ps) = (length p ≤ max_packet) × Small ps

sent_within :
    (blocking : Bool) (buf : List ℕ) (w : ℕ) (es : List Event)
    → w ≤ length buf
    → w + length (flatten (send_chunk blocking buf w es).1) ≤ length buf
unfolding send_chunk flatten
sent_within blocking buf w [] h = ground arith
sent_within blocking buf w (interrupted ∷ es) h = ground (arith, sent_within blocking buf w es h)
sent_within blocking buf w (poll_failed ∷ es) h = ground arith
sent_within blocking buf w (polled true hup none ∷ es) h = ground arith
sent_within blocking buf w (polled true hup (some room) ∷ es) h =
    let rc = min room (packet_size (length buf - w)) in
    ground (
      arith,
      sent_within blocking buf (w + rc) es (ground arith),
      length-bytes_at buf w rc (ground arith),
      length-append (bytes_at buf w rc) (flatten (send_chunk blocking buf (w + rc) es).1),
    )
sent_within blocking buf w (polled false true io ∷ es) h = ground arith
sent_within blocking buf w (polled false false io ∷ es) h = ground arith

sent_bytes :
    (blocking : Bool) (buf : List ℕ) (w : ℕ) (es : List Event)
    → w ≤ length buf
    → let sent = flatten (send_chunk blocking buf w es).1 in sent ≡ bytes_at buf w (length sent)
unfolding send_chunk flatten
sent_bytes blocking buf w [] h = ground arith
sent_bytes blocking buf w (interrupted ∷ es) h = ground (arith, sent_bytes blocking buf w es h)
sent_bytes blocking buf w (poll_failed ∷ es) h = ground arith
sent_bytes blocking buf w (polled true hup none ∷ es) h = ground arith
sent_bytes blocking buf w (polled true hup (some room) ∷ es) h =
    elim (Bool-cases (ltb w (length buf))) [
      | inl lt ↦
          let rc = min room (packet_size (length buf - w)) in
          rw lt (
            bytes_at-extend buf _ w rc (ground arith)
              (sent_bytes blocking buf (w + rc) es (ground arith)))
      | inr ge ↦ rw ge (refl)
    ]
sent_bytes blocking buf w (polled false true io ∷ es) h = ground arith
sent_bytes blocking buf w (polled false false io ∷ es) h = ground arith

sent-Small :
    (blocking : Bool) (buf : List ℕ) (w : ℕ) (es : List Event)
    → w ≤ length buf
    → Small (send_chunk blocking buf w es).1
unfolding send_chunk Small
sent-Small blocking buf w [] h = ground arith
sent-Small blocking buf w (interrupted ∷ es) h = ground (arith, sent-Small blocking buf w es h)
sent-Small blocking buf w (poll_failed ∷ es) h = ground arith
sent-Small blocking buf w (polled true hup none ∷ es) h = ground arith
sent-Small blocking buf w (polled true hup (some room) ∷ es) h =
    let rc = min room (packet_size (length buf - w)) in
    ground (
      arith,
      sent-Small blocking buf (w + rc) es (ground arith),
      length-bytes_at buf w rc (ground arith),
    )
sent-Small blocking buf w (polled false true io ∷ es) h = ground arith
sent-Small blocking buf w (polled false false io ∷ es) h = ground arith

-- What a loop reports, or `d` where it returns nothing.
reported : Outcome → ℕ → ℕ
reported pending d = d
reported failed d = d
reported (returned n) d = n

sent_reported :
    (blocking : Bool) (buf : List ℕ) (w : ℕ) (es : List Event)
    → w ≤ length buf
    → let (o, ps) = send_chunk blocking buf w es in
      reported o (w + length (flatten ps)) ≡ w + length (flatten ps)
unfolding send_chunk flatten reported
sent_reported blocking buf w [] h = ground arith
sent_reported blocking buf w (interrupted ∷ es) h =
    ground (arith, sent_reported blocking buf w es h)
sent_reported blocking buf w (poll_failed ∷ es) h = ground arith
sent_reported blocking buf w (polled true hup none ∷ es) h = ground arith
sent_reported blocking buf w (polled true hup (some room) ∷ es) h =
    let rc = min room (packet_size (length buf - w)) in
    let l : w + length (bytes_at buf w rc ++ (flatten (send_chunk blocking buf (w + rc) es).1))
        ≡ w + rc + length (flatten (send_chunk blocking buf (w + rc) es).1) =
      omega (
        arith,
        length-append (bytes_at buf w rc) (flatten (send_chunk blocking buf (w + rc) es).1),
        length-bytes_at buf w rc (ground arith),
      ) in
    elim (Bool-cases (ltb w (length buf))) [
      | inl lt ↦ rw (lt, l) (sent_reported blocking buf (w + rc) es (ground arith))
      | inr ge ↦ rw ge (ground arith)
    ]
sent_reported blocking buf w (polled false true io ∷ es) h = ground arith
sent_reported blocking buf w (polled false false io ∷ es) h = ground arith

blocking_all :
    (buf : List ℕ) (w n : ℕ) (es : List Event)
    → w ≤ length buf
    → (send_chunk true buf w es).0 ≡ returned n
    → n ≡ length buf
unfolding send_chunk
blocking_all buf w n [] h e = ground arith
blocking_all buf w n (interrupted ∷ es) h e = ground (arith, blocking_all buf w n es h)
blocking_all buf w n (poll_failed ∷ es) h e = ground arith
blocking_all buf w n (polled true hup none ∷ es) h e = ground arith
blocking_all buf w n (polled true hup (some room) ∷ es) h e =
    let rc = min room (packet_size (length buf - w)) in
    ground (arith, blocking_all buf (w + rc) n es (ground arith))
blocking_all buf w n (polled false true io ∷ es) h e = ground arith
blocking_all buf w n (polled false false io ∷ es) h e = ground arith

-- Whatever the system answers: when `rsnd_send_chunk` returns `n`, the packets it sent are, in
-- order, the first `n` bytes of the buffer, none over 1024 bytes, and a blocking call has sent
-- them all.
pub send_chunk_lem :
    (blocking : Bool) (buf : List ℕ) (es : List Event) (n : ℕ) (ps : List (List ℕ))
    → send_chunk blocking buf 0 es ≡ (returned n, ps)
    → (flatten ps ≡ take n buf)
      × (n ≤ length buf)
      × Small ps
      × ((blocking ≡ false) ⊎ (n ≡ length buf))
unfolding reported
send_chunk_lem blocking buf es n ps e =
    let count : n ≡ 0 + length (flatten ps) =
      rw e at (sent_reported blocking buf 0 es (omega arith)) in
    let len : length (flatten ps) ≡ n = omega arith in
    let bytes : flatten ps ≡ take (length (flatten ps)) buf =
      rw e at (sent_bytes blocking buf 0 es (omega arith)) in
    let within : 0 + length (flatten ps) ≤ length buf =
      rw e at (sent_within blocking buf 0 es (omega arith)) in
    let small : Small ps = rw e at (sent-Small blocking buf 0 es (omega arith)) in
    (rw len at bytes, omega arith, small, all blocking (ap (λ r. r.0) e))
  where
    all : (b : Bool) → (send_chunk b buf 0 es).0 ≡ returned n → (b ≡ false) ⊎ (n ≡ length buf)
    all true h = inr (blocking_all buf 0 n es (omega arith) h)
    all false h = inl refl

-- The answers before the first one that lets no byte through, interruptions apart.
unfoldable pub answers : List Event → ℕ
answers [] = 0
answers (interrupted ∷ es) = answers es
answers (poll_failed ∷ es) = 0
answers (polled true hup none ∷ es) = 0
answers (polled true hup (some zero) ∷ es) = 0
answers (polled true hup (some (suc room)) ∷ es) = suc (answers es)
answers (polled false hup io ∷ es) = 0

send_answered :
    (blocking : Bool) (buf : List ℕ) (w : ℕ) (es : List Event)
    → w ≤ length buf
    → length buf ≤ w + answers es
    → (send_chunk blocking buf w es).0 ≡ returned (length buf)
unfolding send_chunk answers
send_answered blocking buf w [] h k = ground arith
send_answered blocking buf w (interrupted ∷ es) h k =
    ground (arith, send_answered blocking buf w es h)
send_answered blocking buf w (poll_failed ∷ es) h k = ground arith
send_answered blocking buf w (polled true hup none ∷ es) h k = ground arith
send_answered blocking buf w (polled true hup (some zero) ∷ es) h k = ground arith
send_answered blocking buf w (polled true hup (some (suc room)) ∷ es) h k =
    let rc = min (suc room) (packet_size (length buf - w)) in
    elim (Bool-cases (ltb w (length buf))) [
      | inl lt ↦ rw lt (send_answered blocking buf (w + rc) es (ground arith) (ground arith))
      | inr ge ↦ ground arith
    ]
send_answered blocking buf w (polled false true io ∷ es) h k = ground arith
send_answered blocking buf w (polled false false io ∷ es) h k = ground arith

-- `rsnd_send_chunk` returns with every byte sent once the system has let through as many
-- non-empty sends as there are bytes, however often `poll` was interrupted.
pub send_chunk-terminates :
    (blocking : Bool) (buf : List ℕ) (es : List Event)
    → length buf ≤ answers es
    → (send_chunk blocking buf 0 es).0 ≡ returned (length buf)
send_chunk-terminates blocking buf es h =
    send_answered blocking buf 0 es (omega arith) (omega arith)

write_all_rest :
    (buf : List ℕ) (w : ℕ) (es : List (Option ℕ)) (n : ℕ)
    → w ≤ length buf
    → (write_all buf w es).0 ≡ returned (suc n)
    → (flatten (write_all buf w es).1 ≡ drop w buf) × (suc n ≡ length buf)
unfolding write_all flatten
write_all_rest buf w [] n h e = ground (arith, drop_all w buf)
write_all_rest buf w (none ∷ es) n h e = ground (arith, drop_all w buf)
write_all_rest buf w (some room ∷ es) n h e =
    let rc = min room (length buf - w) in
    ground (
      arith,
      drop_all w buf,
      write_all_rest buf (w + rc) es n (ground arith),
      bytes_at-drop buf w rc,
    )

-- When `write_all` returns a size over 0, it has sent the whole buffer in order, and the size is
-- the buffer's.
pub write_all_lem :
    (buf : List ℕ) (es : List (Option ℕ)) (n : ℕ)
    → (write_all buf 0 es).0 ≡ returned (suc n)
    → (flatten (write_all buf 0 es).1 ≡ buf) × (suc n ≡ length buf)
write_all_lem buf es n e = write_all_rest buf 0 es n (omega arith) e
