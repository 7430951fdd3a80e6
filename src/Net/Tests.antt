-- ===== src/Net/Tests.antt =====
-- The socket loops of src/librsound/librsound.c and src/client.c at concrete inputs.
use rsound.Base.{
  ◌≡◌, ◌≤◌, ◌⊎◌, ◌++◌, refl, true, false, none, some, List, [], ◌∷◌, ℕ, length, arith,
}
use rsound.Net.{
  Event, polled, interrupted, failed, returned, send_chunk, recv_chunk, write_all, flatten,
}
use rsound.Net.Send.{Small, send_chunk_lem, send_chunk-terminates, answers}
use rsound.Net.Recv.{recv_chunk_lem, recv_chunk-send_chunk}

abbrev message : List ℕ
message = 7 ∷ 8 ∷ 9 ∷ []

-- Two bytes go, `poll` is interrupted, then the last byte goes.
abbrev slow : List Event
slow = polled true false (some 2) ∷ interrupted ∷ polled true true (some 5) ∷ []

abbrev packets : List (List ℕ)
packets = (7 ∷ 8 ∷ []) ∷ (9 ∷ []) ∷ []

send_chunk-slow : send_chunk true message 0 slow ≡ (returned 3, packets)
unfolding send_chunk
send_chunk-slow = refl

send_chunk-timeout : (send_chunk true message 0 (polled false false none ∷ [])).0 ≡ failed
unfolding send_chunk
send_chunk-timeout = refl

send_chunk-would_block :
    (send_chunk false message 0 (polled true false (some 1) ∷ polled false false none ∷ [])).0
    ≡ returned 1
unfolding send_chunk
send_chunk-would_block = refl

abbrev in_two : List Event
in_two = polled true false (some 1) ∷ polled true false (some 9) ∷ []

recv_chunk-in_two : (recv_chunk true 3 [] (flatten packets ++ (1 ∷ [])) in_two).outcome ≡ returned 3
unfolding recv_chunk flatten
recv_chunk-in_two = refl

-- The server closes after one byte: the result is 0.
recv_chunk-closed : (recv_chunk true 3 [] (4 ∷ []) in_two).outcome ≡ returned 0
unfolding recv_chunk
recv_chunk-closed = refl

send_chunk_lem_example :
    (flatten packets ≡ message) × (3 ≤ 3) × Small packets × ((true ≡ false) ⊎ (3 ≡ length message))
send_chunk_lem_example = send_chunk_lem true message slow 3 packets send_chunk-slow

abbrev pair : List ℕ
pair = 1 ∷ 2 ∷ []

answers-slow : length pair ≤ answers slow
unfolding answers
answers-slow = omega arith

send_chunk-terminates_example : (send_chunk true pair 0 slow).0 ≡ returned 2
send_chunk-terminates_example = send_chunk-terminates true pair slow answers-slow

recv_chunk_lem_example :
    let r = recv_chunk true 3 [] (flatten packets ++ (1 ∷ [])) in_two in
    (r.buffer ++ r.stream ≡ flatten packets ++ (1 ∷ []))
    × (length r.buffer ≡ 3)
    × (3 ≤ 3)
    × ((true ≡ false) ⊎ (3 ≡ length message))
recv_chunk_lem_example =
    recv_chunk_lem true 3 (flatten packets ++ (1 ∷ [])) in_two 2 recv_chunk-in_two

recv_chunk-send_chunk_example :
    let r = recv_chunk true 3 [] (flatten packets ++ (1 ∷ [])) in_two in
    (r.buffer ≡ message) × (r.stream ≡ 1 ∷ []) × (3 ≡ length message)
recv_chunk-send_chunk_example =
    recv_chunk-send_chunk true message (1 ∷ []) slow in_two packets 2 send_chunk-slow
      recv_chunk-in_two

write_all-two : (write_all message 0 (some 2 ∷ some 2 ∷ [])).0 ≡ returned 3
unfolding write_all
write_all-two = refl
