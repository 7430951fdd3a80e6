-- ===== src/Client/Update.antt =====
-- `rsnd_update_server_info` of src/librsound/librsound.c: the client reads the server's replies
-- and corrects its delay.
use rsound.Base.{
  ℕ, ◌*◌, ◌&&◌, ◌||◌, Bool, false, Option, none, some, List, [], ◌∷◌, ◌++◌, ◌==◌, ltb,
  if◌then◌else◌, length, drop, replicate,
}
use rsound.Base.Int.{ℤ, pos, negsuc, ◌+ℤ◌, ◌-ℤ◌, to_signed, to_unsigned, ltb_ℤ}
use rsound.Net.{Event, Outcome, pending, failed, returned, Received, recv_chunk}
use rsound.Proto.Number.{Number, number, to_long, to_unsigned_long}
use rsound.Proto.Serve.{c_string, find, rsd_text, int64}
use rsound.Client.{Rsound}
use rsound.Client.Delay.{Elapsed, delay, held}

-- "INFO"
abbrev pub info_name : List ℕ
info_name = b'I' ∷ b'N' ∷ b'F' ∷ b'O' ∷ []

-- What a message says: nothing of interest, or something wrong, or the two counts.
pub data Message : Type 0 where
  ignored wrong : Message
  counts : ℤ → ℤ → Message

abbrev pub read_server : ℤ → List ℕ → Message
read_server client_ptr tmpstr =
    let serv_ptr = int64 (to_unsigned_long (number tmpstr)) in
    if ltb_ℤ (pos 0) serv_ptr then counts client_ptr serv_ptr else wrong

abbrev pub read_client : Number → Message
read_client r =
    let client_ptr = to_unsigned_long r in
    if (client_ptr == 0) || (length r.rest == 0)
    then wrong
    else read_server (int64 client_ptr) r.rest

unfoldable pub read_info : List ℕ → Message
read_info temp = elim (find info_name temp) [
  | none ↦ ignored
  | some substr ↦ read_client (number (drop 4 substr))
]

-- The length in a small header, after "RSD".
unfoldable pub length_of : List ℕ → Option ℤ
length_of header = elim (find rsd_text (c_string header)) [
  | none ↦ none
  | some substr ↦ some (to_long (number (drop 3 substr)))
]

-- The buffer `temp` once a body has been read over the header.
abbrev pub overlay : List ℕ → List ℕ → List ℕ
overlay header body = c_string (body ++ drop (length body) (header ++ replicate 249 0))

-- How the loop ends: with the last counts that it saw, or with -1, or with more than the 257 bytes
-- of `temp` stored, or it waits for the script's next answers.
pub data End : Type 0 where
  seen : Option (ℤ × ℤ) → End
  error overrun looping : End

-- What the system answers to the two reads of a pass.
pub record Pass : Type 0 where
  pub header : List Event
  pub body : List Event

abbrev pub on_message :
    (Option (ℤ × ℤ) → List ℕ → End × List ℕ) → Option (ℤ × ℤ) → List ℕ → Message → End × List ℕ
on_message continue last s ignored = continue last s
on_message continue last s wrong = (error, s)
on_message continue last s (counts c v) = continue (some (c, v)) s

-- The body, of the announced length, from the result of reading it; one below the length is an
-- error.
abbrev pub parse_body :
    (Option (ℤ × ℤ) → List ℕ → End × List ℕ)
    → Option (ℤ × ℤ)
    → List ℕ
    → ℤ
    → Received
    → ℤ
    → End × List ℕ
parse_body continue last header len r rc =
    if ltb_ℤ rc len
    then (error, r.stream)
    else if ltb 257 (length r.buffer)
    then (overrun, r.stream)
    else on_message continue last r.stream (read_info (overlay header r.buffer))

abbrev pub on_body :
    (Option (ℤ × ℤ) → List ℕ → End × List ℕ)
    → Option (ℤ × ℤ)
    → List ℕ
    → ℤ
    → Received
    → Outcome
    → End × List ℕ
on_body continue last header len r pending = (looping, r.stream)
on_body continue last header len r failed = parse_body continue last header len r (negsuc 0)
on_body continue last header len r (returned rc) = parse_body continue last header len r (pos rc)

abbrev pub on_header :
    (Option (ℤ × ℤ) → List ℕ → End × List ℕ)
    → Pass
    → Option (ℤ × ℤ)
    → Received
    → Outcome
    → End × List ℕ
on_header continue p last r pending = (looping, r.stream)
on_header continue p last r failed = (error, r.stream)
on_header continue p last r (returned rc) =
    if rc == 0
    then (seen last, r.stream)
    else if ltb rc 8
    then (error, r.stream)
    else elim (length_of r.buffer) [
      | none ↦ (error, r.stream)
      | some len ↦
          let b = recv_chunk false (to_unsigned 64 len) [] r.stream p.body in
          on_body continue last r.buffer len b b.outcome
    ]

-- The loop that reads messages, with the counts of the last one.
unfoldable pub read_messages : List Pass → Option (ℤ × ℤ) → List ℕ → End × List ℕ
read_messages [] last s = (looping, s)
read_messages (p ∷ ps) last s =
    let r = recv_chunk false 8 [] s p.header in on_header (read_messages ps) p last r r.outcome

-- The step of `delay_offset`, which is at most a chunk.
abbrev pub clamp : ℤ → ℤ → ℤ
clamp offset_delta max_offset =
    if ltb_ℤ offset_delta (pos 0 -ℤ max_offset)
    then pos 0 -ℤ max_offset
    else if ltb_ℤ max_offset offset_delta
    then max_offset
    else offset_delta

-- Whether the reply is recent: less than 4 chunks have been sent since the client's count.
abbrev pub is_recent : Rsound → ℤ → Bool
is_recent rd client_ptr =
    ltb_ℤ (pos rd.total_written -ℤ client_ptr) (pos (4 * rd.chunk_size))
    && ltb_ℤ client_ptr (pos rd.total_written)

-- What the server has yet to play by its own count, with what the client holds.
abbrev pub delta_of : Rsound → ℤ → ℤ → ℤ
delta_of rd client_ptr serv_ptr =
    to_signed 32 (to_signed 32 (client_ptr -ℤ serv_ptr) +ℤ pos (held rd))

-- The end of `rsnd_update_server_info`, with the counts.
unfoldable pub correct : Elapsed → ℤ → ℤ → Rsound → Rsound
correct t client_ptr serv_ptr rd =
    let (d, rd1) = delay t rd in
    let offset_delta = delta_of rd client_ptr serv_ptr -ℤ to_signed 32 (pos d) in
    if ltb_ℤ (pos 0) client_ptr && ltb_ℤ (pos 0) serv_ptr
    then (if is_recent rd client_ptr
        then record rd1 {
          delay_offset = rd1.delay_offset +ℤ clamp offset_delta (pos rd.chunk_size);
        }
        else rd1)
    else rd

abbrev pub finish : Elapsed → Rsound → End → End × Rsound
finish t rd (seen none) = (seen none, rd)
finish t rd (seen (some (c, v))) = (seen (some (c, v)), correct t c v rd)
finish t rd error = (error, rd)
finish t rd overrun = (overrun, rd)
finish t rd looping = (looping, rd)

-- `rsnd_update_server_info`: how it ends, and the state after.
unfoldable pub update_server_info : List Pass → Elapsed → List ℕ → Rsound → End × Rsound
update_server_info ps t s rd = finish t rd (read_messages ps none s).0
