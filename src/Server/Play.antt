-- ===== src/Server/Play.antt =====
-- src/rsound-common.c: what `rsd_thread` plays and which sockets it closes.
use mathlib.Core.List.{append_assoc, append-nil}
use mathlib.Core.Path.{subst}
use rsound.Base.{
  count, count-append, ◌≡◌, ◌<◌, ◌+◌, refl, sym, ap, ◌∙◌, List, [], ◌∷◌, ◌++◌, ℕ, Bool, true, false,
  Option, none, some, ◌==◌, if◌then◌else◌, Bool-cases, inl, inr, ltb, length, take, drop, arith,
  not, ◌||◌, ◌&&◌, take-append-drop, drop-length-append,
}
use rsound.Wav.Decode.{WavHeader, get_wav_header}
use rsound.Wav.RoundTrip.{get_wav_header_sound}
use rsound.Client.Handshake.{send_backend_info}
use rsound.Proto.Serve.{Action, Connection, close_ctl}
use rsound.Server.Requests.{closings, closings-append, open_ctl}
use rsound.Server.Receive.{Receives, receive_data-Receives}
use rsound.Server.{Outcome, returned, overran, waiting, Receipt, receive_data}
use rsound.Server.Thread.{
  Settings, Chunk, Replies, ThreadEnd, exited, crashed, blocked, Played, unfinished, rsd_exit,
  forced, negotiated, Written, all, refused, some_left, write_chunk, announce, after, after_writes,
  after_read, play, with_backend, with_header, read_header, accepted, rsd_thread, resampled_to,
}

-- A thread that exits closes each descriptor of the list as often as it stands there; the number 0
-- stands for no descriptor.
abbrev pub Closes : ThreadEnd → List Action → List ℕ → Type 0
Closes exited actions fds = (fd : ℕ) → 0 < fd → count fd (closings actions) ≡ count fd fds
Closes crashed actions fds = Unit
Closes blocked actions fds = Unit

-- What is played is in front of the stream.
abbrev pub Front : List ℕ → List ℕ → Type 0
Front played s = (rest : List ℕ) × (played ++ rest ≡ s)

abbrev pub Plays : Connection → List ℕ → Played → Type 0
Plays conn s r = Front r.played s × Closes r.end r.actions (conn.socket ∷ open_ctl conn)

close_ctl_lem : (fd : ℕ) → closings (close_ctl fd) ≡ (if fd == 0 then [] else fd ∷ [])
close_ctl_lem fd = elim (Bool-cases (fd == 0)) [ inl z ↦ rw z refl | inr nz ↦ rw nz refl ]

rsd_exit-Plays : (conn : Connection) (s : List ℕ) → Plays conn s (rsd_exit conn)
rsd_exit-Plays conn s =
    ((s, refl), λ fd h. ap (λ fds. count fd (conn.socket ∷ fds)) (close_ctl_lem conn.ctl_socket))

if_Plays :
    (conn : Connection) (s : List ℕ) (x y : Played) (b : Bool)
    → Plays conn s x
    → Plays conn s y
    → Plays conn s (if b then x else y)
if_Plays conn s x y true h k = h
if_Plays conn s x y false h k = k

-- What a read has left of the sockets of a connection.
abbrev Left : Connection → Connection → List Action → Type 0
Left conn conn1 actions =
    (conn1.socket ≡ conn.socket) × (closings actions ++ open_ctl conn1 ≡ open_ctl conn)

after-Closes :
    (conn conn1 : Connection) (bytes : List ℕ) (actions : List Action) (r : Played)
    (end : ThreadEnd)
    → Left conn conn1 actions
    → Closes end r.actions (conn1.socket ∷ open_ctl conn1)
    → Closes end (after bytes actions r).actions (conn.socket ∷ open_ctl conn)
after-Closes conn conn1 bytes actions r exited (socket, ctl) h = λ fd k. omega (
  arith,
  ap (count fd) (closings-append actions r.actions),
  count-append fd (closings actions) (closings r.actions),
  h fd k,
  ap {B = ℕ} (λ n. if n == fd then 1 else 0) socket,
  ap (count fd) ctl,
  count-append fd (closings actions) (open_ctl conn1),
)
after-Closes conn conn1 bytes actions r crashed left h = tt
after-Closes conn conn1 bytes actions r blocked left h = tt

-- After a read whose bytes are played up to `bytes`, what comes later goes on with `s1`.
after-Plays :
    (conn conn1 : Connection) (s s1 bytes : List ℕ) (actions : List Action) (r : Played)
    → Left conn conn1 actions
    → bytes ++ s1 ≡ s
    → Plays conn1 s1 r
    → Plays conn s (after bytes actions r)
after-Plays conn conn1 s s1 bytes actions r left e ((rest, front), closes) = (
  (rest, append_assoc bytes r.played rest ∙ (ap (λ xs. bytes ++ xs) front ∙ e)),
  after-Closes conn conn1 bytes actions r r.end left closes,
)

unfinished-Plays : (conn : Connection) (s : List ℕ) → Plays conn s (unfinished blocked)
unfinished-Plays conn s = ((s, refl), tt)

crashed-Plays : (conn : Connection) (s : List ℕ) → Plays conn s (unfinished crashed)
crashed-Plays conn s = ((s, refl), tt)

-- What the loop of `write` leaves of the buffer.
abbrev Rests : Written → List ℕ → Type 0
Rests all left = left ≡ []
Rests refused left = Unit
Rests some_left left = Unit

write_chunk_lem :
    (rcs buffer : List ℕ)
    → let (written, bytes) = write_chunk rcs buffer in
      (left : List ℕ) × (bytes ++ left ≡ buffer) × Rests written left
unfolding write_chunk
write_chunk_lem [] [] = ([], refl, refl)
write_chunk_lem [] (b ∷ buffer) =
    let some_byte : (length (b ∷ buffer) == 0) ≡ false = ground arith in
    rw some_byte (b ∷ buffer, refl, tt)
write_chunk_lem (rc ∷ rcs) [] = ([], refl, refl)
write_chunk_lem (rc ∷ rcs) (b ∷ buffer) =
    let some_byte : (length (b ∷ buffer) == 0) ≡ false = ground arith in
    elim (Bool-cases (rc == 0)) [
      | inl z ↦ rw (some_byte, z) (b ∷ buffer, refl, tt)
      | inr nz ↦
          let (left, e, rests) = write_chunk_lem rcs (drop rc (b ∷ buffer)) in
          let bytes = (write_chunk rcs (drop rc (b ∷ buffer))).1 in
          rw (some_byte, nz)
            (
              left,
              append_assoc (take rc (b ∷ buffer)) bytes left
                  ∙ (ap (λ xs. take rc (b ∷ buffer) ++ xs) e ∙ take-append-drop rc (b ∷ buffer)),
              rests,
            )
    ]

module _ (continue : Connection → List ℕ → List ℕ → Played)
    (h : (conn : Connection) (s c : List ℕ) → Plays conn s (continue conn s c)) where
  after_writes-Plays :
      (conn : Connection) (s : List ℕ) (r : Receipt) (written : Written) (bytes left : List ℕ)
      → Left conn r.conn r.actions
      → r.buffer ++ r.stream ≡ s
      → bytes ++ left ≡ r.buffer
      → Rests written left
      → Plays conn s (after_writes continue r (written, bytes))
  after_writes-Plays conn s r all bytes left k e split none_left =
      let whole : bytes ≡ r.buffer =
        sym (append-nil bytes) ∙ (ap (λ xs. bytes ++ xs) (sym none_left) ∙ split) in
      after-Plays conn r.conn s r.stream bytes r.actions (continue r.conn r.stream r.ctl_stream) k
        (ap (λ xs. xs ++ r.stream) whole ∙ e) (h r.conn r.stream r.ctl_stream)
  after_writes-Plays conn s r refused bytes left k e split rests =
      after-Plays conn r.conn s (left ++ r.stream) bytes r.actions (rsd_exit r.conn) k
        (sym (append_assoc bytes left r.stream) ∙ (ap (λ xs. xs ++ r.stream) split ∙ e))
        (rsd_exit-Plays r.conn (left ++ r.stream))
  after_writes-Plays conn s r some_left bytes left k e split rests =
      after-Plays conn r.conn s (left ++ r.stream) bytes r.actions (unfinished blocked) k
        (sym (append_assoc bytes left r.stream) ∙ (ap (λ xs. xs ++ r.stream) split ∙ e))
        (unfinished-Plays r.conn (left ++ r.stream))

  after_read-Plays :
      (size : ℕ) (writes : List ℕ) (conn : Connection) (s : List ℕ) (r : Receipt)
      (outcome : Outcome)
      → Receives size [] conn s r
      → Plays conn s (after_read continue writes r outcome)
  after_read-Plays size writes conn s r overran (e, _, socket, ctl, _, _) =
      after-Plays conn r.conn s s [] r.actions (unfinished crashed) (socket, ctl) refl
        (crashed-Plays r.conn s)
  after_read-Plays size writes conn s r waiting (e, _, socket, ctl, _, _) =
      after-Plays conn r.conn s s [] r.actions (unfinished blocked) (socket, ctl) refl
        (unfinished-Plays r.conn s)
  after_read-Plays size writes conn s r (returned rc) (e, _, socket, ctl, _, _) =
      let (left, split, rests) = write_chunk_lem writes r.buffer in
      if_Plays conn s _ _ (rc == 0)
        (after-Plays conn r.conn s s [] r.actions (rsd_exit r.conn) (socket, ctl) refl
          (rsd_exit-Plays r.conn s))
        (after_writes-Plays conn s r (write_chunk writes r.buffer).0 (write_chunk writes r.buffer).1
          left (socket, ctl) e split rests)

announce-Plays :
    (verbose : Bool) (conn : Connection) (s : List ℕ) (r : Played)
    → Plays (announce verbose conn) s r
    → Plays conn s r
announce-Plays verbose conn s r h = elim (Bool-cases (verbose && ltb 0 (length conn.identity))) [
  | inl t ↦ subst (λ b. Plays (if b then record conn { identity = [] } else conn) s r) t h
  | inr f ↦ subst (λ b. Plays (if b then record conn { identity = [] } else conn) s r) f h
]

play-Plays :
    (set : Settings) (size : ℕ) (chunks : List Chunk) (conn : Connection) (s c : List ℕ)
    → Plays conn s (play set false size chunks conn s c)
unfolding play
play-Plays set size [] conn s c = unfinished-Plays conn s
play-Plays set size (chunk ∷ chunks) conn s c =
    let conn1 = announce set.verbose conn in
    let r = receive_data true size chunk.turns [] conn1 s c in
    announce-Plays set.verbose conn s
      (after_read (play set false size chunks) chunk.writes r r.outcome)
      (after_read-Plays (play set false size chunks) (play-Plays set size chunks) size chunk.writes
        conn1 s r r.outcome
        (receive_data-Receives true size chunk.turns [] conn1 s c (omega arith)))

-- The same with the two descriptors as the thread got them.
abbrev WholeThread : ℕ → ℕ → List ℕ → Played → Type 0
WholeThread socket ctl_socket s r =
    Front r.played s × Closes r.end r.actions (socket ∷ ctl_socket ∷ [])

both_sockets :
    (socket ctl_socket : ℕ) (end : ThreadEnd) (actions : List Action)
    → Closes end actions (socket ∷ open_ctl (accepted socket ctl_socket))
    → Closes end actions (socket ∷ ctl_socket ∷ [])
both_sockets socket ctl_socket exited actions h =
    λ fd k. h fd k ∙ ap {B = ℕ} (λ n. (if socket == fd then 1 else 0) + n) (opened fd k)
  where
    opened :
        (fd : ℕ)
        → 0 < fd
        → count fd (open_ctl (accepted socket ctl_socket)) ≡ count fd (ctl_socket ∷ [])
    opened fd k = elim (Bool-cases (ctl_socket == 0)) [
      | inl z ↦ rw z (ground arith)
      | inr nz ↦ rw nz refl
    ]
both_sockets socket ctl_socket crashed actions h = tt
both_sockets socket ctl_socket blocked actions h = tt

-- A header is read from 44 bytes.
header_long :
    (little : Bool) (buf : List ℕ) (b : Bool) (v : WavHeader)
    → (if b then get_wav_header little buf else none) ≡ some v
    → length buf ≡ 44
header_long little buf true v h = (get_wav_header_sound little buf h).0
header_long little buf false v h = ground arith

module _ (set : Settings) (a : Replies) (direct : set.resample_freq ≡ 0)
    (plain : a.info.resample ≡ false) where
  with_backend-Plays :
      (w : WavHeader) (conn : Connection) (s c : List ℕ)
      → Plays conn s (with_backend set a (false, w) conn s c)
  with_backend-Plays w conn s c =
      let reply = send_backend_info set.little a.info.latency a.info.chunk_size a.info_event in
      if_Plays conn s _ _ (not a.memory || (false && not a.resampler)) (rsd_exit-Plays conn s) (
        if_Plays conn s _ _ reply.0 (play-Plays set a.info.chunk_size a.chunks conn s c)
          (rsd_exit-Plays conn s))

  not_forced : (w : WavHeader) → forced set w ≡ (false, w)
  not_forced w =
      let off : (ltb 0 set.resample_freq && not (set.resample_freq == w.sample_rate)) ≡ false =
        ground (arith, direct) in
      ap (λ b. if b then (true, resampled_to set.little w set.resample_freq w) else (false, w)) off

  as_sent : (w : WavHeader) → negotiated set a.info w (false, w) ≡ (false, w)
  as_sent w =
      ap
        (λ b.
          if b
          then (true, resampled_to set.little w (a.info.scale w.sample_rate) w)
          else (false, w))
        plain

  with_header-Plays :
      (conn : Connection) (s c : List ℕ) (w : WavHeader)
      → Plays conn s (with_header set a conn s c (some w))
  with_header-Plays conn s c w =
      subst (λ p. Plays conn s (opened p)) (sym (not_forced w))
        (if_Plays conn s _ _ (not a.init || not (a.opens w) || (a.info.chunk_size == 0))
          (rsd_exit-Plays conn s)
          (subst (λ p. Plays conn s (with_backend set a p conn s c)) (sym (as_sent w))
            (with_backend-Plays w conn s c)))
    where
      opened : Bool × WavHeader → Played
      opened p =
          if not a.init || not (a.opens p.1) || (a.info.chunk_size == 0)
          then rsd_exit conn
          else with_backend set a (negotiated set a.info w p) conn s c

  from_header :
      (socket ctl_socket : ℕ) (body s c : List ℕ) (w : Option WavHeader)
      → ((v : WavHeader) → w ≡ some v → body ≡ s)
      → WholeThread socket ctl_socket body (with_header set a (accepted socket ctl_socket) s c w)
  from_header socket ctl_socket body s c none behind = ((body, refl), λ fd k. refl)
  from_header socket ctl_socket body s c (some w) behind =
      let conn = accepted socket ctl_socket in
      let (front, closes) = with_header-Plays conn s c w in
      (
        subst (Front (with_header set a conn s c (some w)).played) (sym (behind w refl)) front,
        both_sockets socket ctl_socket (with_header set a conn s c (some w)).end
            (with_header set a conn s c (some w)).actions closes,
      )

  read_header-Whole :
      (socket ctl_socket : ℕ) (s : List ℕ) (r : Receipt) (outcome : Outcome)
      → r.buffer ++ r.stream ≡ s
      → WholeThread socket ctl_socket
          (drop 44 s)
          (read_header set a (accepted socket ctl_socket) r outcome)
  read_header-Whole socket ctl_socket s r overran e = ((drop 44 s, refl), tt)
  read_header-Whole socket ctl_socket s r waiting e = ((drop 44 s, refl), tt)
  read_header-Whole socket ctl_socket s r (returned rc) e =
      from_header socket ctl_socket (drop 44 s) r.stream r.ctl_stream
        (if rc == 44 then get_wav_header set.little r.buffer else none)
        (λ v h.
          ap (drop 44) (sym e)
          ∙ (ap (λ k. drop k (r.buffer ++ r.stream))
                (sym (header_long set.little r.buffer (rc == 44) v h))
              ∙ drop-length-append r.buffer r.stream))

-- A thread that does not resample, whatever the system and the backend answer: what the backend is
-- given are the bytes of the client's stream behind its first 44, the header, from the first of them
-- on, in order and none left out; and when the thread exits, it has closed each of its two sockets exactly once,
-- the descriptor 0 apart.
pub rsd_thread-plays :
    (set : Settings) (a : Replies) (socket ctl_socket : ℕ) (s c : List ℕ)
    → set.resample_freq ≡ 0
    → a.info.resample ≡ false
    → let r = rsd_thread set a socket ctl_socket s c in
      Front r.played (drop 44 s) × Closes r.end r.actions (socket ∷ ctl_socket ∷ [])
unfolding rsd_thread
rsd_thread-plays set a socket ctl_socket s c direct plain =
    let conn = accepted socket ctl_socket in
    let r = receive_data false 44 a.header_turns [] conn s c in
    let (split, _, _, _, _, _) =
      receive_data-Receives false 44 a.header_turns [] conn s c (omega arith) in
    read_header-Whole set a direct plain socket ctl_socket s r r.outcome split
