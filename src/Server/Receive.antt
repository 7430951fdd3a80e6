-- ===== src/Server/Receive.antt =====
-- src/rsound-common.c: what `receive_data` stores and counts.
use mathlib.Core.List.{append_assoc}
use rsound.Base.{
  ◌≡◌, ◌≤◌, ◌+◌, ◌-◌, refl, ap, ◌∙◌, List, [], ◌∷◌, ◌++◌, ℕ, zero, suc, Bool, true, false, Option,
  none, some, ◌==◌, if◌then◌else◌, Bool-cases, inl, inr, ltb, length, take, drop, min, arith,
  length-append, length-take, take-append-drop,
}
use rsound.Base.Int.{ℤ, pos, ◌+ℤ◌, +ℤ_parts, eq_of_parts, pos_part, neg_part}
use rsound.Net.{packet_size}
use rsound.Proto.Serve.{Connection, Served, End, ok, error, overrun, looping, handle_ctl_request}
use rsound.Server.Requests.{closings, closings-append, open_ctl, Keeps, handle_ctl_request-Keeps}
use rsound.Server.{
  Turn, Outcome, returned, overran, waiting, Receipt, Rest, stop_with, take_packet, on_data,
  after_requests, on_ctl, receive_data,
}

-- A size over 0 is what was asked for, and is stored.
abbrev pub Whole : Outcome → ℕ → ℕ → Type 0
Whole (returned zero) stored size = Unit
Whole (returned (suc n)) stored size = (stored ≡ suc n) × (stored ≡ size)
Whole overran stored size = Unit
Whole waiting stored size = Unit

-- What a call that has `got` stored keeps of the connection and the stream.
abbrev pub Receives : ℕ → List ℕ → Connection → List ℕ → Receipt → Type 0
Receives size got conn s r =
    (r.buffer ++ r.stream ≡ got ++ s)
    × (r.conn.serv_ptr +ℤ pos (length got) ≡ conn.serv_ptr +ℤ pos (length r.buffer))
    × (r.conn.socket ≡ conn.socket)
    × (closings r.actions ++ open_ctl r.conn ≡ open_ctl conn)
    × (length r.buffer ≤ size)
    × Whole r.outcome (length r.buffer) size

if_Receives :
    (size : ℕ) (got : List ℕ) (conn : Connection) (s : List ℕ) (x y : Receipt) (b : Bool)
    → Receives size got conn s x
    → Receives size got conn s y
    → Receives size got conn s (if b then x else y)
if_Receives size got conn s x y true h k = h
if_Receives size got conn s x y false h k = k

stop_Receives :
    (size : ℕ) (outcome : Outcome) (got : List ℕ) (conn : Connection) (s c : List ℕ)
    → length got ≤ size
    → Whole outcome (length got) size
    → Receives size got conn s (stop_with outcome got conn s c)
stop_Receives size outcome got conn s c h w = (refl, refl, refl, refl, h, w)

stored_Whole : (got size : ℕ) → got ≤ size → (ltb got size ≡ false) → Whole (returned got) got size
stored_Whole zero size h e = tt
stored_Whole (suc got) size h e = (refl, ground arith)

recount :
    (p q : ℤ) (g rc b k : ℕ)
    → k ≡ g + rc
    → p +ℤ pos k ≡ (q +ℤ pos rc) +ℤ pos b
    → p +ℤ pos g ≡ q +ℤ pos b
recount p q g rc b k e h = eq_of_parts (p +ℤ pos g) (q +ℤ pos b) (
    omega (
      arith,
      e,
      ap pos_part h,
      ap neg_part h,
      +ℤ_parts p (pos k),
      +ℤ_parts p (pos g),
      +ℤ_parts q (pos rc),
      +ℤ_parts (q +ℤ pos rc) (pos b),
      +ℤ_parts q (pos b),
    ))

-- The rest of the loop keeps these, for every state that it may start in.
abbrev KeepsReceiving : ℕ → Rest → Type 0
KeepsReceiving size continue =
    (got : List ℕ) (conn : Connection) (s c : List ℕ)
    → length got ≤ size
    → Receives size got conn s (continue got conn s c)

module _ (size : ℕ) (continue : Rest) (h : KeepsReceiving size continue) where
  packet_Receives :
      (got : List ℕ) (conn : Connection) (s c : List ℕ) (room : Option ℕ)
      → length got ≤ size
      → Receives size got conn s (take_packet room size continue got conn s c)
  packet_Receives got conn s c none l = stop_Receives size (returned 0) got conn s c l tt
  packet_Receives got conn s c (some room) l =
      let rc = min (min room (length s)) (packet_size (size - length got)) in
      let stored : length (got ++ take rc s) ≡ length got + rc =
        omega (arith, length-append got (take rc s), length-take rc s) in
      let within : length (got ++ take rc s) ≤ size = ground (arith, stored) in
      let (split, count, socket, ctl, small, all) =
        h (got ++ take rc s) (record conn { serv_ptr = conn.serv_ptr +ℤ pos rc }) (drop rc s) c
          within in
      if_Receives size got conn s _ _ (rc == 0) (stop_Receives size (returned 0) got conn s c l tt)
        (
          split
              ∙ (append_assoc got (take rc s) (drop rc s)
                  ∙ ap (λ xs. got ++ xs) (take-append-drop rc s)),
          recount _ conn.serv_ptr (length got) rc _ _ stored count,
          socket,
          ctl,
          small,
          all,
        )

  data_Receives :
      (t : Turn) (got : List ℕ) (conn : Connection) (s c : List ℕ)
      → length got ≤ size
      → Receives size got conn s (on_data t size continue got conn s c)
  data_Receives t got conn s c l =
      if_Receives size got conn s _ _ t.on_data.pollin (packet_Receives got conn s c t.room l) (
        if_Receives size got conn s _ _ t.on_data.pollhup
          (stop_Receives size (returned 0) got conn s c l tt) (h got conn s c l))

  requests_Receives :
      (got : List ℕ) (conn : Connection) (s : List ℕ) (r : Served) (end : End)
      → Keeps conn r
      → length got ≤ size
      → Receives size got conn s (after_requests continue got s r end)
  requests_Receives got conn s r ok (ptr, sock, ctl) l =
      let later = continue got r.conn s r.stream in
      let (split, count, socket, ctl2, small, all) = h got r.conn s r.stream l in
      (
        split,
        count ∙ ap (λ p. p +ℤ pos (length later.buffer)) ptr,
        socket ∙ sock,
        ap (λ fds. fds ++ open_ctl later.conn) (closings-append r.actions later.actions)
            ∙ (append_assoc (closings r.actions) (closings later.actions) (open_ctl later.conn)
                ∙ (ap (λ fds. closings r.actions ++ fds) ctl2 ∙ ctl)),
        small,
        all,
      )
  requests_Receives got conn s r error (ptr, sock, ctl) l =
      (refl, ap (λ p. p +ℤ pos (length got)) ptr, sock, ctl, l, tt)
  requests_Receives got conn s r overrun (ptr, sock, ctl) l =
      (refl, ap (λ p. p +ℤ pos (length got)) ptr, sock, ctl, l, tt)
  requests_Receives got conn s r looping (ptr, sock, ctl) l =
      (refl, ap (λ p. p +ℤ pos (length got)) ptr, sock, ctl, l, tt)

  ctl_Receives :
      (has_data : Bool) (t : Turn) (got : List ℕ) (conn : Connection) (s c : List ℕ)
      → length got ≤ size
      → Receives size got conn s (on_ctl has_data t continue got conn s c)
  ctl_Receives has_data t got conn s c l =
      let go_on = h got conn s c l in
      let r = handle_ctl_request t.requests conn c in
      if_Receives size got conn s _ _ (conn.ctl_socket == 0) go_on (
        if_Receives size got conn s _ _ t.on_ctl.pollin
          (if_Receives size got conn s _ _ has_data
            (requests_Receives got conn s r r.end (handle_ctl_request-Keeps t.requests conn c) l)
            go_on)
          (if_Receives size got conn s _ _ t.on_ctl.pollhup
            (stop_Receives size (returned 0) got conn s c l tt) go_on))

-- Whatever the two sockets bring: `receive_data` stores the first bytes of the stream in order and
-- no more than it was asked for, its count of the stream goes up by the bytes that it stored, it
-- closes at most the control socket, once, and a result over 0 is all that was asked for.
pub receive_data-Receives :
    (has_data : Bool) (size : ℕ) (ts : List Turn) (got : List ℕ) (conn : Connection) (s c : List ℕ)
    → length got ≤ size
    → Receives size got conn s (receive_data has_data size ts got conn s c)
unfolding receive_data
receive_data-Receives has_data size [] got conn s c l = elim (Bool-cases (ltb (length got) size)) [
  | inl more ↦ rw more (stop_Receives size waiting got conn s c l tt)
  | inr all ↦ rw all (
      stop_Receives size (returned (length got)) got conn s c l
        (stored_Whole (length got) size l all))
]
receive_data-Receives has_data size (t ∷ ts) got conn s c l =
    let rest = receive_data-Receives has_data size ts in
    elim (Bool-cases (ltb (length got) size)) [
      | inl more ↦ rw more (
          if_Receives size got conn s _ _ t.polled
            (ctl_Receives size (on_data t size (receive_data has_data size ts))
              (λ got conn s c l.
                data_Receives size (receive_data has_data size ts) rest t got conn s c l)
              has_data t got conn s c l)
            (stop_Receives size (returned 0) got conn s c l tt))
      | inr all ↦ rw all (
          stop_Receives size (returned (length got)) got conn s c l
            (stored_Whole (length got) size l all))
    ]
