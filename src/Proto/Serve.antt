-- ===== src/Proto/Serve.antt =====
-- `handle_ctl_request` and `send_proto` of src/proto.c: the server's side of the control socket.
use rsound.Base.{
  ℕ, ◌+◌, ◌-◌, ◌^◌, ◌||◌, Bool, true, false, not, Option, none, some, List, [], ◌∷◌, ◌++◌, ◌==◌,
  ltb, min, if◌then◌else◌, length, take, drop,
}
use rsound.Base.Int.{ℤ, pos, negsuc, ◌-ℤ◌, to_unsigned, ltb_ℤ}
use rsound.Client.Text.{small_header, decimal, info_word}
use rsound.Proto.{Proto, null, stop, info, identity, closectl, starts_with, get_proto}
use rsound.Proto.Number.{number, to_long}

-- `connection_t`, less the ratio; a control socket of 0 is none.
pub record Connection : Type 0 where
  pub socket : ℕ
  pub ctl_socket : ℕ
  pub serv_ptr : ℤ
  pub identity : List ℕ

-- What the server does on its sockets.
pub data Action : Type 0 where
  sent : ℕ → List ℕ → Action
  closed : ℕ → Action

-- "%lld"
abbrev pub signed_decimal : ℤ → List ℕ
signed_decimal (pos n) = decimal n
signed_decimal (negsuc n) = b'-' ∷ decimal (1 + n)

-- The int64_t of a bit pattern.
abbrev pub int64 : ℕ → ℤ
int64 w = if ltb w (2 ^ 63) then pos w else negsuc (2 ^ 64 - 1 - w)

-- `tempbuf` and `sendbuf` of `send_proto`.
abbrev pub reply_body : ℤ → ℤ → List ℕ
reply_body client_ptr serv_ptr =
    take 254 (info_word ++ (signed_decimal client_ptr ++ (b' ' ∷ signed_decimal serv_ptr)))

unfoldable pub info_reply : ℤ → ℤ → List ℕ
info_reply client_ptr serv_ptr =
    let tempbuf = reply_body client_ptr serv_ptr in
    take 254 (small_header (length tempbuf) ++ tempbuf)

-- "RSD   12 CLOSECTL OK"
abbrev pub closectl_reply : List ℕ
closectl_reply =
    b'R' ∷ b'S' ∷ b'D' ∷ b' ' ∷ b' ' ∷ b' ' ∷ b'1' ∷ b'2' ∷ b' ' ∷ b'C' ∷ b'L' ∷ b'O' ∷ b'S' ∷ b'E'
    ∷ b'C' ∷ b'T' ∷ b'L' ∷ b' ' ∷ b'O' ∷ b'K' ∷ []

-- What the system answers to `send_proto`: `poll` fails, or reports no POLLOUT, or `send` fails, or
-- it takes the text.
pub data Reply : Type 0 where
  poll_failed not_writable send_failed taken : Reply

-- `send_proto` with the text made: whether 0 is returned, and what is sent.
abbrev pub send_proto : Reply → ℕ → List ℕ → Bool × List Action
send_proto poll_failed fd text = (false, [])
send_proto not_writable fd text = (true, [])
send_proto send_failed fd text = (false, [])
send_proto taken fd text = (true, sent fd text ∷ [])

-- The characters before the first NUL.
abbrev pub c_string : List ℕ → List ℕ
c_string [] = []
c_string (c ∷ s) = if c == 0 then [] else c ∷ c_string s

-- `strstr(s, "RSD")`, and on to the first blank.
abbrev pub rsd_text : List ℕ
rsd_text = b'R' ∷ b'S' ∷ b'D' ∷ []

abbrev pub find : List ℕ → List ℕ → Option (List ℕ)
find text [] = if starts_with text [] then some [] else none
find text (c ∷ s) = if starts_with text (c ∷ s) then some (c ∷ s) else find text s

abbrev pub to_blank : List ℕ → List ℕ
to_blank [] = []
to_blank (c ∷ s) = if c == b' ' then c ∷ s else to_blank s

-- The length that a small header announces, if it is one.
unfoldable pub announced : List ℕ → Option ℤ
announced bytes = elim (find rsd_text (c_string bytes)) [
  | none ↦ none
  | some substr ↦ some (to_long (number (to_blank substr)))
]

-- What the system answers in one pass: whether `poll` fails or reports POLLIN, how many bytes the
-- two calls of `recv` take at most (`none` where one fails), and to a reply. `lag` is what the
-- pass subtracts from the server's count for the latency of the backend.
pub record Pass : Type 0 where
  pub polled : Option Bool
  pub first : Option ℕ
  pub second : Option ℕ
  pub lag : ℤ
  pub reply : Reply

-- How a call ends: 0 or -1 is returned, or `recv` has stored more than the 257 bytes of
-- `rsd_proto_header`, or the loop has not ended with the last pass given.
pub data End : Type 0 where
  ok error overrun looping : End

pub record Served : Type 0 where
  pub end : End
  pub conn : Connection
  pub actions : List Action
  pub stream : List ℕ

abbrev pub ended : End → Connection → List Action → List ℕ → Served
ended e conn actions s = record { end = e; conn = conn; actions = actions; stream = s }

-- What `recv` takes off the stream: nothing where it fails.
abbrev pub recv : Option ℕ → ℕ → List ℕ → List ℕ × List ℕ
recv none size s = ([], s)
recv (some room) size s = let n = min room size in (take n s, drop n s)

abbrev pub with_actions : List Action → Served → Served
with_actions actions r = record r { actions = actions ++ r.actions }

-- The answer to a message, `continue` being the rest of the loop.
abbrev pub continue_if :
    Bool × List Action → Connection → List ℕ → (Connection → List ℕ → Served) → Served
continue_if (true, actions) conn s continue = with_actions actions (continue conn s)
continue_if (false, actions) conn s continue = ended error conn actions s

abbrev pub close_ctl : ℕ → List Action
close_ctl fd = if fd == 0 then [] else closed fd ∷ []

abbrev pub answer :
    Pass → Connection → List ℕ → (Connection → List ℕ → Served) → Option Proto → Served
answer p conn s continue none = continue conn s
answer p conn s continue (some null) = continue conn s
answer p conn s continue (some stop) = ended error conn [] s
answer p conn s continue (some (info client_ptr)) =
    continue_if
      (send_proto p.reply conn.ctl_socket (info_reply (int64 client_ptr) (conn.serv_ptr -ℤ p.lag)))
      conn s continue
answer p conn s continue (some (identity name)) = continue (record conn { identity = name }) s
answer p conn s continue (some closectl) =
    ended ok (record conn { ctl_socket = 0 })
      ((send_proto p.reply conn.ctl_socket closectl_reply).1 ++ close_ctl conn.ctl_socket) s

-- The body of a message of the announced length: a negative one is a huge size to `recv`.
abbrev pub read_body : Pass → Connection → List ℕ → (Connection → List ℕ → Served) → ℤ → Served
read_body p conn s continue len =
    let (body, rest) = recv p.second (to_unsigned 64 len) s in
    if ltb 257 (length body)
    then ended overrun conn [] rest
    else if (length body == 0) || not (length body == to_unsigned 64 len)
    then ended ok conn [] rest
    else answer p conn rest continue (get_proto (c_string body))

abbrev pub read_message :
    Pass → Connection → List ℕ → (Connection → List ℕ → Served) → Option ℤ → Served
read_message p conn s continue none = continue conn s
read_message p conn s continue (some len) =
    if ltb_ℤ (pos 256) len then continue conn s else read_body p conn s continue len

abbrev pub serve_pass :
    Pass → Connection → List ℕ → (Connection → List ℕ → Served) → Option Bool → Served
serve_pass p conn s continue none = ended error conn [] s
serve_pass p conn s continue (some false) = ended ok conn [] s
serve_pass p conn s continue (some true) =
    let (header, rest) = recv p.first 8 s in
    if length header == 0
    then ended ok conn [] rest
    else read_message p conn rest continue (announced header)

-- `handle_ctl_request`, on the bytes that wait in the control socket.
unfoldable pub handle_ctl_request : List Pass → Connection → List ℕ → Served
handle_ctl_request [] conn s = ended looping conn [] s
handle_ctl_request (p ∷ ps) conn s = serve_pass p conn s (handle_ctl_request ps) p.polled
