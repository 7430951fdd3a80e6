-- ===== src/Server/Requests.antt =====
-- src/proto.c: what `handle_ctl_request` leaves of a connection.
use mathlib.Core.List.{append-nil}
use rsound.Base.{
  ◌≡◌, refl, ap, ◌∙◌, List, [], ◌∷◌, ◌++◌, ℕ, Bool, true, false, Option, none, some, ◌==◌,
  if◌then◌else◌, Bool-cases, inl, inr, ltb, length, ◌||◌, not,
}
use rsound.Base.Int.{ℤ, pos, ltb_ℤ, to_unsigned, ◌-ℤ◌}
use rsound.Proto.{Proto, null, stop, info, identity, closectl, get_proto}
use rsound.Proto.Serve.{
  Action, sent, closed, Connection, Served, Pass, Reply, poll_failed, not_writable, send_failed,
  taken, continue_if, send_proto, close_ctl, answer, read_body, read_message, serve_pass,
  handle_ctl_request, info_reply, int64, closectl_reply, recv, announced, c_string,
}

-- The sockets that are closed, in order, and the control socket that is open.
abbrev pub closings : List Action → List ℕ
closings [] = []
closings (sent fd text ∷ actions) = closings actions
closings (closed fd ∷ actions) = fd ∷ closings actions

abbrev pub open_ctl : Connection → List ℕ
open_ctl conn = if conn.ctl_socket == 0 then [] else conn.ctl_socket ∷ []

pub closings-append : (xs ys : List Action) → closings (xs ++ ys) ≡ closings xs ++ closings ys
closings-append [] ys = refl
closings-append (sent fd text ∷ xs) ys = closings-append xs ys
closings-append (closed fd ∷ xs) ys = ap (λ fds. fd ∷ fds) (closings-append xs ys)

-- The count and the data socket are the same, and the control socket is closed once if at all.
abbrev pub Keeps : Connection → Served → Type 0
Keeps conn r =
    (r.conn.serv_ptr ≡ conn.serv_ptr)
    × (r.conn.socket ≡ conn.socket)
    × (closings r.actions ++ open_ctl r.conn ≡ open_ctl conn)

if_Keeps :
    (conn : Connection) (x y : Served) (b : Bool)
    → Keeps conn x
    → Keeps conn y
    → Keeps conn (if b then x else y)
if_Keeps conn x y true h k = h
if_Keeps conn x y false h k = k

module _ (p : Pass) (continue : Connection → List ℕ → Served)
    (h : (conn : Connection) (s : List ℕ) → Keeps conn (continue conn s)) where
  reply_Keeps :
      (conn : Connection) (s : List ℕ) (reply : Reply) (fd : ℕ) (text : List ℕ)
      → Keeps conn (continue_if (send_proto reply fd text) conn s continue)
  reply_Keeps conn s poll_failed fd text = (refl, refl, refl)
  reply_Keeps conn s not_writable fd text = h conn s
  reply_Keeps conn s send_failed fd text = (refl, refl, refl)
  reply_Keeps conn s taken fd text = h conn s

  no_closings :
      (reply : Reply) (fd : ℕ) (text : List ℕ) → closings (send_proto reply fd text).1 ≡ []
  no_closings poll_failed fd text = refl
  no_closings not_writable fd text = refl
  no_closings send_failed fd text = refl
  no_closings taken fd text = refl

  close_ctl_lem : (fd : ℕ) → closings (close_ctl fd) ≡ (if fd == 0 then [] else fd ∷ [])
  close_ctl_lem fd = elim (Bool-cases (fd == 0)) [ inl z ↦ rw z refl | inr nz ↦ rw nz refl ]

  answer-Keeps :
      (conn : Connection) (s : List ℕ) (proto : Option Proto)
      → Keeps conn (answer p conn s continue proto)
  answer-Keeps conn s none = h conn s
  answer-Keeps conn s (some null) = h conn s
  answer-Keeps conn s (some stop) = (refl, refl, refl)
  answer-Keeps conn s (some (info client_ptr)) =
      reply_Keeps conn s p.reply conn.ctl_socket
        (info_reply (int64 client_ptr) (conn.serv_ptr -ℤ p.lag))
  answer-Keeps conn s (some (identity name)) = h (record conn { identity = name }) s
  answer-Keeps conn s (some closectl) =
      let sends = (send_proto p.reply conn.ctl_socket closectl_reply).1 in
      (
        refl,
        refl,
        append-nil (closings (sends ++ close_ctl conn.ctl_socket))
            ∙ (closings-append sends (close_ctl conn.ctl_socket)
                ∙ (ap (λ fds. fds ++ closings (close_ctl conn.ctl_socket))
                      (no_closings p.reply conn.ctl_socket closectl_reply)
                    ∙ close_ctl_lem conn.ctl_socket)),
      )

  read_body-Keeps :
      (conn : Connection) (s : List ℕ) (len : ℤ) → Keeps conn (read_body p conn s continue len)
  read_body-Keeps conn s len =
      let (body, rest) = recv p.second (to_unsigned 64 len) s in
      if_Keeps conn _ _ (ltb 257 (length body)) (refl, refl, refl)
        (if_Keeps conn _ _ ((length body == 0) || not (length body == to_unsigned 64 len))
          (refl, refl, refl) (answer-Keeps conn rest (get_proto (c_string body))))

  read_message-Keeps :
      (conn : Connection) (s : List ℕ) (len : Option ℤ)
      → Keeps conn (read_message p conn s continue len)
  read_message-Keeps conn s none = h conn s
  read_message-Keeps conn s (some len) =
      if_Keeps conn _ _ (ltb_ℤ (pos 256) len) (h conn s) (read_body-Keeps conn s len)

  serve_pass-Keeps :
      (conn : Connection) (s : List ℕ) (polled : Option Bool)
      → Keeps conn (serve_pass p conn s continue polled)
  serve_pass-Keeps conn s none = (refl, refl, refl)
  serve_pass-Keeps conn s (some false) = (refl, refl, refl)
  serve_pass-Keeps conn s (some true) =
      let (header, rest) = recv p.first 8 s in
      if_Keeps conn _ _ (length header == 0) (refl, refl, refl)
        (read_message-Keeps conn rest (announced header))

-- Whatever comes on the control socket, the requests leave the count and the data socket, and what
-- they close followed by what is still open is what was open.
pub handle_ctl_request-Keeps :
    (ps : List Pass) (conn : Connection) (s : List ℕ) → Keeps conn (handle_ctl_request ps conn s)
unfolding handle_ctl_request
handle_ctl_request-Keeps [] conn s = (refl, refl, refl)
handle_ctl_request-Keeps (p ∷ ps) conn s =
    serve_pass-Keeps p (handle_ctl_request ps) (handle_ctl_request-Keeps ps) conn s p.polled
