-- ===== src/Proto/Reply.antt =====
-- src/proto.c: what the server does with one message on its control socket.
use mathlib.Core.List.{append_assoc}
use rsound.Base.{
  ◌-◌, ℕ, ◌^◌, ◌<◌, ◌≤◌, ◌≡◌, refl, ap, ap₂, sym, ◌∙◌, true, false, ◌||◌, not, some, List, [], ◌∷◌,
  ◌++◌, ltb, min, length, take, drop, arith, take-length-append, drop-length-append, if◌then◌else◌,
  ◌==◌, length-append, length-take,
}
use rsound.Base.Int.{ℤ, pos, negsuc, ltb_ℤ, to_unsigned, ◌-ℤ◌}
use rsound.Proto.Digits.{
  Digits, none_left, more, decimal_from-Digits, length-decimal_from, take_short,
}
use rsound.Proto.Framing.{announced-small_header}
use rsound.Proto.Info.{get_proto-info_body}
use rsound.Proto.{get_proto}
use rsound.Proto.Serve.{
  Pass, Reply, Connection, Served, ok, overrun, ended, recv, read_body, read_message, answer,
  announced, c_string, handle_ctl_request, info_reply, int64, send_proto, continue_if,
}
use rsound.Client.Text.{
  small_header, decimal, info_body, info_query, info_word, length-small_header,
}

-- `recv` with room for a whole text that is in front.
recv_all :
    (room n : ℕ) (xs ys : List ℕ)
    → n ≤ room
    → length xs ≡ n
    → recv (some room) n (xs ++ ys) ≡ (xs, ys)
recv_all room n xs ys h e =
    let m : min room n ≡ length xs = omega arith in
    ap (λ k. (take k (xs ++ ys), drop k (xs ++ ys))) m
    ∙ ap₂ (λ a b. (a, b)) (take-length-append xs ys) (drop-length-append xs ys)

-- A pass that finds a message in the socket.
abbrev pub message_pass : ℕ → ℕ → ℤ → Reply → Pass
message_pass room1 room2 lag reply = record {
  polled = some true;
  first = some room1;
  second = some room2;
  lag = lag;
  reply = reply;
}

-- A whole message in the socket is read as `get_proto` reads its body.
pub handle_ctl_request-message :
    (room1 room2 : ℕ) (lag : ℤ) (reply : Reply) (ps : List Pass) (conn : Connection)
    (body rest : List ℕ)
    → 8 ≤ room1
    → length body ≤ room2
    → 1 ≤ length body
    → length body ≤ 256
    → let p = message_pass room1 room2 lag reply in
      handle_ctl_request (p ∷ ps) conn (small_header (length body) ++ (body ++ rest))
      ≡ answer p conn rest (handle_ctl_request ps) (get_proto (c_string body))
unfolding handle_ctl_request
handle_ctl_request-message room1 room2 lag reply ps conn body rest h1 h2 one small =
    let len = length body in
    let wide : len < 1000 = omega arith in
    let got8 = recv_all room1 8 (small_header len) (body ++ rest) h1 (length-small_header len) in
    let got : recv (some room2) (to_unsigned 64 (pos len)) (body ++ rest) ≡ (body, rest) =
      recv_all room2 (to_unsigned 64 (pos len)) body rest (omega arith) (omega arith) in
    let some_header : (length (small_header len) == 0) ≡ false =
      ground (arith, length-small_header len) in
    let not_large : ltb_ℤ (pos 256) (pos len) ≡ false = ground arith in
    let fits : ltb 257 len ≡ false = ground arith in
    let complete : ((len == 0) || not (len == to_unsigned 64 (pos len))) ≡ false = ground arith in
    ap on_header got8
    ∙ (ap
          (λ b.
            if b
            then ended ok conn [] (body ++ rest)
            else read_message p conn (body ++ rest) (handle_ctl_request ps)
                (announced (small_header len)))
          some_header
        ∙ (ap (read_message p conn (body ++ rest) (handle_ctl_request ps))
              (announced-small_header len one wide)
            ∙ (ap
                  (λ b.
                    if b
                    then handle_ctl_request ps conn (body ++ rest)
                    else read_body p conn (body ++ rest) (handle_ctl_request ps) (pos len))
                  not_large
                ∙ (ap (on_body len) got
                    ∙ (ap
                          (λ b.
                            if b
                            then ended overrun conn [] rest
                            else if (len == 0) || not (len == to_unsigned 64 (pos len))
                            then ended ok conn [] rest
                            else done)
                          fits
                        ∙ ap (λ b. if b then ended ok conn [] rest else done) complete)))))
  where
    p : Pass
    p = message_pass room1 room2 lag reply

    done : Served
    done = answer p conn rest (handle_ctl_request ps) (get_proto (c_string body))

    on_header : List ℕ × List ℕ → Served
    on_header hr =
        if length hr.0 == 0
        then ended ok conn [] hr.1
        else read_message p conn hr.1 (handle_ctl_request ps) (announced hr.0)

    on_body : ℕ → List ℕ × List ℕ → Served
    on_body len br =
        if ltb 257 (length br.0)
        then ended overrun conn [] br.1
        else if (length br.0 == 0) || not (length br.0 == to_unsigned 64 (pos len))
        then ended ok conn [] br.1
        else answer p conn br.1 (handle_ctl_request ps) (get_proto (c_string br.0))

pub c_string-Digits : (s : List ℕ) → Digits s → c_string s ≡ s
c_string-Digits [] none_left = refl
c_string-Digits (c ∷ s) (more _ _ p q r) = ground (arith, c_string-Digits s r)

info_body_lem : (n : ℕ) → n < 2 ^ 63 → info_body n ≡ info_word ++ decimal n
info_body_lem n h =
    let small : ltb n (2 ^ 63) ≡ true = ground arith in
    ap (λ b. take 254 (info_word ++ (if b then decimal n else b'-' ∷ decimal (2 ^ 64 - n)))) small
    ∙ take_short 254 (info_word ++ decimal n) (omega (arith, length-decimal_from 20 n))

c_string-info_body : (n : ℕ) → n < 2 ^ 63 → c_string (info_body n) ≡ info_body n
c_string-info_body n h =
    ap c_string (info_body_lem n h)
    ∙ (ap (λ s. info_word ++ s) (c_string-Digits (decimal n) (decimal_from-Digits 20 n))
        ∙ sym (info_body_lem n h))

length-info_body : (n : ℕ) → n < 2 ^ 63 → (1 ≤ length (info_body n)) × (length (info_body n) ≤ 26)
length-info_body n h = omega (
  arith,
  ap length (info_body_lem n h),
  length-append info_word (decimal n),
  length-decimal_from 20 n,
)

info_query_lem :
    (n : ℕ) → n < 2 ^ 63 → info_query n ≡ small_header (length (info_body n)) ++ info_body n
unfolding info_query
info_query_lem n h =
    let body = info_body n in
    take_short 254 (small_header (length body) ++ body) (
      omega (
        arith,
        length-info_body n h,
        length-append (small_header (length body)) body,
        length-small_header (length body),
      ))

-- A query of the client that is whole in the control socket is answered with the client's count and
-- the server's own, less the latency, and the loop goes on with what follows; or -1 is returned
-- where the reply cannot be sent.
pub handle_ctl_request-info_query :
    (room1 room2 : ℕ) (lag : ℤ) (reply : Reply) (ps : List Pass) (conn : Connection) (n : ℕ)
    (rest : List ℕ)
    → 8 ≤ room1
    → 26 ≤ room2
    → n < 2 ^ 63
    → handle_ctl_request (message_pass room1 room2 lag reply ∷ ps) conn (info_query n ++ rest)
      ≡ continue_if
          (send_proto reply conn.ctl_socket (info_reply (pos n) (conn.serv_ptr -ℤ lag)))
          conn
          rest
          (handle_ctl_request ps)
handle_ctl_request-info_query room1 room2 lag reply ps conn n rest h1 h2 small =
    let p = message_pass room1 room2 lag reply in
    let body = info_body n in
    let (one, few) = length-info_body n small in
    let signed : int64 n ≡ pos n = ground arith in
    ap (handle_ctl_request (p ∷ ps) conn) (
      ap (λ s. s ++ rest) (info_query_lem n small)
      ∙ append_assoc (small_header (length body)) body rest)
    ∙ (handle_ctl_request-message room1 room2 lag reply ps conn body rest h1 (omega arith) one
          (omega arith)
        ∙ (ap (answer p conn rest (handle_ctl_request ps))
              (ap get_proto (c_string-info_body n small) ∙ get_proto-info_body n (omega arith))
            ∙ ap
                (λ c.
                  continue_if
                    (send_proto reply conn.ctl_socket (info_reply c (conn.serv_ptr -ℤ lag))) conn
                    rest (handle_ctl_request ps))
                signed))

-- A small header whose number is negative passes the test of the length: when more than 257 bytes
-- follow it, they overrun the buffer of 257 bytes.
pub handle_ctl_request_overruns :
    (room1 room2 : ℕ) (lag : ℤ) (reply : Reply) (ps : List Pass) (conn : Connection)
    (header body : List ℕ) (m : ℕ)
    → 8 ≤ room1
    → 257 < room2
    → length header ≡ 8
    → announced header ≡ some (negsuc m)
    → m < 2 ^ 62
    → 257 < length body
    → (handle_ctl_request (message_pass room1 room2 lag reply ∷ ps) conn (header ++ body)).end
      ≡ overrun
unfolding handle_ctl_request
handle_ctl_request_overruns room1 room2 lag reply ps conn header body m h1 h2 eight negative small
      long =
    let got8 = recv_all room1 8 header body h1 eight in
    let some_header : (length header == 0) ≡ false = ground (arith, eight) in
    let passes : ltb_ℤ (pos 256) (negsuc m) ≡ false = ground arith in
    let k = min room2 (to_unsigned 64 (negsuc m)) in
    let stored : ltb 257 (length (take k body)) ≡ true = ground (arith, length-take k body) in
    ap (λ hr. (on_header hr).end) got8
    ∙ (ap
          (λ b.
            (if b
              then ended ok conn [] body
              else read_message p conn body (handle_ctl_request ps) (announced header)).end)
          some_header
        ∙ (ap (λ a. (read_message p conn body (handle_ctl_request ps) a).end) negative
            ∙ (ap
                  (λ b.
                    (if b
                      then handle_ctl_request ps conn body
                      else read_body p conn body (handle_ctl_request ps) (negsuc m)).end)
                  passes
                ∙ ap
                    (λ b.
                      (if b
                        then ended overrun conn [] (drop k body)
                        else checked (take k body) (drop k body)).end)
                    stored)))
  where
    p : Pass
    p = message_pass room1 room2 lag reply

    on_header : List ℕ × List ℕ → Served
    on_header hr =
        if length hr.0 == 0
        then ended ok conn [] hr.1
        else read_message p conn hr.1 (handle_ctl_request ps) (announced hr.0)

    checked : List ℕ → List ℕ → Served
    checked stored_body rest =
        if (length stored_body == 0) || not (length stored_body == to_unsigned 64 (negsuc m))
        then ended ok conn [] rest
        else answer p conn rest (handle_ctl_request ps) (get_proto (c_string stored_body))
