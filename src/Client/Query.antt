-- ===== src/Client/Query.antt =====
-- The delay query between src/librsound/librsound.c and src/proto.c: what the client reads from
-- the server's reply.
use mathlib.Core.List.{append_assoc, append-nil}
use mathlib.Core.Path.{subst}
use rsound.Base.{
  ℕ, zero, suc, ◌+◌, ◌-◌, ◌^◌, ◌<◌, ◌≤◌, ◌≡◌, refl, ap, ap₂, sym, ◌∙◌, false, ◌||◌, Option, none,
  some, List, [], ◌∷◌, ◌++◌, ltb, min, length, take, drop, replicate, arith, if◌then◌else◌, ◌==◌,
  length-append, drop_past, drop-replicate, drop-length-append,
}
use rsound.Base.Int.{ℤ, pos, ltb_ℤ, to_unsigned, ◌-ℤ◌}
use rsound.Net.{returned, Received, recv_chunk}
use rsound.Net.Recv.{recv_chunk_whole}
use rsound.Proto.Digits.{
  Digits, none_left, more, Leading, decimal_from-Digits, decimal_from-Leading, digits-decimal_from,
  length-decimal_from, number-Digits, take_short,
}
use rsound.Proto.Framing.{length_of-small_header}
use rsound.Proto.Reply.{c_string-Digits, message_pass, handle_ctl_request-info_query}
use rsound.Proto.Number.{number, skip_space, starts_digit, to_unsigned_long}
use rsound.Proto.Serve.{
  c_string, info_reply, int64, Connection, handle_ctl_request, with_actions, sent, taken,
}
use rsound.Client.Text.{small_header, decimal, info_word, length-small_header, info_query}
use rsound.Proto.Serve
use rsound.Client.Update.{
  Message, counts, wrong, Pass, End, overlay, read_info, read_client, read_server, read_messages,
  on_header, on_body, on_message,
}

c_string-zeros : (s : List ℕ) (k : ℕ) → c_string s ≡ s → c_string (s ++ replicate k 0) ≡ s
c_string-zeros [] zero e = refl
c_string-zeros [] (suc k) e = refl
c_string-zeros (c ∷ s) k e = ground (arith, c_string-zeros s k)

skip_space-Leading : (s t : List ℕ) → Leading s → skip_space (s ++ t) ≡ s ++ t
skip_space-Leading [] t h = elim h [ ]
skip_space-Leading (c ∷ s) t h = ground arith

-- The number that stands in front, after one blank.
number-decimal :
    (n : ℕ) (rest : List ℕ)
    → 1 ≤ n
    → n < 2 ^ 63
    → starts_digit 10 rest ≡ false
    → number (b' ' ∷ (decimal n ++ rest)) ≡ record { negative = false; magnitude = n; rest = rest }
number-decimal n rest h k e =
    let lead = decimal_from-Leading 20 n h (omega arith) in
    number-Digits _ (decimal n) rest (skip_space-Leading (decimal n) rest lead) lead
      (decimal_from-Digits 20 n) e
    ∙ ap (λ m. record { negative = false; magnitude = m; rest = rest })
        (digits-decimal_from 20 n (omega arith))

read_client_lem :
    (c v : ℕ) (w : List ℕ)
    → 1 ≤ c
    → c < 2 ^ 63
    → 1 ≤ v
    → v < 2 ^ 63
    → number (b' ' ∷ w) ≡ record { negative = false; magnitude = v; rest = [] }
    → read_client (record { negative = false; magnitude = c; rest = b' ' ∷ w })
      ≡ counts (pos c) (pos v)
read_client_lem c v w c1 c2 v1 v2 e =
    let some_client : ((min (2 ^ 64 - 1) c == 0) || (length (b' ' ∷ w) == 0)) ≡ false =
      ground arith in
    let client : int64 (min (2 ^ 64 - 1) c) ≡ pos c = ground arith in
    let server : int64 (min (2 ^ 64 - 1) v) ≡ pos v = ground arith in
    ap (λ b. if b then wrong else read_server (int64 (min (2 ^ 64 - 1) c)) (b' ' ∷ w)) some_client
    ∙ (ap (λ k. read_server k (b' ' ∷ w)) client
        ∙ (ap (λ r. checked (int64 (to_unsigned_long r))) e ∙ (ap checked server ∙ ground arith)))
  where
    checked : ℤ → Message
    checked serv_ptr = if ltb_ℤ (pos 0) serv_ptr then counts (pos c) serv_ptr else wrong

-- The text of the two counts, whose digits are `s` and `t`.
read_info-two_counts :
    (c v : ℕ) (s t : List ℕ)
    → s ≡ decimal c
    → t ≡ decimal v
    → 1 ≤ c
    → c < 2 ^ 63
    → 1 ≤ v
    → v < 2 ^ 63
    → read_info (info_word ++ (s ++ (b' ' ∷ t))) ≡ counts (pos c) (pos v)
unfolding read_info
read_info-two_counts c v s t es et c1 c2 v1 v2 =
    ap (λ r. read_client (number (b' ' ∷ (r ++ (b' ' ∷ t))))) es
    ∙ (ap read_client (number-decimal c (b' ' ∷ t) c1 c2 refl)
        ∙ read_client_lem c v t c1 c2 v1 v2 (
            ap (λ r. number (b' ' ∷ r)) (et ∙ sym (append-nil (decimal v)))
            ∙ number-decimal v [] v1 v2 refl))

-- A body that fits the buffers of `send_proto`, whose digits are `s` and `t`.
body_fits :
    (s t : List ℕ)
    → length s ≤ 20
    → length t ≤ 20
    → 1 ≤ length s
    → let body = info_word ++ (s ++ (b' ' ∷ t)) in
      (take 254 body ≡ body) × (8 ≤ length body) × (length body ≤ 47)
body_fits s t h k one =
    let len = length-append s (b' ' ∷ t) in
    (
      take_short 254 (info_word ++ (s ++ (b' ' ∷ t))) (omega (arith, len)),
      omega (arith, len),
      omega (arith, len),
    )

text_fits :
    (body : List ℕ)
    → length body ≤ 47
    → take 254 (small_header (length body) ++ body) ≡ small_header (length body) ++ body
text_fits body h =
    let header = small_header (length body) in
    take_short 254 (header ++ body)
      (omega (arith, length-append header body, length-small_header (length body)))

c_string-two_counts :
    (s t : List ℕ) (k : ℕ)
    → Digits s
    → Digits t
    → let body = info_word ++ (s ++ (b' ' ∷ t)) in c_string (body ++ replicate k 0) ≡ body
c_string-two_counts s t k d e =
    c_string-zeros (info_word ++ (s ++ (b' ' ∷ t))) k (ap (λ w. info_word ++ w) (through s d))
  where
    through : (w : List ℕ) → Digits w → c_string (w ++ (b' ' ∷ t)) ≡ w ++ (b' ' ∷ t)
    through [] none_left = ap (λ w. b' ' ∷ w) (c_string-Digits t e)
    through (c ∷ w) (more _ _ p q r) = ground (arith, through w r)

-- What the body leaves of the header in the buffer is zeros.
overlay_lem :
    (header body : List ℕ)
    → length header ≡ 8
    → 8 ≤ length body
    → overlay header body ≡ c_string (body ++ replicate (249 - (length body - 8)) 0)
overlay_lem header body h k =
    ap (λ w. c_string (body ++ w))
      (drop_past (length body) header (replicate 249 0) (omega arith)
        ∙ (ap (λ n. drop (length body - n) (replicate 249 0)) h
            ∙ drop-replicate (length body - 8) 249 0))

Leading-some : (s : List ℕ) → Leading s → 1 ≤ length s
Leading-some [] h = absurd h
Leading-some (c ∷ s) h = omega arith

-- One pass of the client's loop over a whole message.
read_messages-message :
    (p : Pass) (ps : List Pass) (last : Option (ℤ × ℤ)) (body more_bytes : List ℕ)
    → 8 ≤ length body
    → length body ≤ 47
    → (recv_chunk false 8 [] (small_header (length body) ++ (body ++ more_bytes)) p.header).outcome
      ≡ returned 8
    → (recv_chunk false (length body) [] (body ++ more_bytes) p.body).outcome
      ≡ returned (length body)
    → read_messages (p ∷ ps) last (small_header (length body) ++ (body ++ more_bytes))
      ≡ on_message
          (read_messages ps)
          last
          more_bytes
          (read_info (overlay (small_header (length body)) body))
unfolding read_messages
read_messages-message p ps last body more_bytes h k got1 got2 =
    let len = length body in
    let header = small_header len in
    let first =
      recv_chunk_whole false header (body ++ more_bytes) p.header 7 (length-small_header len)
        got1 in
    let size : suc (len - 1) ≡ len = omega arith in
    let some_body : len ≡ suc (len - 1) = omega arith in
    let second : recv_chunk false len [] (body ++ more_bytes) p.body ≡ received body more_bytes =
      ap (λ n. recv_chunk false n [] (body ++ more_bytes) p.body) some_body
      ∙ (recv_chunk_whole false body more_bytes p.body (len - 1) some_body (
            ap (λ n. (recv_chunk false n [] (body ++ more_bytes) p.body).outcome) size
            ∙ (got2 ∙ ap returned some_body))
          ∙ ap (λ n. record { outcome = returned n; buffer = body; stream = more_bytes }) size) in
    let wide : to_unsigned 64 (pos len) ≡ len = omega arith in
    let complete : ltb_ℤ (pos len) (pos len) ≡ false = ground arith in
    let fits : ltb 257 len ≡ false = ground arith in
    ap (λ r. on_header (read_messages ps) p last r r.outcome) first
    ∙ (ap (with_length header) (length_of-small_header len (omega arith) (omega arith))
        ∙ (ap (λ n. with_body header (pos len) (recv_chunk false n [] (body ++ more_bytes) p.body))
              wide
            ∙ (ap (with_body header (pos len)) second
                ∙ (ap
                      (λ b.
                        if b
                        then (End.error, more_bytes)
                        else if ltb 257 len
                        then (End.overrun, more_bytes)
                        else done)
                      complete
                    ∙ ap (λ b. if b then (End.overrun, more_bytes) else done) fits))))
  where
    received : List ℕ → List ℕ → Received
    received b s = record { outcome = returned (length b); buffer = b; stream = s }

    done : End × List ℕ
    done =
        on_message (read_messages ps) last more_bytes
          (read_info (overlay (small_header (length body)) body))

    with_body : List ℕ → ℤ → Received → End × List ℕ
    with_body header len b = on_body (read_messages ps) last header len b b.outcome

    with_length : List ℕ → Option ℤ → End × List ℕ
    with_length header o = elim o [
      | none ↦ (End.error, body ++ more_bytes)
      | some len ↦
          with_body header len
            (recv_chunk false (to_unsigned 64 len) [] (body ++ more_bytes) p.body)
    ]

-- The body whose digits are `s` and `t`.
abbrev pub two_counts : List ℕ → List ℕ → List ℕ
two_counts s t = info_word ++ (s ++ (b' ' ∷ t))

length-decimal : (s : List ℕ) (n : ℕ) → s ≡ decimal n → length s ≤ 20
length-decimal s n e = omega (arith, ap length e, length-decimal_from 20 n)

decimal-Digits : (s : List ℕ) (n : ℕ) → s ≡ decimal n → Digits s
decimal-Digits s n e = subst Digits (sym e) (decimal_from-Digits 20 n)

decimal-some : (s : List ℕ) (n : ℕ) → s ≡ decimal n → 1 ≤ n → n < 2 ^ 63 → 1 ≤ length s
decimal-some s n e h k =
    Leading-some s (subst Leading (sym e) (decimal_from-Leading 20 n h (omega arith)))

-- The reply of `send_proto` is a small header and the text of the two counts.
info_reply-two_counts :
    (c v : ℕ) (s t : List ℕ)
    → s ≡ decimal c
    → t ≡ decimal v
    → 1 ≤ length s
    → info_reply (pos c) (pos v) ≡ small_header (length (two_counts s t)) ++ two_counts s t
unfolding info_reply
info_reply-two_counts c v s t es et one =
    let (whole, _, short) = body_fits s t (length-decimal s c es) (length-decimal t v et) one in
    ap₂ (λ s t. sent (take 254 (two_counts s t))) (sym es) (sym et)
    ∙ (ap sent whole ∙ text_fits (two_counts s t) short)
  where
    sent : List ℕ → List ℕ
    sent body = take 254 (small_header (length body) ++ body)

-- What the client reads from the text of the two counts.
read_info-overlay :
    (c v : ℕ) (s t : List ℕ)
    → s ≡ decimal c
    → t ≡ decimal v
    → 1 ≤ c
    → c < 2 ^ 63
    → 1 ≤ v
    → v < 2 ^ 63
    → read_info (overlay (small_header (length (two_counts s t))) (two_counts s t))
      ≡ counts (pos c) (pos v)
read_info-overlay c v s t es et c1 c2 v1 v2 =
    let body = two_counts s t in
    let len = length body in
    let (_, long, _) =
      body_fits s t (length-decimal s c es) (length-decimal t v et) (decimal-some s c es c1 c2) in
    ap read_info (overlay_lem (small_header len) body (length-small_header len) long)
    ∙ (ap read_info (
          c_string-two_counts s t (249 - (len - 8)) (decimal-Digits s c es) (decimal-Digits t v et))
        ∙ read_info-two_counts c v s t es et c1 c2 v1 v2)

-- The client's loop, where the server's reply is in front of the control socket and each of its two
-- reads returns the size it asked for: it has the two counts.
pub read_messages-info_reply :
    (p : Pass) (ps : List Pass) (last : Option (ℤ × ℤ)) (c v len : ℕ) (more_bytes : List ℕ)
    → 1 ≤ c
    → c < 2 ^ 63
    → 1 ≤ v
    → v < 2 ^ 63
    → length (info_reply (pos c) (pos v)) ≡ 8 + len
    → let s = info_reply (pos c) (pos v) ++ more_bytes in
      (recv_chunk false 8 [] s p.header).outcome ≡ returned 8
      → (recv_chunk false len [] (drop 8 s) p.body).outcome ≡ returned len
      → read_messages (p ∷ ps) last s ≡ read_messages ps (some (pos c, pos v)) more_bytes
read_messages-info_reply p ps last c v len more_bytes c1 c2 v1 v2 size got1 got2 =
    shown (decimal c) (decimal v) refl refl
  where
    shown :
        (s t : List ℕ)
        → s ≡ decimal c
        → t ≡ decimal v
        → read_messages (p ∷ ps) last (info_reply (pos c) (pos v) ++ more_bytes)
          ≡ read_messages ps (some (pos c, pos v)) more_bytes
    shown s t es et =
        let body = two_counts s t in
        let header = small_header (length body) in
        let one = decimal-some s c es c1 c2 in
        let (_, long, short) = body_fits s t (length-decimal s c es) (length-decimal t v et) one in
        let reply = info_reply-two_counts c v s t es et one in
        let same : info_reply (pos c) (pos v) ++ more_bytes ≡ header ++ (body ++ more_bytes) =
          ap (λ w. w ++ more_bytes) reply ∙ append_assoc header body more_bytes in
        let count : len ≡ length body = omega (
          arith,
          size,
          ap length reply,
          length-append header body,
          length-small_header (length body),
        ) in
        let first =
          subst (λ w. (recv_chunk false 8 [] w p.header).outcome ≡ returned 8) same got1 in
        let after : drop 8 (info_reply (pos c) (pos v) ++ more_bytes) ≡ body ++ more_bytes =
          ap (drop 8) same
          ∙ (ap (λ n. drop n (header ++ (body ++ more_bytes)))
                (sym (length-small_header (length body)))
              ∙ drop-length-append header (body ++ more_bytes)) in
        let second =
          subst (λ w. (recv_chunk false (length body) [] w p.body).outcome ≡ returned (length body))
            after
            (subst
              (λ n.
                (recv_chunk false n [] (drop 8 (info_reply (pos c) (pos v) ++ more_bytes))
                  p.body).outcome
                ≡ returned n)
              count got2) in
        ap (read_messages (p ∷ ps) last) same
        ∙ (read_messages-message p ps last body more_bytes long short first second
            ∙ ap (on_message (read_messages ps) last more_bytes)
                (read_info-overlay c v s t es et c1 c2 v1 v2))

-- A delay query between the two sides: the server, which has played the stream up to `v`, answers
-- the client's query with one text and goes on, and the client, which reads that text with two
-- reads that return what they asked for, has its own count `c` and the server's `v`, where both
-- counts are 1 or more and below 2 ^ 63, the query is whole in the control socket, and `len` is the
-- length of the text behind its small header.
pub delay_query :
    (room1 room2 : ℕ) (lag : ℤ) (passes : List Serve.Pass) (conn : Connection) (c v len : ℕ)
    (rest : List ℕ) (p : Pass) (ps : List Pass) (last : Option (ℤ × ℤ)) (more_bytes : List ℕ)
    → 8 ≤ room1
    → 26 ≤ room2
    → conn.serv_ptr -ℤ lag ≡ pos v
    → 1 ≤ c
    → c < 2 ^ 63
    → 1 ≤ v
    → v < 2 ^ 63
    → length (info_reply (pos c) (pos v)) ≡ 8 + len
    → let s = info_reply (pos c) (pos v) ++ more_bytes in
      (recv_chunk false 8 [] s p.header).outcome ≡ returned 8
      → (recv_chunk false len [] (drop 8 s) p.body).outcome ≡ returned len
      → (handle_ctl_request
            (message_pass room1 room2 lag taken ∷ passes)
            conn
            (info_query c ++ rest)
          ≡ with_actions
              (sent conn.ctl_socket (info_reply (pos c) (pos v)) ∷ [])
              (handle_ctl_request passes conn rest))
        × (read_messages (p ∷ ps) last s ≡ read_messages ps (some (pos c, pos v)) more_bytes)
delay_query room1 room2 lag passes conn c v len rest p ps last more_bytes h1 h2 e c1 c2 v1 v2 size
      got1 got2 =
    (
      handle_ctl_request-info_query room1 room2 lag taken passes conn c rest h1 h2 c2
          ∙ ap
              (λ w.
                with_actions (sent conn.ctl_socket (info_reply (pos c) w) ∷ [])
                  (handle_ctl_request passes conn rest))
              e,
      read_messages-info_reply p ps last c v len more_bytes c1 c2 v1 v2 size got1 got2,
    )
