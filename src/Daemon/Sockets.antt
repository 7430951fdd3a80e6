-- ===== src/Daemon/Sockets.antt =====
-- src/daemon.c: what becomes of the sockets that the daemon accepts, and which it lets through.
use mathlib.Core.Path.{subst}
use rsound.Base.{
  ◌≡◌, ◌<◌, ◌+◌, refl, sym, ap, ◌∙◌, ℕ, Bool, true, false, ◌&&◌, ◌||◌, not, Option, none, some,
  List, [], ◌∷◌, ◌++◌, ◌==◌, ltb, if◌then◌else◌, arith, count, count-append,
}
use rsound.Base.Int.{pos, ltb_ℤ}
use rsound.Daemon.{
  Storage, Arrival, Effect, accepted, closed, started, joined, quit, State, new_sound_thread,
  close_both, remote_ip, valid_ips, same_text, get_addr, hand, with_second, with_polled, with_first,
  accept_loop, close_some,
}

-- The descriptors that the daemon accepts, and those that it closes or hands to a thread.
abbrev pub taken : List Effect → List ℕ
taken [] = []
taken (accepted fd ∷ es) = fd ∷ taken es
taken (closed fd ∷ es) = taken es
taken (started socket ctl_socket ∷ es) = taken es
taken (joined ∷ es) = taken es
taken (quit ∷ es) = taken es

abbrev pub released : List Effect → List ℕ
released [] = []
released (accepted fd ∷ es) = released es
released (closed fd ∷ es) = fd ∷ released es
released (started socket ctl_socket ∷ es) = socket ∷ ctl_socket ∷ released es
released (joined ∷ es) = released es
released (quit ∷ es) = released es

taken-append : (xs ys : List Effect) → taken (xs ++ ys) ≡ taken xs ++ taken ys
taken-append [] ys = refl
taken-append (accepted fd ∷ xs) ys = ap (λ fds. fd ∷ fds) (taken-append xs ys)
taken-append (closed fd ∷ xs) ys = taken-append xs ys
taken-append (started socket ctl_socket ∷ xs) ys = taken-append xs ys
taken-append (joined ∷ xs) ys = taken-append xs ys
taken-append (quit ∷ xs) ys = taken-append xs ys

released-append : (xs ys : List Effect) → released (xs ++ ys) ≡ released xs ++ released ys
released-append [] ys = refl
released-append (accepted fd ∷ xs) ys = released-append xs ys
released-append (closed fd ∷ xs) ys = ap (λ fds. fd ∷ fds) (released-append xs ys)
released-append (started socket ctl_socket ∷ xs) ys =
    ap (λ fds. socket ∷ ctl_socket ∷ fds) (released-append xs ys)
released-append (joined ∷ xs) ys = released-append xs ys
released-append (quit ∷ xs) ys = released-append xs ys

-- No `pthread_create` of these arrivals returns a number over 0.
abbrev pub Created : List Arrival → Type 0
Created [] = Unit
Created (a ∷ arrivals) = (ltb_ℤ (pos 0) a.thread ≡ false) × Created arrivals

-- The effects release as many as they take, and those of a list.
abbrev Releases : ℕ → List ℕ → List Effect → Type 0
Releases fd fds es = count fd (released es) ≡ count fd (taken es) + count fd fds

if_Releases :
    (fd : ℕ) (fds : List ℕ) (xs ys : List Effect) (b : Bool)
    → Releases fd fds xs
    → Releases fd fds ys
    → Releases fd fds (if b then xs else ys)
if_Releases fd fds xs ys true h k = h
if_Releases fd fds xs ys false h k = k

if_first :
    (fd : ℕ) (fds : List ℕ) (x y : List Effect × Bool) (b : Bool)
    → Releases fd fds x.0
    → Releases fd fds y.0
    → Releases fd fds (if b then x else y).0
if_first fd fds x y true h k = h
if_first fd fds x y false h k = k

close_both-Releases :
    (fd socket ctl_socket : ℕ)
    → Releases fd (socket ∷ ctl_socket ∷ []) (close_both socket ctl_socket)
close_both-Releases fd socket ctl_socket = omega arith

waits-Releases :
    (fd : ℕ) (fds : List ℕ) (b : Bool) (es : List Effect)
    → Releases fd fds es
    → Releases fd fds ((if b then joined ∷ [] else []) ++ es)
waits-Releases fd fds true es h = h
waits-Releases fd fds false es h = h

new_sound_thread-Releases :
    (fd : ℕ) (no_threading last : Bool) (a : Arrival) (socket ctl_socket : ℕ)
    → ltb_ℤ (pos 0) a.thread ≡ false
    → Releases fd
        (socket ∷ ctl_socket ∷ [])
        (new_sound_thread no_threading last a socket ctl_socket).0
unfolding new_sound_thread
new_sound_thread-Releases fd no_threading last a socket ctl_socket made =
    let both = socket ∷ ctl_socket ∷ [] in
    if_first fd both _ _ (not a.nonblocking || (ltb 0 ctl_socket && not a.ctl_nonblocking))
      (close_both-Releases fd socket ctl_socket)
      (if_first fd both _ _ (ltb_ℤ a.thread (pos 0))
        (waits-Releases fd both (no_threading && last) (close_both socket ctl_socket)
          (close_both-Releases fd socket ctl_socket))
        (subst (λ b. Releases fd both (if b then (waits, true) else running).0) (sym made)
          (waits-Releases fd both (no_threading && last) (started socket ctl_socket ∷ [])
            (omega arith))))
  where
    waits : List Effect
    waits = if no_threading && last then joined ∷ [] else []

    running : List Effect × Bool
    running = (waits ++ (started socket ctl_socket ∷ []), true)

append-Releases :
    (fd : ℕ) (fds : List ℕ) (es later : List Effect)
    → Releases fd fds es
    → Releases fd [] later
    → Releases fd fds (es ++ later)
append-Releases fd fds es later h k = omega (
  arith,
  h,
  k,
  ap (count fd) (taken-append es later),
  ap (count fd) (released-append es later),
  count-append fd (taken es) (taken later),
  count-append fd (released es) (released later),
)

module _ (inet_ntop : ℕ → List ℕ → List ℕ) (no_threading : Bool) (fd : ℕ) (positive : 0 < fd)
    (a : Arrival) (continue : State → List Effect)
    (h : (st : State) → st.s_ctl ≡ none → Releases fd [] (continue st))
    (made_or : ltb_ℤ (pos 0) a.thread ≡ false) where
  hand-Releases :
      (st : State) (s_new s_ctl : ℕ)
      → Releases fd (s_new ∷ s_ctl ∷ []) (hand inet_ntop no_threading a st continue s_new s_ctl)
  hand-Releases st s_new s_ctl =
      let made = new_sound_thread no_threading st.last_thread a s_new s_ctl in
      append-Releases fd (s_new ∷ s_ctl ∷ []) made.0 _
        (new_sound_thread-Releases fd no_threading st.last_thread a s_new s_ctl made_or)
        (h (record st { s_ctl = none; last_thread = made.1 }) refl)

  with_second-Releases :
      (st : State) (s_new : ℕ) (second : Option (ℕ × Storage))
      → Releases fd (s_new ∷ []) (with_second inet_ntop no_threading a st continue s_new second)
  with_second-Releases st s_new none =
      let later = h (record st { s_ctl = none }) refl in omega (arith, later)
  with_second-Releases st s_new (some (s_ctl, addr1)) =
      let st1 : State = record st { addr1 = addr1 } in
      let later = h (record st1 { s_ctl = none }) refl in
      let both = s_new ∷ s_ctl ∷ [] in
      let refusing = closed s_new ∷ closed s_ctl ∷ continue (record st1 { s_ctl = none }) in
      let refused : Releases fd both refusing = omega (arith, later) in
      let tested =
        if_Releases fd both refusing (hand inet_ntop no_threading a st1 continue s_new s_ctl)
          (ltb 0 s_ctl && not (valid_ips inet_ntop st1.addr0 st1.addr1)) refused
          (hand-Releases st1 s_new s_ctl) in
      omega (arith, tested)

  with_polled-Releases :
      (st : State) (s_new : ℕ) (polled : Option Bool)
      → st.s_ctl ≡ none
      → Releases fd (s_new ∷ []) (with_polled inet_ntop no_threading a st continue s_new polled)
  with_polled-Releases st s_new none e =
      let closed_none : close_some inet_ntop st.s_ctl ≡ [] = ap (close_some inet_ntop) e in
      let nothing : Releases fd [] (close_some inet_ntop st.s_ctl ++ (quit ∷ [])) =
        subst (λ es. Releases fd [] (es ++ (quit ∷ []))) (sym closed_none) (omega arith) in
      omega (arith, nothing)
  with_polled-Releases st s_new (some false) e =
      let handed = hand-Releases st s_new 0 in
      let zero_not : (0 == fd) ≡ false = ground arith in
      let alone : count fd (0 ∷ []) ≡ 0 = rw zero_not (omega arith) in omega (arith, handed, alone)
  with_polled-Releases st s_new (some true) e = with_second-Releases st s_new a.second

  with_first-Releases :
      (st : State) (first : Option (ℕ × Storage))
      → st.s_ctl ≡ none
      → Releases fd [] (with_first inet_ntop no_threading a st continue first)
  with_first-Releases st none e = h st e
  with_first-Releases st (some (s_new, addr0)) e =
      let one = with_polled-Releases (record st { addr0 = addr0 }) s_new a.polled e in
      omega (arith, one)

-- When no `pthread_create` returns a number over 0, every descriptor but 0 that the daemon accepts is
-- closed or handed to a thread that runs, and as often as it is accepted, whatever else the system
-- answers and wherever the daemon ends.
pub accept_loop-Releases :
    (inet_ntop : ℕ → List ℕ → List ℕ) (no_threading : Bool) (arrivals : List Arrival) (st : State)
    (fd : ℕ)
    → st.s_ctl ≡ none
    → 0 < fd
    → Created arrivals
    → let effects = accept_loop inet_ntop no_threading arrivals st in
      count fd (released effects) ≡ count fd (taken effects)
unfolding accept_loop
accept_loop-Releases inet_ntop no_threading arrivals st fd e positive made =
    let all = go arrivals st e made in omega (arith, all)
  where
    go :
        (arrivals : List Arrival) (st : State)
        → st.s_ctl ≡ none
        → Created arrivals
        → Releases fd [] (accept_loop inet_ntop no_threading arrivals st)
    go [] st e made = omega arith
    go (a ∷ arrivals) st e (made, later) =
        with_first-Releases inet_ntop no_threading fd positive a
          (accept_loop inet_ntop no_threading arrivals) (λ st1 e1. go arrivals st1 e1 later) made st
          a.first e

same_text_refl : (s : List ℕ) → same_text s s ≡ true
same_text_refl [] = refl
same_text_refl (c ∷ s) = ground (arith, same_text_refl s)

-- Two connections of one family are let through whatever their two addresses are.
pub valid_ips_lem :
    (inet_ntop : ℕ → List ℕ → List ℕ) (addr0 addr1 : Storage)
    → addr0.family ≡ addr1.family
    → valid_ips inet_ntop addr0 addr1 ≡ true
unfolding valid_ips
valid_ips_lem inet_ntop addr0 addr1 e =
    ap
      (λ f.
        same_text (remote_ip inet_ntop addr0.family (get_addr addr0))
          (remote_ip inet_ntop f (get_addr addr0)))
      (sym e)
    ∙ same_text_refl (remote_ip inet_ntop addr0.family (get_addr addr0))
