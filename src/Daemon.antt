-- ===== src/Daemon.antt =====
-- The accept loop of src/daemon.c with `valid_ips`, and `new_sound_thread` of src/rsound-common.c.
-- What `accept`, `poll`, `fcntl` and `pthread_create` answer is an argument, and so is `inet_ntop`.
pub mod Sockets
mod Tests
use rsound.Base.{
  ℕ, Bool, true, false, ◌&&◌, ◌||◌, not, Option, none, some, List, [], ◌∷◌, ◌++◌, ◌==◌, ltb,
  if◌then◌else◌, drop,
}
use rsound.Base.Int.{ℤ, pos, ltb_ℤ}

-- `struct sockaddr_storage`: the family, and the bytes after it.
pub record Storage : Type 0 where
  pub family : ℕ
  pub bytes : List ℕ

-- AF_INET and AF_INET6 on Linux
abbrev pub af_inet : ℕ
af_inet = 2

abbrev pub af_inet6 : ℕ
af_inet6 = 10

-- `get_addr`: the bytes from the address on, `sin_addr` after the port, `sin6_addr` after the port
-- and the flow label.
abbrev pub get_addr : Storage → Option (List ℕ)
get_addr sa =
    if sa.family == af_inet
    then some (drop 2 sa.bytes)
    else if sa.family == af_inet6
    then some (drop 6 sa.bytes)
    else none

-- `strcmp` of two texts for equality.
abbrev pub same_text : List ℕ → List ℕ → Bool
same_text [] [] = true
same_text [] (d ∷ t) = false
same_text (c ∷ s) [] = false
same_text (c ∷ s) (d ∷ t) = (c == d) && same_text s t

-- What one pass of the loop gets: the two connections with their addresses, what `poll` says, and
-- what the set-up of the thread gets.
pub record Arrival : Type 0 where
  pub first : Option (ℕ × Storage)
  pub polled : Option Bool
  pub second : Option (ℕ × Storage)
  pub nonblocking : Bool
  pub ctl_nonblocking : Bool
  pub thread : ℤ

-- What is done with descriptors: one is accepted, one is closed, two are handed to a thread, the
-- thread before is waited for, the daemon ends.
pub data Effect : Type 0 where
  accepted closed : ℕ → Effect
  started : ℕ → ℕ → Effect
  joined quit : Effect

-- `their_addr`, `s_ctl` and whether `last_thread` is set.
pub record State : Type 0 where
  pub addr0 : Storage
  pub addr1 : Storage
  pub s_ctl : Option ℕ
  pub last_thread : Bool

abbrev pub close_both : ℕ → ℕ → List Effect
close_both socket ctl_socket = closed socket ∷ closed ctl_socket ∷ []

-- `new_sound_thread`: what it does, and whether `last_thread` is set then. A result over 0, with
-- which no thread runs, is taken for a success: the two sockets are left as they are.
abbrev pub create_thread : Bool → Bool → Arrival → ℕ → ℕ → List Effect × Bool
create_thread no_threading last a socket ctl_socket =
    let waits = if no_threading && last then joined ∷ [] else [] in
    if ltb_ℤ a.thread (pos 0)
    then (waits ++ close_both socket ctl_socket, last)
    else if ltb_ℤ (pos 0) a.thread
    then (waits, true)
    else (waits ++ (started socket ctl_socket ∷ []), true)

unfoldable pub new_sound_thread : Bool → Bool → Arrival → ℕ → ℕ → List Effect × Bool
new_sound_thread no_threading last a socket ctl_socket =
    if not a.nonblocking || (ltb 0 ctl_socket && not a.ctl_nonblocking)
    then (close_both socket ctl_socket, last)
    else create_thread no_threading last a socket ctl_socket

module _ (inet_ntop : ℕ → List ℕ → List ℕ) where
  -- A text of `remoteIP`, which stays empty for a family that is not one of the two.
  abbrev pub remote_ip : ℕ → Option (List ℕ) → List ℕ
  remote_ip family none = []
  remote_ip family (some addr) = inet_ntop family addr

  -- `valid_ips`: both texts are made from the first address.
  unfoldable pub valid_ips : Storage → Storage → Bool
  valid_ips addr0 addr1 =
      same_text (remote_ip addr0.family (get_addr addr0)) (remote_ip addr1.family (get_addr addr0))

  -- The connection is handed to a thread, `continue` being the rest of the loop.
  abbrev pub hand : Bool → Arrival → State → (State → List Effect) → ℕ → ℕ → List Effect
  hand no_threading a st continue s_new s_ctl =
      let (effects, last) = new_sound_thread no_threading st.last_thread a s_new s_ctl in
      effects ++ continue (record st { s_ctl = none; last_thread = last })

  -- From the second connection on.
  abbrev pub with_second :
      Bool → Arrival → State → (State → List Effect) → ℕ → Option (ℕ × Storage) → List Effect
  with_second no_threading a st continue s_new none =
      closed s_new ∷ continue (record st { s_ctl = none })
  with_second no_threading a st continue s_new (some (s_ctl, addr1)) =
      let st1 : State = record st { addr1 = addr1 } in
      accepted s_ctl
      ∷ (if ltb 0 s_ctl && not (valid_ips st1.addr0 st1.addr1)
          then closed s_new ∷ closed s_ctl ∷ continue (record st1 { s_ctl = none })
          else hand no_threading a st1 continue s_new s_ctl)

  abbrev pub close_some : Option ℕ → List Effect
  close_some none = []
  close_some (some fd) = closed fd ∷ []

  abbrev pub with_polled :
      Bool → Arrival → State → (State → List Effect) → ℕ → Option Bool → List Effect
  with_polled no_threading a st continue s_new none =
      closed s_new ∷ (close_some st.s_ctl ++ (quit ∷ []))
  with_polled no_threading a st continue s_new (some false) =
      hand no_threading a st continue s_new 0
  with_polled no_threading a st continue s_new (some true) =
      with_second no_threading a st continue s_new a.second

  abbrev pub with_first :
      Bool → Arrival → State → (State → List Effect) → Option (ℕ × Storage) → List Effect
  with_first no_threading a st continue none = continue st
  with_first no_threading a st continue (some (s_new, addr0)) =
      accepted s_new
      ∷ with_polled no_threading a (record st { addr0 = addr0 }) continue s_new a.polled

  -- The loop of `main`.
  unfoldable pub accept_loop : Bool → List Arrival → State → List Effect
  accept_loop no_threading [] st = []
  accept_loop no_threading (a ∷ arrivals) st =
      with_first no_threading a st (accept_loop no_threading arrivals) a.first
