-- ===== src/Client/Start.antt =====
-- src/librsound/librsound.c: how `rsnd_create_connection` and `rsd_start` end.
use rsound.Base.{◌<◌, ◌^◌, ◌≡◌, Bool, true, false, Option, none, some}
use rsound.Client.{Rsound, Result}
use rsound.Client.Agree.{Fits}

-- No socket, no thread, and nothing to write to.
pub record IsClosed (rd : Rsound) : Type 0 where
  pub no_socket : rd.socket ≡ none
  pub no_ctl : rd.ctl_socket ≡ none
  pub no_thread : rd.thread_active ≡ false
  pub not_ready : rd.ready_for_data ≡ false

-- A thread by its flag, and buffers that fit the server's chunks.
pub record IsStarted (rd : Rsound) : Type 0 where
  pub thread : rd.thread_active ≡ true
  pub ready : rd.ready_for_data ≡ true
  pub fits : Fits rd

unfoldable pub Ends : Option Result → Type 0
Ends none = Unit
Ends (some (false, rd, calls)) = IsClosed rd
Ends (some (true, rd, calls)) = IsStarted rd

-- A client that has not shaken hands yet.
abbrev Unready : Rsound → Type 0
Unready rd = (rd.buffer_size < 2 ^ 62) × (rd.ready_for_data ≡ false)

Dialed : Option (Bool × Rsound) → Type 0
Dialed none = Unit
Dialed (some (rc, rd)) = Unready rd
