-- ===== src/Client/Param.antt =====
-- `rsd_init` and `rsd_set_param` of src/librsound/librsound.c.
use rsound.Base.{
  ℕ, ◌^◌, ◌<◌, ◌≤◌, ◌≡◌, refl, Bool, true, false, Option, none, some, List, [], ◌∷◌, if◌then◌else◌,
  take, length, arith, ltb, length-take,
}
use rsound.Base.Int.{ℤ, pos, negsuc, to_unsigned}
use rsound.Format.{Format, s16_le, no_fmt, of_code, code, to_samplesize}
use rsound.Client.{Rsound}

-- `enum rsd_settings` with the argument that the pointer leads to; for the two texts that are copied,
-- with what `strdup` gives, `none` being its NULL.
pub data Setting : Type 0 where
  samplerate channels bufsize latency format : ℤ → Setting
  host port : Option (List ℕ) → Setting
  identity : List ℕ → Setting
  other : Setting

-- Whether 0 is returned, the state after, and the argument after, which only RSD_FORMAT changes.
abbrev pub Answer : Type 0
Answer = Bool × Rsound × Setting

-- An int stored if it is positive.
abbrev pub if_positive : ℤ → Rsound → Rsound → Setting → Answer
if_positive (pos n) new rd s = if ltb 0 n then (true, new, s) else (false, rd, s)
if_positive (negsuc n) new rd s = (false, rd, s)

-- The format and its sample size, and whether the code is one: else S16_LE.
abbrev pub valid_format : Option Format → Option (Format × ℕ)
valid_format none = none
valid_format (some f) = elim (to_samplesize f) [ none ↦ none | some n ↦ some (f, n) ]

abbrev pub store_format : Option (Format × ℕ) → Rsound → ℤ → Answer
store_format none rd p =
    (true, record rd { format = s16_le; samplesize = 2 }, format (pos (code s16_le)))
store_format (some (f, n)) rd p = (true, record rd { format = f; samplesize = n }, format p)

-- `rsd_set_param`
unfoldable pub set_param : Rsound → Setting → Answer
set_param rd (samplerate p) =
    if_positive p (record rd { rate = to_unsigned 32 p }) rd (samplerate p)
set_param rd (channels p) =
    if_positive p (record rd { channels = to_unsigned 32 p }) rd (channels p)
set_param rd (host s) = (true, record rd { host = s }, host s)
set_param rd (port s) = (true, record rd { port = s }, port s)
set_param rd (bufsize p) =
    if_positive p (record rd { buffer_size = to_unsigned 64 p }) rd (bufsize p)
set_param rd (latency p) = (true, record rd { max_latency = p }, latency p)
set_param rd (format p) = store_format (valid_format (of_code (to_unsigned 16 p))) rd p
set_param rd (identity s) = (true, record rd { identity = take 255 s }, identity s)
set_param rd other = (false, rd, other)

-- The memory that `calloc` gives, with the two sockets set to -1.
abbrev pub blank : Rsound
blank = record {
  socket = none;
  ctl_socket = none;
  host = none;
  port = none;
  conn_type = 0;
  buffer_size = 0;
  fifo_buffer = none;
  thread_active = false;
  total_written = 0;
  has_written = false;
  bytes_in_buffer = pos 0;
  delay_offset = pos 0;
  max_latency = pos 0;
  latency = 0;
  chunk_size = 0;
  ready_for_data = false;
  rate = 0;
  channels = 0;
  format = no_fmt;
  samplesize = 0;
  identity = [];
  audio_callback = false;
  use_latency = false;
}

-- A variable of the environment if it is set and not empty, or else the default.
abbrev pub env_or : Option (List ℕ) → List ℕ → List ℕ
env_or none d = d
env_or (some []) d = d
env_or (some (c ∷ s)) d = c ∷ s

-- "localhost" and "12345"
abbrev pub default_host : List ℕ
default_host = b'l' ∷ b'o' ∷ b'c' ∷ b'a' ∷ b'l' ∷ b'h' ∷ b'o' ∷ b's' ∷ b't' ∷ []

abbrev pub default_port : List ℕ
default_port = b'1' ∷ b'2' ∷ b'3' ∷ b'4' ∷ b'5' ∷ []

-- `rsd_init`: whether `calloc` succeeds, what `strdup` gives, then RSD_SERVER and RSD_PORT.
unfoldable pub init :
    Bool → (List ℕ → Option (List ℕ)) → Option (List ℕ) → Option (List ℕ) → Option Rsound
init false strdup rsdhost rsdport = none
init true strdup rsdhost rsdport =
    let rd0 = (set_param blank (format (pos (code s16_le)))).1 in
    let rd1 = (set_param rd0 (host (strdup (env_or rsdhost default_host)))).1 in
    some (set_param rd1 (port (strdup (env_or rsdport default_port)))).1

-- What the code that sizes samples and sends the identity relies on.
unfoldable pub IsConfigured : Rsound → Type 0
IsConfigured rd =
    (to_samplesize rd.format ≡ some rd.samplesize)
    × (rd.rate < 2 ^ 32)
    × (rd.channels < 2 ^ 32)
    × (length rd.identity ≤ 255)

store_format-IsConfigured :
    (f : Option Format) (rd : Rsound) (p : ℤ)
    → IsConfigured rd
    → IsConfigured (store_format (valid_format f) rd p).1
unfolding IsConfigured
store_format-IsConfigured none rd p h = ground arith
store_format-IsConfigured (some f) rd p h = elim f [ no_fmt ↦ ground arith | _ ↦ ground arith ]

-- Every `rsd_set_param`, refused or not, keeps a client configured: its sample size is that of
-- its format, rate and channels fit their fields, and the identity fits with its NUL.
pub set_param-IsConfigured :
    (rd : Rsound) (s : Setting) → IsConfigured rd → IsConfigured (set_param rd s).1
unfolding set_param IsConfigured
set_param-IsConfigured rd (samplerate p) h = ground arith
set_param-IsConfigured rd (channels p) h = ground arith
set_param-IsConfigured rd (host s) h = ground arith
set_param-IsConfigured rd (port s) h = ground arith
set_param-IsConfigured rd (bufsize p) h = ground arith
set_param-IsConfigured rd (latency p) h = ground arith
set_param-IsConfigured rd (format p) h =
    store_format-IsConfigured (of_code (to_unsigned 16 p)) rd p h
set_param-IsConfigured rd (identity s) h = ground (arith, length-take 255 s)
set_param-IsConfigured rd other h = h

-- A client that `rsd_init` returns is configured, has no connection and no thread, and carries the
-- copy of the host of the environment or of the default.
pub init-IsConfigured :
    (strdup : List ℕ → Option (List ℕ)) (rsdhost rsdport : Option (List ℕ))
    → (rd : Rsound) × (init true strdup rsdhost rsdport ≡ some rd)
      × IsConfigured rd
      × (rd.socket ≡ none)
      × (rd.ctl_socket ≡ none)
      × (rd.thread_active ≡ false)
      × (rd.host ≡ strdup (env_or rsdhost default_host))
unfolding init IsConfigured set_param of_code
init-IsConfigured strdup rsdhost rsdport =
    (_, refl, (refl, omega arith, omega arith, omega arith), refl, refl, refl, refl)
