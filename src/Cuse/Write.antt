-- ===== src/Cuse/Write.antt =====
-- `ross_write` of src/cuse-ross/cuse-ross.c, with what the network thread and other threads do
-- between its steps.
use Prim.Native.Nat.{bit_and}
use rsound.Base.{
  ℕ, ◌+◌, ◌%◌, ◌^◌, Bool, true, false, ◌&&◌, ◌||◌, not, Option, none, some, List, [], ◌∷◌, ◌++◌,
  ◌==◌, ltb, min, if◌then◌else◌, length, take, drop,
}
use rsound.Fifo
use rsound.Fifo.{Fifo}
use rsound.Cuse.{
  Ross, Event, reply, signal, err, write, Result, undefined, blocked, finished, after, replied,
  Client, ross_audio_cb, ross_err_cb, o_nonblock,
}
use rsound.Cuse.Start.{ross_start}

-- A call of the audio callback for so many bytes, one of the error callback, and a wake-up without
-- a signal, which a condition variable may have.
pub data Act : Type 0 where
  read : ℕ → Act
  fail spurious : Act

abbrev pub act : Act → Ross → Option (List Event × Ross)
act (read n) ro = ross_audio_cb n ro
act fail ro = some (ross_err_cb ro)
act spurious ro = some (signal ∷ [], ro)

abbrev pub then_acts :
    (Ross → Option (List Event × Ross)) → Option (List Event × Ross) → Option (List Event × Ross)
then_acts rest none = none
then_acts rest (some (es, ro)) = elim (rest ro) [
  | none ↦ none
  | some (fs, ro1) ↦ some (es ++ fs, ro1)
]

unfoldable pub run_acts : List Act → Ross → Option (List Event × Ross)
run_acts [] ro = some ([], ro)
run_acts (a ∷ more) ro = then_acts (run_acts more) (act a ro)

-- What happens around one pass of the loop: after the bytes are stored, between the tests and the
-- wait or the loop's end, in the wait, and before the last test of the error.
pub record Turn : Type 0 where
  pub stored : List Act
  pub tested : List Act
  pub waited : List Act
  pub left : List Act

-- Whether `pthread_cond_wait` ends: a signal that comes while it waits.
abbrev pub wakes : List Event → Bool
wakes [] = false
wakes (signal ∷ es) = true
wakes (Event.reply r ∷ es) = wakes es
wakes (Event.notify h ∷ es) = wakes es
wakes (Event.destroy h ∷ es) = wakes es
wakes (Event.sleep t ∷ es) = wakes es
wakes (Event.played xs ∷ es) = wakes es

-- The others act, and then the rest follows.
abbrev pub with_acts : Option (List Event × Ross) → (List Event → Ross → Result) → Result
with_acts none rest = undefined
with_acts (some (es, ro)) rest = after es (rest es ro)

-- From the end of the loop on.
unfoldable pub answer : ℕ → Ross → Result
answer written ro =
    if ro.error
    then replied (err 32) ro
    else if written == 0
    then replied (err 11) ro
    else finished (reply (write written) ∷ [])
        (record ro { write_cnt = (ro.write_cnt + written) % 2 ^ 32 })

abbrev pub leave : Turn → ℕ → Ross → Result
leave t written ro = with_acts (run_acts t.left ro) (λ es ro1. answer written ro1)

-- `while (size > 0 && !ro->error)`
abbrev pub again : (List ℕ → ℕ → Ross → Result) → Turn → List ℕ → ℕ → Ross → Result
again rest t xs written ro =
    if ltb 0 (length xs) && not ro.error then rest xs written ro else leave t written ro

abbrev pub wait : (List ℕ → ℕ → Ross → Result) → Turn → List ℕ → ℕ → Ross → Result
wait rest t xs written ro =
    with_acts (run_acts t.waited ro)
      (λ es ro1. if wakes es then again rest t xs written ro1 else blocked)

-- The pass from the unlock on, `n` bytes being stored.
abbrev pub tested : (List ℕ → ℕ → Ross → Result) → Turn → Bool → ℕ → List ℕ → ℕ → Ross → Result
tested rest t nonblock n xs written ro =
    if nonblock || ro.error
    then leave t written ro
    else with_acts (run_acts t.tested ro)
        (λ es ro1. if n == 0 then wait rest t xs written ro1 else again rest t xs written ro1)

abbrev pub stored :
    (List ℕ → ℕ → Ross → Result) → Turn → Bool → ℕ → List ℕ → ℕ → Ross → Option Fifo → Result
stored rest t nonblock n xs written ro none = undefined
stored rest t nonblock n xs written ro (some g) =
    with_acts (run_acts t.stored (record ro { buffer = some g }))
      (λ es ro1. tested rest t nonblock n (drop n xs) (written + n) ro1)

-- Under the callback's lock: as much of the bytes as there is room for.
abbrev pub store : ℕ → List ℕ → Fifo → Option Fifo
store n xs f = if ltb 0 n then Fifo.write f (take n xs) else some f

abbrev pub pass :
    (List ℕ → ℕ → Ross → Result) → Turn → Bool → List ℕ → ℕ → Ross → Option Fifo → Result
pass rest t nonblock xs written ro none = undefined
pass rest t nonblock xs written ro (some f) =
    let n = min (Fifo.write_avail f) (length xs) in
    stored rest t nonblock n xs written ro (store n xs f)

-- The loop, for as many passes as there are turns; a wait that no turn ends is `blocked`.
unfoldable pub write_loop : List Turn → Bool → List ℕ → ℕ → Ross → Result
write_loop [] nonblock xs written ro = blocked
write_loop (t ∷ ts) nonblock xs written ro =
    pass (write_loop ts nonblock) t nonblock xs written ro ro.buffer

-- With the stream started, or started here, or EIO.
abbrev pub write_started : List Turn → Bool → List ℕ → Option (Bool × Ross) → Result
write_started ts nonblock xs none = undefined
write_started ts nonblock xs (some (false, ro)) = replied (err 5) ro
write_started ts nonblock xs (some (true, ro)) = write_loop ts nonblock xs 0 ro

-- `ross_write`
unfoldable pub ross_write : Client → Bool → Bool → List Turn → ℕ → List ℕ → Ross → Result
ross_write client struct_ok storage_ok ts flags xs ro =
    if length xs == 0
    then replied (write 0) ro
    else if ro.error
    then replied (err 32) ro
    else write_started ts (ro.nonblock || not (bit_and flags o_nonblock == 0)) xs
        (if ro.started then some (true, ro) else ross_start client struct_ok storage_ok ro)
