-- ===== src/Port.antt =====
-- The serial port: `WriteBytes` and the two `readExact` lambdas of src/RS485Comm.cpp over
-- libserialport, whose answers are those of the `World`.
pub mod Reading
pub mod Writing
pub mod Input
use Prim.Native.String.{String}
use libppuc.Common.{
  ℕ, zero, suc, ◌+◌, ◌-◌, ◌≤◌, Bool, true, false, Option, none, some, List, [], ◌∷◌, ◌++◌, length,
  take, drop, push, min, if◌then◌else◌, ◌==◌, ltb, leb,
}
use libppuc.State.{Anomaly, serial_write, Message, write_failed, write_incomplete, World, Comm}
use libppuc.Anomaly.{report}

-- One more call to the outside.
abbrev pub tick : World → World
tick w = record w { calls = w.calls + 1 }

-- `steady_clock::now()`
unfoldable pub now : World → ℕ × World
now w = (w.steady w.calls, tick w)

-- `sp_blocking_read`: at most `k` bytes, none at a time-out.
unfoldable pub blocking_read : ℕ → World → List ℕ × World
blocking_read k w =
    let n = min (w.chunk w.calls) k in
    (take n w.input, record w { calls = w.calls + 1; input = drop n w.input })

-- `sp_input_waiting`
unfoldable pub input_waiting : World → ℕ × World
input_waiting w = (w.waiting w.calls, tick w)

-- `sp_flush(SP_BUF_INPUT)`
unfoldable pub flush_input : World → World
flush_input w = record w { calls = w.calls + 1; input = drop (w.flushed w.calls) w.input }

-- `sp_blocking_write`: the bytes that got out, and what it returns.
unfoldable pub blocking_write : List ℕ → World → Option ℕ × World
blocking_write b w = elim (w.accepts w.calls (length b)) [
  | none ↦ (none, tick w)
  | some n ↦ (some n, record w { calls = w.calls + 1; sent = push w.sent (take n b) })
]

-- What WriteBytes makes of the result.
unfoldable pub write_result : String → List ℕ → Comm → Option ℕ → Bool × Comm
write_result context b c none = (false, report serial_write (write_failed context) c)
write_result context b c (some n) =
    if n == length b
    then (true, c)
    else (false, report serial_write (write_incomplete context n (length b)) c)

-- `WriteBytes`
unfoldable pub write_bytes : String → List ℕ → Comm → Bool × Comm
unfolding write_result blocking_write
write_bytes context b c =
    if c.port_open
    then (let (r, w) = blocking_write b c.world in
        write_result context b (record c { world = w }) r)
    else (false, c)

-- `readExact(dst, bytes)` with `got` read so far: reads until `k` more bytes are there, and gives
-- up at a time-out. Each round that goes on takes at least one byte, so `k` rounds are enough.
unfoldable pub read_rest : ℕ → List ℕ → ℕ → World → Option (List ℕ) × World
read_rest zero got k w = (if k == 0 then some got else none, w)
read_rest (suc fuel) got k w =
    let (b, w') = blocking_read k w in
    let more = read_rest fuel (got ++ b) (k - length b) w' in
    if k == 0 then (some got, w) else if length b == 0 then (none, w') else more

unfoldable pub read_exact : ℕ → World → Option (List ℕ) × World
unfolding read_rest
read_exact k w = read_rest k [] k w
