-- ===== src/Outputs.antt =====
-- Coils, lamps and GI strings: `QueueEvent`, the queues it fills, the coil holdover and the
-- composition of an output frame in `Run` (src/RS485Comm.cpp). Deleting an event frees memory only.
pub mod Queue
pub mod Holdover
pub mod Held
pub mod Pulse
use libppuc.Common.{
  ℕ, zero, suc, ◌+◌, ◌-◌, Bool, true, false, not, ◌&&◌, ◌||◌, Option, none, some, List, [], ◌∷◌,
  length, get_or, set, push, pop, replicate, min, if◌then◌else◌, ◌==◌, ◌!=◌, ltb, leb,
}
use libppuc.Common.Maps.{lookup}
use libppuc.Protocol.{Protocol}
use libppuc.State.{Event, Snapshot, Outputs, queue_overflow, snapshot_dropped, Comm}
use libppuc.Anomaly.{report}

abbrev pub with_outputs : Outputs → Comm → Comm
with_outputs o c = record c { outputs = o }

-- RS485_COMM_QUEUE_SIZE_MAX and RS485_COMM_OUTPUT_QUEUE_SIZE_MAX
abbrev pub event_queue_max : ℕ
event_queue_max = 128

abbrev pub output_queue_max : ℕ
output_queue_max = 256

abbrev pub current : Outputs → Snapshot
current o = record { coils = o.coil_bitmap; lamps = o.lamp_bitmap; gi = o.gi_levels }

-- A full queue loses its oldest snapshot, with a report.
drop_oldest : Comm → Comm
drop_oldest c =
    if leb output_queue_max (length c.outputs.snapshots)
    then (let c' = report queue_overflow snapshot_dropped c in
        with_outputs (record (c'.outputs) { snapshots = pop c'.outputs.snapshots }) c')
    else c

-- QueueOutputSnapshotLocked
unfoldable pub queue_output_snapshot : Comm → Comm
unfolding drop_oldest
queue_output_snapshot c =
    let c' = drop_oldest c in
    with_outputs
      (record (c'.outputs) { snapshots = push c'.outputs.snapshots (current c'.outputs) }) c'

unfoldable pub clear_queued_events : Comm → Comm
clear_queued_events c = with_outputs (record (c.outputs) { events = [] }) c

unfoldable pub clear_queued_output_snapshots : Comm → Comm
clear_queued_output_snapshots c = with_outputs (record (c.outputs) { snapshots = [] }) c

module _ (p : Protocol) where
  -- The branch of EVENT_SOURCE_SOLENOID, where the coil has index `i`.
  unfoldable pub set_coil : ℕ → Bool → Outputs → Outputs
  set_coil i on o = record o {
    coil_bitmap = p.set_bitmap_bit o.coil_bitmap i on;
    coil_hold_frames =
        if on then set o.coil_hold_frames i o.coil_hold_frame_count else o.coil_hold_frames;
  }

  unfoldable pub queue_solenoid : Event → Comm → Comm
  unfolding set_coil
  queue_solenoid e c = elim (lookup e.event_id c.mappings.coil_number_to_index) [
    | none ↦ c
    | some i ↦
        if ltb i p.max_coil_bits
        then queue_output_snapshot (with_outputs (set_coil i (e.value != 0) c.outputs) c)
        else c
  ]

  unfoldable pub queue_light : Event → Comm → Comm
  queue_light e c = elim (lookup e.event_id c.mappings.lamp_number_to_index) [
    | none ↦ c
    | some i ↦
        if ltb i p.max_lamp_bits
        then with_outputs
            (record (c.outputs) {
              lamp_bitmap = p.set_bitmap_bit c.outputs.lamp_bitmap i (e.value != 0);
            })
            c
        else c
  ]

  unfoldable pub queue_gi : Event → Comm → Comm
  queue_gi e c =
      if leb 1 e.event_id && leb e.event_id p.gi_strings
      then with_outputs
          (record (c.outputs) {
            gi_levels = set c.outputs.gi_levels (e.event_id - 1) (p.clamp_gi_level e.value);
          })
          c
      else c

  unfoldable pub queue_effect : Event → Comm → Comm
  queue_effect e c =
      if leb event_queue_max (length c.outputs.events)
      then c
      else with_outputs (record (c.outputs) { events = push c.outputs.events e }) c

  -- QueueEvent
  unfoldable pub queue_event : Event → Comm → Comm
  unfolding queue_solenoid queue_light queue_gi queue_effect
  queue_event e c =
      if e.source_id == p.event_source_solenoid
      then queue_solenoid e c
      else if e.source_id == p.event_source_gi
      then queue_gi e c
      else if e.source_id == p.event_source_light
      then queue_light e c
      else if e.source_id == p.event_run
      then record c { runtime_enabled = e.value != 0 }
      else if e.source_id == p.event_read_switches
      then c
      else if e.source_id == p.event_source_effect
      then queue_effect e c
      else c

  -- ClearOutputState
  unfoldable pub clear_output_state : Comm → Comm
  clear_output_state c =
      with_outputs
        (record (c.outputs) {
          coil_bitmap = replicate p.max_coil_bytes 0;
          coil_hold_frames = replicate p.max_coil_bits 0;
          lamp_bitmap = replicate p.max_lamp_bytes 0;
          gi_levels = replicate p.gi_strings 0;
        })
        c

  -- The bound of the two loops over coils.
  unfoldable pub coil_bits : Comm → ℕ
  coil_bits c = min c.runtime_config.coil_bits p.max_coil_bits

  -- The loop of ApplyCoilHoldover, `n` rounds from coil `i`.
  unfoldable pub hold_from : ℕ → ℕ → List ℕ → List ℕ → List ℕ
  hold_from zero i hold coils = coils
  hold_from (suc n) i hold coils =
      hold_from n (i + 1) hold
        (if get_or hold i 0 == 0 then coils else p.set_bitmap_bit coils i true)

  unfoldable pub apply_coil_holdover : List ℕ → List ℕ → Comm → List ℕ
  unfolding hold_from coil_bits
  apply_coil_holdover coils hold c = hold_from (coil_bits c) 0 hold coils

  -- The bitmaps of the next frame: those of a queued snapshot or the present ones, with every coil
  -- that is held switched on.
  unfoldable pub compose_frame : Option Snapshot → Comm → Snapshot
  unfolding apply_coil_holdover
  compose_frame s c =
      let f : Snapshot = elim s [ some q ↦ q | none ↦ current c.outputs ] in
      record f { coils = apply_coil_holdover f.coils c.outputs.coil_hold_frames c }

-- The loop of ConsumeCoilHoldoverLocked: `hold` is the copy that the frame was made from.
unfoldable pub consume_from : ℕ → ℕ → List ℕ → List ℕ → List ℕ
consume_from zero i hold cur = cur
consume_from (suc n) i hold cur =
    consume_from n (i + 1) hold
      (if get_or hold i 0 == 0 || get_or cur i 0 == 0 then cur else set cur i (get_or cur i 0 - 1))

module _ (p : Protocol) where
  unfoldable pub consume_coil_holdover : List ℕ → Comm → Comm
  unfolding consume_from coil_bits
  consume_coil_holdover hold c =
      with_outputs
        (record (c.outputs) {
          coil_hold_frames = consume_from (coil_bits p c) 0 hold c.outputs.coil_hold_frames;
        })
        c

-- The front of the snapshot queue.
unfoldable pub next_snapshot : Comm → Option Snapshot × Comm
next_snapshot c = elim c.outputs.snapshots [
  | [] ↦ (none, c)
  | s ∷ rest ↦ (some s, with_outputs (record (c.outputs) { snapshots = rest }) c)
]
