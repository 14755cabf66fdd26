-- ===== src/Examples/Output.antt =====
-- Outputs, anomalies, the port and the worker's rounds at work.
use Prim.{tt}
use libppuc.Common.{
  true, false, ℕ, ◌<◌, ◌≡◌, ◌⊎◌, refl, false, none, some, List, [], ◌∷◌, ◌++◌, length, replicate,
  arith, get_or, ltb, if◌then◌else◌, ◌-◌,
}
use libppuc.Protocol.Sample.{sample, sample-EventLaws, sample-BitmapLaws}
use libppuc.State.{frame_crc, Event, Comm}
use libppuc.Anomaly.{append, entry_text, report_at, collect, recent}
use libppuc.Anomaly.Ring.{IsRing, recent-append}
use libppuc.Anomaly.Limit.{Recent, Idle, report_at-IsRing, report_at_cases}
use libppuc.Port.{blocking_read, read_exact}
use libppuc.Port.Reading.{read_exact_lem, read_exact_total}
use libppuc.Outputs.{next_snapshot, compose_frame, queue_event, coil_bits}
use libppuc.Outputs.Queue.{IsBounded, queue_event-IsBounded}
use libppuc.Outputs.Pulse.{occurs, sends, frames, OnFor, frames-OnFor}
use libppuc.Api.{set_solenoid_state, stop_updates}
use libppuc.Api.Pulse.{set_solenoid_state-OnFor}
use libppuc.Api.Updates.{run_round-stop_updates}
use libppuc.Common.Ints.{pos}
use libppuc.Session.{send_output_state_frame_from_buffers}
use libppuc.Runtime.{send_outputs, run_round}
use libppuc.Runtime.Frames.{SameTargets, send_outputs_cases}
use libppuc.Runtime.Rounds.{trigger_frames, run_round_stopped}
use libppuc.Examples.Table.{table, all_off, no_anomalies, reply_world}

-- Coil 1 is switched on, held for three frames, and switched off at once.
abbrev kick : Event
kick = record { source_id = 83; event_id = 21; value = 1 }

abbrev release : Event
release = record { source_id = 83; event_id = 21; value = 0 }

abbrev kicked : Comm
kicked = record table {
  outputs = record all_off { coil_hold_frames = 0 ∷ 3 ∷ replicate 14 0; coil_bitmap = 2 ∷ 0 ∷ [] };
}

coil_one : 1 < coil_bits sample kicked
unfolding coil_bits
coil_one = omega arith

frames-OnFor_example :
    OnFor sample 3 1
      (frames sample kicked (occurs release ∷ sends ∷ sends ∷ occurs kick ∷ sends ∷ []))
frames-OnFor_example =
    frames-OnFor sample sample-BitmapLaws kicked
      (occurs release ∷ sends ∷ sends ∷ occurs kick ∷ sends ∷ []) 1 3 coil_one
      (record { bitmap_size = refl; snapshot_sizes = tt })
      (record { counted = omega arith; renewed = omega arith })

queue_event-IsBounded_example : IsBounded (queue_event sample kick table).outputs
queue_event-IsBounded_example =
    queue_event-IsBounded sample kick table
      (record { snapshots_in = omega arith; events_in = omega arith })

no_anomalies-IsRing : IsRing no_anomalies
no_anomalies-IsRing = record {
  size = refl;
  head_in = omega arith;
  count_in = omega arith;
  filling = λ h. refl;
}

recent-append_example :
    recent (append (record { text = 65 ∷ []; wall_ms = 9 }) no_anomalies)
    ≡ record { text = 65 ∷ []; wall_ms = 9 } ∷ []
unfolding recent collect
recent-append_example =
    recent-append (record { text = 65 ∷ []; wall_ms = 9 }) no_anomalies no_anomalies-IsRing

report_at-IsRing_example : IsRing (report_at frame_crc (65 ∷ []) 1000 5 no_anomalies)
report_at-IsRing_example =
    report_at-IsRing frame_crc (65 ∷ []) 1000 5 no_anomalies no_anomalies-IsRing

report_at_cases_example :
    let s = no_anomalies.of_kind frame_crc in
    let b = report_at frame_crc (65 ∷ []) 1000 5 no_anomalies in
    ((b.of_kind frame_crc).total ≡ 1)
    × ((Recent s 1000
          × (recent b ≡ [])
          × ((b.of_kind frame_crc).suppressed ≡ 1)
          × ((b.of_kind frame_crc).last_record ≡ none))
        ⊎ (Idle s 1000
            × (recent b ≡ record { text = entry_text (65 ∷ []) 0; wall_ms = 5 } ∷ [])
            × ((b.of_kind frame_crc).suppressed ≡ 0)
            × ((b.of_kind frame_crc).last_record ≡ some 1000)))
unfolding recent collect
report_at_cases_example =
    report_at_cases frame_crc (65 ∷ []) 1000 5 no_anomalies no_anomalies-IsRing

-- Five bytes arrive two at a time.
read_exact_total_example :
    (b : List ℕ) × ((read_exact 5 reply_world).0 ≡ some b)
    × (length b ≡ 5)
    × (b ++ (read_exact 5 reply_world).1.input ≡ 165 ∷ 11 ∷ 15 ∷ 6 ∷ 1 ∷ [])
read_exact_total_example = read_exact_total 5 reply_world (λ n. omega arith) (omega arith)

abbrev three : List ℕ
three = 165 ∷ 11 ∷ 15 ∷ []

read_exact_lem_example :
    (length three ≡ 3) × (three ++ (read_exact 3 reply_world).1.input ≡ reply_world.input)
unfolding read_exact blocking_read
read_exact_lem_example = read_exact_lem 3 three reply_world refl

abbrev stopped_table : Comm
stopped_table = record table {
  runtime_enabled = false;
  outputs = record all_off { events = kick ∷ release ∷ [] };
}

run_round_stopped_example :
    let d = run_round sample stopped_table in
    (d.outputs ≡ all_off) × (d.world.sent ≡ trigger_frames sample 7 1 (kick ∷ release ∷ []))
run_round_stopped_example = run_round_stopped sample stopped_table refl (λ n k. refl) refl

two_coils : 1 < coil_bits sample table
unfolding coil_bits
two_coils = omega arith

set_solenoid_state-OnFor_example : OnFor sample 3 1 (
    frames sample
      (set_solenoid_state sample (pos 21) (pos 1) table)
      (occurs release ∷ sends ∷ sends ∷ sends ∷ []))
set_solenoid_state-OnFor_example =
    set_solenoid_state-OnFor sample sample-BitmapLaws (pos 21) (pos 1) 1 table
      (occurs release ∷ sends ∷ sends ∷ sends ∷ []) refl refl two_coils (omega arith)
      (record { bitmap_size = refl; snapshot_sizes = tt })

abbrev queued_table : Comm
queued_table = record table { outputs = record all_off { events = kick ∷ [] } }

run_round-stop_updates_example :
    let d = run_round sample (stop_updates sample queued_table) in
    (d.outputs ≡ all_off) × (d.world.sent ≡ trigger_frames sample 7 1 (kick ∷ []))
run_round-stop_updates_example =
    run_round-stop_updates sample sample-EventLaws queued_table refl (λ n k. refl)

-- The same with two snapshots in the queue.
abbrev pulsed : Comm
pulsed = record kicked {
  outputs = record (kicked.outputs) {
    snapshots =
        record { coils = 2 ∷ 0 ∷ []; lamps = 0 ∷ 0 ∷ []; gi = [] }
        ∷ record { coils = 0 ∷ 0 ∷ []; lamps = 0 ∷ 0 ∷ []; gi = [] }
        ∷ [];
  };
}

send_outputs_cases_example :
    let sent =
      (send_output_state_frame_from_buffers sample 15
        (compose_frame sample (next_snapshot pulsed).0 (next_snapshot pulsed).1)
        (next_snapshot pulsed).1).0 in
    let d = send_outputs sample 15 pulsed in
    let hold = pulsed.outputs.coil_hold_frames in
    (((sent ≡ true)
        × ((j : ℕ)
            → get_or d.outputs.coil_hold_frames j 0
              ≡ (if ltb j (coil_bits sample pulsed) then get_or hold j 0 - 1 else get_or hold j 0)))
      ⊎ ((sent ≡ false) × (d.outputs.coil_hold_frames ≡ hold)))
    × (d.outputs.snapshots ≡ record { coils = 0 ∷ 0 ∷ []; lamps = 0 ∷ 0 ∷ []; gi = [] } ∷ [])
    × SameTargets pulsed.outputs d.outputs
send_outputs_cases_example = send_outputs_cases sample 15 pulsed
