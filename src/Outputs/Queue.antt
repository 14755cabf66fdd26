-- ===== src/Outputs/Queue.antt =====
-- The two queues that `QueueEvent` of src/RS485Comm.cpp fills, and their limits.
use libppuc.Common.{
  ◌≤◌, ◌≡◌, inl, inr, List, [], ◌∷◌, length, push, pop, if◌then◌else◌, ltb, leb, arith, Bool-cases,
  Option-cases, length-append, length-pop,
}
use libppuc.Common.Maps.{lookup}
use libppuc.Protocol.{Protocol}
use libppuc.State.{Event, Snapshot, Outputs, Comm}
use libppuc.Anomaly.{report}
use libppuc.Outputs.{output_queue_max, current, queue_output_snapshot, queue_solenoid, queue_event}

-- A queue that makes room for one more.
abbrev pub make_room : List Snapshot → List Snapshot
make_room q = if leb output_queue_max (length q) then pop q else q

pub outputs-queue_output_snapshot :
    (c : Comm)
    → (queue_output_snapshot c).outputs
      ≡ record (c.outputs) { snapshots = push (make_room c.outputs.snapshots) (current c.outputs) }
unfolding queue_output_snapshot report
outputs-queue_output_snapshot c =
    elim (Bool-cases (leb output_queue_max (length c.outputs.snapshots))) [
      | inl h ↦ rw h
      | inr h ↦ rw h
    ]

-- Both queues are within their limits.
pub record IsBounded (o : Outputs) : Type 0 where
  pub snapshots_in : length o.snapshots ≤ 256
  pub events_in : length o.events ≤ 128

queue_output_snapshot-IsBounded :
    (c : Comm) → IsBounded c.outputs → IsBounded (queue_output_snapshot c).outputs
queue_output_snapshot-IsBounded c b = rw (outputs-queue_output_snapshot c) (record {
  snapshots_in = ground (
    arith,
    b.snapshots_in,
    length-pop c.outputs.snapshots,
    length-append (pop c.outputs.snapshots) (current c.outputs ∷ []),
    length-append c.outputs.snapshots (current c.outputs ∷ []),
  );
  events_in = b.events_in;
})

module _ (p : Protocol) where
  solenoid-IsBounded :
      (e : Event) (c : Comm) → IsBounded c.outputs → IsBounded (queue_solenoid p e c).outputs
  unfolding queue_solenoid
  solenoid-IsBounded e c b =
      elim (Option-cases (lookup e.event_id c.mappings.coil_number_to_index)) [
        | inl h ↦ rw (h, queue_solenoid) b
        | inr (i, h) ↦ elim (Bool-cases (ltb i p.max_coil_bits)) [
          | inl k ↦
              rw (h, queue_solenoid, k)
                (queue_output_snapshot-IsBounded _
                  (record { snapshots_in = b.snapshots_in; events_in = b.events_in }))
          | inr k ↦ rw (h, queue_solenoid, k) b
        ]
      ]

  -- No event makes a queue longer than its limit: 256 output snapshots, 128 events.
  pub queue_event-IsBounded :
      (e : Event) (c : Comm) → IsBounded c.outputs → IsBounded (queue_event p e c).outputs
  unfolding queue_event
  queue_event-IsBounded e c b =
      ground (arith, solenoid-IsBounded e c b, length-append c.outputs.events (e ∷ []))
