-- ===== src/Runtime/Frames.antt =====
-- An output frame of the worker thread, written or not, and what it uses up.
use Prim.Native.String.{String}
use libppuc.Common.{
  pop, ℕ, ◌-◌, get_or, ◌≡◌, refl, sym, subst, ap, ◌∙◌, min, ◌⊎◌, inl, inr, Bool, true, false, List,
  ltb, if◌then◌else◌, arith, Bool-cases,
}
use libppuc.Outputs.Holdover.{get-consume_from}
use libppuc.Protocol.{Protocol, RuntimeConfig}
use libppuc.State.{Snapshot, Outputs, Comm}
use libppuc.Anomaly.{report}
use libppuc.Port.{write_bytes, write_result}
use libppuc.Outputs.{compose_frame, consume_from, coil_bits, consume_coil_holdover, next_snapshot}
use libppuc.Session.{next_sequence, send_output_state_frame_from_buffers}
use libppuc.Switches.Reply.{write_bytes-Kept}
use libppuc.Switches.Recovery.{outputs-chain}
use libppuc.Runtime.{poll_boards, send_outputs}

-- What a frame leaves alone: the wanted states of all outputs, the events, and the length of holds.
pub record SameTargets (a b : Outputs) : Type 0 where
  pub coils : b.coil_bitmap ≡ a.coil_bitmap
  pub lamps : b.lamp_bitmap ≡ a.lamp_bitmap
  pub gi : b.gi_levels ≡ a.gi_levels
  pub events : b.events ≡ a.events
  pub hold_count : b.coil_hold_frame_count ≡ a.coil_hold_frame_count

module _ (p : Protocol) where
  outputs-poll_boards :
      (next : ℕ) (refresh : Bool) (c : Comm) → (poll_boards p next refresh c).outputs ≡ c.outputs
  unfolding poll_boards
  outputs-poll_boards next refresh c = ground (arith, outputs-chain p next c)

  config-write_bytes :
      (t : String) (b : List ℕ) (c : Comm) → (write_bytes t b c).1.runtime_config ≡ c.runtime_config
  unfolding write_bytes write_result report
  config-write_bytes t b c = ground arith

  -- Sending an output frame, written or not, leaves the outputs and the configuration alone.
  sending_lem :
      (next : ℕ) (s : Snapshot) (c : Comm)
      → let d = (send_output_state_frame_from_buffers p next s c).1 in
        (d.outputs ≡ c.outputs) × (d.runtime_config ≡ c.runtime_config)
  unfolding send_output_state_frame_from_buffers
  sending_lem next s c =
      let b =
        p.build_output_state_frame next c.sequence c.epoch c.runtime_config s.coils s.lamps s.gi in
      let c' : Comm = record (next_sequence c) { last_output_sequence = get_or b 3 0 } in
      ground (
        arith,
        (write_bytes-Kept "OutputStateFrame" b c').outputs,
        config-write_bytes "OutputStateFrame" b c',
      )

  snapshot_lem :
      (c : Comm)
      → let d = (next_snapshot c).1 in
        (d.outputs.coil_hold_frames ≡ c.outputs.coil_hold_frames)
        × (d.runtime_config ≡ c.runtime_config)
  unfolding next_snapshot
  snapshot_lem c = ground arith

  -- Counting down in a state with the same outputs and configuration.
  consumed_lem :
      (hold : List ℕ) (c c1 c2 : Comm)
      → c2.outputs ≡ c1.outputs
      → c2.runtime_config ≡ c.runtime_config
      → c1.outputs.coil_hold_frames ≡ hold
      → (consume_coil_holdover p c1.outputs.coil_hold_frames c2).outputs
        ≡ record (c1.outputs) { coil_hold_frames = consume_from (coil_bits p c) 0 hold hold }
  unfolding consume_coil_holdover coil_bits
  consumed_lem hold c c1 c2 o r h =
      ap
        (λ (u : Outputs). record u {
          coil_hold_frames =
              consume_from (coil_bits p c2) 0 c1.outputs.coil_hold_frames u.coil_hold_frames;
        })
        o
      ∙ (ap
            (λ (k : RuntimeConfig). record (c1.outputs) {
              coil_hold_frames =
                  consume_from (min k.coil_bits p.max_coil_bits) 0 c1.outputs.coil_hold_frames
                    c1.outputs.coil_hold_frames;
            })
            r
          ∙ ap
              (λ hs. record (c1.outputs) {
                coil_hold_frames = consume_from (coil_bits p c) 0 hs hs;
              })
              h)

  targets_lem : (c : Comm) → SameTargets c.outputs (next_snapshot c).1.outputs
  unfolding next_snapshot
  targets_lem c = record {
    coils = ground arith;
    lamps = ground arith;
    gi = ground arith;
    events = ground arith;
    hold_count = ground arith;
  }

  popped_lem : (c : Comm) → (next_snapshot c).1.outputs.snapshots ≡ pop c.outputs.snapshots
  unfolding next_snapshot
  popped_lem c = ground arith

  counted_lem :
      (n j : ℕ) (hold : List ℕ)
      → get_or (consume_from n 0 hold hold) j 0
        ≡ (if ltb j n then get_or hold j 0 - 1 else get_or hold j 0)
  counted_lem n j hold = get-consume_from n 0 j hold hold ∙ ground arith

  -- Where an output frame is sent, the hold of each configured coil goes down by one, to no less than
  -- 0, and all others stay; where it cannot be written, all holds stay. Either way the queue of
  -- snapshots loses its front, and the wanted states, the events and the length of holds stay.
  pub send_outputs_cases :
      (next : ℕ) (c : Comm)
      → let (s, c1) = next_snapshot c in
        let sent = (send_output_state_frame_from_buffers p next (compose_frame p s c1) c1).0 in
        let d = send_outputs p next c in
        let hold = c.outputs.coil_hold_frames in
        (((sent ≡ true)
            × ((j : ℕ)
                → get_or d.outputs.coil_hold_frames j 0
                  ≡ (if ltb j (coil_bits p c) then get_or hold j 0 - 1 else get_or hold j 0)))
          ⊎ ((sent ≡ false) × (d.outputs.coil_hold_frames ≡ hold)))
        × (d.outputs.snapshots ≡ pop c.outputs.snapshots)
        × SameTargets c.outputs d.outputs
  unfolding send_outputs
  send_outputs_cases next c =
      let (s, c1) = next_snapshot c in
      let (h, r) = snapshot_lem c in
      let frame = compose_frame p s c1 in
      let (o, q) = sending_lem next frame c1 in
      let c2 = (send_output_state_frame_from_buffers p next frame c1).1 in
      let hold = c.outputs.coil_hold_frames in
      let t = targets_lem c in
      elim (Bool-cases (send_output_state_frame_from_buffers p next frame c1).0) [
        | inr e ↦
            rw (e, send_outputs)
              (
                inr (refl, ap (λ (u : Outputs). u.coil_hold_frames) o ∙ h),
                ap (λ (u : Outputs). u.snapshots) o ∙ popped_lem c,
                subst (SameTargets c.outputs) (sym o) t,
              )
        | inl e ↦
            let counted =
              outputs-poll_boards next false
                (consume_coil_holdover p c1.outputs.coil_hold_frames c2)
              ∙ consumed_lem hold c c1 c2 o (q ∙ r) h in
            rw (e, send_outputs)
              (
                inl (
                  refl,
                  λ j.
                      ap (λ (u : Outputs). get_or u.coil_hold_frames j 0) counted
                      ∙ counted_lem (coil_bits p c) j hold,
                ),
                ap (λ (u : Outputs). u.snapshots) counted ∙ popped_lem c,
                subst (SameTargets c.outputs) (sym counted) (record {
                  coils = t.coils;
                  lamps = t.lamps;
                  gi = t.gi;
                  events = t.events;
                  hold_count = t.hold_count;
                }),
              )
      ]
