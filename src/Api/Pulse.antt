-- ===== src/Api/Pulse.antt =====
-- From `PPUC::SetSolenoidState` to the frames: a coil that the game switches on gets its pulse.
use libppuc.Common.{
  ℕ, ◌<◌, ◌≡◌, true, false, some, List, length, ltb, ==_refl, arith, get_or-set_self,
}
use libppuc.Common.Maps.{lookup}
use libppuc.Common.Ints.{ℤ, to_u16, is_zero}
use libppuc.Protocol.{Protocol, BitmapLaws}
use libppuc.State.{Event, Comm}
use libppuc.Outputs.{coil_bits, set_coil, queue_solenoid, queue_event}
use libppuc.Outputs.Queue.{outputs-queue_output_snapshot}
use libppuc.Outputs.Held.{IsSized, IsHeld, queue_event-IsSized}
use libppuc.Outputs.Pulse.{Action, OnFor, frames, frames-OnFor, coil_bits-queue_event}
use libppuc.Api.{set_solenoid_state}

module _ (p : Protocol) (laws : BitmapLaws p) where
  switched_on :
      (n i : ℕ) (c : Comm)
      → lookup n c.mappings.coil_number_to_index ≡ some i
      → i < p.max_coil_bits
      → i < length c.outputs.coil_hold_frames
      → let e : Event = record { source_id = p.event_source_solenoid; event_id = n; value = 1 } in
        IsHeld i c.outputs.coil_hold_frame_count (queue_event p e c).outputs
  unfolding queue_event queue_solenoid set_coil
  switched_on n i c h l m =
      let t : (ltb i p.max_coil_bits) ≡ true = ground arith in
      rw
        (
          ==_refl p.event_source_solenoid,
          queue_event,
          h,
          queue_solenoid,
          t,
          outputs-queue_output_snapshot,
        )
        (record {
          counted =
              rw (get_or-set_self c.outputs.coil_hold_frames i c.outputs.coil_hold_frame_count 0 m)
                (omega arith);
          renewed = omega arith;
        })

  -- A coil that the game switches on, and that the configuration has, is on in as many of the next
  -- frames as its hold count says, whatever events come between the frames, its being switched off
  -- included. The bitmaps of the coils have the size of the protocol.
  pub set_solenoid_state-OnFor :
      (n state : ℤ) (i : ℕ) (c : Comm) (acts : List Action)
      → is_zero state ≡ false
      → lookup (to_u16 n) c.mappings.coil_number_to_index ≡ some i
      → i < coil_bits p c
      → i < length c.outputs.coil_hold_frames
      → IsSized p.max_coil_bytes c.outputs
      → OnFor p c.outputs.coil_hold_frame_count i (frames p (set_solenoid_state p n state c) acts)
  unfolding set_solenoid_state
  set_solenoid_state-OnFor n state i c acts z h l m s =
      let e : Event = record {
        source_id = p.event_source_solenoid;
        event_id = to_u16 n;
        value = 1;
      } in
      let d = queue_event p e c in
      let few : i < p.max_coil_bits = unfold coil_bits in omega arith in
      rw z (
        frames-OnFor p laws d acts i c.outputs.coil_hold_frame_count
          (rw (coil_bits-queue_event p e c) l) (queue_event-IsSized p laws p.max_coil_bytes e c s)
          (switched_on (to_u16 n) i c h few m))
