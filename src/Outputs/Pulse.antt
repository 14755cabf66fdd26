-- ===== src/Outputs/Pulse.antt =====
-- The pulse that a coil gets, over any run of events and frames.
use libppuc.Common.{
  ℕ, zero, suc, ◌<◌, ◌≡◌, refl, ◌∙◌, true, Option, none, some, List, [], ◌∷◌, length, get_or, arith,
}
use libppuc.Protocol.{Protocol, BitmapLaws}
use libppuc.State.{Event, Snapshot, Comm}
use libppuc.Anomaly.{report}
use libppuc.Outputs.{
  current, queue_output_snapshot, queue_solenoid, queue_event, coil_bits, apply_coil_holdover,
  compose_frame, consume_coil_holdover, next_snapshot,
}
use libppuc.Outputs.Holdover.{get-hold_from, get-consume_from}
use libppuc.Outputs.Held.{IsSized, IsHeld, queue_event-IsSized, queue_event-IsHeld}

-- What may come in any order: an event of the host, or a frame that is sent.
pub data Action : Type 0 where
  occurs : Event → Action
  sends : Action

module _ (p : Protocol) where
  -- A frame that is sent with no switch refresh: composed, then counted down.
  pub output_frame : Comm → Snapshot × Comm
  output_frame c =
      let (s, c') = next_snapshot c in
      (compose_frame p s c', consume_coil_holdover p c'.outputs.coil_hold_frames c')

  -- The frames of a run, first one first.
  pub frames : Comm → List Action → List Snapshot
  frames c [] = []
  frames c (occurs e ∷ rest) = frames (queue_event p e c) rest
  frames c (sends ∷ rest) = let (f, c') = output_frame c in f ∷ frames c' rest

  -- The first `k` frames have coil `i` on.
  abbrev pub OnFor : ℕ → ℕ → List Snapshot → Type 0
  OnFor zero i fs = Unit {0}
  OnFor (suc k) i [] = Unit {0}
  OnFor (suc k) i (f ∷ fs) = (p.get_bitmap_bit f.coils i ≡ true) × OnFor k i fs

  solenoid_config :
      (e : Event) (c : Comm) → (queue_solenoid p e c).runtime_config ≡ c.runtime_config
  unfolding queue_solenoid queue_output_snapshot report
  solenoid_config e c = ground arith

  config-queue_event :
      (e : Event) (c : Comm) → (queue_event p e c).runtime_config ≡ c.runtime_config
  unfolding queue_event
  config-queue_event e c = ground (arith, solenoid_config e c)

  pub coil_bits-queue_event :
      (e : Event) (c : Comm) → coil_bits p (queue_event p e c) ≡ coil_bits p c
  unfolding coil_bits
  coil_bits-queue_event e c = rw (config-queue_event e c)

module _ (p : Protocol) (laws : BitmapLaws p) where
  -- A frame has every held coil on.
  compose_on :
      (c : Comm) (s : Snapshot) (i : ℕ)
      → length s.coils ≡ p.max_coil_bytes
      → i < coil_bits p c
      → 0 < get_or c.outputs.coil_hold_frames i 0
      → p.get_bitmap_bit (apply_coil_holdover p s.coils c.outputs.coil_hold_frames c) i ≡ true
  unfolding apply_coil_holdover coil_bits
  compose_on c s i size h on =
      get-hold_from p laws (coil_bits p c) 0 i c.outputs.coil_hold_frames s.coils
        (omega (arith, laws.coil_bits_fit))
      ∙ ground arith

  -- The snapshot at the front has the size of the buffers, and taking it leaves the coils.
  SizedOption : Option Snapshot → Type 0
  SizedOption none = Unit {0}
  SizedOption (some s) = length s.coils ≡ p.max_coil_bytes

  next_snapshot_lem :
      (c : Comm) (i k : ℕ)
      → IsSized p.max_coil_bytes c.outputs
      → IsHeld i k c.outputs
      → let (s, c') = next_snapshot c in
        SizedOption s
        × IsSized p.max_coil_bytes c'.outputs
        × IsHeld i k c'.outputs
        × (coil_bits p c' ≡ coil_bits p c)
  unfolding next_snapshot SizedOption coil_bits
  next_snapshot_lem c i k s h = ground arith

  compose_frame_lem :
      (s : Option Snapshot) (c : Comm) (i k : ℕ)
      → SizedOption s
      → i < coil_bits p c
      → IsSized p.max_coil_bytes c.outputs
      → IsHeld i (suc k) c.outputs
      → p.get_bitmap_bit (compose_frame p s c).coils i ≡ true
  unfolding compose_frame SizedOption
  compose_frame_lem none c i k so h s held =
      compose_on c (current c.outputs) i s.bitmap_size h (omega (arith, held.counted))
  compose_frame_lem (some q) c i k so h s held = compose_on c q i so h (omega (arith, held.counted))

  consume_lem :
      (c : Comm) (hold : List ℕ) (i k : ℕ)
      → IsSized p.max_coil_bytes c.outputs
      → IsHeld i (suc k) c.outputs
      → let c' = consume_coil_holdover p hold c in
        IsSized p.max_coil_bytes c'.outputs
        × IsHeld i k c'.outputs
        × (coil_bits p c' ≡ coil_bits p c)
  unfolding consume_coil_holdover coil_bits
  consume_lem c hold i k s h = (
    record { bitmap_size = s.bitmap_size; snapshot_sizes = s.snapshot_sizes },
    record {
      counted =
          ground (
            arith,
            get-consume_from (coil_bits p c) 0 i hold c.outputs.coil_hold_frames,
            h.counted,
          );
      renewed = omega (arith, h.renewed);
    },
    refl,
  )

  output_frame_lem :
      (c : Comm) (i k : ℕ)
      → i < coil_bits p c
      → IsSized p.max_coil_bytes c.outputs
      → IsHeld i (suc k) c.outputs
      → let (f, c') = output_frame p c in
        (p.get_bitmap_bit f.coils i ≡ true)
        × IsSized p.max_coil_bytes c'.outputs
        × IsHeld i k c'.outputs
        × (coil_bits p c' ≡ coil_bits p c)
  unfolding output_frame
  output_frame_lem c i k h s held =
      let (so, sized, held', bits) = next_snapshot_lem c i (suc k) s held in
      let (sized', held'', bits') =
        consume_lem (next_snapshot c).1 (next_snapshot c).1.outputs.coil_hold_frames i k sized
          held' in
      (
        compose_frame_lem (next_snapshot c).0 (next_snapshot c).1 i k so (rw bits h) sized held',
        sized',
        held'',
        bits' ∙ bits,
      )

  -- Whatever events come between the frames, a coil of the configuration that is held for `k`
  -- frames, and would be again if it were switched on, is on in each of the next `k` frames that are
  -- sent. The bitmaps of the coils have the size of the protocol.
  pub frames-OnFor :
      (c : Comm) (acts : List Action) (i k : ℕ)
      → i < coil_bits p c
      → IsSized p.max_coil_bytes c.outputs
      → IsHeld i k c.outputs
      → OnFor p k i (frames p c acts)
  unfolding frames
  frames-OnFor c [] i zero h s held = tt
  frames-OnFor c [] i (suc k) h s held = tt
  frames-OnFor c (occurs e ∷ rest) i k h s held =
      frames-OnFor (queue_event p e c) rest i k (rw coil_bits-queue_event h)
        (queue_event-IsSized p laws p.max_coil_bytes e c s) (queue_event-IsHeld p laws i k e c held)
  frames-OnFor c (sends ∷ rest) i zero h s held = tt
  frames-OnFor c (sends ∷ rest) i (suc k) h s held =
      let (on, s', held', bits) = output_frame_lem c i k h s held in
      (on, frames-OnFor (output_frame p c).1 rest i k (rw bits h) s' held')
