-- ===== src/Outputs/Held.antt =====
-- What events leave as it is: the sizes of the bitmaps, and a coil that is held.
use libppuc.Common.{
  ℕ, zero, suc, ◌≤◌, ◌≡◌, ◌⊎◌, refl, ◌∙◌, inl, inr, Bool, List, [], ◌∷◌, length, get_or, set, push,
  pop, ◌!=◌, ltb, arith, Bool-cases, Option-cases,
}
use libppuc.Common.Maps.{lookup}
use libppuc.Protocol.{Protocol, BitmapLaws}
use libppuc.State.{Event, Snapshot, Outputs, Comm}
use libppuc.Outputs.{
  current, with_outputs, queue_output_snapshot, set_coil, queue_solenoid, queue_event,
}
use libppuc.Outputs.Queue.{make_room, outputs-queue_output_snapshot}

-- Every bitmap of coils has the size of the buffers.
abbrev pub AllSized : ℕ → List Snapshot → Type 0
AllSized n [] = Unit {0}
AllSized n (s ∷ q) = (length s.coils ≡ n) × AllSized n q

AllSized-push :
    (n : ℕ) (q : List Snapshot) (s : Snapshot)
    → AllSized n q
    → length s.coils ≡ n
    → AllSized n (push q s)
AllSized-push n [] s a h = (h, tt)
AllSized-push n (x ∷ q) s a h = (a.0, AllSized-push n q s a.1 h)

AllSized-pop : (n : ℕ) (q : List Snapshot) → AllSized n q → AllSized n (pop q)
AllSized-pop n [] a = tt
AllSized-pop n (x ∷ q) a = a.1

AllSized-make_room : (n : ℕ) (q : List Snapshot) → AllSized n q → AllSized n (make_room q)
AllSized-make_room n q a = ground (arith, AllSized-pop n q a)

pub record IsSized (n : ℕ) (o : Outputs) : Type 0 where
  pub bitmap_size : length o.coil_bitmap ≡ n
  pub snapshot_sizes : AllSized n o.snapshots

-- Coil `i` is held for `k` frames at least, and stays so if it is switched on again.
pub record IsHeld (i k : ℕ) (o : Outputs) : Type 0 where
  pub counted : k ≤ get_or o.coil_hold_frames i 0
  pub renewed : k ≤ o.coil_hold_frame_count

get_or-set_cases :
    (l : List ℕ) (i j v : ℕ)
    → (get_or (set l i v) j 0 ≡ get_or l j 0) ⊎ (get_or (set l i v) j 0 ≡ v)
get_or-set_cases [] i j v = inl refl
get_or-set_cases (x ∷ l) zero zero v = inr refl
get_or-set_cases (x ∷ l) zero (suc j) v = inl refl
get_or-set_cases (x ∷ l) (suc i) zero v = inl refl
get_or-set_cases (x ∷ l) (suc i) (suc j) v = get_or-set_cases l i j v

module _ (p : Protocol) (laws : BitmapLaws p) where
  -- What the branch of a coil keeps.
  set_coil-IsSized :
      (n i : ℕ) (on : Bool) (o : Outputs) → IsSized n o → IsSized n (set_coil p i on o)
  unfolding set_coil
  set_coil-IsSized n i on o s = record {
    bitmap_size = laws.length_after_set o.coil_bitmap i on ∙ s.bitmap_size;
    snapshot_sizes = s.snapshot_sizes;
  }

  set_coil-IsHeld :
      (i k j : ℕ) (on : Bool) (o : Outputs) → IsHeld i k o → IsHeld i k (set_coil p j on o)
  unfolding set_coil
  set_coil-IsHeld i k j on o h = record {
    counted = ground (arith, get_or-set_cases o.coil_hold_frames j i o.coil_hold_frame_count);
    renewed = h.renewed;
  }

  snapshot-IsSized :
      (n : ℕ) (c : Comm) → IsSized n c.outputs → IsSized n (queue_output_snapshot c).outputs
  snapshot-IsSized n c s = rw (outputs-queue_output_snapshot c) (record {
    bitmap_size = s.bitmap_size;
    snapshot_sizes =
        AllSized-push n (make_room c.outputs.snapshots) (current c.outputs)
          (AllSized-make_room n c.outputs.snapshots s.snapshot_sizes) s.bitmap_size;
  })

  snapshot-IsHeld :
      (i k : ℕ) (c : Comm) → IsHeld i k c.outputs → IsHeld i k (queue_output_snapshot c).outputs
  snapshot-IsHeld i k c h =
      rw (outputs-queue_output_snapshot c) (record { counted = h.counted; renewed = h.renewed })

  -- A property that each part of `queue_event` keeps holds after it.
  solenoid_rule :
      (P : Outputs → Type 0) (e : Event) (c : Comm)
      → P c.outputs
      → ((i : ℕ)
          → P
              (queue_output_snapshot
                (with_outputs (set_coil p i (e.value != 0) c.outputs) c)).outputs)
      → P (queue_solenoid p e c).outputs
  unfolding queue_solenoid
  solenoid_rule P e c same coil =
      elim (Option-cases (lookup e.event_id c.mappings.coil_number_to_index)) [
        | inl h ↦ rw (h, queue_solenoid) same
        | inr (i, h) ↦ elim (Bool-cases (ltb i p.max_coil_bits)) [
          | inl k ↦ rw (h, queue_solenoid, k) (coil i)
          | inr k ↦ rw (h, queue_solenoid, k) same
        ]
      ]

  pub queue_event-IsSized :
      (n : ℕ) (e : Event) (c : Comm) → IsSized n c.outputs → IsSized n (queue_event p e c).outputs
  unfolding queue_event
  queue_event-IsSized n e c s = ground (
    arith,
    solenoid_rule (IsSized n) e c s
        (λ i. snapshot-IsSized n _ (set_coil-IsSized n i _ c.outputs s)),
  )

  pub queue_event-IsHeld :
      (i k : ℕ) (e : Event) (c : Comm)
      → IsHeld i k c.outputs
      → IsHeld i k (queue_event p e c).outputs
  unfolding queue_event
  queue_event-IsHeld i k e c s = ground (
    arith,
    solenoid_rule (IsHeld i k) e c s
        (λ j. snapshot-IsHeld i k _ (set_coil-IsHeld i k j _ c.outputs s)),
  )
