-- ===== src/Switches/Bitmap.antt =====
-- `ApplySwitchBitmapDiff` of src/RS485Comm.cpp: the changes of a board's switches, and the merge of
-- its bits into the bitmap.
use libppuc.Common.{
  ℕ, zero, suc, ◌+◌, Bool, true, not, ◌&&◌, Option, none, some, List, [], ◌∷◌, ◌++◌, length, get_or,
  push, take, drop, if◌then◌else◌, ltb, same,
}
use libppuc.Common.Bits.{and_u8, or_u8, not_u8}
use libppuc.Protocol.{Protocol}
use libppuc.State.{Comm}
use libppuc.Boards.{max_boards, with_switches, note_switch_activity}

-- `(old & ~mask) | (new & mask)`
unfoldable pub merge_byte : ℕ → ℕ → ℕ → ℕ
merge_byte old new mask = or_u8 (and_u8 old (not_u8 mask)) (and_u8 new mask)

-- The last loop of ApplySwitchBitmapDiff, for `n` bytes.
unfoldable pub merge_bytes : ℕ → List ℕ → List ℕ → List ℕ → List ℕ
merge_bytes zero old new mask = old
merge_bytes (suc n) [] new mask = []
merge_bytes (suc n) (x ∷ old) new mask =
    merge_byte x (get_or new 0 0) (get_or mask 0 0) ∷ merge_bytes n old (drop 1 new) (drop 1 mask)

-- `memcpy` over the first `n` bytes.
unfoldable pub copy_bytes : ℕ → List ℕ → List ℕ → List ℕ
copy_bytes n old new = take n new ++ drop n old

-- The mask of a board, or none for a board beyond the table.
abbrev pub ownership_mask : ℕ → Comm → Option (List ℕ)
ownership_mask board c =
    if ltb board max_boards then some (get_or c.boards.ownership_masks board []) else none

module _ (p : Protocol) where
  abbrev pub is_owned : Option (List ℕ) → ℕ → Bool
  is_owned none n = true
  is_owned (some mask) n = p.get_bitmap_bit mask n

  -- The number that a bit of the bitmap is reported under.
  unfoldable pub switch_number : ℕ → Comm → ℕ
  switch_number n c =
      if ltb n (length c.mappings.switch_index_to_number)
      then get_or c.mappings.switch_index_to_number n 0
      else n

  -- One round of the loop over bits: a change of an owned bit is noted and queued.
  unfoldable pub diff_bit : Option (List ℕ) → List ℕ → ℕ → Comm → Comm
  diff_bit mask bitmap n c =
      let v = p.get_bitmap_bit bitmap n in
      if is_owned mask n && not (same (p.get_bitmap_bit c.switches.switch_bitmap n) v)
      then (let c' = note_switch_activity (switch_number n c) c in
          with_switches
            (record (c'.switches) {
              queue =
                  push c'.switches.queue
                    (record { number = switch_number n c; state = if v then 1 else 0 });
            })
            c')
      else c

  unfoldable pub diff_from : Option (List ℕ) → List ℕ → ℕ → ℕ → Comm → Comm
  diff_from mask bitmap zero n c = c
  diff_from mask bitmap (suc k) n c = diff_from mask bitmap k (n + 1) (diff_bit mask bitmap n c)

  -- ApplySwitchBitmapDiff
  unfoldable pub apply_switch_bitmap_diff : ℕ → List ℕ → ℕ → Comm → Comm
  unfolding diff_from diff_bit switch_number
  apply_switch_bitmap_diff board bitmap bytes c =
      let c' = diff_from (ownership_mask board c) bitmap c.runtime_config.switch_bits 0 c in
      with_switches
        (record (c'.switches) {
          switch_bitmap = elim (ownership_mask board c) [
            | none ↦ copy_bytes bytes c'.switches.switch_bitmap bitmap
            | some mask ↦ merge_bytes bytes c'.switches.switch_bitmap bitmap mask
          ];
        })
        c'
