-- ===== src/Switches/Diff.antt =====
-- What a state reply of a board changes: the bits that the board owns, and nothing else.
use libppuc.Common.{
  ℕ, zero, suc, ◌+◌, ◌/◌, ◌<◌, ◌≡◌, refl, sym, ap, ◌∙◌, not, ◌&&◌, Option, none, some, List, [],
  ◌∷◌, ◌++◌, length, get_or, drop, if◌then◌else◌, same, arith,
}
use mathlib.Core.List.{append_assoc, append-nil}
use libppuc.Common.Bits.{test_bit, and_u8, not_u8, test_bit-and_u8, test_bit-or_u8, test_bit-not_u8}
use libppuc.Protocol.{Protocol, BitmapLaws}
use libppuc.State.{SwitchState, Comm}
use libppuc.Boards.{note_switch_activity}
use libppuc.Switches.Bitmap.{
  merge_byte, merge_bytes, copy_bytes, ownership_mask, is_owned, switch_number, diff_bit, diff_from,
  apply_switch_bitmap_diff,
}

-- A bit of the merge comes from the new byte where the mask has it, else from the old one.
drop-nil : (n : ℕ) → drop {A = ℕ} n [] ≡ []
drop-nil zero = refl
drop-nil (suc n) = refl

test_bit-merge_byte :
    (k old new mask : ℕ)
    → k < 8
    → test_bit (merge_byte old new mask) k
      ≡ (if test_bit mask k then test_bit new k else test_bit old k)
unfolding merge_byte
test_bit-merge_byte k old new mask h = ground (
  arith,
  test_bit-or_u8 k (and_u8 old (not_u8 mask)) (and_u8 new mask) h,
  test_bit-and_u8 k new mask h,
  test_bit-and_u8 k old (not_u8 mask) h,
  test_bit-not_u8 k mask h,
)

get_or-drop_one : (xs : List ℕ) (i : ℕ) → get_or (drop 1 xs) i 0 ≡ get_or xs (suc i) 0
get_or-drop_one [] i = refl
get_or-drop_one (x ∷ xs) i = refl

get_or-merge_bytes :
    (n i : ℕ) (old new mask : List ℕ)
    → i < n
    → i < length old
    → get_or (merge_bytes n old new mask) i 0
      ≡ merge_byte (get_or old i 0) (get_or new i 0) (get_or mask i 0)
unfolding merge_bytes
get_or-merge_bytes zero i old new mask h k = absurd (omega arith)
get_or-merge_bytes (suc n) i [] new mask h k = absurd (omega arith)
get_or-merge_bytes (suc n) zero (x ∷ old) new mask h k = refl
get_or-merge_bytes (suc n) (suc i) (x ∷ old) new mask h k =
    get_or-merge_bytes n i old (drop 1 new) (drop 1 mask) (omega arith) (omega arith)
    ∙ rw (get_or-drop_one new i, get_or-drop_one mask i)

get_or-copy_bytes :
    (n i : ℕ) (old new : List ℕ)
    → i < n
    → i < length new
    → get_or (copy_bytes n old new) i 0 ≡ get_or new i 0
unfolding copy_bytes
get_or-copy_bytes zero i old new h k = absurd (omega arith)
get_or-copy_bytes (suc n) i old [] h k = absurd (omega arith)
get_or-copy_bytes (suc n) zero old (x ∷ new) h k = refl
get_or-copy_bytes (suc n) (suc i) [] (x ∷ new) h k =
    rw (← drop-nil n) (get_or-copy_bytes n i [] new (omega arith) (omega arith))
get_or-copy_bytes (suc n) (suc i) (y ∷ old) (x ∷ new) h k =
    get_or-copy_bytes n i old new (omega arith) (omega arith)

module _ (p : Protocol) (laws : BitmapLaws p) where
  get-merge_bytes :
      (bytes n : ℕ) (old new mask : List ℕ)
      → n / 8 < bytes
      → n / 8 < length old
      → p.get_bitmap_bit (merge_bytes bytes old new mask) n
        ≡ (if p.get_bitmap_bit mask n then p.get_bitmap_bit new n else p.get_bitmap_bit old n)
  get-merge_bytes bytes n old new mask h k =
      laws.get_reads_byte (merge_bytes bytes old new mask) n
      ∙ rw
          (
            get_or-merge_bytes bytes (n / 8) old new mask h k,
            laws.get_reads_byte mask n,
            laws.get_reads_byte new n,
            laws.get_reads_byte old n,
          )
          (test_bit-merge_byte (laws.bit_position n) (get_or old (n / 8) 0) (get_or new (n / 8) 0)
            (get_or mask (n / 8) 0) (laws.position_in_byte n))

  get-copy_bytes :
      (bytes n : ℕ) (old new : List ℕ)
      → n / 8 < bytes
      → n / 8 < length new
      → p.get_bitmap_bit (copy_bytes bytes old new) n ≡ p.get_bitmap_bit new n
  get-copy_bytes bytes n old new h k =
      laws.get_reads_byte (copy_bytes bytes old new) n
      ∙ (ap (λ x. test_bit x (laws.bit_position n)) (get_or-copy_bytes bytes (n / 8) old new h k)
          ∙ sym (laws.get_reads_byte new n))

module _ (p : Protocol) where
  -- The changes that a reply reports: one for each owned bit that differs, in the order of the bits.
  abbrev pub changes : Option (List ℕ) → List ℕ → Comm → ℕ → ℕ → List SwitchState
  changes mask new c zero n = []
  changes mask new c (suc k) n =
      let v = p.get_bitmap_bit new n in
      let rest = changes mask new c k (n + 1) in
      if is_owned p mask n && not (same (p.get_bitmap_bit c.switches.switch_bitmap n) v)
      then record { number = switch_number p n c; state = if v then 1 else 0 } ∷ rest
      else rest

  -- What one round leaves alone, and what it queues.
  diff_bit_lem :
      (mask : Option (List ℕ)) (new : List ℕ) (n : ℕ) (c : Comm)
      → let c' = diff_bit p mask new n c in
        (c'.switches.queue ≡ c.switches.queue ++ changes mask new c 1 n)
        × (c'.switches.switch_bitmap ≡ c.switches.switch_bitmap)
        × (c'.mappings ≡ c.mappings)
  unfolding diff_bit note_switch_activity
  diff_bit_lem mask new n c = ground (arith, append-nil c.switches.queue)

  changes_eq :
      (mask : Option (List ℕ)) (new : List ℕ) (c d : Comm) (k n : ℕ)
      → d.switches.switch_bitmap ≡ c.switches.switch_bitmap
      → d.mappings ≡ c.mappings
      → changes mask new d k n ≡ changes mask new c k n
  unfolding switch_number
  changes_eq mask new c d zero n h e = refl
  changes_eq mask new c d (suc k) n h e = ground (arith, changes_eq mask new c d k (n + 1) h e)

  changes_first :
      (mask : Option (List ℕ)) (new : List ℕ) (c : Comm) (k n : ℕ)
      → changes mask new c 1 n ++ changes mask new c k (n + 1) ≡ changes mask new c (suc k) n
  changes_first mask new c k n = ground arith

  diff_from_lem :
      (mask : Option (List ℕ)) (new : List ℕ) (k n : ℕ) (c : Comm)
      → let c' = diff_from p mask new k n c in
        (c'.switches.queue ≡ c.switches.queue ++ changes mask new c k n)
        × (c'.switches.switch_bitmap ≡ c.switches.switch_bitmap)
        × (c'.mappings ≡ c.mappings)
  unfolding diff_from
  diff_from_lem mask new zero n c = (sym (append-nil c.switches.queue), refl, refl)
  diff_from_lem mask new (suc k) n c =
      let d = diff_bit p mask new n c in
      let (q, b, m) = diff_bit_lem mask new n c in
      let (q', b', m') = diff_from_lem mask new k (n + 1) d in
      (
        q'
            ∙ (ap (λ l. l ++ changes mask new d k (n + 1)) q
                ∙ (ap (λ l. (c.switches.queue ++ changes mask new c 1 n) ++ l)
                      (changes_eq mask new c d k (n + 1) b m)
                    ∙ (append_assoc c.switches.queue (changes mask new c 1 n)
                          (changes mask new c k (n + 1))
                        ∙ ap (λ l. c.switches.queue ++ l) (changes_first mask new c k n)))),
        b' ∙ b,
        m' ∙ m,
      )

module _ (p : Protocol) (laws : BitmapLaws p) where
  -- A state reply queues exactly the changes of the bits that its board owns, in their order, and
  -- gives each of those bits its new value; a bit that the board does not own keeps its value. A
  -- board beyond the table of masks owns every bit. The bit is one within the bytes that are copied,
  -- of the bitmap and of the reply.
  pub apply_switch_bitmap_diff_lem :
      (board : ℕ) (new : List ℕ) (bytes n : ℕ) (c : Comm)
      → n / 8 < bytes
      → n / 8 < length c.switches.switch_bitmap
      → n / 8 < length new
      → let c' = apply_switch_bitmap_diff p board new bytes c in
        let mask = ownership_mask board c in
        (c'.switches.queue
          ≡ c.switches.queue ++ changes p mask new c c.runtime_config.switch_bits 0)
        × (p.get_bitmap_bit c'.switches.switch_bitmap n ≡ (
            if is_owned p mask n
            then p.get_bitmap_bit new n
            else p.get_bitmap_bit c.switches.switch_bitmap n))
  unfolding apply_switch_bitmap_diff
  apply_switch_bitmap_diff_lem board new bytes n c h k l =
      let (q, b, _) =
        diff_from_lem p (ownership_mask board c) new c.runtime_config.switch_bits 0 c in
      (q, ap (λ m. p.get_bitmap_bit m n) (merged b) ∙ bits (ownership_mask board c))
    where
      result : Option (List ℕ) → List ℕ → List ℕ
      result none old = copy_bytes bytes old new
      result (some mask) old = merge_bytes bytes old new mask

      merged :
          (diff_from p
              (ownership_mask board c)
              new
              c.runtime_config.switch_bits
              0
              c).switches.switch_bitmap
            ≡ c.switches.switch_bitmap
          → (apply_switch_bitmap_diff p board new bytes c).switches.switch_bitmap
            ≡ result (ownership_mask board c) c.switches.switch_bitmap
      merged e = ground arith

      bits :
          (mask : Option (List ℕ))
          → p.get_bitmap_bit (result mask c.switches.switch_bitmap) n ≡ (
              if is_owned p mask n
              then p.get_bitmap_bit new n
              else p.get_bitmap_bit c.switches.switch_bitmap n)
      bits none = get-copy_bytes p laws bytes n c.switches.switch_bitmap new h l
      bits (some mask) = get-merge_bytes p laws bytes n c.switches.switch_bitmap new mask h k
