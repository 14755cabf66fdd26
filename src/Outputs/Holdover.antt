-- ===== src/Outputs/Holdover.antt =====
-- The coil holdover: a pulse is never shorter than the frames that it is held for.
use native.Mathlib.Decide.{ℕ_discrete}
use libppuc.Common.{
  ==_refl, ℕ, zero, suc, ◌+◌, ◌-◌, ◌*◌, ◌≤◌, ◌<◌, ◌≡◌, refl, ◌∙◌, inl, inr, true, ◌&&◌, ◌||◌, List,
  [], ◌∷◌, length, get_or, set, if◌then◌else◌, ◌==◌, ◌!=◌, ltb, leb, arith, Bool-cases, length-set,
  get_or-set_self, get_or-set_ne,
}
use libppuc.Protocol.{Protocol, BitmapLaws}
use libppuc.Outputs.{hold_from, consume_from}

module _ (p : Protocol) (laws : BitmapLaws p) where
  pub length-hold_from :
      (n i : ℕ) (hold coils : List ℕ) → length (hold_from p n i hold coils) ≡ length coils
  unfolding hold_from
  length-hold_from zero i hold coils = refl
  length-hold_from (suc n) i hold coils =
      length-hold_from n (i + 1) hold _ ∙ ground (arith, laws.length_after_set coils i true)

  -- The loop switches on the held coils of its range, and no others.
  pub get-hold_from :
      (n i j : ℕ) (hold coils : List ℕ)
      → i + n ≤ 8 * length coils
      → p.get_bitmap_bit (hold_from p n i hold coils) j ≡ (
          if leb i j && ltb j (i + n) && (get_or hold j 0 != 0)
          then true
          else p.get_bitmap_bit coils j)
  unfolding hold_from
  get-hold_from zero i j hold coils h = ground arith
  get-hold_from (suc n) i j hold coils h = elim (Bool-cases (get_or hold i 0 == 0)) [
    | inl z ↦ rw z (get-hold_from n (i + 1) j hold coils (omega arith) ∙ ground arith)
    | inr z ↦ rw z (
        get-hold_from n (i + 1) j hold (p.set_bitmap_bit coils i true)
          (omega (arith, laws.length_after_set coils i true))
        ∙ ground (arith, laws.get_after_set coils i j true))
  ]

lt_of_get_or : (l : List ℕ) (i : ℕ) → 0 < get_or l i 0 → i < length l
lt_of_get_or [] i h = absurd (omega arith)
lt_of_get_or (x ∷ l) zero h = omega arith
lt_of_get_or (x ∷ l) (suc i) h = omega (arith, lt_of_get_or l i h)

get-count_down :
    (l : List ℕ) (i j : ℕ)
    → 0 < get_or l i 0
    → get_or (set l i (get_or l i 0 - 1)) j 0 ≡ (if i == j then get_or l j 0 - 1 else get_or l j 0)
get-count_down l i j h = elim (ℕ_discrete i j) [
  | yes e ↦ rw (← e, get_or-set_self l i (get_or l i 0 - 1) 0 (lt_of_get_or l i h), ==_refl i)
  | no ne ↦ rw (get_or-set_ne l i j (get_or l i 0 - 1) 0 ne) (ground arith)
]

-- The loop counts down the coils of its range that were held in the frame and still are.
pub get-consume_from :
    (n i j : ℕ) (hold cur : List ℕ)
    → get_or (consume_from n i hold cur) j 0 ≡ (
        if leb i j && ltb j (i + n) && (get_or hold j 0 != 0)
        then get_or cur j 0 - 1
        else get_or cur j 0)
unfolding consume_from
get-consume_from zero i j hold cur = ground arith
get-consume_from (suc n) i j hold cur =
    elim (Bool-cases (get_or hold i 0 == 0 || get_or cur i 0 == 0)) [
      | inl skip ↦ rw skip (get-consume_from n (i + 1) j hold cur ∙ ground arith)
      | inr count ↦ rw count (
          get-consume_from n (i + 1) j hold (set cur i (get_or cur i 0 - 1))
          ∙ ground (arith, get-count_down cur i j (ground arith)))
    ]

length-consume_from :
    (n i : ℕ) (hold cur : List ℕ) → length (consume_from n i hold cur) ≡ length cur
unfolding consume_from
length-consume_from zero i hold cur = refl
length-consume_from (suc n) i hold cur =
    length-consume_from n (i + 1) hold _ ∙ ground (arith, length-set cur i (get_or cur i 0 - 1))
