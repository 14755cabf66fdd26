-- ===== src/Boards/Ownership.antt =====
-- The masks of `RebuildSwitchOwnershipMasks` of src/RS485Comm.cpp: which bits a board owns.
use libppuc.Common.{
  ℕ, zero, suc, ◌*◌, ◌/◌, ◌<◌, ◌≡◌, refl, ap, subst, ◌∙◌, inl, inr, Bool, true, false, ◌&&◌, ◌||◌,
  none, some, List, [], ◌∷◌, length, get_or, set, replicate, ◌==◌, ==_refl, leb, arith, Bool-cases,
  Option-cases, length-replicate, length-set, get_or-set_self, get_or-set_ne,
}
use native.Mathlib.Decide.{ℕ_discrete}
use libppuc.Common.Maps.{lookup}
use libppuc.Common.Bits.{test_bit}
use libppuc.Protocol.{Protocol, BitmapLaws}
use libppuc.State.{Comm}
use libppuc.Boards.{max_boards, own_bits, masks_from, rebuild_ownership_masks}

-- Whether one of the numbers has index `j`.
abbrev pub has_index : List (ℕ × ℕ) → List ℕ → ℕ → Bool
has_index index [] j = false
has_index index (n ∷ ns) j =
    elim (lookup n index) [ none ↦ false | some i ↦ i == j ] || has_index index ns j

-- Whether board `b` lists a number with index `j`.
abbrev pub owns : List (ℕ × ℕ) → List (ℕ × List ℕ) → ℕ → ℕ → Bool
owns index [] b j = false
owns index ((a, ns) ∷ m) b j = a == b && has_index index ns j || owns index m b j

-- Every index of the table fits a bitmap of `n` bytes.
abbrev pub FitsBytes : ℕ → List (ℕ × ℕ) → Type 0
FitsBytes bytes index = (n i : ℕ) → lookup n index ≡ some i → i < 8 * bytes

get_or-replicate : (n i v : ℕ) → get_or (replicate n v) i v ≡ v
get_or-replicate zero i v = refl
get_or-replicate (suc n) zero v = refl
get_or-replicate (suc n) (suc i) v = get_or-replicate n i v

get_or-replicate_in {ℓ} : {A : Type ℓ} (n i : ℕ) (a d : A) → i < n → get_or (replicate n a) i d ≡ a
get_or-replicate_in zero i a d h = ground arith
get_or-replicate_in (suc n) zero a d h = refl
get_or-replicate_in (suc n) (suc i) a d h = get_or-replicate_in n i a d (omega arith)

test_bit-zero : (k : ℕ) → test_bit 0 k ≡ false
unfolding test_bit
test_bit-zero zero = refl
test_bit-zero (suc k) = test_bit-zero k

module _ (p : Protocol) (laws : BitmapLaws p) where
  length-own_bits :
      (index : List (ℕ × ℕ)) (ns : List ℕ) (mask : List ℕ)
      → length (own_bits p index ns mask) ≡ length mask
  unfolding own_bits
  length-own_bits index [] mask = refl
  length-own_bits index (n ∷ ns) mask = elim (Option-cases (lookup n index)) [
    | inl e ↦ rw (e, own_bits) (length-own_bits index ns mask)
    | inr (i, e) ↦
        rw (e, own_bits)
          (length-own_bits index ns (p.set_bitmap_bit mask i true)
            ∙ laws.length_after_set mask i true)
  ]

  get-own_bits :
      (index : List (ℕ × ℕ)) (ns : List ℕ) (mask : List ℕ) (j : ℕ)
      → FitsBytes (length mask) index
      → p.get_bitmap_bit (own_bits p index ns mask) j
        ≡ (has_index index ns j || p.get_bitmap_bit mask j)
  unfolding own_bits
  get-own_bits index [] mask j f = refl
  get-own_bits index (n ∷ ns) mask j f = elim (Option-cases (lookup n index)) [
    | inl e ↦ rw (e, own_bits) (get-own_bits index ns mask j f)
    | inr (i, e) ↦
        let m = p.set_bitmap_bit mask i true in
        let l = laws.length_after_set mask i true in
        let r = get-own_bits index ns m j (λ n i h. rw l (f n i h)) in
        let s = laws.get_after_set mask i j true (f n i e) in
        rw (e, own_bits) (r ∙ ground (arith, s))
  ]

  -- All masks have the size of a bitmap.
  abbrev Masks : List (List ℕ) → Type 0
  Masks masks =
      (length masks ≡ max_boards)
      × ((b : ℕ) → b < max_boards → length (get_or masks b []) ≡ p.max_switch_bytes)

  set-Masks :
      (masks : List (List ℕ)) (a : ℕ) (mask : List ℕ)
      → length mask ≡ p.max_switch_bytes
      → Masks masks
      → Masks (set masks a mask)
  set-Masks masks a mask l (n, k) = (
    length-set masks a mask ∙ n,
    λ b h. elim (ℕ_discrete a b) [
      | yes e ↦
          subst (λ i. length (get_or (set masks a mask) i []) ≡ p.max_switch_bytes) e
            (ap length (get_or-set_self masks a mask [] (omega arith)) ∙ l)
      | no ne ↦ ap length (get_or-set_ne masks a b mask [] ne) ∙ k b h
    ],
  )

  get-set_mask :
      (index : List (ℕ × ℕ)) (ns : List ℕ) (masks : List (List ℕ)) (a b j : ℕ)
      → FitsBytes p.max_switch_bytes index
      → a < max_boards
      → Masks masks
      → p.get_bitmap_bit (get_or (set masks a (own_bits p index ns (get_or masks a []))) b []) j
        ≡ (a == b && has_index index ns j || p.get_bitmap_bit (get_or masks b []) j)
  get-set_mask index ns masks a b j f h k =
      let new = own_bits p index ns (get_or masks a []) in
      elim (ℕ_discrete a b) [
        | no ne ↦
            let q : (a == b) ≡ false = ground (arith, ne) in
            rw q (ap (λ m. p.get_bitmap_bit m j) (get_or-set_ne masks a b new [] ne))
        | yes e ↦
            let size = k.1 a h in
            let r = get-own_bits index ns (get_or masks a []) j (λ n i q. rw size (f n i q)) in
            let s =
              ap (λ m. p.get_bitmap_bit m j)
                (get_or-set_self masks a new [] (omega (arith, k.0, h))) in
            subst
              (λ b.
                p.get_bitmap_bit (get_or (set masks a new) b []) j
                ≡ (a == b && has_index index ns j || p.get_bitmap_bit (get_or masks b []) j))
              e (s ∙ (r ∙ rw (==_refl a) refl))
      ]

  get-masks_from :
      (index : List (ℕ × ℕ)) (m : List (ℕ × List ℕ)) (masks : List (List ℕ)) (b j : ℕ)
      → FitsBytes p.max_switch_bytes index
      → b < max_boards
      → Masks masks
      → p.get_bitmap_bit (get_or (masks_from p index m masks) b []) j
        ≡ (owns index m b j || p.get_bitmap_bit (get_or masks b []) j)
  unfolding masks_from
  get-masks_from index [] masks b j f h k = refl
  get-masks_from index ((a, ns) ∷ m) masks b j f h k = elim (Bool-cases (leb max_boards a)) [
    | inl e ↦ rw (e, masks_from) (get-masks_from index m masks b j f h k ∙ ground arith)
    | inr e ↦
        let old = get_or masks a [] in
        let new = own_bits p index ns old in
        let size = k.1 a (ground arith) in
        let l = length-own_bits index ns old ∙ size in
        let r = get-masks_from index m (set masks a new) b j f h (set-Masks masks a new l k) in
        rw (e, masks_from)
          (r ∙ ground (arith, get-set_mask index ns masks a b j f (ground arith) k))
  ]

  -- After RebuildSwitchOwnershipMasks a board of the table owns a bit exactly if it lists a switch
  -- number with that index, where every index fits the bitmap of the switches.
  pub rebuild_ownership_masks_lem :
      (c : Comm) (b j : ℕ)
      → FitsBytes p.max_switch_bytes c.mappings.switch_number_to_index
      → b < max_boards
      → p.get_bitmap_bit (get_or (rebuild_ownership_masks p c).boards.ownership_masks b []) j
        ≡ owns c.mappings.switch_number_to_index c.boards.switch_numbers_by_board b j
  unfolding rebuild_ownership_masks
  rebuild_ownership_masks_lem c b j f h =
      let zero_mask : List ℕ = replicate p.max_switch_bytes 0 in
      let masks = replicate max_boards zero_mask in
      let at : (i : ℕ) → i < max_boards → get_or masks i [] ≡ zero_mask =
        λ i q. get_or-replicate_in max_boards i zero_mask [] q in
      let k : Masks masks = (
        length-replicate max_boards zero_mask,
        λ i q. ap length (at i q) ∙ length-replicate p.max_switch_bytes 0,
      ) in
      let clear : p.get_bitmap_bit zero_mask j ≡ false =
        laws.get_reads_byte zero_mask j
        ∙ (ap (λ x. test_bit x (laws.bit_position j))
              (get_or-replicate p.max_switch_bytes (j / 8) 0)
            ∙ test_bit-zero (laws.bit_position j)) in
      get-masks_from c.mappings.switch_number_to_index c.boards.switch_numbers_by_board masks b j f
        h k
      ∙ ground (arith, ap (λ m. p.get_bitmap_bit m j) (at b h) ∙ clear)
