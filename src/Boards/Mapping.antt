-- ===== src/Boards/Mapping.antt =====
-- The tables of `SetMappings` of src/RS485Comm.cpp: from numbers back to indices.
use libppuc.Common.{
  ℕ, zero, suc, ◌+◌, ◌<◌, ◌≡◌, refl, ap, ◌∙◌, ◌⊎◌, inl, inr, true, false, some, List, [], ◌∷◌,
  length, get_or, mem, ◌==◌, arith, Bool-cases,
}
use libppuc.Common.Maps.{lookup, assign, lookup-assign}
use libppuc.Protocol.{Protocol}
use libppuc.State.{Comm}
use libppuc.Boards.{index_from, set_mappings, rebuild_ownership_masks}

-- No number stands at two indices.
abbrev pub Distinct : List ℕ → Type 0
Distinct ns = (i j : ℕ) → i < length ns → j < length ns → get_or ns i 0 ≡ get_or ns j 0 → i ≡ j

-- The table leads from each number to its index, and from nothing else to any.
pub record IsInverse (ns : List ℕ) (m : List (ℕ × ℕ)) : Type 0 where
  pub index_of : (i : ℕ) → i < length ns → lookup (get_or ns i 0) m ≡ some i
  pub number_at : (n i : ℕ) → lookup n m ≡ some i → (i < length ns) × (get_or ns i 0 ≡ n)

-- What a number finds after the loop: an index of it in the list, or what it found before.
found_lem :
    (k n : ℕ) (ns : List ℕ) (m : List (ℕ × ℕ))
    → ((i : ℕ) × (lookup n (index_from k ns m) ≡ some (k + i))
        × (i < length ns)
        × (get_or ns i 0 ≡ n))
      ⊎ ((lookup n (index_from k ns m) ≡ lookup n m) × (mem n ns ≡ false))
unfolding index_from
found_lem k n [] m = inr (refl, refl)
found_lem k n (x ∷ ns) m = elim (found_lem (k + 1) n ns (assign x k m)) [
  | inl (i, e, l, g) ↦ inl (suc i, e ∙ ap some (omega arith), omega arith, g)
  | inr (e, h) ↦ elim (Bool-cases (n == x)) [
    | inl q ↦ inl (0, e ∙ (lookup-assign x n k m ∙ ground arith), omega arith, ground arith)
    | inr q ↦ inr (e ∙ (lookup-assign x n k m ∙ ground arith), ground arith)
  ]
]

mem-get_or : (ns : List ℕ) (i : ℕ) → i < length ns → mem (get_or ns i 0) ns ≡ true
mem-get_or [] i h = ground arith
mem-get_or (x ∷ ns) zero h = ground arith
mem-get_or (x ∷ ns) (suc i) h = ground (arith, mem-get_or ns i (omega arith))

index_from-IsInverse : (ns : List ℕ) → Distinct ns → IsInverse ns (index_from 0 ns [])
index_from-IsInverse ns d = record {
  index_of = λ i h. elim (found_lem 0 (get_or ns i 0) ns []) [
    | inl (j, e, l, g) ↦ e ∙ ap some (omega (arith, d j i l h g))
    | inr (_, n) ↦ ground (arith, mem-get_or ns i h)
  ];
  number_at = λ n i h. elim (found_lem 0 n ns []) [
    | inl (j, e, l, g) ↦ ground arith
    | inr (e, _) ↦ ground arith
  ];
}

-- After SetMappings with no number twice in a domain, the table of each domain leads from a number
-- to the index at which the domain has it, and from no other number to any index.
pub set_mappings-IsInverse :
    (p : Protocol) (coils lamps switches : List ℕ) (c : Comm)
    → Distinct coils
    → Distinct lamps
    → Distinct switches
    → let m = (set_mappings p coils lamps switches c).mappings in
      IsInverse coils m.coil_number_to_index
      × IsInverse lamps m.lamp_number_to_index
      × IsInverse switches m.switch_number_to_index
unfolding set_mappings rebuild_ownership_masks
set_mappings-IsInverse p coils lamps switches c x y z =
    (index_from-IsInverse coils x, index_from-IsInverse lamps y, index_from-IsInverse switches z)
