-- ===== src/Settings/Grouped.antt =====
-- The groups of switches of src/PPUC.cpp as a map: what assigning, adding a number, and tidying do.

use libppuc.Common.{
  ℕ, ◌≡◌, refl, subst, ap, ◌∙◌, inl, inr, Bool, true, false, ◌||◌, ◌==◌, Option, none, some, List,
  [], ◌∷◌, mem, push, arith, Bool-cases,
}
use libppuc.Common.Text.{Text, codes, text_eq, text_eq→eq, text_eq_refl}
use libppuc.Common.Sorted.{sort, unique}
use libppuc.Settings.Led.{find}
use libppuc.Settings.Groups.{Groups, assign_group, push_number, tidy_groups}

abbrev pub numbers_in : Option (List ℕ) → List ℕ
numbers_in none = []
numbers_in (some ns) = ns

-- The numbers of a group, none if it is missing.
abbrev pub group_of : Text → Groups → List ℕ
group_of name groups = numbers_in (find name groups)

abbrev pub buttons : Text
buttons = codes "buttons"

find-assign_group :
    (name : Text) (ns : List ℕ) (groups : Groups)
    → find name (assign_group name ns groups) ≡ some ns
unfolding find assign_group
find-assign_group name ns [] = rw (text_eq_refl name, find) refl
find-assign_group name ns ((k, ms) ∷ rest) = elim (Bool-cases (text_eq name k)) [
  | inl e ↦ rw (e, find, e) refl
  | inr e ↦ rw (e, find, e) (find-assign_group name ns rest)
]

pub find-assign_other :
    (other name : Text) (ns : List ℕ) (groups : Groups)
    → text_eq other name ≡ false
    → find other (assign_group name ns groups) ≡ find other groups
unfolding find assign_group
find-assign_other other name ns [] h = rw (h, find) refl
find-assign_other other name ns ((k, ms) ∷ rest) h = elim (Bool-cases (text_eq name k)) [
  | inl e ↦
      let f : text_eq other k ≡ false =
        subst (λ w. text_eq other w ≡ false) (text_eq→eq name k e) h in
      rw (e, find, f) refl
  | inr e ↦ elim (Bool-cases (text_eq other k)) [
    | inl f ↦ rw (e, find, f) refl
    | inr f ↦ rw (e, find, f) (find-assign_other other name ns rest h)
  ]
]

mem-push : (v m : ℕ) (ns : List ℕ) → mem v (push ns m) ≡ (mem v ns || v == m)
mem-push v m [] = ground arith
mem-push v m (n ∷ ns) = ground (arith, mem-push v m ns)

pub mem-push_number :
    (v m : ℕ) (groups : Groups)
    → mem v (group_of buttons (push_number buttons m groups))
      ≡ (mem v (group_of buttons groups) || v == m)
unfolding push_number
mem-push_number v m groups =
    ap (λ o. mem v (numbers_in o))
      (find-assign_group buttons (push (group_of buttons groups) m) groups)
    ∙ mem-push v m (group_of buttons groups)

abbrev tidied : Option (List ℕ) → Option (List ℕ)
tidied none = none
tidied (some ns) = some (unique (sort ns))

find-tidy_groups :
    (name : Text) (groups : Groups) → find name (tidy_groups groups) ≡ tidied (find name groups)
unfolding tidy_groups find
find-tidy_groups name [] = refl
find-tidy_groups name ((k, ms) ∷ rest) = elim (Bool-cases (text_eq name k)) [
  | inl e ↦ rw (e, find) refl
  | inr e ↦ rw (e, find) (find-tidy_groups name rest)
]

numbers_in-tidied : (o : Option (List ℕ)) → numbers_in (tidied o) ≡ unique (sort (numbers_in o))
unfolding unique sort
numbers_in-tidied none = refl
numbers_in-tidied (some ns) = refl

pub group_of-tidy_groups :
    (name : Text) (groups : Groups)
    → group_of name (tidy_groups groups) ≡ unique (sort (group_of name groups))
group_of-tidy_groups name groups =
    ap numbers_in (find-tidy_groups name groups) ∙ numbers_in-tidied (find name groups)

pub or_false : (b : Bool) → b ≡ (b || false)
or_false true = refl
or_false false = refl
