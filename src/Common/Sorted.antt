-- ===== src/Common/Sorted.antt =====
-- `std::sort`, `std::unique` and `std::set` on unsigned numbers.
use Prim.Native.Nat.{ℕ, ◌<◌, ◌≤◌}
use Prim.{Unit, tt}
use mathlib.Core.Path.{◌≡◌, refl, ◌∙◌, ap, subst}
use mathlib.Core.Logic.{inl, inr}
use mathlib.Core.Bool.{true, false, ◌||◌}
use mathlib.Core.List.{List, [], ◌∷◌}
use native.Mathlib.Omega.{arith}
use libppuc.Common.Tests.{leb, ltb, ◌==◌, if◌then◌else◌, Bool-cases}
use libppuc.Common.Lists.{mem}

unfoldable pub put : ℕ → List ℕ → List ℕ
put x [] = x ∷ []
put x (y ∷ ys) = if leb x y then x ∷ y ∷ ys else y ∷ put x ys

unfoldable pub sort : List ℕ → List ℕ
unfolding put
sort [] = []
sort (x ∷ xs) = put x (sort xs)

-- What is left of a list after `x`, where each number equal to the one before it is dropped.
unfoldable pub unique_after : ℕ → List ℕ → List ℕ
unique_after x [] = []
unique_after x (y ∷ ys) = elim (x == y) [ true ↦ unique_after x ys | false ↦ y ∷ unique_after y ys ]

-- `erase(unique(begin, end), end)`
unfoldable pub unique : List ℕ → List ℕ
unique [] = []
unique (x ∷ xs) = x ∷ unique_after x xs

-- `insert` into a std::set, as the list of its elements in their order.
unfoldable pub insert_unique : ℕ → List ℕ → List ℕ
insert_unique x [] = x ∷ []
insert_unique x (y ∷ ys) =
    if ltb x y then x ∷ y ∷ ys else if x == y then y ∷ ys else y ∷ insert_unique x ys

-- Each element is at least, or greater than, the one before it.
abbrev pub SortedFrom : ℕ → List ℕ → Type 0
SortedFrom x [] = Unit
SortedFrom x (y ∷ ys) = (x ≤ y) × SortedFrom y ys

abbrev pub IsSorted : List ℕ → Type 0
IsSorted [] = Unit
IsSorted (x ∷ xs) = SortedFrom x xs

abbrev pub IncreasingFrom : ℕ → List ℕ → Type 0
IncreasingFrom x [] = Unit
IncreasingFrom x (y ∷ ys) = (x < y) × IncreasingFrom y ys

abbrev pub IsIncreasing : List ℕ → Type 0
IsIncreasing [] = Unit
IsIncreasing (x ∷ xs) = IncreasingFrom x xs

put-SortedFrom : (x a : ℕ) (ys : List ℕ) → a ≤ x → SortedFrom a ys → SortedFrom a (put x ys)
unfolding put
put-SortedFrom x a [] h s = (h, tt)
put-SortedFrom x a (y ∷ ys) h s = elim (Bool-cases (leb x y)) [
  | inl l ↦ rw l (h, (ground arith, s.1))
  | inr g ↦ rw g (s.0, put-SortedFrom x y ys (ground arith) s.1)
]

put-IsSorted : (x : ℕ) (ys : List ℕ) → IsSorted ys → IsSorted (put x ys)
unfolding put
put-IsSorted x [] s = tt
put-IsSorted x (y ∷ ys) s = elim (Bool-cases (leb x y)) [
  | inl l ↦ rw l (ground arith, s)
  | inr g ↦ rw g (put-SortedFrom x y ys (ground arith) s)
]

pub sort-IsSorted : (xs : List ℕ) → IsSorted (sort xs)
unfolding sort
sort-IsSorted [] = tt
sort-IsSorted (x ∷ xs) = put-IsSorted x (sort xs) (sort-IsSorted xs)

mem-put : (z x : ℕ) (ys : List ℕ) → mem z (put x ys) ≡ (z == x || mem z ys)
unfolding put
mem-put z x [] = refl
mem-put z x (y ∷ ys) = ground (arith, mem-put z x ys)

pub mem-sort : (z : ℕ) (xs : List ℕ) → mem z (sort xs) ≡ mem z xs
unfolding sort
mem-sort z [] = refl
mem-sort z (x ∷ xs) = mem-put z x (sort xs) ∙ ap (λ b. z == x || b) (mem-sort z xs)

unique_after-IncreasingFrom :
    (x : ℕ) (ys : List ℕ) → SortedFrom x ys → IncreasingFrom x (unique_after x ys)
unfolding unique_after
unique_after-IncreasingFrom x [] s = tt
unique_after-IncreasingFrom x (y ∷ ys) s = elim (Bool-cases (x == y)) [
  | inl e ↦
      rw (e, unique_after)
        (unique_after-IncreasingFrom x ys
          (subst (λ w. SortedFrom w ys) (let q : y ≡ x = ground arith in q) s.1))
  | inr e ↦ rw (e, unique_after) (ground arith, unique_after-IncreasingFrom y ys s.1)
]

pub unique-IsIncreasing : (xs : List ℕ) → IsSorted xs → IsIncreasing (unique xs)
unfolding unique
unique-IsIncreasing [] s = tt
unique-IsIncreasing (x ∷ xs) s = unique_after-IncreasingFrom x xs s

mem-unique_after :
    (z x : ℕ) (ys : List ℕ) → (z == x || mem z (unique_after x ys)) ≡ (z == x || mem z ys)
unfolding unique_after
mem-unique_after z x [] = refl
mem-unique_after z x (y ∷ ys) = ground (arith, mem-unique_after z x ys, mem-unique_after z y ys)

pub mem-unique : (z : ℕ) (xs : List ℕ) → mem z (unique xs) ≡ mem z xs
unfolding unique
mem-unique z [] = refl
mem-unique z (x ∷ xs) = mem-unique_after z x xs

insert_unique-IncreasingFrom :
    (x a : ℕ) (ys : List ℕ) → a < x → IncreasingFrom a ys → IncreasingFrom a (insert_unique x ys)
unfolding insert_unique
insert_unique-IncreasingFrom x a [] h s = (h, tt)
insert_unique-IncreasingFrom x a (y ∷ ys) h s = elim (Bool-cases (ltb x y)) [
  | inl l ↦ rw l (h, (ground arith, s.1))
  | inr g ↦ elim (Bool-cases (x == y)) [
    | inl e ↦ rw (g, e) s
    | inr e ↦ rw (g, e) (s.0, insert_unique-IncreasingFrom x y ys (ground arith) s.1)
  ]
]

pub insert_unique-IsIncreasing :
    (x : ℕ) (ys : List ℕ) → IsIncreasing ys → IsIncreasing (insert_unique x ys)
unfolding insert_unique
insert_unique-IsIncreasing x [] s = tt
insert_unique-IsIncreasing x (y ∷ ys) s = elim (Bool-cases (ltb x y)) [
  | inl l ↦ rw l (ground arith, s)
  | inr g ↦ elim (Bool-cases (x == y)) [
    | inl e ↦ rw (g, e) s
    | inr e ↦ rw (g, e) (insert_unique-IncreasingFrom x y ys (ground arith) s)
  ]
]

pub mem-insert_unique : (z x : ℕ) (ys : List ℕ) → mem z (insert_unique x ys) ≡ (z == x || mem z ys)
unfolding insert_unique
mem-insert_unique z x [] = refl
mem-insert_unique z x (y ∷ ys) = ground (arith, mem-insert_unique z x ys)
