-- ===== src/Startup/Ordered.antt =====
-- The mappings of src/PPUC.cpp keep the order of the numbers, and so no number stands twice.
use Prim.{tt}
use mathlib.Core.List.{append-nil}
use libppuc.Common.{
  ℕ, zero, suc, ◌-◌, ◌%◌, ◌^◌, ◌<◌, ◌≤◌, ◌≡◌, sym, subst, List, [], ◌∷◌, length, get_or, take, min,
  max, arith,
}
use libppuc.Common.Sorted.{IsIncreasing, IncreasingFrom}
use native.Mathlib.Decide.{dec_lt}
use libppuc.Boards.Mapping.{Distinct}
use libppuc.Startup.Numbers.{bits_of, resize, mapping_of}

-- An element is greater than each one before it.
from_lt : (x : ℕ) (xs : List ℕ) (j : ℕ) → IncreasingFrom x xs → j < length xs → x < get_or xs j 0
from_lt x [] j h k = absurd (omega arith)
from_lt x (a ∷ xs) zero (l, h) k = l
from_lt x (a ∷ xs) (suc j) (l, h) k = omega (arith, from_lt a xs j h (omega arith))

increasing_lt :
    (xs : List ℕ) (i j : ℕ)
    → IsIncreasing xs
    → i < j
    → j < length xs
    → get_or xs i 0 < get_or xs j 0
increasing_lt [] i j h l k = absurd (omega arith)
increasing_lt (x ∷ xs) i zero h l k = absurd (omega arith)
increasing_lt (x ∷ xs) zero (suc j) h l k = from_lt x xs j h (omega arith)
increasing_lt (x ∷ []) (suc i) (suc j) h l k = absurd (omega arith)
increasing_lt (x ∷ a ∷ xs) (suc i) (suc j) h l k =
    increasing_lt (a ∷ xs) i j h.1 (omega arith) (omega arith)

pub increasing-Distinct : (xs : List ℕ) → IsIncreasing xs → Distinct xs
increasing-Distinct xs h i j a b e = elim (dec_lt i j) [
  | yes l ↦ absurd (omega (arith, increasing_lt xs i j h l b, e))
  | no l ↦ elim (dec_lt j i) [
    | yes m ↦ absurd (omega (arith, increasing_lt xs j i h m a, e))
    | no m ↦ omega arith
  ]
]

take-IncreasingFrom : (x n : ℕ) (xs : List ℕ) → IncreasingFrom x xs → IncreasingFrom x (take n xs)
take-IncreasingFrom x zero xs h = tt
take-IncreasingFrom x (suc n) [] h = tt
take-IncreasingFrom x (suc n) (a ∷ xs) (l, h) = (l, take-IncreasingFrom a n xs h)

take-IsIncreasing : (n : ℕ) (xs : List ℕ) → IsIncreasing xs → IsIncreasing (take n xs)
take-IsIncreasing zero xs h = tt
take-IsIncreasing (suc n) [] h = tt
take-IsIncreasing (suc n) (x ∷ xs) h = take-IncreasingFrom x n xs h

resize-IsIncreasing :
    (n : ℕ) (xs : List ℕ) → IsIncreasing xs → n ≤ max 1 (length xs) → IsIncreasing (resize n xs)
unfolding resize
resize-IsIncreasing zero [] h l = tt
resize-IsIncreasing (suc zero) [] h l = tt
resize-IsIncreasing (suc (suc n)) [] h l = absurd (omega arith)
resize-IsIncreasing n (x ∷ xs) h l =
    let z : n - length (x ∷ xs) ≡ 0 = omega arith in
    rw z (subst IsIncreasing (sym (append-nil (take n (x ∷ xs)))) (take-IsIncreasing n (x ∷ xs) h))

pub mapping_of-IsIncreasing :
    (limit : ℕ) (xs : List ℕ) → IsIncreasing xs → IsIncreasing (mapping_of limit xs)
unfolding mapping_of bits_of
mapping_of-IsIncreasing limit xs h =
    resize-IsIncreasing (min (max 1 (length xs % 2 ^ 16)) limit) xs h (omega arith)
