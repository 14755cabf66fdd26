-- ===== src/Skipped/Csv.antt =====
-- `PPUC::SetSkippedBoardsCsv` of src/PPUC.cpp on decimal numbers with commas between them.
use libppuc.Common.{
  ℕ, zero, suc, ◌+◌, ◌*◌, ◌/◌, ◌%◌, ◌≤◌, ◌<◌, ◌≡◌, refl, sym, ap, subst, ◌∙◌, inl, inr, true, false,
  ◌||◌, Option, none, some, List, [], ◌∷◌, ◌++◌, length, mem, ◌==◌, leb, ltb, arith, Bool-cases,
  ==_refl, length-append,
}
use libppuc.Common.Text.{digits, decimal}
use Prim.{Unit}
use native.Mathlib.Decide.{dec_lt, ℕ_discrete}
use libppuc.Config.{insert}
use libppuc.Skipped.{
  skip_spaces, read_digits, read_sign, strtol, board_of_token, until_comma, skipped_from,
  set_skipped_boards_csv,
}

-- The decimal text of a byte has one, two or three digits.
data Digits : ℕ → List ℕ → Type 0 where
  one : (a : ℕ) → a < 10 → Digits a ((48 + a) ∷ [])
  two : (a b : ℕ) → a < 10 → b < 10 → Digits (a * 10 + b) ((48 + a) ∷ (48 + b) ∷ [])
  three :
      (a b c : ℕ)
      → a < 10
      → b < 10
      → c < 10
      → Digits ((a * 10 + b) * 10 + c) ((48 + a) ∷ (48 + b) ∷ (48 + c) ∷ [])

strtol_digits : {n : ℕ} {t : List ℕ} → Digits n t → strtol t ≡ some (false, n, [])
unfolding strtol skip_spaces read_sign read_digits
strtol_digits (one a h) = ground arith
strtol_digits (two a b h k) = ground arith
strtol_digits (three a b c h k l) = ground arith

decimal_one : (n : ℕ) → n < 10 → decimal n ≡ (48 + n) ∷ []
unfolding decimal digits
decimal_one n h = let t : ltb n 10 ≡ true = ground arith in rw t refl

decimal_two : (n : ℕ) → 10 ≤ n → n < 100 → decimal n ≡ (48 + n / 10) ∷ (48 + n % 10) ∷ []
unfolding decimal digits
decimal_two n h k =
    let t : ltb n 10 ≡ false = ground arith in
    let u : ltb (n / 10) 10 ≡ true = ground arith in rw (t, u) refl

decimal_three :
    (n : ℕ)
    → 100 ≤ n
    → n < 1000
    → decimal n ≡ (48 + n / 10 / 10) ∷ (48 + n / 10 % 10) ∷ (48 + n % 10) ∷ []
unfolding decimal digits
decimal_three n h k =
    let t : ltb n 10 ≡ false = ground arith in
    let u : ltb (n / 10) 10 ≡ false = ground arith in
    let v : ltb (n / 10 / 10) 10 ≡ true = ground arith in rw (t, u, v) refl

decimal-Digits : (n : ℕ) → n ≤ 255 → Digits n (decimal n)
decimal-Digits n h = elim (dec_lt n 10) [
  | yes k ↦ rw (decimal_one n k) (one n k)
  | no k ↦ elim (dec_lt n 100) [
    | yes l ↦ rw (decimal_two n (omega arith) l) (
        subst (λ m. Digits m ((48 + n / 10) ∷ (48 + n % 10) ∷ [])) (omega arith)
          (two (n / 10) (n % 10) (omega arith) (omega arith)))
    | no l ↦ rw (decimal_three n (omega arith) (omega arith)) (
        subst (λ m. Digits m ((48 + n / 10 / 10) ∷ (48 + n / 10 % 10) ∷ (48 + n % 10) ∷ []))
          (omega arith)
          (three (n / 10 / 10) (n / 10 % 10) (n % 10) (omega arith) (omega arith) (omega arith)))
  ]
]

board_of_token-Digits : {n : ℕ} {t : List ℕ} → Digits n t → n ≤ 255 → board_of_token t ≡ some n
unfolding board_of_token
board_of_token-Digits {n} d h =
    let k : leb n 255 ≡ true = ground arith in rw (strtol_digits d, board_of_token, k) refl

-- A comma ends the digits, and so does the end of the text.
until_comma-Digits :
    {n : ℕ} {t : List ℕ} (s : List ℕ) → Digits n t → until_comma (t ++ (44 ∷ s)) ≡ (t, some s)
unfolding until_comma
until_comma-Digits s (one a h) = ground arith
until_comma-Digits s (two a b h k) = ground arith
until_comma-Digits s (three a b c h k l) = ground arith

until_comma_last : {n : ℕ} {t : List ℕ} → Digits n t → until_comma t ≡ (t, none)
unfolding until_comma
until_comma_last (one a h) = ground arith
until_comma_last (two a b h k) = ground arith
until_comma_last (three a b c h k l) = ground arith

-- One round of the loop, and what it does with a token and the text after it.
abbrev after_token : ℕ → List ℕ → List ℕ × Option (List ℕ) → List ℕ
after_token fuel boards (t, r) =
    let found : List ℕ = elim (board_of_token t) [ none ↦ boards | some b ↦ insert b boards ] in
    elim r [ none ↦ found | some rest ↦ skipped_from fuel rest found ]

abbrev round : ℕ → List ℕ → List ℕ → List ℕ
round fuel s boards = after_token fuel boards (until_comma s)

starts_round :
    {n : ℕ} {t : List ℕ} (fuel : ℕ) (s boards : List ℕ)
    → Digits n t
    → skipped_from (suc fuel) (t ++ s) boards ≡ round fuel (t ++ s) boards
unfolding skipped_from
starts_round fuel s boards (one a h) = refl
starts_round fuel s boards (two a b h k) = refl
starts_round fuel s boards (three a b c h k l) = refl

abbrev pub AllBytes : List ℕ → Type 0
AllBytes [] = Unit {0}
AllBytes (b ∷ bs) = (b ≤ 255) × AllBytes bs

-- A list of boards as the option writes it: decimal numbers with commas between them.
pub csv : List ℕ → List ℕ
csv [] = []
csv (b ∷ []) = decimal b
csv (b ∷ c ∷ bs) = decimal b ++ (44 ∷ csv (c ∷ bs))

pub mem-insert_any : (x y : ℕ) (xs : List ℕ) → mem x (insert y xs) ≡ (x == y || mem x xs)
unfolding insert
mem-insert_any x y xs = elim (Bool-cases (mem y xs)) [
  | inr e ↦ rw (e, insert) refl
  | inl e ↦ elim (ℕ_discrete x y) [
    | no ne ↦ let q : (x == y) ≡ false = ground (arith, ne) in rw (e, insert, q) refl
    | yes q ↦
        rw (e, insert)
          (subst (λ z. mem z xs ≡ (z == y || mem z xs)) (sym q) (e ∙ rw (==_refl y) refl))
  ]
]

round-Digits :
    {n : ℕ} {t : List ℕ} (fuel : ℕ) (s boards : List ℕ)
    → Digits n t
    → n ≤ 255
    → round fuel (t ++ (44 ∷ s)) boards ≡ skipped_from fuel s (insert n boards)
round-Digits fuel s boards d h =
    ap (after_token fuel boards) (until_comma-Digits s d)
    ∙ rw (after_token, board_of_token-Digits d h) refl

round_last :
    {n : ℕ} {t : List ℕ} (fuel : ℕ) (boards : List ℕ)
    → Digits n t
    → n ≤ 255
    → round fuel t boards ≡ insert n boards
round_last fuel boards d h =
    ap (after_token fuel boards) (until_comma_last d)
    ∙ rw (after_token, board_of_token-Digits d h) refl

starts_last :
    {n : ℕ} {t : List ℕ} (fuel : ℕ) (boards : List ℕ)
    → Digits n t
    → skipped_from (suc fuel) t boards ≡ round fuel t boards
unfolding skipped_from
starts_last fuel boards (one a h) = refl
starts_last fuel boards (two a b h k) = refl
starts_last fuel boards (three a b c h k l) = refl

length-Digits : {n : ℕ} {t : List ℕ} → Digits n t → 0 < length t
length-Digits (one a h) = omega arith
length-Digits (two a b h k) = omega arith
length-Digits (three a b c h k l) = omega arith

csv_lem :
    (fuel x : ℕ) (bs boards : List ℕ)
    → AllBytes bs
    → length (csv bs) ≤ fuel
    → mem x (skipped_from fuel (csv bs) boards) ≡ (mem x bs || mem x boards)
unfolding csv
csv_lem fuel x [] boards h l = unfold skipped_from in refl
csv_lem zero x (b ∷ []) boards h l = absurd (omega (arith, length-Digits (decimal-Digits b h.0), l))
csv_lem (suc fuel) x (b ∷ []) boards h l =
    let d = decimal-Digits b h.0 in
    ap (mem x) (starts_last fuel boards d ∙ round_last fuel boards d h.0)
    ∙ (mem-insert_any x b boards ∙ ground arith)
csv_lem zero x (b ∷ c ∷ bs) boards h l = absurd (
    omega (
      arith,
      length-Digits (decimal-Digits b h.0),
      length-append (decimal b) (44 ∷ csv (c ∷ bs)),
      l,
    ))
csv_lem (suc fuel) x (b ∷ c ∷ bs) boards h l =
    let d = decimal-Digits b h.0 in
    let rest = csv (c ∷ bs) in
    let r =
      csv_lem fuel x (c ∷ bs) (insert b boards) h.1
        (omega (arith, length-Digits d, length-append (decimal b) (44 ∷ rest), l)) in
    ap (mem x) (starts_round fuel (44 ∷ rest) boards d ∙ round-Digits fuel rest boards d h.0)
    ∙ (r ∙ ground (arith, mem-insert_any x b boards))

-- The boards that are skipped are exactly those of a list of board numbers, each at most 255, that is
-- written in decimal with commas between them.
pub set_skipped_boards_csv-csv :
    (x : ℕ) (bs : List ℕ) → AllBytes bs → mem x (set_skipped_boards_csv (csv bs)) ≡ mem x bs
unfolding set_skipped_boards_csv
set_skipped_boards_csv-csv x bs h = csv_lem (length (csv bs)) x bs [] h (omega arith) ∙ ground arith
