-- ===== src/Skipped.antt =====
-- The boards to leave out: `PPUC::SetSkippedBoardsCsv` of src/PPUC.cpp, over byte codes.
pub mod Csv
use libppuc.Common.{
  ℕ, zero, suc, ◌+◌, ◌-◌, ◌*◌, Bool, true, false, not, ◌&&◌, ◌||◌, Option, none, some, List, [],
  ◌∷◌, length, if◌then◌else◌, ◌==◌, leb,
}
use libppuc.Config.{insert}

abbrev pub is_digit : ℕ → Bool
is_digit c = leb b'0' c && leb c b'9'

-- `isspace` in the C locale.
abbrev pub is_space : ℕ → Bool
is_space c = c == b' ' || leb 9 c && leb c 13

unfoldable pub skip_spaces : List ℕ → List ℕ
skip_spaces [] = []
skip_spaces (c ∷ s) = if is_space c then skip_spaces s else c ∷ s

-- The digits at the front of a text, after the value so far, and what follows them.
unfoldable pub read_digits : ℕ → List ℕ → ℕ × List ℕ
read_digits v [] = (v, [])
read_digits v (c ∷ s) = if is_digit c then read_digits (v * 10 + (c - b'0')) s else (v, c ∷ s)

-- The sign of a number, true for a minus.
unfoldable pub read_sign : List ℕ → Bool × List ℕ
read_sign [] = (false, [])
read_sign (c ∷ s) =
    if c == b'-' then (true, s) else if c == b'+' then (false, s) else (false, c ∷ s)

-- `strtol` in base 10: none if there is no number, else sign, magnitude and what follows. A value
-- beyond `long` is cut off there in C, and is greater than 255 on either side.
unfoldable pub strtol : List ℕ → Option (Bool × ℕ × List ℕ)
unfolding skip_spaces read_digits read_sign
strtol s =
    let (negative, t) = read_sign (skip_spaces s) in
    elim t [
      | [] ↦ none
      | c ∷ u ↦
          let (v, rest) = read_digits 0 (c ∷ u) in
          if is_digit c then some (negative, v, rest) else none
    ]

-- The board that a token names.
unfoldable pub board_of_token : List ℕ → Option ℕ
board_of_token t = elim (strtol t) [
  | none ↦ none
  | some (negative, v, rest) ↦ elim rest [
    | _ ∷ _ ↦ none
    | [] ↦ if (not negative || v == 0) && leb v 255 then some v else none
  ]
]

-- The token up to the next comma, and what follows the comma if there is one.
unfoldable pub until_comma : List ℕ → List ℕ × Option (List ℕ)
until_comma [] = ([], none)
until_comma (c ∷ s) = let (t, r) = until_comma s in if c == b',' then ([], some s) else (c ∷ t, r)

-- The loop, one token a round; a round takes at least one byte, so as many rounds as there are
-- bytes are enough.
unfoldable pub skipped_from : ℕ → List ℕ → List ℕ → List ℕ
skipped_from fuel [] boards = boards
skipped_from zero (c ∷ s) boards = boards
skipped_from (suc fuel) (c ∷ s) boards =
    let (t, r) = until_comma (c ∷ s) in
    let found : List ℕ = elim (board_of_token t) [ none ↦ boards | some b ↦ insert b boards ] in
    elim r [ none ↦ found | some rest ↦ skipped_from fuel rest found ]

-- SetSkippedBoardsCsv; a null pointer is the empty text.
unfoldable pub set_skipped_boards_csv : List ℕ → List ℕ
unfolding skipped_from
set_skipped_boards_csv csv = skipped_from (length csv) csv []
