-- ===== src/Settings/Hex.antt =====
-- Hexadecimal colours, as `ParseHexColorValue` of src/PPUC.cpp reads them.
use Prim.{Unit}
use libppuc.Common.{
  ℕ, ◌+◌, ◌-◌, ◌*◌, ◌^◌, ◌<◌, ◌≡◌, refl, ap, ◌∙◌, true, false, some, List, [], ◌∷◌, map, ◌⊎◌, inl,
  inr, ◌==◌, ltb, arith, Bool-cases, if◌then◌else◌, ◌||◌,
}
use libppuc.Common.Text.{Text}
use libppuc.Yaml.{Yaml, text, ok, ◌>>=◌}
use libppuc.Skipped.{skip_spaces, read_sign}
use libppuc.Settings.Holds.{read_node-eq_ok}
use libppuc.Settings.Color.{
  hex_digit, read_hex_digits, skip_0x, read_hex, erase_hash, parse_hex_color_value,
}

-- A digit in lower case.
abbrev pub hex_char : ℕ → ℕ
hex_char d = if ltb d 10 then b'0' + d else b'a' + (d - 10)

abbrev pub AreDigits : List ℕ → Type 0
AreDigits [] = Unit
AreDigits (d ∷ ds) = (d < 16) × AreDigits ds

-- The number that digits stand for, after the value so far.
abbrev pub number_from : ℕ → List ℕ → ℕ
number_from v [] = v
number_from v (d ∷ ds) = number_from (v * 16 + d) ds

hex_digit-hex_char : (d : ℕ) → d < 16 → hex_digit (hex_char d) ≡ some d
unfolding hex_digit
hex_digit-hex_char d h = ground arith

read_hex_digits-map :
    (v : ℕ) (ds : List ℕ)
    → AreDigits ds
    → read_hex_digits v (map hex_char ds) ≡ (number_from v ds, [])
unfolding read_hex_digits
read_hex_digits-map v [] h = refl
read_hex_digits-map v (d ∷ ds) (h, hs) =
    rw (hex_digit-hex_char d h, read_hex_digits) (read_hex_digits-map (v * 16 + d) ds hs)

-- No digit is taken for a space, a sign or the `x` of `0x`.
front_lem :
    (d : ℕ) (s : Text)
    → d < 16
    → (skip_spaces (hex_char d ∷ s) ≡ hex_char d ∷ s)
      × (read_sign (hex_char d ∷ s) ≡ (false, hex_char d ∷ s))
unfolding skip_spaces read_sign
front_lem d s h = (ground arith, ground arith)

skip_0x-digits : (ds : List ℕ) → AreDigits ds → skip_0x (map hex_char ds) ≡ map hex_char ds
unfolding skip_0x
skip_0x-digits [] h = refl
skip_0x-digits (d ∷ []) h = refl
skip_0x-digits (d ∷ e ∷ ds) (h, (k, _)) =
    let q : (hex_char e == b'x' || hex_char e == b'X') ≡ false = ground arith in
    elim (Bool-cases (hex_char d == b'0')) [
      | inl z ↦ rw (z, skip_0x, q) refl
      | inr z ↦ rw (z, skip_0x) refl
    ]

read_hex-digits :
    (d : ℕ) (ds : List ℕ)
    → AreDigits (d ∷ ds)
    → number_from 0 (d ∷ ds) < 2 ^ 32
    → read_hex (hex_char d ∷ map hex_char ds) ≡ some (number_from 0 (d ∷ ds))
unfolding read_hex
read_hex-digits d ds h small =
    let (a, b) = front_lem d (map hex_char ds) h.0 in
    let fits : ltb (number_from 0 (d ∷ ds)) (2 ^ 32) ≡ true = ground arith in
    let x : skip_0x (hex_char d ∷ map hex_char ds) ≡ hex_char d ∷ map hex_char ds =
      skip_0x-digits (d ∷ ds) h in
    let r : read_hex_digits 0 (hex_char d ∷ map hex_char ds) ≡ (number_from 0 (d ∷ ds), []) =
      read_hex_digits-map 0 (d ∷ ds) h in
    rw (a, read_hex, b, x, hex_digit-hex_char d h.0, r, r, fits, a, b) refl

erase_hash_lem : (d : ℕ) (s : Text) → d < 16 → erase_hash (hex_char d ∷ s) ≡ hex_char d ∷ s
unfolding erase_hash
erase_hash_lem d s h = ground arith

parse_hex_color_value_step :
    (y : Yaml) (n : y.Node) (context s : Text) (v : ℕ)
    → y.read text n ≡ some s
    → read_hex (erase_hash s) ≡ some v
    → parse_hex_color_value y n context ≡ ok v
unfolding parse_hex_color_value
parse_hex_color_value_step y n context s v e h =
    rw (read_node-eq_ok y text n s e, parse_hex_color_value, ◌>>=◌, h) refl

erase_hash-hash : (s : Text) → erase_hash (b'#' ∷ s) ≡ s
unfolding erase_hash
erase_hash-hash s = refl

-- A colour written with hexadecimal digits in lower case, with or without `#` in front, at least
-- one and below 2 ^ 32, is read as the number that the digits stand for.
pub parse_hex_color_value-digits :
    (y : Yaml) (n : y.Node) (context : Text) (d : ℕ) (ds : List ℕ)
    → AreDigits (d ∷ ds)
    → number_from 0 (d ∷ ds) < 2 ^ 32
    → (y.read text n ≡ some (map hex_char (d ∷ ds)))
      ⊎ (y.read text n ≡ some (b'#' ∷ map hex_char (d ∷ ds)))
    → parse_hex_color_value y n context ≡ ok (number_from 0 (d ∷ ds))
parse_hex_color_value-digits y n context d ds h small (inl e) =
    parse_hex_color_value_step y n context _ _ e
      (ap read_hex (erase_hash_lem d (map hex_char ds) h.0) ∙ read_hex-digits d ds h small)
parse_hex_color_value-digits y n context d ds h small (inr e) =
    parse_hex_color_value_step y n context _ _ e
      (ap read_hex (erase_hash-hash (map hex_char (d ∷ ds))) ∙ read_hex-digits d ds h small)
