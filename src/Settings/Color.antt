-- ===== src/Settings/Color.antt =====
-- Colours and effect options of the configuration file (src/PPUC.cpp), and the parts of C++ streams
-- that they use.
use Prim.Native.String.{String}
use Prim.{Unit, tt}
use libppuc.Common.{
  ℕ, zero, suc, ◌+◌, ◌-◌, ◌*◌, ◌%◌, ◌^◌, Bool, false, not, ◌&&◌, ◌||◌, Option, none, some, List, [],
  ◌∷◌, ◌++◌, length, if◌then◌else◌, ◌==◌, ◌!=◌, ltb, leb,
}
use libppuc.Common.Bits.{or_u8}
use libppuc.Common.Text.{Text, codes, decimal}
use libppuc.Yaml.{Yaml, text, u32, bool, Result, ok, err, ◌>>=◌}
use libppuc.Skipped.{is_digit, skip_spaces, read_sign}
use libppuc.Settings.Fields.{invalid, config_item_context, read_node, read_required_field}

-- The value of a hexadecimal digit.
unfoldable pub hex_digit : ℕ → Option ℕ
hex_digit c =
    if is_digit c
    then some (c - b'0')
    else if leb b'a' c && leb c b'f'
    then some (c - b'a' + 10)
    else if leb b'A' c && leb c b'F'
    then some (c - b'A' + 10)
    else none

-- The digits at the front of a text, after the value so far, and what follows them.
unfoldable pub read_hex_digits : ℕ → Text → ℕ × Text
unfolding hex_digit
read_hex_digits v [] = (v, [])
read_hex_digits v (c ∷ s) = elim (hex_digit c) [
  | none ↦ (v, c ∷ s)
  | some d ↦ read_hex_digits (v * 16 + d) s
]

-- The text after `0x`, which std::hex accepts in front of the digits.
unfoldable pub skip_0x : Text → Text
skip_0x (c ∷ d ∷ s) = if c == b'0' && (d == b'x' || d == b'X') then s else c ∷ d ∷ s
skip_0x s = s

-- `ss << std::hex << text; ss >> color` on a uint32_t: none if `ss.fail() || !ss.eof()`. A number
-- needs a digit, has to fit, ends the text, and is negated after a minus.
unfoldable pub read_hex : Text → Option ℕ
unfolding read_hex_digits skip_0x
read_hex s =
    let (negative, t) = read_sign (skip_spaces s) in
    elim (skip_0x t) [
      | [] ↦ none
      | c ∷ u ↦
          let (v, rest) = read_hex_digits 0 (c ∷ u) in
          elim (hex_digit c) [
            | none ↦ none
            | some d ↦ elim rest [
              | e ∷ r ↦ none
              | [] ↦
                  if ltb v (2 ^ 32)
                  then some (if negative then (2 ^ 32 - v) % 2 ^ 32 else v)
                  else none
            ]
          ]
    ]

-- `if (!text.empty() && text[0] == '#') text.erase(0, 1)`
unfoldable pub erase_hash : Text → Text
erase_hash [] = []
erase_hash (c ∷ s) = if c == b'#' then s else c ∷ s

module _ (y : Yaml) where
  open y use {Node, is_defined, is_sequence, field, items}

  -- ParseRequiredHexColorField
  unfoldable pub parse_required_hex_color_field : Node → String → Text → Result ℕ
  unfolding erase_hash
  parse_required_hex_color_field n f context = do
    s ← read_required_field y text n f context
    elim (read_hex (erase_hash s)) [
      | some color ↦ ok color
      | none ↦ err (
          invalid (
            context
            ++ (codes " has invalid field '"
                ++ (codes f
                    ++ (codes "': expected hexadecimal color, got '"
                        ++ (erase_hash s ++ codes "'"))))))
    ]

  -- ParseHexColorValue
  unfoldable pub parse_hex_color_value : Node → Text → Result ℕ
  unfolding erase_hash
  parse_hex_color_value n context = do
    s ← read_node y text n
    elim (read_hex (erase_hash s)) [
      | some color ↦ ok color
      | none ↦ err (
          invalid (
            context ++ (codes " expected hexadecimal color, got '" ++ (erase_hash s ++ codes "'"))))
    ]

  abbrev pub color_context : Text → ℕ → Text
  color_context context i = context ++ (codes " field 'colors[" ++ (decimal i ++ codes "]'"))

  -- The loop of ValidateLedEffectColorFields, from color `i` on.
  unfoldable pub validate_colors : Text → ℕ → List Node → Result (Unit {0})
  validate_colors context i [] = ok tt
  validate_colors context i (n ∷ ns) =
      parse_hex_color_value n (color_context context i) >>= λ _. validate_colors context (i + 1) ns

  -- ValidateLedEffectColorFields
  unfoldable pub validate_led_effect_color_fields : Node → Text → Result (Unit {0})
  validate_led_effect_color_fields effect path =
      let context = config_item_context y effect path in
      let colors = field effect "colors" in
      if not (is_defined colors)
        || (not (is_sequence colors)
            || (length (items colors) == 0 || ltb 3 (length (items colors))))
      then err (invalid (context ++ codes " field 'colors' must contain 1 to 3 hexadecimal colors"))
      else validate_colors context 0 (items colors)

  -- The loop of BuildLedEffectColors, from color `i` on, with `room` places left.
  unfoldable pub build_colors : Text → ℕ → ℕ → List Node → Result (List ℕ)
  build_colors context i zero ns = ok []
  build_colors context i (suc room) [] = do rest ← build_colors context i room []; ok (0 ∷ rest)
  build_colors context i (suc room) (n ∷ ns) = do
    color ← parse_hex_color_value n (color_context context i)
    rest ← build_colors context (i + 1) room ns
    ok (color ∷ rest)

  -- BuildLedEffectColors
  unfoldable pub build_led_effect_colors : Node → Text → Result (List ℕ)
  build_led_effect_colors effect context = build_colors context 0 3 (items (field effect "colors"))

  -- The value of a field that may be missing.
  abbrev number_field : Node → String → Result ℕ
  number_field n f = if is_defined (field n f) then read_node y u32 (field n f) else ok 0

  abbrev flag_field : Node → String → Result Bool
  flag_field n f = if is_defined (field n f) then read_node y bool (field n f) else ok false

  -- BuildWs2812FxOptions; every value that is or-ed in is below 2 ^ 8.
  unfoldable pub build_ws2812fx_options : Node → Result ℕ
  build_ws2812fx_options effect = do
    reverse ← number_field effect "reverse"
    gamma ← flag_field effect "gamma"
    rate ← number_field effect "fadeRate"
    size ← number_field effect "size"
    options ← number_field effect "options"
    let o = or_u8 (if reverse != 0 then 0x80 else 0) (if gamma then 0x08 else 0)
    ok (or_u8 (or_u8 (or_u8 o (rate % 8 * 16)) (size % 4 * 2)) (options % 256))
