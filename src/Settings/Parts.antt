-- ===== src/Settings/Parts.antt =====
-- What the checks of effects, triggers, LEDs and switch groups in src/PPUC.cpp accept.

use Prim.{Unit, tt}
use libppuc.Common.{
  ◌≤◌, ◌≢◌, inl, inr, arith, Bool-cases, ℕ, ◌+◌, ◌≡◌, ◌⊎◌, refl, Bool, true, false, not, ◌||◌, List,
  [], ◌∷◌, ◌++◌, length, ◌==◌, ltb,
}
use libppuc.Common.Text.{Text, codes, text_eq, text_eq→eq, text_eq_refl}
use libppuc.Yaml.{
  Yaml, Kind, text, u16, u32, Value, Result, ◌>>=◌, Checks, Present, >>-Checks, if-Checks,
  unless-Checks, allowed-Checks, readable-Checks, read-Checks, parse-Checks, convert-Checks,
  refused-Checks, demanded_parse-Checks,
}
use libppuc.Settings.Fields.{optional, read_node, read_required_field}
use libppuc.Settings.Color.{
  read_hex, erase_hash, parse_hex_color_value, parse_required_hex_color_field, validate_colors,
  validate_led_effect_color_fields,
}
use libppuc.Settings.Led.{LedOrder}
use libppuc.Settings.Rules.{led_rules, trigger_rules}
use libppuc.Settings.Validate.{
  is_trigger_source, validate_led, validate_simple_trigger, validate_named_effect_trigger_fields,
  validate_group_numbers, validate_group, validate_groups,
}
use libppuc.Settings.Grammar.{IsColor}
use libppuc.Settings.Readable.{read_hex-IsColor, IsColor-read_hex}
use libppuc.Settings.Shapes.{
  Reads, IsMap, IsList, IsSource, IsGroupName, LedFields, TriggerFields, TriggerNameFields,
}
use libppuc.Settings.Holds.{Holding, rules-Checks, IsMap-Checks, IsList-Checks}

module _ (y : Yaml) (neo : LedOrder → ℕ) where
  open y use {Node, is_defined, is_map, is_sequence, field, items, entries, read, what, position}

  pub Holding-Checks :
      (k : Kind) (n : Node) (f : Value k → Result (Unit {0})) (P : Value k → Type 0)
      → ((v : Value k) → Checks (f v) (P v))
      → Checks (read_node y k n >>= f) (Holding y k P n)
  unfolding read_node
  Holding-Checks k n f P p = read-Checks (read k n) _ f P p

  -- A text that the stream reads as a colour.
  abbrev ReadsColor : Node → Type 0
  ReadsColor n = Holding y text (λ s. Present (read_hex (erase_hash s))) n

  colored : (n : Node) → ReadsColor n → Holding y text IsColor n
  colored n (s, e, h) = (s, e, read_hex-IsColor s h)

  readable : (n : Node) → Holding y text IsColor n → ReadsColor n
  readable n (s, e, h) = (s, e, IsColor-read_hex s h)

  IsColor-Checks :
      (n : Node) (context : Text) (m : Result (Unit {0})) {P : Type 0}
      → Checks m P
      → Checks (parse_hex_color_value y n context >>= λ _. m) (Holding y text IsColor n × P)
  unfolding parse_hex_color_value read_node
  IsColor-Checks n context m p =
      convert-Checks _ (parse-Checks (λ s. read_hex (erase_hash s)) _ m p (read text n) _)
        (λ (h, q). (colored n h, q)) (λ (h, q). (readable n h, q))

  codes-IsSource : (s : Text) → is_trigger_source s ≡ true → IsSource s
  codes-IsSource s h = elim (Bool-cases (text_eq s (codes "switch"))) [
    | inl e ↦ inl (text_eq→eq s _ e)
    | inr e ↦ elim (Bool-cases (text_eq s (codes "lamp"))) [
      | inl f ↦ inr (inl (text_eq→eq s _ f))
      | inr f ↦ inr (inr (text_eq→eq s _ (ground arith)))
    ]
  ]

  IsSource-codes : (s : Text) → IsSource s → is_trigger_source s ≡ true
  IsSource-codes s (inl e) = rw e refl
  IsSource-codes s (inr (inl e)) = rw e refl
  IsSource-codes s (inr (inr e)) = rw e refl

  -- A LED of a block.
  abbrev pub IsLed : Node → Type 0
  IsLed n =
      LedFields y n
      × ((is_defined (field n "color") ≡ true) × Holding y text IsColor (field n "color"))

  pub IsLed-Checks : (n : Node) (path : Text) → Checks (validate_led y neo n path) (IsLed n)
  unfolding validate_led parse_required_hex_color_field read_required_field
  IsLed-Checks n path = >>-Checks _ _ (rules-Checks y led_rules n path) (
      convert-Checks _
        (demanded_parse-Checks (λ s. read_hex (erase_hash s)) _ (is_defined (field n "color"))
          (read text (field n "color")) _ _)
        (λ (h, q). (h, colored (field n "color") q)) (λ (h, q). (h, readable (field n "color") q)))

  -- A trigger of an effect: a switch or lamp, and a value 0 or 1.
  abbrev pub IsTrigger : Node → Type 0
  IsTrigger n =
      IsMap y n
      × (TriggerFields y n
          × Holding y text (λ s. IsSource s × Holding y u32 (λ v. v ≤ 1) (field n "value"))
              (field n "source"))

  IsTrigger-Checks :
      (n : Node) (path : Text) → Checks (validate_simple_trigger y neo n path) (IsTrigger n)
  unfolding validate_simple_trigger
  IsTrigger-Checks n path = >>-Checks _ _ (IsMap-Checks y n _) (
      >>-Checks _ _ (rules-Checks y trigger_rules n _) (
        Holding-Checks text (field n "source") _ _ (λ s.
          >>-Checks _ _
            (convert-Checks _ (unless-Checks (is_trigger_source s) _) (codes-IsSource s)
              (IsSource-codes s))
            (Holding-Checks u32 (field n "value") _ _ (λ v.
              convert-Checks _ (if-Checks (ltb 1 v) _) (λ h. ground arith) (λ h. ground arith))))))

  abbrev pub HasTrigger : Node → Type 0
  HasTrigger n =
      TriggerNameFields y n
      × ((is_defined (field n "simpleTrigger") ≡ false) ⊎ IsTrigger (field n "simpleTrigger"))

  pub named-Checks :
      (n : Node) (path : Text)
      → Checks (validate_named_effect_trigger_fields y neo n path) (HasTrigger n)
  unfolding validate_named_effect_trigger_fields
  named-Checks n path =
      >>-Checks _ _ (rules-Checks y (optional text "name" ∷ optional u32 "value" ∷ []) n path) (
        allowed-Checks (is_defined (field n "simpleTrigger")) _
          (IsTrigger-Checks (field n "simpleTrigger") path))

  -- One to three colours.
  abbrev pub AllColors : List Node → Type 0
  AllColors [] = Unit
  AllColors (n ∷ ns) = Holding y text IsColor n × AllColors ns

  colors_from-Checks :
      (context : Text) (i : ℕ) (ns : List Node)
      → Checks (validate_colors y context i ns) (AllColors ns)
  unfolding validate_colors
  colors_from-Checks context i [] = (λ h. tt, λ h. refl)
  colors_from-Checks context i (n ∷ ns) =
      IsColor-Checks n _ _ (colors_from-Checks context (i + 1) ns)

  abbrev pub bad_colors : Node → Bool
  bad_colors n =
      not (is_defined n)
      || (not (is_sequence n) || (length (items n) == 0 || ltb 3 (length (items n))))

  abbrev pub HasColors : Node → Type 0
  HasColors n =
      IsList y (field n "colors")
      × ((1 ≤ length (items (field n "colors")))
          × ((length (items (field n "colors")) ≤ 3) × AllColors (items (field n "colors"))))

  colors_of :
      (n : Node)
      → (bad_colors n ≡ false) × AllColors (items n)
      → IsList y n × ((1 ≤ length (items n)) × ((length (items n) ≤ 3) × AllColors (items n)))
  colors_of n (h, all) = ((ground arith, ground arith), (ground arith, (ground arith, all)))

  colors-HasColors :
      (n : Node)
      → IsList y n × ((1 ≤ length (items n)) × ((length (items n) ≤ 3) × AllColors (items n)))
      → (bad_colors n ≡ false) × AllColors (items n)
  colors-HasColors n ((d, q), (lo, (hi, all))) = (ground arith, all)

  pub colors-Checks :
      (n : Node) (path : Text) → Checks (validate_led_effect_color_fields y n path) (HasColors n)
  unfolding validate_led_effect_color_fields
  colors-Checks n path =
      convert-Checks _
        (refused-Checks (bad_colors (field n "colors")) _ _
          (colors_from-Checks _ 0 (items (field n "colors"))))
        (colors_of (field n "colors")) (colors-HasColors (field n "colors"))

  -- A group of switches: a list of numbers.
  abbrev pub AllNumbers : List Node → Type 0
  AllNumbers [] = Unit
  AllNumbers (n ∷ ns) = Reads y u16 n × AllNumbers ns

  abbrev pub IsGroup : Node → Type 0
  IsGroup n = IsMap y n × (IsList y (field n "switches") × AllNumbers (items (field n "switches")))

  abbrev pub AllGroups : List (Node × Node) → Type 0
  AllGroups [] = Unit
  AllGroups ((key, group) ∷ rest) =
      Holding y text (λ s. (IsGroupName s × IsGroup group) × AllGroups rest) key

  numbers-Checks :
      (path : Text) (i : ℕ) (ns : List Node)
      → Checks (validate_group_numbers y neo path i ns) (AllNumbers ns)
  unfolding validate_group_numbers
  numbers-Checks path i [] = (λ h. tt, λ h. refl)
  numbers-Checks path i (n ∷ ns) =
      >>-Checks _ _ (readable-Checks (read u16 n) _) (numbers-Checks path (i + 1) ns)

  other_name : (s t : Text) → text_eq s t ≡ false → s ≢ t
  other_name s t h e = (let q : text_eq s t ≡ true = rw e (text_eq_refl t) in cc)

  name-differs : (s t : Text) → s ≢ t → text_eq s t ≡ false
  name-differs s t h = elim (Bool-cases (text_eq s t)) [
    | inl e ↦ absurd (h (text_eq→eq s t e))
    | inr e ↦ e
  ]

  IsGroup-Checks :
      (key : Node) (s : Text) (n : Node)
      → Checks (validate_group y neo key s n) (IsGroupName s × IsGroup n)
  unfolding validate_group
  IsGroup-Checks key s n =
      convert-Checks _
        (>>-Checks _ _ (if-Checks (text_eq s []) _) (
          >>-Checks _ _ (if-Checks (text_eq s (codes "buttons")) _) (
            >>-Checks _ _ (IsMap-Checks y n _) (
              >>-Checks _ _ (IsList-Checks y (field n "switches") _)
                (numbers-Checks (codes "switchGroups." ++ s) 0 (items (field n "switches")))))))
        (λ (a, (b, c)). ((other_name s [] a, other_name s (codes "buttons") b), c))
        (λ ((a, b), c). (name-differs s [] a, (name-differs s (codes "buttons") b, c)))

  pub groups_from-Checks :
      (es : List (Node × Node)) → Checks (validate_groups y neo es) (AllGroups es)
  unfolding validate_groups
  groups_from-Checks [] = (λ h. tt, λ h. refl)
  groups_from-Checks ((key, n) ∷ es) =
      Holding-Checks text key _ _
        (λ s. >>-Checks _ _ (IsGroup-Checks key s n) (groups_from-Checks es))
