-- ===== src/Settings/Holds.antt =====
-- What the checks of single fields and lists in src/PPUC.cpp accept, as predicates.
use Prim.Native.String.{String}
use Prim.{Unit, tt}
use libppuc.Common.{ℕ, ◌+◌, ◌≡◌, ◌⊎◌, refl, true, false, some, List, [], ◌∷◌, length, ◌==◌, ◌&&◌}
use libppuc.Common.Text.{Text}
use libppuc.Yaml.{
  Yaml, Kind, text, Value, ok, Checks, >>-Checks, demanded-Checks, demanded_value-Checks,
  readable-Checks, allowed-Checks, unless-Checks, optional_list-Checks,
}
use libppuc.Settings.Shapes.{Needs, Allows, IsMap, IsList}
use libppuc.Settings.Fields.{
  Rule, required, optional, effect_mode, Check, read_node, require_node, read_required_field,
  validate_required_field, validate_optional_field, validate_effect_mode_field,
  validate_required_sequence, validate_optional_sequence, validate_required_map, item_path,
  validate_each, validate_optional_items, validate_rule, validate_rules,
}

module _ (y : Yaml) where
  open y use {Node, is_defined, is_map, is_sequence, field, items, entries, read}

  -- A value of a kind that satisfies `P`.
  abbrev pub Holding : (k : Kind) → (Value k → Type 0) → Node → Type 0
  Holding k P n = (v : Value k) × (read k n ≡ some v) × P v

  abbrev pub RuleHolds : Rule → Node → Type 0
  RuleHolds (required k f) n = Needs y k f n
  RuleHolds (optional k f) n = Allows y k f n
  RuleHolds (effect_mode f) n = Needs y text f n

  abbrev pub RulesHold : List Rule → Node → Type 0
  RulesHold [] n = Unit
  RulesHold (r ∷ rs) n = RuleHolds r n × RulesHold rs n

  -- Each item is a map of which `P` holds.
  abbrev pub ItemsHold : (Node → Type 0) → List Node → Type 0
  ItemsHold P [] = Unit
  ItemsHold P (n ∷ ns) = IsMap y n × (P n × ItemsHold P ns)

  -- There is no list, or an empty map in its place, or each item of it is a map of which `P` holds.
  abbrev pub NoList : Node → Type 0
  NoList n =
      (is_defined n ≡ false)
      ⊎ ((is_map n && length (entries n) == 0) ≡ true) × (is_sequence n ≡ false)

  abbrev pub OptionalItems : (Node → Type 0) → Node → Type 0
  OptionalItems P n = NoList n ⊎ (IsList y n × ItemsHold P (items n))

  pub read_node-eq_ok :
      (k : Kind) (n : Node) (v : Value k) → read k n ≡ some v → read_node y k n ≡ ok v
  unfolding read_node
  read_node-eq_ok k n v e = rw (e, read_node) refl

  rule-Checks :
      (r : Rule) (n : Node) (path : Text) → Checks (validate_rule y r n path) (RuleHolds r n)
  unfolding validate_rule validate_required_field validate_optional_field validate_effect_mode_field
      read_required_field
  rule-Checks (required k f) n path =
      demanded_value-Checks (is_defined (field n f)) (read k (field n f)) _ _
  rule-Checks (optional k f) n path =
      allowed-Checks (is_defined (field n f)) _ (readable-Checks (read k (field n f)) _)
  rule-Checks (effect_mode f) n path =
      demanded-Checks (is_defined (field n f)) _ _ (readable-Checks (read text (field n f)) _)

  pub rules-Checks :
      (rs : List Rule) (n : Node) (path : Text)
      → Checks (validate_rules y rs n path) (RulesHold rs n)
  unfolding validate_rules
  rules-Checks [] n path = (λ h. tt, λ h. refl)
  rules-Checks (r ∷ rs) n path =
      >>-Checks (validate_rule y r n path) (validate_rules y rs n path) (rule-Checks r n path)
        (rules-Checks rs n path)

  pub IsMap-Checks : (n : Node) (path : Text) → Checks (validate_required_map y n path) (IsMap y n)
  unfolding validate_required_map require_node
  IsMap-Checks n path = >>-Checks _ _ (unless-Checks (is_defined n) _) (unless-Checks (is_map n) _)

  pub IsList-Checks :
      (n : Node) (path : Text) → Checks (validate_required_sequence y n path) (IsList y n)
  unfolding validate_required_sequence require_node
  IsList-Checks n path =
      >>-Checks _ _ (unless-Checks (is_defined n) _) (unless-Checks (is_sequence n) _)

  module _ (callback : Check y) (P : Node → Type 0)
      (each : (n : Node) (path : Text) → Checks (callback n path) (P n)) where
    pub each-Checks :
        (path : Text) (i : ℕ) (ns : List Node)
        → Checks (validate_each y callback path i ns) (ItemsHold P ns)
    unfolding validate_each
    each-Checks path i [] = (λ h. tt, λ h. refl)
    each-Checks path i (n ∷ ns) =
        >>-Checks _ _ (IsMap-Checks n (item_path y path i))
          (>>-Checks _ _ (each n (item_path y path i)) (each-Checks path (i + 1) ns))

    pub items-Checks :
        (parent : Node) (f : String) (path : Text)
        → Checks
            (validate_optional_items y parent f path callback)
            (OptionalItems P (field parent f))
    unfolding validate_optional_items validate_optional_sequence
    items-Checks parent f path =
        let n = field parent f in
        optional_list-Checks (is_defined n) (is_map n && length (entries n) == 0) (is_sequence n) _
          _ (each-Checks _ 0 (items n))
