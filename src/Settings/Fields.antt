-- ===== src/Settings/Fields.antt =====
-- The readers and checks of single fields at the top of src/PPUC.cpp.
use Prim.Native.String.{String}
use Prim.{Unit, tt}
use libppuc.Common.{
  ℕ, ◌+◌, Bool, true, false, not, ◌&&◌, none, some, List, [], ◌∷◌, ◌++◌, length, if◌then◌else◌,
  ◌==◌,
}
use libppuc.Common.Text.{Text, codes, decimal}
use libppuc.Yaml.{
  Yaml, Kind, text, Value, Position, Failure, yaml_error, runtime_error, Result, ok, err, ◌>>=◌,
  ◌>>◌,
}

-- FormatYamlLocation
unfoldable pub format_location : Position → Text
format_location none = codes "unknown location"
format_location (some (line, column)) =
    codes "line " ++ (decimal (line + 1) ++ (codes ", column " ++ decimal (column + 1)))

unfoldable pub invalid : Text → Failure
invalid t = runtime_error (codes "invalid YAML configuration: " ++ t)

abbrev is_empty_text : Text → Bool
is_empty_text [] = true
is_empty_text (c ∷ s) = false

-- The calls of a callback that check one field, in their order.
pub data Rule : Type 0 where
  required : Kind → String → Rule
  optional : Kind → String → Rule
  effect_mode : String → Rule

module _ (y : Yaml) where
  open y use {Node, is_defined, is_map, is_sequence, field, items, entries, read, what, position}

  -- OptionalStringField
  unfoldable pub optional_string_field : Node → String → Text
  optional_string_field n f =
      if is_defined n && is_defined (field n f)
      then elim (read text (field n f)) [ none ↦ [] | some s ↦ s ]
      else []

  -- ConfigItemContext
  unfoldable pub config_item_context : Node → Text → Text
  unfolding optional_string_field format_location
  config_item_context n path =
      let description = optional_string_field n "description" in
      path
      ++ ((if is_empty_text description
            then []
            else codes ", description '" ++ (description ++ codes "'"))
          ++ (codes " (" ++ (format_location (position n) ++ codes ")")))

  -- `as<T>()` where nothing catches the exception.
  unfoldable pub read_node : (k : Kind) → Node → Result (Value k)
  read_node k n = elim (read k n) [ none ↦ err (yaml_error (position n) (what n)) | some v ↦ ok v ]

  -- RequireYamlNode
  unfoldable pub require_node : Node → Text → Result (Unit {0})
  require_node n path =
      if is_defined n
      then ok tt
      else err (invalid (codes "missing required '" ++ (path ++ codes "'")))

  abbrev field_missing : Text → String → Failure
  field_missing context f =
      invalid (context ++ (codes " is missing required field '" ++ (codes f ++ codes "'")))

  abbrev field_wrong : Node → Text → String → Failure
  field_wrong v context f = invalid (
      context
      ++ (codes " has invalid field '"
          ++ (codes f
              ++ (codes "' at " ++ (format_location (position v) ++ (codes ": " ++ what v))))))

  -- ReadRequiredYamlField
  unfoldable pub read_required_field : (k : Kind) → Node → String → Text → Result (Value k)
  read_required_field k n f context =
      let v = field n f in
      if is_defined v
      then elim (read k v) [ none ↦ err (field_wrong v context f) | some a ↦ ok a ]
      else err (field_missing context f)

  -- ValidateRequiredField
  unfoldable pub validate_required_field : Kind → Node → Text → String → Result (Unit {0})
  validate_required_field k n path f =
      read_required_field k n f (config_item_context n path) >>= λ _. ok tt

  -- ValidateOptionalField
  unfoldable pub validate_optional_field : Kind → Node → Text → String → Result (Unit {0})
  validate_optional_field k n path f =
      let v = field n f in
      if is_defined v
      then elim (read k v) [
        | none ↦ err (field_wrong v (config_item_context n path) f)
        | some a ↦ ok tt
      ]
      else ok tt

  -- ValidateEffectModeField
  unfoldable pub validate_effect_mode_field : Node → Text → String → Result (Unit {0})
  validate_effect_mode_field n path f =
      let v = field n f in
      if is_defined v
      then elim (read text v) [
        | none ↦ err (field_wrong v (config_item_context n path) f)
        | some a ↦ ok tt
      ]
      else err (field_missing (config_item_context n path) f)

  abbrev must_be : String → Node → Text → Failure
  must_be what_kind n path = invalid (
      codes "'"
      ++ (path
          ++ (codes "' must be a "
              ++ (codes what_kind ++ (codes " at " ++ format_location (position n))))))

  -- ValidateRequiredSequence
  unfoldable pub validate_required_sequence : Node → Text → Result (Unit {0})
  validate_required_sequence n path = do
    require_node n path
    if is_sequence n then ok tt else err (must_be "list" n path)

  abbrev is_empty_map : Node → Bool
  is_empty_map n = is_map n && length (entries n) == 0

  -- ValidateOptionalSequence
  unfoldable pub validate_optional_sequence : Node → Text → Result (Unit {0})
  validate_optional_sequence n path =
      if not (is_defined n)
      then ok tt
      else if is_empty_map n
      then ok tt
      else if is_sequence n
      then ok tt
      else err (must_be "list" n path)

  -- HasSequenceItems
  abbrev pub has_sequence_items : Node → Bool
  has_sequence_items n = is_defined n && is_sequence n

  -- The items of a list, if it is one.
  abbrev pub list_of : Node → List Node
  list_of n = if has_sequence_items n then items n else []

  -- ValidateRequiredMap
  unfoldable pub validate_required_map : Node → Text → Result (Unit {0})
  validate_required_map n path = do
    require_node n path
    if is_map n then ok tt else err (must_be "map" n path)

  abbrev pub Check : Type 0
  Check = Node → Text → Result (Unit {0})

  abbrev pub item_path : Text → ℕ → Text
  item_path path i = path ++ (codes "[" ++ (decimal i ++ codes "]"))

  -- The loop of ValidateOptionalItems, from item `i` on.
  unfoldable pub validate_each : Check → Text → ℕ → List Node → Result (Unit {0})
  validate_each callback path i [] = ok tt
  validate_each callback path i (n ∷ ns) = do
    validate_required_map n (item_path path i)
    callback n (item_path path i)
    validate_each callback path (i + 1) ns

  -- ValidateOptionalItems
  unfoldable pub validate_optional_items : Node → String → Text → Check → Result (Unit {0})
  validate_optional_items parent f parent_path callback =
      let path = parent_path ++ (codes "." ++ codes f) in
      let n = field parent f in
      validate_optional_sequence n path
      >> (if has_sequence_items n then validate_each callback path 0 (items n) else ok tt)

  unfoldable pub validate_rule : Rule → Check
  validate_rule (required k f) n path = validate_required_field k n path f
  validate_rule (optional k f) n path = validate_optional_field k n path f
  validate_rule (effect_mode f) n path = validate_effect_mode_field n path f

  unfoldable pub validate_rules : List Rule → Check
  validate_rules [] n path = ok tt
  validate_rules (r ∷ rs) n path = validate_rule r n path >> validate_rules rs n path
