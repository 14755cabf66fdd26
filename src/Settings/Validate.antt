-- ===== src/Settings/Validate.antt =====
-- `ValidatePpucConfiguration` of src/PPUC.cpp and the checks of its parts.
use Prim.Native.String.{String}
use Prim.{Unit, tt}
use libppuc.Common.{ℕ, ◌+◌, Bool, ◌||◌, none, some, List, [], ◌∷◌, ◌++◌, if◌then◌else◌, ◌==◌, ltb}
use libppuc.Common.Text.{Text, codes, decimal, text_eq}
use libppuc.Yaml.{Yaml, text, u16, u32, Result, ok, err, ◌>>=◌, ◌>>◌}
use libppuc.Settings.Fields.{
  required, optional, Check, invalid, format_location, config_item_context, read_node,
  validate_required_map, validate_required_sequence, validate_each, validate_optional_items,
  validate_rules,
}
use libppuc.Settings.Rules.{
  led_rules, trigger_rules, root_rules, board_rules, matrix_rules, matrix_switch_rules,
  switch_rules, mapping_rules, pwm_rules, pwm_effect_rules, stripe_rules, stripe_size_rules,
  segment_rules, led_effect_rules,
}
use libppuc.Settings.Color.{parse_required_hex_color_field, validate_led_effect_color_fields}
use libppuc.Settings.Led.{LedOrder, resolve_led_type_value}

-- `source != "switch" && source != "lamp" && source != "light"` is false.
abbrev pub is_trigger_source : Text → Bool
is_trigger_source s =
    text_eq s (codes "switch") || (text_eq s (codes "lamp") || text_eq s (codes "light"))

module _ (y : Yaml) (neo : LedOrder → ℕ) where
  open y use {Node, is_defined, is_map, is_sequence, field, items, entries, read, what, position}

  -- The callback of ValidateLedConfigBlock.
  unfoldable pub validate_led : Check y
  validate_led item path =
      validate_rules y led_rules item path
      >> (parse_required_hex_color_field y item "color" (config_item_context y item path) >>= λ _.
          ok tt)

  -- ValidateLedConfigBlock
  unfoldable pub validate_led_block : Node → String → Text → Result (Unit {0})
  validate_led_block stripe f path = validate_optional_items y stripe f path validate_led

  abbrev pub trigger_source_wrong : Node → Text → Text → Result (Unit {0})
  trigger_source_wrong trigger path source = err (
      invalid (
        path
        ++ (codes ".simpleTrigger.source must be 'switch' or 'lamp', got '"
            ++ (source ++ (codes "' at " ++ format_location (position (field trigger "source")))))))

  abbrev pub trigger_value_wrong : Node → Text → Result (Unit {0})
  trigger_value_wrong trigger path = err (
      invalid (
        path
        ++ (codes ".simpleTrigger.value must be 0 or 1 at "
            ++ format_location (position (field trigger "value")))))

  -- The branch of ValidateNamedEffectTriggerFields for a simpleTrigger.
  unfoldable pub validate_simple_trigger : Check y
  validate_simple_trigger trigger path = do
    validate_required_map y trigger (path ++ codes ".simpleTrigger")
    validate_rules y trigger_rules trigger (path ++ codes ".simpleTrigger")
    source ← read_node y text (field trigger "source")
    if is_trigger_source source then ok tt else trigger_source_wrong trigger path source
    value ← read_node y u32 (field trigger "value")
    if ltb 1 value then trigger_value_wrong trigger path else ok tt

  -- ValidateNamedEffectTriggerFields
  unfoldable pub validate_named_effect_trigger_fields : Check y
  validate_named_effect_trigger_fields effect path =
      let trigger = field effect "simpleTrigger" in
      validate_rules y (optional text "name" ∷ optional u32 "value" ∷ []) effect path
      >> (if is_defined trigger then validate_simple_trigger trigger path else ok tt)

  -- A callback that only checks fields.
  unfoldable pub validate_board : Check y
  validate_board = validate_rules y board_rules

  unfoldable pub validate_switch_matrix : Check y
  validate_switch_matrix matrix path = do
    validate_required_map y matrix path
    validate_rules y matrix_rules matrix path
    validate_optional_items y matrix "switches" path (validate_rules y matrix_switch_rules)

  -- The numbers of a group, from index `i` on.
  unfoldable pub validate_group_numbers : Text → ℕ → List Node → Result (Unit {0})
  validate_group_numbers path i [] = ok tt
  validate_group_numbers path i (n ∷ ns) =
      elim (read u16 n) [
        | none ↦ err (
            invalid (
              path
              ++ (codes ".switches["
                  ++ (decimal i
                      ++ (codes "] at "
                          ++ (format_location (position n) ++ (codes ": " ++ what n)))))))
        | some v ↦ ok tt
      ]
      >> validate_group_numbers path (i + 1) ns

  abbrev pub name_empty : Node → Result (Unit {0})
  name_empty key = err (
      invalid
        (codes "switchGroups contains an empty group name at " ++ format_location (position key)))

  abbrev pub name_reserved : Result (Unit {0})
  name_reserved =
      err (invalid (codes "switchGroups.buttons is reserved for switches with button: true"))

  -- The body of the loop over switchGroups, once its name is read.
  unfoldable pub validate_group : Node → Text → Node → Result (Unit {0})
  unfolding validate_group_numbers
  validate_group key name group = do
    if text_eq name [] then name_empty key else ok tt
    if text_eq name (codes "buttons") then name_reserved else ok tt
    validate_required_map y group (codes "switchGroups." ++ name)
    validate_required_sequence y (field group "switches")
        (codes "switchGroups." ++ (name ++ codes ".switches"))
    validate_group_numbers (codes "switchGroups." ++ name) 0 (items (field group "switches"))

  unfoldable pub validate_groups : List (Node × Node) → Result (Unit {0})
  validate_groups [] = ok tt
  validate_groups ((key, group) ∷ rest) = do
    name ← read_node y text key
    validate_group key name group
    validate_groups rest

  unfoldable pub validate_switch_groups : Node → Result (Unit {0})
  validate_switch_groups n =
      if is_map n
      then validate_groups (entries n)
      else err (invalid (codes "'switchGroups' must be a map at " ++ format_location (position n)))

  unfoldable pub validate_pwm_effect : Check y
  validate_pwm_effect effect path =
      validate_rules y pwm_effect_rules effect path
      >> validate_named_effect_trigger_fields effect path

  unfoldable pub validate_pwm_output : Check y
  validate_pwm_output item path =
      validate_rules y pwm_rules item path
      >> validate_optional_items y item "effects" path validate_pwm_effect

  unfoldable pub validate_led_effect : Check y
  validate_led_effect effect path = do
    validate_rules y (required u32 "segment" ∷ []) effect path
    validate_led_effect_color_fields y effect path
    validate_rules y led_effect_rules effect path
    validate_named_effect_trigger_fields effect path

  abbrev pub led_type_wrong : Node → Text → Text → Result (Unit {0})
  led_type_wrong item path name = err (
      invalid (
        path
        ++ (codes ".ledType has unsupported value '"
            ++ (name ++ (codes "' at " ++ format_location (position (field item "ledType")))))))

  unfoldable pub validate_led_stripe : Check y
  validate_led_stripe item path = do
    validate_rules y stripe_rules item path
    name ← read_node y text (field item "ledType")
    if resolve_led_type_value neo name == 0 then led_type_wrong item path name else ok tt
    validate_rules y stripe_size_rules item path
    validate_optional_items y item "segments" path (validate_rules y segment_rules)
    validate_optional_items y item "effects" path validate_led_effect
    validate_led_block item "lamps" path
    validate_led_block item "flashers" path
    validate_led_block item "gi" path

  -- The sections of the file after the boards.
  unfoldable pub validate_sections : Node → Text → Result (Unit {0})
  validate_sections config root = do
    validate_optional_items y config "switches" root (validate_rules y switch_rules)
    if is_defined (field config "switchGroups")
        then validate_switch_groups (field config "switchGroups")
        else ok tt
    validate_optional_items y config "coilGiMappings" root (validate_rules y mapping_rules)
    validate_optional_items y config "pwmOutput" root validate_pwm_output
    validate_optional_items y config "ledStripes" root validate_led_stripe

  -- ValidatePpucConfiguration
  unfoldable pub validate_ppuc_configuration : Node → Result (Unit {0})
  validate_ppuc_configuration config =
      let root = codes "root" in
      let boards = field config "boards" in
      let matrix = field config "switchMatrix" in
      do
        validate_required_map y config root
        validate_rules y root_rules config root
        validate_required_sequence y boards (codes "boards")
        validate_each y validate_board (codes "boards") 0 (items boards)
        if is_defined matrix then validate_switch_matrix matrix (codes "switchMatrix") else ok tt
        validate_sections config root
