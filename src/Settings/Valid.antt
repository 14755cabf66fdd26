-- ===== src/Settings/Valid.antt =====
-- When `ValidatePpucConfiguration` of src/PPUC.cpp accepts a configuration.
use Prim.Native.String.{String}
use libppuc.Common.{ℕ, ◌≡◌, ◌⊎◌, ◌↔◌, true, false, [], ◌∷◌, ◌==◌}
use Prim.{tt}
use libppuc.Common.Text.{Text}
use libppuc.Yaml.{
  Yaml, text, u32, ok, Checks, >>-Checks, if-Checks, allowed-Checks, demanded-Checks,
  convert-Checks,
}
use libppuc.Settings.Fields.{required}
use libppuc.Settings.Led.{LedOrder, resolve_led_type_value}
use libppuc.Settings.Kinds.{kind_of, kind-IsLedKind}
use libppuc.Settings.Shapes.{
  IsLedKind, Needs, IsMap, IsList, RootFields, BoardFields, MatrixFields, MatrixSwitchFields,
  SwitchFields, MappingFields, PwmFields, PwmEffectFields, StripeFields, StripeSizeFields,
  SegmentFields, LedEffectFields,
}
use libppuc.Settings.Rules.{
  root_rules, board_rules, matrix_rules, matrix_switch_rules, switch_rules, mapping_rules,
  pwm_rules, pwm_effect_rules, stripe_rules, stripe_size_rules, segment_rules, led_effect_rules,
}
use libppuc.Settings.Validate.{
  validate_led_block, validate_board, validate_switch_matrix, validate_switch_groups,
  validate_pwm_effect, validate_pwm_output, validate_led_effect, validate_led_stripe,
  validate_sections, validate_ppuc_configuration,
}
use libppuc.Settings.Holds.{
  Holding, ItemsHold, OptionalItems, rules-Checks, IsMap-Checks, IsList-Checks, each-Checks,
  items-Checks,
}
use libppuc.Settings.Parts.{
  IsLed, HasTrigger, HasColors, AllGroups, Holding-Checks, IsLed-Checks, named-Checks,
  colors-Checks, groups_from-Checks,
}

module _ (y : Yaml) (neo : LedOrder → ℕ) where
  open y use {Node, is_defined, is_map, field, items, entries}

  abbrev pub IsMatrix : Node → Type 0
  IsMatrix n =
      IsMap y n × (MatrixFields y n × OptionalItems y (MatrixSwitchFields y) (field n "switches"))

  IsMatrix-Checks :
      (n : Node) (path : Text) → Checks (validate_switch_matrix y neo n path) (IsMatrix n)
  unfolding validate_switch_matrix
  IsMatrix-Checks n path = >>-Checks _ _ (IsMap-Checks y n path) (
      >>-Checks _ _ (rules-Checks y matrix_rules n path)
        (items-Checks y _ _ (rules-Checks y matrix_switch_rules) n "switches" path))

  abbrev pub IsPwmEffect : Node → Type 0
  IsPwmEffect n = PwmEffectFields y n × HasTrigger y neo n

  IsPwmEffect-Checks :
      (n : Node) (path : Text) → Checks (validate_pwm_effect y neo n path) (IsPwmEffect n)
  unfolding validate_pwm_effect
  IsPwmEffect-Checks n path =
      >>-Checks _ _ (rules-Checks y pwm_effect_rules n path) (named-Checks y neo n path)

  abbrev pub IsPwmOutput : Node → Type 0
  IsPwmOutput n = PwmFields y n × OptionalItems y IsPwmEffect (field n "effects")

  IsPwmOutput-Checks :
      (n : Node) (path : Text) → Checks (validate_pwm_output y neo n path) (IsPwmOutput n)
  unfolding validate_pwm_output
  IsPwmOutput-Checks n path =
      >>-Checks _ _ (rules-Checks y pwm_rules n path)
        (items-Checks y _ _ IsPwmEffect-Checks n "effects" path)

  abbrev pub IsLedEffect : Node → Type 0
  IsLedEffect n =
      Needs y u32 "segment" n × (HasColors y neo n × (LedEffectFields y n × HasTrigger y neo n))

  IsLedEffect-Checks :
      (n : Node) (path : Text) → Checks (validate_led_effect y neo n path) (IsLedEffect n)
  unfolding validate_led_effect
  IsLedEffect-Checks n path =
      >>-Checks _ _
        (convert-Checks _ (rules-Checks y (required u32 "segment" ∷ []) n path) (λ h. h.0)
          (λ h. (h, tt)))
        (>>-Checks _ _ (colors-Checks y neo n path)
          (>>-Checks _ _ (rules-Checks y led_effect_rules n path) (named-Checks y neo n path)))

  abbrev pub IsLedBlock : Node → String → Type 0
  IsLedBlock n f = OptionalItems y (IsLed y neo) (field n f)

  -- What a stripe has beside the name of its kind.
  abbrev pub HasLeds : Node → Type 0
  HasLeds n =
      StripeSizeFields y n
      × (OptionalItems y (SegmentFields y) (field n "segments")
          × (OptionalItems y IsLedEffect (field n "effects")
              × (IsLedBlock n "lamps" × (IsLedBlock n "flashers" × IsLedBlock n "gi"))))

  abbrev pub IsLedStripe : Node → Type 0
  IsLedStripe n =
      StripeFields y n × Holding y text (λ s. IsLedKind neo s × HasLeds n) (field n "ledType")

  IsLedBlock-Checks :
      (n : Node) (f : String) (path : Text)
      → Checks (validate_led_block y neo n f path) (IsLedBlock n f)
  unfolding validate_led_block
  IsLedBlock-Checks n f path = items-Checks y _ _ (IsLed-Checks y neo) n f path

  IsLedStripe-Checks :
      (n : Node) (path : Text) → Checks (validate_led_stripe y neo n path) (IsLedStripe n)
  unfolding validate_led_stripe
  IsLedStripe-Checks n path = >>-Checks _ _ (rules-Checks y stripe_rules n path) (
      Holding-Checks y neo text (field n "ledType") _ _ (λ s.
        >>-Checks _ _
          (convert-Checks _ (if-Checks (resolve_led_type_value neo s == 0) _) (kind_of neo s)
            (kind-IsLedKind neo s))
          (>>-Checks _ _ (rules-Checks y stripe_size_rules n path) (
            >>-Checks _ _ (items-Checks y _ _ (rules-Checks y segment_rules) n "segments" path) (
              >>-Checks _ _ (items-Checks y _ _ IsLedEffect-Checks n "effects" path) (
                >>-Checks _ _ (IsLedBlock-Checks n "lamps" path) (
                  >>-Checks _ _ (IsLedBlock-Checks n "flashers" path)
                    (IsLedBlock-Checks n "gi" path))))))))

  abbrev pub IsGroups : Node → Type 0
  IsGroups n = (is_map n ≡ true) × AllGroups y neo (entries n)

  IsGroups-Checks : (n : Node) → Checks (validate_switch_groups y neo n) (IsGroups n)
  unfolding validate_switch_groups
  IsGroups-Checks n = demanded-Checks (is_map n) _ _ (groups_from-Checks y neo (entries n))

  -- A configuration that can be used.
  pub record IsValid (config : Node) : Type 0 where
    pub root : IsMap y config
    pub root_fields : RootFields y config
    pub board_list : IsList y (field config "boards")
    pub boards : ItemsHold y (BoardFields y) (items (field config "boards"))
    pub matrix :
        (is_defined (field config "switchMatrix") ≡ false) ⊎ IsMatrix (field config "switchMatrix")
    pub switches : OptionalItems y (SwitchFields y) (field config "switches")
    pub groups :
        (is_defined (field config "switchGroups") ≡ false) ⊎ IsGroups (field config "switchGroups")
    pub mappings : OptionalItems y (MappingFields y) (field config "coilGiMappings")
    pub pwm_outputs : OptionalItems y IsPwmOutput (field config "pwmOutput")
    pub led_stripes : OptionalItems y IsLedStripe (field config "ledStripes")

  board-Checks : (n : Node) (path : Text) → Checks (validate_board y neo n path) (BoardFields y n)
  unfolding validate_board
  board-Checks n path = rules-Checks y board_rules n path

  -- The validation accepts a configuration exactly when it is a map that has, in the root and in each
  -- board, switch, mapping, output, stripe, segment, LED and effect, all the fields that are needed,
  -- of the types that the program reads, and in optional fields only values of these types. The name
  -- of each group is neither empty nor `buttons`, and the group is a list of numbers; the kind of each
  -- stripe is an order of colours that the LED library knows; each trigger names a switch, a lamp or
  -- a light, and its value is 0 or 1; each LED effect has one to three colours; and each colour is a
  -- hexadecimal number of 32 bits, with nothing behind it, where spaces, a sign and `0x` may stand
  -- before the digits, and `#` before all that.
  pub validate_ppuc_configuration_lem :
      (config : Node) → (validate_ppuc_configuration y neo config ≡ ok tt) ↔ IsValid config
  unfolding validate_ppuc_configuration validate_sections
  validate_ppuc_configuration_lem config =
      convert-Checks _
        (>>-Checks _ _ (IsMap-Checks y config _) (
          >>-Checks _ _ (rules-Checks y root_rules config _) (
            >>-Checks _ _ (IsList-Checks y (field config "boards") _) (
              >>-Checks _ _ (each-Checks y _ _ board-Checks _ 0 (items (field config "boards"))) (
                >>-Checks _ _
                  (allowed-Checks (is_defined (field config "switchMatrix")) _
                    (IsMatrix-Checks (field config "switchMatrix") _))
                  (>>-Checks _ _
                    (items-Checks y _ _ (rules-Checks y switch_rules) config "switches" _)
                    (>>-Checks _ _
                      (allowed-Checks (is_defined (field config "switchGroups")) _
                        (IsGroups-Checks (field config "switchGroups")))
                      (>>-Checks _ _
                        (items-Checks y _ _ (rules-Checks y mapping_rules) config "coilGiMappings"
                          _)
                        (>>-Checks _ _ (items-Checks y _ _ IsPwmOutput-Checks config "pwmOutput" _)
                          (items-Checks y _ _ IsLedStripe-Checks config "ledStripes" _))))))))))
        (λ (a, (b, (c, (d, (e, (f, (g, (h, (i, j))))))))). record {
          root = a;
          root_fields = b;
          board_list = c;
          boards = d;
          matrix = e;
          switches = f;
          groups = g;
          mappings = h;
          pwm_outputs = i;
          led_stripes = j;
        })
        (λ v. (
          v.root,
          (
            v.root_fields,
            (
              v.board_list,
              (
                v.boards,
                (v.matrix, (v.switches, (v.groups, (v.mappings, (v.pwm_outputs, v.led_stripes))))),
              ),
            ),
          ),
        ))
