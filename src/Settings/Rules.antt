-- ===== src/Settings/Rules.antt =====
-- The fields that the callbacks of `ValidatePpucConfiguration` (src/PPUC.cpp) check, as lists.
use libppuc.Common.{List, [], ◌∷◌}
use libppuc.Yaml.{bool, text, u8, u32, i16}
use libppuc.Settings.Fields.{Rule, required, optional, effect_mode}

-- The fields that each callback checks, in the order of its calls.
abbrev pub led_rules : List Rule
led_rules = required text "description" ∷ required u32 "number" ∷ required u32 "ledNumber" ∷ []

abbrev pub trigger_rules : List Rule
trigger_rules = required text "source" ∷ required u32 "number" ∷ required u32 "value" ∷ []

abbrev pub root_rules : List Rule
root_rules =
    required bool "debug"
    ∷ required text "rom"
    ∷ required text "serialPort"
    ∷ required text "platform"
    ∷ required u8 "coinDoorClosedSwitch"
    ∷ required u8 "gameOnSolenoid"
    ∷ []

abbrev pub board_rules : List Rule
board_rules = required u8 "number" ∷ required bool "pollEvents" ∷ []

abbrev pub matrix_rules : List Rule
matrix_rules = required u8 "board" ∷ required bool "activeLow" ∷ required u8 "rows" ∷ []

abbrev pub matrix_switch_rules : List Rule
matrix_switch_rules =
    required text "description"
    ∷ required u8 "board"
    ∷ required u32 "port"
    ∷ required u32 "number"
    ∷ optional bool "button"
    ∷ []

abbrev pub switch_rules : List Rule
switch_rules =
    required text "description"
    ∷ required u8 "board"
    ∷ required u32 "port"
    ∷ required u32 "number"
    ∷ required u32 "debounce"
    ∷ optional text "debounceMode"
    ∷ optional text "debounce_mode"
    ∷ optional bool "button"
    ∷ []

abbrev pub mapping_rules : List Rule
mapping_rules =
    required u32 "coil"
    ∷ required u32 "gi"
    ∷ optional u32 "onBrightness"
    ∷ optional u32 "offBrightness"
    ∷ []

abbrev pub pwm_rules : List Rule
pwm_rules =
    required text "description"
    ∷ required u8 "board"
    ∷ required u32 "port"
    ∷ required u32 "number"
    ∷ required u32 "power"
    ∷ required u32 "minPulseTime"
    ∷ required u32 "maxPulseTime"
    ∷ required u32 "holdPower"
    ∷ required u32 "holdPowerActivationTime"
    ∷ required u32 "fastFlipSwitch"
    ∷ required text "type"
    ∷ optional bool "ballSearch"
    ∷ optional bool "dualWinding"
    ∷ optional u32 "eosSwitch"
    ∷ []

abbrev pub pwm_effect_rules : List Rule
pwm_effect_rules =
    required u32 "duration"
    ∷ effect_mode "effect"
    ∷ required u32 "frequency"
    ∷ required u32 "maxIntensity"
    ∷ required u32 "minIntensity"
    ∷ required u32 "mode"
    ∷ required u32 "priority"
    ∷ required i16 "repeat"
    ∷ []

abbrev pub stripe_rules : List Rule
stripe_rules = required u8 "board" ∷ required u32 "port" ∷ required text "ledType" ∷ []

abbrev pub stripe_size_rules : List Rule
stripe_size_rules =
    required u32 "brightness"
    ∷ required u32 "amount"
    ∷ required u32 "afterGlow"
    ∷ required u32 "lightUp"
    ∷ []

abbrev pub segment_rules : List Rule
segment_rules = required u32 "number" ∷ required u32 "from" ∷ required u32 "to" ∷ []

abbrev pub led_effect_rules : List Rule
led_effect_rules =
    required u32 "duration"
    ∷ effect_mode "effect"
    ∷ required u32 "reverse"
    ∷ optional u32 "fadeRate"
    ∷ optional bool "gamma"
    ∷ optional u32 "size"
    ∷ optional u32 "options"
    ∷ required u32 "speed"
    ∷ required u32 "mode"
    ∷ required u32 "priority"
    ∷ required i16 "repeat"
    ∷ []
