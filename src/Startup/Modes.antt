-- ===== src/Startup/Modes.antt =====
-- Effects and modes by name: `IsDecimalScalar`, `ResolveLedEffectMode`, `ResolvePwmEffectMode`,
-- `ResolveSwitchDebounceMode` and `ResolveSimpleTriggerSource` of src/PPUC.cpp.
use Prim.Native.String.{String}
use libppuc.Common.{
  ℕ, zero, suc, Bool, true, false, ◌&&◌, ◌||◌, none, some, List, [], ◌∷◌, ◌++◌, if◌then◌else◌,
}
use libppuc.Common.Text.{Text, codes, text_eq}
use libppuc.Common.Ints.{pos, negsuc}
use libppuc.Protocol.{Protocol}
use libppuc.Yaml.{Yaml, text, u32, i16, yaml_error, runtime_error, Result, ok, err, ◌>>=◌}
use libppuc.Skipped.{is_digit}
use libppuc.Settings.Fields.{read_node}
use libppuc.Settings.Led.{find}
use libppuc.Startup.Codes.{BoardCodes}

abbrev pub all_digits : Text → Bool
all_digits [] = true
all_digits (c ∷ s) = is_digit c && all_digits s

-- IsDecimalScalar
unfoldable pub is_decimal_scalar : Text → Bool
is_decimal_scalar [] = false
is_decimal_scalar (c ∷ s) = all_digits (c ∷ s)

abbrev pub led_modes : List (Text × ℕ)
led_modes =
    (codes "static", 0)
    ∷ (codes "blink", 1)
    ∷ (codes "breath", 2)
    ∷ (codes "color_wipe", 3)
    ∷ (codes "scan", 13)
    ∷ (codes "running_lights", 18)
    ∷ (codes "twinkle_fade_random", 22)
    ∷ (codes "sparkle", 23)
    ∷ (codes "strobe", 26)
    ∷ (codes "chase_rainbow", 33)
    ∷ (codes "running_color", 40)
    ∷ (codes "running_random", 42)
    ∷ (codes "larson_scanner", 43)
    ∷ (codes "comet", 44)
    ∷ (codes "fireworks", 45)
    ∷ (codes "fire_flicker", 48)
    ∷ (codes "tricolor_chase", 54)
    ∷ (codes "twinklefox", 55)
    ∷ (codes "rain", 56)
    ∷ (codes "heartbeat", 64)
    ∷ (codes "multi_comet", 66)
    ∷ (codes "popcorn", 68)
    ∷ (codes "oscillator", 69)
    ∷ []

module _ (y : Yaml) where
  open y use {Node, is_defined, position}

  -- The number that a node holds or names, by a table; `what` begins the message of the exception.
  unfoldable pub resolve_mode : List (Text × ℕ) → String → Node → Result ℕ
  unfolding is_decimal_scalar
  resolve_mode modes what n = do
    value ← read_node y text n
    let named : Result ℕ = elim (find value modes) [
      | none ↦ err (yaml_error (position n) (codes what ++ (codes " '" ++ (value ++ codes "'"))))
      | some mode ↦ ok mode
    ]
    if is_decimal_scalar value then read_node y u32 n else named

  -- ResolveLedEffectMode
  unfoldable pub resolve_led_effect_mode : Node → Result ℕ
  unfolding resolve_mode
  resolve_led_effect_mode = resolve_mode led_modes "unknown LED effect"

  -- The conversion of `repeat`: -1 and -2 are 255 and 254.
  unfoldable pub repeat_value : Node → Result ℕ
  repeat_value n = do
    r ← read_node y i16 n
    let plain = read_node y u32 n
    elim r [
      | pos v ↦ plain
      | negsuc v ↦ elim v [ zero ↦ ok 255 | suc w ↦ elim w [ zero ↦ ok 254 | suc x ↦ plain ] ]
    ]

module _ (y : Yaml) (k : BoardCodes) where
  open y use {Node, is_defined}

  abbrev pub pwm_modes : List (Text × ℕ)
  pwm_modes =
      (codes "sine", k.pwm_effect_sine)
      ∷ (codes "ramp_down_stop", k.pwm_effect_ramp_down_stop)
      ∷ (codes "impulse", k.pwm_effect_impulse)
      ∷ []

  -- ResolvePwmEffectMode
  unfoldable pub resolve_pwm_effect_mode : Node → Result ℕ
  unfolding resolve_mode
  resolve_pwm_effect_mode = resolve_mode y pwm_modes "unknown PWM effect"

  abbrev pub debounce_modes : List (Text × ℕ)
  debounce_modes =
      (codes "standard", k.switch_debounce_standard)
      ∷ (codes "fastFlip", k.switch_debounce_fast_flip)
      ∷ (codes "fast_flip", k.switch_debounce_fast_flip)
      ∷ (codes "slowStable", k.switch_debounce_slow_stable)
      ∷ (codes "slow_stable", k.switch_debounce_slow_stable)
      ∷ []

  -- ResolveSwitchDebounceMode
  unfoldable pub resolve_switch_debounce_mode : Node → Result ℕ
  unfolding resolve_mode
  resolve_switch_debounce_mode n =
      if is_defined n
      then resolve_mode y debounce_modes "unknown switch debounce mode" n
      else ok k.switch_debounce_standard

-- ResolveSimpleTriggerSource
unfoldable pub resolve_simple_trigger_source : Protocol → BoardCodes → Text → Result ℕ
resolve_simple_trigger_source p k s =
    if text_eq s (codes "switch")
    then ok k.event_source_switch
    else if text_eq s (codes "lamp") || text_eq s (codes "light")
    then ok p.event_source_light
    else err (runtime_error (codes "unsupported simple trigger source '" ++ (s ++ codes "'")))
