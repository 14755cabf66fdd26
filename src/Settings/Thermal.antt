-- ===== src/Settings/Thermal.antt =====
-- `ResolvePwmType`, `PwmTypeNeedsThermalProtection` and `WarnAboutUnprotectedSolenoids` of
-- src/PPUC.cpp.

use libppuc.Common.{ℕ, ◌+◌, Bool, ◌&&◌, ◌||◌, List, [], ◌∷◌, ◌++◌, if◌then◌else◌, ltb, ◌!=◌}
use libppuc.Common.Text.{Text, codes, decimal, text_eq}
use libppuc.Yaml.{Yaml, text, u32, Result, ok, ◌>>=◌}
use libppuc.Settings.Fields.{read_node, format_location, has_sequence_items}
use libppuc.Settings.Groups.{is_set}

-- The PWM_TYPE_ constants of io-boards/Event.h.
pub record PwmTypes : Type 0 where
  pub solenoid : ℕ
  pub flasher : ℕ
  pub lamp : ℕ
  pub motor : ℕ
  pub shaker : ℕ

-- What is printed of a coil: its path, description and number, and where it stands.
pub record Warning : Type 0 where
  pub path : Text
  pub description : Text
  pub number : ℕ
  pub location : Text

module _ (t : PwmTypes) where
  -- ResolvePwmType
  unfoldable pub resolve_pwm_type : Text → ℕ
  resolve_pwm_type s =
      if text_eq s (codes "flasher")
      then t.flasher
      else if text_eq s (codes "lamp")
      then t.lamp
      else if text_eq s (codes "motor")
      then t.motor
      else if text_eq s (codes "shaker")
      then t.shaker
      else t.solenoid

  -- PwmTypeNeedsThermalProtection
  unfoldable pub needs_thermal_protection : Text → Bool
  unfolding resolve_pwm_type
  needs_thermal_protection s = resolve_pwm_type s != t.lamp

module _ (y : Yaml) (t : PwmTypes) where
  open y use {Node, is_defined, field, items, position}

  -- `maxPulseTime > 0 || (holdPower > 0 && holdPowerActivationTime > 0) || dualWinding`
  abbrev pub is_protected : ℕ → ℕ → ℕ → Bool → Bool
  is_protected pulse hold activation dual = ltb 0 pulse || (ltb 0 hold && ltb 0 activation || dual)

  unfoldable pub warning_for : Node → ℕ → Result Warning
  warning_for n i = do
    description ←
        if is_defined (field n "description")
        then read_node y text (field n "description")
        else ok []
    number ← read_node y u32 (field n "number")
    ok (record {
      path = codes "pwmOutput[" ++ (decimal i ++ codes "]");
      description = description;
      number = number;
      location = format_location (position n);
    })

  -- One round of the loop: the warning that it prints, if any.
  unfoldable pub check_output : Node → ℕ → Result (List Warning)
  unfolding warning_for
  check_output n i = do
    pulse ← read_node y u32 (field n "maxPulseTime")
    hold ← read_node y u32 (field n "holdPower")
    activation ← read_node y u32 (field n "holdPowerActivationTime")
    dual ← is_set y n "dualWinding"
    if is_protected pulse hold activation dual then ok [] else warning_for n i >>= λ w. ok (w ∷ [])

  unfoldable pub warn_from : ℕ → List Node → Result (List Warning)
  unfolding check_output
  warn_from i [] = ok []
  warn_from i (n ∷ ns) = do
    kind ← read_node y text (field n "type")
    here ← if needs_thermal_protection t kind then check_output n i else ok []
    rest ← warn_from (i + 1) ns
    ok (here ++ rest)

  -- WarnAboutUnprotectedSolenoids
  unfoldable pub warn_about_unprotected_solenoids : Node → Result (List Warning)
  unfolding warn_from
  warn_about_unprotected_solenoids config =
      let n = field config "pwmOutput" in
      if has_sequence_items y n then warn_from 0 (items n) else ok []
