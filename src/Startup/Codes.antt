-- ===== src/Startup/Codes.antt =====
-- The constants of io-boards/Event.h that the startup in src/PPUC.cpp uses (the build fetches that
-- header), and its hash of the name of a trigger.
use libppuc.Common.{ℕ}
use libppuc.Common.Text.{Text}
use libppuc.Settings.Thermal.{PwmTypes}

-- The CONFIG_TOPIC_ constants.
pub data Topic : Type 0 where
  platform coin_door_closed_switch game_on_solenoid number switch_matrix active_low : Topic
  num_rows port switches debounce_time mode pwm power min_pulse_time max_pulse_time : Topic
  hold_power hold_power_activation_time fast_switch kind pwm_effect duration effect : Topic
  frequency max_intensity min_intensity priority repeat trigger source value led_string : Topic
  brightness amount_leds after_glow light_up led_segment from to led_effect color color_2 : Topic
  color_3 reverse speed options lamps led_number switch_chain next_board : Topic
  switch_reply_delay_us : Topic

pub record BoardCodes : Type 0 where
  pub topic : Topic → ℕ
  pub pwm_types : PwmTypes
  pub pwm_effect_sine : ℕ
  pub pwm_effect_ramp_down_stop : ℕ
  pub pwm_effect_impulse : ℕ
  pub switch_debounce_standard : ℕ
  pub switch_debounce_fast_flip : ℕ
  pub switch_debounce_slow_stable : ℕ
  pub led_type_lamp : ℕ
  pub led_type_flasher : ℕ
  pub led_type_gi : ℕ
  pub event_source_switch : ℕ
  pub hash_named_trigger_id : Text → ℕ
