-- ===== src/Startup/Devices.antt =====
-- The configuration of boards, switches and PWM outputs in the startup of src/PPUC.cpp.

use Prim.{Unit, tt}
use libppuc.Common.{ℕ, ◌%◌, ◌^◌, Bool, true, false, List, [], ◌∷◌, push, mem, if◌then◌else◌}
use libppuc.Common.Text.{codes}
use libppuc.Protocol.{Protocol}
use libppuc.Boards.{register_switch_board}
use libppuc.Yaml.{Yaml, bool, text, u8, u32, Result, ok, err}
use libppuc.Settings.Fields.{list_of, read_node, config_item_context}
use libppuc.Settings.Groups.{is_set}
use libppuc.Settings.Thermal.{resolve_pwm_type}
use libppuc.Machine.{Platform}
use libppuc.Machine.Step.{◌>>=◌, ◌>>◌, pure, lift, modify, get, for_each}
use libppuc.Startup.Codes.{Topic, BoardCodes}
use libppuc.Startup.Modes.{resolve_pwm_effect_mode, resolve_switch_debounce_mode, repeat_value}
use libppuc.Startup.Send.{
  Act, on_comm, abort_early, send_config, send_series, send_named_trigger, send_simple_trigger,
}

-- The configured boards so far, and those that are polled.
pub record BoardLists : Type 0 where
  pub configured : List ℕ
  pub polled : List ℕ

module _ (y : Yaml) (p : Protocol) (k : BoardCodes) (platform_code : Platform → ℕ) where
  open y use {Node, is_defined, field, items}

  -- The events for a board that is not skipped.
  unfoldable pub configure_board : Node → ℕ → Act y Bool
  configure_board n b = do
    s ← get
    send_config y p k b Topic.platform 0 Topic.platform (platform_code s.platform)
    door ← lift (read_node y u8 (field s.config "coinDoorClosedSwitch"))
    send_config y p k b Topic.coin_door_closed_switch 0 Topic.number door
    modify (λ s. record s { coin_door_closed_switch = door })
    game_on ← lift (read_node y u8 (field s.config "gameOnSolenoid"))
    send_config y p k b Topic.game_on_solenoid 0 Topic.number game_on
    modify (λ s. record s { game_on_solenoid = game_on })
    polls ← lift (read_node y bool (field n "pollEvents"))
    on_comm y (if polls then register_switch_board b else λ c. c)
    abort_early y p k
    pure polls

  -- The loop over the boards.
  unfoldable pub configure_boards : List Node → BoardLists → Act y BoardLists
  unfolding configure_board
  configure_boards [] lists = pure lists
  configure_boards (n ∷ rest) lists = do
    b ← lift (read_node y u8 (field n "number"))
    s ← get
    let lists' : BoardLists = record lists { configured = push lists.configured b }
    polls ← if mem b s.skipped_boards then pure false else configure_board n b
    configure_boards rest
        (if polls then record lists' { polled = push lists'.polled b } else lists')

  -- The description that is printed for debugging.
  unfoldable pub print_description : Node → Act y (Unit {0})
  print_description n = do
    s ← get
    if s.debug then (lift (read_node y text (field n "description")) >>= λ _. pure tt) else pure tt

  -- `m_switches.push_back`
  unfoldable pub add_switch : Node → Act y (Unit {0})
  add_switch n = do
    board ← lift (read_node y u8 (field n "board"))
    port ← lift (read_node y u8 (field n "port"))
    number ← lift (read_node y u8 (field n "number"))
    description ← lift (read_node y text (field n "description"))
    button ← lift (is_set y n "button")
    modify (λ s. record s {
      switches = push s.switches (record {
        board = board;
        port = port;
        number = number;
        button = button;
        description = description;
      });
    })

  -- Sends a series for a board unless the board is skipped.
  unfoldable pub unless_skipped : ℕ → Act y (Unit {0}) → Act y (Unit {0})
  unless_skipped board act = do s ← get; if mem board s.skipped_boards then pure tt else act

  unfoldable pub configure_matrix_switch : Node → Act y (Unit {0})
  unfolding print_description add_switch unless_skipped
  configure_matrix_switch n = do
    print_description n
    board ← lift (read_node y u8 (field n "board"))
    unless_skipped board (
        send_series y p k board Topic.switch_matrix 0 (
          (Topic.port, read_node y u32 (field n "port"))
          ∷ (Topic.number, read_node y u32 (field n "number"))
          ∷ [])
        >>= λ _. pure tt)
    add_switch n

  -- `static_cast` of a truth value.
  abbrev as_number : Result Bool → Result ℕ
  as_number (ok true) = ok 1
  as_number (ok false) = ok 0
  as_number (err e) = err e

  -- The switch matrix, which comes before the single switches.
  unfoldable pub configure_matrix : Node → Act y (Unit {0})
  unfolding configure_matrix_switch
  configure_matrix n = do
    board ← lift (read_node y u8 (field n "board"))
    unless_skipped board (do
      _ ← send_series y p k board Topic.switch_matrix 0 (
          (Topic.active_low, as_number (read_node y bool (field n "activeLow")))
          ∷ (Topic.num_rows, read_node y u8 (field n "rows"))
          ∷ [])
      for_each configure_matrix_switch (list_of y (field n "switches")))

  unfoldable pub configure_switch : Node → Act y (Unit {0})
  unfolding print_description add_switch unless_skipped
  configure_switch n = do
    print_description n
    board ← lift (read_node y u8 (field n "board"))
    let mode =
        if is_defined (field n "debounceMode")
        then field n "debounceMode"
        else field n "debounce_mode"
    unless_skipped board (
        send_series y p k board Topic.switches 0 (
          (Topic.port, read_node y u32 (field n "port"))
          ∷ (Topic.number, read_node y u32 (field n "number"))
          ∷ (Topic.debounce_time, read_node y u32 (field n "debounce"))
          ∷ (Topic.mode, resolve_switch_debounce_mode y k mode)
          ∷ [])
        >>= λ _. pure tt)
    add_switch n
    abort_early y p k

  unfoldable pub configure_pwm_effect : ℕ → ℕ → Node → Act y (Unit {0})
  configure_pwm_effect board port n = do
    _ ← send_series y p k board Topic.pwm_effect 0 (
        (Topic.port, ok port)
        ∷ (Topic.duration, read_node y u32 (field n "duration"))
        ∷ (Topic.effect, resolve_pwm_effect_mode y k (field n "effect"))
        ∷ (Topic.frequency, read_node y u32 (field n "frequency"))
        ∷ (Topic.max_intensity, read_node y u32 (field n "maxIntensity"))
        ∷ (Topic.min_intensity, read_node y u32 (field n "minIntensity"))
        ∷ (Topic.mode, read_node y u32 (field n "mode"))
        ∷ (Topic.priority, read_node y u32 (field n "priority"))
        ∷ (Topic.repeat, repeat_value y (field n "repeat"))
        ∷ [])
    send_named_trigger y p k n Topic.pwm_effect board port
    send_simple_trigger y p k n Topic.pwm_effect board port
        (config_item_context y n (codes "pwmOutput.effects"))
    abort_early y p k

  -- `m_coils.push_back`
  unfoldable pub add_coil : Node → ℕ → Act y (Unit {0})
  add_coil n kind = do
    board ← lift (read_node y u8 (field n "board"))
    port ← lift (read_node y u8 (field n "port"))
    number ← lift (read_node y u8 (field n "number"))
    description ← lift (read_node y text (field n "description"))
    ball_search ← lift (is_set y n "ballSearch")
    modify (λ s. record s {
      coils = push s.coils (record {
        board = board;
        port = port;
        kind = kind % 2 ^ 8;
        number = number;
        ball_search = ball_search;
        description = description;
      });
    })

  -- An output of a board that is not skipped.
  unfoldable pub configure_output : ℕ → Node → Act y (Unit {0})
  unfolding configure_pwm_effect add_coil
  configure_output board n = do
    print_description n
    s ← get
    port ← lift (read_node y u32 (field n "port"))
    _ ← send_series y p k board Topic.pwm 0 (
        (Topic.port, ok port)
        ∷ (Topic.number, read_node y u32 (field n "number"))
        ∷ (Topic.power, read_node y u32 (field n "power"))
        ∷ (Topic.min_pulse_time, read_node y u32 (field n "minPulseTime"))
        ∷ (Topic.max_pulse_time, read_node y u32 (field n "maxPulseTime"))
        ∷ (Topic.hold_power, read_node y u32 (field n "holdPower"))
        ∷ (Topic.hold_power_activation_time, read_node y u32 (field n "holdPowerActivationTime"))
        ∷ (
          Topic.fast_switch,
          if s.disable_fast_flip_for_tests
              then ok 0
              else read_node y u32 (field n "fastFlipSwitch"),
        )
        ∷ [])
    name ← lift (read_node y text (field n "type"))
    let kind = resolve_pwm_type k.pwm_types name
    send_config y p k board Topic.pwm 8 Topic.kind kind
    for_each (configure_pwm_effect board port) (list_of y (field n "effects"))
    add_coil n kind
    abort_early y p k

  unfoldable pub configure_pwm_output : Node → Act y (Unit {0})
  unfolding configure_output unless_skipped
  configure_pwm_output n = do
    board ← lift (read_node y u8 (field n "board"))
    unless_skipped board (configure_output board n)
