-- ===== src/Startup/Stripes.antt =====
-- The configuration of LED stripes in the startup of src/PPUC.cpp.

use Prim.{Unit, tt}
use libppuc.Common.{ℕ, ◌+◌, ◌%◌, ◌^◌, List, [], ◌∷◌, ◌++◌, push, get_or, if◌then◌else◌, ◌==◌}
use libppuc.Common.Text.{Text, codes, decimal}
use libppuc.Protocol.{Protocol}
use libppuc.Config.{should_abort}
use libppuc.Yaml.{Yaml, text, u8, u32, ok}
use libppuc.Settings.Fields.{
  list_of, format_location, read_node, read_required_field, config_item_context,
  optional_string_field,
}
use libppuc.Settings.Color.{
  parse_required_hex_color_field, build_led_effect_colors, build_ws2812fx_options,
}
use libppuc.Settings.Led.{LedOrder, resolve_led_type_value}
use libppuc.Machine.{Platform}
use libppuc.Machine.Step.{◌>>=◌, ◌>>◌, pure, lift, modify, get, for_each}
use libppuc.Startup.Codes.{Topic, BoardCodes}
use libppuc.Startup.Modes.{resolve_led_effect_mode, repeat_value}
use libppuc.Startup.Send.{Act, abort_early, send_series, send_named_trigger, send_simple_trigger}
use libppuc.Startup.Devices.{unless_skipped}

-- LedConfigBlockName
unfoldable pub led_config_block_name : BoardCodes → ℕ → Text
led_config_block_name k kind =
    if kind == k.led_type_lamp
    then codes "ledStripes.lamps"
    else if kind == k.led_type_flasher
    then codes "ledStripes.flashers"
    else if kind == k.led_type_gi
    then codes "ledStripes.gi"
    else codes "ledStripes.<unknown>"

module _ (y : Yaml) (p : Protocol) (k : BoardCodes) (platform_code : Platform → ℕ)
    (neo : LedOrder → ℕ) where
  open y use {Node, is_defined, field, items, position}

  abbrev quoted : Text → Text
  quoted [] = []
  quoted (c ∷ s) = codes ", description '" ++ ((c ∷ s) ++ codes "'")

  -- LedConfigItemContext
  unfoldable pub led_config_item_context : Node → ℕ → ℕ → ℕ → ℕ → Text
  unfolding led_config_block_name
  led_config_item_context n kind board port i =
      led_config_block_name k kind
      ++ (codes "["
          ++ (decimal i
              ++ (codes "] on board "
                  ++ (decimal board
                      ++ (codes ", port "
                          ++ (decimal port
                              ++ (quoted (optional_string_field y n "description")
                                  ++ (codes " ("
                                      ++ (format_location (position n) ++ codes ")")))))))))

  -- One round of SendLedConfigBlock after the check for an early end.
  unfoldable pub send_led : ℕ → ℕ → ℕ → Text → Node → Act y (Unit {0})
  send_led kind board port context n = do
    description ← lift (read_required_field y text n "description" context)
    number ← lift (read_required_field y u32 n "number" context)
    led_number ← lift (read_required_field y u32 n "ledNumber" context)
    color ← lift (parse_required_hex_color_field y n "color" context)
    _ ← send_series y p k board Topic.lamps 0 (
        (Topic.port, ok port)
        ∷ (Topic.kind, ok kind)
        ∷ (Topic.number, ok number)
        ∷ (Topic.led_number, ok led_number)
        ∷ (Topic.color, ok color)
        ∷ [])
    modify (λ s. record s {
      lamps = push s.lamps (record {
        board = board;
        port = port % 2 ^ 8;
        kind = kind % 2 ^ 8;
        number = number % 2 ^ 8;
        description = description;
        color = color;
      });
    })

  -- SendLedConfigBlock from item `i` on; it returns where the configuration is to end early.
  unfoldable pub send_leds : ℕ → ℕ → ℕ → ℕ → List Node → Act y (Unit {0})
  unfolding send_led led_config_item_context
  send_leds kind board port i [] = pure tt
  send_leds kind board port i (n ∷ rest) = do
    s ← get
    if should_abort p s.comm
        then pure tt
        else (send_led kind board port (led_config_item_context n kind board port i) n
            >> send_leds kind board port (i + 1) rest)

  unfoldable pub send_led_config_block : Node → ℕ → ℕ → ℕ → Act y (Unit {0})
  unfolding send_leds
  send_led_config_block n kind board port = send_leds kind board port 0 (list_of y n)

  -- The segments of a stripe, whose events count their index on.
  unfoldable pub configure_segments : ℕ → ℕ → ℕ → List Node → Act y (Unit {0})
  configure_segments board port index [] = pure tt
  configure_segments board port index (n ∷ rest) = do
    index' ← send_series y p k board Topic.led_segment index (
        (Topic.port, ok port)
        ∷ (Topic.number, read_node y u32 (field n "number"))
        ∷ (Topic.from, read_node y u32 (field n "from"))
        ∷ (Topic.to, read_node y u32 (field n "to"))
        ∷ [])
    abort_early y p k
    configure_segments board port index' rest

  unfoldable pub configure_led_effect : ℕ → ℕ → Node → Act y (Unit {0})
  configure_led_effect board port n = do
    _ ←
        send_series y p k board Topic.led_effect 0
          ((Topic.port, ok port) ∷ (Topic.led_segment, read_node y u32 (field n "segment")) ∷ [])
    colors ←
        lift (build_led_effect_colors y n (config_item_context y n (codes "ledStripes.effects")))
    _ ← send_series y p k board Topic.led_effect 2 (
        (Topic.color, ok (get_or colors 0 0))
        ∷ (Topic.color_2, ok (get_or colors 1 0))
        ∷ (Topic.color_3, ok (get_or colors 2 0))
        ∷ (Topic.duration, read_node y u32 (field n "duration"))
        ∷ (Topic.effect, resolve_led_effect_mode y (field n "effect"))
        ∷ (Topic.reverse, read_node y u32 (field n "reverse"))
        ∷ (Topic.speed, read_node y u32 (field n "speed"))
        ∷ (Topic.mode, read_node y u32 (field n "mode"))
        ∷ (Topic.priority, read_node y u32 (field n "priority"))
        ∷ (Topic.options, build_ws2812fx_options y n)
        ∷ (Topic.repeat, repeat_value y (field n "repeat"))
        ∷ [])
    send_named_trigger y p k n Topic.led_effect board port
    send_simple_trigger y p k n Topic.led_effect board port
        (config_item_context y n (codes "ledStripes.effects"))
    abort_early y p k

  -- A stripe of a board that is not skipped.
  unfoldable pub configure_stripe_on : ℕ → Node → Act y (Unit {0})
  unfolding configure_segments configure_led_effect send_led_config_block
  configure_stripe_on board n = do
    port ← lift (read_node y u32 (field n "port"))
    _ ← send_series y p k board Topic.led_string 0 ((Topic.port, ok port) ∷ [])
    name ← lift (read_node y text (field n "ledType"))
    index ← send_series y p k board Topic.led_string 1 (
        (Topic.kind, ok (resolve_led_type_value neo name))
        ∷ (Topic.brightness, read_node y u32 (field n "brightness"))
        ∷ (Topic.amount_leds, read_node y u32 (field n "amount"))
        ∷ (Topic.after_glow, read_node y u32 (field n "afterGlow"))
        ∷ (Topic.light_up, read_node y u32 (field n "lightUp"))
        ∷ [])
    configure_segments board port index (list_of y (field n "segments"))
    for_each (configure_led_effect board port) (list_of y (field n "effects"))
    send_led_config_block (field n "lamps") k.led_type_lamp board port
    send_led_config_block (field n "flashers") k.led_type_flasher board port
    send_led_config_block (field n "gi") k.led_type_gi board port
    abort_early y p k

  unfoldable pub configure_led_stripe : Node → Act y (Unit {0})
  unfolding configure_stripe_on
  configure_led_stripe n = do
    board ← lift (read_node y u8 (field n "board"))
    unless_skipped y p k platform_code board (configure_stripe_on board n)
