-- ===== src/Examples/Starting.antt =====
-- PPUC::Connect at work on a configuration of one board, two switches and one coil.
use libppuc.Common.{ℕ, ◌≤◌, ◌≡◌, refl, true, false, [], ◌∷◌, mem, get_or, get_or-replicate, arith}
use Prim.{tt}
use libppuc.Protocol.Sample.{sample, sample-ConfigFrameLaws}
use libppuc.Boards.Mapping.{IsInverse}
use libppuc.Config.Abort.{IsCounted}
use libppuc.Common.Sorted.{insert_unique}
use libppuc.Settings.Fields.{
  read_node, validate_required_map, require_node, validate_rules, validate_rule,
  validate_required_field, read_required_field, validate_required_sequence, validate_each,
  validate_optional_items, validate_optional_sequence, validate_optional_field,
}
use libppuc.Yaml.{ok}
use libppuc.Machine.{Ppuc, Platform}
use libppuc.Startup.Codes.{BoardCodes}
use libppuc.Startup.Numbers.{Numbers, collect_numbers, runtime_config_of, mapping_of}
use libppuc.Startup.Devices.{BoardLists, configure_boards, configure_pwm_output, configure_switch}
use libppuc.Startup.Attempt.{announced, connect_ppuc}
use libppuc.Startup.Skipped.{connect_ppuc-Absent, connect_ppuc-IsCounted}
use libppuc.Startup.Success.{connect_ppuc-Answered}
use libppuc.Startup.Mapping.{announced-IsInverse}
use libppuc.Settings.Validate.{
  validate_ppuc_configuration, validate_board, validate_sections, validate_pwm_output,
}
use libppuc.Session.{
  connect, restart_boards, set_runtime_config, send_setup_frame, send_mapping_frames,
  send_mapping_frame,
}
use libppuc.Port.{write_bytes, flush_input}
use libppuc.Machine.Step.{◌>>=◌, modify, get, lift, pure, abort_if, for_each, demand}
use libppuc.Startup.Send.{abort_early, on_comm, ask}
use libppuc.Config.{should_abort}
use libppuc.Boards.{
  set_skipped_boards, set_switch_numbers_by_board, rebuild_ownership_masks, set_configured_boards,
  set_mappings, set_active_switch_boards, finalize_configured_board_presence, finalize_presence,
  virtualize, virtualize_one,
}
use libppuc.Api.{set_button_switch_numbers}
use libppuc.Examples.Table.{table}
use libppuc.Examples.Document.{documents, machine, orders, types, fresh}

abbrev board_codes : BoardCodes
board_codes = record {
  topic = λ t. 1;
  pwm_types = types;
  pwm_effect_sine = 1;
  pwm_effect_ramp_down_stop = 2;
  pwm_effect_impulse = 3;
  switch_debounce_standard = 0;
  switch_debounce_fast_flip = 1;
  switch_debounce_slow_stable = 2;
  led_type_lamp = 1;
  led_type_flasher = 2;
  led_type_gi = 3;
  event_source_switch = 1;
  hash_named_trigger_id = λ s. 7;
}

abbrev platform_code : Platform → ℕ
platform_code q = 1

-- Board 2, which the file has, is to be skipped; board 5 is another that is.
abbrev without : Ppuc documents
without = record fresh { skipped_boards = 2 ∷ 5 ∷ [] }

connect_ppuc-Absent_example :
    mem 5
      (connect_ppuc documents sample board_codes platform_code orders true
        without).1.comm.boards.present
    ≡ false
connect_ppuc-Absent_example =
    connect_ppuc-Absent documents sample board_codes platform_code orders sample-ConfigFrameLaws
      true without 5 refl refl

-- With board 2 skipped nothing has to be acknowledged.
starts : (connect_ppuc documents sample board_codes platform_code orders true without).0 ≡ true
unfolding connect_ppuc validate_ppuc_configuration validate_required_map require_node validate_rules
    validate_rule validate_required_field read_required_field validate_required_sequence
    validate_each validate_board validate_sections validate_optional_items
    validate_optional_sequence validate_pwm_output validate_optional_field connect restart_boards
    write_bytes flush_input ◌>>=◌ modify get configure_boards lift read_node pure abort_early
    abort_if should_abort collect_numbers on_comm announced set_skipped_boards
    set_button_switch_numbers set_switch_numbers_by_board rebuild_ownership_masks
    set_configured_boards set_runtime_config runtime_config_of insert_unique set_mappings for_each
    configure_pwm_output set_active_switch_boards finalize_configured_board_presence
    finalize_presence virtualize virtualize_one ask demand send_setup_frame send_mapping_frames
    mapping_of send_mapping_frame configure_switch
starts = refl

connect_ppuc-Answered_example :
    let s = (connect_ppuc documents sample board_codes platform_code orders true without).1 in
    (validate_ppuc_configuration documents orders machine ≡ ok tt)
    × (true ≡ true)
    × (s.comm.config.failed ≡ false)
    × (s.comm.config.failed_boards ≡ [])
connect_ppuc-Answered_example =
    connect_ppuc-Answered documents sample board_codes platform_code orders true without starts

fresh_small : (i : ℕ) → get_or fresh.comm.config.misses_by_board i 0 ≤ 10
fresh_small i = rw (get_or-replicate {A = ℕ} 8 i 0) (omega arith)

connect_ppuc-IsCounted_example :
    IsCounted
      (connect_ppuc documents sample board_codes platform_code orders true fresh).1.comm.config
connect_ppuc-IsCounted_example =
    connect_ppuc-IsCounted documents sample board_codes platform_code orders true fresh
      (record { streak = omega arith; each = fresh_small })

-- The numbers of the file: its coil and the one that switches the game on, and its switches.
abbrev numbers : Numbers
numbers = record {
  coils = 9 ∷ 31 ∷ [];
  lamps = [];
  switches = 20 ∷ 24 ∷ [];
  buttons = 24 ∷ [];
  by_board = (2, 24 ∷ 20 ∷ []) ∷ [];
}

collected : collect_numbers documents [] 31 machine ≡ ok numbers
unfolding collect_numbers read_node insert_unique
collected = refl

abbrev lists : BoardLists
lists = record { configured = 2 ∷ []; polled = 2 ∷ [] }

announced-IsInverse_example :
    let m = (announced sample lists numbers [] table).mappings in
    IsInverse m.coil_index_to_number m.coil_number_to_index
    × IsInverse m.lamp_index_to_number m.lamp_number_to_index
    × IsInverse m.switch_index_to_number m.switch_number_to_index
announced-IsInverse_example =
    announced-IsInverse documents sample lists [] 31 machine numbers table collected
