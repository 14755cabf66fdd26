-- ===== src/Startup/Attempt.antt =====
-- A startup attempt, and PPUC::Connect around it (src/PPUC.cpp).

use Prim.{Unit, tt}
use libppuc.Common.{ℕ, Bool, true, false, not, List, [], ◌∷◌, if◌then◌else◌}
use libppuc.Common.Ints.{pos}
use libppuc.Protocol.{Protocol}
use libppuc.State.{Comm}
use libppuc.Boards.{
  set_mappings, set_configured_boards, set_switch_numbers_by_board, set_skipped_boards,
  finalize_configured_board_presence, set_active_switch_boards, is_board_present,
}
use libppuc.Session.{
  connect, restart_boards, reset_boards, set_runtime_config, send_setup_frame, send_mapping_frames,
}
use libppuc.Runtime.{start}
use libppuc.Api.{set_button_switch_numbers, set_gi_state}
use libppuc.Yaml.{Yaml, ok, err}
use libppuc.Settings.Led.{LedOrder}
use libppuc.Settings.Validate.{validate_ppuc_configuration}
use libppuc.Machine.{Ppuc, Platform, wpc}
use libppuc.Machine.Step.{
  Outcome, value, thrown, aborted, overflow, ◌>>=◌, ◌>>◌, pure, lift, modify, get, demand, abort_if,
  for_each,
}
use libppuc.Settings.Fields.{list_of}
use libppuc.Startup.Codes.{Topic, BoardCodes}
use libppuc.Startup.Numbers.{Numbers, collect_numbers, mapping_of, runtime_config_of}
use libppuc.Startup.Send.{Act, on_comm, ask, abort_early, send_config}
use libppuc.Startup.Devices.{
  BoardLists, configure_boards, configure_matrix, configure_switch, configure_pwm_output,
}
use libppuc.Startup.Stripes.{configure_led_stripe}

abbrev is_wpc : Platform → Bool
is_wpc wpc = true
is_wpc other = false

-- The setters in the middle of the startup.
unfoldable pub announced : Protocol → BoardLists → Numbers → List ℕ → Comm → Comm
announced p lists ns skipped c = set_skipped_boards skipped (
    set_button_switch_numbers ns.buttons (
      set_switch_numbers_by_board p ns.by_board (
        set_configured_boards lists.configured (
          set_runtime_config p (runtime_config_of p ns) (
            set_mappings p (mapping_of p.max_coil_bits ns.coils)
              (mapping_of p.max_lamp_bits ns.lamps) (mapping_of p.max_switch_bits ns.switches)
              c)))))

module _ (y : Yaml) (p : Protocol) (k : BoardCodes) (platform_code : Platform → ℕ)
    (neo : LedOrder → ℕ) where
  open y use {Node, is_defined, field, items}

  -- What the startup tells the bus host before it configures the devices.
  unfoldable pub announce : BoardLists → Numbers → List ℕ → Act y (Unit {0})
  announce lists ns skipped = on_comm y (announced p lists ns skipped)

  -- The loops over the devices.
  unfoldable pub configure_devices : Node → Act y (Unit {0})
  configure_devices config = do
    if is_defined (field config "switchMatrix")
        then configure_matrix y p k platform_code (field config "switchMatrix")
        else pure tt
    abort_early y p k
    for_each (configure_switch y p k platform_code) (list_of y (field config "switches"))
    abort_early y p k
    for_each (configure_pwm_output y p k platform_code) (list_of y (field config "pwmOutput"))
    abort_early y p k
    for_each (configure_led_stripe y p k platform_code neo) (list_of y (field config "ledStripes"))
    abort_early y p k

  -- The board that follows in the chain.
  unfoldable pub next_in : List ℕ → ℕ
  next_in [] = p.no_board
  next_in (b ∷ bs) = b

  -- The loop that hands the chain from board to board.
  unfoldable pub configure_chain : List ℕ → Act y (Unit {0})
  unfolding next_in
  configure_chain [] = pure tt
  configure_chain (b ∷ bs) = do
    s ← get
    if is_board_present b s.comm.boards
        then (send_config y p k b Topic.switch_chain 0 Topic.next_board (next_in bs)
            >> send_config y p k b Topic.switch_chain 1 Topic.switch_reply_delay_us
                s.switch_reply_delay_us)
        else pure tt
    configure_chain bs

  -- `if (HadConfigurationFailure()) return false`
  unfoldable pub abort_after_failure : Act y (Unit {0})
  abort_after_failure = do s ← get; abort_if s.comm.config.failed

  -- From the presence of the boards to the start of the worker thread.
  unfoldable pub begin_session : List ℕ → Act y (Unit {0})
  unfolding configure_chain abort_after_failure
  begin_session polled = do
    abort_after_failure
    on_comm y finalize_configured_board_presence
    on_comm y (set_active_switch_boards polled)
    configure_chain polled
    abort_early y p k
    abort_after_failure
    set_up ← ask y (send_setup_frame p)
    demand set_up
    mapped ← ask y (send_mapping_frames p)
    demand mapped
    s ← get
    on_comm y (if is_wpc s.platform then (λ c. c) else set_gi_state p (pos 1) (pos 8))
    on_comm y start

  -- The startupAttempt of PPUC::Connect.
  unfoldable pub startup_attempt : Act y (Unit {0})
  unfolding announce configure_devices begin_session
  startup_attempt = do
    modify (λ s. record s { coils = []; lamps = []; switches = [] })
    s ← get
    let config = s.config
    lists ←
        configure_boards y p k platform_code (items (field config "boards"))
          (record { configured = []; polled = [] })
    abort_early y p k
    t ← get
    ns ← lift (collect_numbers y t.skipped_boards t.game_on_solenoid config)
    announce lists ns t.skipped_boards
    configure_devices config
    begin_session lists.polled

  -- runStartupAttempt: an exception is caught.
  abbrev pub succeeded : Outcome (Unit {0}) × Ppuc y → Bool × Ppuc y
  succeeded (value a, s) = (true, s)
  succeeded (thrown e, s) = (false, s)
  succeeded (aborted, s) = (false, s)
  succeeded (overflow, s) = (false, s)

  -- PPUC::Connect; `opened` tells whether libserialport opened the device.
  unfoldable pub connect_ppuc : Bool → Ppuc y → Bool × Ppuc y
  unfolding startup_attempt
  connect_ppuc opened s =
      let (open_, c) = connect p opened s.comm in
      let (reset, d) = if s.force_hard_reset then reset_boards p c else restart_boards p c in
      elim (validate_ppuc_configuration y neo s.config) [
        | err e ↦ (false, s)
        | ok a ↦
            if not open_
            then (false, record s { comm = c })
            else if not reset
            then (false, record s { comm = d })
            else succeeded (startup_attempt (record s { comm = d }))
      ]
