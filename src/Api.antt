-- ===== src/Api.antt =====
-- The setters of src/RS485Comm.cpp, and the operations of `class PPUC` (end of src/PPUC.cpp) that a
-- game calls while it runs.
pub mod Pulse
pub mod Updates
use libppuc.Common.{
  ℕ, zero, suc, ◌-◌, Bool, true, false, not, ◌&&◌, Option, none, some, List, [], ◌∷◌, mem,
  if◌then◌else◌, ◌==◌, leb,
}
use libppuc.Common.Ints.{ℤ, pos, negsuc, to_u16, to_u8, is_zero}
use libppuc.Protocol.{Protocol}
use libppuc.State.{serial_write, frame_crc, Event, SwitchState, Outputs, Switches, Comm}
use libppuc.Outputs.{with_outputs, queue_event}
use libppuc.Boards.{with_switches, set_virtual_switch_state}
use libppuc.Firmware.{BoardVersion, query_board_version}

-- SetSwitchReplyDelayUs
unfoldable pub set_switch_reply_delay_us : ℕ → Comm → Comm
set_switch_reply_delay_us n c = record c { reply_delay_us = n }

-- SetOutputFrameIntervalMs, with RS485_COMM_DEFAULT_OUTPUT_FRAME_INTERVAL_MS
unfoldable pub set_output_frame_interval_ms : ℕ → Comm → Comm
set_output_frame_interval_ms n c = record c { output_interval_ms = if n == 0 then 4 else n }

-- SetCoilHoldFrames
unfoldable pub set_coil_hold_frames : ℕ → Comm → Comm
set_coil_hold_frames n c = with_outputs (record (c.outputs) { coil_hold_frame_count = n }) c

-- SetButtonSwitchNumbers
unfoldable pub set_button_switch_numbers : List ℕ → Comm → Comm
set_button_switch_numbers ns c = with_switches (record (c.switches) { button_numbers = ns }) c

-- GetNextSwitchState; none for a null pointer.
unfoldable pub get_next_switch_state : Comm → Option SwitchState × Comm
get_next_switch_state c = elim c.switches.queue [
  | [] ↦ (none, c)
  | s ∷ rest ↦ (some s, with_switches (record (c.switches) { queue = rest }) c)
]

-- PPUCBusHealth
pub record BusHealth : Type 0 where
  pub switch_reply_chains : ℕ
  pub switch_reply_chains_clean : ℕ
  pub switch_reply_misses : ℕ
  pub session_resyncs : ℕ
  pub config_ack_retries : ℕ
  pub config_ack_timeouts : ℕ
  pub serial_write_failures : ℕ
  pub frame_crc_errors : ℕ

-- GetBusHealth
unfoldable pub get_bus_health : Comm → BusHealth
get_bus_health c = record {
  switch_reply_chains = c.counters.chains;
  switch_reply_chains_clean = c.counters.clean_chains;
  switch_reply_misses = c.counters.chain_misses;
  session_resyncs = c.counters.resyncs;
  config_ack_retries = c.counters.ack_retries;
  config_ack_timeouts = c.counters.ack_timeouts;
  serial_write_failures = (c.anomalies.of_kind serial_write).total;
  frame_crc_errors = (c.anomalies.of_kind frame_crc).total;
}

-- `state == 0 ? 0 : 1`
abbrev pub on_off : ℤ → ℕ
on_off s = if is_zero s then 0 else 1

module _ (p : Protocol) where
  -- PPUC::SetSolenoidState
  unfoldable pub set_solenoid_state : ℤ → ℤ → Comm → Comm
  set_solenoid_state n state c =
      queue_event p
        (record { source_id = p.event_source_solenoid; event_id = to_u16 n; value = on_off state })
        c

  -- PPUC::SetLampState
  unfoldable pub set_lamp_state : ℤ → ℤ → Comm → Comm
  set_lamp_state n state c =
      queue_event p
        (record { source_id = p.event_source_light; event_id = to_u16 n; value = on_off state }) c

  -- The value that SetGIState sends, before it is clamped.
  abbrev pub gi_brightness : ℤ → ℕ
  gi_brightness (pos b) = to_u8 (pos b)
  gi_brightness (negsuc b) = 0

  -- PPUC::SetGIState
  unfoldable pub set_gi_state : ℤ → ℤ → Comm → Comm
  set_gi_state (negsuc n) brightness c = c
  set_gi_state (pos n) brightness c =
      if leb 1 n && leb n p.gi_strings
      then queue_event p
          (record {
            source_id = p.event_source_gi;
            event_id = to_u16 (pos n);
            value = p.clamp_gi_level (gi_brightness brightness);
          })
          c
      else c

  -- PPUC::SetSwitchState
  unfoldable pub set_switch_state : ℤ → ℤ → Comm → Comm
  set_switch_state n state c = (set_virtual_switch_state p (to_u16 n) (on_off state) c).1

  -- PPUC::TriggerEvent
  unfoldable pub trigger_event : ℕ → ℤ → ℤ → Comm → Comm
  trigger_event source n value c =
      queue_event p (record { source_id = source; event_id = to_u16 n; value = to_u8 value }) c

  -- PPUC::StartUpdates; `wpc` tells whether the platform is a WPC.
  unfoldable pub start_updates : Bool → Comm → Comm
  unfolding set_gi_state
  start_updates wpc c =
      queue_event p (record { source_id = p.event_run; event_id = 1; value = 1 })
        (if wpc then c else set_gi_state (pos 1) (pos 8) c)

  -- PPUC::StopUpdates
  unfoldable pub stop_updates : Comm → Comm
  stop_updates c = queue_event p (record { source_id = p.event_run; event_id = 1; value = 0 }) c

  -- The last loop of PPUC::QueryBoardVersions, over the boards that are configured and not skipped,
  -- in the order of their numbers.
  unfoldable pub query_board_versions : List ℕ → Comm → List BoardVersion × Comm
  query_board_versions [] c = ([], c)
  query_board_versions (b ∷ bs) c =
      let (v, c') = query_board_version p b c in
      let (vs, c'') = query_board_versions bs c' in (v ∷ vs, c'')
