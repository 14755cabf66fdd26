-- ===== src/Session.antt =====
-- The frames that the host sends, and the life of a session: src/RS485Comm.cpp, `Connect` to
-- `SendOutputStateFrameFromBuffers`. Sleeps, drains and the settings of the serial line change no
-- state of the host and are left out.
pub mod Sequence
pub mod Resync
pub mod Shutdown
use Prim.Native.String.{String}
use libppuc.Common.{
  ℕ, zero, suc, ◌+◌, ◌*◌, Bool, true, false, not, ◌&&◌, ◌||◌, Option, none, some, List, [], ◌∷◌,
  length, get_or, replicate, if◌then◌else◌, ◌==◌, inc_u8,
}
use libppuc.Protocol.{Protocol, RuntimeConfig}
use libppuc.State.{
  session_resync, resync_started, Event, Snapshot, Outputs, Boards, ConfigStatus, World, Comm,
}
use libppuc.Anomaly.{report}
use libppuc.Port.{now, flush_input, write_bytes}
use libppuc.Outputs.{
  current, clear_queued_events, clear_queued_output_snapshots, clear_output_state,
  apply_coil_holdover,
}
use libppuc.Boards.{max_boards}

-- RS485_COMM_SWITCH_POLL_STARTUP_HOLD_MS, in microseconds
abbrev pub startup_hold : ℕ
startup_hold = 250_000

-- `m_sequence++`
abbrev pub next_sequence : Comm → Comm
next_sequence c = record c { sequence = inc_u8 c.sequence }

unfoldable pub hold_polls : Comm → Comm
hold_polls c =
    let (t, w) = now c.world in
    record c { switches = record (c.switches) { next_poll_at = t + startup_hold }; world = w }

unfoldable pub flush : Comm → Comm
flush c = record c { world = flush_input c.world }

module _ (p : Protocol) where
  -- SetRuntimeConfig
  unfoldable pub set_runtime_config : RuntimeConfig → Comm → Comm
  set_runtime_config r c =
      if p.is_valid_runtime_config r then record c { runtime_config = r } else c

  -- SendSetupFrame
  unfoldable pub send_setup_frame : Comm → Bool × Comm
  send_setup_frame c =
      if c.port_open && p.is_valid_runtime_config c.runtime_config
      then write_bytes "SetupFrame"
          (p.build_setup_frame p.no_board c.sequence c.epoch c.runtime_config) (next_sequence c)
      else (false, c)

  -- SendResetFrame
  unfoldable pub send_reset_frame : Comm → Bool × Comm
  send_reset_frame c =
      if c.port_open
      then write_bytes "ResetFrame"
          (p.build_bare_frame p.frame_reset p.flag_none p.no_board c.sequence c.epoch)
          (next_sequence c)
      else (false, c)

  -- SendRestartFrame
  unfoldable pub send_restart_frame : Comm → Bool × Comm
  send_restart_frame c =
      if c.port_open
      then write_bytes "RestartFrame"
          (p.build_bare_frame p.frame_restart p.flag_none p.no_board c.sequence c.epoch)
          (next_sequence c)
      else (false, c)

  -- SendSwitchRefreshFrame
  unfoldable pub send_switch_refresh_frame : ℕ → Comm → Bool × Comm
  send_switch_refresh_frame next c =
      let b = p.build_bare_frame p.frame_switch_refresh p.flag_none next c.sequence c.epoch in
      if c.port_open && p.is_valid_runtime_config c.runtime_config && p.is_valid_board next
      then write_bytes "SwitchRefreshFrame" b
          (record (next_sequence c) { last_output_sequence = get_or b 3 0 })
      else (false, c)

  -- SendMappingFrame
  unfoldable pub send_mapping_frame : ℕ → ℕ → ℕ → Comm → Bool × Comm
  send_mapping_frame domain i n c =
      if c.port_open
      then write_bytes "MappingFrame"
          (p.build_mapping_frame p.no_board c.sequence c.epoch domain i n) (next_sequence c)
      else (false, c)

  -- One loop of SendMappingFrames, from index `i` on: stops at the first failure.
  unfoldable pub send_mappings_from : ℕ → ℕ → List ℕ → Comm → Bool × Comm
  send_mappings_from domain i [] c = (true, c)
  send_mappings_from domain i (n ∷ ns) c =
      let (sent, c') = send_mapping_frame domain i n c in
      let rest = send_mappings_from domain (i + 1) ns c' in if sent then rest else (false, c')

  -- SendMappingFrames
  unfoldable pub send_mapping_frames : Comm → Bool × Comm
  unfolding send_mappings_from
  send_mapping_frames c =
      let (coils, c1) = send_mappings_from p.domain_coil 0 c.mappings.coil_index_to_number c in
      let (lamps, c2) = send_mappings_from p.domain_lamp 0 c1.mappings.lamp_index_to_number c1 in
      if coils
      then (if lamps
          then send_mappings_from p.domain_switch 0 c2.mappings.switch_index_to_number c2
          else (false, c2))
      else (false, c1)

  -- SendOutputStateFrameFromBuffers
  unfoldable pub send_output_state_frame_from_buffers : ℕ → Snapshot → Comm → Bool × Comm
  send_output_state_frame_from_buffers next s c =
      let b =
        p.build_output_state_frame next c.sequence c.epoch c.runtime_config s.coils s.lamps s.gi in
      if c.port_open && p.is_valid_runtime_config c.runtime_config && p.is_valid_board next
      then write_bytes "OutputStateFrame" b
          (record (next_sequence c) { last_output_sequence = get_or b 3 0 })
      else (false, c)

  -- SendOutputStateFrame
  unfoldable pub send_output_state_frame : ℕ → Comm → Bool × Comm
  unfolding send_output_state_frame_from_buffers
  send_output_state_frame next c =
      if c.port_open && p.is_valid_runtime_config c.runtime_config && p.is_valid_board next
      then send_output_state_frame_from_buffers next
          (record (current c.outputs) {
            coils = apply_coil_holdover p c.outputs.coil_bitmap c.outputs.coil_hold_frames c;
          })
          c
      else (false, c)

  -- SendEvent
  unfoldable pub send_event : Event → Comm → Bool × Comm
  send_event e c =
      if c.port_open
      then write_bytes "trigger frame"
          (p.build_trigger_frame p.no_board c.sequence c.epoch e.source_id e.event_id e.value)
          (next_sequence c)
      else (false, c)

  -- ResyncSession
  unfoldable pub resync_session : Comm → Bool × Comm
  resync_session c =
      let c1 : Comm = record c { epoch = inc_u8 c.epoch } in
      let (set_up, c2) = send_setup_frame (report session_resync (resync_started c1.epoch) c1) in
      let (mapped, c3) = send_mapping_frames c2 in
      if set_up
      then (if mapped
          then (true, hold_polls (record (flush c3) { need_resync = false }))
          else (false, c3))
      else (false, c2)

  -- What RestartBoards, ResetBoards and Connect reset before a configuration.
  unfoldable pub fresh_config_status : ConfigStatus
  fresh_config_status = record {
    failed = false;
    early_abort_logged = false;
    miss_streak = 0;
    misses_by_board = replicate max_boards 0;
    early_abort_board = p.no_board;
    failed_boards = [];
  }

  -- RestartBoards
  unfoldable pub restart_boards : Comm → Bool × Comm
  unfolding send_restart_frame fresh_config_status flush
  restart_boards c =
      if c.port_open
      then (let (sent, c') = send_restart_frame (record c { config = fresh_config_status }) in
          if sent then (true, flush c') else (false, c'))
      else (false, c)

  -- ResetBoards
  unfoldable pub reset_boards : Comm → Bool × Comm
  unfolding send_reset_frame fresh_config_status flush
  reset_boards c =
      if c.port_open
      then (let (sent, c') = send_reset_frame (record c { config = fresh_config_status }) in
          if sent then (true, flush c') else (false, c'))
      else (false, c)

  -- Connect; `opened` tells whether libserialport opened and configured the device.
  unfoldable pub connect : Bool → Comm → Bool × Comm
  unfolding fresh_config_status flush
  connect opened c =
      if opened
      then (
        true,
        record (flush (record c { port_open = true })) {
          need_resync = false;
          epoch = 1;
          sequence = 0;
          last_output_sequence = 0;
          boards = record (c.boards) {
            active = replicate max_boards false;
            present = [];
            finalized = false;
          };
          config = fresh_config_status;
        },
      )
      else (false, record c { port_open = false })

  -- Disconnect, once the worker thread has ended.
  unfoldable pub disconnect : Comm → Comm
  unfolding send_output_state_frame flush
  disconnect c =
      if c.port_open
      then (let c1 = clear_output_state p (clear_queued_output_snapshots (clear_queued_events c)) in
          let (_, c2) = send_output_state_frame p.no_board c1 in
          let (_, c3) = send_output_state_frame p.no_board c2 in
          record (flush c3) { port_open = false })
      else c
