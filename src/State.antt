-- ===== src/State.antt =====
-- The state of `class RS485Comm` (src/RS485Comm.h): one record for each group of its members.
-- Mutexes are left out: each operation of the model is one critical section of the code, and
-- operations of several threads are sequences of such steps.
use Prim.Native.String.{String}
use libppuc.Common.{ℕ, Bool, Option, List}
use libppuc.Protocol.{RuntimeConfig}

-- `enum class Anomaly`, in its order.
pub data Anomaly : Type 0 where
  serial_write frame_crc config_ack switch_chain_miss epoch_mismatch board_status : Anomaly
  queue_overflow session_resync : Anomaly

-- `AnomalyState`; `last_record` is `none` until `everRecorded`.
pub record AnomalyState : Type 0 where
  pub total : ℕ
  pub suppressed : ℕ
  pub last_record : Option ℕ

pub record LogEntry : Type 0 where
  pub text : List ℕ
  pub wall_ms : ℕ

pub record Anomalies : Type 0 where
  pub of_kind : Anomaly → AnomalyState
  pub log : List LogEntry
  pub log_head : ℕ
  pub log_count : ℕ

-- One constructor for each call of `ReportAnomaly`, with the values that its format prints.
pub data Message : Type 0 where
  write_failed : String → Message
  write_incomplete : String → ℕ → ℕ → Message
  snapshot_dropped : Message
  ack_missing : ℕ → ℕ → ℕ → ℕ → Message
  ack_crc : ℕ → ℕ → Message
  ack_unexpected : ℕ → ℕ → ℕ → ℕ → Message
  ack_rejected : ℕ → ℕ → ℕ → ℕ → ℕ → Message
  chain_missed : ℕ → Message
  resync_started : ℕ → Message
  admin_query_crc : ℕ → Message
  admin_ack_crc : ℕ → Message
  reply_epoch : ℕ → ℕ → ℕ → Message
  reply_sequence : ℕ → ℕ → ℕ → Message
  reply_wants_resync : ℕ → ℕ → Message
  reply_flags : ℕ → ℕ → Message
  reply_crc : ℕ → ℕ → Message
  reply_timeout : ℕ → Message

-- What lies outside the program, as answers by the number of the call: the steady clock in
-- microseconds, the wall clock in milliseconds, how many bytes a read delivers (0 for a time-out)
-- and a write accepts (`none` for an error), the bytes waiting and those a flush drops, and how many
-- rounds of a loop that waits start before its deadline. `format` is what vsnprintf prints. `input`
-- holds the bytes that are still to arrive, `sent` the bytes of each write.
pub record World : Type 0 where
  pub steady : ℕ → ℕ
  pub wall : ℕ → ℕ
  pub chunk : ℕ → ℕ
  pub accepts : ℕ → ℕ → Option ℕ
  pub waiting : ℕ → ℕ
  pub flushed : ℕ → ℕ
  pub rounds : ℕ → ℕ
  pub format : Message → List ℕ
  pub calls : ℕ
  pub input : List ℕ
  pub sent : List (List ℕ)

-- `class Event` of io-boards/Event.h
pub record Event : Type 0 where
  pub source_id : ℕ
  pub event_id : ℕ
  pub value : ℕ

-- QueuedOutputSnapshot
pub record Snapshot : Type 0 where
  pub coils : List ℕ
  pub lamps : List ℕ
  pub gi : List ℕ

pub record Outputs : Type 0 where
  pub coil_bitmap : List ℕ
  pub coil_hold_frames : List ℕ
  pub coil_hold_frame_count : ℕ
  pub lamp_bitmap : List ℕ
  pub gi_levels : List ℕ
  pub snapshots : List Snapshot
  pub events : List Event

pub record Mappings : Type 0 where
  pub coil_index_to_number : List ℕ
  pub lamp_index_to_number : List ℕ
  pub switch_index_to_number : List ℕ
  pub coil_number_to_index : List (ℕ × ℕ)
  pub lamp_number_to_index : List (ℕ × ℕ)
  pub switch_number_to_index : List (ℕ × ℕ)

-- PPUCSwitchState
pub record SwitchState : Type 0 where
  pub number : ℕ
  pub state : ℕ

-- `next_refresh_at` is `none` for time_point::max().
pub record Switches : Type 0 where
  pub switch_bitmap : List ℕ
  pub queue : List SwitchState
  pub button_numbers : List ℕ
  pub refresh_idle_ms : ℕ
  pub next_refresh_at : Option ℕ
  pub next_poll_at : ℕ

-- VirtualSwitchBoardState
pub record VirtualBoard : Type 0 where
  pub board : ℕ
  pub switch_numbers : List ℕ
  pub switch_states : List ℕ
  pub dirty : Bool

-- `switch_boards` is the first m_switchBoardCounter entries of m_switchBoards.
pub record Boards : Type 0 where
  pub configured : List ℕ
  pub present : List ℕ
  pub skipped : List ℕ
  pub active : List Bool
  pub switch_boards : List ℕ
  pub switch_numbers_by_board : List (ℕ × List ℕ)
  pub ownership_masks : List (List ℕ)
  pub virtual_boards : List (ℕ × VirtualBoard)
  pub virtual_owner : List (ℕ × ℕ)
  pub finalized : Bool

pub record ConfigStatus : Type 0 where
  pub failed : Bool
  pub early_abort_logged : Bool
  pub miss_streak : ℕ
  pub misses_by_board : List ℕ
  pub early_abort_board : ℕ
  pub failed_boards : List ℕ

-- The counters behind PPUCBusHealth.
pub record Counters : Type 0 where
  pub chains : ℕ
  pub clean_chains : ℕ
  pub chain_misses : ℕ
  pub resyncs : ℕ
  pub ack_retries : ℕ
  pub ack_timeouts : ℕ

-- `port_open` is m_pSerialPort != NULL.
pub record Comm : Type 0 where
  pub port_open : Bool
  pub runtime_enabled : Bool
  pub sequence : ℕ
  pub epoch : ℕ
  pub last_output_sequence : ℕ
  pub need_resync : Bool
  pub reply_misses : ℕ
  pub reply_delay_us : ℕ
  pub output_interval_ms : ℕ
  pub runtime_config : RuntimeConfig
  pub anomalies : Anomalies
  pub outputs : Outputs
  pub mappings : Mappings
  pub switches : Switches
  pub boards : Boards
  pub config : ConfigStatus
  pub counters : Counters
  pub world : World
