-- ===== src/Protocol/Interface.antt =====
-- The interface of the wire protocol: io-boards/PPUCProtocolV2.h and io-boards/Event.h, which the
-- build fetches. Their constants and functions are the fields of a record, and what the host relies
-- on is the record of laws below it.
use libppuc.Common.{
  ℕ, ◌*◌, ◌/◌, ◌<◌, ◌≤◌, ◌≡◌, ◌≢◌, Bool, List, length, get_or, if◌then◌else◌, ◌==◌,
}
use libppuc.Common.Bits.{test_bit}

-- ppuc::v2::RuntimeConfig
pub record RuntimeConfig : Type 0 where
  pub coil_bits : ℕ
  pub lamp_bits : ℕ
  pub switch_bits : ℕ

-- The names are those of the header; `set_bitmap_bit` returns the changed bitmap, and a builder
-- the frame that it writes.
pub record Protocol : Type 0 where
  pub no_board : ℕ
  pub sync_byte : ℕ
  pub header_bytes : ℕ
  pub crc_bytes : ℕ
  pub max_coil_bits : ℕ
  pub max_lamp_bits : ℕ
  pub max_switch_bits : ℕ
  pub max_coil_bytes : ℕ
  pub max_lamp_bytes : ℕ
  pub max_switch_bytes : ℕ
  pub gi_strings : ℕ
  pub gi_bytes : ℕ
  pub switch_status_bytes : ℕ
  pub config_ack_payload_bytes : ℕ
  pub setup_payload_bytes : ℕ
  pub mapping_payload_bytes : ℕ
  pub config_payload_bytes : ℕ
  pub switch_no_change_payload_bytes : ℕ
  pub admin_frame_bytes : ℕ
  pub update_ack_frame_bytes : ℕ
  pub admin_chunk_bytes : ℕ
  pub frame_setup : ℕ
  pub frame_mapping : ℕ
  pub frame_config : ℕ
  pub frame_config_ack : ℕ
  pub frame_restart : ℕ
  pub frame_reset : ℕ
  pub frame_heartbeat : ℕ
  pub frame_error : ℕ
  pub frame_admin : ℕ
  pub frame_switch_state : ℕ
  pub frame_switch_no_change : ℕ
  pub frame_switch_refresh : ℕ
  pub config_ack_accepted : ℕ
  pub flag_none : ℕ
  pub status_in_sync : ℕ
  pub status_needs_setup : ℕ
  pub status_mapping_incomplete : ℕ
  pub status_sequence_gap : ℕ
  pub status_parser_resynced : ℕ
  pub status_switch_overflow : ℕ
  pub domain_coil : ℕ
  pub domain_lamp : ℕ
  pub domain_switch : ℕ
  pub admin_version_report : ℕ
  pub admin_version_firmware_major : ℕ
  pub admin_version_firmware_minor : ℕ
  pub admin_version_firmware_patch : ℕ
  pub admin_version_protocol_major : ℕ
  pub admin_version_protocol_minor : ℕ
  pub admin_version_capabilities : ℕ
  pub admin_version_board_type : ℕ
  pub admin_version_build_id : ℕ
  pub admin_update_begin_ack : ℕ
  pub admin_update_chunk_ack : ℕ
  pub admin_update_result : ℕ
  pub update_ok : ℕ
  pub update_unsupported : ℕ
  pub board_type_unknown : ℕ
  pub event_source_solenoid : ℕ
  pub event_source_light : ℕ
  pub event_source_gi : ℕ
  pub event_source_effect : ℕ
  pub event_run : ℕ
  pub event_read_switches : ℕ
  pub set_bitmap_bit : List ℕ → ℕ → Bool → List ℕ
  pub get_bitmap_bit : List ℕ → ℕ → Bool
  pub clamp_gi_level : ℕ → ℕ
  pub bits_to_bytes : ℕ → ℕ
  pub switch_payload_bytes : RuntimeConfig → ℕ
  pub is_valid_runtime_config : RuntimeConfig → Bool
  pub is_valid_board : ℕ → Bool
  pub extract_type : ℕ → ℕ
  pub crc16_ccitt : List ℕ → ℕ
  pub verify_crc : List ℕ → Bool
  -- next board, sequence, epoch, then the payload
  pub build_config_frame : ℕ → ℕ → ℕ → ℕ → ℕ → ℕ → ℕ → ℕ → List ℕ
  pub build_setup_frame : ℕ → ℕ → ℕ → RuntimeConfig → List ℕ
  pub build_mapping_frame : ℕ → ℕ → ℕ → ℕ → ℕ → ℕ → List ℕ
  pub build_bare_frame : ℕ → ℕ → ℕ → ℕ → ℕ → List ℕ
  pub build_trigger_frame : ℕ → ℕ → ℕ → ℕ → ℕ → ℕ → List ℕ
  pub build_output_state_frame : ℕ → ℕ → ℕ → RuntimeConfig → List ℕ → List ℕ → List ℕ → List ℕ
  -- has state, next board, sequence, two epochs, sequence seen, status flags, bitmap, bytes
  pub build_switch_reply_frame : Bool → ℕ → ℕ → ℕ → ℕ → ℕ → ℕ → List ℕ → ℕ → List ℕ
  -- board, sequence, epoch, then the payload
  pub build_version_query_frame : ℕ → ℕ → ℕ → List ℕ
  pub build_update_begin_frame : ℕ → ℕ → ℕ → ℕ → ℕ → List ℕ
  pub build_update_chunk_frame : ℕ → ℕ → ℕ → ℕ → List ℕ → List ℕ
  pub build_update_commit_frame : ℕ → ℕ → ℕ → List ℕ
  -- the command, board and data of an admin payload; the status and offset of an acknowledgement
  pub read_admin_payload : List ℕ → ℕ × ℕ × List ℕ
  pub read_u32 : List ℕ → ℕ
  pub read_update_ack : List ℕ → ℕ × ℕ

-- The bits of a bitmap: bit `n` is one bit of byte `n / 8`, a write changes that bit alone, and a
-- bit count fits its bytes.
pub record BitmapLaws (p : Protocol) : Type 0 where
  pub bit_position : ℕ → ℕ
  pub position_in_byte : (n : ℕ) → bit_position n < 8
  pub get_reads_byte :
      (b : List ℕ) (n : ℕ) → p.get_bitmap_bit b n ≡ test_bit (get_or b (n / 8) 0) (bit_position n)
  pub get_after_set :
      (b : List ℕ) (i j : ℕ) (v : Bool)
      → i < 8 * length b
      → p.get_bitmap_bit (p.set_bitmap_bit b i v) j ≡ (if i == j then v else p.get_bitmap_bit b j)
  pub length_after_set :
      (b : List ℕ) (i : ℕ) (v : Bool) → length (p.set_bitmap_bit b i v) ≡ length b
  pub coil_bits_fit : p.max_coil_bits ≤ 8 * p.max_coil_bytes
  pub switch_bits_fit : p.max_switch_bits ≤ 8 * p.max_switch_bytes

-- A configuration frame carries the board's number in its first payload byte.
pub record ConfigFrameLaws (p : Protocol) : Type 0 where
  pub names_board : (n s e b t i k v : ℕ) → get_or (p.build_config_frame n s e b t i k v) 5 0 ≡ b

-- The event that starts and stops the updates has a code of its own.
pub record EventLaws (p : Protocol) : Type 0 where
  pub run_is_no_solenoid : p.event_run ≢ p.event_source_solenoid
  pub run_is_no_gi : p.event_run ≢ p.event_source_gi
  pub run_is_no_light : p.event_run ≢ p.event_source_light
