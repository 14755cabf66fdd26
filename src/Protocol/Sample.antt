-- ===== src/Protocol/Sample.antt =====
-- A protocol that satisfies the laws, for the tests: the lowest bit of a bitmap comes first, and a
-- frame is its values in a row.
use native.Mathlib.Decide.{ℕ_discrete}
use libppuc.Common.{
  ℕ, zero, suc, ◌+◌, ◌*◌, ◌/◌, ◌%◌, ◌<◌, ◌≡◌, refl, Bool, true, false, List, [], ◌∷◌, ◌++◌, length,
  get_or, set, if◌then◌else◌, ◌==◌, leb, ltb, ◌&&◌, arith, length-set, get_or-set_self,
  get_or-set_ne, min, take, drop,
}
use libppuc.Common.Bits.{test_bit}
use libppuc.Protocol.Interface.{Protocol, BitmapLaws, ConfigFrameLaws, EventLaws}

abbrev digit : Bool → ℕ
digit true = 1
digit false = 0

-- The number with bit `k` set to `v`.
put_bit : ℕ → ℕ → Bool → ℕ
put_bit a zero v = a / 2 * 2 + digit v
put_bit a (suc k) v = a % 2 + 2 * put_bit (a / 2) k v

test_bit-put_bit :
    (a i j : ℕ) (v : Bool) → test_bit (put_bit a i v) j ≡ (if i == j then v else test_bit a j)
unfolding put_bit test_bit
test_bit-put_bit a zero zero true = ground arith
test_bit-put_bit a zero zero false = ground arith
test_bit-put_bit a zero (suc j) v =
    let e : (a / 2 * 2 + digit v) / 2 ≡ a / 2 = ground arith in rw e (ground arith)
test_bit-put_bit a (suc i) zero v = ground arith
test_bit-put_bit a (suc i) (suc j) v =
    let e : (a % 2 + 2 * put_bit (a / 2) i v) / 2 ≡ put_bit (a / 2) i v = omega arith in
    rw e (ground (arith, test_bit-put_bit (a / 2) i j v))

unfoldable pub set_bit : List ℕ → ℕ → Bool → List ℕ
unfolding put_bit
set_bit b n v = set b (n / 8) (put_bit (get_or b (n / 8) 0) (n % 8) v)

unfoldable pub get_bit : List ℕ → ℕ → Bool
unfolding test_bit
get_bit b n = test_bit (get_or b (n / 8) 0) (n % 8)

get_bit-set_bit :
    (b : List ℕ) (i j : ℕ) (v : Bool)
    → i < 8 * length b
    → get_bit (set_bit b i v) j ≡ (if i == j then v else get_bit b j)
unfolding get_bit set_bit
get_bit-set_bit b i j v h = elim (ℕ_discrete (i / 8) (j / 8)) [
  | yes e ↦
      rw
        (
          ← e,
          get_or-set_self b (i / 8) (put_bit (get_or b (i / 8) 0) (i % 8) v) 0 (omega arith),
          test_bit-put_bit,
        )
        (ground arith)
  | no ne ↦
      rw (get_or-set_ne b (i / 8) (j / 8) (put_bit (get_or b (i / 8) 0) (i % 8) v) 0 ne)
        (ground arith)
]

length-set_bit : (b : List ℕ) (i : ℕ) (v : Bool) → length (set_bit b i v) ≡ length b
unfolding set_bit
length-set_bit b i v = length-set b (i / 8) _

-- The sizes are those of a small table.
abbrev pub sample : Protocol
sample = record {
  no_board = 15;
  sync_byte = 165;
  header_bytes = 5;
  crc_bytes = 2;
  max_coil_bits = 16;
  max_lamp_bits = 16;
  max_switch_bits = 16;
  max_coil_bytes = 2;
  max_lamp_bytes = 2;
  max_switch_bytes = 2;
  gi_strings = 5;
  gi_bytes = 3;
  switch_status_bytes = 3;
  config_ack_payload_bytes = 5;
  setup_payload_bytes = 6;
  mapping_payload_bytes = 5;
  config_payload_bytes = 8;
  switch_no_change_payload_bytes = 3;
  admin_frame_bytes = 23;
  update_ack_frame_bytes = 14;
  admin_chunk_bytes = 4;
  frame_setup = 1;
  frame_mapping = 2;
  frame_config = 3;
  frame_config_ack = 4;
  frame_restart = 5;
  frame_reset = 6;
  frame_heartbeat = 7;
  frame_error = 8;
  frame_admin = 9;
  frame_switch_state = 10;
  frame_switch_no_change = 11;
  frame_switch_refresh = 12;
  config_ack_accepted = 0;
  flag_none = 0;
  status_in_sync = 1;
  status_needs_setup = 2;
  status_mapping_incomplete = 4;
  status_sequence_gap = 8;
  status_parser_resynced = 16;
  status_switch_overflow = 32;
  domain_coil = 0;
  domain_lamp = 1;
  domain_switch = 2;
  admin_version_report = 2;
  admin_version_firmware_major = 0;
  admin_version_firmware_minor = 1;
  admin_version_firmware_patch = 2;
  admin_version_protocol_major = 3;
  admin_version_protocol_minor = 4;
  admin_version_capabilities = 5;
  admin_version_board_type = 6;
  admin_version_build_id = 7;
  admin_update_begin_ack = 4;
  admin_update_chunk_ack = 6;
  admin_update_result = 8;
  update_ok = 0;
  update_unsupported = 5;
  board_type_unknown = 0;
  event_source_solenoid = 83;
  event_source_light = 76;
  event_source_gi = 71;
  event_source_effect = 69;
  event_run = 82;
  event_read_switches = 84;
  set_bitmap_bit = set_bit;
  get_bitmap_bit = get_bit;
  clamp_gi_level = λ v. min v 8;
  bits_to_bytes = λ n. (n + 7) / 8;
  switch_payload_bytes = λ c. 3 + (c.switch_bits + 7) / 8;
  is_valid_runtime_config = λ c.
      ltb 0 c.coil_bits
      && leb c.coil_bits 16
      && (ltb 0 c.lamp_bits && leb c.lamp_bits 16)
      && (ltb 0 c.switch_bits && leb c.switch_bits 16);
  is_valid_board = λ b. leb b 15;
  extract_type = λ b. b;
  crc16_ccitt = λ b. 0;
  verify_crc = λ b. true;
  build_config_frame = λ n s e b t i k v. 165 ∷ 3 ∷ n ∷ s ∷ e ∷ b ∷ t ∷ i ∷ k ∷ v ∷ 0 ∷ 0 ∷ [];
  build_setup_frame =
      λ n s e c. 165 ∷ 1 ∷ n ∷ s ∷ e ∷ c.coil_bits ∷ c.lamp_bits ∷ c.switch_bits ∷ 0 ∷ 0 ∷ [];
  build_mapping_frame = λ n s e d i v. 165 ∷ 2 ∷ n ∷ s ∷ e ∷ d ∷ i ∷ v ∷ 0 ∷ 0 ∷ [];
  build_bare_frame = λ t f n s e. 165 ∷ t ∷ n ∷ s ∷ e ∷ 0 ∷ 0 ∷ [];
  build_trigger_frame = λ n s e src i v. 165 ∷ 13 ∷ n ∷ s ∷ e ∷ src ∷ i ∷ v ∷ 0 ∷ 0 ∷ [];
  build_output_state_frame =
      λ n s e c coils lamps gi. 165 ∷ 14 ∷ n ∷ s ∷ e ∷ (coils ++ (lamps ++ gi));
  build_switch_reply_frame = λ st n s e f l g b k.
      165 ∷ (if st then 10 else 11) ∷ n ∷ s ∷ e ∷ f ∷ l ∷ g ∷ take k b ++ (0 ∷ 0 ∷ []);
  build_version_query_frame = λ b s e. 165 ∷ 9 ∷ b ∷ s ∷ e ∷ 1 ∷ b ∷ [];
  build_update_begin_frame = λ b s e n c. 165 ∷ 9 ∷ b ∷ s ∷ e ∷ 3 ∷ b ∷ n ∷ c ∷ [];
  build_update_chunk_frame = λ b s e o d. 165 ∷ 9 ∷ b ∷ s ∷ e ∷ 5 ∷ b ∷ o ∷ d;
  build_update_commit_frame = λ b s e. 165 ∷ 9 ∷ b ∷ s ∷ e ∷ 7 ∷ b ∷ [];
  read_admin_payload = λ b. (get_or b 0 0, get_or b 1 0, drop 2 b);
  read_u32 = λ b. get_or b 0 0;
  read_update_ack = λ b. (get_or b 2 0, get_or b 3 0);
}

pub sample-BitmapLaws : BitmapLaws sample
unfolding get_bit
sample-BitmapLaws = record {
  bit_position = λ n. n % 8;
  position_in_byte = λ n. omega arith;
  get_reads_byte = λ b n. refl;
  get_after_set = λ b i j v h. get_bit-set_bit b i j v h;
  length_after_set = λ b i v. length-set_bit b i v;
  coil_bits_fit = omega arith;
  switch_bits_fit = omega arith;
}

pub sample-ConfigFrameLaws : ConfigFrameLaws sample
sample-ConfigFrameLaws = record { names_board = λ n s e b t i k v. refl }

pub sample-EventLaws : EventLaws sample
sample-EventLaws = record {
  run_is_no_solenoid = λ e. ground arith;
  run_is_no_gi = λ e. ground arith;
  run_is_no_light = λ e. ground arith;
}
