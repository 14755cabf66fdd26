-- ===== src/Switches/Receive.antt =====
-- `ReceiveSwitchStateFrame` of src/RS485Comm.cpp, and its window. Debug prints are left out.
use libppuc.Common.{
  ℕ, zero, suc, ◌+◌, ◌-◌, ◌*◌, Bool, true, false, ◌&&◌, ◌||◌, Option, none, some, List, [], ◌∷◌,
  ◌++◌, length, get_or, take, drop, if◌then◌else◌, ◌==◌, ◌!=◌,
}
use libppuc.Common.Bits.{and_u8, or_u8}
use libppuc.Protocol.{Protocol}
use libppuc.State.{
  frame_crc, switch_chain_miss, epoch_mismatch, board_status, reply_epoch, reply_sequence,
  reply_wants_resync, reply_flags, reply_crc, reply_timeout, World, Comm,
}
use libppuc.Anomaly.{report}
use libppuc.Port.{tick, blocking_read, input_waiting, flush_input, read_exact}
use libppuc.Switches.Bitmap.{apply_switch_bitmap_diff}

-- SwitchReplyWindowUs, in int64_t: the sum stays far below 2 ^ 63.
unfoldable pub switch_reply_window_us : Comm → ℕ
switch_reply_window_us c =
    let n = length c.boards.switch_boards in 40_000 + c.reply_delay_us * (if n == 0 then 1 else n)

-- `readOneByteWithinWindow`, with the rounds that its window allows.
unfoldable pub read_one_byte : ℕ → World → Option ℕ × World
read_one_byte zero w = (none, w)
read_one_byte (suc rounds) w =
    let (b, w') = blocking_read 1 w in
    let more = read_one_byte rounds w' in elim b [ [] ↦ more | x ∷ _ ↦ (some x, w') ]

-- The rounds that the clock grants a loop that starts now.
abbrev pub rounds_now : World → ℕ
rounds_now w = w.rounds w.calls

-- `(flags & mask) != 0`
abbrev pub has_flag : ℕ → ℕ → Bool
has_flag flags mask = and_u8 flags mask != 0

-- The big-endian CRC at the end of a frame of `n` bytes.
abbrev pub received_crc : List ℕ → ℕ → ℕ
received_crc frame n = get_or frame (n - 2) 0 * 256 + get_or frame (n - 1) 0

module _ (p : Protocol) where
  -- The payload size of a switch reply by its type.
  unfoldable pub reply_payload : ℕ → Comm → Option ℕ
  reply_payload type c =
      if type == p.frame_switch_state
      then some (p.switch_payload_bytes c.runtime_config)
      else if type == p.frame_switch_no_change
      then some p.switch_no_change_payload_bytes
      else none

  -- The checks of epoch, sequence and flags, which come before the CRC.
  unfoldable pub check_epoch : ℕ → ℕ → Comm → Comm
  check_epoch board seen c =
      if seen != c.epoch
      then record (report epoch_mismatch (reply_epoch board seen c.epoch) c) { need_resync = true }
      else c

  unfoldable pub check_sequence : ℕ → ℕ → Comm → Comm
  check_sequence board seen c =
      if seen != c.last_output_sequence
      then record (report epoch_mismatch (reply_sequence board seen c.last_output_sequence) c) {
        need_resync = true;
      }
      else c

  unfoldable pub check_flags : ℕ → ℕ → Comm → Comm
  check_flags board flags c =
      if has_flag flags
        (or_u8 (or_u8 p.status_needs_setup p.status_mapping_incomplete) p.status_sequence_gap)
      then record (report board_status (reply_wants_resync board flags) c) { need_resync = true }
      else c

  unfoldable pub note_flags : ℕ → ℕ → Comm → Comm
  note_flags board flags c =
      if has_flag flags p.status_parser_resynced || has_flag flags p.status_switch_overflow
      then report board_status (reply_flags board flags) c
      else c

  unfoldable pub check_status : ℕ → List ℕ → Comm → Comm
  unfolding check_epoch check_sequence check_flags note_flags
  check_status board frame c =
      let flags = get_or frame (p.header_bytes + 2) 0 in
      note_flags board flags (
        check_flags board flags (
          check_sequence board (get_or frame (p.header_bytes + 1) 0)
            (check_epoch board (get_or frame p.header_bytes 0) c)))

  -- The rest of a round once a whole frame is there.
  unfoldable pub accept_reply : ℕ → ℕ → List ℕ → Comm → Bool × Comm
  accept_reply board type frame c =
      let n = length frame in
      let c' = check_status board frame c in
      let crc = p.crc16_ccitt (take (n - p.crc_bytes) frame) in
      if received_crc frame n != crc
      then (false, report frame_crc (reply_crc (received_crc frame n) crc) c')
      else if type == p.frame_switch_state
      then (
        true,
        apply_switch_bitmap_diff p board (drop (p.header_bytes + p.switch_status_bytes) frame)
            (p.bits_to_bytes c.runtime_config.switch_bits) c',
      )
      else (true, c')

  -- The body after the header: `next` is the output parameter outNextBoard so far.
  unfoldable pub read_reply : ℕ → List ℕ → ℕ → Comm → Option Bool × ℕ × Comm
  unfolding reply_payload
  read_reply board header next c =
      let type = p.extract_type (get_or header 1 0) in
      elim (reply_payload type c) [
        | none ↦ (none, next, c)
        | some payload ↦
            let (rest, w) = read_exact (payload + p.crc_bytes) c.world in
            elim rest [
              | none ↦ (none, next, record c { world = w })
              | some body ↦
                  let (ok, c') =
                    accept_reply board type (header ++ body) (record c { world = w }) in
                  (some ok, get_or header 2 0, c')
            ]
      ]

  -- After the sync byte: the rest of the header, then the body.
  unfoldable pub read_header : ℕ → ℕ → Comm → Option Bool × ℕ × Comm
  read_header board next c =
      let (rest, w) = read_exact (p.header_bytes - 1) c.world in
      elim rest [
        | none ↦ (none, next, record c { world = w })
        | some h ↦ read_reply board (p.sync_byte ∷ h) next (record c { world = w })
      ]

  -- The end of the window: a report, and a flush if nothing waits. `sp_input_waiting` is asked for
  -- the report and again for the flush.
  unfoldable pub reply_timed_out : ℕ → Comm → Comm
  reply_timed_out board c =
      let (_, w) = input_waiting c.world in
      let c' = report switch_chain_miss (reply_timeout board) (record c { world = w }) in
      let (n, w') = input_waiting c'.world in
      record c' { world = if n == 0 then flush_input w' else w' }

  -- The loop of ReceiveSwitchStateFrame.
  unfoldable pub reply_loop : ℕ → ℕ → ℕ → Comm → Bool × ℕ × Comm
  reply_loop zero board next c = (false, next, reply_timed_out board c)
  reply_loop (suc rounds) board next c =
      let (byte, w) = read_one_byte (rounds_now c.world) c.world in
      let c1 : Comm = record c { world = w } in
      let (r, next', c2) = read_header board next c1 in
      let skip = reply_loop rounds board next c1 in
      let again = reply_loop rounds board next' c2 in
      elim byte [
        | none ↦ (false, next, reply_timed_out board c1)
        | some b ↦
            if b != p.sync_byte then skip else (elim r [ none ↦ again | some ok ↦ (ok, next', c2) ])
      ]

  -- ReceiveSwitchStateFrame: its result and the next board that the reply names.
  unfoldable pub receive_switch_state_frame : ℕ → ℕ → Comm → Bool × ℕ × Comm
  receive_switch_state_frame board next c =
      if c.port_open && p.is_valid_runtime_config c.runtime_config
      then reply_loop (rounds_now c.world) board next (record c { world = tick c.world })
      else (false, next, c)
