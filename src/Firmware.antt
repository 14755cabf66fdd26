-- ===== src/Firmware.antt =====
-- Board administration: `QueryBoardVersion`, `AwaitAdminReply` and `UpdateBoardFirmware` of
-- src/RS485Comm.cpp, with their results of src/PPUC_structs.h. The progress callback and the texts
-- of the errors are left out: an error is a constructor.
pub mod Version
pub mod Reply
pub mod Frames
pub mod Chunks
pub mod Upload
pub mod Transfer
use libppuc.Common.{
  ℕ, zero, suc, ◌+◌, ◌-◌, ◌*◌, ◌%◌, ◌^◌, Bool, true, false, not, ◌&&◌, ◌||◌, Option, none, some,
  List, [], ◌∷◌, ◌++◌, length, get_or, take, drop, min, if◌then◌else◌, ◌==◌, ◌!=◌, ltb, leb,
}
use libppuc.Protocol.{Protocol}
use libppuc.State.{frame_crc, Message, admin_query_crc, admin_ack_crc, World, Comm}
use libppuc.Anomaly.{report}
use libppuc.Port.{tick, blocking_read, write_bytes, read_exact}
use libppuc.Session.{next_sequence, flush}

-- PPUCBoardVersion
pub record BoardVersion : Type 0 where
  pub board : ℕ
  pub responded : Bool
  pub firmware_major : ℕ
  pub firmware_minor : ℕ
  pub firmware_patch : ℕ
  pub admin_protocol_major : ℕ
  pub admin_protocol_minor : ℕ
  pub capabilities : ℕ
  pub board_type : ℕ
  pub build_id : ℕ

-- FirmwareOrdinal, on fields of type uint8_t: the parts that `|` joins do not overlap.
unfoldable pub firmware_ordinal : BoardVersion → ℕ
firmware_ordinal v = v.firmware_major * 2 ^ 16 + v.firmware_minor * 2 ^ 8 + v.firmware_patch

-- Why an update stopped; `out_of_rounds` is the model's own.
pub data UpdateError : Type 0 where
  no_image no_answer wrong_board_type still_running begin_not_sent begin_not_acked : UpdateError
  refused chunk_not_sent chunk_rejected chunk_not_acked commit_not_sent no_result : UpdateError
  update_failed out_of_rounds : UpdateError

-- PPUCFirmwareUpdateResult
pub record UpdateResult : Type 0 where
  pub succeeded : Bool
  pub board : ℕ
  pub status : ℕ
  pub bytes_sent : ℕ
  pub error : Option UpdateError

-- An admin frame of `n` bytes whose first byte is the next one: none for anything else.
unfoldable pub admin_frame : Protocol → ℕ → Message → Comm → Option (List ℕ) × Comm
admin_frame p n bad_crc c =
    let (first, w) = blocking_read 1 c.world in
    let (rest, w') = read_exact (n - 1) w in
    let c1 : Comm = record c { world = w } in
    let c2 : Comm = record c { world = w' } in
    if length first == 0 || get_or first 0 0 != p.sync_byte then (none, c1) else elim rest [
      | none ↦ (none, c2)
      | some body ↦
          if p.extract_type (get_or (p.sync_byte ∷ body) 1 0) != p.frame_admin
          then (none, c2)
          else if not (p.verify_crc (p.sync_byte ∷ body))
          then (none, report frame_crc bad_crc c2)
          else (some (p.sync_byte ∷ body), c2)
    ]

module _ (p : Protocol) where
  abbrev pub unanswered : ℕ → BoardVersion
  unanswered board = record {
    board = board;
    responded = false;
    firmware_major = 0;
    firmware_minor = 0;
    firmware_patch = 0;
    admin_protocol_major = 0;
    admin_protocol_minor = 0;
    capabilities = 0;
    board_type = 0;
    build_id = 0;
  }

  -- The version in a report from the board, or none from another frame.
  unfoldable pub version_in : ℕ → List ℕ → Option BoardVersion
  version_in board frame =
      let (command, reporter, d) = p.read_admin_payload (drop p.header_bytes frame) in
      if command != p.admin_version_report || reporter != board
      then none
      else some (record {
        board = board;
        responded = true;
        firmware_major = get_or d p.admin_version_firmware_major 0;
        firmware_minor = get_or d p.admin_version_firmware_minor 0;
        firmware_patch = get_or d p.admin_version_firmware_patch 0;
        admin_protocol_major = get_or d p.admin_version_protocol_major 0;
        admin_protocol_minor = get_or d p.admin_version_protocol_minor 0;
        capabilities = get_or d p.admin_version_capabilities 0;
        board_type = get_or d p.admin_version_board_type 0;
        build_id = p.read_u32 (drop p.admin_version_build_id d);
      })

  unfoldable pub version_loop : ℕ → ℕ → Comm → BoardVersion × Comm
  version_loop zero board c = (unanswered board, c)
  version_loop (suc rounds) board c =
      let (frame, c') = admin_frame p p.admin_frame_bytes (admin_query_crc board) c in
      let again = version_loop rounds board c' in
      elim frame [
        | none ↦ again
        | some f ↦ elim (version_in board f) [ none ↦ again | some v ↦ (v, c') ]
      ]

  -- QueryBoardVersion
  unfoldable pub query_board_version : ℕ → Comm → BoardVersion × Comm
  unfolding version_loop version_in admin_frame
  query_board_version board c =
      let c1 = flush c in
      let (sent, c2) =
        write_bytes "AdminVersionQuery" (p.build_version_query_frame board c1.sequence c1.epoch)
          (next_sequence c1) in
      if not c.port_open || not (p.is_valid_board board)
      then (unanswered board, c)
      else if sent
      then version_loop (c2.world.rounds c2.world.calls) board (record c2 { world = tick c2.world })
      else (unanswered board, c2)

  unfoldable pub reply_loop : ℕ → ℕ → ℕ → Comm → Option (ℕ × ℕ) × Comm
  reply_loop zero board command c = (none, c)
  reply_loop (suc rounds) board command c =
      let (frame, c') = admin_frame p p.update_ack_frame_bytes (admin_ack_crc board) c in
      let again = reply_loop rounds board command c' in
      elim frame [
        | none ↦ again
        | some f ↦
            let payload = drop p.header_bytes f in
            if get_or payload 0 0 != command || get_or payload 1 0 != board
            then again
            else (some (p.read_update_ack payload), c')
      ]

  -- AwaitAdminReply: the status and offset of the reply.
  unfoldable pub await_admin_reply : ℕ → ℕ → Comm → Option (ℕ × ℕ) × Comm
  unfolding reply_loop admin_frame
  await_admin_reply board command c =
      reply_loop (c.world.rounds c.world.calls) board command (record c { world = tick c.world })

  -- The attempts at one chunk, `left` to go.
  unfoldable pub send_chunk : ℕ → ℕ → ℕ → List ℕ → Comm → Option (UpdateError × ℕ) × Comm
  send_chunk zero board sent frame c = (some (chunk_not_acked, 0), c)
  send_chunk (suc left) board sent frame c =
      let (written, c1) = write_bytes "UpdateChunk" frame c in
      let (reply, c2) = await_admin_reply board p.admin_update_chunk_ack c1 in
      let again = send_chunk left board sent frame c2 in
      if not written then (some (chunk_not_sent, 0), c1) else elim reply [
        | none ↦ again
        | some (status, offset) ↦
            if status == p.update_ok && offset == sent
            then (none, c2)
            else if status != p.update_ok
            then (some (chunk_rejected, status), c2)
            else again
      ]

  abbrev pub chunk_attempts : ℕ
  chunk_attempts = 3

  -- The loop over chunks: `sent` bytes are out and `rest` is still to go.
  unfoldable pub send_chunks : ℕ → ℕ → ℕ → List ℕ → Comm → Option (UpdateError × ℕ) × ℕ × Comm
  send_chunks fuel board sent [] c = (none, sent, c)
  send_chunks zero board sent (x ∷ rest) c = (some (out_of_rounds, 0), sent, c)
  send_chunks (suc fuel) board sent (x ∷ rest) c =
      let n = min p.admin_chunk_bytes (length (x ∷ rest)) % 2 ^ 16 in
      let frame =
        p.build_update_chunk_frame board c.sequence c.epoch (sent % 2 ^ 32) (take n (x ∷ rest)) in
      let (failed, c') = send_chunk chunk_attempts board sent frame (next_sequence c) in
      let more = send_chunks fuel board (sent + n) (drop n (x ∷ rest)) c' in
      elim failed [ none ↦ more | some e ↦ (some e, sent, c') ]

  abbrev pub stopped : ℕ → UpdateError → ℕ → ℕ → UpdateResult
  stopped board e status sent = record {
    succeeded = false;
    board = board;
    status = status;
    bytes_sent = sent;
    error = some e;
  }

  -- After the last chunk: commit, and the board's verdict.
  unfoldable pub commit_update : ℕ → ℕ → Comm → UpdateResult × Comm
  commit_update board sent c =
      let (written, c1) =
        write_bytes "UpdateCommit" (p.build_update_commit_frame board c.sequence c.epoch)
          (next_sequence c) in
      let (reply, c2) = await_admin_reply board p.admin_update_result c1 in
      if not written then (stopped board commit_not_sent 0 sent, c1) else elim reply [
        | none ↦ (stopped board no_result 0 sent, c2)
        | some (status, offset) ↦
            if status == p.update_ok
            then (
              record {
                succeeded = true;
                board = board;
                status = status;
                bytes_sent = sent;
                error = none;
              },
              c2,
            )
            else (stopped board update_failed status sent, c2)
      ]

  -- From UpdateBegin on.
  unfoldable pub transfer : ℕ → List ℕ → Comm → UpdateResult × Comm
  unfolding commit_update send_chunks send_chunk
  transfer board image c0 =
      let c = flush c0 in
      let b =
        p.build_update_begin_frame board c.sequence c.epoch (length image % 2 ^ 32)
          (p.crc16_ccitt image) in
      let (written, c1) = write_bytes "UpdateBegin" b (next_sequence c) in
      let (reply, c2) = await_admin_reply board p.admin_update_begin_ack c1 in
      let (failed, sent, c3) = send_chunks (length image) board 0 image c2 in
      if not written then (stopped board begin_not_sent 0 0, c1) else elim reply [
        | none ↦ (stopped board begin_not_acked 0 0, c2)
        | some (status, offset) ↦
            if status != p.update_ok then (stopped board refused status 0, c2) else elim failed [
              | none ↦ commit_update board sent c3
              | some (e, s) ↦ (stopped board e s sent, c3)
            ]
      ]

  -- UpdateBoardFirmware; an image of no bytes stands for a null pointer too.
  unfoldable pub update_board_firmware : ℕ → ℕ → List ℕ → Comm → UpdateResult × Comm
  unfolding transfer
  update_board_firmware board image_board_type image c =
      let (current, c') = query_board_version board c in
      if not c.port_open || length image == 0
      then (stopped board no_image 0 0, c)
      else if not current.responded
      then (stopped board no_answer 0 0, c')
      else if image_board_type != p.board_type_unknown && current.board_type != image_board_type
      then (stopped board wrong_board_type p.update_unsupported 0, c')
      else if c'.runtime_enabled
      then (stopped board still_running 0 0, c')
      else transfer board image c'
