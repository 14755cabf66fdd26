-- ===== src/Firmware/Frames.antt =====
-- The frames of an update by `UpdateBoardFirmware` of src/RS485Comm.cpp, and the replies to them.

use libppuc.Common.{ℕ, ◌+◌, ◌%◌, ◌^◌, ◌≤◌, ◌<◌, ◌≡◌, List, [], ◌∷◌, ◌++◌, length, replicate}
use libppuc.Protocol.{Protocol}
use libppuc.Port.Input.{Shrinks}
use libppuc.Firmware.Reply.{Replied, Replied-Shrinks}

-- The frames that carry `rest`, from offset `offset` of the image on: piece by piece, each of them at
-- least once and at most three times, in order and without a gap. Each piece is acknowledged, with the
-- offset that it begins at, in the bytes that arrive.
pub data ChunkFrames (p : Protocol) (board : ℕ) (input : List ℕ)
    : ℕ → List ℕ → List (List ℕ) → Type 0 where
  finished : {offset : ℕ} → ChunkFrames p board input offset [] []
  piece :
      {offset : ℕ} {rest more : List ℕ} {frames later : List (List ℕ)} (bytes : List ℕ)
      (sequence epoch times : ℕ)
      → rest ≡ bytes ++ more
      → 0 < length bytes
      → length bytes ≤ p.admin_chunk_bytes
      → 1 ≤ times
      → times ≤ 3
      → frames
        ≡ replicate times (p.build_update_chunk_frame board sequence epoch (offset % 2 ^ 32) bytes)
          ++ later
      → Replied p board p.admin_update_chunk_ack p.update_ok offset input
      → ChunkFrames p board input (offset + length bytes) more later
      → ChunkFrames p board input offset rest frames

-- An upload: the begin with size and checksum of the image, all of its chunks, and the commit, in the
-- frames that were written; and the board's replies that all is well, in the bytes that arrive.
pub record Uploaded (p : Protocol) (board : ℕ) (image : List ℕ) (input : List ℕ)
    (before after : List (List ℕ)) : Type 0 where
  pub begin_sequence : ℕ
  pub begin_epoch : ℕ
  pub begin_offset : ℕ
  pub commit_sequence : ℕ
  pub commit_epoch : ℕ
  pub commit_offset : ℕ
  pub chunks : List (List ℕ)
  pub whole_image : ChunkFrames p board input 0 image chunks
  pub all :
      after
      ≡ before
        ++ (p.build_update_begin_frame board begin_sequence begin_epoch
              (length image % 2 ^ 32)
              (p.crc16_ccitt image)
            ∷ (chunks ++ (p.build_update_commit_frame board commit_sequence commit_epoch ∷ [])))
  pub begun : Replied p board p.admin_update_begin_ack p.update_ok begin_offset input
  pub committed : Replied p board p.admin_update_result p.update_ok commit_offset input

pub earlier :
    {p : Protocol} {board : ℕ} {input later : List ℕ} {offset : ℕ} {rest : List ℕ}
    {frames : List (List ℕ)}
    → Shrinks input later
    → ChunkFrames p board later offset rest frames
    → ChunkFrames p board input offset rest frames
earlier s finished = finished
earlier s (piece bytes sequence epoch times cut some_bytes few least most all reply more) =
    piece bytes sequence epoch times cut some_bytes few least most all (Replied-Shrinks s reply)
      (earlier s more)
