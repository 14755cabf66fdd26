-- ===== src/Firmware/Upload.antt =====
-- What `UpdateBoardFirmware` of src/RS485Comm.cpp writes to the bus, and hears, when it succeeds.

use libppuc.Common.{
  some, ℕ, ◌%◌, ◌^◌, ◌<◌, ◌≡◌, ◌∙◌, ap, true, List, [], ◌∷◌, ◌++◌, length, push, ◌==◌, ◌!=◌, arith,
  Bool-cases, Option-cases, inl, inr,
}
use mathlib.Core.List.{append_assoc}
use libppuc.Protocol.{Protocol}
use libppuc.State.{Comm}
use libppuc.Port.{write_bytes, flush_input}
use libppuc.Port.Writing.{sent-write_bytes}
use libppuc.Port.Input.{Shrinks, Shrinks-trans}
use libppuc.Config.Wait.{write_bytes-Steady, flush-Steady}
use libppuc.Firmware.Reply.{
  Replied, Replied-Shrinks, await_admin_reply-Shrinks, await_admin_reply-Replied,
}
use libppuc.Session.{next_sequence, flush}
use libppuc.Firmware.{await_admin_reply, send_chunks, commit_update, transfer}
use libppuc.Firmware.Frames.{Uploaded, earlier}
use libppuc.Firmware.Chunks.{sent-await_admin_reply, send_chunks-ChunkFrames}

joined :
    (before : List (List ℕ)) (b : List ℕ) (frames : List (List ℕ)) (commit : List ℕ)
    → push (push before b ++ frames) commit ≡ before ++ (b ∷ (frames ++ (commit ∷ [])))
joined before b frames commit =
    append_assoc (push before b) frames (commit ∷ [])
    ∙ append_assoc before (b ∷ []) (frames ++ (commit ∷ []))

module _ (p : Protocol) where
  -- A commit that succeeds was written, and the board replied that the update is complete.
  abbrev Committed : ℕ → Comm → Comm → Type 0
  Committed board c d =
      (d.world.sent ≡ push c.world.sent (p.build_update_commit_frame board c.sequence c.epoch))
      × ((offset : ℕ) × Replied p board p.admin_update_result p.update_ok offset c.world.input)

  commit_update_lem :
      (board sent : ℕ) (c : Comm)
      → (commit_update p board sent c).0.succeeded ≡ true
      → Committed board c (commit_update p board sent c).1
  unfolding commit_update
  commit_update_lem board sent c =
      let b = p.build_update_commit_frame board c.sequence c.epoch in
      let (written, c1) = write_bytes "UpdateCommit" b (next_sequence c) in
      let (reply, c2) = await_admin_reply p board p.admin_update_result c1 in
      elim (Bool-cases written) [
        | inr e ↦ rw (e, commit_update) (λ h. cc)
        | inl e ↦
            let out : c2.world.sent ≡ push c.world.sent b =
              sent-await_admin_reply p board _ c1
              ∙ sent-write_bytes "UpdateCommit" b (next_sequence c) e in
            elim (Option-cases reply) [
              | inl f ↦ rw (e, f, commit_update) (λ h. cc)
              | inr ((status, offset), f) ↦ elim (Bool-cases (status == p.update_ok)) [
                | inl g ↦
                    let well : status ≡ p.update_ok = ground arith in
                    rw (e, f, g, commit_update)
                      (λ h. (
                        out,
                        (
                          offset,
                          Replied-Shrinks
                              (write_bytes-Steady "UpdateCommit" b (next_sequence c)).input
                              (await_admin_reply-Replied p board p.admin_update_result p.update_ok
                                offset c1 (f ∙ ap (λ s. some (s, offset)) well)),
                        ),
                      ))
                | inr g ↦ rw (e, f, g, commit_update) (λ h. cc)
              ]
            ]
      ]

  -- A transfer that succeeds has uploaded the image.
  pub transfer-Uploaded :
      (board : ℕ) (image : List ℕ) (c : Comm)
      → 0 < p.admin_chunk_bytes
      → p.admin_chunk_bytes < 2 ^ 16
      → (transfer p board image c).0.succeeded ≡ true
      → Uploaded p board image c.world.input c.world.sent (transfer p board image c).1.world.sent
  unfolding transfer flush flush_input
  transfer-Uploaded board image c0 lo hi =
      let n = length image in
      let c = flush c0 in
      let b =
        p.build_update_begin_frame board c.sequence c.epoch (n % 2 ^ 32) (p.crc16_ccitt image) in
      let (written, c1) = write_bytes "UpdateBegin" b (next_sequence c) in
      let (reply, c2) = await_admin_reply p board p.admin_update_begin_ack c1 in
      let (failed, sent, c3) = send_chunks p n board 0 image c2 in
      let k = send_chunks-ChunkFrames p n board 0 image c2 lo hi in
      let last = commit_update_lem board sent c3 in
      let commit = p.build_update_commit_frame board c3.sequence c3.epoch in
      let start : Shrinks c0.world.input c1.world.input =
        Shrinks-trans (flush-Steady c0).input
          (write_bytes-Steady "UpdateBegin" b (next_sequence c)).input in
      let read =
        Shrinks-trans start (await_admin_reply-Shrinks p board p.admin_update_begin_ack c1) in
      elim (Bool-cases written) [
        | inr e ↦ rw (e, transfer) (λ h. cc)
        | inl e ↦
            let out : c2.world.sent ≡ push c0.world.sent b =
              sent-await_admin_reply p board _ c1
              ∙ sent-write_bytes "UpdateBegin" b (next_sequence c) e in
            elim (Option-cases reply) [
              | inl f ↦ rw (e, f, transfer) (λ h. cc)
              | inr ((status, offset), f) ↦ elim (Bool-cases (status != p.update_ok)) [
                | inl g ↦ rw (e, f, g, transfer) (λ h. cc)
                | inr g ↦ elim (Option-cases failed) [
                  | inr ((why, s), q) ↦ rw (e, f, g, q, transfer) (λ h. cc)
                  | inl q ↦
                      let well : status ≡ p.update_ok = ground arith in
                      rw (e, f, g, q, transfer)
                        (λ h.
                          let (frames, chunks, r, to_commit) = k q in
                          let (closed, (final, verdict)) = last h in
                          record {
                            begin_sequence = c.sequence;
                            begin_epoch = c.epoch;
                            begin_offset = offset;
                            commit_sequence = c3.sequence;
                            commit_epoch = c3.epoch;
                            commit_offset = final;
                            chunks = frames;
                            whole_image = earlier read chunks;
                            all =
                                closed
                                ∙ (ap (λ l. push l commit) (r ∙ ap (λ l. l ++ frames) out)
                                    ∙ joined c0.world.sent b frames commit);
                            begun = Replied-Shrinks start (
                                await_admin_reply-Replied p board p.admin_update_begin_ack
                                  p.update_ok offset c1 (f ∙ ap (λ s. some (s, offset)) well));
                            committed = Replied-Shrinks (Shrinks-trans read to_commit) verdict;
                          })
                ]
              ]
            ]
      ]
