-- ===== src/Firmware/Chunks.antt =====
-- What `UpdateBoardFirmware` of src/RS485Comm.cpp writes and hears for the chunks of an image.
use Prim.Native.String.{String}
use libppuc.Common.{
  some, ℕ, zero, suc, ◌+◌, ◌%◌, ◌^◌, ◌≤◌, ◌<◌, ◌≡◌, ◌∙◌, refl, ap, sym, subst, ◌&&◌, none, List, [],
  ◌∷◌, ◌++◌, length, take, drop, push, ◌-◌, replicate, min, ◌==◌, ◌!=◌, arith, Bool-cases,
  Option-cases, inl, inr, length-take,
}
use mathlib.Core.List.{append_assoc, append-nil}
use libppuc.Protocol.{Protocol}
use libppuc.State.{admin_ack_crc, Message, Comm}
use libppuc.Anomaly.{report}
use libppuc.Port.{blocking_read, write_bytes}
use libppuc.Port.Reading.{sent-read_exact, take-append-drop}
use libppuc.Port.Writing.{sent-write_bytes}
use libppuc.Port.Input.{Shrinks, Shrinks-refl, Shrinks-trans}
use libppuc.Config.Wait.{write_bytes-Steady}
use libppuc.Firmware.Reply.{
  Replied, Replied-Shrinks, await_admin_reply-Shrinks, await_admin_reply-Replied,
}
use libppuc.Session.{next_sequence}
use libppuc.Firmware.{
  admin_frame, reply_loop, await_admin_reply, send_chunk, send_chunks, chunk_attempts,
}
use libppuc.Firmware.Frames.{ChunkFrames, finished, piece, earlier}

module _ (p : Protocol) where
  sent-admin_frame :
      (n : ℕ) (m : Message) (c : Comm) → (admin_frame p n m c).1.world.sent ≡ c.world.sent
  unfolding admin_frame blocking_read report
  sent-admin_frame n m c = ground (arith, sent-read_exact (n - 1) (blocking_read 1 c.world).1)

  sent-reply_loop :
      (rounds board command : ℕ) (c : Comm)
      → (reply_loop p rounds board command c).1.world.sent ≡ c.world.sent
  unfolding reply_loop
  sent-reply_loop zero board command c = refl
  sent-reply_loop (suc rounds) board command c = ground (
    arith,
    sent-admin_frame p.update_ack_frame_bytes (admin_ack_crc board) c,
    sent-reply_loop rounds board command
        (admin_frame p p.update_ack_frame_bytes (admin_ack_crc board) c).1,
  )

  pub sent-await_admin_reply :
      (board command : ℕ) (c : Comm)
      → (await_admin_reply p board command c).1.world.sent ≡ c.world.sent
  unfolding await_admin_reply
  sent-await_admin_reply board command c = sent-reply_loop _ board command _

  -- A chunk was written at least once and at most `limit` times, and acknowledged.
  record Delivered (limit board offset : ℕ) (frame : List ℕ) (c d : Comm) : Type 0 where
    times : ℕ
    least : 1 ≤ times
    most : times ≤ limit
    written : d.world.sent ≡ c.world.sent ++ replicate times frame
    reply : Replied p board p.admin_update_chunk_ack p.update_ok offset c.world.input
    input : Shrinks c.world.input d.world.input

  once_more :
      (left board offset : ℕ) (frame : List ℕ) (c d e : Comm)
      → d.world.sent ≡ push c.world.sent frame
      → Shrinks c.world.input d.world.input
      → Delivered left board offset frame d e
      → Delivered (suc left) board offset frame c e
  once_more left board offset frame c d e out read k = record {
    times = suc k.times;
    least = omega arith;
    most = omega (arith, k.most);
    written =
        k.written
        ∙ (ap (λ l. l ++ replicate k.times frame) out
            ∙ append_assoc c.world.sent (frame ∷ []) (replicate k.times frame));
    reply = Replied-Shrinks read k.reply;
    input = Shrinks-trans read k.input;
  }

  -- A write with the wait for a reply after it reads the input from its front.
  pub asked :
      (s : String) (b : List ℕ) (board command : ℕ) (c : Comm)
      → Shrinks c.world.input
          (await_admin_reply p board command (write_bytes s b c).1).1.world.input
  asked s b board command c =
      Shrinks-trans (write_bytes-Steady s b c).input (await_admin_reply-Shrinks p board command _)

  -- A chunk that succeeds was written, once for each attempt, and acknowledged.
  send_chunk-Delivered :
      (left board offset : ℕ) (frame : List ℕ) (c : Comm)
      → (send_chunk p left board offset frame c).0 ≡ none
      → Delivered left board offset frame c (send_chunk p left board offset frame c).1
  unfolding send_chunk
  send_chunk-Delivered zero board offset frame c = λ h. cc
  send_chunk-Delivered (suc left) board offset frame c =
      let (written, c1) = write_bytes "UpdateChunk" frame c in
      let (reply, c2) = await_admin_reply p board p.admin_update_chunk_ack c1 in
      let again = send_chunk-Delivered left board offset frame c2 in
      let last = (send_chunk p left board offset frame c2).1 in
      let read = asked "UpdateChunk" frame board p.admin_update_chunk_ack c in
      elim (Bool-cases written) [
        | inr e ↦ rw (e, send_chunk) (λ h. cc)
        | inl e ↦
            let out : c2.world.sent ≡ push c.world.sent frame =
              sent-await_admin_reply board _ c1 ∙ sent-write_bytes "UpdateChunk" frame c e in
            let more = λ (h : (send_chunk p left board offset frame c2).0 ≡ none).
              once_more left board offset frame c c2 last out read (again h) in
            elim (Option-cases reply) [
              | inl f ↦ rw (e, f, send_chunk) more
              | inr ((status, reached), f) ↦
                  elim (Bool-cases (status == p.update_ok && reached == offset)) [
                    | inl g ↦
                        let a : status ≡ p.update_ok = ground arith in
                        let b : reached ≡ offset = ground arith in
                        rw (e, f, g, send_chunk)
                          (λ h. record {
                            times = 1;
                            least = omega arith;
                            most = omega arith;
                            written = out;
                            reply =
                                Replied-Shrinks (write_bytes-Steady "UpdateChunk" frame c).input (
                                  await_admin_reply-Replied p board p.admin_update_chunk_ack
                                    p.update_ok offset c1
                                    (f
                                      ∙ (ap (λ s. some (s, reached)) a
                                          ∙ ap (λ o. some (p.update_ok, o)) b)));
                            input = read;
                          })
                    | inr g ↦ elim (Bool-cases (status != p.update_ok)) [
                      | inl k ↦ rw (e, f, g, k, send_chunk) (λ h. cc)
                      | inr k ↦ rw (e, f, g, k, send_chunk) more
                    ]
                  ]
            ]
      ]

  -- Chunks that all succeed are the pieces of what is left.
  pub send_chunks-ChunkFrames :
      (fuel board offset : ℕ) (rest : List ℕ) (c : Comm)
      → 0 < p.admin_chunk_bytes
      → p.admin_chunk_bytes < 2 ^ 16
      → (send_chunks p fuel board offset rest c).0 ≡ none
      → (frames : List (List ℕ)) × ChunkFrames p board c.world.input offset rest frames
        × ((send_chunks p fuel board offset rest c).2.world.sent ≡ c.world.sent ++ frames)
        × Shrinks c.world.input (send_chunks p fuel board offset rest c).2.world.input
  unfolding send_chunks
  send_chunks-ChunkFrames fuel board offset [] c lo hi =
      λ h. ([], finished, sym (append-nil c.world.sent), Shrinks-refl c.world.input)
  send_chunks-ChunkFrames zero board offset (x ∷ rest) c lo hi = λ h. cc
  send_chunks-ChunkFrames (suc fuel) board offset (x ∷ rest) c lo hi =
      let all = x ∷ rest in
      let n = min p.admin_chunk_bytes (length all) % 2 ^ 16 in
      let frame =
        p.build_update_chunk_frame board c.sequence c.epoch (offset % 2 ^ 32) (take n all) in
      let (failed, c') = send_chunk p (chunk_attempts p) board offset frame (next_sequence c) in
      let one = send_chunk-Delivered (chunk_attempts p) board offset frame (next_sequence c) in
      let more = send_chunks-ChunkFrames fuel board (offset + n) (drop n all) c' lo hi in
      let len : length (take n all) ≡ n = ground (arith, length-take n all) in
      elim (Option-cases failed) [
        | inr (f, e) ↦ rw (e, send_chunks) (λ h. cc)
        | inl e ↦
            rw (e, send_chunks)
              (λ h.
                let k = one e in
                let (later, chunks, r, read) = more h in
                (
                  replicate k.times frame ++ later,
                  piece (take n all) c.sequence c.epoch k.times (sym (take-append-drop n all))
                      (ground (arith, len)) (ground (arith, len)) k.least k.most refl k.reply
                      (subst
                        (λ i. ChunkFrames p board c.world.input (offset + i) (drop n all) later)
                        (sym len) (earlier k.input chunks)),
                  r
                      ∙ (ap (λ l. l ++ later) k.written
                          ∙ append_assoc c.world.sent (replicate k.times frame) later),
                  Shrinks-trans k.input read,
                ))
      ]
