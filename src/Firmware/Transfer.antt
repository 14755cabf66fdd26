-- ===== src/Firmware/Transfer.antt =====
-- What `UpdateBoardFirmware` of src/RS485Comm.cpp promises of its result on every path.
use libppuc.Common.{
  ℕ, zero, suc, ◌+◌, ◌%◌, ◌^◌, ◌≤◌, ◌<◌, ◌≡◌, ◌⊎◌, ◌∙◌, refl, ap, sym, Bool, true, false, not, ◌&&◌,
  ◌||◌, Option, none, some, List, [], ◌∷◌, length, take, drop, min, ◌==◌, ◌!=◌, arith, Bool-cases,
  Option-cases, inl, inr, length-drop,
}
use libppuc.Protocol.{Protocol}
use libppuc.State.{Comm}
use libppuc.Port.{write_bytes}
use libppuc.Session.{next_sequence, flush}
use libppuc.Firmware.Frames.{Uploaded}
use libppuc.Firmware.Upload.{transfer-Uploaded}
use libppuc.Firmware.{
  UpdateError, UpdateResult, out_of_rounds, send_chunk, send_chunks, chunk_attempts, stopped,
  commit_update, transfer, update_board_firmware, query_board_version, await_admin_reply,
}

-- An error of the code, not of the model.
abbrev pub is_real : UpdateError → Bool
is_real out_of_rounds = false
is_real e = true

-- The result of an update of an image of `size` bytes, as its fields tell it.
record IsResult (size : ℕ) (r : UpdateResult) : Type 0 where
  within : r.bytes_sent ≤ size
  verdict :
      ((r.succeeded ≡ true) × (r.bytes_sent ≡ size) × (r.error ≡ none))
      ⊎ ((r.succeeded ≡ false) × ((e : UpdateError) × (r.error ≡ some e) × (is_real e ≡ true)))

-- The outcome of an update of a board with an image, from the state `c`.
pub record IsOutcome (p : Protocol) (board : ℕ) (image : List ℕ) (c : Comm)
    (o : UpdateResult × Comm) : Type 0 where
  pub within : o.0.bytes_sent ≤ length image
  pub verdict :
      ((o.0.succeeded ≡ true)
        × (o.0.bytes_sent ≡ length image)
        × (o.0.error ≡ none)
        × Uploaded p board image
            (query_board_version p board c).1.world.input
            (query_board_version p board c).1.world.sent
            o.1.world.sent)
      ⊎ ((o.0.succeeded ≡ false) × ((e : UpdateError) × (o.0.error ≡ some e) × (is_real e ≡ true)))

-- Whether a failure, if any, is one of the code.
abbrev real_failure : Option (UpdateError × ℕ) → Bool
real_failure none = true
real_failure (some (e, s)) = is_real e

-- The same for the chunks alone, of which `size` bytes are wanted.
record IsProgress (size : ℕ) (f : Option (UpdateError × ℕ)) (sent : ℕ) : Type 0 where
  within : sent ≤ size
  complete : f ≡ none → sent ≡ size
  real : real_failure f ≡ true

module _ (p : Protocol) where
  stopped-IsResult :
      (board : ℕ) (e : UpdateError) (status sent size : ℕ)
      → is_real e ≡ true
      → sent ≤ size
      → IsResult size (stopped p board e status sent)
  stopped-IsResult board e status sent size h k = record {
    within = k;
    verdict = inr (refl, (e, refl, h));
  }

  send_chunk_real :
      (left board sent : ℕ) (frame : List ℕ) (c : Comm)
      → real_failure (send_chunk p left board sent frame c).0 ≡ true
  unfolding send_chunk
  send_chunk_real zero board sent frame c = refl
  send_chunk_real (suc left) board sent frame c =
      let (written, c1) = write_bytes "UpdateChunk" frame c in
      let (reply, c2) = await_admin_reply p board p.admin_update_chunk_ack c1 in
      let again = send_chunk_real left board sent frame c2 in
      elim (Bool-cases written) [
        | inr e ↦ rw (e, send_chunk) refl
        | inl e ↦ elim (Option-cases reply) [
          | inl f ↦ rw (e, f, send_chunk) again
          | inr ((status, offset), f) ↦
              elim (Bool-cases (status == p.update_ok && offset == sent)) [
                | inl g ↦ rw (e, f, g, send_chunk) refl
                | inr g ↦ elim (Bool-cases (status != p.update_ok)) [
                  | inl h ↦ rw (e, f, g, h, send_chunk) refl
                  | inr h ↦ rw (e, f, g, h, send_chunk) again
                ]
              ]
        ]
      ]

  send_chunks-IsProgress :
      (fuel board sent : ℕ) (rest : List ℕ) (c : Comm)
      → 0 < p.admin_chunk_bytes
      → p.admin_chunk_bytes < 2 ^ 16
      → length rest ≤ fuel
      → let (f, s, d) = send_chunks p fuel board sent rest c in IsProgress (sent + length rest) f s
  unfolding send_chunks
  send_chunks-IsProgress fuel board sent [] c lo hi h = record {
    within = omega arith;
    complete = λ q. omega arith;
    real = refl;
  }
  send_chunks-IsProgress zero board sent (x ∷ rest) c lo hi h = ground arith
  send_chunks-IsProgress (suc fuel) board sent (x ∷ rest) c lo hi h =
      let all = x ∷ rest in
      let n = min p.admin_chunk_bytes (length all) % 2 ^ 16 in
      let frame =
        p.build_update_chunk_frame board c.sequence c.epoch (sent % 2 ^ 32) (take n all) in
      let (failed, c') = send_chunk p (chunk_attempts p) board sent frame (next_sequence c) in
      let real = send_chunk_real (chunk_attempts p) board sent frame (next_sequence c) in
      let some_bytes : 0 < n = ground arith in
      let few : n ≤ length all = ground arith in
      let len = length-drop n all in
      let more =
        send_chunks-IsProgress fuel board (sent + n) (drop n all) c' lo hi
          (ground (arith, len, some_bytes, few, h)) in
      let sum : sent + n + length (drop n all) ≡ sent + length all = omega (arith, len, few) in
      elim (Option-cases failed) [
        | inl e ↦
            rw (e, send_chunks)
              (record {
                within = omega (arith, more.within, sum);
                complete = λ q. more.complete q ∙ sum;
                real = more.real;
              })
        | inr (f, e) ↦
            rw (e, send_chunks)
              (record {
                within = omega arith;
                complete = λ q. ground arith;
                real = ap real_failure (sym e) ∙ real;
              })
      ]

  commit_update-IsResult :
      (board sent size : ℕ) (c : Comm)
      → sent ≡ size
      → IsResult size (commit_update p board sent c).0
  unfolding commit_update
  commit_update-IsResult board sent size c q =
      let b = p.build_update_commit_frame board c.sequence c.epoch in
      let (written, c1) = write_bytes "UpdateCommit" b (next_sequence c) in
      let (reply, c2) = await_admin_reply p board p.admin_update_result c1 in
      elim (Bool-cases written) [
        | inr e ↦ rw (e, commit_update) (stopped-IsResult board _ 0 sent size refl (omega arith))
        | inl e ↦ elim (Option-cases reply) [
          | inl f ↦
              rw (e, f, commit_update) (stopped-IsResult board _ 0 sent size refl (omega arith))
          | inr ((status, offset), f) ↦ elim (Bool-cases (status == p.update_ok)) [
            | inl g ↦
                rw (e, f, g, commit_update)
                  (record { within = omega arith; verdict = inl (refl, q, refl) })
            | inr g ↦
                rw (e, f, g, commit_update)
                  (stopped-IsResult board _ status sent size refl (omega arith))
          ]
        ]
      ]

  transfer-IsResult :
      (board : ℕ) (image : List ℕ) (c : Comm)
      → 0 < p.admin_chunk_bytes
      → p.admin_chunk_bytes < 2 ^ 16
      → IsResult (length image) (transfer p board image c).0
  unfolding transfer
  transfer-IsResult board image c0 lo hi =
      let n = length image in
      let c = flush c0 in
      let b =
        p.build_update_begin_frame board c.sequence c.epoch (n % 2 ^ 32) (p.crc16_ccitt image) in
      let (written, c1) = write_bytes "UpdateBegin" b (next_sequence c) in
      let (reply, c2) = await_admin_reply p board p.admin_update_begin_ack c1 in
      let (failed, sent, c3) = send_chunks p n board 0 image c2 in
      let k = send_chunks-IsProgress n board 0 image c2 lo hi (omega arith) in
      let none_sent = λ (e : UpdateError) (status : ℕ) (h : is_real e ≡ true).
        stopped-IsResult board e status 0 n h (omega arith) in
      elim (Bool-cases written) [
        | inr e ↦ rw (e, transfer) (none_sent _ 0 refl)
        | inl e ↦ elim (Option-cases reply) [
          | inl f ↦ rw (e, f, transfer) (none_sent _ 0 refl)
          | inr ((status, offset), f) ↦ elim (Bool-cases (status != p.update_ok)) [
            | inl g ↦ rw (e, f, g, transfer) (none_sent _ status refl)
            | inr g ↦ elim (Option-cases failed) [
              | inl h ↦
                  rw (e, f, g, h, transfer)
                    (commit_update-IsResult board sent n c3 (k.complete h ∙ omega arith))
              | inr ((why, s), h) ↦
                  rw (e, f, g, h, transfer)
                    (stopped-IsResult board why s sent n (ap real_failure (sym h) ∙ k.real)
                      (omega (arith, k.within)))
            ]
          ]
        ]
      ]

  result_lem :
      (board type : ℕ) (image : List ℕ) (c : Comm)
      → 0 < p.admin_chunk_bytes
      → p.admin_chunk_bytes < 2 ^ 16
      → IsResult (length image) (update_board_firmware p board type image c).0
  unfolding update_board_firmware
  result_lem board type image c lo hi =
      let n = length image in
      let (current, c') = query_board_version p board c in
      let nothing = λ (e : UpdateError) (status : ℕ) (h : is_real e ≡ true).
        stopped-IsResult board e status 0 n h (omega arith) in
      elim (Bool-cases (not c.port_open || length image == 0)) [
        | inl e ↦ rw (e, update_board_firmware) (nothing _ 0 refl)
        | inr e ↦ elim (Bool-cases current.responded) [
          | inr f ↦ rw (e, f, update_board_firmware) (nothing _ 0 refl)
          | inl f ↦ elim (Bool-cases (type != p.board_type_unknown && current.board_type != type)) [
            | inl g ↦ rw (e, f, g, update_board_firmware) (nothing _ _ refl)
            | inr g ↦ elim (Bool-cases c'.runtime_enabled) [
              | inl h ↦ rw (e, f, g, h, update_board_firmware) (nothing _ 0 refl)
              | inr h ↦
                  rw (e, f, g, h, update_board_firmware) (transfer-IsResult board image c' lo hi)
            ]
          ]
        ]
      ]

  uploaded_lem :
      (board type : ℕ) (image : List ℕ) (c : Comm)
      → 0 < p.admin_chunk_bytes
      → p.admin_chunk_bytes < 2 ^ 16
      → (update_board_firmware p board type image c).0.succeeded ≡ true
      → Uploaded p board image
          (query_board_version p board c).1.world.input
          (query_board_version p board c).1.world.sent
          (update_board_firmware p board type image c).1.world.sent
  unfolding update_board_firmware
  uploaded_lem board type image c lo hi =
      let (current, c') = query_board_version p board c in
      elim (Bool-cases (not c.port_open || length image == 0)) [
        | inl e ↦ rw (e, update_board_firmware) (λ q. cc)
        | inr e ↦ elim (Bool-cases current.responded) [
          | inr f ↦ rw (e, f, update_board_firmware) (λ q. cc)
          | inl f ↦ elim (Bool-cases (type != p.board_type_unknown && current.board_type != type)) [
            | inl g ↦ rw (e, f, g, update_board_firmware) (λ q. cc)
            | inr g ↦ elim (Bool-cases c'.runtime_enabled) [
              | inl h ↦ rw (e, f, g, h, update_board_firmware) (λ q. cc)
              | inr h ↦
                  rw (e, f, g, h, update_board_firmware) (transfer-Uploaded p board image c' lo hi)
            ]
          ]
        ]
      ]

  -- An update always ends with one of the results of the code, and never claims more bytes than the
  -- image has. If it succeeds, then all bytes are claimed, there is no error, and what was written
  -- after the query for the version is the begin with the size and checksum of the image, then the
  -- chunks, which carry the whole image piece by piece, in order and without a gap, each written one
  -- to three times, and then the commit; and among the bytes that arrive after the query is a reply
  -- of the board with the status OK to the begin, to each chunk with its offset, and to the commit.
  -- If it fails, then it has its reason. The chunks of the protocol have at least one byte and fit
  -- their 16-bit length.
  pub update_board_firmware-IsOutcome :
      (board type : ℕ) (image : List ℕ) (c : Comm)
      → 0 < p.admin_chunk_bytes
      → p.admin_chunk_bytes < 2 ^ 16
      → IsOutcome p board image c (update_board_firmware p board type image c)
  update_board_firmware-IsOutcome board type image c lo hi =
      let result = result_lem board type image c lo hi in
      let uploaded = uploaded_lem board type image c lo hi in
      record {
        within = result.within;
        verdict = elim result.verdict [
          | inl (a, b, e) ↦ inl (a, b, e, uploaded a)
          | inr (a, b) ↦ inr (a, b)
        ];
      }
