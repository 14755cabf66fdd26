-- ===== src/Firmware/Reply.antt =====
-- What `AwaitAdminReply` of src/RS485Comm.cpp takes for a reply, in the bytes that arrive.
use libppuc.Common.{
  ℕ, zero, suc, ◌-◌, ◌≤◌, ◌≡◌, sym, ap, ◌∙◌, inl, inr, true, false, not, ◌||◌, some, List, [], ◌∷◌,
  ◌++◌, length, get_or, drop, ◌==◌, ◌!=◌, arith, Bool-cases, Option-cases,
}
use mathlib.Core.List.{append_assoc}
use libppuc.Protocol.{Protocol}
use libppuc.State.{admin_ack_crc, Message, Comm}
use libppuc.Anomaly.{report}
use libppuc.Port.{blocking_read, read_exact}
use libppuc.Port.Reading.{blocking_read_lem, read_exact_lem}
use libppuc.Port.Input.{Shrinks, Shrinks-refl, Shrinks-trans, Shrinks-drop, read_exact-Shrinks}
use libppuc.Firmware.{admin_frame, reply_loop, await_admin_reply}

-- An admin frame of a board that answers a command, with a status and an offset.
pub record IsReply (p : Protocol) (board command status offset : ℕ) (frame : List ℕ) : Type 0 where
  pub begins : get_or frame 0 0 ≡ p.sync_byte
  pub kind : p.extract_type (get_or frame 1 0) ≡ p.frame_admin
  pub checksum : p.verify_crc frame ≡ true
  pub to_command : get_or (drop p.header_bytes frame) 0 0 ≡ command
  pub from_board : get_or (drop p.header_bytes frame) 1 0 ≡ board
  pub tells : p.read_update_ack (drop p.header_bytes frame) ≡ (status, offset)

-- Such a frame is among the bytes of an input, in one piece.
pub record Replied (p : Protocol) (board command status offset : ℕ) (input : List ℕ) : Type 0 where
  pub frame : List ℕ
  pub before : List ℕ
  pub after : List ℕ
  pub found : input ≡ before ++ (frame ++ after)
  pub reply : IsReply p board command status offset frame

pub Replied-Shrinks :
    {p : Protocol} {board command status offset : ℕ} {before after : List ℕ}
    → Shrinks before after
    → Replied p board command status offset after
    → Replied p board command status offset before
Replied-Shrinks s r = record {
  frame = r.frame;
  before = s.taken ++ r.before;
  after = r.after;
  found =
      s.cut
      ∙ (ap (λ l. s.taken ++ l) r.found ∙ sym (append_assoc s.taken r.before (r.frame ++ r.after)));
  reply = r.reply;
}

one_byte :
    (l : List ℕ) (x : ℕ) → length l ≤ 1 → (length l == 0 || get_or l 0 0 != x) ≡ false → l ≡ x ∷ []
one_byte [] x h k = cc
one_byte (y ∷ []) x h k = ap (λ z. z ∷ []) (ground arith)
one_byte (y ∷ z ∷ l) x h k = ground arith

module _ (p : Protocol) where
  -- A frame that is taken is the next piece of the input.
  admin_frame_lem :
      (n : ℕ) (m : Message) (c : Comm) (f : List ℕ)
      → (admin_frame p n m c).0 ≡ some f
      → (after : List ℕ) × (c.world.input ≡ f ++ after)
        × (get_or f 0 0 ≡ p.sync_byte)
        × (p.extract_type (get_or f 1 0) ≡ p.frame_admin)
        × (p.verify_crc f ≡ true)
  unfolding admin_frame
  admin_frame_lem n m c f =
      let (first, w) = blocking_read 1 c.world in
      let (rest, w') = read_exact (n - 1) w in
      let (cut, few) = blocking_read_lem 1 c.world in
      elim (Bool-cases (length first == 0 || get_or first 0 0 != p.sync_byte)) [
        | inl e ↦ rw (e, admin_frame) (λ h. cc)
        | inr e ↦ elim (Option-cases rest) [
          | inl g ↦ rw (e, g, admin_frame) (λ h. cc)
          | inr (body, g) ↦
              elim (Bool-cases
                (p.extract_type (get_or (p.sync_byte ∷ body) 1 0) != p.frame_admin)) [
                  | inl k ↦ rw (e, g, k, admin_frame) (λ h. cc)
                  | inr k ↦ elim (Bool-cases (not (p.verify_crc (p.sync_byte ∷ body)))) [
                    | inl v ↦ rw (e, g, k, v, admin_frame) (λ h. cc)
                    | inr v ↦
                        let start : first ≡ p.sync_byte ∷ [] = one_byte first p.sync_byte few e in
                        let after = read_exact_lem (n - 1) body w g in
                        rw (e, g, k, v, admin_frame)
                          (λ h.
                            let q : p.sync_byte ∷ body ≡ f = cc in
                            let all : c.world.input ≡ p.sync_byte ∷ (body ++ w'.input) =
                              sym cut
                              ∙ (ap (λ l. l ++ w.input) start
                                  ∙ ap (λ l. p.sync_byte ∷ l) (sym after.1)) in
                            (
                              w'.input,
                              all ∙ ap (λ l. l ++ w'.input) q,
                              ap (λ l. get_or l 0 0) (sym q),
                              ap (λ l. p.extract_type (get_or l 1 0)) (sym q) ∙ ground arith,
                              ap p.verify_crc (sym q) ∙ ground arith,
                            ))
                  ]
                ]
        ]
      ]

  admin_frame-Shrinks :
      (n : ℕ) (m : Message) (c : Comm) → Shrinks c.world.input (admin_frame p n m c).1.world.input
  unfolding admin_frame blocking_read report
  admin_frame-Shrinks n m c =
      let (first, w) = blocking_read 1 c.world in
      let (rest, w') = read_exact (n - 1) w in
      let once = Shrinks-drop _ c.world.input in
      let all = Shrinks-trans once (read_exact-Shrinks (n - 1) w) in
      elim (Bool-cases (length first == 0 || get_or first 0 0 != p.sync_byte)) [
        | inl e ↦ rw (e, admin_frame) once
        | inr e ↦ elim (Option-cases rest) [
          | inl g ↦ rw (e, g, admin_frame) all
          | inr (body, g) ↦
              elim (Bool-cases
                (p.extract_type (get_or (p.sync_byte ∷ body) 1 0) != p.frame_admin)) [
                  | inl k ↦ rw (e, g, k, admin_frame) all
                  | inr k ↦ elim (Bool-cases (not (p.verify_crc (p.sync_byte ∷ body)))) [
                    | inl v ↦ rw (e, g, k, v, admin_frame) all
                    | inr v ↦ rw (e, g, k, v, admin_frame) all
                  ]
                ]
        ]
      ]

  reply_loop-Shrinks :
      (rounds board command : ℕ) (c : Comm)
      → Shrinks c.world.input (reply_loop p rounds board command c).1.world.input
  unfolding reply_loop
  reply_loop-Shrinks zero board command c = Shrinks-refl c.world.input
  reply_loop-Shrinks (suc rounds) board command c =
      let (frame, c') = admin_frame p p.update_ack_frame_bytes (admin_ack_crc board) c in
      let once = admin_frame-Shrinks p.update_ack_frame_bytes (admin_ack_crc board) c in
      let more = Shrinks-trans once (reply_loop-Shrinks rounds board command c') in
      elim (Option-cases frame) [
        | inl e ↦ rw (e, reply_loop) more
        | inr (f, e) ↦
            let payload = drop p.header_bytes f in
            elim (Bool-cases (get_or payload 0 0 != command || get_or payload 1 0 != board)) [
              | inl g ↦ rw (e, g, reply_loop) more
              | inr g ↦ rw (e, g, reply_loop) once
            ]
      ]

  pub await_admin_reply-Shrinks :
      (board command : ℕ) (c : Comm)
      → Shrinks c.world.input (await_admin_reply p board command c).1.world.input
  unfolding await_admin_reply
  await_admin_reply-Shrinks board command c = reply_loop-Shrinks _ board command _

  reply_loop-Replied :
      (rounds board command status offset : ℕ) (c : Comm)
      → (reply_loop p rounds board command c).0 ≡ some (status, offset)
      → Replied p board command status offset c.world.input
  unfolding reply_loop
  reply_loop-Replied zero board command status offset c = λ h. cc
  reply_loop-Replied (suc rounds) board command status offset c =
      let (frame, c') = admin_frame p p.update_ack_frame_bytes (admin_ack_crc board) c in
      let once = admin_frame-Shrinks p.update_ack_frame_bytes (admin_ack_crc board) c in
      let again = reply_loop-Replied rounds board command status offset c' in
      elim (Option-cases frame) [
        | inl e ↦ rw (e, reply_loop) (λ h. Replied-Shrinks once (again h))
        | inr (f, e) ↦
            let payload = drop p.header_bytes f in
            elim (Bool-cases (get_or payload 0 0 != command || get_or payload 1 0 != board)) [
              | inl g ↦ rw (e, g, reply_loop) (λ h. Replied-Shrinks once (again h))
              | inr g ↦
                  let (rest, cut, sync, kind, sum) =
                    admin_frame_lem p.update_ack_frame_bytes (admin_ack_crc board) c f e in
                  rw (e, g, reply_loop)
                    (λ h. record {
                      frame = f;
                      before = [];
                      after = rest;
                      found = cut;
                      reply = record {
                        begins = sync;
                        kind = kind;
                        checksum = sum;
                        to_command = ground arith;
                        from_board = ground arith;
                        tells = cc;
                      };
                    })
            ]
      ]

  pub await_admin_reply-Replied :
      (board command status offset : ℕ) (c : Comm)
      → (await_admin_reply p board command c).0 ≡ some (status, offset)
      → Replied p board command status offset c.world.input
  unfolding await_admin_reply
  await_admin_reply-Replied board command status offset c =
      reply_loop-Replied _ board command status offset _
