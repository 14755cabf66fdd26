-- ===== src/Config/Acked.antt =====
-- What `ReceiveConfigAck` of src/RS485Comm.cpp takes for an acknowledgement, in the bytes that arrive.
use libppuc.Common.{
  ℕ, ◌+◌, ◌-◌, ◌*◌, ◌<◌, ◌≡◌, ◌≢◌, refl, sym, ap, ◌∙◌, inl, inr, true, ◌||◌, some, List, [], ◌∷◌,
  ◌++◌, length, get_or, take, ◌!=◌, ltb, arith, Bool-cases, Option-cases,
}
use mathlib.Core.List.{append_assoc}
use libppuc.Protocol.{Protocol}
use libppuc.State.{Comm}
use libppuc.Port.Input.{Shrinks}
use libppuc.Config.{drain_frame, other_payload, check_ack}

-- A frame that acknowledges what was sent to a board under a topic, an index and a key.
pub record IsAck (p : Protocol) (board topic index key : ℕ) (frame : List ℕ) : Type 0 where
  pub size : length frame ≡ p.header_bytes + p.config_ack_payload_bytes + p.crc_bytes
  pub begins : get_or frame 0 0 ≡ p.sync_byte
  pub kind : p.extract_type (get_or frame 1 0) ≡ p.frame_config_ack
  pub checksum :
      get_or frame (length frame - 2) 0 * 256 + get_or frame (length frame - 1) 0
      ≡ p.crc16_ccitt (take (p.header_bytes + p.config_ack_payload_bytes) frame)
  pub from_board : get_or frame 5 0 ≡ board
  pub of_topic : get_or frame 6 0 ≡ topic
  pub of_index : get_or frame 7 0 ≡ index
  pub of_key : get_or frame 8 0 ≡ key
  pub accepts : get_or frame 9 0 ≡ p.config_ack_accepted

-- Such a frame is among the bytes of an input, in one piece.
pub record Acknowledged (p : Protocol) (board topic index key : ℕ) (input : List ℕ) : Type 0 where
  pub frame : List ℕ
  pub before : List ℕ
  pub after : List ℕ
  pub found : input ≡ before ++ (frame ++ after)
  pub ack : IsAck p board topic index key frame

pub single : (l : List ℕ) → length l ≡ 1 → l ≡ get_or l 0 0 ∷ []
single [] h = ground arith
single (x ∷ []) h = refl
single (x ∷ y ∷ l) h = ground arith

pub front : (h body : List ℕ) → 0 < length h → get_or (h ++ body) 0 0 ≡ get_or h 0 0
front [] body h = ground arith
front (x ∷ l) body h = refl

module _ (p : Protocol) (board topic index key : ℕ) where
  pub Acknowledged-Shrinks :
      {before after : List ℕ}
      → Shrinks before after
      → Acknowledged p board topic index key after
      → Acknowledged p board topic index key before
  Acknowledged-Shrinks s a = record {
    frame = a.frame;
    before = s.taken ++ a.before;
    after = a.after;
    found =
        s.cut
        ∙ (ap (λ l. s.taken ++ l) a.found
            ∙ sym (append_assoc s.taken a.before (a.frame ++ a.after)));
    ack = a.ack;
  }

  pub check_ack_lem :
      (b : List ℕ) (c : Comm)
      → (check_ack p board topic index key b c).0 ≡ some true
      → let n = p.header_bytes + p.config_ack_payload_bytes + p.crc_bytes in
        (get_or b (n - 2) 0 * 256 + get_or b (n - 1) 0
          ≡ p.crc16_ccitt (take (p.header_bytes + p.config_ack_payload_bytes) b))
        × (get_or b 5 0 ≡ board)
        × (get_or b 6 0 ≡ topic)
        × (get_or b 7 0 ≡ index)
        × (get_or b 8 0 ≡ key)
        × (get_or b 9 0 ≡ p.config_ack_accepted)
  unfolding check_ack
  check_ack_lem b c =
      let n = p.header_bytes + p.config_ack_payload_bytes + p.crc_bytes in
      let received = get_or b (n - 2) 0 * 256 + get_or b (n - 1) 0 in
      let crc = p.crc16_ccitt (take (p.header_bytes + p.config_ack_payload_bytes) b) in
      let other =
        get_or b 5 0 != board
        || get_or b 6 0 != topic
        || (get_or b 7 0 != index || get_or b 8 0 != key) in
      elim (Bool-cases (received != crc)) [
        | inl e ↦ rw (e, check_ack) (λ h. cc)
        | inr e ↦ elim (Bool-cases other) [
          | inl f ↦ rw (e, f, check_ack) (λ h. cc)
          | inr f ↦ elim (Bool-cases (get_or b 9 0 != p.config_ack_accepted)) [
            | inl g ↦ rw (e, f, g, check_ack) (λ h. cc)
            | inr g ↦
                rw (e, f, g, check_ack)
                  (λ h. (
                    ground arith,
                    ground arith,
                    ground arith,
                    ground arith,
                    ground arith,
                    ground arith,
                  ))
          ]
        ]
      ]

  pub drain_frame_lem : (t : ℕ) (c : Comm) → (drain_frame p t c).0 ≢ some true
  unfolding drain_frame
  drain_frame_lem t c = elim (Option-cases (other_payload p t)) [
    | inl e ↦ rw (e, drain_frame) (λ h. cc)
    | inr (n, e) ↦
        elim (Bool-cases
          (ltb (p.header_bytes + p.config_payload_bytes + p.crc_bytes) (n + p.crc_bytes))) [
            | inl f ↦ rw (e, f, drain_frame) (λ h. cc)
            | inr f ↦ rw (e, f, drain_frame) (λ h. cc)
          ]
  ]
