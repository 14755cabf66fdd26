-- ===== src/Switches/Reply.antt =====
-- What `ReceiveSwitchStateFrame` of src/RS485Comm.cpp does to the rest of the host, and what its
-- checks of a reply decide.
use Prim.Native.String.{String}
use libppuc.Common.{
  ℕ, zero, suc, ◌+◌, ◌-◌, ◌≡◌, refl, ◌∙◌, inl, inr, ◌⊎◌, Bool, true, ◌&&◌, ◌||◌, Option, none, some,
  List, length, get_or, take, drop, ◌==◌, ◌!=◌, arith, if_elim, Bool-cases, Option-cases,
}
use libppuc.Common.Bits.{or_u8}
use libppuc.Protocol.{Protocol}
use libppuc.State.{Anomaly, serial_write, Message, write_incomplete, World, Comm}
use libppuc.Anomaly.{report}
use libppuc.Port.{write_result, blocking_write, write_bytes, read_exact}
use libppuc.Boards.{note_switch_activity}
use libppuc.Switches.Bitmap.{diff_bit, diff_from, apply_switch_bitmap_diff}
use libppuc.Switches.Receive.{
  has_flag, check_epoch, check_sequence, check_flags, note_flags, check_status, received_crc,
  accept_reply, read_one_byte, reply_payload, read_reply, read_header, reply_timed_out, rounds_now,
  reply_loop, receive_switch_state_frame,
}

-- The counts of chains and the outputs stay, and a wish to restart the session is not forgotten.
pub record Kept (c d : Comm) : Type 0 where
  pub counters : d.counters ≡ c.counters
  pub misses : d.reply_misses ≡ c.reply_misses
  pub epoch : d.epoch ≡ c.epoch
  pub outputs : d.outputs ≡ c.outputs
  pub wish : c.need_resync ≡ true → d.need_resync ≡ true

pub Kept-refl : (c : Comm) → Kept c c
Kept-refl c = record { counters = refl; misses = refl; epoch = refl; outputs = refl; wish = λ h. h }

pub Kept-trans : {c d e : Comm} → Kept c d → Kept d e → Kept c e
Kept-trans k l = record {
  counters = l.counters ∙ k.counters;
  misses = l.misses ∙ k.misses;
  epoch = l.epoch ∙ k.epoch;
  outputs = l.outputs ∙ k.outputs;
  wish = λ h. l.wish (k.wish h);
}

pub world-Kept : (c : Comm) (w : World) → Kept c (record c { world = w })
world-Kept c w = record {
  counters = refl;
  misses = refl;
  epoch = refl;
  outputs = refl;
  wish = λ h. h;
}

pub report-Kept : (k : Anomaly) (m : Message) (c : Comm) → Kept c (report k m c)
unfolding report
report-Kept k m c = record {
  counters = refl;
  misses = refl;
  epoch = refl;
  outputs = refl;
  wish = λ h. h;
}

write_result-Kept :
    (s : String) (b : List ℕ) (c : Comm) (r : Option ℕ) → Kept c (write_result s b c r).1
unfolding write_result
write_result-Kept s b c none = report-Kept _ _ c
write_result-Kept s b c (some n) =
    ground (arith, Kept-refl c, report-Kept serial_write (write_incomplete s n (length b)) c)

pub write_bytes-Kept : (s : String) (b : List ℕ) (c : Comm) → Kept c (write_bytes s b c).1
unfolding write_bytes
write_bytes-Kept s b c =
    if_elim {A = Bool × Comm} (λ r. Kept c r.1) c.port_open _ _
      (λ _.
        Kept-trans (world-Kept c _)
          (write_result-Kept s b (record c { world = (blocking_write b c.world).1 }) _))
      (λ _. Kept-refl c)

diff_bit-Kept :
    (p : Protocol) (mask : Option (List ℕ)) (new : List ℕ) (n : ℕ) (c : Comm)
    → Kept c (diff_bit p mask new n c)
unfolding diff_bit note_switch_activity
diff_bit-Kept p mask new n c = record {
  counters = ground arith;
  misses = ground arith;
  epoch = ground arith;
  outputs = ground arith;
  wish = ground arith;
}

diff_from-Kept :
    (p : Protocol) (mask : Option (List ℕ)) (new : List ℕ) (k n : ℕ) (c : Comm)
    → Kept c (diff_from p mask new k n c)
unfolding diff_from
diff_from-Kept p mask new zero n c = Kept-refl c
diff_from-Kept p mask new (suc k) n c =
    Kept-trans (diff_bit-Kept p mask new n c) (diff_from-Kept p mask new k (n + 1) _)

apply-Kept :
    (p : Protocol) (board : ℕ) (new : List ℕ) (bytes : ℕ) (c : Comm)
    → Kept c (apply_switch_bitmap_diff p board new bytes c)
unfolding apply_switch_bitmap_diff
apply-Kept p board new bytes c =
    let k = diff_from-Kept p _ new c.runtime_config.switch_bits 0 c in
    record {
      counters = k.counters;
      misses = k.misses;
      epoch = k.epoch;
      outputs = k.outputs;
      wish = k.wish;
    }

resync-diff_from :
    (p : Protocol) (mask : Option (List ℕ)) (new : List ℕ) (k n : ℕ) (c : Comm)
    → (diff_from p mask new k n c).need_resync ≡ c.need_resync
unfolding diff_from diff_bit note_switch_activity
resync-diff_from p mask new zero n c = refl
resync-diff_from p mask new (suc k) n c =
    resync-diff_from p mask new k (n + 1) (diff_bit p mask new n c) ∙ ground arith

resync-apply :
    (p : Protocol) (board : ℕ) (new : List ℕ) (bytes : ℕ) (c : Comm)
    → (apply_switch_bitmap_diff p board new bytes c).need_resync ≡ c.need_resync
unfolding apply_switch_bitmap_diff
resync-apply p board new bytes c = resync-diff_from p _ new c.runtime_config.switch_bits 0 c

resync-report : (k : Anomaly) (m : Message) (c : Comm) → (report k m c).need_resync ≡ c.need_resync
unfolding report
resync-report k m c = refl

switches-report : (k : Anomaly) (m : Message) (c : Comm) → (report k m c).switches ≡ c.switches
unfolding report
switches-report k m c = refl

module _ (p : Protocol) where
  -- What a reply says of the session: the epoch and sequence that it has seen, and its flags.
  abbrev pub disagrees : List ℕ → Comm → Bool
  disagrees frame c =
      get_or frame p.header_bytes 0 != c.epoch
      || (get_or frame (p.header_bytes + 1) 0 != c.last_output_sequence
          || has_flag (get_or frame (p.header_bytes + 2) 0) (
              or_u8 (or_u8 p.status_needs_setup p.status_mapping_incomplete) p.status_sequence_gap))

  -- The checks of the status bytes set the wish exactly if the reply disagrees, and touch nothing
  -- else but the anomalies.
  check_status_lem :
      (board : ℕ) (frame : List ℕ) (c : Comm)
      → let d = check_status p board frame c in
        (d.need_resync ≡ (c.need_resync || disagrees frame c))
        × (d.switches ≡ c.switches)
        × (d.counters ≡ c.counters)
        × (d.reply_misses ≡ c.reply_misses)
        × (d.epoch ≡ c.epoch)
        × (d.outputs ≡ c.outputs)
  unfolding check_status check_epoch check_sequence check_flags note_flags report
  check_status_lem board frame c = ground arith

  -- A reply is taken exactly if its CRC is right. The wish to restart the session is set by what
  -- the reply says of the session, whatever its CRC, and a reply with a wrong CRC leaves the
  -- switches and their queue as they are.
  pub accept_reply_lem :
      (board type : ℕ) (frame : List ℕ) (c : Comm)
      → let (taken, d) = accept_reply p board type frame c in
        (taken ≡ (
          received_crc frame (length frame)
          == p.crc16_ccitt (take (length frame - p.crc_bytes) frame)))
        × (d.need_resync ≡ (c.need_resync || disagrees frame c))
        × ((taken ≡ true) ⊎ (d.switches ≡ c.switches))
  unfolding accept_reply
  accept_reply_lem board type frame c =
      let n = length frame in
      let crc = p.crc16_ccitt (take (n - p.crc_bytes) frame) in
      let d = check_status p board frame c in
      let (w, s, _, _, _, _) = check_status_lem board frame c in
      let bits = drop (p.header_bytes + p.switch_status_bytes) frame in
      let bytes = p.bits_to_bytes c.runtime_config.switch_bits in
      elim (Bool-cases (received_crc frame n != crc)) [
        | inl e ↦
            rw (e, accept_reply)
              (ground arith, resync-report _ _ d ∙ w, inr (switches-report _ _ d ∙ s))
        | inr e ↦ elim (Bool-cases (type == p.frame_switch_state)) [
          | inl f ↦
              rw (e, f, accept_reply)
                (ground arith, resync-apply p board bits bytes d ∙ w, inl refl)
          | inr f ↦ rw (e, f, accept_reply) (ground arith, w, inl refl)
        ]
      ]

  check_status-Kept :
      (board : ℕ) (frame : List ℕ) (c : Comm) → Kept c (check_status p board frame c)
  check_status-Kept board frame c =
      let (w, _, k, m, e, o) = check_status_lem board frame c in
      record { counters = k; misses = m; epoch = e; outputs = o; wish = λ h. ground arith }

  accept_reply-Kept :
      (board type : ℕ) (frame : List ℕ) (c : Comm) → Kept c (accept_reply p board type frame c).1
  unfolding accept_reply
  accept_reply-Kept board type frame c =
      let n = length frame in
      let crc = p.crc16_ccitt (take (n - p.crc_bytes) frame) in
      let k = check_status-Kept board frame c in
      elim (Bool-cases (received_crc frame n != crc)) [
        | inl e ↦ rw (e, accept_reply) (Kept-trans k (report-Kept _ _ _))
        | inr e ↦ elim (Bool-cases (type == p.frame_switch_state)) [
          | inl f ↦ rw (e, f, accept_reply) (Kept-trans k (apply-Kept p board _ _ _))
          | inr f ↦ rw (e, f, accept_reply) k
        ]
      ]

  read_reply-Kept :
      (board : ℕ) (header : List ℕ) (next : ℕ) (c : Comm)
      → Kept c (read_reply p board header next c).2
  unfolding read_reply
  read_reply-Kept board header next c =
      elim (Option-cases (reply_payload p (p.extract_type (get_or header 1 0)) c)) [
        | inl e ↦ rw (e, read_reply) (Kept-refl c)
        | inr (n, e) ↦ elim (Option-cases (read_exact (n + p.crc_bytes) c.world).0) [
          | inl f ↦ rw (e, read_reply, f) (world-Kept c _)
          | inr (body, f) ↦
              rw (e, read_reply, f) (Kept-trans (world-Kept c _) (accept_reply-Kept board _ _ _))
        ]
      ]

  read_header-Kept : (board next : ℕ) (c : Comm) → Kept c (read_header p board next c).2
  unfolding read_header
  read_header-Kept board next c = elim (Option-cases (read_exact (p.header_bytes - 1) c.world).0) [
    | inl f ↦ rw (f, read_header) (world-Kept c _)
    | inr (h, f) ↦
        rw (f, read_header) (Kept-trans (world-Kept c _) (read_reply-Kept board _ next _))
  ]

  timed_out-Kept : (board : ℕ) (c : Comm) → Kept c (reply_timed_out p board c)
  unfolding reply_timed_out
  timed_out-Kept board c =
      Kept-trans (world-Kept c _) (Kept-trans (report-Kept _ _ _) (world-Kept _ _))

  reply_loop-Kept : (rounds board next : ℕ) (c : Comm) → Kept c (reply_loop p rounds board next c).2
  unfolding reply_loop
  reply_loop-Kept zero board next c = timed_out-Kept board c
  reply_loop-Kept (suc rounds) board next c =
      let (byte, w) = read_one_byte (rounds_now c.world) c.world in
      let c1 : Comm = record c { world = w } in
      elim (Option-cases byte) [
        | inl e ↦ rw (e, reply_loop) (Kept-trans (world-Kept c w) (timed_out-Kept board c1))
        | inr (b, e) ↦ elim (Bool-cases (b != p.sync_byte)) [
          | inl f ↦
              rw (e, f, reply_loop)
                (Kept-trans (world-Kept c w) (reply_loop-Kept rounds board next c1))
          | inr f ↦ elim (Option-cases (read_header p board next c1).0) [
            | inl g ↦
                rw (e, f, g, reply_loop)
                  (Kept-trans (world-Kept c w) (
                    Kept-trans (read_header-Kept board next c1) (reply_loop-Kept rounds board _ _)))
            | inr (ok, g) ↦
                rw (e, f, g, reply_loop)
                  (Kept-trans (world-Kept c w) (read_header-Kept board next c1))
          ]
        ]
      ]

  pub receive-Kept :
      (board next : ℕ) (c : Comm) → Kept c (receive_switch_state_frame p board next c).2
  unfolding receive_switch_state_frame
  receive-Kept board next c =
      elim (Bool-cases (c.port_open && p.is_valid_runtime_config c.runtime_config)) [
        | inl e ↦
            rw (e, receive_switch_state_frame)
              (Kept-trans (world-Kept c _) (reply_loop-Kept _ board next _))
        | inr e ↦ rw (e, receive_switch_state_frame) (Kept-refl c)
      ]
