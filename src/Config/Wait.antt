-- ===== src/Config/Wait.antt =====
-- What waiting for an acknowledgement and writing a frame do to the rest of the host.
use Prim.Native.String.{String}
use libppuc.Common.{
  ℕ, zero, suc, ◌+◌, ◌-◌, ◌≤◌, ◌≡◌, refl, ◌∙◌, inl, inr, Bool, Option, none, some, List, length,
  get_or, if_elim, ◌==◌, ◌!=◌, ltb, arith, Bool-cases, Option-cases, length-append,
}
use libppuc.Protocol.{Protocol}
use libppuc.State.{Anomaly, Message, World, Comm}
use libppuc.Anomaly.{report}
use libppuc.Port.{
  tick, read_exact, input_waiting, flush_input, blocking_write, write_result, write_bytes,
}
use libppuc.Port.Reading.{sent-read_exact}
use libppuc.Port.Input.{
  Shrinks, Shrinks-refl, Shrinks-trans, Shrinks-drop, read_exact-Shrinks, blocking_write-Shrinks,
}
use libppuc.Session.{flush}
use libppuc.Config.{
  drain_frame, other_payload, check_ack, read_ack, read_ack_header, ack_round, ack_loop,
  receive_config_ack,
}

-- At most `n` frames were written, the input was only read from its front, and what is known of the
-- boards is as before.
pub record Steady (n : ℕ) (c d : Comm) : Type 0 where
  pub sent : length d.world.sent ≤ length c.world.sent + n
  pub config : d.config ≡ c.config
  pub boards : d.boards ≡ c.boards
  pub input : Shrinks c.world.input d.world.input

pub Steady-refl : (n : ℕ) (c : Comm) → Steady n c c
Steady-refl n c = record {
  sent = omega arith;
  config = refl;
  boards = refl;
  input = Shrinks-refl c.world.input;
}

pub Steady-trans :
    {n m k : ℕ} {c d e : Comm} → n + m ≤ k → Steady n c d → Steady m d e → Steady k c e
Steady-trans h s t = record {
  sent = omega (arith, s.sent, t.sent);
  config = t.config ∙ s.config;
  boards = t.boards ∙ s.boards;
  input = Shrinks-trans s.input t.input;
}

-- A step that only changes the world, and writes nothing.
pub world-Steady :
    (c : Comm) (w : World)
    → w.sent ≡ c.world.sent
    → Shrinks c.world.input w.input
    → Steady 0 c (record c { world = w })
world-Steady c w h i = record { sent = rw h (omega arith); config = refl; boards = refl; input = i }

report-Steady : (k : Anomaly) (m : Message) (c : Comm) → Steady 0 c (report k m c)
unfolding report
report-Steady k m c = record {
  sent = omega arith;
  config = refl;
  boards = refl;
  input = Shrinks-refl c.world.input;
}

pub flush-Steady : (c : Comm) → Steady 0 c (flush c)
unfolding flush flush_input
flush-Steady c = record {
  sent = omega arith;
  config = refl;
  boards = refl;
  input = Shrinks-drop _ c.world.input;
}

write_result-Steady :
    (s : String) (b : List ℕ) (c : Comm) (r : Option ℕ) → Steady 0 c (write_result s b c r).1
unfolding write_result
write_result-Steady s b c none = report-Steady _ _ c
write_result-Steady s b c (some n) = elim (Bool-cases (n == length b)) [
  | inl e ↦ rw (e, write_result) (Steady-refl 0 c)
  | inr e ↦ rw (e, write_result) (report-Steady _ _ c)
]

length-blocking_write :
    (b : List ℕ) (w : World) → length (blocking_write b w).1.sent ≤ length w.sent + 1
unfolding blocking_write
length-blocking_write b w = elim (Option-cases (w.accepts w.calls (length b))) [
  | inl e ↦ rw (e, blocking_write) (omega arith)
  | inr (n, e) ↦ rw (e, blocking_write, length-append) (omega arith)
]

pub write_bytes-Steady : (s : String) (b : List ℕ) (c : Comm) → Steady 1 c (write_bytes s b c).1
unfolding write_bytes
write_bytes-Steady s b c =
    let (r, w) = blocking_write b c.world in
    let k = write_result-Steady s b (record c { world = w }) r in
    let sent : Steady 1 c (record c { world = w }) = record {
      sent = length-blocking_write b c.world;
      config = refl;
      boards = refl;
      input = blocking_write-Shrinks b c.world;
    } in
    if_elim {A = Bool × Comm} (λ r. Steady 1 c r.1) c.port_open _ _
      (λ _. Steady-trans (omega arith) sent k) (λ _. Steady-refl 1 c)

module _ (p : Protocol) where
  drain_frame-Steady : (t : ℕ) (c : Comm) → Steady 0 c (drain_frame p t c).1
  unfolding drain_frame
  drain_frame-Steady t c = elim (Option-cases (other_payload p t)) [
    | inl e ↦ rw (e, drain_frame) (Steady-refl 0 c)
    | inr (n, e) ↦
        elim (Bool-cases
          (ltb (p.header_bytes + p.config_payload_bytes + p.crc_bytes) (n + p.crc_bytes))) [
            | inl f ↦ rw (e, f, drain_frame) (Steady-refl 0 c)
            | inr f ↦
                rw (e, f, drain_frame)
                  (world-Steady c _ (sent-read_exact _ c.world) (read_exact-Shrinks _ c.world))
          ]
  ]

  check_ack-Steady :
      (board topic index key : ℕ) (b : List ℕ) (c : Comm)
      → Steady 0 c (check_ack p board topic index key b c).1
  unfolding check_ack report
  check_ack-Steady board topic index key b c =
      let same : (check_ack p board topic index key b c).1.world.input ≡ c.world.input =
        ground arith in
      record {
        sent = ground arith;
        config = ground arith;
        boards = ground arith;
        input = rw same (Shrinks-refl c.world.input);
      }

  read_ack-Steady :
      (board topic index key : ℕ) (header : List ℕ) (c : Comm)
      → Steady 0 c (read_ack p board topic index key header c).1
  unfolding read_ack
  read_ack-Steady board topic index key header c =
      let n = p.config_ack_payload_bytes + p.crc_bytes in
      let r =
        world-Steady c (read_exact n c.world).1 (sent-read_exact n c.world)
          (read_exact-Shrinks n c.world) in
      elim (Bool-cases (p.extract_type (get_or header 1 0) != p.frame_config_ack)) [
        | inl e ↦ rw (e, read_ack) (drain_frame-Steady _ c)
        | inr e ↦ elim (Option-cases (read_exact n c.world).0) [
          | inl f ↦ rw (e, f, read_ack) r
          | inr (body, f) ↦
              rw (e, f, read_ack)
                (Steady-trans (omega arith) r (check_ack-Steady board topic index key _ _))
        ]
      ]

  read_ack_header-Steady :
      (board topic index key : ℕ) (c : Comm)
      → Steady 0 c (read_ack_header p board topic index key c).1
  unfolding read_ack_header
  read_ack_header-Steady board topic index key c =
      let n = p.header_bytes - 1 in
      let r =
        world-Steady c (read_exact n c.world).1 (sent-read_exact n c.world)
          (read_exact-Shrinks n c.world) in
      elim (Option-cases (read_exact n c.world).0) [
        | inl f ↦ rw (f, read_ack_header) r
        | inr (h, f) ↦
            rw (f, read_ack_header)
              (Steady-trans (omega arith) r (read_ack-Steady board topic index key _ _))
      ]

  pub ack_round-Steady :
      (board topic index key : ℕ) (c : Comm) → Steady 0 c (ack_round p board topic index key c).1
  unfolding ack_round input_waiting
  ack_round-Steady board topic index key c =
      let (n, w) = input_waiting c.world in
      let (first, w') = read_exact 1 w in
      let r = world-Steady c w' (sent-read_exact 1 w) (read_exact-Shrinks 1 w) in
      elim (Bool-cases (n == 0)) [
        | inl e ↦ rw (e, ack_round) (world-Steady c w refl (Shrinks-refl c.world.input))
        | inr e ↦ elim (Option-cases first) [
          | inl f ↦ rw (e, f, ack_round) r
          | inr (b, f) ↦ elim (Bool-cases (get_or b 0 0 != p.sync_byte)) [
            | inl g ↦ rw (e, f, g, ack_round) r
            | inr g ↦
                rw (e, f, g, ack_round)
                  (Steady-trans (omega arith) r (read_ack_header-Steady board topic index key _))
          ]
        ]
      ]

  ack_loop-Steady :
      (rounds board topic index key : ℕ) (c : Comm)
      → Steady 0 c (ack_loop p rounds board topic index key c).1
  unfolding ack_loop
  ack_loop-Steady zero board topic index key c = record {
    sent = omega arith;
    config = refl;
    boards = refl;
    input = Shrinks-refl c.world.input;
  }
  ack_loop-Steady (suc rounds) board topic index key c =
      let r = ack_round-Steady board topic index key c in
      elim (Option-cases (ack_round p board topic index key c).0) [
        | inl e ↦
            rw (e, ack_loop)
              (Steady-trans (omega arith) r (ack_loop-Steady rounds board topic index key _))
        | inr (b, e) ↦ rw (e, ack_loop) r
      ]

  pub receive_config_ack-Steady :
      (board topic index key : ℕ) (c : Comm)
      → Steady 0 c (receive_config_ack p board topic index key c).1
  unfolding receive_config_ack
  receive_config_ack-Steady board topic index key c =
      let r = ack_loop-Steady (c.world.rounds c.world.calls) board topic index key in
      if_elim {A = Bool × Comm} (λ r. Steady 0 c r.1) c.port_open _ _
        (λ _.
          Steady-trans (omega arith)
            (world-Steady c (tick c.world) refl (Shrinks-refl c.world.input)) (r _))
        (λ _. Steady-refl 0 c)
