-- ===== src/Config/Found.antt =====
-- How `ReceiveConfigAck` of src/RS485Comm.cpp finds an acknowledgement among the bytes that arrive.
use libppuc.Common.{
  ℕ, zero, suc, ◌+◌, ◌-◌, ◌<◌, ◌≡◌, refl, sym, ap, ◌∙◌, inl, inr, if_elim, Bool, true, some, List,
  [], ◌∷◌, ◌++◌, length, get_or, ◌==◌, ◌!=◌, arith, Bool-cases, Option-cases, length-append,
}
use mathlib.Core.List.{append_assoc}
use libppuc.Protocol.{Protocol}
use libppuc.State.{Comm}
use libppuc.Port.{input_waiting, read_exact, tick}
use libppuc.Port.Reading.{read_exact_lem}
use libppuc.Config.{read_ack, read_ack_header, ack_round, ack_loop, receive_config_ack}
use libppuc.Config.Wait.{ack_round-Steady}
use libppuc.Config.Acked.{
  IsAck, Acknowledged, Acknowledged-Shrinks, single, front, check_ack_lem, drain_frame_lem,
}

module _ (p : Protocol) (board topic index key : ℕ) where
  -- The rest of an acknowledgement, after a part of it.
  abbrev Completed : List ℕ → List ℕ → Type 0
  Completed start input =
      (body : List ℕ) × (after : List ℕ) × (input ≡ body ++ after)
      × IsAck p board topic index key (start ++ body)

  read_ack-Completed :
      (h : List ℕ) (c : Comm)
      → 1 < p.header_bytes
      → length h ≡ p.header_bytes - 1
      → (read_ack p board topic index key (p.sync_byte ∷ h) c).0 ≡ some true
      → Completed (p.sync_byte ∷ h) c.world.input
  unfolding read_ack
  read_ack-Completed h c two len =
      let n = p.config_ack_payload_bytes + p.crc_bytes in
      let (rest, w) = read_exact n c.world in
      elim (Bool-cases (p.extract_type (get_or h 0 0) != p.frame_config_ack)) [
        | inl e ↦ rw (e, read_ack) (λ q. absurd (drain_frame_lem p board topic index key _ c q))
        | inr e ↦ elim (Option-cases rest) [
          | inl f ↦ rw (e, f, read_ack) (λ q. cc)
          | inr (body, f) ↦
              let (many, cut) = read_exact_lem n body c.world f in
              let frame = p.sync_byte ∷ (h ++ body) in
              let size : length frame ≡ p.header_bytes + p.config_ack_payload_bytes + p.crc_bytes =
                omega (arith, length-append h body, many, len, two) in
              rw (e, f, read_ack)
                (λ q.
                  let (sum, x, y, z, u, v) =
                    check_ack_lem p board topic index key frame (record c { world = w }) q in
                  (
                    body,
                    w.input,
                    sym cut,
                    record {
                      size = size;
                      begins = refl;
                      kind =
                          ap p.extract_type (front h body (omega (arith, len, two))) ∙ ground arith;
                      checksum = rw size sum;
                      from_board = x;
                      of_topic = y;
                      of_index = z;
                      of_key = u;
                      accepts = v;
                    },
                  ))
        ]
      ]

  read_ack_header-Completed :
      (c : Comm)
      → 1 < p.header_bytes
      → (read_ack_header p board topic index key c).0 ≡ some true
      → Completed (p.sync_byte ∷ []) c.world.input
  unfolding read_ack_header
  read_ack_header-Completed c two =
      let n = p.header_bytes - 1 in
      let (rest, w) = read_exact n c.world in
      elim (Option-cases rest) [
        | inl e ↦ rw (e, read_ack_header) (λ q. cc)
        | inr (h, e) ↦
            let (many, cut) = read_exact_lem n h c.world e in
            rw (e, read_ack_header)
              (λ q.
                let (body, after, found, ack) =
                  read_ack-Completed h (record c { world = w }) two many q in
                (
                  h ++ body,
                  after,
                  sym cut ∙ (ap (λ l. h ++ l) found ∙ sym (append_assoc h body after)),
                  ack,
                ))
      ]

  ack_round-Acknowledged :
      (c : Comm)
      → 1 < p.header_bytes
      → (ack_round p board topic index key c).0 ≡ some true
      → Acknowledged p board topic index key c.world.input
  unfolding ack_round input_waiting
  ack_round-Acknowledged c two =
      let (n, w) = input_waiting c.world in
      let (first, w') = read_exact 1 w in
      elim (Bool-cases (n == 0)) [
        | inl e ↦ rw (e, ack_round) (λ q. cc)
        | inr e ↦ elim (Option-cases first) [
          | inl f ↦ rw (e, f, ack_round) (λ q. cc)
          | inr (b, f) ↦ elim (Bool-cases (get_or b 0 0 != p.sync_byte)) [
            | inl g ↦ rw (e, f, g, ack_round) (λ q. cc)
            | inr g ↦
                let (one, cut) = read_exact_lem 1 b w f in
                let sync : b ≡ p.sync_byte ∷ [] = single b one ∙ ap (λ x. x ∷ []) (ground arith) in
                rw (e, f, g, ack_round)
                  (λ q.
                    let (body, after, found, ack) =
                      read_ack_header-Completed (record c { world = w' }) two q in
                    record {
                      frame = p.sync_byte ∷ body;
                      before = [];
                      after = after;
                      found =
                          sym cut
                          ∙ (ap (λ l. l ++ w'.input) sync ∙ ap (λ l. p.sync_byte ∷ l) found);
                      ack = ack;
                    })
          ]
        ]
      ]

  ack_loop-Acknowledged :
      (rounds : ℕ) (c : Comm)
      → 1 < p.header_bytes
      → (ack_loop p rounds board topic index key c).0 ≡ true
      → Acknowledged p board topic index key c.world.input
  unfolding ack_loop
  ack_loop-Acknowledged zero c two = λ q. cc
  ack_loop-Acknowledged (suc rounds) c two =
      let (r, c') = ack_round p board topic index key c in
      let s = ack_round-Steady p board topic index key c in
      let again = ack_loop-Acknowledged rounds c' two in
      elim (Option-cases r) [
        | inl e ↦
            rw (e, ack_loop) (λ q. Acknowledged-Shrinks p board topic index key s.input (again q))
        | inr (b, e) ↦ rw (e, ack_loop) (λ q. ack_round-Acknowledged c two (e ∙ ap (λ x. some x) q))
      ]

  -- A wait that ends with an acknowledgement has found one in the input.
  pub receive_config_ack-Acknowledged :
      (c : Comm)
      → 1 < p.header_bytes
      → (receive_config_ack p board topic index key c).0 ≡ true
      → Acknowledged p board topic index key c.world.input
  unfolding receive_config_ack
  receive_config_ack-Acknowledged c two =
      if_elim {A = Bool × Comm}
        (λ r. r.0 ≡ true → Acknowledged p board topic index key c.world.input) c.port_open _ _
        (λ _.
          ack_loop-Acknowledged (c.world.rounds c.world.calls) (record c { world = tick c.world })
            two)
        (λ _ q. cc)
