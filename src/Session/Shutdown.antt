-- ===== src/Session/Shutdown.antt =====
-- The last frames of `Disconnect` of src/RS485Comm.cpp.
use libppuc.Common.{
  ℕ, zero, suc, ◌+◌, ◌≡◌, refl, sym, ap, subst, ◌∙◌, Bool, true, false, ◌&&◌, List, [], ◌∷◌, ◌++◌,
  get_or, replicate, ◌==◌, inc_u8, arith,
}
use libppuc.Protocol.{Protocol}
use libppuc.State.{Snapshot, Outputs, Comm}
use libppuc.Port.{flush_input, write_bytes}
use libppuc.Outputs.{
  current, clear_queued_events, clear_queued_output_snapshots, clear_output_state, hold_from,
  apply_coil_holdover, coil_bits,
}
use libppuc.Session.{
  next_sequence, flush, send_output_state_frame_from_buffers, send_output_state_frame, disconnect,
}
use libppuc.Session.Sequence.{Accepts, Wrote, Wrote-trans, write_accepted, if_true}

get_or-zeros : (n i : ℕ) → (get_or (replicate n 0) i 0 == 0) ≡ true
get_or-zeros zero i = refl
get_or-zeros (suc n) zero = refl
get_or-zeros (suc n) (suc i) = get_or-zeros n i

module _ (p : Protocol) where
  -- No coil is held.
  hold_from-zeros : (n i k : ℕ) (coils : List ℕ) → hold_from p n i (replicate k 0) coils ≡ coils
  unfolding hold_from
  hold_from-zeros zero i k coils = refl
  hold_from-zeros (suc n) i k coils =
      rw (get_or-zeros k i, hold_from) (hold_from-zeros n (i + 1) k coils)

  -- All is off, and nothing waits to be sent.
  abbrev pub all_off : Outputs → Outputs
  all_off o = record o {
    coil_bitmap = replicate p.max_coil_bytes 0;
    coil_hold_frames = replicate p.max_coil_bits 0;
    lamp_bitmap = replicate p.max_lamp_bytes 0;
    gi_levels = replicate p.gi_strings 0;
    snapshots = [];
    events = [];
  }

  -- The frame with everything off.
  abbrev pub off_frame : ℕ → Comm → List ℕ
  off_frame s c =
      p.build_output_state_frame p.no_board s c.epoch c.runtime_config
        (replicate p.max_coil_bytes 0) (replicate p.max_lamp_bytes 0) (replicate p.gi_strings 0)

  off_frame_same :
      (s t : ℕ) (c d : Comm)
      → s ≡ t
      → c.epoch ≡ d.epoch
      → c.runtime_config ≡ d.runtime_config
      → off_frame s c ≡ off_frame t d
  off_frame_same s t c d e f g = rw (off_frame, e, f, g) refl

  abbrev may_send : Comm → Bool
  may_send c =
      c.port_open && p.is_valid_runtime_config c.runtime_config && p.is_valid_board p.no_board

  from_buffers_lem :
      (s : Snapshot) (c : Comm)
      → c.port_open ≡ true
      → may_send c ≡ true
      → Accepts c.world
      → Wrote
          (p.build_output_state_frame p.no_board c.sequence c.epoch c.runtime_config s.coils s.lamps
              s.gi
            ∷ [])
          c
          (send_output_state_frame_from_buffers p p.no_board s c).1
  unfolding send_output_state_frame_from_buffers
  from_buffers_lem s c o v a =
      let b =
        p.build_output_state_frame p.no_board c.sequence c.epoch c.runtime_config s.coils s.lamps
          s.gi in
      let c' : Comm = record c { last_output_sequence = get_or b 3 0 } in
      let w = (write_accepted "OutputStateFrame" b c' o a).1 in
      subst (λ (r : Bool × Comm). Wrote (b ∷ []) c r.1)
        (sym
          (if_true (may_send c) (write_bytes "OutputStateFrame" b (next_sequence c')) (false, c) v))
        (record {
          sent = w.sent;
          accepts = w.accepts;
          connected = w.connected;
          epoch = w.epoch;
          mappings = w.mappings;
          config = w.config;
          outputs = w.outputs;
          enabled = w.enabled;
          sequence = w.sequence;
        })

  abbrev off_snapshot : Snapshot
  off_snapshot = record {
    coils = replicate p.max_coil_bytes 0;
    lamps = replicate p.max_lamp_bytes 0;
    gi = replicate p.gi_strings 0;
  }

  -- The present state with the held coils on.
  abbrev held : Comm → Snapshot
  held c = record (current c.outputs) {
    coils = apply_coil_holdover p c.outputs.coil_bitmap c.outputs.coil_hold_frames c;
  }

  held-all_off : (c : Comm) → c.outputs ≡ all_off c.outputs → held c ≡ off_snapshot
  unfolding apply_coil_holdover
  held-all_off c h =
      ap
        (λ (o : Outputs). record (current o) {
          coils = hold_from p (coil_bits p c) 0 o.coil_hold_frames o.coil_bitmap;
        })
        h
      ∙ ap (λ b. record off_snapshot { coils = b })
          (hold_from-zeros (coil_bits p c) 0 p.max_coil_bits (replicate p.max_coil_bytes 0))

  send_off_lem :
      (c : Comm)
      → c.port_open ≡ true
      → may_send c ≡ true
      → Accepts c.world
      → c.outputs ≡ all_off c.outputs
      → Wrote (off_frame c.sequence c ∷ []) c (send_output_state_frame p p.no_board c).1
  unfolding send_output_state_frame
  send_off_lem c o v a h =
      subst (λ (r : Bool × Comm). Wrote (off_frame c.sequence c ∷ []) c r.1)
        (sym (
          if_true (may_send c) (send_output_state_frame_from_buffers p p.no_board (held c) c)
            (false, c) v
          ∙ ap (λ s. send_output_state_frame_from_buffers p p.no_board s c) (held-all_off c h)))
        (from_buffers_lem off_snapshot c o v a)

  -- Disconnect drops what is queued, and the two frames that it writes, on a port that takes every
  -- byte, with a valid configuration, and where the protocol takes kNoBoard for a valid board
  -- number, have all coils, lamps and GI strings off. The port is closed afterwards.
  pub disconnect_lem :
      (c : Comm)
      → c.port_open ≡ true
      → p.is_valid_runtime_config c.runtime_config ≡ true
      → p.is_valid_board p.no_board ≡ true
      → Accepts c.world
      → let d = disconnect p c in
        (d.port_open ≡ false)
        × (d.outputs ≡ all_off c.outputs)
        × (d.world.sent
            ≡ c.world.sent ++ (off_frame c.sequence c ∷ off_frame (inc_u8 c.sequence) c ∷ []))
  unfolding disconnect clear_output_state clear_queued_events clear_queued_output_snapshots flush
      flush_input
  disconnect_lem c o v n a =
      let c1 : Comm = record c { outputs = all_off c.outputs } in
      let ok : may_send c ≡ true = ground arith in
      let w1 = send_off_lem c1 o ok a refl in
      let c2 = (send_output_state_frame p p.no_board c1).1 in
      let ok2 : may_send c2 ≡ true = rw (w1.connected, w1.config) ok in
      let h2 : c2.outputs ≡ all_off c2.outputs = w1.outputs ∙ ap all_off (sym w1.outputs) in
      let w2 = send_off_lem c2 (w1.connected ∙ o) ok2 (λ x y. rw w1.accepts (a x y)) h2 in
      let c3 = (send_output_state_frame p p.no_board c2).1 in
      let same : off_frame c2.sequence c2 ≡ off_frame (inc_u8 c.sequence) c =
        off_frame_same c2.sequence (inc_u8 c.sequence) c2 c w1.sequence w1.epoch w1.config in
      subst
        (λ (d : Comm).
          (d.port_open ≡ false)
          × (d.outputs ≡ all_off c.outputs)
          × (d.world.sent
              ≡ c.world.sent ++ (off_frame c.sequence c ∷ off_frame (inc_u8 c.sequence) c ∷ [])))
        (sym (if_true c.port_open (record (flush c3) { port_open = false }) c o))
        (
          refl,
          w2.outputs ∙ w1.outputs,
          (Wrote-trans w1 w2).sent
              ∙ ap (λ f. c.world.sent ++ (off_frame c.sequence c ∷ f ∷ [])) same,
        )
