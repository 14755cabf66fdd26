-- ===== src/Session/Resync.antt =====
-- A new session: `ResyncSession` of src/RS485Comm.cpp on a port that takes every byte.

use libppuc.Common.{
  ℕ, ◌≡◌, refl, sym, ap, subst, ◌∙◌, Bool, true, false, ◌&&◌, List, [], ◌∷◌, ◌++◌, inc_u8, arith,
}
use mathlib.Core.List.{append-nil}
use libppuc.Protocol.{Protocol}
use libppuc.State.{session_resync, resync_started, Comm}
use libppuc.Anomaly.{report}
use libppuc.Port.{now, flush_input, write_bytes}
use libppuc.Session.{next_sequence, hold_polls, flush, send_setup_frame, resync_session}
use libppuc.Session.Sequence.{
  Accepts, Wrote, Wrote-trans, write_accepted, if_true, all_mapping_frames, send_mapping_frames_lem,
}

module _ (p : Protocol) where
  abbrev pub setup_frame : Comm → List ℕ
  setup_frame c = p.build_setup_frame p.no_board c.sequence c.epoch c.runtime_config

  send_setup_frame_lem :
      (c : Comm)
      → c.port_open ≡ true
      → p.is_valid_runtime_config c.runtime_config ≡ true
      → Accepts c.world
      → let (ok, d) = send_setup_frame p c in (ok ≡ true) × Wrote (setup_frame c ∷ []) c d
  unfolding send_setup_frame
  send_setup_frame_lem c o v a =
      let t : (c.port_open && p.is_valid_runtime_config c.runtime_config) ≡ true = ground arith in
      let b = setup_frame c in
      subst (λ (r : Bool × Comm). (r.0 ≡ true) × Wrote (b ∷ []) c r.1)
        (sym (
          if_true (c.port_open && p.is_valid_runtime_config c.runtime_config)
            (write_bytes "SetupFrame" b (next_sequence c)) (false, c) t))
        (write_accepted "SetupFrame" b c o a)

  all_same :
      (c d : Comm)
      → c.mappings ≡ d.mappings
      → c.sequence ≡ d.sequence
      → c.epoch ≡ d.epoch
      → all_mapping_frames p c ≡ all_mapping_frames p d
  all_same c d m s e = rw (m, s, e) refl

  -- The state in which a resync begins to write: the next epoch, and one more report.
  abbrev restarted : Comm → Comm
  restarted c =
      report session_resync (resync_started (inc_u8 c.epoch)) (record c { epoch = inc_u8 c.epoch })

  report_Wrote : (c : Comm) → Wrote [] (record c { epoch = inc_u8 c.epoch }) (restarted c)
  unfolding report
  report_Wrote c = record {
    sent = sym (append-nil c.world.sent);
    accepts = refl;
    connected = refl;
    epoch = refl;
    mappings = refl;
    config = refl;
    outputs = refl;
    enabled = refl;
    sequence = refl;
  }

  -- The frames of a resync.
  abbrev pub resync_frames : Comm → List (List ℕ)
  resync_frames c =
      let n : Comm = record c { epoch = inc_u8 c.epoch } in
      setup_frame n ∷ all_mapping_frames p (next_sequence n)

  -- On a port that takes every byte and with a valid configuration a resync succeeds: it moves to
  -- the next epoch, writes the setup frame and then all mapping frames in that epoch, and the wish
  -- for it is gone.
  pub resync_session_lem :
      (c : Comm)
      → c.port_open ≡ true
      → p.is_valid_runtime_config c.runtime_config ≡ true
      → Accepts c.world
      → let (ok, d) = resync_session p c in
        (ok ≡ true)
        × (d.epoch ≡ inc_u8 c.epoch)
        × (d.need_resync ≡ false)
        × (d.world.sent ≡ c.world.sent ++ resync_frames c)
  unfolding resync_session hold_polls flush flush_input now report
  resync_session_lem c o v a =
      let n : Comm = record c { epoch = inc_u8 c.epoch } in
      let r = restarted c in
      let (h1, w1) = send_setup_frame_lem r o v a in
      let d1 = (send_setup_frame p r).1 in
      let (h2, w2) =
        send_mapping_frames_lem p d1 (w1.connected ∙ o) (λ x y. rw w1.accepts (a x y)) in
      let w = Wrote-trans w1 w2 in
      let e = all_same d1 (next_sequence n) w1.mappings w1.sequence w1.epoch in
      rw (h1, h2, resync_session)
        (refl, w.epoch, refl, w.sent ∙ ap (λ fs. c.world.sent ++ (setup_frame n ∷ fs)) e)
