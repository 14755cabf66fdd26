-- ===== src/Startup/Restart.antt =====
-- What the restart before the startup of src/PPUC.cpp leaves as it is.

use libppuc.Common.{◌≡◌, ◌⊎◌, refl, Bool, true, false, if◌then◌else◌, if_elim, inl, inr}
use libppuc.Protocol.{Protocol}
use libppuc.State.{Comm}
use libppuc.Session.{
  restart_boards, reset_boards, fresh_config_status, send_restart_frame, send_reset_frame, flush,
  next_sequence,
}
use libppuc.Port.{write_bytes}
use libppuc.Config.Wait.{write_bytes-Steady}

module _ (p : Protocol) where
  abbrev SameSetup : Comm → Comm → Type 0
  SameSetup c d = (d.boards ≡ c.boards) × (d.config ≡ c.config)

  reset_frame_lem : (c : Comm) → SameSetup c (send_reset_frame p c).1
  unfolding send_reset_frame
  reset_frame_lem c =
      let b = p.build_bare_frame p.frame_reset p.flag_none p.no_board c.sequence c.epoch in
      let w = write_bytes-Steady "ResetFrame" b (next_sequence c) in
      if_elim (λ (r : Bool × Comm). SameSetup c r.1) c.port_open
        (write_bytes "ResetFrame" b (next_sequence c)) (false, c) (λ _. (w.boards, w.config))
        (λ _. (refl, refl))

  restart_frame_lem : (c : Comm) → SameSetup c (send_restart_frame p c).1
  unfolding send_restart_frame
  restart_frame_lem c =
      let b = p.build_bare_frame p.frame_restart p.flag_none p.no_board c.sequence c.epoch in
      let w = write_bytes-Steady "RestartFrame" b (next_sequence c) in
      if_elim (λ (r : Bool × Comm). SameSetup c r.1) c.port_open
        (write_bytes "RestartFrame" b (next_sequence c)) (false, c) (λ _. (w.boards, w.config))
        (λ _. (refl, refl))

  -- What a restart leaves: the boards, and a fresh status where it begins.
  abbrev pub Restarted : Comm → Comm → Type 0
  Restarted c d =
      (d.boards ≡ c.boards) × ((d.config ≡ fresh_config_status p) ⊎ (d.config ≡ c.config))

  flushed :
      (c : Comm) (r : Bool × Comm)
      → SameSetup (record c { config = fresh_config_status p }) r.1
      → Restarted c
          (let (sent, d) = r in
            let x : Bool × Comm = if sent then (true, flush d) else (false, d) in x).1
  unfolding flush
  flushed c (true, d) (b, f) = (b, inl f)
  flushed c (false, d) (b, f) = (b, inl f)

  pub restarted_lem :
      (hard : Bool) (c : Comm)
      → Restarted c
          (let r : Bool × Comm = if hard then reset_boards p c else restart_boards p c in r).1
  unfolding restart_boards reset_boards
  restarted_lem true c =
      let d : Comm = record c { config = fresh_config_status p } in
      if_elim (λ (r : Bool × Comm). Restarted c r.1) c.port_open _ (false, c)
        (λ _. flushed c (send_reset_frame p d) (reset_frame_lem d)) (λ _. (refl, inr refl))
  restarted_lem false c =
      let d : Comm = record c { config = fresh_config_status p } in
      if_elim (λ (r : Bool × Comm). Restarted c r.1) c.port_open _ (false, c)
        (λ _. flushed c (send_restart_frame p d) (restart_frame_lem d)) (λ _. (refl, inr refl))
