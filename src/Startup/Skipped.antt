-- ===== src/Startup/Skipped.antt =====
-- A board that is to be skipped takes no part in a startup of src/PPUC.cpp.
use Prim.{Unit}
use libppuc.Common.{
  ℕ, ◌≡◌, refl, sym, subst, ap, ◌∙◌, Bool, true, false, List, mem, ◌==◌, if◌then◌else◌, Bool-cases,
  get_or-replicate, inl, inr, arith,
}
use libppuc.Protocol.{Protocol, ConfigFrameLaws}
use libppuc.State.{Comm}
use libppuc.Boards.{max_boards}
use libppuc.Session.{connect, restart_boards, reset_boards, fresh_config_status, next_sequence}
use libppuc.Config.{ConfigEvent, send_config_event, note_ack}
use libppuc.Config.Wait.{Steady}
use libppuc.Config.Retry.{board_of, config_frame, note_no_ack_lem}
use libppuc.Config.Abort.{IsCounted, send_config_event-IsCounted, send_config_event_elim}
use libppuc.Skipped.Csv.{mem-insert_any}
use libppuc.Yaml.{Yaml}
use libppuc.Settings.Led.{LedOrder}
use libppuc.Machine.{Ppuc, Platform}
use libppuc.Machine.Step.{Outcome, value, thrown, aborted, overflow}
use libppuc.Startup.Codes.{BoardCodes}
use libppuc.Startup.Attempt.{succeeded, startup_attempt, connect_ppuc}
use libppuc.Startup.Connect.{connect_ppuc_cases}
use libppuc.Startup.Invariant.{IsKept, startup_attempt-Keeps}
use libppuc.Startup.Calls.{
  Unchanged, register_switch_board-Unchanged, finalize-Unchanged,
  set_active_switch_boards-Unchanged, start-Unchanged, announced-Unchanged,
  send_setup_frame-Unchanged, send_mapping_frames-Unchanged, set_gi_state-Unchanged,
}
use libppuc.Startup.Restart.{restarted_lem}

-- A property of the configuration status and the present boards that SendConfigEvent keeps.
module _ (p : Protocol) (skipped : List ℕ) (P : Comm → Type 0)
    (send : (e : ConfigEvent) (c : Comm)
      → mem e.board_id skipped ≡ false
      → P c
      → P (send_config_event p e c).1)
    (along : (c d : Comm) → Unchanged c d → P c → P d) where
  pub along-IsKept : IsKept p skipped P
  along-IsKept = record {
    send = send;
    registers = λ b c h. along c _ (register_switch_board-Unchanged b c) h;
    announces = λ lists ns c h. along c _ (announced-Unchanged p lists ns skipped c) h;
    finalizes = λ c h. along c _ (finalize-Unchanged c) h;
    activates = λ bs c h. along c _ (set_active_switch_boards-Unchanged bs c) h;
    sets_up = λ c h. along c _ (send_setup_frame-Unchanged p c) h;
    maps = λ c h. along c _ (send_mapping_frames-Unchanged p c) h;
    sets_gi = λ c h. along c _ (set_gi_state-Unchanged p c) h;
    starts = λ c h. along c _ (start-Unchanged c) h;
  }

abbrev pub Absent : ℕ → Comm → Type 0
Absent z c = mem z c.boards.present ≡ false

module _ (p : Protocol) (laws : ConfigFrameLaws p) (z : ℕ) (skipped : List ℕ)
    (skips : mem z skipped ≡ true) where
  other_board :
      (e : ConfigEvent) (c : Comm) → mem e.board_id skipped ≡ false → (z == board_of p e c) ≡ false
  other_board e c u = elim (Bool-cases (z == board_of p e c)) [
    | inr h ↦ h
    | inl h ↦
        let q : z ≡ e.board_id = ground (
          arith,
          laws.names_board p.no_board c.sequence c.epoch e.board_id e.topic e.index e.key e.value,
        ) in
        let f : mem e.board_id skipped ≡ true = subst (λ b. mem b skipped ≡ true) q skips in cc
  ]

  send_config_event-Absent :
      (e : ConfigEvent) (c : Comm)
      → mem e.board_id skipped ≡ false
      → Absent z c
      → Absent z (send_config_event p e c).1
  unfolding note_ack
  send_config_event-Absent e c u h =
      let still = λ (d : Comm) (s : Steady 3 (next_sequence c) d).
        let q : Absent z d = ap (λ b. mem z b.present) s.boards ∙ h in q in
      send_config_event_elim p e c (Absent z) h h still
        (λ d s.
          mem-insert_any z (board_of p e c) d.boards.present ∙ rw (other_board e c u) (still d s))
        (λ d s. ap (λ b. mem z b.present) (note_no_ack_lem p (config_frame p e c) d).0 ∙ still d s)

module _ (y : Yaml) (p : Protocol) (k : BoardCodes) (platform_code : Platform → ℕ)
    (neo : LedOrder → ℕ) where
  startup_attempt-Absent :
      (laws : ConfigFrameLaws p) (z : ℕ) (s : Ppuc y)
      → mem z s.skipped_boards ≡ true
      → Absent z s.comm
      → Absent z (startup_attempt y p k platform_code neo s).1.comm
  startup_attempt-Absent laws z s skips h =
      let kept =
        along-IsKept p s.skipped_boards (Absent z)
          (send_config_event-Absent p laws z s.skipped_boards skips)
          (λ c d u a. ap (mem z) u.present ∙ a) in
      ((startup_attempt-Keeps y p k platform_code neo (Absent z) s.skipped_boards kept).run s
        (h, refl)).0

  startup_attempt-IsCounted :
      (s : Ppuc y)
      → IsCounted s.comm.config
      → IsCounted (startup_attempt y p k platform_code neo s).1.comm.config
  startup_attempt-IsCounted s h =
      let kept =
        along-IsKept p s.skipped_boards (λ c. IsCounted c.config)
          (λ e c u a. send_config_event-IsCounted p e c a)
          (λ c d u a. subst IsCounted (sym u.config) a) in
      ((startup_attempt-Keeps y p k platform_code neo (λ c. IsCounted c.config) s.skipped_boards
          kept).run
        s (h, refl)).0

  pub succeeded_lem :
      (r : Outcome (Unit {0}) × Ppuc y) → (succeeded y p k platform_code neo r).1 ≡ r.1
  succeeded_lem (value a, s) = refl
  succeeded_lem (thrown e, s) = refl
  succeeded_lem (aborted, s) = refl
  succeeded_lem (overflow, s) = refl

  -- What holds of the bus host after PPUC::Connect: a property of the state before it, of the one
  -- with the port opened, of the one after the restart of the boards, and of each startup from there.
  connect_ppuc_elim :
      (opened : Bool) (s : Ppuc y) (R : Comm → Type 0)
      → let (o, c) = connect p opened s.comm in
        let (reset, d) =
          (let r : Bool × Comm =
              if s.force_hard_reset then reset_boards p c else restart_boards p c in
            r) in
        R s.comm
        → R c
        → R d
        → (R d → R (startup_attempt y p k platform_code neo (record s { comm = d })).1.comm)
        → R (connect_ppuc y p k platform_code neo opened s).1.comm
  connect_ppuc_elim opened s R before with_port reset attempt =
      connect_ppuc_cases y p k platform_code neo opened s (λ r. R r.1.comm) before with_port reset
        (λ _ _. subst (λ (t : Ppuc y). R t.comm) (sym (succeeded_lem _)) (attempt reset))

  connect-Absent : (z : ℕ) (opened : Bool) (c : Comm) → Absent z c → Absent z (connect p opened c).1
  unfolding connect
  connect-Absent z true c h = refl
  connect-Absent z false c h = h

  fresh-IsCounted : IsCounted (fresh_config_status p)
  unfolding fresh_config_status
  fresh-IsCounted = record {
    streak = omega arith;
    each = λ i. rw (get_or-replicate {A = ℕ} max_boards i 0) (omega arith);
  }

  connect-IsCounted :
      (opened : Bool) (c : Comm) → IsCounted c.config → IsCounted (connect p opened c).1.config
  unfolding connect
  connect-IsCounted true c h = fresh-IsCounted
  connect-IsCounted false c h = h

  -- A board that is to be skipped is not among the boards that are present after PPUC::Connect,
  -- whatever the configuration, the port and the boards do, and whether it succeeds or not; if it
  -- was not among them before.
  pub connect_ppuc-Absent :
      (laws : ConfigFrameLaws p) (opened : Bool) (s : Ppuc y) (z : ℕ)
      → mem z s.skipped_boards ≡ true
      → mem z s.comm.boards.present ≡ false
      → mem z (connect_ppuc y p k platform_code neo opened s).1.comm.boards.present ≡ false
  connect_ppuc-Absent laws opened s z skips h =
      let c = (connect p opened s.comm).1 in
      let h1 = connect-Absent z opened s.comm h in
      let r = restarted_lem p s.force_hard_reset c in
      connect_ppuc_elim opened s (Absent z) h h1 (ap (λ b. mem z b.present) r.0 ∙ h1)
        (λ a. startup_attempt-Absent laws z _ skips a)

  -- Through PPUC::Connect, whatever its configuration and outcome, the counts of acknowledgements
  -- missed in a row never pass the threshold of 10; if they did not before.
  pub connect_ppuc-IsCounted :
      (opened : Bool) (s : Ppuc y)
      → IsCounted s.comm.config
      → IsCounted (connect_ppuc y p k platform_code neo opened s).1.comm.config
  connect_ppuc-IsCounted opened s h =
      let c = (connect p opened s.comm).1 in
      let h1 = connect-IsCounted opened s.comm h in
      let r = restarted_lem p s.force_hard_reset c in
      connect_ppuc_elim opened s (λ d. IsCounted d.config) h h1
        (elim r.1 [
          | inl e ↦ subst IsCounted (sym e) fresh-IsCounted
          | inr e ↦ subst IsCounted (sym e) h1
        ])
        (λ a. startup_attempt-IsCounted _ a)
