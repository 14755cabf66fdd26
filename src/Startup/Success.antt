-- ===== src/Startup/Success.antt =====
-- What a startup of src/PPUC.cpp has made sure of where it succeeds.
use Prim.{Unit, tt}
use libppuc.Common.{
  ℕ, ◌≡◌, refl, sym, subst, ap, ◌∙◌, inl, inr, Bool, true, false, List, [], if◌then◌else◌,
}
use libppuc.Common.Ints.{pos}
use libppuc.Protocol.{Protocol}
use libppuc.State.{Comm}
use libppuc.Session.{connect, restart_boards, reset_boards, fresh_config_status, next_sequence}
use libppuc.Config.{ConfigEvent, send_config_event, note_ack}
use libppuc.Config.Wait.{Steady}
use libppuc.Config.Retry.{config_frame, note_no_ack_lem}
use libppuc.Config.Abort.{send_config_event_elim}
use libppuc.Startup.Skipped.{along-IsKept, succeeded_lem}
use libppuc.Startup.Invariant.{startup_attempt-Keeps}
use libppuc.Startup.Restart.{restarted_lem}
use libppuc.Api.{set_gi_state}
use libppuc.Yaml.{Yaml, ok}
use libppuc.Settings.Led.{LedOrder}
use libppuc.Settings.Validate.{validate_ppuc_configuration}
use libppuc.Machine.{Ppuc, Platform}
use libppuc.Machine.Step.{Outcome, value, thrown, aborted, overflow, ◌>>=◌, get}
use libppuc.Machine.Rules.{Keeps, modify-Keeps, demand-Keeps, bind-Keeps, then-Keeps, get-Keeps}
use libppuc.Machine.Success.{Ensures, bind-Ensures, keep-Ensures, abort_if_lem}
use libppuc.Startup.Codes.{BoardCodes}
use libppuc.Startup.Send.{on_comm, ask}
use libppuc.Startup.Attempt.{
  abort_after_failure, begin_session, startup_attempt, succeeded, connect_ppuc,
}
use libppuc.Startup.Connect.{connect_ppuc_cases}
use libppuc.Startup.Calls.{
  Unchanged, Unchanged-refl, start-Unchanged, send_setup_frame-Unchanged,
  send_mapping_frames-Unchanged, set_gi_state-Unchanged,
}

-- Where no configuration event has failed, no board is recorded as failed.
abbrev IsHonest : Comm → Type 0
IsHonest c = c.config.failed ≡ false → c.config.failed_boards ≡ []

send_config_event-IsHonest :
    (p : Protocol) (e : ConfigEvent) (c : Comm) → IsHonest c → IsHonest (send_config_event p e c).1
unfolding note_ack
send_config_event-IsHonest p e c q =
    let still = λ (d : Comm) (s : Steady 3 (next_sequence c) d).
      let r : IsHonest d = subst (λ g. g.failed ≡ false → g.failed_boards ≡ []) (sym s.config) q in
      r in
    send_config_event_elim p e c IsHonest q q still still
      (λ d s h. (let f = (note_no_ack_lem p (config_frame p e c) d).2 in cc))

module _ (y : Yaml) (p : Protocol) (k : BoardCodes) (platform_code : Platform → ℕ)
    (neo : LedOrder → ℕ) where
  -- No configuration event has failed.
  abbrev Answered : Ppuc y → Type 0
  Answered s = s.comm.config.failed ≡ false

  failed_lem : {c d : Comm} → Unchanged c d → c.config.failed ≡ false → d.config.failed ≡ false
  failed_lem u h = ap (λ g. g.failed) u.config ∙ h

  ask-Keeps :
      (f : Comm → Bool × Comm) → ((c : Comm) → Unchanged c (f c).1) → Keeps Answered (ask y f)
  unfolding ask
  ask-Keeps f u = record { run = λ s q. failed_lem (u s.comm) q }

  comm-Keeps : (f : Comm → Comm) → ((c : Comm) → Unchanged c (f c)) → Keeps Answered (on_comm y f)
  unfolding on_comm
  comm-Keeps f u = modify-Keeps Answered _ (λ s q. failed_lem (u s.comm) q)

  abort_after_failure-Ensures : Ensures Answered (abort_after_failure y p k platform_code neo)
  unfolding abort_after_failure ◌>>=◌ get
  abort_after_failure-Ensures = record {
    run = λ s a e. abort_if_lem Answered s.comm.config.failed s a (λ h. h) e;
  }

  gi-Unchanged :
      (b : Bool) (c : Comm)
      → Unchanged c
          ((let f : Comm → Comm = if b then (λ d. d) else set_gi_state p (pos 1) (pos 8) in f) c)
  gi-Unchanged true c = Unchanged-refl c
  gi-Unchanged false c = set_gi_state-Unchanged p c

  begin_session-Ensures :
      (polled : List ℕ) → Ensures Answered (begin_session y p k platform_code neo polled)
  unfolding begin_session
  begin_session-Ensures polled = bind-Ensures Answered _ _ (λ _. bind-Ensures Answered _ _ (λ _.
      bind-Ensures Answered _ _ (λ _. bind-Ensures Answered _ _ (λ _.
        bind-Ensures Answered _ _ (λ _. keep-Ensures Answered _ _ abort_after_failure-Ensures (λ _.
          bind-Keeps Answered _ _ (ask-Keeps _ (send_setup_frame-Unchanged p)) (λ set_up.
            then-Keeps Answered _ _ (demand-Keeps Answered set_up) (
              bind-Keeps Answered _ _ (ask-Keeps _ (send_mapping_frames-Unchanged p)) (λ mapped.
                then-Keeps Answered _ _ (demand-Keeps Answered mapped) (
                  get-Keeps Answered _ (λ s _.
                    then-Keeps Answered _ _ (comm-Keeps _ (gi-Unchanged _))
                      (comm-Keeps _ start-Unchanged))))))))))))

  startup_attempt-Ensures : Ensures Answered (startup_attempt y p k platform_code neo)
  unfolding startup_attempt
  startup_attempt-Ensures = bind-Ensures Answered _ _ (λ _. bind-Ensures Answered _ _ (λ s.
      bind-Ensures Answered _ _ (λ lists. bind-Ensures Answered _ _ (λ _.
        bind-Ensures Answered _ _ (λ t. bind-Ensures Answered _ _ (λ ns.
          bind-Ensures Answered _ _
            (λ _. bind-Ensures Answered _ _ (λ _. begin_session-Ensures _))))))))

  succeeded-Answered :
      (r : Outcome (Unit {0}) × Ppuc y)
      → ((a : Unit {0}) → r.0 ≡ value a → Answered r.1)
      → (succeeded y p k platform_code neo r).0 ≡ true
      → Answered (succeeded y p k platform_code neo r).1
  succeeded-Answered (value a, s) h e = h a refl
  succeeded-Answered (thrown x, s) h e = cc
  succeeded-Answered (aborted, s) h e = cc
  succeeded-Answered (overflow, s) h e = cc

  connect_lem : (opened : Bool) (c : Comm) → (connect p opened c).0 ≡ true → opened ≡ true
  unfolding connect
  connect_lem true c e = refl
  connect_lem false c e = e

  connect-IsHonest :
      (opened : Bool) (c : Comm) → (connect p opened c).0 ≡ true → IsHonest (connect p opened c).1
  unfolding connect fresh_config_status
  connect-IsHonest true c e = λ h. refl
  connect-IsHonest false c e = cc

  restarted-IsHonest :
      (hard : Bool) (c : Comm)
      → IsHonest c
      → IsHonest
          (let r : Bool × Comm = if hard then reset_boards p c else restart_boards p c in r).1
  unfolding fresh_config_status
  restarted-IsHonest hard c q = elim (restarted_lem p hard c).1 [
    | inl e ↦ λ h. ap (λ g. g.failed_boards) e
    | inr e ↦ λ h. ap (λ g. g.failed_boards) e ∙ q (sym (ap (λ g. g.failed) e) ∙ h)
  ]

  startup_attempt-IsHonest :
      (s : Ppuc y) → IsHonest s.comm → IsHonest (startup_attempt y p k platform_code neo s).1.comm
  startup_attempt-IsHonest s q =
      let kept =
        along-IsKept p s.skipped_boards IsHonest (λ e c u a. send_config_event-IsHonest p e c a)
          (λ c d u a. subst (λ g. g.failed ≡ false → g.failed_boards ≡ []) (sym u.config) a) in
      ((startup_attempt-Keeps y p k platform_code neo IsHonest s.skipped_boards kept).run s
        (q, refl)).0

  -- PPUC::Connect succeeds only with a valid configuration, on a port that opened, and if there is no
  -- board that left all attempts at a configuration event without an acknowledgement. An event of
  -- which a frame could not be written does not count as such.
  pub connect_ppuc-Answered :
      (opened : Bool) (s : Ppuc y)
      → (connect_ppuc y p k platform_code neo opened s).0 ≡ true
      → (validate_ppuc_configuration y neo s.config ≡ ok tt)
        × (opened ≡ true)
        × ((connect_ppuc y p k platform_code neo opened s).1.comm.config.failed ≡ false)
        × ((connect_ppuc y p k platform_code neo opened s).1.comm.config.failed_boards ≡ [])
  connect_ppuc-Answered opened s =
      connect_ppuc_cases y p k platform_code neo opened s
        (λ r.
          r.0 ≡ true
          → (validate_ppuc_configuration y neo s.config ≡ ok tt)
            × (opened ≡ true)
            × (r.1.comm.config.failed ≡ false)
            × (r.1.comm.config.failed_boards ≡ []))
        (λ e. cc) (λ e. cc) (λ e. cc)
        (λ valid o e.
          let start = restarted-IsHonest s.force_hard_reset _ (connect-IsHonest opened s.comm o) in
          let answered = succeeded-Answered _ (startup_attempt-Ensures.run _) e in
          let honest =
            subst (λ (t : Ppuc y). IsHonest t.comm) (sym (succeeded_lem y p k platform_code neo _))
              (startup_attempt-IsHonest _ start) in
          (valid, connect_lem opened s.comm o, answered, honest answered))
