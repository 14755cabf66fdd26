-- ===== src/Startup/Connect.antt =====
-- The outcomes of PPUC::Connect (src/PPUC.cpp), and how they come about.
use Prim.{tt}
use libppuc.State.{Comm}
use libppuc.Common.{ℕ, arith, ◌≡◌, refl, Bool, true, false, not, if◌then◌else◌, if_elim}
use libppuc.Protocol.{Protocol}
use libppuc.Session.{connect, restart_boards, reset_boards}
use libppuc.Yaml.{Yaml, ok, err}
use libppuc.Settings.Led.{LedOrder}
use libppuc.Settings.Validate.{validate_ppuc_configuration}
use libppuc.Machine.{Ppuc, Platform}
use libppuc.Startup.Codes.{BoardCodes}
use libppuc.Startup.Attempt.{succeeded, startup_attempt, connect_ppuc}

module _ (y : Yaml) (p : Protocol) (k : BoardCodes) (platform_code : Platform → ℕ)
    (neo : LedOrder → ℕ) where
  -- What holds of each way in which PPUC::Connect ends: a configuration that is not valid, a port
  -- that does not open, a restart that is not sent, and a startup.
  pub connect_ppuc_cases :
      (opened : Bool) (s : Ppuc y) (R : Bool × Ppuc y → Type 0)
      → let (o, c) = connect p opened s.comm in
        let (reset, d) =
          (let r : Bool × Comm =
              if s.force_hard_reset then reset_boards p c else restart_boards p c in
            r) in
        R (false, s)
        → R (false, record s { comm = c })
        → R (false, record s { comm = d })
        → (validate_ppuc_configuration y neo s.config ≡ ok tt
            → o ≡ true
            → R (
                succeeded y p k platform_code neo
                  (startup_attempt y p k platform_code neo (record s { comm = d }))))
        → R (connect_ppuc y p k platform_code neo opened s)
  unfolding connect_ppuc
  connect_ppuc_cases opened s R invalid closed unsent attempt =
      let (o, c) = connect p opened s.comm in
      let (done, d) =
        (let r : Bool × Comm =
            if s.force_hard_reset then reset_boards p c else restart_boards p c in
          r) in
      let v0 = validate_ppuc_configuration y neo s.config in
      elim v0
          as (λ v.
            v0 ≡ v
            → R (
                let x : Bool × Ppuc y = elim v [
                  | err e ↦ (false, s)
                  | ok a ↦
                      if not o
                      then (false, record s { comm = c })
                      else if not done
                      then (false, record s { comm = d })
                      else succeeded y p k platform_code neo
                          (startup_attempt y p k platform_code neo (record s { comm = d }))
                ] in
                x)) [
                  | err e ↦ λ q. invalid
                  | ok a ↦ λ q.
                      if_elim R (not o) (false, record s { comm = c }) _ (λ _. closed)
                        (λ is_open.
                          if_elim R (not done) (false, record s { comm = d }) _ (λ _. unsent)
                            (λ _. attempt q (ground arith)))
                ]
        refl
