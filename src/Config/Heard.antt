-- ===== src/Config/Heard.antt =====
-- The acknowledgement that the attempts of `SendConfigEvent` (src/RS485Comm.cpp) have heard.
use libppuc.Common.{
  ℕ, zero, suc, ◌+◌, ◌<◌, ◌≡◌, refl, inl, inr, true, some, List, get_or, if◌then◌else◌, if_elim,
  ltb, inc_u32, arith, Bool-cases,
}
use libppuc.Protocol.{Protocol}
use libppuc.State.{Comm}
use libppuc.Port.{write_bytes}
use libppuc.Port.Input.{Shrinks-refl, Shrinks-trans}
use libppuc.Config.Acked.{Acknowledged, Acknowledged-Shrinks}
use libppuc.Config.Found.{receive_config_ack-Acknowledged}
use libppuc.Session.{flush}
use libppuc.Config.{receive_config_ack, attempt}
use libppuc.Config.Wait.{
  Steady, Steady-refl, Steady-trans, flush-Steady, write_bytes-Steady, receive_config_ack-Steady,
}

module _ (p : Protocol) where
  -- An acknowledgement of the frame `b` is among the bytes of an input.
  abbrev pub AckOf : List ℕ → List ℕ → Type 0
  AckOf b input = Acknowledged p (get_or b 5 0) (get_or b 6 0) (get_or b 7 0) (get_or b 8 0) input

  pub retry_Steady :
      (done : ℕ) (c : Comm)
      → Steady 0 c (
          if ltb 0 done
          then record c {
            counters = record (c.counters) { ack_retries = inc_u32 c.counters.ack_retries };
          }
          else c)
  retry_Steady done c =
      if_elim (Steady 0 c) (ltb 0 done) _ c
        (λ _. record {
          sent = omega arith;
          config = refl;
          boards = refl;
          input = Shrinks-refl c.world.input;
        })
        (λ _. Steady-refl 0 c)

  -- An attempt that was acknowledged has found an acknowledgement of its frame in the input.
  pub attempt-AckOf :
      (left done : ℕ) (b : List ℕ) (c : Comm)
      → 1 < p.header_bytes
      → (attempt p left done b c).0 ≡ some true
      → AckOf b c.world.input
  unfolding attempt
  attempt-AckOf zero done b c two = λ q. cc
  attempt-AckOf (suc left) done b c two =
      let c0 : Comm =
        if ltb 0 done
        then record c {
          counters = record (c.counters) { ack_retries = inc_u32 c.counters.ack_retries };
        }
        else c in
      let s0 =
        Steady-trans {k = 1} (omega arith) (retry_Steady done c)
          (write_bytes-Steady "ConfigFrame" b c0) in
      let (written, c1) = write_bytes "ConfigFrame" b c0 in
      let s1 =
        receive_config_ack-Steady p (get_or b 5 0) (get_or b 6 0) (get_or b 7 0) (get_or b 8 0)
          c1 in
      let (acked, c2) =
        receive_config_ack p (get_or b 5 0) (get_or b 6 0) (get_or b 7 0) (get_or b 8 0) c1 in
      let found =
        receive_config_ack-Acknowledged p (get_or b 5 0) (get_or b 6 0) (get_or b 7 0)
          (get_or b 8 0) c1 two in
      let again = attempt-AckOf left (done + 1) b (flush c2) two in
      let later = Shrinks-trans s0.input (Shrinks-trans s1.input (flush-Steady c2).input) in
      elim (Bool-cases written) [
        | inr e ↦ rw (e, attempt) (λ q. cc)
        | inl e ↦ elim (Bool-cases acked) [
          | inl f ↦ rw (e, f, attempt) (λ q. Acknowledged-Shrinks p _ _ _ _ s0.input (found f))
          | inr f ↦ rw (e, f, attempt) (λ q. Acknowledged-Shrinks p _ _ _ _ later (again q))
        ]
      ]
